-- ===== src/Surface/Pixel.antt =====
-- Single pixels of a surface of src/kernel/surface.c.
use pyrenis.Base.{ℕ, ◌+◌, Bool, not, ◌||◌, Option, none, some, leb, if◌then◌else◌}
use pyrenis.Surface.Picture.{
  Surface, Status, ok, null_argument, not_initialized, out_of_bounds, row_at, put, add_damage,
}

unfoldable pub surface_pixel : Bool → ℕ → ℕ → ℕ → Surface → Status × Surface
surface_pixel given x y pixel s =
    if not given
    then (null_argument, s)
    else if not s.active
    then (not_initialized, s)
    else if leb s.width x || leb s.height y
    then (out_of_bounds, s)
    else (
      ok,
      add_damage (record { x = x; y = y; width = 1; height = 1 })
          (record s { pixels = put (row_at s y + x) pixel s.pixels }),
    )

-- The pixel goes through a pointer: `none` leaves it alone.
unfoldable pub surface_read_pixel : Bool → ℕ → ℕ → Surface → Status × Option ℕ
surface_read_pixel given x y s =
    if not given
    then (null_argument, none)
    else if not s.active
    then (not_initialized, some 0)
    else if leb s.width x || leb s.height y
    then (out_of_bounds, some 0)
    else (ok, some (s.pixels (row_at s y + x)))
