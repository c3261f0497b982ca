-- ===== src/Surface/Life.antt =====
-- The start and the end of a surface of src/kernel/surface.c. Of the heap there are its answers:
-- `allocated` is what lies in the block that it gives, and `freed` whether it took it back.
use pyrenis.Base.{
  ℕ, ◌*◌, ◌/◌, ◌%◌, ◌^◌, ◌<◌, ◌≡◌, Bool, true, false, not, ◌||◌, Option, none, some, ltb, ◌==◌,
  arith, if◌then◌else◌,
}
use pyrenis.Base.Words.{mul64}
use pyrenis.Surface.Picture.{
  Surface, Status, ok, null_argument, already_initialized, not_initialized, bad_geometry,
  size_overflow, allocation_failure, release_failure, u32_max, bytes_per_pixel, clear_damage,
}
use pyrenis.Surface.Damage.{IsValid}
use pyrenis.Heap.Calls.{heap_size}

unfoldable pub bind_surface : ℕ → ℕ → ℕ → (ℕ → ℕ) → Surface → Status × Surface
bind_surface width height pitch pixels s =
    if (width == 0 || height == 0)
      || (ltb (u32_max / bytes_per_pixel) width
          || (ltb pitch (width * bytes_per_pixel) || not (pitch % bytes_per_pixel == 0)))
    then (bad_geometry, s)
    else (
      ok,
      clear_damage (record s {
        active = true;
        width = width;
        height = height;
        pitch = pitch;
        pixels = pixels;
        presents = 0;
        last_present_pixels = 0;
        presented_pixels = 0;
      }),
    )

unfoldable pub surface_initialize : Bool → ℕ → ℕ → Option (ℕ → ℕ) → Surface → Status × Surface
surface_initialize given width height allocated s =
    let pitch = width * bytes_per_pixel in
    if not given
    then (null_argument, s)
    else if s.active
    then (already_initialized, s)
    else if width == 0 || height == 0
    then (bad_geometry, s)
    else if ltb (u32_max / bytes_per_pixel) width
    then (size_overflow, s)
    else if ltb heap_size (mul64 pitch height)
    then (size_overflow, s)
    else elim allocated [
      | none ↦ (allocation_failure, s)
      | some pixels ↦ bind_surface width height pitch pixels s
    ]

unfoldable pub surface_release : Bool → Bool → Surface → Status × Surface
surface_release given freed s =
    if not given
    then (null_argument, s)
    else if not s.active
    then (not_initialized, s)
    else if not freed
    then (release_failure, s)
    else (
      ok,
      clear_damage (record s {
        active = false;
        width = 0;
        height = 0;
        pitch = 0;
        pixels = λ i. 0;
        presents = 0;
        last_present_pixels = 0;
        presented_pixels = 0;
      }),
    )

-- A surface that a start binds is valid.
pub bind_surface-IsValid :
    (width height pitch : ℕ) (pixels : ℕ → ℕ) (s t : Surface)
    → height < 2 ^ 32
    → bind_surface width height pitch pixels s ≡ (ok, t)
    → IsValid t
unfolding bind_surface clear_damage
bind_surface-IsValid width height pitch pixels s t h e = record {
  width_word = ground (arith, e);
  height_word = ground (arith, e, h);
  row_fits = ground (arith, e);
  damage_in_width = ground (arith, e);
  damage_in_height = ground (arith, e);
}
