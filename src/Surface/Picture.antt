-- ===== src/Surface/Picture.antt =====
-- The surface of src/kernel/surface.c, its clipping, its damage and surface_fill_rect. The pixels
-- are the word at each index from the start of the allocation.
use pyrenis.Base.{
  ℕ, zero, suc, ◌+◌, ◌-◌, ◌*◌, ◌/◌, ◌%◌, ◌^◌, Bool, true, false, not, ◌||◌, ltb, leb, ◌==◌,
  if◌then◌else◌,
}

abbrev pub u32_max : ℕ
u32_max = 2 ^ 32 - 1

abbrev pub bytes_per_pixel : ℕ
bytes_per_pixel = 4

pub data Status : Type 0 where
  ok null_argument already_initialized not_initialized bad_geometry size_overflow : Status
  allocation_failure release_failure out_of_bounds rectangle_overflow : Status
  bad_source_pitch no_framebuffer framebuffer_mismatch present_failure : Status
  validation_failure : Status

pub record Rect : Type 0 where
  pub x : ℕ
  pub y : ℕ
  pub width : ℕ
  pub height : ℕ

pub record Surface : Type 0 where
  pub active : Bool
  pub width : ℕ
  pub height : ℕ
  pub pitch : ℕ
  pub pixels : ℕ → ℕ
  pub presents : ℕ
  pub last_present_pixels : ℕ
  pub presented_pixels : ℕ
  pub pending : Bool
  pub damage : Rect

abbrev pub minimum : ℕ → ℕ → ℕ
minimum left right = if ltb left right then left else right

abbrev pub add32 : ℕ → ℕ → ℕ
add32 a b = (a + b) % 2 ^ 32

unfoldable pub clear_damage : Surface → Surface
clear_damage s = record s {
  pending = false;
  damage = record { x = 0; y = 0; width = 0; height = 0 };
}

-- The rectangle that holds both.
unfoldable pub union : Rect → Rect → Rect
union d r =
    let left = minimum d.x r.x in
    let top = minimum d.y r.y in
    let right = add32 d.x d.width in
    let bottom = add32 d.y d.height in
    let right' = if ltb right (add32 r.x r.width) then add32 r.x r.width else right in
    let bottom' = if ltb bottom (add32 r.y r.height) then add32 r.y r.height else bottom in
    record { x = left; y = top; width = right' - left; height = bottom' - top }

unfoldable pub add_damage : Rect → Surface → Surface
add_damage r s =
    if r.width == 0 || r.height == 0
    then s
    else if not s.pending
    then record s { pending = true; damage = r }
    else record s { damage = union s.damage r }

unfoldable pub clip_rectangle : Surface → Rect → Status × Rect
clip_rectangle s r =
    if r.width == 0 || r.height == 0
    then (ok, record r { width = 0; height = 0 })
    else if leb s.width r.x || leb s.height r.y
    then (out_of_bounds, r)
    else if ltb (u32_max - r.x) r.width || ltb (u32_max - r.y) r.height
    then (rectangle_overflow, r)
    else (
      ok,
      record r {
        width = minimum r.width (s.width - r.x);
        height = minimum r.height (s.height - r.y);
      },
    )

-- The index of the first pixel of a row.
abbrev pub row_at : Surface → ℕ → ℕ
row_at s y = y * (s.pitch / bytes_per_pixel)

unfoldable pub put : ℕ → ℕ → (ℕ → ℕ) → ℕ → ℕ
put index pixel pixels i = if i == index then pixel else pixels i

-- The inner loop, from the index on.
unfoldable pub fill_row : ℕ → ℕ → ℕ → (ℕ → ℕ) → ℕ → ℕ
fill_row zero index pixel pixels = pixels
fill_row (suc rounds) index pixel pixels =
    fill_row rounds (index + 1) pixel (put index pixel pixels)

-- The outer loop, from the row on.
unfoldable pub fill_rows : ℕ → ℕ → ℕ → ℕ → ℕ → ℕ → (ℕ → ℕ) → ℕ → ℕ
fill_rows zero stride row left width pixel pixels = pixels
fill_rows (suc rounds) stride row left width pixel pixels =
    fill_rows rounds stride (row + 1) left width pixel
      (fill_row width (row * stride + left) pixel pixels)

unfoldable pub fill_clipped : ℕ → Surface → Status × Rect → Status × Surface
fill_clipped pixel s (ok, c) = if c.width == 0 || c.height == 0 then (ok, s) else (
  ok,
  add_damage c (record s {
    pixels = fill_rows c.height (s.pitch / bytes_per_pixel) c.y c.x c.width pixel s.pixels;
  }),
)
fill_clipped pixel s (st, c) = (st, s)

unfoldable pub surface_fill_rect : Bool → Rect → ℕ → Surface → Status × Surface
surface_fill_rect given r pixel s =
    if not given
    then (null_argument, s)
    else if not s.active
    then (not_initialized, s)
    else fill_clipped pixel s (clip_rectangle s r)
