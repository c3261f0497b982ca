-- ===== src/Surface/Tests.antt =====
-- An example for the theorem on src/kernel/surface.c: a picture of eight by four.
use pyrenis.Base.{ℕ, ◌<◌, ◌≡◌, ◌⊎◌, refl, true, arith, if◌then◌else◌}
use pyrenis.Surface.Picture.{
  Rect, Surface, ok, clip_rectangle, fill_clipped, fill_rows, fill_row, put, add_damage, union,
  surface_fill_rect,
}
use pyrenis.Surface.Damage.{in_rect, IsValid, damaged, pixel_at}
use pyrenis.Surface.Fill.{surface_fill_rect_exact}

-- The first pixel has changed.
abbrev picture : Surface
picture = record {
  active = true;
  width = 8;
  height = 4;
  pitch = 40;
  pixels = λ i. i;
  presents = 0;
  last_present_pixels = 0;
  presented_pixels = 0;
  pending = true;
  damage = record { x = 0; y = 0; width = 1; height = 1 };
}

picture-IsValid : IsValid picture
picture-IsValid = record {
  width_word = omega arith;
  height_word = omega arith;
  row_fits = omega arith;
  damage_in_width = λ p. omega arith;
  damage_in_height = λ p. omega arith;
}

-- Reaches past the right edge.
abbrev box : Rect
box = record { x = 6; y = 1; width = 5; height = 2 }

abbrev filled : Surface
filled = (surface_fill_rect true box 255 picture).1

fills : surface_fill_rect true box 255 picture ≡ (ok, filled)
unfolding surface_fill_rect clip_rectangle fill_clipped
fills = refl

paints :
    (pixel_at filled 7 2 ≡ 255)
    × (pixel_at filled 5 2 ≡ 25)
    × (filled.damage ≡ record { x = 0; y = 0; width = 8; height = 3 })
unfolding surface_fill_rect clip_rectangle fill_clipped add_damage union fill_rows fill_row put
paints = (refl, refl, refl)

surface_fill_rect_exact_example :
    IsValid filled
    × ((x y : ℕ)
        → x < 8
        → y < 4
        → (pixel_at filled x y ≡ (if in_rect box x y then 255 else pixel_at picture x y))
          × ((in_rect box x y ≡ true) ⊎ (damaged picture x y ≡ true) → damaged filled x y ≡ true))
surface_fill_rect_exact_example =
    surface_fill_rect_exact picture filled box 255 picture-IsValid fills
