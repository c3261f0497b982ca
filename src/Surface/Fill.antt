-- ===== src/Surface/Fill.antt =====
-- What surface_fill_rect of src/kernel/surface.c paints, and that the damage holds it.
use pyrenis.Base.{
  ℕ, ◌+◌, ◌-◌, ◌/◌, ◌≤◌, ◌<◌, ◌≡◌, refl, ◌∙◌, ap, true, false, not, ◌||◌, ltb, leb, ◌==◌, arith,
  inl, inr, ◌⊎◌, if_rule, if◌then◌else◌,
}
use pyrenis.Surface.Picture.{
  u32_max, Rect, Surface, Status, ok, bytes_per_pixel, minimum, add_damage, clip_rectangle,
  fill_rows, fill_clipped, surface_fill_rect,
}
use pyrenis.Surface.Rows.{fill_rows_is}
use pyrenis.Surface.Damage.{
  in_rect, in_span, IsValid, damaged, pixel_at, add_damage-IsValid, add_damage_covers,
  add_damage_pixels,
}

-- What a clip leaves: nothing, or the part of the rectangle that lies in the picture.
abbrev Clipped : Surface → Rect → Rect → Type 0
Clipped s r c =
    ((c.width ≡ 0) × ((x y : ℕ) → in_rect r x y ≡ false))
    ⊎ ((c.x + c.width ≤ s.width)
        × (c.y + c.height ≤ s.height)
        × ((x y : ℕ) → x < s.width → y < s.height → in_rect c x y ≡ in_rect r x y))

clip_rectangle-Clipped :
    (s : Surface) (r c : Rect) → IsValid s → clip_rectangle s r ≡ (ok, c) → Clipped s r c
unfolding clip_rectangle
clip_rectangle-Clipped s r c v =
    if_rule P (r.width == 0 || r.height == 0)
      (λ empty e. inl (rw (← (ap (λ p. p.1) e)) (refl, λ x y. ground (arith, empty))))
      λ _.
        if_rule P (leb s.width r.x || leb s.height r.y) (λ _ e. absurd (ground (arith, e)))
          λ inside.
            if_rule P (ltb (u32_max - r.x) r.width || ltb (u32_max - r.y) r.height)
              (λ _ e. absurd (ground (arith, e)))
              λ _ e. inr (
                rw (← (ap (λ p. p.1) e)) (
                  ground (arith, inside),
                  ground (arith, inside),
                  λ x y l u.
                      rw (narrowed r.x r.width s.width x (ground (arith, inside)) l)
                        (rw (narrowed r.y r.height s.height y (ground (arith, inside)) u) refl),
                ))
  where
    P : Status × Rect → Type 0
    P p = p ≡ (ok, c) → Clipped s r c

    narrowed :
        (start width limit x : ℕ)
        → start < limit
        → x < limit
        → in_span start (minimum width (limit - start)) x ≡ in_span start width x
    narrowed start width limit x l u = ground (arith, l, u)

-- The surface after a fill of the rectangle.
abbrev Filled : Surface → Rect → ℕ → Surface → Type 0
Filled s r pixel t =
    IsValid t
    × ((x y : ℕ)
        → x < s.width
        → y < s.height
        → (pixel_at t x y ≡ (if in_rect r x y then pixel else pixel_at s x y))
          × ((in_rect r x y ≡ true) ⊎ (damaged s x y ≡ true) → damaged t x y ≡ true))

nothing-Filled :
    (s : Surface) (r : Rect) (pixel : ℕ)
    → IsValid s
    → ((x y : ℕ) → x < s.width → y < s.height → in_rect r x y ≡ false)
    → Filled s r pixel s
nothing-Filled s r pixel v none = (v, λ x y l u. (rw (none x y l u) refl, kept x y (none x y l u)))
  where
    kept :
        (x y : ℕ)
        → in_rect r x y ≡ false
        → (in_rect r x y ≡ true) ⊎ (damaged s x y ≡ true)
        → damaged s x y ≡ true
    kept x y out (inl e) = absurd (ground (arith, out, e))
    kept x y out (inr e) = e

painted-Filled :
    (s : Surface) (r c : Rect) (pixel : ℕ)
    → IsValid s
    → c.x + c.width ≤ s.width
    → c.y + c.height ≤ s.height
    → ((x y : ℕ) → x < s.width → y < s.height → in_rect c x y ≡ in_rect r x y)
    → Filled s r pixel (
        add_damage c (record s {
          pixels = fill_rows c.height (s.pitch / bytes_per_pixel) c.y c.x c.width pixel s.pixels;
        }))
painted-Filled s r c pixel v w h alike = (
  add_damage-IsValid painted c v' w h,
  λ x y l u. (
    add_damage_pixels c painted x y ∙ rw (← (alike x y l u)) (colour x y l),
    λ hits. add_damage_covers painted c x y v' w h (rw (alike x y l u) hits),
  ),
)
  where
    stride : ℕ
    stride = s.pitch / bytes_per_pixel

    painted : Surface
    painted = record s { pixels = fill_rows c.height stride c.y c.x c.width pixel s.pixels }

    v' : IsValid painted
    v' = record {
      width_word = v.width_word;
      height_word = v.height_word;
      row_fits = v.row_fits;
      damage_in_width = v.damage_in_width;
      damage_in_height = v.damage_in_height;
    }

    colour :
        (x y : ℕ)
        → x < s.width
        → pixel_at painted x y ≡ (if in_rect c x y then pixel else pixel_at s x y)
    colour x y l =
        let wide : c.x + c.width ≤ stride = omega (arith, w, v.row_fits) in
        let inside : x < stride = omega (arith, l, v.row_fits) in
        ground (arith, fill_rows_is c.height stride c.y c.x c.width pixel s.pixels x y wide inside)

-- On a valid surface, a fill that answers ok leaves a valid one. Every pixel of the picture that
-- lies in the rectangle has the new value and every other is as before, and the pending damage
-- holds the rectangle as far as it lies in the picture, and all the damage of before.
pub surface_fill_rect_exact :
    (s t : Surface) (r : Rect) (pixel : ℕ)
    → IsValid s
    → surface_fill_rect true r pixel s ≡ (ok, t)
    → IsValid t
      × ((x y : ℕ)
          → x < s.width
          → y < s.height
          → (pixel_at t x y ≡ (if in_rect r x y then pixel else pixel_at s x y))
            × ((in_rect r x y ≡ true) ⊎ (damaged s x y ≡ true) → damaged t x y ≡ true))
unfolding surface_fill_rect fill_clipped
surface_fill_rect_exact s t r pixel v =
    if_rule P (not s.active) (λ _ e. absurd (ground (arith, e)))
      λ _ e. clipped (clip_rectangle s r) refl e
  where
    P : Status × Surface → Type 0
    P p = p ≡ (ok, t) → Filled s r pixel t

    out_of :
        (c : Rect)
        → (c.width == 0 || c.height == 0) ≡ true
        → Clipped s r c
        → (x y : ℕ) → x < s.width
        → y < s.height
        → in_rect r x y ≡ false
    out_of c empty (inl (zero_width, out)) x y l u = out x y
    out_of c empty (inr (w, h, alike)) x y l u = ground (arith, empty, alike x y l u)

    of_part :
        (c : Rect)
        → (c.width == 0 || c.height == 0) ≡ false
        → Clipped s r c
        → Filled s r pixel (
            add_damage c (record s {
              pixels =
                  fill_rows c.height (s.pitch / bytes_per_pixel) c.y c.x c.width pixel s.pixels;
            }))
    of_part c some (inl (zero_width, out)) = absurd (ground (arith, some, zero_width))
    of_part c some (inr (w, h, alike)) = painted-Filled s r c pixel v w h alike

    clipped : (p : Status × Rect) → clip_rectangle s r ≡ p → P (fill_clipped pixel s p)
    clipped (ok, c) from =
        let part = clip_rectangle-Clipped s r c v from in
        if_rule P (c.width == 0 || c.height == 0)
          (λ empty e. rw (← (ap (λ p. p.1) e)) (nothing-Filled s r pixel v (out_of c empty part)))
          λ some e. rw (← (ap (λ p. p.1) e)) (of_part c some part)
    clipped (st, c) from = λ e. absurd (ground (arith, e))
