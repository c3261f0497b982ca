-- ===== src/Surface/Damage.antt =====
-- The damage rectangle of src/kernel/surface.c.
use pyrenis.Base.{
  ℕ, ◌+◌, ◌-◌, ◌*◌, ◌^◌, ◌≤◌, ◌<◌, ◌≡◌, refl, Bool, true, not, ◌&&◌, ◌||◌, ltb, leb, ◌==◌, arith,
  inl, inr, ◌⊎◌, if_rule, if◌then◌else◌,
}
use pyrenis.Surface.Picture.{Rect, Surface, row_at, minimum, add32, union, add_damage}

abbrev pub in_rect : Rect → ℕ → ℕ → Bool
in_rect r x y = (leb r.x x && ltb x (r.x + r.width)) && (leb r.y y && ltb y (r.y + r.height))

-- The rows do not overlap, and the damage is a rectangle inside the picture.
pub record IsValid (s : Surface) : Type 0 where
  pub width_word : s.width < 2 ^ 32
  pub height_word : s.height < 2 ^ 32
  pub row_fits : s.width * 4 ≤ s.pitch
  pub damage_in_width : s.pending ≡ true → s.damage.x + s.damage.width ≤ s.width
  pub damage_in_height : s.pending ≡ true → s.damage.y + s.damage.height ≤ s.height

-- The place is in the damage that is pending.
abbrev pub damaged : Surface → ℕ → ℕ → Bool
damaged s x y = s.pending && in_rect s.damage x y

abbrev pub pixel_at : Surface → ℕ → ℕ → ℕ
pixel_at s x y = s.pixels (row_at s y + x)

pub add_damage-IsValid :
    (s : Surface) (r : Rect)
    → IsValid s
    → r.x + r.width ≤ s.width
    → r.y + r.height ≤ s.height
    → IsValid (add_damage r s)
unfolding add_damage union
add_damage-IsValid s r v w h = record {
  width_word = ground (arith, v.width_word);
  height_word = ground (arith, v.height_word);
  row_fits = ground (arith, v.row_fits);
  damage_in_width = ground (arith, v.width_word, v.damage_in_width, w);
  damage_in_height = ground (arith, v.height_word, v.damage_in_height, h);
}

abbrev pub in_span : ℕ → ℕ → ℕ → Bool
in_span start width x = leb start x && ltb x (start + width)

-- One side of the union holds what either of the two holds.
span_covers :
    (a w b v n x : ℕ)
    → a + w ≤ n
    → b + v ≤ n
    → n < 2 ^ 32
    → (in_span a w x ≡ true) ⊎ (in_span b v x ≡ true)
    → let left = minimum a b in
      let right = add32 a w in
      let right' = if ltb right (add32 b v) then add32 b v else right in
      in_span left (right' - left) x ≡ true
span_covers a w b v n x wide_a wide_b word hits =
    let sum_a : add32 a w ≡ a + w = omega (arith, wide_a, word) in
    let sum_b : add32 b v ≡ b + v = omega (arith, wide_b, word) in
    rw sum_a (rw sum_b (ground (arith, hits)))

union_covers :
    (s : Surface) (r : Rect) (x y : ℕ)
    → IsValid s
    → r.x + r.width ≤ s.width
    → r.y + r.height ≤ s.height
    → s.pending ≡ true
    → (in_rect r x y ≡ true) ⊎ (in_rect s.damage x y ≡ true)
    → in_rect (union s.damage r) x y ≡ true
unfolding union
union_covers s r x y v w h pending hits =
    let d = s.damage in
    let across =
      span_covers d.x d.width r.x r.width s.width x (v.damage_in_width pending) w v.width_word
        (first hits) in
    let down =
      span_covers d.y d.height r.y r.height s.height y (v.damage_in_height pending) h v.height_word
        (second hits) in
    rw across (rw down refl)
  where
    first :
        (in_rect r x y ≡ true) ⊎ (in_rect s.damage x y ≡ true)
        → (in_span s.damage.x s.damage.width x ≡ true) ⊎ (in_span r.x r.width x ≡ true)
    first (inl e) = inr (ground (arith, e))
    first (inr e) = inl (ground (arith, e))

    second :
        (in_rect r x y ≡ true) ⊎ (in_rect s.damage x y ≡ true)
        → (in_span s.damage.y s.damage.height y ≡ true) ⊎ (in_span r.y r.height y ≡ true)
    second (inl e) = inr (ground (arith, e))
    second (inr e) = inl (ground (arith, e))

pub add_damage_covers :
    (s : Surface) (r : Rect) (x y : ℕ)
    → IsValid s
    → r.x + r.width ≤ s.width
    → r.y + r.height ≤ s.height
    → (in_rect r x y ≡ true) ⊎ (damaged s x y ≡ true)
    → damaged (add_damage r s) x y ≡ true
unfolding add_damage
add_damage_covers s r x y v w h inside =
    let P = λ (t : Surface). damaged t x y ≡ true in
    if_rule P (r.width == 0 || r.height == 0) (λ empty. only_old inside empty)
      λ _.
        if_rule P (not s.pending) (λ fresh. only_new inside fresh)
          λ old. joined inside (ground (arith, old))
  where
    only_old :
        (in_rect r x y ≡ true) ⊎ (damaged s x y ≡ true)
        → (r.width == 0 || r.height == 0) ≡ true
        → damaged s x y ≡ true
    only_old (inl e) empty = absurd (ground (arith, e, empty))
    only_old (inr e) empty = e

    only_new :
        (in_rect r x y ≡ true) ⊎ (damaged s x y ≡ true)
        → not s.pending ≡ true
        → in_rect r x y ≡ true
    only_new (inl e) fresh = e
    only_new (inr e) fresh = absurd (ground (arith, e, fresh))

    joined :
        (in_rect r x y ≡ true) ⊎ (damaged s x y ≡ true)
        → s.pending ≡ true
        → (s.pending && in_rect (union s.damage r) x y) ≡ true
    joined (inl e) pending = rw pending (union_covers s r x y v w h pending (inl e))
    joined (inr e) pending =
        rw pending (union_covers s r x y v w h pending (inr (ground (arith, e, pending))))

pub add_damage_pixels :
    (r : Rect) (s : Surface) (x y : ℕ) → pixel_at (add_damage r s) x y ≡ pixel_at s x y
unfolding add_damage
add_damage_pixels r s x y =
    let P = λ (t : Surface). pixel_at t x y ≡ pixel_at s x y in
    if_rule P (r.width == 0 || r.height == 0) (λ _. refl)
      λ _. if_rule P (not s.pending) (λ _. refl) λ _. refl
