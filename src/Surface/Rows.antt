-- ===== src/Surface/Rows.antt =====
-- What the loops of surface_fill_rect of src/kernel/surface.c write.
use native.Mathlib.Nat.{mul-le-mul_right}
use pyrenis.Base.{
  ℕ, zero, suc, ◌+◌, ◌*◌, ◌≤◌, ◌<◌, ◌≡◌, ◌&&◌, ltb, leb, ◌==◌, arith, inl, inr, Bool-cases,
  if◌then◌else◌,
}
use pyrenis.Surface.Picture.{put, fill_row, fill_rows}

fill_row_is :
    (rounds index pixel : ℕ) (pixels : ℕ → ℕ) (i : ℕ)
    → fill_row rounds index pixel pixels i
      ≡ (if leb index i && ltb i (index + rounds) then pixel else pixels i)
unfolding fill_row put
fill_row_is zero index pixel pixels i = ground arith
fill_row_is (suc rounds) index pixel pixels i =
    ground (arith, fill_row_is rounds (index + 1) pixel (put index pixel pixels) i)

rows_apart : (stride a b : ℕ) → a < b → a * stride + stride ≤ b * stride
rows_apart stride a b l =
    let next : a + 1 ≤ b = omega (arith, l) in
    let h = mul-le-mul_right stride next in grind (arith, h)

-- A place in a row is in the run of a row exactly when the rows are the same.
same_row :
    (stride row left width x y : ℕ)
    → left + width ≤ stride
    → x < stride
    → (leb (row * stride + left) (y * stride + x)
        && ltb (y * stride + x) (row * stride + left + width))
      ≡ (y == row && (leb left x && ltb x (left + width)))
same_row stride row left width x y fits inside = elim (Bool-cases (y == row)) [
  | inl here ↦ let at : y ≡ row = ground (arith, here) in rw at (ground arith)
  | inr elsewhere ↦ elim (Bool-cases (ltb y row)) [
    | inl before ↦
        ground
          (arith, elsewhere, before, rows_apart stride y row (ground (arith, before)), fits, inside)
    | inr after ↦
        ground (
          arith,
          elsewhere,
          after,
          rows_apart stride row y (ground (arith, elsewhere, after)),
          fits,
        )
  ]
]

pub fill_rows_is :
    (rounds stride row left width pixel : ℕ) (pixels : ℕ → ℕ) (x y : ℕ)
    → left + width ≤ stride
    → x < stride
    → fill_rows rounds stride row left width pixel pixels (y * stride + x) ≡ (
        if (leb row y && ltb y (row + rounds)) && (leb left x && ltb x (left + width))
        then pixel
        else pixels (y * stride + x))
unfolding fill_rows
fill_rows_is zero stride row left width pixel pixels x y fits inside = ground arith
fill_rows_is (suc rounds) stride row left width pixel pixels x y fits inside = ground (
  arith,
  fill_rows_is rounds stride (row + 1) left width pixel
      (fill_row width (row * stride + left) pixel pixels) x y fits inside,
  fill_row_is width (row * stride + left) pixel pixels (y * stride + x),
  same_row stride row left width x y fits inside,
)
