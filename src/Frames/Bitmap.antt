-- ===== src/Frames/Bitmap.antt =====
-- The bitmaps of src/kernel/physical_memory.c: one bit for each frame, eight frames to a byte.
use Prim.Native.Nat.{bit_and, bit_or}
use native.Mathlib.Decide.{ℕ_discrete}
use pyrenis.Base.Bits.{and_zero_left}
use pyrenis.Base.{
  ℕ, zero, suc, ◌+◌, ◌-◌, ◌/◌, ◌%◌, ◌^◌, ◌<◌, ◌≡◌, refl, sym, ap, ◌∙◌, Bool, true, false, not, List,
  [], ◌∷◌, arith, ◌==◌, if◌then◌else◌, all_below, all_below_sound, ltb, ltb→lt, length, get_or, set,
  replicate, length-set, length-replicate, get_or-set_self, get_or-set_ne, get_or-replicate,
}

abbrev pub Bitmap : Type 0
Bitmap = List ℕ

-- `byte & mask`, `byte | mask` and `byte & (uint8_t)~mask` for the mask `1 << bit`.
abbrev test_bit : ℕ → ℕ → Bool
test_bit byte bit = not (bit_and byte (2 ^ bit) == 0)

abbrev put_bit : ℕ → ℕ → Bool → ℕ
put_bit byte bit v = if v then bit_or byte (2 ^ bit) else bit_and byte (255 - 2 ^ bit)

unfoldable pub bitmap_get : Bitmap → ℕ → Bool
bitmap_get m frame = test_bit (get_or m (frame / 8) 0) (frame % 8)

unfoldable pub bitmap_set : Bitmap → ℕ → Bool → Bitmap
bitmap_set m frame v = set m (frame / 8) (put_bit (get_or m (frame / 8) 0) (frame % 8) v)

unfoldable pub bitmap_fill : ℕ → ℕ → Bitmap
bitmap_fill bytes value = replicate bytes value

eqb : Bool → Bool → Bool
eqb true b = b
eqb false b = not b

abbrev bit_law : Bool → ℕ → ℕ → ℕ → Bool
bit_law v b i j = eqb (test_bit (put_bit b i v) j) (if i == j then v else test_bit b j)

put_table :
    (all_below 256 (λ b. all_below 8 (λ i. all_below 8 (λ j. bit_law true b i j))) ≡ true)
    × (all_below 256 (λ b. all_below 8 (λ i. all_below 8 (λ j. bit_law false b i j))) ≡ true)
unfolding all_below eqb
put_table = (refl, refl)

put_bytes : (v : Bool) → all_below 256 (λ b. all_below 8 (λ i. ltb (put_bit b i v) 256)) ≡ true
unfolding all_below
put_bytes true = refl
put_bytes false = refl

eqb_sound : (a b : Bool) → eqb a b ≡ true → a ≡ b
unfolding eqb
eqb_sound true b h = sym h
eqb_sound false b h = ground arith

put_test :
    (v : Bool) (b i j : ℕ)
    → b < 256
    → i < 8
    → j < 8
    → test_bit (put_bit b i v) j ≡ (if i == j then v else test_bit b j)
put_test v b i j hb hi hj =
    eqb_sound _ _
      (all_below_sound 8 _ j (all_below_sound 8 _ i (all_below_sound 256 _ b (table v) hb) hi) hj)
  where
    table :
        (v : Bool)
        → all_below 256 (λ b. all_below 8 (λ i. all_below 8 (λ j. bit_law v b i j))) ≡ true
    table true = put_table.0
    table false = put_table.1

put_small : (v : Bool) (b i : ℕ) → b < 256 → i < 8 → put_bit b i v < 256
put_small v b i hb hi =
    ltb→lt _ 256 (all_below_sound 8 _ i (all_below_sound 256 _ b (put_bytes v) hb) hi)

-- Every byte is one.
abbrev pub AreBytes : Bitmap → Type 0
AreBytes [] = Unit {0}
AreBytes (b ∷ m) = (b < 256) × AreBytes m

AreBytes-get : (m : Bitmap) (i : ℕ) → AreBytes m → get_or m i 0 < 256
AreBytes-get [] i v = omega arith
AreBytes-get (b ∷ m) zero v = v.0
AreBytes-get (b ∷ m) (suc i) v = AreBytes-get m i v.1

AreBytes-set : (m : Bitmap) (i b : ℕ) → b < 256 → AreBytes m → AreBytes (set m i b)
AreBytes-set [] i b h v = tt
AreBytes-set (c ∷ m) zero b h v = (h, v.1)
AreBytes-set (c ∷ m) (suc i) b h v = (v.0, AreBytes-set m i b h v.1)

-- A bitmap with a bit for each of `frames` frames.
pub record IsBitmap (frames : ℕ) (m : Bitmap) : Type 0 where
  pub bytes : AreBytes m
  pub covers : length m ≡ (frames + 7) / 8

pub bitmap_set-IsBitmap :
    (frames : ℕ) (m : Bitmap) (f : ℕ) (v : Bool)
    → IsBitmap frames m
    → IsBitmap frames (bitmap_set m f v)
unfolding bitmap_set
bitmap_set-IsBitmap frames m f v w = record {
  bytes =
      AreBytes-set m (f / 8) _
        (put_small v _ (f % 8) (AreBytes-get m (f / 8) w.bytes) (omega arith)) w.bytes;
  covers = length-set m (f / 8) _ ∙ w.covers;
}

same_digit : (f g : ℕ) → f / 8 ≡ g / 8 → (f % 8 == g % 8) ≡ (f == g)
same_digit f g h = ground arith

-- Reading a bit after writing one.
pub bitmap_get-set :
    (frames : ℕ) (m : Bitmap) (f g : ℕ) (v : Bool)
    → IsBitmap frames m
    → f < frames
    → bitmap_get (bitmap_set m f v) g ≡ (if f == g then v else bitmap_get m g)
unfolding bitmap_get bitmap_set
bitmap_get-set frames m f g v w h = elim (ℕ_discrete (f / 8) (g / 8)) [
  | yes same ↦
      rw
        (
          ← same,
          get_or-set_self m (f / 8) (put_bit (get_or m (f / 8) 0) (f % 8) v) 0
              (omega (arith, w.covers)),
          put_test v (get_or m (f / 8) 0) (f % 8) (g % 8) (AreBytes-get m (f / 8) w.bytes)
              (omega arith) (omega arith),
        )
        (ap (λ t. if t then v else test_bit (get_or m (f / 8) 0) (g % 8)) (same_digit f g same))
  | no apart ↦
      rw (get_or-set_ne m (f / 8) (g / 8) (put_bit (get_or m (f / 8) 0) (f % 8) v) 0 apart)
        (ground (arith, ap (λ (t : ℕ). t / 8)))
]

AreBytes-replicate : (n b : ℕ) → b < 256 → AreBytes (replicate n b)
AreBytes-replicate zero b h = tt
AreBytes-replicate (suc n) b h = (h, AreBytes-replicate n b h)

pub bitmap_fill-IsBitmap :
    (frames value : ℕ) → value < 256 → IsBitmap frames (bitmap_fill ((frames + 7) / 8) value)
unfolding bitmap_fill
bitmap_fill-IsBitmap frames value h = record {
  bytes = AreBytes-replicate ((frames + 7) / 8) value h;
  covers = length-replicate ((frames + 7) / 8) value;
}

-- A cleared bitmap has no bit set.
pub bitmap_get-fill : (bytes g : ℕ) → bitmap_get (bitmap_fill bytes 0) g ≡ false
unfolding bitmap_get bitmap_fill
bitmap_get-fill bytes g = rw (get_or-replicate {A = ℕ} bytes (g / 8) 0, and_zero_left (2 ^ (g % 8)))
