-- ===== src/Heap/Chain.antt =====
-- Tilings: what the block table of src/kernel/heap.c looks like between calls, and what it says
-- of the live allocations.
use pyrenis.Base.{
  ℕ, ◌+◌, ◌*◌, ◌%◌, ◌^◌, ◌≤◌, ◌<◌, ◌≡◌, refl, Bool, true, false, not, ◌&&◌, Option, none, some,
  List, [], ◌∷◌, arith, ◌==◌, if◌then◌else◌, length,
}
use pyrenis.Base.Words.{add64}
use pyrenis.Heap.Table.{Block, heap_alignment, max_blocks, validate_from, validate_table}

-- The blocks cover the bytes from `first` to `last`, one after the other, in whole units of the
-- alignment.
abbrev pub Tiles : ℕ → List Block → ℕ → Type 0
Tiles first [] last = first ≡ last
Tiles first (b ∷ table) last =
    (b.offset ≡ first)
    × (0 < b.size)
    × (b.size % heap_alignment ≡ 0)
    × Tiles (first + b.size) table last

-- No two free blocks side by side; `gap` is that a free block comes before.
abbrev pub NoPairs : Bool → List Block → Type 0
NoPairs gap [] = Unit {0}
NoPairs gap (b ∷ table) = ((gap && not b.used) ≡ false) × NoPairs (not b.used) table

-- The abstract view: from the offset of a live allocation to its size.
unfoldable pub live : List Block → ℕ → Option ℕ
live [] offset = none
live (b ∷ table) offset = if b.used && b.offset == offset then some b.size else live table offset

pub Tiles-le : (first last : ℕ) (table : List Block) → Tiles first table last → first ≤ last
Tiles-le first last [] v = omega (arith, v)
Tiles-le first last (b ∷ table) v = omega (arith, v.1, Tiles-le (first + b.size) last table v.3)

-- Nothing lives below the first offset.
pub live_below :
    (first last : ℕ) (table : List Block) (o : ℕ)
    → Tiles first table last
    → o < first
    → live table o ≡ none
unfolding live
live_below first last [] o v l = refl
live_below first last (b ∷ table) o v l =
    ground (arith, v.0, live_below (first + b.size) last table o v.3 (omega arith))

-- A tiling within the capacity passes the check of the source.
pub Tiles-validate_from :
    (gap : Bool) (first last : ℕ) (table : List Block)
    → last < 2 ^ 64
    → Tiles first table last
    → NoPairs gap table
    → validate_from gap first table last ≡ true
unfolding validate_from
Tiles-validate_from gap first last [] h v n = ground (arith, v)
Tiles-validate_from gap first last (b ∷ table) h v n =
    let small : add64 first b.size ≡ first + b.size =
      omega (arith, Tiles-le (first + b.size) last table v.3) in
    ground (
      arith,
      v.0,
      v.1,
      v.2,
      n.0,
      small,
      Tiles-validate_from (not b.used) (first + b.size) last table h v.3 n.1,
    )

pub Tiles-validate_table :
    (last : ℕ) (table : List Block)
    → last < 2 ^ 64
    → length table ≤ max_blocks
    → Tiles 0 table last
    → NoPairs false table
    → validate_table table last ≡ true
unfolding validate_table
Tiles-validate_table last [] h c v n = ground (arith, v)
Tiles-validate_table last (b ∷ table) h c v n =
    ground (arith, c, Tiles-validate_from false 0 last (b ∷ table) h v n)

-- Sizes of which as many as the table holds sum to less than 2^64.
abbrev pub AreShort : List Block → Type 0
AreShort [] = Unit {0}
AreShort (b ∷ table) = (b.size ≤ 2 ^ 55) × AreShort table

-- A table that the loop accepts is a tiling without free pairs.
validate_from-Tiles :
    (gap : Bool) (first last : ℕ) (table : List Block)
    → first + length table * 2 ^ 55 < 2 ^ 64
    → AreShort table
    → validate_from gap first table last ≡ true
    → Tiles first table last × NoPairs gap table
unfolding validate_from
validate_from-Tiles gap first last [] h short e = (ground (arith, e), tt)
validate_from-Tiles gap first last (b ∷ table) h short e =
    let small : add64 first b.size ≡ first + b.size = omega (arith, h, short.0) in
    let later : validate_from (not b.used) (add64 first b.size) table last ≡ true =
      ground (arith, e) in
    let (tiles, pairs) =
      validate_from-Tiles (not b.used) (first + b.size) last table (omega (arith, h, short.0))
        short.1 (rw small at later) in
    ((ground (arith, e), ground (arith, e), ground (arith, e), tiles), (ground (arith, e), pairs))

pub validate_table-Tiles :
    (last : ℕ) (table : List Block)
    → AreShort table
    → validate_table table last ≡ true
    → (length table ≤ max_blocks) × Tiles 0 table last × NoPairs false table
unfolding validate_table
validate_table-Tiles last [] short e = (omega arith, ground (arith, e), tt)
validate_table-Tiles last (b ∷ table) short e =
    let room : length (b ∷ table) ≤ max_blocks = ground (arith, e) in
    let (tiles, pairs) =
      validate_from-Tiles false 0 last (b ∷ table) (omega (arith, room)) short
        (ground (arith, e)) in
    (room, tiles, pairs)
