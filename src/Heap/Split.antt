-- ===== src/Heap/Split.antt =====
-- split_block of src/kernel/heap.c keeps the tiling, and makes one allocation live.
use pyrenis.Base.{
  ℕ, zero, suc, ◌+◌, ◌-◌, ◌%◌, ◌^◌, ◌≤◌, ◌<◌, ◌≡◌, refl, Bool, true, false, not, some, List, [],
  ◌∷◌, arith, ◌==◌, if◌then◌else◌, length, get_or, set,
}
use pyrenis.Base.Words.{add64, sub64}
use pyrenis.Heap.Table.{Block, no_block, heap_alignment, insert_after}
use pyrenis.Heap.Chain.{Tiles, NoPairs, live, Tiles-le}

-- The two outcomes of a split: the whole block, or its front and the rest.
abbrev pub mark_used : List Block → ℕ → List Block
mark_used table index = set table index (record (get_or table index no_block) { used = true })

abbrev pub cut : List Block → ℕ → ℕ → List Block
cut table index size =
    let b = get_or table index no_block in
    set
      (insert_after table index
        (record { offset = add64 b.offset size; size = sub64 b.size size; used = false }))
      index (record b { size = size; used = true })

pub Tiles-mark_used :
    (first last : ℕ) (table : List Block) (i : ℕ)
    → i < length table
    → Tiles first table last
    → Tiles first (mark_used table i) last
Tiles-mark_used first last [] i l v = v
Tiles-mark_used first last (b ∷ table) zero l v = v
Tiles-mark_used first last (b ∷ table) (suc i) l v =
    (v.0, v.1, v.2, Tiles-mark_used (first + b.size) last table i (omega arith) v.3)

pub NoPairs-used : (gap : Bool) (table : List Block) → NoPairs gap table → NoPairs false table
NoPairs-used gap [] n = tt
NoPairs-used gap (b ∷ table) n = (refl, n.1)

pub NoPairs-mark_used :
    (gap : Bool) (table : List Block) (i : ℕ)
    → i < length table
    → NoPairs gap table
    → NoPairs gap (mark_used table i)
NoPairs-mark_used gap [] i l n = tt
NoPairs-mark_used gap (b ∷ table) zero l n = (ground arith, NoPairs-used (not b.used) table n.1)
NoPairs-mark_used gap (b ∷ table) (suc i) l n =
    (n.0, NoPairs-mark_used (not b.used) table i (omega arith) n.1)

pub offset_ge :
    (first last : ℕ) (table : List Block) (i : ℕ)
    → i < length table
    → Tiles first table last
    → (first ≤ (get_or table i no_block).offset)
      × ((get_or table i no_block).offset + (get_or table i no_block).size ≤ last)
      × (0 < (get_or table i no_block).size)
      × ((get_or table i no_block).size % heap_alignment ≡ 0)
offset_ge first last [] i l v = absurd (omega arith)
offset_ge first last (b ∷ table) zero l v =
    (omega (arith, v.0), omega (arith, v.0, Tiles-le (first + b.size) last table v.3), v.1, v.2)
offset_ge first last (b ∷ table) (suc i) l v =
    let (low, high, some_size, whole) = offset_ge (first + b.size) last table i (omega arith) v.3 in
    (omega (arith, low), high, some_size, whole)

-- Every offset is a multiple of the alignment.
pub offset_aligned :
    (first last : ℕ) (table : List Block) (i : ℕ)
    → i < length table
    → first % heap_alignment ≡ 0
    → Tiles first table last
    → (get_or table i no_block).offset % heap_alignment ≡ 0
offset_aligned first last [] i l a v = absurd (omega arith)
offset_aligned first last (b ∷ table) zero l a v = rw (v.0) a
offset_aligned first last (b ∷ table) (suc i) l a v =
    offset_aligned (first + b.size) last table i (omega arith) (omega (arith, v.2)) v.3

-- Marking a block makes its offset live and changes nothing else.
pub live-mark_used :
    (first last : ℕ) (table : List Block) (i o : ℕ)
    → i < length table
    → Tiles first table last
    → live (mark_used table i) o ≡ (
        if (get_or table i no_block).offset == o
        then some (get_or table i no_block).size
        else live table o)
unfolding live
live-mark_used first last [] i o l v = absurd (omega arith)
live-mark_used first last (b ∷ table) zero o l v = ground arith
live-mark_used first last (b ∷ table) (suc i) o l v = ground (
  arith,
  live-mark_used (first + b.size) last table i o (omega arith) v.3,
  v.0,
  v.1,
  (offset_ge (first + b.size) last table i (omega arith) v.3).0,
)

module _ (size : ℕ) (positive : 0 < size) (whole : size % heap_alignment ≡ 0) where
  pub Tiles-cut :
      (first last : ℕ) (table : List Block) (i : ℕ)
      → last < 2 ^ 64
      → i < length table
      → size < (get_or table i no_block).size
      → Tiles first table last
      → Tiles first (cut table i size) last
  unfolding insert_after
  Tiles-cut first last [] i h l fits v = absurd (omega arith)
  Tiles-cut first last (b ∷ table) zero h l fits v =
      let up : first + b.size ≤ last = Tiles-le (first + b.size) last table v.3 in
      let front : add64 b.offset size ≡ first + size = omega (arith, up, v.0) in
      let rest : sub64 b.size size ≡ b.size - size = omega (arith, up) in
      let end : first + size + sub64 b.size size ≡ first + b.size = omega (arith, rest) in
      (
        v.0,
        positive,
        whole,
        (front, omega (arith, rest), omega (arith, rest, v.2, whole), rw end (v.3)),
      )
  Tiles-cut first last (b ∷ table) (suc i) h l fits v =
      (v.0, v.1, v.2, Tiles-cut (first + b.size) last table i h (omega arith) fits v.3)

  pub NoPairs-cut :
      (gap : Bool) (table : List Block) (i : ℕ)
      → i < length table
      → (get_or table i no_block).used ≡ false
      → NoPairs gap table
      → NoPairs gap (cut table i size)
  unfolding insert_after
  NoPairs-cut gap [] i l f n = absurd (omega arith)
  NoPairs-cut gap (b ∷ table) zero l f n = (ground arith, (refl, rw f at n.1))
  NoPairs-cut gap (b ∷ table) (suc i) l f n =
      (n.0, NoPairs-cut (not b.used) table i (omega arith) f n.1)

  pub live-cut :
      (first last : ℕ) (table : List Block) (i o : ℕ)
      → i < length table
      → Tiles first table last
      → (get_or table i no_block).used ≡ false
      → live (cut table i size) o
        ≡ (if (get_or table i no_block).offset == o then some size else live table o)
  unfolding live insert_after
  live-cut first last [] i o l v f = absurd (omega arith)
  live-cut first last (b ∷ table) zero o l v f = ground (arith, f)
  live-cut first last (b ∷ table) (suc i) o l v f = ground (
    arith,
    live-cut (first + b.size) last table i o (omega arith) v.3 f,
    v.0,
    v.1,
    (offset_ge (first + b.size) last table i (omega arith) v.3).0,
  )
