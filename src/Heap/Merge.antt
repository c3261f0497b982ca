-- ===== src/Heap/Merge.antt =====
-- Freeing a block and merge_free_neighbours of src/kernel/heap.c: the tiling is kept, no two free
-- blocks are left side by side, and one live allocation is gone.
use pyrenis.Base.{
  ℕ, zero, suc, ◌+◌, ◌^◌, ◌≤◌, ◌<◌, ◌≡◌, Bool, true, false, not, none, some, List, [], ◌∷◌, arith,
  ◌==◌, if◌then◌else◌, length, get_elem?, get_or, set,
}
use pyrenis.Base.Words.{add64}
use pyrenis.Heap.Table.{Block, no_block, next_is_free, remove_block, absorb_next}
use pyrenis.Heap.Chain.{Tiles, live, Tiles-le, live_below}
use pyrenis.Heap.Split.{offset_ge}

abbrev pub mark_free : List Block → ℕ → List Block
mark_free table index = set table index (record (get_or table index no_block) { used = false })

pub Tiles-mark_free :
    (first last : ℕ) (table : List Block) (i : ℕ)
    → Tiles first table last
    → Tiles first (mark_free table i) last
Tiles-mark_free first last [] i v = v
Tiles-mark_free first last (b ∷ table) zero v = v
Tiles-mark_free first last (b ∷ table) (suc i) v =
    (v.0, v.1, v.2, Tiles-mark_free (first + b.size) last table i v.3)

pub live-mark_free :
    (first last : ℕ) (table : List Block) (i o : ℕ)
    → i < length table
    → Tiles first table last
    → live (mark_free table i) o
      ≡ (if (get_or table i no_block).offset == o then none else live table o)
unfolding live
live-mark_free first last [] i o l v = absurd (omega arith)
live-mark_free first last (b ∷ table) zero o l v =
    ground (arith, v.0, v.1, live_below (first + b.size) last table o v.3)
live-mark_free first last (b ∷ table) (suc i) o l v = ground (
  arith,
  live-mark_free (first + b.size) last table i o (omega arith) v.3,
  v.0,
  v.1,
  (offset_ge (first + b.size) last table i (omega arith) v.3).0,
)

-- Absorbing the next block keeps the tiling.
pub Tiles-absorb_next :
    (first last : ℕ) (table : List Block) (i : ℕ)
    → last < 2 ^ 64
    → suc i < length table
    → Tiles first table last
    → Tiles first (absorb_next table i) last
unfolding absorb_next remove_block
Tiles-absorb_next first last [] i h l v = absurd (omega arith)
Tiles-absorb_next first last (b ∷ []) i h l v = absurd (omega arith)
Tiles-absorb_next first last (b ∷ n ∷ table) zero h l v =
    let up : first + b.size + n.size ≤ last = Tiles-le (first + b.size + n.size) last table v.3.3 in
    let sum : add64 b.size n.size ≡ b.size + n.size = omega (arith, up) in
    let end : first + add64 b.size n.size ≡ first + b.size + n.size = omega (arith, sum) in
    (v.0, omega (arith, sum, v.1), omega (arith, sum, v.2, v.3.2), rw end (v.3.3))
Tiles-absorb_next first last (b ∷ n ∷ table) (suc i) h l v =
    (v.0, v.1, v.2, Tiles-absorb_next (first + b.size) last (n ∷ table) i h (omega arith) v.3)

-- Between two free blocks it is invisible to the allocations.
pub live-absorb_next :
    (table : List Block) (i o : ℕ)
    → suc i < length table
    → (get_or table i no_block).used ≡ false
    → (get_or table (suc i) no_block).used ≡ false
    → live (absorb_next table i) o ≡ live table o
unfolding live absorb_next remove_block
live-absorb_next [] i o l f g = absurd (omega arith)
live-absorb_next (b ∷ []) i o l f g = absurd (omega arith)
live-absorb_next (b ∷ n ∷ table) zero o l f g = ground (arith, f, g)
live-absorb_next (b ∷ n ∷ table) (suc i) o l f g =
    ground (arith, live-absorb_next (n ∷ table) i o (omega arith) f g)

pub next_is_free_at :
    (table : List Block) (i : ℕ)
    → next_is_free table i ≡ true
    → (suc i < length table) × ((get_or table (suc i) no_block).used ≡ false)
next_is_free_at [] i e = absurd (ground arith)
next_is_free_at (b ∷ table) zero e = go table e
  where
    go :
        (table : List Block)
        → elim (get_elem? table 0) as (λ _. Bool) [ some n ↦ not n.used | none ↦ false ] ≡ true
        → (1 < suc (length table)) × ((get_or table 0 no_block).used ≡ false)
    go [] e = absurd (ground arith)
    go (n ∷ table) e = (omega arith, ground arith)
next_is_free_at (b ∷ table) (suc i) e =
    let (l, f) = next_is_free_at table i e in (omega (arith, l), f)
