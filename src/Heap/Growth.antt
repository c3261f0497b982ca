-- ===== src/Heap/Growth.antt =====
-- grow_for of src/kernel/heap.c: a table that grows stays a tiling, and ends in a free block that
-- is large enough.
use Prim.Native.Nat.{bit_and}
use pyrenis.Base.{
  ℕ, suc, ◌+◌, ◌-◌, ◌%◌, ◌^◌, ◌≤◌, ◌<◌, ◌≡◌, ◌↔◌, refl, ap, ◌∙◌, inl, inr, Bool, true, false, not,
  none, some, List, [], ◌∷◌, ◌++◌, arith, Option-cases, length, get_or,
}
use pyrenis.Base.Bits.{mask_mod}
use pyrenis.Base.Words.{add64, sub64}
use pyrenis.Pages.{page_bytes}
use pyrenis.Heap.Table.{Block, no_block, heap_alignment, max_blocks, align_up, validate_table}
use pyrenis.Heap.Chain.{Tiles, NoPairs, live, AreShort, Tiles-validate_table, validate_table-Tiles}
use pyrenis.Heap.Calls.{
  HeapState, heap_size, last_block, extend_last, free_trailer, take_growth, growth_for,
}

-- Rounding up to a multiple, for the two granules of the heap.
pub align_bytes :
    (v : ℕ) → v < 2 ^ 63 → (v ≤ align_up v 16) × (align_up v 16 < v + 16) × (align_up v 16 % 16 ≡ 0)
unfolding align_up
align_bytes v h =
    let m : bit_and (sub64 (add64 v 16) 1) 15 ≡ sub64 (add64 v 16) 1 % 16 =
      mask_mod 16 (sub64 (add64 v 16) 1) (omega arith) refl in
    (omega (arith, m), omega (arith, m), omega (arith, m))

pub align_page : (v : ℕ) → v < 2 ^ 63 → (v ≤ align_up v 4096) × (align_up v 4096 % 4096 ≡ 0)
unfolding align_up
align_page v h =
    let m : bit_and (sub64 (add64 v 4096) 1) 4095 ≡ sub64 (add64 v 4096) 1 % 4096 =
      mask_mod 4096 (sub64 (add64 v 4096) 1) (omega arith) refl in
    (omega (arith, m), omega (arith, m))

-- The last block is the one at the last index.
pub last_index :
    (table : List Block) {b : Block}
    → last_block table ≡ some b
    → (i : ℕ) × (suc i ≡ length table) × (get_or table i no_block ≡ b)
unfolding last_block
last_index [] e = absurd (ground arith)
last_index (c ∷ []) e = (0, refl, ground (arith, e))
last_index (c ∷ d ∷ table) e = let (i, l, g) = last_index (d ∷ table) e in (suc i, ap suc l, g)

Tiles-extend_last :
    (growth first last : ℕ) (table : List Block) {b : Block}
    → last + growth < 2 ^ 64
    → growth % heap_alignment ≡ 0
    → last_block table ≡ some b
    → Tiles first table last
    → Tiles first (extend_last growth table) (last + growth)
unfolding last_block extend_last
Tiles-extend_last growth first last [] h a e v = absurd (ground arith)
Tiles-extend_last growth first last (c ∷ []) h a e v =
    (v.0, omega (arith, v.1, v.3), omega (arith, v.2, v.3, a), omega (arith, v.3))
Tiles-extend_last growth first last (c ∷ d ∷ table) {b} h a e v =
    (v.0, v.1, v.2, Tiles-extend_last growth (first + c.size) last (d ∷ table) {b = b} h a e v.3)

NoPairs-extend_last :
    (growth : ℕ) (gap : Bool) (table : List Block)
    → NoPairs gap table
    → NoPairs gap (extend_last growth table)
unfolding extend_last
NoPairs-extend_last growth gap [] n = tt
NoPairs-extend_last growth gap (c ∷ []) n = (n.0, tt)
NoPairs-extend_last growth gap (c ∷ d ∷ table) n =
    (n.0, NoPairs-extend_last growth (not c.used) (d ∷ table) n.1)

live-extend_last :
    (growth : ℕ) (table : List Block) {b : Block} (o : ℕ)
    → last_block table ≡ some b
    → b.used ≡ false
    → live (extend_last growth table) o ≡ live table o
unfolding live last_block extend_last
live-extend_last growth [] o e f = refl
live-extend_last growth (c ∷ []) {b} o e f = ground (arith, e, f)
live-extend_last growth (c ∷ d ∷ table) {b} o e f =
    ground (arith, live-extend_last growth (d ∷ table) {b = b} o e f)

extended :
    (growth : ℕ) (table : List Block) {b : Block}
    → last_block table ≡ some b
    → (r : Block) × (last_block (extend_last growth table) ≡ some r)
      × (r.used ≡ b.used)
      × (r.size ≡ add64 b.size growth)
      × (length (extend_last growth table) ≡ length table)
unfolding last_block extend_last
extended growth [] e = absurd (ground arith)
extended growth (c ∷ []) {b} e =
    (record c { size = add64 c.size growth }, refl, ground (arith, e), ground (arith, e), refl)
extended growth (c ∷ d ∷ []) {b} e =
    (record d { size = add64 d.size growth }, refl, ground (arith, e), ground (arith, e), refl)
extended growth (c ∷ d ∷ f ∷ table) {b} e =
    let (r, l, u, z, n) = extended growth (d ∷ f ∷ table) {b = b} e in (r, l, u, z, ap suc n)

abbrev fresh_block : ℕ → ℕ → Block
fresh_block offset growth = record { offset = offset; size = growth; used = false }

Tiles-append :
    (growth first last : ℕ) (table : List Block)
    → 0 < growth
    → growth % heap_alignment ≡ 0
    → Tiles first table last
    → Tiles first (table ++ (fresh_block last growth ∷ [])) (last + growth)
Tiles-append growth first last [] p a v = (omega (arith, v), p, a, omega (arith, v))
Tiles-append growth first last (c ∷ table) p a v =
    (v.0, v.1, v.2, Tiles-append growth (first + c.size) last table p a v.3)

NoPairs-append_used :
    (growth last : ℕ) (gap : Bool) (c : Block) (table : List Block)
    → free_trailer (last_block (c ∷ table)) ≡ none
    → NoPairs gap (c ∷ table)
    → NoPairs gap (c ∷ (table ++ (fresh_block last growth ∷ [])))
unfolding last_block free_trailer
NoPairs-append_used growth last gap c [] e n = (n.0, (ground (arith, e), tt))
NoPairs-append_used growth last gap c (d ∷ table) e n =
    (n.0, NoPairs-append_used growth last (not c.used) d table e n.1)

NoPairs-append :
    (growth last : ℕ) (table : List Block)
    → free_trailer (last_block table) ≡ none
    → NoPairs false table
    → NoPairs false (table ++ (fresh_block last growth ∷ []))
NoPairs-append growth last [] e n = (refl, tt)
NoPairs-append growth last (c ∷ table) e n = NoPairs-append_used growth last false c table e n

live-append :
    (growth last : ℕ) (table : List Block) (o : ℕ)
    → live (table ++ (fresh_block last growth ∷ [])) o ≡ live table o
unfolding live
live-append growth last [] o = refl
live-append growth last (c ∷ table) o = ground (arith, live-append growth last table o)

appended :
    (b : Block) (table : List Block)
    → (last_block (table ++ (b ∷ [])) ≡ some b) × (length (table ++ (b ∷ [])) ≡ suc (length table))
unfolding last_block
appended b [] = (refl, refl)
appended b (c ∷ []) = (refl, refl)
appended b (c ∷ d ∷ table) = let (l, n) = appended b (d ∷ table) in (l, ap suc n)

-- What holds of the heap between calls: the blocks tile the committed bytes with no two free
-- neighbours, they fit the array, and whole pages within the window are committed.
pub record IsValid (s : HeapState) : Type 0 where
  pub tiles : Tiles 0 s.blocks s.committed_bytes
  pub pairs : NoPairs false s.blocks
  pub room : length s.blocks ≤ max_blocks
  pub window : s.committed_bytes ≤ heap_size
  pub pages : s.committed_bytes % page_bytes ≡ 0

-- The heap after a growth: the last block is free and large enough.
pub record Grew (size : ℕ) (s t : HeapState) : Type 0 where
  pub valid : IsValid t
  pub index : ℕ
  pub at_end : suc index ≡ length t.blocks
  pub free : (get_or t.blocks index no_block).used ≡ false
  pub large : size ≤ (get_or t.blocks index no_block).size
  pub same : (o : ℕ) → live t.blocks o ≡ live s.blocks o
  pub still : t.active ≡ s.active

pub trailer_block :
    (table : List Block) {z : ℕ}
    → free_trailer (last_block table) ≡ some z
    → (b : Block) × (last_block table ≡ some b) × (b.used ≡ false) × (b.size ≡ z)
unfolding free_trailer
trailer_block table e = elim (Option-cases (last_block table)) [
  | inl nothing ↦ absurd (ground (arith, nothing, e))
  | inr (b, found) ↦ (b, found, ground (arith, found, e), ground (arith, found, e))
]

module _ (size : ℕ) (positive : 0 < size) (fits : size ≤ heap_size) (s : HeapState)
    (valid : IsValid s) where
  pub extend-Grew :
      (z : ℕ)
      → free_trailer (last_block s.blocks) ≡ some z
      → z < size
      → growth_for size (some z) ≤ heap_size - s.committed_bytes
      → Grew size s (take_growth (growth_for size (some z)) (some z) s)
  unfolding growth_for take_growth
  extend-Grew z e short room =
      let (b, found, free, bytes) = trailer_block s.blocks e in
      let growth = align_up (sub64 size z) page_bytes in
      let (low, whole) = align_page (sub64 size z) (omega arith) in
      let (r, at, used, larger, len) = extended growth s.blocks found in
      let (i, l, g) = last_index (extend_last growth s.blocks) at in
      let total : add64 s.committed_bytes growth ≡ s.committed_bytes + growth =
        omega (arith, valid.window, room) in
      record {
        valid = record {
          tiles = rw total (
              Tiles-extend_last growth 0 s.committed_bytes s.blocks
                (omega (arith, valid.window, room)) (omega (arith, whole)) found valid.tiles);
          pairs = NoPairs-extend_last growth false s.blocks valid.pairs;
          room = omega (arith, len, valid.room);
          window = omega (arith, total, valid.window, room);
          pages = omega (arith, total, valid.pages, whole);
        };
        index = i;
        at_end = l;
        free = rw g (used ∙ free);
        large = rw g (omega (arith, larger, bytes, low, room, short));
        same = λ o. live-extend_last growth s.blocks o found free;
        still = refl;
      }

  pub append-Grew :
      free_trailer (last_block s.blocks) ≡ none
      → length s.blocks < max_blocks
      → growth_for size none ≤ heap_size - s.committed_bytes
      → Grew size s (take_growth (growth_for size none) none s)
  unfolding growth_for take_growth
  append-Grew e space room =
      let growth = align_up size page_bytes in
      let (low, whole) = align_page size (omega arith) in
      let (at, len) = appended (fresh_block s.committed_bytes growth) s.blocks in
      let (i, l, g) = last_index (s.blocks ++ (fresh_block s.committed_bytes growth ∷ [])) at in
      let total : add64 s.committed_bytes growth ≡ s.committed_bytes + growth =
        omega (arith, valid.window, room) in
      record {
        valid = record {
          tiles = rw total (
              Tiles-append growth 0 s.committed_bytes s.blocks (omega (arith, low))
                (omega (arith, whole)) valid.tiles);
          pairs = NoPairs-append growth s.committed_bytes s.blocks e valid.pairs;
          room = omega (arith, len, space);
          window = omega (arith, total, valid.window, room);
          pages = omega (arith, total, valid.pages, whole);
        };
        index = i;
        at_end = l;
        free = rw g refl;
        large = rw g low;
        same = λ o. live-append growth s.committed_bytes s.blocks o;
        still = refl;
      }

-- After the checks that heap_verify makes before it, that the committed bytes are whole pages
-- within the window, and for block sizes of at most 2^55 bytes, validate_table accepts the table
-- exactly when the heap is valid.
pub validate_table-IsValid :
    (s : HeapState)
    → AreShort s.blocks
    → s.committed_bytes ≤ heap_size
    → s.committed_bytes % page_bytes ≡ 0
    → (validate_table s.blocks s.committed_bytes ≡ true) ↔ IsValid s
validate_table-IsValid s short window pages = (
  λ e.
      let (room, tiles, pairs) = validate_table-Tiles s.committed_bytes s.blocks short e in
      record { tiles = tiles; pairs = pairs; room = room; window = window; pages = pages },
  λ v.
      Tiles-validate_table s.committed_bytes s.blocks (omega (arith, window)) v.room v.tiles
        v.pairs,
)
