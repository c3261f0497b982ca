-- ===== src/Heap/Grant.antt =====
-- What heap_allocate of src/kernel/heap.c may answer, and the placement that ends it.
use pyrenis.Base.{
  ℕ, zero, suc, ◌+◌, ◌%◌, ◌≤◌, ◌<◌, ◌≡◌, ◌≢◌, refl, ap, sym, ◌∙◌, inl, inr, Bool, true, false, not,
  ◌&&◌, Option, none, some, List, [], ◌∷◌, arith, leb, ◌==◌, if◌then◌else◌, if_rule, Bool-cases,
  length, get_or, length-set, get_or-set_self,
}
use pyrenis.Base.Words.{add64, sub64}
use pyrenis.Heap.Table.{
  Block, no_block, heap_alignment, max_blocks, find_fit, split_block, insert_after,
}
use pyrenis.Heap.Chain.{Tiles, NoPairs, live, live_below}
use pyrenis.Heap.Split.{
  mark_used, cut, Tiles-mark_used, NoPairs-mark_used, live-mark_used, Tiles-cut, NoPairs-cut,
  live-cut, offset_ge, offset_aligned,
}
use pyrenis.Heap.Calls.{Status, ok, out_of_blocks, HeapState, heap_base, refresh_state, place}
use pyrenis.Heap.Growth.{IsValid}

pub find_fit_sound :
    (p : ℕ) (table : List Block) (size : ℕ) {i : ℕ}
    → find_fit p table size ≡ some i
    → (k : ℕ) × (i ≡ p + k)
      × (k < length table)
      × ((get_or table k no_block).used ≡ false)
      × (size ≤ (get_or table k no_block).size)
unfolding find_fit
find_fit_sound p [] size e = absurd (ground arith)
find_fit_sound p (b ∷ table) size {i} e = elim (Bool-cases (not b.used && leb size b.size)) [
  | inl now ↦ (0, ground (arith, now, e), omega arith, ground (arith, now), ground (arith, now))
  | inr later ↦
      let (k, at, l, f, z) = find_fit_sound (suc p) table size {i = i} (ground (arith, later, e)) in
      (suc k, omega (arith, at), omega (arith, l), f, z)
]

pub find_fit_complete :
    (p : ℕ) (table : List Block) (size i : ℕ)
    → find_fit p table size ≡ none
    → i < length table
    → (get_or table i no_block).used ≡ false
    → (get_or table i no_block).size < size
unfolding find_fit
find_fit_complete p [] size i e l f = absurd (omega arith)
find_fit_complete p (b ∷ table) size zero e l f = ground arith
find_fit_complete p (b ∷ table) size (suc i) e l f =
    find_fit_complete (suc p) table size i (ground arith) (omega arith) f

-- A free block is no live allocation.
live_free :
    (first last : ℕ) (table : List Block) (i : ℕ)
    → i < length table
    → (get_or table i no_block).used ≡ false
    → Tiles first table last
    → live table ((get_or table i no_block).offset) ≡ none
unfolding live
live_free first last [] i l f v = absurd (omega arith)
live_free first last (b ∷ table) zero l f v =
    ground (arith, f, live_below (first + b.size) last table b.offset v.3, v.0, v.1)
live_free first last (b ∷ table) (suc i) l f v = ground (
  arith,
  live_free (first + b.size) last table i (omega arith) f v.3,
  (offset_ge (first + b.size) last table i (omega arith) v.3).0,
  v.0,
  v.1,
)

is_ok : Status → Bool
is_ok ok = true
is_ok st = false

-- What heap_allocate may answer. A grant makes one offset live that was not, at a multiple of
-- the alignment, with at least `size` bytes, all of them committed; a refusal leaves every live
-- allocation as it was. Either way the heap is valid.
pub data Outcome {W : Type 0} (size : ℕ) (s : HeapState)
    : Status × Option ℕ × HeapState × W → Type 0 where
  granted :
      (offset bytes : ℕ) (t : HeapState) (w : W)
      → IsValid t
      → size ≤ bytes
      → offset % heap_alignment ≡ 0
      → offset + bytes ≤ t.committed_bytes
      → t.active ≡ s.active
      → live s.blocks offset ≡ none
      → ((o : ℕ) → live t.blocks o ≡ (if offset == o then some bytes else live s.blocks o))
      → Outcome size s (ok, some (heap_base + offset), t, w)
  refused :
      (st : Status) (t : HeapState) (w : W)
      → IsValid t
      → st ≢ ok
      → ((o : ℕ) → live t.blocks o ≡ live s.blocks o)
      → Outcome size s (st, none, t, w)

length-insert_after :
    (table : List Block) (i : ℕ) (r : Block)
    → i < length table
    → length (insert_after table i r) ≡ suc (length table)
unfolding insert_after
length-insert_after [] i r l = absurd (omega arith)
length-insert_after (b ∷ table) zero r l = refl
length-insert_after (b ∷ table) (suc i) r l = ap suc (length-insert_after table i r (omega arith))

module _ {W : Type 0} (requested : ℕ) (positive : 0 < requested)
    (whole : requested % heap_alignment ≡ 0) (s u : HeapState) (w : W) (valid : IsValid u)
    (same : (o : ℕ) → live u.blocks o ≡ live s.blocks o) (still : u.active ≡ s.active) (i : ℕ)
    (inside : i < length u.blocks) (free : (get_or u.blocks i no_block).used ≡ false)
    (large : requested ≤ (get_or u.blocks i no_block).size) where
  -- A table that has the block taken gives a grant.
  taken_table :
      (table : List Block) (bytes : ℕ)
      → Tiles 0 table u.committed_bytes
      → NoPairs false table
      → length table ≤ max_blocks
      → requested ≤ bytes
      → bytes ≤ (get_or u.blocks i no_block).size
      → (get_or table i no_block).offset ≡ (get_or u.blocks i no_block).offset
      → ((o : ℕ)
          → live table o
            ≡ (if (get_or u.blocks i no_block).offset == o then some bytes else live u.blocks o))
      → Outcome requested s (
        ok,
        some (heap_base + (get_or table i no_block).offset),
        refresh_state (record u { blocks = table }),
        w,
      )
  unfolding refresh_state
  taken_table table bytes v n r enough most at l =
      let (_, high, _, _) = offset_ge 0 u.committed_bytes u.blocks i inside valid.tiles in
      rw at (
        granted ((get_or u.blocks i no_block).offset) bytes
          (refresh_state (record u { blocks = table })) w
          (record { tiles = v; pairs = n; room = r; window = valid.window; pages = valid.pages })
          enough (offset_aligned 0 u.committed_bytes u.blocks i inside refl valid.tiles)
          (omega (arith, high, most)) still
          (sym (same ((get_or u.blocks i no_block).offset))
            ∙ live_free 0 u.committed_bytes u.blocks i inside free valid.tiles)
          (λ o. ground (arith, l o, same o)))

  abbrev after : Option (List Block) → Status × Option ℕ × HeapState × W
  after o = elim o [
    | none ↦ (out_of_blocks, none, u, w)
    | some table ↦ (
      ok,
      some (heap_base + (get_or table i no_block).offset),
      refresh_state (record u { blocks = table }),
      w,
    )
  ]

  pub place-Outcome : Outcome requested s (place requested i u w)
  unfolding place split_block
  place-Outcome =
      let (_, high, some_size, unit) =
        offset_ge 0 u.committed_bytes u.blocks i inside valid.tiles in
      let front : Block = record (get_or u.blocks i no_block) { size = requested; used = true } in
      let back : Block = record {
        offset = add64 (get_or u.blocks i no_block).offset requested;
        size = sub64 (get_or u.blocks i no_block).size requested;
        used = false;
      } in
      if_rule (λ o. Outcome requested s (after o))
        (leb heap_alignment (sub64 (get_or u.blocks i no_block).size requested))
        (λ rest.
          if_rule (λ o. Outcome requested s (after o)) (length u.blocks == max_blocks) {x = none}
            (λ full. refused out_of_blocks u w valid (λ e. ground arith) same)
            λ space.
              let long : length (insert_after u.blocks i back) ≡ suc (length u.blocks) =
                length-insert_after u.blocks i back inside in
              taken_table (cut u.blocks i requested) requested
                (Tiles-cut requested positive whole 0 u.committed_bytes u.blocks i
                  (omega (arith, valid.window)) inside (ground (arith, large, valid.window, high))
                  valid.tiles)
                (NoPairs-cut requested positive whole false u.blocks i inside free valid.pairs)
                (ground (
                  arith,
                  length-set (insert_after u.blocks i back) i front,
                  long,
                  valid.room,
                  space,
                ))
                (omega arith) large
                (ap (λ b. b.offset)
                  (get_or-set_self (insert_after u.blocks i back) i front no_block
                    (omega (arith, long, inside))))
                (λ o.
                  live-cut requested positive whole 0 u.committed_bytes u.blocks i o inside
                    valid.tiles free))
        λ _.
          taken_table (mark_used u.blocks i) ((get_or u.blocks i no_block).size)
            (Tiles-mark_used 0 u.committed_bytes u.blocks i inside valid.tiles)
            (NoPairs-mark_used false u.blocks i inside valid.pairs)
            (omega (
              arith,
              valid.room,
              length-set u.blocks i (record (get_or u.blocks i no_block) { used = true }),
            ))
            large (omega arith)
            (ap (λ b. b.offset)
              (get_or-set_self u.blocks i (record (get_or u.blocks i no_block) { used = true })
                no_block inside))
            (λ o. live-mark_used 0 u.committed_bytes u.blocks i o inside valid.tiles)
