-- ===== src/Heap/Table.antt =====
-- The block table of src/kernel/heap.c. The list holds the first `block_count` entries of the
-- array; the entries after them are never read.
use Prim.Native.Nat.{bit_and}
use pyrenis.Base.{
  ℕ, zero, suc, ◌-◌, ◌%◌, Bool, true, false, not, ◌&&◌, ◌||◌, Option, none, some, List, [], ◌∷◌,
  ltb, leb, ◌==◌, if◌then◌else◌, length, get_elem?, get_or, set,
}
use pyrenis.Base.Words.{add64, sub64}

abbrev pub heap_alignment : ℕ
heap_alignment = 16

abbrev pub max_blocks : ℕ
max_blocks = 256

pub record Block : Type 0 where
  pub offset : ℕ
  pub size : ℕ
  pub used : Bool

abbrev pub no_block : Block
no_block = record { offset = 0; size = 0; used = false }

-- `(value + alignment - 1) & ~(alignment - 1)` for a power of two: the complement of the mask
-- keeps what the mask does not.
unfoldable pub align_up : ℕ → ℕ → ℕ
align_up value alignment =
    let sum = sub64 (add64 value alignment) 1 in sum - bit_and sum (alignment - 1)

unfoldable pub find_fit : ℕ → List Block → ℕ → Option ℕ
find_fit position [] size = none
find_fit position (b ∷ table) size = elim (not b.used && leb size b.size) [
  | true ↦ some position
  | false ↦ find_fit (suc position) table size
]

unfoldable pub block_index_for_offset : ℕ → List Block → ℕ → Option ℕ
block_index_for_offset position [] offset = none
block_index_for_offset position (b ∷ table) offset = elim (b.offset == offset) [
  | true ↦ some position
  | false ↦ block_index_for_offset (suc position) table offset
]

unfoldable pub remove_block : List Block → ℕ → List Block
remove_block [] index = []
remove_block (b ∷ table) zero = table
remove_block (b ∷ table) (suc index) = b ∷ remove_block table index

-- The shift that opens a place right after `index`, and what is put there.
unfoldable pub insert_after : List Block → ℕ → Block → List Block
insert_after [] index r = []
insert_after (b ∷ table) zero r = b ∷ r ∷ table
insert_after (b ∷ table) (suc index) r = b ∷ insert_after table index r

-- `none` when there is no entry left for the remainder.
unfoldable pub split_block : List Block → ℕ → ℕ → Option (List Block)
split_block table index size =
    let b = get_or table index no_block in
    let remainder = sub64 b.size size in
    if leb heap_alignment remainder
    then if length table == max_blocks
      then none
      else some (
          set
            (insert_after table index
              (record { offset = add64 b.offset size; size = remainder; used = false }))
            index (record b { size = size; used = true }))
    else some (set table index (record b { used = true }))

-- `index + 1 < count && !table[index + 1].used`
abbrev pub next_is_free : List Block → ℕ → Bool
next_is_free table index = elim (get_elem? table (suc index)) [ some n ↦ not n.used | none ↦ false ]

-- The block after `index` is added to the one at `index` and removed.
unfoldable pub absorb_next : List Block → ℕ → List Block
absorb_next table index =
    let b = get_or table index no_block in
    let n = get_or table (suc index) no_block in
    remove_block (set table index (record b { size = add64 b.size n.size })) (suc index)

unfoldable pub merge_forwards : List Block → ℕ → List Block
merge_forwards table index = if next_is_free table index then absorb_next table index else table

-- Nothing stands before index 0.
unfoldable pub merge_backwards : List Block → ℕ → List Block
merge_backwards table zero = table
merge_backwards table (suc index) =
    if not (get_or table index no_block).used then absorb_next table index else table

unfoldable pub merge_free_neighbours : List Block → ℕ → List Block
merge_free_neighbours table index = merge_backwards (merge_forwards table index) index

-- The loop of validate_table: `gap` is that there is a block before and it is free.
unfoldable pub validate_from : Bool → ℕ → List Block → ℕ → Bool
validate_from gap expected [] committed = expected == committed
validate_from gap expected (b ∷ table) committed =
    let rest = validate_from (not b.used) (add64 expected b.size) table committed in
    if not (b.offset == expected) || (b.size == 0 || not (b.size % heap_alignment == 0))
    then false
    else if gap && not b.used
    then false
    else rest

unfoldable pub validate_table : List Block → ℕ → Bool
validate_table [] committed = committed == 0
validate_table (b ∷ table) committed =
    if ltb max_blocks (length (b ∷ table))
    then false
    else validate_from false 0 (b ∷ table) committed
