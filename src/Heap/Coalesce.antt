-- ===== src/Heap/Coalesce.antt =====
-- merge_free_neighbours of src/kernel/heap.c after a block has been marked free.
use pyrenis.Base.{
  ℕ, zero, suc, ◌^◌, ◌≤◌, ◌<◌, ◌≡◌, refl, ap, ◌∙◌, Bool, true, false, not, ◌&&◌, List, [], ◌∷◌,
  arith, ◌==◌, if◌then◌else◌, if_rule, length, get_or,
}
use pyrenis.Base.Words.{add64}
use pyrenis.Heap.Table.{
  Block, no_block, next_is_free, remove_block, absorb_next, merge_forwards, merge_backwards,
  merge_free_neighbours,
}
use pyrenis.Heap.Chain.{Tiles, NoPairs, live}
use pyrenis.Heap.Merge.{mark_free, Tiles-absorb_next, live-absorb_next, next_is_free_at}

length-absorb_next :
    (table : List Block) (i : ℕ)
    → suc i < length table
    → suc (length (absorb_next table i)) ≡ length table
unfolding absorb_next remove_block
length-absorb_next [] i l = absurd (omega arith)
length-absorb_next (b ∷ []) i l = absurd (omega arith)
length-absorb_next (b ∷ n ∷ table) zero l = refl
length-absorb_next (b ∷ n ∷ table) (suc i) l =
    ap suc (length-absorb_next (n ∷ table) i (omega arith))

used-absorb_next :
    (table : List Block) (i : ℕ)
    → (get_or (absorb_next table i) i no_block).used ≡ (get_or table i no_block).used
unfolding absorb_next remove_block
used-absorb_next [] i = refl
used-absorb_next (b ∷ []) zero = refl
used-absorb_next (b ∷ []) (suc i) = refl
used-absorb_next (b ∷ n ∷ table) zero = refl
used-absorb_next (b ∷ n ∷ table) (suc i) = used-absorb_next (n ∷ table) i

-- What a table with a free block at `i` keeps when its neighbours are merged.
abbrev Kept : ℕ → List Block → ℕ → List Block → Type 0
Kept last table i t =
    (i < length t)
    × ((get_or t i no_block).used ≡ false)
    × Tiles 0 t last
    × (length t ≤ length table)
    × ((o : ℕ) → live t o ≡ live table o)

merge_forwards-Kept :
    (last : ℕ) (table : List Block) (i : ℕ)
    → last < 2 ^ 64
    → i < length table
    → (get_or table i no_block).used ≡ false
    → Tiles 0 table last
    → Kept last table i (merge_forwards table i)
unfolding merge_forwards
merge_forwards-Kept last table i h l f v =
    if_rule (Kept last table i) (next_is_free table i) {x = absorb_next table i}
      (λ e.
        let (inside, free) = next_is_free_at table i e in
        let len : suc (length (absorb_next table i)) ≡ length table =
          length-absorb_next table i inside in
        (
          omega (arith, len, inside),
          used-absorb_next table i ∙ f,
          Tiles-absorb_next 0 last table i h inside v,
          omega (arith, len),
          λ o. live-absorb_next table i o inside f free,
        ))
      λ _. (l, f, v, omega arith, λ o. refl)

abbrev Merged : ℕ → List Block → List Block → Type 0
Merged last table t =
    Tiles 0 t last × (length t ≤ length table) × ((o : ℕ) → live t o ≡ live table o)

merge_backwards-Merged :
    (last : ℕ) (table : List Block) (i : ℕ)
    → last < 2 ^ 64
    → i < length table
    → (get_or table i no_block).used ≡ false
    → Tiles 0 table last
    → Merged last table (merge_backwards table i)
unfolding merge_backwards
merge_backwards-Merged last table zero h l f v = (v, omega arith, λ o. refl)
merge_backwards-Merged last table (suc i) h l f v =
    if_rule (Merged last table) (not (get_or table i no_block).used) {x = absorb_next table i}
      (λ e.
        let len : suc (length (absorb_next table i)) ≡ length table =
          length-absorb_next table i l in
        (
          Tiles-absorb_next 0 last table i h l v,
          omega (arith, len),
          λ o. live-absorb_next table i o l (ground (arith, e)) f,
        ))
      λ _. (v, omega arith, λ o. refl)

-- Merging keeps the tiling and every live allocation.
pub merge_Tiles :
    (last : ℕ) (table : List Block) (i : ℕ)
    → last < 2 ^ 64
    → i < length table
    → (get_or table i no_block).used ≡ false
    → Tiles 0 table last
    → Merged last table (merge_free_neighbours table i)
unfolding merge_free_neighbours
merge_Tiles last table i h l f v =
    let (l1, f1, v1, c1, e1) = merge_forwards-Kept last table i h l f v in
    let (v2, c2, e2) = merge_backwards-Merged last (merge_forwards table i) i h l1 f1 v1 in
    (v2, omega (arith, c1, c2), λ o. e2 o ∙ e1 o)

cons_if {ℓ} :
    {A : Type ℓ} (b : Bool) (p : A) (x y : List A)
    → (if b then p ∷ x else p ∷ y) ≡ p ∷ (if b then x else y)
cons_if true p x y = refl
cons_if false p x y = refl

forwards-cons :
    (p : Block) (t : List Block) (i : ℕ) → merge_forwards (p ∷ t) (suc i) ≡ p ∷ merge_forwards t i
unfolding merge_forwards absorb_next remove_block
forwards-cons p t i = cons_if (next_is_free t i) p (absorb_next t i) t

backwards-cons :
    (p : Block) (t : List Block) (i : ℕ)
    → merge_backwards (p ∷ t) (suc (suc i)) ≡ p ∷ merge_backwards t (suc i)
unfolding merge_backwards absorb_next remove_block
backwards-cons p t i = cons_if (not (get_or t i no_block).used) p (absorb_next t i) t

merge-cons :
    (p : Block) (t : List Block) (i : ℕ)
    → merge_free_neighbours (p ∷ t) (suc (suc i)) ≡ p ∷ merge_free_neighbours t (suc i)
unfolding merge_free_neighbours
merge-cons p t i = rw (forwards-cons p t (suc i)) (backwards-cons p (merge_forwards t (suc i)) i)

-- After a used block is freed and merged, no two free blocks are side by side.
pub merge_NoPairs :
    (gap : Bool) (table : List Block) (i : ℕ)
    → i < length table
    → (gap && i == 0) ≡ false
    → (get_or table i no_block).used ≡ true
    → NoPairs gap table
    → NoPairs gap (merge_free_neighbours (mark_free table i) i)
unfolding merge_free_neighbours merge_forwards merge_backwards absorb_next remove_block
merge_NoPairs gap [] i l g u n = absurd (omega arith)
merge_NoPairs gap (b ∷ []) zero l g u n = (ground arith, tt)
merge_NoPairs gap (b ∷ c ∷ table) zero l g u n =
    if_rule (NoPairs gap) (not c.used)
      {x = record b { used = false; size = add64 b.size c.size } ∷ table}
      (λ e. (ground arith, rw e at n.1.1)) λ e. (ground arith, (ground arith, n.1.1))
merge_NoPairs gap (p ∷ []) (suc i) l g u n = absurd (omega arith)
merge_NoPairs gap (p ∷ b ∷ []) (suc zero) l g u n =
    if_rule (NoPairs gap) (not p.used) {x = record p { size = add64 p.size b.size } ∷ []}
      (λ e. (n.0, tt)) λ e. (n.0, (ground arith, tt))
merge_NoPairs gap (p ∷ b ∷ c ∷ table) (suc zero) l g u n =
    if_rule (λ t. NoPairs gap (merge_backwards t 1)) (not c.used)
      {x = p ∷ record b { used = false; size = add64 b.size c.size } ∷ table}
      (λ e.
        if_rule (NoPairs gap) (not p.used)
          {x = record p { size = add64 p.size (add64 b.size c.size) } ∷ table}
          (λ d. (n.0, rw (d, ← e) n.1.1.1)) λ d. (n.0, (ground arith, rw e at n.1.1.1)))
      λ e.
        if_rule (NoPairs gap) (not p.used) {x = record p { size = add64 p.size b.size } ∷ c ∷ table}
          (λ d. (n.0, (ground arith, n.1.1.1))) λ d. (n.0, (ground arith, (ground arith, n.1.1.1)))
merge_NoPairs gap (p ∷ b ∷ table) (suc (suc i)) l g u n =
    rw (merge-cons p (mark_free (b ∷ table) (suc i)) i)
      (n.0, merge_NoPairs (not p.used) (b ∷ table) (suc i) (omega arith) (ground arith) u n.1)
