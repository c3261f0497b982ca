-- ===== src/Vectors/Handles.antt =====
-- What a handle to a dynamic vector is good for: giving back, and refusals.
use native.Mathlib.Decide.{ℕ_discrete}
use pyrenis.Base.{
  ℕ, ◌^◌, ◌<◌, ◌≡◌, ◌≢◌, refl, ◌∙◌, Bool, true, false, not, ◌||◌, arith, get_or, get_or-set_self,
}
use pyrenis.Base.Count.{count_below-le}
use pyrenis.Vectors.Table.{
  Handle, VectorState, vector_count, is_dynamic, vector_index, next_generation, take_vector,
  return_vector, allocate_specific, release, ok, double_release, stale_allocation,
}
use pyrenis.Vectors.Counts.{
  taken, IsValid, taken-take, taken-return, dynamic_index, take_vector-IsValid,
  allocate_specific-IsValid, release-IsValid,
}
use pyrenis.Vectors.Scan.{handle_for}

-- What a grant of a given vector says of its arguments and results.
granted :
    (on : Bool) (vector : ℕ) (h k : Handle) (s t : VectorState)
    → allocate_specific true on vector h s ≡ (ok, k, t)
    → (s.active ≡ true)
      × (on ≡ false)
      × (is_dynamic vector ≡ true)
      × (taken s (vector_index vector) ≡ false)
      × (k ≡ record {
        vector = vector;
        generation = next_generation (get_or s.generations (vector_index vector) 0);
        active = true;
      })
      × (t ≡ take_vector (vector_index vector) s)
unfolding allocate_specific
granted on vector h k s t e = ground arith

released :
    (h k : Handle) (s t : VectorState)
    → release true false h s ≡ (ok, k, t)
    → (k ≡ record h { active = false })
      × (t ≡ return_vector (vector_index h.vector) s)
      × (is_dynamic h.vector ≡ true)
      × (s.active ≡ true)
unfolding release
released h k s t e = ground arith

fresh : (g : ℕ) → next_generation g ≢ g
unfolding next_generation
fresh g e = ground arith

-- A live handle whose generation is current is taken back.
take_back :
    (h : Handle) (s : VectorState)
    → s.active ≡ true
    → is_dynamic h.vector ≡ true
    → h.active ≡ true
    → taken s (vector_index h.vector) ≡ true
    → get_or s.generations (vector_index h.vector) 0 ≡ h.generation
    → release true false h s
      ≡ (ok, record h { active = false }, return_vector (vector_index h.vector) s)
unfolding release
take_back h s a d l u g = ground arith

generation-take :
    (s : VectorState) (i : ℕ)
    → IsValid s
    → i < vector_count
    → get_or (take_vector i s).generations i 0 ≡ next_generation (get_or s.generations i 0)
unfolding take_vector
generation-take s i valid l = get_or-set_self s.generations i _ 0 (omega (arith, valid.counters))

active-take : (i : ℕ) (s : VectorState) → (take_vector i s).active ≡ s.active
unfolding take_vector
active-take i s = refl

counts_back :
    (i : ℕ) (s : VectorState)
    → s.allocated < 2 ^ 64
    → s.free < 2 ^ 64
    → ((return_vector i (take_vector i s)).allocated ≡ s.allocated)
      × ((return_vector i (take_vector i s)).free ≡ s.free)
unfolding return_vector take_vector
counts_back i s h g = (omega arith, omega arith)

-- Taking a vector and returning it restores every flag and both counts.
restored :
    (s : VectorState) (i : ℕ)
    → IsValid s
    → s.active ≡ true
    → i < vector_count
    → taken s i ≡ false
    → ((j : ℕ) → taken (return_vector i (take_vector i s)) j ≡ taken s j)
      × ((return_vector i (take_vector i s)).allocated ≡ s.allocated)
      × ((return_vector i (take_vector i s)).free ≡ s.free)
restored s i valid running l free =
    let v = take_vector-IsValid s valid running i l free in
    let a : (take_vector i s).active ≡ true = active-take i s ∙ running in
    let (c, f) =
      counts_back i s (omega (arith, valid.used_count, count_below-le (taken s) vector_count))
        (ground (arith, valid.free_count)) in
    (
      λ j. elim (ℕ_discrete i j) [
        | yes e ↦
            ground
              (arith, taken-return (take_vector i s) v a i l j, taken-take s valid running i l j, e)
        | no ne ↦
            ground (
              arith,
              taken-return (take_vector i s) v a i l j,
              taken-take s valid running i l j,
              ne,
            )
      ],
      c,
      f,
    )

-- For a valid table and with interrupts off, a vector that interrupt_vector_allocate_specific
-- grants is given back by interrupt_vector_release through its handle: the release answers ok, and
-- every flag and both counts are as before the two calls.
pub release-allocate_specific :
    (vector : ℕ) (h k : Handle) (s t : VectorState)
    → IsValid s
    → allocate_specific true false vector h s ≡ (ok, k, t)
    → (u : VectorState) × (release true false k t ≡ (ok, record k { active = false }, u))
      × ((i : ℕ) → taken u i ≡ taken s i)
      × (u.allocated ≡ s.allocated)
      × (u.free ≡ s.free)
release-allocate_specific vector h k s t valid e =
    let (running, _, dynamic, free, ek, et) = granted false vector h k s t e in
    let i = vector_index vector in
    let l : i < vector_count = dynamic_index vector dynamic in
    let (flags, used, unused) = restored s i valid running l free in
    rw (ek, et)
      (
        return_vector i (take_vector i s),
        take_back (handle_for vector s) (take_vector i s) (active-take i s ∙ running) dynamic refl
            (ground (arith, taken-take s valid running i l i)) (generation-take s i valid l),
        flags,
        used,
        unused,
      )

refuse_double :
    (h : Handle) (s : VectorState)
    → s.active ≡ true
    → is_dynamic h.vector ≡ true
    → (not h.active || not (taken s (vector_index h.vector))) ≡ true
    → release true false h s ≡ (double_release, h, s)
unfolding release
refuse_double h s a d n = ground arith

refuse_stale :
    (h : Handle) (s : VectorState)
    → s.active ≡ true
    → is_dynamic h.vector ≡ true
    → h.active ≡ true
    → taken s (vector_index h.vector) ≡ true
    → get_or s.generations (vector_index h.vector) 0 ≢ h.generation
    → release true false h s ≡ (stale_allocation, h, s)
unfolding release
refuse_stale h s a d l u n = ground arith

return_fields :
    (i : ℕ) (s : VectorState)
    → ((return_vector i s).active ≡ s.active) × ((return_vector i s).generations ≡ s.generations)
unfolding return_vector
return_fields i s = (refl, refl)

-- For a valid table, after a release that answered ok, a second release through the handle it
-- left, and one through a copy of the handle from before, are both refused as a double release and
-- change nothing.
pub release_twice :
    (h k : Handle) (s t : VectorState)
    → IsValid s
    → release true false h s ≡ (ok, k, t)
    → (release true false k t ≡ (double_release, k, t))
      × (release true false h t ≡ (double_release, h, t))
release_twice h k s t valid e =
    let (ek, et, dynamic, running) = released h k s t e in
    let i = vector_index h.vector in
    let l : i < vector_count = dynamic_index h.vector dynamic in
    let off : taken (return_vector i s) i ≡ false =
      ground (arith, taken-return s valid running i l i) in
    let a : (return_vector i s).active ≡ true = (return_fields i s).0 ∙ running in
    rw (ek, et)
      (
        refuse_double (record h { active = false }) (return_vector i s) a dynamic refl,
        refuse_double h (return_vector i s) a dynamic (ground (arith, off)),
      )

-- For a valid table and with interrupts off: a vector is granted by number, released through its
-- handle, and granted again. Releasing it through a copy of the first handle that is still marked
-- active is then refused as stale and changes nothing.
pub release_stale :
    (vector : ℕ) (h h1 h2 h3 h4 : Handle) (s t u w : VectorState)
    → IsValid s
    → allocate_specific true false vector h s ≡ (ok, h1, t)
    → release true false h1 t ≡ (ok, h2, u)
    → allocate_specific true false vector h3 u ≡ (ok, h4, w)
    → release true false h1 w ≡ (stale_allocation, h1, w)
release_stale vector h h1 h2 h3 h4 s t u w valid first back again =
    let (running, _, dynamic, free, e1, et) = granted false vector h h1 s t first in
    let (_, eu, _, _) = released h1 h2 t u back in
    let (running', _, _, free', _, ew) = granted false vector h3 h4 u w again in
    let i = vector_index vector in
    let l : i < vector_count = dynamic_index vector dynamic in
    let vt : IsValid t = rw first at (allocate_specific-IsValid true false vector h s valid) in
    let vu : IsValid u = rw back at (release-IsValid true false h1 t vt) in
    let held : get_or t.generations i 0 ≡ h1.generation =
      rw (et, e1) (generation-take s i valid l) in
    let kept : u.generations ≡ t.generations =
      rw eu ((return_fields (vector_index h1.vector) t).1) in
    let now : get_or w.generations i 0 ≡ next_generation h1.generation =
      rw (ew, generation-take u i vu l, kept, held) refl in
    let place : h1.vector ≡ vector = rw e1 refl in
    refuse_stale h1 w (rw (ew, active-take i u) running') (rw place dynamic) (rw e1 refl)
      (rw (place, ew) (ground (arith, taken-take u vu running' i l i)))
      (rw (place, now) (fresh h1.generation))
