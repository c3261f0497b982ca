-- ===== src/Frames/Records.antt =====
-- The table of contiguous allocations of src/kernel/physical_memory.c, read by frame.
use pyrenis.Base.{
  ℕ, zero, suc, ◌+◌, ◌-◌, ◌/◌, ◌%◌, ◌≤◌, ◌<◌, ◌≡◌, refl, Bool, true, false, not, ◌&&◌, ◌||◌, List,
  [], ◌∷◌, ltb, leb, ◌==◌, if◌then◌else◌, arith, length, set, get_or, replicate,
}
use pyrenis.Frames.State.{ContiguousRecord, page_size}

-- `frame >= first && frame - first < page_count` for an active record.
unfoldable pub covers_frame : ContiguousRecord → ℕ → Bool
covers_frame r frame =
    let first = r.physical_base / page_size in
    r.active && (leb first frame && ltb (frame - first) r.page_count)

unfoldable pub frame_in_contiguous_allocation : List ContiguousRecord → ℕ → Bool
frame_in_contiguous_allocation [] frame = false
frame_in_contiguous_allocation (r ∷ rs) frame = elim (covers_frame r frame) [
  | true ↦ true
  | false ↦ frame_in_contiguous_allocation rs frame
]

-- How many records cover the frame.
unfoldable pub owners : List ContiguousRecord → ℕ → ℕ
owners [] frame = 0
owners (r ∷ rs) frame = (if covers_frame r frame then 1 else 0) + owners rs frame

-- A live record describes whole frames below the limit.
abbrev pub record_fits : ℕ → ContiguousRecord → Bool
record_fits frames r =
    not r.active
    || (r.physical_base % page_size == 0 && leb (r.physical_base / page_size + r.page_count) frames)

abbrev pub AllFit : ℕ → List ContiguousRecord → Type 0
AllFit frames [] = Unit {0}
AllFit frames (r ∷ rs) = (record_fits frames r ≡ true) × AllFit frames rs

-- The live records lie below the limit and share no frame.
pub record IsTable (frames : ℕ) (rs : List ContiguousRecord) : Type 0 where
  pub fits : AllFit frames rs
  pub single : (f : ℕ) → owners rs f ≤ 1

abbrev pub no_record : ContiguousRecord
no_record = record { physical_base = 0; page_count = 0; identifier = 0; active = false }

pub owners_iff :
    (rs : List ContiguousRecord) (f : ℕ)
    → frame_in_contiguous_allocation rs f ≡ not (owners rs f == 0)
unfolding frame_in_contiguous_allocation owners
owners_iff [] f = refl
owners_iff (r ∷ rs) f = ground (arith, owners_iff rs f)

-- Replacing a record moves its share of the owners.
pub owners-set :
    (rs : List ContiguousRecord) (k : ℕ) (r : ContiguousRecord) (f : ℕ)
    → k < length rs
    → owners (set rs k r) f + (if covers_frame (get_or rs k no_record) f then 1 else 0)
      ≡ owners rs f + (if covers_frame r f then 1 else 0)
unfolding owners
owners-set [] k r f h = absurd (omega arith)
owners-set (x ∷ rs) zero r f h = omega arith
owners-set (x ∷ rs) (suc k) r f h = omega (arith, owners-set rs k r f (omega arith))

pub owners_of :
    (rs : List ContiguousRecord) (k f : ℕ)
    → k < length rs
    → (if covers_frame (get_or rs k no_record) f then 1 else 0) ≤ owners rs f
unfolding owners
owners_of [] k f h = absurd (omega arith)
owners_of (x ∷ rs) zero f h = omega arith
owners_of (x ∷ rs) (suc k) f h = omega (arith, owners_of rs k f (omega arith))

pub AllFit-set :
    (frames : ℕ) (rs : List ContiguousRecord) (k : ℕ) (r : ContiguousRecord)
    → record_fits frames r ≡ true
    → AllFit frames rs
    → AllFit frames (set rs k r)
AllFit-set frames [] k r h v = tt
AllFit-set frames (x ∷ rs) zero r h v = (h, v.1)
AllFit-set frames (x ∷ rs) (suc k) r h v = (v.0, AllFit-set frames rs k r h v.1)

pub AllFit-get :
    (frames : ℕ) (rs : List ContiguousRecord) (k : ℕ)
    → AllFit frames rs
    → record_fits frames (get_or rs k no_record) ≡ true
AllFit-get frames [] k v = refl
AllFit-get frames (x ∷ rs) zero v = v.0
AllFit-get frames (x ∷ rs) (suc k) v = AllFit-get frames rs k v.1

-- A table of vacant records owns nothing.
pub vacant_owners : (n f : ℕ) → owners (replicate n no_record) f ≡ 0
unfolding owners covers_frame
vacant_owners zero f = refl
vacant_owners (suc n) f = omega (arith, vacant_owners n f)

vacant-AllFit : (frames n : ℕ) → AllFit frames (replicate n no_record)
vacant-AllFit frames zero = tt
vacant-AllFit frames (suc n) = (refl, vacant-AllFit frames n)

pub vacant-IsTable : (frames n : ℕ) → IsTable frames (replicate n no_record)
vacant-IsTable frames n = record {
  fits = vacant-AllFit frames n;
  single = λ f. omega (arith, vacant_owners n f);
}
