-- ===== src/Frames/Contiguous/Runs.antt =====
-- The loops of the contiguous allocator: testing, finding and writing runs of frames.
use Prim.Native.Nat.{bit_and}
use native.Mathlib.Decide.{ℕ_discrete}
use pyrenis.Base.{
  ℕ, zero, suc, ◌+◌, ◌-◌, ◌≤◌, ◌<◌, ◌≡◌, refl, inl, inr, Bool, true, false, not, ◌&&◌, ◌||◌, none,
  some, List, [], ◌∷◌, arith, ltb, leb, ◌==◌, if◌then◌else◌, Bool-cases, length, get_or, set,
}
use pyrenis.Base.Words.{mul64}
use pyrenis.Frames.Bitmap.{
  Bitmap, IsBitmap, bitmap_get, bitmap_set, bitmap_get-set, bitmap_set-IsBitmap,
}
use pyrenis.Frames.Records.{no_record}
use pyrenis.Frames.State.{ContiguousRecord, page_size}
use pyrenis.Frames.Contiguous.{Request, find_record, all_frames, set_run, find_run}

pub all_frames-true :
    (test : ℕ → Bool) (count first g : ℕ)
    → all_frames test count first ≡ true
    → first ≤ g
    → g < first + count
    → test g ≡ true
unfolding all_frames
all_frames-true test zero first g e l h = absurd (omega arith)
all_frames-true test (suc count) first g e l h = elim (ℕ_discrete first g) [
  | yes here ↦ rw (← here) (ground arith)
  | no later ↦ all_frames-true test count (first + 1) g (ground arith) (omega arith) (omega arith)
]

-- Bitmap after a run has been written.
pub record RunSet (frames first past : ℕ) (v : Bool) (before after : Bitmap) : Type 0 where
  pub bits : IsBitmap frames after
  pub reads :
      (g : ℕ) → bitmap_get after g ≡ (if leb first g && ltb g past then v else bitmap_get before g)

pub set_run-RunSet :
    (frames count first past : ℕ) (v : Bool) (m : Bitmap)
    → first + count ≡ past
    → past ≤ frames
    → IsBitmap frames m
    → RunSet frames first past v m (set_run count first v m)
unfolding set_run
set_run-RunSet frames zero first past v m end l b = record { bits = b; reads = λ g. ground arith }
set_run-RunSet frames (suc count) first past v m end l b =
    let rest =
      set_run-RunSet frames count (first + 1) past v (bitmap_set m first v) (omega arith) l
        (bitmap_set-IsBitmap frames m first v b) in
    record {
      bits = rest.bits;
      reads = λ g. ground (arith, rest.reads g, bitmap_get-set frames m first g v b (omega arith));
    }

-- The record that is found is in the table and passes the test.
find_record-from :
    (test : ContiguousRecord → Bool) (i : ℕ) (rs : List ContiguousRecord) (k : ℕ)
    → find_record test i rs ≡ some k
    → (i ≤ k) × (k < i + length rs) × (test (get_or rs (k - i) no_record) ≡ true)
unfolding find_record
find_record-from test i [] k e = ground arith
find_record-from test i (r ∷ rs) k e = elim (Bool-cases (test r)) [
  | inl hit ↦
      let at : i ≡ k = ground arith in
      let zero_off : k - i ≡ 0 = omega arith in (omega arith, omega arith, rw zero_off hit)
  | inr miss ↦
      let (low, high, passes) = find_record-from test (i + 1) rs k (ground arith) in
      let step : k - i ≡ suc (k - (i + 1)) = omega arith in
      (omega arith, omega arith, rw step passes)
]

pub find_record_sound :
    (test : ContiguousRecord → Bool) (rs : List ContiguousRecord) (k : ℕ)
    → find_record test 0 rs ≡ some k
    → (k < length rs) × (test (get_or rs k no_record) ≡ true)
find_record_sound test rs k e =
    let (_, high, passes) = find_record-from test 0 rs k e in
    let same : k - 0 ≡ k = omega arith in (omega (arith, high), rw same at passes)

module _ (frames : ℕ) (q : Request) (eligible used : Bitmap) where
  abbrev pub is_run : ℕ → Bool
  is_run first =
      bit_and (mul64 first page_size) (q.alignment - 1) == 0
      && all_frames (λ f. bitmap_get eligible f && not (bitmap_get used f)) q.page_count first

  pub find_run_sound :
      (rounds start first : ℕ)
      → find_run frames rounds start q eligible used ≡ some first
      → (first < start + rounds) × (is_run first ≡ true)
  unfolding find_run
  find_run_sound zero start first e = ground arith
  find_run_sound (suc rounds) start first e =
      ground (arith, find_run_sound rounds (start + 1) first)

  pub find_run_complete :
      (rounds start first : ℕ)
      → find_run frames rounds start q eligible used ≡ none
      → start ≤ first
      → first < start + rounds
      → is_run first ≡ false
  unfolding find_run
  find_run_complete zero start first e l h = absurd (omega arith)
  find_run_complete (suc rounds) start first e l h = elim (ℕ_discrete start first) [
    | yes here ↦ rw (← here) (ground arith)
    | no later ↦
        find_run_complete rounds (start + 1) first (ground arith) (omega arith) (omega arith)
  ]

pub all_frames-of :
    (test : ℕ → Bool) (count first past : ℕ)
    → first + count ≡ past
    → ((g : ℕ) → (not (leb first g && ltb g past) || test g) ≡ true)
    → all_frames test count first ≡ true
unfolding all_frames
all_frames-of test zero first past e h = refl
all_frames-of test (suc count) first past e h = ground (
  arith,
  h first,
  all_frames-of test count (first + 1) past (omega arith) (λ g. ground (arith, h g)),
)

-- Every live record carries an identifier below the bound.
abbrev pub AllBelow : ℕ → List ContiguousRecord → Type 0
AllBelow n [] = Unit {0}
AllBelow n (r ∷ rs) = ((not r.active || ltb r.identifier n) ≡ true) × AllBelow n rs

pub AllBelow-set :
    (n : ℕ) (rs : List ContiguousRecord) (k : ℕ) (r : ContiguousRecord)
    → (not r.active || ltb r.identifier (n + 1)) ≡ true
    → AllBelow n rs
    → AllBelow (n + 1) (set rs k r)
AllBelow-set n [] k r h v = tt
AllBelow-set n (x ∷ rs) zero r h v = (h, weaken rs v.1)
  where
    weaken : (rs : List ContiguousRecord) → AllBelow n rs → AllBelow (n + 1) rs
    weaken [] v = tt
    weaken (y ∷ ys) v = (ground (arith, v.0), weaken ys v.1)
AllBelow-set n (x ∷ rs) (suc k) r h v = (ground (arith, v.0), AllBelow-set n rs k r h v.1)

-- A record stored under a new identifier is the one that its identifier finds.
pub find_record-set :
    (n i : ℕ) (rs : List ContiguousRecord) (k : ℕ) (r : ContiguousRecord)
    → AllBelow n rs
    → k < length rs
    → r.active ≡ true
    → r.identifier ≡ n
    → find_record (λ x. x.active && x.identifier == n) i (set rs k r) ≡ some (i + k)
unfolding find_record
find_record-set n i [] k r v h a e = absurd (omega arith)
find_record-set n i (x ∷ rs) zero r v h a e = ground arith
find_record-set n i (x ∷ rs) (suc k) r v h a e =
    ground (arith, v.0, find_record-set n (i + 1) rs k r v.1 (omega arith) a e)
