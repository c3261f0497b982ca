-- ===== src/Frames/Contiguous.antt =====
-- frame_allocate_contiguous and frame_release_contiguous of src/kernel/physical_memory.c.
pub mod Runs
pub mod Commit
pub mod Calls
pub mod Return
use Prim.Native.Nat.{bit_and}
use pyrenis.Base.{
  ℕ, zero, suc, ◌+◌, ◌-◌, ◌*◌, ◌/◌, ◌%◌, Bool, true, false, not, ◌&&◌, ◌||◌, Option, none, some,
  List, [], ◌∷◌, ltb, leb, ◌==◌, if◌then◌else◌, set, get_or,
}
use pyrenis.Base.Words.{u64_max, mul64, add64, sub64, inc64}
use pyrenis.Frames.Bitmap.{Bitmap, bitmap_get, bitmap_set}
use pyrenis.Frames.Records.{no_record}
use pyrenis.Frames.State.{
  Status, ok, null_argument, not_initialized, zero_page_count, bad_alignment,
  alignment_unsatisfiable, range_overflow, address_bound_unsatisfied,
  too_many_contiguous_allocations, out_of_memory, double_free, bad_contiguous_allocation,
  FrameState, ContiguousRecord, page_size, early_limit,
}

-- `struct frame_contiguous_request`
pub record Request : Type 0 where
  pub page_count : ℕ
  pub alignment : ℕ
  pub maximum_physical_address : ℕ

-- `struct frame_contiguous_allocation`, the caller's handle
pub record Allocation : Type 0 where
  pub physical_base : ℕ
  pub page_count : ℕ
  pub alignment : ℕ
  pub maximum_physical_address : ℕ
  pub identifier : ℕ
  pub active : Bool

abbrev pub cleared : Allocation
cleared = record {
  physical_base = 0;
  page_count = 0;
  alignment = 0;
  maximum_physical_address = 0;
  identifier = 0;
  active = false;
}

unfoldable pub power_of_two : ℕ → Bool
power_of_two value = not (value == 0) && bit_and value (value - 1) == 0

-- The first index whose record passes the test.
unfoldable pub find_record : (ContiguousRecord → Bool) → ℕ → List ContiguousRecord → Option ℕ
find_record test i [] = none
find_record test i (r ∷ rs) = elim (test r) [ true ↦ some i | false ↦ find_record test (i + 1) rs ]

-- Whether `count` frames from `frame` on all pass the test.
unfoldable pub all_frames : (ℕ → Bool) → ℕ → ℕ → Bool
all_frames test zero frame = true
all_frames test (suc count) frame = elim (test frame) [
  | true ↦ all_frames test count (frame + 1)
  | false ↦ false
]

unfoldable pub set_run : ℕ → ℕ → Bool → Bitmap → Bitmap
set_run zero frame v m = m
set_run (suc count) frame v m = set_run count (frame + 1) v (bitmap_set m frame v)

module _ (frames : ℕ) where
  -- One past the last frame that the inclusive address bound allows.
  unfoldable pub maximum_past_frame : Request → ℕ
  maximum_past_frame q =
      let bound_end =
        if q.maximum_physical_address == u64_max then u64_max else q.maximum_physical_address + 1 in
      (if ltb (early_limit frames) bound_end then early_limit frames else bound_end) / page_size

  -- The refusals before the tables are read, in order.
  unfoldable pub check_request : Request → Option Status
  check_request q =
      let length = mul64 q.page_count page_size in
      if q.page_count == 0
      then some zero_page_count
      else if not (power_of_two q.alignment)
          || ltb q.alignment page_size
          || not (q.alignment % page_size == 0)
      then some bad_alignment
      else if ltb (early_limit frames) q.alignment
          || ltb
              (add64 q.maximum_physical_address
                (if q.maximum_physical_address == u64_max then 0 else 1))
              q.alignment
      then some alignment_unsatisfiable
      else if ltb (u64_max / page_size) q.page_count
      then some range_overflow
      else if length == 0 || ltb q.maximum_physical_address (length - 1)
      then some address_bound_unsatisfied
      else if ltb (maximum_past_frame q) q.page_count
      then some address_bound_unsatisfied
      else none

  -- The scan for a run: the first aligned one whose frames are all eligible and unused.
  unfoldable pub find_run : ℕ → ℕ → Request → Bitmap → Bitmap → Option ℕ
  find_run zero first q eligible used = none
  find_run (suc rounds) first q eligible used =
      let aligned = bit_and (mul64 first page_size) (q.alignment - 1) == 0 in
      let free =
        all_frames (λ f. bitmap_get eligible f && not (bitmap_get used f)) q.page_count first in
      elim (aligned && free) [
        | true ↦ some first
        | false ↦ find_run rounds (first + 1) q eligible used
      ]

  -- The state and handle after a run has been found, `slot` being the free record.
  unfoldable pub commit_run : ℕ → ℕ → Request → FrameState → Allocation × FrameState
  commit_run slot first q s =
      let base = mul64 first page_size in
      let next = first + q.page_count in
      let following = inc64 s.next_identifier in
      (
        record {
          physical_base = base;
          page_count = q.page_count;
          alignment = q.alignment;
          maximum_physical_address = q.maximum_physical_address;
          identifier = s.next_identifier;
          active = true;
        },
        record s {
          used = set_run q.page_count first true s.used;
          records = set s.records slot (record {
            physical_base = base;
            page_count = q.page_count;
            identifier = s.next_identifier;
            active = true;
          });
          next_identifier = if following == 0 then 1 else following;
          stats = record (s.stats) {
            free_frames = sub64 s.stats.free_frames q.page_count;
            allocated_frames = add64 s.stats.allocated_frames q.page_count;
          };
          next_search = if leb frames next then 0 else next;
        },
      )

  -- `given` is false for a null pointer, which leaves the handle alone; every other refusal
  -- clears it.
  unfoldable pub frame_allocate_contiguous :
      Bool → Request → Allocation → FrameState → Status × Allocation × FrameState
  frame_allocate_contiguous given q handle s =
      if not given
      then (null_argument, handle, s)
      else if not s.initialized
      then (not_initialized, cleared, s)
      else elim (check_request q) [
        | some st ↦ (st, cleared, s)
        | none ↦ elim (find_record (λ r. not r.active) 0 s.records) [
          | none ↦ (too_many_contiguous_allocations, cleared, s)
          | some slot ↦
              elim (find_run (maximum_past_frame q - q.page_count + 1) 0 q s.eligible s.used) [
                | none ↦ (out_of_memory, cleared, s)
                | some first ↦ let (h, t) = commit_run slot first q s in (ok, h, t)
              ]
        ]
      ]

-- The state after the run of the record at `slot` has been given back.
unfoldable pub return_run : ℕ → FrameState → FrameState
return_run slot s =
    let r = get_or s.records slot no_record in
    let first = r.physical_base / page_size in
    record s {
      used = set_run r.page_count first false s.used;
      stats = record (s.stats) {
        free_frames = add64 s.stats.free_frames r.page_count;
        allocated_frames = sub64 s.stats.allocated_frames r.page_count;
      };
      next_search = if ltb first s.next_search then first else s.next_search;
      records = set s.records slot (record r { active = false });
    }

unfoldable pub frame_release_contiguous :
    Bool → Allocation → FrameState → Status × Allocation × FrameState
frame_release_contiguous given h s =
    if not given
    then (null_argument, h, s)
    else if not s.initialized
    then (not_initialized, h, s)
    else if not h.active
    then (double_free, h, s)
    else elim (find_record (λ r. r.active && r.identifier == h.identifier) 0 s.records) [
      | none ↦ (double_free, h, s)
      | some slot ↦
          let r = get_or s.records slot no_record in
          let first = r.physical_base / page_size in
          if not (r.physical_base == h.physical_base) || not (r.page_count == h.page_count)
          then (bad_contiguous_allocation, h, s)
          else if not
              (all_frames (λ f. bitmap_get s.eligible f && bitmap_get s.used f) r.page_count first)
          then (bad_contiguous_allocation, h, s)
          else (ok, record h { active = false }, return_run slot s)
    ]
