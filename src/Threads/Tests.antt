-- ===== src/Threads/Tests.antt =====
-- Runs and instances of src/kernel/thread.c: the boot thread, and two more that it creates.
use pyrenis.Base.{
  ℕ, ◌+◌, ◌*◌, ◌-◌, ◌%◌, ◌==◌, if◌then◌else◌, ◌<◌, ◌^◌, ◌≡◌, ◌↔◌, refl, true, false, length, Option,
  none, some, List, [], ◌∷◌, arith,
}
use pyrenis.Pages.{Memory, unmapped, mapped}
use pyrenis.Threads.State.{Scheduler, ok, id_none, stack_region, stack_stride}
use pyrenis.Threads.Verify.{pages_present, slot_is_sound, verify_from, settle_verify, thread_verify}
use pyrenis.Threads.Verified.{IsVerified, thread_verify_exact}
use pyrenis.Threads.Schedule.{
  scan_ready, next_ready_slot, account_switch, tally, tally_one, recount, set_state, put_back,
  switch_to, switch_to_next, thread_yield,
}
use pyrenis.Threads.Stacks.{map_stack, map_stack_from, map_stack_page, prepare_frame}
use pyrenis.Threads.Life.{adopt, thread_start, find_unused, admit, settle_create, thread_create}
use pyrenis.Threads.Invariant.{IsValid}
use pyrenis.Threads.Keeps.{thread_start-IsValid}
use pyrenis.Threads.Turns.{
  Call, yielding, creating, perform, perform_all, turns, runs, perform_all-IsValid, no_starvation,
}

abbrev in_order : Memory ℕ
in_order = record {
  allocate_frame = λ w. (some (w * 4096), w + 1);
  release_frame = λ frame w. (true, w);
  map_page = λ address frame w. (true, w);
  unmap_page = λ address w. (true, w);
  translate = λ address w. unmapped;
}

abbrev blank : Scheduler
blank = record {
  threads = [];
  current_slot = 0;
  next_identifier = 0;
  reschedule_pending = false;
  quantum_identifier = id_none;
  active = false;
  capacity = 0;
  live = 0;
  ready_count = 0;
  exited_count = 0;
  current = id_none;
  switches = 0;
  stack_frames = 0;
  preemptions = 0;
  preemptive = false;
}

abbrev begun : Scheduler
begun = adopt blank

begins : thread_start false true true blank ≡ (ok, begun)
unfolding thread_start
begins = refl

begun-IsValid : IsValid begun
begun-IsValid = thread_start-IsValid false true true blank begun begins

abbrev result_of : Option (Scheduler × ℕ) → Scheduler
result_of none = blank
result_of (some (s, w)) = s

abbrev creations : List Call
creations = creating true false 100 1 ∷ creating true false 200 2 ∷ []

abbrev peopled : Scheduler
peopled = result_of (perform_all in_order creations (begun, 0))

creates : perform_all in_order creations (begun, 0) ≡ some (peopled, 8)
unfolding perform_all perform thread_create find_unused map_stack map_stack_from map_stack_page
    settle_create adopt recount admit
creates = refl

peopled-IsValid : IsValid peopled
peopled-IsValid = perform_all-IsValid in_order creations begun peopled 0 8 begun-IsValid creates

perform_all-IsValid_example : IsValid peopled
perform_all-IsValid_example =
    perform_all-IsValid in_order creations begun peopled 0 8 begun-IsValid creates

abbrev yields : List Call
yields = yielding ∷ yielding ∷ yielding ∷ yielding ∷ yielding ∷ yielding ∷ yielding ∷ []

abbrev rotated : Scheduler
rotated = result_of (perform_all in_order yields (peopled, 8))

rotates : perform_all in_order yields (peopled, 8) ≡ some (rotated, 8)
unfolding perform_all perform thread_create find_unused map_stack map_stack_from map_stack_page
    settle_create adopt recount admit
rotates = refl

-- Seven turns from the boot thread on: threads 2, 3, 1, 2, 3, 1 and 2 run.
rotates_to : rotated.current ≡ 2
unfolding perform_all perform thread_create find_unused map_stack map_stack_from map_stack_page
    settle_create admit adopt recount tally tally_one prepare_frame thread_yield switch_to_next
    next_ready_slot scan_ready put_back set_state switch_to account_switch
rotates_to = refl

no_starvation_example : runs in_order 2 yields (peopled, 8) ≡ true
unfolding perform_all perform thread_create find_unused map_stack map_stack_from map_stack_page
    settle_create admit adopt recount tally tally_one prepare_frame turns thread_yield
    switch_to_next next_ready_slot scan_ready put_back set_state switch_to account_switch
no_starvation_example =
    no_starvation in_order yields peopled rotated 8 8 2 peopled-IsValid (omega arith) refl rotates
      (omega arith)

-- Page tables in which the stacks are mapped and the pages below them are not.
abbrev stacked : Memory ℕ
stacked = record in_order {
  translate =
      λ address w. if (address - stack_region) % stack_stride == 0 then unmapped else mapped 0 1 1;
}

verifies : thread_verify stacked 8 peopled ≡ ok
unfolding thread_verify verify_from settle_verify slot_is_sound pages_present perform_all perform
    thread_create find_unused map_stack map_stack_from map_stack_page settle_create admit adopt
    recount tally tally_one prepare_frame
verifies = refl

eight_slots : length peopled.threads < 2 ^ 64
eight_slots = omega (arith, peopled-IsValid.slots)

thread_verify_exact_example : (thread_verify stacked 8 peopled ≡ ok) ↔ IsVerified stacked 8 peopled
thread_verify_exact_example = thread_verify_exact stacked 8 peopled eight_slots

peopled-IsVerified : IsVerified stacked 8 peopled
peopled-IsVerified = (thread_verify_exact stacked 8 peopled eight_slots).0 verifies
