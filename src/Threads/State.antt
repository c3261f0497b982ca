-- ===== src/Threads/State.antt =====
-- The thread table of src/kernel/thread.c and the types of include/sapote/thread.h.
use pyrenis.Base.{
  ℕ, ◌+◌, ◌*◌, Bool, true, false, Option, none, some, List, [], ◌∷◌, ◌==◌, ◌&&◌, not, get_or,
}
use pyrenis.Pages.{page_bytes}

abbrev pub thread_max : ℕ
thread_max = 8

abbrev pub stack_pages : ℕ
stack_pages = 4

abbrev pub stack_size : ℕ
stack_size = stack_pages * page_bytes

abbrev pub stack_stride : ℕ
stack_stride = stack_size + page_bytes

abbrev pub stack_region : ℕ
stack_region = 0x8_0000_0000

abbrev pub id_none : ℕ
id_none = 0

pub data RunState : Type 0 where
  unused ready running exited : RunState

pub data Status : Type 0 where
  ok null_argument already_started not_started interrupts_enabled no_heap no_memory : Status
  no_capacity out_of_frames mapping_failure bad_identifier not_the_boot_thread : Status
  threads_still_runnable no_timer no_quantum already_preemptive not_preemptive : Status
  validation_failure : Status

pub record Thread : Type 0 where
  pub stack_pointer : ℕ
  pub stack_base : ℕ
  pub stack_top : ℕ
  pub identifier : ℕ
  pub switches : ℕ
  pub entry : ℕ
  pub context : ℕ
  pub state : RunState
  pub boot_thread : Bool

-- What clear_slot leaves.
abbrev pub no_thread : Thread
no_thread = record {
  stack_pointer = 0;
  stack_base = 0;
  stack_top = 0;
  identifier = id_none;
  switches = 0;
  entry = 0;
  context = 0;
  state = unused;
  boot_thread = false;
}

-- The file-scope variables; the list is empty where `threads` is null.
pub record Scheduler : Type 0 where
  pub threads : List Thread
  pub current_slot : ℕ
  pub next_identifier : ℕ
  pub reschedule_pending : Bool
  pub quantum_identifier : ℕ
  pub active : Bool
  pub capacity : ℕ
  pub live : ℕ
  pub ready_count : ℕ
  pub exited_count : ℕ
  pub current : ℕ
  pub switches : ℕ
  pub stack_frames : ℕ
  pub preemptions : ℕ
  pub preemptive : Bool

abbrev pub is_unused : RunState → Bool
is_unused unused = true
is_unused _ = false

abbrev pub is_ready : RunState → Bool
is_ready ready = true
is_ready _ = false

abbrev pub is_running : RunState → Bool
is_running running = true
is_running _ = false

abbrev pub is_exited : RunState → Bool
is_exited exited = true
is_exited _ = false

-- The thread in a slot.
abbrev pub thread_at : List Thread → ℕ → Thread
thread_at threads slot = get_or threads slot no_thread

abbrev pub slot_guard_page : ℕ → ℕ
slot_guard_page slot = stack_region + slot * stack_stride

abbrev pub slot_stack_base : ℕ → ℕ
slot_stack_base slot = slot_guard_page slot + page_bytes

abbrev pub slot_stack_top : ℕ → ℕ
slot_stack_top slot = slot_stack_base slot + stack_size

-- The slot of a live identifier.
unfoldable pub find_from : ℕ → List Thread → ℕ → Option ℕ
find_from slot [] identifier = none
find_from slot (t ∷ threads) identifier =
    elim (not (is_unused t.state) && t.identifier == identifier) [
      | true ↦ some slot
      | false ↦ find_from (slot + 1) threads identifier
    ]

unfoldable pub find : ℕ → List Thread → Option ℕ
find identifier threads = elim (identifier == id_none) [
  | true ↦ none
  | false ↦ find_from 0 threads identifier
]
