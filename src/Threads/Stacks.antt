-- ===== src/Threads/Stacks.antt =====
-- The stacks of src/kernel/thread.c: map_stack, unmap_stack and prepare_frame.
use pyrenis.Base.{ℕ, zero, suc, ◌+◌, ◌*◌, not, none, some, List, [], ◌∷◌, if◌then◌else◌}
use pyrenis.Base.Words.{sub64, dec64}
use pyrenis.Pages.{unmapped, failed, mapped, Memory, page_bytes}
use pyrenis.Threads.State.{
  Status, ok, out_of_frames, mapping_failure, validation_failure, Thread, stack_pages,
  slot_stack_base,
}

-- PREPARED_FRAME_SIZE: eight slots of eight bytes.
abbrev pub prepared_frame_size : ℕ
prepared_frame_size = 64

-- RFLAGS_RESERVED | RFLAGS_INTERRUPT_ENABLE
abbrev pub initial_rflags : ℕ
initial_rflags = 0x202

-- The eight words from the stack pointer up: R15, R14, R13, R12, RBX, RBP, RFLAGS and the
-- return address, which is that of thread_trampoline.
unfoldable pub prepared_frame : ℕ → Thread → List ℕ
prepared_frame trampoline t = 0 ∷ 0 ∷ t.context ∷ t.entry ∷ 0 ∷ 0 ∷ initial_rflags ∷ trampoline ∷ []

-- The stack pointer that prepare_frame sets.
unfoldable pub prepare_frame : Thread → Thread
prepare_frame t = record t { stack_pointer = sub64 t.stack_top prepared_frame_size }

module _ {W : Type 0} (m : Memory W) where
  -- One round of the first loop of map_stack.
  unfoldable pub map_stack_page : ℕ → W → Status × W
  map_stack_page address w =
      let (frame, w1) = m.allocate_frame w in
      elim frame [
        | none ↦ (out_of_frames, w1)
        | some f ↦
            let (done, w2) = m.map_page address f w1 in
            if done then (ok, w2) else (mapping_failure, (m.release_frame f w2).1)
      ]

  -- The unwinding of `rounds` pages, from `page` on.
  unfoldable pub unwind_stack : ℕ → ℕ → ℕ → W → W
  unwind_stack zero base page w = w
  unwind_stack (suc rounds) base page w =
      let address = base + page * page_bytes in
      unwind_stack rounds base (page + 1) (elim (m.translate address w) [
        | unmapped ↦ w
        | failed ↦ w
        | mapped physical permissions level ↦
            let (done, w') = m.unmap_page address w in
            if done then (m.release_frame physical w').1 else w'
      ])

  unfoldable pub map_stack_from : ℕ → ℕ → ℕ → W → Status × W
  map_stack_from zero base page w = (ok, w)
  map_stack_from (suc rounds) base page w =
      let (st, w') = map_stack_page (base + page * page_bytes) w in
      elim st [
        | ok ↦ map_stack_from rounds base (page + 1) w'
        | other ↦ (other, unwind_stack page base 0 w')
      ]

  unfoldable pub map_stack : ℕ → W → Status × W
  map_stack slot w = map_stack_from stack_pages (slot_stack_base slot) 0 w

  -- The count of stack frames goes down with each page that is given back.
  unfoldable pub unmap_stack_from : ℕ → ℕ → ℕ → ℕ × W → Status × ℕ × W
  unmap_stack_from zero base page (frames, w) = (ok, frames, w)
  unmap_stack_from (suc rounds) base page (frames, w) =
      let address = base + page * page_bytes in
      elim (m.translate address w) [
        | unmapped ↦ (validation_failure, frames, w)
        | failed ↦ (validation_failure, frames, w)
        | mapped physical permissions level ↦
            let (done, w1) = m.unmap_page address w in
            let (given, w2) = m.release_frame physical w1 in
            let rest = unmap_stack_from rounds base (page + 1) (dec64 frames, w2) in
            if not done
            then (validation_failure, frames, w1)
            else if not given
            then (validation_failure, frames, w2)
            else rest
      ]

  unfoldable pub unmap_stack : ℕ → ℕ × W → Status × ℕ × W
  unmap_stack slot p = unmap_stack_from stack_pages (slot_stack_base slot) 0 p
