-- ===== src/Threads/Sound.antt =====
-- The slots that thread_verify of src/kernel/thread.c accepts, against what it must find in the
-- address space.
use pyrenis.Base.{
  ℕ, zero, suc, ◌+◌, ◌*◌, ◌≤◌, ◌<◌, ◌≡◌, refl, true, false, List, [], ◌∷◌, arith, length,
  Bool-cases, inl, inr,
}
use pyrenis.Pages.{
  Memory, Translation, unmapped, failed as unreadable, mapped, page_bytes, paging_write,
}
use pyrenis.Threads.State.{
  Thread, thread_at, is_ready, stack_pages, slot_guard_page, slot_stack_base, slot_stack_top,
}
use pyrenis.Threads.Verify.{
  is_used, is_absent, is_stack_page, pages_present, slot_is_sound, all_sound,
}

-- What a slot in use must show: the boot thread stands in slot 0 and has no stack of its own, and
-- any other thread has the slot's stack, with the page below it unmapped, the pages of the stack
-- mapped writable at the lowest level, and, while it waits, its pointer inside.
module _ {W : Type 0} (m : Memory W) (w : W) where
  abbrev pub IsWritable : ℕ → Type 0
  IsWritable address = (physical : ℕ) × (m.translate address w ≡ mapped physical paging_write 1)

  pub record OwnsStack (slot : ℕ) (t : Thread) : Type 0 where
    pub base : t.stack_base ≡ slot_stack_base slot
    pub top : t.stack_top ≡ slot_stack_top slot
    pub guarded : m.translate (slot_guard_page slot) w ≡ unmapped
    pub present : (page : ℕ) → page < stack_pages → IsWritable (t.stack_base + page * page_bytes)
    pub low : is_ready t.state ≡ true → t.stack_base ≤ t.stack_pointer
    pub high : is_ready t.state ≡ true → t.stack_pointer ≤ t.stack_top

  pub record IsSound (slot : ℕ) (t : Thread) : Type 0 where
    pub boot_slot : t.boot_thread ≡ true → slot ≡ 0
    pub boot_stack : t.boot_thread ≡ true → t.stack_top ≡ 0
    pub own_stack : t.boot_thread ≡ false → OwnsStack slot t

  is_stack_page-IsWritable :
      (address : ℕ) → is_stack_page (m.translate address w) ≡ true → IsWritable address
  is_stack_page-IsWritable address e = from (m.translate address w) e
    where
      from :
          (x : Translation)
          → is_stack_page x ≡ true
          → (physical : ℕ) × (x ≡ mapped physical paging_write 1)
      from unmapped e = absurd (ground (arith, e))
      from unreadable e = absurd (ground (arith, e))
      from (mapped physical permissions level) e = (physical, ground (arith, e))

  absent_page :
      (address : ℕ) → is_absent (m.translate address w) ≡ true → m.translate address w ≡ unmapped
  absent_page address e = from (m.translate address w) e
    where
      from : (x : Translation) → is_absent x ≡ true → x ≡ unmapped
      from unmapped e = refl
      from unreadable e = absurd (ground (arith, e))
      from (mapped physical permissions level) e = absurd (ground (arith, e))

  pages_present-IsWritable :
      (rounds address : ℕ)
      → pages_present m w rounds address ≡ true
      → (page : ℕ) → page < rounds
      → IsWritable (address + page * page_bytes)
  unfolding pages_present
  pages_present-IsWritable zero address e page l = absurd (omega (arith, l))
  pages_present-IsWritable (suc rounds) address e zero l =
      let same : address ≡ address + zero * page_bytes = omega arith in
      rw (← same) (is_stack_page-IsWritable address (ground (arith, e)))
  pages_present-IsWritable (suc rounds) address e (suc page) l =
      let same : address + page_bytes + page * page_bytes ≡ address + suc page * page_bytes =
        omega arith in
      rw (← same) (
        pages_present-IsWritable rounds (address + page_bytes) (ground (arith, e)) page
          (omega (arith, l)))

  all_writable :
      (rounds address : ℕ)
      → ((page : ℕ) → page < rounds → IsWritable (address + page * page_bytes))
      → pages_present m w rounds address ≡ true
  unfolding pages_present
  all_writable zero address h = refl
  all_writable (suc rounds) address h =
      let (physical, first) = h 0 (omega arith) in
      let rest = all_writable rounds (address + page_bytes) λ page l.
        let same : address + page_bytes + page * page_bytes ≡ address + suc page * page_bytes =
          omega arith in
        rw same (h (suc page) (omega (arith, l))) in
      ground (arith, first, rest)

  slot_is_sound-IsSound :
      (slot : ℕ) (t : Thread)
      → is_used t.state ≡ true
      → slot_is_sound m w slot t ≡ true
      → IsSound slot t
  unfolding slot_is_sound
  slot_is_sound-IsSound slot t u e = record {
    boot_slot = λ b. ground (arith, b, e);
    boot_stack = λ b. ground (arith, b, e);
    own_stack = λ b. record {
      base = ground (arith, b, e);
      top = ground (arith, b, e);
      guarded = absent_page (slot_guard_page slot) (ground (arith, b, e));
      present = pages_present-IsWritable stack_pages t.stack_base (ground (arith, b, e));
      low = λ r. ground (arith, b, e, r, u);
      high = λ r. ground (arith, b, e, r, u);
    };
  }

  IsSound-slot_is_sound :
      (slot : ℕ) (t : Thread)
      → is_used t.state ≡ true
      → IsSound slot t
      → slot_is_sound m w slot t ≡ true
  unfolding slot_is_sound
  IsSound-slot_is_sound slot t u v = elim (Bool-cases t.boot_thread) [
    | inl boots ↦ ground (arith, boots, v.boot_slot boots, v.boot_stack boots)
    | inr not_boot ↦
        let o = v.own_stack not_boot in
        let pages = all_writable stack_pages t.stack_base o.present in
        ground (arith, not_boot, o.base, o.top, o.guarded, pages, o.low, o.high, u)
  ]

  pub all_sound-IsSound :
      (threads : List Thread) (slot : ℕ)
      → all_sound m w slot threads ≡ true
      → (i : ℕ) → i < length threads
      → is_used (thread_at threads i).state ≡ true
      → IsSound (slot + i) (thread_at threads i)
  unfolding all_sound
  all_sound-IsSound [] slot e i l u = absurd (omega (arith, l))
  all_sound-IsSound (t ∷ threads) slot e zero l u =
      let same : slot ≡ slot + zero = omega arith in
      rw (← same) (slot_is_sound-IsSound slot t u (ground (arith, e, u)))
  all_sound-IsSound (t ∷ threads) slot e (suc i) l u =
      let same : suc slot + i ≡ slot + suc i = omega arith in
      rw (← same) (all_sound-IsSound threads (suc slot) (ground (arith, e)) i (omega (arith, l)) u)

  pub IsSound-all_sound :
      (threads : List Thread) (slot : ℕ)
      → ((i : ℕ)
          → i < length threads
          → is_used (thread_at threads i).state ≡ true
          → IsSound (slot + i) (thread_at threads i))
      → all_sound m w slot threads ≡ true
  unfolding all_sound
  IsSound-all_sound [] slot h = refl
  IsSound-all_sound (t ∷ threads) slot h =
      let here : is_used t.state ≡ true → slot_is_sound m w slot t ≡ true = λ u.
        let same : slot + 0 ≡ slot = omega arith in
        IsSound-slot_is_sound slot t u (rw (← same) (h 0 (omega arith) u)) in
      let rest = IsSound-all_sound threads (suc slot) λ i l u.
        let same : slot + suc i ≡ suc slot + i = omega arith in
        rw (← same) (h (suc i) (omega (arith, l)) u) in
      ground (arith, here, rest)
