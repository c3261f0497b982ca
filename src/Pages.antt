-- ===== src/Pages.antt =====
-- What the kernel's parts call of src/kernel/physical_memory.c and src/kernel/paging.c to back
-- addresses with memory: an interface, so that its clients stand for every state of the two.
use pyrenis.Base.{ℕ, Bool, Option}

-- The answer of paging_translate: not mapped, another refusal, or a translation.
pub data Translation : Type 0 where
  unmapped failed : Translation
  mapped : (physical permissions level : ℕ) → Translation

-- frame_allocate, frame_release, paging_map with PAGING_WRITE and paging_unmap of one page, and
-- paging_translate. A Boolean is whether the status was ok.
pub record Memory (W : Type 0) : Type 0 where
  pub allocate_frame : W → Option ℕ × W
  pub release_frame : ℕ → W → Bool × W
  pub map_page : ℕ → ℕ → W → Bool × W
  pub unmap_page : ℕ → W → Bool × W
  pub translate : ℕ → W → Translation

-- SAPOTE's page size and the permission bit of a writable page, of include/sapote/paging.h.
abbrev pub page_bytes : ℕ
page_bytes = 4096

abbrev pub paging_write : ℕ
paging_write = 1
