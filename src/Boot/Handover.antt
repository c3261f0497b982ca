-- ===== src/Boot/Handover.antt =====
-- From the parse of src/kernel/multiboot2.c to the frame allocator that starts from it.
use pyrenis.Base.{ℕ, zero, suc, ◌+◌, true, Option, List, [], ◌∷◌}
use pyrenis.Frames.State.{ok as started_ok}
use pyrenis.Frames.Setup.{Region, BootInformation}
use pyrenis.Boot.Memory.{ok, Context, Bytes}
use pyrenis.Boot.Tags.{boot_information_region_at}

module _ (mem : Bytes) where
  -- The regions that a loop over the entries reads.
  unfoldable pub regions_from : Context → ℕ → ℕ → List (Option Region)
  regions_from c zero index = []
  regions_from c (suc rounds) index =
      boot_information_region_at mem true c index ∷ regions_from c rounds (index + 1)

  -- What the frame allocator reads of the context, with the ends of the kernel's image.
  abbrev pub handed_over : ℕ → ℕ → Context → BootInformation
  handed_over kernel_start kernel_end c = record {
    memory_map = regions_from c c.memory_map_entry_count 0;
    information_start = c.information_start;
    information_end = c.information_end;
    kernel_start = kernel_start;
    kernel_end = kernel_end;
  }
