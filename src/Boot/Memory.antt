-- ===== src/Boot/Memory.antt =====
-- The types of include/sapote/boot.h and the reads of src/kernel/multiboot2.c. Bytes is the byte at
-- each address, and a pointer is an address, `none` for NULL.
use Prim.Native.Nat.{bit_or}
use pyrenis.Base.{ℕ, ◌+◌, ◌-◌, ◌*◌, ◌^◌, Bool, true, false, ◌&&◌, Option, none, leb}

abbrev pub boot_magic : ℕ
boot_magic = 0x36D76289

abbrev pub tag_alignment : ℕ
tag_alignment = 8

abbrev pub max_information_size : ℕ
max_information_size = 16 * 1024 * 1024

abbrev pub early_physical_limit : ℕ
early_physical_limit = 0x100000000

-- The sizes of the packed structures.
abbrev pub information_header_size : ℕ
information_header_size = 8

abbrev pub tag_size : ℕ
tag_size = 8

abbrev pub map_header_size : ℕ
map_header_size = 16

abbrev pub map_entry_size : ℕ
map_entry_size = 24

pub data Status : Type 0 where
  ok null_context bad_magic null_information misaligned_information : Status
  information_too_small information_too_large information_size_misaligned : Status
  information_overflow reserved_field_nonzero truncated_tag tag_too_small : Status
  tag_overflow duplicate_memory_map memory_map_too_small memory_entry_too_small : Status
  memory_entry_version memory_map_remainder memory_region_overflow : Status
  unsupported_module string_not_terminated acpi_tag_too_small duplicate_acpi_tag : Status
  bad_end_tag missing_end_tag missing_memory_map duplicate_framebuffer : Status
  framebuffer_tag_too_small framebuffer_not_direct_colour bad_framebuffer_depth : Status
  bad_framebuffer_geometry bad_framebuffer_pitch bad_framebuffer_address : Status
  bad_framebuffer_channel framebuffer_outside_early_map : Status

abbrev pub is_ok : Status → Bool
is_ok ok = true
is_ok _ = false

pub record Framebuffer : Type 0 where
  pub address : ℕ
  pub pitch : ℕ
  pub width : ℕ
  pub height : ℕ
  pub size : ℕ
  pub bits_per_pixel : ℕ
  pub red_position : ℕ
  pub green_position : ℕ
  pub blue_position : ℕ
  pub present : Bool

pub record Context : Type 0 where
  pub information_start : ℕ
  pub information_end : ℕ
  pub memory_map : Option ℕ
  pub acpi_old : Option ℕ
  pub acpi_new : Option ℕ
  pub boot_loader_name : Option ℕ
  pub command_line : Option ℕ
  pub boot_loader_name_length : ℕ
  pub command_line_length : ℕ
  pub memory_map_entry_count : ℕ
  pub reported_usable_bytes : ℕ
  pub highest_reported_address : ℕ
  pub framebuffer : Framebuffer

-- What boot_information_reset leaves.
abbrev pub reset_context : Context
reset_context = record {
  information_start = 0;
  information_end = 0;
  memory_map = none;
  acpi_old = none;
  acpi_new = none;
  boot_loader_name = none;
  command_line = none;
  boot_loader_name_length = 0;
  command_line_length = 0;
  memory_map_entry_count = 0;
  reported_usable_bytes = 0;
  highest_reported_address = 0;
  framebuffer = record {
    address = 0;
    pitch = 0;
    width = 0;
    height = 0;
    size = 0;
    bits_per_pixel = 0;
    red_position = 0;
    green_position = 0;
    blue_position = 0;
    present = false;
  };
}

abbrev pub Bytes : Type 0
Bytes = ℕ → ℕ

unfoldable pub range_fits : ℕ → ℕ → ℕ → Bool
range_fits offset length total = leb offset total && leb length (total - offset)

-- A field of a packed structure, little-endian.
unfoldable pub load_u32 : Bytes → ℕ → ℕ
load_u32 mem a = mem a + (mem (a + 1) * 2 ^ 8 + (mem (a + 2) * 2 ^ 16 + mem (a + 3) * 2 ^ 24))

unfoldable pub load_u64 : Bytes → ℕ → ℕ
load_u64 mem a = load_u32 mem a + load_u32 mem (a + 4) * 2 ^ 32

unfoldable pub read_u32 : Bytes → ℕ → ℕ
read_u32 mem a =
    bit_or (mem a)
      (bit_or (mem (a + 1) * 2 ^ 8) (bit_or (mem (a + 2) * 2 ^ 16) (mem (a + 3) * 2 ^ 24)))

unfoldable pub read_u64 : Bytes → ℕ → ℕ
read_u64 mem a = bit_or (read_u32 mem a) (read_u32 mem (a + 4) * 2 ^ 32)
