-- ===== src/Boot/Tests.antt =====
-- Examples for the theorems on src/kernel/multiboot2.c: boot information at 0x10000 with a memory
-- map of one region and a framebuffer.
use pyrenis.Base.{
  ℕ, zero, suc, ◌+◌, ◌-◌, ◌*◌, ◌/◌, ◌%◌, ◌≤◌, ◌<◌, ◌≡◌, ◌≢◌, refl, Bool, true, false, some, List,
  [], ◌∷◌, ◌++◌, arith, ltb, if◌then◌else◌, if_rule, ◌&&◌, get_or,
}
use pyrenis.Boot.Memory.{
  Status, ok, Context, reset_context, Bytes, load_u32, load_u64, read_u32, read_u64, range_fits,
  boot_magic, max_information_size,
}
use pyrenis.Boot.Tags.{
  align_tag_size, boot_information_region_at, add_region, count_regions, validate_memory_map,
  decode_framebuffer,
}
use pyrenis.Boot.Parse.{
  keep_framebuffer, take_tag, check_tag, steps, settle_parse, parse_tags, check_header,
  boot_information_parse,
}
use pyrenis.Boot.Ends.{boot_information_parse-Ends}
use pyrenis.Boot.Inside.{boot_information_parse-Agree}
use pyrenis.Boot.Handover.{handed_over}
use pyrenis.Boot.Pixels.{boot_information_parse_pixels}
use pyrenis.Frames.State.{FrameState, ok as started_ok}
use pyrenis.Frames.Setup.{frame_allocator_initialize}

-- The bytes of a word, low first.
abbrev u32 : ℕ → List ℕ
u32 n = n % 256 ∷ n / 256 % 256 ∷ n / 65536 % 256 ∷ n / 16777216 % 256 ∷ []

-- Header, memory map (base 1 MiB, length 176 KiB, available), framebuffer of 640 by 480, end.
abbrev block : List ℕ
block =
    u32 96
    ++ u32 0
    ++ u32 6
    ++ u32 40
    ++ u32 24
    ++ u32 0
    ++ u32 0x100000
    ++ u32 0
    ++ u32 0x2c000
    ++ u32 0
    ++ u32 1
    ++ u32 0
    ++ u32 8
    ++ u32 38
    ++ u32 0xfd000000
    ++ u32 0
    ++ u32 2560
    ++ u32 640
    ++ u32 480
    ++ (32 ∷ 1 ∷ 0 ∷ 0 ∷ [])
    ++ (16 ∷ 8 ∷ 8 ∷ 8 ∷ 0 ∷ 8 ∷ 0 ∷ 0 ∷ [])
    ++ u32 0
    ++ u32 8

abbrev memory : Bytes
memory a = if ltb a 0x10000 then 0 else get_or block (a - 0x10000) 0

all_bytes : List ℕ → Bool
all_bytes [] = true
all_bytes (x ∷ xs) = ltb x 256 && all_bytes xs

get_or_byte : (xs : List ℕ) (i : ℕ) → all_bytes xs ≡ true → get_or xs i 0 < 256
unfolding all_bytes
get_or_byte [] i h = omega arith
get_or_byte (x ∷ xs) zero h = ground (arith, h)
get_or_byte (x ∷ xs) (suc i) h = get_or_byte xs i (ground (arith, h))

memory_bytes : (a : ℕ) → memory a < 256
unfolding all_bytes
memory_bytes a =
    if_rule (λ x. x < 256) (ltb a 0x10000) (λ _. omega arith)
      λ _. get_or_byte block (a - 0x10000) refl

abbrev context : Context
context = record reset_context {
  information_start = 0x10000;
  information_end = 0x10060;
  memory_map = some 0x10008;
  memory_map_entry_count = 1;
  reported_usable_bytes = 0x2c000;
  highest_reported_address = 0x12c000;
  framebuffer = record {
    address = 0xfd000000;
    pitch = 2560;
    width = 640;
    height = 480;
    size = 1228800;
    bits_per_pixel = 32;
    red_position = 16;
    green_position = 8;
    blue_position = 0;
    present = true;
  };
}

parses : boot_information_parse memory 5 true boot_magic 0x10000 reset_context ≡ some (ok, context)
unfolding boot_information_parse check_header parse_tags check_tag range_fits take_tag steps
    settle_parse align_tag_size validate_memory_map count_regions boot_information_region_at
    add_region decode_framebuffer keep_framebuffer load_u32 load_u64 read_u32 read_u64
parses = refl

boot_information_parse-Ends_example :
    (r : Status × Context) × (boot_information_parse memory
        (max_information_size + 1)
        true
        boot_magic
        0x10000
        reset_context
      ≡ some r)
boot_information_parse-Ends_example =
    boot_information_parse-Ends memory (max_information_size + 1) true boot_magic 0x10000
      reset_context (omega arith)

-- The same block, with other bytes after it.
abbrev elsewhere : Bytes
elsewhere a = if ltb a 0x10060 then memory a else 7

agree : (a : ℕ) → a < 0x10060 → memory a ≡ elsewhere a
agree a l =
    if_rule (λ x. memory a ≡ x) (ltb a 0x10060) (λ _. refl) λ out. absurd (ground (arith, out, l))

boot_information_parse-Agree_example :
    boot_information_parse memory 5 true boot_magic 0x10000 reset_context
    ≡ boot_information_parse elsewhere 5 true boot_magic 0x10000 reset_context
unfolding load_u32
boot_information_parse-Agree_example =
    boot_information_parse-Agree memory elsewhere 0x10000 (λ a l u. agree a (omega (arith, u)))
      (λ a l u. agree a (omega (arith, u))) 5 true boot_magic reset_context

boot_information_parse_pixels_example :
    (0xfd000000 + (479 * 2560 + 639 * 4) + 4 ≤ 0xfd000000 + 1228800)
    × (0xfd000000 + 1228800 ≤ 0x100000000)
    × (639 * 4 + 4 ≤ 2560)
    × (context.framebuffer.red_position ≢ context.framebuffer.green_position)
    × (context.framebuffer.green_position ≢ context.framebuffer.blue_position)
    × (context.framebuffer.red_position ≢ context.framebuffer.blue_position)
boot_information_parse_pixels_example =
    boot_information_parse_pixels memory memory_bytes 5 boot_magic 0x10000 639 479 reset_context
      context parses refl (omega arith) (omega arith)

abbrev blank : FrameState
blank = record {
  eligible = [];
  used = [];
  stats = record {
    addressable_frames = 0;
    allocatable_frames = 0;
    free_frames = 0;
    allocated_frames = 0;
    reserved_frames = 0;
    highest_allocatable_address = 0;
  };
  next_search = 0;
  initialized = false;
  records = [];
  next_identifier = 0;
}

abbrev booted : FrameState
booted =
    (frame_allocator_initialize 300 (some (handed_over memory 0x100000 0x104000 context)) blank).1
