-- ===== src/Boot/Tags.antt =====
-- What src/kernel/multiboot2.c does with one tag at the address `tag`.
use Prim.Native.Nat.{bit_and}
use pyrenis.Base.{
  ℕ, zero, suc, ◌+◌, ◌-◌, ◌*◌, ◌/◌, ◌%◌, ◌^◌, Bool, true, false, not, ◌||◌, Option, none, some, ltb,
  leb, ◌==◌, if◌then◌else◌,
}
use pyrenis.Base.Words.{add64, mul64, u64_max}
use pyrenis.Frames.Setup.{Region}
use pyrenis.Boot.Memory.{
  Status, ok, memory_map_too_small, memory_entry_too_small, memory_entry_version,
  memory_map_remainder, memory_region_overflow, truncated_tag, framebuffer_tag_too_small,
  framebuffer_not_direct_colour, bad_framebuffer_depth, bad_framebuffer_geometry,
  bad_framebuffer_pitch, bad_framebuffer_address, bad_framebuffer_channel,
  framebuffer_outside_early_map, Framebuffer, Context, Bytes, map_header_size, map_entry_size,
  tag_size, early_physical_limit, load_u32, load_u64, read_u32, read_u64,
}

unfoldable pub align_tag_size : ℕ → ℕ
align_tag_size size = bit_and (add64 size 7) (2 ^ 64 - 8)

-- The sums that a region is counted into.
unfoldable pub add_region : Region → Context → Context
add_region r c =
    let region_end = r.base_address + r.length in
    record c {
      highest_reported_address =
          if ltb c.highest_reported_address region_end
          then region_end
          else c.highest_reported_address;
      reported_usable_bytes =
          if r.kind == 1
          then (if ltb (u64_max - c.reported_usable_bytes) r.length
              then u64_max
              else c.reported_usable_bytes + r.length)
          else c.reported_usable_bytes;
    }

-- A channel of a pixel: a whole byte at a byte boundary.
abbrev pub is_bad_channel : ℕ → ℕ → Bool
is_bad_channel position mask_size =
    not (mask_size == 8) || (not (position % 8 == 0) || leb 32 position)

module _ (mem : Bytes) where
  -- The fields of the tag.
  abbrev pub tag_type : ℕ → ℕ
  tag_type tag = load_u32 mem tag

  abbrev pub size_of : ℕ → ℕ
  size_of tag = load_u32 mem (tag + 4)

  -- The loop of string_length_within over the indices of the string, from `index` on.
  unfoldable pub find_nul : ℕ → ℕ → ℕ → Option ℕ
  find_nul zero tag index = none
  find_nul (suc rounds) tag index = elim (mem (tag + index) == 0) [
    | true ↦ some (index - tag_size)
    | false ↦ find_nul rounds tag (index + 1)
  ]

  unfoldable pub string_length_within : ℕ → ℕ → Option ℕ
  string_length_within tag size =
      if leb size tag_size then none else find_nul (size - tag_size) tag tag_size

  -- `given` is that neither pointer is null.
  unfoldable pub boot_information_region_at : Bool → Context → ℕ → Option Region
  boot_information_region_at given c index = if not given then none else elim c.memory_map [
    | none ↦ none
    | some map ↦
        if leb c.memory_map_entry_count index
        then none
        else let entry = map + map_header_size + index * load_u32 mem (map + 8) in
          some (record {
            base_address = load_u64 mem entry;
            length = load_u64 mem (entry + 8);
            kind = load_u32 mem (entry + 16);
          })
  ]

  unfoldable pub count_regions : ℕ → ℕ → Context → Status × Context
  count_regions zero index c = (ok, c)
  count_regions (suc rounds) index c = elim (boot_information_region_at true c index) [
    | none ↦ (truncated_tag, c)
    | some r ↦
        let rest = count_regions rounds (index + 1) (add_region r c) in
        if ltb (u64_max - r.base_address) r.length then (memory_region_overflow, c) else rest
  ]

  unfoldable pub validate_memory_map : ℕ → Context → Status × Context
  validate_memory_map map c =
      let entry_size = load_u32 mem (map + 8) in
      let payload_size = size_of map - map_header_size in
      let entry_count = payload_size / entry_size in
      if ltb (size_of map) map_header_size
      then (memory_map_too_small, c)
      else if ltb entry_size map_entry_size
      then (memory_entry_too_small, c)
      else if not (load_u32 mem (map + 12) == 0)
      then (memory_entry_version, c)
      else if not (payload_size % entry_size == 0)
      then (memory_map_remainder, c)
      else count_regions entry_count 0
          (record c { memory_map = some map; memory_map_entry_count = entry_count })

  unfoldable pub decode_framebuffer : ℕ → Framebuffer → Status × Framebuffer
  decode_framebuffer tag old =
      let address = read_u64 mem (tag + 8) in
      let pitch = read_u32 mem (tag + 16) in
      let width = read_u32 mem (tag + 20) in
      let height = read_u32 mem (tag + 24) in
      let depth = mem (tag + 28) in
      let size = mul64 pitch height in
      let red = mem (tag + 32) in
      let green = mem (tag + 34) in
      let blue = mem (tag + 36) in
      if ltb (size_of tag) 32
      then (framebuffer_tag_too_small, old)
      else if not (mem (tag + 29) == 1)
      then (framebuffer_not_direct_colour, old)
      else if ltb (size_of tag) 38
      then (framebuffer_tag_too_small, old)
      else if not (depth == 32)
      then (bad_framebuffer_depth, old)
      else if width == 0 || height == 0
      then (bad_framebuffer_geometry, old)
      else if ltb pitch (mul64 width 4) || not (pitch % 4 == 0)
      then (bad_framebuffer_pitch, old)
      else if address == 0 || not (address % 4 == 0)
      then (bad_framebuffer_address, old)
      else if size == 0
          || (ltb early_physical_limit size || ltb (early_physical_limit - size) address)
      then (framebuffer_outside_early_map, old)
      else if is_bad_channel red (mem (tag + 33))
          || (is_bad_channel green (mem (tag + 35)) || is_bad_channel blue (mem (tag + 37)))
      then (bad_framebuffer_channel, old)
      else if red == green || (green == blue || red == blue)
      then (bad_framebuffer_channel, old)
      else (
        ok,
        record {
          address = address;
          pitch = pitch;
          width = width;
          height = height;
          size = size;
          bits_per_pixel = depth;
          red_position = red;
          green_position = green;
          blue_position = blue;
          present = true;
        },
      )
