-- ===== src/Boot/Parse.antt =====
-- boot_information_parse of src/kernel/multiboot2.c. The loop over the tags runs on fuel, and `none`
-- is its end.
use Prim.Native.Nat.{bit_and}
use pyrenis.Base.{
  ℕ, zero, suc, ◌+◌, ◌-◌, Bool, true, false, not, ◌&&◌, ◌||◌, Option, none, some, ltb, leb, ◌==◌,
  if◌then◌else◌,
}
use pyrenis.Base.Words.{u64_max}
use pyrenis.Boot.Memory.{
  Status, ok, is_ok, null_context, bad_magic, null_information, misaligned_information,
  information_too_large, information_too_small, information_size_misaligned, information_overflow,
  reserved_field_nonzero, truncated_tag, tag_too_small, tag_overflow, bad_end_tag, missing_end_tag,
  missing_memory_map, duplicate_memory_map, unsupported_module, acpi_tag_too_small,
  duplicate_acpi_tag, duplicate_framebuffer, string_not_terminated, Framebuffer, Context,
  reset_context, Bytes, boot_magic, tag_alignment, max_information_size, early_physical_limit,
  information_header_size, tag_size, range_fits, load_u32,
}
use pyrenis.Boot.Tags.{
  align_tag_size, tag_type, size_of, string_length_within, validate_memory_map, decode_framebuffer,
}

abbrev pub is_set : Option ℕ → Bool
is_set none = false
is_set (some p) = true

-- The first ACPI tag of its kind is kept.
unfoldable pub keep_acpi : Bool → ℕ → ℕ → Context → Status × Context
keep_acpi is_new size tag c =
    if ltb size (tag_size + (if is_new then 36 else 20))
    then (acpi_tag_too_small, c)
    else if is_set (if is_new then c.acpi_new else c.acpi_old)
    then (duplicate_acpi_tag, c)
    else if is_new
    then (ok, record c { acpi_new = some tag })
    else (ok, record c { acpi_old = some tag })

unfoldable pub keep_string : Bool → ℕ → Option ℕ → Context → Status × Context
keep_string is_name tag none c = (string_not_terminated, c)
keep_string true tag (some length) c =
    (ok, record c { boot_loader_name = some (tag + tag_size); boot_loader_name_length = length })
keep_string false tag (some length) c =
    (ok, record c { command_line = some (tag + tag_size); command_line_length = length })

unfoldable pub keep_framebuffer : Context → Status × Framebuffer → Status × Context
keep_framebuffer c (st, framebuffer) = (st, record c { framebuffer = framebuffer })

-- The check of the step to the next tag.
unfoldable pub steps : ℕ → ℕ → ℕ → Bool
steps total offset size =
    leb size (align_tag_size size) && range_fits offset (align_tag_size size) total

-- What the code does after the loop.
unfoldable pub settle_parse : Bool → Context → Status × Context
settle_parse found_end c =
    if not found_end
    then (missing_end_tag, c)
    else if is_set c.memory_map
    then (ok, c)
    else (missing_memory_map, c)

module _ (mem : Bytes) where
  -- The body of the loop for a tag that is not the end.
  unfoldable pub take_tag : ℕ → Context → Status × Context
  take_tag tag c =
      let kind = tag_type mem tag in
      let size = size_of mem tag in
      if kind == 6
      then (if is_set c.memory_map
          then (duplicate_memory_map, c)
          else validate_memory_map mem tag c)
      else if kind == 3
      then (unsupported_module, c)
      else if kind == 14 || kind == 15
      then keep_acpi (kind == 15) size tag c
      else if kind == 8
      then (if c.framebuffer.present
          then (duplicate_framebuffer, c)
          else keep_framebuffer c (decode_framebuffer mem tag c.framebuffer))
      else if kind == 2 || kind == 1
      then keep_string (kind == 2) tag (string_length_within mem tag size) c
      else (ok, c)

  -- The checks before a tag is looked at: `ok` is a tag that is not the end.
  unfoldable pub check_tag : ℕ → ℕ → ℕ → Status × Bool
  check_tag start total offset =
      let tag = start + offset in
      let size = size_of mem tag in
      if not (range_fits offset tag_size total)
      then (truncated_tag, false)
      else if ltb size tag_size
      then (tag_too_small, false)
      else if not (range_fits offset size total)
      then (tag_overflow, false)
      else if tag_type mem tag == 0
      then (if not (size == tag_size) || not (offset + size == total)
          then (bad_end_tag, false)
          else (ok, true))
      else (ok, false)

  unfoldable pub parse_tags : ℕ → ℕ → ℕ → ℕ → Context → Option (Status × Context)
  parse_tags zero start total offset c = none
  parse_tags (suc fuel) start total offset c =
      let (checked, found_end) = check_tag start total offset in
      let (taken, c') = take_tag (start + offset) c in
      let size = size_of mem (start + offset) in
      let rest = parse_tags fuel start total (offset + align_tag_size size) c' in
      if leb total offset
      then some (settle_parse false c)
      else if not (is_ok checked)
      then some (checked, c)
      else if found_end
      then some (settle_parse true c)
      else if not (is_ok taken)
      then some (taken, c')
      else if steps total offset size
      then rest
      else some (tag_overflow, c')

  -- The checks of the header, `ok` if the tags are to be read.
  unfoldable pub check_header : ℕ → ℕ → Status
  check_header magic address =
      let total = load_u32 mem address in
      if not (magic == boot_magic)
      then bad_magic
      else if address == 0
      then null_information
      else if not (bit_and address (tag_alignment - 1) == 0)
      then misaligned_information
      else if ltb (early_physical_limit - information_header_size) address
      then information_too_large
      else if ltb total (information_header_size + tag_size)
      then information_too_small
      else if ltb max_information_size total
      then information_too_large
      else if not (bit_and total (tag_alignment - 1) == 0)
      then information_size_misaligned
      else if ltb (u64_max - total) address
      then information_overflow
      else if ltb early_physical_limit (address + total)
      then information_too_large
      else if not (load_u32 mem (address + 4) == 0)
      then reserved_field_nonzero
      else ok

  -- `given` is that the context is not null; nothing is then written.
  unfoldable pub boot_information_parse : ℕ → Bool → ℕ → ℕ → Context → Option (Status × Context)
  boot_information_parse fuel given magic address old =
      let total = load_u32 mem address in
      let tags =
        parse_tags fuel address total information_header_size (record reset_context {
          information_start = address;
          information_end = address + total;
        }) in
      if not given
      then some (null_context, old)
      else if not (is_ok (check_header magic address))
      then some (check_header magic address, reset_context)
      else tags
