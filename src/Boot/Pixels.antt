-- ===== src/Boot/Pixels.antt =====
-- The framebuffer that a parse of src/kernel/multiboot2.c accepts: every pixel of it can be reached.
use Prim.Native.Nat.{bit_or}
use native.Mathlib.Nat.{mul-le-mul, mul_comm}
use pyrenis.Base.{
  ℕ, zero, suc, ◌+◌, ◌-◌, ◌*◌, ◌/◌, ◌%◌, ◌^◌, ◌≤◌, ◌<◌, ◌≡◌, ◌≢◌, refl, ap, Bool, true, false, not,
  ◌||◌, Option, none, some, ltb, ◌==◌, arith, if_rule, Option-cases, inl, inr,
}
use pyrenis.Base.Words.{mul64}
use pyrenis.Base.Bits.{bit_or_le}
use pyrenis.Boot.Memory.{
  read_u64, Status, ok, is_ok, Framebuffer, Context, reset_context, Bytes, load_u32, read_u32,
  early_physical_limit,
}
use pyrenis.Boot.Tags.{
  tag_type, size_of, is_bad_channel, decode_framebuffer, count_regions, add_region,
  validate_memory_map, boot_information_region_at, string_length_within,
}
use pyrenis.Boot.Parse.{
  is_set, keep_acpi, keep_string, keep_framebuffer, take_tag, check_header, boot_information_parse,
}
use pyrenis.Boot.Ends.{parse_tags_keeps}
use pyrenis.Boot.Reads.{entry_fits}

-- What decode_framebuffer checks.
abbrev Fits : Framebuffer → Type 0
Fits f =
    (f.width * 4 ≤ f.pitch)
    × (f.size ≡ f.pitch * f.height)
    × (f.address + f.size ≤ early_physical_limit)
    × (f.red_position ≢ f.green_position)
    × (f.green_position ≢ f.blue_position)
    × (f.red_position ≢ f.blue_position)

abbrev Sound : Context → Type 0
Sound c = c.framebuffer.present ≡ true → Fits c.framebuffer

module _ (mem : Bytes) (bytes : (a : ℕ) → mem a < 256) where
  read_u32_word : (a : ℕ) → read_u32 mem a < 2 ^ 32
  unfolding read_u32
  read_u32_word a =
      let high = bit_or_le (mem (a + 2) * 2 ^ 16) (mem (a + 3) * 2 ^ 24) in
      let tail = bit_or (mem (a + 2) * 2 ^ 16) (mem (a + 3) * 2 ^ 24) in
      let rest = bit_or_le (mem (a + 1) * 2 ^ 8) tail in
      let whole = bit_or_le (mem a) (bit_or (mem (a + 1) * 2 ^ 8) tail) in
      omega (arith, bytes a, bytes (a + 1), bytes (a + 2), bytes (a + 3), high, rest, whole)

  decode_framebuffer-Fits :
      (tag : ℕ) (old f : Framebuffer) → decode_framebuffer mem tag old ≡ (ok, f) → Fits f
  unfolding decode_framebuffer
  decode_framebuffer-Fits tag old f =
      let address = read_u64 mem (tag + 8) in
      let pitch = read_u32 mem (tag + 16) in
      let width = read_u32 mem (tag + 20) in
      let height = read_u32 mem (tag + 24) in
      let size = mul64 pitch height in
      let red = mem (tag + 32) in
      let green = mem (tag + 34) in
      let blue = mem (tag + 36) in
      let pitch_word = read_u32_word (tag + 16) in
      let width_word = read_u32_word (tag + 20) in
      let height_word = read_u32_word (tag + 24) in
      let product = mul-le-mul (le_pred pitch pitch_word) (le_pred height height_word) in
      if_rule P (ltb (size_of mem tag) 32) (λ _ e. absurd (ground (arith, e)))
        λ _.
          if_rule P (not (mem (tag + 29) == 1)) (λ _ e. absurd (ground (arith, e)))
            λ _.
              if_rule P (ltb (size_of mem tag) 38) (λ _ e. absurd (ground (arith, e)))
                λ _.
                  if_rule P (not (mem (tag + 28) == 32)) (λ _ e. absurd (ground (arith, e)))
                    λ _.
                      if_rule P (width == 0 || height == 0) (λ _ e. absurd (ground (arith, e)))
                        λ _.
                          if_rule P (ltb pitch (mul64 width 4) || not (pitch % 4 == 0))
                            (λ _ e. absurd (ground (arith, e)))
                            λ row.
                              if_rule P (address == 0 || not (address % 4 == 0))
                                (λ _ e. absurd (ground (arith, e)))
                                λ _.
                                  if_rule P
                                    (size == 0
                                      || (ltb early_physical_limit size
                                          || ltb (early_physical_limit - size) address))
                                    (λ _ e. absurd (ground (arith, e)))
                                    λ inside.
                                      if_rule P
                                        (is_bad_channel red (mem (tag + 33))
                                          || (is_bad_channel green (mem (tag + 35))
                                              || is_bad_channel blue (mem (tag + 37))))
                                        (λ _ e. absurd (ground (arith, e)))
                                        λ _.
                                          if_rule P (red == green || (green == blue || red == blue))
                                            (λ _ e. absurd (ground (arith, e)))
                                            λ apart e.
                                              let same = ap (λ r. r.1) e in
                                              rw (← same) (
                                                ground (arith, row, width_word),
                                                ground (arith, product),
                                                ground (arith, inside),
                                                λ h. ground (arith, apart, h),
                                                λ h. ground (arith, apart, h),
                                                λ h. ground (arith, apart, h),
                                              )
    where
      P : Status × Framebuffer → Type 0
      P r = r ≡ (ok, f) → Fits f

      le_pred : (x : ℕ) → x < 2 ^ 32 → x ≤ 2 ^ 32 - 1
      le_pred x l = omega (arith, l)

  keep_framebuffer-Sound :
      (tag : ℕ) (c d : Context)
      → keep_framebuffer c (decode_framebuffer mem tag c.framebuffer) ≡ (ok, d)
      → Sound d
  unfolding keep_framebuffer
  keep_framebuffer-Sound tag c d e =
      let decoded : decode_framebuffer mem tag c.framebuffer ≡ (ok, d.framebuffer) =
        ground (arith, e) in
      λ _. decode_framebuffer-Fits tag c.framebuffer d.framebuffer decoded

  abbrev SameScreen : Context → Context → Type 0
  SameScreen c d = d.framebuffer ≡ c.framebuffer

  count_regions-SameScreen :
      (rounds index : ℕ) (c : Context) → SameScreen c (count_regions mem rounds index c).1
  unfolding count_regions add_region
  count_regions-SameScreen zero index c = refl
  count_regions-SameScreen (suc rounds) index c =
      elim (Option-cases (boot_information_region_at mem true c index)) [
        | inl missing ↦ ground (arith, missing)
        | inr (r, found) ↦
            let rest = count_regions-SameScreen rounds (index + 1) (add_region r c) in
            ground (arith, found, rest)
      ]

  validate_memory_map-SameScreen :
      (map : ℕ) (c : Context) → SameScreen c (validate_memory_map mem map c).1
  unfolding validate_memory_map
  validate_memory_map-SameScreen map c =
      let count = (size_of mem map - 16) / load_u32 mem (map + 8) in
      let counted =
        count_regions-SameScreen count 0
          (record c { memory_map = some map; memory_map_entry_count = count }) in
      ground (arith, counted)

  screen-Sound : (c d : Context) → Sound c → SameScreen c d → Sound d
  screen-Sound c d sound same = rw same sound

  keep_acpi-SameScreen :
      (is_new : Bool) (size tag : ℕ) (c : Context) → SameScreen c (keep_acpi is_new size tag c).1
  unfolding keep_acpi
  keep_acpi-SameScreen is_new size tag c = ground arith

  keep_string-SameScreen :
      (is_name : Bool) (tag : ℕ) (length : Option ℕ) (c : Context)
      → SameScreen c (keep_string is_name tag length c).1
  unfolding keep_string
  keep_string-SameScreen is_name tag none c = refl
  keep_string-SameScreen true tag (some length) c = refl
  keep_string-SameScreen false tag (some length) c = refl

  take_tag-Sound : (tag : ℕ) (c d : Context) → Sound c → take_tag mem tag c ≡ (ok, d) → Sound d
  unfolding take_tag
  take_tag-Sound tag c d sound =
      let kind = tag_type mem tag in
      let string = string_length_within mem tag (size_of mem tag) in
      if_rule P (kind == 6)
        (λ _.
          if_rule P (is_set c.memory_map) (λ _ e. absurd (ground (arith, e)))
            λ _. kept (validate_memory_map mem tag c) (validate_memory_map-SameScreen tag c))
        λ _.
          if_rule P (kind == 3) (λ _ e. absurd (ground (arith, e)))
            λ _.
              if_rule P (kind == 14 || kind == 15)
                (λ _.
                  kept (keep_acpi (kind == 15) (size_of mem tag) tag c)
                    (keep_acpi-SameScreen (kind == 15) (size_of mem tag) tag c))
                λ _.
                  if_rule P (kind == 8)
                    (λ _.
                      if_rule P c.framebuffer.present (λ _ e. absurd (ground (arith, e)))
                        λ _ e. keep_framebuffer-Sound tag c d e)
                    λ _.
                      if_rule P (kind == 2 || kind == 1)
                        (λ _.
                          kept (keep_string (kind == 2) tag string c)
                            (keep_string-SameScreen (kind == 2) tag string c))
                        λ _. kept (ok, c) refl
    where
      P : Status × Context → Type 0
      P r = r ≡ (ok, d) → Sound d

      kept : (r : Status × Context) → SameScreen c r.1 → P r
      kept r same e =
          let onto : SameScreen c d = rw (← (ap (λ r. r.1) e)) same in screen-Sound c d sound onto

  -- Memory holds bytes. When a parse answers ok with a framebuffer, every pixel of it lies in the
  -- bytes of the framebuffer and within its row, the framebuffer ends below the 4 GiB limit, and
  -- its three channels have different positions.
  pub boot_information_parse_pixels :
      (fuel magic address x y : ℕ) (old c : Context)
      → boot_information_parse mem fuel true magic address old ≡ some (ok, c)
      → c.framebuffer.present ≡ true
      → x < c.framebuffer.width
      → y < c.framebuffer.height
      → let f = c.framebuffer in
        (f.address + (y * f.pitch + x * 4) + 4 ≤ f.address + f.size)
        × (f.address + f.size ≤ early_physical_limit)
        × (x * 4 + 4 ≤ f.pitch)
        × (f.red_position ≢ f.green_position)
        × (f.green_position ≢ f.blue_position)
        × (f.red_position ≢ f.blue_position)
  unfolding boot_information_parse
  boot_information_parse_pixels fuel magic address x y old c =
      if_rule P (not (is_ok (check_header mem magic address)))
        (λ bad e. absurd (ground (arith, bad, e)))
        λ _ e present in_row in_column.
          let f = c.framebuffer in
          let (sound, set) =
            parse_tags_keeps mem Sound take_tag-Sound fuel address (load_u32 mem address) 8 start c
              (λ p. absurd (ground (arith, p))) e in
          let (wide, product, below, red_green, green_blue, red_blue) = sound present in
          let row = entry_fits y f.height f.pitch in_column in
          let commuted = mul_comm f.pitch f.height in
          (
            ground (arith, row, product, wide, in_row, commuted),
            below,
            ground (arith, wide, in_row),
            red_green,
            green_blue,
            red_blue,
          )
    where
      start : Context
      start = record reset_context {
        information_start = address;
        information_end = address + load_u32 mem address;
      }

      P : Option (Status × Context) → Type 0
      P r =
          r ≡ some (ok, c)
          → c.framebuffer.present ≡ true
          → x < c.framebuffer.width
          → y < c.framebuffer.height
          → let f = c.framebuffer in
            (f.address + (y * f.pitch + x * 4) + 4 ≤ f.address + f.size)
            × (f.address + f.size ≤ early_physical_limit)
            × (x * 4 + 4 ≤ f.pitch)
            × (f.red_position ≢ f.green_position)
            × (f.green_position ≢ f.blue_position)
            × (f.red_position ≢ f.blue_position)
