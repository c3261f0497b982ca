-- ===== src/Boot/Inside.antt =====
-- A parse of src/kernel/multiboot2.c depends on nothing outside the boot information.
use pyrenis.Base.{ℕ, zero, suc, ◌+◌, ◌≤◌, ◌≡◌, refl, Bool, true, arith, inl, inr, Bool-cases}
use pyrenis.Boot.Memory.{is_ok, reset_context, Context, Bytes, range_fits, load_u32}
use pyrenis.Boot.Tags.{align_tag_size, size_of}
use pyrenis.Boot.Parse.{check_tag, take_tag, parse_tags, check_header, boot_information_parse}
use pyrenis.Boot.Reads.{
  Agree, load_u32-Agree, type_same, size_same, string-Agree, decode_framebuffer-Agree,
  validate_memory_map-Agree,
}

module _ (mem other : Bytes) (start total : ℕ) (same : Agree mem other start (start + total)) where
  check_tag-Agree :
      (offset : ℕ) → check_tag mem start total offset ≡ check_tag other start total offset
  unfolding check_tag range_fits
  check_tag-Agree offset = elim (Bool-cases (range_fits offset 8 total)) [
    | inl fits ↦
        let tag = start + offset in
        let kind =
          load_u32-Agree mem other start (start + total) same tag (omega arith)
            (ground (arith, fits)) in
        let size =
          load_u32-Agree mem other start (start + total) same (tag + 4) (omega arith)
            (ground (arith, fits)) in
        rw kind (rw size refl)
    | inr out ↦ ground (arith, out)
  ]

  take_tag-Agree :
      (offset : ℕ) (c : Context)
      → is_ok (check_tag mem start total offset).0 ≡ true
      → take_tag mem (start + offset) c ≡ take_tag other (start + offset) c
  unfolding take_tag check_tag range_fits
  take_tag-Agree offset c fine =
      let tag = start + offset in
      let l : start ≤ tag = omega arith in
      let u : tag + size_of mem tag ≤ start + total = ground (arith, fine) in
      let big : 8 ≤ size_of mem tag = ground (arith, fine) in
      let string = string-Agree mem other start (start + total) same tag l u big in
      rw (type_same mem other start (start + total) same tag l u big) (
        rw (validate_memory_map-Agree mem other start (start + total) same tag c l u big) (
          rw
            (decode_framebuffer-Agree mem other start (start + total) same tag l u big
              c.framebuffer)
            (rw string (rw (size_same mem other start (start + total) same tag l u big) refl))))

  tag_size-Agree :
      (offset : ℕ)
      → is_ok (check_tag mem start total offset).0 ≡ true
      → size_of mem (start + offset) ≡ size_of other (start + offset)
  unfolding check_tag range_fits
  tag_size-Agree offset fine =
      load_u32-Agree mem other start (start + total) same (start + offset + 4) (omega arith)
        (ground (arith, fine))

  parse_tags-Agree :
      (fuel offset : ℕ) (c : Context)
      → parse_tags mem fuel start total offset c ≡ parse_tags other fuel start total offset c
  unfolding parse_tags
  parse_tags-Agree zero offset c = refl
  parse_tags-Agree (suc fuel) offset c =
      let checked = check_tag-Agree offset in
      elim (Bool-cases (is_ok (check_tag mem start total offset).0)) [
        | inl fine ↦
            let tag = start + offset in
            let taken = take_tag-Agree offset c fine in
            let size = tag_size-Agree offset fine in
            let (st, c') = take_tag other tag c in
            let rest = parse_tags-Agree fuel (offset + align_tag_size (size_of other tag)) c' in
            rw checked (rw taken (rw size (rw rest refl)))
        | inr bad ↦ ground (arith, checked, bad)
      ]

module _ (mem other : Bytes) (address : ℕ) (header : Agree mem other address (address + 8))
    (block : Agree mem other address (address + load_u32 mem address)) where
  check_header-Agree :
      (magic : ℕ) → check_header mem magic address ≡ check_header other magic address
  unfolding check_header
  check_header-Agree magic =
      let total =
        load_u32-Agree mem other address (address + 8) header address (omega arith) (omega arith) in
      let reserved =
        load_u32-Agree mem other address (address + 8) header (address + 4) (omega arith)
          (omega arith) in
      rw total (rw reserved refl)

  -- Two memories that agree on the header of the boot information and on the bytes that its total
  -- size covers give the same parse, whatever lies elsewhere: the same answer and the same
  -- context.
  pub boot_information_parse-Agree :
      (fuel : ℕ) (given : Bool) (magic : ℕ) (old : Context)
      → boot_information_parse mem fuel given magic address old
        ≡ boot_information_parse other fuel given magic address old
  unfolding boot_information_parse
  boot_information_parse-Agree fuel given magic old =
      let total =
        load_u32-Agree mem other address (address + 8) header address (omega arith) (omega arith) in
      let c : Context = record reset_context {
        information_start = address;
        information_end = address + load_u32 mem address;
      } in
      let tags = parse_tags-Agree mem other address (load_u32 mem address) block fuel 8 c in
      rw (check_header-Agree magic) (rw tags (rw total refl))
