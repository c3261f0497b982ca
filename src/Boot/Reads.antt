-- ===== src/Boot/Reads.antt =====
-- The reads of src/kernel/multiboot2.c stay inside the boot information: two memories that agree
-- there are parsed alike.
use native.Mathlib.Nat.{mul-le-mul_right, div-mul-le_self}
use pyrenis.Base.{
  ℕ, zero, suc, ◌+◌, ◌-◌, ◌*◌, ◌/◌, ◌≤◌, ◌<◌, ◌≡◌, refl, true, some, ltb, leb, arith, inl, inr,
  Bool-cases, Option-cases,
}
use pyrenis.Boot.Memory.{Framebuffer, Context, Bytes, load_u32, load_u64, read_u32, read_u64}
use pyrenis.Boot.Tags.{
  tag_type, size_of, find_nul, string_length_within, boot_information_region_at, count_regions,
  add_region, validate_memory_map, decode_framebuffer,
}

-- The memories have the same bytes from `first` up to `past`.
abbrev pub Agree : Bytes → Bytes → ℕ → ℕ → Type 0
Agree mem other first past = (a : ℕ) → first ≤ a → a < past → mem a ≡ other a

-- The entry at an index below the count ends by the end of the entries.
pub entry_fits : (index count es : ℕ) → index < count → index * es + es ≤ count * es
entry_fits index count es l =
    let next : index + 1 ≤ count = omega (arith, l) in
    let h = mul-le-mul_right es next in grind (arith, h)

module _ (mem other : Bytes) (first past : ℕ) (same : Agree mem other first past) where
  pub load_u32-Agree : (a : ℕ) → first ≤ a → a + 4 ≤ past → load_u32 mem a ≡ load_u32 other a
  unfolding load_u32
  load_u32-Agree a l u = rw (same a l (omega (arith, u))) (
      rw (same (a + 1) (omega (arith, l)) (omega (arith, u))) (
        rw (same (a + 2) (omega (arith, l)) (omega (arith, u)))
          (rw (same (a + 3) (omega (arith, l)) (omega (arith, u))) refl)))

  read_u32-Agree : (a : ℕ) → first ≤ a → a + 4 ≤ past → read_u32 mem a ≡ read_u32 other a
  unfolding read_u32
  read_u32-Agree a l u = rw (same a l (omega (arith, u))) (
      rw (same (a + 1) (omega (arith, l)) (omega (arith, u))) (
        rw (same (a + 2) (omega (arith, l)) (omega (arith, u)))
          (rw (same (a + 3) (omega (arith, l)) (omega (arith, u))) refl)))

  load_u64-Agree : (a : ℕ) → first ≤ a → a + 8 ≤ past → load_u64 mem a ≡ load_u64 other a
  unfolding load_u64
  load_u64-Agree a l u =
      rw (load_u32-Agree a l (omega (arith, u)))
        (rw (load_u32-Agree (a + 4) (omega (arith, l)) (omega (arith, u))) refl)

  read_u64-Agree : (a : ℕ) → first ≤ a → a + 8 ≤ past → read_u64 mem a ≡ read_u64 other a
  unfolding read_u64
  read_u64-Agree a l u =
      rw (read_u32-Agree a l (omega (arith, u)))
        (rw (read_u32-Agree (a + 4) (omega (arith, l)) (omega (arith, u))) refl)

  find_nul-Agree :
      (rounds tag index : ℕ)
      → first ≤ tag
      → tag + index + rounds ≤ past
      → find_nul mem rounds tag index ≡ find_nul other rounds tag index
  unfolding find_nul
  find_nul-Agree zero tag index l u = refl
  find_nul-Agree (suc rounds) tag index l u =
      let here = same (tag + index) (omega (arith, l)) (omega (arith, u)) in
      let rest = find_nul-Agree rounds tag (index + 1) l (omega (arith, u)) in
      ground (arith, here, rest)

  -- The tag lies between the bounds, with the size that it says.
  module _ (tag : ℕ) (l : first ≤ tag) (u : tag + size_of mem tag ≤ past)
      (big : 8 ≤ size_of mem tag) where
    pub type_same : tag_type mem tag ≡ tag_type other tag
    type_same = load_u32-Agree tag l (omega (arith, u, big))

    pub size_same : size_of mem tag ≡ size_of other tag
    size_same = load_u32-Agree (tag + 4) (omega (arith, l)) (omega (arith, u, big))

    pub string-Agree :
        string_length_within mem tag (size_of mem tag)
        ≡ string_length_within other tag (size_of mem tag)
    unfolding string_length_within
    string-Agree = rw (find_nul-Agree (size_of mem tag - 8) tag 8 l (omega (arith, u, big))) refl

    pub decode_framebuffer-Agree :
        (old : Framebuffer) → decode_framebuffer mem tag old ≡ decode_framebuffer other tag old
    unfolding decode_framebuffer
    decode_framebuffer-Agree old = elim (Bool-cases (ltb (size_of mem tag) 32)) [
      | inl small ↦ ground (arith, small, size_same)
      | inr common ↦
          let kind = same (tag + 29) (omega (arith, l)) (ground (arith, common, u)) in
          elim (Bool-cases (ltb (size_of mem tag) 38)) [
            | inl small ↦ ground (arith, small, size_same, common, kind)
            | inr whole ↦
                let byte : (k : ℕ) → k < 38 → mem (tag + k) ≡ other (tag + k) =
                  λ k k_lt. same (tag + k) (omega (arith, l)) (ground (arith, whole, u, k_lt)) in
                let word : (k : ℕ)
                    → k + 4 ≤ 38
                    → read_u32 mem (tag + k) ≡ read_u32 other (tag + k) =
                  λ k k_le.
                    read_u32-Agree (tag + k) (omega (arith, l)) (ground (arith, whole, u, k_le)) in
                let address =
                  read_u64-Agree (tag + 8) (omega (arith, l)) (ground (arith, whole, u)) in
                rw size_same (
                  rw address (
                    rw (word 16 (omega arith)) (
                      rw (word 20 (omega arith)) (
                        rw (word 24 (omega arith)) (
                          rw (byte 28 (omega arith)) (
                            rw kind (
                              rw (byte 32 (omega arith)) (
                                rw (byte 33 (omega arith)) (
                                  rw (byte 34 (omega arith)) (
                                    rw (byte 35 (omega arith)) (
                                      rw (byte 36 (omega arith))
                                        (rw (byte 37 (omega arith)) refl))))))))))))
          ]
    ]

  -- A memory map of `count` entries between the bounds.
  module _ (map count : ℕ) (l : first ≤ map) (u : map + 16 + count * load_u32 mem (map + 8) ≤ past)
      (big : 24 ≤ load_u32 mem (map + 8)) where
    region_at-Agree :
        (c : Context) (index : ℕ)
        → c.memory_map ≡ some map
        → c.memory_map_entry_count ≡ count
        → boot_information_region_at mem true c index
          ≡ boot_information_region_at other true c index
    unfolding boot_information_region_at
    region_at-Agree c index at n = elim (Bool-cases (leb c.memory_map_entry_count index)) [
      | inl out ↦ ground (arith, at, out)
      | inr inside ↦
          let es = load_u32 mem (map + 8) in
          let entry = map + 16 + index * es in
          let fits : entry + 24 ≤ past =
            ground (arith, u, big, n, entry_fits index count es (ground (arith, inside, n))) in
          let lower : first ≤ entry = omega (arith, l) in
          let width = load_u32-Agree (map + 8) (omega (arith, l)) (omega (arith, u)) in
          let base = load_u64-Agree entry lower (omega (arith, fits)) in
          let length = load_u64-Agree (entry + 8) (omega (arith, lower)) (omega (arith, fits)) in
          let kind = load_u32-Agree (entry + 16) (omega (arith, lower)) (omega (arith, fits)) in
          ground (arith, at, inside, width, base, length, kind)
    ]

    count_regions-Agree :
        (rounds index : ℕ) (c : Context)
        → c.memory_map ≡ some map
        → c.memory_map_entry_count ≡ count
        → count_regions mem rounds index c ≡ count_regions other rounds index c
    unfolding count_regions add_region
    count_regions-Agree zero index c at n = refl
    count_regions-Agree (suc rounds) index c at n =
        let alike = region_at-Agree c index at n in
        elim (Option-cases (boot_information_region_at other true c index)) [
          | inl missing ↦ ground (arith, alike, missing)
          | inr (r, found) ↦
              let rest = count_regions-Agree rounds (index + 1) (add_region r c) at n in
              ground (arith, alike, found, rest)
        ]

  pub validate_memory_map-Agree :
      (map : ℕ) (c : Context)
      → first ≤ map
      → map + size_of mem map ≤ past
      → 8 ≤ size_of mem map
      → validate_memory_map mem map c ≡ validate_memory_map other map c
  unfolding validate_memory_map
  validate_memory_map-Agree map c l u big =
      let alike = size_same map l u big in
      elim (Bool-cases (ltb (size_of mem map) 16)) [
        | inl small ↦ ground (arith, alike, small)
        | inr header ↦
            let es = load_u32 mem (map + 8) in
            let count = (size_of mem map - 16) / es in
            let width = load_u32-Agree (map + 8) (omega (arith, l)) (ground (arith, u, header)) in
            let version =
              load_u32-Agree (map + 12) (omega (arith, l)) (ground (arith, u, header)) in
            elim (Bool-cases (ltb es 24)) [
              | inl narrow ↦ ground (arith, alike, header, width, narrow)
              | inr wide ↦
                  let all = div-mul-le_self (size_of mem map - 16) es in
                  let fits : map + 16 + count * es ≤ past = ground (arith, all, u, header) in
                  let counted =
                    count_regions-Agree map count l fits (ground (arith, wide)) count 0
                      (record c { memory_map = some map; memory_map_entry_count = count }) refl
                      refl in
                  rw (← alike) (rw (← width) (rw (← version) (rw counted refl)))
            ]
      ]
