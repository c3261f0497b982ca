-- ===== src/Boot/Regions.antt =====
-- The memory map that a parse of src/kernel/multiboot2.c accepts: no region of it wraps.
use pyrenis.Base.{
  ℕ, zero, suc, ◌+◌, ◌-◌, ◌*◌, ◌/◌, ◌^◌, ◌≤◌, ◌<◌, ◌≡◌, refl, sym, ◌∙◌, ap, Bool, true, false, ◌||◌,
  Option, none, some, ◌==◌, arith, inl, inr, Bool-cases, Option-cases, if_rule,
}
use pyrenis.Frames.Setup.{Region}
use pyrenis.Boot.Memory.{Status, ok, Framebuffer, Context, Bytes, load_u32, load_u64}
use pyrenis.Boot.Tags.{
  tag_type, size_of, boot_information_region_at, add_region, count_regions, validate_memory_map,
  string_length_within, decode_framebuffer,
}
use pyrenis.Boot.Parse.{is_set, keep_acpi, keep_string, keep_framebuffer, take_tag, parse_tags}
use pyrenis.Boot.Ends.{parse_tags_keeps}

module _ (mem : Bytes) (bytes : (a : ℕ) → mem a < 256) where
  load_u32_word : (a : ℕ) → load_u32 mem a < 2 ^ 32
  unfolding load_u32
  load_u32_word a = omega (arith, bytes a, bytes (a + 1), bytes (a + 2), bytes (a + 3))

  load_u64_word : (a : ℕ) → load_u64 mem a < 2 ^ 64
  unfolding load_u64
  load_u64_word a = omega (arith, load_u32_word a, load_u32_word (a + 4))

  -- The entry at the index is a region that does not wrap.
  abbrev pub Good : Context → ℕ → Type 0
  Good c index =
      (r : Region) × (boot_information_region_at mem true c index ≡ some r)
      × (r.base_address + r.length < 2 ^ 64)

  -- The fields that an entry is read through are the same.
  SameMap : Context → Context → Type 0
  SameMap c d =
      (d.memory_map ≡ c.memory_map)
      × (d.memory_map_entry_count ≡ c.memory_map_entry_count)
      × (d.information_start ≡ c.information_start)
      × (d.information_end ≡ c.information_end)

  SameMap-Good : (c d : Context) (index : ℕ) → SameMap c d → Good c index → Good d index
  unfolding SameMap boot_information_region_at
  SameMap-Good c d index (m, n, s, e) (r, found, fits) = (r, ground (arith, m, n, found), fits)

  region_base_word :
      (c : Context) (index : ℕ) (r : Region)
      → boot_information_region_at mem true c index ≡ some r
      → r.base_address < 2 ^ 64
  unfolding boot_information_region_at
  region_base_word c index r e = elim (Option-cases c.memory_map) [
    | inl n ↦ absurd (ground (arith, n, e))
    | inr (map, m) ↦
        let w = load_u64_word (map + 16 + index * load_u32 mem (map + 8)) in ground (arith, m, e, w)
  ]

  SameMap-refl : (c : Context) → SameMap c c
  unfolding SameMap
  SameMap-refl c = (refl, refl, refl, refl)

  SameMap-trans : (c d e : Context) → SameMap c d → SameMap d e → SameMap c e
  unfolding SameMap
  SameMap-trans c d e (m, n, s, t) (m', n', s', t') = (m' ∙ m, n' ∙ n, s' ∙ s, t' ∙ t)

  SameMap-sym : (c d : Context) → SameMap c d → SameMap d c
  unfolding SameMap
  SameMap-sym c d (m, n, s, t) = (sym m, sym n, sym s, sym t)

  add_region-SameMap : (r : Region) (c : Context) → SameMap c (add_region r c)
  unfolding SameMap add_region
  add_region-SameMap r c = (refl, refl, refl, refl)

  count_regions-Good :
      (rounds index : ℕ) (c d : Context)
      → count_regions mem rounds index c ≡ (ok, d)
      → SameMap c d × ((k : ℕ) → index ≤ k → k < index + rounds → Good c k)
  unfolding count_regions
  count_regions-Good zero index c d e =
      let same : c ≡ d = ap (λ r. r.1) e in
      (rw same (SameMap-refl d), λ k l u. absurd (omega (arith, l, u)))
  count_regions-Good (suc rounds) index c d e =
      elim (Option-cases (boot_information_region_at mem true c index)) [
        | inl missing ↦ absurd (ground (arith, missing, e))
        | inr (r, found) ↦
            let next = add_region r c in
            let onto = add_region-SameMap r c in
            let (same, good) =
              count_regions-Good rounds (index + 1) next d (ground (arith, found, e)) in
            let w = region_base_word c index r found in
            let first : Good c index = here c index r found (ground (arith, found, e, w)) in
            (
              SameMap-trans c next d onto same,
              λ k l u. elim (Bool-cases (k == index)) [
                | inl at ↦ let here : k ≡ index = ground (arith, at) in rw here first
                | inr past ↦
                    SameMap-Good next c k (SameMap-sym c next onto)
                      (good k (ground (arith, l, past)) (ground (arith, l, u)))
              ],
            )
      ]
    where
      here :
          (c : Context) (index : ℕ) (r : Region)
          → boot_information_region_at mem true c index ≡ some r
          → r.base_address + r.length < 2 ^ 64
          → Good c index
      here c index r found l = (r, found, l)

  -- Every entry of the map that the context has is good.
  abbrev pub AllGood : Context → Type 0
  AllGood c =
      (map : ℕ) → c.memory_map ≡ some map → (k : ℕ) → k < c.memory_map_entry_count → Good c k

  validate_memory_map-AllGood :
      (map : ℕ) (c d : Context)
      → validate_memory_map mem map c ≡ (ok, d)
      → AllGood d
        × (d.information_start ≡ c.information_start)
        × (d.information_end ≡ c.information_end)
  unfolding validate_memory_map SameMap
  validate_memory_map-AllGood map c d e =
      let count = (size_of mem map - 16) / load_u32 mem (map + 8) in
      let start : Context = record c { memory_map = some map; memory_map_entry_count = count } in
      let counted : count_regions mem count 0 start ≡ (ok, d) = ground (arith, e) in
      let (same, good) = count_regions-Good count 0 start d counted in
      (
        λ m at k l. SameMap-Good start d k same (good k (omega arith) (ground (arith, l, same))),
        same.2,
        same.3,
      )

  abbrev pub Kept : Context → Context → Type 0
  Kept c d =
      AllGood d
      × (d.information_start ≡ c.information_start)
      × (d.information_end ≡ c.information_end)

  SameMap-Kept : (c d : Context) → AllGood c → SameMap c d → Kept c d
  unfolding SameMap
  SameMap-Kept c d good (m, n, s, e) = (
    λ map at k l. SameMap-Good c d k (m, n, s, e) (good map (sym m ∙ at) k (ground (arith, l, n))),
    s,
    e,
  )

  keep_acpi-SameMap :
      (is_new : Bool) (size tag : ℕ) (c d : Context)
      → keep_acpi is_new size tag c ≡ (ok, d)
      → SameMap c d
  unfolding keep_acpi SameMap
  keep_acpi-SameMap is_new size tag c d e =
      (ground (arith, e), ground (arith, e), ground (arith, e), ground (arith, e))

  keep_string-SameMap :
      (is_name : Bool) (tag : ℕ) (length : Option ℕ) (c d : Context)
      → keep_string is_name tag length c ≡ (ok, d)
      → SameMap c d
  unfolding keep_string SameMap
  keep_string-SameMap is_name tag none c d e = absurd (ground (arith, e))
  keep_string-SameMap true tag (some length) c d e =
      (ground (arith, e), ground (arith, e), ground (arith, e), ground (arith, e))
  keep_string-SameMap false tag (some length) c d e =
      (ground (arith, e), ground (arith, e), ground (arith, e), ground (arith, e))

  keep_framebuffer-SameMap :
      (c d : Context) (r : Status × Framebuffer) → keep_framebuffer c r ≡ (ok, d) → SameMap c d
  unfolding keep_framebuffer SameMap
  keep_framebuffer-SameMap c d r e =
      (ground (arith, e), ground (arith, e), ground (arith, e), ground (arith, e))

  take_tag-Kept : (tag : ℕ) (c d : Context) → AllGood c → take_tag mem tag c ≡ (ok, d) → Kept c d
  unfolding take_tag
  take_tag-Kept tag c d good =
      let kind = tag_type mem tag in
      let kept = λ (same : SameMap c d). SameMap-Kept c d good same in
      if_rule P (kind == 6)
        (λ _.
          if_rule P (is_set c.memory_map) (λ _ e. absurd (ground (arith, e)))
            λ _ e. validate_memory_map-AllGood tag c d e)
        λ _.
          if_rule P (kind == 3) (λ _ e. absurd (ground (arith, e)))
            λ _.
              if_rule P (kind == 14 || kind == 15)
                (λ _ e. kept (keep_acpi-SameMap (kind == 15) (size_of mem tag) tag c d e))
                λ _.
                  if_rule P (kind == 8)
                    (λ _.
                      if_rule P c.framebuffer.present (λ _ e. absurd (ground (arith, e)))
                        λ _ e. kept (
                          keep_framebuffer-SameMap c d (decode_framebuffer mem tag c.framebuffer)
                            e))
                    λ _.
                      if_rule P (kind == 2 || kind == 1)
                        (λ _ e. kept (
                          keep_string-SameMap (kind == 2) tag
                            (string_length_within mem tag (size_of mem tag)) c d e))
                        λ _ e. kept (rw (← (ap (λ r. r.1) e)) (SameMap-refl c))
    where
      P : Status × Context → Type 0
      P r = r ≡ (ok, d) → Kept c d

  Kept-trans : (c d e : Context) → Kept c d → Kept d e → Kept c e
  Kept-trans c d e (good, s, t) (good', s', t') = (good', s' ∙ s, t' ∙ t)

  pub parse_tags-Kept :
      (fuel start total offset : ℕ) (c d : Context)
      → AllGood c
      → parse_tags mem fuel start total offset c ≡ some (ok, d)
      → Kept c d × (is_set d.memory_map ≡ true)
  parse_tags-Kept fuel start total offset c d good =
      parse_tags_keeps mem (Kept c) keeps fuel start total offset c d (good, refl, refl)
    where
      keeps : (tag : ℕ) (e f : Context) → Kept c e → take_tag mem tag e ≡ (ok, f) → Kept c f
      keeps tag e f k taken = Kept-trans c e f k (take_tag-Kept tag e f k.0 taken)
