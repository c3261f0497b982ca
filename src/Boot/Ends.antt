-- ===== src/Boot/Ends.antt =====
-- The loop of boot_information_parse ends, and what a parse has checked.
use pyrenis.Base.{
  ℕ, zero, suc, ◌+◌, ◌≤◌, ◌<◌, ◌≡◌, refl, ap, Bool, true, false, not, Option, some, leb, arith,
  if_rule,
}
use pyrenis.Boot.Memory.{
  Status, ok, is_ok, Context, Bytes, range_fits, load_u32, max_information_size,
}
use pyrenis.Boot.Tags.{align_tag_size, size_of}
use pyrenis.Boot.Parse.{
  is_set, check_tag, take_tag, steps, settle_parse, parse_tags, check_header,
  boot_information_parse,
}

abbrev Ends : Option (Status × Context) → Type 0
Ends p = (r : Status × Context) × (p ≡ some r)

module _ (mem : Bytes) where
  tag_is_big :
      (start total offset : ℕ)
      → is_ok (check_tag mem start total offset).0 ≡ true
      → 8 ≤ size_of mem (start + offset)
  unfolding check_tag
  tag_is_big start total offset e = ground (arith, e)

  parse_tags-Ends :
      (fuel start total offset : ℕ) (c : Context)
      → offset ≤ total
      → total < offset + fuel
      → Ends (parse_tags mem fuel start total offset c)
  unfolding parse_tags steps range_fits
  parse_tags-Ends zero start total offset c inside l = absurd (omega (arith, inside, l))
  parse_tags-Ends (suc fuel) start total offset c inside l =
      let size = size_of mem (start + offset) in
      if_rule Ends (leb total offset) (λ _. (settle_parse false c, refl))
        λ _.
          if_rule Ends (not (is_ok (check_tag mem start total offset).0)) (λ _. (_, refl))
            λ fine.
              if_rule Ends (check_tag mem start total offset).1 (λ _. (_, refl))
                λ _.
                  if_rule Ends (not (is_ok (take_tag mem (start + offset) c).0)) (λ _. (_, refl))
                    λ _.
                      if_rule Ends (steps total offset size)
                        (λ goes.
                          parse_tags-Ends fuel start total (offset + align_tag_size size)
                            (take_tag mem (start + offset) c).1 (ground (arith, goes))
                            (ground (
                              arith,
                              l,
                              goes,
                              tag_is_big start total offset (ground (arith, fine)),
                            )))
                        λ _. (_, refl)

  -- With more fuel than the largest size that boot information may have, boot_information_parse
  -- returns, whatever the memory holds.
  pub boot_information_parse-Ends :
      (fuel : ℕ) (given : Bool) (magic address : ℕ) (old : Context)
      → max_information_size < fuel
      → Ends (boot_information_parse mem fuel given magic address old)
  unfolding boot_information_parse check_header
  boot_information_parse-Ends fuel given magic address old l =
      let total = load_u32 mem address in
      if_rule Ends (not given) (λ _. (_, refl))
        λ _.
          if_rule Ends (not (is_ok (check_header mem magic address))) (λ _. (_, refl))
            λ fine.
              parse_tags-Ends fuel address total 8 _ (ground (arith, fine))
                (ground (arith, fine, l))

is_ok_only : (st : Status) → is_ok st ≡ true → st ≡ ok
is_ok_only ok e = refl
is_ok_only _ e = absurd (ground (arith, e))

pub settle_parse_ok :
    (found_end : Bool) (c d : Context)
    → settle_parse found_end c ≡ (ok, d)
    → (found_end ≡ true) × (c ≡ d) × (is_set d.memory_map ≡ true)
unfolding settle_parse
settle_parse_ok false c d e = absurd (ground (arith, e))
settle_parse_ok true c d e = (refl, ground (arith, e), ground (arith, e))

-- What every tag keeps of the context holds at the end of a parse that answers ok.
module _ (mem : Bytes) (Inv : Context → Type 0)
    (keeps : (tag : ℕ) (c d : Context) → Inv c → take_tag mem tag c ≡ (ok, d) → Inv d) where
  pub parse_tags_keeps :
      (fuel start total offset : ℕ) (c d : Context)
      → Inv c
      → parse_tags mem fuel start total offset c ≡ some (ok, d)
      → Inv d × (is_set d.memory_map ≡ true)
  unfolding parse_tags
  parse_tags_keeps zero start total offset c d inv = λ e. absurd (ground (arith, e))
  parse_tags_keeps (suc fuel) start total offset c d inv =
      let tag = start + offset in
      let r = take_tag mem tag c in
      let size = size_of mem tag in
      let rest =
        λ (k : Inv r.1). parse_tags_keeps fuel start total (offset + align_tag_size size) r.1 d k in
      if_rule P (leb total offset)
        (λ _ e. absurd (ground (arith, (settle_parse_ok false c d (some_pair e)).0)))
        λ _.
          if_rule P (not (is_ok (check_tag mem start total offset).0))
            (λ bad e. absurd (ground (arith, bad, e)))
            λ _.
              if_rule P (check_tag mem start total offset).1
                (λ _ e. finished (settle_parse_ok true c d (some_pair e)))
                λ _.
                  if_rule P (not (is_ok r.0)) (λ bad e. absurd (ground (arith, bad, e)))
                    λ fine.
                      if_rule P (steps total offset size)
                        (λ _ e. rest (keeps tag c r.1 inv (paired r (ground (arith, fine)))) e)
                        λ _ e. absurd (ground (arith, e))
    where
      P : Option (Status × Context) → Type 0
      P r = r ≡ some (ok, d) → Inv d × (is_set d.memory_map ≡ true)

      some_pair : {r : Status × Context} → some r ≡ some (ok, d) → r ≡ (ok, d)
      some_pair {r} e = ground (arith, e)

      paired : (r : Status × Context) → is_ok r.0 ≡ true → r ≡ (ok, r.1)
      paired (st, c) h = ap (λ st. (st, c)) (is_ok_only st h)

      finished :
          (true ≡ true) × (c ≡ d) × (is_set d.memory_map ≡ true)
          → Inv d × (is_set d.memory_map ≡ true)
      finished (t, same, set) = (rw (← same) inv, set)
