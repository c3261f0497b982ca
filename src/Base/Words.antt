-- ===== src/Base/Words.antt =====
-- Machine words: the wrap-around of `uint8_t`, `uint32_t`, `uint64_t` and `size_t`.
use Prim.Native.Nat.{ℕ, ◌+◌, ◌-◌, ◌*◌, ◌%◌, ◌^◌}

abbrev pub u64_max : ℕ
u64_max = 2 ^ 64 - 1

abbrev pub add64 : ℕ → ℕ → ℕ
add64 a b = (a + b) % 2 ^ 64

-- `-` on ℕ stops at 0, so the modulus is added first.
abbrev pub sub64 : ℕ → ℕ → ℕ
sub64 a b = (a + 2 ^ 64 - b) % 2 ^ 64

abbrev pub mul64 : ℕ → ℕ → ℕ
mul64 a b = (a * b) % 2 ^ 64

abbrev pub inc64 : ℕ → ℕ
inc64 a = add64 a 1

abbrev pub dec64 : ℕ → ℕ
dec64 a = sub64 a 1

abbrev pub inc32 : ℕ → ℕ
inc32 a = (a + 1) % 2 ^ 32
