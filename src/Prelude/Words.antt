-- ===== src/Prelude/Words.antt =====
-- Machine words: moduli, page arithmetic, and the C `int` results.
use Prim.Native.Nat.{ℕ, zero, suc, ◌+◌, ◌-◌, ◌%◌, ◌^◌}

-- `uint64_t` arithmetic wraps.
abbrev pub u64_mod : ℕ
u64_mod = 2 ^ 64

abbrev pub add_u64 : ℕ → ℕ → ℕ
add_u64 a b = (a + b) % u64_mod

-- `-` on ℕ stops at 0, so the modulus is added first.
abbrev pub sub_u64 : ℕ → ℕ → ℕ
sub_u64 a b = (a + u64_mod - b) % u64_mod

-- PAGE_SIZE
abbrev pub page_size : ℕ
page_size = 4096

-- `x & ~(PAGE_SIZE - 1)`
abbrev pub page_floor : ℕ → ℕ
page_floor x = x - x % page_size

-- `(x + PAGE_SIZE - 1) & ~(PAGE_SIZE - 1)` on a `uint64_t`
abbrev pub page_ceil : ℕ → ℕ
page_ceil x = page_floor ((x + 4095) % u64_mod)

-- `negsuc n` is -(n + 1).
pub data ℤ : Type 0 where
  pos : ℕ → ℤ
  negsuc : ℕ → ℤ

abbrev pub minus_one : ℤ
minus_one = negsuc 0

-- The C `int` after `++` and after `--`, away from the ends of its range
abbrev pub increment : ℤ → ℤ
increment (pos n) = pos (suc n)
increment (negsuc zero) = pos 0
increment (negsuc (suc n)) = negsuc n

abbrev pub decrement : ℤ → ℤ
decrement (pos zero) = negsuc 0
decrement (pos (suc n)) = pos n
decrement (negsuc n) = negsuc (suc n)
