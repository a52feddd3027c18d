-- ===== src/Paging/Entry.antt =====
-- The words in a page table of kernel/kmap.c.
use Prim.Native.Nat.{suc, max, bit_or, bit_or-bitwise, digits}
use native.Mathlib.Nat.{pow-suc}
use emergence_kernel.Paging.{true, page_size, pte_get_phys, is_present, table_flags}
use emergence_kernel.Prelude.{
  refl, sym, ap, zero, ◌∙◌, ◌^◌, arith, ◌<◌, ◌≤◌, ℕ, ◌+◌, ◌*◌, ◌/◌, ◌%◌, ◌≡◌,
}

-- The law for the lowest digit.
or_digits : ℕ → ℕ → ℕ → ℕ
or_digits n a b = digits (λ b. b) max n a b

or_digits_fuel : (n m a b : ℕ) → a ≤ n → a ≤ m → or_digits n a b ≡ or_digits m a b
unfolding or_digits
or_digits_fuel zero zero a b p q = refl
or_digits_fuel zero (suc m) zero b p q = refl
or_digits_fuel zero (suc m) (suc a) b p q = absurd (omega arith)
or_digits_fuel (suc n) zero zero b p q = refl
or_digits_fuel (suc n) zero (suc a) b p q = absurd (omega arith)
or_digits_fuel (suc n) (suc m) zero b p q = refl
or_digits_fuel (suc n) (suc m) (suc a) b p q =
    ap (λ t. t * 2 + max (suc a % 2) (b % 2))
      (or_digits_fuel n m (suc a / 2) (b / 2) (omega arith) (omega arith))

zero-bit_or : (b : ℕ) → bit_or 0 b ≡ b
zero-bit_or b = bit_or-bitwise 0 b

pub bit_or_step : (a b : ℕ) → bit_or a b ≡ bit_or (a / 2) (b / 2) * 2 + max (a % 2) (b % 2)
unfolding or_digits
bit_or_step zero b = omega (arith, zero-bit_or b, zero-bit_or (b / 2))
bit_or_step (suc a) b =
    bit_or-bitwise (suc a) b
    ∙ ap (λ t. t * 2 + max (suc a % 2) (b % 2))
        (or_digits_fuel a (suc a / 2) (suc a / 2) (b / 2) (omega arith) (omega arith)
          ∙ sym (bit_or-bitwise (suc a / 2) (b / 2)))

pub bit_or-zero : (n a : ℕ) → a ≤ n → bit_or a 0 ≡ a
bit_or-zero n zero h = refl
bit_or-zero zero (suc a) h = absurd (omega arith)
bit_or-zero (suc n) (suc a) h =
    omega (arith, bit_or_step (suc a) 0, bit_or-zero n (suc a / 2) (omega arith))

bit_or-double : (k b : ℕ) → bit_or k (b / 2) ≡ k + b / 2 → bit_or (2 * k) b ≡ 2 * k + b
bit_or-double k b h =
    let half : 2 * k / 2 ≡ k = omega arith in
    let even : 2 * k % 2 ≡ 0 = omega arith in
    bit_or_step (2 * k) b ∙ rw (half, even) (omega (arith, h))

-- A number whose `n` low bits are clear, and one of `n` bits.
pub bit_or-low : (n a b : ℕ) → b < 2 ^ n → bit_or (a * 2 ^ n) b ≡ a * 2 ^ n + b
bit_or-low zero a b h =
    let none : b ≡ 0 = omega (arith, h) in
    rw none (bit_or-zero (a * 1) (a * 1) (omega arith) ∙ omega arith)
bit_or-low (suc n) a b h =
    let twice : 2 ^ suc n ≡ 2 * 2 ^ n = omega (arith, pow-suc 2 n) in
    let double : a * 2 ^ suc n ≡ 2 * (a * 2 ^ n) = ap (λ t. a * t) twice ∙ omega arith in
    rw double (bit_or-double (a * 2 ^ n) b (bit_or-low n a (b / 2) (omega (arith, h, pow-suc 2 n))))

-- A mapping with the present flag is present.
pub bit_or-present : (a b : ℕ) → b % 2 ≡ 1 → (bit_or a b) % 2 ≡ 1
bit_or-present a b h = omega (arith, bit_or_step a b)

-- The entry for a table: it is present, and leads to the table.
module _ (page : ℕ) (aligned : page % page_size ≡ 0) where
  table_entry : bit_or page table_flags ≡ page + 7
  table_entry =
      let whole : page ≡ page / 4096 * 2 ^ 12 = omega (arith, aligned) in
      ap (λ p. bit_or p 7) whole
      ∙ bit_or-low 12 (page / 4096) 7 (omega arith)
      ∙ omega (arith, whole)

  pub table_entry-present : is_present (bit_or page table_flags) ≡ true
  table_entry-present = ground (arith, table_entry, aligned)

  pub pte_get_phys-table_entry : page < 2 ^ 40 → pte_get_phys (bit_or page table_flags) ≡ page
  unfolding pte_get_phys
  pte_get_phys-table_entry h = rw table_entry (omega (arith, aligned, h))
