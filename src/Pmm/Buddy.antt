-- ===== src/Pmm/Buddy.antt =====
-- get_buddy_addr of kernel/pmm.c: the exclusive or of an aligned address with its block's size.
use Prim.Native.Nat.{bit_xor, bit_xor-bitwise, digits, differ}
use native.Mathlib.Nat.{pow-suc}
use emergence_kernel.Prelude.{
  ℕ, zero, suc, ◌+◌, ◌-◌, ◌*◌, ◌/◌, ◌%◌, ◌^◌, ◌≤◌, ◌≡◌, ◌∙◌, refl, sym, ap, subst, ◌<◌, arith, ◌==◌,
  if◌then◌else◌,
}
use emergence_kernel.Pmm.{size_of, get_buddy_addr}

-- The law for the lowest digit, from the digits that the native operation stands for. The count of
-- digits to go does not matter once it is at least the number.
xor_digits : ℕ → ℕ → ℕ → ℕ
xor_digits n a b = digits (λ b. b) differ n a b

xor_digits_fuel : (n m a b : ℕ) → a ≤ n → a ≤ m → xor_digits n a b ≡ xor_digits m a b
unfolding xor_digits
xor_digits_fuel zero zero a b p q = refl
xor_digits_fuel zero (suc m) zero b p q = refl
xor_digits_fuel zero (suc m) (suc a) b p q = absurd (omega arith)
xor_digits_fuel (suc n) zero zero b p q = refl
xor_digits_fuel (suc n) zero (suc a) b p q = absurd (omega arith)
xor_digits_fuel (suc n) (suc m) zero b p q = refl
xor_digits_fuel (suc n) (suc m) (suc a) b p q =
    ap (λ t. t * 2 + differ (suc a % 2) (b % 2))
      (xor_digits_fuel n m (suc a / 2) (b / 2) (omega arith) (omega arith))

zero-bit_xor : (b : ℕ) → bit_xor 0 b ≡ b
zero-bit_xor b = bit_xor-bitwise 0 b

bit_xor_step : (a b : ℕ) → bit_xor a b ≡ bit_xor (a / 2) (b / 2) * 2 + differ (a % 2) (b % 2)
unfolding xor_digits
bit_xor_step zero b = omega (arith, zero-bit_xor b, zero-bit_xor (b / 2))
bit_xor_step (suc a) b =
    bit_xor-bitwise (suc a) b
    ∙ ap (λ t. t * 2 + differ (suc a % 2) (b % 2))
        (xor_digits_fuel a (suc a / 2) (suc a / 2) (b / 2) (omega arith) (omega arith)
          ∙ sym (bit_xor-bitwise (suc a / 2) (b / 2)))

differ-zero : (d : ℕ) → differ d 0 ≡ d
differ-zero zero = refl
differ-zero (suc d) = refl

differ-one : (d : ℕ) → d < 2 → differ d 1 ≡ 1 - d
differ-one zero h = refl
differ-one (suc zero) h = refl
differ-one (suc (suc d)) h = absurd (omega arith)

bit_xor-zero : (n a : ℕ) → a ≤ n → bit_xor a 0 ≡ a
bit_xor-zero n zero h = refl
bit_xor-zero zero (suc a) h = absurd (omega arith)
bit_xor-zero (suc n) (suc a) h = omega (
  arith,
  bit_xor_step (suc a) 0,
  differ-zero (suc a % 2),
  bit_xor-zero n (suc a / 2) (omega arith),
)

xor_double : (a b : ℕ) → bit_xor (2 * a) (2 * b) ≡ 2 * bit_xor a b
xor_double a b =
    let half : (n : ℕ) → 2 * n / 2 ≡ n = λ n. omega arith in
    let even : (n : ℕ) → 2 * n % 2 ≡ 0 = λ n. omega arith in
    bit_xor_step (2 * a) (2 * b) ∙ rw (half a, half b, even a, even b) (omega arith)

-- The other one of a pair.
abbrev pub flip : ℕ → ℕ
flip q = if q % 2 == 0 then q + 1 else q - 1

xor_one : (q : ℕ) → bit_xor q 1 ≡ flip q
xor_one q = ground (arith, bit_xor_step q 1, bit_xor-zero (q / 2) (q / 2), differ-one (q % 2))

pow-suc_two : (n : ℕ) → 2 ^ suc n ≡ 2 * 2 ^ n
pow-suc_two n = omega (arith, pow-suc 2 n)

pub size_of-suc : (o : ℕ) → size_of (suc o) ≡ 2 * size_of o
size_of-suc o = omega (arith, pow-suc 2 o)

-- A size at which the exclusive or goes to the other one of a pair of neighbours.
abbrev Pairs : ℕ → Type 0
Pairs size = (q : ℕ) → bit_xor (q * size) size ≡ flip q * size

Pairs-double : (size : ℕ) → Pairs size → Pairs (2 * size)
Pairs-double size h q =
    let e : q * (2 * size) ≡ 2 * (q * size) = omega arith in
    rw e (xor_double (q * size) size ∙ omega (arith, h q))

Pairs-one : Pairs 1
Pairs-one q = let e : q * 1 ≡ q = omega arith in rw e (xor_one q ∙ omega arith)

Pairs-pow : (n : ℕ) → Pairs (2 ^ n)
Pairs-pow zero = Pairs-one
Pairs-pow (suc n) = subst Pairs (sym (pow-suc_two n)) (Pairs-double (2 ^ n) (Pairs-pow n))

Pairs-size_of : (o : ℕ) → Pairs (size_of o)
Pairs-size_of zero = Pairs-pow 12
Pairs-size_of (suc o) =
    subst Pairs (sym (size_of-suc o)) (Pairs-double (size_of o) (Pairs-size_of o))

-- The buddy of block number `q` of an order, counted in blocks of that order, is the one after it if
-- `q` is even and the one before it if `q` is odd.
pub get_buddy_addr-flip :
    (q order : ℕ) → get_buddy_addr (q * size_of order) order ≡ flip q * size_of order
unfolding get_buddy_addr
get_buddy_addr-flip q order = Pairs-size_of order q
