-- ===== src/Printf/Digits.antt =====
-- Numbers in lib/minilibc/printf.c: emit_uint and emit_int.
use native.Mathlib.Nat.{pow-suc, pow-zero}
use emergence_kernel.Prelude.{
  ℕ, zero, suc, ◌+◌, ◌-◌, ◌*◌, ◌/◌, ◌%◌, ◌^◌, ◌≤◌, ◌<◌, ◌≡◌, ◌∙◌, ap, subst, inl, inr, arith, Bool,
  true, false, List, [], ◌∷◌, length, ltb, ◌==◌, if◌then◌else◌, ℤ, pos, negsuc, Bool-cases,
}
use emergence_kernel.Printf.{Printer, put, digit, build_digits, emit_uint, emit_int}
use emergence_kernel.Printf.Emit.{Printed, put-Printed, emit_string-Printed, Printed-trans}

-- The text of a number.
pub uint_text : ℕ → ℕ → Bool → List ℕ
uint_text val base uppercase = if val == 0 then 48 ∷ [] else build_digits 64 uppercase base val []

pub int_text : ℤ → List ℕ
int_text (pos n) = uint_text n 10 false
int_text (negsuc n) = 45 ∷ uint_text (suc n) 10 false

pub emit_uint-Printed :
    (p : Printer) (val base : ℕ) (uppercase : Bool)
    → Printed p (emit_uint p val base uppercase) (uint_text val base uppercase) p.args
unfolding emit_uint uint_text
emit_uint-Printed p val base uppercase = elim (Bool-cases (val == 0)) [
  | inl e ↦ rw e (put-Printed p 48)
  | inr e ↦ rw e (emit_string-Printed p (build_digits 64 uppercase base val []))
]

pub emit_int-Printed : (p : Printer) (n : ℤ) → Printed p (emit_int p n) (int_text n) p.args
unfolding emit_int int_text
emit_int-Printed p (pos n) = emit_uint-Printed p n 10 false
emit_int-Printed p (negsuc n) =
    let minus = put-Printed p 45 in
    subst
      (λ rest.
        Printed p (emit_uint (put p 45) (suc n) 10 false) (45 ∷ uint_text (suc n) 10 false) rest)
      minus.left (Printed-trans minus (emit_uint-Printed (put p 45) (suc n) 10 false))

-- A reader of digits, which knows nothing of how they were printed: the value of a character, and
-- of a text from its front.
pub digit_value : ℕ → ℕ
digit_value c = if ltb c 58 then c - 48 else (if ltb c 71 then c - 55 else c - 87)

pub read_digits : ℕ → ℕ → List ℕ → ℕ
read_digits base acc [] = acc
read_digits base acc (c ∷ cs) = read_digits base (acc * base + digit_value c) cs

digit_value-digit : (uppercase : Bool) (d : ℕ) → d < 16 → digit_value (digit uppercase d) ≡ d
unfolding digit_value digit
digit_value-digit true d h = ground arith
digit_value-digit false d h = ground arith

product_le : (a b c : ℕ) → b ≤ c → b * a ≤ a * c
product_le a b c h = grind arith

quotient_le : (k base val : ℕ) → k ≤ base → 0 < base → k * (val / base) ≤ val
quotient_le k base val h positive =
    let parts : val ≡ val / base * base + val % base = omega arith in
    let more : k * (val / base) ≤ val / base * base = product_le (val / base) k base h in
    omega (arith, parts, more)

recompose : (base val : ℕ) → 0 < base → val / base * base + val % base ≡ val
recompose base val h = omega arith

-- Reading the digits in front of others.
read_digits-build_digits :
    (fuel : ℕ) (uppercase : Bool) (base val : ℕ) (tmp : List ℕ)
    → 2 ≤ base
    → base ≤ 16
    → val < 2 ^ fuel
    → read_digits base 0 (build_digits fuel uppercase base val tmp) ≡ read_digits base val tmp
unfolding build_digits read_digits
read_digits-build_digits zero uppercase base val tmp two sixteen h =
    ap (λ v. read_digits base v tmp) (omega (arith, h))
read_digits-build_digits (suc fuel) uppercase base val tmp two sixteen h =
    elim (Bool-cases (ltb 0 val)) [
      | inr done ↦ rw done (ap (λ v. read_digits base v tmp) (ground arith))
      | inl more ↦
          let double : 2 ^ suc fuel ≡ 2 * 2 ^ fuel = omega (arith, pow-suc 2 fuel) in
          let low : val % base < 16 = omega (arith, two, sixteen) in
          rw more (
            read_digits-build_digits fuel uppercase base (val / base)
              (digit uppercase (val % base) ∷ tmp) two sixteen
              (omega (arith, quotient_le 2 base val two (omega (arith, two)), h, double))
            ∙ ap (λ v. read_digits base v tmp)
                (ap (λ d. val / base * base + d) (digit_value-digit uppercase (val % base) low)
                  ∙ recompose base val (omega (arith, two))))
    ]

-- Dividing by a base of at least `low` takes a digit of that base off.
quotient_below :
    (low base val k : ℕ) → 0 < low → low ≤ base → val < low ^ suc k → val / base < low ^ k
quotient_below low base val k positive le h =
    let more = quotient_le low base val le (omega (arith, positive, le)) in
    let step : low * (val / base) < low * low ^ k = omega (arith, h, pow-suc low k, more) in
    grind (arith, step)

length-build_digits :
    (low fuel k : ℕ) (uppercase : Bool) (base val : ℕ) (tmp : List ℕ)
    → 0 < low
    → low ≤ base
    → val < low ^ k
    → length (build_digits fuel uppercase base val tmp) ≤ k + length tmp
unfolding build_digits
length-build_digits low zero k uppercase base val tmp positive le h = omega arith
length-build_digits low (suc fuel) zero uppercase base val tmp positive le h =
    let none : ltb 0 val ≡ false = ground (arith, h, pow-zero low) in rw none (omega arith)
length-build_digits low (suc fuel) (suc k) uppercase base val tmp positive le h =
    elim (Bool-cases (ltb 0 val)) [
      | inr done ↦ rw done (omega arith)
      | inl more ↦ rw more (
          omega (
            arith,
            length-build_digits low fuel k uppercase base (val / base)
                (digit uppercase (val % base) ∷ tmp) positive le
                (quotient_below low base val k positive le h),
          ))
    ]

-- In a base from `low` on, `emit_uint` builds at most k digits of a number below low^k.
length-uint_text :
    (low k val base : ℕ) (uppercase : Bool)
    → 0 < low
    → low ≤ base
    → 0 < k
    → val < low ^ k
    → length (uint_text val base uppercase) ≤ k
unfolding uint_text
length-uint_text low k val base uppercase positive le some_digit h = elim (Bool-cases (val == 0)) [
  | inl e ↦ rw e (omega (arith, some_digit))
  | inr e ↦ rw e (omega (arith, length-build_digits low 64 k uppercase base val [] positive le h))
]

read_back :
    (val base : ℕ) (uppercase : Bool)
    → 2 ≤ base
    → base ≤ 16
    → val < 2 ^ 64
    → read_digits base 0 (uint_text val base uppercase) ≡ val
unfolding uint_text read_digits digit_value
read_back val base uppercase two sixteen h = elim (Bool-cases (val == 0)) [
  | inl e ↦ rw e (ground arith)
  | inr e ↦ rw e (read_digits-build_digits 64 uppercase base val [] two sixteen h)
]

-- In a base from 4 to 16, in lower and in upper case, `emit_uint` prints a 64-bit number with at most 32
-- digits, which is the room that `tmp` has, and reading them gives the number.
pub read_digits-uint_text :
    (val base : ℕ) (uppercase : Bool)
    → 4 ≤ base
    → base ≤ 16
    → val < 2 ^ 64
    → (length (uint_text val base uppercase) ≤ 32)
      × (read_digits base 0 (uint_text val base uppercase) ≡ val)
read_digits-uint_text val base uppercase four sixteen h = (
  length-uint_text 4 32 val base uppercase (omega arith) four (omega arith) (omega (arith, h)),
  read_back val base uppercase (omega (arith, four)) sixteen h,
)
