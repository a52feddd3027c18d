-- ===== src/Uaccess/Probe.antt =====
-- Which ranges the probes of arch/x86_64/uaccess.c accept.
use native.Mathlib.Decide.{ℕ_discrete, dec_le, dec_lt}
use emergence_kernel.Prelude.{
  ◌≢◌, arith, ◌∙◌, sym, ap, inr, inl, false, ◌⊎◌, pos, true, ◌+◌, ◌≡◌, u64_mod, ◌≤◌, ◌<◌, ℕ,
}
use emergence_kernel.Uaccess.{
  minus_efault, user_space_end, is_zero, user_code_base, probe_user_read, is_user_pointer,
}

-- The bytes of the range are user memory, which ends with the byte before 2^47.
abbrev pub IsUserRange : ℕ → ℕ → Type 0
IsUserRange addr n = (user_code_base ≤ addr) × (addr + n ≤ user_space_end)

-- The ranges of user memory that end before its last byte
abbrev pub IsInnerRange : ℕ → ℕ → Type 0
IsInnerRange addr n = (user_code_base ≤ addr) × (addr + n < user_space_end)

-- For a 64-bit address and length `probe_user_read` returns 0 for the ranges that lie in user memory
-- and do not reach up to its end at 2^47, and `-EFAULT` for all others: those outside of user memory,
-- those that wrap around, and also those that lie in it and end with its last byte.
pub probe_user_read-IsUserRange :
    (addr n : ℕ)
    → addr < u64_mod
    → n < u64_mod
    → ((probe_user_read addr n ≡ pos 0) × IsUserRange addr n × (addr + n ≢ user_space_end))
      ⊎ ((probe_user_read addr n ≡ minus_efault)
          × (¬ IsUserRange addr n ⊎ (IsUserRange addr n × (addr + n ≡ user_space_end))))
unfolding probe_user_read is_user_pointer
probe_user_read-IsUserRange addr n a b = elim (dec_lt (addr + n) user_space_end) [
  | yes low ↦ elim (dec_le user_code_base addr) [
    | yes high ↦
        inl (ground (arith, low, high), (high, omega (arith, low)), λ e. omega (arith, e, low))
    | no h ↦ inr (ground (arith, low, h), inl (λ r. absurd (h r.0)))
  ]
  | no h ↦ elim (dec_le user_code_base addr) [
    | yes high ↦ elim (ℕ_discrete (addr + n) user_space_end) [
      | yes end ↦ inr (ground (arith, h, a, b), inr ((high, omega (arith, end)), end))
      | no other ↦ inr (ground (arith, h, a, b), inl (λ r. other (omega (arith, h, r.1))))
    ]
    | no low ↦ inr (ground (arith, h, a, b), inl (λ r. absurd (low r.0)))
  ]
]

-- The probe gives 0 for exactly these ranges.
pub probe_user_read-cases :
    (addr n : ℕ)
    → addr < u64_mod
    → n < u64_mod
    → ((probe_user_read addr n ≡ pos 0) × IsInnerRange addr n)
      ⊎ ((probe_user_read addr n ≡ minus_efault) × ¬ IsInnerRange addr n)
probe_user_read-cases addr n a b = elim (probe_user_read-IsUserRange addr n a b) [
  | inl (e, r, inner) ↦ inl (e, (r.0, omega (arith, r.1, inner)))
  | inr (e, inl out) ↦ inr (e, λ x. absurd (out (x.0, omega (arith, x.1))))
  | inr (e, inr (r, end)) ↦ inr (e, λ x. absurd (omega (arith, x.1, end)))
]

-- A range whose probe gives 0 is such a range.
pub accepted-IsInnerRange :
    (addr n : ℕ)
    → addr < u64_mod
    → n < u64_mod
    → is_zero (probe_user_read addr n) ≡ true
    → IsInnerRange addr n
accepted-IsInnerRange addr n a b h = elim (probe_user_read-cases addr n a b) [
  | inl (e, r) ↦ r
  | inr (e, no_range) ↦ absurd (false_is_true (ap is_zero (sym e) ∙ h))
]
  where
    false_is_true : false ≡ true → ⊥
    false_is_true e = cc e

pub IsInnerRange-accepted : (addr n : ℕ) → IsInnerRange addr n → probe_user_read addr n ≡ pos 0
IsInnerRange-accepted addr n (high, low) =
    elim (probe_user_read-cases addr n (omega (arith, low)) (omega (arith, low))) [
      | inl (e, r) ↦ e
      | inr (e, no_range) ↦ absurd (no_range (high, low))
    ]
