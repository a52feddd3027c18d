-- ===== src/Uaccess/Copies.antt =====
-- What the copies of arch/x86_64/uaccess.c change, and that a copy there and back gives the bytes back.
use emergence_kernel.Uaccess.Probe.{IsInnerRange-accepted, probe_user_read-cases, IsInnerRange}
use emergence_kernel.Prelude.{
  ap, ◌==◌, ==-false, Bool-cases, arith, ◌-◌, ◌∙◌, refl, inr, inl, ltb, ◌&&◌, leb, if◌then◌else◌,
  pos, ◌≡◌, ◌≤◌, ◌⊎◌, u64_mod, ◌+◌, ◌<◌, ℕ,
}
use emergence_kernel.Uaccess.{
  memcpy, minus_efault, user_space_end, user_code_base, copy_to_user, copy_from_user, clear_user,
  probe_user_write,
}
use emergence_kernel.Cstring.Copy.{memcpy-copies, memset-fills}

-- The memories agree outside of user memory.
abbrev pub IsKept : (ℕ → ℕ) → (ℕ → ℕ) → Type 0
IsKept m m' = (a : ℕ) → (a < user_code_base) ⊎ (user_space_end ≤ a) → m' a ≡ m a

copy_to_user-cases :
    (m : ℕ → ℕ) (dst src n : ℕ)
    → dst < u64_mod
    → n < u64_mod
    → ((copy_to_user m dst src n ≡ (pos 0, memcpy m dst src n)) × IsInnerRange dst n)
      ⊎ ((copy_to_user m dst src n).1 ≡ m)
unfolding copy_to_user probe_user_write
copy_to_user-cases m dst src n a b = elim (Bool-cases (src == 0)) [
  | inl no_src ↦ inr (rw no_src refl)
  | inr is_src ↦ elim (Bool-cases (dst == 0)) [
    | inl no_dst ↦ inr (rw (is_src, no_dst) refl)
    | inr is_dst ↦ elim (probe_user_read-cases dst n a b) [
      | inl (e, r) ↦ inl (rw (is_src, is_dst, e) refl, r)
      | inr (e, no_range) ↦ inr (rw (is_src, is_dst, e) refl)
    ]
  ]
]

copy_to_user-accepted :
    (m : ℕ → ℕ) (dst src n : ℕ)
    → IsInnerRange dst n
    → 0 < src
    → copy_to_user m dst src n ≡ (pos 0, memcpy m dst src n)
unfolding copy_to_user probe_user_write
copy_to_user-accepted m dst src n (high, low) h =
    rw
      (
        ==-false src 0 (omega (arith, h)),
        ==-false dst 0 (omega (arith, high)),
        IsInnerRange-accepted dst n (high, low),
      )
      refl

copy_from_user-accepted :
    (m : ℕ → ℕ) (dst src n : ℕ)
    → IsInnerRange src n
    → 0 < dst
    → copy_from_user m dst src n ≡ (pos 0, memcpy m dst src n)
unfolding copy_from_user
copy_from_user-accepted m dst src n (high, low) h =
    rw
      (
        ==-false src 0 (omega (arith, high)),
        ==-false dst 0 (omega (arith, h)),
        IsInnerRange-accepted src n (high, low),
      )
      refl

-- For 64-bit arguments and a kernel buffer apart from the user's, `copy_to_user` writes no byte outside
-- of user memory, and none at all when it does not return 0.
pub copy_to_user-IsKept :
    (m : ℕ → ℕ) (dst src n : ℕ)
    → dst < u64_mod
    → n < u64_mod
    → (dst + n ≤ src) ⊎ (src + n ≤ dst)
    → IsKept m (copy_to_user m dst src n).1
      × (((copy_to_user m dst src n).0 ≡ pos 0) ⊎ ((copy_to_user m dst src n).1 ≡ m))
copy_to_user-IsKept m dst src n a b apart = elim (copy_to_user-cases m dst src n a b) [
  | inl (e, (high, low)) ↦ rw e (
    (λ x outside. memcpy-copies m dst src n x apart ∙ ground (arith, high, low, outside)),
    inl refl,
  )
  | inr same ↦ ((λ x outside. ap (λ (f : ℕ → ℕ). f x) same), inr same)
]

-- For 64-bit arguments `clear_user` writes zeros to exactly the bytes of its range when that lies in
-- user memory and ends before its last byte, and returns 0; else it writes nothing and returns `-EFAULT`.
pub clear_user-clears :
    (m : ℕ → ℕ) (dst n : ℕ)
    → dst < u64_mod
    → n < u64_mod
    → (IsInnerRange dst n
        × ((clear_user m dst n).0 ≡ pos 0)
        × ((a : ℕ) → (clear_user m dst n).1 a ≡ (if leb dst a && ltb a (dst + n) then 0 else m a)))
      ⊎ (¬ IsInnerRange dst n × (clear_user m dst n ≡ (minus_efault, m)))
unfolding clear_user probe_user_write
clear_user-clears m dst n a b = elim (probe_user_read-cases dst n a b) [
  | inl (e, r) ↦ inl (r, rw e refl, λ x. rw e (memset-fills m dst 0 n x))
  | inr (e, no_range) ↦ inr (no_range, rw e refl)
]

inside :
    (m : ℕ → ℕ) (to from n i : ℕ)
    → i < n
    → (if leb to (to + i) && ltb (to + i) (to + n) then m (from + (to + i - to)) else m (to + i))
      ≡ m (from + i)
inside m to from n i h = ground (arith, h, ap m same_place)
  where
    same_place : from + (to + i - to) ≡ from + i
    same_place = omega arith

-- Between places that do not meet, none of them NULL and the user's in user memory before its
-- last byte, bytes copied to the
-- user and copied from there again are the same, and both copies return 0.
pub copy_from_user-copy_to_user :
    (m : ℕ → ℕ) (user from to n i : ℕ)
    → IsInnerRange user n
    → (user + n ≤ from) ⊎ (from + n ≤ user)
    → (to + n ≤ user) ⊎ (user + n ≤ to)
    → 0 < from
    → 0 < to
    → i < n
    → let there = copy_to_user m user from n in
      let back = copy_from_user there.1 to user n in
      (there.0 ≡ pos 0) × (back.0 ≡ pos 0) × (back.1 (to + i) ≡ m (from + i))
copy_from_user-copy_to_user m user from to n i r apart apart' f t h =
    rw (copy_to_user-accepted m user from n r f) (
      rw (copy_from_user-accepted (memcpy m user from n) to user n r t) (
        refl,
        refl,
        memcpy-copies (memcpy m user from n) to user n (to + i) apart'
            ∙ inside (memcpy m user from n) to user n i h
            ∙ memcpy-copies m user from n (user + i) apart
            ∙ inside m user from n i h,
      ))
