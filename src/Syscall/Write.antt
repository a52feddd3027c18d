-- ===== src/Syscall/Write.antt =====
-- `sys_write` of arch/x86_64/syscall.c.
use emergence_kernel.Prelude.{
  ◌==◌, Bool-cases, inr, ltb, if◌then◌else◌, inl, arith, ◌≡◌, ◌⊎◌, ◌+◌, ◌<◌, ◌≤◌, ℕ,
}
use emergence_kernel.Syscall.{sys_write, written}
use emergence_kernel.Uaccess.{copy_from_user}
use emergence_kernel.Cstring.Copy.{memcpy-copies}

-- The memories agree outside of a buffer of 4096 bytes.
abbrev pub IsBuffered : ℕ → (ℕ → ℕ) → (ℕ → ℕ) → Type 0
IsBuffered buffer m m' = (a : ℕ) → (a < buffer) ⊎ (buffer + 4096 ≤ a) → m' a ≡ m a

copied-IsBuffered :
    (m : ℕ → ℕ) (buffer buf n : ℕ)
    → n ≤ 4095
    → (buffer + n ≤ buf) ⊎ (buf + n ≤ buffer)
    → IsBuffered buffer m (written buffer n (copy_from_user m buffer buf n)).1
unfolding written copy_from_user
copied-IsBuffered m buffer buf n small apart a outside =
    ground (arith, small, outside, memcpy-copies m buffer buf n a apart)

limited_bound : (count : ℕ) → (if ltb 4095 count then 4095 else count) ≤ 4095
limited_bound count = ground arith

copied_apart :
    (buffer buf n : ℕ)
    → n ≤ 4095
    → (buffer + 4096 ≤ buf) ⊎ (buf + 4096 ≤ buffer)
    → (buffer + n ≤ buf) ⊎ (buf + n ≤ buffer)
copied_apart buffer buf n small (inl before) = inl (omega (arith, small, before))
copied_apart buffer buf n small (inr after) = inr (omega (arith, small, after))

-- For a processor's buffer apart from the user's bytes, `sys_write` with any pointer and count changes
-- no byte outside of the 4096 bytes of the buffer.
pub sys_write-IsBuffered :
    (m : ℕ → ℕ) (buffer buf count : ℕ)
    → (buffer + 4096 ≤ buf) ⊎ (buf + 4096 ≤ buffer)
    → IsBuffered buffer m (sys_write m buffer buf count).1
unfolding sys_write
sys_write-IsBuffered m buffer buf count apart a outside =
    let limited = if ltb 4095 count then 4095 else count in
    elim (Bool-cases (buf == 0)) [
      | inl null ↦ rw null
      | inr given ↦ elim (Bool-cases (count == 0)) [
        | inl empty ↦ rw (given, empty)
        | inr some_bytes ↦
            let copied =
              copied-IsBuffered m buffer buf limited (limited_bound count)
                (copied_apart buffer buf limited (limited_bound count) apart) a outside in
            rw (given, some_bytes, copied)
      ]
    ]
