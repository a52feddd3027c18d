-- ===== src/Uaccess.antt =====
-- arch/x86_64/uaccess.c and arch/x86_64/include/uaccess.h: the kernel's access to user memory, on a
-- byte memory. A pointer is its address, and 0 is NULL. A routine that changes memory returns its
-- result with the memory.
pub mod Probe
pub mod Copies
pub mod Text
mod Tests
use emergence_kernel.Cstring.{memcpy, memset}
use emergence_kernel.Prelude.{
  false, ℕ, zero, suc, ◌+◌, ◌/◌, ◌-◌, ◌^◌, ◌&&◌, ◌||◌, not, ltb, leb, ◌==◌, Bool, if◌then◌else◌,
  update, add_u64, ℤ, pos, negsuc,
}

-- USER_CODE_BASE and USER_SPACE_END
abbrev pub user_code_base : ℕ
user_code_base = 0x400000

abbrev pub user_space_end : ℕ
user_space_end = 2 ^ 47

-- `-EFAULT` and `-EINVAL`: EFAULT is -14 and EINVAL -22, so the results are positive.
abbrev pub minus_efault : ℤ
minus_efault = pos 14

abbrev pub minus_einval : ℤ
minus_einval = pos 22

unfoldable pub is_user_pointer : ℕ → Bool
is_user_pointer addr =
    let upper_bits = addr / 2 ^ 47 in
    not (ltb addr user_code_base || leb user_space_end addr)
    && not (not (upper_bits == 0) && not (upper_bits == 0x1FFFF))

unfoldable pub probe_user_read : ℕ → ℕ → ℤ
probe_user_read addr n =
    if ltb (add_u64 addr n) addr
    then minus_efault
    else if not (is_user_pointer addr)
    then minus_efault
    else if leb user_space_end (add_u64 addr n)
    then minus_efault
    else pos 0

unfoldable pub probe_user_write : ℕ → ℕ → ℤ
probe_user_write addr n = probe_user_read addr n

-- The result of a probe is 0.
abbrev pub is_zero : ℤ → Bool
is_zero (pos n) = n == 0
is_zero (negsuc n) = false

unfoldable pub copy_from_user : (ℕ → ℕ) → ℕ → ℕ → ℕ → ℤ × (ℕ → ℕ)
copy_from_user m dst src n =
    if dst == 0
    then (minus_einval, m)
    else if src == 0
    then (minus_efault, m)
    else if not (is_zero (probe_user_read src n))
    then (minus_efault, m)
    else (pos 0, memcpy m dst src n)

unfoldable pub copy_to_user : (ℕ → ℕ) → ℕ → ℕ → ℕ → ℤ × (ℕ → ℕ)
copy_to_user m dst src n =
    if src == 0
    then (minus_einval, m)
    else if dst == 0
    then (minus_efault, m)
    else if not (is_zero (probe_user_write dst n))
    then (minus_efault, m)
    else (pos 0, memcpy m dst src n)

-- `while (len < count - 1)`, with count - 1 - len rounds to go; the memory and `len` at the end.
unfoldable pub text_loop : ℕ → (ℕ → ℕ) → ℕ → ℕ → ℕ → (ℕ → ℕ) × ℕ
text_loop zero m dst src len = (m, len)
text_loop (suc n) m dst src len =
    let rest = text_loop n (update m (dst + len) (m (src + len))) dst src (len + 1) in
    if m (src + len) == 0 then (m, len) else rest

-- The bytes and the NUL behind them
abbrev pub end_text : ℕ → (ℕ → ℕ) × ℕ → ℤ × (ℕ → ℕ)
end_text dst (m, len) = (pos len, update m (dst + len) 0)

unfoldable pub strncpy_from_user : (ℕ → ℕ) → ℕ → ℕ → ℕ → ℤ × (ℕ → ℕ)
strncpy_from_user m dst src count =
    if (dst == 0) || (src == 0)
    then (minus_einval, m)
    else if count == 0
    then (minus_einval, m)
    else if not (is_zero (probe_user_read src count))
    then (minus_efault, m)
    else end_text dst (text_loop (count - 1) m dst src 0)

unfoldable pub clear_user : (ℕ → ℕ) → ℕ → ℕ → ℤ × (ℕ → ℕ)
clear_user m dst n =
    if not (is_zero (probe_user_write dst n)) then (minus_efault, m) else (pos 0, memset m dst 0 n)
