-- ===== src/Uaccess/Tests.antt =====
-- Tests and examples of the access to user memory in arch/x86_64/uaccess.c.
use emergence_kernel.Uaccess.Text.{strncpy_from_user-IsTextCopy, IsTextCopy}
use emergence_kernel.Uaccess.Probe.{probe_user_read-IsUserRange, IsUserRange}
use emergence_kernel.Uaccess.Copies.{copy_from_user-copy_to_user}
use emergence_kernel.Uaccess.{
  user_space_end, minus_efault, text_loop, copy_from_user, is_user_pointer, copy_to_user,
  probe_user_read, strncpy_from_user,
}
use emergence_kernel.Prelude.{
  ◌≢◌, inr, inl, refl, ◌+◌, ◌-◌, ◌⊎◌, arith, pos, ◌^◌, ltb, ◌≡◌, if◌then◌else◌, ℕ,
}

-- Three bytes and a NUL of user memory at 0x400000
abbrev user_text : ℕ → ℕ
user_text a = if ltb a 0x400000 then 7 else if ltb a 0x400003 then 65 else 0

wraps : probe_user_read 0x400000 (2 ^ 64 - 1) ≡ pos 14
unfolding probe_user_read is_user_pointer
wraps = refl

null_source : strncpy_from_user user_text 4096 0 10 ≡ (pos 22, user_text)
unfolding strncpy_from_user
null_source = refl

length_3 : (strncpy_from_user user_text 4096 0x400000 10).0 ≡ pos 3
unfolding strncpy_from_user probe_user_read is_user_pointer text_loop
length_3 = refl

-- The last byte of user memory
last_byte : probe_user_read (2 ^ 47 - 1) 1 ≡ minus_efault
unfolding probe_user_read is_user_pointer
last_byte = refl

probe_user_read-IsUserRange_example :
    ((probe_user_read 0x400000 16 ≡ pos 0)
      × IsUserRange 0x400000 16
      × (0x400000 + 16 ≢ user_space_end))
    ⊎ ((probe_user_read 0x400000 16 ≡ minus_efault)
        × (¬ IsUserRange 0x400000 16
            ⊎ (IsUserRange 0x400000 16 × (0x400000 + 16 ≡ user_space_end))))
probe_user_read-IsUserRange_example =
    probe_user_read-IsUserRange 0x400000 16 (omega arith) (omega arith)

copy_from_user-copy_to_user_example :
    let there = copy_to_user user_text 0x400000 4096 8 in
    let back = copy_from_user there.1 8192 0x400000 8 in
    (there.0 ≡ pos 0) × (back.0 ≡ pos 0) × (back.1 (8192 + 3) ≡ user_text (4096 + 3))
copy_from_user-copy_to_user_example =
    copy_from_user-copy_to_user user_text 0x400000 4096 8192 8 3 (omega arith) (inr (omega arith))
      (inl (omega arith)) (omega arith) (omega arith) (omega arith)

strncpy_from_user-IsTextCopy_example :
    IsTextCopy user_text 4096 0x400000 10 (strncpy_from_user user_text 4096 0x400000 10)
strncpy_from_user-IsTextCopy_example =
    strncpy_from_user-IsTextCopy user_text 4096 0x400000 10 (omega arith) (omega arith)
      (omega arith) (inl (omega arith))
