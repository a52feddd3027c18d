-- ===== src/Syscall/Tests.antt =====
-- Tests and examples of the system calls in arch/x86_64/syscall.c.
use emergence_kernel.Syscall.Write.{sys_write-IsBuffered, IsBuffered}
use emergence_kernel.Syscall.{sys_write, written, write_u32, store_status}
use emergence_kernel.Uaccess.{copy_from_user, probe_user_read, is_user_pointer, minus_efault}
use emergence_kernel.Prelude.{
  refl, ◌≡◌, inl, arith, ℕ, ltb, if◌then◌else◌, pos, negsuc, minus_one, some,
}

-- Bytes 65 of user memory from 0x400000 on
abbrev user_bytes : ℕ → ℕ
user_bytes a = if ltb a 0x400000 then 7 else 65

null_buffer : sys_write user_bytes 0x200000 0 5 ≡ (minus_one, user_bytes)
unfolding sys_write
null_buffer = refl

no_bytes : sys_write user_bytes 0x200000 0x400000 0 ≡ (pos 0, user_bytes)
unfolding sys_write
no_bytes = refl

three_bytes : (sys_write user_bytes 0x200000 0x400000 3).0 ≡ pos 3
unfolding sys_write written copy_from_user probe_user_read is_user_pointer
three_bytes = refl

kernel_pointer : (sys_write user_bytes 0x200000 0x100 3).0 ≡ minus_efault
unfolding sys_write written copy_from_user probe_user_read is_user_pointer
kernel_pointer = refl

no_status : store_status user_bytes 0 (some (negsuc 4)) ≡ user_bytes
unfolding store_status
no_status = refl

status_high_byte : store_status user_bytes 0x1000 (some (negsuc 4)) 0x1003 ≡ 255
unfolding store_status write_u32
status_high_byte = refl

sys_write-IsBuffered_example :
    IsBuffered 0x200000 user_bytes (sys_write user_bytes 0x200000 0x400000 5000).1
sys_write-IsBuffered_example =
    sys_write-IsBuffered user_bytes 0x200000 0x400000 5000 (inl (omega arith))
