-- ===== src/Syscall.antt =====
-- arch/x86_64/syscall.c: the system calls and their dispatch. The current process is an argument, 0 for
-- none, and so are the processor's `sys_write_buf` and the allocators' answers to a fork. What
-- `thread_yield` does is in Scheduler, and the log's output is left out.
pub mod Write
mod Tests
use emergence_kernel.Uaccess.{copy_from_user, probe_user_write, is_zero, minus_efault}
use emergence_kernel.Process.{Kernel, Answers, WaitResult, same_int, exit, fork, wait}
use emergence_kernel.Prelude.{
  ℕ, ◌+◌, ◌-◌, ◌/◌, ◌%◌, ◌^◌, Bool, true, false, not, ◌&&◌, ◌||◌, Option, none, some, ltb, ◌==◌,
  if◌then◌else◌, update, ℤ, pos, negsuc, minus_one,
}

pub record Machine : Type 0 where
  pub memory : ℕ → ℕ
  pub kernel : Kernel

-- How a call ends: with a value for RAX, with `thread_exit`, or with the machine shut down
pub data Outcome : Type 0 where
  value : ℤ → Outcome
  exits : Outcome
  shuts_down : Outcome

-- The end of `sys_write`, after the copy of count bytes
unfoldable pub written : ℕ → ℕ → ℤ × (ℕ → ℕ) → ℤ × (ℕ → ℕ)
written buffer count (ret, m) =
    if not (is_zero ret) then (ret, m) else (pos count, update m (buffer + count) 0)

-- `sys_write` with the buffer of the processor
unfoldable pub sys_write : (ℕ → ℕ) → ℕ → ℕ → ℕ → ℤ × (ℕ → ℕ)
sys_write m buffer buf count =
    let limited = if ltb 4095 count then 4095 else count in
    if buf == 0
    then (minus_one, m)
    else if count == 0
    then (pos 0, m)
    else written buffer limited (copy_from_user m buffer buf limited)

-- `sys_exit` of the current process
unfoldable pub sys_exit : Kernel → ℕ → ℤ → Outcome × Kernel
sys_exit k current code =
    let parent = (k.processes current).parent in
    if current == 0
    then (shuts_down, k)
    else if (parent == 0) || same_int (k.processes parent).pid (pos 1)
    then (shuts_down, k)
    else (exits, exit k current code)

-- `sys_getpid`
unfoldable pub sys_getpid : Kernel → ℕ → ℤ
sys_getpid k current = if current == 0 then minus_one else (k.processes current).pid

-- The value of `sys_fork` in the parent
unfoldable pub fork_value : ℕ × Kernel → ℤ × Kernel
fork_value (child, k) = if child == 0 then (negsuc 11, k) else ((k.processes child).pid, k)

-- `sys_fork`
unfoldable pub sys_fork : (ℕ → ℕ) → Kernel → ℕ → Answers → ℤ × Kernel
sys_fork master k current answers =
    if current == 0 then (minus_one, k) else fork_value (fork master k current answers)

-- `(int)` of a 64-bit word, and an `int` as a 32-bit word
abbrev pub to_int : ℕ → ℤ
to_int n = if ltb (n % 2 ^ 32) (2 ^ 31) then pos (n % 2 ^ 32) else negsuc (2 ^ 32 - 1 - n % 2 ^ 32)

abbrev pub to_word : ℤ → ℕ
to_word (pos n) = n % 2 ^ 32
to_word (negsuc n) = 2 ^ 32 - 1 - n % 2 ^ 32

-- `*status = …`
unfoldable pub write_u32 : (ℕ → ℕ) → ℕ → ℕ → ℕ → ℕ
write_u32 m a w =
    update
      (update (update (update m a (w % 256)) (a + 1) (w / 256 % 256)) (a + 2) (w / 65536 % 256))
      (a + 3) (w / 16777216 % 256)

-- The status of a reaped child, where one is wanted
unfoldable pub store_status : (ℕ → ℕ) → ℕ → Option ℤ → ℕ → ℕ
store_status m status none = m
store_status m status (some code) = if status == 0 then m else write_u32 m status (to_word code)

-- `process_wait` for the current process, -1 when there is none
unfoldable pub wait_current : Kernel → ℕ → ℤ → WaitResult
wait_current k current pid = if current == 0 then (minus_one, none, k) else wait k current pid

-- `sys_wait`
unfoldable pub sys_wait : Machine → ℕ → ℕ → ℕ → ℤ × Machine
sys_wait s current pid status =
    let r = wait_current s.kernel current (to_int pid) in
    if not (status == 0) && not (is_zero (probe_user_write status 4))
    then (minus_efault, s)
    else (r.0, record s { memory = store_status s.memory status r.1; kernel = r.2 })

abbrev valued : ℤ × Machine → Outcome × Machine
valued (v, s) = (value v, s)

abbrev with_memory : Machine → ℤ × (ℕ → ℕ) → ℤ × Machine
with_memory s (v, m) = (v, record s { memory = m })

abbrev with_kernel : Machine → ℤ × Kernel → ℤ × Machine
with_kernel s (v, k) = (v, record s { kernel = k })

abbrev ended : Machine → Outcome × Kernel → Outcome × Machine
ended s (o, k) = (o, record s { kernel = k })

-- `syscall_handler`, with the value that it moves to RAX
unfoldable pub syscall_handler :
    (ℕ → ℕ) → Machine → ℕ → ℕ → Answers → ℕ → ℕ → ℕ → ℕ → Outcome × Machine
syscall_handler master s current buffer answers nr a1 a2 a3 =
    if nr == 1
    then valued (with_memory s (sys_write s.memory buffer a2 a3))
    else if nr == 2
    then ended s (sys_exit s.kernel current (to_int a1))
    else if nr == 3
    then valued (pos 0, s)
    else if nr == 4
    then valued (sys_getpid s.kernel current, s)
    else if nr == 5
    then valued (with_kernel s (sys_fork master s.kernel current answers))
    else if nr == 6
    then valued (sys_wait s current a1 a2)
    else valued (negsuc 37, s)
