-- ===== src/Process/Wait.antt =====
-- `process_wait` of kernel/process.c.
use emergence_kernel.Slab.{erase}
use emergence_kernel.Prelude.Counts.{occurrences}
use emergence_kernel.Prelude.{
  ==-false, refl, none, minus_one, some, ◌≢◌, false, true, ◌<◌, List, ◌≡◌, ℤ, ℕ,
}
use emergence_kernel.Process.{set_process, is_awaited, WaitResult, Process, Kernel, reap}
use emergence_kernel.Vm

-- A child that was awaited is gone: its PID and status are returned, it is off its parent's list and the
-- list of all processes, its structure is freed, and so is its address space if it has one.
pub record IsReaped (k : Kernel) (current : ℕ) (pid : ℤ) (child : ℕ) (r : WaitResult) : Type 0 where
  pub listed : 0 < occurrences child (k.processes current).children
  pub awaited : is_awaited (k.processes child) pid ≡ true
  pub returned : r.0 ≡ (k.processes child).pid
  pub status : r.1 ≡ some (k.processes child).exit_status
  pub processes : r.2.process_list ≡ erase child k.process_list
  pub freed : r.2.live ≡ erase child k.live
  pub children :
      child ≢ current
      → (r.2.processes current).children ≡ erase child (k.processes current).children
  pub space :
      child ≢ current → (k.processes child).vm ≢ 0 → r.2.vm ≡ Vm.destroy k.vm (k.processes child).vm

pub record IsNothing (k : Kernel) (current : ℕ) (pid : ℤ) (r : WaitResult) : Type 0 where
  pub none_awaited :
      (child : ℕ)
      → 0 < occurrences child (k.processes current).children
      → is_awaited (k.processes child) pid ≡ false
  pub unchanged : r ≡ (minus_one, none, k)

-- What a search for an awaited child finds: NULL when there is none, else such a child.
data Awaited (processes : ℕ → Process) (xs : List ℕ) (pid : ℤ) (found : ℕ) : Type 0 where
  nobody :
      found ≡ 0
      → ((c : ℕ) → 0 < occurrences c xs → is_awaited (processes c) pid ≡ false)
      → Awaited processes xs pid found
  somebody :
      found ≢ 0
      → 0 < occurrences found xs
      → is_awaited (processes found) pid ≡ true
      → Awaited processes xs pid found

module _ (k : Kernel) (p : ℕ) (h : p ≢ 0) where
  pub reap-listed : (reap k p).process_list ≡ erase p k.process_list
  unfolding reap
  reap-listed = rw (==-false p 0 h) refl

-- The parent without one child, before that is reaped
abbrev without : Kernel → ℕ → ℕ → Kernel
without k current child =
    set_process k current
      (record (k.processes current) { children = erase child (k.processes current).children })
