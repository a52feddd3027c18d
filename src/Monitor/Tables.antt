-- ===== src/Monitor/Tables.antt =====
-- What the outer kernel gets when it asks for a writable mapping of a page that kernel/monitor/monitor.c
-- has handed out for a page table.
use emergence_kernel.Monitor.Private.{IsPrivate, is_other}
use emergence_kernel.Monitor.{MonitorCall, Bool, monitor_call, minus_one, MonitorRet, MonitorState}
use emergence_kernel.Prelude.{List, [], ◌∷◌, true, ◌&&◌, ◌-◌, ℕ, ◌^◌, ◌≢◌}
use emergence_kernel.Pcd
use emergence_kernel.Pmm

-- What the caller gets for a mapping that is not allowed.
abbrev pub rejected_ret : MonitorRet
rejected_ret = record { result = 2 ^ 64 - 1; error = minus_one }

-- A call with its arguments
pub record Request : Type 0 where
  pub call : MonitorCall
  pub arg1 : ℕ
  pub arg2 : ℕ
  pub arg3 : ℕ

-- The state after calls of the outer kernel or the monitor, one after another
unfoldable pub after_calls : List Request → MonitorState → MonitorState
after_calls [] s = s
after_calls (q ∷ qs) s = after_calls qs (monitor_call s q.call q.arg1 q.arg2 q.arg3).1

-- None of the calls sets a page's type.
unfoldable pub sets_no_type : List Request → Bool
sets_no_type [] = true
sets_no_type (q ∷ qs) = is_other q.call && sets_no_type qs

-- After monitor_init, and the page of the address is one that only the monitor may write.
abbrev IsGuarded : ℕ → MonitorState → Type 0
IsGuarded a s = (s.monitor_pml4_phys ≢ 0) × IsPrivate a s.memory.pcd
