-- ===== src/Monitor/Tests.antt =====
-- The monitor of kernel/monitor/monitor.c over eighteen free pages from 0x2000 on, with the root of the
-- outer kernel's tables at 0x1000, in the outer kernel's mode.
use emergence_kernel.Monitor.ReadOnly.{Tables}
use emergence_kernel.Monitor.Tables.{Request}
use emergence_kernel.Monitor.Privilege.{monitor_call-dispatch}
use emergence_kernel.Prelude.{[], ◌∷◌, List, arith, true, ◌≡◌, ◌≢◌}
use emergence_kernel.Monitor.{free_phys, dispatch, alloc_phys, MonitorState, monitor_call}
use emergence_kernel.Pmm
use emergence_kernel.Pmm.Sample.{address_of_first}
use emergence_kernel.Paging.Sample.{start}

state : MonitorState
state = record { memory = start; cr0_wp = true; monitor_pml4_phys = 20480; unpriv_pml4 = 4096 }

initialized : state.monitor_pml4_phys ≢ 0
unfolding state
initialized = omega arith

monitor_call-dispatch_example : monitor_call state alloc_phys 0 0 0 ≡ (
  (dispatch alloc_phys 0 0 0 state.memory state.unpriv_pml4).0,
  record state { memory = (dispatch alloc_phys 0 0 0 state.memory state.unpriv_pml4).1 },
)
monitor_call-dispatch_example = monitor_call-dispatch state alloc_phys 0 0 0 initialized

page : (Pmm.alloc state.memory.pmm state.memory.pcd 0).0 ≡ 8192
unfolding state start
page = address_of_first

-- The page is freed and memory is asked for before the request.
abbrev calls : List Request
calls =
    record { call = free_phys; arg1 = 8192; arg2 = 0; arg3 = 0 }
    ∷ record { call = alloc_phys; arg1 = 0; arg2 = 0; arg3 = 0 }
    ∷ []

own_tables_at : Tables
own_tables_at = record {
  unpriv_pml4 = 4096;
  unpriv_pdpt = 1048576;
  unpriv_pd = 1052672;
  monitor_pml4 = 1056768;
  monitor_pdpt = 1060864;
  monitor_pd = 1064960;
}
