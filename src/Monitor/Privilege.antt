-- ===== src/Monitor/Privilege.antt =====
-- Who may change what in kernel/monitor/monitor.c: the privilege of the monitor's calls.
use emergence_kernel.Prelude.{refl, inr, inl, Bool-cases, arith, ◌==◌, true, ◌≡◌, ◌≢◌}
use emergence_kernel.Monitor.{
  false, failed, dispatch, ℕ, MonitorCall, MonitorState, trampoline, call_handler, monitor_call,
}

-- After monitor_init, every call does what the handler does with the privilege, in either mode, and
-- leaves CR0.WP, the stored addresses and the root as before. This holds of MONITOR_CALL_SET_PAGE_TYPE
-- too, which is meant for the monitor only: the trampoline clears CR0.WP, and so its test of the
-- privilege passes for the outer kernel as well.
pub monitor_call-dispatch :
    (s : MonitorState) (call : MonitorCall) (arg1 arg2 arg3 : ℕ)
    → s.monitor_pml4_phys ≢ 0
    → monitor_call s call arg1 arg2 arg3 ≡ (
      (dispatch call arg1 arg2 arg3 s.memory s.unpriv_pml4).0,
      record s { memory = (dispatch call arg1 arg2 arg3 s.memory s.unpriv_pml4).1 },
    )
unfolding monitor_call call_handler trampoline
monitor_call-dispatch s call arg1 arg2 arg3 ready = elim (Bool-cases s.cr0_wp) [
  | inl outer ↦ rw (not_zero, outer) refl
  | inr inner ↦ rw (not_zero, inner) refl
]
  where
    not_zero : (s.monitor_pml4_phys == 0) ≡ false
    not_zero = ground arith

-- Before monitor_init, and when the handler is reached without the trampoline, a call in the outer
-- kernel's mode is refused and changes nothing.
pub call_handler-unprivileged :
    (s : MonitorState) (call : MonitorCall) (arg1 arg2 arg3 : ℕ)
    → s.cr0_wp ≡ true
    → call_handler s call arg1 arg2 arg3 ≡ (failed, s)
unfolding call_handler
call_handler-unprivileged s call arg1 arg2 arg3 outer = rw outer refl
