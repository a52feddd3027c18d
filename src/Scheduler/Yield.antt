-- ===== src/Scheduler/Yield.antt =====
-- thread_yield of kernel/thread.c.
use emergence_kernel.Prelude.{ℕ, ◌≡◌, ◌∙◌, refl, sym, ap, subst, some, [], ==-refl}
use emergence_kernel.Scheduler.{
  ready, Sched, add_thread, same_thread, set_state, yield_from, thread_yield, dec,
}
use emergence_kernel.Scheduler.Queue.{
  Queued, Detached, add_thread-Queued, dec-inc, without, without-Queued,
}
use emergence_kernel.Scheduler.Switch.{
  choose_next-cons, schedule-same, set_state-Detached, switches-add_thread,
}

current-add_thread : (s : Sched) (t : ℕ) → (add_thread s (some t)).current ≡ s.current
unfolding add_thread
current-add_thread s t = refl

-- What yielding comes to: the thread is put in the queue and taken out of it again.
thread_yield-without :
    (s : Sched) (cpu t : ℕ)
    → s.current cpu ≡ some t
    → Detached s t
    → thread_yield s cpu ≡ without (add_thread (set_state s t ready) (some t)) t
unfolding thread_yield
thread_yield-without s cpu t c d =
    let s1 = add_thread (set_state s t ready) (some t) in
    let (alone, counted, made_ready) =
      add_thread-Queued (set_state s t ready) t (set_state-Detached s t ready d) in
    ap (yield_from s cpu) c
    ∙ (schedule-same s1 (without s1 t) cpu t (choose_next-cons s1 cpu t [] alone) (
        ap (λ o. same_thread o t) (ap (λ g. g cpu) (current-add_thread (set_state s t ready) t) ∙ c)
        ∙ ==-refl t))

-- A thread that yields while its node is linked to itself goes on running, whatever threads wait:
-- no switch is made, and afterwards the queue is empty, so the waiting threads are lost to it; the
-- count of runnable threads is as before, and the thread is left READY.
pub thread_yield-keeps :
    (s : Sched) (cpu t : ℕ)
    → s.current cpu ≡ some t
    → Detached s t
    → ((thread_yield s cpu).current cpu ≡ some t)
      × ((thread_yield s cpu).switches ≡ s.switches)
      × Queued (thread_yield s cpu) []
      × ((thread_yield s cpu).nr_running ≡ s.nr_running)
      × (((thread_yield s cpu).threads t).state ≡ ready)
thread_yield-keeps s cpu t c d =
    let s0 = set_state s t ready in
    let s1 = add_thread s0 (some t) in
    let (alone, counted, made_ready) = add_thread-Queued s0 t (set_state-Detached s t ready d) in
    subst
      (λ r.
        (r.current cpu ≡ some t)
        × (r.switches ≡ s.switches)
        × Queued r []
        × (r.nr_running ≡ s.nr_running)
        × ((r.threads t).state ≡ ready))
      (sym (thread_yield-without s cpu t c d))
      (
        ap (λ g. g cpu) (current-add_thread s0 t) ∙ c,
        switches-add_thread s0 t,
        without-Queued s1 t [] alone,
        ap dec counted ∙ dec-inc s.nr_running,
        made_ready,
      )
