-- ===== src/Scheduler/Switch.antt =====
-- schedule of kernel/scheduler.c: which thread runs next, and what happens to the one before.
use emergence_kernel.Prelude.{
  ℕ, ◌≡◌, ◌≢◌, ◌∙◌, refl, sym, ap, arith, true, false, Option, some, subst, List, [], ◌∷◌,
  if◌then◌else◌, ==-false, ==-refl, pos,
}
use emergence_kernel.ListHead.Ring.{Fresh}
use emergence_kernel.Scheduler.{
  ThreadState, ready, running, Sched, inc, dec, is_runnable, add_thread, choose_next, or_idle,
  run_chosen, put_back, switch_to, same_thread, schedule, set_state,
}
use emergence_kernel.Scheduler.Queue.{
  Queued, Detached, add_thread-Queued, inc-dec, pick_next-nil, pick_next-cons, without,
  without-Queued, without-Detached,
}

pub choose_next-cons :
    (s : Sched) (cpu x : ℕ) (xs : List ℕ)
    → Queued s (x ∷ xs)
    → choose_next s cpu ≡ (some x, without s x)
unfolding choose_next
choose_next-cons s cpu x xs r = ap (or_idle cpu) (pick_next-cons s x xs r)

choose_next-nil : (s : Sched) (cpu : ℕ) → Queued s [] → choose_next s cpu ≡ (s.idle_threads cpu, s)
unfolding choose_next
choose_next-nil s cpu r = ap (or_idle cpu) (pick_next-nil s r)

-- Once the next thread is chosen, and is another one.
schedule-switch :
    (s s' : Sched) (cpu next : ℕ)
    → choose_next s cpu ≡ (some next, s')
    → same_thread (s.current cpu) next ≡ false
    → schedule s cpu ≡ switch_to (put_back s' (s.current cpu)) cpu (s.current cpu) next
unfolding schedule
schedule-switch s s' cpu next e d =
    ap (run_chosen cpu (s.current cpu)) e
    ∙ ap (λ b. if b then s' else switch_to (put_back s' (s.current cpu)) cpu (s.current cpu) next) d

pub schedule-same :
    (s s' : Sched) (cpu next : ℕ)
    → choose_next s cpu ≡ (some next, s')
    → same_thread (s.current cpu) next ≡ true
    → schedule s cpu ≡ s'
unfolding schedule
schedule-same s s' cpu next e d =
    ap (run_chosen cpu (s.current cpu)) e
    ∙ ap (λ b. if b then s' else switch_to (put_back s' (s.current cpu)) cpu (s.current cpu) next) d

put_back-runnable :
    (s : Sched) (p : ℕ)
    → is_runnable (s.threads p).state ≡ true
    → put_back s (some p) ≡ add_thread (set_state s p ready) (some p)
unfolding put_back
put_back-runnable s p e = rw e

put_back-not_runnable :
    (s : Sched) (p : ℕ) → is_runnable (s.threads p).state ≡ false → put_back s (some p) ≡ s
unfolding put_back
put_back-not_runnable s p e = rw e

-- The CPU runs `next` after a switch from `prev`, and the queue is `xs`.
pub record Switched (s s' : Sched) (cpu prev next : ℕ) (xs : List ℕ) : Type 0 where
  pub queue : Queued s' xs
  pub now : s'.current cpu ≡ some next
  pub next_running : s'.threads next ≡ record { state = running; cpu = pos cpu }
  pub traced : s'.switches ≡ (some prev, next) ∷ s.switches

pub set_state-Detached :
    (s : Sched) (p : ℕ) (st : ThreadState) → Detached s p → Detached (set_state s p st) p
set_state-Detached s p st d = record { self = d.self; no_head = d.no_head }

switch_to-Switched :
    (s s' : Sched) (cpu prev next : ℕ) (xs : List ℕ)
    → Queued s' xs
    → s'.switches ≡ s.switches
    → Switched s (switch_to s' cpu (some prev) next) cpu prev next xs
unfolding switch_to
switch_to-Switched s s' cpu prev next xs q e = record {
  queue = record { linked = q.linked; apart = q.apart; distinct = q.distinct };
  now = ground arith;
  next_running = ground arith;
  traced = ap (λ l. (some prev, next) ∷ l) e;
}

pub switches-add_thread : (s : Sched) (p : ℕ) → (add_thread s (some p)).switches ≡ s.switches
unfolding add_thread
switches-add_thread s p = refl

nr_running-switch_to :
    (s : Sched) (cpu : ℕ) (prev : Option ℕ) (next : ℕ)
    → (switch_to s cpu prev next).nr_running ≡ s.nr_running
unfolding switch_to
nr_running-switch_to s cpu prev next = refl

state-switch_to :
    (s : Sched) (cpu : ℕ) (prev : Option ℕ) (next p : ℕ)
    → next ≢ p
    → ((switch_to s cpu prev next).threads p).state ≡ (s.threads p).state
unfolding switch_to
state-switch_to s cpu prev next p ne = ground arith

-- From the current thread, known by an equation.
schedule_from :
    (s s' : Sched) (cpu p next : ℕ)
    → s.current cpu ≡ some p
    → choose_next s cpu ≡ (some next, s')
    → p ≢ next
    → schedule s cpu ≡ switch_to (put_back s' (some p)) cpu (some p) next
schedule_from s s' cpu p next c e ne =
    schedule-switch s s' cpu next e (ap (λ o. same_thread o next) c ∙ ==-false p next ne)
    ∙ ap (λ o. switch_to (put_back s' o) cpu o next) c

-- With threads waiting and a runnable current thread that is not among them and whose node is linked
-- to itself and is not the queue's head: `schedule` switches to the first, marks it RUNNING on this CPU and the other READY, and leaves the count as it was; but
-- the queue afterwards holds the old thread alone, and the other waiting threads are lost to it.
pub schedule-runnable :
    (s : Sched) (cpu p x : ℕ) (xs : List ℕ)
    → Queued s (x ∷ xs)
    → s.current cpu ≡ some p
    → is_runnable (s.threads p).state ≡ true
    → Detached s p
    → Fresh p (x ∷ xs)
    → Switched s (schedule s cpu) cpu p x (p ∷ [])
      × ((schedule s cpu).nr_running ≡ s.nr_running)
      × (((schedule s cpu).threads p).state ≡ ready)
schedule-runnable s cpu p x xs q c runnable d f =
    let t = set_state (without s x) p ready in
    let run : schedule s cpu ≡ switch_to (add_thread t (some p)) cpu (some p) x =
      schedule_from s (without s x) cpu p x c (choose_next-cons s cpu x xs q) (λ e. f.0 (sym e))
      ∙ ap (λ r. switch_to r cpu (some p) x) (put_back-runnable (without s x) p runnable) in
    let (alone, counted, made_ready) =
      add_thread-Queued t p
        (set_state-Detached (without s x) p ready (without-Detached s x xs p q f d)) in
    subst
      (λ r.
        Switched s r cpu p x (p ∷ [])
        × (r.nr_running ≡ s.nr_running)
        × ((r.threads p).state ≡ ready))
      (sym run)
      (
        switch_to-Switched s (add_thread t (some p)) cpu p x (p ∷ []) alone
            (switches-add_thread t p),
        nr_running-switch_to (add_thread t (some p)) cpu (some p) x
            ∙ counted
            ∙ inc-dec s.nr_running,
        state-switch_to (add_thread t (some p)) cpu (some p) x p f.0 ∙ made_ready,
      )

-- With threads waiting and a current thread that is blocked or has ended: `schedule` switches to the
-- first, marks it RUNNING on this CPU, takes it from the queue and from the count, keeps the others
-- waiting in their order, and leaves the state of the old thread.
pub schedule-not_runnable :
    (s : Sched) (cpu p x : ℕ) (xs : List ℕ)
    → Queued s (x ∷ xs)
    → s.current cpu ≡ some p
    → is_runnable (s.threads p).state ≡ false
    → p ≢ x
    → Switched s (schedule s cpu) cpu p x xs
      × ((schedule s cpu).nr_running ≡ dec s.nr_running)
      × (((schedule s cpu).threads p).state ≡ (s.threads p).state)
schedule-not_runnable s cpu p x xs q c blocked ne =
    let run : schedule s cpu ≡ switch_to (without s x) cpu (some p) x =
      schedule_from s (without s x) cpu p x c (choose_next-cons s cpu x xs q) ne
      ∙ ap (λ r. switch_to r cpu (some p) x) (put_back-not_runnable (without s x) p blocked) in
    subst
      (λ r.
        Switched s r cpu p x xs
        × (r.nr_running ≡ dec s.nr_running)
        × ((r.threads p).state ≡ (s.threads p).state))
      (sym run)
      (
        switch_to-Switched s (without s x) cpu p x xs (without-Queued s x xs q) refl,
        nr_running-switch_to (without s x) cpu (some p) x,
        state-switch_to (without s x) cpu (some p) x p (λ e. ne (sym e)),
      )

-- With nobody waiting and a current thread that is runnable, detached and not the idle thread: the
-- idle thread of the CPU takes over and the old thread is queued, alone.
pub schedule-idle :
    (s : Sched) (cpu p i : ℕ)
    → Queued s []
    → s.current cpu ≡ some p
    → s.idle_threads cpu ≡ some i
    → is_runnable (s.threads p).state ≡ true
    → Detached s p
    → p ≢ i
    → Switched s (schedule s cpu) cpu p i (p ∷ [])
      × ((schedule s cpu).nr_running ≡ inc s.nr_running)
schedule-idle s cpu p i q c idle runnable d ne =
    let t = set_state s p ready in
    let run : schedule s cpu ≡ switch_to (add_thread t (some p)) cpu (some p) i =
      schedule_from s s cpu p i c (choose_next-nil s cpu q ∙ ap (λ o. (o, s)) idle) ne
      ∙ ap (λ r. switch_to r cpu (some p) i) (put_back-runnable s p runnable) in
    let (alone, counted, made_ready) = add_thread-Queued t p (set_state-Detached s p ready d) in
    subst (λ r. Switched s r cpu p i (p ∷ []) × (r.nr_running ≡ inc s.nr_running)) (sym run)
      (
        switch_to-Switched s (add_thread t (some p)) cpu p i (p ∷ []) alone
            (switches-add_thread t p),
        nr_running-switch_to (add_thread t (some p)) cpu (some p) i ∙ counted,
      )

-- With nobody waiting and the idle thread of the CPU current, `schedule` changes nothing.
pub schedule-stay :
    (s : Sched) (cpu i : ℕ)
    → Queued s []
    → s.current cpu ≡ some i
    → s.idle_threads cpu ≡ some i
    → schedule s cpu ≡ s
schedule-stay s cpu i q c idle =
    schedule-same s s cpu i (choose_next-nil s cpu q ∙ ap (λ o. (o, s)) idle)
      (ap (λ o. same_thread o i) c ∙ ==-refl i)
