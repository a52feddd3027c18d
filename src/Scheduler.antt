-- ===== src/Scheduler.antt =====
-- kernel/scheduler.c, and the parts of kernel/thread.c that schedule: the FIFO run queue, the
-- context switch, the timer tick, yield and exit. The run queue's links are the heap of
-- kernel/list.h; a thread and its `run_list`, the first field of `struct thread`, have one address.
-- The lock is released before a function returns, so each function is one step on the state.
pub mod Queue
pub mod Switch
pub mod Yield
mod Tests
use emergence_kernel.Prelude.{
  ℕ, zero, suc, ◌+◌, ◌-◌, ◌%◌, ◌≡◌, Bool, true, false, not, ◌&&◌, Option, none, some, List, [], ◌∷◌,
  ltb, leb, ◌==◌, if◌then◌else◌, update, add_u64, u64_mod, ℤ, pos, negsuc,
}
use emergence_kernel.ListHead
use emergence_kernel.ListHead.{Links}

-- `thread_state_t`
pub data ThreadState : Type 0 where
  created ready running blocked terminated : ThreadState

-- The fields of `struct thread` that scheduling reads or writes.
pub record Thread : Type 0 where
  pub state : ThreadState
  pub cpu : ℤ

-- The address of `runqueue.thread_list`, of the list of all threads, and of `all_list` in a thread.
abbrev pub rq_head : ℕ
rq_head = 8

abbrev pub all_threads_head : ℕ
all_threads_head = 24

abbrev pub all_list : ℕ → ℕ
all_list t = t + 16

-- SMP_MAX_CPUS and SCHEDULER_TICK_INTERVAL
abbrev pub max_cpus : ℕ
max_cpus = 4

abbrev pub tick_interval : ℕ
tick_interval = 5

-- The run queue, the threads by address, the current thread of each CPU, and the statistics.
-- `switches` records the calls of `context_switch`, the latest first.
pub record Sched : Type 0 where
  pub links : Links
  pub threads : ℕ → Thread
  pub nr_running : ℤ
  pub idle_threads : ℕ → Option ℕ
  pub current : ℕ → Option ℕ
  pub ticks : ℕ
  pub nr_active : ℕ
  pub switches : List (Option ℕ × ℕ)

-- `n++` and `n--` on an `int`
abbrev pub inc : ℤ → ℤ
inc (pos n) = pos (suc n)
inc (negsuc zero) = pos 0
inc (negsuc (suc n)) = negsuc n

abbrev pub dec : ℤ → ℤ
dec (pos zero) = negsuc 0
dec (pos (suc n)) = pos n
dec (negsuc n) = negsuc (suc n)

abbrev pub set_state : Sched → ℕ → ThreadState → Sched
set_state s t st = record s { threads = update s.threads t (record (s.threads t) { state = st }) }

abbrev pub set_current : Sched → ℕ → ℕ → Sched
set_current s cpu t = record s { current = update s.current cpu (some t) }

-- `list_push_back(&t->run_list, &runqueue.thread_list)`: the thread's node stands in the place of
-- the head, and the queue in the place of the node.
enqueue : Sched → ℕ → Sched
enqueue s t = record s {
  links = ListHead.push_back s.links t rq_head;
  nr_running = inc s.nr_running;
}

-- A thread that is READY already is not written; the write would change nothing.
pub add_thread : Sched → Option ℕ → Sched
unfolding enqueue
add_thread s none = s
add_thread s (some t) = enqueue (set_state s t ready) t

pub remove_thread : Sched → Option ℕ → Sched
remove_thread s none = s
remove_thread s (some t) = record s {
  links = ListHead.remove s.links t;
  nr_running = dec s.nr_running;
}

pub pick_next : Sched → Option ℕ × Sched
pick_next s =
    if ListHead.empty s.links rq_head
    then (none, s)
    else let (node, links) = ListHead.pop_front s.links rq_head in
      (node, record s { links = links; nr_running = dec s.nr_running })

pub get_idle_thread : Sched → ℤ → Option ℕ
get_idle_thread s (negsuc n) = none
get_idle_thread s (pos cpu) = if leb max_cpus cpu then none else s.idle_threads cpu

-- `next = pick_next_thread()`, or the idle thread of the CPU.
pub or_idle : ℕ → Option ℕ × Sched → Option ℕ × Sched
or_idle cpu (none, s) = (s.idle_threads cpu, s)
or_idle cpu (some t, s) = (some t, s)

pub choose_next : Sched → ℕ → Option ℕ × Sched
unfolding or_idle
choose_next s cpu = or_idle cpu (pick_next s)

-- `prev->state != THREAD_TERMINATED && prev->state != THREAD_BLOCKED`
abbrev pub is_runnable : ThreadState → Bool
is_runnable blocked = false
is_runnable terminated = false
is_runnable _ = true

pub put_back : Sched → Option ℕ → Sched
put_back s none = s
put_back s (some p) =
    if is_runnable (s.threads p).state then add_thread (set_state s p ready) (some p) else s

-- The end of `schedule`: the state of `next`, the current thread, and the context switch.
pub switch_to : Sched → ℕ → Option ℕ → ℕ → Sched
switch_to s cpu prev next =
    let threads' = update s.threads next (record { state = running; cpu = pos cpu }) in
    record (set_current (record s { threads = threads' }) cpu next) {
      switches = (prev, next) ∷ s.switches;
    }

abbrev pub same_thread : Option ℕ → ℕ → Bool
same_thread none next = false
same_thread (some p) next = p == next

-- The rest of `schedule`, once a thread is chosen.
pub run_chosen : ℕ → Option ℕ → Option ℕ × Sched → Sched
run_chosen cpu prev (none, s) = s
run_chosen cpu prev (some next, s) =
    if same_thread prev next then s else switch_to (put_back s prev) cpu prev next

pub schedule : Sched → ℕ → Sched
unfolding run_chosen
schedule s cpu = run_chosen cpu (s.current cpu) (choose_next s cpu)

pub tick : Sched → ℕ → Sched
tick s cpu =
    let s' = record s { ticks = add_u64 s.ticks 1 } in
    if s'.ticks % tick_interval == 0 then schedule s' cpu else s'

-- thread_yield and thread_exit of kernel/thread.c, with the current thread. `thread_exit` is taken
-- up to the return of `schedule`, and does not go on with no current thread. `nr_active_threads` is
-- a `uint64_t`, and nothing increments it.
pub yield_from : Sched → ℕ → Option ℕ → Sched
yield_from s cpu none = s
yield_from s cpu (some t) = schedule (add_thread (set_state s t ready) (some t)) cpu

pub thread_yield : Sched → ℕ → Sched
unfolding yield_from
thread_yield s cpu = yield_from s cpu (s.current cpu)

pub exit_from : Sched → ℕ → Option ℕ → Option Sched
exit_from s cpu none = none
exit_from s cpu (some t) =
    let s1 = set_state s t terminated in
    some (
      schedule
        (record s1 {
          links = ListHead.remove s1.links (all_list t);
          nr_active = (s1.nr_active + u64_mod - 1) % u64_mod;
        })
        cpu)

pub thread_exit : Sched → ℕ → Option Sched
unfolding exit_from
thread_exit s cpu = exit_from s cpu (s.current cpu)
