-- ===== src/Process/Tests.antt =====
-- Tests and examples of the processes of kernel/process.c.
use emergence_kernel.Process.Table.{empty, made_one, Reachable, get_by_pid-listed}
use emergence_kernel.Process.Fork.{fork-IsDangling, IsDangling}
use emergence_kernel.Process.{
  init, add_thread, start_child, zombie, first_awaited, fork_created, wake_parent, alloc_pid,
  fork_cloned, new_process, remove_thread, set_process, wait_found, Answers, Kernel, exit, fork,
  get_by_pid, wait,
}
use emergence_kernel.Vm.{Vm}
use emergence_kernel.Process.{create}
use emergence_kernel.Slab.Steps.{empty_cache}
use emergence_kernel.Slab.{cache_create}
use emergence_kernel.Prelude.Counts.{occurrences}
use emergence_kernel.Vm
use emergence_kernel.Prelude.{
  ◌-◌, ◌^◌, some, false, ◌<◌, ◌∷◌, [], arith, minus_one, none, pos, refl, update, ◌≡◌, ◌≢◌,
}

abbrev no_vm : Vm
no_vm = record {
  spaces = λ i. Vm.new_space 0x5000;
  regions = λ i. Vm.new_region 0 0 0 0 0 none;
  tables = λ page i. 0;
  live_spaces = 0x1000 ∷ [];
  live_regions = [];
  live_pages = 0x5000 ∷ [];
}

abbrev no_processes : Kernel
no_processes = record {
  processes = λ p. new_process (pos 0) none;
  threads = λ t. record { process = 0; space = 0; is_ready = false };
  process_list = [];
  next_pid = 1;
  live = [];
  vm = no_vm;
  queued = [];
}

abbrev one_process : Kernel
one_process = (create no_processes none 0x2038).1

first_pid : (one_process.processes 0x2038).pid ≡ pos 1
unfolding create alloc_pid
first_pid = refl

-- After the `int` overflows, PIDs are given out again.
again : (alloc_pid (alloc_pid (record no_processes { next_pid = 2 ^ 32 - 1 })).1).0 ≡ pos 0
unfolding alloc_pid
again = refl

one-Reachable : Reachable 1 one_process
unfolding occurrences
one-Reachable = made_one 0 no_processes none 0x2038 (empty no_processes refl refl) refl

one_listed : 0 < occurrences 0x2038 one_process.process_list
unfolding occurrences create alloc_pid
one_listed = omega arith

get_by_pid-listed_example : get_by_pid one_process (one_process.processes 0x2038).pid ≡ 0x2038
get_by_pid-listed_example = get_by_pid-listed one-Reachable (omega arith) 0x2038 one_listed

-- The parent 0x2038 has the exited child 0x3038.
abbrev with_child : Kernel
with_child = record no_processes {
  processes =
      update
        (update no_processes.processes 0x2038
          (record (new_process (pos 1) none) { children = 0x3038 ∷ [] }))
        0x3038 (record (new_process (pos 2) none) { state = zombie; exit_status = pos 7 });
  process_list = 0x2038 ∷ 0x3038 ∷ [];
}

wait_status : (wait with_child 0x2038 minus_one).1 ≡ some (pos 7)
unfolding wait wait_found first_awaited
wait_status = refl

wait_other : (wait with_child 0x2038 (pos 5)).0 ≡ minus_one
unfolding wait wait_found first_awaited
wait_other = refl

-- The last thread of the child ends, and the waiting parent's thread 9 is queued.
last_thread :
    (remove_thread
      (record with_child {
        processes =
            update
              (update with_child.processes 0x2038
                (record (new_process (pos 1) none) { waiter = 9 }))
              0x3038
              (record (new_process (pos 2) none) {
                parent = 0x2038;
                thread_count = pos 1;
                main_thread = 5;
              });
      })
      0x3038
      5).queued
    ≡ 9 ∷ []
unfolding remove_thread wake_parent
last_thread = refl

exit_code : ((exit with_child 0x2038 (pos 3)).processes 0x2038).exit_status ≡ pos 3
unfolding exit
exit_code = refl

-- The clone's structure and table, the child's structure, and no thread
abbrev answers : Answers
answers = record { space = 0x1040; page = 0x6000; regions = []; process = 0x4038; thread = 0 }

parent_space : Kernel
parent_space = set_process with_child 0x2038 (record (with_child.processes 0x2038) { vm = 0x1000 })

cloned :
    (Vm.clone
      (λ i. 0)
      parent_space.vm
      (parent_space.processes 0x2038).vm
      answers.space
      answers.page
      answers.regions).0
    ≢ 0
unfolding parent_space Vm.clone Vm.clone_created Vm.create Vm.clone_regions
cloned e = omega (arith, e)

fork-IsDangling_example :
    IsDangling parent_space 0x2038 0x4038 (fork (λ i. 0) parent_space 0x2038 answers)
unfolding parent_space
fork-IsDangling_example =
    fork-IsDangling (λ i. 0) parent_space 0x2038 answers cloned (λ e. omega (arith, e))
      (omega arith) refl

-- With a thread the child runs.
fork_runs : (fork (λ i. 0) parent_space 0x2038 (record answers { thread = 6 })).0 ≡ 0x4038
unfolding parent_space fork fork_cloned fork_created start_child add_thread create alloc_pid
    Vm.clone Vm.clone_created Vm.create Vm.clone_regions
fork_runs = refl

-- The first process is 1, and the next PID is 2.
init_pid : (init (empty_cache 32) no_processes 0x2038).1.next_pid ≡ 2
unfolding init create alloc_pid cache_create
init_pid = refl
