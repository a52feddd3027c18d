-- ===== src/Process/Fork.antt =====
-- `process_fork` of kernel/process.c when the child gets no thread.
use emergence_kernel.Vm.Clone.{occurrences-snoc}
use emergence_kernel.Vm.Release.{occurrences-erase}
use emergence_kernel.Slab.{erase}
use emergence_kernel.Prelude.Counts.{occurrences}
use emergence_kernel.Prelude.{
  ◌^◌, ◌%◌, ==-refl, sym, subst, some, ◌∙◌, arith, refl, ==-false, if◌then◌else◌, [], ◌∷◌, ◌++◌,
  pos, update, ◌+◌, List, ◌<◌, ◌≢◌, Option, ◌≡◌, ℕ,
}
use emergence_kernel.Process.{
  pid_value, created, set_process, Vm, is_negative, new_process, hold, pid_max, Answers, Kernel,
  fork, fork_cloned, fork_created, create, alloc_pid,
}
use emergence_kernel.Vm

-- The child of a failed fork: its structure is free, yet it stands in the list of all processes and among
-- its parent's children.
pub record IsDangling (k : Kernel) (parent child : ℕ) (r : ℕ × Kernel) : Type 0 where
  pub failed : r.0 ≡ 0
  pub freed : (a : ℕ) → occurrences a r.1.live ≡ occurrences a k.live
  pub listed : 0 < occurrences child r.1.process_list
  pub adopted : 0 < occurrences child (r.1.processes parent).children

pub create-made :
    (k : Kernel) (name : Option (List ℕ)) (p : ℕ)
    → p ≢ 0
    → k.next_pid < pid_max
    → create k name p ≡ (
      p,
      record k {
        next_pid = (k.next_pid + 1) % 2 ^ 32;
        live = hold p k.live;
        processes = update k.processes p (new_process (pos k.next_pid) name);
        process_list = k.process_list ++ (p ∷ []);
      },
    )
unfolding create alloc_pid
create-made k name p h small =
    let number : pid_value k.next_pid ≡ pos k.next_pid = ground (arith, small) in
    λ i.
      if ==-false p 0 h i
      then (0, k)
      else if is_negative (number i)
      then (0, record k { next_pid = (k.next_pid + 1) % 2 ^ 32; live = erase p (hold p k.live) })
      else (
        p,
        record k {
          next_pid = (k.next_pid + 1) % 2 ^ 32;
          live = hold p k.live;
          processes = update k.processes p (new_process (number i) name);
          process_list = k.process_list ++ (p ∷ []);
        },
      )

-- After the child's structure was made
abbrev pub made : Kernel → Option (List ℕ) → ℕ → Kernel
made k name p = record k {
  next_pid = (k.next_pid + 1) % 2 ^ 32;
  live = hold p k.live;
  processes = update k.processes p (new_process (pos k.next_pid) name);
  process_list = k.process_list ++ (p ∷ []);
}

fork_created-IsDangling :
    (k : Kernel) (name : Option (List ℕ)) (parent space p : ℕ)
    → p ≢ 0
    → IsDangling k parent p (fork_created parent space 0 (p, made k name p))
unfolding fork_created occurrences
fork_created-IsDangling k name parent space p h = rw (==-false p 0 h) (record {
  failed = refl;
  freed = λ a. occurrences-erase p a (p ∷ k.live) ∙ omega arith;
  listed = ground (arith, occurrences-snoc p p k.process_list);
  adopted = rw (==-refl parent) (
      ground (
        arith,
        occurrences-snoc p p
            ((set_process (made k name p) p (record ((made k name p).processes p) {
              parent = parent;
              ppid = ((made k name p).processes parent).pid;
              vm = space;
              state = created;
            })).processes
              parent).children,
      ));
})

fork_cloned-IsDangling :
    (k : Kernel) (parent : ℕ) (answers : Answers) (r : ℕ × Vm)
    → r.0 ≢ 0
    → answers.process ≢ 0
    → k.next_pid < pid_max
    → answers.thread ≡ 0
    → IsDangling k parent answers.process (fork_cloned k parent answers r)
unfolding fork_cloned
fork_cloned-IsDangling k parent answers (space, vm) h p small no_thread =
    let d =
      fork_created-IsDangling (record k { vm = vm }) (some (k.processes parent).name) parent space
        answers.process p in
    let all : IsDangling k parent answers.process (
        fork_created parent space 0 (
          answers.process,
          made (record k { vm = vm }) (some (k.processes parent).name) answers.process,
        )) =
      record { failed = d.failed; freed = d.freed; listed = d.listed; adopted = d.adopted } in
    rw (==-false space 0 h) (
      subst
        (λ (t : ℕ). IsDangling k parent answers.process (
          fork_created parent space t
            (create (record k { vm = vm }) (some (k.processes parent).name) answers.process)))
        (sym no_thread)
        (subst
          (λ (x : ℕ × Kernel). IsDangling k parent answers.process (fork_created parent space 0 x))
          (sym (
            create-made (record k { vm = vm }) (some (k.processes parent).name) answers.process p
              small))
          all))

-- `process_fork` whose address space is cloned and whose child gets a structure and a PID, but no thread:
-- it returns NULL and frees the child's structure, which stays in the list of all processes and among
-- the children of its parent.
pub fork-IsDangling :
    (master : ℕ → ℕ) (k : Kernel) (parent : ℕ) (answers : Answers)
    → (Vm.clone master k.vm (k.processes parent).vm answers.space answers.page answers.regions).0
      ≢ 0
    → answers.process ≢ 0
    → k.next_pid < pid_max
    → answers.thread ≡ 0
    → IsDangling k parent answers.process (fork master k parent answers)
unfolding fork
fork-IsDangling master k parent answers cloned given small no_thread =
    fork_cloned-IsDangling k parent answers
      (Vm.clone master k.vm (k.processes parent).vm answers.space answers.page answers.regions)
      cloned given small no_thread
