-- ===== src/Process/Table.antt =====
-- The list of all processes of kernel/process.c and the PIDs.
use emergence_kernel.Process.Create.{create-next_pid, IsTable, by_pid-listed, create-IsTable}
use emergence_kernel.Process.Wait.{reap-listed}
use emergence_kernel.Slab.Erase.{erase-le}
use emergence_kernel.Prelude.Counts.{occurrences}
use emergence_kernel.Prelude.{
  ◌-◌, suc, ◌+◌, ◌^◌, ◌==◌, refl, ==-false, sym, ◌≢◌, Option, ◌∙◌, [], inr, inl, Bool-cases, ap,
  arith, ◌<◌, List, ◌≤◌, ◌≡◌, ℕ,
}
use emergence_kernel.Process.{Kernel, create, get_by_pid, reap}

-- Processes leave the list, and no PID changes.
IsTable-fewer :
    (k k' : Kernel)
    → ((a : ℕ) → occurrences a k'.process_list ≤ occurrences a k.process_list)
    → ((a : ℕ) → (k'.processes a).pid ≡ (k.processes a).pid)
    → k'.next_pid ≡ k.next_pid
    → IsTable k
    → IsTable k'
IsTable-fewer k k' fewer pids next o = record {
  not_null = omega (arith, fewer 0, o.not_null);
  once = λ a. omega (arith, fewer a, o.once a);
  numbered = λ a w.
      let (n, old, lt) = o.numbered a (omega (arith, fewer a, w)) in
      (n, pids a ∙ old, omega (arith, lt, next));
  distinct = λ a b v w same.
      o.distinct a b (omega (arith, fewer a, v)) (omega (arith, fewer b, w))
        (sym (pids a) ∙ same ∙ pids b);
}

module _ (k : Kernel) (p : ℕ) (h : p ≢ 0) where
  reap-pid : (q : ℕ) → ((reap k p).processes q).pid ≡ (k.processes q).pid
  unfolding reap
  reap-pid q = rw (==-false p 0 h) (elim (Bool-cases ((k.processes p).vm == 0)) [
    | inl no_space ↦ rw no_space refl
    | inr space ↦ rw space (elim (Bool-cases (p == q)) [
      | inl same ↦ rw same (ap (λ (x : ℕ). (k.processes x).pid) (ground (arith, same)))
      | inr differs ↦ rw differs refl
    ])
  ])

  reap-next_pid : (reap k p).next_pid ≡ k.next_pid
  unfolding reap
  reap-next_pid = rw (==-false p 0 h) (elim (Bool-cases ((k.processes p).vm == 0)) [
    | inl no_space ↦ rw no_space refl
    | inr space ↦ rw space refl
  ])

-- `process_reap` takes a process off the list, if it is in it, and changes no PID.
reap-IsTable : (k : Kernel) (p : ℕ) → p ≢ 0 → IsTable k → IsTable (reap k p)
reap-IsTable k p h o =
    IsTable-fewer k (reap k p)
      (λ a. omega (arith, ap (occurrences a) (reap-listed k p h), erase-le p a k.process_list))
      (reap-pid k p h) (reap-next_pid k p h) o

-- From an empty table, with `next_pid` as it is at the start, processes are created with structures that
-- no listed process has, and reaped. The number counts the creations, also those that fail.
pub data Reachable : ℕ → Kernel → Type 0 where
  empty : (k : Kernel) → k.process_list ≡ [] → k.next_pid ≡ 1 → Reachable 0 k
  made_one :
      (n : ℕ) (k : Kernel) (name : Option (List ℕ)) (p : ℕ)
      → Reachable n k
      → occurrences p k.process_list ≡ 0
      → Reachable (suc n) (create k name p).1
  reaped : (n : ℕ) (k : Kernel) (p : ℕ) → Reachable n k → p ≢ 0 → Reachable n (reap k p)

empty-IsTable : (k : Kernel) → k.process_list ≡ [] → IsTable k
unfolding occurrences
empty-IsTable k e = record {
  not_null = ap (occurrences 0) e;
  once = λ a. omega (arith, ap (occurrences a) e);
  numbered = λ a w. absurd (omega (arith, ap (occurrences a) e, w));
  distinct = λ a b v w same. absurd (omega (arith, ap (occurrences a) e, v));
}

Reachable-next_pid : {n : ℕ} {k : Kernel} → Reachable n k → k.next_pid ≤ n + 1
Reachable-next_pid (empty k e next) = omega (arith, next)
Reachable-next_pid (made_one n k name p r free) =
    omega (arith, create-next_pid k name p, Reachable-next_pid r)
Reachable-next_pid (reaped n k p r h) = omega (arith, reap-next_pid k p h, Reachable-next_pid r)

pub Reachable-IsTable : {n : ℕ} {k : Kernel} → Reachable n k → n < 2 ^ 31 - 1 → IsTable k
Reachable-IsTable (empty k e next) few = empty-IsTable k e
Reachable-IsTable (made_one n k name p r free) few =
    create-IsTable k name p free (omega (arith, Reachable-next_pid r, few))
      (Reachable-IsTable r (omega (arith, few)))
Reachable-IsTable (reaped n k p r h) few = reap-IsTable k p h (Reachable-IsTable r few)

-- After any reaping and fewer than 2^31 - 1 creations of processes, which `next_pid` as an `int` counts
-- without overflow, each listed process is the one that `process_get_by_pid` gives for its PID: no two
-- have the same PID.
pub get_by_pid-listed :
    {n : ℕ} {k : Kernel}
    → Reachable n k
    → n < 2 ^ 31 - 1
    → (p : ℕ) → 0 < occurrences p k.process_list
    → get_by_pid k (k.processes p).pid ≡ p
unfolding get_by_pid
get_by_pid-listed {n} {k} r few p h =
    let o = Reachable-IsTable r few in
    by_pid-listed k.processes k.process_list p h (λ q w same. o.distinct q p w h same)
