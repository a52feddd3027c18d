-- ===== src/Process/Create.antt =====
-- What `process_create` of kernel/process.c does to the list of all processes and the PIDs.
use emergence_kernel.Process.Fork.{made, create-made}
use native.Mathlib.Decide.{dec_lt, ℕ_discrete}
use emergence_kernel.Vm.Clone.{occurrences-snoc}
use emergence_kernel.Prelude.Counts.{occurrences}
use emergence_kernel.Prelude.{
  ◌%◌, ◌-◌, ◌==◌, ◌+◌, ◌^◌, subst, refl, ==-false, sym, ◌≢◌, ◌⊎◌, Option, update, ◌∙◌, [], inr, inl,
  Bool-cases, false, Bool, negsuc, ==-refl, ap, ◌∷◌, arith, pos, true, ◌<◌, List, ◌≤◌, ℤ, ◌≡◌, ℕ,
}
use emergence_kernel.Process.{
  pid_value, is_negative, pid_max, new_process, same_int, Process, Kernel, create, alloc_pid,
  by_pid,
}

-- Each process is listed once, under a PID of its own that was given out.
pub record IsTable (k : Kernel) : Type 0 where
  pub not_null : occurrences 0 k.process_list ≡ 0
  pub once : (p : ℕ) → occurrences p k.process_list ≤ 1
  pub numbered :
      (p : ℕ)
      → 0 < occurrences p k.process_list
      → (n : ℕ) × ((k.processes p).pid ≡ pos n) × (n < k.next_pid)
  pub distinct :
      (p q : ℕ)
      → 0 < occurrences p k.process_list
      → 0 < occurrences q k.process_list
      → (k.processes p).pid ≡ (k.processes q).pid
      → p ≡ q

pub same_int_iff : (a b : ℤ) → same_int a b ≡ true → a ≡ b
same_int_iff (pos a) (pos b) e = ap pos (ground (arith, e))
same_int_iff (negsuc a) (negsuc b) e = ap negsuc (ground (arith, e))
same_int_iff (pos a) (negsuc b) e = cc e
same_int_iff (negsuc a) (pos b) e = cc e

pub same_int_refl : (a : ℤ) → same_int a a ≡ true
same_int_refl (pos a) = ==-refl a
same_int_refl (negsuc a) = ==-refl a

pub by_pid-listed :
    (processes : ℕ → Process) (xs : List ℕ) (p : ℕ)
    → 0 < occurrences p xs
    → ((q : ℕ) → 0 < occurrences q xs → (processes q).pid ≡ (processes p).pid → q ≡ p)
    → by_pid processes xs (processes p).pid ≡ p
unfolding by_pid occurrences
by_pid-listed processes [] p h only = absurd (omega (arith, h))
by_pid-listed processes (x ∷ xs) p h only =
    elim (Bool-cases (same_int (processes x).pid (processes p).pid)) [
      | inl same ↦
          rw same (only x (ground arith) (same_int_iff (processes x).pid (processes p).pid same))
      | inr other ↦ rw other (
          by_pid-listed processes xs p
            (elim (ℕ_discrete x p) [
              | yes e ↦ absurd (
                  clash (ap (λ (q : ℕ). same_int (processes q).pid (processes p).pid) e) other
                    (same_int_refl (processes p).pid))
              | no far ↦ ground (arith, far, h)
            ])
            (λ q w. only q (omega (arith, w))))
    ]
  where
    clash : {b c : Bool} → b ≡ c → b ≡ false → c ≡ true → ⊥
    clash e f g = cc (e, f, g)

pub IsTable-same :
    (k k' : Kernel)
    → k'.process_list ≡ k.process_list
    → k'.processes ≡ k.processes
    → k.next_pid ≤ k'.next_pid
    → IsTable k
    → IsTable k'
IsTable-same k k' e f h o = record {
  not_null = ap (occurrences 0) e ∙ o.not_null;
  once = λ p. omega (arith, ap (occurrences p) e, o.once p);
  numbered = λ p w.
      let (n, same, lt) = o.numbered p (omega (arith, ap (occurrences p) e, w)) in
      (n, ap (λ (g : ℕ → Process). (g p).pid) f ∙ same, omega (arith, lt, h));
  distinct = λ p q v w same.
      o.distinct p q (omega (arith, ap (occurrences p) e, v))
        (omega (arith, ap (occurrences q) e, w))
        (sym (ap (λ (g : ℕ → Process). (g p).pid) f)
          ∙ same
          ∙ ap (λ (g : ℕ → Process). (g q).pid) f);
}

-- The pids of the processes when p is a new one
pub new_pid :
    (f : ℕ → Process) (p q : ℕ) (new : Process)
    → ((q ≡ p) × (update f p new q ≡ new)) ⊎ ((q ≢ p) × (update f p new q ≡ f q))
new_pid f p q new = elim (ℕ_discrete q p) [
  | yes e ↦ inl (e, rw (e, ==-refl p) refl)
  | no h ↦ inr (h, rw (==-false p q (λ e. h (sym e))) refl)
]

pub pos-injective : {a b : ℕ} → pos a ≡ pos b → a ≡ b
pos-injective e = ap value e
  where
    value : ℤ → ℕ
    value (pos n) = n
    value (negsuc n) = n

-- A number that was not given out yet is no process's.
pub fresh_pid :
    (k : Kernel) (a : ℕ)
    → IsTable k
    → 0 < occurrences a k.process_list
    → (k.processes a).pid ≢ pos k.next_pid
fresh_pid k a o w e =
    let (n, old, lt) = o.numbered a w in absurd (omega (arith, lt, pos-injective (sym old ∙ e)))

pub made-IsTable :
    (k : Kernel) (name : Option (List ℕ)) (p : ℕ)
    → p ≢ 0
    → occurrences p k.process_list ≡ 0
    → k.next_pid < pid_max
    → IsTable k
    → IsTable (made k name p)
unfolding occurrences
made-IsTable k name p h free small o =
    let next : (k.next_pid + 1) % 2 ^ 32 ≡ k.next_pid + 1 = omega (arith, small) in
    let count = λ (a : ℕ). occurrences-snoc a p k.process_list in
    record {
      not_null = ground (arith, count 0, o.not_null, h);
      once = λ a. ground (arith, count a, o.once a, free);
      numbered = λ a w. elim (new_pid k.processes p a (new_process (pos k.next_pid) name)) [
        | inl (e, same) ↦ (k.next_pid, ap (λ (x : Process). x.pid) same, omega (arith, next))
        | inr (far, same) ↦
            let (n, old, lt) = o.numbered a (ground (arith, count a, far, w)) in
            (n, ap (λ (x : Process). x.pid) same ∙ old, omega (arith, lt, next))
      ];
      distinct = λ a b v w same.
          elim (new_pid k.processes p a (new_process (pos k.next_pid) name)) [
            | inl (e, at_a) ↦ elim (new_pid k.processes p b (new_process (pos k.next_pid) name)) [
              | inl (f, at_b) ↦ e ∙ sym f
              | inr (far, at_b) ↦ absurd (
                  fresh_pid k b o (ground (arith, count b, far, w)) (
                    sym (ap (λ (x : Process). x.pid) at_b)
                    ∙ sym same
                    ∙ ap (λ (x : Process). x.pid) at_a))
            ]
            | inr (near, at_a) ↦
                elim (new_pid k.processes p b (new_process (pos k.next_pid) name)) [
                  | inl (f, at_b) ↦ absurd (
                      fresh_pid k a o (ground (arith, count a, near, v)) (
                        sym (ap (λ (x : Process). x.pid) at_a)
                        ∙ same
                        ∙ ap (λ (x : Process). x.pid) at_b))
                  | inr (far, at_b) ↦
                      o.distinct a b (ground (arith, count a, near, v))
                        (ground (arith, count b, far, w))
                        (sym (ap (λ (x : Process). x.pid) at_a)
                          ∙ same
                          ∙ ap (λ (x : Process). x.pid) at_b)
                ]
          ];
    }

pub create-null : (k : Kernel) (name : Option (List ℕ)) → IsTable k → IsTable (create k name 0).1
unfolding create
create-null k name o = o

-- No PID is given out from PID_MAX on.
full : (n : ℕ) → ¬ (n < pid_max) → n < 2 ^ 32 → is_negative (pid_value n) ≡ true
full n large word = ground (arith, large, word)

pub create-no_pid :
    (k : Kernel) (name : Option (List ℕ)) (p : ℕ)
    → p ≢ 0
    → ¬ (k.next_pid < pid_max)
    → k.next_pid < 2 ^ 32 - 1
    → IsTable k
    → IsTable (create k name p).1
unfolding create alloc_pid
create-no_pid k name p h large word o =
    rw (==-false p 0 h, full k.next_pid large (omega (arith, word)))
      (IsTable-same k _ refl refl (omega (arith, word)) o)

-- A creation gives out at most one PID.
pub create-next_pid :
    (k : Kernel) (name : Option (List ℕ)) (p : ℕ) → (create k name p).1.next_pid ≤ k.next_pid + 1
unfolding create alloc_pid
create-next_pid k name p = elim (Bool-cases (p == 0)) [
  | inl null ↦ rw null (omega arith)
  | inr given ↦ elim (Bool-cases (is_negative (pid_value k.next_pid))) [
    | inl refused ↦ rw (given, refused) (omega arith)
    | inr numbered ↦ rw (given, numbered) (omega arith)
  ]
]

-- `process_create` keeps the table while `next_pid` does not wrap around: it lists a new process, or it
-- returns NULL.
pub create-IsTable :
    (k : Kernel) (name : Option (List ℕ)) (p : ℕ)
    → occurrences p k.process_list ≡ 0
    → k.next_pid < 2 ^ 32 - 1
    → IsTable k
    → IsTable (create k name p).1
create-IsTable k name p free word o = elim (ℕ_discrete p 0) [
  | yes null ↦ subst (λ (x : ℕ). IsTable (create k name x).1) (sym null) (create-null k name o)
  | no h ↦ elim (dec_lt k.next_pid pid_max) [
    | yes small ↦
        subst (λ (r : ℕ × Kernel). IsTable r.1) (sym (create-made k name p h small))
          (made-IsTable k name p h free small o)
    | no large ↦ create-no_pid k name p h large word o
  ]
]
