-- ===== src/Spinlock/Progress.antt =====
-- Progress of the spin lock of arch/x86_64/spinlock_arch.h.
use native.Mathlib.Decide.{ℕ_discrete}
use emergence_kernel.Spinlock.Safety.{Reach-IsLock}
use emergence_kernel.Prelude.{
  ◌∙◌, [], Bool, List, ◌∷◌, false, inl, sym, ap, subst, refl, ==-false, ==-refl, inr, true, update,
  ◌≡◌, ◌≢◌, ◌⊎◌, ℕ,
}
use emergence_kernel.Spinlock.{
  leave, trylock_busy, trylock_taken, relax, failed, lock_irq, lock_irqsave, lock, unlock,
  exchanged, seen_free, Move, waits, Reach, Cpu, Irq, holds, System, idle, trying, spinning,
  holding, released, Pc,
}

-- A step of processor i
pub data StepOf (i : ℕ) (s : System) : System → Type 0 where
  by :
      (locked : ℕ) (cpu : Cpu)
      → Move s.locked (s.cpus i) locked cpu
      → StepOf i s (record { locked = locked; cpus = update s.cpus i cpu })

abbrev pub Holds : ℕ → System → Type 0
Holds i s = holds (s.cpus i).pc ≡ true

abbrev pub is_trying : Pc → Bool
is_trying (trying mode) = true
is_trying other = false

abbrev pub is_spinning : Pc → Bool
is_spinning (spinning mode) = true
is_spinning other = false

-- The step is a weak compare-exchange that fails although the lock is free.
abbrev pub IsSpurious : ℕ → System → System → Type 0
IsSpurious i s t =
    (s.locked ≡ 0) × (is_trying (s.cpus i).pc ≡ true) × (is_spinning (t.cpus i).pc ≡ true)

-- Steps of the listed processors, in that order, lead to a state with the property, which may come
-- before the last of them: each can be made, and each way to make it leads there, other than a
-- compare-exchange that fails at a free lock.
abbrev pub Leads : List ℕ → System → (System → Type 0) → Type 0
Leads [] s P = P s
Leads (i ∷ is) s P =
    P s
    ⊎ (((t : System) × StepOf i s t × Leads is t P)
        × ((t : System) → StepOf i s t → IsSpurious i s t ⊎ Leads is t P))

abbrev pub move_to : System → ℕ → ℕ → Cpu → System
move_to s i locked cpu = record { locked = locked; cpus = update s.cpus i cpu }

moved : (s : System) (i locked : ℕ) (cpu : Cpu) → (move_to s i locked cpu).cpus i ≡ cpu
moved s i locked cpu = rw (==-refl i) refl

moved_other :
    (s : System) (i j locked : ℕ) (cpu : Cpu) → i ≢ j → (move_to s i locked cpu).cpus j ≡ s.cpus j
moved_other s i j locked cpu h = rw (==-false i j h) refl

move_of :
    (s : System) (i locked : ℕ) (c cpu : Cpu)
    → s.cpus i ≡ c
    → Move s.locked c locked cpu
    → StepOf i s (move_to s i locked cpu)
move_of s i locked c cpu e m =
    by locked cpu (subst (λ (x : Cpu). Move s.locked x locked cpu) (sym e) m)

-- What a compare-exchange leads to
trying_next :
    {l l' : ℕ} {c c' : Cpu}
    → Move l c l' c'
    → is_trying c.pc ≡ true
    → (holds c'.pc ≡ true) ⊎ (is_spinning c'.pc ≡ true)
trying_next (lock s) w = cc w
trying_next (lock_irqsave s) w = cc w
trying_next (lock_irq s) w = cc w
trying_next (exchanged mode s f) w = inl refl
trying_next (failed mode s) w = inr refl
trying_next (relax mode s f) w = cc w
trying_next (seen_free mode s f) w = cc w
trying_next (trylock_taken s f) w = cc w
trying_next (trylock_busy s f) w = cc w
trying_next (unlock mode s) w = cc w
trying_next (leave mode s) w = cc w

-- What the inner loop leads to when the lock is free
spinning_next :
    {l l' : ℕ} {c c' : Cpu}
    → Move l c l' c'
    → is_spinning c.pc ≡ true
    → l ≡ 0
    → (is_trying c'.pc ≡ true) × (l' ≡ 0)
spinning_next (lock s) w f = cc w
spinning_next (lock_irqsave s) w f = cc w
spinning_next (lock_irq s) w f = cc w
spinning_next (exchanged mode s g) w f = cc w
spinning_next (failed mode s) w f = cc w
spinning_next (relax mode s g) w f = absurd (g f)
spinning_next (seen_free mode s g) w f = (refl, f)
spinning_next (trylock_taken s g) w f = cc w
spinning_next (trylock_busy s g) w f = cc w
spinning_next (unlock mode s) w f = cc w
spinning_next (leave mode s) w f = cc w

-- The next step of a holder gives the lock back.
holding_next : {l l' : ℕ} {c c' : Cpu} → Move l c l' c' → holds c.pc ≡ true → l' ≡ 0
holding_next (lock s) w = cc w
holding_next (lock_irqsave s) w = cc w
holding_next (lock_irq s) w = cc w
holding_next (exchanged mode s f) w = cc w
holding_next (failed mode s) w = cc w
holding_next (relax mode s f) w = cc w
holding_next (seen_free mode s f) w = cc w
holding_next (trylock_taken s f) w = cc w
holding_next (trylock_busy s f) w = cc w
holding_next (unlock mode s) w = refl
holding_next (leave mode s) w = cc w

-- A processor before its compare-exchange takes a free lock by its next step.
take_free :
    (s : System) (i : ℕ)
    → is_trying (s.cpus i).pc ≡ true
    → s.locked ≡ 0
    → Leads (i ∷ []) s (Holds i)
take_free s i w f = inr (can (s.cpus i).pc (s.cpus i).interrupts refl w, must)
  where
    can :
        (pc : Pc) (interrupts : Irq)
        → s.cpus i ≡ record { pc = pc; interrupts = interrupts }
        → is_trying pc ≡ true
        → (t : System) × StepOf i s t × Holds i t
    can (trying mode) interrupts e w = (
      move_to s i 1 (record { pc = holding mode; interrupts = interrupts }),
      move_of s i 1 _ _ e (exchanged mode interrupts f),
      ap (λ (c : Cpu). holds c.pc) (moved s i 1 _),
    )
    can idle interrupts e w = cc w
    can (spinning mode) interrupts e w = cc w
    can (holding mode) interrupts e w = cc w
    can (released mode) interrupts e w = cc w

    must : (t : System) → StepOf i s t → IsSpurious i s t ⊎ Holds i t
    must t (by locked cpu m) = elim (trying_next m w) [
      | inl held ↦ inr (ap (λ (c : Cpu). holds c.pc) (moved s i locked cpu) ∙ held)
      | inr spins ↦ inl (f, w, ap (λ (c : Cpu). is_spinning c.pc) (moved s i locked cpu) ∙ spins)
    ]

-- A processor in the inner loop takes a free lock by its next two steps.
leave_loop :
    (s : System) (i : ℕ)
    → is_spinning (s.cpus i).pc ≡ true
    → s.locked ≡ 0
    → Leads (i ∷ i ∷ []) s (Holds i)
leave_loop s i w f = inr (can (s.cpus i).pc (s.cpus i).interrupts refl w, must)
  where
    after :
        (locked : ℕ) (cpu : Cpu)
        → Move s.locked (s.cpus i) locked cpu
        → Leads (i ∷ []) (move_to s i locked cpu) (Holds i)
    after locked cpu m =
        let (tries, free) = spinning_next m w f in
        take_free (move_to s i locked cpu) i
          (ap (λ (c : Cpu). is_trying c.pc) (moved s i locked cpu) ∙ tries) free

    can :
        (pc : Pc) (interrupts : Irq)
        → s.cpus i ≡ record { pc = pc; interrupts = interrupts }
        → is_spinning pc ≡ true
        → (t : System) × StepOf i s t × Leads (i ∷ []) t (Holds i)
    can (spinning mode) interrupts e w =
        let m =
          subst
            (λ (x : Cpu).
              Move s.locked x s.locked (record { pc = trying mode; interrupts = interrupts }))
            (sym e) (seen_free mode interrupts f) in
        (_, by s.locked _ m, after s.locked _ m)
    can idle interrupts e w = cc w
    can (trying mode) interrupts e w = cc w
    can (holding mode) interrupts e w = cc w
    can (released mode) interrupts e w = cc w

    must : (t : System) → StepOf i s t → IsSpurious i s t ⊎ Leads (i ∷ []) t (Holds i)
    must t (by locked cpu m) = inr (after locked cpu m)

-- One step more is no harm: the property may come before the last step.
longer : (s : System) (i : ℕ) → Leads (i ∷ []) s (Holds i) → Leads (i ∷ i ∷ []) s (Holds i)
longer s i (inl here) = inl here
longer s i (inr ((t, step, here), must)) = inr (
  (t, step, inl here),
  λ u (st : StepOf i s u). elim (must u st) [ inl x ↦ inl x | inr y ↦ inr (inl y) ],
)

-- A waiting processor takes a free lock by at most two steps of its own.
enter_free :
    (s : System) (i : ℕ)
    → waits (s.cpus i).pc ≡ true
    → s.locked ≡ 0
    → Leads (i ∷ i ∷ []) s (Holds i)
enter_free s i w f = elim (by_pc (s.cpus i).pc w) [
  | inl tries ↦ longer s i (take_free s i tries f)
  | inr spins ↦ leave_loop s i spins f
]
  where
    by_pc : (pc : Pc) → waits pc ≡ true → (is_trying pc ≡ true) ⊎ (is_spinning pc ≡ true)
    by_pc idle w = cc w
    by_pc (trying mode) w = inl refl
    by_pc (spinning mode) w = inr refl
    by_pc (holding mode) w = cc w
    by_pc (released mode) w = cc w

-- The holder's next step and two steps of a waiting processor give that one the lock.
give_back :
    (s : System) (i j : ℕ)
    → Holds j s
    → waits (s.cpus i).pc ≡ true
    → j ≢ i
    → Leads (j ∷ i ∷ i ∷ []) s (Holds i)
give_back s i j h w far = inr (can (s.cpus j).pc (s.cpus j).interrupts refl h, must)
  where
    after :
        (locked : ℕ) (cpu : Cpu)
        → Move s.locked (s.cpus j) locked cpu
        → Leads (i ∷ i ∷ []) (move_to s j locked cpu) (Holds i)
    after locked cpu m =
        enter_free (move_to s j locked cpu) i
          (ap (λ (c : Cpu). waits c.pc) (moved_other s j i locked cpu far) ∙ w) (holding_next m h)

    can :
        (pc : Pc) (interrupts : Irq)
        → s.cpus j ≡ record { pc = pc; interrupts = interrupts }
        → holds pc ≡ true
        → (t : System) × StepOf j s t × Leads (i ∷ i ∷ []) t (Holds i)
    can (holding mode) interrupts e h =
        let m =
          subst
            (λ (x : Cpu).
              Move s.locked x 0 (record { pc = released mode; interrupts = interrupts }))
            (sym e) (unlock mode interrupts) in
        (_, by 0 _ m, after 0 _ m)
    can idle interrupts e h = cc h
    can (trying mode) interrupts e h = cc h
    can (spinning mode) interrupts e h = cc h
    can (released mode) interrupts e h = cc h

    must : (t : System) → StepOf j s t → IsSpurious j s t ⊎ Leads (i ∷ i ∷ []) t (Holds i)
    must t (by locked cpu m) = inr (after locked cpu m)

waits-not_holds : (pc : Pc) → waits pc ≡ true → holds pc ≡ false
waits-not_holds idle w = refl
waits-not_holds (trying mode) w = refl
waits-not_holds (spinning mode) w = refl
waits-not_holds (holding mode) w = cc w
waits-not_holds (released mode) w = refl

-- From every reachable state each processor that waits for the lock gets it: when the lock is free by
-- its own next two steps at most, and otherwise by the next step of a holder, which is another
-- processor, and then two steps of its own at most. No other processor steps in between. Each of the
-- steps can be made, and each way to make it leads there, unless a weak compare-exchange fails at the
-- free lock.
pub Reach-Leads :
    {interrupts : ℕ → Irq} {s : System}
    → Reach interrupts s
    → (i : ℕ) → waits (s.cpus i).pc ≡ true
    → ((s.locked ≡ 0) × Leads (i ∷ i ∷ []) s (Holds i))
      ⊎ ((j : ℕ) × (j ≢ i) × Holds j s × Leads (j ∷ i ∷ i ∷ []) s (Holds i))
Reach-Leads {interrupts} {s} r i w = elim (ℕ_discrete s.locked 0) [
  | yes f ↦ inl (f, enter_free s i w f)
  | no t ↦
      let (j, h) = (Reach-IsLock r).taken t in
      let far : j ≢ i = λ (e : j ≡ i). cc (
        h,
        subst (λ (k : ℕ). holds (s.cpus k).pc ≡ false) (sym e) (waits-not_holds (s.cpus i).pc w),
      ) in
      inr (j, far, h, give_back s i j h w far)
]
