-- ===== src/Spinlock/Safety.antt =====
-- Mutual exclusion of the spin lock of arch/x86_64/spinlock_arch.h.
use emergence_kernel.Prelude.{
  ◌∙◌, arith, refl, inr, inl, Bool-cases, true, ◌==◌, ◌≢◌, false, if◌then◌else◌, update, ◌≡◌, ℕ,
}
use emergence_kernel.Spinlock.{
  start, leave, unlock, trylock_busy, trylock_taken, seen_free, relax, failed, exchanged, lock_irq,
  lock_irqsave, pick, later, lock, Move, Reach, holds, Cpu, Irq, System,
}

-- The word tells whether the lock is held, and at most one processor holds it.
pub record IsLock (s : System) : Type 0 where
  pub free : s.locked ≡ 0 → (i : ℕ) → holds (s.cpus i).pc ≡ false
  pub taken : s.locked ≢ 0 → (i : ℕ) × (holds (s.cpus i).pc ≡ true)
  pub unique : (i j : ℕ) → holds (s.cpus i).pc ≡ true → holds (s.cpus j).pc ≡ true → i ≡ j

-- What a move does to the word
data Effect (locked locked' : ℕ) (c c' : Cpu) : Type 0 where
  nothing : locked' ≡ locked → holds c.pc ≡ false → holds c'.pc ≡ false → Effect locked locked' c c'
  taking : locked ≡ 0 → locked' ≡ 1 → holds c'.pc ≡ true → Effect locked locked' c c'
  giving : holds c.pc ≡ true → locked' ≡ 0 → holds c'.pc ≡ false → Effect locked locked' c c'

Move-Effect :
    {locked locked' : ℕ} {c c' : Cpu} → Move locked c locked' c' → Effect locked locked' c c'
Move-Effect (lock s) = nothing refl refl refl
Move-Effect (lock_irqsave s) = nothing refl refl refl
Move-Effect (lock_irq s) = nothing refl refl refl
Move-Effect (exchanged mode s e) = taking e refl refl
Move-Effect (failed mode s) = nothing refl refl refl
Move-Effect (relax mode s e) = nothing refl refl refl
Move-Effect (seen_free mode s e) = nothing refl refl refl
Move-Effect (trylock_taken s e) = taking e refl refl
Move-Effect (trylock_busy s e) = nothing refl refl refl
Move-Effect (unlock mode s) = giving refl refl refl
Move-Effect (leave mode s) = nothing refl refl refl

-- Whether a processor holds the lock when processor i has become cpu.
holds_at :
    (cpus : ℕ → Cpu) (i : ℕ) (cpu : Cpu) (j : ℕ)
    → holds (update cpus i cpu j).pc ≡ (if i == j then holds cpu.pc else holds (cpus j).pc)
holds_at cpus i cpu j = elim (Bool-cases (i == j)) [ inl e ↦ rw e refl | inr e ↦ rw e refl ]

Effect-IsLock :
    (s : System) (i locked : ℕ) (cpu : Cpu)
    → IsLock s
    → Effect s.locked locked (s.cpus i) cpu
    → IsLock (record { locked = locked; cpus = update s.cpus i cpu })
Effect-IsLock s i locked cpu o (nothing e a b) = record {
  free = λ f j. ground (arith, b, holds_at s.cpus i cpu j, o.free (omega (arith, e, f)) j);
  taken = λ t.
      let (j, h) = o.taken (λ z. t (e ∙ z)) in (j, ground (arith, a, h, holds_at s.cpus i cpu j));
  unique = λ j k hj hk.
      o.unique j k (ground (arith, b, hj, holds_at s.cpus i cpu j))
        (ground (arith, b, hk, holds_at s.cpus i cpu k));
}
Effect-IsLock s i locked cpu o (taking e f a) = record {
  free = λ z j. absurd (omega (arith, f, z));
  taken = λ t. (i, ground (arith, a, holds_at s.cpus i cpu i));
  unique = λ j k hj hk.
      ground
        (arith, hj, hk, holds_at s.cpus i cpu j, holds_at s.cpus i cpu k, o.free e j, o.free e k);
}
Effect-IsLock s i locked cpu o (giving a e b) = record {
  free = λ z j. elim (Bool-cases (holds (s.cpus j).pc)) [
    | inl h ↦ ground (arith, b, o.unique i j a h, holds_at s.cpus i cpu j)
    | inr h ↦ ground (arith, b, h, holds_at s.cpus i cpu j)
  ];
  taken = λ t. absurd (t e);
  unique = λ j k hj hk.
      o.unique j k (ground (arith, b, hj, holds_at s.cpus i cpu j))
        (ground (arith, b, hk, holds_at s.cpus i cpu k));
}

-- In every reachable state at most one processor holds the lock, some processor holds it when its word
-- is not 0, and none when it is 0.
pub Reach-IsLock : {interrupts : ℕ → Irq} {s : System} → Reach interrupts s → IsLock s
Reach-IsLock start = record {
  free = λ e i. refl;
  taken = λ h. absurd (h refl);
  unique = λ i j h h'. cc h;
}
Reach-IsLock (later {s} r (pick i locked cpu m)) =
    Effect-IsLock s i locked cpu (Reach-IsLock r) (Move-Effect m)
