-- ===== src/Spinlock.antt =====
-- include/spinlock.h and arch/x86_64/spinlock_arch.h: a spin lock that processors take, one access to
-- its word at a time, in any order. The memory orders and barriers are left out: accesses happen one
-- after another.
pub mod Safety
pub mod Progress
pub mod ReadWrite
mod Tests
use emergence_kernel.Irq.{Irq, irq_save, irq_restore, cli, sti}
use emergence_kernel.Prelude.{ℕ, Bool, true, false, ◌≡◌, ◌≢◌, update}

-- Which pair of functions the processor uses: `spin_lock` or `spin_trylock`, with `spin_unlock`;
-- `spin_lock_irqsave`, which saved flags, with `spin_unlock_irqrestore`; `spin_lock_irq` with
-- `spin_unlock_irq`.
pub data Mode : Type 0 where
  plain : Mode
  saved : (flags : Bool) → Mode
  irq : Mode

-- Where a processor stands.
pub data Pc : Type 0 where
  idle : Pc
  trying : (mode : Mode) → Pc  -- before the compare-exchange of `arch_spin_lock`
  spinning : (mode : Mode) → Pc  -- before the load of its inner loop
  holding : (mode : Mode) → Pc  -- after a function that takes the lock has returned
  released : (mode : Mode) → Pc  -- after the store of `arch_spin_unlock`

pub record Cpu : Type 0 where
  pub pc : Pc
  pub interrupts : Irq

abbrev pub at : Pc → Cpu → Cpu
at pc cpu = record cpu { pc = pc }

-- What a processor does after the store of the unlock
unfoldable pub after_unlock : Mode → Irq → Irq
after_unlock plain s = s
after_unlock (saved flags) s = irq_restore flags s
after_unlock irq s = sti s

-- One step of a processor on the word `locked`. The weak compare-exchange may fail at an unlocked word.
pub data Move (locked : ℕ) : Cpu → ℕ → Cpu → Type 0 where
  lock :
      (s : Irq)
      → Move locked
          (record { pc = idle; interrupts = s })
          locked
          (record { pc = trying plain; interrupts = s })
  lock_irqsave :
      (s : Irq)
      → Move locked
          (record { pc = idle; interrupts = s })
          locked
          (record { pc = trying (saved (irq_save true s).0); interrupts = (irq_save true s).1 })
  lock_irq :
      (s : Irq)
      → Move locked
          (record { pc = idle; interrupts = s })
          locked
          (record { pc = trying irq; interrupts = cli s })
  exchanged :
      (mode : Mode) (s : Irq)
      → locked ≡ 0
      → Move locked
          (record { pc = trying mode; interrupts = s })
          1
          (record { pc = holding mode; interrupts = s })
  failed :
      (mode : Mode) (s : Irq)
      → Move locked
          (record { pc = trying mode; interrupts = s })
          locked
          (record { pc = spinning mode; interrupts = s })
  relax :
      (mode : Mode) (s : Irq)
      → locked ≢ 0
      → Move locked
          (record { pc = spinning mode; interrupts = s })
          locked
          (record { pc = spinning mode; interrupts = s })
  seen_free :
      (mode : Mode) (s : Irq)
      → locked ≡ 0
      → Move locked
          (record { pc = spinning mode; interrupts = s })
          locked
          (record { pc = trying mode; interrupts = s })
  trylock_taken :
      (s : Irq)
      → locked ≡ 0
      → Move locked
          (record { pc = idle; interrupts = s })
          1
          (record { pc = holding plain; interrupts = s })
  trylock_busy :
      (s : Irq)
      → locked ≢ 0
      → Move locked
          (record { pc = idle; interrupts = s })
          locked
          (record { pc = idle; interrupts = s })
  unlock :
      (mode : Mode) (s : Irq)
      → Move locked
          (record { pc = holding mode; interrupts = s })
          0
          (record { pc = released mode; interrupts = s })
  leave :
      (mode : Mode) (s : Irq)
      → Move locked
          (record { pc = released mode; interrupts = s })
          locked
          (record { pc = idle; interrupts = after_unlock mode s })

pub record System : Type 0 where
  pub locked : ℕ
  pub cpus : ℕ → Cpu

-- One step of some processor
pub data Step (s : System) : System → Type 0 where
  pick :
      (i locked : ℕ) (cpu : Cpu)
      → Move s.locked (s.cpus i) locked cpu
      → Step s (record { locked = locked; cpus = update s.cpus i cpu })

-- `arch_spin_lock_init`, with all processors idle
abbrev pub spin_lock_init : (ℕ → Irq) → System
spin_lock_init interrupts = record {
  locked = 0;
  cpus = λ i. record { pc = idle; interrupts = interrupts i };
}

pub data Reach (interrupts : ℕ → Irq) : System → Type 0 where
  start : Reach interrupts (spin_lock_init interrupts)
  later : {s t : System} → Reach interrupts s → Step s t → Reach interrupts t

-- The processor holds the lock.
abbrev pub holds : Pc → Bool
holds (holding mode) = true
holds other = false

-- The processor is inside a function that waits for the lock.
abbrev pub waits : Pc → Bool
waits (trying mode) = true
waits (spinning mode) = true
waits other = false
