-- ===== src/Spinlock/Tests.antt =====
-- Tests and examples of the locks of arch/x86_64/spinlock_arch.h and of arch/x86_64/idt.h.
use emergence_kernel.Irq.{
  irq_save, irq_restore, irq_enable, irq_disable, enable_from, disable_from, drop_level,
}
use emergence_kernel.Spinlock.ReadWrite.{
  Use, write_unlock, write_lock, RwSystem, read_unlock, read_lock,
}
use emergence_kernel.Irq.Nest.{outside, run-restores, AreOff, other, section, both, run}
use emergence_kernel.Spinlock.Progress.{Reach-Leads, Holds, Leads}
use emergence_kernel.Spinlock.Safety.{Reach-IsLock, IsLock}
use emergence_kernel.Prelude.{
  ◌≢◌, ◌⊎◌, [], ◌∷◌, false, ◌==◌, if◌then◌else◌, refl, true, ◌≡◌, negsuc, pos, some, update, ℕ,
}
use emergence_kernel.Spinlock.{
  lock, plain, trylock_taken, holding, pick, trying, later, spin_lock_init, Irq, Reach, System,
  start,
}

-- Interrupts enabled, at depth 0
abbrev on : Irq
on = record { depth = some (pos 0); enabled = true }

abbrev initial : System
initial = spin_lock_init (λ (i : ℕ). on)

-- Processor 0 has taken the lock by `spin_trylock`.
abbrev taken_by_0 : System
taken_by_0 = record {
  locked = 1;
  cpus = update initial.cpus 0 (record { pc = holding plain; interrupts = on });
}

-- Processor 1 has called `spin_lock`.
abbrev contended : System
contended = record {
  locked = 1;
  cpus = update taken_by_0.cpus 1 (record { pc = trying plain; interrupts = on });
}

taken-Reach : Reach (λ (i : ℕ). on) taken_by_0
taken-Reach = later start (pick 0 1 _ (trylock_taken on refl))

contended-Reach : Reach (λ (i : ℕ). on) contended
contended-Reach = later taken-Reach (pick 1 1 _ (lock on))

Reach-IsLock_example : IsLock contended
Reach-IsLock_example = Reach-IsLock contended-Reach

Reach-Leads_example :
    ((contended.locked ≡ 0) × Leads (1 ∷ 1 ∷ []) contended (Holds 1))
    ⊎ ((j : ℕ) × (j ≢ 1) × Holds j contended × Leads (j ∷ 1 ∷ 1 ∷ []) contended (Holds 1))
Reach-Leads_example = Reach-Leads contended-Reach 1 refl

-- Interrupts are off between the two functions, and on again afterwards.
irqsave_off : (irq_save true on).1.enabled ≡ false
unfolding irq_save irq_disable disable_from
irqsave_off = refl

irqrestore_on : irq_restore true (irq_save true on).1 ≡ on
unfolding irq_save irq_disable disable_from irq_restore drop_level
irqrestore_on = refl

-- `irq_enable` undoes `irq_disable`.
enable_on : irq_enable (irq_disable on) ≡ on
unfolding irq_enable enable_from irq_disable disable_from
enable_on = refl

run-restores_example :
    (run (both (section other) (section (section other))) on ≡ on)
    × AreOff (both (section other) (section (section other))) on
run-restores_example = run-restores (both (section other) (section (section other))) (outside true)

-- Two processors write at once.
abbrev writer_0 : RwSystem
writer_0 = record { counter = negsuc 0; cpus = λ i. if i == 0 then Use.writing else Use.idle }

two_writers : read_unlock (read_lock (write_unlock (write_lock (write_lock (pos 0))))) ≡ pos 0
unfolding read_lock read_unlock write_lock write_unlock
two_writers = refl
