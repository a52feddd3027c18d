-- ===== src/Irq/Nest.antt =====
-- Nested sections between `irq_save(1)` and `irq_restore` of arch/x86_64/idt.h.
use emergence_kernel.Prelude.{arith, refl, ==-false, ◌≡◌, ℕ}
use emergence_kernel.Irq.{
  suc, Bool, pos, some, false, none, true, Irq, irq_save, irq_restore, irq_disable, disable_from,
  drop_level,
}

-- What runs with sections in it: nothing of interest, one after another, or a section.
pub data Body : Type 0 where
  other : Body
  both : Body → Body → Body
  section : Body → Body

unfoldable pub run : Body → Irq → Irq
run other s = s
run (both a b) s = run b (run a s)
run (section b) s = let saved = irq_save true s in irq_restore saved.0 (run b saved.1)

-- In every section interrupts are off when its body starts and when it has run.
abbrev pub AreOff : Body → Irq → Type 0
AreOff other s = Unit {0}
AreOff (both a b) s = AreOff a s × AreOff b (run a s)
AreOff (section b) s =
    let s' = (irq_save true s).1 in
    (s'.enabled ≡ false) × ((run b s').enabled ≡ false) × AreOff b s'

-- The depth is not negative, and interrupts are off where it is positive.
pub data IsNested : Irq → Type 0 where
  no_depth : (b : Bool) → IsNested (record { depth = none; enabled = b })
  outside : (b : Bool) → IsNested (record { depth = some (pos 0); enabled = b })
  inside : (n : ℕ) → IsNested (record { depth = some (pos (suc n)); enabled = false })

save-off :
    {s : Irq} → IsNested s → ((irq_save true s).1.enabled ≡ false) × IsNested (irq_save true s).1
unfolding irq_save irq_disable disable_from
save-off (no_depth b) = (refl, no_depth false)
save-off (outside b) = (refl, inside 0)
save-off (inside n) = rw (==-false (suc (suc n)) 1 (omega arith)) (refl, inside (suc n))

save-restore : {s : Irq} → IsNested s → irq_restore (irq_save true s).0 (irq_save true s).1 ≡ s
unfolding irq_save irq_disable disable_from irq_restore drop_level
save-restore (no_depth true) = refl
save-restore (no_depth false) = refl
save-restore (outside true) = refl
save-restore (outside false) = refl
save-restore (inside n) = rw (==-false (suc (suc n)) 1 (omega arith)) refl

-- From a state whose depth is not negative, and with interrupts off where it is positive, sections may
-- nest as they like: interrupts are off in each of them from its start to its end, and afterwards the
-- nesting depth and the interrupt flag are as before.
pub run-restores : (b : Body) {s : Irq} → IsNested s → (run b s ≡ s) × AreOff b s
unfolding run
run-restores other o = (refl, tt)
run-restores (both a b) o =
    let (e, off) = run-restores a o in let (f, off') = run-restores b o in rw e (f, (off, off'))
run-restores (section b) o =
    let (off, nested) = save-off o in
    let (e, within) = run-restores b nested in rw e (save-restore o, (off, off, within))
