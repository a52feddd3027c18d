-- ===== src/Irq.antt =====
-- arch/x86_64/idt.h: switching interrupts off and on, with nesting. The state is one processor's: its
-- `irq_nest_depth`, which is none where `smp_get_irq_nest_depth_ptr` gives NULL, and IF, the interrupt
-- flag of RFLAGS. Of saved flags only IF (bit 9) is kept, the only bit that is read.
pub mod Nest
use emergence_kernel.Prelude.{
  ℕ, zero, suc, Bool, true, false, ◌&&◌, Option, none, some, ◌==◌, if◌then◌else◌, ℤ, pos, negsuc,
  increment, decrement,
}

pub record Irq : Type 0 where
  pub depth : Option ℤ
  pub enabled : Bool

abbrev pub is_value : ℕ → ℤ → Bool
is_value k (pos n) = n == k
is_value k (negsuc n) = false

abbrev pub cli : Irq → Irq
cli s = record s { enabled = false }

abbrev pub sti : Irq → Irq
sti s = record s { enabled = true }

unfoldable pub disable_from : Option ℤ → Irq → Irq
disable_from none s = cli s
disable_from (some d) s =
    let s' = record s { depth = some (increment d) } in
    if is_value 1 (increment d) then cli s' else s'

unfoldable pub irq_disable : Irq → Irq
irq_disable s = disable_from s.depth s

unfoldable pub enable_from : Option ℤ → Irq → Irq
enable_from none s = sti s
enable_from (some d) s =
    let s' = record s { depth = some (decrement d) } in
    if is_value 0 (decrement d) then sti s' else s'

unfoldable pub irq_enable : Irq → Irq
irq_enable s = enable_from s.depth s

-- The flags and the state
unfoldable pub irq_save : Bool → Irq → Bool × Irq
irq_save disable s = (s.enabled, (if disable then irq_disable s else s))

-- `if (depth && *depth > 0) (*depth)--`
unfoldable pub drop_level : Option ℤ → Option ℤ
drop_level none = none
drop_level (some (pos zero)) = some (pos 0)
drop_level (some (pos (suc n))) = some (pos n)
drop_level (some (negsuc n)) = some (negsuc n)

-- `!depth || *depth == 0`
abbrev pub no_level : Option ℤ → Bool
no_level none = true
no_level (some d) = is_value 0 d

unfoldable pub irq_restore : Bool → Irq → Irq
irq_restore flags s =
    let s' = record s { depth = drop_level s.depth } in
    if flags && no_level (drop_level s.depth) then sti s' else s'
