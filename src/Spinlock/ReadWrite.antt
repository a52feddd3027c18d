-- ===== src/Spinlock/ReadWrite.antt =====
-- The read-write lock of arch/x86_64/spinlock_arch.h. Its counter is an `int`, away from the ends.
use emergence_kernel.Prelude.{refl, sym, ==-false, ==-refl, pos, update, ◌≢◌, ℤ, ◌≡◌, ℕ}
use emergence_kernel.Prelude.{increment, decrement}

-- The counter after each function: the loop of a lock function returns in its body, so that it makes
-- one access whatever it finds.
unfoldable pub read_lock : ℤ → ℤ
read_lock counter = increment counter

unfoldable pub write_lock : ℤ → ℤ
write_lock counter = decrement counter

unfoldable pub read_unlock : ℤ → ℤ
read_unlock counter = decrement counter

unfoldable pub write_unlock : ℤ → ℤ
write_unlock counter = pos 0

-- What a processor does with the lock
pub data Use : Type 0 where
  idle : Use
  reading : Use
  writing : Use

pub record RwSystem : Type 0 where
  pub counter : ℤ
  pub cpus : ℕ → Use

-- One call of some processor
pub data RwStep (s : RwSystem) : RwSystem → Type 0 where
  start_reading :
      (i : ℕ)
      → s.cpus i ≡ idle
      → RwStep s (record { counter = read_lock s.counter; cpus = update s.cpus i reading })
  start_writing :
      (i : ℕ)
      → s.cpus i ≡ idle
      → RwStep s (record { counter = write_lock s.counter; cpus = update s.cpus i writing })
  stop_reading :
      (i : ℕ)
      → s.cpus i ≡ reading
      → RwStep s (record { counter = read_unlock s.counter; cpus = update s.cpus i idle })
  stop_writing :
      (i : ℕ)
      → s.cpus i ≡ writing
      → RwStep s (record { counter = write_unlock s.counter; cpus = update s.cpus i idle })

-- Whatever the counter and whoever reads or writes, a processor that does neither can start to write
-- at once, and those that read or write go on: the lock excludes nobody.
pub write_lock-admits :
    (s : RwSystem) (i : ℕ)
    → s.cpus i ≡ idle
    → (t : RwSystem) × RwStep s t × (t.cpus i ≡ writing) × ((j : ℕ) → j ≢ i → t.cpus j ≡ s.cpus j)
write_lock-admits s i e = (
  record { counter = write_lock s.counter; cpus = update s.cpus i writing },
  start_writing i e,
  rw (==-refl i) refl,
  λ j h. rw (==-false i j (λ e. h (sym e))) refl,
)
