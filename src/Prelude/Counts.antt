-- ===== src/Prelude/Counts.antt =====
-- How often a number stands in a list.
use Prim.Native.Nat.{ℕ, ◌+◌}
use mathlib.Core.List.{List, [], ◌∷◌}
use emergence_kernel.Prelude.Tests.{◌==◌, if◌then◌else◌}

unfoldable pub occurrences : ℕ → List ℕ → ℕ
occurrences id [] = 0
occurrences id (x ∷ xs) = (if x == id then 1 else 0) + occurrences id xs
