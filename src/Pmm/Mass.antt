-- ===== src/Pmm/Mass.antt =====
-- Sums over the descriptors in the lists of kernel/pmm.c: how often a descriptor is listed, and how
-- many listed blocks contain an address, are both such sums.
use emergence_kernel.Prelude.{
  ℕ, zero, suc, ◌+◌, ◌≤◌, ◌<◌, ◌≡◌, ◌≢◌, refl, ap, inl, inr, arith, List, [], ◌∷◌, ◌++◌, ◌==◌,
  if◌then◌else◌, update, Bool-cases, ==_iff, add_u64, sub_u64,
}
use emergence_kernel.Pmm.{PmmState, FreeList, max_order, erase, put_free, take_free}

unfoldable pub sum : (ℕ → ℕ) → List ℕ → ℕ
sum g [] = 0
sum g (x ∷ xs) = g x + sum g xs

-- 1 at `b`, 0 elsewhere
abbrev pub only : ℕ → ℕ → ℕ
only b j = if b == j then 1 else 0

pub sum-append : (g : ℕ → ℕ) (xs ys : List ℕ) → sum g (xs ++ ys) ≡ sum g xs + sum g ys
unfolding sum
sum-append g [] ys = omega arith
sum-append g (x ∷ xs) ys = omega (arith, sum-append g xs ys)

pub sum-snoc : (g : ℕ → ℕ) (xs : List ℕ) (b : ℕ) → sum g (xs ++ b ∷ []) ≡ sum g xs + g b
unfolding sum
sum-snoc g xs b = omega (arith, sum-append g xs (b ∷ []))

-- A list that has `b` loses just its weight.
pub sum-erase :
    (g : ℕ → ℕ) (b : ℕ) (xs : List ℕ) → 0 < sum (only b) xs → sum g (erase b xs) + g b ≡ sum g xs
unfolding sum erase
sum-erase g b [] h = absurd (omega arith)
sum-erase g b (x ∷ xs) h = elim (Bool-cases (x == b)) [
  | inl e ↦ rw e (omega (arith, ap g ((==_iff x b).0 e)))
  | inr e ↦ rw e (ground (arith, sum-erase g b xs))
]

-- A list that lacks `b` has the same sum for weights that agree elsewhere.
pub sum-congr :
    (g g' : ℕ → ℕ) (b : ℕ) (xs : List ℕ)
    → ((j : ℕ) → b ≢ j → g j ≡ g' j)
    → sum (only b) xs ≡ 0
    → sum g xs ≡ sum g' xs
unfolding sum
sum-congr g g' b [] h none = refl
sum-congr g g' b (x ∷ xs) h none =
    omega (arith, h x (ground arith), sum-congr g g' b xs h (omega arith))

-- The sum over the free lists of the orders below `n`.
unfoldable pub free_sum : (ℕ → ℕ) → (ℕ → FreeList) → ℕ → ℕ
free_sum g lists zero = 0
free_sum g lists (suc n) = free_sum g lists n + sum g (lists n).list

pub free_sum-le :
    (g : ℕ → ℕ) (lists : ℕ → FreeList) (n o : ℕ) → o < n → sum g (lists o).list ≤ free_sum g lists n
unfolding free_sum
free_sum-le g lists zero o h = absurd (omega arith)
free_sum-le g lists (suc n) o h = ground (arith, free_sum-le g lists n o)

free_sum-update_above :
    (g : ℕ → ℕ) (lists : ℕ → FreeList) (n o : ℕ) (f : FreeList)
    → n ≤ o
    → free_sum g (update lists o f) n ≡ free_sum g lists n
unfolding free_sum
free_sum-update_above g lists zero o f h = refl
free_sum-update_above g lists (suc n) o f h = ground (arith, free_sum-update_above g lists n o f)

pub free_sum-update :
    (g : ℕ → ℕ) (lists : ℕ → FreeList) (n o : ℕ) (f : FreeList)
    → o < n
    → free_sum g (update lists o f) n + sum g (lists o).list ≡ free_sum g lists n + sum g f.list
unfolding free_sum
free_sum-update g lists zero o f h = absurd (omega arith)
free_sum-update g lists (suc n) o f h = elim (Bool-cases (o == n)) [
  | inl last ↦ ground (arith, free_sum-update_above g lists n o f)
  | inr below ↦ ground (arith, free_sum-update g lists n o f)
]

pub free_sum-congr :
    (g g' : ℕ → ℕ) (b : ℕ) (lists : ℕ → FreeList) (n : ℕ)
    → ((j : ℕ) → b ≢ j → g j ≡ g' j)
    → free_sum (only b) lists n ≡ 0
    → free_sum g lists n ≡ free_sum g' lists n
unfolding free_sum
free_sum-congr g g' b lists zero h none = refl
free_sum-congr g g' b lists (suc n) h none = omega (
  arith,
  sum-congr g g' b (lists n).list h (omega arith),
  free_sum-congr g g' b lists n h (omega arith),
)

-- The weight of all listed descriptors, free and allocated.
abbrev pub free_mass : (ℕ → ℕ) → PmmState → ℕ
free_mass g s = free_sum g s.free_lists (suc max_order)

abbrev pub mass : (ℕ → ℕ) → PmmState → ℕ
mass g s = free_mass g s + sum g s.allocated_blocks

pub mass-congr :
    (g g' : ℕ → ℕ) (b : ℕ) (s : PmmState)
    → ((j : ℕ) → b ≢ j → g j ≡ g' j)
    → mass (only b) s ≡ 0
    → mass g s ≡ mass g' s
mass-congr g g' b s h none = omega (
  arith,
  free_sum-congr g g' b s.free_lists (suc max_order) h (omega arith),
  sum-congr g g' b s.allocated_blocks h (omega arith),
)

pub free_mass-put_free :
    (g : ℕ → ℕ) (s : PmmState) (o b : ℕ)
    → o ≤ max_order
    → free_mass g (put_free s o b) ≡ free_mass g s + g b
unfolding put_free
free_mass-put_free g s o b h = omega (
  arith,
  free_sum-update g s.free_lists (suc max_order) o
      (record { list = (s.free_lists o).list ++ b ∷ []; count = add_u64 (s.free_lists o).count 1 })
      (omega arith),
  sum-snoc g (s.free_lists o).list b,
)

pub free_mass-take_free :
    (g : ℕ → ℕ) (s : PmmState) (o b : ℕ)
    → o ≤ max_order
    → 0 < sum (only b) (s.free_lists o).list
    → free_mass g (take_free s o b) + g b ≡ free_mass g s
unfolding take_free
free_mass-take_free g s o b h here = omega (
  arith,
  free_sum-update g s.free_lists (suc max_order) o
      (record { list = erase b (s.free_lists o).list; count = sub_u64 (s.free_lists o).count 1 })
      (omega arith),
  sum-erase g b (s.free_lists o).list here,
)

pub mass-put_free :
    (g : ℕ → ℕ) (s : PmmState) (o b : ℕ) → o ≤ max_order → mass g (put_free s o b) ≡ mass g s + g b
unfolding put_free
mass-put_free g s o b h = omega (arith, free_mass-put_free g s o b h)

pub mass-take_free :
    (g : ℕ → ℕ) (s : PmmState) (o b : ℕ)
    → o ≤ max_order
    → 0 < sum (only b) (s.free_lists o).list
    → mass g (take_free s o b) + g b ≡ mass g s
unfolding take_free
mass-take_free g s o b h here = omega (arith, free_mass-take_free g s o b h here)

pub sum-erase-le : (g : ℕ → ℕ) (b : ℕ) (xs : List ℕ) → sum g (erase b xs) ≤ sum g xs
unfolding sum erase
sum-erase-le g b [] = omega arith
sum-erase-le g b (x ∷ xs) = ground (arith, sum-erase-le g b xs)

-- One list after a change of another or of itself.
pub sum-take_free-le :
    (g : ℕ → ℕ) (s : PmmState) (o b o' : ℕ)
    → sum g ((take_free s o b).free_lists o').list ≤ sum g (s.free_lists o').list
unfolding take_free
sum-take_free-le g s o b o' = elim (Bool-cases (o == o')) [
  | inl e ↦ rw (e, ← (==_iff o o').0 e) (sum-erase-le g b (s.free_lists o).list)
  | inr e ↦ rw e (omega arith)
]

pub sum-put_free :
    (g : ℕ → ℕ) (s : PmmState) (o b o' : ℕ)
    → sum g ((put_free s o b).free_lists o').list
      ≡ sum g (s.free_lists o').list + (if o == o' then g b else 0)
unfolding put_free
sum-put_free g s o b o' = elim (Bool-cases (o == o')) [
  | inl e ↦ rw (e, ← (==_iff o o').0 e) (sum-snoc g (s.free_lists o).list b)
  | inr e ↦ rw e (omega arith)
]
