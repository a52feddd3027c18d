-- ===== src/Pmm/Merge/Pairs.antt =====
-- The search for a buddy in kernel/pmm.c, and two buddies as the halves of a block.
use emergence_kernel.Prelude.{
  ℕ, zero, suc, ◌+◌, ◌*◌, ◌/◌, ◌%◌, ◌≤◌, ◌<◌, ◌≡◌, ◌∙◌, sym, ap, subst, refl, inl, inr, arith, true,
  false, not, some, List, [], ◌∷◌, ◌&&◌, ltb, ◌==◌, if◌then◌else◌, Bool, Bool-cases, ==_iff,
  u64_mod,
}
use emergence_kernel.Pmm.{Block, search_buddy}
use emergence_kernel.Pmm.Mass.{sum, only}
use emergence_kernel.Pmm.Buddy.{flip}
use emergence_kernel.Pmm.Valid.Moves.{only_self}

pub some-injective : {x y : ℕ} → some y ≡ some x → x ≡ y
some-injective e = cc

and-true : (b c : Bool) → (b && c) ≡ true → b ≡ true
and-true true c e = refl
and-true false c e = cc

-- A buddy that is found stands in the list, and begins at the address looked for.
pub search_buddy-found :
    (left : ℕ) (blocks : ℕ → Block) (xs : List ℕ) (addr x : ℕ)
    → search_buddy left blocks xs addr ≡ some x
    → (0 < sum (only x) xs) × ((blocks x).base_addr ≡ addr)
unfolding search_buddy sum
search_buddy-found left blocks [] addr x e = cc
search_buddy-found zero blocks (y ∷ ys) addr x e = cc
search_buddy-found (suc left) blocks (y ∷ ys) addr x e =
    go ((blocks y).base_addr == addr && not (blocks y).allocated) refl
      (λ later. search_buddy-found left blocks ys addr x later) e
  where
    go :
        (c : Bool)
        → ((blocks y).base_addr == addr && not (blocks y).allocated) ≡ c
        → (search_buddy left blocks ys addr ≡ some x
            → (0 < sum (only x) ys) × ((blocks x).base_addr ≡ addr))
        → (if c then some y else search_buddy left blocks ys addr) ≡ some x
        → (0 < only x y + sum (only x) ys) × ((blocks x).base_addr ≡ addr)
    go true found rest same = (
      omega (arith, subst (λ j. only j y ≡ 1) (sym (some-injective same)) (only_self y)),
      ap (λ j. (blocks j).base_addr) (some-injective same)
          ∙ (==_iff (blocks y).base_addr addr).0
              (and-true ((blocks y).base_addr == addr) (not (blocks y).allocated) found),
    )
    go false other rest later = let (m, a) = rest later in (omega (arith, m), a)

-- The lower of two buddies, counted in blocks, is twice the number of the merged block.
lower_of-even :
    (r size : ℕ)
    → (if ltb ((2 * r + 1) * size) (2 * r * size) then (2 * r + 1) * size else 2 * r * size)
      ≡ r * (2 * size)
lower_of-even r size = ground arith

lower_of-odd :
    (r size : ℕ)
    → 0 < size
    → (if ltb (2 * r * size) ((2 * r + 1) * size) then 2 * r * size else (2 * r + 1) * size)
      ≡ r * (2 * size)
lower_of-odd r size h = ground arith

-- Every number is twice another or one more.
by_half : (P : ℕ → Type 0) → ((r : ℕ) → P (2 * r)) → ((r : ℕ) → P (2 * r + 1)) → (q : ℕ) → P q
by_half P even odd q = elim (Bool-cases (q % 2 == 0)) [
  | inl e ↦ subst P (even_half q e) (even (q / 2))
  | inr e ↦ subst P (odd_half q e) (odd (q / 2))
]
  where
    even_half : (q : ℕ) → (q % 2 == 0) ≡ true → 2 * (q / 2) ≡ q
    even_half q e = ground arith

    odd_half : (q : ℕ) → (q % 2 == 0) ≡ false → 2 * (q / 2) + 1 ≡ q
    odd_half q e = ground arith

flip-even : (r : ℕ) → flip (2 * r) ≡ 2 * r + 1
flip-even r = ground arith

flip-odd : (r : ℕ) → flip (2 * r + 1) ≡ 2 * r
flip-odd r = ground arith

half-even : (r : ℕ) → 2 * r / 2 ≡ r
half-even r = omega arith

half-odd : (r : ℕ) → (2 * r + 1) / 2 ≡ r
half-odd r = omega arith

-- Two neighbours, counted in a size, are the halves of a block of twice the size.
pub pair_base :
    (size : ℕ)
    → 0 < size
    → (q : ℕ)
    → (if ltb (flip q * size) (q * size) then flip q * size else q * size) ≡ q / 2 * (2 * size)
pair_base size h =
    by_half
      (λ q.
        (if ltb (flip q * size) (q * size) then flip q * size else q * size) ≡ q / 2 * (2 * size))
      (λ r. rw (flip-even r, half-even r) (lower_of-even r size))
      (λ r. rw (flip-odd r, half-odd r) (lower_of-odd r size h))

pub pair_halves :
    (F : ℕ → ℕ) (size q : ℕ)
    → F (q * size) + F (flip q * size) ≡ F (q / 2 * (2 * size)) + F (q / 2 * (2 * size) + size)
pair_halves F size =
    by_half
      (λ q.
        F (q * size) + F (flip q * size) ≡ F (q / 2 * (2 * size)) + F (q / 2 * (2 * size) + size))
      (λ r. rw (flip-even r, half-even r) (halves_up r))
      (λ r. rw (flip-odd r, half-odd r) (halves_down r))
  where
    low : (r : ℕ) → F (2 * r * size) ≡ F (r * (2 * size))
    low r = ap F (omega arith)

    high : (r : ℕ) → F ((2 * r + 1) * size) ≡ F (r * (2 * size) + size)
    high r = ap F (omega arith)

    halves_up :
        (r : ℕ)
        → F (2 * r * size) + F ((2 * r + 1) * size) ≡ F (r * (2 * size)) + F (r * (2 * size) + size)
    halves_up r = omega (arith, low r, high r)

    halves_down :
        (r : ℕ)
        → F ((2 * r + 1) * size) + F (2 * r * size) ≡ F (r * (2 * size)) + F (r * (2 * size) + size)
    halves_down r = omega (arith, low r, high r)

pub pair_ends :
    (size q : ℕ)
    → q * size + size ≤ u64_mod
    → flip q * size + size ≤ u64_mod
    → q / 2 * (2 * size) + 2 * size ≤ u64_mod
pair_ends size =
    by_half
      (λ q.
        q * size + size ≤ u64_mod
        → flip q * size + size ≤ u64_mod
        → q / 2 * (2 * size) + 2 * size ≤ u64_mod)
      (λ r h h'. rw (half-even r) (up r (subst (λ t. t * size + size ≤ u64_mod) (flip-even r) h')))
      (λ r h h'. rw (half-odd r) (up r h))
  where
    up : (r : ℕ) → (2 * r + 1) * size + size ≤ u64_mod → r * (2 * size) + 2 * size ≤ u64_mod
    up r h = omega (arith, h)
