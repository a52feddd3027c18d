-- ===== src/Slab/Erase.antt =====
-- The list of objects in use of kernel/slab.c when one is taken off.
use emergence_kernel.Slab.Objects.{IsObject-first_or_later, IsObject}
use emergence_kernel.Slab.Taken.{IsTaken}
use emergence_kernel.Slab.Cache.{IsSlab}
use emergence_kernel.Slab.{slab_header, erase, Slab}
use native.Mathlib.Decide.{ℕ_discrete}
use emergence_kernel.Prelude.Counts.{occurrences}
use emergence_kernel.Prelude.{
  zero, inr, subst, ◌==◌, Bool-cases, inl, refl, [], suc, ◌+◌, ◌-◌, ◌∷◌, arith, length, ◌<◌, ◌≡◌,
  ◌≢◌, ◌≤◌, List, ℕ,
}

pub erase-other : (p q : ℕ) (xs : List ℕ) → q ≢ p → occurrences q (erase p xs) ≡ occurrences q xs
unfolding erase occurrences
erase-other p q [] h = refl
erase-other p q (x ∷ xs) h = ground (arith, h, erase-other p q xs h)

pub erase_self : (p : ℕ) (xs : List ℕ) → occurrences p (erase p xs) ≡ occurrences p xs - 1
unfolding erase occurrences
erase_self p [] = refl
erase_self p (x ∷ xs) = ground (arith, erase_self p xs)

pub erase-le : (p q : ℕ) (xs : List ℕ) → occurrences q (erase p xs) ≤ occurrences q xs
erase-le p q xs = elim (ℕ_discrete q p) [
  | yes same ↦ rw same (omega (arith, erase_self p xs))
  | no other ↦ omega (arith, erase-other p q xs other)
]

pub length-erase : (p : ℕ) (xs : List ℕ) → length xs ≤ suc (length (erase p xs))
unfolding erase
length-erase p [] = omega arith
length-erase p (x ∷ xs) = ground (arith, length-erase p xs)

-- A list of different objects is no longer than there are objects.
pub length_bound :
    (n start size : ℕ) (xs : List ℕ)
    → ((a : ℕ) → occurrences a xs ≤ 1)
    → ((a : ℕ) → 0 < occurrences a xs → IsObject start size n a)
    → length xs ≤ n
unfolding occurrences
length_bound zero start size [] distinct objects = omega arith
length_bound zero start size (x ∷ xs) distinct objects =
    absurd (omega (arith, (objects x (ground arith)).lt))
length_bound (suc n) start size xs distinct objects = omega (
  arith,
  length-erase start xs,
  length_bound n (start + size) size (erase start xs)
      (λ a. omega (arith, erase-le start a xs, distinct a))
      (λ a h. elim (IsObject-first_or_later (objects a (omega (arith, erase-le start a xs, h)))) [
        | inl first ↦ absurd (
            omega (
              arith,
              subst (λ (x : ℕ). 0 < occurrences x (erase start xs)) first h,
              erase_self start xs,
              distinct start,
            ))
        | inr later ↦ later
      ]),
)

-- A slab with an object in use counts it.
pub inuse_positive :
    {id size n page obj : ℕ} {slab : Slab}
    → IsSlab id size n slab page
    → IsTaken size n slab page obj
    → 0 < slab.inuse
unfolding occurrences
inuse_positive {size = size} {n} {page} {obj} {slab} o t = omega (
  arith,
  o.counted,
  length_bound n (page + slab_header) size (obj ∷ slab.free_list)
      (λ a. ground (arith, o.distinct a, t.not_free))
      (λ a h. elim (Bool-cases (obj == a)) [
        | inl same ↦
            subst (λ (x : ℕ). IsObject (page + slab_header) size n x) (ground (arith, same))
              t.object
        | inr other ↦ o.objects a (ground (arith, other, h))
      ]),
)
