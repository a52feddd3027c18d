-- ===== src/ListHead/Ring.antt =====
-- What it means that a heap of links (kernel/list.h) holds a list, and what a write leaves alone.
use emergence_kernel.Prelude.{
  ℕ, zero, suc, ◌<◌, ◌≡◌, ◌≢◌, ap, arith, List, [], ◌∷◌, length, ==-false, ==-refl,
}
use emergence_kernel.ListHead.{Links, set_next, set_prev, for_each}

-- From `a` the links lead forth through the nodes `xs` to `b`, and back.
abbrev pub Linked : Links → ℕ → List ℕ → ℕ → Type 0
Linked h a [] b = (h.next a ≡ b) × (h.prev b ≡ a)
Linked h a (x ∷ xs) b = (h.next a ≡ x) × (h.prev x ≡ a) × Linked h x xs b

abbrev pub Fresh : ℕ → List ℕ → Type 0
Fresh n [] = Unit
Fresh n (x ∷ xs) = (x ≢ n) × Fresh n xs

abbrev pub Distinct : List ℕ → Type 0
Distinct [] = Unit
Distinct (x ∷ xs) = Fresh x xs × Distinct xs

-- The list at `head` holds the nodes `xs`, in this order and each once.
pub record IsRing (h : Links) (head : ℕ) (xs : List ℕ) : Type 0 where
  pub linked : Linked h head xs head
  pub apart : Fresh head xs
  pub distinct : Distinct xs

-- A write to a field that the segment does not read.
pub Linked-set_next :
    (h : Links) (p q a : ℕ) (xs : List ℕ) (b : ℕ)
    → a ≢ p
    → Fresh p xs
    → Linked h a xs b
    → Linked (set_next h p q) a xs b
Linked-set_next h p q a [] b n f l = ground arith
Linked-set_next h p q a (x ∷ xs) b n f l =
    (ground arith, l.1, Linked-set_next h p q x xs b f.0 f.1 l.2)

pub Linked-set_prev :
    (h : Links) (p q a : ℕ) (xs : List ℕ) (b : ℕ)
    → b ≢ p
    → Fresh p xs
    → Linked h a xs b
    → Linked (set_prev h p q) a xs b
Linked-set_prev h p q a [] b n f l = ground arith
Linked-set_prev h p q a (x ∷ xs) b n f l =
    (l.0, ground arith, Linked-set_prev h p q x xs b n f.1 l.2)

-- The node before `b` is `a` or one of `xs`.
pub prev-ne :
    (h : Links) (a : ℕ) (xs : List ℕ) (b y : ℕ)
    → a ≢ y
    → Fresh y xs
    → Linked h a xs b
    → h.prev b ≢ y
prev-ne h a [] b y n f l = ground arith
prev-ne h a (x ∷ xs) b y n f l = prev-ne h x xs b y f.0 f.1 l.2

-- A walk with enough fuel visits the nodes of the list, in order, and stops at the head.
for_each-Linked :
    (fuel : ℕ) (h : Links) (a : ℕ) (xs : List ℕ) (head : ℕ)
    → length xs < fuel
    → Fresh head xs
    → Linked h a xs head
    → for_each fuel h (h.next a) head ≡ xs
unfolding for_each
for_each-Linked zero h a xs head lt f l = absurd (omega arith)
for_each-Linked (suc fuel) h a [] head lt f l = rw (l.0, ==-refl head)
for_each-Linked (suc fuel) h a (x ∷ xs) head lt f l =
    rw (l.0, ==-false x head f.0)
      (ap (λ r. x ∷ r) (for_each-Linked fuel h x xs head (omega arith) f.1 l.2))

-- On a well-formed list `list_for_each` ends, and visits exactly its nodes, in order: fuel above
-- the length gives the list.
pub for_each-IsRing :
    (fuel : ℕ) {h : Links} {head : ℕ} {xs : List ℕ}
    → length xs < fuel
    → IsRing h head xs
    → for_each fuel h (h.next head) head ≡ xs
for_each-IsRing fuel {h} {head} {xs} lt r = for_each-Linked fuel h head xs head lt r.apart r.linked
