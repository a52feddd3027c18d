-- ===== src/ListHead/Tests.antt =====
-- Concrete runs of kernel/list.h, and the theorems at inputs that meet their hypotheses.
use emergence_kernel.Prelude.{◌≡◌, refl, arith, [], ◌∷◌, ◌++◌}
use emergence_kernel.ListHead.{Links, push_front, push_back, remove, for_each}
use emergence_kernel.ListHead.Ring.{IsRing}
use emergence_kernel.ListHead.Insert.{push_back-IsRing}
use emergence_kernel.ListHead.Remove.{remove-IsRing}

abbrev blank : Links
blank = record { next = λ p. p; prev = λ p. p }

-- The list 10, 20, 30 at the head 1.
abbrev three : Links
unfolding push_back
three = push_back (push_back (push_back blank 1 10) 1 20) 1 30

three-IsRing : IsRing three 1 (10 ∷ 20 ∷ 30 ∷ [])
unfolding push_back
three-IsRing = record {
  linked = (refl, refl, (refl, refl, (refl, refl, (refl, refl))));
  apart = omega arith;
  distinct = omega arith;
}

walk : for_each 5 three (three.next 1) 1 ≡ 10 ∷ 20 ∷ 30 ∷ []
unfolding for_each three
walk = refl

front_goes_first :
    for_each 5 (push_front three 1 40) ((push_front three 1 40).next 1) 1 ≡ 40 ∷ 10 ∷ 20 ∷ 30 ∷ []
unfolding for_each three push_front
front_goes_first = refl

push_back-IsRing_example : IsRing (push_back three 1 40) 1 ((10 ∷ 20 ∷ 30 ∷ []) ++ 40 ∷ [])
push_back-IsRing_example = push_back-IsRing 40 (omega arith) (omega arith) three-IsRing

remove-IsRing_example :
    IsRing (remove three 20) 1 ((10 ∷ []) ++ 30 ∷ []) × IsRing (remove three 20) 20 []
remove-IsRing_example = remove-IsRing (10 ∷ []) 20 (30 ∷ []) three-IsRing
