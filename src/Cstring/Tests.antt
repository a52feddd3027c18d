-- ===== src/Cstring/Tests.antt =====
-- The routines of lib/minilibc/string.c on two small strings.
use emergence_kernel.Prelude.{ℕ, ◌≡◌, refl, arith, [], ◌∷◌, update}
use emergence_kernel.Cstring.{strlen, strlen_loop, strncpy}
use emergence_kernel.Cstring.Copy.{IsString}

-- "abc" at 10 and "ab" at 20, and 9 elsewhere.
abbrev memory : ℕ → ℕ
memory =
    update
      (update (update (update (update (update (update (λ a. 9) 10 97) 11 98) 12 99) 13 0) 20 97) 21
        98)
      22 0

abc : IsString memory 10 (97 ∷ 98 ∷ 99 ∷ [])
abc = (refl, omega arith, (refl, omega arith, (refl, omega arith, refl)))

ab : IsString memory 20 (97 ∷ 98 ∷ [])
ab = (refl, omega arith, (refl, omega arith, refl))

length_abc : strlen 9 memory 10 ≡ 3
unfolding strlen strlen_loop
length_abc = refl

padded :
    let m = strncpy memory 30 20 4 in
    (m 30 ≡ 97) × (m 31 ≡ 98) × (m 32 ≡ 0) × (m 33 ≡ 0) × (m 34 ≡ 9)
unfolding strncpy
padded = (refl, refl, refl, refl, refl)
