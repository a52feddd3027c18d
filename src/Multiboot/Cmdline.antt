-- ===== src/Multiboot/Cmdline.antt =====
-- Looking a key up in the command line of arch/x86_64/multiboot2.c.
use emergence_kernel.Prelude.{
  ◌∙◌, zero, ap, ==-refl, refl, ◌++◌, ◌≡◌, ==-false, inr, ◌&&◌, inl, ◌==◌, Bool-cases, [], arith,
  ◌<◌, ◌∷◌, ◌≤◌, ◌≢◌, ℕ,
}
use emergence_kernel.Multiboot.{
  none, some, Option, equals, quote, dash, suc, space, length, List, skip_spaces, skip_token,
  skip_dashes, match_key, after_equals, search_text, cmdline_get_value, value_of, copy_value,
}

length-skip_spaces : (p : List ℕ) → length (skip_spaces p) ≤ length p
unfolding skip_spaces
length-skip_spaces [] = omega arith
length-skip_spaces (c ∷ p) = ground (arith, length-skip_spaces p)

length-skip_token : (p : List ℕ) → length (skip_token p) ≤ length p
unfolding skip_token
length-skip_token [] = omega arith
length-skip_token (c ∷ p) = ground (arith, length-skip_token p)

length-skip_dashes : (p : List ℕ) → length (skip_dashes p) ≤ length p
unfolding skip_dashes
length-skip_dashes [] = omega arith
length-skip_dashes (a ∷ []) = omega arith
length-skip_dashes (a ∷ b ∷ p) = ground arith

-- What is left when a token that begins with no space is skipped, "--" before it included
length-token :
    (c : ℕ) (p : List ℕ) → c ≢ space → length (skip_token (skip_dashes (c ∷ p))) < suc (length p)
unfolding skip_dashes skip_token
length-token c [] h = ground (arith, h)
length-token c (b ∷ p) h = elim (Bool-cases ((c == dash) && (b == dash))) [
  | inl dashes ↦ rw dashes (omega (arith, length-skip_token p))
  | inr none_there ↦ rw (none_there, ==-false c space h) (omega (arith, length-skip_token (b ∷ p)))
]

-- A round of the search leaves less of the text.
length-round :
    (c : ℕ) (p : List ℕ) → length (skip_token (skip_dashes (skip_spaces (c ∷ p)))) < suc (length p)
unfolding skip_spaces
length-round c p = elim (Bool-cases (c == space)) [
  | inl blank ↦ rw blank (
      omega (
        arith,
        length-skip_token (skip_dashes (skip_spaces p)),
        length-skip_dashes (skip_spaces p),
        length-skip_spaces p,
      ))
  | inr other ↦ rw other (length-token c p (ground (arith, other)))
]

search_text-round :
    (fuel : ℕ) (key : List ℕ) (p : List ℕ) (o : Option (List ℕ)) (rest : Option (Option (List ℕ)))
    → ((v : Option (List ℕ)) × (rest ≡ some v))
    → (v : Option (List ℕ)) × (elim o as (λ x. Option (Option (List ℕ))) [
      | none ↦ rest
      | some value ↦ some (some (value_of value))
    ]
        ≡ some v)
search_text-round fuel key p none rest r = r
search_text-round fuel key p (some value) rest r = (some (value_of value), refl)

search_text-returns :
    (fuel : ℕ) (key p : List ℕ)
    → length p < fuel
    → (v : Option (List ℕ)) × (search_text fuel key p ≡ some v)
unfolding search_text
search_text-returns zero key p h = absurd (omega (arith, h))
search_text-returns (suc fuel) key [] h = (none, refl)
search_text-returns (suc fuel) key (c ∷ p) h =
    let here = skip_dashes (skip_spaces (c ∷ p)) in
    search_text-round fuel key p (after_equals (match_key key here))
      (search_text fuel key (skip_token here))
      (search_text-returns fuel key (skip_token here) (omega (arith, length-round c p, h)))

-- `cmdline_get_value` returns for every key and text: each round of its loop takes at least one
-- character of the text.
pub cmdline_get_value-returns :
    (key text : List ℕ) → (v : Option (List ℕ)) × (cmdline_get_value key text ≡ some v)
unfolding cmdline_get_value
cmdline_get_value-returns key text = search_text-returns (suc (length text)) key text (omega arith)

-- The characters of a key: no ' ', '=' and '-'
abbrev pub IsName : List ℕ → Type 0
IsName [] = Unit {0}
IsName (c ∷ cs) = (c ≢ space) × (c ≢ equals) × (c ≢ dash) × IsName cs

-- The characters of a value that is not quoted
abbrev pub IsWord : List ℕ → Type 0
IsWord [] = Unit {0}
IsWord (c ∷ cs) = (c ≢ space) × (c ≢ quote) × IsWord cs

-- The end of the text, or a ' '
abbrev pub IsBreak : List ℕ → Type 0
IsBreak [] = Unit {0}
IsBreak (c ∷ cs) = c ≡ space

match_key-prefix :
    (a b v : List ℕ) → IsName a → match_key (a ++ b) (a ++ (equals ∷ v)) ≡ some (equals ∷ v)
unfolding match_key
match_key-prefix [] [] v h = refl
match_key-prefix [] (k ∷ ks) v h = refl
match_key-prefix (c ∷ a) b v (s, e, d, h) =
    rw (==-false c equals e, ==-false c space s, ==-refl c) (match_key-prefix a b v h)

copy_value-word :
    (n : ℕ) (w rest : List ℕ)
    → IsWord w
    → IsBreak rest
    → length w ≤ n
    → copy_value n space (w ++ rest) ≡ w
unfolding copy_value
copy_value-word zero [] rest h k m = refl
copy_value-word zero (c ∷ w) rest h k m = absurd (omega (arith, m))
copy_value-word (suc n) [] [] h k m = refl
copy_value-word (suc n) [] (c ∷ rest) h k m = rw k refl
copy_value-word (suc n) (c ∷ w) rest (s, q, h) k m =
    rw (==-false c space s)
      (ap (λ (l : List ℕ). c ∷ l) (copy_value-word n w rest h k (omega (arith, m))))

value_of-word :
    (w rest : List ℕ) → IsWord w → IsBreak rest → length w ≤ 255 → value_of (w ++ rest) ≡ w
unfolding value_of copy_value
value_of-word [] [] h k m = refl
value_of-word [] (c ∷ rest) h k m = rw k refl
value_of-word (c ∷ w) rest (s, q, h) k m =
    rw (==-false c quote q) (copy_value-word 255 (c ∷ w) rest (s, q, h) k m)

skip-name : (c : ℕ) (p : List ℕ) → c ≢ space → c ≢ dash → skip_dashes (skip_spaces (c ∷ p)) ≡ c ∷ p
unfolding skip_dashes skip_spaces
skip-name c [] s d = rw (==-false c space s) refl
skip-name c (b ∷ p) s d = rw (==-false c space s, ==-false c dash d) refl

search_text-found :
    (fuel : ℕ) (key : List ℕ) (c : ℕ) (p v : List ℕ)
    → after_equals (match_key key (skip_dashes (skip_spaces (c ∷ p)))) ≡ some v
    → search_text (suc fuel) key (c ∷ p) ≡ some (some (value_of v))
unfolding search_text
search_text-found fuel key c p v e =
    ap
      (λ (o : Option (List ℕ)). elim o as (λ x. Option (Option (List ℕ))) [
        | none ↦ search_text fuel key (skip_token (skip_dashes (skip_spaces (c ∷ p))))
        | some value ↦ some (some (value_of value))
      ])
      e

-- A text that begins with name=value, the name being the key or only a beginning of it, gives the value:
-- for a name that is not empty and has no ' ', '=' or '-', and a value of at most 255 characters
-- without quotes that the end of the text or a ' ' ends.
pub cmdline_get_value-finds :
    (c : ℕ) (name more value rest : List ℕ)
    → IsName (c ∷ name)
    → IsWord value
    → IsBreak rest
    → length value ≤ 255
    → cmdline_get_value (c ∷ (name ++ more)) (c ∷ (name ++ (equals ∷ (value ++ rest))))
      ≡ some (some value)
unfolding cmdline_get_value after_equals
cmdline_get_value-finds c name more value rest (s, e, d, h) w k m =
    let behind : List ℕ = name ++ (equals ∷ (value ++ rest)) in
    search_text-found (length (c ∷ behind)) (c ∷ (name ++ more)) c behind (value ++ rest) (
      ap (λ (p : List ℕ). after_equals (match_key (c ∷ (name ++ more)) p)) (skip-name c behind s d)
      ∙ ap after_equals (match_key-prefix (c ∷ name) more (value ++ rest) (s, e, d, h)))
    ∙ ap (λ (v : List ℕ). some (some v)) (value_of-word value rest w k m)
