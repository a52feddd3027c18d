-- ===== src/Cstring/Compare.antt =====
-- Comparison in lib/minilibc/string.c.
use emergence_kernel.Prelude.{
  ℕ, zero, suc, ◌+◌, ◌<◌, ◌≡◌, refl, arith, false, not, List, [], ◌∷◌, length, take, ◌&&◌, ◌==◌,
  if◌then◌else◌, ℤ, pos,
}
use emergence_kernel.Cstring.{difference, strcmp, strncmp}
use emergence_kernel.Cstring.Copy.{IsString}

-- Two texts in order: the difference of the first characters that differ, where a text that has ended
-- counts as 0.
pub compare_text : List ℕ → List ℕ → ℤ
compare_text [] [] = pos 0
compare_text [] (y ∷ ys) = difference 0 y
compare_text (x ∷ xs) [] = difference x 0
compare_text (x ∷ xs) (y ∷ ys) = if x == y then compare_text xs ys else difference x y

difference_same : (a b : ℕ) → a ≡ b → difference a b ≡ pos 0
unfolding difference
difference_same a b e = ground (arith, e)

compare_heads :
    (a b x y : ℕ) (r t : ℤ)
    → a ≡ x
    → 0 < x
    → b ≡ y
    → r ≡ t
    → (if not (a == 0) && (a == b) then r else difference a b)
      ≡ (if x == y then t else difference x y)
compare_heads a b x y r t e positive e' h =
    let nonzero : (x == 0) ≡ false = ground (arith, positive) in rw (e, e', h, nonzero) refl

compare_end :
    (a b x : ℕ) (r : ℤ)
    → a ≡ x
    → 0 < x
    → b ≡ 0
    → (if not (a == 0) && (a == b) then r else difference a b) ≡ difference x 0
compare_end a b x r e positive e' =
    let nonzero : (x == 0) ≡ false = ground (arith, positive) in rw (e, e', nonzero) refl

-- For two strings and more fuel than the first has characters, `strcmp` gives the difference of the
-- first characters, as `unsigned char`, in which they differ, and 0 when they do not.
pub strcmp-compare_text :
    (fuel : ℕ) (m : ℕ → ℕ) (a b : ℕ) (xs ys : List ℕ)
    → IsString m a xs
    → IsString m b ys
    → length xs < fuel
    → strcmp fuel m a b ≡ compare_text xs ys
unfolding strcmp compare_text
strcmp-compare_text zero m a b xs ys h h' enough = absurd (omega (arith, enough))
strcmp-compare_text (suc fuel) m a b [] [] h h' enough = rw (h, h') (difference_same 0 0 refl)
strcmp-compare_text (suc fuel) m a b [] (y ∷ ys) h (e, positive, h') enough = rw (h, e) refl
strcmp-compare_text (suc fuel) m a b (x ∷ xs) [] (e, positive, h) h' enough =
    compare_end (m a) (m b) x (strcmp fuel m (a + 1) (b + 1)) e positive h'
strcmp-compare_text (suc fuel) m a b (x ∷ xs) (y ∷ ys) (e, positive, h) (e', positive', h') enough =
    compare_heads (m a) (m b) x y (strcmp fuel m (a + 1) (b + 1)) (compare_text xs ys) e positive e'
      (strcmp-compare_text fuel m (a + 1) (b + 1) xs ys h h' (omega (arith, enough)))

-- `strncmp` compares the first `n` characters of two strings alike.
pub strncmp-compare_text :
    (m : ℕ → ℕ) (a b n : ℕ) (xs ys : List ℕ)
    → IsString m a xs
    → IsString m b ys
    → strncmp m a b n ≡ compare_text (take n xs) (take n ys)
unfolding strncmp compare_text
strncmp-compare_text m a b zero xs ys h h' = refl
strncmp-compare_text m a b (suc n) [] [] h h' = rw (h, h') (difference_same 0 0 refl)
strncmp-compare_text m a b (suc n) [] (y ∷ ys) h (e, positive, h') = rw (h, e) refl
strncmp-compare_text m a b (suc n) (x ∷ xs) [] (e, positive, h) h' =
    compare_end (m a) (m b) x (strncmp m (a + 1) (b + 1) n) e positive h'
strncmp-compare_text m a b (suc n) (x ∷ xs) (y ∷ ys) (e, positive, h) (e', positive', h') =
    compare_heads (m a) (m b) x y (strncmp m (a + 1) (b + 1) n)
      (compare_text (take n xs) (take n ys)) e positive e'
      (strncmp-compare_text m (a + 1) (b + 1) n xs ys h h')
