-- ===== src/Cstring/Copy.antt =====
-- Copying and filling in lib/minilibc/string.c.
use emergence_kernel.Prelude.{
  ℕ, zero, suc, ◌+◌, ◌-◌, ◌%◌, ◌≤◌, ◌<◌, ◌≡◌, ◌∙◌, ◌⊎◌, ap, subst, arith, true, false, List, [],
  ◌∷◌, length, ◌&&◌, ltb, leb, ◌==◌, if◌then◌else◌, update,
}
use emergence_kernel.Cstring.{strlen_loop, strlen, strcpy, strncpy, memset, memcpy}

-- The characters `cs`, none of them NUL, and a NUL stand at `s`.
abbrev pub IsString : (ℕ → ℕ) → ℕ → List ℕ → Type 0
IsString m s [] = m s ≡ 0
IsString m s (c ∷ cs) = (m s ≡ c) × (0 < c) × IsString m (s + 1) cs

-- `memset` fills exactly the `n` bytes from `s` on.
pub memset-fills :
    (m : ℕ → ℕ) (s c n a : ℕ)
    → memset m s c n a ≡ (if leb s a && ltb a (s + n) then c % 256 else m a)
unfolding memset
memset-fills m s c zero a = ground arith
memset-fills m s c (suc n) a = memset-fills (update m s (c % 256)) (s + 1) c n a ∙ ground arith

copy_step :
    (m : ℕ → ℕ) (dest src n a : ℕ)
    → (dest + suc n ≤ src) ⊎ (src + suc n ≤ dest)
    → (if leb (dest + 1) a && ltb a (dest + 1 + n)
        then update m dest (m src) (src + 1 + (a - (dest + 1)))
        else update m dest (m src) a)
      ≡ (if leb dest a && ltb a (dest + suc n) then m (src + (a - dest)) else m a)
copy_step m dest src n a apart = ground (arith, apart, ap m place_first)
  where
    place_first : src + (dest - dest) ≡ src
    place_first = omega arith

-- Between areas that do not overlap, `memcpy` copies exactly `n` bytes.
pub memcpy-copies :
    (m : ℕ → ℕ) (dest src n a : ℕ)
    → (dest + n ≤ src) ⊎ (src + n ≤ dest)
    → memcpy m dest src n a ≡ (if leb dest a && ltb a (dest + n) then m (src + (a - dest)) else m a)
unfolding memcpy
memcpy-copies m dest src zero a apart = ground arith
memcpy-copies m dest src (suc n) a apart =
    memcpy-copies (update m dest (m src)) (dest + 1) (src + 1) n a (ground (arith, apart))
    ∙ copy_step m dest src n a apart

strlen_loop-IsString :
    (fuel : ℕ) (m : ℕ → ℕ) (s len : ℕ) (cs : List ℕ)
    → IsString m (s + len) cs
    → length cs < fuel
    → strlen_loop fuel m s len ≡ len + length cs
unfolding strlen_loop
strlen_loop-IsString zero m s len cs h enough = absurd (omega (arith, enough))
strlen_loop-IsString (suc fuel) m s len [] h enough = ground (arith, h)
strlen_loop-IsString (suc fuel) m s len (c ∷ cs) (e, positive, h) enough =
    let rest =
      strlen_loop-IsString fuel m s (len + 1) cs (subst (λ b. IsString m b cs) (omega arith) h)
        (omega (arith, enough)) in
    ground (arith, e, positive, rest)

-- For a string and more fuel than it has characters, `strlen` returns their number.
pub strlen-IsString :
    (fuel : ℕ) (m : ℕ → ℕ) (s : ℕ) (cs : List ℕ)
    → IsString m s cs
    → length cs < fuel
    → strlen fuel m s ≡ length cs
unfolding strlen
strlen-IsString fuel m s cs h enough =
    strlen_loop-IsString fuel m s 0 cs (subst (λ b. IsString m b cs) (omega arith) h) enough
    ∙ omega arith

-- A write that does not meet the string leaves it a string.
IsString-update :
    (m : ℕ → ℕ) (d v s : ℕ) (cs : List ℕ)
    → (d < s) ⊎ (s + length cs < d)
    → IsString m s cs
    → IsString (update m d v) s cs
IsString-update m d v s [] apart h = ground (arith, apart, h)
IsString-update m d v s (c ∷ cs) apart (e, positive, h) =
    (ground (arith, apart, e), positive, IsString-update m d v (s + 1) cs (ground (arith, apart)) h)

pad_step :
    (m : ℕ → ℕ) (dest n a : ℕ)
    → (if leb (dest + 1) a && ltb a (dest + 1 + n) then 0 else update m dest 0 a)
      ≡ (if leb dest a && ltb a (dest + suc n) then 0 else m a)
pad_step m dest n a = ground arith

-- At the end of the string `strncpy` writes NULs.
strncpy-empty :
    (m : ℕ → ℕ) (dest src n a : ℕ)
    → m src ≡ 0
    → (dest + n ≤ src) ⊎ (src < dest)
    → strncpy m dest src n a ≡ (if leb dest a && ltb a (dest + n) then 0 else m a)
unfolding strncpy
strncpy-empty m dest src zero a e apart = ground arith
strncpy-empty m dest src (suc n) a e apart = rw e (
    strncpy-empty (update m dest 0) (dest + 1) src n a (ground (arith, e, apart))
      (ground (arith, apart))
    ∙ pad_step m dest n a)

copied_step :
    (m : ℕ → ℕ) (dest src n k a : ℕ)
    → (dest + suc n ≤ src) ⊎ (src + suc k < dest)
    → (if leb (dest + 1) a && ltb a (dest + 1 + n)
        then (if ltb (a - (dest + 1)) k
            then update m dest (m src) (src + 1 + (a - (dest + 1)))
            else 0)
        else update m dest (m src) a)
      ≡ (if leb dest a && ltb a (dest + suc n)
          then (if ltb (a - dest) (suc k) then m (src + (a - dest)) else 0)
          else m a)
copied_step m dest src n k a apart = ground (arith, apart, ap m (same_place dest))
  where
    same_place : (d : ℕ) → src + (d - d) ≡ src
    same_place d = omega arith

-- When the string at `src`, its NUL included, does not meet the `n` bytes at `dest`, `strncpy` writes
-- exactly these `n` bytes: the characters of the string as far as they go, and NULs after them; a
-- string of `n` characters or more gets no NUL.
pub strncpy-pads :
    (m : ℕ → ℕ) (dest src n a : ℕ) (cs : List ℕ)
    → IsString m src cs
    → (dest + n ≤ src) ⊎ (src + length cs < dest)
    → strncpy m dest src n a ≡ (
        if leb dest a && ltb a (dest + n)
        then (if ltb (a - dest) (length cs) then m (src + (a - dest)) else 0)
        else m a)
unfolding strncpy
strncpy-pads m dest src zero a cs h apart = ground arith
strncpy-pads m dest src (suc n) a [] h apart =
    ground (arith, strncpy-empty m dest src (suc n) a h (ground (arith, apart)))
strncpy-pads m dest src (suc n) a (c ∷ cs) (e, positive, h) apart =
    let more : (m src == 0) ≡ false = ground (arith, e, positive) in
    rw more (
      strncpy-pads (update m dest (m src)) (dest + 1) (src + 1) n a cs
        (IsString-update m dest (m src) (src + 1) cs (ground (arith, apart)) h)
        (ground (arith, apart))
      ∙ copied_step m dest src n (length cs) a apart)

strcpy_step :
    (m : ℕ → ℕ) (dest src k a : ℕ)
    → (dest + suc k < src) ⊎ (src + suc k < dest)
    → (if leb (dest + 1) a && leb a (dest + 1 + k)
        then update m dest (m src) (src + 1 + (a - (dest + 1)))
        else update m dest (m src) a)
      ≡ (if leb dest a && leb a (dest + suc k) then m (src + (a - dest)) else m a)
strcpy_step m dest src k a apart = ground (arith, apart, ap m same_place)
  where
    same_place : src + (dest - dest) ≡ src
    same_place = omega arith

strcpy_end :
    (m : ℕ → ℕ) (dest src a : ℕ)
    → update m dest (m src) a
      ≡ (if leb dest a && leb a (dest + 0) then m (src + (a - dest)) else m a)
strcpy_end m dest src a = ground (arith, ap m same_place)
  where
    same_place : src + (dest - dest) ≡ src
    same_place = omega arith

-- When the string at `src` and the place for it at `dest` do not meet, and the fuel is more than its
-- characters, `strcpy` copies the characters and the NUL and writes nothing else.
pub strcpy-copies :
    (fuel : ℕ) (m : ℕ → ℕ) (dest src a : ℕ) (cs : List ℕ)
    → IsString m src cs
    → (dest + length cs < src) ⊎ (src + length cs < dest)
    → length cs < fuel
    → strcpy fuel m dest src a
      ≡ (if leb dest a && leb a (dest + length cs) then m (src + (a - dest)) else m a)
unfolding strcpy
strcpy-copies zero m dest src a cs h apart enough = absurd (omega (arith, enough))
strcpy-copies (suc fuel) m dest src a [] h apart enough =
    let ended : (m src == 0) ≡ true = ground (arith, h) in rw ended (strcpy_end m dest src a)
strcpy-copies (suc fuel) m dest src a (c ∷ cs) (e, positive, h) apart enough =
    let more : (m src == 0) ≡ false = ground (arith, e, positive) in
    rw more (
      strcpy-copies fuel (update m dest (m src)) (dest + 1) (src + 1) a cs
        (IsString-update m dest (m src) (src + 1) cs (ground (arith, apart)) h)
        (ground (arith, apart)) (omega (arith, enough))
      ∙ strcpy_step m dest src (length cs) a apart)
