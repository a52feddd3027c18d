-- ===== src/Cstring.antt =====
-- lib/minilibc/string.c: the string and memory routines on a byte memory. Pointers are addresses, and
-- a routine that returns its first argument returns the memory.
pub mod Copy
pub mod Compare
mod Tests
use emergence_kernel.Prelude.{
  ℕ, zero, suc, ◌+◌, ◌-◌, ◌%◌, not, ◌&&◌, ltb, ◌==◌, if◌then◌else◌, update, ℤ, pos, negsuc,
}

-- `while (s[len] != '\0') len++`, with fuel
unfoldable pub strlen_loop : ℕ → (ℕ → ℕ) → ℕ → ℕ → ℕ
strlen_loop zero m s len = len
strlen_loop (suc fuel) m s len =
    let rest = strlen_loop fuel m s (len + 1) in if m (s + len) == 0 then len else rest

unfoldable pub strlen : ℕ → (ℕ → ℕ) → ℕ → ℕ
strlen fuel m s = strlen_loop fuel m s 0

-- `while ((*d++ = *src++) != '\0')`, with fuel
unfoldable pub strcpy : ℕ → (ℕ → ℕ) → ℕ → ℕ → ℕ → ℕ
strcpy zero m dest src = m
strcpy (suc fuel) m dest src =
    let rest = strcpy fuel (update m dest (m src)) (dest + 1) (src + 1) in
    if m src == 0 then update m dest (m src) else rest

unfoldable pub strncpy : (ℕ → ℕ) → ℕ → ℕ → ℕ → ℕ → ℕ
strncpy m dest src zero = m
strncpy m dest src (suc n) =
    strncpy (update m dest (m src)) (dest + 1) (if m src == 0 then src else src + 1) n

-- The difference of two `unsigned char` as an `int`
unfoldable pub difference : ℕ → ℕ → ℤ
difference a b = if ltb a b then negsuc (b - a - 1) else pos (a - b)

unfoldable pub strcmp : ℕ → (ℕ → ℕ) → ℕ → ℕ → ℤ
strcmp zero m s1 s2 = pos 0
strcmp (suc fuel) m s1 s2 =
    let rest = strcmp fuel m (s1 + 1) (s2 + 1) in
    if not (m s1 == 0) && (m s1 == m s2) then rest else difference (m s1) (m s2)

unfoldable pub strncmp : (ℕ → ℕ) → ℕ → ℕ → ℕ → ℤ
strncmp m s1 s2 zero = pos 0
strncmp m s1 s2 (suc n) =
    let rest = strncmp m (s1 + 1) (s2 + 1) n in
    if not (m s1 == 0) && (m s1 == m s2) then rest else difference (m s1) (m s2)

unfoldable pub memset : (ℕ → ℕ) → ℕ → ℕ → ℕ → ℕ → ℕ
memset m s c zero = m
memset m s c (suc n) = memset (update m s (c % 256)) (s + 1) c n

unfoldable pub memcpy : (ℕ → ℕ) → ℕ → ℕ → ℕ → ℕ → ℕ
memcpy m dest src zero = m
memcpy m dest src (suc n) = memcpy (update m dest (m src)) (dest + 1) (src + 1) n
