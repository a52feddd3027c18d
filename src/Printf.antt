-- ===== src/Printf.antt =====
-- lib/minilibc/printf.c: formatted output into a buffer of limited size. A character is its code, a
-- C string is the list of its characters before the NUL, and the variable arguments are the words
-- that va_arg reads one after another; a word that the caller did not pass reads as 0.
pub mod Emit
pub mod Digits
pub mod Convert
pub mod Format
mod Tests
use emergence_kernel.Prelude.{
  ℕ, zero, suc, ◌+◌, ◌-◌, ◌*◌, ◌/◌, ◌%◌, ◌^◌, Bool, true, false, ◌||◌, List, [], ◌∷◌, length, ltb,
  ◌==◌, if◌then◌else◌, update, ℤ, pos, negsuc,
}

-- The memory, the pointer `buf` and the counters `remaining` and `written`, with the arguments left.
pub record Printer : Type 0 where
  pub memory : ℕ → ℕ
  pub buf : ℕ
  pub remaining : ℕ
  pub written : ℕ
  pub args : List ℕ

-- `if (remaining > 1) { *buf++ = c; remaining--; }`, as in `emit_char`
unfoldable pub emit_char : Printer → ℕ → Printer
emit_char p c =
    if ltb 1 p.remaining
    then record p { memory = update p.memory p.buf c; buf = p.buf + 1; remaining = p.remaining - 1 }
    else p

-- A character is counted whether or not there was room for it.
unfoldable pub put : Printer → ℕ → Printer
put p c = let q = emit_char p c in record q { written = q.written + 1 }

unfoldable pub emit_string : Printer → List ℕ → Printer
emit_string p [] = p
emit_string p (c ∷ cs) = emit_string (put p c) cs

-- `digits_lower[d]` and `digits_upper[d]`
unfoldable pub digit : Bool → ℕ → ℕ
digit uppercase d = if ltb d 10 then 48 + d else (if uppercase then 55 + d else 87 + d)

-- The loop that builds the digits: `tmp` is a stack, the last digit built on top. The number of
-- digits to go is the fuel. The stack has no end here; the 32 places of the code are enough for the
-- bases 10 and 16, the only ones that `emit_uint` is called with, and for every base from 4 on.
unfoldable pub build_digits : ℕ → Bool → ℕ → ℕ → List ℕ → List ℕ
build_digits zero uppercase base val tmp = tmp
build_digits (suc fuel) uppercase base val tmp =
    let rest = build_digits fuel uppercase base (val / base) (digit uppercase (val % base) ∷ tmp) in
    if ltb 0 val then rest else tmp

unfoldable pub emit_uint : Printer → ℕ → ℕ → Bool → Printer
emit_uint p val base uppercase =
    if val == 0 then put p 48 else emit_string p (build_digits 64 uppercase base val [])

unfoldable pub emit_int : Printer → ℤ → Printer
emit_int p (pos n) = emit_uint p n 10 false
emit_int p (negsuc n) = emit_uint (put p 45) (suc n) 10 false

-- A word as a signed number of `w` bits.
unfoldable pub signed : ℕ → ℕ → ℤ
signed w n = let m = n % 2 ^ w in if ltb (2 * m) (2 ^ w) then pos m else negsuc (2 ^ w - 1 - m)

-- `va_arg(ap, ...)`
unfoldable pub next_arg : List ℕ → ℕ
next_arg [] = 0
next_arg (w ∷ ws) = w

unfoldable pub drop_first : List ℕ → List ℕ
drop_first [] = []
drop_first (w ∷ ws) = ws

unfoldable pub drop_arg : Printer → Printer
drop_arg p = record p { args = drop_first p.args }

-- The conversions that take an argument, and what they read of it. `%s` reads the characters at a
-- pointer, `strings`; the output does not overlap them.
unfoldable pub convert : (ℕ → List ℕ) → ℕ → Printer → Printer
convert strings c p =
    let w = next_arg p.args in
    let q = drop_arg p in
    if c == 37
    then put p 37
    else if c == 99
    then put q (w % 256)
    else if c == 115
    then emit_string q (if w == 0 then 40 ∷ 110 ∷ 117 ∷ 108 ∷ 108 ∷ 41 ∷ [] else strings w)
    else if (c == 100) || (c == 105)
    then emit_int q (signed 32 w)
    else if c == 117
    then emit_uint q (w % 2 ^ 32) 10 false
    else if c == 120
    then emit_uint q (w % 2 ^ 32) 16 false
    else if c == 88
    then emit_uint q (w % 2 ^ 32) 16 true
    else if c == 112
    then emit_uint (put (put q 48) 120) w 16 false
    else put (put p 37) c

-- After `%l`
unfoldable pub convert_long : ℕ → Printer → Printer
convert_long c p =
    let w = next_arg p.args in
    let q = drop_arg p in
    if (c == 100) || (c == 105)
    then emit_int q (signed 64 w)
    else if c == 117
    then emit_uint q (w % 2 ^ 64) 10 false
    else if c == 120
    then emit_uint q (w % 2 ^ 64) 16 false
    else if c == 88
    then emit_uint q (w % 2 ^ 64) 16 true
    else put (put (put p 37) 108) c

-- Where the loop stands: at a plain character, after a `%`, or after `%l`.
pub data Mode : Type 0 where
  plain percent long : Mode

unfoldable pub next_mode : Mode → ℕ → Mode
next_mode plain c = if c == 37 then percent else plain
next_mode percent c = if c == 108 then long else plain
next_mode long c = plain

unfoldable pub act : (ℕ → List ℕ) → Mode → ℕ → Printer → Printer
act strings plain c p = if c == 37 then p else put p c
act strings percent c p = if c == 108 then p else convert strings c p
act strings long c p = convert_long c p

-- The loop over the format: a `%` at its end prints nothing, and `%l` at its end prints itself.
unfoldable pub format_loop : (ℕ → List ℕ) → Mode → List ℕ → Printer → Printer
format_loop strings plain [] p = p
format_loop strings percent [] p = p
format_loop strings long [] p = put (put p 37) 108
format_loop strings mode (c ∷ cs) p =
    format_loop strings (next_mode mode c) cs (act strings mode c p)

-- The memory afterwards, and the count as an `int`.
unfoldable pub vsnprintf : (ℕ → List ℕ) → (ℕ → ℕ) → ℕ → ℕ → List ℕ → List ℕ → (ℕ → ℕ) × ℤ
vsnprintf strings memory str size format args =
    let start : Printer = record {
      memory = memory;
      buf = if size == 0 then 0 else str;
      remaining = size;
      written = 0;
      args = args;
    } in
    let p = format_loop strings plain format start in
    (if size == 0 then p.memory else update p.memory p.buf 0, signed 32 p.written)
