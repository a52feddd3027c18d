-- ===== src/Printf/Tests.antt =====
-- Formats of lib/minilibc/printf.c printed, and the theorems at inputs that meet their hypotheses.
use emergence_kernel.Prelude.{◌≤◌, length, ℕ, ◌≡◌, refl, arith, true, List, [], ◌∷◌, pos}
use emergence_kernel.Printf.{
  plain, put, emit_char, emit_string, digit, build_digits, emit_uint, emit_int, signed, next_arg,
  drop_first, drop_arg, convert, convert_long, next_mode, act, format_loop, vsnprintf,
}
use emergence_kernel.Printf.Digits.{read_digits, uint_text, read_digits-uint_text}
use emergence_kernel.Printf.Format.{Formatted, format_text, vsnprintf-Formatted}

abbrev blank : ℕ → ℕ
blank a = 7

-- "hi"
abbrev greeting : ℕ → List ℕ
greeting a = 104 ∷ 105 ∷ []

-- The format "%d:%s", with -12 as a 32-bit word and a pointer.
abbrev format : List ℕ
format = 37 ∷ 100 ∷ 58 ∷ 37 ∷ 115 ∷ []

abbrev args : List ℕ
args = 4294967284 ∷ 4096 ∷ []

-- "-12:hi" in a buffer of 5 bytes is "-12:", and the count is 6.
truncated :
    let (m, n) = vsnprintf greeting blank 100 5 format args in
    (m 100 ≡ 45)
    × (m 101 ≡ 49)
    × (m 102 ≡ 50)
    × (m 103 ≡ 58)
    × (m 104 ≡ 0)
    × (m 105 ≡ 7)
    × (n ≡ pos 6)
unfolding vsnprintf format_loop next_mode act convert drop_arg drop_first next_arg signed emit_int
    emit_uint build_digits digit emit_string put emit_char
truncated = (refl, refl, refl, refl, refl, refl, refl)

-- "%lX" of 2^64 - 1
upper_hex :
    let (m, n) = vsnprintf greeting blank 100 40 (37 ∷ 108 ∷ 88 ∷ []) (18446744073709551615 ∷ []) in
    (m 100 ≡ 70) × (m 115 ≡ 70) × (m 116 ≡ 0) × (n ≡ pos 16)
unfolding vsnprintf format_loop next_mode act convert_long drop_arg drop_first next_arg signed
    emit_uint build_digits digit emit_string put emit_char
upper_hex = (refl, refl, refl, refl)

read_digits-uint_text_example :
    (length (uint_text 48879 16 true) ≤ 32) × (read_digits 16 0 (uint_text 48879 16 true) ≡ 48879)
read_digits-uint_text_example =
    read_digits-uint_text 48879 16 true (omega arith) (omega arith) (omega arith)

vsnprintf-Formatted_example :
    Formatted blank
      (vsnprintf greeting blank 100 5 format args).0
      100
      5
      (format_text greeting plain format args)
      (vsnprintf greeting blank 100 5 format args).1
vsnprintf-Formatted_example = vsnprintf-Formatted greeting blank 100 5 format args
