-- ===== src/Printf/Format.antt =====
-- vsnprintf of lib/minilibc/printf.c against the text that its format stands for.
use emergence_kernel.Prelude.{
  ℕ, ◌+◌, ◌-◌, ◌≤◌, ◌<◌, ◌≡◌, ◌∙◌, ◌⊎◌, min, sym, ap, subst, inl, inr, arith, Bool, true, false,
  some, List, [], ◌∷◌, ◌++◌, length, get_elem?, ◌==◌, if◌then◌else◌, update, ℤ, Bool-cases,
}
use emergence_kernel.Printf.{
  Printer, Mode, plain, percent, long, put, signed, next_arg, drop_first, convert, convert_long,
  next_mode, act, format_loop, vsnprintf,
}
use emergence_kernel.Printf.Emit.{Printed, Printed-nil, put-Printed, Printed-trans, elsewhere}
use emergence_kernel.Printf.Convert.{
  convert_text, convert_long_text, reads, reads_long, two_put, convert_long-Printed,
  convert-Printed,
}

-- The text of a format and its arguments, without regard to the buffer.
pub format_text : (ℕ → List ℕ) → Mode → List ℕ → List ℕ → List ℕ
format_text strings plain [] args = []
format_text strings percent [] args = []
format_text strings long [] args = 37 ∷ 108 ∷ []
format_text strings plain (c ∷ cs) args =
    if c == 37 then format_text strings percent cs args else c ∷ format_text strings plain cs args
format_text strings percent (c ∷ cs) args =
    if c == 108
    then format_text strings long cs args
    else convert_text strings c (next_arg args)
      ++ format_text strings plain cs (if reads c then drop_first args else args)
format_text strings long (c ∷ cs) args =
    convert_long_text c (next_arg args)
    ++ format_text strings plain cs (if reads_long c then drop_first args else args)

-- `q` is `p` after the text, whatever arguments are left.
abbrev Wrote : Printer → Printer → List ℕ → Type 0
Wrote p q t = Printed p q t q.args

settle : {p q : Printer} {t rest : List ℕ} → Printed p q t rest → Wrote p q t
settle {p} {q} {t} h = subst (λ rest. Printed p q t rest) (sym h.left) h

-- Going on after one step of the loop.
go_on :
    {p q r : Printer} {t : List ℕ} (strings : ℕ → List ℕ) (cs rest : List ℕ)
    → Printed p q t rest
    → Wrote q r (format_text strings plain cs q.args)
    → Wrote p r (t ++ format_text strings plain cs rest)
go_on {p} {q} {r} {t} strings cs rest a b =
    subst (λ args. Wrote p r (t ++ format_text strings plain cs args)) a.left (Printed-trans a b)

module _ (strings : ℕ → List ℕ) (c : ℕ) (cs : List ℕ) (p : Printer) where
  step-plain :
      (b : Bool)
      → Wrote p (format_loop strings percent cs p) (format_text strings percent cs p.args)
      → Wrote p (format_loop strings plain cs (put p c)) (c ∷ format_text strings plain cs p.args)
      → Wrote p (format_loop strings (if b then percent else plain) cs (if b then p else put p c)) (
          if b
          then format_text strings percent cs p.args
          else c ∷ format_text strings plain cs p.args)
  step-plain true h h' = h
  step-plain false h h' = h'

  step-percent :
      (b : Bool) (q : Printer) (t : List ℕ)
      → Wrote p (format_loop strings long cs p) (format_text strings long cs p.args)
      → Wrote p (format_loop strings plain cs q) t
      → Wrote p
          (format_loop strings (if b then long else plain) cs (if b then p else q))
          (if b then format_text strings long cs p.args else t)
  step-percent true q t h h' = h
  step-percent false q t h h' = h'

format_loop-Wrote :
    (strings : ℕ → List ℕ) (mode : Mode) (format : List ℕ) (p : Printer)
    → Wrote p (format_loop strings mode format p) (format_text strings mode format p.args)
unfolding format_loop format_text act next_mode
format_loop-Wrote strings plain [] p = Printed-nil p
format_loop-Wrote strings percent [] p = Printed-nil p
format_loop-Wrote strings long [] p = settle (two_put p 37 108)
format_loop-Wrote strings plain (c ∷ cs) p =
    step-plain strings c cs p (c == 37) (format_loop-Wrote strings percent cs p)
      (go_on strings cs p.args (put-Printed p c) (format_loop-Wrote strings plain cs (put p c)))
format_loop-Wrote strings percent (c ∷ cs) p =
    step-percent strings c cs p (c == 108) (convert strings c p)
      (convert_text strings c (next_arg p.args)
        ++ format_text strings plain cs (if reads c then drop_first p.args else p.args))
      (format_loop-Wrote strings long cs p)
      (go_on strings cs (if reads c then drop_first p.args else p.args)
        (convert-Printed strings c p) (format_loop-Wrote strings plain cs (convert strings c p)))
format_loop-Wrote strings long (c ∷ cs) p =
    go_on strings cs (if reads_long c then drop_first p.args else p.args) (convert_long-Printed c p)
      (format_loop-Wrote strings plain cs (convert_long c p))

at_place : (m : ℕ → ℕ) (b a : ℕ) → b ≡ a → update m b 0 a ≡ 0
at_place m b a e = ground arith

-- What a call leaves in memory, and its result: `n` characters of the text fit.
pub record Formatted (memory after : ℕ → ℕ) (str size : ℕ) (t : List ℕ) (result : ℤ) : Type 0 where
  pub prefix : (i : ℕ) → i < min (length t) (size - 1) → get_elem? t i ≡ some (after (str + i))
  pub terminated : 0 < size → after (str + min (length t) (size - 1)) ≡ 0
  pub kept : (a : ℕ) → (a < str) ⊎ (str + size ≤ a) → after a ≡ memory a
  pub counted : result ≡ signed 32 (length t)

-- For every format, arguments and size, `vsnprintf` writes the longest prefix of the text of the
-- format that leaves room for a NUL, ends it with the NUL, touches no memory outside the `size`
-- bytes of the buffer, and returns the length of the whole text as an `int`; with size 0 it writes
-- nothing.
pub vsnprintf-Formatted :
    (strings : ℕ → List ℕ) (memory : ℕ → ℕ) (str size : ℕ) (format args : List ℕ)
    → Formatted memory
        (vsnprintf strings memory str size format args).0
        str
        size
        (format_text strings plain format args)
        (vsnprintf strings memory str size format args).1
unfolding vsnprintf
vsnprintf-Formatted strings memory str size format args = elim (Bool-cases (size == 0)) [
  | inl none ↦
      let h = format_loop-Wrote strings plain format (starting 0) in
      rw none (record {
        prefix = λ i lt. absurd (ground (arith, lt));
        terminated = λ positive. absurd (ground (arith, positive));
        kept = λ a out. h.outside a (inr (ground arith));
        counted = ap (signed 32) (omega (arith, h.counted));
      })
  | inr some_room ↦
      let h = format_loop-Wrote strings plain format (starting str) in
      let q = format_loop strings plain format (starting str) in
      let n = length (format_text strings plain format args) in
      rw some_room (record {
        prefix = λ i lt.
            h.inside i lt
            ∙ ap some
                (sym (elsewhere q.memory q.buf 0 (str + i) (inl (omega (arith, h.moved, lt)))));
        terminated = λ positive. at_place q.memory q.buf (str + min n (size - 1)) h.moved;
        kept = λ a out.
            elsewhere q.memory q.buf 0 a (ground (arith, out, h.moved))
            ∙ h.outside a (ground (arith, out));
        counted = ap (signed 32) (omega (arith, h.counted));
      })
]
  where
    starting : ℕ → Printer
    starting buf = record { memory = memory; buf = buf; remaining = size; written = 0; args = args }
