-- ===== src/Printf/Convert.antt =====
-- The conversions of vsnprintf in lib/minilibc/printf.c, one by one.
use emergence_kernel.Prelude.{
  ℕ, ◌%◌, ◌^◌, ◌≡◌, subst, refl, arith, Bool, true, false, ◌||◌, List, [], ◌∷◌, ◌==◌, if◌then◌else◌,
}
use emergence_kernel.Printf.{
  Printer, put, emit_uint, signed, next_arg, drop_first, drop_arg, convert, convert_long,
}
use emergence_kernel.Printf.Emit.{
  Printed, put-Printed, emit_string-Printed, Printed-trans, Printed-if,
}
use emergence_kernel.Printf.Digits.{uint_text, int_text, emit_uint-Printed, emit_int-Printed}

-- The text of one conversion, by its character, with the word it reads.
pub convert_text : (ℕ → List ℕ) → ℕ → ℕ → List ℕ
convert_text strings c w =
    if c == 37
    then 37 ∷ []
    else if c == 99
    then w % 256 ∷ []
    else if c == 115
    then (if w == 0 then 40 ∷ 110 ∷ 117 ∷ 108 ∷ 108 ∷ 41 ∷ [] else strings w)
    else if (c == 100) || (c == 105)
    then int_text (signed 32 w)
    else if c == 117
    then uint_text (w % 2 ^ 32) 10 false
    else if c == 120
    then uint_text (w % 2 ^ 32) 16 false
    else if c == 88
    then uint_text (w % 2 ^ 32) 16 true
    else if c == 112
    then 48 ∷ 120 ∷ uint_text w 16 false
    else 37 ∷ c ∷ []

pub convert_long_text : ℕ → ℕ → List ℕ
convert_long_text c w =
    if (c == 100) || (c == 105)
    then int_text (signed 64 w)
    else if c == 117
    then uint_text (w % 2 ^ 64) 10 false
    else if c == 120
    then uint_text (w % 2 ^ 64) 16 false
    else if c == 88
    then uint_text (w % 2 ^ 64) 16 true
    else 37 ∷ 108 ∷ c ∷ []

-- The conversions that read an argument: d i u x X, and c s p without an l.
pub reads_long : ℕ → Bool
reads_long c = (c == 100) || (c == 105) || (c == 117) || (c == 120) || (c == 88)

pub reads : ℕ → Bool
reads c = reads_long c || (c == 99) || (c == 115) || (c == 112)

-- What stays the same when an argument has been read.
after_arg : {p q : Printer} {t rest : List ℕ} → Printed (drop_arg p) q t rest → Printed p q t rest
unfolding drop_arg
after_arg h = record {
  counted = h.counted;
  moved = h.moved;
  room = h.room;
  inside = h.inside;
  outside = h.outside;
  left = h.left;
}

putting :
    {p q : Printer} {t rest : List ℕ} (c : ℕ)
    → Printed (put p c) q t rest
    → Printed p q (c ∷ t) rest
putting {p} c h = Printed-trans (put-Printed p c) h

pub two_put : (p : Printer) (c d : ℕ) → Printed p (put (put p c) d) (c ∷ d ∷ []) p.args
two_put p c d =
    let one = put-Printed p c in
    subst (λ rest. Printed p (put (put p c) d) (c ∷ d ∷ []) rest) one.left
      (putting c (put-Printed (put p c) d))

three_put : (p : Printer) (c d e : ℕ) → Printed p (put (put (put p c) d) e) (c ∷ d ∷ e ∷ []) p.args
three_put p c d e =
    let one = put-Printed p c in
    subst (λ rest. Printed p (put (put (put p c) d) e) (c ∷ d ∷ e ∷ []) rest) one.left
      (putting c (two_put (put p c) d e))

module _ {A : Type 0} where
  rest_long :
      (a b c d e : Bool) (x y : A)
      → (if a || b then x else (if c then x else (if d then x else (if e then x else y))))
        ≡ (if a || b || c || d || e then x else y)
  rest_long true b c d e x y = refl
  rest_long false true c d e x y = refl
  rest_long false false true d e x y = refl
  rest_long false false false true e x y = refl
  rest_long false false false false true x y = refl
  rest_long false false false false false x y = refl

pub convert_long-Printed :
    (c : ℕ) (p : Printer)
    → Printed p
        (convert_long c p)
        (convert_long_text c (next_arg p.args))
        (if reads_long c then drop_first p.args else p.args)
unfolding convert_long convert_long_text reads_long drop_arg
convert_long-Printed c p =
    let q = drop_arg p in
    let w = next_arg p.args in
    subst (λ rest. Printed p (convert_long c p) (convert_long_text c w) rest)
      (rest_long (c == 100) (c == 105) (c == 117) (c == 120) (c == 88) (drop_first p.args) p.args)
      (Printed-if ((c == 100) || (c == 105)) (after_arg (emit_int-Printed q (signed 64 w))) (
        Printed-if (c == 117) (after_arg (emit_uint-Printed q (w % 2 ^ 64) 10 false)) (
          Printed-if (c == 120) (after_arg (emit_uint-Printed q (w % 2 ^ 64) 16 false)) (
            Printed-if (c == 88) (after_arg (emit_uint-Printed q (w % 2 ^ 64) 16 true))
              (three_put p 37 108 c)))))

pointer :
    (q : Printer) (w : ℕ)
    → Printed q (emit_uint (put (put q 48) 120) w 16 false) (48 ∷ 120 ∷ uint_text w 16 false) q.args
pointer q w =
    let zero_x = two_put q 48 120 in
    subst
      (λ rest.
        Printed q (emit_uint (put (put q 48) 120) w 16 false) (48 ∷ 120 ∷ uint_text w 16 false)
          rest)
      zero_x.left (Printed-trans zero_x (emit_uint-Printed (put (put q 48) 120) w 16 false))

-- `reads` with its tests in the order of the code.
reads-order :
    (c : ℕ) (x y : List ℕ)
    → (if c == 37
        then y
        else if c == 99
        then x
        else if c == 115
        then x
        else if (c == 100) || (c == 105)
        then x
        else if c == 117
        then x
        else if c == 120
        then x
        else if c == 88
        then x
        else if c == 112
        then x
        else y)
      ≡ (if reads c then x else y)
unfolding reads reads_long
reads-order c x y = ground arith

null_text : List ℕ
null_text = 40 ∷ 110 ∷ 117 ∷ 108 ∷ 108 ∷ 41 ∷ []

pub convert-Printed :
    (strings : ℕ → List ℕ) (c : ℕ) (p : Printer)
    → Printed p
        (convert strings c p)
        (convert_text strings c (next_arg p.args))
        (if reads c then drop_first p.args else p.args)
unfolding convert convert_text drop_arg null_text
convert-Printed strings c p =
    let q = drop_arg p in
    let w = next_arg p.args in
    let x = drop_first p.args in
    let y = p.args in
    subst (λ rest. Printed p (convert strings c p) (convert_text strings c w) rest)
      (reads-order c x y)
      (Printed-if (c == 37) (put-Printed p 37) (
        Printed-if (c == 99) (after_arg (put-Printed q (w % 256))) (
          Printed-if (c == 115)
            (after_arg (emit_string-Printed q (if w == 0 then null_text else strings w)))
            (Printed-if ((c == 100) || (c == 105)) (after_arg (emit_int-Printed q (signed 32 w))) (
              Printed-if (c == 117) (after_arg (emit_uint-Printed q (w % 2 ^ 32) 10 false)) (
                Printed-if (c == 120) (after_arg (emit_uint-Printed q (w % 2 ^ 32) 16 false)) (
                  Printed-if (c == 88) (after_arg (emit_uint-Printed q (w % 2 ^ 32) 16 true))
                    (Printed-if (c == 112) (after_arg (pointer q w)) (two_put p 37 c)))))))))
