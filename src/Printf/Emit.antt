-- ===== src/Printf/Emit.antt =====
-- The buffer of lib/minilibc/printf.c: what is written where, and when it is full.
use emergence_kernel.Prelude.{
  ℕ, zero, suc, ◌+◌, ◌-◌, ◌≤◌, ◌<◌, ◌≡◌, ◌∙◌, ◌⊎◌, min, sym, ap, subst, refl, inl, inr, arith, Bool,
  true, false, some, List, [], ◌∷◌, ◌++◌, length, length-append, get_elem?, ltb, if◌then◌else◌,
  update, Bool-cases,
}
use emergence_kernel.Printf.{Printer, emit_char, put, emit_string}

-- How many characters of `n` fit: one place is kept for the NUL.
abbrev pub fitting : Printer → ℕ → ℕ
fitting p n = min n (p.remaining - 1)

-- `q` is `p` after the characters `t` were printed, with the arguments `rest` left.
pub record Printed (p q : Printer) (t rest : List ℕ) : Type 0 where
  pub counted : q.written ≡ p.written + length t
  pub moved : q.buf ≡ p.buf + fitting p (length t)
  pub room : q.remaining ≡ p.remaining - fitting p (length t)
  pub inside : (i : ℕ) → i < fitting p (length t) → get_elem? t i ≡ some (q.memory (p.buf + i))
  pub outside : (a : ℕ) → (a < p.buf) ⊎ (p.buf + fitting p (length t) ≤ a) → q.memory a ≡ p.memory a
  pub left : q.args ≡ rest

pub Printed-nil : (p : Printer) → Printed p p [] p.args
Printed-nil p = record {
  counted = omega arith;
  moved = omega arith;
  room = omega arith;
  inside = λ i h. absurd (omega (arith, h));
  outside = λ a h. refl;
  left = refl;
}

at_front : (m : ℕ → ℕ) (b c i : ℕ) → i < 1 → get_elem? (c ∷ []) i ≡ some (update m b c (b + i))
at_front m b c zero h = ap some (ground arith)
at_front m b c (suc i) h = absurd (omega (arith, h))

pub elsewhere : (m : ℕ → ℕ) (b c a : ℕ) → (a < b) ⊎ (b + 1 ≤ a) → update m b c a ≡ m a
elsewhere m b c a h = ground arith

pub put-Printed : (p : Printer) (c : ℕ) → Printed p (put p c) (c ∷ []) p.args
unfolding put emit_char
put-Printed p c = elim (Bool-cases (ltb 1 p.remaining)) [
  | inl more ↦ rw more (record {
    counted = omega arith;
    moved = ground arith;
    room = ground arith;
    inside = λ i h. at_front p.memory p.buf c i (omega (arith, h));
    outside = λ a h. elsewhere p.memory p.buf c a (ground (arith, h));
    left = refl;
  })
  | inr full ↦ rw full (record {
    counted = omega arith;
    moved = ground arith;
    room = ground arith;
    inside = λ i h. absurd (ground (arith, h));
    outside = λ a h. refl;
    left = refl;
  })
]

get_elem?-append_left : (t u : List ℕ) (i : ℕ) → i < length t → get_elem? (t ++ u) i ≡ get_elem? t i
get_elem?-append_left [] u i h = absurd (omega (arith, h))
get_elem?-append_left (x ∷ t) u zero h = refl
get_elem?-append_left (x ∷ t) u (suc i) h = get_elem?-append_left t u i (omega (arith, h))

get_elem?-append_right : (t u : List ℕ) (i : ℕ) → get_elem? (t ++ u) (length t + i) ≡ get_elem? u i
get_elem?-append_right [] u i = ap (get_elem? u) (omega arith)
get_elem?-append_right (x ∷ t) u i =
    let e : suc (length t) + i ≡ suc (length t + i) = omega arith in
    ap (get_elem? (x ∷ (t ++ u))) e ∙ get_elem?-append_right t u i

-- Printing `t` and then `u` is printing both in a row.
pub Printed-trans :
    {p q r : Printer} {t u rest rest' : List ℕ}
    → Printed p q t rest
    → Printed q r u rest'
    → Printed p r (t ++ u) rest'
Printed-trans {p} {q} {r} {t} {u} {rest} {rest'} a b =
    let n = length-append t u in
    record {
      counted = omega (arith, a.counted, b.counted, n);
      moved = omega (arith, a.moved, b.moved, a.room, n);
      room = omega (arith, a.room, b.room, n);
      inside = λ i h. elim (Bool-cases (ltb i (length t))) [
        | inl first ↦
            get_elem?-append_left t u i (ground arith)
            ∙ a.inside i (ground (arith, n))
            ∙ ap some (sym (b.outside (p.buf + i) (inl (ground (arith, a.moved, n)))))
        | inr second ↦ after i h (ground arith)
      ];
      outside = λ x h.
          b.outside x (ground (arith, h, a.moved, a.room, n)) ∙ a.outside x (ground (arith, h, n));
      left = b.left;
    }
  where
    after :
        (i : ℕ)
        → i < fitting p (length (t ++ u))
        → length t ≤ i
        → get_elem? (t ++ u) i ≡ some (r.memory (p.buf + i))
    after i h le =
        let n = length-append t u in
        let index : i ≡ length t + (i - length t) = omega (arith, le) in
        let place : q.buf + (i - length t) ≡ p.buf + i = omega (arith, a.moved, h, n, le) in
        ap (get_elem? (t ++ u)) index
        ∙ get_elem?-append_right t u (i - length t)
        ∙ b.inside (i - length t) (omega (arith, a.room, h, n, le))
        ∙ ap (λ x. some (r.memory x)) place

pub Printed-if :
    {p x y : Printer} {t u rest rest' : List ℕ} (c : Bool)
    → Printed p x t rest
    → Printed p y u rest'
    → Printed p (if c then x else y) (if c then t else u) (if c then rest else rest')
Printed-if true a b = a
Printed-if false a b = b

pub emit_string-Printed : (p : Printer) (t : List ℕ) → Printed p (emit_string p t) t p.args
unfolding emit_string
emit_string-Printed p [] = Printed-nil p
emit_string-Printed p (c ∷ cs) =
    let one = put-Printed p c in
    subst (λ rest. Printed p (emit_string (put p c) cs) (c ∷ cs) rest) one.left
      (Printed-trans one (emit_string-Printed (put p c) cs))
