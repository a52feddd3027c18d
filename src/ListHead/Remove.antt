-- ===== src/ListHead/Remove.antt =====
-- list_remove and list_pop_front of kernel/list.h.
use emergence_kernel.Prelude.{
  ◌∙◌, ℕ, subst, ◌≡◌, ◌≢◌, refl, sym, inl, inr, arith, Option, none, some, List, [], ◌∷◌, ◌++◌,
  ◌==◌, Bool-cases, ==-false, ==_iff, ap, if◌then◌else◌, update,
}
use emergence_kernel.ListHead.{Links, set_next, set_prev, empty, remove, pop_front}
use emergence_kernel.ListHead.Ring.{
  Linked, Fresh, Distinct, IsRing, Linked-set_next, Linked-set_prev, prev-ne,
}

-- What the four writes come to.
unlink : Links → ℕ → ℕ → ℕ → Links
unlink h a n c = record {
  next = update (update h.next a c) n n;
  prev = update (update h.prev c a) n n;
}

remove-unlink : (h : Links) (n : ℕ) → remove h n ≡ unlink h (h.prev n) n (h.next n)
unfolding remove unlink
remove-unlink h n = elim (Bool-cases (h.prev n == n)) [ inl e ↦ rw e | inr e ↦ rw e ]

-- A segment that reads none of the four fields.
Linked-unlink :
    (h : Links) (a n c x : ℕ) (xs : List ℕ) (e : ℕ)
    → (x ≢ n) × (x ≢ a) × (e ≢ n) × (e ≢ c)
    → Fresh n xs
    → Fresh a xs
    → Fresh c xs
    → Linked h x xs e
    → Linked (unlink h a n c) x xs e
unfolding unlink
Linked-unlink h a n c x xs e (xn, xa, en, ec) fn fa fc l =
    Linked-set_prev (set_prev (set_next (set_next h a c) n n) c a) n n x xs e en fn (
      Linked-set_prev (set_next (set_next h a c) n n) c a x xs e ec fc
        (Linked-set_next (set_next h a c) n n x xs e xn fn (Linked-set_next h a c x xs e xa fa l)))

Fresh-left : (n : ℕ) (xs ys : List ℕ) → Fresh n (xs ++ ys) → Fresh n xs
Fresh-left n [] ys f = tt
Fresh-left n (x ∷ xs) ys f = (f.0, Fresh-left n xs ys f.1)

Fresh-right : (n : ℕ) (xs ys : List ℕ) → Fresh n (xs ++ ys) → Fresh n ys
Fresh-right n [] ys f = f
Fresh-right n (x ∷ xs) ys f = Fresh-right n xs ys f.1

Fresh-delete : (m n : ℕ) (ys zs : List ℕ) → Fresh m (ys ++ n ∷ zs) → Fresh m (ys ++ zs)
Fresh-delete m n [] zs f = f.1
Fresh-delete m n (y ∷ ys) zs f = (f.0, Fresh-delete m n ys zs f.1)

remove_self : (h : Links) (n : ℕ) → Linked (remove h n) n [] n
unfolding remove
remove_self h n = ground arith

-- What `pop_front` of the list `xs` leaves behind.
abbrev pub Popped : Links → ℕ → List ℕ → Option ℕ × Links → Type 0
Popped h head [] r = r ≡ (none, h)
Popped h head (x ∷ xs) r = (r.0 ≡ some x) × IsRing r.1 head xs × IsRing r.1 x []

-- The node after `n` is the first of `zs`, or `b`.
next-ne :
    (h : Links) (n : ℕ) (zs : List ℕ) (b y : ℕ)
    → b ≢ y
    → Fresh y zs
    → Linked h n zs b
    → h.next n ≢ y
next-ne h n [] b y ne f l = ground arith
next-ne h n (z ∷ zs) b y ne f l = ground arith

Linked-right :
    (h : Links) (a : ℕ) (ys : List ℕ) (n : ℕ) (zs : List ℕ) (b : ℕ)
    → Linked h a (ys ++ n ∷ zs) b
    → Linked h n zs b
Linked-right h a [] n zs b l = l.2
Linked-right h a (y ∷ ys) n zs b l = Linked-right h y ys n zs b l.2

Linked-left :
    (h : Links) (a : ℕ) (ys : List ℕ) (n : ℕ) (zs : List ℕ) (b : ℕ)
    → Linked h a (ys ++ n ∷ zs) b
    → Linked h a ys n
Linked-left h a [] n zs b l = (l.0, l.1)
Linked-left h a (y ∷ ys) n zs b l = (l.0, l.1, Linked-left h y ys n zs b l.2)

unlink-first :
    (h : Links) (a n : ℕ) (zs : List ℕ) (b : ℕ)
    → (a ≢ n) × (b ≢ n)
    → Fresh a zs
    → Fresh b zs
    → Distinct (n ∷ zs)
    → Linked h a (n ∷ zs) b
    → Linked (unlink h (h.prev n) n (h.next n)) a zs b
unfolding unlink
unlink-first h a n [] b ne fa fb d l = ground arith
unlink-first h a n (z ∷ zs) b ne fa fb d (forth, back, (forth', back', rest)) =
    subst (λ p. Linked (unlink h p n (h.next n)) a (z ∷ zs) b) (sym back)
      (subst (λ c. Linked (unlink h a n c) a (z ∷ zs) b) (sym forth')
        (
          ground arith,
          ground arith,
          Linked-unlink h a n z z zs b (d.0.0, fa.0, ne.1, λ e. fb.0 (sym e)) d.0.1 fa.1 d.1.0 rest,
        ))

unlink-Linked :
    (h : Links) (a : ℕ) (ys : List ℕ) (n : ℕ) (zs : List ℕ) (b : ℕ)
    → (a ≢ n) × (b ≢ n)
    → Fresh a (ys ++ n ∷ zs)
    → Fresh b (ys ++ n ∷ zs)
    → Distinct (ys ++ n ∷ zs)
    → Linked h a (ys ++ n ∷ zs) b
    → Linked (unlink h (h.prev n) n (h.next n)) a (ys ++ zs) b
unfolding unlink
unlink-Linked h a [] n zs b ne fa fb d l = unlink-first h a n zs b ne fa.1 fb.1 d l
unlink-Linked h a (y ∷ ys) n zs b ne fa fb d (forth, back, rest) =
    let fresh_y : Fresh y (n ∷ zs) = Fresh-right y ys (n ∷ zs) d.0 in
    let before : h.prev n ≢ a =
      prev-ne h y ys n a fa.0 (Fresh-left a ys (n ∷ zs) fa.1) (Linked-left h y ys n zs b rest) in
    let after : h.next n ≢ y =
      next-ne h n zs b y (λ e. fb.0 (sym e)) fresh_y.1 (Linked-right h y ys n zs b rest) in
    (
      ground arith,
      ground arith,
      unlink-Linked h y ys n zs b ((λ e. fresh_y.0 (sym e)), ne.1) d.0 fb.1 d.1 rest,
    )

Distinct-delete : (n : ℕ) (ys zs : List ℕ) → Distinct (ys ++ n ∷ zs) → Distinct (ys ++ zs)
Distinct-delete n [] zs d = d.1
Distinct-delete n (y ∷ ys) zs d = (Fresh-delete y n ys zs d.0, Distinct-delete n ys zs d.1)

-- Removing a node takes it out, leaves the others in their order, and leaves the node linked to
-- itself, ready to be pushed again.
pub remove-IsRing :
    {h : Links} {head : ℕ} (ys : List ℕ) (node : ℕ) (zs : List ℕ)
    → IsRing h head (ys ++ node ∷ zs)
    → IsRing (remove h node) head (ys ++ zs) × IsRing (remove h node) node []
remove-IsRing {h} {head} ys node zs r =
    let apart : node ≢ head = (Fresh-right head ys (node ∷ zs) r.apart).0 in
    (
      record {
        linked =
            subst (λ g. Linked g head (ys ++ zs) head) (sym (remove-unlink h node))
              (unlink-Linked h head ys node zs head ((λ e. apart (sym e)), (λ e. apart (sym e)))
                r.apart r.apart r.distinct r.linked);
        apart = Fresh-delete head node ys zs r.apart;
        distinct = Distinct-delete node ys zs r.distinct;
      },
      record { linked = remove_self h node; apart = tt; distinct = tt },
    )

pop_empty : (h : Links) (head : ℕ) → h.next head ≡ head → pop_front h head ≡ (none, h)
unfolding pop_front empty
pop_empty h head e =
    ap (λ b. if b then (none, h) else (some (h.next head), remove h (h.next head)))
      ((==_iff (h.next head) head).1 e)

-- Popping from an empty list gives NULL and changes nothing; otherwise it gives the first node, and
-- the list goes on with the rest.
pub pop_front-IsRing :
    {h : Links} {head : ℕ} (xs : List ℕ) → IsRing h head xs → Popped h head xs (pop_front h head)
unfolding pop_front empty
pop_front-IsRing {h} {head} [] r = pop_empty h head r.linked.0
pop_front-IsRing {h} {head} (x ∷ xs) r =
    let (ring, self) = remove-IsRing [] x xs r in
    rw (r.linked.0, ==-false x head r.apart.0) (refl, ring, self)

-- A node that is not in the list keeps its links when a node of the list is removed.
pub remove-frame :
    {h : Links} {head : ℕ} (ys : List ℕ) (node : ℕ) (zs : List ℕ) (p : ℕ)
    → IsRing h head (ys ++ node ∷ zs)
    → head ≢ p
    → Fresh p (ys ++ node ∷ zs)
    → ((remove h node).next p ≡ h.next p) × ((remove h node).prev p ≡ h.prev p)
unfolding unlink
remove-frame {h} {head} ys node zs p r ne f =
    let before : h.prev node ≢ p =
      prev-ne h head ys node p ne (Fresh-left p ys (node ∷ zs) f)
        (Linked-left h head ys node zs head r.linked) in
    let behind : Fresh p (node ∷ zs) = Fresh-right p ys (node ∷ zs) f in
    let after : h.next node ≢ p =
      next-ne h node zs head p ne behind.1 (Linked-right h head ys node zs head r.linked) in
    subst (λ g. (g.next p ≡ h.next p) × (g.prev p ≡ h.prev p)) (sym (remove-unlink h node))
      (ground arith, ground arith)

-- So such a node that is linked to itself stays so.
pub remove-detached :
    {h : Links} {head : ℕ} (ys : List ℕ) (node : ℕ) (zs : List ℕ) (p : ℕ)
    → IsRing h head (ys ++ node ∷ zs)
    → head ≢ p
    → Fresh p (ys ++ node ∷ zs)
    → IsRing h p []
    → IsRing (remove h node) p []
remove-detached ys node zs p r ne f d =
    let (forth, back) = remove-frame ys node zs p r ne f in
    record { linked = (forth ∙ d.linked.0, back ∙ d.linked.1); apart = tt; distinct = tt }
