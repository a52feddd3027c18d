-- ===== src/ListHead/Insert.antt =====
-- list_init, list_empty, list_push_front and list_push_back of kernel/list.h.
use emergence_kernel.Prelude.{
  ℕ, subst, ◌≡◌, ◌≢◌, sym, arith, true, false, List, [], ◌∷◌, ◌++◌, ==-false, update,
}
use emergence_kernel.ListHead.{Links, set_next, set_prev, init, empty, push_front, push_back}
use emergence_kernel.ListHead.Ring.{
  Linked, Fresh, Distinct, IsRing, Linked-set_next, Linked-set_prev, prev-ne,
}

pub Fresh-append : (n : ℕ) (xs ys : List ℕ) → Fresh n xs → Fresh n ys → Fresh n (xs ++ ys)
Fresh-append n [] ys f g = g
Fresh-append n (x ∷ xs) ys f g = (f.0, Fresh-append n xs ys f.1 g)

Distinct-snoc : (n : ℕ) (xs : List ℕ) → Fresh n xs → Distinct xs → Distinct (xs ++ n ∷ [])
Distinct-snoc n [] f d = (tt, tt)
Distinct-snoc n (x ∷ xs) f d =
    (Fresh-append x xs (n ∷ []) d.0 ((λ e. f.0 (sym e)), tt), Distinct-snoc n xs f.1 d.1)

-- An initialized head holds the empty list.
pub init-IsRing : (h : Links) (head : ℕ) → IsRing (init h head) head []
unfolding init
init-IsRing h head = record { linked = ground arith; apart = tt; distinct = tt }

-- `list_empty` tells whether the list has a node.
pub empty-IsRing :
    {h : Links} {head : ℕ} (xs : List ℕ)
    → IsRing h head xs
    → (empty h head ≡ true → xs ≡ []) × (empty h head ≡ false → xs ≢ [])
unfolding empty
empty-IsRing [] r = ground arith
empty-IsRing (x ∷ xs) r = ground arith

-- Both insertions put a node between two neighbours.
splice : Links → ℕ → ℕ → ℕ → Links
splice h a n b = record {
  next = update (update h.next n b) a n;
  prev = update (update h.prev n a) b n;
}

push_front-splice :
    (h : Links) (head n : ℕ) → head ≢ n → push_front h head n ≡ splice h head n (h.next head)
unfolding push_front splice
push_front-splice h head n ne = rw (==-false n head (λ e. ne (sym e)))

push_back-splice :
    (h : Links) (head n : ℕ) → head ≢ n → push_back h head n ≡ splice h (h.prev head) n head
unfolding push_back splice
push_back-splice h head n ne = rw (==-false n head (λ e. ne (sym e)))

-- A segment that reads none of the four fields.
Linked-splice :
    (h : Links) (a n b x : ℕ) (xs : List ℕ) (e : ℕ)
    → (x ≢ n) × (x ≢ a) × (e ≢ n) × (e ≢ b)
    → Fresh n xs
    → Fresh a xs
    → Fresh b xs
    → Linked h x xs e
    → Linked (splice h a n b) x xs e
unfolding splice
Linked-splice h a n b x xs e (xn, xa, en, eb) fn fa fb l =
    Linked-set_next (set_prev (set_prev (set_next h n b) n a) b n) a n x xs e xa fa (
      Linked-set_prev (set_prev (set_next h n b) n a) b n x xs e eb fb
        (Linked-set_prev (set_next h n b) n a x xs e en fn (Linked-set_next h n b x xs e xn fn l)))

splice-front :
    (h : Links) (head n : ℕ) (xs : List ℕ)
    → head ≢ n
    → Fresh n xs
    → IsRing h head xs
    → Linked (splice h head n (h.next head)) head (n ∷ xs) head
unfolding splice
splice-front h head n [] ne f r = ground arith
splice-front h head n (x ∷ xs) ne f r =
    let (forth, back, rest) = r.linked in
    subst (λ b. Linked (splice h head n b) head (n ∷ x ∷ xs) head) (sym forth)
      (
        ground arith,
        ground arith,
        (
          ground arith,
          ground arith,
          Linked-splice h head n x x xs head (f.0, r.apart.0, ne, λ e. r.apart.0 (sym e)) f.1
              r.apart.1 r.distinct.0 rest,
        ),
      )

splice-back :
    (h : Links) (a n : ℕ) (xs : List ℕ) (b : ℕ)
    → (a ≢ n) × (b ≢ n)
    → Fresh n xs
    → Fresh a xs
    → Fresh b xs
    → Distinct xs
    → Linked h a xs b
    → Linked (splice h (h.prev b) n b) a (xs ++ n ∷ []) b
unfolding splice
splice-back h a n [] b ne fn fa fb d l = ground arith
splice-back h a n (x ∷ xs) b ne fn fa fb d l =
    let (forth, back, rest) = l in
    let before : h.prev b ≢ a = prev-ne h x xs b a fa.0 fa.1 rest in
    (ground arith, ground arith, splice-back h x n xs b (fn.0, ne.1) fn.1 d.0 fb.1 d.1 rest)

module _ {h : Links} {head : ℕ} (node : ℕ) {xs : List ℕ} (apart : head ≢ node)
    (fresh : Fresh node xs) where
  -- Pushing a node that is not in the list puts it first.
  pub push_front-IsRing : IsRing h head xs → IsRing (push_front h head node) head (node ∷ xs)
  push_front-IsRing r = record {
    linked =
        subst (λ g. Linked g head (node ∷ xs) head) (sym (push_front-splice h head node apart))
          (splice-front h head node xs apart fresh r);
    apart = ((λ e. apart (sym e)), r.apart);
    distinct = (fresh, r.distinct);
  }

  -- Pushing a node that is not in the list at the back puts it last, the others keeping their order.
  pub push_back-IsRing : IsRing h head xs → IsRing (push_back h head node) head (xs ++ node ∷ [])
  push_back-IsRing r = record {
    linked =
        subst (λ g. Linked g head (xs ++ node ∷ []) head) (sym (push_back-splice h head node apart))
          (splice-back h head node xs head (apart, apart) fresh r.apart r.apart r.distinct
            r.linked);
    apart = Fresh-append head xs (node ∷ []) r.apart ((λ e. apart (sym e)), tt);
    distinct = Distinct-snoc node xs fresh r.distinct;
  }
