-- ===== src/Pmm/Valid/Moves.antt =====
-- The moves of a descriptor into and out of the lists of kernel/pmm.c.
use emergence_kernel.Prelude.{
  Bool-cases, inl, inr, ==_iff, ℕ, suc, ◌+◌, ◌≤◌, ◌<◌, ◌≡◌, ◌≢◌, ◌∙◌, sym, ap, arith, false, ◌==◌,
  if◌then◌else◌, update, ==-false, ==-refl, subst,
}
use emergence_kernel.Pmm.{Block, PmmState, max_order, put_free, take_free, set_block}
use emergence_kernel.Pmm.Mass.{
  sum, only, mass-congr, mass-put_free, mass-take_free, sum-take_free-le, sum-put_free, free_sum-le,
}
use emergence_kernel.Pmm.Valid.{listed, IsShaped, IsValid, covers, cover}

-- A descriptor that has been handed out and is in no list.
pub record IsLoose (s : PmmState) (b : ℕ) : Type 0 where
  pub known : b < s.block_count
  pub unlisted : listed b s ≡ 0

pub lt_count : {s : PmmState} (b : ℕ) → IsValid s → 0 < listed b s → b < s.block_count
lt_count b v h = ground (arith, v.bounded b)

pub only-ne : (i b : ℕ) → i ≢ b → only i b ≡ 0
only-ne i b ne = ground arith

only-false : (i b : ℕ) → (i == b) ≡ false → only i b ≡ 0
only-false i b e = ground arith

drop_if : (o o' k : ℕ) {n : ℕ} → (o == o') ≡ false → 0 < n + (if o == o' then k else 0) → 0 < n
drop_if o o' k e h = ground arith

pub only_self : (b : ℕ) → only b b ≡ 1
only_self b = ground arith

pub update_self : {A : Type 0} (f : ℕ → A) (b : ℕ) (a : A) → update f b a b ≡ a
update_self f b a = ap (λ t. if t then a else f b) (==-refl b)

pub update-ne : {A : Type 0} (f : ℕ → A) (b : ℕ) (a : A) {j : ℕ} → b ≢ j → update f b a j ≡ f j
update-ne f b a {j} ne = ap (λ t. if t then a else f j) (==-false b j ne)

loose-ne : {s : PmmState} {b : ℕ} (i : ℕ) → IsLoose s b → 0 < listed i s → b ≢ i
loose-ne {s} i l h e = omega (arith, l.unlisted, ap (λ j. listed j s) e)

pub in_free-listed :
    (s : PmmState) (o i : ℕ)
    → o ≤ max_order
    → 0 < sum (only i) (s.free_lists o).list
    → 0 < listed i s
in_free-listed s o i le h =
    omega (arith, free_sum-le (only i) s.free_lists (suc max_order) o (omega arith))

module _ (s : PmmState) (b : ℕ) (v : IsValid s) where
  -- Rewriting a loose descriptor.
  pub set_block-IsValid : (block : Block) → IsLoose s b → IsValid (set_block s b block)
  set_block-IsValid block l = record {
    unique = v.unique;
    bounded = v.bounded;
    sorted = λ o i le h.
        subst (λ (d : Block). (d.order ≡ o) × (d.allocated ≡ false))
          (sym (update-ne s.blocks b block (loose-ne i l (in_free-listed s o i le h))))
          (v.sorted o i le h);
    shaped =
        λ i h. subst IsShaped (sym (update-ne s.blocks b block (loose-ne i l h))) (v.shaped i h);
  }

  pub cover-set_block :
      (block : Block) (p : ℕ) → IsLoose s b → cover p (set_block s b block) ≡ cover p s
  cover-set_block block p l =
      mass-congr (λ j. covers p (update s.blocks b block j)) (λ j. covers p (s.blocks j)) b s
        (λ j ne. ap (covers p) (update-ne s.blocks b block ne)) l.unlisted

  -- A free descriptor leaves the list of its order.
  module _ (o : ℕ) (le : o ≤ max_order) (here : 0 < sum (only b) (s.free_lists o).list) where
    pub take_free-IsLoose : IsLoose (take_free s o b) b
    unfolding take_free
    take_free-IsLoose = record {
      known = lt_count b v (in_free-listed s o b le here);
      unlisted = omega (arith, mass-take_free (only b) s o b le here, v.unique b, only_self b);
    }

    pub take_free-IsValid : IsValid (take_free s o b)
    unfolding take_free
    take_free-IsValid = record {
      unique = λ i. omega (arith, mass-take_free (only i) s o b le here, v.unique i);
      bounded = λ i h. omega (arith, mass-take_free (only i) s o b le here, v.bounded i h);
      sorted = λ o' i le' h. v.sorted o' i le' (omega (arith, sum-take_free-le (only i) s o b o'));
      shaped = λ i h. v.shaped i (omega (arith, mass-take_free (only i) s o b le here));
    }

    pub cover-take_free : (p : ℕ) → cover p (take_free s o b) + covers p (s.blocks b) ≡ cover p s
    unfolding take_free
    cover-take_free p = mass-take_free (λ j. covers p (s.blocks j)) s o b le here

  -- A loose descriptor can be listed once more.
  module _ (l : IsLoose s b) where
    pub room : (i : ℕ) → listed i s + only i b ≤ 1
    room i = elim (Bool-cases (i == b)) [
      | inl e ↦
          rw e
            (subst (λ j. listed j s + 1 ≤ 1) (sym ((==_iff i b).0 e)) (omega (arith, l.unlisted)))
      | inr e ↦ rw e (omega (arith, v.unique i))
    ]

    pub beyond : (i : ℕ) → s.block_count ≤ i → listed i s + only i b ≡ 0
    beyond i h = omega (arith, v.bounded i h, only-ne i b (λ e. absurd (omega (arith, l.known, e))))

    pub shape : IsShaped (s.blocks b) → (i : ℕ) → 0 < listed i s + only i b → IsShaped (s.blocks i)
    shape shaped i h = elim (Bool-cases (i == b)) [
      | inl e ↦ subst (λ j. IsShaped (s.blocks j)) (sym ((==_iff i b).0 e)) shaped
      | inr e ↦ v.shaped i (omega (arith, h, only-false i b e))
    ]

    order_in :
        (o o' i : ℕ)
        → (s.blocks b).order ≡ o
        → (s.blocks b).allocated ≡ false
        → o' ≤ max_order
        → 0 < sum (only i) (s.free_lists o').list + (if o == o' then only i b else 0)
        → ((s.blocks i).order ≡ o') × ((s.blocks i).allocated ≡ false)
    order_in o o' i e unallocated le h = elim (Bool-cases (i == b)) [
      | inl same ↦
          subst (λ j. ((s.blocks j).order ≡ o') × ((s.blocks j).allocated ≡ false))
            (sym ((==_iff i b).0 same))
            (elim (Bool-cases (o == o')) [
              | inl here ↦ (e ∙ (==_iff o o').0 here, unallocated)
              | inr elsewhere ↦ absurd (
                  loose-ne i l (in_free-listed s o' i le (drop_if o o' (only i b) elsewhere h))
                    (sym ((==_iff i b).0 same)))
            ])
      | inr other ↦ v.sorted o' i le (ground arith)
    ]

  -- A loose descriptor of a free block joins the list of its order.
  module _ (l : IsLoose s b) (shaped : IsShaped (s.blocks b)) where
    pub put_free-IsValid :
        (o : ℕ)
        → o ≤ max_order
        → (s.blocks b).order ≡ o
        → (s.blocks b).allocated ≡ false
        → IsValid (put_free s o b)
    unfolding put_free
    put_free-IsValid o le e unallocated = record {
      unique = λ i. omega (arith, mass-put_free (only i) s o b le, room l i);
      bounded = λ i h. omega (arith, mass-put_free (only i) s o b le, beyond l i h);
      sorted = λ o' i le' h.
          order_in l o o' i e unallocated le' (omega (arith, h, sum-put_free (only i) s o b o'));
      shaped = λ i h. shape l shaped i (omega (arith, h, mass-put_free (only i) s o b le));
    }

    pub cover-put_free :
        (o p : ℕ) → o ≤ max_order → cover p (put_free s o b) ≡ cover p s + covers p (s.blocks b)
    unfolding put_free
    cover-put_free o p le = mass-put_free (λ j. covers p (s.blocks j)) s o b le
