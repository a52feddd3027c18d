-- ===== src/Pmm/Alloc.antt =====
-- pmm_alloc of kernel/pmm.c up to the release of its lock: split_block and find_free_block.
use emergence_kernel.Prelude.{
  ◌≢◌, ℕ, zero, suc, ◌+◌, ◌-◌, ◌≤◌, ◌<◌, ◌≡◌, ◌∙◌, sym, ap, subst, refl, inl, inr, arith, true,
  Option, none, some, List, [], ◌∷◌, ◌++◌, ltb, ◌==◌, Bool-cases, ==_iff,
}
use emergence_kernel.Pmm.{
  Block, PmmState, max_order, max_block_desc, take_free, set_block, split_step, split_loop,
  take_block, split_block, find_first, find_from, find_free_block,
}
use emergence_kernel.Pmm.Mass.{sum, only}
use emergence_kernel.Pmm.Valid.{IsShaped, IsValid, covers, cover}
use emergence_kernel.Pmm.Valid.Moves.{
  IsLoose, take_free-IsLoose, take_free-IsValid, cover-take_free, set_block-IsValid,
  cover-set_block, in_free-listed, update_self, update-ne,
}
use emergence_kernel.Pmm.Valid.Taken.{list_taken, list_taken-IsValid, cover-list_taken}
use emergence_kernel.Pmm.Split.{split_step-SplitStep}

-- Descriptor `b` has come down to order `o`, and at most `n` descriptors were used for it.
record SplitTo (s s' : PmmState) (b o n : ℕ) : Type 0 where
  valid : IsValid s'
  here : 0 < sum (only b) (s'.free_lists o).list
  covered_le : (p : ℕ) → cover p s' ≤ cover p s
  covered : s.block_count + n ≤ max_block_desc → (p : ℕ) → cover p s' ≡ cover p s
  same : (j : ℕ) → b ≢ j → j < s.block_count → s'.blocks j ≡ s.blocks j
  count : s.block_count ≤ s'.block_count
  taken : s'.allocated_blocks ≡ s.allocated_blocks

split_loop-SplitTo :
    (o : ℕ) (s : PmmState) (b target : ℕ)
    → IsValid s
    → o ≤ max_order
    → target ≤ o
    → 0 < sum (only b) (s.free_lists o).list
    → SplitTo s (split_loop o s b target) b target (o - target)
unfolding split_loop
split_loop-SplitTo zero s b zero v le below here = record {
  valid = v;
  here = here;
  covered_le = λ p. omega arith;
  covered = λ h p. refl;
  same = λ j ne known. refl;
  count = omega arith;
  taken = refl;
}
split_loop-SplitTo zero s b (suc t) v le below here = absurd (omega arith)
split_loop-SplitTo (suc o) s b target v le below here = elim (Bool-cases (ltb target (suc o))) [
  | inl more ↦
      let one = split_step-SplitStep s b o v le here in
      let rest =
        split_loop-SplitTo o (split_step s b o) b target one.valid (omega (arith, le))
          (ground arith) one.here in
      rw more (record {
        valid = rest.valid;
        here = rest.here;
        covered_le = λ p. omega (arith, rest.covered_le p, one.covered_le p);
        covered = λ h p. rest.covered (ground (arith, one.count)) p ∙ one.covered (ground arith) p;
        same = λ j ne known. rest.same j ne (omega (arith, known, one.count)) ∙ one.same j ne known;
        count = omega (arith, rest.count, one.count);
        taken = rest.taken ∙ one.taken;
      })
  | inr done ↦
      let same : suc o ≡ target = ground arith in
      rw done (record {
        valid = v;
        here = subst (λ t. 0 < sum (only b) (s.free_lists t).list) same here;
        covered_le = λ p. omega arith;
        covered = λ h p. refl;
        same = λ j ne known. refl;
        count = omega arith;
        taken = refl;
      })
]

-- The lists after a successful allocation of descriptor `b`.
pub record Allocated (s s' : PmmState) (b order : ℕ) : Type 0 where
  pub valid : IsValid s'
  pub block_order : (s'.blocks b).order ≡ order
  pub same : (j : ℕ) → b ≢ j → j < s.block_count → s'.blocks j ≡ s.blocks j
  pub taken : s'.allocated_blocks ≡ s.allocated_blocks ++ b ∷ []
  pub covered_le : (p : ℕ) → cover p s' ≤ cover p s
  pub covered : s.block_count + max_order ≤ max_block_desc → (p : ℕ) → cover p s' ≡ cover p s

module _ (s : PmmState) (b o : ℕ) (v : IsValid s) (le : o ≤ max_order)
    (here : 0 < sum (only b) (s.free_lists o).list) where
  taken_block : Block
  taken_block = record (s.blocks b) { allocated = true }

  out : PmmState
  out = set_block (take_free s o b) b taken_block

  out-IsValid : IsValid out
  unfolding out
  out-IsValid =
      set_block-IsValid (take_free s o b) b (take_free-IsValid s b v o le here) taken_block
        (take_free-IsLoose s b v o le here)

  out-IsLoose : IsLoose out b
  unfolding out
  out-IsLoose =
      let l = take_free-IsLoose s b v o le here in record { known = l.known; unlisted = l.unlisted }

  out-block : out.blocks b ≡ taken_block
  unfolding out
  out-block = update_self (take_free s o b).blocks b taken_block

  out-IsShaped : IsShaped (out.blocks b)
  unfolding taken_block
  out-IsShaped =
      let h = v.shaped b (in_free-listed s o b le here) in
      subst IsShaped (sym out-block)
        (record { small = h.small; index = h.index; aligned = h.aligned; ends = h.ends })

  out-taken : out.allocated_blocks ≡ s.allocated_blocks
  unfolding out take_free
  out-taken = refl

  cover-out : (p : ℕ) → cover p (list_taken out b) ≡ cover p s
  unfolding out taken_block
  cover-out p = omega (
    arith,
    cover-list_taken out b out-IsValid p,
    ap (covers p) out-block,
    cover-set_block (take_free s o b) b (take_free-IsValid s b v o le here) taken_block p
        (take_free-IsLoose s b v o le here),
    cover-take_free s b v o le here p,
  )

  take_block-list_taken : take_block s b ≡ list_taken out b
  unfolding take_block out taken_block
  take_block-list_taken =
      ap
        (λ (t : ℕ).
          list_taken (set_block (take_free s t b) b (record (s.blocks b) { allocated = true })) b)
        (v.sorted o b le here).0

  same_out : (j : ℕ) → b ≢ j → out.blocks j ≡ s.blocks j
  unfolding out take_free
  same_out j ne = update-ne s.blocks b taken_block ne

  out-Allocated : Allocated s (list_taken out b) b o
  unfolding taken_block
  out-Allocated = record {
    valid = list_taken-IsValid out b out-IsValid out-IsLoose out-IsShaped;
    block_order = ap (λ (d : Block). d.order) out-block ∙ (v.sorted o b le here).0;
    same = λ j ne known. same_out j ne;
    taken = ap (λ l. l ++ b ∷ []) out-taken;
    covered_le = λ p. omega (arith, cover-out p);
    covered = λ h p. cover-out p;
  }

  take_block-Allocated : Allocated s (take_block s b) b o
  take_block-Allocated = subst (λ t. Allocated s t b o) (sym take_block-list_taken) out-Allocated

  cover-take_block : (p : ℕ) → cover p (take_block s b) ≡ cover p s
  cover-take_block p = subst (λ t. cover p t ≡ cover p s) (sym take_block-list_taken) (cover-out p)

split_block-Allocated :
    (s : PmmState) (b o target : ℕ)
    → IsValid s
    → o ≤ max_order
    → target ≤ o
    → 0 < sum (only b) (s.free_lists o).list
    → Allocated s (split_block s b target) b target
unfolding split_block
split_block-Allocated s b o target v le below here =
    subst (λ t. Allocated s (take_block (split_loop t s b target) b) b target)
      (sym (v.sorted o b le here).0)
      (let down = split_loop-SplitTo o s b target v le below here in
        let got =
          take_block-Allocated (split_loop o s b target) b target down.valid
            (omega (arith, le, below)) down.here in
        record {
          valid = got.valid;
          block_order = got.block_order;
          same =
              λ j ne known. got.same j ne (omega (arith, known, down.count)) ∙ down.same j ne known;
          taken = got.taken ∙ ap (λ l. l ++ b ∷ []) down.taken;
          covered_le = λ p. omega (arith, got.covered_le p, down.covered_le p);
          covered = λ h p.
              cover-take_block (split_loop o s b target) b target down.valid
                (omega (arith, le, below)) down.here p
              ∙ down.covered (omega (arith, h, le)) p;
        })

first-listed : (xs : List ℕ) (b : ℕ) → find_first xs ≡ some b → 0 < sum (only b) xs
unfolding find_first sum
first-listed [] b e = cc
first-listed (x ∷ xs) b e = ground arith

-- What a search from order `o` on gives: a block, or nothing, and then every list searched is empty.
abbrev pub Found : PmmState → ℕ → ℕ → Option ℕ × PmmState → Type 0
Found s o order (none, s') =
    (s' ≡ s) × ((k : ℕ) → o ≤ k → k ≤ max_order → find_first (s.free_lists k).list ≡ none)
Found s o order (some b, s') = Allocated s s' b order

Found-earlier :
    (s : PmmState) (o order : ℕ) (r : Option ℕ × PmmState)
    → find_first (s.free_lists o).list ≡ none
    → Found s (o + 1) order r
    → Found s o order r
Found-earlier s o order (some b, s') q f = f
Found-earlier s o order (none, s') q f = (
  f.0,
  λ k h h'. elim (Bool-cases (o == k)) [
    | inl here ↦ subst (λ t. find_first (s.free_lists t).list ≡ none) ((==_iff o k).0 here) q
    | inr later ↦ f.1 k (ground arith) h'
  ],
)

find_from-Found :
    (left : ℕ) (s : PmmState) (o order : ℕ)
    → IsValid s
    → order ≤ o
    → left + o ≡ suc max_order
    → Found s o order (find_from left s o order)
unfolding find_from
find_from-Found zero s o order v below e = (refl, λ k h h'. absurd (omega arith))
find_from-Found (suc left) s o order v below e =
    go (find_first (s.free_lists o).list) refl
      (find_from-Found left s (o + 1) order v (omega (arith, below)) (omega (arith, e)))
  where
    go :
        (f : Option ℕ)
        → find_first (s.free_lists o).list ≡ f
        → Found s (o + 1) order (find_from left s (o + 1) order)
        → Found s o order (elim f [
          | none ↦ find_from left s (o + 1) order
          | some b ↦ (some b, split_block s b order)
        ])
    go none q later = Found-earlier s o order (find_from left s (o + 1) order) q later
    go (some b) q later =
        split_block-Allocated s b o order v (omega (arith, e)) below
          (first-listed (s.free_lists o).list b q)

-- `find_free_block` fails only when every free list from the order on is empty, and then changes
-- nothing.
pub find_free_block-Found :
    (s : PmmState) (order : ℕ)
    → IsValid s
    → order ≤ max_order
    → Found s order order (find_free_block s order)
unfolding find_free_block
find_free_block-Found s order v le =
    find_from-Found (max_order + 1 - order) s order order v (omega arith) (omega (arith, le))
