-- ===== src/Pmm/Split.antt =====
-- Splitting in kernel/pmm.c: one round of the loop of split_block.
use native.Mathlib.Nat.{one-le-pow}
use emergence_kernel.Prelude.{
  ◌≢◌, ℕ, suc, ◌+◌, ◌*◌, ◌≤◌, ◌<◌, ◌≡◌, ◌∙◌, sym, ap, subst, refl, arith, false, ◌==◌,
  if◌then◌else◌, u64_mod, add_u64,
}
use emergence_kernel.Pmm.{
  Block, PmmState, max_order, max_block_desc, size_of, put_free, take_free, set_block,
  add_free_block, split_step,
}
use emergence_kernel.Pmm.Buddy.{size_of-suc}
use emergence_kernel.Pmm.Mass.{sum, only, sum-put_free}
use emergence_kernel.Pmm.Valid.{IsShaped, IsValid, covers, cover}
use emergence_kernel.Pmm.Valid.Moves.{
  IsLoose, take_free-IsLoose, take_free-IsValid, cover-take_free, set_block-IsValid,
  cover-set_block, put_free-IsValid, cover-put_free, in_free-listed, update_self, update-ne,
  only_self,
}
use emergence_kernel.Pmm.Valid.Taken.{free_block, Added, add_free_block-Added}

pub size_of-pos : (o : ℕ) → 4096 ≤ size_of o
size_of-pos o = omega (arith, one-le-pow o 2)

-- A block is covered as its two halves are.
pub covers-halves :
    (p base o : ℕ)
    → covers p (free_block base (suc o))
      ≡ covers p (free_block base o) + covers p (free_block (base + size_of o) o)
covers-halves p base o = ground (arith, size_of-suc o, size_of-pos o)

-- Descriptor `b` heads for the lower order: what one round of the loop does.
pub record SplitStep (s s' : PmmState) (b o : ℕ) : Type 0 where
  pub valid : IsValid s'
  pub here : 0 < sum (only b) (s'.free_lists o).list
  pub base : (s'.blocks b).base_addr ≡ (s.blocks b).base_addr
  pub covered_le : (p : ℕ) → cover p s' ≤ cover p s
  pub covered : s.block_count < max_block_desc → (p : ℕ) → cover p s' ≡ cover p s
  pub same : (j : ℕ) → b ≢ j → j < s.block_count → s'.blocks j ≡ s.blocks j
  pub taken : s'.allocated_blocks ≡ s.allocated_blocks
  pub count : (s.block_count ≤ s'.block_count) × (s'.block_count ≤ s.block_count + 1)

-- The halves of a well shaped block are well shaped.
module _ (block : Block) (o : ℕ) (e : block.order ≡ suc o) (shaped : IsShaped block) where
  size : size_of block.order ≡ 2 * size_of o
  size = ap (λ t. size_of t) e ∙ size_of-suc o

  base_aligned : block.base_addr ≡ shaped.index * (2 * size_of o)
  base_aligned = shaped.aligned ∙ ap (λ t. shaped.index * t) size

  base_ends : block.base_addr + 2 * size_of o ≤ u64_mod
  base_ends = subst (λ t. block.base_addr + t ≤ u64_mod) size shaped.ends

  pub lower-IsShaped : IsShaped (free_block block.base_addr o)
  lower-IsShaped = record {
    small = omega (arith, shaped.small, e);
    index = 2 * shaped.index;
    aligned = omega (arith, base_aligned);
    ends = omega (arith, base_ends);
  }

  pub upper-IsShaped : IsShaped (free_block (block.base_addr + size_of o) o)
  upper-IsShaped = record {
    small = omega (arith, shaped.small, e);
    index = 2 * shaped.index + 1;
    aligned = omega (arith, base_aligned);
    ends = omega (arith, base_ends);
  }

  pub upper_address : add_u64 block.base_addr (size_of o) ≡ block.base_addr + size_of o
  upper_address = omega (arith, base_ends, size_of-pos o)

  pub covers-split :
      (p : ℕ)
      → covers p block
        ≡ covers p (free_block block.base_addr o)
          + covers p (free_block (block.base_addr + size_of o) o)
  covers-split p =
      ap (λ t. covers p (free_block block.base_addr t)) e ∙ covers-halves p block.base_addr o

if_self : (o k : ℕ) → (if o == o then k else 0) ≡ k
if_self o k = ground arith

module _ (s : PmmState) (b o : ℕ) (v : IsValid s) (le : suc o ≤ max_order)
    (here : 0 < sum (only b) (s.free_lists (suc o)).list) where
  order_before : (s.blocks b).order ≡ suc o
  order_before = (v.sorted (suc o) b le here).0

  free_before : (s.blocks b).allocated ≡ false
  free_before = (v.sorted (suc o) b le here).1

  IsShaped-before : IsShaped (s.blocks b)
  IsShaped-before = v.shaped b (in_free-listed s (suc o) b le here)

  lowered_block : Block
  lowered_block = record (s.blocks b) { order = o }

  -- The state once `b` has left its list and its order is lowered.
  lowered : PmmState
  lowered = set_block (take_free s (suc o) b) b lowered_block

  lowered-IsLoose : IsLoose lowered b
  unfolding lowered
  lowered-IsLoose =
      let l = take_free-IsLoose s b v (suc o) le here in
      record { known = l.known; unlisted = l.unlisted }

  lowered-IsValid : IsValid lowered
  unfolding lowered
  lowered-IsValid =
      set_block-IsValid (take_free s (suc o) b) b (take_free-IsValid s b v (suc o) le here)
        lowered_block (take_free-IsLoose s b v (suc o) le here)

  lowered-block : lowered.blocks b ≡ lowered_block
  unfolding lowered
  lowered-block = update_self (take_free s (suc o) b).blocks b lowered_block

  cover-lowered : (p : ℕ) → cover p lowered + covers p (s.blocks b) ≡ cover p s
  unfolding lowered
  cover-lowered p = omega (
    arith,
    cover-set_block (take_free s (suc o) b) b (take_free-IsValid s b v (suc o) le here)
        lowered_block p (take_free-IsLoose s b v (suc o) le here),
    cover-take_free s b v (suc o) le here p,
  )

  added :
      Added lowered
        (add_free_block lowered ((s.blocks b).base_addr + size_of o) o)
        ((s.blocks b).base_addr + size_of o)
        o
  added =
      add_free_block-Added lowered ((s.blocks b).base_addr + size_of o) o lowered-IsValid
        (upper-IsShaped (s.blocks b) o order_before IsShaped-before)

  -- The state with the upper half listed too.
  widened : PmmState
  widened = add_free_block lowered ((s.blocks b).base_addr + size_of o) o

  split_step-widened : split_step s b o ≡ put_free widened o b
  unfolding split_step widened lowered lowered_block
  split_step-widened =
      ap (λ a. put_free (add_free_block lowered a o) o b)
        (upper_address (s.blocks b) o order_before IsShaped-before)

  count-lowered : lowered.block_count ≡ s.block_count
  unfolding lowered take_free
  count-lowered = refl

  taken-lowered : lowered.allocated_blocks ≡ s.allocated_blocks
  unfolding lowered take_free
  taken-lowered = refl

  block-widened : widened.blocks b ≡ lowered_block
  unfolding widened
  block-widened = added.same b lowered-IsLoose.known ∙ lowered-block

  widened-IsLoose : IsLoose widened b
  unfolding widened
  widened-IsLoose = added.loose b lowered-IsLoose

  widened-IsValid : IsValid widened
  unfolding widened
  widened-IsValid = added.valid

  IsShaped-widened : IsShaped (widened.blocks b)
  unfolding lowered_block
  IsShaped-widened =
      let low = lower-IsShaped (s.blocks b) o order_before IsShaped-before in
      subst IsShaped (sym block-widened)
        (record { small = low.small; index = low.index; aligned = low.aligned; ends = low.ends })

  covers-widened :
      (p : ℕ) → covers p (widened.blocks b) ≡ covers p (free_block (s.blocks b).base_addr o)
  unfolding lowered_block
  covers-widened p = ap (covers p) block-widened

  small : o ≤ max_order
  small = omega (arith, le)

  cover-split_step :
      (p : ℕ)
      → cover p (put_free widened o b)
        ≡ cover p widened + covers p (free_block (s.blocks b).base_addr o)
  cover-split_step p =
      cover-put_free widened b widened-IsValid widened-IsLoose IsShaped-widened o p small
      ∙ ap (λ t. cover p widened + t) (covers-widened p)

  cover-widened_le :
      (p : ℕ)
      → cover p widened
        ≤ cover p lowered + covers p (free_block ((s.blocks b).base_addr + size_of o) o)
  unfolding widened
  cover-widened_le p = added.covered_le p

  cover-widened :
      s.block_count < max_block_desc
      → (p : ℕ)
      → cover p widened
        ≡ cover p lowered + covers p (free_block ((s.blocks b).base_addr + size_of o) o)
  unfolding widened
  cover-widened h p = added.covered (omega (arith, h, count-lowered)) p

  put_free-blocks : (t : PmmState) → (put_free t o b).blocks ≡ t.blocks
  unfolding put_free
  put_free-blocks t = refl

  put_free-taken : (t : PmmState) → (put_free t o b).allocated_blocks ≡ t.allocated_blocks
  unfolding put_free
  put_free-taken t = refl

  put_free-count : (t : PmmState) → (put_free t o b).block_count ≡ t.block_count
  unfolding put_free
  put_free-count t = refl

  same_lowered : (j : ℕ) → b ≢ j → lowered.blocks j ≡ s.blocks j
  unfolding lowered take_free
  same_lowered j ne = update-ne s.blocks b lowered_block ne

  same_split : (j : ℕ) → b ≢ j → j < s.block_count → (put_free widened o b).blocks j ≡ s.blocks j
  unfolding widened
  same_split j ne known =
      ap (λ (f : ℕ → Block). f j) (put_free-blocks widened)
      ∙ added.same j (omega (arith, known, count-lowered))
      ∙ same_lowered j ne

  split : SplitStep s (put_free widened o b) b o
  unfolding widened lowered_block
  split = record {
    valid =
        put_free-IsValid widened b widened-IsValid widened-IsLoose IsShaped-widened o small
          (ap (λ (d : Block). d.order) block-widened)
          (ap (λ (d : Block). d.allocated) block-widened ∙ free_before);
    here = omega (arith, sum-put_free (only b) widened o b o, only_self b, if_self o (only b b));
    base =
        ap (λ (f : ℕ → Block). (f b).base_addr) (put_free-blocks widened)
        ∙ ap (λ (d : Block). d.base_addr) block-widened;
    covered_le = λ p. omega (
      arith,
      cover-split_step p,
      cover-widened_le p,
      cover-lowered p,
      covers-split (s.blocks b) o order_before IsShaped-before p,
    );
    covered = λ h p. omega (
      arith,
      cover-split_step p,
      cover-widened h p,
      cover-lowered p,
      covers-split (s.blocks b) o order_before IsShaped-before p,
    );
    same = same_split;
    taken = put_free-taken widened ∙ added.taken ∙ taken-lowered;
    count = omega (arith, put_free-count widened, added.count, count-lowered);
  }

  -- One round of `split_block` keeps the lists valid and has `b` one order lower.
  pub split_step-SplitStep : SplitStep s (split_step s b o) b o
  split_step-SplitStep = subst (λ t. SplitStep s t b o) (sym split_step-widened) split
