-- ===== src/Pmm/Merge.antt =====
-- Merging with a free buddy in kernel/pmm.c: the loop of coalesce_block.
pub mod Pairs
use emergence_kernel.Prelude.{
  ℕ, zero, suc, ◌+◌, ◌*◌, ◌/◌, ◌%◌, ◌≤◌, ◌<◌, ◌≡◌, ◌∙◌, sym, ap, subst, refl, inl, inr, arith, true,
  false, not, Option, none, some, List, [], ◌∷◌, ◌&&◌, ltb, ◌==◌, if◌then◌else◌, Bool, Bool-cases,
  ==_iff, u64_mod,
}
use emergence_kernel.Pmm.{
  Block, PmmState, max_order, size_of, take_free, set_block, get_buddy_addr, search_buddy,
  find_buddy, merge_step, merge_loop,
}
use emergence_kernel.Pmm.Mass.{sum, only, mass-take_free}
use emergence_kernel.Pmm.Buddy.{flip, get_buddy_addr-flip, size_of-suc}
use emergence_kernel.Pmm.Valid.{IsShaped, IsValid, covers, cover}
use emergence_kernel.Pmm.Valid.Moves.{
  IsLoose, take_free-IsValid, cover-take_free, set_block-IsValid, cover-set_block, update_self,
  only_self, in_free-listed,
}
use emergence_kernel.Pmm.Valid.Taken.{free_block}
use emergence_kernel.Pmm.Split.{covers-halves, size_of-pos}
use emergence_kernel.Pmm.Merge.Pairs.{search_buddy-found, pair_base, pair_halves, pair_ends}

-- A state in which descriptor `b` is about to be released: it is in no list and well shaped.
pub record InHand (s : PmmState) (b : ℕ) : Type 0 where
  pub valid : IsValid s
  pub loose : IsLoose s b
  pub shaped : IsShaped (s.blocks b)

-- How many listed blocks and the block in hand contain the address.
abbrev pub cover_with : ℕ → PmmState → ℕ → ℕ
cover_with p s b = cover p s + covers p (s.blocks b)

-- What merging does to a block in hand.
pub record Merged (s s' : PmmState) (b : ℕ) : Type 0 where
  pub hand : InHand s' b
  pub covered : (p : ℕ) → cover_with p s' b ≡ cover_with p s b
  pub taken : s'.allocated_blocks ≡ s.allocated_blocks
  pub count : s'.block_count ≡ s.block_count

module _ (s : PmmState) (b x : ℕ) (h : InHand s b) (below : (s.blocks b).order < max_order)
    (found : find_buddy s b ≡ some x) where
  o : ℕ
  o = (s.blocks b).order

  q : ℕ
  q = h.shaped.index

  size : ℕ
  size = size_of (s.blocks b).order

  addresses :
      (0 < sum (only x) (s.free_lists (s.blocks b).order).list)
      × ((s.blocks x).base_addr ≡ flip q * size)
  unfolding find_buddy q size
  addresses =
      let (here, addr) =
        search_buddy-found 1000 s.blocks (s.free_lists (s.blocks b).order).list
          (get_buddy_addr (s.blocks b).base_addr (s.blocks b).order) x found in
      (
        here,
        addr
            ∙ ap (λ a. get_buddy_addr a (s.blocks b).order) h.shaped.aligned
            ∙ get_buddy_addr-flip h.shaped.index (s.blocks b).order,
      )

  here : 0 < sum (only x) (s.free_lists (s.blocks b).order).list
  here = addresses.0

  le : (s.blocks b).order ≤ max_order
  le = omega (arith, below)

  buddy_order : (s.blocks x).order ≡ o
  unfolding o
  buddy_order = (h.valid.sorted (s.blocks b).order x le here).0

  buddy-IsShaped : IsShaped (s.blocks x)
  buddy-IsShaped = h.valid.shaped x (in_free-listed s (s.blocks b).order x le here)

  pos : 0 < size
  unfolding size
  pos = omega (arith, size_of-pos (s.blocks b).order)

  merged : Block
  merged = record (s.blocks b) {
    base_addr =
        if ltb (get_buddy_addr (s.blocks b).base_addr (s.blocks b).order) (s.blocks b).base_addr
        then get_buddy_addr (s.blocks b).base_addr (s.blocks b).order
        else (s.blocks b).base_addr;
    order = suc (s.blocks b).order;
  }

  merged_base : merged.base_addr ≡ q / 2 * (2 * size)
  unfolding merged q size
  merged_base =
      ap (λ t. if ltb t (s.blocks b).base_addr then t else (s.blocks b).base_addr)
        (ap (λ a. get_buddy_addr a (s.blocks b).order) h.shaped.aligned
          ∙ get_buddy_addr-flip h.shaped.index (s.blocks b).order)
      ∙ ap (λ t. if ltb (flip q * size) t then flip q * size else t) h.shaped.aligned
      ∙ pair_base size pos q

  merged_size : size_of merged.order ≡ 2 * size
  unfolding merged size
  merged_size = size_of-suc (s.blocks b).order

  buddy_ends : flip q * size + size ≤ u64_mod
  unfolding size o
  buddy_ends =
      subst (λ t. t + size ≤ u64_mod) addresses.1
        (subst (λ t. (s.blocks x).base_addr + size_of t ≤ u64_mod) buddy_order buddy-IsShaped.ends)

  own_ends : q * size + size ≤ u64_mod
  unfolding size q
  own_ends = subst (λ t. t + size ≤ u64_mod) h.shaped.aligned h.shaped.ends

  merged-IsShaped : IsShaped merged
  unfolding merged
  merged-IsShaped = record {
    small = below;
    index = q / 2;
    aligned = merged_base ∙ ap (λ t. q / 2 * t) (sym merged_size);
    ends =
        subst (λ t. merged.base_addr + t ≤ u64_mod) (sym merged_size)
          (subst (λ t. t + 2 * size ≤ u64_mod) (sym merged_base)
            (pair_ends size q own_ends buddy_ends));
  }

  covers-merged : (p : ℕ) → covers p merged ≡ covers p (s.blocks b) + covers p (s.blocks x)
  unfolding merged q size o
  covers-merged p =
      ap (λ t. covers p (free_block t (suc o))) merged_base
      ∙ covers-halves p (q / 2 * (2 * size)) o
      ∙ sym (pair_halves (λ t. covers p (free_block t o)) size q)
      ∙ omega (
        arith,
        ap (λ t. covers p (free_block t o)) h.shaped.aligned,
        ap (λ t. covers p (free_block t o)) addresses.1,
        ap (λ t. covers p (free_block (s.blocks x).base_addr t)) buddy_order,
      )

  -- The state once the buddy has left its list.
  alone : PmmState
  alone = take_free s (s.blocks b).order x

  alone-IsValid : IsValid alone
  unfolding alone
  alone-IsValid = take_free-IsValid s x h.valid (s.blocks b).order le here

  alone-IsLoose : IsLoose alone b
  unfolding alone take_free
  alone-IsLoose = record {
    known = h.loose.known;
    unlisted =
        omega (arith, mass-take_free (only b) s (s.blocks b).order x le here, h.loose.unlisted);
  }

  merge_step-set_block : merge_step s b x ≡ set_block alone b merged
  unfolding merge_step alone merged
  merge_step-set_block = refl

  block-merged : (set_block alone b merged).blocks b ≡ merged
  block-merged = update_self alone.blocks b merged

  cover_with-merged : (p : ℕ) → cover_with p (set_block alone b merged) b ≡ cover_with p s b
  unfolding alone
  cover_with-merged p = omega (
    arith,
    cover-set_block alone b alone-IsValid merged p alone-IsLoose,
    cover-take_free s x h.valid (s.blocks b).order le here p,
    covers-merged p,
    ap (covers p) block-merged,
  )

  merge : Merged s (set_block alone b merged) b
  unfolding alone take_free
  merge = record {
    hand = record {
      valid = set_block-IsValid alone b alone-IsValid merged alone-IsLoose;
      loose = record { known = alone-IsLoose.known; unlisted = alone-IsLoose.unlisted };
      shaped = subst IsShaped (sym block-merged) merged-IsShaped;
    };
    covered = cover_with-merged;
    taken = refl;
    count = refl;
  }

  -- Merging with the buddy that was found.
  pub merge_step-Merged : Merged s (merge_step s b x) b
  merge_step-Merged = subst (λ t. Merged s t b) (sym merge_step-set_block) merge

  pub order-merge_step : ((merge_step s b x).blocks b).order ≡ suc (s.blocks b).order
  unfolding merged
  order-merge_step =
      ap (λ (t : PmmState). (t.blocks b).order) merge_step-set_block
      ∙ ap (λ (d : Block). d.order) block-merged

Merged-same : {s : PmmState} {b : ℕ} → InHand s b → Merged s s b
Merged-same h = record { hand = h; covered = λ p. refl; taken = refl; count = refl }

Merged-trans : {s t u : PmmState} {b : ℕ} → Merged s t b → Merged t u b → Merged s u b
Merged-trans m n = record {
  hand = n.hand;
  covered = λ p. n.covered p ∙ m.covered p;
  taken = n.taken ∙ m.taken;
  count = n.count ∙ m.count;
}

-- The loop of `coalesce_block`, with the orders left as fuel.
pub merge_loop-Merged :
    (left : ℕ) (s : PmmState) (b : ℕ)
    → InHand s b
    → left + (s.blocks b).order ≡ max_order
    → Merged s (merge_loop left s b) b
unfolding merge_loop
merge_loop-Merged zero s b h e = Merged-same h
merge_loop-Merged (suc left) s b h e =
    go (find_buddy s b) refl (λ x m i. merge_loop-Merged left (merge_step s b x) b m i)
  where
    go :
        (f : Option ℕ)
        → find_buddy s b ≡ f
        → ((x : ℕ)
            → InHand (merge_step s b x) b
            → left + ((merge_step s b x).blocks b).order ≡ max_order
            → Merged (merge_step s b x) (merge_loop left (merge_step s b x) b) b)
        → Merged s (elim f [ none ↦ s | some x ↦ merge_loop left (merge_step s b x) b ]) b
    go none found rest = Merged-same h
    go (some x) found rest =
        let m = merge_step-Merged s b x h (omega (arith, e)) found in
        Merged-trans m
          (rest x m.hand (omega (arith, e, order-merge_step s b x h (omega (arith, e)) found)))
