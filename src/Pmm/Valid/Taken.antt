-- ===== src/Pmm/Valid/Taken.antt =====
-- Moves into and out of the list of allocated blocks, and a fresh descriptor (kernel/pmm.c).
use emergence_kernel.Prelude.{
  Bool-cases, inl, inr, subst, add_u64, ◌^◌, ℕ, ◌+◌, ◌≤◌, ◌<◌, ◌≡◌, ◌∙◌, sym, ap, refl, arith,
  false, [], ◌∷◌, ◌++◌, leb,
}
use emergence_kernel.Pmm.{
  Block, PmmState, max_block_desc, put_free, set_block, erase, add_free_block,
}
use emergence_kernel.Pmm.Mass.{sum, only, mass, sum-snoc, sum-erase, mass-put_free}
use emergence_kernel.Pmm.Valid.{listed, IsShaped, IsValid, covers, cover}
use emergence_kernel.Pmm.Valid.Moves.{
  IsLoose, lt_count, room, beyond, shape, set_block-IsValid, cover-set_block, put_free-IsValid,
  cover-put_free, update_self, update-ne, only_self, only-ne,
}

-- `list_push_back(&allocated_blocks, &block->list)` and `list_remove` from that list
abbrev pub list_taken : PmmState → ℕ → PmmState
list_taken s b = record s { allocated_blocks = s.allocated_blocks ++ b ∷ [] }

abbrev pub unlist_taken : PmmState → ℕ → PmmState
unlist_taken s b = record s { allocated_blocks = erase b s.allocated_blocks }

mass-list_taken : (g : ℕ → ℕ) (s : PmmState) (b : ℕ) → mass g (list_taken s b) ≡ mass g s + g b
mass-list_taken g s b = omega (arith, sum-snoc g s.allocated_blocks b)

mass-unlist_taken :
    (g : ℕ → ℕ) (s : PmmState) (b : ℕ)
    → 0 < sum (only b) s.allocated_blocks
    → mass g (unlist_taken s b) + g b ≡ mass g s
mass-unlist_taken g s b h = omega (arith, sum-erase g b s.allocated_blocks h)

module _ (s : PmmState) (b : ℕ) (v : IsValid s) where
  pub list_taken-IsValid : IsLoose s b → IsShaped (s.blocks b) → IsValid (list_taken s b)
  list_taken-IsValid l shaped = record {
    unique = λ i. omega (arith, mass-list_taken (only i) s b, room s b v l i);
    bounded = λ i h. omega (arith, mass-list_taken (only i) s b, beyond s b v l i h);
    sorted = v.sorted;
    shaped = λ i h. shape s b v l shaped i (omega (arith, h, mass-list_taken (only i) s b));
  }

  pub cover-list_taken : (p : ℕ) → cover p (list_taken s b) ≡ cover p s + covers p (s.blocks b)
  cover-list_taken p = mass-list_taken (λ j. covers p (s.blocks j)) s b

  module _ (here : 0 < sum (only b) s.allocated_blocks) where
    pub taken-listed : 0 < listed b s
    taken-listed = omega (arith, here)

    pub unlist_taken-IsValid : IsValid (unlist_taken s b)
    unlist_taken-IsValid = record {
      unique = λ i. omega (arith, mass-unlist_taken (only i) s b here, v.unique i);
      bounded = λ i h. omega (arith, mass-unlist_taken (only i) s b here, v.bounded i h);
      sorted = v.sorted;
      shaped = λ i h. v.shaped i (omega (arith, h, mass-unlist_taken (only i) s b here));
    }

    pub unlist_taken-IsLoose : IsLoose (unlist_taken s b) b
    unlist_taken-IsLoose = record {
      known = lt_count b v taken-listed;
      unlisted = omega (arith, mass-unlist_taken (only b) s b here, v.unique b, only_self b);
    }

    pub cover-unlist_taken :
        (p : ℕ) → cover p (unlist_taken s b) + covers p (s.blocks b) ≡ cover p s
    cover-unlist_taken p = mass-unlist_taken (λ j. covers p (s.blocks j)) s b here

-- One more descriptor is in use: it is loose.
abbrev pub hand_out : PmmState → PmmState
hand_out s = record s { block_count = s.block_count + 1 }

hand_out-IsValid : {s : PmmState} → IsValid s → IsValid (hand_out s)
hand_out-IsValid v = record {
  unique = v.unique;
  bounded = λ i h. v.bounded i (omega arith);
  sorted = v.sorted;
  shaped = v.shaped;
}

hand_out-IsLoose : {s : PmmState} → IsValid s → IsLoose (hand_out s) s.block_count
hand_out-IsLoose {s} v = record {
  known = omega arith;
  unlisted = v.bounded s.block_count (omega arith);
}

-- The block that `add_free_block` makes.
abbrev pub free_block : ℕ → ℕ → Block
free_block addr order = record { base_addr = addr; order = order; allocated = false }

-- What `add_free_block` does to the lists: the new block is covered once more, unless no descriptor
-- is left; listed blocks and loose descriptors stay.
pub record Added (s s' : PmmState) (addr order : ℕ) : Type 0 where
  pub valid : IsValid s'
  pub covered_le : (p : ℕ) → cover p s' ≤ cover p s + covers p (free_block addr order)
  pub covered :
      s.block_count < max_block_desc
      → (p : ℕ) → cover p s' ≡ cover p s + covers p (free_block addr order)
  pub loose : (b : ℕ) → IsLoose s b → IsLoose s' b
  pub same : (b : ℕ) → b < s.block_count → s'.blocks b ≡ s.blocks b
  pub taken : s'.allocated_blocks ≡ s.allocated_blocks
  pub count : (s.block_count ≤ s'.block_count) × (s'.block_count ≤ s.block_count + 1)

pub repaged-IsValid : {s : PmmState} (n : ℕ) → IsValid s → IsValid (record s { free_pages = n })
repaged-IsValid n v = record {
  unique = v.unique;
  bounded = v.bounded;
  sorted = v.sorted;
  shaped = v.shaped;
}

module _ (s : PmmState) (addr order : ℕ) (v : IsValid s)
    (shaped : IsShaped (free_block addr order)) where
  described : PmmState
  described = set_block (hand_out s) s.block_count (free_block addr order)

  described-IsValid : IsValid described
  unfolding described
  described-IsValid =
      set_block-IsValid (hand_out s) s.block_count (hand_out-IsValid v) (free_block addr order)
        (hand_out-IsLoose v)

  described-IsLoose : IsLoose described s.block_count
  unfolding described
  described-IsLoose = record {
    known = (hand_out-IsLoose v).known;
    unlisted = (hand_out-IsLoose v).unlisted;
  }

  described-block : described.blocks s.block_count ≡ free_block addr order
  unfolding described
  described-block = update_self s.blocks s.block_count (free_block addr order)

  cover-described : (p : ℕ) → cover p described ≡ cover p s
  unfolding described
  cover-described p =
      cover-set_block (hand_out s) s.block_count (hand_out-IsValid v) (free_block addr order) p
        (hand_out-IsLoose v)

  placed : PmmState
  placed = put_free described order s.block_count

  cover-placed : (p : ℕ) → cover p placed ≡ cover p s + covers p (free_block addr order)
  unfolding placed
  cover-placed p =
      cover-put_free described s.block_count described-IsValid described-IsLoose
        (subst IsShaped (sym described-block) shaped) order p shaped.small
      ∙ omega (arith, cover-described p, ap (covers p) described-block)

  placed-IsValid : IsValid placed
  unfolding placed
  placed-IsValid =
      put_free-IsValid described s.block_count described-IsValid described-IsLoose
        (subst IsShaped (sym described-block) shaped) order shaped.small
        (ap (λ (d : Block). d.order) described-block)
        (ap (λ (d : Block). d.allocated) described-block)

  placed-IsLoose : (b : ℕ) → IsLoose s b → IsLoose placed b
  unfolding placed described put_free
  placed-IsLoose b l = record {
    known = omega (arith, l.known);
    unlisted = omega (
      arith,
      l.unlisted,
      mass-put_free (only b) described order s.block_count shaped.small,
      only-ne b s.block_count (λ e. absurd (omega (arith, l.known, e))),
    );
  }

  pub add_free_block-Added : Added s (add_free_block s addr order) addr order
  unfolding add_free_block placed described put_free
  add_free_block-Added = elim (Bool-cases (leb max_block_desc s.block_count)) [
    | inl full ↦ rw full (record {
      valid = v;
      covered_le = λ p. omega arith;
      covered = λ h p. absurd (ground arith);
      loose = λ b l. l;
      same = λ b h. refl;
      taken = refl;
      count = omega arith;
    })
    | inr more ↦ rw more (record {
      valid = repaged-IsValid (add_u64 s.free_pages (2 ^ order)) placed-IsValid;
      covered_le = λ p. omega (arith, cover-placed p);
      covered = λ h p. cover-placed p;
      loose = λ b l. record {
        known = (placed-IsLoose b l).known;
        unlisted = (placed-IsLoose b l).unlisted;
      };
      same = λ b h.
          update-ne s.blocks s.block_count (free_block addr order) (λ e. absurd (omega (arith, e)));
      taken = refl;
      count = omega arith;
    })
  ]
