-- ===== src/Pmm/Free.antt =====
-- pmm_free of kernel/pmm.c, and coalesce_block as a whole.
use emergence_kernel.Prelude.{
  ℕ, ◌+◌, ◌-◌, ◌^◌, ◌≤◌, ◌<◌, ◌≡◌, ◌∙◌, ◌⊎◌, sym, ap, subst, refl, inl, inr, arith, Bool, true,
  false, Option, none, some, List, [], ◌∷◌, ◌==◌, ltb, if◌then◌else◌, ==_iff, add_u64,
}
use emergence_kernel.Pmm.{
  Block, PmmState, max_order, put_free, set_block, merge_loop, release, coalesce_block,
  find_allocated_block, free, erase,
}
use emergence_kernel.Pmm.Mass.{sum, only}
use emergence_kernel.Pmm.Valid.{IsShaped, IsValid, covers, cover}
use emergence_kernel.Pmm.Valid.Moves.{
  IsLoose, set_block-IsValid, cover-set_block, put_free-IsValid, cover-put_free, update_self,
  only_self,
}
use emergence_kernel.Pmm.Valid.Taken.{
  unlist_taken, unlist_taken-IsValid, unlist_taken-IsLoose, cover-unlist_taken, taken-listed,
  repaged-IsValid,
}
use emergence_kernel.Pmm.Merge.{InHand, cover_with, merge_loop-Merged}
use emergence_kernel.Pmm.Merge.Pairs.{some-injective}

-- A block that is found is listed as allocated, and begins at the address.
pub find_allocated_block-found :
    (blocks : ℕ → Block) (xs : List ℕ) (addr x : ℕ)
    → find_allocated_block blocks xs addr ≡ some x
    → (0 < sum (only x) xs) × ((blocks x).base_addr ≡ addr)
unfolding find_allocated_block sum
find_allocated_block-found blocks [] addr x e = cc
find_allocated_block-found blocks (y ∷ ys) addr x e =
    go ((blocks y).base_addr == addr) refl
      (λ later. find_allocated_block-found blocks ys addr x later) e
  where
    go :
        (c : Bool)
        → ((blocks y).base_addr == addr) ≡ c
        → (find_allocated_block blocks ys addr ≡ some x
            → (0 < sum (only x) ys) × ((blocks x).base_addr ≡ addr))
        → (if c then some y else find_allocated_block blocks ys addr) ≡ some x
        → (0 < only x y + sum (only x) ys) × ((blocks x).base_addr ≡ addr)
    go true found rest same = (
      omega (arith, subst (λ j. only j y ≡ 1) (sym (some-injective same)) (only_self y)),
      ap (λ j. (blocks j).base_addr) (some-injective same)
          ∙ (==_iff (blocks y).base_addr addr).0 found,
    )
    go false other rest later = let (m, a) = rest later in (omega (arith, m), a)

-- What giving back a block in hand does.
pub record Released (s s' : PmmState) (b : ℕ) : Type 0 where
  pub valid : IsValid s'
  pub covered : (p : ℕ) → cover p s' ≡ cover_with p s b
  pub taken : s'.allocated_blocks ≡ s.allocated_blocks

module _ (s : PmmState) (b : ℕ) (h : InHand s b) where
  freed_block : Block
  freed_block = record (s.blocks b) { allocated = false }

  unmarked : PmmState
  unmarked = set_block s b freed_block

  unmarked-block : unmarked.blocks b ≡ freed_block
  unfolding unmarked
  unmarked-block = update_self s.blocks b freed_block

  unmarked-IsValid : IsValid unmarked
  unfolding unmarked
  unmarked-IsValid = set_block-IsValid s b h.valid freed_block h.loose

  unmarked-IsLoose : IsLoose unmarked b
  unfolding unmarked
  unmarked-IsLoose = record { known = h.loose.known; unlisted = h.loose.unlisted }

  unmarked-IsShaped : IsShaped (unmarked.blocks b)
  unfolding freed_block
  unmarked-IsShaped = subst IsShaped (sym unmarked-block) (record {
    small = h.shaped.small;
    index = h.shaped.index;
    aligned = h.shaped.aligned;
    ends = h.shaped.ends;
  })

  release-Released : Released s (release s b) b
  unfolding release unmarked put_free freed_block
  release-Released = record {
    valid = repaged-IsValid (add_u64 s.free_pages (2 ^ (s.blocks b).order)) (
        put_free-IsValid unmarked b unmarked-IsValid unmarked-IsLoose unmarked-IsShaped
          (s.blocks b).order h.shaped.small (ap (λ (d : Block). d.order) unmarked-block)
          (ap (λ (d : Block). d.allocated) unmarked-block));
    covered = λ p.
        cover-put_free unmarked b unmarked-IsValid unmarked-IsLoose unmarked-IsShaped
          (s.blocks b).order p h.shaped.small
        ∙ omega (
          arith,
          cover-set_block s b h.valid freed_block p h.loose,
          ap (covers p) unmarked-block,
        );
    taken = refl;
  }

pub coalesce_block-Released :
    (s : PmmState) (b : ℕ) → InHand s b → Released s (coalesce_block s b) b
unfolding coalesce_block
coalesce_block-Released s b h =
    let m =
      merge_loop-Merged (max_order - (s.blocks b).order) s b h (omega (arith, h.shaped.small)) in
    let r = release-Released (merge_loop (max_order - (s.blocks b).order) s b) b m.hand in
    record { valid = r.valid; covered = λ p. r.covered p ∙ m.covered p; taken = r.taken ∙ m.taken }

-- The lists after a call that frees descriptor `b`.
pub record Freed (s s' : PmmState) (addr b : ℕ) : Type 0 where
  pub was_taken : 0 < sum (only b) s.allocated_blocks
  pub begins : (s.blocks b).base_addr ≡ addr
  pub valid : IsValid s'
  pub taken : s'.allocated_blocks ≡ erase b s.allocated_blocks
  pub covered : (p : ℕ) → cover p s' ≡ cover p s

free_found-Freed :
    (s : PmmState) (addr b : ℕ)
    → IsValid s
    → find_allocated_block s.blocks s.allocated_blocks addr ≡ some b
    → Freed s (coalesce_block (unlist_taken s b) b) addr b
free_found-Freed s addr b v found =
    let (here, begins) = find_allocated_block-found s.blocks s.allocated_blocks addr b found in
    let r = coalesce_block-Released (unlist_taken s b) b (record {
      valid = unlist_taken-IsValid s b v here;
      loose = unlist_taken-IsLoose s b v here;
      shaped = v.shaped b (taken-listed s b v here);
    }) in
    record {
      was_taken = here;
      begins = begins;
      valid = r.valid;
      taken = r.taken;
      covered = λ p. r.covered p ∙ cover-unlist_taken s b v here p;
    }

-- On valid lists and with an order of at most 9, `pmm_free` changes nothing when no allocated block begins at the address. Otherwise that block
-- leaves the list of allocated blocks, the lists stay valid, and every address is in as many blocks
-- as before.
pub free-Freed :
    (s : PmmState) (addr order : ℕ)
    → IsValid s
    → order ≤ max_order
    → ((free s addr order ≡ s) × (find_allocated_block s.blocks s.allocated_blocks addr ≡ none))
      ⊎ ((b : ℕ) × Freed s (free s addr order) addr b)
unfolding free
free-Freed s addr order v le =
    let small : ltb max_order order ≡ false = ground arith in
    rw small (go (find_allocated_block s.blocks s.allocated_blocks addr) refl)
  where
    go :
        (f : Option ℕ)
        → find_allocated_block s.blocks s.allocated_blocks addr ≡ f
        → ((elim f [ none ↦ s | some b ↦ coalesce_block (unlist_taken s b) b ] ≡ s) × (f ≡ none))
          ⊎ ((b : ℕ) × Freed s
                (elim f [ none ↦ s | some b ↦ coalesce_block (unlist_taken s b) b ])
                addr
                b)
    go none found = inl (refl, refl)
    go (some b) found = inr (b, free_found-Freed s addr b v found)
