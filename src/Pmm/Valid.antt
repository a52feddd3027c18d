-- ===== src/Pmm/Valid.antt =====
-- The invariant of the lists of kernel/pmm.c, what the lists cover, and the moves that every
-- operation is made of.
pub mod Moves
pub mod Taken
use emergence_kernel.Prelude.{
  ℕ, zero, suc, ◌+◌, ◌*◌, ◌≤◌, ◌<◌, ◌≡◌, ◌≢◌, arith, true, false, ◌&&◌, ltb, leb, if◌then◌else◌,
  u64_mod,
}
use emergence_kernel.Pmm.{Block, PmmState, max_order, size_of}
use emergence_kernel.Pmm.Mass.{sum, only, mass}

-- How often descriptor `i` is listed.
abbrev pub listed : ℕ → PmmState → ℕ
listed i s = mass (only i) s

-- A block of a valid order, aligned to its size, that ends within 64 bits.
pub record IsShaped (block : Block) : Type 0 where
  pub small : block.order ≤ max_order
  pub index : ℕ
  pub aligned : block.base_addr ≡ index * size_of block.order
  pub ends : block.base_addr + size_of block.order ≤ u64_mod

-- Every descriptor is listed at most once, those not handed out yet are not listed, a free list
-- holds free blocks of its own order, and all listed blocks are well shaped.
pub record IsValid (s : PmmState) : Type 0 where
  pub unique : (i : ℕ) → listed i s ≤ 1
  pub bounded : (i : ℕ) → s.block_count ≤ i → listed i s ≡ 0
  pub sorted :
      (o i : ℕ)
      → o ≤ max_order
      → 0 < sum (only i) (s.free_lists o).list
      → ((s.blocks i).order ≡ o) × ((s.blocks i).allocated ≡ false)
  pub shaped : (i : ℕ) → 0 < listed i s → IsShaped (s.blocks i)

-- 1 if the address lies in the block
abbrev pub covers : ℕ → Block → ℕ
covers p block =
    if leb block.base_addr p && ltb p (block.base_addr + size_of block.order) then 1 else 0

-- How many listed blocks, free or allocated, contain the address `p`.
abbrev pub cover : ℕ → PmmState → ℕ
cover p s = mass (λ j. covers p (s.blocks j)) s
