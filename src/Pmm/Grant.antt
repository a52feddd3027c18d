-- ===== src/Pmm/Grant.antt =====
-- What pmm_alloc of kernel/pmm.c takes from the free blocks.
use emergence_kernel.Pmm.Split.{size_of-pos}
use emergence_kernel.Pmm.Mass.{sum, only, sum-snoc, free_mass}
use emergence_kernel.Pmm.Valid.{listed, IsValid, covers}
use emergence_kernel.Pmm.Valid.Moves.{lt_count, only_self}
use emergence_kernel.Pmm.{
  size_of, max_order, Block, page_size, PcdState, ◌∷◌, List, PmmState, alloc,
}
use emergence_kernel.Pmm.Alloc.{Allocated}
use emergence_kernel.Pmm.Outcome.{
  IsShaped-page_aligned, IsDisjoint, alloc-outcome, alloc-IsDisjoint,
}
use emergence_kernel.Prelude.{
  refl, sym, inr, subst, ◌∙◌, ap, inl, [], ◌%◌, ◌+◌, ◌≢◌, ◌≤◌, arith, ◌<◌, ◌≡◌, ℕ,
}

-- How many free blocks contain the address.
abbrev pub free_cover : ℕ → PmmState → ℕ
free_cover p s = free_mass (λ j. covers p (s.blocks j)) s

-- A sum over a list reads its weights at the members only.
sum-ext :
    (g g' : ℕ → ℕ) (xs : List ℕ)
    → ((j : ℕ) → 0 < sum (only j) xs → g j ≡ g' j)
    → sum g xs ≡ sum g' xs
unfolding sum
sum-ext g g' [] h = refl
sum-ext g g' (x ∷ xs) h =
    omega (arith, h x (omega (arith, only_self x)), sum-ext g g' xs (λ j m. h j (omega (arith, m))))

listed_taken : (s : PmmState) (j : ℕ) → 0 < sum (only j) s.allocated_blocks → 0 < listed j s
listed_taken s j h = omega (arith, h)

module _ {s s' : PmmState} {b order : ℕ} (v : IsValid s) (a : Allocated s s' b order) where
  -- The block was not allocated before.
  other : (j : ℕ) → 0 < sum (only j) s.allocated_blocks → b ≢ j
  other j m e = omega (
    arith,
    a.valid.unique b,
    ap (sum (only b)) a.taken,
    sum-snoc (only b) s.allocated_blocks b,
    only_self b,
    subst (λ i. 0 < sum (only i) s.allocated_blocks) (sym e) m,
  )

  sum-taken :
      (p : ℕ)
      → sum (λ j. covers p (s'.blocks j)) s'.allocated_blocks
        ≡ sum (λ j. covers p (s.blocks j)) s.allocated_blocks + covers p (s'.blocks b)
  sum-taken p =
      ap (sum (λ j. covers p (s'.blocks j))) a.taken
      ∙ sum-snoc (λ j. covers p (s'.blocks j)) s.allocated_blocks b
      ∙ ap (λ n. n + covers p (s'.blocks b))
          (sum-ext (λ j. covers p (s'.blocks j)) (λ j. covers p (s.blocks j)) s.allocated_blocks
            (λ j m. ap (covers p) (a.same j (other j m) (lt_count j v (listed_taken s j m)))))

  -- The block that is handed out comes from the free blocks.
  pub free_cover-Allocated : (p : ℕ) → free_cover p s' + covers p (s'.blocks b) ≤ free_cover p s
  free_cover-Allocated p = omega (arith, a.covered_le p, sum-taken p)

covers-base : (block : Block) → covers block.base_addr block ≡ 1
covers-base block = ground (arith, size_of-pos block.order)

now : {s s' : PmmState} {order : ℕ} (b : ℕ) → Allocated s s' b order → 0 < listed b s'
now {s} {s'} b a =
    listed_taken s' b (
      omega (arith, ap (sum (only b)) a.taken, sum-snoc (only b) s.allocated_blocks b, only_self b))

-- What a call of `pmm_alloc` for one page gives: on NULL the lists are as before. Otherwise the page
-- is aligned, was in a free block and is in none now, and no other address is in more free blocks.
pub record Granted (s s' : PmmState) (page : ℕ) : Type 0 where
  pub valid : IsValid s'
  pub disjoint : IsDisjoint s'
  pub aligned : page % page_size ≡ 0
  pub was_free : 0 < free_cover page s
  pub taken : free_cover page s' ≡ 0
  pub kept : (p : ℕ) → free_cover p s' ≤ free_cover p s

free_cover-le : (s : PmmState) → IsDisjoint s → (p : ℕ) → free_cover p s ≤ 1
free_cover-le s d p = omega (arith, d p)

pub alloc-Granted :
    (s : PmmState) (pcd : PcdState)
    → IsValid s
    → IsDisjoint s
    → (alloc s pcd 0).0 ≢ 0
    → Granted s (alloc s pcd 0).1 (alloc s pcd 0).0
alloc-Granted s pcd v d some_page = elim (alloc-outcome s pcd 0 v (omega arith)) [
  | inl e ↦ absurd (some_page e.null)
  | inr (b, h) ↦
      let s' = (alloc s pcd 0).1 in
      let page = (alloc s pcd 0).0 in
      let inside : covers page (s'.blocks b) ≡ 1 =
        ap (λ a. covers a (s'.blocks b)) h.address ∙ covers-base (s'.blocks b) in
      let fewer = λ (p : ℕ). free_cover-Allocated v h.lists p in
      record {
        valid = h.lists.valid;
        disjoint = alloc-IsDisjoint s pcd 0 v d;
        aligned =
            ap (λ a. a % page_size) h.address
            ∙ IsShaped-page_aligned (h.lists.valid.shaped b (now b h.lists));
        was_free = omega (arith, inside, fewer page);
        taken = omega (arith, inside, fewer page, free_cover-le s d page);
        kept = λ p. omega (arith, fewer p);
      }
]

-- When `pmm_alloc` with an order of at most 9 on valid lists of disjoint blocks gives an address that
-- is not NULL, each address of the block from there on was in a free block before, is in no free block
-- afterwards, and is in no block that was allocated before.
pub alloc-exclusive :
    (s : PmmState) (pcd : PcdState) (order p : ℕ)
    → IsValid s
    → IsDisjoint s
    → order ≤ max_order
    → (alloc s pcd order).0 ≢ 0
    → (alloc s pcd order).0 ≤ p
    → p < (alloc s pcd order).0 + size_of order
    → (free_cover p s ≡ 1)
      × (free_cover p (alloc s pcd order).1 ≡ 0)
      × (sum (λ j. covers p (s.blocks j)) s.allocated_blocks ≡ 0)
alloc-exclusive s pcd order p v d le given from to = elim (alloc-outcome s pcd order v le) [
  | inl e ↦ absurd (given e.null)
  | inr (b, h) ↦
      let block = (alloc s pcd order).1.blocks b in
      let end = ap (λ o. block.base_addr + size_of o) h.lists.block_order in
      let inside : covers p block ≡ 1 = ground (arith, h.address, end, from, to) in
      let fewer = free_cover-Allocated v h.lists p in
      let once = free_cover-le s d p in
      (
        omega (arith, inside, fewer, once),
        omega (arith, inside, fewer, once),
        omega (arith, inside, fewer, d p),
      )
]
