-- ===== src/Pmm/Count.antt =====
-- The count of free pages in split_block of kernel/pmm.c.
use native.Mathlib.Nat.{pow-suc}
use emergence_kernel.Prelude.{
  ℕ, zero, suc, ◌+◌, ◌*◌, ◌^◌, ◌≤◌, ◌<◌, ◌≡◌, sym, ap, refl, inl, inr, arith, false, ltb, leb,
  Bool-cases, add_u64, u64_mod,
}
use emergence_kernel.Pmm.{
  PmmState, max_block_desc, size_of, put_free, take_free, set_block, add_free_block, split_step,
  split_loop, take_block, split_block,
}

free_pages-add_free_block :
    (s : PmmState) (addr o : ℕ)
    → s.block_count < max_block_desc
    → s.free_pages + 2 ^ o < u64_mod
    → ((add_free_block s addr o).free_pages ≡ s.free_pages + 2 ^ o)
      × ((add_free_block s addr o).block_count ≡ s.block_count + 1)
unfolding add_free_block put_free
free_pages-add_free_block s addr o room fits =
    let more : leb max_block_desc s.block_count ≡ false = ground arith in
    rw more (omega (arith, fits), refl)

free_pages-split_step :
    (s : PmmState) (b o : ℕ)
    → s.block_count < max_block_desc
    → s.free_pages + 2 ^ o < u64_mod
    → ((split_step s b o).free_pages ≡ s.free_pages + 2 ^ o)
      × ((split_step s b o).block_count ≡ s.block_count + 1)
unfolding split_step put_free take_free
free_pages-split_step s b o room fits =
    free_pages-add_free_block
      (set_block (take_free s (suc o) b) b (record (s.blocks b) { order = o }))
      (add_u64 (s.blocks b).base_addr (size_of o)) o room fits

free_pages-split_loop :
    (o : ℕ) (s : PmmState) (b target : ℕ)
    → target ≤ o
    → s.block_count + o ≤ max_block_desc
    → s.free_pages + 2 ^ o < u64_mod
    → (split_loop o s b target).free_pages + 2 ^ target ≡ s.free_pages + 2 ^ o
unfolding split_loop
free_pages-split_loop zero s b zero below room fits = refl
free_pages-split_loop zero s b (suc t) below room fits = absurd (omega arith)
free_pages-split_loop (suc o) s b target below room fits = elim (Bool-cases (ltb target (suc o))) [
  | inl more ↦
      let double : 2 ^ suc o ≡ 2 * 2 ^ o = omega (arith, pow-suc 2 o) in
      let (one, used) =
        free_pages-split_step s b o (omega (arith, room)) (omega (arith, fits, double)) in
      rw more (
        omega (
          arith,
          double,
          one,
          free_pages-split_loop o (split_step s b o) b target (ground arith)
              (omega (arith, room, used)) (omega (arith, one, fits, double)),
        ))
  | inr done ↦
      let same : suc o ≡ target = ground arith in
      rw done (ap (λ t. s.free_pages + 2 ^ t) (sym same))
]

-- With a descriptor left for each split, taking a block of one order out of a block of another leaves
-- a count of free pages that is higher by the pages of the larger block less those of the smaller:
-- the pages split off are added, and those of the larger block are not taken off.
pub free_pages-split_block :
    (s : PmmState) (b target : ℕ)
    → target ≤ (s.blocks b).order
    → s.block_count + (s.blocks b).order ≤ max_block_desc
    → s.free_pages + 2 ^ (s.blocks b).order < u64_mod
    → (split_block s b target).free_pages + 2 ^ target ≡ s.free_pages + 2 ^ (s.blocks b).order
unfolding split_block take_block take_free
free_pages-split_block s b target below room fits =
    free_pages-split_loop (s.blocks b).order s b target below room fits
