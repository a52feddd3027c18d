-- ===== src/Pmm/Sample.antt =====
-- Sample data for the allocator of kernel/pmm.c: eighteen free pages from 0x2000 on.
-- The lists as `pmm_init` makes them.
use emergence_kernel.Pcd.Laws.{IsReady}
use emergence_kernel.Pmm.Valid.{cover, IsValid}
use emergence_kernel.Prelude.{◌≡◌, refl, arith}
use emergence_kernel.Pmm.Outcome.{IsDisjoint}
use emergence_kernel.Pmm.Region.{fit_order, add_loop, add_region, add_region-AddedRange, AddedRange}
use emergence_kernel.Pcd.{PcdState}
use emergence_kernel.Pmm.Mass.{sum, free_sum}
use emergence_kernel.Pmm.{
  finish_alloc, alloc, take_block, split_step, split_loop, split_block, erase, take_free, put_free,
  add_free_block, find_first, find_from, find_free_block, false, ℕ, [], true, PmmState,
}

unfoldable pub fresh : PmmState
fresh = record {
  free_lists = λ o. record { list = []; count = 0 };
  allocated_blocks = [];
  total_pages = 0;
  free_pages = 0;
  blocks = λ i. record { base_addr = 0; order = 0; allocated = false };
  block_count = 0;
}

pub fresh-IsValid : IsValid fresh
unfolding fresh free_sum sum
fresh-IsValid = record {
  unique = λ i. omega arith;
  bounded = λ i h. refl;
  sorted = λ o i le h. absurd (omega (arith, h));
  shaped = λ i h. absurd (omega (arith, h));
}

unfoldable pub boot : PmmState
boot = add_region fresh 8192 73728

unfoldable pub table : PcdState
table = record {
  pages = λ i. record { type = 0; flags = 0; reserved = 0 };
  max_pages = 64;
  base_page = 0;
  initialized = true;
}

pub added : AddedRange fresh boot 8192 81920 18
unfolding boot
added = add_region-AddedRange fresh 8192 73728 fresh-IsValid (omega arith)

pub nowhere : (p : ℕ) → cover p fresh ≡ 0
unfolding fresh free_sum sum
nowhere p = refl

pub boot-IsDisjoint : IsDisjoint boot
boot-IsDisjoint p = ground (arith, added.covered_le p, nowhere p)

pub address_of_first : (alloc boot table 0).0 ≡ 8192
unfolding boot table fresh add_region add_loop fit_order find_free_block find_from find_first
    add_free_block put_free take_free erase split_block split_loop split_step take_block alloc
    finish_alloc
address_of_first = refl

pub table-IsReady : IsReady table
unfolding table
table-IsReady = record { ready = refl; no_wrap = omega arith }
