-- ===== src/Pmm/Tests.antt =====
-- The allocator of kernel/pmm.c on a region of eighteen pages at 0x2000.
use emergence_kernel.Prelude.{
  ℕ, ◌+◌, ◌≡◌, ◌⊎◌, refl, arith, none, some, [], ◌∷◌, ◌&&◌, ltb, leb, if◌then◌else◌,
}
use emergence_kernel.Pcd
use emergence_kernel.Pcd.{PcdState}
use emergence_kernel.Pmm.{
  size_of, alloc, free, find_free_block, find_from, find_first, split_block, split_loop, split_step,
  take_block, take_free, put_free, add_free_block, erase, find_allocated_block, coalesce_block,
  merge_loop, merge_step, find_buddy, search_buddy, release, get_buddy_addr, finish_alloc,
}
use emergence_kernel.Pmm.Mass.{sum}
use emergence_kernel.Pmm.Sample.{
  fresh, fresh-IsValid, boot, table, added, boot-IsDisjoint, address_of_first, table-IsReady,
}
use emergence_kernel.Pmm.Valid.{covers}
use emergence_kernel.Pmm.Region.{add_region, AddedRange, add_region-AddedRange, add_loop, fit_order}
use emergence_kernel.Pmm.Outcome.{
  Exhausted, HandedOut, alloc-outcome, HandedOut-found, alloc-get_type,
}
use emergence_kernel.Pmm.Grant.{alloc-exclusive, free_cover}
use emergence_kernel.Pmm.Free.{Freed, free-Freed}

first_block : (find_free_block boot 0).0 ≡ some 0
unfolding boot fresh add_region add_loop fit_order find_free_block find_from find_first
    add_free_block put_free
first_block = refl

handed_out : HandedOut boot table 0 (alloc boot table 0) 0
handed_out = HandedOut-found boot table 0 0 added.valid (omega arith) first_block

-- The region is cut into blocks of 2, 4, 8 and 4 pages, as the alignment of its addresses allows.
boot_lists :
    ((boot.free_lists 0).list ≡ []) × ((boot.free_lists 1).list ≡ 0 ∷ []) × (boot.free_pages ≡ 18)
unfolding boot fresh add_region add_loop fit_order find_free_block find_from find_first
    add_free_block put_free
boot_lists = (refl, refl, refl)

-- A page is allocated and given back: the lists are as before but for the descriptors used.
alloc-free :
    let s = (alloc boot table 0).1 in
    ((alloc boot table 0).0 ≡ 8192)
    × (s.allocated_blocks ≡ 0 ∷ [])
    × (((free s 8192 0).free_lists 1).list ≡ 0 ∷ [])
    × ((free s 8192 0).allocated_blocks ≡ [])
unfolding boot table fresh add_region add_loop fit_order find_free_block find_from find_first
    add_free_block put_free take_free erase split_block split_loop split_step take_block alloc
    finish_alloc free find_allocated_block coalesce_block merge_loop merge_step find_buddy
    search_buddy release get_buddy_addr
alloc-free = (refl, refl, refl, refl)

-- The count of free pages is 19 after one of 18 pages is allocated, and 21 after it is given back.
free_pages_after :
    let s = (alloc boot table 0).1 in (s.free_pages ≡ 19) × ((free s 8192 0).free_pages ≡ 21)
unfolding boot table fresh add_region add_loop fit_order find_free_block find_from find_first
    add_free_block put_free take_free erase split_block split_loop split_step take_block alloc
    finish_alloc free find_allocated_block coalesce_block merge_loop merge_step find_buddy
    search_buddy release get_buddy_addr
free_pages_after = (refl, refl)

add_region-AddedRange_example : AddedRange fresh (add_region fresh 8192 73728) 8192 81920 18
add_region-AddedRange_example = add_region-AddedRange fresh 8192 73728 fresh-IsValid (omega arith)

alloc-outcome_example :
    Exhausted boot table 0 (alloc boot table 0)
    ⊎ ((b : ℕ) × HandedOut boot table 0 (alloc boot table 0) b)
alloc-outcome_example = alloc-outcome boot table 0 added.valid (omega arith)

alloc-get_type_example : Pcd.get_type (alloc boot table 0).2 8200 ≡ (
    if leb (alloc boot table 0).0 8200 && ltb 8200 ((alloc boot table 0).0 + size_of 0)
    then Pcd.nk_normal
    else Pcd.get_type table 8200)
alloc-get_type_example =
    alloc-get_type boot table 0 8200 added.valid table-IsReady (omega arith)
      (omega (arith, address_of_first)) (omega (arith, address_of_first))

free-Freed_example :
    let s = (alloc boot table 0).1 in
    ((free s 8192 0 ≡ s) × (find_allocated_block s.blocks s.allocated_blocks 8192 ≡ none))
    ⊎ ((b : ℕ) × Freed s (free s 8192 0) 8192 b)
free-Freed_example = free-Freed (alloc boot table 0).1 8192 0 handed_out.lists.valid (omega arith)

alloc-exclusive_example :
    (free_cover 8200 boot ≡ 1)
    × (free_cover 8200 (alloc boot table 0).1 ≡ 0)
    × (sum (λ j. covers 8200 (boot.blocks j)) boot.allocated_blocks ≡ 0)
alloc-exclusive_example =
    alloc-exclusive boot table 0 8200 added.valid boot-IsDisjoint (omega arith)
      (omega (arith, address_of_first)) (omega (arith, address_of_first))
      (omega (arith, address_of_first))

boot_first : ((boot.blocks 0).order ≡ 1) × (boot.block_count ≡ 4) × (boot.free_pages ≡ 18)
unfolding boot fresh add_region add_loop fit_order add_free_block put_free
boot_first = (refl, refl, refl)
