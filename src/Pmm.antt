-- ===== src/Pmm.antt =====
-- kernel/pmm.c and kernel/pmm.h: the buddy allocator of physical pages. A descriptor is its index in
-- the array `blocks`, and each list holds the indices of its descriptors in order: kernel/list.h
-- implements such lists, and a descriptor is in one list at a time. The lock is held over each
-- operation and released on every path.
pub mod Mass
pub mod Valid
pub mod Buddy
pub mod Split
pub mod Alloc
pub mod Outcome
pub mod Region
pub mod Count
pub mod Grant
pub mod Marks
pub mod Sample
pub mod Merge
pub mod Free
mod Tests
use Prim.Native.Nat.{bit_xor}
use emergence_kernel.Prelude.{
  ℕ, zero, suc, ◌+◌, ◌-◌, ◌*◌, ◌/◌, ◌^◌, ◌%◌, Bool, true, false, not, ◌&&◌, Option, none, some,
  List, [], ◌∷◌, ◌++◌, ltb, leb, ◌==◌, if◌then◌else◌, update, add_u64, sub_u64, page_size,
}
use emergence_kernel.Pcd
use emergence_kernel.Pcd.{PcdState}

-- `block_info_t`
pub record Block : Type 0 where
  pub base_addr : ℕ
  pub order : ℕ
  pub allocated : Bool

-- `free_list_t`
pub record FreeList : Type 0 where
  pub list : List ℕ
  pub count : ℕ

-- `pmm_state_t`, without its lock and the list of regions, which nothing uses
pub record PmmState : Type 0 where
  pub free_lists : ℕ → FreeList
  pub allocated_blocks : List ℕ
  pub total_pages : ℕ
  pub free_pages : ℕ
  pub blocks : ℕ → Block
  pub block_count : ℕ

-- MAX_ORDER and MAX_BLOCK_DESC
abbrev pub max_order : ℕ
max_order = 9

abbrev pub max_block_desc : ℕ
max_block_desc = 2048

-- `PAGE_SIZE << order`
abbrev pub size_of : ℕ → ℕ
size_of order = 4096 * 2 ^ order

-- `list_remove` of one descriptor's node from the list that holds it
pub erase : ℕ → List ℕ → List ℕ
erase b [] = []
erase b (x ∷ xs) = if x == b then xs else x ∷ erase b xs

-- `list_push_back(&free_lists[order].list, &block->list); free_lists[order].count++`
pub put_free : PmmState → ℕ → ℕ → PmmState
put_free s order b =
    let f = s.free_lists order in
    record s {
      free_lists =
          update s.free_lists order (record { list = f.list ++ b ∷ []; count = add_u64 f.count 1 });
    }

-- `list_remove(&block->list); free_lists[order].count--`
pub take_free : PmmState → ℕ → ℕ → PmmState
take_free s order b =
    let f = s.free_lists order in
    record s {
      free_lists =
          update s.free_lists order (record { list = erase b f.list; count = sub_u64 f.count 1 });
    }

abbrev pub set_block : PmmState → ℕ → Block → PmmState
set_block s b block = record s { blocks = update s.blocks b block }

pub get_buddy_addr : ℕ → ℕ → ℕ
get_buddy_addr addr order = bit_xor addr (size_of order)

-- Out of descriptors, the block is dropped with a message.
pub add_free_block : PmmState → ℕ → ℕ → PmmState
add_free_block s addr order =
    if leb max_block_desc s.block_count
    then s
    else let b = s.block_count in
      let s1 = record s { block_count = b + 1 } in
      let s2 = set_block s1 b (record { base_addr = addr; order = order; allocated = false }) in
      let s3 = put_free s2 order b in record s3 { free_pages = add_u64 s3.free_pages (2 ^ order) }

-- One round of the loop in `split_block`, at a descriptor of order `suc o`.
pub split_step : PmmState → ℕ → ℕ → PmmState
split_step s b o =
    let block = s.blocks b in
    let s1 = take_free s (suc o) b in
    let s2 = set_block s1 b (record block { order = o }) in
    let s3 = add_free_block s2 (add_u64 block.base_addr (size_of o)) o in put_free s3 o b

-- `while (block->order > target_order)`: the order falls by one a round, and is the fuel.
pub split_loop : ℕ → PmmState → ℕ → ℕ → PmmState
split_loop zero s b target = s
split_loop (suc o) s b target =
    let rest = split_loop o (split_step s b o) b target in if ltb target (suc o) then rest else s

-- The end of `split_block`: the block leaves its free list for the list of allocated blocks.
pub take_block : PmmState → ℕ → PmmState
take_block s b =
    let block = s.blocks b in
    let s1 = take_free s block.order b in
    let s2 = set_block s1 b (record block { allocated = true }) in
    record s2 { allocated_blocks = s2.allocated_blocks ++ b ∷ [] }

pub split_block : PmmState → ℕ → ℕ → PmmState
split_block s b target = take_block (split_loop (s.blocks b).order s b target) b

-- The first descriptor of a list, if it is not empty.
pub find_first : List ℕ → Option ℕ
find_first [] = none
find_first (b ∷ bs) = some b

-- `for (o = order; o <= MAX_ORDER; o++)`, with the number of orders left
pub find_from : ℕ → PmmState → ℕ → ℕ → Option ℕ × PmmState
find_from zero s o order = (none, s)
find_from (suc left) s o order = elim (find_first (s.free_lists o).list) [
  | none ↦ find_from left s (o + 1) order
  | some b ↦ (some b, split_block s b order)
]

pub find_free_block : PmmState → ℕ → Option ℕ × PmmState
find_free_block s order = find_from (max_order + 1 - order) s order order

-- The search in `coalesce_block`: a thousand nodes are looked at, and a longer list is taken for
-- corrupted.
pub search_buddy : ℕ → (ℕ → Block) → List ℕ → ℕ → Option ℕ
search_buddy left blocks [] buddy_addr = none
search_buddy zero blocks (x ∷ xs) buddy_addr = none
search_buddy (suc left) blocks (x ∷ xs) buddy_addr =
    if (blocks x).base_addr == buddy_addr && not (blocks x).allocated
    then some x
    else search_buddy left blocks xs buddy_addr

-- One merge: the buddy leaves its list, its descriptor is not used again, and the block grows.
pub merge_step : PmmState → ℕ → ℕ → PmmState
merge_step s b buddy =
    let block = s.blocks b in
    let buddy_addr = get_buddy_addr block.base_addr block.order in
    let s1 = take_free s block.order buddy in
    set_block s1 b (record block {
      base_addr = if ltb buddy_addr block.base_addr then buddy_addr else block.base_addr;
      order = suc block.order;
    })

-- The descriptor of the free buddy of a block, if there is one.
pub find_buddy : PmmState → ℕ → Option ℕ
find_buddy s b =
    let block = s.blocks b in
    search_buddy 1000 s.blocks (s.free_lists block.order).list
      (get_buddy_addr block.base_addr block.order)

-- `while (block->order < MAX_ORDER)`: the orders left are the fuel.
pub merge_loop : ℕ → PmmState → ℕ → PmmState
merge_loop zero s b = s
merge_loop (suc left) s b = elim (find_buddy s b) [
  | none ↦ s
  | some buddy ↦ merge_loop left (merge_step s b buddy) b
]

-- The end of `coalesce_block`.
pub release : PmmState → ℕ → PmmState
release s b =
    let block = s.blocks b in
    let s1 = set_block s b (record block { allocated = false }) in
    let s2 = put_free s1 block.order b in
    record s2 { free_pages = add_u64 s2.free_pages (2 ^ block.order) }

pub coalesce_block : PmmState → ℕ → PmmState
coalesce_block s b = release (merge_loop (max_order - (s.blocks b).order) s b) b

pub find_allocated_block : (ℕ → Block) → List ℕ → ℕ → Option ℕ
find_allocated_block blocks [] addr = none
find_allocated_block blocks (x ∷ xs) addr =
    if (blocks x).base_addr == addr then some x else find_allocated_block blocks xs addr

-- The order that the caller names is checked, and then not used.
pub free : PmmState → ℕ → ℕ → PmmState
free s addr order =
    if ltb max_order order
    then s
    else elim (find_allocated_block s.blocks s.allocated_blocks addr) [
      | none ↦ s
      | some b ↦ coalesce_block (record s { allocated_blocks = erase b s.allocated_blocks }) b
    ]

-- `for (i = 0; i < (1 << order); i++) pcd_set_type(base + (i << PAGE_SHIFT), NK_NORMAL)`, with the
-- number of pages left
pub own_pages : ℕ → PcdState → ℕ → PcdState
own_pages zero pcd addr = pcd
own_pages (suc left) pcd addr =
    own_pages left (Pcd.set_type pcd addr Pcd.nk_normal).0 (add_u64 addr page_size)

-- The result is the address, and 0 stands for NULL.
pub finish_alloc : ℕ → PcdState → Option ℕ × PmmState → ℕ × PmmState × PcdState
finish_alloc order pcd (none, s) = (0, s, pcd)
finish_alloc order pcd (some b, s) =
    let base = (s.blocks b).base_addr in
    (base, s, if pcd.initialized then own_pages (2 ^ order) pcd base else pcd)

pub alloc : PmmState → PcdState → ℕ → ℕ × PmmState × PcdState
unfolding finish_alloc
alloc s pcd order =
    if ltb max_order order then (0, s, pcd) else finish_alloc order pcd (find_free_block s order)
