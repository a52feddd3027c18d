-- ===== src/Pcd/Init.antt =====
-- pcd_init of kernel/pcd.c: the size of the array, and the types after boot. What the linker and
-- the page allocator provide is a parameter.
use emergence_kernel.Prelude.{
  ◌%◌, ℕ, zero, suc, ◌+◌, ◌*◌, ◌^◌, ◌≤◌, ◌<◌, ◌≡◌, arith, true, false, ◌&&◌, ◌==◌, ltb,
  if◌then◌else◌, update, Option, none, some, u64_mod, page_size, sub_u64,
}
use emergence_kernel.Pcd.{Pcd, PcdState, ok_normal, nk_normal, mark_region}

-- MAX_ORDER of kernel/pmm.h, and the size of `pcd_t`
abbrev pub max_order : ℕ
max_order = 9

abbrev pub pcd_size : ℕ
pcd_size = 4

-- `while (order_size < pcd_array_size && pcd_order < MAX_ORDER)`
unfoldable pub order_loop : ℕ → ℕ → ℕ → ℕ → ℕ
order_loop zero order order_size array_size = order
order_loop (suc fuel) order order_size array_size =
    let rest = order_loop fuel (order + 1) (order_size * 2) array_size in
    if ltb order_size array_size && ltb order max_order then rest else order

-- The loop makes at most MAX_ORDER rounds, and ten rounds of fuel let it end by its test.
unfoldable pub array_order : ℕ → ℕ
array_order total_pages = order_loop 10 0 page_size (total_pages * pcd_size % u64_mod)

-- `for (i = 0; i < total_pages; i++) pages[i] = { NK_NORMAL, 0, 0 }`
pub fill_pages : (ℕ → Pcd) → ℕ → ℕ → Pcd
fill_pages memory zero = memory
fill_pages memory (suc i) =
    update (fill_pages memory i) i (record { type = nk_normal; flags = 0; reserved = 0 })

-- The addresses of linker symbols that `pcd_init` reads.
pub record Layout : Type 0 where
  pub kernel_start : ℕ
  pub kernel_end : ℕ
  pub boot_stack_bottom : ℕ
  pub boot_stack_top : ℕ
  pub trampoline_stack_bottom : ℕ
  pub trampoline_stack_end : ℕ
  pub ok_cpu_stacks : ℕ

-- SMP_MAX_CPUS * CPU_STACK_SIZE
abbrev pub ok_stacks_size : ℕ
ok_stacks_size = 65536

pub mark_stacks : PcdState → Layout → PcdState
mark_stacks s l =
    let kernel = (mark_region s l.kernel_start (sub_u64 l.kernel_end l.kernel_start) nk_normal).0 in
    let boot =
      (mark_region kernel l.boot_stack_bottom (sub_u64 l.boot_stack_top l.boot_stack_bottom)
        nk_normal).0 in
    let trampoline =
      (mark_region boot l.trampoline_stack_bottom
        (sub_u64 l.trampoline_stack_end l.trampoline_stack_bottom) nk_normal).0 in
    (mark_region trampoline l.ok_cpu_stacks ok_stacks_size ok_normal).0

-- The table before the regions are marked.
fresh : (ℕ → Pcd) → ℕ → PcdState
fresh memory total_pages = record {
  pages = fill_pages memory total_pages;
  max_pages = total_pages;
  base_page = 0;
  initialized = true;
}

-- `alloc` is `pmm_alloc`: the memory of a block of that order, seen as an array of `pcd_t`. The result
-- is none when the array is larger than its block: the code then writes past the block.
pub init : PcdState → ℕ → (ℕ → Option (ℕ → Pcd)) → Layout → Option PcdState
init s total_pages alloc l =
    if total_pages == 0
    then some (record s { initialized = false })
    else if ltb max_order (array_order total_pages)
    then some (record s { initialized = false })
    else elim (alloc (array_order total_pages)) [
      | none ↦ some (record s { initialized = false })
      | some memory ↦
          if ltb (page_size * 2 ^ array_order total_pages) (total_pages * pcd_size)
          then none
          else some (mark_stacks (fresh memory total_pages) l)
    ]

order_loop-le :
    (fuel order size array : ℕ) → order ≤ max_order → order_loop fuel order size array ≤ max_order
unfolding order_loop
order_loop-le zero order size array h = h
order_loop-le (suc fuel) order size array h =
    ground (arith, order_loop-le fuel (order + 1) (size * 2) array)

-- The array fits its block when memory has at most 524288 pages (2 GiB); above that, up to 2^52
-- pages, the order stops at MAX_ORDER, the test for a larger order never fires, and the array is larger than its block.
pub array_order_fits :
    (n : ℕ)
    → (array_order n ≤ max_order)
      × (n ≤ 524288 → n * pcd_size ≤ page_size * 2 ^ array_order n)
      × (524288 < n → n < 2 ^ 52 → page_size * 2 ^ array_order n < n * pcd_size)
unfolding array_order order_loop
array_order_fits n = ground arith

-- The regions that `pcd_init` marks end below 2 ^ 64, and so do their starts rounded up.
pub record Fits (start end : ℕ) : Type 0 where
  pub ordered : start ≤ end
  pub start_fits : start + 4095 < u64_mod
  pub end_fits : end < u64_mod

pub record IsPlaced (l : Layout) : Type 0 where
  pub kernel : Fits l.kernel_start l.kernel_end
  pub boot : Fits l.boot_stack_bottom l.boot_stack_top
  pub trampoline : Fits l.trampoline_stack_bottom l.trampoline_stack_end
  pub outer : Fits l.ok_cpu_stacks (l.ok_cpu_stacks + ok_stacks_size)

-- Every entry is the monitor's.
record AllNk (n : ℕ) (s : PcdState) : Type 0 where
  base : s.base_page ≡ 0
  size : s.max_pages ≡ n
  ready : s.initialized ≡ true
  small : n < u64_mod
  types : (i : ℕ) → i < n → (s.pages i).type ≡ nk_normal
