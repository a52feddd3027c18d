-- ===== src/Pcd/Tests.antt =====
-- Concrete runs of kernel/pcd.c, and the theorems at inputs that meet their hypotheses.
use emergence_kernel.Prelude.{
  ℕ, ◌/◌, ◌≡◌, refl, arith, true, ◌==◌, if◌then◌else◌, Option, some, page_size, pos, minus_one,
}
use emergence_kernel.Pcd.{
  Pcd, PcdState, get_index, is_managed, set_type, get_type, mark_page, mark_loop, mark_region,
  count_type,
}
use emergence_kernel.Pcd.Laws.{IsReady, get_type-set_type}
use emergence_kernel.Pcd.Init.{array_order, order_loop, Layout, IsPlaced}

-- Eight pages from page 16 on, all the monitor's.
abbrev small : PcdState
small = record {
  pages = λ _. record { type = 1; flags = 0; reserved = 0 };
  max_pages = 8;
  base_page = 16;
  initialized = true;
}

abbrev small-IsReady : IsReady small
small-IsReady = record { ready = refl; no_wrap = omega arith }

set_then_get : get_type (set_type small 0x12345 2).0 0x12fff ≡ 2
unfolding get_type set_type is_managed get_index
set_then_get = refl

unmanaged_address : (set_type small 0x18000 2).1 ≡ minus_one
unfolding set_type is_managed
unmanaged_address = refl

-- 0x11000 to 0x14fff holds four whole pages, of which all are managed.
mark_counts : (mark_region small 0x10001 0x4fff 0).1 ≡ 4
unfolding mark_region mark_loop mark_page is_managed get_index
mark_counts = refl

count_after_mark : count_type (mark_region small 0x10001 0x4fff 0).0.pages 8 1 ≡ 4
unfolding count_type mark_region mark_loop mark_page is_managed get_index
count_after_mark = refl

order_of_one_page : array_order 1024 ≡ 0
unfolding array_order order_loop
order_of_one_page = refl

get_type-set_type_example :
    ((set_type small 0x12345 2).1 ≡ pos 0)
    × (get_type (set_type small 0x12345 2).0 0x13000
        ≡ (if 0x12345 / page_size == 0x13000 / page_size then 2 else get_type small 0x13000))
get_type-set_type_example =
    get_type-set_type 0x12345 2 0x13000 small-IsReady (omega arith) (omega arith)

abbrev layout : Layout
layout = record {
  kernel_start = 0x400000;
  kernel_end = 0x480000;
  boot_stack_bottom = 0x480000;
  boot_stack_top = 0x484000;
  trampoline_stack_bottom = 0x484000;
  trampoline_stack_end = 0x488000;
  ok_cpu_stacks = 0x490000;
}

abbrev layout-IsPlaced : IsPlaced layout
layout-IsPlaced = omega arith

-- An allocator that hands out zeroed memory.
abbrev zeroed : ℕ → Option (ℕ → Pcd)
zeroed order = some (λ _. record { type = 0; flags = 0; reserved = 0 })
