-- ===== src/Kmap/Pages.antt =====
-- The page tables behind the mappings of kernel/kmap.c: kmap_map_pages, kmap_unmap_pages,
-- kmap_modify_flags and kmap_handle_page_fault. Addresses do not wrap at 2^64, and the fuel of a loop
-- is the number of pages.
use Prim.Native.Nat.{bit_or}
use emergence_kernel.Kmap.Find.{lookup}
use emergence_kernel.Kmap.{
  put, kmap_pageable, ltb, set_entry, minus_one, page_size, some, Kmap, Option, pos, suc, KmapState,
}
use emergence_kernel.Prelude.{
  ◌^◌, ◌%◌, zero, ◌-◌, negsuc, none, ◌*◌, ◌==◌, if◌then◌else◌, ◌+◌, ◌/◌, ℕ, ℤ,
}
use emergence_kernel.Paging.{
  is_present, Memory, map_pages_direct, alloc_and_map, translate, write, pte_get_phys, find_table,
  get_pt_index,
}
use emergence_kernel.Paging.Unmap.{unmap_page}

-- `addr += PAGE_SIZE` while `addr < end`, with kmap_free_page
unfoldable pub unmap_loop : ℕ → Memory → ℕ → ℕ → ℕ → Memory
unmap_loop zero m root addr end = m
unmap_loop (suc fuel) m root addr end =
    let rest = unmap_loop fuel (unmap_page m root addr).1 root (addr + page_size) end in
    if ltb addr end then rest else m

-- `kmap_unmap_pages`
unfoldable pub unmap_pages : Memory → ℕ → Option Kmap → ℤ × Memory
unmap_pages m root none = (minus_one, m)
unmap_pages m root (some e) = (pos 0, unmap_loop e.num_pages m root e.virt_start e.virt_end)

-- One page of a mapping: contiguous from a physical base, or allocated when the base is 0.
unfoldable pub map_one : Memory → ℕ → Kmap → ℕ → ℤ × Memory
map_one m root e addr =
    if e.phys_base == 0
    then alloc_and_map m root addr e.flags
    else map_pages_direct m root addr ((e.phys_base + (addr - e.virt_start)) % 2 ^ 64) e.flags

-- `ret != 0`: the pages before this one are unmapped again.
unfoldable pub after_page : (Memory → ℤ × Memory) → ℕ → Kmap → ℕ → ℤ × Memory → ℤ × Memory
after_page next root e addr (pos zero, m) = next m
after_page next root e addr (pos (suc n), m) =
    (minus_one, unmap_loop e.num_pages m root e.virt_start addr)
after_page next root e addr (negsuc n, m) =
    (minus_one, unmap_loop e.num_pages m root e.virt_start addr)

unfoldable pub map_loop : ℕ → Memory → ℕ → Kmap → ℕ → ℤ × Memory
map_loop zero m root e addr = (pos 0, m)
map_loop (suc fuel) m root e addr =
    let rest =
      after_page (λ m'. map_loop fuel m' root e (addr + page_size)) root e addr
        (map_one m root e addr) in
    if ltb addr e.virt_end then rest else (pos 0, m)

-- `kmap_map_pages`
unfoldable pub map_pages : Memory → ℕ → Kmap → ℤ × Memory
map_pages m root e = map_loop e.num_pages m root e e.virt_start

-- The entry of one page with new flags, when the page is mapped.
unfoldable pub set_flags : Memory → ℕ → ℕ → Option ℕ → Memory
set_flags m addr flags none = m
set_flags m addr flags (some pt) =
    let i = get_pt_index addr 0 in
    if is_present (m.tables pt i)
    then write m pt i (bit_or (pte_get_phys (m.tables pt i)) flags)
    else m

unfoldable pub modify_loop : ℕ → Memory → ℕ → ℕ → ℕ → ℕ → Memory
modify_loop zero m root flags addr end = m
modify_loop (suc fuel) m root flags addr end =
    let rest =
      modify_loop fuel (set_flags m addr flags (find_table 3 m root addr)) root flags
        (addr + page_size) end in
    if ltb addr end then rest else m

-- `kmap_modify_flags`
unfoldable pub modify_flags : KmapState → Memory → ℕ → Option ℕ → ℕ → ℤ × KmapState × Memory
modify_flags s m root none flags = (minus_one, s, m)
modify_flags s m root (some id) flags =
    let e = s.entries id in
    (
      pos 0,
      set_entry s id (record e { flags = flags }),
      modify_loop e.num_pages m root flags e.virt_start e.virt_end,
    )

-- `ret != 0` of kmap_alloc_page
unfoldable pub fault_result : ℤ → ℤ
fault_result (pos zero) = pos 0
fault_result (pos (suc n)) = minus_one
fault_result (negsuc n) = minus_one

unfoldable pub alloc_for_fault : ℤ × Memory → ℤ × Memory
alloc_for_fault (ret, m) = (fault_result ret, m)

-- A page that is mapped already was mapped by another processor.
unfoldable pub fault_page : Memory → ℕ → ℕ → ℕ → Option ℕ → ℤ × Memory
fault_page m root page flags (some word) = (pos 0, m)
fault_page m root page flags none = alloc_for_fault (alloc_and_map m root page flags)

unfoldable pub fault_at : Memory → ℕ → ℕ → Option ℕ × KmapState → ℤ × KmapState × Memory
fault_at m root page (none, s) = (minus_one, s, m)
fault_at m root page (some id, s) =
    let (ret, m') = fault_page m root page (s.entries id).flags (translate m root page) in
    if (s.entries id).pageable == kmap_pageable
    then (ret, put s (some id), m')
    else (minus_one, put s (some id), m)

-- `kmap_handle_page_fault`
unfoldable pub handle_page_fault : KmapState → Memory → ℕ → ℕ → ℤ × KmapState × Memory
handle_page_fault s m root fault = fault_at m root (fault / page_size * page_size) (lookup s fault)
