-- ===== src/Paging/Tests.antt =====
-- The page tables of kernel/kmap.c, built from nothing but an empty root table at 0x1000 and eighteen
-- free pages from 0x2000 on.
use emergence_kernel.Paging.Sample.{
  one_page-IsTree, start-IsTree, page_owner, start_owner, one_page, start,
}
use emergence_kernel.Paging.Outcome.{map_pages_direct-maps}
use emergence_kernel.Paging.Unmap.{table_empty, collect, free_walk, unmap_page}
use emergence_kernel.Paging.Unmap.Removal.{unmap_page-removes, UnmapOutcome}
use emergence_kernel.Paging.Map.{MapOutcome}
use emergence_kernel.Prelude.{refl, ◌≡◌}
use emergence_kernel.Paging.{
  free_page, get_pt_index, entry_at, find_table, translate, pte_get_phys, none, map_pages_direct,
  some, bit_or,
}

map_pages_direct-maps_example :
    MapOutcome start 4096 1073741824
      (bit_or 16384 3)
      (map_pages_direct start 4096 1073741824 16384 3)
map_pages_direct-maps_example =
    map_pages_direct-maps start 4096 1073741824 16384 3 start_owner start-IsTree

-- The page at 0 is unmapped, and with it go all three tables.
unmapped_page :
    ((unmap_page one_page 4096 0).0 ≡ 16384)
    × (translate one_page 4096 5 ≡ some 16387)
    × (translate (unmap_page one_page 4096 0).1 4096 5 ≡ none)
    × ((unmap_page one_page 4096 0).1.tables 4096 0 ≡ 0)
unfolding unmap_page free_walk collect table_empty translate find_table entry_at one_page
    pte_get_phys get_pt_index free_page
unmapped_page = (refl, refl, refl, refl)

unmap_page-removes_example : UnmapOutcome one_page 4096 0 (unmap_page one_page 4096 0)
unmap_page-removes_example = unmap_page-removes one_page 4096 0 page_owner one_page-IsTree
