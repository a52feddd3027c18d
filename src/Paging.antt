-- ===== src/Paging.antt =====
-- The page tables that kernel/kmap.c edits: the walk from the root to a page's entry, and
-- kmap_alloc_page, kmap_map_pages_direct and kmap_free_page. A table is named by its physical
-- address, at which PA_TO_VA makes it readable. Locks and TLB invalidation are left out.
pub mod Entry
pub mod Tree
pub mod Link
pub mod Create
pub mod Walk
pub mod Map
pub mod Unmap
pub mod Sample
pub mod Outcome
mod Tests
use Prim.Native.Nat.{bit_or}
use emergence_kernel.Prelude.{
  ℕ, zero, suc, ◌+◌, ◌-◌, ◌*◌, ◌/◌, ◌%◌, ◌^◌, Bool, true, false, ◌&&◌, Option, none, some, ltb,
  ◌==◌, if◌then◌else◌, update, page_size, ℤ, pos, minus_one,
}
use emergence_kernel.Pcd.{PcdState}
use emergence_kernel.Pmm
use emergence_kernel.Pmm.{PmmState}

-- The words of all tables, and the allocator that the tables' pages come from.
pub record Memory : Type 0 where
  pub tables : ℕ → ℕ → ℕ
  pub pmm : PmmState
  pub pcd : PcdState

-- `pmm_alloc(0)`; 0 is NULL.
unfoldable pub alloc_page : Memory → ℕ × Memory
alloc_page m =
    let (page, pmm, pcd) = Pmm.alloc m.pmm m.pcd 0 in (page, record m { pmm = pmm; pcd = pcd })

-- `pmm_free(page, 0)`
unfoldable pub free_page : Memory → ℕ → Memory
free_page m page = record m { pmm = Pmm.free m.pmm page 0 }

-- `table[i] = word`
abbrev pub write : Memory → ℕ → ℕ → ℕ → Memory
write m table i word = record m { tables = update m.tables table (update (m.tables table) i word) }

-- `memset(page, 0, PAGE_SIZE)`
abbrev pub clear : Memory → ℕ → Memory
clear m page = record m { tables = update m.tables page (λ i. 0) }

-- `(addr >> (12 + level * 9)) & 0x1FF`
unfoldable pub get_pt_index : ℕ → ℕ → ℕ
get_pt_index addr level = addr / 2 ^ (12 + level * 9) % 512

-- X86_PTE_PRESENT, bit 0
abbrev pub is_present : ℕ → Bool
is_present pte = pte % 2 == 1

-- `pte & X86_PTE_PHYS_MASK`: bits 12 to 39
unfoldable pub pte_get_phys : ℕ → ℕ
pte_get_phys pte = pte / 2 ^ 12 % 2 ^ 28 * 2 ^ 12

-- X86_PTE_PRESENT | X86_PTE_WRITABLE | X86_PTE_USER
abbrev pub table_flags : ℕ
table_flags = 7

-- The table that an entry leads to, made when the entry is not present, and the page that was
-- allocated for it.
unfoldable pub ensure_table : Memory → ℕ → ℕ → Option (ℕ × Option ℕ) × Memory
ensure_table m table i =
    if is_present (m.tables table i)
    then (some (pte_get_phys (m.tables table i), none), m)
    else let (page, m1) = alloc_page m in
      if page == 0 then (none, m1) else (
        some (pte_get_phys (bit_or page table_flags), some page),
        write (clear m1 page) table i (bit_or page table_flags),
      )

-- Rollback: the entry is cleared and the page freed, if it was allocated here.
unfoldable pub undo : Option ℕ → ℕ → ℕ → Memory → Memory
undo none table i m = m
undo (some page) table i m = free_page (write m table i 0) page

-- A table that was made here goes again when the walk fails further down.
unfoldable pub undo_failed : Option ℕ → ℕ → ℕ → Option ℕ × Memory → Option ℕ × Memory
undo_failed created table i (none, m) = (none, undo created table i m)
undo_failed created table i (some pt, m) = (some pt, m)

unfoldable pub enter :
    (Memory → ℕ → Option ℕ × Memory) → ℕ → ℕ → Option (ℕ × Option ℕ) × Memory → Option ℕ × Memory
enter below table i (none, m) = (none, m)
enter below table i (some (next, created), m) = undo_failed created table i (below m next)

-- The walk that creates missing tables: from a table at a level down to the lowest table, with the
-- three levels of the code as rounds.
unfoldable pub create_walk : ℕ → Memory → ℕ → ℕ → Option ℕ × Memory
create_walk zero m table addr = (some table, m)
create_walk (suc level) m table addr =
    enter (λ m' next. create_walk level m' next addr) table (get_pt_index addr (suc level))
      (ensure_table m table (get_pt_index addr (suc level)))

-- `pt[pt_idx] = phys | flags`, when the walk came down to a table
unfoldable pub set_pte : ℕ → ℕ → ℕ → Option ℕ × Memory → ℤ × Memory
set_pte virt phys flags (none, m) = (minus_one, m)
set_pte virt phys flags (some pt, m) = (pos 0, write m pt (get_pt_index virt 0) (bit_or phys flags))

unfoldable pub map_pages_direct : Memory → ℕ → ℕ → ℕ → ℕ → ℤ × Memory
map_pages_direct m root virt phys flags =
    if phys % page_size == 0
    then set_pte virt phys flags (create_walk 3 m root virt)
    else (minus_one, m)

-- `pmm_free(page, 0)` on each failure of the walk
unfoldable pub free_failed : ℕ → Option ℕ × Memory → Option ℕ × Memory
free_failed page (none, m) = (none, free_page m page)
free_failed page (some pt, m) = (some pt, m)

-- `kmap_alloc_page`
unfoldable pub alloc_and_map : Memory → ℕ → ℕ → ℕ → ℤ × Memory
alloc_and_map m root virt flags =
    let (page, m1) = alloc_page m in
    if page == 0
    then (minus_one, m1)
    else set_pte virt page flags (free_failed page (create_walk 3 m1 root virt))

-- The walk that only reads.
unfoldable pub find_table : ℕ → Memory → ℕ → ℕ → Option ℕ
find_table zero m table addr = some table
find_table (suc level) m table addr =
    let next =
      find_table level m (pte_get_phys (m.tables table (get_pt_index addr (suc level)))) addr in
    if is_present (m.tables table (get_pt_index addr (suc level))) then next else none

-- The entry of an address in the lowest table, if it is present.
unfoldable pub entry_at : Memory → ℕ → Option ℕ → Option ℕ
entry_at m addr none = none
entry_at m addr (some pt) =
    if is_present (m.tables pt (get_pt_index addr 0))
    then some (m.tables pt (get_pt_index addr 0))
    else none

unfoldable pub translate : Memory → ℕ → ℕ → Option ℕ
translate m root addr = entry_at m addr (find_table 3 m root addr)
