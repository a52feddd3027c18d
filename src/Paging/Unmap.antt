-- ===== src/Paging/Unmap.antt =====
-- kmap_free_page of kernel/kmap.c: it clears a page's entry, frees the page, and frees the tables
-- that this leaves empty.
pub mod Removal
use emergence_kernel.Paging.Map.{translate-tables, after-view, after-IsTree, write_other}
use emergence_kernel.Paging.Link.{same_level, true_false, dec_pair}
use emergence_kernel.Paging.Tree.{
  prefix-root, next_owner, get_pt_index-lt, translate-Unchanged, Vacant, page_of, prefix, Unchanged,
  IsEmpty, IsTree,
}
use emergence_kernel.Paging.{
  find_table, entry_at, none, translate, write, false, free_page, pte_get_phys, is_present, some,
  suc, get_pt_index, true, Bool, Option, Memory,
}
use emergence_kernel.Prelude.{
  refl, ==_iff, ap, subst, ◌==◌, ◌∙◌, sym, inr, inl, Bool-cases, arith, zero, ◌+◌, ◌<◌, ◌&&◌, ◌≤◌,
  if◌then◌else◌, ◌≡◌, ℕ,
}

-- `pt_empty`: no entry from i on, of n, is present
unfoldable pub table_empty : ℕ → Memory → ℕ → ℕ → Bool
table_empty zero m table i = true
table_empty (suc n) m table i =
    let rest = table_empty n m table (suc i) in
    if is_present (m.tables table i) then false else rest

-- The lower table lost an entry: if it is empty now, its own entry is cleared and its page freed.
unfoldable pub collect : ℕ → ℕ → ℕ → ℕ × Bool × Memory → ℕ × Bool × Memory
collect table i next (phys, removed, m) =
    if removed && table_empty 512 m next 0
    then (phys, true, free_page (write m table i 0) (pte_get_phys (m.tables table i)))
    else (phys, false, m)

-- The walk of kmap_free_page from a table of a level: the physical page or 0, and whether an entry of
-- this table was cleared.
unfoldable pub free_walk : ℕ → Memory → ℕ → ℕ → ℕ × Bool × Memory
free_walk zero m table addr =
    let i = get_pt_index addr 0 in
    if is_present (m.tables table i)
    then (
      pte_get_phys (m.tables table i),
      true,
      free_page (write m table i 0) (pte_get_phys (m.tables table i)),
    )
    else (0, false, m)
free_walk (suc level) m table addr =
    let i = get_pt_index addr (suc level) in
    let next = pte_get_phys (m.tables table i) in
    let below = free_walk level m next addr in
    if is_present (m.tables table i) then collect table i next below else (0, false, m)

-- `kmap_free_page`
unfoldable pub unmap_page : Memory → ℕ → ℕ → ℕ × Memory
unmap_page m root virt = let (phys, removed, m') = free_walk 3 m root virt in (phys, m')
