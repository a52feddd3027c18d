-- ===== src/Monitor/ReadOnly.antt =====
-- The read-only mappings of kernel/monitor/monitor.c: create_ro_mapping and
-- monitor_create_ro_mappings, which show the monitor's pages to the outer kernel.
use emergence_kernel.Monitor.{writable, bit_or, nk_pgtable, not, with_pcd, then_table}
use emergence_kernel.Paging.{clear, is_present, write, alloc_page, get_pt_index, Memory}
use emergence_kernel.Prelude.{
  zero, ◌&&◌, ◌^◌, ltb, none, pos, ◌+◌, ◌||◌, if◌then◌else◌, minus_one, page_size, some, ◌*◌, ◌/◌,
  ◌==◌, Bool, Option, suc, ℤ, ◌%◌, ℕ,
}
use emergence_kernel.Pcd

-- The outer kernel's and the monitor's own tables, by their addresses.
pub record Tables : Type 0 where
  pub unpriv_pml4 : ℕ
  pub unpriv_pdpt : ℕ
  pub unpriv_pd : ℕ
  pub monitor_pml4 : ℕ
  pub monitor_pdpt : ℕ
  pub monitor_pd : ℕ

-- The page is one of the six tables.
abbrev pub is_own_table : Tables → ℕ → Bool
is_own_table t page =
    (page == t.unpriv_pd)
    || (page == t.unpriv_pdpt)
    || (page == t.unpriv_pml4)
    || (page == t.monitor_pd)
    || (page == t.monitor_pdpt)
    || (page == t.monitor_pml4)

-- `create_or_get_table`: a page with all words 0, marked as a page table
unfoldable pub create_or_get_table : Tables → Memory → Option ℕ × Memory
create_or_get_table t m =
    let (page, m') = alloc_page m in
    if page == 0
    then (none, m')
    else if is_own_table t page
    then (none, m')
    else (some page, with_pcd (clear m' page) (Pcd.set_type_internal m'.pcd page nk_pgtable))

-- The word that links a table: present and writable
abbrev pub link_word : ℕ → ℕ
link_word table = bit_or (bit_or table 1) writable

-- A new table at an entry
unfoldable pub link_table : ℕ → ℕ → Option ℕ × Memory → Option ℕ × Memory
link_table table i (none, m) = (none, m)
link_table table i (some next, m) = (some next, write m table i (link_word next))

-- An entry that is present leads to a table of the kernel's own pages, or is refused.
abbrev pub existing_table : Memory → ℕ → Option ℕ × Memory
existing_table m next = if ltb next 1048576 then (none, m) else (some next, m)

-- One of the first two steps: `shared` says of a table that it is the identity map's, which is
-- replaced by a new one.
unfoldable pub own_table : Tables → (ℕ → Bool) → Memory → ℕ → ℕ → Option ℕ × Memory
own_table t shared m table i =
    let next = m.tables table i / page_size * page_size in
    if is_present (m.tables table i)
    then (if shared next
        then link_table table i (create_or_get_table t m)
        else existing_table m next)
    else link_table table i (create_or_get_table t m)

-- `X86_PTE_PS`
abbrev pub is_large : ℕ → Bool
is_large pte = pte / 128 % 2 == 1

-- The third step, from the page directory to the lowest table
unfoldable pub lowest_table : Tables → Memory → ℕ → ℕ → Option ℕ × Memory
lowest_table t m pd i =
    if pd == t.unpriv_pd
    then (none, m)
    else if is_present (m.tables pd i)
    then (if is_large (m.tables pd i)
        then (none, m)
        else existing_table m (m.tables pd i / page_size * page_size))
    else link_table pd i (create_or_get_table t m)

-- `pt[pt_idx] = phys_addr | X86_PTE_PRESENT`
unfoldable pub write_ro : ℕ → ℕ → Option ℕ × Memory → ℤ × Memory
write_ro phys_addr virt_addr (none, m) = (minus_one, m)
write_ro phys_addr virt_addr (some pt, m) =
    (pos 0, write m pt (get_pt_index virt_addr 0) (bit_or phys_addr 1))

-- `create_ro_mapping`
unfoldable pub create_ro_mapping : Tables → Memory → ℕ → ℕ → ℤ × Memory
create_ro_mapping t m phys_addr virt_addr =
    let pml4_idx = get_pt_index virt_addr 3 in
    write_ro phys_addr virt_addr (
      then_table (λ m2 pd. lowest_table t m2 pd (get_pt_index virt_addr 1))
        (then_table
          (λ m1 pdpt. own_table t (λ next. next == t.unpriv_pd) m1 pdpt (get_pt_index virt_addr 2))
          (own_table t (λ next. not (pml4_idx == 0) && (next == t.unpriv_pdpt)) m t.unpriv_pml4
            pml4_idx)))

-- NESTED_KERNEL_RO_BASE
abbrev pub nested_kernel_ro_base : ℕ
nested_kernel_ro_base = 18446612132314218496

-- The pages that the outer kernel may read only
abbrev pub is_shown : ℕ → Bool
is_shown type = (type == Pcd.nk_normal) || (type == nk_pgtable)

-- `monitor_create_ro_mappings`, over n pages from page i on
unfoldable pub create_ro_loop : ℕ → Tables → ℕ → Memory → Memory
create_ro_loop zero t i m = m
create_ro_loop (suc n) t i m =
    let phys = i * page_size in
    let rest = create_ro_loop n t (suc i) in
    rest (
      if is_shown (Pcd.get_type m.pcd phys)
      then (create_ro_mapping t m phys ((nested_kernel_ro_base + phys) % 2 ^ 64)).1
      else m)

unfoldable pub create_ro_mappings : Tables → Memory → Memory
create_ro_mappings t m = create_ro_loop (Pcd.get_max_pages m.pcd) t 0 m
