-- ===== src/Monitor/Private.antt =====
-- Pages that only the monitor may write, and the calls of kernel/monitor/monitor.c: no call but the one
-- that sets a page's type takes a page from them.
use emergence_kernel.Prelude.{
  none, refl, zero, ◌%◌, ◌^◌, ◌∙◌, ap, inr, inl, true, ◌==◌, Bool-cases, ◌≡◌,
}
use emergence_kernel.Pcd
use emergence_kernel.Pcd.Change.{IsChange, set_type_internal-IsChange}
use emergence_kernel.Pcd.{PcdState}
use emergence_kernel.Pmm.Marks.{alloc-IsChange}
use emergence_kernel.Paging.{Memory}
use emergence_kernel.Monitor.Isolation.{is_private}
use emergence_kernel.Monitor.{
  get_pt_index, page_size, validate_flags, add_u64, is_present, some, Option, false, suc, Bool, ℕ,
  own_tables, nk_pgtable, alloc_order, alloc_tables, get_or_create_table, then_table, walk_tables,
  write_page, map_validated, map_page, dispatch, MonitorCall, alloc_phys, free_phys, set_page_type,
  get_page_type, map_page_call, unmap_page_call, alloc_pgtable_call, other_call,
}

-- The page of the address is one that only the monitor may write.
abbrev pub IsPrivate : ℕ → PcdState → Type 0
IsPrivate a pcd = is_private (Pcd.get_type pcd a) ≡ true

change-IsPrivate :
    {pcd pcd' : PcdState} (t a : ℕ)
    → is_private t ≡ true
    → IsChange pcd t pcd'
    → IsPrivate a pcd
    → IsPrivate a pcd'
change-IsPrivate t a new change old = elim (change.reads a) [
  | inl set ↦ ap is_private set ∙ new
  | inr kept ↦ ap is_private kept ∙ old
]

own_tables-IsPrivate :
    (n : ℕ) (pcd : PcdState) (addr a : ℕ) → IsPrivate a pcd → IsPrivate a (own_tables n pcd addr)
unfolding own_tables
own_tables-IsPrivate zero pcd addr a h = h
own_tables-IsPrivate (suc n) pcd addr a h =
    own_tables-IsPrivate n (Pcd.set_type_internal pcd addr nk_pgtable) (add_u64 addr page_size) a
      (change-IsPrivate nk_pgtable a refl (set_type_internal-IsChange pcd addr nk_pgtable) h)

alloc_order-IsPrivate :
    (m : Memory) (order a : ℕ) → IsPrivate a m.pcd → IsPrivate a (alloc_order m order).1.pcd
unfolding alloc_order
alloc_order-IsPrivate m order a h =
    change-IsPrivate Pcd.nk_normal a refl (alloc-IsChange m.pmm m.pcd (order % 2 ^ 8)) h

alloc_tables-IsPrivate :
    (m : Memory) (order a : ℕ) → IsPrivate a m.pcd → IsPrivate a (alloc_tables m order).1.pcd
unfolding alloc_tables
alloc_tables-IsPrivate m order a h =
    let one = alloc_order-IsPrivate m order a h in
    elim (Bool-cases ((alloc_order m order).0 == 0)) [
      | inl null ↦ rw null one
      | inr given ↦ rw given (
          own_tables-IsPrivate (2 ^ (order % 64)) (alloc_order m order).1.pcd
            (alloc_order m order).0 a one)
    ]

get_or_create_table-IsPrivate :
    (m : Memory) (table i a : ℕ)
    → IsPrivate a m.pcd
    → IsPrivate a (get_or_create_table m table i).1.pcd
unfolding get_or_create_table
get_or_create_table-IsPrivate m table i a h = elim (Bool-cases (is_present (m.tables table i))) [
  | inl there ↦ rw there h
  | inr missing ↦ elim (Bool-cases ((alloc_tables m 0).0 == 0)) [
    | inl null ↦ rw (missing, null) (alloc_tables-IsPrivate m 0 a h)
    | inr given ↦ rw (missing, given) (alloc_tables-IsPrivate m 0 a h)
  ]
]

then_table-IsPrivate :
    (next : Memory → ℕ → Option ℕ × Memory) (a : ℕ) (r : Option ℕ × Memory)
    → ((m : Memory) (table : ℕ) → IsPrivate a m.pcd → IsPrivate a (next m table).1.pcd)
    → IsPrivate a r.1.pcd
    → IsPrivate a (then_table next r).1.pcd
unfolding then_table
then_table-IsPrivate next a (none, m) keeps h = h
then_table-IsPrivate next a (some table, m) keeps h = keeps m table h

walk_tables-IsPrivate :
    (level : ℕ) (m : Memory) (table addr a : ℕ)
    → IsPrivate a m.pcd
    → IsPrivate a (walk_tables level m table addr).1.pcd
unfolding walk_tables
walk_tables-IsPrivate zero m table addr a h = h
walk_tables-IsPrivate (suc level) m table addr a h =
    then_table-IsPrivate (λ m' next. walk_tables level m' next addr) a
      (get_or_create_table m table (get_pt_index addr (suc level)))
      (λ m' next h'. walk_tables-IsPrivate level m' next addr a h')
      (get_or_create_table-IsPrivate m table (get_pt_index addr (suc level)) a h)

map_page-IsPrivate :
    (m : Memory) (root phys_addr virt_addr flags a : ℕ)
    → IsPrivate a m.pcd
    → IsPrivate a (map_page m root phys_addr virt_addr flags).1.pcd
unfolding map_page map_validated write_page
map_page-IsPrivate m root phys_addr virt_addr flags a h =
    go (validate_flags (Pcd.get_type m.pcd phys_addr) flags)
  where
    wrote :
        (flags' : ℕ) (w : Option ℕ × Memory)
        → IsPrivate a w.1.pcd
        → IsPrivate a (write_page phys_addr virt_addr flags' w).1.pcd
    wrote flags' (none, m') h' = h'
    wrote flags' (some pt, m') h' = h'

    go : (v : Option ℕ) → IsPrivate a (map_validated m root phys_addr virt_addr v).1.pcd
    go none = h
    go (some flags') =
        wrote flags' (walk_tables 3 m root virt_addr) (walk_tables-IsPrivate 3 m root virt_addr a h)

-- A call other than that for a page's type
abbrev pub is_other : MonitorCall → Bool
is_other set_page_type = false
is_other call = true

pub dispatch-IsPrivate :
    (call : MonitorCall) (arg1 arg2 arg3 : ℕ) (m : Memory) (root a : ℕ)
    → is_other call ≡ true
    → IsPrivate a m.pcd
    → IsPrivate a (dispatch call arg1 arg2 arg3 m root).1.pcd
unfolding dispatch
dispatch-IsPrivate alloc_phys arg1 arg2 arg3 m root a o h = alloc_order-IsPrivate m arg1 a h
dispatch-IsPrivate free_phys arg1 arg2 arg3 m root a o h = h
dispatch-IsPrivate set_page_type arg1 arg2 arg3 m root a o h = cc o
dispatch-IsPrivate get_page_type arg1 arg2 arg3 m root a o h = h
dispatch-IsPrivate map_page_call arg1 arg2 arg3 m root a o h =
    map_page-IsPrivate m root arg1 arg2 arg3 a h
dispatch-IsPrivate unmap_page_call arg1 arg2 arg3 m root a o h = h
dispatch-IsPrivate alloc_pgtable_call arg1 arg2 arg3 m root a o h =
    alloc_tables-IsPrivate m arg1 a h
dispatch-IsPrivate other_call arg1 arg2 arg3 m root a o h = h
