-- ===== src/Monitor.antt =====
-- The nested-kernel monitor of kernel/monitor/monitor.c: the calls of the outer kernel, the privilege
-- that CR0.WP gives, and the mapping of pages by their type. Tables are named by their addresses,
-- which are both physical and virtual there.
pub mod Protect
pub mod Isolation
pub mod Tables
pub mod Private
pub mod ReadOnly
pub mod Shown
pub mod Privilege
mod Tests
use Prim.Native.Nat.{bit_or}
use emergence_kernel.Pcd
use emergence_kernel.Pcd.{PcdState}
use emergence_kernel.Pmm
use emergence_kernel.Paging.{Memory, is_present, get_pt_index, write}
use emergence_kernel.Prelude.{
  ◌+◌, none, ◌*◌, ◌-◌, ◌||◌, page_size, some, ◌/◌, ◌==◌, ◌^◌, Bool, Option, add_u64, false,
  if◌then◌else◌, minus_one, pos, ℤ, ◌%◌, ℕ, zero, suc, not, negsuc,
}

-- What the calls read and change: the tables with the allocator and the page types, CR0.WP, and the
-- addresses that monitor_init stores.
pub record MonitorState : Type 0 where
  pub memory : Memory
  pub cr0_wp : Bool
  pub monitor_pml4_phys : ℕ
  pub unpriv_pml4 : ℕ

-- `monitor_call_t`, and a number that is none of its
pub data MonitorCall : Type 0 where
  alloc_phys : MonitorCall
  free_phys : MonitorCall
  set_page_type : MonitorCall
  get_page_type : MonitorCall
  map_page_call : MonitorCall
  unmap_page_call : MonitorCall
  alloc_pgtable_call : MonitorCall
  other_call : MonitorCall

-- `monitor_ret_t`
pub record MonitorRet : Type 0 where
  pub result : ℕ
  pub error : ℤ

abbrev pub nk_pgtable : ℕ
nk_pgtable = 2

abbrev pub writable : ℕ
writable = 2

abbrev pub is_writable : ℕ → Bool
is_writable flags = flags / 2 % 2 == 1

-- `monitor_is_privileged`
abbrev pub is_privileged : MonitorState → Bool
is_privileged s = not s.cr0_wp

abbrev pub with_pcd : Memory → PcdState → Memory
with_pcd m pcd = record m { pcd = pcd }

-- `for (i = 0; i < (1 << arg1); i++)`: each page of the block becomes a page table's
unfoldable pub own_tables : ℕ → PcdState → ℕ → PcdState
own_tables zero pcd addr = pcd
own_tables (suc left) pcd addr =
    own_tables left (Pcd.set_type_internal pcd addr nk_pgtable) (add_u64 addr page_size)

-- `pmm_alloc((uint8_t)order)` on the memory
unfoldable pub alloc_order : Memory → ℕ → ℕ × Memory
alloc_order m order =
    let (page, pmm, pcd) = Pmm.alloc m.pmm m.pcd (order % 2 ^ 8) in
    (page, record m { pmm = pmm; pcd = pcd })

-- MONITOR_CALL_ALLOC_PGTABLE; the processor takes a shift's count modulo 64.
unfoldable pub alloc_tables : Memory → ℕ → ℕ × Memory
alloc_tables m order =
    let (page, m') = alloc_order m order in
    if page == 0 then (0, m') else (page, with_pcd m' (own_tables (2 ^ (order % 64)) m'.pcd page))

-- `get_or_create_table`, called with the privilege. A new table keeps what its page held.
unfoldable pub get_or_create_table : Memory → ℕ → ℕ → Option ℕ × Memory
get_or_create_table m table i =
    if is_present (m.tables table i)
    then (some (m.tables table i / page_size * page_size), m)
    else let (page, m') = alloc_tables m 0 in
      if page == 0
      then (none, m')
      else (some page, write m' table i (bit_or (bit_or page 1) writable))

-- The flags that a mapping of a page of a type gets, if it is allowed.
unfoldable pub validate_flags : ℕ → ℕ → Option ℕ
validate_flags type flags =
    if (type == Pcd.nk_normal) || (type == nk_pgtable)
    then (if is_writable flags then none else some (flags / 4 * 4 + flags % 2))
    else some flags

-- One of the three `if (!table) return -1;`
unfoldable pub then_table : (Memory → ℕ → Option ℕ × Memory) → Option ℕ × Memory → Option ℕ × Memory
then_table next (none, m) = (none, m)
then_table next (some table, m) = next m table

-- The tables from the root down to the lowest, made where an entry is not present.
unfoldable pub walk_tables : ℕ → Memory → ℕ → ℕ → Option ℕ × Memory
walk_tables zero m table addr = (some table, m)
walk_tables (suc level) m table addr =
    then_table (λ m' next. walk_tables level m' next addr)
      (get_or_create_table m table (get_pt_index addr (suc level)))

-- `pt[pt_idx] = phys_addr | flags | X86_PTE_PRESENT`
abbrev pub page_word : ℕ → ℕ → ℕ
page_word phys_addr flags = bit_or (bit_or phys_addr flags) 1

unfoldable pub write_page : ℕ → ℕ → ℕ → Option ℕ × Memory → ℤ × Memory
write_page phys_addr virt_addr flags (none, m) = (minus_one, m)
write_page phys_addr virt_addr flags (some pt, m) =
    (pos 0, write m pt (get_pt_index virt_addr 0) (page_word phys_addr flags))

unfoldable pub map_validated : Memory → ℕ → ℕ → ℕ → Option ℕ → ℤ × Memory
map_validated m root phys_addr virt_addr none = (minus_one, m)
map_validated m root phys_addr virt_addr (some flags) =
    write_page phys_addr virt_addr flags (walk_tables 3 m root virt_addr)

-- `monitor_map_page`
unfoldable pub map_page : Memory → ℕ → ℕ → ℕ → ℕ → ℤ × Memory
map_page m root phys_addr virt_addr flags =
    map_validated m root phys_addr virt_addr (validate_flags (Pcd.get_type m.pcd phys_addr) flags)

-- `monitor_unmap_page`, which is empty
abbrev pub unmap_page : Memory → ℕ → ℤ × Memory
unmap_page m virt_addr = (pos 0, m)

-- An `int` as the 64-bit result, with the error that is set when it is not 0.
unfoldable pub int_ret : ℤ → MonitorRet
int_ret (pos zero) = record { result = 0; error = pos 0 }
int_ret (pos (suc n)) = record { result = suc n; error = minus_one }
int_ret (negsuc n) = record { result = 2 ^ 64 - 1 - n; error = minus_one }

-- An address as the result, with the error that is set when it is NULL.
abbrev pub page_ret : ℕ → MonitorRet
page_ret page = record { result = page; error = if page == 0 then minus_one else pos 0 }

abbrev pub done : ℕ → MonitorRet
done result = record { result = result; error = pos 0 }

abbrev pub failed : MonitorRet
failed = record { result = 0; error = minus_one }

-- The `switch` of `monitor_call_handler`, in privileged mode
unfoldable pub dispatch : MonitorCall → ℕ → ℕ → ℕ → Memory → ℕ → MonitorRet × Memory
dispatch alloc_phys arg1 arg2 arg3 m root =
    let (page, m') = alloc_order m arg1 in (page_ret page, m')
dispatch free_phys arg1 arg2 arg3 m root =
    (done 0, record m { pmm = Pmm.free m.pmm arg1 (arg2 % 2 ^ 8) })
dispatch set_page_type arg1 arg2 arg3 m root =
    (done 0, with_pcd m (Pcd.set_type_internal m.pcd arg1 (arg2 % 2 ^ 8)))
dispatch get_page_type arg1 arg2 arg3 m root = (done (Pcd.get_type m.pcd arg1), m)
dispatch map_page_call arg1 arg2 arg3 m root =
    let (code, m') = map_page m root arg1 arg2 arg3 in (int_ret code, m')
dispatch unmap_page_call arg1 arg2 arg3 m root =
    let (code, m') = unmap_page m arg1 in (int_ret code, m')
dispatch alloc_pgtable_call arg1 arg2 arg3 m root =
    let (page, m') = alloc_tables m arg1 in (page_ret page, m')
dispatch other_call arg1 arg2 arg3 m root = (failed, m)

-- `monitor_call_handler`
unfoldable pub call_handler : MonitorState → MonitorCall → ℕ → ℕ → ℕ → MonitorRet × MonitorState
call_handler s call arg1 arg2 arg3 =
    let (ret, m) = dispatch call arg1 arg2 arg3 s.memory s.unpriv_pml4 in
    if is_privileged s then (ret, record s { memory = m }) else (failed, s)

-- `nk_entry_trampoline` of arch/x86_64/monitor/monitor_call.S: CR0.WP is cleared around the call.
unfoldable pub trampoline : MonitorState → MonitorCall → ℕ → ℕ → ℕ → MonitorRet × MonitorState
trampoline s call arg1 arg2 arg3 =
    let (ret, s') = call_handler (record s { cr0_wp = false }) call arg1 arg2 arg3 in
    (ret, record s' { cr0_wp = s.cr0_wp })

-- `monitor_call`
unfoldable pub monitor_call : MonitorState → MonitorCall → ℕ → ℕ → ℕ → MonitorRet × MonitorState
monitor_call s call arg1 arg2 arg3 =
    if s.monitor_pml4_phys == 0
    then call_handler s call arg1 arg2 arg3
    else if is_privileged s
    then call_handler s call arg1 arg2 arg3
    else trampoline s call arg1 arg2 arg3

-- `monitor_pmm_alloc`
unfoldable pub pmm_alloc : MonitorState → ℕ → ℕ × MonitorState
pmm_alloc s order =
    if s.monitor_pml4_phys == 0
    then (let (page, m) = alloc_order s.memory order in (page, record s { memory = m }))
    else let (ret, s') = monitor_call s alloc_phys order 0 0 in (ret.result, s')

-- `monitor_pmm_free`
unfoldable pub pmm_free : MonitorState → ℕ → ℕ → MonitorState
pmm_free s addr order =
    if s.monitor_pml4_phys == 0
    then record s { memory = record s.memory { pmm = Pmm.free s.memory.pmm addr (order % 2 ^ 8) } }
    else (monitor_call s free_phys addr order 0).1

-- `monitor_pcd_set_type`
unfoldable pub pcd_set_type : MonitorState → ℕ → ℕ → MonitorState
pcd_set_type s phys_addr type = (monitor_call s set_page_type phys_addr type 0).1

-- `monitor_pcd_get_type`
unfoldable pub pcd_get_type : MonitorState → ℕ → ℕ
pcd_get_type s phys_addr = Pcd.get_type s.memory.pcd phys_addr

-- `monitor_alloc_pgtable`
unfoldable pub alloc_pgtable : MonitorState → ℕ → ℕ × MonitorState
alloc_pgtable s order =
    let (ret, s') = monitor_call s alloc_pgtable_call order 0 0 in (ret.result, s')
