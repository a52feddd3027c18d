-- ===== src/Pcd.antt =====
-- kernel/pcd.c and kernel/pcd.h: the type of every physical page (Page Control Data).
-- The lock is held over each update and released on every path, so an operation is one step.
pub mod Laws
pub mod Change
pub mod Region
pub mod Init
mod Tests
use emergence_kernel.Prelude.{
  ℕ, zero, suc, ◌+◌, ◌-◌, ◌*◌, ◌/◌, ◌%◌, Bool, true, false, ◌&&◌, ◌||◌, Option, none, some, ltb,
  leb, ◌==◌, if◌then◌else◌, update, add_u64, sub_u64, page_size, page_floor, page_ceil, ℤ, pos,
  minus_one,
}

-- `pcd_t`
pub record Pcd : Type 0 where
  pub type : ℕ
  pub flags : ℕ
  pub reserved : ℕ

-- `pcd_state_t`, without its lock
pub record PcdState : Type 0 where
  pub pages : ℕ → Pcd
  pub max_pages : ℕ
  pub base_page : ℕ
  pub initialized : Bool

-- PCD_TYPE_*
abbrev pub ok_normal : ℕ
ok_normal = 0

abbrev pub nk_normal : ℕ
nk_normal = 1

abbrev pub type_max : ℕ
type_max = 3

-- `pcd_state.pages[index].type = type`
abbrev pub write_type : PcdState → ℕ → ℕ → PcdState
write_type s index type = record s {
  pages = update s.pages index (record (s.pages index) { type = type });
}

abbrev pub phys_to_page : ℕ → ℕ
phys_to_page phys_addr = phys_addr / page_size

pub set_type_internal : PcdState → ℕ → ℕ → PcdState
set_type_internal s phys_addr type =
    let page_index = sub_u64 (phys_to_page phys_addr) s.base_page in
    if leb s.max_pages page_index then s else write_type s page_index type

pub get_index : PcdState → ℕ → ℕ
get_index s phys_addr =
    let page_num = phys_to_page phys_addr in
    if ltb page_num s.base_page
    then 0
    else if leb s.max_pages (page_num - s.base_page)
    then sub_u64 s.max_pages 1
    else page_num - s.base_page

pub is_managed : PcdState → ℕ → Bool
is_managed s phys_addr =
    let page_num = phys_to_page phys_addr in
    leb s.base_page page_num && ltb page_num (add_u64 s.base_page s.max_pages)

-- `type < PCD_TYPE_MIN` never holds of a `uint8_t`.
pub set_type : PcdState → ℕ → ℕ → PcdState × ℤ
set_type s phys_addr type =
    if s.initialized
    then (if ltb type_max type
        then (s, minus_one)
        else if is_managed s (page_floor phys_addr)
        then (write_type s (get_index s (page_floor phys_addr)) type, pos 0)
        else (s, minus_one))
    else (s, minus_one)

pub get_type : PcdState → ℕ → ℕ
get_type s phys_addr =
    if s.initialized
    then (if is_managed s (page_floor phys_addr)
        then (s.pages (get_index s (page_floor phys_addr))).type
        else nk_normal)
    else nk_normal

-- The body of the loop in `pcd_mark_region`.
pub mark_page : PcdState × ℕ → ℕ → ℕ → PcdState × ℕ
mark_page (s, count) page type =
    if is_managed s page then (write_type s (get_index s page) type, count + 1) else (s, count)

-- `for (page = addr; page < end; page += PAGE_SIZE)`, with fuel
pub mark_loop : ℕ → PcdState × ℕ → ℕ → ℕ → ℕ → PcdState × ℕ
mark_loop zero r page end type = r
mark_loop (suc fuel) r page end type =
    let rest = mark_loop fuel (mark_page r page type) (add_u64 page page_size) end type in
    if ltb page end then rest else r

-- The fuel is one more than the number of pages in the range.
pub mark_region : PcdState → ℕ → ℕ → ℕ → PcdState × ℕ
mark_region s base size type =
    let addr = page_ceil base in
    let end = page_floor (add_u64 base size) in
    if s.initialized
    then (if leb end addr
        then (s, 0)
        else mark_loop (suc ((end - addr) / page_size)) (s, 0) addr end type)
    else (s, 0)

pub get_max_pages : PcdState → ℕ
get_max_pages s = s.max_pages

-- `pcd_dump_stats` counts the entries of one type below an index.
pub count_type : (ℕ → Pcd) → ℕ → ℕ → ℕ
count_type pages zero type = 0
count_type pages (suc i) type = count_type pages i type + (if (pages i).type == type then 1 else 0)
