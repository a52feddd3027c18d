-- ===== src/Monitor/Isolation.antt =====
-- What the monitor's calls in kernel/monitor/monitor.c keep the outer kernel from: writable mappings of
-- the monitor's pages.
use emergence_kernel.Paging.Entry.{bit_or_step}
use emergence_kernel.Pcd
use emergence_kernel.Pcd.Laws.{
  write_type-IsReady, get_type-set_type, set_type_internal-eq-set_type, set_type-InRange, InRange,
  IsReady,
}
use emergence_kernel.Prelude.{
  zero, ◌-◌, ◌∙◌, sym, ap, true, ◌||◌, ◌≤◌, ltb, ◌^◌, ◌&&◌, ◌<◌, arith, leb, ◌*◌, if◌then◌else◌,
  ◌+◌, ◌==◌, ◌≡◌, ◌%◌, ◌/◌,
}
use emergence_kernel.Monitor.{
  is_present, get_pt_index, write, pos, some, none, minus_one, add_u64, nk_pgtable, false,
  is_writable, page_size, walk_tables, Bool, PcdState, ℤ, own_tables,
}
use emergence_kernel.Paging.{Memory}
use Prim.Native.Nat.{suc, max, ℕ, bit_or}

pub bit_or-second : (a b : ℕ) → bit_or a b / 2 % 2 ≡ max (a / 2 % 2) (b / 2 % 2)
bit_or-second a b = omega (arith, bit_or_step a b, bit_or_step (a / 2) (b / 2))

-- The pages that only the monitor may write.
abbrev pub is_private : ℕ → Bool
is_private type = (type == Pcd.nk_normal) || (type == nk_pgtable)

-- The physical page that a word of a page table leads to: bits 12 to 51
abbrev pub frame : ℕ → ℕ
frame word = word / page_size % 2 ^ 40 * page_size

-- What a mapping call does with a page: it is refused with nothing changed, or memory is exhausted, or
-- the entry for the address is written: it is present, leads to the page that was asked for, and is not
-- writable if the page that it leads to is private.
pub data MapResult (m : Memory) (root phys_addr virt_addr flags : ℕ) (r : ℤ × Memory) : Type 0 where
  rejected :
      is_private (Pcd.get_type m.pcd phys_addr) ≡ true
      → is_writable flags ≡ true
      → r ≡ (minus_one, m)
      → MapResult m root phys_addr virt_addr flags r
  exhausted :
      (walk_tables 3 m root virt_addr).0 ≡ none
      → r ≡ (minus_one, (walk_tables 3 m root virt_addr).1)
      → MapResult m root phys_addr virt_addr flags r
  written :
      (pt word : ℕ)
      → (walk_tables 3 m root virt_addr).0 ≡ some pt
      → r ≡ (pos 0, write (walk_tables 3 m root virt_addr).1 pt (get_pt_index virt_addr 0) word)
      → frame word ≡ phys_addr
      → (is_private (Pcd.get_type m.pcd (frame word)) && is_writable word) ≡ false
      → is_present word ≡ true
      → MapResult m root phys_addr virt_addr flags r

range_next :
    (t addr b n : ℕ)
    → addr % page_size ≡ 0
    → (if leb (addr + page_size) b && ltb b (addr + page_size + n * page_size)
        then nk_pgtable
        else if addr / page_size == b / page_size
        then nk_pgtable
        else t)
      ≡ (if leb addr b && ltb b (addr + suc n * page_size) then nk_pgtable else t)
range_next t addr b n aligned = ground arith

-- Every page of a block that is marked for tables reads as a page table's, and every other address
-- reads as before.
pub own_tables-get_type :
    (n : ℕ) (pcd : PcdState) (addr b : ℕ)
    → IsReady pcd
    → addr % page_size ≡ 0
    → addr + n * page_size < 2 ^ 64
    → pcd.base_page ≤ addr / page_size
    → addr / page_size + n ≤ pcd.base_page + pcd.max_pages
    → Pcd.get_type (own_tables n pcd addr) b
      ≡ (if leb addr b && ltb b (addr + n * page_size) then nk_pgtable else Pcd.get_type pcd b)
unfolding own_tables
own_tables-get_type zero pcd addr b r aligned fits from to = ground arith
own_tables-get_type (suc n) pcd addr b r aligned fits from to =
    let next : add_u64 addr page_size ≡ addr + page_size = omega arith in
    let here : InRange pcd addr = (from, omega (arith, to)) in
    let stored = ap (λ x. x.0) (set_type-InRange addr nk_pgtable r (omega arith) here) in
    let internal =
      set_type_internal-eq-set_type addr nk_pgtable r (omega arith) (omega (arith, fits))
      ∙ stored in
    let one =
      ap (λ x. Pcd.get_type x b) (sym stored)
      ∙ (get_type-set_type addr nk_pgtable b r (omega arith) here).1 in
    let rest =
      own_tables-get_type n (Pcd.write_type pcd (addr / page_size - pcd.base_page) nk_pgtable)
        (addr + page_size) b (write_type-IsReady (addr / page_size - pcd.base_page) nk_pgtable r)
        (omega (arith, aligned)) (omega (arith, fits)) (omega (arith, from)) (omega (arith, to)) in
    rw (next, internal) (rest ∙ rw one (range_next (Pcd.get_type pcd b) addr b n aligned))
