-- ===== src/Pmm/Marks.antt =====
-- pmm_alloc of kernel/pmm.c keeps the range of the page table of kernel/pcd.c.
use emergence_kernel.Pcd.Change.{
  set_type-IsChange, IsChange-if, IsChange-trans, IsChange-none, IsChange,
}
use emergence_kernel.Pcd
use emergence_kernel.Prelude.{
  true, false, zero, true, ◌∙◌, if◌then◌else◌, refl, none, inr, ◌^◌, inl, Bool-cases,
}
use emergence_kernel.Pcd.Laws.{set_type-SameBounds, SameBounds}
use emergence_kernel.Pmm.{
  page_size, Bool, add_u64, find_free_block, max_order, ltb, some, suc, Option, PcdState, PmmState,
  ℕ, alloc, finish_alloc, own_pages,
}

own_pages-SameBounds : (n : ℕ) (pcd : PcdState) (addr : ℕ) → SameBounds pcd (own_pages n pcd addr)
unfolding own_pages
own_pages-SameBounds zero pcd addr = (refl, refl, refl)
own_pages-SameBounds (suc n) pcd addr =
    let (base, most, ready) = set_type-SameBounds pcd addr Pcd.nk_normal in
    let (base', most', ready') =
      own_pages-SameBounds n (Pcd.set_type pcd addr Pcd.nk_normal).0 (add_u64 addr page_size) in
    (base' ∙ base, most' ∙ most, ready' ∙ ready)

if-SameBounds :
    (t : Bool) (pcd pcd' : PcdState)
    → SameBounds pcd pcd'
    → SameBounds pcd (if t then pcd' else pcd)
if-SameBounds true pcd pcd' same = same
if-SameBounds false pcd pcd' same = (refl, refl, refl)

finish_alloc-SameBounds :
    (order : ℕ) (pcd : PcdState) (r : Option ℕ × PmmState)
    → SameBounds pcd (finish_alloc order pcd r).2
unfolding finish_alloc
finish_alloc-SameBounds order pcd (none, s) = (refl, refl, refl)
finish_alloc-SameBounds order pcd (some b, s) =
    if-SameBounds pcd.initialized pcd (own_pages (2 ^ order) pcd (s.blocks b).base_addr)
      (own_pages-SameBounds (2 ^ order) pcd (s.blocks b).base_addr)

pub alloc-SameBounds :
    (s : PmmState) (pcd : PcdState) (order : ℕ) → SameBounds pcd (alloc s pcd order).2
unfolding alloc
alloc-SameBounds s pcd order = elim (Bool-cases (ltb max_order order)) [
  | inl large ↦ rw large (refl, refl, refl)
  | inr fits ↦ rw fits (finish_alloc-SameBounds order pcd (find_free_block s order))
]

own_pages-IsChange :
    (n : ℕ) (pcd : PcdState) (addr : ℕ) → IsChange pcd Pcd.nk_normal (own_pages n pcd addr)
unfolding own_pages
own_pages-IsChange zero pcd addr = IsChange-none pcd Pcd.nk_normal
own_pages-IsChange (suc n) pcd addr =
    IsChange-trans (set_type-IsChange pcd addr Pcd.nk_normal)
      (own_pages-IsChange n (Pcd.set_type pcd addr Pcd.nk_normal).0 (add_u64 addr page_size))

finish_alloc-IsChange :
    (order : ℕ) (pcd : PcdState) (r : Option ℕ × PmmState)
    → IsChange pcd Pcd.nk_normal (finish_alloc order pcd r).2
unfolding finish_alloc
finish_alloc-IsChange order pcd (none, s) = IsChange-none pcd Pcd.nk_normal
finish_alloc-IsChange order pcd (some b, s) =
    IsChange-if pcd.initialized (own_pages-IsChange (2 ^ order) pcd (s.blocks b).base_addr)

-- After `pmm_alloc` an address reads as the monitor's or as before.
pub alloc-IsChange :
    (s : PmmState) (pcd : PcdState) (order : ℕ) → IsChange pcd Pcd.nk_normal (alloc s pcd order).2
unfolding alloc
alloc-IsChange s pcd order = elim (Bool-cases (ltb max_order order)) [
  | inl large ↦ rw large (IsChange-none pcd Pcd.nk_normal)
  | inr small ↦ rw small (finish_alloc-IsChange order pcd (find_free_block s order))
]
