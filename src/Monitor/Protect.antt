-- ===== src/Monitor/Protect.antt =====
-- monitor_protect_all_ptps of kernel/monitor/monitor.c: the entries of page-table pages below 2 MiB
-- become read-only. Page numbers fit an `int`; TLB invalidation and the count for the log are left out.
use emergence_kernel.Paging.Link.{true_false}
use emergence_kernel.Monitor.{false, is_writable, nk_pgtable}
use emergence_kernel.Prelude.{
  refl, sym, ap, true, inr, ==_iff, arith, inl, Bool-cases, ◌%◌, ◌∙◌, page_size, ◌&&◌, ◌+◌, leb,
  ltb, update, zero, ◌*◌, ◌==◌, Bool, if◌then◌else◌, suc, ◌/◌, ◌≡◌, ℕ,
}
use emergence_kernel.Pcd
use emergence_kernel.Pcd.{PcdState}

-- `pte & ~X86_PTE_WRITABLE`
abbrev pub clear_writable : ℕ → ℕ
clear_writable pte = pte / 4 * 4 + pte % 2

-- The page is a page table's, and the table of the first 2 MiB has its entry.
abbrev pub is_low_table : PcdState → ℕ → Bool
is_low_table pcd i = (Pcd.get_type pcd (i * page_size) == nk_pgtable) && ltb i 512

-- One round, on unpriv_pt_0_2mb
unfoldable pub protect_page : PcdState → (ℕ → ℕ) → ℕ → ℕ → ℕ
protect_page pcd pt i = if is_low_table pcd i then update pt i (clear_writable (pt i)) else pt

unfoldable pub protect_loop : ℕ → PcdState → ℕ → (ℕ → ℕ) → ℕ → ℕ
protect_loop zero pcd i pt = pt
protect_loop (suc n) pcd i pt = protect_loop n pcd (suc i) (protect_page pcd pt i)

-- `monitor_protect_all_ptps`
unfoldable pub protect_all_ptps : PcdState → (ℕ → ℕ) → ℕ → ℕ
protect_all_ptps pcd pt = protect_loop (Pcd.get_max_pages pcd) pcd 0 pt

protect_page-at :
    (pcd : PcdState) (pt : ℕ → ℕ) (i j : ℕ)
    → protect_page pcd pt i j
      ≡ (if (i == j) && is_low_table pcd j then clear_writable (pt j) else pt j)
unfolding protect_page
protect_page-at pcd pt i j = elim (Bool-cases (i == j)) [
  | inl here ↦
      same_page (is_low_table pcd i) (is_low_table pcd j) here
        (ap (is_low_table pcd) ((==_iff i j).0 here))
  | inr there ↦ other_page (is_low_table pcd i) there
]
  where
    same_page :
        (t t' : Bool)
        → (i == j) ≡ true
        → t ≡ t'
        → (if t then update pt i (clear_writable (pt i)) else pt) j
          ≡ (if (i == j) && t' then clear_writable (pt j) else pt j)
    same_page true true here e = rw here (ap (λ x. clear_writable (pt x)) ((==_iff i j).0 here))
    same_page false false here e = rw here refl
    same_page true false here e = true_false e
    same_page false true here e = true_false (sym e)

    other_page :
        (t : Bool)
        → (i == j) ≡ false
        → (if t then update pt i (clear_writable (pt i)) else pt) j
          ≡ (if (i == j) && is_low_table pcd j then clear_writable (pt j) else pt j)
    other_page true there = rw there refl
    other_page false there = rw there refl

-- One page more at the front of the range.
range_step :
    (t : Bool) (i j n w : ℕ)
    → (if leb (suc i) j && ltb j (suc i + n) && t
        then clear_writable (if (i == j) && t then clear_writable w else w)
        else if (i == j) && t
        then clear_writable w
        else w)
      ≡ (if leb i j && ltb j (i + suc n) && t then clear_writable w else w)
range_step true i j n w = ground arith
range_step false i j n w = ground arith

empty_range :
    (t : Bool) (i j w : ℕ) → w ≡ (if leb i j && ltb j (i + 0) && t then clear_writable w else w)
empty_range true i j w = ground arith
empty_range false i j w = ground arith

whole_range :
    (t : Bool) (j n w : ℕ)
    → (if leb 0 j && ltb j (0 + n) && t then clear_writable w else w)
      ≡ (if ltb j n && t then clear_writable w else w)
whole_range true j n w = ground arith
whole_range false j n w = ground arith

protect_loop-at :
    (n : ℕ) (pcd : PcdState) (i : ℕ) (pt : ℕ → ℕ) (j : ℕ)
    → protect_loop n pcd i pt j
      ≡ (if leb i j && ltb j (i + n) && is_low_table pcd j then clear_writable (pt j) else pt j)
unfolding protect_loop
protect_loop-at zero pcd i pt j = empty_range (is_low_table pcd j) i j (pt j)
protect_loop-at (suc n) pcd i pt j =
    protect_loop-at n pcd (suc i) (protect_page pcd pt i) j
    ∙ ap
        (λ w.
          if leb (suc i) j && ltb j (suc i + n) && is_low_table pcd j then clear_writable w else w)
        (protect_page-at pcd pt i j)
    ∙ range_step (is_low_table pcd j) i j n (pt j)

-- After the pass over the page types, the entry of every managed page table below 2 MiB is read-only
-- with its other bits kept, and every other entry is as before.
pub protect_all_ptps-protects :
    (pcd : PcdState) (pt : ℕ → ℕ) (j : ℕ)
    → (protect_all_ptps pcd pt j ≡ (
        if ltb j (Pcd.get_max_pages pcd) && is_low_table pcd j
        then clear_writable (pt j)
        else pt j))
      × (is_writable (clear_writable (pt j)) ≡ false)
unfolding protect_all_ptps
protect_all_ptps-protects pcd pt j = (
  protect_loop-at (Pcd.get_max_pages pcd) pcd 0 pt j
      ∙ whole_range (is_low_table pcd j) j (Pcd.get_max_pages pcd) (pt j),
  ground arith,
)
