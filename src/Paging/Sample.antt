-- ===== src/Paging/Sample.antt =====
-- Sample page tables for kernel/kmap.c: an empty root table at 0x1000, and one mapped page.
use emergence_kernel.Pmm.Grant.{free_cover}
use emergence_kernel.Paging.Link.{same_range, true_false}
use emergence_kernel.Paging.Map.{lowest}
use emergence_kernel.Paging.Tree.{IsTree}
use emergence_kernel.Prelude.{
  ap, ◌∙◌, ◌+◌, ◌*◌, inr, ==_iff, subst, inl, Bool-cases, refl, arith, ◌==◌, ◌≤◌, if◌then◌else◌,
  sym, ◌<◌, ◌≡◌, ℕ,
}
use emergence_kernel.Paging.{true, is_present, suc, pte_get_phys, none, some, Option, Memory}
use emergence_kernel.Pmm.Sample.{boot, table, added, nowhere, boot-IsDisjoint}

unfoldable pub start : Memory
start = record { tables = λ t i. 0; pmm = boot; pcd = table }

unfoldable pub start_owner : ℕ → Option (ℕ × ℕ)
start_owner t = if 4096 == t then some (3, 0) else none

in_region : (a : ℕ) → 0 < free_cover a boot → (8192 ≤ a) × (a < 81920)
in_region a h = ground (arith, h, added.covered_le a, nowhere a)

none_owner : {A : Type 0} {x : ℕ × ℕ} → none ≡ some x → A
none_owner e = cc

root_only : (t level p : ℕ) → start_owner t ≡ some (level, p) → free_cover t boot ≡ 0
unfolding start_owner
root_only t level p e = elim (Bool-cases (4096 == t)) [
  | inl here ↦
      subst (λ x. free_cover x boot ≡ 0) ((==_iff 4096 t).0 here) (ground (arith, in_region 4096))
  | inr other ↦ none_owner (rw other at e)
]

pub start-IsTree : IsTree start 4096 start_owner
unfolding start start_owner
start-IsTree = record {
  rooted = refl;
  edges = λ t level p i own h there. true_false (sym there);
  backed = root_only;
  low = λ a free. omega (arith, (in_region a free).1);
  valid = added.valid;
  disjoint = boot-IsDisjoint;
}

-- Address 0 is mapped through the tables at 0x100000, 0x101000 and 0x102000.
unfoldable pub one_page : Memory
one_page = record {
  tables = λ t i.
      if i == 0
      then if t == 4096
        then 1048583
        else if t == 1048576
        then 1052679
        else if t == 1052672
        then 1056775
        else if t == 1056768
        then 16387
        else 0
      else 0;
  pmm = boot;
  pcd = table;
}

unfoldable pub page_owner : ℕ → Option (ℕ × ℕ)
page_owner t =
    if t == 4096
    then some (3, 0)
    else if t == 1048576
    then some (2, 0)
    else if t == 1052672
    then some (1, 0)
    else if t == 1056768
    then some (0, 0)
    else none

data PageOwner (t : ℕ) (own : Option (ℕ × ℕ)) : Type 0 where
  at_root : t ≡ 4096 → own ≡ some (3, 0) → PageOwner t own
  at_pdpt : t ≡ 1048576 → own ≡ some (2, 0) → PageOwner t own
  at_pd : t ≡ 1052672 → own ≡ some (1, 0) → PageOwner t own
  at_pt : t ≡ 1056768 → own ≡ some (0, 0) → PageOwner t own
  at_none : own ≡ none → PageOwner t own

page_owner-cases : (t : ℕ) → PageOwner t (page_owner t)
unfolding page_owner
page_owner-cases t = elim (Bool-cases (t == 4096)) [
  | inl e ↦ at_root ((==_iff t 4096).0 e) (rw e refl)
  | inr e ↦ elim (Bool-cases (t == 1048576)) [
    | inl e1 ↦ at_pdpt ((==_iff t 1048576).0 e1) (rw (e, e1) refl)
    | inr e1 ↦ elim (Bool-cases (t == 1052672)) [
      | inl e2 ↦ at_pd ((==_iff t 1052672).0 e2) (rw (e, e1, e2) refl)
      | inr e2 ↦ elim (Bool-cases (t == 1056768)) [
        | inl e3 ↦ at_pt ((==_iff t 1056768).0 e3) (rw (e, e1, e2, e3) refl)
        | inr e3 ↦ at_none (rw (e, e1, e2, e3) refl)
      ]
    ]
  ]
]

page_edges :
    (t level p i : ℕ)
    → page_owner t ≡ some (suc level, p)
    → is_present (one_page.tables t i) ≡ true
    → page_owner (pte_get_phys (one_page.tables t i)) ≡ some (level, p * 512 + i)
unfolding one_page page_owner pte_get_phys
page_edges t level p i h there = elim (Bool-cases (i == 0)) [
  | inl first ↦ elim (page_owner-cases t) [
    | at_root e own ↦ along 2 4096 first e refl own
    | at_pdpt e own ↦ along 1 1048576 first e refl own
    | at_pd e own ↦ along 0 1052672 first e refl own
    | at_pt e own ↦ lowest (page_owner t) level 0 p own h
    | at_none own ↦ none_owner (sym own ∙ h)
  ]
  | inr other ↦ true_false (sym (rw other at there))
]
  where
    along :
        (l x : ℕ)
        → (i == 0) ≡ true
        → t ≡ x
        → page_owner (pte_get_phys (one_page.tables x 0)) ≡ some (l, 0)
        → page_owner t ≡ some (suc l, 0)
        → page_owner (pte_get_phys (one_page.tables t i)) ≡ some (level, p * 512 + i)
    along l x first e leads own =
        ap (λ j. page_owner (pte_get_phys (one_page.tables t j))) ((==_iff i 0).0 first)
        ∙ ap (λ y. page_owner (pte_get_phys (one_page.tables y 0))) e
        ∙ leads
        ∙ same_range (page_owner t) l 0 level p 0 own h
        ∙ ap (λ j. some (level, p * 512 + j)) (sym ((==_iff i 0).0 first))

page_backed : (t level p : ℕ) → page_owner t ≡ some (level, p) → free_cover t boot ≡ 0
page_backed t level p h = elim (page_owner-cases t) [
  | at_root e own ↦ ground (arith, in_region t)
  | at_pdpt e own ↦ ground (arith, in_region t)
  | at_pd e own ↦ ground (arith, in_region t)
  | at_pt e own ↦ ground (arith, in_region t)
  | at_none own ↦ none_owner (sym own ∙ h)
]

pub one_page-IsTree : IsTree one_page 4096 page_owner
unfolding one_page page_owner
one_page-IsTree = record {
  rooted = refl;
  edges = λ t level p i own h there. page_edges t level p i own there;
  backed = page_backed;
  low = λ a free. omega (arith, (in_region a free).1);
  valid = added.valid;
  disjoint = boot-IsDisjoint;
}
