-- ===== src/Paging/Outcome.antt =====
-- The outcomes of kmap_map_pages_direct and kmap_alloc_page of kernel/kmap.c.
use emergence_kernel.Paging.Link.{true_false}
use emergence_kernel.Pmm.Grant.{alloc-Granted}
use emergence_kernel.Prelude.{
  ==_iff, inr, if◌then◌else◌, inl, sym, ap, ◌%◌, ◌==◌, Bool-cases, arith, ◌∙◌, none, refl, ◌≡◌,
}
use emergence_kernel.Paging.Tree.{page_of, prefix-root, translate-Unchanged, IsTree}
use emergence_kernel.Paging.{
  false, page_size, bit_or, create_walk, some, Option, alloc_page, set_pte, ℤ, free_page, ℕ, Memory,
  alloc_and_map, free_failed, map_pages_direct, translate,
}
use emergence_kernel.Pmm
use emergence_kernel.Paging.Map.{
  translate-tables, present_word, refused, mapped, MapOutcome, after-IsTree, after-view,
}
use emergence_kernel.Paging.Walk.{WalkResult, create_walk-result}

module _ (m : Memory) (root virt phys flags : ℕ) where
  set_pte-outcome :
      (owner : ℕ → Option (ℕ × ℕ)) (r : Option ℕ × Memory)
      → IsTree m root owner
      → WalkResult m root owner root 3 virt r
      → MapOutcome m root virt (bit_or phys flags) (set_pte virt phys flags r)
  unfolding set_pte
  set_pte-outcome owner (none, m') tree w =
      refused refl (λ v. translate-Unchanged m m' root owner tree w v)
  set_pte-outcome owner (some pt, m') tree w = mapped refl record {
    owner' = w.owner';
    tree = after-IsTree m' root w.owner' w.tree pt virt (bit_or phys flags) w.leads;
    view = λ v.
        after-view m' root w.owner' w.tree pt virt (bit_or phys flags) w.leads v w.down
        ∙ ap (λ x. if page_of v == page_of virt then present_word (bit_or phys flags) else x)
            (w.same v);
  }

walk_result :
    (m : Memory) (root virt : ℕ) (owner : ℕ → Option (ℕ × ℕ))
    → IsTree m root owner
    → WalkResult m root owner root 3 virt (create_walk 3 m root virt)
walk_result m root virt owner tree =
    create_walk-result 3 m root owner root virt (omega arith) tree
      (tree.rooted ∙ ap (λ p. some (3, p)) (sym (prefix-root virt)))

-- On page tables that form a tree, whose pages are not in the allocator's valid free memory, which
-- ends below 2^40, mapping a page at a physical address either returns 0 and gives the page the word
-- `phys | flags`, with every other address translated as before and the tables still such a tree, or
-- returns -1 with no translation changed, whichever tables were missing and whenever the memory runs
-- out.
pub map_pages_direct-maps :
    (m : Memory) (root virt phys flags : ℕ) (owner : ℕ → Option (ℕ × ℕ))
    → IsTree m root owner
    → MapOutcome m root virt (bit_or phys flags) (map_pages_direct m root virt phys flags)
unfolding map_pages_direct
map_pages_direct-maps m root virt phys flags owner tree =
    elim (Bool-cases (phys % page_size == 0)) [
      | inl aligned ↦ rw aligned (
          set_pte-outcome m root virt phys flags owner (create_walk 3 m root virt) tree
            (walk_result m root virt owner tree))
      | inr unaligned ↦ rw unaligned (refused refl (λ v. refl))
    ]

free_failed-result :
    (m : Memory) (root virt page : ℕ) (owner : ℕ → Option (ℕ × ℕ)) (r : Option ℕ × Memory)
    → WalkResult m root owner root 3 virt r
    → WalkResult m root owner root 3 virt (free_failed page r)
unfolding free_failed free_page
free_failed-result m root virt page owner (none, m') w = w
free_failed-result m root virt page owner (some pt, m') w = w

alloc_page-translate :
    (m : Memory) (root v : ℕ) → translate (alloc_page m).1 root v ≡ translate m root v
unfolding alloc_page
alloc_page-translate m root v = translate-tables m (alloc_page m).1 root v refl

alloc_page-IsTree :
    (m : Memory) (root : ℕ) (owner : ℕ → Option (ℕ × ℕ))
    → IsTree m root owner
    → ((alloc_page m).0 == 0) ≡ false
    → IsTree (alloc_page m).1 root owner
unfolding alloc_page
alloc_page-IsTree m root owner tree given =
    let g =
      alloc-Granted m.pmm m.pcd tree.valid tree.disjoint
        (λ null. true_false (sym ((==_iff (Pmm.alloc m.pmm m.pcd 0).0 0).1 null) ∙ given)) in
    record {
      rooted = tree.rooted;
      edges = tree.edges;
      backed = λ t l q o. omega (arith, g.kept t, tree.backed t l q o);
      low = λ a free. tree.low a (omega (arith, free, g.kept a));
      valid = g.valid;
      disjoint = g.disjoint;
    }

earlier :
    (m m1 : Memory) (root virt word : ℕ) (r : ℤ × Memory)
    → ((v : ℕ) → translate m1 root v ≡ translate m root v)
    → MapOutcome m1 root virt word r
    → MapOutcome m root virt word r
earlier m m1 root virt word r same (mapped e o) = mapped e record {
  owner' = o.owner';
  tree = o.tree;
  view =
      λ v. o.view v ∙ ap (λ x. if page_of v == page_of virt then present_word word else x) (same v);
}
earlier m m1 root virt word r same (refused e o) = refused e (λ v. o v ∙ same v)

-- On page tables that form a tree, whose pages are not in the allocator's valid free memory, which
-- ends below 2^40, kmap_alloc_page either returns 0 and maps the page that it allocated, with every
-- other address translated as before and the tables still such a tree, or returns -1 with no
-- translation changed.
pub alloc_and_map-maps :
    (m : Memory) (root virt flags : ℕ) (owner : ℕ → Option (ℕ × ℕ))
    → IsTree m root owner
    → MapOutcome m root virt (bit_or (alloc_page m).0 flags) (alloc_and_map m root virt flags)
unfolding alloc_and_map
alloc_and_map-maps m root virt flags owner tree = elim (Bool-cases ((alloc_page m).0 == 0)) [
  | inl null ↦ rw null (refused refl (λ v. alloc_page-translate m root v))
  | inr given ↦ rw given (
      earlier m (alloc_page m).1 root virt (bit_or (alloc_page m).0 flags)
        (set_pte virt (alloc_page m).0 flags
          (free_failed (alloc_page m).0 (create_walk 3 (alloc_page m).1 root virt)))
        (λ v. alloc_page-translate m root v)
        (set_pte-outcome (alloc_page m).1 root virt (alloc_page m).0 flags owner
          (free_failed (alloc_page m).0 (create_walk 3 (alloc_page m).1 root virt))
          (alloc_page-IsTree m root owner tree given)
          (free_failed-result (alloc_page m).1 root virt (alloc_page m).0 owner
            (create_walk 3 (alloc_page m).1 root virt)
            (walk_result (alloc_page m).1 root virt owner
              (alloc_page-IsTree m root owner tree given)))))
]
