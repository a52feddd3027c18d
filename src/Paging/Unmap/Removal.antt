-- ===== src/Paging/Unmap/Removal.antt =====
-- What kmap_free_page of kernel/kmap.c does to the translation of every address.
use emergence_kernel.Paging.Map.{translate-tables, after-view, after-IsTree, write_other}
use emergence_kernel.Paging.Link.{same_level, true_false, dec_pair}
use emergence_kernel.Paging.Tree.{
  prefix-root, next_owner, get_pt_index-lt, translate-Unchanged, Vacant, page_of, prefix, Unchanged,
  IsEmpty, IsTree,
}
use emergence_kernel.Paging.{
  find_table, entry_at, none, translate, write, false, free_page, pte_get_phys, is_present, some,
  suc, get_pt_index, true, Bool, Option, Memory,
}
use emergence_kernel.Prelude.{
  refl, ==_iff, ap, subst, ◌==◌, ◌∙◌, sym, inr, inl, Bool-cases, arith, zero, ◌+◌, ◌<◌, ◌&&◌, ◌≤◌,
  if◌then◌else◌, ◌≡◌, ℕ,
}
use emergence_kernel.Paging.Unmap.{table_empty, collect, free_walk, unmap_page}

-- The memory with the allocator of another: the tables say how addresses are translated.
abbrev with_pool : Memory → Memory → Memory
with_pool m m' = record m' { pmm = m.pmm; pcd = m.pcd }

table_empty-IsEmpty :
    (n : ℕ) (m : Memory) (table i j : ℕ)
    → table_empty n m table i ≡ true
    → i ≤ j
    → j < i + n
    → is_present (m.tables table j) ≡ false
unfolding table_empty
table_empty-IsEmpty zero m table i j e h h' = absurd (omega (arith, h, h'))
table_empty-IsEmpty (suc n) m table i j e h h' = elim (Bool-cases (is_present (m.tables table i))) [
  | inl there ↦ true_false (sym (rw there at e))
  | inr missing ↦ elim (Bool-cases (i == j)) [
    | inl here ↦ subst (λ x. is_present (m.tables table x) ≡ false) ((==_iff i j).0 here) missing
    | inr other ↦
        table_empty-IsEmpty n m table (suc i) j (rw missing at e) (ground (arith, other, h))
          (omega (arith, h'))
  ]
]

-- Clearing an entry that leads to an empty table.
module _ (m : Memory) (root : ℕ) (owner : ℕ → Option (ℕ × ℕ)) (tree : IsTree m root owner)
    (table level p i : ℕ) (own : owner table ≡ some (suc level, p)) (lt : i < 512)
    (empty : IsEmpty m (pte_get_phys (m.tables table i))) where
  zero_word : (t j : ℕ) → table ≡ t → i ≡ j → is_present ((write m table i 0).tables t j) ≡ false
  zero_word t j e e' = ground (arith, e, e')

  zeroed-IsTree : IsTree (write m table i 0) root owner
  zeroed-IsTree = record {
    rooted = tree.rooted;
    edges = λ t l q j o h there. elim (dec_pair table t i j) [
      | inl (e, e') ↦ true_false (sym there ∙ zero_word t j e e')
      | inr other ↦
          ap (λ w. owner (pte_get_phys w)) (write_other m table i 0 t j other)
          ∙ tree.edges t l q j o h (ap is_present (sym (write_other m table i 0 t j other)) ∙ there)
    ];
    backed = tree.backed;
    low = tree.low;
    valid = tree.valid;
    disjoint = tree.disjoint;
  }

  zeroed-translate : (v : ℕ) → translate (write m table i 0) root v ≡ translate m root v
  zeroed-translate v =
      sym (translate-Unchanged (write m table i 0) m root owner zeroed-IsTree same v)
    where
      same : Unchanged owner (write m table i 0) m
      same t l q j o h = elim (dec_pair table t i j) [
        | inl (e, e') ↦ inr (
          zero_word t j e e',
          subst (λ x. Vacant m l (m.tables t x)) e'
              (subst (λ x. Vacant m l (m.tables x i)) e
                (subst (λ x. Vacant m x (m.tables table i))
                  (same_level (owner table) level p l q own (ap owner e ∙ o)) (inr empty))),
        )
        | inr other ↦ inl (sym (write_other m table i 0 t j other))
      ]

-- What the walk leaves: nothing changed when there is no page, otherwise the page is not translated
-- any more and every other address is as before.
data Cut (level : ℕ) (m : Memory) (root virt : ℕ) (owner : ℕ → Option (ℕ × ℕ))
    (r : ℕ × Bool × Memory) : Type 0 where
  not_there :
      r.2 ≡ m → r.1 ≡ false → r.0 ≡ 0 → translate m root virt ≡ none → Cut level m root virt owner r
  cut :
      (word : ℕ)
      → translate m root virt ≡ some word
      → r.0 ≡ pte_get_phys word
      → IsTree (with_pool m r.2) root owner
      → ((v : ℕ)
          → translate r.2 root v ≡ (if page_of v == page_of virt then none else translate m root v))
      → ((t l q j : ℕ) → owner t ≡ some (l, q) → level < l → r.2.tables t j ≡ m.tables t j)
      → Cut level m root virt owner r

two_levels :
    (o : Option (ℕ × ℕ)) (l p l' q : ℕ)
    → ◌≡◌ {A = Option (ℕ × ℕ)} o (some (l, p))
    → ◌≡◌ {A = Option (ℕ × ℕ)} o (some (l', q))
    → l ≡ l'
two_levels o l p l' q e f = cc

and_right : (b c : Bool) → (b && c) ≡ true → c ≡ true
and_right b c e = ground arith

freed-translate :
    (m : Memory) (page root v : ℕ) → translate (free_page m page) root v ≡ translate m root v
unfolding free_page
freed-translate m page root v = translate-tables m (free_page m page) root v refl

module _ (m : Memory) (root virt : ℕ) (owner : ℕ → Option (ℕ × ℕ))
    (tree : IsTree m root owner) where
  -- A table of another level keeps its words.
  other_level :
      (m' : Memory) (table i level p t l q j : ℕ)
      → owner table ≡ some (level, p)
      → owner t ≡ some (l, q)
      → level < l
      → (write m' table i 0).tables t j ≡ m'.tables t j
  other_level m' table i level p t l q j own o h = write_other m' table i 0 t j (
      inl
        (λ e. absurd (omega (arith, h, two_levels (owner table) level p l q own (ap owner e ∙ o)))))

  free_walk-zero :
      (table : ℕ)
      → owner table ≡ some (0, prefix 0 virt)
      → find_table 3 m root virt ≡ some table
      → Cut 0 m root virt owner (free_walk 0 m table virt)
  unfolding free_walk translate entry_at free_page
  free_walk-zero table own path =
      elim (Bool-cases (is_present (m.tables table (get_pt_index virt 0)))) [
        | inl there ↦ rw there (
            cut (m.tables table (get_pt_index virt 0)) (rw (path, there) refl) refl
              (after-IsTree m root owner tree table virt 0 own)
              (λ v.
                freed-translate (write m table (get_pt_index virt 0) 0)
                  (pte_get_phys (m.tables table (get_pt_index virt 0))) root v
                ∙ after-view m root owner tree table virt 0 own v path)
              (λ t l q j o h.
                other_level m table (get_pt_index virt 0) 0 (prefix 0 virt) t l q j own o h))
        | inr missing ↦ rw missing (not_there refl refl refl (rw (path, missing) refl))
      ]

  module _ (table level : ℕ) (own : owner table ≡ some (suc level, prefix (suc level) virt))
      (next : ℕ)
      (leads : pte_get_phys (m.tables table (get_pt_index virt (suc level))) ≡ next) where
    collect-Cut :
        (r : ℕ × Bool × Memory)
        → Cut level m root virt owner r
        → Cut (suc level) m root virt owner (collect table (get_pt_index virt (suc level)) next r)
    unfolding collect free_page
    collect-Cut (phys, removed, m') (not_there same kept null none_there) =
        rw kept (not_there same refl null none_there)
    collect-Cut (phys, removed, m') (cut word was phys_eq tree' view kept) =
        let i = get_pt_index virt (suc level) in
        elim (Bool-cases (removed && table_empty 512 m' next 0)) [
          | inl empty ↦
              let word_kept : m'.tables table i ≡ m.tables table i =
                kept table (suc level) (prefix (suc level) virt) i own (omega arith) in
              let clear_next : IsEmpty (with_pool m m') (pte_get_phys (m'.tables table i)) =
                subst (λ x. IsEmpty (with_pool m m') x) (sym (ap pte_get_phys word_kept ∙ leads))
                  (λ j lt.
                    table_empty-IsEmpty 512 m' next 0 j
                      (and_right removed (table_empty 512 m' next 0) empty) (omega arith)
                      (omega (arith, lt))) in
              rw empty (
                cut word was phys_eq
                  (zeroed-IsTree (with_pool m m') root owner tree' table level
                    (prefix (suc level) virt) i own (get_pt_index-lt virt (suc level)) clear_next)
                  (λ v.
                    freed-translate (write m' table i 0) (pte_get_phys (m'.tables table i)) root v
                    ∙ translate-tables (write (with_pool m m') table i 0) (write m' table i 0) root
                        v refl
                    ∙ zeroed-translate (with_pool m m') root owner tree' table level
                        (prefix (suc level) virt) i own (get_pt_index-lt virt (suc level))
                        clear_next v
                    ∙ translate-tables m' (with_pool m m') root v refl
                    ∙ view v)
                  (λ t l q j o h.
                    other_level m' table i (suc level) (prefix (suc level) virt) t l q j own o h
                    ∙ kept t l q j o (omega (arith, h))))
          | inr full ↦
              rw full
                (cut word was phys_eq tree' view (λ t l q j o h. kept t l q j o (omega (arith, h))))
        ]

  free_walk-Cut :
      (level table : ℕ)
      → level ≤ 3
      → owner table ≡ some (level, prefix level virt)
      → find_table 3 m root virt ≡ find_table level m table virt
      → Cut level m root virt owner (free_walk level m table virt)
  unfolding free_walk translate entry_at find_table
  free_walk-Cut zero table h own path = free_walk-zero table own path
  free_walk-Cut (suc level) table h own path =
      let i = get_pt_index virt (suc level) in
      let next = pte_get_phys (m.tables table i) in
      elim (Bool-cases (is_present (m.tables table (get_pt_index virt (suc level))))) [
        | inl there ↦ rw there (
            collect-Cut table level own next refl (free_walk level m next virt) (
              free_walk-Cut level next (omega (arith, h))
                (next_owner m root owner tree virt level table (omega (arith, h)) own there)
                (path ∙ down level table there)))
        | inr missing ↦
            rw missing
              (not_there refl refl refl (ap (entry_at m virt) (path ∙ stop level table missing)))
      ]
    where
      down :
          (level table : ℕ)
          → is_present (m.tables table (get_pt_index virt (suc level))) ≡ true
          → find_table (suc level) m table virt
            ≡ find_table level m
                (pte_get_phys (m.tables table (get_pt_index virt (suc level))))
                virt
      down level table there = rw there refl

      stop :
          (level table : ℕ)
          → is_present (m.tables table (get_pt_index virt (suc level))) ≡ false
          → find_table (suc level) m table virt ≡ none
      stop level table missing = rw missing refl

-- What kmap_free_page does: nothing for a page that is not mapped, otherwise the page's frame is
-- returned, the page is not translated any more and every other address is translated as before.
pub data UnmapOutcome (m : Memory) (root virt : ℕ) (r : ℕ × Memory) : Type 0 where
  absent : translate m root virt ≡ none → r ≡ (0, m) → UnmapOutcome m root virt r
  removed :
      (word : ℕ)
      → translate m root virt ≡ some word
      → r.0 ≡ pte_get_phys word
      → ((v : ℕ)
          → translate r.1 root v ≡ (if page_of v == page_of virt then none else translate m root v))
      → UnmapOutcome m root virt r

Cut-outcome :
    (m : Memory) (root virt : ℕ) (owner : ℕ → Option (ℕ × ℕ)) (r : ℕ × Bool × Memory)
    → Cut 3 m root virt owner r
    → UnmapOutcome m root virt (r.0, r.2)
Cut-outcome m root virt owner (phys, flag, m') (not_there same kept null none_there) =
    absent none_there (ap (λ x. (x, m')) null ∙ ap (λ x. (0, x)) same)
Cut-outcome m root virt owner (phys, flag, m') (cut word was phys_eq tree view kept) =
    removed word was phys_eq view

-- On page tables that form a tree, whose pages are not in the allocator's valid free memory, which
-- ends below 2^40, kmap_free_page returns 0 and changes nothing for a page that is not mapped.
-- Otherwise it returns the page's frame, and afterwards the page is not translated and every other
-- address is translated as before, although emptied tables are unlinked and freed on the way up.
pub unmap_page-removes :
    (m : Memory) (root virt : ℕ) (owner : ℕ → Option (ℕ × ℕ))
    → IsTree m root owner
    → UnmapOutcome m root virt (unmap_page m root virt)
unfolding unmap_page
unmap_page-removes m root virt owner tree =
    Cut-outcome m root virt owner (free_walk 3 m root virt) (
      free_walk-Cut m root virt owner tree 3 root (omega arith)
        (tree.rooted ∙ ap (λ p. some (3, p)) (sym (prefix-root virt))) refl)
