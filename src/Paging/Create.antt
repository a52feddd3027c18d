-- ===== src/Paging/Create.antt =====
-- The walk of kernel/kmap.c that creates missing tables.
use emergence_kernel.Paging.Link.{
  linked, linked_entry, linked_page, linked_other, Ensured, same_range, same_level, missing-Vacant,
  true_false, dec_pair,
}
use emergence_kernel.Pmm.Valid.Moves.{update-ne, update_self}
use Prim.Native.Nat.{suc, bit_or}
use emergence_kernel.Paging.{
  none, false, true, some, Option, update, Memory, alloc_page, free_page, write, clear, is_present,
  pte_get_phys, table_flags, undo,
}
use emergence_kernel.Paging.Entry.{table_entry-present, pte_get_phys-table_entry}
use emergence_kernel.Paging.Tree.{IsTree, IsEmpty, Vacant, Unchanged}
use emergence_kernel.Pmm.Grant.{free_cover, Granted, alloc-Granted}
use emergence_kernel.Prelude.{
  zero, subst, sym, inr, ==_iff, inl, ◌==◌, ◌∙◌, Bool-cases, ap, refl, ◌^◌, ◌+◌, ◌<◌, ◌*◌, arith,
  ◌⊎◌, ◌≡◌, ◌≢◌, ℕ,
}

module _ (m : Memory) (root : ℕ) (owner : ℕ → Option (ℕ × ℕ)) (tree : IsTree m root owner)
    (table i level p : ℕ) (own : owner table ≡ some (suc level, p)) (lt : i < 512) where
  pub found :
      is_present (m.tables table i) ≡ true
      → Ensured m m root owner owner table i level p (pte_get_phys (m.tables table i)) none
  unfolding undo
  found there = record {
    tree = tree;
    extends = λ t l q e. e;
    leads = tree.edges table level p i own lt there;
    same = λ t l q j e h. inl refl;
    there = there;
    next_there = refl;
    undone = λ m2 u. u;
  }

  module _ (missing : is_present (m.tables table i) ≡ false)
      (some_page : (alloc_page m).0 ≢ 0) where
    pub page : ℕ
    page = (alloc_page m).0

    granted : Granted m.pmm (alloc_page m).1.pmm (alloc_page m).0
    unfolding alloc_page
    granted = alloc-Granted m.pmm m.pcd tree.valid tree.disjoint some_page

    fresh : (t l q : ℕ) → owner t ≡ some (l, q) → page ≢ t
    unfolding page
    fresh t l q e same =
        absurd
          (omega (arith, granted.was_free, tree.backed t l q e, ap (λ a. free_cover a m.pmm) same))

    pub entry : ℕ
    entry = bit_or page table_flags

    low : page < 2 ^ 40
    unfolding page
    low = tree.low (alloc_page m).0 granted.was_free

    pub entry-next : pte_get_phys entry ≡ page
    unfolding entry page
    entry-next = pte_get_phys-table_entry (alloc_page m).0 granted.aligned low

    entry-present : is_present entry ≡ true
    unfolding entry page
    entry-present = table_entry-present (alloc_page m).0 granted.aligned

    pub after : Memory
    after = write (clear (alloc_page m).1 page) table i entry

    words : (t j : ℕ) → after.tables t j ≡ linked m.tables page table i entry t j
    unfolding after linked alloc_page
    words t j = refl

    pub owner1 : ℕ → Option (ℕ × ℕ)
    owner1 = update owner page (some (level, p * 512 + i))

    owner1-page : owner1 page ≡ some (level, p * 512 + i)
    unfolding owner1
    owner1-page = update_self owner page (some (level, p * 512 + i))

    extends : (t l q : ℕ) → owner t ≡ some (l, q) → owner1 t ≡ some (l, q)
    unfolding owner1
    extends t l q e = update-ne owner page (some (level, p * 512 + i)) (fresh t l q e) ∙ e

    no_page : (t : ℕ) → (page == t) ≡ false → page ≢ t
    no_page t other same = absurd (true_false (sym ((==_iff page t).1 same) ∙ other))

    -- An owner in the new tree is the new page or owned before.
    owner1-cases :
        (t l q : ℕ) → owner1 t ≡ some (l, q) → (page ≡ t) ⊎ ((page ≢ t) × (owner t ≡ some (l, q)))
    unfolding owner1
    owner1-cases t l q e = elim (Bool-cases (page == t)) [
      | inl here ↦ inl ((==_iff page t).0 here)
      | inr other ↦ inr (
        no_page t other,
        sym (update-ne owner page (some (level, p * 512 + i)) (no_page t other)) ∙ e,
      )
    ]

    edges :
        (t l q j : ℕ)
        → owner1 t ≡ some (suc l, q)
        → j < 512
        → is_present (after.tables t j) ≡ true
        → owner1 (pte_get_phys (after.tables t j)) ≡ some (l, q * 512 + j)
    edges t l q j own1 h there = elim (owner1-cases t (suc l) q own1) [
      | inl here ↦ true_false (
          sym there
          ∙ ap is_present (
              subst (λ x. after.tables x j ≡ 0) here
                (words page j
                  ∙ linked_page m.tables page table i entry j (fresh table (suc level) p own))))
      | inr (ne, own0) ↦ elim (dec_pair table t i j) [
        | inl (e, e') ↦
            ap (λ w. owner1 (pte_get_phys w))
              (subst (λ x. after.tables x j ≡ entry) e
                (subst (λ x. after.tables table x ≡ entry) e'
                  (words table i ∙ linked_entry m.tables page table i entry)))
            ∙ ap owner1 entry-next
            ∙ owner1-page
            ∙ (same_range (owner table) level p l q i own (ap owner e ∙ own0))
            ∙ ap (λ x. some (l, q * 512 + x)) e'
        | inr other ↦
            let stays : after.tables t j ≡ m.tables t j =
              words t j ∙ linked_other m.tables page table i entry t j ne other in
            ap (λ w. owner1 (pte_get_phys w)) stays
            ∙ extends (pte_get_phys (m.tables t j)) l (q * 512 + j)
                (tree.edges t l q j own0 h (ap is_present (sym stays) ∙ there))
      ]
    ]

    backed : (t l q : ℕ) → owner1 t ≡ some (l, q) → free_cover t after.pmm ≡ 0
    unfolding after alloc_page page
    backed t l q own1 = elim (owner1-cases t l q own1) [
      | inl here ↦ subst (λ x. free_cover x after.pmm ≡ 0) here granted.taken
      | inr (ne, own0) ↦ omega (arith, granted.kept t, tree.backed t l q own0)
    ]

    tree1 : IsTree after root owner1
    unfolding after alloc_page page
    tree1 = record {
      rooted = extends root 3 0 tree.rooted;
      edges = edges;
      backed = backed;
      low = λ a free. tree.low a omega (arith, free, granted.kept a);
      valid = granted.valid;
      disjoint = granted.disjoint;
    }

    stays : (t j : ℕ) → page ≢ t → (table ≢ t) ⊎ (i ≢ j) → after.tables t j ≡ m.tables t j
    stays t j ne other = words t j ∙ linked_other m.tables page table i entry t j ne other

    here : after.tables table i ≡ entry
    here = words table i ∙ linked_entry m.tables page table i entry

    new-IsEmpty : IsEmpty after page
    new-IsEmpty j h =
        ap is_present
          (words page j ∙ linked_page m.tables page table i entry j (fresh table (suc level) p own))

    leads_nowhere : Vacant after (suc level) (after.tables table i)
    leads_nowhere =
        inr (subst (λ x. IsEmpty after x) (sym (ap pte_get_phys here ∙ entry-next)) new-IsEmpty)

    same : Unchanged owner m after
    same t l q j own1 h = elim (dec_pair table t i j) [
      | inl (e, e') ↦ inr (
        subst (λ x. is_present (m.tables t x) ≡ false) e'
            (subst (λ x. is_present (m.tables x i) ≡ false) e missing),
        subst (λ x. Vacant after l (after.tables t x)) e'
            (subst (λ x. Vacant after l (after.tables x i)) e
              (subst (λ x. Vacant after x (after.tables table i))
                (same_level (owner table) level p l q own (ap owner e ∙ own1)) leads_nowhere)),
      )
      | inr other ↦ inl (stays t j (fresh t l q own1) other)
    ]

    undone_tables :
        (m2 : Memory) (t j : ℕ)
        → (undo (some page) table i m2).tables t j ≡ (write m2 table i 0).tables t j
    unfolding undo free_page
    undone_tables m2 t j = refl

    zeroed_other :
        (m2 : Memory) (t j : ℕ)
        → (table ≢ t) ⊎ (i ≢ j)
        → (write m2 table i 0).tables t j ≡ m2.tables t j
    zeroed_other m2 t j other = ground arith

    zeroed : (m2 : Memory) → is_present ((write m2 table i 0).tables table i) ≡ false
    zeroed m2 = ground arith

    zeroed-Vacant :
        (m2 : Memory) (l w : ℕ) → Vacant m2 l w → Vacant (undo (some page) table i m2) l w
    zeroed-Vacant m2 zero w v = v
    zeroed-Vacant m2 (suc l) w (inl v) = inl v
    zeroed-Vacant m2 (suc l) w (inr v) = inr (λ j h. elim (dec_pair table (pte_get_phys w) i j) [
      | inl (e, e') ↦
          ap is_present (undone_tables m2 (pte_get_phys w) j)
          ∙ subst (λ x. is_present ((write m2 table i 0).tables (pte_get_phys w) x) ≡ false) e'
              (subst (λ x. is_present ((write m2 table i 0).tables x i) ≡ false) e (zeroed m2))
      | inr other ↦
          ap is_present
            (undone_tables m2 (pte_get_phys w) j ∙ zeroed_other m2 (pte_get_phys w) j other)
          ∙ v j h
    ])

    undone :
        (m2 : Memory) → Unchanged owner1 after m2 → Unchanged owner m (undo (some page) table i m2)
    undone m2 u t l q j own1 h = elim (dec_pair table t i j) [
      | inl (e, e') ↦ inr (
        subst (λ x. is_present (m.tables t x) ≡ false) e'
            (subst (λ x. is_present (m.tables x i) ≡ false) e missing),
        missing-Vacant (undo (some page) table i m2) l ((undo (some page) table i m2).tables t j) (
            ap is_present (undone_tables m2 t j)
            ∙ subst (λ x. is_present ((write m2 table i 0).tables t x) ≡ false) e'
                (subst (λ x. is_present ((write m2 table i 0).tables x i) ≡ false) e (zeroed m2))),
      )
      | inr other ↦
          let before = stays t j (fresh t l q own1) other in
          let later : (undo (some page) table i m2).tables t j ≡ m2.tables t j =
            undone_tables m2 t j ∙ zeroed_other m2 t j other in
          elim (u t l q j (extends t l q own1) h) [
            | inl e ↦ inl (later ∙ e ∙ before)
            | inr (none_there, v) ↦ inr (
              ap is_present (sym before) ∙ none_there,
              subst (λ w. Vacant (undo (some page) table i m2) l w) (sym later)
                  (zeroed-Vacant m2 l (m2.tables t j) v),
            )
          ]
    ]

    pub made : Ensured m after root owner owner1 table i level p page (some page)
    made = record {
      tree = tree1;
      extends = extends;
      leads = owner1-page;
      same = same;
      there = ap is_present here ∙ entry-present;
      next_there = ap pte_get_phys here ∙ entry-next;
      undone = undone;
    }

    pub made_next :
        Ensured m
          (write
            (clear (alloc_page m).1 (alloc_page m).0)
            table
            i
            (bit_or (alloc_page m).0 table_flags))
          root
          owner
          owner1
          table
          i
          level
          p
          (pte_get_phys (bit_or (alloc_page m).0 table_flags))
          (some (alloc_page m).0)
    unfolding page entry after
    made_next =
        subst (λ next. Ensured m after root owner owner1 table i level p next (some page))
          (sym entry-next) made
