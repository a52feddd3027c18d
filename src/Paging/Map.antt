-- ===== src/Paging/Map.antt =====
-- What kmap_map_pages_direct and kmap_alloc_page of kernel/kmap.c do to the translation of every
-- address.
use emergence_kernel.Paging.Link.{true_false, dec_pair}
use emergence_kernel.Paging.Tree.{
  page_of-prefix, find_table-owner, next_owner, prefix-root, get_pt_index-page_of, prefix, page_of,
  IsTree,
}
use emergence_kernel.Paging.{
  pte_get_phys, entry_at, get_pt_index, minus_one, none, suc, write, is_present, pos, some,
  translate, ℤ, Memory, find_table,
}
use emergence_kernel.Prelude.{
  inr, ==_iff, zero, Bool-cases, inl, refl, sym, ap, arith, ◌∙◌, ◌≤◌, ◌==◌, ◌⊎◌, if◌then◌else◌, ◌<◌,
  ◌≡◌, ◌≢◌, Option, ℕ,
}

-- What an entry gives to the processor.
abbrev pub present_word : ℕ → Option ℕ
present_word w = if is_present w then some w else none

-- One page is mapped by a word, and every other address is translated as before.
pub record Mapped (m m' : Memory) (root virt word : ℕ) : Type 0 where
  pub owner' : ℕ → Option (ℕ × ℕ)
  pub tree : IsTree m' root owner'
  pub view :
      (v : ℕ)
      → translate m' root v
        ≡ (if page_of v == page_of virt then present_word word else translate m root v)

-- A result code of 0 says that the page is mapped, -1 that no address is translated otherwise.
pub data MapOutcome (m : Memory) (root virt word : ℕ) (r : ℤ × Memory) : Type 0 where
  mapped : r.0 ≡ pos 0 → Mapped m r.1 root virt word → MapOutcome m root virt word r
  refused :
      r.0 ≡ minus_one
      → ((v : ℕ) → translate r.1 root v ≡ translate m root v)
      → MapOutcome m root virt word r

-- Only the tables say how an address is translated.
pub translate-tables :
    (m m' : Memory) (root v : ℕ) → m'.tables ≡ m.tables → translate m' root v ≡ translate m root v
unfolding translate find_table entry_at
translate-tables m m' root v e = rw e refl

pub write_other :
    (m : Memory) (pt i w t j : ℕ) → (pt ≢ t) ⊎ (i ≢ j) → (write m pt i w).tables t j ≡ m.tables t j
write_other m pt i w t j other = ground arith

pub lowest :
    {A : Type 0}
    → (o : Option (ℕ × ℕ)) (l p q : ℕ) → ◌≡◌ {A = Option (ℕ × ℕ)} o (some (0, p))
    → ◌≡◌ {A = Option (ℕ × ℕ)} o (some (suc l, q))
    → A
lowest o l p q e f = cc

same_prefix :
    (o : Option (ℕ × ℕ)) (p q : ℕ)
    → ◌≡◌ {A = Option (ℕ × ℕ)} o (some (0, p))
    → ◌≡◌ {A = Option (ℕ × ℕ)} o (some (0, q))
    → p ≡ q
same_prefix o p q e f = cc

-- Addresses of one page lead to one table.
find_table-page_of :
    (level : ℕ) (m : Memory) (t a b : ℕ)
    → level < 4
    → page_of a ≡ page_of b
    → find_table level m t a ≡ find_table level m t b
unfolding find_table
find_table-page_of zero m t a b h e = refl
find_table-page_of (suc level) m t a b h e =
    let i = get_pt_index-page_of a b (suc level) h e in
    ap
      (λ n.
        if is_present (m.tables t n)
        then find_table level m (pte_get_phys (m.tables t n)) a
        else none)
      i
    ∙ ap (λ x. if is_present (m.tables t (get_pt_index b (suc level))) then x else none)
        (find_table-page_of level m (pte_get_phys (m.tables t (get_pt_index b (suc level)))) a b
          (omega (arith, h)) e)

module _ (m : Memory) (root : ℕ) (owner : ℕ → Option (ℕ × ℕ)) (tree : IsTree m root owner)
    (pt virt word : ℕ) (own : owner pt ≡ some (0, prefix 0 virt)) where
  abbrev pub after : Memory
  after = write m pt (get_pt_index virt 0) word

  -- Tables above the lowest level keep their words.
  upper : (t l q j : ℕ) → owner t ≡ some (suc l, q) → after.tables t j ≡ m.tables t j
  upper t l q j own1 =
      write_other m pt (get_pt_index virt 0) word t j
        (inl (λ e. lowest (owner pt) l (prefix 0 virt) q own (ap owner e ∙ own1)))

  pub after-IsTree : IsTree after root owner
  after-IsTree = record {
    rooted = tree.rooted;
    edges = λ t l p i own1 h there.
        ap (λ w. owner (pte_get_phys w)) (upper t l p i own1)
        ∙ tree.edges t l p i own1 h (ap is_present (sym (upper t l p i own1)) ∙ there);
    backed = tree.backed;
    low = tree.low;
    valid = tree.valid;
    disjoint = tree.disjoint;
  }

  module _ (v : ℕ) where
    find_table-after :
        (level t : ℕ)
        → level ≤ 3
        → owner t ≡ some (level, prefix level v)
        → find_table level after t v ≡ find_table level m t v
    unfolding find_table
    find_table-after zero t h own1 = refl
    find_table-after (suc level) t h own1 =
        let i = get_pt_index v (suc level) in
        ap (λ w. if is_present w then find_table level after (pte_get_phys w) v else none)
          (upper t level (prefix (suc level) v) i own1)
        ∙ elim (Bool-cases (is_present (m.tables t (get_pt_index v (suc level))))) [
          | inl there ↦ rw there (
              find_table-after level (pte_get_phys (m.tables t (get_pt_index v (suc level))))
                (omega (arith, h))
                (next_owner m root owner tree v level t (omega (arith, h)) own1 there))
          | inr missing ↦ rw missing refl
        ]

    own_root : owner root ≡ some (3, prefix 3 v)
    own_root = tree.rooted ∙ ap (λ p. some (3, p)) (sym (prefix-root v))

    elsewhere :
        (t : ℕ)
        → find_table 3 m root v ≡ some t
        → page_of v ≢ page_of virt
        → (pt ≢ t) ⊎ (get_pt_index virt 0 ≢ get_pt_index v 0)
    elsewhere t e ne = elim (dec_pair pt t (get_pt_index virt 0) (get_pt_index v 0)) [
      | inl (same, index) ↦
          let own1 = find_table-owner m root owner tree v 3 root t (omega arith) own_root e in
          let one =
            same_prefix (owner pt) (prefix 0 virt) (prefix 0 v) own (ap owner same ∙ own1) in
          absurd (ne (omega (arith, one, index, page_of-prefix v, page_of-prefix virt)))
      | inr other ↦ other
    ]

    entry_at-after :
        (t : Option ℕ)
        → find_table 3 m root v ≡ t
        → page_of v ≢ page_of virt
        → entry_at after v t ≡ entry_at m v t
    unfolding entry_at
    entry_at-after none e ne = refl
    entry_at-after (some t) e ne =
        ap present_word
          (write_other m pt (get_pt_index virt 0) word t (get_pt_index v 0) (elsewhere t e ne))

    through : find_table 3 after root v ≡ find_table 3 m root v
    through = find_table-after 3 root (omega arith) own_root

    at_page :
        find_table 3 m root virt ≡ some pt
        → page_of v ≡ page_of virt
        → entry_at after v (find_table 3 after root v) ≡ present_word word
    unfolding entry_at
    at_page down one =
        ap (entry_at after v)
          (through ∙ find_table-page_of 3 m root v virt (omega arith) one ∙ down)
        ∙ ap (λ i. present_word (after.tables pt i))
            (get_pt_index-page_of v virt 0 (omega arith) one)
        ∙ ap present_word written
      where
        written : (write m pt (get_pt_index virt 0) word).tables pt (get_pt_index virt 0) ≡ word
        written = ground arith

    pub after-view :
        find_table 3 m root virt ≡ some pt
        → translate after root v
          ≡ (if page_of v == page_of virt then present_word word else translate m root v)
    unfolding translate entry_at
    after-view down = elim (Bool-cases (page_of v == page_of virt)) [
      | inl one ↦ rw one (at_page down ((==_iff (page_of v) (page_of virt)).0 one))
      | inr other ↦ rw other (
          ap (entry_at after v) through
          ∙ entry_at-after (find_table 3 m root v) refl
              (λ e. true_false (sym ((==_iff (page_of v) (page_of virt)).1 e) ∙ other)))
    ]
