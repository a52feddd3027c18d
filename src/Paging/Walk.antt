-- ===== src/Paging/Walk.antt =====
-- The whole walk of kernel/kmap.c that creates missing tables: kmap_alloc_page and
-- kmap_map_pages_direct down to the lowest table.
use emergence_kernel.Prelude.{
  ap, arith, ◌∙◌, ==_iff, sym, zero, inr, refl, ◌≢◌, Bool-cases, inl, ◌==◌, none, ◌<◌, ◌≡◌, ◌≤◌,
}
use emergence_kernel.Paging.Tree.{
  prefix-suc, translate-Unchanged, get_pt_index-lt, prefix, IsTree, Unchanged,
}
use emergence_kernel.Paging.{
  enter, pte_get_phys, find_table, false, true, alloc_page, ensure_table, get_pt_index, is_present,
  translate, suc, undo_failed, some, Option, ℕ, Memory, create_walk,
}
use emergence_kernel.Paging.Link.{true_false, Ensured}
use emergence_kernel.Paging.Create.{found, made_next, owner1}

-- The outcome of a walk that comes down to a lowest table.
pub record Walked (m m' : Memory) (root : ℕ) (owner : ℕ → Option (ℕ × ℕ)) (table level addr pt : ℕ)
    : Type 0 where
  pub owner' : ℕ → Option (ℕ × ℕ)
  pub tree : IsTree m' root owner'
  pub extends : (t l q : ℕ) → owner t ≡ some (l, q) → owner' t ≡ some (l, q)
  pub leads : owner' pt ≡ some (0, prefix 0 addr)
  pub same : (v : ℕ) → translate m' root v ≡ translate m root v
  pub kept :
      (t l q j : ℕ)
      → owner t ≡ some (l, q)
      → j < 512
      → is_present (m.tables t j) ≡ true
      → m'.tables t j ≡ m.tables t j
  pub down : find_table level m' table addr ≡ some pt

-- A failed walk leaves what the owned tables say.
abbrev pub WalkResult : Memory → ℕ → (ℕ → Option (ℕ × ℕ)) → ℕ → ℕ → ℕ → Option ℕ × Memory → Type 0
WalkResult m root owner table level addr (none, m') = Unchanged owner m m'
WalkResult m root owner table level addr (some pt, m') = Walked m m' root owner table level addr pt

record Ensures (m m1 : Memory) (root : ℕ) (owner : ℕ → Option (ℕ × ℕ)) (table i level p next : ℕ)
    (created : Option ℕ) : Type 0 where
  pub owner1 : ℕ → Option (ℕ × ℕ)
  pub ensured : Ensured m m1 root owner owner1 table i level p next created

abbrev EnsureResult :
    Memory → ℕ → (ℕ → Option (ℕ × ℕ)) → ℕ → ℕ → ℕ → ℕ → Option (ℕ × Option ℕ) × Memory → Type 0
EnsureResult m root owner table i level p (none, m1) = Unchanged owner m m1
EnsureResult m root owner table i level p (some (next, created), m1) =
    Ensures m m1 root owner table i level p next created

find_step :
    (level : ℕ) (m : Memory) (table addr next pt : ℕ)
    → is_present (m.tables table (get_pt_index addr (suc level))) ≡ true
    → pte_get_phys (m.tables table (get_pt_index addr (suc level))) ≡ next
    → find_table level m next addr ≡ some pt
    → find_table (suc level) m table addr ≡ some pt
unfolding find_table
find_step level m table addr next pt there leads down =
    rw there (ap (λ t. find_table level m t addr) leads ∙ down)

module _ (m : Memory) (root : ℕ) (owner : ℕ → Option (ℕ × ℕ)) (tree : IsTree m root owner)
    (table level : ℕ) where
  module _ (i p : ℕ) (own : owner table ≡ some (suc level, p)) (lt : i < 512) where
    no_change : Unchanged owner m (alloc_page m).1
    unfolding alloc_page
    no_change t l q j e h = inl refl

    not_null : ((alloc_page m).0 == 0) ≡ false → (alloc_page m).0 ≢ 0
    not_null given null = true_false (sym ((==_iff (alloc_page m).0 0).1 null) ∙ given)

    absent :
        is_present (m.tables table i) ≡ false
        → EnsureResult m root owner table i level p (ensure_table m table i)
    unfolding ensure_table
    absent missing = elim (Bool-cases ((alloc_page m).0 == 0)) [
      | inl null ↦ (rw (missing, null) no_change)
      | inr given ↦
          rw (missing, given)
            (record {
              owner1 = owner1 m root owner tree table i level p own lt missing (not_null given);
              ensured = made_next m root owner tree table i level p own lt missing (not_null given);
            })
    ]

    ensure_table-result : EnsureResult m root owner table i level p (ensure_table m table i)
    unfolding ensure_table
    ensure_table-result = elim (Bool-cases (is_present (m.tables table i))) [
      | inl there ↦
          rw there record {
            owner1 = owner;
            ensured = found m root owner tree table i level p own lt there;
          }
      | inr missing ↦ absent missing
    ]

  module _ (addr : ℕ) (own : owner table ≡ some (suc level, prefix (suc level) addr))
      (h : level < 3) (m1 : Memory) (next : ℕ) (created : Option ℕ) where
    leads :
        (e : Ensures m m1 root owner table
          (get_pt_index addr (suc level))
          level
          (prefix (suc level) addr)
          next
          created)
        → e.owner1 next ≡ some (level, prefix level addr)
    leads e = e.ensured.leads ∙ ap (λ p. some (level, p)) (sym (prefix-suc level addr h))

    -- What one round adds to the walk below it.
    round :
        Ensures m m1 root owner table
          (get_pt_index addr (suc level))
          level
          (prefix (suc level) addr)
          next
          created
        → (r : Option ℕ × Memory)
        → ((own' : ℕ → Option (ℕ × ℕ))
            → IsTree m1 root own'
            → own' next ≡ some (level, prefix level addr)
            → WalkResult m1 root own' next level addr r)
        → WalkResult m root owner table
            (suc level)
            addr
            (undo_failed created table (get_pt_index addr (suc level)) r)
    unfolding undo_failed
    round e (none, m2) below = e.ensured.undone m2 (below e.owner1 e.ensured.tree (leads e))
    round e (some pt, m2) below =
        let e' = e.ensured in
        let b = below e.owner1 e'.tree (leads e) in
        let word : m2.tables table (get_pt_index addr (suc level))
            ≡ m1.tables table (get_pt_index addr (suc level)) =
          b.kept table (suc level) (prefix (suc level) addr) (get_pt_index addr (suc level))
            (e'.extends table (suc level) (prefix (suc level) addr) own)
            (get_pt_index-lt addr (suc level)) e'.there in
        record {
          owner' = b.owner';
          tree = b.tree;
          extends = λ t l q o. b.extends t l q (e'.extends t l q o);
          leads = b.leads;
          same = λ v. b.same v ∙ translate-Unchanged m m1 root owner tree e'.same v;
          kept = λ t l q j o lt there. elim (e'.same t l q j o lt) [
            | inl stays ↦
                b.kept t l q j (e'.extends t l q o) lt (ap is_present stays ∙ there) ∙ stays
            | inr (missing, vacant) ↦ true_false (sym there ∙ missing)
          ];
          down =
              find_step level m2 table addr next pt (ap is_present word ∙ e'.there)
                (ap pte_get_phys word ∙ e'.next_there) b.down;
        }

-- The walk from a table that owns the address's range.
pub create_walk-result :
    (level : ℕ) (m : Memory) (root : ℕ) (owner : ℕ → Option (ℕ × ℕ)) (table addr : ℕ)
    → level ≤ 3
    → IsTree m root owner
    → owner table ≡ some (level, prefix level addr)
    → WalkResult m root owner table level addr (create_walk level m table addr)
unfolding create_walk find_table enter
create_walk-result zero m root owner table addr h tree own = record {
  owner' = owner;
  tree = tree;
  extends = λ t l q o. o;
  leads = own;
  same = λ v. refl;
  kept = λ t l q j o lt there. refl;
  down = refl;
}
create_walk-result (suc level) m root owner table addr h tree own =
    entered (ensure_table m table (get_pt_index addr (suc level)))
      (ensure_table-result m root owner tree table level (get_pt_index addr (suc level))
        (prefix (suc level) addr) own (get_pt_index-lt addr (suc level)))
      (λ m1 next owner1 tree1 own1.
        create_walk-result level m1 root owner1 next addr (omega (arith, h)) tree1 own1)
  where
    entered :
        (x : Option (ℕ × Option ℕ) × Memory)
        → EnsureResult m root owner table
            (get_pt_index addr (suc level))
            level
            (prefix (suc level) addr)
            x
        → ((m1 : Memory) (next : ℕ) (owner1 : ℕ → Option (ℕ × ℕ))
            → IsTree m1 root owner1
            → owner1 next ≡ some (level, prefix level addr)
            → WalkResult m1 root owner1 next level addr (create_walk level m1 next addr))
        → WalkResult m root owner table (suc level) addr (
            enter
              (λ m' next. create_walk level m' next addr)
              table
              (get_pt_index addr (suc level))
              x)
    entered (none, m1) e below = e
    entered (some (next, created), m1) e below =
        round m root owner tree table level addr own (omega (arith, h)) m1 next created e
          (create_walk level m1 next addr) (λ owner1 tree1 own1. below m1 next owner1 tree1 own1)
