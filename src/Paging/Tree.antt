-- ===== src/Paging/Tree.antt =====
-- The page tables of kernel/kmap.c as a tree: which table serves which range of addresses.
use emergence_kernel.Prelude.{
  if◌then◌else◌, subst, ◌⊎◌, sym, ap, inr, inl, ◌∙◌, Bool-cases, zero, ◌+◌, ◌/◌, arith, refl, ◌*◌,
  ◌^◌, ◌≤◌, ◌<◌, ◌≡◌,
}
use emergence_kernel.Paging.{
  Bool, false, none, true, some, suc, Option, ◌%◌, ℕ, Memory, get_pt_index, is_present,
  pte_get_phys, find_table, entry_at, translate,
}
use emergence_kernel.Pmm.Grant.{free_cover}
use emergence_kernel.Pmm.Valid.{IsValid}
use emergence_kernel.Pmm.Outcome.{IsDisjoint}

-- The bits of an address above the index that a table of a level reads. The bits from 48 on are not
-- translated.
pub prefix : ℕ → ℕ → ℕ
prefix level addr = addr % 2 ^ 48 / 2 ^ (21 + level * 9)

-- The translated part of an address, as a page number.
abbrev pub page_of : ℕ → ℕ
page_of addr = addr % 2 ^ 48 / 2 ^ 12

-- A table belongs to one range of addresses: `owner` gives its level and prefix. A present entry
-- above the lowest level leads to the table that owns the entry's range; there are no large pages.
-- Tables are not in free memory, and free memory ends below 2^40.
pub record IsTree (m : Memory) (root : ℕ) (owner : ℕ → Option (ℕ × ℕ)) : Type 0 where
  pub rooted : owner root ≡ some (3, 0)
  pub edges :
      (t level p i : ℕ)
      → owner t ≡ some (suc level, p)
      → i < 512
      → is_present (m.tables t i) ≡ true
      → owner (pte_get_phys (m.tables t i)) ≡ some (level, p * 512 + i)
  pub backed : (t level p : ℕ) → owner t ≡ some (level, p) → free_cover t m.pmm ≡ 0
  pub low : (a : ℕ) → 0 < free_cover a m.pmm → a < 2 ^ 40
  pub valid : IsValid m.pmm
  pub disjoint : IsDisjoint m.pmm

pub get_pt_index-lt : (addr level : ℕ) → get_pt_index addr level < 512
unfolding get_pt_index
get_pt_index-lt addr level = omega arith

pub prefix-root : (addr : ℕ) → prefix 3 addr ≡ 0
unfolding prefix
prefix-root addr = omega arith

pub prefix-suc :
    (level addr : ℕ)
    → level < 3
    → prefix level addr ≡ prefix (suc level) addr * 512 + get_pt_index addr (suc level)
unfolding prefix get_pt_index
prefix-suc zero addr h = omega arith
prefix-suc (suc zero) addr h = omega arith
prefix-suc (suc (suc zero)) addr h = omega arith
prefix-suc (suc (suc (suc n))) addr h = absurd (omega (arith, h))

pub page_of-prefix : (addr : ℕ) → page_of addr ≡ prefix 0 addr * 512 + get_pt_index addr 0
unfolding prefix get_pt_index
page_of-prefix addr = omega arith

-- Addresses of one page have one index at every level.
pub get_pt_index-page_of :
    (a b level : ℕ)
    → level < 4
    → page_of a ≡ page_of b
    → get_pt_index a level ≡ get_pt_index b level
unfolding get_pt_index
get_pt_index-page_of a b zero h e = omega (arith, e)
get_pt_index-page_of a b (suc zero) h e = omega (arith, e)
get_pt_index-page_of a b (suc (suc zero)) h e = omega (arith, e)
get_pt_index-page_of a b (suc (suc (suc zero))) h e = omega (arith, e)
get_pt_index-page_of a b (suc (suc (suc (suc n)))) h e = absurd (omega (arith, h))

same_some : {x y : ℕ} → some x ≡ some y → x ≡ y
same_some e = cc

none_some : {A : Type 0} {x : ℕ} → none ≡ some x → A
none_some e = cc

-- What a table of a level says of an address.
pub look : ℕ → Memory → ℕ → ℕ → Option ℕ
look level m t addr = entry_at m addr (find_table level m t addr)

pub look-root : (m : Memory) (root addr : ℕ) → translate m root addr ≡ look 3 m root addr
unfolding look translate
look-root m root addr = refl

module _ (m : Memory) (root : ℕ) (owner : ℕ → Option (ℕ × ℕ)) (tree : IsTree m root owner)
    (addr : ℕ) where
  -- The next table on the way down.
  pub next_owner :
      (level t : ℕ)
      → level < 3
      → owner t ≡ some (suc level, prefix (suc level) addr)
      → is_present (m.tables t (get_pt_index addr (suc level))) ≡ true
      → owner (pte_get_phys (m.tables t (get_pt_index addr (suc level))))
        ≡ some (level, prefix level addr)
  next_owner level t h own there =
      tree.edges t level (prefix (suc level) addr) (get_pt_index addr (suc level)) own
        (get_pt_index-lt addr (suc level)) there
      ∙ ap (λ p. some (level, p)) (sym (prefix-suc level addr h))

  -- The walk ends at the table that owns the address.
  pub find_table-owner :
      (level t pt : ℕ)
      → level ≤ 3
      → owner t ≡ some (level, prefix level addr)
      → find_table level m t addr ≡ some pt
      → owner pt ≡ some (0, prefix 0 addr)
  unfolding find_table
  find_table-owner zero t pt h own e =
      subst (λ x. owner x ≡ some (0, prefix 0 addr)) (same_some e) own
  find_table-owner (suc level) t pt h own e =
      elim (Bool-cases (is_present (m.tables t (get_pt_index addr (suc level))))) [
        | inl there ↦
            find_table-owner level (pte_get_phys (m.tables t (get_pt_index addr (suc level)))) pt
              (omega (arith, h)) (next_owner level t (omega (arith, h)) own there) (rw there at e)
        | inr missing ↦ none_some (rw missing at e)
      ]

-- A table with no present entry.
abbrev pub IsEmpty : Memory → ℕ → Type 0
IsEmpty m t = (i : ℕ) → i < 512 → is_present (m.tables t i) ≡ false

pub look_empty : (level : ℕ) (m : Memory) (t addr : ℕ) → IsEmpty m t → look level m t addr ≡ none
unfolding look find_table entry_at
look_empty zero m t addr h = rw (h (get_pt_index addr 0) (get_pt_index-lt addr 0)) refl
look_empty (suc level) m t addr h =
    rw (h (get_pt_index addr (suc level)) (get_pt_index-lt addr (suc level))) refl

-- A word that leads nowhere.
abbrev pub Vacant : Memory → ℕ → ℕ → Type 0
Vacant m zero w = is_present w ≡ false
Vacant m (suc level) w = (is_present w ≡ false) ⊎ IsEmpty m (pte_get_phys w)

-- The owned tables say the same after a change: a word stays, or it led nowhere and does so still.
abbrev pub Unchanged : (ℕ → Option (ℕ × ℕ)) → Memory → Memory → Type 0
Unchanged owner m m' =
    (t level p i : ℕ)
    → owner t ≡ some (level, p)
    → i < 512
    → (m'.tables t i ≡ m.tables t i)
      ⊎ ((is_present (m.tables t i) ≡ false) × Vacant m' level (m'.tables t i))

-- One level of a walk, as a function of the word that is read.
look_word : ℕ → Memory → ℕ → ℕ → Option ℕ
look_word level m w addr = if is_present w then look level m (pte_get_phys w) addr else none

look-suc :
    (level : ℕ) (m : Memory) (t addr : ℕ)
    → look (suc level) m t addr
      ≡ look_word level m (m.tables t (get_pt_index addr (suc level))) addr
unfolding look look_word find_table entry_at
look-suc level m t addr =
    elim (Bool-cases (is_present (m.tables t (get_pt_index addr (suc level))))) [
      | inl there ↦ rw there refl
      | inr missing ↦ rw missing refl
    ]

look_word-Vacant :
    (level : ℕ) (m : Memory) (w addr : ℕ) → Vacant m (suc level) w → look_word level m w addr ≡ none
unfolding look_word
look_word-Vacant level m w addr (inl missing) = rw missing refl
look_word-Vacant level m w addr (inr empty) =
    rw (look_empty level m (pte_get_phys w) addr empty) (if_same (is_present w))
  where
    if_same : (b : Bool) → ◌≡◌ {A = Option ℕ} (if b then none else none) none
    if_same true = refl
    if_same false = refl

module _ (m m' : Memory) (root : ℕ) (owner : ℕ → Option (ℕ × ℕ)) (tree : IsTree m root owner)
    (same : Unchanged owner m m') (addr : ℕ) where
  look-zero : (t : ℕ) → owner t ≡ some (0, prefix 0 addr) → look 0 m' t addr ≡ look 0 m t addr
  unfolding look find_table entry_at
  look-zero t own =
      elim (same t 0 (prefix 0 addr) (get_pt_index addr 0) own (get_pt_index-lt addr 0)) [
        | inl e ↦ rw e refl
        | inr (missing, vacant) ↦ rw (missing, vacant) refl
      ]

  look_word-same :
      (level w : ℕ)
      → (is_present w ≡ true
          → look level m' (pte_get_phys w) addr ≡ look level m (pte_get_phys w) addr)
      → look_word level m' w addr ≡ look_word level m w addr
  unfolding look_word
  look_word-same level w h = elim (Bool-cases (is_present w)) [
    | inl there ↦ rw there (h there)
    | inr missing ↦ rw missing refl
  ]

  pub look-Unchanged :
      (level t : ℕ)
      → level ≤ 3
      → owner t ≡ some (level, prefix level addr)
      → look level m' t addr ≡ look level m t addr
  look-Unchanged zero t h own = look-zero t own
  look-Unchanged (suc level) t h own =
      let i = get_pt_index addr (suc level) in
      look-suc level m' t addr
      ∙ elim (same t (suc level) (prefix (suc level) addr) i own
          (get_pt_index-lt addr (suc level))) [
            | inl e ↦
                ap (λ w. look_word level m' w addr) e
                ∙ look_word-same level (m.tables t i) (λ there.
                  look-Unchanged level (pte_get_phys (m.tables t i)) (omega (arith, h))
                    (next_owner m root owner tree addr level t (omega (arith, h)) own there))
            | inr (missing, vacant) ↦
                look_word-Vacant level m' (m'.tables t i) addr vacant
                ∙ sym (look_word-Vacant level m (m.tables t i) addr (inl missing))
          ]
      ∙ sym (look-suc level m t addr)

  -- Every address is translated as before.
  pub translate-Unchanged : translate m' root addr ≡ translate m root addr
  translate-Unchanged =
      look-root m' root addr
      ∙ look-Unchanged 3 root (omega arith)
          (tree.rooted ∙ ap (λ p. some (3, p)) (sym (prefix-root addr)))
      ∙ sym (look-root m root addr)
