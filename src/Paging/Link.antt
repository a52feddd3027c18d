-- ===== src/Paging/Link.antt =====
-- The tables of kernel/kmap.c after a missing one is linked.
use Prim.Native.Nat.{suc}
use emergence_kernel.Paging.{
  false, true, some, Option, update, Memory, is_present, pte_get_phys, undo,
}
use emergence_kernel.Paging.Tree.{IsTree, Vacant, Unchanged}
use emergence_kernel.Prelude.{zero, inl, ◌+◌, ◌*◌, arith, ◌⊎◌, ◌≡◌, ◌≢◌, ℕ}

-- The tables after a new one is linked at an entry.
unfoldable pub linked : (ℕ → ℕ → ℕ) → ℕ → ℕ → ℕ → ℕ → ℕ → ℕ → ℕ
linked tables page table i w =
    update (update tables page (λ j. 0)) table (update (update tables page (λ j. 0) table) i w)

pub linked_entry :
    (tables : ℕ → ℕ → ℕ) (page table i w : ℕ) → linked tables page table i w table i ≡ w
unfolding linked
linked_entry tables page table i w = ground arith

pub linked_page :
    (tables : ℕ → ℕ → ℕ) (page table i w j : ℕ)
    → page ≢ table
    → linked tables page table i w page j ≡ 0
unfolding linked
linked_page tables page table i w j ne = ground arith

pub linked_other :
    (tables : ℕ → ℕ → ℕ) (page table i w t j : ℕ)
    → page ≢ t
    → (table ≢ t) ⊎ (i ≢ j)
    → linked tables page table i w t j ≡ tables t j
unfolding linked
linked_other tables page table i w t j ne other = ground arith

-- The outcome of making sure that an entry leads to a table.
pub record Ensured (m m1 : Memory) (root : ℕ) (owner owner1 : ℕ → Option (ℕ × ℕ))
    (table i level p next : ℕ) (created : Option ℕ) : Type 0 where
  pub tree : IsTree m1 root owner1
  pub extends : (t l q : ℕ) → owner t ≡ some (l, q) → owner1 t ≡ some (l, q)
  pub leads : owner1 next ≡ some (level, p * 512 + i)
  pub same : Unchanged owner m m1
  pub there : is_present (m1.tables table i) ≡ true
  pub next_there : pte_get_phys (m1.tables table i) ≡ next
  pub undone : (m2 : Memory) → Unchanged owner1 m1 m2 → Unchanged owner m (undo created table i m2)

pub same_range :
    (o : Option (ℕ × ℕ)) (level p l q i : ℕ)
    → ◌≡◌ {A = Option (ℕ × ℕ)} o (some (suc level, p))
    → ◌≡◌ {A = Option (ℕ × ℕ)} o (some (suc l, q))
    → ◌≡◌ {A = Option (ℕ × ℕ)} (some (level, p * 512 + i)) (some (l, q * 512 + i))
same_range o level p l q i e f = cc

pub same_level :
    (o : Option (ℕ × ℕ)) (level p l q : ℕ)
    → ◌≡◌ {A = Option (ℕ × ℕ)} o (some (suc level, p))
    → ◌≡◌ {A = Option (ℕ × ℕ)} o (some (l, q))
    → suc level ≡ l
same_level o level p l q e f = cc

pub missing-Vacant : (m : Memory) (l w : ℕ) → is_present w ≡ false → Vacant m l w
missing-Vacant m zero w h = h
missing-Vacant m (suc l) w h = inl h

pub true_false : {A : Type 0} → true ≡ false → A
true_false e = cc

pub dec_pair : (a b c d : ℕ) → ((a ≡ b) × (c ≡ d)) ⊎ ((a ≢ b) ⊎ (c ≢ d))
dec_pair a b c d = ground arith
