-- ===== src/Slab/Objects.antt =====
-- The objects of a slab of kernel/slab.c: where they lie, and that no two are the same.
use emergence_kernel.Prelude.{
  page_floor, page_size, ◌%◌, ◌⊎◌, inr, inl, ltb, refl, ◌==◌, Bool-cases, zero, arith, suc, ◌*◌,
  ◌≡◌, length, ◌<◌, ◌≤◌,
}
use emergence_kernel.Prelude.Counts.{occurrences}
use emergence_kernel.Slab.{usable_space, ◌+◌, ℕ, object_list, slab_header}

-- An address of one of n objects of a size behind a start.
pub record IsObject (start size n a : ℕ) : Type 0 where
  pub index : ℕ
  pub lt : index < n
  pub address : a ≡ start + index * size

IsObject-suc :
    {start size n a : ℕ} → IsObject (start + size) size n a → IsObject start size (suc n) a
IsObject-suc o = record {
  index = suc o.index;
  lt = omega (arith, o.lt);
  address = omega (arith, o.address);
}

pub object_list-IsObject :
    (n size start a : ℕ) → 0 < occurrences a (object_list n size start) → IsObject start size n a
unfolding occurrences object_list
object_list-IsObject zero size start a h = absurd (omega (arith, h))
object_list-IsObject (suc n) size start a h = elim (Bool-cases (start == a)) [
  | inl here ↦ record { index = 0; lt = omega arith; address = ground (arith, here) }
  | inr there ↦
      IsObject-suc (object_list-IsObject n size (start + size) a (ground (arith, h, there)))
]

IsObject-le : {start size n a : ℕ} → IsObject start size n a → start ≤ a
IsObject-le o = omega (arith, o.address)

pub object_list-distinct :
    (n size start a : ℕ) → 0 < size → occurrences a (object_list n size start) ≤ 1
unfolding occurrences object_list
object_list-distinct zero size start a h = omega arith
object_list-distinct (suc n) size start a h =
    elim (Bool-cases (ltb 0 (occurrences a (object_list n size (start + size))))) [
      | inl more ↦
          let behind =
            IsObject-le (object_list-IsObject n size (start + size) a (ground (arith, more))) in
          ground (arith, h, behind, object_list-distinct n size (start + size) a h)
      | inr fewer ↦ ground (arith, fewer)
    ]

pub length-object_list : (n size start : ℕ) → length (object_list n size start) ≡ n
unfolding object_list
length-object_list zero size start = refl
length-object_list (suc n) size start = omega (arith, length-object_list n size (start + size))

-- An object ends before the end of n objects.
pub index_fits : (i n size : ℕ) → i < n → i * size + size ≤ n * size
index_fits i zero size h = absurd (omega (arith, h))
index_fits zero (suc n) size h = omega arith
index_fits (suc i) (suc n) size h = omega (arith, index_fits i n size (omega (arith, h)))

IsObject-le_end : {start size n a : ℕ} → IsObject start size n a → a + size ≤ start + n * size
IsObject-le_end {size = size} {n = n} o = omega (arith, o.address, index_fits o.index n size o.lt)

-- The address of an object in a page gives the page.
pub IsObject-page_floor :
    {page size n a : ℕ}
    → page % page_size ≡ 0
    → 0 < size
    → n * size ≤ usable_space
    → IsObject (page + slab_header) size n a
    → page_floor a ≡ page
IsObject-page_floor aligned h fits o =
    omega (arith, aligned, h, fits, IsObject-le o, IsObject-le_end o)

-- The first of the objects, or one behind it
pub IsObject-first_or_later :
    {start size n a : ℕ}
    → IsObject start size (suc n) a
    → (a ≡ start) ⊎ IsObject (start + size) size n a
IsObject-first_or_later {start} {size} {n} {a} o = split o.index o.lt o.address
  where
    split :
        (i : ℕ) → i < suc n → a ≡ start + i * size → (a ≡ start) ⊎ IsObject (start + size) size n a
    split zero lt e = inl (omega (arith, e))
    split (suc i) lt e =
        inr (record { index = i; lt = omega (arith, lt); address = omega (arith, e) })

-- Each address of an object is in the list.
pub IsObject-listed :
    (n size start a : ℕ) → IsObject start size n a → 0 < occurrences a (object_list n size start)
unfolding occurrences object_list
IsObject-listed zero size start a o = absurd (omega (arith, o.lt))
IsObject-listed (suc n) size start a o = elim (IsObject-first_or_later o) [
  | inl first ↦ ground (arith, first)
  | inr later ↦ omega (arith, IsObject-listed n size (start + size) a later)
]
