-- ===== src/Pcd/Change.antt =====
-- What storing a type in the table of kernel/pcd.c can change, whatever the address and the table.
use emergence_kernel.Prelude.{◌==◌, Bool-cases, refl, ◌∙◌, inl, true, ◌/◌, ◌⊎◌, inr, ◌≡◌, false}
use emergence_kernel.Pcd.{
  leb, page_size, pos, minus_one, if◌then◌else◌, ltb, page_floor, sub_u64, ℤ, update, Bool, ℕ, Pcd,
  PcdState, get_index, get_type, is_managed, set_type, set_type_internal, write_type, type_max,
  nk_normal,
}

-- Afterwards an address reads as the type or as before.
pub record IsChange (pcd : PcdState) (t : ℕ) (pcd' : PcdState) : Type 0 where
  pub reads : (a : ℕ) → (get_type pcd' a ≡ t) ⊎ (get_type pcd' a ≡ get_type pcd a)

pub IsChange-none : (pcd : PcdState) (t : ℕ) → IsChange pcd t pcd
IsChange-none pcd t = record { reads = λ a. inr refl }

pub IsChange-trans : {p q r : PcdState} {t : ℕ} → IsChange p t q → IsChange q t r → IsChange p t r
IsChange-trans first next = record {
  reads = λ a. elim (next.reads a) [
    | inl set ↦ inl set
    | inr kept ↦ elim (first.reads a) [ inl set ↦ inl (kept ∙ set) | inr same ↦ inr (kept ∙ same) ]
  ];
}

pub IsChange-if :
    (c : Bool) {p q : PcdState} {t : ℕ} → IsChange p t q → IsChange p t (if c then q else p)
IsChange-if true h = h
IsChange-if false {p} {t} h = IsChange-none p t

abbrev reading : Bool → Bool → ℕ → ℕ
reading on within type = if on then (if within then type else nk_normal) else nk_normal

reading-change :
    (on within : Bool) (t old new : ℕ)
    → (new ≡ t) ⊎ (new ≡ old)
    → (reading on within new ≡ t) ⊎ (reading on within new ≡ reading on within old)
reading-change true true t old new h = h
reading-change true false t old new h = inr refl
reading-change false within t old new h = inr refl

entry-change :
    (pages : ℕ → Pcd) (i j t : ℕ)
    → ((update pages i (record (pages i) { type = t }) j).type ≡ t)
      ⊎ ((update pages i (record (pages i) { type = t }) j).type ≡ (pages j).type)
entry-change pages i j t = elim (Bool-cases (i == j)) [
  | inl here ↦ inl (rw here refl)
  | inr there ↦ inr (rw there refl)
]

write_type-IsChange : (pcd : PcdState) (i t : ℕ) → IsChange pcd t (write_type pcd i t)
unfolding get_type is_managed get_index
write_type-IsChange pcd i t = record {
  reads = λ a.
      let j = get_index pcd (page_floor a) in
      reading-change pcd.initialized (is_managed pcd (page_floor a)) t (pcd.pages j).type
        (update pcd.pages i (record (pcd.pages i) { type = t }) j).type
        (entry-change pcd.pages i j t);
}

checked :
    (on large within : Bool) (pcd pcd' : PcdState) (t : ℕ)
    → IsChange pcd t pcd'
    → let r : PcdState × ℤ =
        if on
        then (if large
            then (pcd, minus_one)
            else if within
            then (pcd', pos 0)
            else (pcd, minus_one))
        else (pcd, minus_one) in
      IsChange pcd t r.0
checked false large within pcd pcd' t h = IsChange-none pcd t
checked true true within pcd pcd' t h = IsChange-none pcd t
checked true false true pcd pcd' t h = h
checked true false false pcd pcd' t h = IsChange-none pcd t

pub set_type-IsChange : (pcd : PcdState) (addr t : ℕ) → IsChange pcd t (set_type pcd addr t).0
unfolding set_type
set_type-IsChange pcd addr t =
    checked pcd.initialized (ltb type_max t) (is_managed pcd (page_floor addr)) pcd _ t
      (write_type-IsChange pcd (get_index pcd (page_floor addr)) t)

pub set_type_internal-IsChange :
    (pcd : PcdState) (addr t : ℕ) → IsChange pcd t (set_type_internal pcd addr t)
unfolding set_type_internal
set_type_internal-IsChange pcd addr t =
    let i = sub_u64 (addr / page_size) pcd.base_page in
    elim (Bool-cases (leb pcd.max_pages i)) [
      | inl out ↦ rw out (IsChange-none pcd t)
      | inr within ↦ rw within (write_type-IsChange pcd i t)
    ]
