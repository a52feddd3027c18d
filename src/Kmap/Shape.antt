-- ===== src/Kmap/Shape.antt =====
-- The descriptors of kernel/kmap.c keep their shape through every sequence of operations.
use emergence_kernel.Prelude.Counts.{occurrences}
use emergence_kernel.Pmm.Valid.Moves.{update-ne}
use emergence_kernel.Prelude.{
  ==_iff, false, true, refl, [], sym, inr, subst, inl, ◌+◌, Bool-cases, ◌-◌, ◌==◌, arith,
  if◌then◌else◌, ◌*◌, ◌^◌, ◌≡◌, ◌≢◌, ◌≤◌, ◌<◌,
}
use emergence_kernel.Kmap.{
  ltb, ◌∷◌, update, List, page_size, insert, insert_after, remove, ℕ, ◌%◌, Kmap, KmapState,
}

-- A mapping of whole pages, with its number of pages.
pub record IsShaped (e : Kmap) : Type 0 where
  pub start_aligned : e.virt_start % page_size ≡ 0
  pub end_aligned : e.virt_end % page_size ≡ 0
  pub nonempty : e.virt_start < e.virt_end
  pub below : e.virt_end < 2 ^ 64
  pub pages : e.num_pages * page_size ≡ e.virt_end - e.virt_start

pub record IsRegistry (s : KmapState) : Type 0 where
  pub shaped : (id : ℕ) → 0 < occurrences id s.kmap_list → IsShaped (s.entries id)

pub occurrences-remove : (x id : ℕ) (xs : List ℕ) → occurrences x (remove id xs) ≤ occurrences x xs
unfolding occurrences remove
occurrences-remove x id [] = omega arith
occurrences-remove x id (y ∷ ys) = elim (Bool-cases (y == id)) [
  | inl here ↦ rw here (omega arith)
  | inr there ↦ rw there (omega (arith, occurrences-remove x id ys))
]

pub occurrences-insert :
    (entries : ℕ → Kmap) (start x id : ℕ) (xs : List ℕ)
    → occurrences x (insert entries start id xs) ≡ (if id == x then 1 else 0) + occurrences x xs
unfolding occurrences insert
occurrences-insert entries start x id [] = refl
occurrences-insert entries start x id (y ∷ ys) =
    elim (Bool-cases (ltb start (entries y).virt_start)) [
      | inl before ↦ rw before (omega arith)
      | inr after ↦ rw after (omega (arith, occurrences-insert entries start x id ys))
    ]

pub occurrences-insert_after :
    (x id new : ℕ) (xs : List ℕ)
    → occurrences x (insert_after id new xs) ≤ (if new == x then 1 else 0) + occurrences x xs
unfolding occurrences insert_after
occurrences-insert_after x id new [] = omega arith
occurrences-insert_after x id new (y ∷ ys) = elim (Bool-cases (y == id)) [
  | inl here ↦ rw here (omega arith)
  | inr there ↦ rw there (omega (arith, occurrences-insert_after x id new ys))
]

-- One descriptor is replaced by a shaped one, and only it may join the list.
pub replaced :
    (s : KmapState) (id : ℕ) (e : Kmap) (xs : List ℕ)
    → IsRegistry s
    → (0 < occurrences id xs → IsShaped e)
    → ((x : ℕ) → id ≢ x → occurrences x xs ≤ occurrences x s.kmap_list)
    → IsRegistry (record { entries = update s.entries id e; kmap_list = xs })
replaced s id e xs r shaped fewer = record {
  shaped = λ x m. elim (Bool-cases (id == x)) [
    | inl here ↦
        subst IsShaped (sym (at_id x here))
          (shaped (subst (λ y. 0 < occurrences y xs) (sym ((==_iff id x).0 here)) m))
    | inr there ↦
        subst IsShaped (sym (update-ne s.entries id e (ne x there)))
          (r.shaped x (omega (arith, m, fewer x (ne x there))))
  ];
}
  where
    at_id : (x : ℕ) → (id == x) ≡ true → update s.entries id e x ≡ e
    at_id x here = rw here refl

    ne : (x : ℕ) → (id == x) ≡ false → id ≢ x
    ne x there = ground (arith, there)

pub fewer_entries :
    (s : KmapState) (xs : List ℕ)
    → IsRegistry s
    → ((x : ℕ) → occurrences x xs ≤ occurrences x s.kmap_list)
    → IsRegistry (record s { kmap_list = xs })
fewer_entries s xs r fewer = record { shaped = λ x m. r.shaped x (omega (arith, m, fewer x)) }
