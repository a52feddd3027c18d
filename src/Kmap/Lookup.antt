-- ===== src/Kmap/Lookup.antt =====
-- What the lookups of kernel/kmap.c find, and that a query gives its reference back.
use emergence_kernel.Prelude.Counts.{occurrences}
use emergence_kernel.Pmm.Valid.Moves.{update_self}
use emergence_kernel.Kmap.View.{page_view, view_in, PageView, view}
use emergence_kernel.Prelude.{
  ap, ◌-◌, ◌%◌, ◌∙◌, ◌+◌, ◌≤◌, [], ==_iff, subst, refl, ◌==◌, inr, inl, Bool-cases, true, false,
  sym, arith, ◌<◌, ◌≡◌, ℕ,
}
use emergence_kernel.Kmap.Find.{
  get_monitor_protection, is_pageable, monitor_of, pageable_of, contains, overlaps, first, hold,
  lookup, lookup_range,
}
use emergence_kernel.Kmap.{
  update, drop_ref, int_mod, kmap_monitor_none, kmap_pageable, put, take_ref, set_entry, ◌∷◌, some,
  List, Option, Bool, KmapState, none, Kmap,
}

-- What a search by a test gives: the first entry that passes it, or nothing when none does.
pub data Search (test : Kmap → Bool) (s : KmapState) (r : Option ℕ × KmapState) : Type 0 where
  missing :
      r.0 ≡ none
      → ((x : ℕ) → 0 < occurrences x s.kmap_list → test (s.entries x) ≡ false)
      → r.1 ≡ s
      → Search test s r
  found :
      (id : ℕ)
      → r.0 ≡ some id
      → 0 < occurrences id s.kmap_list
      → test (s.entries id) ≡ true
      → r.1 ≡ set_entry s id (take_ref (s.entries id))
      → Search test s r

data First (test : Kmap → Bool) (entries : ℕ → Kmap) (xs : List ℕ) (r : Option ℕ) : Type 0 where
  none_first :
      r ≡ none
      → ((x : ℕ) → 0 < occurrences x xs → test (entries x) ≡ false)
      → First test entries xs r
  some_first :
      (id : ℕ)
      → r ≡ some id
      → 0 < occurrences id xs
      → test (entries id) ≡ true
      → First test entries xs r

first-First :
    (test : Kmap → Bool) (entries : ℕ → Kmap) (xs : List ℕ)
    → First test entries xs (first test entries xs)
unfolding first occurrences
first-First test entries [] = none_first refl (λ x m. absurd (omega (arith, m)))
first-First test entries (x ∷ xs) = elim (Bool-cases (test (entries x))) [
  | inl passed ↦ rw passed (some_first x refl (ground arith) passed)
  | inr failed ↦ rw failed (elim (first-First test entries xs) [
    | none_first e out ↦ none_first e (λ y m. elim (Bool-cases (x == y)) [
      | inl here ↦ subst (λ z. test (entries z) ≡ false) ((==_iff x y).0 here) failed
      | inr there ↦ out y (ground (arith, there, m))
    ])
    | some_first id e m t ↦ some_first id e (omega (arith, m)) t
  ])
]

none_some : {A : Type 0} {x : ℕ} → none ≡ some x → A
none_some e = cc

some_same : {x y : ℕ} → some x ≡ some y → x ≡ y
some_same e = cc

hold-Search :
    (test : Kmap → Bool) (s : KmapState) (r : Option ℕ)
    → First test s.entries s.kmap_list r
    → Search test s (hold s r)
unfolding hold
hold-Search test s none (none_first e out) = missing refl out refl
hold-Search test s (some id) (none_first e out) = none_some (sym e)
hold-Search test s none (some_first id e m t) = none_some e
hold-Search test s (some x) (some_first id e m t) =
    let same : id ≡ x = some_same (sym e) in
    found x refl (subst (λ y. 0 < occurrences y s.kmap_list) same m)
      (subst (λ y. test (s.entries y) ≡ true) same t) refl

-- kmap_lookup returns the descriptor of a listed mapping that contains the address, with one reference
-- more, or NULL with nothing changed when no listed mapping contains it.
pub lookup-finds : (s : KmapState) (addr : ℕ) → Search (λ e. contains e addr) s (lookup s addr)
unfolding lookup
lookup-finds s addr =
    hold-Search (λ e. contains e addr) s (first (λ e. contains e addr) s.entries s.kmap_list)
      (first-First (λ e. contains e addr) s.entries s.kmap_list)

-- kmap_lookup_range likewise, for a mapping that overlaps the range.
pub lookup_range-finds :
    (s : KmapState) (start end : ℕ)
    → Search (λ e. overlaps e start end) s (lookup_range s start end)
unfolding lookup_range
lookup_range-finds s start end =
    hold-Search (λ e. overlaps e start end) s
      (first (λ e. overlaps e start end) s.entries s.kmap_list)
      (first-First (λ e. overlaps e start end) s.entries s.kmap_list)

-- What a view says of an address's pages.
abbrev pub says_pageable : Option PageView → Bool
says_pageable none = false
says_pageable (some v) = v.pageable == kmap_pageable

abbrev pub says_monitor : Option PageView → ℕ
says_monitor none = kmap_monitor_none
says_monitor (some v) = v.monitor

unfoldable pub viewed : (ℕ → Kmap) → ℕ → Option ℕ → Option PageView
viewed entries addr none = none
viewed entries addr (some id) = some (view_in (entries id) addr)

pub view-first :
    (entries : ℕ → Kmap) (xs : List ℕ) (addr : ℕ)
    → view entries xs addr ≡ viewed entries addr (first (λ e. contains e addr) entries xs)
unfolding view first viewed
view-first entries [] addr = refl
view-first entries (x ∷ xs) addr = elim (Bool-cases (contains (entries x) addr)) [
  | inl within ↦ rw within refl
  | inr out ↦ rw out (view-first entries xs addr)
]

-- A reference taken and put back.
abbrev pub Restored : KmapState → KmapState → Type 0
Restored s s' = (s'.kmap_list ≡ s.kmap_list) × ((x : ℕ) → s'.entries x ≡ s.entries x)

-- The entry is held, and its count does not overflow.
abbrev pub IsHeld : Kmap → Type 0
IsHeld e = (1 ≤ e.refcount) × (e.refcount + 1 < int_mod)

put-hold :
    (s : KmapState) (id : ℕ)
    → IsHeld (s.entries id)
    → Restored s (put (set_entry s id (take_ref (s.entries id))) (some id))
unfolding put
put-hold s id (held, below) =
    rw (update_self s.entries id (take_ref (s.entries id)), not_last) (refl, λ x. back x)
  where
    not_last : ((take_ref (s.entries id)).refcount == 1) ≡ false
    not_last = ground (arith, held, below)

    count :
        ((s.entries id).refcount + 1) % int_mod + int_mod - 1 ≡ (s.entries id).refcount + int_mod
    count = omega (arith, below)

    again : drop_ref (take_ref (s.entries id)) ≡ s.entries id
    again = ap (λ n. record (s.entries id) { refcount = n }) (omega (arith, below))

    back :
        (x : ℕ)
        → update
            (update s.entries id (take_ref (s.entries id)))
            id
            (drop_ref (take_ref (s.entries id)))
            x
          ≡ s.entries x
    back x = elim (Bool-cases (id == x)) [
      | inl here ↦ rw here (again ∙ ap s.entries ((==_iff id x).0 here))
      | inr there ↦ rw there refl
    ]

pageable-hold :
    (s : KmapState) (addr : ℕ) (r : Option ℕ)
    → ((id : ℕ) → r ≡ some id → IsHeld (s.entries id))
    → ((pageable_of (hold s r)).0 ≡ says_pageable (viewed s.entries addr r))
      × Restored s (pageable_of (hold s r)).1
unfolding pageable_of hold viewed
pageable-hold s addr none h = (refl, (refl, λ x. refl))
pageable-hold s addr (some id) h = (
  ap (λ e. e.pageable == kmap_pageable) (update_self s.entries id (take_ref (s.entries id))),
  put-hold s id (h id refl),
)

monitor-hold :
    (s : KmapState) (addr : ℕ) (r : Option ℕ)
    → ((id : ℕ) → r ≡ some id → IsHeld (s.entries id))
    → ((monitor_of (hold s r)).0 ≡ says_monitor (viewed s.entries addr r))
      × Restored s (monitor_of (hold s r)).1
unfolding monitor_of hold viewed
monitor-hold s addr none h = (refl, (refl, λ x. refl))
monitor-hold s addr (some id) h = (
  ap (λ e. e.monitor) (update_self s.entries id (take_ref (s.entries id))),
  put-hold s id (h id refl),
)

-- Every listed mapping is held, and no count is about to overflow.
abbrev pub AllHeld : KmapState → Type 0
AllHeld s = (id : ℕ) → 0 < occurrences id s.kmap_list → IsHeld (s.entries id)

first-IsHeld :
    (s : KmapState) (test : Kmap → Bool)
    → AllHeld s
    → (id : ℕ) → first test s.entries s.kmap_list ≡ some id
    → IsHeld (s.entries id)
first-IsHeld s test all id e = elim (first-First test s.entries s.kmap_list) [
  | none_first e' out ↦ none_some (sym e' ∙ e)
  | some_first y e' m t ↦
      all id (subst (λ z. 0 < occurrences z s.kmap_list) (some_same (sym e' ∙ e)) m)
]

-- kmap_is_pageable answers what the mappings say of the address, false where there is none, and
-- leaves the list and every descriptor as before, if each listed one is held.
pub is_pageable-refines :
    (s : KmapState) (addr : ℕ)
    → AllHeld s
    → ((is_pageable s addr).0 ≡ says_pageable (page_view s addr))
      × Restored s (is_pageable s addr).1
unfolding is_pageable lookup
is_pageable-refines s addr all =
    let r = first (λ e. contains e addr) s.entries s.kmap_list in
    let (answer, restored) = pageable-hold s addr r (first-IsHeld s (λ e. contains e addr) all) in
    (answer ∙ ap says_pageable (sym (view-first s.entries s.kmap_list addr)), restored)

-- kmap_get_monitor_protection answers the protection that the mappings give to the address, none
-- where there is no mapping, and leaves the list and every descriptor as before, if each listed one is
-- held.
pub get_monitor_protection-refines :
    (s : KmapState) (addr : ℕ)
    → AllHeld s
    → ((get_monitor_protection s addr).0 ≡ says_monitor (page_view s addr))
      × Restored s (get_monitor_protection s addr).1
unfolding get_monitor_protection lookup
get_monitor_protection-refines s addr all =
    let r = first (λ e. contains e addr) s.entries s.kmap_list in
    let (answer, restored) = monitor-hold s addr r (first-IsHeld s (λ e. contains e addr) all) in
    (answer ∙ ap says_monitor (sym (view-first s.entries s.kmap_list addr)), restored)
