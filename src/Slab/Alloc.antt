-- ===== src/Slab/Alloc.antt =====
-- What `slab_alloc` of kernel/slab.c does to a well-formed cache.
use native.Mathlib.Decide.{ℕ_discrete}
use emergence_kernel.Prelude.Counts.{occurrences}
use emergence_kernel.Slab.Objects.{IsObject-page_floor}
use emergence_kernel.Slab.Taken.{
  IsCache-small, InUse-elsewhere_back, InUse-here_back, IsTaken-take, InUse-elsewhere, IsTaken-kept,
  InUse-here, IsTaken-not, take_object-IsTaken, IsCache-fits, InUse, IsTaken,
}
use emergence_kernel.Slab.Cache.{
  IsSlab-take, IsCache-move, IsPlaced, IsSlab, places, IsMoved, IsCache,
}
use emergence_kernel.Slab.{
  alloc_free, is_empty, one_less_free, pop_object, alloc_partial, take_object, Result, Slab,
  SlabCache,
}
use emergence_kernel.Prelude.{
  ◌∙◌, length, ◌≢◌, ap, ◌+◌, refl, ◌==◌, arith, if◌then◌else◌, inr, inl, [], update, page_floor,
  ◌∷◌, sym, ◌<◌, ◌⊎◌, subst, List, ◌≡◌, ℕ,
}

-- What is granted: an object that was not in use is in use, and nothing else changes.
pub record IsGrant (id : ℕ) (c : SlabCache) (slabs : ℕ → Slab) (r : Result) : Type 0 where
  pub valid : IsCache id r.1 r.2
  pub was_free : ¬ InUse c slabs r.0
  pub granted : InUse r.1 r.2 r.0
  pub kept : (a : ℕ) → InUse c slabs a → InUse r.1 r.2 a
  pub only : (a : ℕ) → InUse r.1 r.2 a → InUse c slabs a ⊎ (a ≡ r.0)

IsTaken-page :
    {size n page obj a : ℕ} {slab : Slab}
    → (a ≡ obj)
    → ¬ IsTaken size n slab page obj
    → ¬ IsTaken size n slab page a
IsTaken-page {size} {n} {page} {obj} {a} {slab} e h =
    subst (λ (x : ℕ). ¬ IsTaken size n slab page x) (sym e) h

-- The first free object of a listed slab is taken, wherever the slab goes.
module _ {id page obj : ℕ} {c c' : SlabCache} {slabs : ℕ → Slab} {rest : List ℕ}
    (o : IsCache id c slabs) (m : IsMoved page c c') (was : 0 < places page c)
    (listed : 0 < places page c') (e : (slabs page).free_list ≡ obj ∷ rest) where
  at_page : IsSlab id c.object_size c.objects_per_slab (slabs page) page
  at_page = (o.placed page).is_slab was

  obj-page : page_floor obj ≡ page
  obj-page =
      IsObject-page_floor at_page.aligned o.positive (IsCache-fits o)
        (take_object-IsTaken e at_page).object

  pub IsGrant-take :
      IsPlaced id c.object_size c.objects_per_slab c' (take_object page (slabs page)) page
      → IsGrant id c slabs (obj, c', update slabs page (take_object page (slabs page)))
  IsGrant-take placed = record {
    valid = IsCache-move o m placed;
    was_free = λ u. IsTaken-not e (
        subst (λ (q : ℕ). IsTaken c.object_size c.objects_per_slab (slabs q) q obj) obj-page
          u.taken);
    granted =
        InUse-here m slabs (take_object page (slabs page)) obj obj-page listed
          (take_object-IsTaken e at_page);
    kept = λ a u. elim (ℕ_discrete (page_floor a) page) [
      | yes near ↦ InUse-here m slabs (take_object page (slabs page)) a near listed (
          IsTaken-kept e a (
            subst (λ (q : ℕ). IsTaken c.object_size c.objects_per_slab (slabs q) q a) near u.taken))
      | no far ↦ InUse-elsewhere m slabs (take_object page (slabs page)) a far u
    ];
    only = λ a u. elim (ℕ_discrete (page_floor a) page) [
      | yes near ↦
          elim (IsTaken-take e a
            (InUse-here_back m slabs (take_object page (slabs page)) a near u)) [
              | inl t ↦ inl (record {
                listed = subst (λ (q : ℕ). 0 < places q c) (sym near) was;
                taken =
                    subst (λ (q : ℕ). IsTaken c.object_size c.objects_per_slab (slabs q) q a)
                      (sym near) t;
              })
              | inr same ↦ inr same
            ]
      | no far ↦ inl (InUse-elsewhere_back m slabs (take_object page (slabs page)) a far u)
    ];
  }

pub IsGrant-eq :
    {id : ℕ} {c : SlabCache} {slabs : ℕ → Slab} {r r' : Result}
    → r' ≡ r
    → IsGrant id c slabs r
    → IsGrant id c slabs r'
IsGrant-eq {id} {c} {slabs} e g = subst (λ (x : Result). IsGrant id c slabs x) (sym e) g

list-cases : (xs : List ℕ) → (xs ≡ []) ⊎ ((x : ℕ) × (rest : List ℕ) × (xs ≡ x ∷ rest))
list-cases [] = inl refl
list-cases (x ∷ rest) = inr (x, rest, refl)

-- A cache with a partial slab: its first object is granted, and the slab is full when it was the last.
module _ {id page : ℕ} {c : SlabCache} {slabs : ℕ → Slab} {rest : List ℕ}
    (p : c.slabs_partial ≡ page ∷ rest) (o : IsCache id c slabs) where
  partial_places :
      (q : ℕ) → occurrences q c.slabs_partial ≡ (if page == q then 1 else 0) + occurrences q rest
  unfolding occurrences
  partial_places q = ap (occurrences q) p

  in_partial : 0 < occurrences page c.slabs_partial
  in_partial = ground (arith, partial_places page)

  partial-IsSlab : IsSlab id c.object_size c.objects_per_slab (slabs page) page
  partial-IsSlab = (o.placed page).is_slab (omega (arith, in_partial))

  alloc_partial-last_IsGrant :
      {obj : ℕ}
      → (slabs page).free_list ≡ obj ∷ []
      → IsGrant id c slabs (alloc_partial c slabs page rest)
  unfolding occurrences alloc_partial pop_object
  alloc_partial-last_IsGrant {obj} e =
      let moved : SlabCache = record (one_less_free c) {
        slabs_full = page ∷ c.slabs_full;
        slabs_partial = rest;
      } in
      let at = o.placed page in
      IsGrant-eq {r = (obj, moved, update slabs page (take_object page (slabs page)))}
        (λ i. (
          (pop_object page (e i)).0,
          (if is_empty (pop_object page (e i)).1 then moved else one_less_free c),
          update slabs page (take_object page (slabs page)),
        ))
        (IsGrant-take o
          (record {
            same_size = refl;
            same_objects = refl;
            free = λ q h. refl;
            full = λ q h. ground (arith, h);
            partial = λ q h. ground (arith, h, partial_places q);
          })
          (omega (arith, in_partial)) (ground arith) e
          (record {
            once = ground (arith, partial_places page, at.once);
            is_slab = λ w. IsSlab-take (IsCache-small o) e partial-IsSlab;
            partial = λ w. absurd (ground (arith, w, partial_places page, at.once));
            unused = λ w. absurd (ground (arith, w, partial_places page, at.once));
          }))

  alloc_partial-more_IsGrant :
      {obj x : ℕ} {others : List ℕ}
      → (slabs page).free_list ≡ obj ∷ x ∷ others
      → IsGrant id c slabs (alloc_partial c slabs page rest)
  unfolding occurrences alloc_partial pop_object
  alloc_partial-more_IsGrant {obj} {x} {others} e =
      let moved : SlabCache = record (one_less_free c) {
        slabs_full = page ∷ c.slabs_full;
        slabs_partial = rest;
      } in
      let at = o.placed page in
      IsGrant-eq {r = (obj, one_less_free c, update slabs page (take_object page (slabs page)))}
        (λ i. (
          (pop_object page (e i)).0,
          (if is_empty (pop_object page (e i)).1 then moved else one_less_free c),
          update slabs page (take_object page (slabs page)),
        ))
        (IsGrant-take o
          (record {
            same_size = refl;
            same_objects = refl;
            free = λ q h. refl;
            full = λ q h. refl;
            partial = λ q h. refl;
          })
          (omega (arith, in_partial)) (omega (arith, in_partial)) e
          (record {
            once = at.once;
            is_slab = λ w. IsSlab-take (IsCache-small o) e partial-IsSlab;
            partial = λ w. rw e (omega arith);
            unused = λ w. absurd (ground (arith, w, in_partial, at.once));
          }))

  pub alloc_partial-IsGrant : IsGrant id c slabs (alloc_partial c slabs page rest)
  alloc_partial-IsGrant = elim (list-cases (slabs page).free_list) [
    | inl e ↦ absurd (omega (arith, (o.placed page).partial in_partial, ap (length {0}) e))
    | inr (obj, others, e) ↦ elim (list-cases others) [
      | inl f ↦ alloc_partial-last_IsGrant (e ∙ ap (λ (l : List ℕ). obj ∷ l) f)
      | inr (x, more, f) ↦ alloc_partial-more_IsGrant (e ∙ ap (λ (l : List ℕ). obj ∷ l) f)
    ]
  ]

-- A cache with a free slab, which becomes the first partial one
module _ {id page : ℕ} {c : SlabCache} {slabs : ℕ → Slab} {rest : List ℕ}
    (p : c.slabs_free ≡ page ∷ rest) (o : IsCache id c slabs) where
  free_places :
      (q : ℕ) → occurrences q c.slabs_free ≡ (if page == q then 1 else 0) + occurrences q rest
  unfolding occurrences
  free_places q = ap (occurrences q) p

  in_free : 0 < occurrences page c.slabs_free
  in_free = ground (arith, free_places page)

  free-IsSlab : IsSlab id c.object_size c.objects_per_slab (slabs page) page
  free-IsSlab = (o.placed page).is_slab (omega (arith, in_free))

  more_free : (slabs page).free_list ≢ []
  more_free e =
      omega (arith, free-IsSlab.counted, (o.placed page).unused in_free, o.few, ap (length {0}) e)

  alloc_free-taken :
      {obj : ℕ} {others : List ℕ}
      → (slabs page).free_list ≡ obj ∷ others
      → IsGrant id c slabs (alloc_free c slabs page rest)
  unfolding occurrences alloc_free pop_object
  alloc_free-taken {obj} {others} e =
      let moved : SlabCache = record (one_less_free c) {
        slabs_partial = page ∷ c.slabs_partial;
        slabs_free = rest;
      } in
      let at = o.placed page in
      IsGrant-eq {r = (obj, moved, update slabs page (take_object page (slabs page)))}
        (λ i. ((pop_object page (e i)).0, moved, update slabs page (take_object page (slabs page))))
        (IsGrant-take o
          (record {
            same_size = refl;
            same_objects = refl;
            full = λ q h. refl;
            free = λ q h. ground (arith, h, free_places q);
            partial = λ q h. ground (arith, h);
          })
          (omega (arith, in_free)) (ground arith) e
          (record {
            once = ground (arith, free_places page, at.once);
            is_slab = λ w. IsSlab-take (IsCache-small o) e free-IsSlab;
            partial = λ w.
                rw e
                  (omega (arith, ap (length {0}) e, free-IsSlab.counted, at.unused in_free, o.few));
            unused = λ w. absurd (ground (arith, w, free_places page, at.once));
          }))

  pub alloc_free-IsGrant : IsGrant id c slabs (alloc_free c slabs page rest)
  alloc_free-IsGrant = elim (list-cases (slabs page).free_list) [
    | inl e ↦ absurd (more_free e)
    | inr (obj, others, e) ↦ alloc_free-taken e
  ]
