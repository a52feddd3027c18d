-- ===== src/Slab/Grow.antt =====
-- `slab_alloc` of kernel/slab.c with the new slab that it makes when no other has a free object.
use native.Mathlib.Decide.{ℕ_discrete}
use emergence_kernel.Prelude.Counts.{occurrences}
use emergence_kernel.Slab.Alloc.{alloc_partial-IsGrant, IsGrant-eq, alloc_free-IsGrant, IsGrant}
use emergence_kernel.Slab.Objects.{
  object_list-IsObject, IsObject, object_list-distinct, IsObject-listed, length-object_list,
}
use emergence_kernel.Slab.Taken.{
  InUse-elsewhere_back, InUse-here_back, InUse-elsewhere, InUse, IsTaken,
}
use emergence_kernel.Slab.Cache.{IsCache-move, IsMoved, IsSlab, places, IsCache}
use emergence_kernel.Slab.{
  take_object, one_less_free, pop_object, alloc_from, slab_header, usable_space, alloc_new,
  alloc_free, alloc, Result, Slab, add_objects, SlabCache, fresh_slab,
}
use emergence_kernel.Prelude.{
  false, ◌==◌, fun_ext, true, ==-refl, if◌then◌else◌, ==-false, Bool, sym, inl, refl, ◌+◌, inr, ◌/◌,
  ◌<◌, List, subst, page_floor, update, [], arith, ◌⊎◌, ◌≡◌, ◌≢◌, page_size, ◌∷◌, ◌%◌, ℕ,
}

-- What the page allocator gives: NULL, or a page that is no slab of the cache.
pub record IsNewPage (c : SlabCache) (page : ℕ) : Type 0 where
  pub aligned : page % page_size ≡ 0
  pub unlisted : places page c ≡ 0

fresh_slab-IsSlab :
    {id page : ℕ} {c : SlabCache} {slabs : ℕ → Slab}
    → IsCache id c slabs
    → page ≢ 0
    → page % page_size ≡ 0
    → IsSlab id c.object_size c.objects_per_slab (fresh_slab id c page) page
unfolding fresh_slab
fresh_slab-IsSlab {page = page} {c = c} o h aligned = record {
  aligned = aligned;
  not_null = h;
  owner = refl;
  counted = omega (
    arith,
    length-object_list (usable_space / c.object_size) c.object_size (page + slab_header),
    o.room,
  );
  distinct = λ a.
      object_list-distinct (usable_space / c.object_size) c.object_size (page + slab_header) a
        o.positive;
  objects = λ a w.
      subst (λ (n : ℕ). IsObject (page + slab_header) c.object_size n a) (sym o.room)
        (object_list-IsObject (usable_space / c.object_size) c.object_size (page + slab_header) a
          w);
}

-- No object of a fresh slab is in use.
fresh_slab-unused :
    {id page a : ℕ} {c : SlabCache} {slabs : ℕ → Slab}
    → IsCache id c slabs
    → ¬ IsTaken c.object_size c.objects_per_slab (fresh_slab id c page) page a
unfolding fresh_slab
fresh_slab-unused {page = page} {a} {c} o t = absurd (
    omega (
      arith,
      t.not_free,
      IsObject-listed (usable_space / c.object_size) c.object_size (page + slab_header) a
          (subst (λ (n : ℕ). IsObject (page + slab_header) c.object_size n a) o.room t.object),
    ))

if-again :
    (b : Bool) (x y z : Slab) → (if b then x else z) ≡ (if b then x else (if b then y else z))
if-again true x y z = refl
if-again false x y z = refl

-- The cache with a fresh slab among its free ones
abbrev with_fresh : ℕ → SlabCache → SlabCache
with_fresh page c = record (add_objects c) { slabs_free = page ∷ c.slabs_free }

module _ {id page : ℕ} {c : SlabCache} {slabs : ℕ → Slab} (o : IsCache id c slabs) (h : page ≢ 0)
    (new : IsNewPage c page) where
  with_fresh-IsMoved : IsMoved page c (with_fresh page c)
  unfolding occurrences
  with_fresh-IsMoved = record {
    same_size = refl;
    same_objects = refl;
    full = λ q w. refl;
    partial = λ q w. refl;
    free = λ q w. ground (arith, w);
  }

  with_fresh-IsCache : IsCache id (with_fresh page c) (update slabs page (fresh_slab id c page))
  unfolding occurrences fresh_slab
  with_fresh-IsCache = IsCache-move o with_fresh-IsMoved (record {
    once = ground (arith, new.unlisted);
    is_slab = λ w. fresh_slab-IsSlab o h new.aligned;
    partial = λ w. absurd (ground (arith, w, new.unlisted));
    unused = λ w. refl;
  })

  alloc_new-eq :
      c.slabs_free ≡ []
      → alloc_new id c slabs page
        ≡ alloc_free
            (with_fresh page c)
            (update slabs page (fresh_slab id c page))
            page
            c.slabs_free
  unfolding alloc_free alloc_new
  alloc_new-eq e =
      rw (==-false page 0 h, ==-refl page)
        (λ i. (
          (pop_object page (fresh_slab id c page).free_list).0,
          record (one_less_free (add_objects c)) { slabs_partial = page ∷ c.slabs_partial },
          fun_ext
              (λ j.
                if-again (page == j) (take_object page (fresh_slab id c page))
                  (fresh_slab id c page) (slabs j))
              i,
        ))

  far_in_use : (a : ℕ) → InUse c slabs a → page_floor a ≢ page
  far_in_use a u e = omega (arith, new.unlisted, subst (λ (q : ℕ). 0 < places q c) e u.listed)

  with_fresh-InUse :
      (a : ℕ)
      → InUse c slabs a
      → InUse (with_fresh page c) (update slabs page (fresh_slab id c page)) a
  with_fresh-InUse a u =
      InUse-elsewhere with_fresh-IsMoved slabs (fresh_slab id c page) a (far_in_use a u) u

  with_fresh-InUse_back :
      (a : ℕ)
      → InUse (with_fresh page c) (update slabs page (fresh_slab id c page)) a
      → InUse c slabs a
  with_fresh-InUse_back a u = elim (ℕ_discrete (page_floor a) page) [
    | yes near ↦ absurd (
        fresh_slab-unused o
          (InUse-here_back with_fresh-IsMoved slabs (fresh_slab id c page) a near u))
    | no far ↦ InUse-elsewhere_back with_fresh-IsMoved slabs (fresh_slab id c page) a far u
  ]

  alloc_new-IsGrant : c.slabs_free ≡ [] → IsGrant id c slabs (alloc_new id c slabs page)
  alloc_new-IsGrant e =
      let g = alloc_free-IsGrant {rest = c.slabs_free} refl with_fresh-IsCache in
      IsGrant-eq (alloc_new-eq e) (record {
        valid = g.valid;
        was_free = λ u. g.was_free (with_fresh-InUse _ u);
        granted = g.granted;
        kept = λ a u. g.kept a (with_fresh-InUse a u);
        only = λ a u. elim (g.only a u) [
          | inl w ↦ inl (with_fresh-InUse_back a w)
          | inr same ↦ inr same
        ];
      })

-- An allocation that finds no object: nothing changes.
pub record IsRefusal (c : SlabCache) (slabs : ℕ → Slab) (page : ℕ) (r : Result) : Type 0 where
  pub unchanged : r ≡ (0, c, slabs)
  pub no_partial : c.slabs_partial ≡ []
  pub no_free : c.slabs_free ≡ []
  pub no_page : page ≡ 0

alloc_from-IsGrant :
    {id page : ℕ} {c : SlabCache} {slabs : ℕ → Slab}
    → IsCache id c slabs
    → IsNewPage c page
    → (ps fs : List ℕ) → c.slabs_partial ≡ ps
    → c.slabs_free ≡ fs
    → IsRefusal c slabs page (alloc_from id c slabs page ps fs)
      ⊎ IsGrant id c slabs (alloc_from id c slabs page ps fs)
unfolding alloc_from alloc_new
alloc_from-IsGrant o new (p ∷ ps) fs e f = inr (alloc_partial-IsGrant e o)
alloc_from-IsGrant o new [] (p ∷ fs) e f = inr (alloc_free-IsGrant f o)
alloc_from-IsGrant {id} {page} {c} {slabs} o new [] [] e f = elim (ℕ_discrete page 0) [
  | yes null ↦
      inl (record { unchanged = ground (arith, null); no_partial = e; no_free = f; no_page = null })
  | no page_given ↦ inr (alloc_new-IsGrant o page_given new f)
]

-- `slab_alloc` on a well-formed cache returns NULL with nothing changed, only when the cache has no
-- partial and no free slab and the page allocator has no page; else it returns an object that was not
-- in use and is in use now, no other address becomes or ceases to be in use, and the cache stays well
-- formed.
pub alloc-IsGrant :
    {id page : ℕ} {c : SlabCache} {slabs : ℕ → Slab}
    → IsCache id c slabs
    → IsNewPage c page
    → IsRefusal c slabs page (alloc id c slabs page) ⊎ IsGrant id c slabs (alloc id c slabs page)
unfolding alloc
alloc-IsGrant {c = c} o new = alloc_from-IsGrant o new c.slabs_partial c.slabs_free refl refl
