-- ===== src/Slab/Single.antt =====
-- Caches of kernel/slab.c with one object in a slab, which is what 2048 bytes leave room for.
use emergence_kernel.Slab.{
  free_list_offset, slab_header, usable_space, Slab, SlabCache, alloc, alloc_from, alloc_new,
  alloc_partial, fresh_slab, object_list, pop_object,
}
use emergence_kernel.Prelude.{
  List, ==-refl, ap, refl, ◌∙◌, ==-false, ◌∷◌, ◌+◌, ◌≢◌, [], ◌≡◌, ◌/◌, ℕ,
}

alloc_nothing_listed :
    (id page : ℕ) (c : SlabCache) (slabs : ℕ → Slab)
    → c.slabs_partial ≡ []
    → c.slabs_free ≡ []
    → alloc id c slabs page ≡ alloc_new id c slabs page
unfolding alloc alloc_from
alloc_nothing_listed id page c slabs e f = λ i. alloc_from id c slabs page (e i) (f i)

alloc_one_listed :
    (id next page : ℕ) (c : SlabCache) (slabs : ℕ → Slab)
    → c.slabs_partial ≡ page ∷ []
    → (slabs page).free_list ≡ []
    → (alloc id c slabs next).0 ≡ page + free_list_offset
unfolding alloc alloc_from alloc_partial pop_object
alloc_one_listed id next page c slabs e f =
    (λ i. (alloc_from id c slabs next (e i) c.slabs_free).0) ∙ (λ i. (pop_object page (f i)).0)

module _ (id page : ℕ) (c : SlabCache) (slabs : ℕ → Slab) (one : usable_space / c.object_size ≡ 1)
    (h : page ≢ 0) where
  new-object : (alloc_new id c slabs page).0 ≡ page + slab_header
  unfolding alloc_new fresh_slab object_list pop_object
  new-object = rw (==-false page 0 h, one) refl

  new-listed : c.slabs_partial ≡ [] → (alloc_new id c slabs page).1.slabs_partial ≡ page ∷ []
  unfolding alloc_new
  new-listed e = rw (==-false page 0 h) (ap (λ (l : List ℕ). page ∷ l) e)

  new-empty : ((alloc_new id c slabs page).2 page).free_list ≡ []
  unfolding alloc_new fresh_slab object_list pop_object
  new-empty = rw (==-false page 0 h, ==-refl page, one) refl

-- The only object of the first slab is taken, yet the slab goes to the partial ones: the next
-- allocation returns an address inside the header of the slab.
pub alloc-header :
    (id page next : ℕ) (c : SlabCache) (slabs : ℕ → Slab)
    → usable_space / c.object_size ≡ 1
    → c.slabs_partial ≡ []
    → c.slabs_free ≡ []
    → page ≢ 0
    → let first = alloc id c slabs page in
      let second = alloc id first.1 first.2 next in
      (first.0 ≡ page + slab_header) × (second.0 ≡ page + free_list_offset)
alloc-header id page next c slabs one e f h = rw (alloc_nothing_listed id page c slabs e f) (
  new-object id page c slabs one h,
  alloc_one_listed id next page (alloc_new id c slabs page).1 (alloc_new id c slabs page).2
      (new-listed id page c slabs one h e) (new-empty id page c slabs one h),
)
