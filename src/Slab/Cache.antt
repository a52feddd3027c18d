-- ===== src/Slab/Cache.antt =====
-- Caches of kernel/slab.c that are well formed, and what keeps them so when one slab changes.
use emergence_kernel.Prelude.{
  if◌then◌else◌, sym, Bool, subst, ℕ, ◌+◌, ◌/◌, ◌%◌, ◌≡◌, ◌≢◌, ◌≤◌, ◌<◌, arith, Bool-cases, inl,
  inr, ◌==◌, length, update, page_size, refl, true, false, List, ◌∷◌,
}
use emergence_kernel.Prelude.Counts.{occurrences}
use emergence_kernel.Slab.{
  take_object, pop_object, put_object, Slab, SlabCache, slab_header, usable_space,
}
use emergence_kernel.Slab.Objects.{IsObject}

-- In how many places of the three lists a slab stands
abbrev pub places : ℕ → SlabCache → ℕ
places page c =
    occurrences page c.slabs_full + occurrences page c.slabs_partial + occurrences page c.slabs_free

-- A slab of a cache whose slabs have n objects of a size.
pub record IsSlab (id size n : ℕ) (slab : Slab) (page : ℕ) : Type 0 where
  pub aligned : page % page_size ≡ 0
  pub not_null : page ≢ 0
  pub owner : slab.cache ≡ id
  pub counted : slab.inuse + length slab.free_list ≡ n
  pub distinct : (a : ℕ) → occurrences a slab.free_list ≤ 1
  pub objects : (a : ℕ) → 0 < occurrences a slab.free_list → IsObject (page + slab_header) size n a

-- A page stands in one list at most. Where it stands in one it holds a slab: one with a free object
-- where the list is the partial one, one with no object in use where it is the free one.
pub record IsPlaced (id size n : ℕ) (c : SlabCache) (slab : Slab) (page : ℕ) : Type 0 where
  pub once : places page c ≤ 1
  pub is_slab : 0 < places page c → IsSlab id size n slab page
  pub partial : 0 < occurrences page c.slabs_partial → 0 < length slab.free_list
  pub unused : 0 < occurrences page c.slabs_free → slab.inuse ≡ 0

-- A cache with two objects in a slab at least, each slab of which is in its place.
pub record IsCache (id : ℕ) (c : SlabCache) (slabs : ℕ → Slab) : Type 0 where
  pub positive : 0 < c.object_size
  pub room : c.objects_per_slab ≡ usable_space / c.object_size
  pub few : 2 ≤ c.objects_per_slab
  pub placed : (page : ℕ) → IsPlaced id c.object_size c.objects_per_slab c (slabs page) page

-- Two caches of one size whose lists agree on every page but one.
pub record IsMoved (page : ℕ) (c c' : SlabCache) : Type 0 where
  pub same_size : c'.object_size ≡ c.object_size
  pub same_objects : c'.objects_per_slab ≡ c.objects_per_slab
  pub full : (q : ℕ) → q ≢ page → occurrences q c'.slabs_full ≡ occurrences q c.slabs_full
  pub partial : (q : ℕ) → q ≢ page → occurrences q c'.slabs_partial ≡ occurrences q c.slabs_partial
  pub free : (q : ℕ) → q ≢ page → occurrences q c'.slabs_free ≡ occurrences q c.slabs_free

pub IsPlaced-move :
    {id size n page q : ℕ} {c c' : SlabCache} {slab : Slab}
    → IsMoved page c c'
    → q ≢ page
    → IsPlaced id size n c slab q
    → IsPlaced id size n c' slab q
IsPlaced-move {q = q} m h o = record {
  once = omega (arith, m.full q h, m.partial q h, m.free q h, o.once);
  is_slab = λ w. o.is_slab (omega (arith, m.full q h, m.partial q h, m.free q h, w));
  partial = λ w. o.partial (omega (arith, m.partial q h, w));
  unused = λ w. o.unused (omega (arith, m.free q h, w));
}

IsPlaced-pick :
    {id size n q : ℕ} {c : SlabCache} {slab slab' : Slab} (b : Bool)
    → (b ≡ true → IsPlaced id size n c slab q)
    → (b ≡ false → IsPlaced id size n c slab' q)
    → IsPlaced id size n c (if b then slab else slab') q
IsPlaced-pick true same other = same refl
IsPlaced-pick false same other = other refl

IsPlaced-size :
    {id size size' n n' q : ℕ} {c : SlabCache} {slab : Slab}
    → size' ≡ size
    → n' ≡ n
    → IsPlaced id size n c slab q
    → IsPlaced id size' n' c slab q
IsPlaced-size {id} {size} {size'} {n} {n'} {q} {c} {slab} e f o =
    subst (λ (s : ℕ). IsPlaced id s n' c slab q) (sym e)
      (subst (λ (k : ℕ). IsPlaced id size k c slab q) (sym f) o)

-- The slab of one page changes, and where it stands.
pub IsCache-move :
    {id page : ℕ} {c c' : SlabCache} {slabs : ℕ → Slab} {slab : Slab}
    → IsCache id c slabs
    → IsMoved page c c'
    → IsPlaced id c.object_size c.objects_per_slab c' slab page
    → IsCache id c' (update slabs page slab)
IsCache-move {id} {page} {c} {c'} {slabs} {slab} o m here = record {
  positive = omega (arith, m.same_size, o.positive);
  room = cc (m.same_size, m.same_objects, o.room);
  few = omega (arith, m.same_objects, o.few);
  placed = λ q. IsPlaced-size m.same_size m.same_objects (
      IsPlaced-pick (page == q)
        (λ same.
          subst (λ (p : ℕ). IsPlaced id c.object_size c.objects_per_slab c' slab p)
            (ground (arith, same)) here)
        (λ other. IsPlaced-move m (ground (arith, other)) (o.placed q)));
}

-- Slabs of a cache with n objects of a size, in the room behind the header of a page
module _ {id size n page : ℕ} {slab : Slab} (small : n ≤ usable_space) where
  -- The first free object is taken.
  pub IsSlab-take :
      {obj : ℕ} {rest : List ℕ}
      → slab.free_list ≡ obj ∷ rest
      → IsSlab id size n slab page
      → IsSlab id size n (take_object page slab) page
  unfolding pop_object occurrences
  IsSlab-take {obj} {rest} e o = record {
    aligned = o.aligned;
    not_null = o.not_null;
    owner = o.owner;
    counted = ground (arith, e, o.counted, small);
    distinct =
        λ a. rw e (ground (arith, subst (λ (l : List ℕ). occurrences a l ≤ 1) e (o.distinct a)));
    objects = λ a. rw e (λ h. o.objects a (rw e (ground (arith, h))));
  }

  -- An object comes back that is none of the free ones.
  pub IsSlab-put :
      {obj : ℕ}
      → 0 < slab.inuse
      → occurrences obj slab.free_list ≡ 0
      → IsObject (page + slab_header) size n obj
      → IsSlab id size n slab page
      → IsSlab id size n (put_object obj slab) page
  unfolding occurrences
  IsSlab-put {obj} used new at o = record {
    aligned = o.aligned;
    not_null = o.not_null;
    owner = o.owner;
    counted = ground (arith, o.counted, used, small);
    distinct = λ a. ground (arith, o.distinct a, new);
    objects = λ a h. elim (Bool-cases (obj == a)) [
      | inl same ↦
          subst (λ (x : ℕ). IsObject (page + slab_header) size n x) (ground (arith, same)) at
      | inr other ↦ o.objects a (ground (arith, other, h))
    ];
  }
