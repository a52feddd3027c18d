-- ===== src/Slab/Steps.antt =====
-- Runs of `slab_alloc` and `slab_free` of kernel/slab.c on one cache, beside the objects that the
-- clients hold.
use emergence_kernel.Slab.Alloc.{IsGrant}
use emergence_kernel.Slab.Grow.{IsNewPage, IsRefusal, alloc-IsGrant}
use emergence_kernel.Slab.Erase.{erase-other, erase_self, erase-le}
use emergence_kernel.Slab.Free.{free-IsRelease, IsRelease}
use emergence_kernel.Slab.Taken.{InUse}
use emergence_kernel.Slab.Cache.{IsCache}
use emergence_kernel.Slab.{free, usable_space, alloc, erase, Result, Slab, SlabCache, cache_create}
use native.Mathlib.Decide.{ℕ_discrete}
use native.Mathlib.Nat.{le-div_iff_mul-le}
use emergence_kernel.Prelude.Counts.{occurrences}
use emergence_kernel.Prelude.{
  refl, sym, ◌/◌, subst, [], ltb, Bool-cases, inr, ==-false, arith, ◌*◌, ◌<◌, inl, pos, ◌∷◌, ◌≢◌,
  ◌≤◌, ◌==◌, ◌≡◌, if◌then◌else◌, List, ℕ,
}

-- The objects held after an allocation: NULL is none.
abbrev pub hold : ℕ → List ℕ → List ℕ
hold obj live = if obj == 0 then live else obj ∷ live

-- The cache is created for objects of at most half the room of a page; then its clients allocate, and
-- free what they hold.
pub data Reachable (id : ℕ) : SlabCache → (ℕ → Slab) → List ℕ → Type 0 where
  created :
      (c c' : SlabCache) (size : ℕ) (slabs : ℕ → Slab)
      → cache_create c size ≡ (pos 0, c')
      → 2 * size ≤ usable_space
      → Reachable id c' slabs []
  allocated :
      (c : SlabCache) (slabs : ℕ → Slab) (live : List ℕ) (page : ℕ)
      → Reachable id c slabs live
      → IsNewPage c page
      → Reachable id
          (alloc id c slabs page).1
          (alloc id c slabs page).2
          (hold (alloc id c slabs page).0 live)
  freed :
      (c : SlabCache) (slabs : ℕ → Slab) (live : List ℕ) (obj : ℕ)
      → Reachable id c slabs live
      → 0 < occurrences obj live
      → Reachable id (free id c slabs obj).0 (free id c slabs obj).1 (erase obj live)

-- The cache is well formed, and what is in use is what the clients hold, each object once.
pub record IsHeld (id : ℕ) (c : SlabCache) (slabs : ℕ → Slab) (live : List ℕ) : Type 0 where
  pub valid : IsCache id c slabs
  pub once : (a : ℕ) → occurrences a live ≤ 1
  pub in_use : (a : ℕ) → 0 < occurrences a live → InUse c slabs a
  pub held : (a : ℕ) → InUse c slabs a → 0 < occurrences a live

-- What `slab_cache_create` makes
abbrev pub empty_cache : ℕ → SlabCache
empty_cache size = record {
  object_size = size;
  objects_per_slab = usable_space / size;
  slabs_full = [];
  slabs_partial = [];
  slabs_free = [];
  total_objects = 0;
  free_objects = 0;
}

created-empty :
    (c c' : SlabCache) (size : ℕ)
    → cache_create c size ≡ (pos 0, c')
    → (0 < size) × (c' ≡ empty_cache size)
unfolding cache_create
created-empty c c' size e = ground (arith, e)

empty-IsHeld :
    (id size : ℕ) (slabs : ℕ → Slab)
    → 0 < size
    → 2 * size ≤ usable_space
    → IsHeld id (empty_cache size) slabs []
unfolding occurrences
empty-IsHeld id size slabs more h = record {
  valid = record {
    positive = more;
    room = refl;
    few = (le-div_iff_mul-le more).1 h;
    placed = λ page. record {
      once = omega arith;
      is_slab = λ w. absurd (omega (arith, w));
      partial = λ w. absurd (omega (arith, w));
      unused = λ w. absurd (omega (arith, w));
    };
  };
  once = λ a. omega arith;
  in_use = λ a w. absurd (omega (arith, w));
  held = λ a u. absurd (omega (arith, u.listed));
}

created-IsHeld :
    (id : ℕ) (c c' : SlabCache) (size : ℕ) (slabs : ℕ → Slab)
    → cache_create c size ≡ (pos 0, c')
    → 2 * size ≤ usable_space
    → IsHeld id c' slabs []
created-IsHeld id c c' size slabs e h =
    let (more, same) = created-empty c c' size e in
    subst (λ (x : SlabCache). IsHeld id x slabs []) (sym same) (empty-IsHeld id size slabs more h)

InUse-not_null : {c : SlabCache} {slabs : ℕ → Slab} {a : ℕ} → InUse c slabs a → a ≢ 0
InUse-not_null u e = omega (arith, u.taken.object.address)

granted-IsHeld :
    {id : ℕ} {c : SlabCache} {slabs : ℕ → Slab} {live : List ℕ} (r : Result)
    → IsHeld id c slabs live
    → IsGrant id c slabs r
    → IsHeld id r.1 r.2 (hold r.0 live)
unfolding occurrences
granted-IsHeld {live = live} r o g = rw (==-false r.0 0 (InUse-not_null g.granted)) (record {
  valid = g.valid;
  once = λ a. elim (Bool-cases (ltb 0 (occurrences a live))) [
    | inl more ↦ elim (Bool-cases (r.0 == a)) [
      | inl same ↦ absurd (g.was_free (o.in_use r.0 (ground (arith, more, same))))
      | inr other ↦ ground (arith, other, o.once a)
    ]
    | inr none_held ↦ ground (arith, none_held)
  ];
  in_use = λ a h. elim (Bool-cases (r.0 == a)) [
    | inl same ↦ subst (λ (x : ℕ). InUse r.1 r.2 x) (ground (arith, same)) g.granted
    | inr other ↦ g.kept a (o.in_use a (ground (arith, other, h)))
  ];
  held = λ a u. elim (g.only a u) [
    | inl before ↦ omega (arith, o.held a before)
    | inr same ↦ ground (arith, same)
  ];
})

released-IsHeld :
    {id obj : ℕ} {c : SlabCache} {slabs : ℕ → Slab} {live : List ℕ} (r : SlabCache × (ℕ → Slab))
    → IsHeld id c slabs live
    → IsRelease id c slabs obj r
    → IsHeld id r.0 r.1 (erase obj live)
released-IsHeld {obj = obj} {live = live} r o g = record {
  valid = g.valid;
  once = λ a. omega (arith, erase-le obj a live, o.once a);
  in_use = λ a h. elim (ℕ_discrete a obj) [
    | yes same ↦ absurd (
        omega (
          arith,
          o.once obj,
          erase_self obj live,
          subst (λ (x : ℕ). 0 < occurrences x (erase obj live)) same h,
        ))
    | no other ↦ g.kept a other (o.in_use a (omega (arith, h, erase-le obj a live)))
  ];
  held = λ a u. elim (ℕ_discrete a obj) [
    | yes same ↦ absurd (g.gone (subst (λ (x : ℕ). InUse r.0 r.1 x) same u))
    | no other ↦ omega (arith, o.held a (g.only a u), erase-other obj a live other)
  ];
}

refused-IsHeld :
    {id page : ℕ} {c : SlabCache} {slabs : ℕ → Slab} {live : List ℕ} (r : Result)
    → IsHeld id c slabs live
    → IsRefusal c slabs page r
    → IsHeld id r.1 r.2 (hold r.0 live)
refused-IsHeld r o f = rw f.unchanged o

-- In every run of allocations and frees on a cache for objects of at most half a page's room the cache
-- is well formed, each object is granted to one client at a time, and the objects in use are the ones
-- that the clients hold.
pub Reachable-IsHeld :
    {id : ℕ} {c : SlabCache} {slabs : ℕ → Slab} {live : List ℕ}
    → Reachable id c slabs live
    → IsHeld id c slabs live
Reachable-IsHeld {id} (created c c' size slabs e h) = created-IsHeld id c c' size slabs e h
Reachable-IsHeld {id} (allocated c slabs live page before new) =
    let o = Reachable-IsHeld before in
    elim (alloc-IsGrant o.valid new) [
      | inl f ↦ refused-IsHeld (alloc id c slabs page) o f
      | inr g ↦ granted-IsHeld (alloc id c slabs page) o g
    ]
Reachable-IsHeld {id} (freed c slabs live obj before h) =
    let o = Reachable-IsHeld before in
    released-IsHeld (free id c slabs obj) o (free-IsRelease o.valid (o.in_use obj h))
