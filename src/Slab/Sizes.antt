-- ===== src/Slab/Sizes.antt =====
-- The caches of kernel/slab.c for the powers of two from 32 to 4096, and allocation by size.
use emergence_kernel.Slab.{alloc, free, Slab, SlabCache, cache_create}
use native.Mathlib.Decide.{dec_le}
use emergence_kernel.Slab.Steps.{empty_cache}
use emergence_kernel.Prelude.{
  sym, ◌∙◌, ap, inr, refl, arith, inl, ◌^◌, ◌*◌, minus_one, update, ◌<◌, ◌||◌, [], leb, negsuc, pos,
  suc, ◌==◌, ◌⊎◌, if◌then◌else◌, ◌∷◌, ◌≡◌, ◌≤◌, List, ℤ, ℕ,
}

-- `cache_sizes`
abbrev pub cache_sizes : List ℕ
cache_sizes = 32 ∷ 64 ∷ 128 ∷ 256 ∷ 512 ∷ 1024 ∷ 2048 ∷ 4096 ∷ []

unfoldable pub size_to_cache_index : ℕ → ℤ
size_to_cache_index size =
    if leb size 32
    then pos 0
    else if leb size 64
    then pos 1
    else if leb size 128
    then pos 2
    else if leb size 256
    then pos 3
    else if leb size 512
    then pos 4
    else if leb size 1024
    then pos 5
    else if leb size 2048
    then pos 6
    else if leb size 4096
    then pos 7
    else minus_one

-- The loop of `slab_init` from an index on
unfoldable pub init_caches : ℕ → List ℕ → (ℕ → SlabCache) → ℕ → SlabCache
init_caches i [] caches = caches
init_caches i (size ∷ sizes) caches =
    init_caches (suc i) sizes (update caches i (cache_create (caches i) size).1)

unfoldable pub slab_init : (ℕ → SlabCache) → ℕ → SlabCache
slab_init caches = init_caches 0 cache_sizes caches

-- What an allocation by size returns: the object, the caches and the slabs.
abbrev pub SizeResult : Type 0
SizeResult = ℕ × (ℕ → SlabCache) × (ℕ → Slab)

-- An allocation of the cache of an index, negative ones excepted
unfoldable pub alloc_at : ℤ → (ℕ → SlabCache) → (ℕ → Slab) → ℕ → SizeResult
alloc_at (negsuc n) caches slabs page = (0, caches, slabs)
alloc_at (pos i) caches slabs page =
    let r = alloc i (caches i) slabs page in (r.0, update caches i r.1, r.2)

-- `slab_alloc_size`
unfoldable pub alloc_size : (ℕ → SlabCache) → (ℕ → Slab) → ℕ → ℕ → SizeResult
alloc_size caches slabs size page =
    if size == 0 then (0, caches, slabs) else alloc_at (size_to_cache_index size) caches slabs page

unfoldable pub free_at : ℤ → (ℕ → SlabCache) → (ℕ → Slab) → ℕ → (ℕ → SlabCache) × (ℕ → Slab)
free_at (negsuc n) caches slabs obj = (caches, slabs)
free_at (pos i) caches slabs obj = let r = free i (caches i) slabs obj in (update caches i r.0, r.1)

-- `slab_free_size`
unfoldable pub free_size : (ℕ → SlabCache) → (ℕ → Slab) → ℕ → ℕ → (ℕ → SlabCache) × (ℕ → Slab)
free_size caches slabs obj size =
    if (obj == 0) || (size == 0)
    then (caches, slabs)
    else free_at (size_to_cache_index size) caches slabs obj

-- The index of the cache that serves a size, with the size of its objects: the least power of two from
-- 32 on that holds it.
pub record IsIndex (caches : ℕ → SlabCache) (size i : ℕ) : Type 0 where
  pub index : size_to_cache_index size ≡ pos i
  pub fits : size ≤ (caches i).object_size
  pub least : 32 < size → (caches i).object_size < 2 * size
  pub empty : caches i ≡ empty_cache (caches i).object_size
  pub power : (caches i).object_size ≡ 32 * 2 ^ i

module _ (caches : ℕ → SlabCache) (size : ℕ) where
  made_for :
      (i room : ℕ)
      → slab_init caches i ≡ empty_cache room
      → size_to_cache_index size ≡ pos i
      → size ≤ room
      → (32 < size → room < 2 * size)
      → room ≡ 32 * 2 ^ i
      → IsIndex (slab_init caches) size i
  made_for i room made e h least power = record {
    index = e;
    fits = omega (arith, ap (λ (c : SlabCache). c.object_size) made, h);
    least = λ w. omega (arith, ap (λ (c : SlabCache). c.object_size) made, least w);
    empty = made ∙ ap empty_cache (sym (ap (λ (c : SlabCache). c.object_size) made));
    power = ap (λ (c : SlabCache). c.object_size) made ∙ power;
  }

  upto_256 : size ≤ 256 → (i : ℕ) × IsIndex (slab_init caches) size i
  unfolding slab_init init_caches cache_create size_to_cache_index
  upto_256 h = elim (dec_le size 32) [
    | yes a ↦ (0, made_for 0 32 refl (ground (arith, a)) a (λ w. omega (arith, a, w)) refl)
    | no a ↦ elim (dec_le size 64) [
      | yes b ↦ (1, made_for 1 64 refl (ground (arith, a, b)) b (λ w. omega (arith, a, w)) refl)
      | no b ↦ elim (dec_le size 128) [
        | yes c ↦ (2, made_for 2 128 refl (ground (arith, b, c)) c (λ w. omega (arith, b, w)) refl)
        | no c ↦ (3, made_for 3 256 refl (ground (arith, c, h)) h (λ w. omega (arith, c, w)) refl)
      ]
    ]
  ]

  upto_4096 : 256 < size → size ≤ 4096 → (i : ℕ) × IsIndex (slab_init caches) size i
  unfolding slab_init init_caches cache_create size_to_cache_index
  upto_4096 more h = elim (dec_le size 512) [
    | yes a ↦
        (4, made_for 4 512 refl (ground (arith, more, a)) a (λ w. omega (arith, more, w)) refl)
    | no a ↦ elim (dec_le size 1024) [
      | yes b ↦ (5, made_for 5 1024 refl (ground (arith, a, b)) b (λ w. omega (arith, a, w)) refl)
      | no b ↦ elim (dec_le size 2048) [
        | yes c ↦ (6, made_for 6 2048 refl (ground (arith, b, c)) c (λ w. omega (arith, b, w)) refl)
        | no c ↦ (7, made_for 7 4096 refl (ground (arith, c, h)) h (λ w. omega (arith, c, w)) refl)
      ]
    ]
  ]

  too_large : 4096 < size → size_to_cache_index size ≡ minus_one
  unfolding size_to_cache_index
  too_large h = ground (arith, h)

-- After `slab_init` each size up to 4096 has a cache: an empty one, of the least power of two from 32
-- on that holds the size. A greater size has none.
pub slab_init-IsIndex :
    (caches : ℕ → SlabCache) (size : ℕ)
    → ((size ≤ 4096) × (i : ℕ) × IsIndex (slab_init caches) size i)
      ⊎ ((4096 < size) × (size_to_cache_index size ≡ minus_one))
slab_init-IsIndex caches size = elim (dec_le size 4096) [
  | yes h ↦ elim (dec_le size 256) [
    | yes small ↦ let (i, at) = upto_256 caches size small in inl (h, i, at)
    | no more ↦ let (i, at) = upto_4096 caches size (omega (arith, more)) h in inl (h, i, at)
  ]
  | no h ↦ inr (omega (arith, h), too_large caches size (omega (arith, h)))
]
