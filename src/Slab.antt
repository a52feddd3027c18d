-- ===== src/Slab.antt =====
-- The slab allocator of kernel/slab.c and kernel/slab.h: caches of objects of one size, each with three
-- lists of slabs of one page. The links of a list are left out: a list is the sequence of what is in it.
-- The lock is left out: an operation is one step.
pub mod Objects
pub mod Cache
pub mod Taken
pub mod Alloc
pub mod Grow
pub mod Erase
pub mod Free
pub mod Steps
pub mod Sizes
pub mod Single
mod Tests
use Prim.Native.Nat.{bit_and}
use emergence_kernel.Prelude.{
  ℕ, zero, suc, ◌+◌, ◌-◌, ◌*◌, ◌/◌, ◌%◌, ◌^◌, Bool, true, false, not, ◌&&◌, ◌||◌, Option, none,
  some, List, [], ◌∷◌, ◌++◌, ltb, leb, ◌==◌, if◌then◌else◌, update, page_size, page_floor, u64_mod,
  add_u64, sub_u64, ℤ, pos, minus_one,
}

-- `slab_t`: its first address names it, as `base_addr` says
pub record Slab : Type 0 where
  pub cache : ℕ
  pub inuse : ℕ
  pub free_list : List ℕ

-- `slab_cache_t`
pub record SlabCache : Type 0 where
  pub object_size : ℕ
  pub objects_per_slab : ℕ
  pub slabs_full : List ℕ
  pub slabs_partial : List ℕ
  pub slabs_free : List ℕ
  pub total_objects : ℕ
  pub free_objects : ℕ

-- `sizeof(slab_t)`, and the offset of its `free_list`
abbrev pub slab_header : ℕ
slab_header = 56

abbrev pub free_list_offset : ℕ
free_list_offset = 40

abbrev pub usable_space : ℕ
usable_space = page_size - slab_header

-- `slab_cache_create`; -1 leaves the cache as it is.
unfoldable pub cache_create : SlabCache → ℕ → ℤ × SlabCache
cache_create cache object_size =
    if (object_size == 0) || ltb page_size object_size
    then (minus_one, cache)
    else if not (bit_and object_size (object_size - 1) == 0)
    then (minus_one, cache)
    else (
      pos 0,
      record {
        object_size = object_size;
        objects_per_slab = usable_space / object_size;
        slabs_full = [];
        slabs_partial = [];
        slabs_free = [];
        total_objects = 0;
        free_objects = 0;
      },
    )

-- The loop of `slab_new` that links the objects behind one another.
unfoldable pub object_list : ℕ → ℕ → ℕ → List ℕ
object_list zero object_size obj = []
object_list (suc n) object_size obj = obj ∷ object_list n object_size (obj + object_size)

-- The slab that `slab_new` makes of a page
unfoldable pub fresh_slab : ℕ → SlabCache → ℕ → Slab
fresh_slab id cache page = record {
  cache = id;
  inuse = 0;
  free_list = object_list (usable_space / cache.object_size) cache.object_size (page + slab_header);
}

-- `list_entry(slab->free_list.next, …)` and `list_remove`: on an empty list the head itself is the
-- entry.
unfoldable pub pop_object : ℕ → List ℕ → ℕ × List ℕ
pop_object page [] = (page + free_list_offset, [])
pop_object page (obj ∷ rest) = (obj, rest)

-- The slab after its first free object is taken
abbrev pub take_object : ℕ → Slab → Slab
take_object page slab = record slab {
  inuse = add_u64 slab.inuse 1;
  free_list = (pop_object page slab.free_list).1;
}

abbrev pub is_empty : List ℕ → Bool
is_empty [] = true
is_empty (x ∷ xs) = false

-- What an allocation returns: the object, the cache and the slabs.
abbrev pub Result : Type 0
Result = ℕ × SlabCache × (ℕ → Slab)

abbrev pub one_less_free : SlabCache → SlabCache
one_less_free cache = record cache { free_objects = sub_u64 cache.free_objects 1 }

-- The first partial slab: it goes to the full ones when its last object is taken.
unfoldable pub alloc_partial : SlabCache → (ℕ → Slab) → ℕ → List ℕ → Result
alloc_partial cache slabs page rest =
    let slab = take_object page (slabs page) in
    let cache' = one_less_free cache in
    (
      (pop_object page (slabs page).free_list).0,
      (if is_empty slab.free_list
          then record cache' { slabs_full = page ∷ cache.slabs_full; slabs_partial = rest }
          else cache'),
      update slabs page slab,
    )

-- The first free slab, which becomes a partial one
unfoldable pub alloc_free : SlabCache → (ℕ → Slab) → ℕ → List ℕ → Result
alloc_free cache slabs page rest = (
  (pop_object page (slabs page).free_list).0,
  record (one_less_free cache) { slabs_partial = page ∷ cache.slabs_partial; slabs_free = rest },
  update slabs page (take_object page (slabs page)),
)

-- The counts of `slab_new`
abbrev pub add_objects : SlabCache → SlabCache
add_objects cache = record cache {
  total_objects = add_u64 cache.total_objects (usable_space / cache.object_size);
  free_objects = add_u64 cache.free_objects (usable_space / cache.object_size);
}

-- A new slab of the page that the page allocator gives; 0 is NULL.
unfoldable pub alloc_new : ℕ → SlabCache → (ℕ → Slab) → ℕ → Result
alloc_new id cache slabs page =
    let slab = fresh_slab id cache page in
    if page == 0 then (0, cache, slabs) else (
      (pop_object page slab.free_list).0,
      record (one_less_free (add_objects cache)) { slabs_partial = page ∷ cache.slabs_partial },
      update slabs page (take_object page slab),
    )

unfoldable pub alloc_from : ℕ → SlabCache → (ℕ → Slab) → ℕ → List ℕ → List ℕ → Result
alloc_from id cache slabs page (p ∷ rest) free_slabs = alloc_partial cache slabs p rest
alloc_from id cache slabs page [] (p ∷ rest) = alloc_free cache slabs p rest
alloc_from id cache slabs page [] [] = alloc_new id cache slabs page

-- `slab_alloc` of a cache that is not NULL, with the page allocator's answer
unfoldable pub alloc : ℕ → SlabCache → (ℕ → Slab) → ℕ → Result
alloc id cache slabs page = alloc_from id cache slabs page cache.slabs_partial cache.slabs_free

unfoldable pub erase : ℕ → List ℕ → List ℕ
erase page [] = []
erase page (x ∷ xs) = if x == page then xs else x ∷ erase page xs

-- `list_remove(&slab->list)`: a slab is in one list at most
abbrev pub unlink : ℕ → SlabCache → SlabCache
unlink page cache = record cache {
  slabs_full = erase page cache.slabs_full;
  slabs_partial = erase page cache.slabs_partial;
  slabs_free = erase page cache.slabs_free;
}

-- The slab is the last of the list.
unfoldable pub is_last : ℕ → List ℕ → Bool
is_last page [] = false
is_last page (x ∷ []) = x == page
is_last page (x ∷ y ∷ rest) = is_last page (y ∷ rest)

-- The slab is the first of the list.
abbrev pub is_first : ℕ → List ℕ → Bool
is_first page [] = false
is_first page (x ∷ rest) = x == page

-- `was_full`: the slab's next or previous link is the head of the full list.
abbrev pub was_full : ℕ → SlabCache → Bool
was_full page cache = is_last page cache.slabs_full || is_first page cache.slabs_full

-- The slab with the object back at the front of its free list
abbrev pub put_object : ℕ → Slab → Slab
put_object obj slab = record slab { inuse = sub_u64 slab.inuse 1; free_list = obj ∷ slab.free_list }

-- Where the slab goes after an object came back
unfoldable pub move_slab : ℕ → Slab → SlabCache → SlabCache
move_slab page slab cache =
    if was_full page cache
    then record (unlink page cache) { slabs_partial = page ∷ (unlink page cache).slabs_partial }
    else if slab.inuse == 0
    then record (unlink page cache) { slabs_free = page ∷ (unlink page cache).slabs_free }
    else cache

-- `slab_free`; an object of another cache, and NULL, change nothing.
unfoldable pub free : ℕ → SlabCache → (ℕ → Slab) → ℕ → SlabCache × (ℕ → Slab)
free id cache slabs obj =
    let page = page_floor obj in
    let slab = put_object obj (slabs page) in
    if (obj == 0) || not ((slabs page).cache == id) then (cache, slabs) else (
      move_slab page slab (record cache { free_objects = add_u64 cache.free_objects 1 }),
      update slabs page slab,
    )
