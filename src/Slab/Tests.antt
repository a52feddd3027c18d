-- ===== src/Slab/Tests.antt =====
-- Tests and examples of the slab allocator of kernel/slab.c.
use emergence_kernel.Prelude.Counts.{occurrences}
use emergence_kernel.Slab.Single.{alloc-header}
use emergence_kernel.Slab.Free.{free-IsRelease, IsRelease}
use emergence_kernel.Slab.Grow.{IsNewPage}
use emergence_kernel.Slab.Steps.{
  freed, allocated, Reachable-IsHeld, created, hold, IsHeld, Reachable, empty_cache,
}
use emergence_kernel.Slab.Sizes.{
  slab_init-IsIndex, IsIndex, init_caches, slab_init, alloc_at, alloc_size, size_to_cache_index,
}
use emergence_kernel.Slab.{
  erase, pop_object, object_list, fresh_slab, alloc_new, alloc_from, alloc, free, is_last, Slab,
  SlabCache, cache_create, move_slab,
}
use emergence_kernel.Prelude.{minus_one, ◌<◌, ◌⊎◌, List, ◌≤◌, arith, pos, refl, ◌∷◌, [], ◌≡◌, ℕ}

-- A cache of 512 bytes, with seven objects in a slab
abbrev objects_512 : SlabCache
objects_512 = empty_cache 512

-- A cache of 2048 bytes
abbrev objects_2048 : SlabCache
objects_2048 = empty_cache 2048

no_slabs : ℕ → Slab
no_slabs page = record { cache = 99; inuse = 0; free_list = [] }

-- The page that the page allocator gives
abbrev new_page : ℕ
new_page = 0x10000

first_object : (alloc 3 objects_512 no_slabs new_page).0 ≡ 0x10038
unfolding alloc alloc_from alloc_new fresh_slab object_list pop_object
first_object = refl

no_memory : alloc 3 objects_512 no_slabs 0 ≡ (0, objects_512, no_slabs)
unfolding alloc alloc_from alloc_new
no_memory = refl

-- Another cache's object changes nothing.
wrong_cache : free 3 objects_512 no_slabs 0x10038 ≡ (objects_512, no_slabs)
unfolding free no_slabs
wrong_cache = refl

-- The middle one of three full slabs stays with the full ones when an object comes back.
middle_of_full :
    (move_slab 8192
      (record { cache = 3; inuse = 6; free_list = 8248 ∷ [] })
      (record objects_512 { slabs_full = 4096 ∷ 8192 ∷ 12288 ∷ [] })).slabs_full
    ≡ 4096 ∷ 8192 ∷ 12288 ∷ []
unfolding move_slab is_last
middle_of_full = refl

size_33 : size_to_cache_index 33 ≡ pos 1
unfolding size_to_cache_index
size_33 = refl

alloc_100 : (alloc_size (slab_init (λ (i : ℕ). objects_512)) no_slabs 100 new_page).0 ≡ 0x10038
unfolding alloc_size alloc_at size_to_cache_index slab_init init_caches cache_create alloc
    alloc_from alloc_new fresh_slab object_list pop_object
alloc_100 = refl

created_512 : Reachable 3 objects_512 no_slabs []
unfolding cache_create
created_512 = created objects_2048 objects_512 512 no_slabs refl (omega arith)

objects_512-IsNewPage : IsNewPage objects_512 new_page
unfolding occurrences
objects_512-IsNewPage = record { aligned = refl; unlisted = refl }

abbrev first_cache : SlabCache
first_cache = (alloc 3 objects_512 no_slabs new_page).1

abbrev first_slabs : ℕ → Slab
first_slabs = (alloc 3 objects_512 no_slabs new_page).2

abbrev first_held : List ℕ
first_held = hold (alloc 3 objects_512 no_slabs new_page).0 []

-- One allocation, whose object its client holds
one_held : Reachable 3 first_cache first_slabs first_held
one_held = allocated objects_512 no_slabs [] new_page created_512 objects_512-IsNewPage

first_is_held : 0 < occurrences 0x10038 first_held
unfolding occurrences alloc alloc_from alloc_new fresh_slab object_list pop_object
first_is_held = omega arith

-- It is freed.
none_held :
    Reachable 3
      (free 3 first_cache first_slabs 0x10038).0
      (free 3 first_cache first_slabs 0x10038).1
      (erase 0x10038 first_held)
none_held = freed first_cache first_slabs first_held 0x10038 one_held first_is_held

Reachable-IsHeld_example :
    IsHeld 3
      (free 3 first_cache first_slabs 0x10038).0
      (free 3 first_cache first_slabs 0x10038).1
      (erase 0x10038 first_held)
Reachable-IsHeld_example = Reachable-IsHeld none_held

first_IsHeld : IsHeld 3 first_cache first_slabs first_held
first_IsHeld = Reachable-IsHeld one_held

free-IsRelease_example :
    IsRelease 3 first_cache first_slabs 0x10038 (free 3 first_cache first_slabs 0x10038)
free-IsRelease_example =
    free-IsRelease first_IsHeld.valid (first_IsHeld.in_use 0x10038 first_is_held)

slab_init-IsIndex_example :
    ((100 ≤ 4096) × (i : ℕ) × IsIndex (slab_init (λ (j : ℕ). objects_512)) 100 i)
    ⊎ ((4096 < 100) × (size_to_cache_index 100 ≡ minus_one))
slab_init-IsIndex_example = slab_init-IsIndex (λ (j : ℕ). objects_512) 100

alloc-header_example :
    let first = alloc 6 objects_2048 no_slabs new_page in
    let second = alloc 6 first.1 first.2 0x20000 in (first.0 ≡ 0x10038) × (second.0 ≡ 0x10028)
alloc-header_example =
    alloc-header 6 new_page 0x20000 objects_2048 no_slabs refl refl refl (λ e. omega (arith, e))
