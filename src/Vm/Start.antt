-- ===== src/Vm/Start.antt =====
-- The start of kernel/vm.c.
use emergence_kernel.Slab.{SlabCache, cache_create}
use emergence_kernel.Prelude.{refl, ◌≡◌}
use emergence_kernel.Vm.{vm_init}

-- `vm_init` makes the cache of address spaces, of 63 objects a slab, but leaves the cache of regions as
-- it was, whatever that was: the size of a region is no power of two.
vm_init-no_regions :
    (spaces regions : SlabCache)
    → ((vm_init spaces regions).0.object_size ≡ 64)
      × ((vm_init spaces regions).0.objects_per_slab ≡ 63)
      × ((vm_init spaces regions).1 ≡ regions)
unfolding vm_init cache_create
vm_init-no_regions spaces regions = (refl, refl, refl)
