-- ===== src/Vm/Tests.antt =====
-- Tests and examples of the address spaces of kernel/vm.c.
use emergence_kernel.Vm.Find.{find_region-map_region, unmap_region-map_region}
use emergence_kernel.Vm.Clone.{clone-IsSameUse, IsSameUse}
use emergence_kernel.Vm.{
  clone_regions, create, new_region, unmap_region, clone_created, find_in, new_space, Vm, clone,
  exact_in, find_region, map_region, perm_of,
}
use emergence_kernel.Prelude.Counts.{occurrences}
use emergence_kernel.Prelude.{
  ltb, ◌&&◌, arith, leb, ◌==◌, ◌∷◌, if◌then◌else◌, negsuc, pos, ◌+◌, [], add_u64, none, refl, ◌^◌,
  List, ◌≡◌, ℕ,
}

abbrev nothing_mapped : Vm
nothing_mapped = record {
  spaces = λ i. new_space 0x5000;
  regions = λ i. new_region 0 0 0 0 0 none;
  tables = λ page i. 0;
  live_spaces = 0x1000 ∷ [];
  live_regions = [];
  live_pages = 0x5000 ∷ [];
}

-- One region of two pages
abbrev one_mapped : Vm
one_mapped = (map_region nothing_mapped 0x1000 0x400000 0x8000 0x2000 7 1 none 0x2038).1

misaligned :
    map_region nothing_mapped 0x1000 0x400001 0x8000 0x2000 7 1 none 0x2038
    ≡ (negsuc 21, nothing_mapped)
unfolding map_region
misaligned = refl

found : find_region one_mapped 0x1000 0x401fff ≡ 0x2038
unfolding map_region find_region find_in
found = refl

behind : find_region one_mapped 0x1000 0x402000 ≡ 0
unfolding map_region find_region find_in
behind = refl

perm_nx : perm_of (2 ^ 63 + 2) ≡ 3
unfolding perm_of
perm_nx = refl

one_map : (map_region nothing_mapped 0x1000 0x400000 0x8000 0x2000 7 1 none 0x2038).0 ≡ pos 0
unfolding map_region
one_map = refl

no_regions : (a : ℕ) → occurrences a (nothing_mapped.spaces 0x1000).regions ≡ 0
unfolding occurrences
no_regions a = refl

find_region-map_region_example :
    find_region
      (map_region nothing_mapped 0x1000 0x400000 0x8000 0x2000 7 1 none 0x2038).1
      0x1000
      0x401000
    ≡ (if find_region nothing_mapped 0x1000 0x401000 == 0
        then (if leb 0x400000 0x401000 && ltb 0x401000 (0x400000 + 0x2000) then 0x2038 else 0)
        else find_region nothing_mapped 0x1000 0x401000)
find_region-map_region_example =
    find_region-map_region nothing_mapped 0x1000 0x400000 0x8000 0x2000 7 1 none 0x2038 0x401000
      one_map (omega arith) (no_regions 0x2038) (no_regions 0)

none_exact :
    exact_in nothing_mapped.regions
      (nothing_mapped.spaces 0x1000).regions
      0x400000
      (add_u64 0x400000 0x2000)
    ≡ 0
unfolding exact_in
none_exact = refl

unmap_region-map_region_example :
    let mapped = (map_region nothing_mapped 0x1000 0x400000 0x8000 0x2000 7 1 none 0x2038).1 in
    let r = unmap_region mapped 0x1000 0x400000 0x2000 in
    (r.0 ≡ pos 0)
    × ((r.1.spaces 0x1000).regions ≡ (nothing_mapped.spaces 0x1000).regions)
    × ((r.1.spaces 0x1000).region_count ≡ (nothing_mapped.spaces 0x1000).region_count)
    × (r.1.live_regions ≡ nothing_mapped.live_regions)
unmap_region-map_region_example =
    unmap_region-map_region nothing_mapped 0x1000 0x400000 0x8000 0x2000 7 1 none 0x2038
      (λ e. omega (arith, e)) one_map none_exact (no_regions 0x2038) (no_regions 0)

-- The region of the clone gets no object.
abbrev refused_objs : List ℕ
refused_objs = []

refused : (clone (λ i. 0) one_mapped 0x1000 0x1040 0x6000 refused_objs).0 ≡ 0
unfolding clone clone_created create clone_regions map_region
refused = refl

clone-IsSameUse_example :
    IsSameUse one_mapped (clone (λ i. 0) one_mapped 0x1000 0x1040 0x6000 refused_objs).1
clone-IsSameUse_example =
    clone-IsSameUse (λ i. 0) one_mapped 0x1000 0x1040 0x6000 refused_objs refused
