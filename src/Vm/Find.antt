-- ===== src/Vm/Find.antt =====
-- Mapping, finding and unmapping regions in kernel/vm.c.
use emergence_kernel.Prelude.Counts.{occurrences}
use emergence_kernel.Slab.{erase}
use emergence_kernel.Prelude.{
  ◌∙◌, ltb, leb, u64_mod, ==-false, true, ◌<◌, Bool, add_u64, ◌&&◌, ◌+◌, ap, refl, arith, false,
  ◌≢◌, page_size, ◌==◌, ==-refl, if◌then◌else◌, ◌%◌, [], ◌∷◌, pos, update, ◌++◌, Option, ◌≡◌, List,
  ℕ,
}
use emergence_kernel.Vm.{
  AddressSpace, covers, new_region, add_region, Region, Vm, map_region, find_region, unmap_region,
  find_in, exact_in, remove_found,
}

-- What `vm_map_region` does when it returns 0.
map_region-mapped :
    (vm : Vm) (space start phys size flags kind : ℕ) (name : Option (List ℕ)) (obj : ℕ)
    → (map_region vm space start phys size flags kind name obj).0 ≡ pos 0
    → map_region vm space start phys size flags kind name obj
      ≡ (pos 0, add_region vm space obj (new_region start phys size flags kind name))
unfolding map_region
map_region-mapped vm space start phys size flags kind name obj e = ground (arith, e)

map_region-aligned :
    (vm : Vm) (space start phys size flags kind : ℕ) (name : Option (List ℕ)) (obj : ℕ)
    → (map_region vm space start phys size flags kind name obj).0 ≡ pos 0
    → (start % page_size ≡ 0) × (size % page_size ≡ 0) × (obj ≢ 0)
unfolding map_region
map_region-aligned vm space start phys size flags kind name obj e = ground (arith, e)

pick_other :
    (b : Bool) (r found x : ℕ)
    → r ≢ 0
    → (if b then r else (if found == 0 then x else found))
      ≡ (if (if b then r else found) == 0 then x else (if b then r else found))
pick_other true r found x h = rw (==-false r 0 h) refl
pick_other false r found x h = refl

none_found :
    (b : Bool) (r found : ℕ) → r ≢ 0 → (if b then r else found) ≡ 0 → (b ≡ false) × (found ≡ 0)
none_found true r found h e = absurd (h e)
none_found false r found h e = (refl, e)

-- A region elsewhere changes nothing in a list, nor does one behind it.
find_in-update :
    (regions : ℕ → Region) (rs : List ℕ) (obj addr : ℕ) (region : Region)
    → occurrences obj rs ≡ 0
    → occurrences 0 rs ≡ 0
    → find_in (update regions obj region) (rs ++ (obj ∷ [])) addr ≡ (
        if find_in regions rs addr == 0
        then (if covers region addr then obj else 0)
        else find_in regions rs addr)
unfolding find_in occurrences
find_in-update regions [] obj addr region h k = rw (==-refl obj) refl
find_in-update regions (r ∷ rs) obj addr region h k =
    let other : (obj == r) ≡ false = ground (arith, h) in
    let ih = find_in-update regions rs obj addr region (ground (arith, h)) (ground (arith, k)) in
    rw (other, ih)
      (pick_other (covers (regions r) addr) r (find_in regions rs addr)
        (if covers region addr then obj else 0) (ground (arith, k)))

exact_in-update :
    (regions : ℕ → Region) (rs : List ℕ) (obj start end : ℕ) (region : Region)
    → occurrences obj rs ≡ 0
    → exact_in regions rs start end ≡ 0
    → occurrences 0 rs ≡ 0
    → region.start ≡ start
    → region.end ≡ end
    → exact_in (update regions obj region) (rs ++ (obj ∷ [])) start end ≡ obj
unfolding exact_in occurrences
exact_in-update regions [] obj start end region h n z s e =
    rw (==-refl obj, s, e, ==-refl start, ==-refl end) refl
exact_in-update regions (r ∷ rs) obj start end region h n z s e =
    let other : (obj == r) ≡ false = ground (arith, h) in
    let (differs, none_behind) =
      none_found (((regions r).start == start) && ((regions r).end == end)) r
        (exact_in regions rs start end) (ground (arith, z)) n in
    rw (other, differs)
      (exact_in-update regions rs obj start end region (ground (arith, h)) none_behind
        (ground (arith, z)) s e)

erase-last : (rs : List ℕ) (obj : ℕ) → occurrences obj rs ≡ 0 → erase obj (rs ++ (obj ∷ [])) ≡ rs
unfolding erase occurrences
erase-last [] obj h = rw (==-refl obj) refl
erase-last (r ∷ rs) obj h =
    let other : (r == obj) ≡ false = ground (arith, h) in
    rw other (ap (λ (l : List ℕ). r ∷ l) (erase-last rs obj (ground (arith, h))))

pub space_at : (f : ℕ → AddressSpace) (space : ℕ) (s : AddressSpace) → update f space s space ≡ s
space_at f space s = rw (==-refl space) refl

-- After `vm_map_region` returned 0 for a range that does not wrap, with an object that the address
-- space has not got and no NULL in its list, `vm_find_region` gives for each address what it gave
-- before, and where it gave NULL it gives the new region exactly for the addresses of the range.
pub find_region-map_region :
    (vm : Vm) (space start phys size flags kind : ℕ) (name : Option (List ℕ)) (obj addr : ℕ)
    → (map_region vm space start phys size flags kind name obj).0 ≡ pos 0
    → start + size < u64_mod
    → occurrences obj (vm.spaces space).regions ≡ 0
    → occurrences 0 (vm.spaces space).regions ≡ 0
    → find_region (map_region vm space start phys size flags kind name obj).1 space addr ≡ (
        if find_region vm space addr == 0
        then (if leb start addr && ltb addr (start + size) then obj else 0)
        else find_region vm space addr)
unfolding find_region
find_region-map_region vm space start phys size flags kind name obj addr e small h k =
    let end : add_u64 start size ≡ start + size = ground (arith, small) in
    rw (map_region-mapped vm space start phys size flags kind name obj e, ==-refl space)
      (find_in-update vm.regions (vm.spaces space).regions obj addr
          (new_region start phys size flags kind name) h k
        ∙ rw end refl)

-- `vm_unmap_region` of what `vm_map_region` has just mapped, when no region of the address space had
-- these bounds before, returns 0 and gives the region's object back: the list of the address space,
-- its count and the objects in use are as before.
pub unmap_region-map_region :
    (vm : Vm) (space start phys size flags kind : ℕ) (name : Option (List ℕ)) (obj : ℕ)
    → space ≢ 0
    → (map_region vm space start phys size flags kind name obj).0 ≡ pos 0
    → exact_in vm.regions (vm.spaces space).regions start (add_u64 start size) ≡ 0
    → occurrences obj (vm.spaces space).regions ≡ 0
    → occurrences 0 (vm.spaces space).regions ≡ 0
    → let mapped = (map_region vm space start phys size flags kind name obj).1 in
      let r = unmap_region mapped space start size in
      (r.0 ≡ pos 0)
      × ((r.1.spaces space).regions ≡ (vm.spaces space).regions)
      × ((r.1.spaces space).region_count ≡ (vm.spaces space).region_count)
      × (r.1.live_regions ≡ vm.live_regions)
unfolding unmap_region remove_found erase
unmap_region-map_region vm space start phys size flags kind name obj there e none_before h k =
    let (a, b, c) = map_region-aligned vm space start phys size flags kind name obj e in
    rw (map_region-mapped vm space start phys size flags kind name obj e) (
      rw (==-false space 0 there, a, b, ==-refl space)
        (rw
          (exact_in-update vm.regions (vm.spaces space).regions obj start (add_u64 start size)
            (new_region start phys size flags kind name) h none_before k refl refl)
          (rw (==-false obj 0 c, ==-refl space, ==-refl obj)
            (refl, erase-last (vm.spaces space).regions obj h, omega arith, refl))))
