-- ===== src/Vm.antt =====
-- kernel/vm.c and kernel/vm.h: the address spaces of processes and their regions. A structure is named
-- by its address, and 0 is NULL. The answers of `slab_alloc` and `pmm_alloc` are arguments, and the
-- objects and pages in use are kept beside the structures. The locks are left out: an operation is
-- one step.
pub mod Find
pub mod Release
pub mod Clone
pub mod Start
mod Tests
use emergence_kernel.Slab.{SlabCache, cache_create, erase}
use emergence_kernel.Slab.Steps.{hold}
use emergence_kernel.Prelude.{
  ℕ, zero, suc, ◌+◌, ◌-◌, ◌/◌, ◌%◌, ◌^◌, Bool, true, false, not, ◌&&◌, ◌||◌, Option, none, some,
  List, [], ◌∷◌, ◌++◌, take, ltb, leb, ◌==◌, if◌then◌else◌, update, page_size, page_floor, add_u64,
  ℤ, pos, negsuc, increment, decrement, minus_one,
}

-- `struct vm_region`, less its link
pub record Region : Type 0 where
  pub kind : ℕ
  pub start : ℕ
  pub end : ℕ
  pub phys_base : ℕ
  pub flags : ℕ
  pub perm : ℕ
  pub name : List ℕ

-- `struct address_space`, less its lock; `pml4` is `pml4_phys`.
pub record AddressSpace : Type 0 where
  pub refcount : ℤ
  pub pml4_phys : ℕ
  pub regions : List ℕ
  pub region_count : ℕ
  pub brk : ℕ
  pub start_brk : ℕ

-- The structures by address, the tables by page and index, and what is in use
pub record Vm : Type 0 where
  pub spaces : ℕ → AddressSpace
  pub regions : ℕ → Region
  pub tables : ℕ → ℕ → ℕ
  pub live_spaces : List ℕ
  pub live_regions : List ℕ
  pub live_pages : List ℕ

-- `sizeof(address_space_t)` and `sizeof(vm_region_t)`
abbrev pub space_size : ℕ
space_size = 64

abbrev pub region_size : ℕ
region_size = 96

abbrev pub is_ok : ℤ → Bool
is_ok (pos n) = n == 0
is_ok (negsuc n) = false

-- `vm_init`, on the caches of address spaces and of regions
unfoldable pub vm_init : SlabCache → SlabCache → SlabCache × SlabCache
vm_init spaces regions =
    let made = cache_create spaces space_size in
    if not (is_ok made.0) then (made.1, regions) else (made.1, (cache_create regions region_size).1)

-- The table of a new address space: the kernel's half of the master table, or nothing
unfoldable pub new_table : (ℕ → ℕ) → Bool → ℕ → ℕ
new_table master share i = if share && (leb 256 i && ltb i 512) then master i else 0

abbrev pub new_space : ℕ → AddressSpace
new_space page = record {
  refcount = pos 1;
  pml4_phys = page;
  regions = [];
  region_count = 0;
  brk = 0x1000000;
  start_brk = 0x1000000;
}

-- `vm_create_address_space`, with the answers of `slab_alloc` and `pmm_alloc`
unfoldable pub create : (ℕ → ℕ) → Vm → ℕ → ℕ → ℕ → ℕ × Vm
create master vm flags space page =
    let vm' = record vm { live_spaces = hold space vm.live_spaces } in
    if space == 0
    then (0, vm)
    else if page == 0
    then (0, record vm' { live_spaces = erase space vm'.live_spaces })
    else (
      space,
      record vm' {
        live_pages = hold page vm.live_pages;
        spaces = update vm.spaces space (new_space page);
        tables = update vm.tables page (new_table master (flags % 2 == 1));
      },
    )

-- The loop of `vm_destroy_address_space` on the live regions
unfoldable pub free_regions : List ℕ → List ℕ → List ℕ
free_regions [] live = live
free_regions (region ∷ rest) live = free_regions rest (erase region live)

-- `vm_destroy_address_space`
unfoldable pub destroy : Vm → ℕ → Vm
destroy vm space = if space == 0 then vm else record vm {
  live_regions = free_regions (vm.spaces space).regions vm.live_regions;
  live_pages = erase (vm.spaces space).pml4_phys vm.live_pages;
  live_spaces = erase space vm.live_spaces;
  spaces = update vm.spaces space (record (vm.spaces space) { regions = [] });
}

abbrev pub is_positive : ℤ → Bool
is_positive (pos n) = ltb 0 n
is_positive (negsuc n) = false

abbrev pub set_refcount : Vm → ℕ → ℤ → Vm
set_refcount vm space n = record vm {
  spaces = update vm.spaces space (record (vm.spaces space) { refcount = n });
}

unfoldable pub get_space : Vm → ℕ → Vm
get_space vm space =
    if space == 0 then vm else set_refcount vm space (increment (vm.spaces space).refcount)

unfoldable pub put_space : Vm → ℕ → Vm
put_space vm space =
    let vm' = set_refcount vm space (decrement (vm.spaces space).refcount) in
    if space == 0
    then vm
    else if is_positive (decrement (vm.spaces space).refcount)
    then vm'
    else destroy vm' space

-- `vm_switch_address_space`: CR3 afterwards
unfoldable pub switch_space : Vm → ℕ → ℕ → ℕ
switch_space vm space cr3 = if space == 0 then cr3 else page_floor (vm.spaces space).pml4_phys

-- The permission bits: VM_PERM_READ, with VM_PERM_WRITE where PT_WRITE (bit 1) is set and VM_PERM_EXEC
-- where PT_NX (bit 63) is not
unfoldable pub perm_of : ℕ → ℕ
perm_of flags =
    1 + (if flags / 2 % 2 == 1 then 2 else 0) + (if flags / 2 ^ 63 % 2 == 1 then 0 else 4)

-- "anonymous"
abbrev pub anonymous : List ℕ
anonymous = 97 ∷ 110 ∷ 111 ∷ 110 ∷ 121 ∷ 109 ∷ 111 ∷ 117 ∷ 115 ∷ []

-- The first 31 characters of the name
unfoldable pub name_of : Option (List ℕ) → List ℕ
name_of none = anonymous
name_of (some name) = take 31 name

abbrev pub new_region : ℕ → ℕ → ℕ → ℕ → ℕ → Option (List ℕ) → Region
new_region start phys size flags kind name = record {
  kind = kind;
  start = start;
  end = add_u64 start size;
  phys_base = phys;
  flags = flags;
  perm = perm_of flags;
  name = name_of name;
}

-- A region at the back of an address space's list
abbrev pub add_region : Vm → ℕ → ℕ → Region → Vm
add_region vm space obj region = record vm {
  live_regions = hold obj vm.live_regions;
  regions = update vm.regions obj region;
  spaces = update vm.spaces space (record (vm.spaces space) {
    regions = (vm.spaces space).regions ++ (obj ∷ []);
    region_count = (vm.spaces space).region_count + 1;
  });
}

-- `vm_map_region`, with the answer of `slab_alloc`
unfoldable pub map_region : Vm → ℕ → ℕ → ℕ → ℕ → ℕ → ℕ → Option (List ℕ) → ℕ → ℤ × Vm
map_region vm space start phys size flags kind name obj =
    if not (start % page_size == 0) || not (phys % page_size == 0)
    then (negsuc 21, vm)
    else if not (size % page_size == 0) || (size == 0)
    then (negsuc 21, vm)
    else if obj == 0
    then (negsuc 11, vm)
    else (pos 0, add_region vm space obj (new_region start phys size flags kind name))

-- The address lies in the region.
abbrev pub covers : Region → ℕ → Bool
covers region addr = leb region.start addr && ltb addr region.end

-- The loop of `vm_find_region`
unfoldable pub find_in : (ℕ → Region) → List ℕ → ℕ → ℕ
find_in regions [] addr = 0
find_in regions (obj ∷ rest) addr =
    let other = find_in regions rest addr in if covers (regions obj) addr then obj else other

-- `vm_find_region`
unfoldable pub find_region : Vm → ℕ → ℕ → ℕ
find_region vm space addr = find_in vm.regions (vm.spaces space).regions addr

-- The first region from `start` to `start + size` of the list, or 0
unfoldable pub exact_in : (ℕ → Region) → List ℕ → ℕ → ℕ → ℕ
exact_in regions [] start end = 0
exact_in regions (obj ∷ rest) start end =
    let other = exact_in regions rest start end in
    if ((regions obj).start == start) && ((regions obj).end == end) then obj else other

-- The region found, 0 for none, leaves its list.
unfoldable pub remove_found : Vm → ℕ → ℕ → ℤ × Vm
remove_found vm space obj = if obj == 0 then (negsuc 1, vm) else (
  pos 0,
  record vm {
    live_regions = erase obj vm.live_regions;
    spaces = update vm.spaces space (record (vm.spaces space) {
      regions = erase obj (vm.spaces space).regions;
      region_count = (vm.spaces space).region_count - 1;
    });
  },
)

-- `vm_unmap_region`
unfoldable pub unmap_region : Vm → ℕ → ℕ → ℕ → ℤ × Vm
unmap_region vm space start size =
    if space == 0
    then (negsuc 21, vm)
    else if not (start % page_size == 0) || not (size % page_size == 0)
    then (negsuc 21, vm)
    else remove_found vm space
        (exact_in vm.regions (vm.spaces space).regions start (add_u64 start size))

-- The loop of `vm_clone_address_space` over the regions of the source, with the answers of
-- `slab_alloc`, NULL after the last one; a NULL destroys the new address space.
unfoldable pub clone_regions : Vm → ℕ → List ℕ → List ℕ → ℕ × Vm
clone_regions vm space [] objs = (space, vm)
clone_regions vm space (region ∷ rest) [] = (0, destroy vm space)
clone_regions vm space (region ∷ rest) (obj ∷ objs) =
    let next = clone_regions (add_region vm space obj (vm.regions region)) space rest objs in
    if obj == 0 then (0, destroy vm space) else next

-- The heap settings of another address space
abbrev pub copy_heap : Vm → ℕ → ℕ → Vm
copy_heap vm space src = record vm {
  spaces = update vm.spaces space (record (vm.spaces space) {
    start_brk = (vm.spaces src).start_brk;
    brk = (vm.spaces src).brk;
  });
}

-- After `vm_create_address_space`
unfoldable pub clone_created : ℕ → List ℕ → ℕ × Vm → ℕ × Vm
clone_created src objs (space, vm) =
    if space == 0
    then (0, vm)
    else clone_regions (copy_heap vm space src) space (vm.spaces src).regions objs

-- `vm_clone_address_space`: the flags are AS_SHARE_KERNEL.
unfoldable pub clone : (ℕ → ℕ) → Vm → ℕ → ℕ → ℕ → List ℕ → ℕ × Vm
clone master vm src space page objs = clone_created src objs (create master vm 1 space page)
