-- ===== src/Kmap.antt =====
-- The registry of kernel mappings of kernel/kmap.c and kernel/kmap.h: descriptors in a store, and
-- kmap_list as the list of their numbers in list order. Locks are left out: each operation is one
-- critical section.
pub mod Pages
pub mod Find
pub mod View
pub mod Shape
pub mod Steps
pub mod Lookup
pub mod Fault
mod Tests
use emergence_kernel.Prelude.{
  zero, ltb, pos, suc, [], if◌then◌else◌, minus_one, none, page_size, ◌&&◌, ◌/◌, ◌∷◌, List, some,
  update, ℤ, ◌%◌, ◌-◌, ◌*◌, ◌==◌, ◌^◌, Bool, Option, ℕ, ◌+◌,
}

-- `struct kmap_s`; the enumerations are their numbers, and the reference count a 32-bit word.
pub record Kmap : Type 0 where
  pub virt_start : ℕ
  pub virt_end : ℕ
  pub phys_base : ℕ
  pub map_type : ℕ
  pub pageable : ℕ
  pub monitor : ℕ
  pub flags : ℕ
  pub refcount : ℕ
  pub num_pages : ℕ
  pub name : List ℕ

pub record KmapState : Type 0 where
  pub entries : ℕ → Kmap
  pub kmap_list : List ℕ

abbrev pub kmap_pageable : ℕ
kmap_pageable = 1

abbrev pub kmap_monitor_none : ℕ
kmap_monitor_none = 0

abbrev pub int_mod : ℕ
int_mod = 2 ^ 32

-- `page_aligned`
abbrev pub page_aligned : ℕ → Bool
page_aligned a = a % page_size == 0

abbrev pub set_entry : KmapState → ℕ → Kmap → KmapState
set_entry s id e = record s { entries = update s.entries id e }

-- `__atomic_add_fetch(&mapping->refcount, 1)`
abbrev pub take_ref : Kmap → Kmap
take_ref e = record e { refcount = (e.refcount + 1) % int_mod }

-- `__atomic_fetch_sub(&mapping->refcount, 1)`
abbrev pub drop_ref : Kmap → Kmap
drop_ref e = record e { refcount = (e.refcount + int_mod - 1) % int_mod }

-- `list_remove`
unfoldable pub remove : ℕ → List ℕ → List ℕ
remove id [] = []
remove id (x ∷ xs) = if x == id then xs else x ∷ remove id xs

-- The loop over kmap_list in kmap_create. `list_push_front(&entry->node, …)` puts the new entry
-- behind the first one that starts later.
unfoldable pub insert : (ℕ → Kmap) → ℕ → ℕ → List ℕ → List ℕ
insert entries virt_start id [] = id ∷ []
insert entries virt_start id (x ∷ xs) =
    if ltb virt_start (entries x).virt_start
    then x ∷ id ∷ xs
    else x ∷ insert entries virt_start id xs

-- `strncpy` of the name without its NUL, into 32 bytes of which the last is NUL
unfoldable pub short_name : ℕ → List ℕ → List ℕ
short_name zero name = []
short_name (suc n) [] = []
short_name (suc n) (c ∷ name) = c ∷ short_name n name

-- `kmap_create`; the slab's answer is a descriptor's number, or nothing.
unfoldable pub create :
    KmapState → Option ℕ → ℕ → ℕ → ℕ → ℕ → ℕ → ℕ → ℕ → List ℕ → Option ℕ × KmapState
create s none virt_start virt_end phys_base flags map_type pageable monitor name = (none, s)
create s (some id) virt_start virt_end phys_base flags map_type pageable monitor name =
    if page_aligned virt_start && page_aligned virt_end && ltb virt_start virt_end
    then (
      some id,
      record {
        entries = update s.entries id (record {
          virt_start = virt_start;
          virt_end = virt_end;
          phys_base = phys_base;
          map_type = map_type;
          pageable = pageable;
          monitor = monitor;
          flags = flags;
          refcount = 1;
          num_pages = (virt_end - virt_start) / page_size;
          name = short_name 31 name;
        });
        kmap_list = insert s.entries virt_start id s.kmap_list;
      },
    )
    else (none, s)

-- `kmap_destroy`
unfoldable pub destroy : KmapState → Option ℕ → ℤ × KmapState
destroy s none = (minus_one, s)
destroy s (some id) =
    if (s.entries id).refcount == 0
    then (pos 0, record s { kmap_list = remove id s.kmap_list })
    else (minus_one, s)

-- `kmap_get`
unfoldable pub get : KmapState → Option ℕ → KmapState
get s none = s
get s (some id) = set_entry s id (take_ref (s.entries id))

-- `kmap_put`
unfoldable pub put : KmapState → Option ℕ → KmapState
put s none = s
put s (some id) =
    let dropped = set_entry s id (drop_ref (s.entries id)) in
    if (s.entries id).refcount == 1 then (destroy dropped (some id)).1 else dropped

-- `list_push_front(&mapping->node, &new_mapping->node)`
unfoldable pub insert_after : ℕ → ℕ → List ℕ → List ℕ
insert_after id new [] = []
insert_after id new (x ∷ xs) = if x == id then x ∷ new ∷ xs else x ∷ insert_after id new xs

-- The lower part of a mapping that is cut at an address.
abbrev pub lower_part : Kmap → ℕ → Kmap
lower_part e at = record e { virt_end = at; num_pages = (at - e.virt_start) / page_size }

abbrev pub upper_part : Kmap → ℕ → Kmap
upper_part e at = record e {
  virt_start = at;
  phys_base = (e.phys_base + (at - e.virt_start)) % 2 ^ 64;
  refcount = 1;
  num_pages = (e.virt_end - at) / page_size;
}

-- `kmap_split`
unfoldable pub split : KmapState → Option ℕ → Option ℕ → ℕ → ℤ × KmapState
split s none fresh at = (minus_one, s)
split s (some id) none at = (minus_one, s)
split s (some id) (some new) at =
    if page_aligned at && ltb (s.entries id).virt_start at && ltb at (s.entries id).virt_end
    then (
      pos 0,
      record {
        entries =
            update (update s.entries new (upper_part (s.entries id) at)) id
              (lower_part (s.entries id) at);
        kmap_list = insert_after id new s.kmap_list;
      },
    )
    else (minus_one, s)

-- The descriptor of two mappings that are made one.
abbrev pub joined : Kmap → Kmap → Kmap
joined e1 e2 = record e1 {
  virt_end = e2.virt_end;
  num_pages = (e1.num_pages + e2.num_pages) % 2 ^ 64;
}

-- The mappings can be merged: adjacent, of the same properties, and each held once.
abbrev pub mergeable : Kmap → Kmap → Bool
mergeable e1 e2 =
    (e1.virt_end == e2.virt_start)
    && (e1.map_type == e2.map_type)
    && (e1.pageable == e2.pageable)
    && (e1.monitor == e2.monitor)
    && (e1.flags == e2.flags)
    && (e1.refcount == 1)
    && (e2.refcount == 1)

-- `kmap_merge`
unfoldable pub merge : KmapState → Option ℕ → Option ℕ → ℤ × KmapState
merge s none m2 = (minus_one, s)
merge s (some id1) none = (minus_one, s)
merge s (some id1) (some id2) =
    if mergeable (s.entries id1) (s.entries id2)
    then (
      pos 0,
      record {
        entries = update s.entries id1 (joined (s.entries id1) (s.entries id2));
        kmap_list = remove id2 s.kmap_list;
      },
    )
    else (minus_one, s)

-- "identity_low" and "kernel_code"
abbrev identity_name : List ℕ
identity_name = 105 ∷ 100 ∷ 101 ∷ 110 ∷ 116 ∷ 105 ∷ 116 ∷ 121 ∷ 95 ∷ 108 ∷ 111 ∷ 119 ∷ []

abbrev kernel_name : List ℕ
kernel_name = 107 ∷ 101 ∷ 114 ∷ 110 ∷ 101 ∷ 108 ∷ 95 ∷ 99 ∷ 111 ∷ 100 ∷ 101 ∷ []

abbrev pub kernel_base_va : ℕ
kernel_base_va = 18446744071562067968

abbrev pub kernel_base_pa : ℕ
kernel_base_pa = 4194304

abbrev pub boot_map_size : ℕ
boot_map_size = 2 * 1024 * 1024

-- `kmap_init`, with the slab's answers for its two mappings: the identity map of a device region, and
-- the kernel's code, read-only to the monitor. The descriptors' old contents do not matter.
unfoldable pub init : (ℕ → Kmap) → Option ℕ → Option ℕ → KmapState
init entries first_id second_id =
    let s : KmapState = record { entries = entries; kmap_list = [] } in
    let s1 = (create s first_id 0 boot_map_size 0 3 7 0 0 identity_name).1 in
    (create s1 second_id kernel_base_va (kernel_base_va + boot_map_size) kernel_base_pa 3 0 0 1
      kernel_name).1
