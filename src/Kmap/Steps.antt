-- ===== src/Kmap/Steps.antt =====
-- The registry of kernel/kmap.c under any sequence of its calls.
use emergence_kernel.Prelude.Counts.{occurrences}
use emergence_kernel.Kmap.Shape.{
  occurrences-insert, occurrences-insert_after, occurrences-remove, IsShaped, fewer_entries,
  replaced, IsRegistry,
}
use emergence_kernel.Kmap.Find.{overlaps, contains, first, hold, lookup_range, lookup}
use emergence_kernel.Prelude.{
  ◌&&◌, none, true, refl, [], inr, inl, ◌+◌, Bool-cases, ◌-◌, ◌==◌, arith, ◌^◌, ◌≡◌, ◌<◌,
}
use emergence_kernel.Kmap.{
  lower_part, upper_part, joined, drop_ref, int_mod, mergeable, page_aligned, set_entry, some,
  merge, split, ltb, put, get, destroy, create, update, List, Option, insert, insert_after, remove,
  ℕ, ◌%◌, Kmap, KmapState,
}

-- The descriptors of kernel/kmap.c keep their shape through every sequence of operations.

-- A call's pointer to a descriptor is one in the list.
abbrev pub IsLive : KmapState → Option ℕ → Type 0
IsLive s m = (id : ℕ) → m ≡ some id → 0 < occurrences id s.kmap_list

-- A descriptor that the slab hands out is not in the list.
abbrev pub IsFresh : KmapState → Option ℕ → Type 0
IsFresh s m = (id : ℕ) → m ≡ some id → occurrences id s.kmap_list ≡ 0

-- The calls that change the registry, with the slab's answers; addresses have 64 bits.
pub data Step (s : KmapState) : KmapState → Type 0 where
  step_create :
      (fresh : Option ℕ) (start end phys flags map_type pageable monitor : ℕ) (name : List ℕ)
      → end < 2 ^ 64
      → Step s (create s fresh start end phys flags map_type pageable monitor name).1
  step_destroy : (mapping : Option ℕ) → Step s (destroy s mapping).1
  step_get : (mapping : Option ℕ) → Step s (get s mapping)
  step_put : (mapping : Option ℕ) → Step s (put s mapping)
  step_split :
      (mapping fresh : Option ℕ) (at : ℕ)
      → IsLive s mapping
      → IsFresh s fresh
      → Step s (split s mapping fresh at).1
  step_merge : (m1 m2 : Option ℕ) → IsLive s m1 → IsLive s m2 → Step s (merge s m1 m2).1
  step_lookup : (addr : ℕ) → Step s (lookup s addr).1
  step_lookup_range : (start end : ℕ) → Step s (lookup_range s start end).1

-- The registry after any number of calls.
pub data Reachable : KmapState → Type 0 where
  empty : (entries : ℕ → Kmap) → Reachable (record { entries = entries; kmap_list = [] })
  then_step : (s s' : KmapState) → Reachable s → Step s s' → Reachable s'

-- A reference count does not matter.
counted :
    (s : KmapState) (id n : ℕ)
    → IsRegistry s
    → IsRegistry (set_entry s id (record (s.entries id) { refcount = n }))
counted s id n r =
    replaced s id (record (s.entries id) { refcount = n }) s.kmap_list r
      (λ m. with_count (r.shaped id m)) (λ x ne. omega arith)
  where
    with_count : {e : Kmap} → IsShaped e → IsShaped (record e { refcount = n })
    with_count h = record {
      start_aligned = h.start_aligned;
      end_aligned = h.end_aligned;
      nonempty = h.nonempty;
      below = h.below;
      pages = h.pages;
    }

destroy-IsRegistry : (s : KmapState) (m : Option ℕ) → IsRegistry s → IsRegistry (destroy s m).1
unfolding destroy
destroy-IsRegistry s none r = r
destroy-IsRegistry s (some id) r = elim (Bool-cases ((s.entries id).refcount == 0)) [
  | inl free ↦
      rw free (fewer_entries s (remove id s.kmap_list) r (λ x. occurrences-remove x id s.kmap_list))
  | inr held ↦ rw held r
]

get-IsRegistry : (s : KmapState) (m : Option ℕ) → IsRegistry s → IsRegistry (get s m)
unfolding get
get-IsRegistry s none r = r
get-IsRegistry s (some id) r = counted s id (((s.entries id).refcount + 1) % int_mod) r

put-IsRegistry : (s : KmapState) (m : Option ℕ) → IsRegistry s → IsRegistry (put s m)
unfolding put
put-IsRegistry s none r = r
put-IsRegistry s (some id) r =
    let dropped = set_entry s id (drop_ref (s.entries id)) in
    let r' = counted s id (((s.entries id).refcount + int_mod - 1) % int_mod) r in
    elim (Bool-cases ((s.entries id).refcount == 1)) [
      | inl last ↦ rw last (destroy-IsRegistry dropped (some id) r')
      | inr more ↦ rw more r'
    ]

hold-IsRegistry : (s : KmapState) (m : Option ℕ) → IsRegistry s → IsRegistry (hold s m).1
unfolding hold
hold-IsRegistry s none r = r
hold-IsRegistry s (some id) r = counted s id (((s.entries id).refcount + 1) % int_mod) r

create-IsRegistry :
    (s : KmapState) (m : Option ℕ) (start end phys flags map_type pageable monitor : ℕ)
    (name : List ℕ)
    → end < 2 ^ 64
    → IsRegistry s
    → IsRegistry (create s m start end phys flags map_type pageable monitor name).1
unfolding create
create-IsRegistry s none start end phys flags map_type pageable monitor name h r = r
create-IsRegistry s (some id) start end phys flags map_type pageable monitor name h r =
    elim (Bool-cases (page_aligned start && page_aligned end && ltb start end)) [
      | inl ok ↦ rw ok (
          replaced s id _ (insert s.entries start id s.kmap_list) r
            (λ m. record {
              start_aligned = ground (arith, ok);
              end_aligned = ground (arith, ok);
              nonempty = ground (arith, ok);
              below = h;
              pages = ground (arith, ok);
            })
            (λ x ne. ground (arith, occurrences-insert s.entries start x id s.kmap_list)))
      | inr bad ↦ rw bad r
    ]

lower-IsShaped :
    {e : Kmap} {at : ℕ}
    → IsShaped e
    → (page_aligned at && ltb e.virt_start at && ltb at e.virt_end) ≡ true
    → IsShaped (lower_part e at)
lower-IsShaped {e} {at} h ok = record {
  start_aligned = h.start_aligned;
  end_aligned = ground (arith, ok);
  nonempty = ground (arith, ok);
  below = ground (arith, ok, h.below);
  pages = ground (arith, ok, h.start_aligned);
}

upper-IsShaped :
    {e : Kmap} {at : ℕ}
    → IsShaped e
    → (page_aligned at && ltb e.virt_start at && ltb at e.virt_end) ≡ true
    → IsShaped (upper_part e at)
upper-IsShaped {e} {at} h ok = record {
  start_aligned = ground (arith, ok);
  end_aligned = h.end_aligned;
  nonempty = ground (arith, ok);
  below = h.below;
  pages = ground (arith, ok, h.end_aligned);
}

split-IsRegistry :
    (s : KmapState) (m fresh : Option ℕ) (at : ℕ)
    → IsLive s m
    → IsFresh s fresh
    → IsRegistry s
    → IsRegistry (split s m fresh at).1
unfolding split
split-IsRegistry s none fresh at live unlisted r = r
split-IsRegistry s (some id) none at live unlisted r = r
split-IsRegistry s (some id) (some new) at live unlisted r =
    elim (Bool-cases
      (page_aligned at && ltb (s.entries id).virt_start at && ltb at (s.entries id).virt_end)) [
        | inl ok ↦ rw ok (
            let e = s.entries id in
            let shaped = r.shaped id (live id refl) in
            let xs = insert_after id new s.kmap_list in
            replaced (record { entries = update s.entries new (upper_part e at); kmap_list = xs })
              id (lower_part e at) xs
              (replaced s new (upper_part e at) xs r (λ m. upper-IsShaped shaped ok)
                (λ x ne. ground (arith, occurrences-insert_after x id new s.kmap_list)))
              (λ m. lower-IsShaped shaped ok) (λ x ne. omega arith))
        | inr bad ↦ rw bad r
      ]

merge-IsRegistry :
    (s : KmapState) (m1 m2 : Option ℕ)
    → IsLive s m1
    → IsLive s m2
    → IsRegistry s
    → IsRegistry (merge s m1 m2).1
unfolding merge
merge-IsRegistry s none m2 live1 live2 r = r
merge-IsRegistry s (some id1) none live1 live2 r = r
merge-IsRegistry s (some id1) (some id2) live1 live2 r =
    elim (Bool-cases (mergeable (s.entries id1) (s.entries id2))) [
      | inl ok ↦ rw ok (
          replaced s id1 (joined (s.entries id1) (s.entries id2)) (remove id2 s.kmap_list) r
            (λ m.
              joined-IsShaped (r.shaped id1 (live1 id1 refl)) (r.shaped id2 (live2 id2 refl)) ok)
            (λ x ne. occurrences-remove x id2 s.kmap_list))
      | inr bad ↦ rw bad r
    ]
  where
    joined-IsShaped :
        {e1 e2 : Kmap}
        → IsShaped e1
        → IsShaped e2
        → mergeable e1 e2 ≡ true
        → IsShaped (joined e1 e2)
    joined-IsShaped h1 h2 ok = record {
      start_aligned = h1.start_aligned;
      end_aligned = h2.end_aligned;
      nonempty = ground (arith, h1.nonempty, h2.nonempty, ok);
      below = h2.below;
      pages = ground (arith, h1.pages, h2.pages, h1.nonempty, h2.nonempty, h2.below, ok);
    }

nobody : (id : ℕ) → occurrences id [] ≡ 0
unfolding occurrences
nobody id = refl

-- In every registry that calls of the modelled operations make from an empty one, each listed
-- mapping has page-aligned ends, is not empty, ends below 2^64 and counts the pages of its range.
-- Mappings are created with ends below 2^64, the mappings that are split or merged are listed, and a
-- split gets a descriptor that is not.
pub reachable-IsRegistry : (s : KmapState) → Reachable s → IsRegistry s
unfolding lookup lookup_range
reachable-IsRegistry _ (empty entries) = record {
  shaped = λ id m. absurd (omega (arith, nobody id, m));
}
reachable-IsRegistry _ (then_step s s' before step) = kept step (reachable-IsRegistry s before)
  where
    kept : {s s' : KmapState} → Step s s' → IsRegistry s → IsRegistry s'
    kept {s} (step_create fresh start end phys flags map_type pageable monitor name h) r =
        create-IsRegistry s fresh start end phys flags map_type pageable monitor name h r
    kept {s} (step_destroy m) r = destroy-IsRegistry s m r
    kept {s} (step_get m) r = get-IsRegistry s m r
    kept {s} (step_put m) r = put-IsRegistry s m r
    kept {s} (step_split m fresh at live unlisted) r = split-IsRegistry s m fresh at live unlisted r
    kept {s} (step_merge m1 m2 live1 live2) r = merge-IsRegistry s m1 m2 live1 live2 r
    kept {s} (step_lookup addr) r =
        hold-IsRegistry s (first (λ e. contains e addr) s.entries s.kmap_list) r
    kept {s} (step_lookup_range start end) r =
        hold-IsRegistry s (first (λ e. overlaps e start end) s.entries s.kmap_list) r
