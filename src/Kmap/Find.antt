-- ===== src/Kmap/Find.antt =====
-- The lookups of kernel/kmap.c.
use emergence_kernel.Prelude.{[], if◌then◌else◌, ◌&&◌, ◌==◌, false, leb, Option}
use emergence_kernel.Kmap.{
  kmap_pageable, take_ref, ◌∷◌, none, put, set_entry, List, kmap_monitor_none, ltb, some, Bool, ℕ,
  Kmap, KmapState,
}

-- `addr >= entry->virt_start && addr < entry->virt_end`
abbrev pub contains : Kmap → ℕ → Bool
contains e addr = leb e.virt_start addr && ltb addr e.virt_end

-- `start < entry->virt_end && end > entry->virt_start`
abbrev pub overlaps : Kmap → ℕ → ℕ → Bool
overlaps e start end = ltb start e.virt_end && ltb e.virt_start end

-- The first entry of the list that passes a test.
unfoldable pub first : (Kmap → Bool) → (ℕ → Kmap) → List ℕ → Option ℕ
first test entries [] = none
first test entries (x ∷ xs) =
    let rest = first test entries xs in if test (entries x) then some x else rest

-- The reference is taken under the lock.
unfoldable pub hold : KmapState → Option ℕ → Option ℕ × KmapState
hold s none = (none, s)
hold s (some id) = (some id, set_entry s id (take_ref (s.entries id)))

-- `kmap_lookup`
unfoldable pub lookup : KmapState → ℕ → Option ℕ × KmapState
lookup s addr = hold s (first (λ e. contains e addr) s.entries s.kmap_list)

-- `kmap_lookup_range`
unfoldable pub lookup_range : KmapState → ℕ → ℕ → Option ℕ × KmapState
lookup_range s start end = hold s (first (λ e. overlaps e start end) s.entries s.kmap_list)

unfoldable pub pageable_of : Option ℕ × KmapState → Bool × KmapState
pageable_of (none, s) = (false, s)
pageable_of (some id, s) = ((s.entries id).pageable == kmap_pageable, put s (some id))

-- `kmap_is_pageable`
unfoldable pub is_pageable : KmapState → ℕ → Bool × KmapState
is_pageable s addr = pageable_of (lookup s addr)

unfoldable pub monitor_of : Option ℕ × KmapState → ℕ × KmapState
monitor_of (none, s) = (kmap_monitor_none, s)
monitor_of (some id, s) = ((s.entries id).monitor, put s (some id))

-- `kmap_get_monitor_protection`
unfoldable pub get_monitor_protection : KmapState → ℕ → ℕ × KmapState
get_monitor_protection s addr = monitor_of (lookup s addr)
