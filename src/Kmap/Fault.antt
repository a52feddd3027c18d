-- ===== src/Kmap/Fault.antt =====
-- Demand paging in kernel/kmap.c: the outcomes of kmap_handle_page_fault.
use emergence_kernel.Pmm.Valid.Moves.{update_self}
use emergence_kernel.Paging.Outcome.{alloc_and_map-maps}
use emergence_kernel.Prelude.{
  subst, inr, inl, Bool-cases, refl, sym, true, ◌∙◌, ap, if◌then◌else◌, ◌*◌, false, ◌==◌, ◌/◌, ◌≡◌,
}
use emergence_kernel.Kmap.View.{PageView, page_view}
use emergence_kernel.Paging.Tree.{IsTree}
use emergence_kernel.Paging.Map.{refused, mapped, MapOutcome}
use emergence_kernel.Kmap.Lookup.{view-first, viewed, says_pageable}
use emergence_kernel.Kmap.Find.{contains, hold, first, lookup}
use emergence_kernel.Kmap.Pages.{
  fault_result, fault_at, fault_page, alloc_for_fault, handle_page_fault,
}
use emergence_kernel.Paging.{alloc_and_map, alloc_page, translate, Memory}
use emergence_kernel.Kmap.{
  none, take_ref, put, set_entry, some, kmap_pageable, minus_one, pos, page_size, Option, ℤ,
  KmapState,
}
use Prim.Native.Nat.{ℕ, bit_or}

-- The flags that the mappings give to an address.
abbrev pub says_flags : Option PageView → ℕ
says_flags none = 0
says_flags (some v) = v.flags

-- What a fault does: outside the pageable mappings it is refused with no translation changed, and in
-- one the page is translated already, is mapped to a new page, or memory is exhausted.
pub data FaultOutcome (s : KmapState) (m : Memory) (root fault : ℕ) (r : ℤ × KmapState × Memory)
    : Type 0 where
  outside :
      says_pageable (page_view s fault) ≡ false
      → r.0 ≡ minus_one
      → r.2 ≡ m
      → FaultOutcome s m root fault r
  present :
      (word : ℕ)
      → says_pageable (page_view s fault) ≡ true
      → translate m root (fault / page_size * page_size) ≡ some word
      → r.0 ≡ pos 0
      → r.2 ≡ m
      → FaultOutcome s m root fault r
  handled :
      says_pageable (page_view s fault) ≡ true
      → translate m root (fault / page_size * page_size) ≡ none
      → MapOutcome m root
          (fault / page_size * page_size)
          (bit_or (alloc_page m).0 (says_flags (page_view s fault)))
          (r.0, r.2)
      → FaultOutcome s m root fault r

alloc_for_fault-outcome :
    (m : Memory) (root page word : ℕ) (r : ℤ × Memory)
    → MapOutcome m root page word r
    → MapOutcome m root page word (alloc_for_fault r)
unfolding alloc_for_fault fault_result
alloc_for_fault-outcome m root page word (ret, m') (mapped e o) = mapped (ap fault_result e) o
alloc_for_fault-outcome m root page word (ret, m') (refused e o) = refused (ap fault_result e) o

module _ (s : KmapState) (m : Memory) (root fault : ℕ) (owner : ℕ → Option (ℕ × ℕ))
    (tree : IsTree m root owner) where
  page : ℕ
  page = fault / page_size * page_size

  in_region :
      (s' : KmapState) (id : ℕ)
      → says_pageable (page_view s fault) ≡ ((s'.entries id).pageable == kmap_pageable)
      → (s'.entries id).flags ≡ says_flags (page_view s fault)
      → (t : Option ℕ) → translate m root page ≡ t
      → FaultOutcome s m root fault (
          let (ret, m') = fault_page m root page (s'.entries id).flags t in
          if (s'.entries id).pageable == kmap_pageable
          then (ret, put s' (some id), m')
          else (minus_one, put s' (some id), m))
  unfolding fault_page page
  in_region s' id says has t e = elim (Bool-cases ((s'.entries id).pageable == kmap_pageable)) [
    | inl yes_page ↦ rw yes_page (pageable_page s' id (says ∙ yes_page) has t e)
    | inr no_page ↦ rw no_page (outside (says ∙ no_page) refl refl)
  ]
    where
      pageable_page :
          (s' : KmapState) (id : ℕ)
          → says_pageable (page_view s fault) ≡ true
          → (s'.entries id).flags ≡ says_flags (page_view s fault)
          → (t : Option ℕ) → translate m root page ≡ t
          → FaultOutcome s m root fault (
              let (ret, m') = fault_page m root page (s'.entries id).flags t in
              (ret, put s' (some id), m'))
      pageable_page s' id says has (some word) e = present word says e refl refl
      pageable_page s' id says has none e = handled says e (
          subst
            (λ flags.
              MapOutcome m root page (bit_or (alloc_page m).0 flags)
                (alloc_for_fault (alloc_and_map m root page (s'.entries id).flags)))
            has
            (alloc_for_fault-outcome m root page (bit_or (alloc_page m).0 (s'.entries id).flags)
              (alloc_and_map m root page (s'.entries id).flags)
              (alloc_and_map-maps m root page (s'.entries id).flags owner tree)))

  fault_at-outcome :
      (r : Option ℕ)
      → page_view s fault ≡ viewed s.entries fault r
      → FaultOutcome s m root fault (fault_at m root page (hold s r))
  unfolding fault_at hold viewed
  fault_at-outcome none e = outside (ap says_pageable e) refl refl
  fault_at-outcome (some id) e =
      in_region (set_entry s id (take_ref (s.entries id))) id
        (ap says_pageable e
          ∙ sym (
              ap (λ x. x.pageable == kmap_pageable)
                (update_self s.entries id (take_ref (s.entries id)))))
        (ap (λ x. x.flags) (update_self s.entries id (take_ref (s.entries id)))
          ∙ sym (ap says_flags e))
        (translate m root page) refl

-- On page tables that form a tree, whose pages are not in the allocator's valid free memory, which
-- ends below 2^40, a page fault outside the pageable mappings is refused and changes no table; in a
-- pageable mapping, a page that is translated already is left alone, and otherwise the page is
-- mapped to the page that the allocator gives with the mapping's flags, or -1 is returned with no translation
-- changed.
pub handle_page_fault-outcome :
    (s : KmapState) (m : Memory) (root fault : ℕ) (owner : ℕ → Option (ℕ × ℕ))
    → IsTree m root owner
    → FaultOutcome s m root fault (handle_page_fault s m root fault)
unfolding handle_page_fault lookup page
handle_page_fault-outcome s m root fault owner tree =
    fault_at-outcome s m root fault owner tree (first (λ e. contains e fault) s.entries s.kmap_list)
      (view-first s.entries s.kmap_list fault)
