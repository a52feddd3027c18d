-- ===== src/Kmap/Tests.antt =====
-- The registry of kernel/kmap.c with two mappings: one of a device at 0x1000 to 0x5000, and a pageable
-- one at 0x40000000 to 0x40002000.
use emergence_kernel.Prelude.Counts.{occurrences}
use emergence_kernel.Kmap.Pages.{handle_page_fault}
use emergence_kernel.Prelude.{inr, inl, Bool-cases, arith, refl, ◌==◌, ◌∷◌, ◌≡◌}
use emergence_kernel.Kmap.Fault.{handle_page_fault-outcome, FaultOutcome}
use emergence_kernel.Kmap.Shape.{IsRegistry}
use emergence_kernel.Kmap.Steps.{step_create, empty, reachable-IsRegistry, then_step, Reachable}
use emergence_kernel.Kmap.Lookup.{AllHeld}
use emergence_kernel.Kmap.View.{split-page_view, page_view}
use emergence_kernel.Kmap.{
  [], if◌then◌else◌, insert, insert_after, some, Kmap, KmapState, create, split,
}
use emergence_kernel.Paging.Sample.{start, start_owner, start-IsTree}

device : Kmap
device = record {
  virt_start = 4096;
  virt_end = 20480;
  phys_base = 1048576;
  map_type = 7;
  pageable = 0;
  monitor = 1;
  flags = 3;
  refcount = 1;
  num_pages = 4;
  name = [];
}

heap : Kmap
heap = record {
  virt_start = 1073741824;
  virt_end = 1073750016;
  phys_base = 0;
  map_type = 8;
  pageable = 1;
  monitor = 0;
  flags = 3;
  refcount = 1;
  num_pages = 2;
  name = [];
}

registry : KmapState
registry = record { entries = λ id. if id == 0 then device else heap; kmap_list = 0 ∷ 1 ∷ [] }

fresh_two : occurrences 2 registry.kmap_list ≡ 0
unfolding registry occurrences
fresh_two = refl

device_range :
    ((registry.entries 0).phys_base ≡ 1048576)
    × ((registry.entries 0).virt_start ≡ 4096)
    × ((registry.entries 0).virt_end ≡ 20480)
unfolding registry device
device_range = (refl, refl, refl)

split-page_view_example :
    page_view (split registry (some 0) (some 2) 8192).1 12345 ≡ page_view registry 12345
split-page_view_example =
    split-page_view registry 0 2 8192 12345 fresh_two (omega arith) (omega (arith, device_range))
      (omega (arith, device_range))

split_list : (split registry (some 0) (some 2) 8192).1.kmap_list ≡ 0 ∷ 2 ∷ 1 ∷ []
unfolding registry split device insert_after
split_list = refl

all_held : AllHeld registry
unfolding registry occurrences device heap
all_held id m = elim (Bool-cases (id == 0)) [
  | inl here ↦ rw here (omega arith, omega arith)
  | inr there ↦ rw there (omega arith, omega arith)
]

-- An empty registry, a mapping of one page at 0x2000, then one at 0x1000, which is put behind it.
nothing : KmapState
nothing = record { entries = λ id. heap; kmap_list = [] }

one : KmapState
one = (create nothing (some 0) 8192 12288 0 3 8 1 0 []).1

two : KmapState
two = (create one (some 1) 4096 8192 0 3 8 1 0 []).1

unsorted : two.kmap_list ≡ 0 ∷ 1 ∷ []
unfolding two one nothing create insert
unsorted = refl

two-Reachable : Reachable two
unfolding two one nothing
two-Reachable =
    then_step one two
      (then_step nothing one (empty (λ id. heap))
        (step_create (some 0) 8192 12288 0 3 8 1 0 [] (omega arith)))
      (step_create (some 1) 4096 8192 0 3 8 1 0 [] (omega arith))

reachable-IsRegistry_example : IsRegistry two
reachable-IsRegistry_example = reachable-IsRegistry two two-Reachable

handle_page_fault-outcome_example :
    FaultOutcome registry start 4096 1073741825 (handle_page_fault registry start 4096 1073741825)
handle_page_fault-outcome_example =
    handle_page_fault-outcome registry start 4096 1073741825 start_owner start-IsTree
