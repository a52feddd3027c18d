-- ===== src/Vm/Clone.antt =====
-- Cloning an address space in kernel/vm.c.
use native.Mathlib.Decide.{ℕ_discrete}
use emergence_kernel.Vm.Find.{space_at}
use emergence_kernel.Vm.Release.{occurrences-erase, destroy-IsDestroyed, IsDestroyed}
use emergence_kernel.Prelude.Counts.{occurrences}
use emergence_kernel.Prelude.{
  false, sym, Bool, subst, true, update, refl, ◌∙◌, ◌==◌, arith, if◌then◌else◌, ==-false, ◌+◌,
  ==-refl, [], ◌∷◌, ◌++◌, ◌-◌, ◌≡◌, ◌≢◌, List, ℕ,
}
use emergence_kernel.Vm.{
  destroy, erase, new_table, new_space, AddressSpace, copy_heap, hold, add_region, Region, Vm,
  clone_regions, clone, clone_created, create,
}

-- The uses of an object that are no region of an address space: what is left in use when it goes.
abbrev spare : Vm → ℕ → ℕ → ℕ
spare vm space a = occurrences a vm.live_regions - occurrences a (vm.spaces space).regions

-- The same objects, pages and structures are in use, as often.
pub record IsSameUse (vm vm' : Vm) : Type 0 where
  pub regions : (a : ℕ) → occurrences a vm'.live_regions ≡ occurrences a vm.live_regions
  pub pages : (a : ℕ) → occurrences a vm'.live_pages ≡ occurrences a vm.live_pages
  pub spaces : (a : ℕ) → occurrences a vm'.live_spaces ≡ occurrences a vm.live_spaces

record IsAdded (vm : Vm) (space : ℕ) (vm' : Vm) : Type 0 where
  spare_same : (a : ℕ) → spare vm' space a ≡ spare vm space a
  page_same : (vm'.spaces space).pml4_phys ≡ (vm.spaces space).pml4_phys
  pages_same : vm'.live_pages ≡ vm.live_pages
  spaces_same : vm'.live_spaces ≡ vm.live_spaces

pub occurrences-snoc :
    (a obj : ℕ) (xs : List ℕ)
    → occurrences a (xs ++ (obj ∷ [])) ≡ occurrences a xs + (if obj == a then 1 else 0)
unfolding occurrences
occurrences-snoc a obj [] = omega arith
occurrences-snoc a obj (x ∷ xs) = omega (arith, occurrences-snoc a obj xs)

pub hold_other : (obj : ℕ) (live : List ℕ) → obj ≢ 0 → hold obj live ≡ obj ∷ live
hold_other obj live h = rw (==-false obj 0 h) refl

hold_null : (live : List ℕ) → hold 0 live ≡ live
hold_null live = refl

add_region-IsAdded :
    (vm : Vm) (space obj : ℕ) (region : Region)
    → obj ≢ 0
    → IsAdded vm space (add_region vm space obj region)
unfolding occurrences
add_region-IsAdded vm space obj region h =
    let s : AddressSpace = record (vm.spaces space) {
      regions = (vm.spaces space).regions ++ (obj ∷ []);
      region_count = (vm.spaces space).region_count + 1;
    } in
    record {
      spare_same = λ a.
          (λ i.
            occurrences a (hold_other obj vm.live_regions h i)
            - occurrences a (space_at vm.spaces space s i).regions)
          ∙ ground (arith, occurrences-snoc a obj (vm.spaces space).regions);
      page_same = λ i. (space_at vm.spaces space s i).pml4_phys;
      pages_same = refl;
      spaces_same = refl;
    }

IsDestroyed-added :
    (vm added last : Vm) (space : ℕ)
    → IsAdded vm space added
    → IsDestroyed added space last
    → IsDestroyed vm space last
IsDestroyed-added vm added last space o d = record {
  regions = λ a. d.regions a ∙ o.spare_same a;
  pages = λ a.
      d.pages a ∙ (λ i. occurrences a (o.pages_same i) - (if o.page_same i == a then 1 else 0));
  spaces = λ a. d.spaces a ∙ (λ i. occurrences a (o.spaces_same i) - (if space == a then 1 else 0));
}

pick_result :
    (P : Vm → Type 0) (b : Bool) (x y : ℕ × Vm)
    → (b ≡ true → P x.1)
    → (b ≡ false → y.0 ≡ 0 → P y.1)
    → (if b then x else y).0 ≡ 0
    → P (if b then x else y).1
pick_result P true x y p q e = p refl
pick_result P false x y p q e = q refl e

-- A clone of regions that gives up leaves in use what the new address space does not own.
clone_regions-IsDestroyed :
    (vm : Vm) (space : ℕ) (rs objs : List ℕ)
    → space ≢ 0
    → (clone_regions vm space rs objs).0 ≡ 0
    → IsDestroyed vm space (clone_regions vm space rs objs).1
unfolding clone_regions
clone_regions-IsDestroyed vm space [] objs h e = absurd (h e)
clone_regions-IsDestroyed vm space (r ∷ rs) [] h e = destroy-IsDestroyed vm space h
clone_regions-IsDestroyed vm space (r ∷ rs) (obj ∷ objs) h e =
    let added = add_region vm space obj (vm.regions r) in
    let ih = clone_regions-IsDestroyed (add_region vm space obj (vm.regions r)) space rs objs h in
    pick_result (IsDestroyed vm space) (obj == 0) (0, destroy vm space)
      (clone_regions added space rs objs) (λ null. destroy-IsDestroyed vm space h)
      (λ given f.
        IsDestroyed-added vm added (clone_regions added space rs objs).1 space
          (add_region-IsAdded vm space obj (vm.regions r) (ground (arith, given))) (ih f))
      e

IsSameUse-refl : (vm : Vm) → IsSameUse vm vm
IsSameUse-refl vm = record { regions = λ a. refl; pages = λ a. refl; spaces = λ a. refl }

-- The state after `vm_create_address_space` and the copy of the heap settings
abbrev created : (ℕ → ℕ) → Vm → ℕ → ℕ → ℕ → Vm
created master vm src space page =
    copy_heap
      (record vm {
        live_spaces = hold space vm.live_spaces;
        live_pages = hold page vm.live_pages;
        spaces = update vm.spaces space (new_space page);
        tables = update vm.tables page (new_table master true);
      })
      space src

-- `vm_create_address_space` when it gets an object and a page
abbrev given : (ℕ → ℕ) → Vm → ℕ → ℕ → Vm
given master vm space page = record vm {
  live_spaces = hold space vm.live_spaces;
  live_pages = hold page vm.live_pages;
  spaces = update vm.spaces space (new_space page);
  tables = update vm.tables page (new_table master true);
}

create-given :
    (master : ℕ → ℕ) (vm : Vm) (space page : ℕ)
    → space ≢ 0
    → page ≢ 0
    → create master vm 1 space page ≡ (space, given master vm space page)
unfolding create
create-given master vm space page h k = λ i.
    if ==-false space 0 h i
    then (0, vm)
    else if ==-false page 0 k i
    then (0, record vm { live_spaces = erase space (hold space vm.live_spaces) })
    else (space, given master vm space page)

created_space :
    (master : ℕ → ℕ) (vm : Vm) (src space page : ℕ)
    → (((created master vm src space page).spaces space).regions ≡ [])
      × (((created master vm src space page).spaces space).pml4_phys ≡ page)
created_space master vm src space page = rw (==-refl space) (refl, refl)

created-IsSameUse :
    (master : ℕ → ℕ) (vm last : Vm) (src space page : ℕ)
    → space ≢ 0
    → page ≢ 0
    → IsDestroyed (created master vm src space page) space last
    → IsSameUse vm last
unfolding occurrences
created-IsSameUse master vm last src space page h k d =
    let (no_regions, table) = created_space master vm src space page in
    record {
      regions = λ a.
          d.regions a
          ∙ (λ i. occurrences a vm.live_regions - occurrences a (no_regions i))
          ∙ omega arith;
      pages = λ a.
          d.pages a
          ∙ (λ i.
              occurrences a (hold_other page vm.live_pages k i) - (if table i == a then 1 else 0))
          ∙ omega arith;
      spaces = λ a.
          d.spaces a
          ∙ (λ i.
              occurrences a (hold_other space vm.live_spaces h i) - (if space == a then 1 else 0))
          ∙ omega arith;
    }

-- The structure is given back when there is no page for the table.
unpaged-IsSameUse :
    (vm : Vm) (space : ℕ)
    → space ≢ 0
    → IsSameUse vm (record vm { live_spaces = erase space (hold space vm.live_spaces) })
unfolding occurrences
unpaged-IsSameUse vm space h = record {
  regions = λ a. refl;
  pages = λ a. refl;
  spaces = λ a.
      occurrences-erase space a (hold space vm.live_spaces)
      ∙ (λ i. occurrences a (hold_other space vm.live_spaces h i) - (if space == a then 1 else 0))
      ∙ omega arith;
}

clone_created-refused :
    (master : ℕ → ℕ) (vm : Vm) (src space page : ℕ) (objs : List ℕ)
    → space ≢ 0
    → page ≢ 0
    → (clone_created src objs (space, given master vm space page)).0 ≡ 0
    → IsSameUse vm (clone_created src objs (space, given master vm space page)).1
unfolding clone_created
clone_created-refused master vm src space page objs h k e =
    let vm' = created master vm src space page in
    let rs = ((given master vm space page).spaces src).regions in
    pick_result (IsSameUse vm) (space == 0) (0, given master vm space page)
      (clone_regions vm' space rs objs) (λ null. absurd (h (ground (arith, null))))
      (λ _ f.
        created-IsSameUse master vm (clone_regions vm' space rs objs).1 src space page h k
          (clone_regions-IsDestroyed vm' space rs objs h f))
      e

clone-no_space :
    (master : ℕ → ℕ) (vm : Vm) (src space page : ℕ) (objs : List ℕ)
    → space ≡ 0
    → clone master vm src space page objs ≡ (0, vm)
unfolding clone clone_created create
clone-no_space master vm src space page objs e = rw e refl

clone-no_page :
    (master : ℕ → ℕ) (vm : Vm) (src space page : ℕ) (objs : List ℕ)
    → space ≢ 0
    → page ≡ 0
    → clone master vm src space page objs
      ≡ (0, record vm { live_spaces = erase space (hold space vm.live_spaces) })
unfolding clone clone_created create
clone-no_page master vm src space page objs h e = rw e (λ i. clone_created src objs (
    if ==-false space 0 h i
    then (0, vm)
    else (0, record vm { live_spaces = erase space (hold space vm.live_spaces) })))

-- `vm_clone_address_space` that returns NULL, whichever allocation fails, leaves nothing allocated:
-- the same regions, pages and address spaces are in use as before, as often.
pub clone-IsSameUse :
    (master : ℕ → ℕ) (vm : Vm) (src space page : ℕ) (objs : List ℕ)
    → (clone master vm src space page objs).0 ≡ 0
    → IsSameUse vm (clone master vm src space page objs).1
unfolding clone
clone-IsSameUse master vm src space page objs e = elim (ℕ_discrete space 0) [
  | yes null ↦
      subst (λ (r : ℕ × Vm). IsSameUse vm r.1)
        (sym (clone-no_space master vm src space page objs null)) (IsSameUse-refl vm)
  | no h ↦ elim (ℕ_discrete page 0) [
    | yes null ↦
        subst (λ (r : ℕ × Vm). IsSameUse vm r.1)
          (sym (clone-no_page master vm src space page objs h null)) (unpaged-IsSameUse vm space h)
    | no k ↦
        let made = create-given master vm space page h k in
        subst (λ (r : ℕ × Vm). IsSameUse vm (clone_created src objs r).1) (sym made)
          (clone_created-refused master vm src space page objs h k
            (subst (λ (r : ℕ × Vm). (clone_created src objs r).0 ≡ 0) made e))
  ]
]
