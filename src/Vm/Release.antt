-- ===== src/Vm/Release.antt =====
-- What giving an address space of kernel/vm.c back frees.
use native.Mathlib.Decide.{ℕ_discrete}
use emergence_kernel.Slab.Erase.{erase_self, erase-other}
use emergence_kernel.Prelude.Counts.{occurrences}
use emergence_kernel.Prelude.{
  refl, ◌∙◌, ap, ℤ, inr, ==-refl, inl, Bool-cases, false, [], ◌⊎◌, true, ◌==◌, ◌∷◌, arith,
  decrement, if◌then◌else◌, ==-false, ◌-◌, ◌≡◌, ◌≢◌, List, ℕ,
}
use emergence_kernel.Vm.{
  AddressSpace, set_refcount, is_positive, erase, Vm, free_regions, destroy, put_space,
}

pub occurrences-erase :
    (p q : ℕ) (xs : List ℕ)
    → occurrences q (erase p xs) ≡ occurrences q xs - (if p == q then 1 else 0)
occurrences-erase p q xs = elim (ℕ_discrete q p) [
  | yes same ↦ rw same (ground (arith, erase_self p xs))
  | no other ↦ ground (arith, other, erase-other p q xs other)
]

pub free_regions-frees :
    (a : ℕ) (rs live : List ℕ)
    → occurrences a (free_regions rs live) ≡ occurrences a live - occurrences a rs
unfolding free_regions occurrences
free_regions-frees a [] live = omega arith
free_regions-frees a (r ∷ rs) live =
    ground (arith, free_regions-frees a rs (erase r live), occurrences-erase r a live)

-- What is freed when an address space is destroyed: its regions, its table and the structure itself.
pub record IsDestroyed (vm : Vm) (space : ℕ) (vm' : Vm) : Type 0 where
  pub regions :
      (a : ℕ)
      → occurrences a vm'.live_regions
        ≡ occurrences a vm.live_regions - occurrences a (vm.spaces space).regions
  pub pages :
      (a : ℕ)
      → occurrences a vm'.live_pages
        ≡ occurrences a vm.live_pages - (if (vm.spaces space).pml4_phys == a then 1 else 0)
  pub spaces :
      (a : ℕ)
      → occurrences a vm'.live_spaces ≡ occurrences a vm.live_spaces - (if space == a then 1 else 0)

pub destroy-IsDestroyed :
    (vm : Vm) (space : ℕ) → space ≢ 0 → IsDestroyed vm space (destroy vm space)
unfolding destroy
destroy-IsDestroyed vm space h = rw (==-false space 0 h) (record {
  regions = λ a. free_regions-frees a (vm.spaces space).regions vm.live_regions;
  pages = λ a. occurrences-erase (vm.spaces space).pml4_phys a vm.live_pages;
  spaces = λ a. occurrences-erase space a vm.live_spaces;
})

-- Only the count of references differs.
pub record IsCounted (vm : Vm) (space : ℕ) (vm' : Vm) : Type 0 where
  pub refcount : (vm'.spaces space).refcount ≡ decrement (vm.spaces space).refcount
  pub regions : vm'.live_regions ≡ vm.live_regions
  pub pages : vm'.live_pages ≡ vm.live_pages
  pub spaces : vm'.live_spaces ≡ vm.live_spaces

set_refcount-same :
    (vm : Vm) (space : ℕ) (n : ℤ)
    → (set_refcount vm space n).spaces space ≡ record (vm.spaces space) { refcount = n }
set_refcount-same vm space n = rw (==-refl space) refl

set_refcount-IsDestroyed :
    (vm : Vm) (space : ℕ) (n : ℤ)
    → space ≢ 0
    → IsDestroyed vm space (destroy (set_refcount vm space n) space)
set_refcount-IsDestroyed vm space n h =
    let d = destroy-IsDestroyed (set_refcount vm space n) space h in
    record {
      regions = λ a.
          d.regions a
          ∙ ap (λ (s : AddressSpace). occurrences a vm.live_regions - occurrences a s.regions)
              (set_refcount-same vm space n);
      pages = λ a.
          d.pages a
          ∙ ap
              (λ (s : AddressSpace).
                occurrences a vm.live_pages - (if s.pml4_phys == a then 1 else 0))
              (set_refcount-same vm space n);
      spaces = d.spaces;
    }

-- Giving back a reference of an address space: with more than one, only the count goes down by one and
-- nothing is freed; the last one frees all its regions, its table and the structure, once each, and
-- nothing else.
pub put_space-frees :
    (vm : Vm) (space : ℕ)
    → space ≢ 0
    → ((is_positive (decrement (vm.spaces space).refcount) ≡ true)
        × IsCounted vm space (put_space vm space))
      ⊎ ((is_positive (decrement (vm.spaces space).refcount) ≡ false)
          × IsDestroyed vm space (put_space vm space))
unfolding put_space
put_space-frees vm space h =
    elim (Bool-cases (is_positive (decrement (vm.spaces space).refcount))) [
      | inl more ↦ inl (
        more,
        rw (==-false space 0 h, more)
            (record {
              refcount =
                  ap (λ (s : AddressSpace). s.refcount)
                    (set_refcount-same vm space (decrement (vm.spaces space).refcount));
              regions = refl;
              pages = refl;
              spaces = refl;
            }),
      )
      | inr last ↦ inr (
        last,
        rw (==-false space 0 h, last)
            (set_refcount-IsDestroyed vm space (decrement (vm.spaces space).refcount) h),
      )
    ]
