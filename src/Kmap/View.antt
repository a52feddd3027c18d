-- ===== src/Kmap/View.antt =====
-- What the mappings of kernel/kmap.c say of an address, and that a split does not change it.
use emergence_kernel.Prelude.Counts.{occurrences}
use emergence_kernel.Pmm.Valid.Moves.{update_self, update-ne}
use emergence_kernel.Kmap.Find.{contains}
use emergence_kernel.Kmap.{
  page_aligned, KmapState, split, insert_after, lower_part, update, upper_part, some, none, Option,
  ◌∷◌, List, ltb, Kmap,
}
use emergence_kernel.Prelude.{
  ◌≤◌, ==_iff, sym, subst, ap, ◌∙◌, Bool-cases, refl, inr, inl, arith, [], false, ◌≢◌, true, ◌==◌,
  ◌^◌, ◌⊎◌, if◌then◌else◌, ◌%◌, ◌≡◌, ◌&&◌, ◌-◌, ◌<◌, ◌+◌, ℕ,
}

pub record PageView : Type 0 where
  pub map_type : ℕ
  pub pageable : ℕ
  pub monitor : ℕ
  pub flags : ℕ
  pub phys : Option ℕ

-- The physical address of an address in a mapping, which has none if its pages are allocated on demand
abbrev pub phys_of : Kmap → ℕ → Option ℕ
phys_of e addr =
    if e.phys_base == 0 then none else some ((e.phys_base + (addr - e.virt_start)) % 2 ^ 64)

-- The properties that an entry gives to an address, and the address's physical one.
abbrev pub view_in : Kmap → ℕ → PageView
view_in e addr = record {
  map_type = e.map_type;
  pageable = e.pageable;
  monitor = e.monitor;
  flags = e.flags;
  phys = phys_of e addr;
}

unfoldable pub view : (ℕ → Kmap) → List ℕ → ℕ → Option PageView
view entries [] addr = none
view entries (x ∷ xs) addr =
    let rest = view entries xs addr in
    if contains (entries x) addr then some (view_in (entries x) addr) else rest

-- Descriptors outside the list do not matter, nor do two that do not contain the address.
view-ext :
    (entries entries' : ℕ → Kmap) (xs : List ℕ) (addr : ℕ)
    → ((x : ℕ)
        → 0 < occurrences x xs
        → (entries' x ≡ entries x)
          ⊎ ((contains (entries' x) addr ≡ false) × (contains (entries x) addr ≡ false)))
    → view entries' xs addr ≡ view entries xs addr
unfolding view occurrences
view-ext entries entries' [] addr h = refl
view-ext entries entries' (x ∷ xs) addr h =
    let rest = view-ext entries entries' xs addr (λ y m. h y (omega (arith, m))) in
    elim (h x (ground arith)) [ inl e ↦ rw (e, rest) refl | inr (out, out0) ↦ rw (out, out0) rest ]

module _ (entries : ℕ → Kmap) (id new at : ℕ)
    (inside : (ltb (entries id).virt_start at && ltb at (entries id).virt_end) ≡ true)
    (other : id ≢ new) (fixed : (entries id).phys_base ≢ 0)
    (fits : (entries id).phys_base + ((entries id).virt_end - (entries id).virt_start)
      ≤ 2 ^ 64) where
  halves : ℕ → Kmap
  halves = update (update entries new (upper_part (entries id) at)) id (lower_part (entries id) at)

  at_id : halves id ≡ lower_part (entries id) at
  unfolding halves
  at_id = ground arith

  at_new : halves new ≡ upper_part (entries id) at
  unfolding halves
  at_new =
      update-ne (update entries new (upper_part (entries id) at)) id (lower_part (entries id) at)
        other
      ∙ update_self entries new (upper_part (entries id) at)

  elsewhere : (x : ℕ) → id ≢ x → new ≢ x → halves x ≡ entries x
  unfolding halves
  elsewhere x ne ne' = ground arith

  -- An address of the mapping is in one of the halves, with the same properties.
  both_halves :
      (rest : Option PageView) (addr : ℕ)
      → (if contains (lower_part (entries id) at) addr
          then some (view_in (lower_part (entries id) at) addr)
          else if contains (upper_part (entries id) at) addr
          then some (view_in (upper_part (entries id) at) addr)
          else rest)
        ≡ (if contains (entries id) addr then some (view_in (entries id) addr) else rest)
  both_halves rest addr = elim (Bool-cases (contains (lower_part (entries id) at) addr)) [
    | inl low ↦ rw (low, whole_low low) refl
    | inr out ↦ elim (Bool-cases (contains (upper_part (entries id) at) addr)) [
      | inl high ↦ rw (out, high, whole_high high) (ap (λ p. some (with_phys p)) (same_phys high))
      | inr out' ↦ rw (out, out', whole_out out out') refl
    ]
  ]
    where
      with_phys : Option ℕ → PageView
      with_phys p = record {
        map_type = (entries id).map_type;
        pageable = (entries id).pageable;
        monitor = (entries id).monitor;
        flags = (entries id).flags;
        phys = p;
      }

      whole_low :
          contains (lower_part (entries id) at) addr ≡ true → contains (entries id) addr ≡ true
      whole_low low = ground (arith, low, inside)

      whole_high :
          contains (upper_part (entries id) at) addr ≡ true → contains (entries id) addr ≡ true
      whole_high high = ground (arith, high, inside)

      whole_out :
          contains (lower_part (entries id) at) addr ≡ false
          → contains (upper_part (entries id) at) addr ≡ false
          → contains (entries id) addr ≡ false
      whole_out out out' = ground (arith, out, out', inside)

      same_phys :
          contains (upper_part (entries id) at) addr ≡ true
          → phys_of (upper_part (entries id) at) addr ≡ phys_of (entries id) addr
      same_phys high =
          let based : ((entries id).phys_base == 0) ≡ false = ground (arith, fixed) in
          let above : (((entries id).phys_base + (at - (entries id).virt_start)) % 2 ^ 64 == 0)
              ≡ false =
            ground (arith, fixed, fits, inside) in
          rw (based, above) (ap some (ground (arith, high, inside)))

  -- Entries behind the mapping say the same of addresses that the mapping does not contain.
  behind :
      (xs : List ℕ) (addr : ℕ)
      → occurrences new xs ≡ 0
      → contains (entries id) addr ≡ false
      → view halves xs addr ≡ view entries xs addr
  behind xs addr fresh out = view-ext entries halves xs addr (λ x m. elim (Bool-cases (x == id)) [
    | inl here ↦ inr (
      subst (λ y. contains (halves y) addr ≡ false) (sym ((==_iff x id).0 here))
          (ap (λ e. contains e addr) at_id ∙ lower_out),
      subst (λ y. contains (entries y) addr ≡ false) (sym ((==_iff x id).0 here)) out,
    )
    | inr there ↦ inl (
        elsewhere x (ground (arith, there))
          (λ e. absurd (omega (arith, m, fresh, ap (λ y. occurrences y xs) e))))
  ])
    where
      lower_out : contains (lower_part (entries id) at) addr ≡ false
      lower_out = ground (arith, out, inside)

  at_mapping :
      (xs : List ℕ) (addr : ℕ)
      → occurrences new xs ≡ 0
      → view halves (id ∷ new ∷ xs) addr ≡ view entries (id ∷ xs) addr
  unfolding view
  at_mapping xs addr fresh =
      rw (at_id, at_new)
        (both_halves (view halves xs addr) addr ∙ elim (Bool-cases (contains (entries id) addr)) [
          | inl within ↦ rw within refl
          | inr out ↦ rw out (behind xs addr fresh out)
        ])

  split-view :
      (xs : List ℕ) (addr : ℕ)
      → occurrences new xs ≡ 0
      → view halves (insert_after id new xs) addr ≡ view entries xs addr
  unfolding view insert_after occurrences
  split-view [] addr h = refl
  split-view (x ∷ xs) addr h = elim (Bool-cases (x == id)) [
    | inl here ↦ rw here (
        subst (λ y. view halves (y ∷ new ∷ xs) addr ≡ view entries (y ∷ xs) addr)
          (sym ((==_iff x id).0 here)) (at_mapping xs addr (omega (arith, h))))
    | inr there ↦
        rw
          (
            there,
            elsewhere x (ground (arith, there)) (ground (arith, h)),
            split-view xs addr (ground (arith, h)),
          )
          refl
  ]

-- What the registry says of an address.
abbrev pub page_view : KmapState → ℕ → Option PageView
page_view s addr = view s.entries s.kmap_list addr

-- In a mapping that is allocated on demand no address has a physical one, but in the upper half of its
-- split each has: its distance from the mapping's start.
phys_of-on_demand :
    (e : Kmap) (at addr : ℕ)
    → e.phys_base ≡ 0
    → e.virt_start < at
    → at ≤ addr
    → addr < 2 ^ 64
    → (phys_of e addr ≡ none) × (phys_of (upper_part e at) addr ≡ some (addr - e.virt_start))
phys_of-on_demand e at addr free inside above word =
    let away : ((e.phys_base + (at - e.virt_start)) % 2 ^ 64 == 0) ≡ false =
      ground (arith, free, inside, above, word) in
    (rw free refl, rw away (ap some (omega (arith, free, inside, above, word))))

-- For a mapping with a physical base, that is one whose pages are not allocated on demand, and whose
-- physical range ends within 64 bits: a split, whether it succeeds or is refused, changes the type, the
-- protection, the flags and the physical address of no address, if the new descriptor is another one
-- than the mapping's and is not in the list.
pub split-page_view :
    (s : KmapState) (id new at addr : ℕ)
    → occurrences new s.kmap_list ≡ 0
    → id ≢ new
    → (s.entries id).phys_base ≢ 0
    → (s.entries id).phys_base + ((s.entries id).virt_end - (s.entries id).virt_start) ≤ 2 ^ 64
    → page_view (split s (some id) (some new) at).1 addr ≡ page_view s addr
unfolding split halves
split-page_view s id new at addr fresh other fixed fits =
    elim (Bool-cases
      (page_aligned at && ltb (s.entries id).virt_start at && ltb at (s.entries id).virt_end)) [
        | inl ok ↦
            rw ok
              (split-view s.entries id new at (inner ok) other fixed fits s.kmap_list addr fresh)
        | inr refused ↦ rw refused refl
      ]
  where
    inner :
        (page_aligned at && ltb (s.entries id).virt_start at && ltb at (s.entries id).virt_end)
          ≡ true
        → (ltb (s.entries id).virt_start at && ltb at (s.entries id).virt_end) ≡ true
    inner ok = ground (arith, ok)
