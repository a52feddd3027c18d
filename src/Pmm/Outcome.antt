-- ===== src/Pmm/Outcome.antt =====
-- pmm_alloc of kernel/pmm.c: its result, and the marking of the pages in the table of kernel/pcd.c.
use emergence_kernel.Prelude.{
  ℕ, zero, suc, ◌+◌, ◌-◌, ◌*◌, ◌/◌, ◌^◌, ◌≤◌, ◌<◌, ◌≡◌, ◌≢◌, ◌∙◌, ◌⊎◌, sym, ap, subst, refl, inl,
  inr, arith, true, false, Option, none, some, List, [], ◌∷◌, ◌==◌, ◌&&◌, ◌%◌, ltb, leb,
  if◌then◌else◌, Bool-cases, add_u64, u64_mod, page_size,
}
use emergence_kernel.Pcd
use emergence_kernel.Pcd.{PcdState}
use emergence_kernel.Pcd.Laws.{
  IsReady, InRange, get_type-set_type, get_type-unmanaged, set_type_rejected, set_type-InRange,
  write_type-IsReady, InRange-of_is_managed, is_managed_of-InRange,
}
use emergence_kernel.Pmm.{
  Block, PmmState, max_order, size_of, find_first, find_free_block, own_pages, finish_alloc, alloc,
}
use emergence_kernel.Pmm.Mass.{sum, only, sum-snoc}
use emergence_kernel.Pmm.Valid.Moves.{only_self}
use emergence_kernel.Pmm.Valid.Taken.{taken-listed}
use emergence_kernel.Pmm.Valid.{IsShaped, IsValid, cover}
use emergence_kernel.Pmm.Alloc.{Allocated, Found, find_free_block-Found}

find_first-none : (xs : List ℕ) → find_first xs ≡ none → xs ≡ []
unfolding find_first
find_first-none [] e = refl
find_first-none (x ∷ xs) e = cc

-- A call that finds no block.
pub record Exhausted (s : PmmState) (pcd : PcdState) (order : ℕ) (r : ℕ × PmmState × PcdState)
    : Type 0 where
  pub null : r.0 ≡ 0
  pub same : (r.1 ≡ s) × (r.2 ≡ pcd)
  pub empty : (k : ℕ) → order ≤ k → k ≤ max_order → (s.free_lists k).list ≡ []

-- A call that hands out descriptor `b`.
pub record HandedOut (s : PmmState) (pcd : PcdState) (order : ℕ) (r : ℕ × PmmState × PcdState)
    (b : ℕ) : Type 0 where
  pub lists : Allocated s r.1 b order
  pub address : r.0 ≡ (r.1.blocks b).base_addr
  pub marked : r.2 ≡ (if pcd.initialized then own_pages (2 ^ order) pcd r.0 else pcd)

-- `pmm_alloc` with an order of at most 9 on valid lists: either it returns NULL and changes nothing,
-- and then no free list of that order or a higher one has a block; or it hands out a block of that
-- order, appended to the allocated ones, the lists stay valid, no address is in more blocks than
-- before, and in as many if nine descriptors were left. The pages are marked if the table is ready.
pub alloc-outcome :
    (s : PmmState) (pcd : PcdState) (order : ℕ)
    → IsValid s
    → order ≤ max_order
    → Exhausted s pcd order (alloc s pcd order)
      ⊎ ((b : ℕ) × HandedOut s pcd order (alloc s pcd order) b)
unfolding alloc finish_alloc
alloc-outcome s pcd order v le =
    let small : ltb max_order order ≡ false = ground arith in
    rw small (go (find_free_block s order) (find_free_block-Found s order v le))
  where
    go :
        (r : Option ℕ × PmmState)
        → Found s order order r
        → Exhausted s pcd order (finish_alloc order pcd r)
          ⊎ ((b : ℕ) × HandedOut s pcd order (finish_alloc order pcd r) b)
    go (none, s') f = inl (record {
      null = refl;
      same = (f.0, refl);
      empty = λ k h h'. find_first-none (s.free_lists k).list (f.1 k h h');
    })
    go (some b, s') f = inr (b, record { lists = f; address = refl; marked = refl })

-- A block that is found is handed out.
pub HandedOut-found :
    (s : PmmState) (pcd : PcdState) (order b : ℕ)
    → IsValid s
    → order ≤ max_order
    → (find_free_block s order).0 ≡ some b
    → HandedOut s pcd order (alloc s pcd order) b
unfolding alloc finish_alloc
HandedOut-found s pcd order b v le found =
    let small : ltb max_order order ≡ false = ground arith in
    rw small (go (find_free_block s order) (find_free_block-Found s order v le) found)
  where
    go :
        (r : Option ℕ × PmmState)
        → Found s order order r
        → r.0 ≡ some b
        → HandedOut s pcd order (finish_alloc order pcd r) b
    go (none, s') f e = cc
    go (some c, s') f e =
        subst (λ d. HandedOut s pcd order (finish_alloc order pcd (some c, s')) d)
          (ap (λ (o : Option ℕ). elim o [ none ↦ c | some x ↦ x ]) e)
          (record { lists = f; address = refl; marked = refl })

-- No two listed blocks share an address.
abbrev pub IsDisjoint : PmmState → Type 0
IsDisjoint s = (p : ℕ) → cover p s ≤ 1

-- On valid lists of disjoint blocks the blocks are disjoint after `pmm_alloc` too, for every order.
pub alloc-IsDisjoint :
    (s : PmmState) (pcd : PcdState) (order : ℕ)
    → IsValid s
    → IsDisjoint s
    → IsDisjoint (alloc s pcd order).1
unfolding alloc
alloc-IsDisjoint s pcd order v d p = elim (Bool-cases (ltb max_order order)) [
  | inl large ↦
      subst (λ (r : ℕ × PmmState × PcdState). cover p r.1 ≤ 1) (sym (rejected large)) (d p)
  | inr small ↦ elim (alloc-outcome s pcd order v (ground arith)) [
    | inl e ↦ subst (λ (t : PmmState). cover p t ≤ 1) (sym e.same.0) (d p)
    | inr (b, h) ↦ omega (arith, h.lists.covered_le p, d p)
  ]
]
  where
    rejected : ltb max_order order ≡ true → alloc s pcd order ≡ (0, s, pcd)
    rejected large = rw large refl

-- One page and the pages after it.
range_step :
    (t addr b n : ℕ)
    → addr % page_size ≡ 0
    → (if leb (addr + page_size) b && ltb b (addr + page_size + n * page_size)
        then 1
        else (if addr / page_size == b / page_size then 1 else t))
      ≡ (if leb addr b && ltb b (addr + suc n * page_size) then 1 else t)
range_step t addr b n aligned = ground arith

-- A page that the table has no entry for reads as one of the monitor's in any case.
set_type-owned :
    {pcd : PcdState} (addr b : ℕ)
    → IsReady pcd
    → IsReady (Pcd.set_type pcd addr Pcd.nk_normal).0
      × (Pcd.get_type (Pcd.set_type pcd addr Pcd.nk_normal).0 b
          ≡ (if addr / page_size == b / page_size then Pcd.nk_normal else Pcd.get_type pcd b))
set_type-owned {pcd} addr b r = elim (Bool-cases (Pcd.is_managed pcd addr)) [
  | inl m ↦
      let inside = InRange-of_is_managed addr r m in
      (
        rw (set_type-InRange addr Pcd.nk_normal r (omega arith) inside)
            (write_type-IsReady (addr / page_size - pcd.base_page) Pcd.nk_normal r),
        (get_type-set_type addr Pcd.nk_normal b r (omega arith) inside).1,
      )
  | inr m ↦
      let outside : ¬ (InRange pcd addr) = λ h. ground (arith, is_managed_of-InRange addr r h, m) in
      rw (set_type_rejected pcd addr Pcd.nk_normal r.no_wrap (inr (inr outside)))
        (r, ground (arith, get_type-unmanaged addr b r m))
]

-- Marking the pages of a block, one after another.
own_pages-get_type :
    (n : ℕ) (pcd : PcdState) (addr b : ℕ)
    → IsReady pcd
    → addr % page_size ≡ 0
    → addr + n * page_size < u64_mod
    → IsReady (own_pages n pcd addr)
      × (Pcd.get_type (own_pages n pcd addr) b ≡ (
          if leb addr b && ltb b (addr + n * page_size) then Pcd.nk_normal else Pcd.get_type pcd b))
unfolding own_pages
own_pages-get_type zero pcd addr b r aligned fits = (r, ground arith)
own_pages-get_type (suc n) pcd addr b r aligned fits =
    let (r', one) = set_type-owned addr b r in
    let next : add_u64 addr page_size ≡ addr + page_size = omega arith in
    let (r'', rest) =
      own_pages-get_type n (Pcd.set_type pcd addr Pcd.nk_normal).0 (addr + page_size) b r'
        (omega arith) (omega arith) in
    rw next (r'', rest ∙ rw one (range_step (Pcd.get_type pcd b) addr b n aligned))

pub IsShaped-page_aligned : {block : Block} → IsShaped block → block.base_addr % page_size ≡ 0
IsShaped-page_aligned {block} h = multiple (h.index * 2 ^ block.order) (h.aligned ∙ omega arith)
  where
    multiple : (k : ℕ) → block.base_addr ≡ 4096 * k → block.base_addr % page_size ≡ 0
    multiple k e = omega arith

marked-get_type :
    (s : PmmState) (pcd : PcdState) (order c b : ℕ)
    → IsReady pcd
    → HandedOut s pcd order (alloc s pcd order) c
    → (alloc s pcd order).0 + size_of order < u64_mod
    → Pcd.get_type (alloc s pcd order).2 b ≡ (
        if leb (alloc s pcd order).0 b && ltb b ((alloc s pcd order).0 + size_of order)
        then Pcd.nk_normal
        else Pcd.get_type pcd b)
marked-get_type s pcd order c b r h fits =
    let addr = (alloc s pcd order).0 in
    let size : 2 ^ order * page_size ≡ size_of order = omega arith in
    let marked : (alloc s pcd order).2 ≡ own_pages (2 ^ order) pcd addr =
      h.marked ∙ ap (λ t. if t then own_pages (2 ^ order) pcd addr else pcd) r.ready in
    let listed_now : 0 < sum (only c) (alloc s pcd order).1.allocated_blocks = omega (
      arith,
      ap (sum (only c)) h.lists.taken,
      sum-snoc (only c) s.allocated_blocks c,
      only_self c,
    ) in
    let aligned : addr % page_size ≡ 0 =
      ap (λ t. t % page_size) h.address
      ∙ IsShaped-page_aligned (
          h.lists.valid.shaped c (taken-listed (alloc s pcd order).1 c h.lists.valid listed_now)) in
    ap (λ t. Pcd.get_type t b) marked
    ∙ (own_pages-get_type (2 ^ order) pcd addr b r aligned (omega (arith, fits, size))).1
    ∙ ap (λ t. if leb addr b && ltb b (addr + t) then Pcd.nk_normal else Pcd.get_type pcd b) size

-- When `pmm_alloc` with an order of at most 9 on valid lists gives an address that is not NULL, the
-- block from there on ends below 2^64, and the page table is initialized and its range does not wrap:
-- every address in the block reads as the monitor's and every other address reads as before.
pub alloc-get_type :
    (s : PmmState) (pcd : PcdState) (order b : ℕ)
    → IsValid s
    → IsReady pcd
    → order ≤ max_order
    → (alloc s pcd order).0 ≢ 0
    → (alloc s pcd order).0 + size_of order < u64_mod
    → Pcd.get_type (alloc s pcd order).2 b ≡ (
        if leb (alloc s pcd order).0 b && ltb b ((alloc s pcd order).0 + size_of order)
        then Pcd.nk_normal
        else Pcd.get_type pcd b)
alloc-get_type s pcd order b v r le given fits = elim (alloc-outcome s pcd order v le) [
  | inl e ↦ absurd (given e.null)
  | inr (c, h) ↦ marked-get_type s pcd order c b r h fits
]
