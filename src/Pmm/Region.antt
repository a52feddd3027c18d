-- ===== src/Pmm/Region.antt =====
-- pmm_add_region of kernel/pmm.c: a range of memory is cut into free blocks.
use emergence_kernel.Prelude.{
  ℕ, zero, suc, ◌+◌, ◌-◌, ◌*◌, ◌/◌, ◌%◌, ◌≤◌, ◌<◌, ◌≡◌, ◌∙◌, refl, inl, inr, arith, false, ◌==◌,
  ◌&&◌, ltb, leb, if◌then◌else◌, Bool-cases, add_u64, u64_mod, page_size, page_floor, page_ceil,
}
use emergence_kernel.Pmm.{PmmState, max_order, max_block_desc, size_of, add_free_block}
use emergence_kernel.Pmm.Valid.{IsValid, cover}
use emergence_kernel.Pmm.Valid.Taken.{Added, add_free_block-Added}
use emergence_kernel.Pmm.Split.{size_of-pos}

-- `for (order = MAX_ORDER; order > 0; order--)`: the first order, from the highest down, whose blocks
-- fit and are aligned at the address. The test `(addr & (block_size - 1)) == 0` is a remainder, since
-- a block's size is a power of two.
unfoldable pub fit_order : ℕ → ℕ → ℕ → ℕ
fit_order zero addr remaining = 0
fit_order (suc o) addr remaining =
    if leb (size_of (suc o)) remaining && (addr % size_of (suc o) == 0)
    then suc o
    else fit_order o addr remaining

-- `while (addr < end)`, with fuel
unfoldable pub add_loop : ℕ → PmmState → ℕ → ℕ → PmmState
add_loop zero s addr end = s
add_loop (suc fuel) s addr end =
    let order = fit_order max_order addr (end - addr) in
    let rest = add_loop fuel (add_free_block s addr order) (add_u64 addr (size_of order)) end in
    if ltb addr end then (if (order == 0) && ltb (end - addr) page_size then s else rest) else s

-- The fuel is the number of pages in the range.
unfoldable pub add_region : PmmState → ℕ → ℕ → PmmState
add_region s base size =
    let base = page_ceil base in
    let size = page_floor size in
    let end = add_u64 base size in
    if ltb size page_size
    then s
    else let s1 = add_loop (size / page_size) s base end in
      record s1 { total_pages = add_u64 s1.total_pages (size / page_size) }

-- The order that is chosen: its blocks are aligned at the address and fit.
fit_order-fits :
    (o addr remaining : ℕ)
    → addr % page_size ≡ 0
    → page_size ≤ remaining
    → (fit_order o addr remaining ≤ o)
      × (addr % size_of (fit_order o addr remaining) ≡ 0)
      × (size_of (fit_order o addr remaining) ≤ remaining)
unfolding fit_order
fit_order-fits zero addr remaining aligned h = (omega arith, aligned, h)
fit_order-fits (suc o) addr remaining aligned h =
    elim (Bool-cases (leb (size_of (suc o)) remaining && (addr % size_of (suc o) == 0))) [
      | inl fits ↦ rw fits (omega arith, ground arith, ground arith)
      | inr other ↦
          let (a, b, c) = fit_order-fits o addr remaining aligned h in
          rw other (omega (arith, a), b, c)
    ]

aligned-multiple : (a n : ℕ) → 0 < n → a % n ≡ 0 → a ≡ a / n * n
aligned-multiple a n h e = omega arith

-- The first part of a range and the rest of it.
range-split :
    (p addr size end : ℕ)
    → addr + size ≤ end
    → (if leb addr p && ltb p end then 1 else 0)
      ≡ (if leb addr p && ltb p (addr + size) then 1 else 0)
        + (if leb (addr + size) p && ltb p end then 1 else 0)
range-split p addr size end h = ground arith

-- What adding a range of `n` pages does.
pub record AddedRange (s s' : PmmState) (addr end n : ℕ) : Type 0 where
  pub valid : IsValid s'
  pub covered_le : (p : ℕ) → cover p s' ≤ cover p s + (if leb addr p && ltb p end then 1 else 0)
  pub covered :
      s.block_count + n ≤ max_block_desc
      → (p : ℕ) → cover p s' ≡ cover p s + (if leb addr p && ltb p end then 1 else 0)
  pub taken : s'.allocated_blocks ≡ s.allocated_blocks

AddedRange-empty :
    {s : PmmState} {addr end : ℕ} (n : ℕ) → IsValid s → end ≤ addr → AddedRange s s addr end n
AddedRange-empty {s} {addr} {end} n v h = record {
  valid = v;
  covered_le = λ p. omega arith;
  covered = λ room p. ground arith;
  taken = refl;
}

size_of-page_aligned : (o a : ℕ) → a % page_size ≡ 0 → (a + size_of o) % page_size ≡ 0
size_of-page_aligned o a h = omega (arith, h)

-- One block is cut off at the front of the range, and the rest is added after it.
AddedRange-step :
    {s s1 s' : PmmState} {addr end : ℕ} (o n : ℕ)
    → Added s s1 addr o
    → addr + size_of o ≤ end
    → AddedRange s1 s' (addr + size_of o) end n
    → AddedRange s s' addr end (suc n)
AddedRange-step {s} {s1} {s'} {addr} {end} o n one h rest = record {
  valid = rest.valid;
  covered_le =
      λ p. omega (arith, rest.covered_le p, one.covered_le p, range-split p addr (size_of o) end h);
  covered = λ room p. omega (
    arith,
    rest.covered (omega (arith, room, one.count)) p,
    one.covered (omega (arith, room)) p,
    range-split p addr (size_of o) end h,
  );
  taken = rest.taken ∙ one.taken;
}

add_loop-AddedRange :
    (fuel : ℕ) (s : PmmState) (addr end : ℕ)
    → IsValid s
    → addr % page_size ≡ 0
    → end % page_size ≡ 0
    → end < u64_mod
    → end ≤ addr + fuel * page_size
    → AddedRange s (add_loop fuel s addr end) addr end fuel
unfolding add_loop
add_loop-AddedRange zero s addr end v a e below enough =
    AddedRange-empty 0 v (omega (arith, enough))
add_loop-AddedRange (suc fuel) s addr end v a e below enough = elim (Bool-cases (ltb addr end)) [
  | inr done ↦ rw done (AddedRange-empty (suc fuel) v (ground arith))
  | inl more ↦
      let room : page_size ≤ end - addr = ground arith in
      let o = fit_order max_order addr (end - addr) in
      let (small, aligned, fits) = fit_order-fits max_order addr (end - addr) a room in
      let pages : 4096 ≤ size_of o = size_of-pos o in
      let inside : addr + size_of o ≤ end = omega (arith, fits, room) in
      let full : ((o == 0) && ltb (end - addr) page_size) ≡ false = ground arith in
      let next : add_u64 addr (size_of o) ≡ addr + size_of o = omega (arith, inside, below) in
      let one = add_free_block-Added s addr o v (record {
        small = small;
        index = addr / size_of o;
        aligned = aligned-multiple addr (size_of o) (omega (arith, pages)) aligned;
        ends = omega (arith, inside, below);
      }) in
      rw (more, full, next)
        (AddedRange-step o fuel one inside (
          add_loop-AddedRange fuel (add_free_block s addr o) (addr + size_of o) end one.valid
            (size_of-page_aligned o addr a) e below (omega (arith, enough, pages))))
]

-- On valid lists, and for a rounded range that ends below 2^64, `pmm_add_region` keeps the lists
-- valid and the allocated blocks as they are. With the base rounded up and the size rounded down, it
-- covers each address from that base on, for that size, once more, and no other; when descriptors run
-- out, which needs fewer left than the range has pages, it covers at most that.
pub add_region-AddedRange :
    (s : PmmState) (base size : ℕ)
    → IsValid s
    → page_ceil base + page_floor size < u64_mod
    → AddedRange s
        (add_region s base size)
        (page_ceil base)
        (page_ceil base + page_floor size)
        (page_floor size / page_size)
unfolding add_region
add_region-AddedRange s base size v below = elim (Bool-cases (ltb (page_floor size) page_size)) [
  | inl small ↦ rw small (AddedRange-empty (page_floor size / page_size) v (ground arith))
  | inr large ↦
      let end = page_ceil base + page_floor size in
      let no_wrap : add_u64 (page_ceil base) (page_floor size) ≡ end = omega (arith, below) in
      let r =
        add_loop-AddedRange (page_floor size / page_size) s (page_ceil base) end v (omega arith)
          (omega arith) below (omega arith) in
      rw (large, no_wrap)
        (record {
          valid = record {
            unique = r.valid.unique;
            bounded = r.valid.bounded;
            sorted = r.valid.sorted;
            shaped = r.valid.shaped;
          };
          covered_le = r.covered_le;
          covered = r.covered;
          taken = r.taken;
        })
]
