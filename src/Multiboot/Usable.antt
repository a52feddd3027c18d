-- ===== src/Multiboot/Usable.antt =====
-- The ranges that `parse_memory_map` of arch/x86_64/multiboot2.c adds.
use native.Mathlib.Decide.{dec_le}
use emergence_kernel.Prelude.{
  if◌then◌else◌, ap, arith, inr, inl, ◌^◌, ◌⊎◌, ◌≤◌, ◌≡◌, ◌-◌, ◌<◌, ◌%◌, ◌+◌, ℕ,
}
use emergence_kernel.Multiboot.{
  Bool, false, true, leb, sub_u64, page_floor, some, none, u64_mod, page_size, page_ceil,
  usable_range,
}

-- The bytes from the base to the first page boundary
abbrev pub padding : ℕ → ℕ
padding base = page_ceil base - base

-- Whole pages inside of the range
pub record IsInside (base length aligned_base aligned_length : ℕ) : Type 0 where
  pub base_aligned : aligned_base % page_size ≡ 0
  pub length_aligned : aligned_length % page_size ≡ 0
  pub starts : base ≤ aligned_base
  pub ends : aligned_base + aligned_length ≤ base + length
  pub positive : 0 < aligned_length

le→leb : (a b : ℕ) → a ≤ b → leb a b ≡ true
le→leb a b h = ground (arith, h)

lt→leb_false : (a b : ℕ) → b < a → leb a b ≡ false
lt→leb_false a b h = ground (arith, h)

page_ceil-near :
    (base : ℕ)
    → base < u64_mod - page_size
    → (base ≤ page_ceil base) × (page_ceil base ≤ base + 4095) × (page_ceil base % page_size ≡ 0)
page_ceil-near base h = omega (arith, h)

-- What is left of a range that reaches its first page boundary
rest_reaches :
    (base length start : ℕ)
    → base + length < u64_mod - page_size
    → base ≤ start
    → start ≤ base + 4095
    → start - base ≤ length
    → sub_u64 length (sub_u64 start base) ≡ length - (start - base)
rest_reaches base length start h a b c = omega (arith, h, a, b, c)

rest_short :
    (base length start : ℕ)
    → base + length < u64_mod - page_size
    → base ≤ start
    → start ≤ base + 4095
    → length < start - base
    → 2 ^ 64 - 4096 < sub_u64 length (sub_u64 start base)
rest_short base length start h a b c = omega (arith, h, a, b, c)

range_some :
    (base length : ℕ)
    → page_size ≤ page_floor (sub_u64 length (sub_u64 (page_ceil base) base))
    → usable_range base length
      ≡ some (page_ceil base, page_floor (sub_u64 length (sub_u64 (page_ceil base) base)))
unfolding usable_range
range_some base length h =
    let full : leb page_size (page_floor (sub_u64 length (sub_u64 (page_ceil base) base))) ≡ true =
      le→leb page_size (page_floor (sub_u64 length (sub_u64 (page_ceil base) base))) h in
    ap
      (λ (b : Bool).
        if b
        then some (page_ceil base, page_floor (sub_u64 length (sub_u64 (page_ceil base) base)))
        else none)
      full

range_none :
    (base length : ℕ)
    → page_floor (sub_u64 length (sub_u64 (page_ceil base) base)) < page_size
    → usable_range base length ≡ none
unfolding usable_range
range_none base length h =
    ap
      (λ (b : Bool).
        if b
        then some (page_ceil base, page_floor (sub_u64 length (sub_u64 (page_ceil base) base)))
        else none)
      (lt→leb_false page_size (page_floor (sub_u64 length (sub_u64 (page_ceil base) base))) h)

floor_below :
    (x : ℕ) → (page_floor x ≤ x) × (page_floor x % page_size ≡ 0) × (x < page_floor x + page_size)
floor_below x = omega arith

not_le : (a b : ℕ) → ¬ (a ≤ b) → b < a
not_le a b h = omega (arith, h)

more_than : (n : ℕ) → page_size ≤ n → 0 < n
more_than n h = omega (arith, h)

within :
    (start base length rest size : ℕ)
    → base ≤ start
    → start - base ≤ length
    → rest ≡ length - (start - base)
    → size ≤ rest
    → start + size ≤ base + length
within start base length rest size a b e c = omega (arith, a, b, e, c)

large :
    (rest size : ℕ)
    → 2 ^ 64 - 4096 < rest
    → rest < size + page_size
    → (page_size ≤ size) × (2 ^ 63 < size)
large rest size a b = omega (arith, a, b)

-- For an available range that ends at least a page below 2^64: when it reaches the first page boundary
-- at or after its base, what is added, if anything, is whole pages inside of it; when it ends before
-- that boundary, the length wraps around, and more than 2^63 bytes behind it are added.
pub usable_range-IsInside :
    (base length : ℕ)
    → base + length < u64_mod - page_size
    → ((padding base ≤ length)
        × ((usable_range base length ≡ none)
            ⊎ ((b : ℕ) × (n : ℕ) × (usable_range base length ≡ some (b, n))
                × IsInside base length b n)))
      ⊎ ((length < padding base)
          × (b : ℕ) × (n : ℕ) × (usable_range base length ≡ some (b, n))
          × (2 ^ 63 < n))
usable_range-IsInside base length h =
    let (above, near, aligned) = page_ceil-near base (omega (arith, h)) in
    let size = page_floor (sub_u64 length (sub_u64 (page_ceil base) base)) in
    let (below, whole, most) = floor_below (sub_u64 length (sub_u64 (page_ceil base) base)) in
    elim (dec_le (padding base) length) [
      | yes reaches ↦
          let rest = rest_reaches base length (page_ceil base) h above near reaches in
          inl (
            reaches,
            elim (dec_le page_size (page_floor (sub_u64 length (sub_u64 (page_ceil base) base)))) [
              | yes some_page ↦ inr (
                page_ceil base,
                size,
                range_some base length some_page,
                record {
                  base_aligned = aligned;
                  length_aligned = whole;
                  starts = above;
                  ends =
                      within (page_ceil base) base length
                        (sub_u64 length (sub_u64 (page_ceil base) base)) size above reaches rest
                        below;
                  positive = more_than size some_page;
                },
              )
              | no less ↦ inl (range_none base length (not_le page_size size less))
            ],
          )
      | no short ↦
          let wrapped =
            rest_short base length (page_ceil base) h above near
              (not_le (padding base) length short) in
          inr (
            not_le (padding base) length short,
            page_ceil base,
            size,
            range_some base length
                (large (sub_u64 length (sub_u64 (page_ceil base) base)) size wrapped most).0,
            (large (sub_u64 length (sub_u64 (page_ceil base) base)) size wrapped most).1,
          )
    ]
