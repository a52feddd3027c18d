-- ===== src/Pcd/Region.antt =====
-- pcd_mark_region of kernel/pcd.c: which entries the loop writes, and what it counts.
use emergence_kernel.Prelude.{
  ℕ, zero, suc, ◌+◌, ◌-◌, ◌*◌, ◌/◌, ◌≤◌, ◌<◌, ◌≡◌, ◌∙◌, refl, arith, ◌&&◌, ltb, leb, if◌then◌else◌,
  min, max, inl, inr, Bool, ap, Bool-cases, ltb→lt, u64_mod, page_size, page_floor, page_ceil,
  add_u64,
}
use emergence_kernel.Pcd.{
  PcdState, write_type, is_managed, get_index, mark_page, mark_loop, mark_region,
}
use emergence_kernel.Pcd.Laws.{IsReady}

-- Entry `i` belongs to a page from `p` up to, and not including, `e`.
abbrev pub within : PcdState → ℕ → ℕ → ℕ → Bool
within s p e i = leb p (s.base_page + i) && ltb (s.base_page + i) e && ltb i s.max_pages

-- How many pages from `p` up to `e` have an entry.
abbrev pub covered : PcdState → ℕ → ℕ → ℕ
covered s p e = min e (s.base_page + s.max_pages) - max p s.base_page

-- The table `s'` is `s` with the entries of the pages from `p` up to `e` set to `t`.
pub record Marked (s s' : PcdState) (p e t : ℕ) : Type 0 where
  pub same_base : s'.base_page ≡ s.base_page
  pub same_max : s'.max_pages ≡ s.max_pages
  pub same_ready : s'.initialized ≡ s.initialized
  pub types : (i : ℕ) → (s'.pages i).type ≡ (if within s p e i then t else (s.pages i).type)

mark_page_lem :
    {s : PcdState} (c p t : ℕ)
    → IsReady s
    → mark_page (s, c) (p * 4096) t ≡ (
        if leb s.base_page p && ltb p (s.base_page + s.max_pages)
        then (write_type s (p - s.base_page) t, c + 1)
        else (s, c))
unfolding mark_page is_managed get_index
mark_page_lem c p t r = ground arith

mark_page-Marked :
    {s : PcdState} (c p t : ℕ)
    → IsReady s
    → Marked s (mark_page (s, c) (p * 4096) t).0 p (p + 1) t
      × ((mark_page (s, c) (p * 4096) t).1 ≡ c + covered s p (p + 1))
mark_page-Marked {s} c p t r =
    rw (mark_page_lem c p t r)
      (elim (Bool-cases (leb s.base_page p && ltb p (s.base_page + s.max_pages))) [
        | inl inside ↦ rw inside (
          record {
            same_base = refl;
            same_max = refl;
            same_ready = refl;
            types = λ i. ground arith;
          },
          ground arith,
        )
        | inr outside ↦ rw outside (
          record {
            same_base = refl;
            same_max = refl;
            same_ready = refl;
            types = λ i. ground arith;
          },
          ground arith,
        )
      ])

Marked-trans :
    {s s' s'' : PcdState} {p m e t : ℕ}
    → p ≤ m
    → m ≤ e
    → Marked s s' p m t
    → Marked s' s'' m e t
    → Marked s s'' p e t
Marked-trans h k a b = record {
  same_base = ground arith;
  same_max = ground arith;
  same_ready = ground arith;
  types = λ i. ground (arith, a.types i, b.types i);
}

Marked-empty : (s : PcdState) (p e t : ℕ) → e ≤ p → Marked s s p e t
Marked-empty s p e t h = record {
  same_base = refl;
  same_max = refl;
  same_ready = refl;
  types = λ i. ground arith;
}

pub Marked-IsReady : {s s' : PcdState} {p e t : ℕ} → Marked s s' p e t → IsReady s → IsReady s'
Marked-IsReady a r = record { ready = a.same_ready ∙ r.ready; no_wrap = omega arith }

covered-split :
    {s s' : PcdState} {p e t : ℕ}
    → p < e
    → Marked s s' p (p + 1) t
    → covered s p (p + 1) + covered s' (p + 1) e ≡ covered s p e
covered-split h a = omega (arith, a.same_base, a.same_max)

-- The loop's test and step, in pages.
page_test : (p e : ℕ) → ltb (p * 4096) (e * 4096) ≡ ltb p e
page_test p e = ground arith

next_page : (p e : ℕ) → p < e → e * 4096 < u64_mod → add_u64 (p * 4096) page_size ≡ (p + 1) * 4096
next_page p e h small = omega arith

floor_page : (b n : ℕ) → b + n < u64_mod → page_floor (add_u64 b n) ≡ (b + n) / page_size * 4096
floor_page b n h = omega arith

ceil_page : (b : ℕ) → b + 4095 < u64_mod → page_ceil b ≡ (b + 4095) / page_size * 4096
ceil_page b h = omega arith

mark_loop-Marked :
    (fuel : ℕ) {s : PcdState} (c p e t : ℕ)
    → IsReady s
    → p ≤ e
    → e - p < fuel
    → e * 4096 < u64_mod
    → Marked s (mark_loop fuel (s, c) (p * 4096) (e * 4096) t).0 p e t
      × ((mark_loop fuel (s, c) (p * 4096) (e * 4096) t).1 ≡ c + covered s p e)
unfolding mark_loop
mark_loop-Marked zero c p e t r le enough small = absurd (omega arith)
mark_loop-Marked (suc fuel) {s} c p e t r le enough small = elim (Bool-cases (ltb p e)) [
  | inl more ↦
      let (one, counted) = mark_page-Marked c p t r in
      let (rest, total) =
        mark_loop-Marked fuel (mark_page (s, c) (p * 4096) t).1 (p + 1) e t (Marked-IsReady one r)
          (ground arith) (ground arith) small in
      rw (page_test p e, more, next_page p e (ltb→lt p e more) small)
        (
          Marked-trans (omega arith) (ground arith) one rest,
          omega (arith, total, counted, covered-split (ltb→lt p e more) one),
        )
  | inr done ↦ rw (page_test p e, done) (Marked-empty s p e t (ground arith), ground arith)
]

-- The first whole page of a region, and the page after its last whole one.
abbrev pub first_page : ℕ → ℕ
first_page base = (base + 4095) / page_size

abbrev pub end_page : ℕ → ℕ → ℕ
end_page base size = (base + size) / page_size

mark_region_ready :
    {s : PcdState} (base size t : ℕ)
    → IsReady s
    → mark_region s base size t ≡ (
        if leb (page_floor (add_u64 base size)) (page_ceil base)
        then (s, 0)
        else mark_loop
            (suc ((page_floor (add_u64 base size) - page_ceil base) / page_size))
            (s, 0)
            (page_ceil base)
            (page_floor (add_u64 base size))
            t)
unfolding mark_region
mark_region_ready {s} base size t r =
    ap
      (λ b.
        if b
        then (if leb (page_floor (add_u64 base size)) (page_ceil base)
            then (s, 0)
            else mark_loop (suc ((page_floor (add_u64 base size) - page_ceil base) / page_size))
                (s, 0) (page_ceil base) (page_floor (add_u64 base size)) t)
        else (s, 0))
      r.ready

-- For a region whose end, and whose start rounded up, do not pass 2 ^ 64: the loop runs to its end,
-- the entries of the pages that lie wholly inside the region get the type, no other entry changes,
-- and the result is the number of entries set.
pub mark_region-Marked :
    {s : PcdState} (base size t : ℕ)
    → IsReady s
    → base + 4095 < u64_mod
    → base + size < u64_mod
    → Marked s (mark_region s base size t).0 (first_page base) (end_page base size) t
      × ((mark_region s base size t).1 ≡ covered s (first_page base) (end_page base size))
mark_region-Marked {s} base size t r hb hs =
    let p : ℕ = first_page base in
    let e : ℕ = end_page base size in
    rw (mark_region_ready base size t r, floor_page base size hs, ceil_page base hb)
      (elim (Bool-cases (leb (e * 4096) (p * 4096))) [
        | inl empty ↦ rw empty (Marked-empty s p e t (ground arith), ground arith)
        | inr more ↦
            let (marked, counted) =
              mark_loop-Marked (suc ((e * 4096 - p * 4096) / page_size)) 0 p e t r (ground arith)
                (ground arith) (ground arith) in
            rw more (marked, counted ∙ omega arith)
      ])
