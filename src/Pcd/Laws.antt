-- ===== src/Pcd/Laws.antt =====
-- Setting and reading the type of one page (kernel/pcd.c).
use emergence_kernel.Prelude.{
  Bool-cases, inl, inr, refl, ℕ, ◌+◌, ◌-◌, ◌/◌, ◌≤◌, ◌<◌, ◌≡◌, ◌⊎◌, arith, ◌∙◌, update, true, false,
  ◌==◌, if◌then◌else◌, u64_mod, page_size, page_floor, pos, minus_one,
}
use emergence_kernel.Pcd.{
  Pcd, PcdState, nk_normal, type_max, set_type_internal, get_index, is_managed, set_type, get_type,
  write_type,
}

-- What `pcd_init` establishes: the managed range does not wrap.
pub record IsReady (s : PcdState) : Type 0 where
  pub ready : s.initialized ≡ true
  pub no_wrap : s.base_page + s.max_pages < u64_mod

-- The pages that the array has an entry for.
abbrev pub InRange : PcdState → ℕ → Type 0
InRange s addr = (s.base_page ≤ addr / page_size) × (addr / page_size < s.base_page + s.max_pages)

pub is_managed_of-InRange : {s : PcdState} (a : ℕ) → IsReady s → InRange s a → is_managed s a ≡ true
unfolding is_managed
is_managed_of-InRange a r h = ground arith

pub InRange-of_is_managed : {s : PcdState} (a : ℕ) → IsReady s → is_managed s a ≡ true → InRange s a
unfolding is_managed
InRange-of_is_managed a r h = ground arith

pub is_managed-floor : (s : PcdState) (a : ℕ) → is_managed s (page_floor a) ≡ is_managed s a
unfolding is_managed
is_managed-floor s a = ground arith

pub get_index-InRange :
    (s : PcdState) (a : ℕ) → InRange s a → get_index s a ≡ a / page_size - s.base_page
unfolding get_index
get_index-InRange s a h = ground arith

pub get_index-floor : (s : PcdState) (a : ℕ) → get_index s (page_floor a) ≡ get_index s a
unfolding get_index
get_index-floor s a = ground arith

-- On the managed pages `pcd_get_type` reads the entry at the page's offset.
pub get_type-lookup :
    {s : PcdState} (b : ℕ)
    → IsReady s
    → get_type s b
      ≡ (if is_managed s b then (s.pages (b / page_size - s.base_page)).type else nk_normal)
unfolding get_type is_managed get_index
get_type-lookup b r = ground arith

pub set_type-InRange :
    {s : PcdState} (a t : ℕ)
    → IsReady s
    → t ≤ type_max
    → InRange s a
    → set_type s a t ≡ (write_type s (a / page_size - s.base_page) t, pos 0)
unfolding set_type
set_type-InRange {s} a t r ht h = ground (
  arith,
  is_managed-floor s a,
  is_managed_of-InRange a r h,
  get_index-floor s a,
  get_index-InRange s a h,
)

is_managed-write_type :
    (s : PcdState) (i t b : ℕ) → is_managed (write_type s i t) b ≡ is_managed s b
unfolding is_managed
is_managed-write_type s i t b = refl

pub write_type-IsReady : {s : PcdState} (i t : ℕ) → IsReady s → IsReady (write_type s i t)
write_type-IsReady i t r = record { ready = r.ready; no_wrap = r.no_wrap }

-- A page without an entry.
pub get_type-unmanaged :
    {pcd : PcdState} (addr b : ℕ)
    → IsReady pcd
    → is_managed pcd addr ≡ false
    → addr / page_size ≡ b / page_size
    → get_type pcd b ≡ nk_normal
unfolding get_type is_managed
get_type-unmanaged addr b r m same = ground arith

type-update :
    (pages : ℕ → Pcd) (i j t : ℕ)
    → (update pages i (record (pages i) { type = t }) j).type
      ≡ (if i == j then t else (pages j).type)
type-update pages i j t = ground arith

-- For an initialized table whose range does not wrap: a valid type at a managed address is
-- accepted, and afterwards every address on that page reads the new type and every address on
-- another page reads as before.
pub get_type-set_type :
    {s : PcdState} (a t b : ℕ)
    → IsReady s
    → t ≤ type_max
    → InRange s a
    → ((set_type s a t).1 ≡ pos 0)
      × (get_type (set_type s a t).0 b
          ≡ (if a / page_size == b / page_size then t else get_type s b))
get_type-set_type {s} a t b r ht h =
    let i : ℕ = a / page_size - s.base_page in
    rw
      (
        set_type-InRange a t r ht h,
        get_type-lookup b (write_type-IsReady i t r),
        get_type-lookup b r,
      )
      (
        refl,
        elim (Bool-cases (is_managed s b)) [
          | inl m ↦
              rw (is_managed-write_type s i t b, m)
                (type-update s.pages i (b / page_size - s.base_page) t
                  ∙ ground (arith, InRange-of_is_managed b r m))
          | inr m ↦
              rw (is_managed-write_type s i t b, m) (ground (arith, is_managed_of-InRange b r, m))
        ],
      )

-- The table is not touched, and -1 is returned, when it is not initialized, when the type is none
-- of the four, or when the page has no entry.
pub set_type_rejected :
    (s : PcdState) (a t : ℕ)
    → s.base_page + s.max_pages < u64_mod
    → (s.initialized ≡ false) ⊎ (type_max < t) ⊎ (¬ (InRange s a))
    → set_type s a t ≡ (s, minus_one)
unfolding set_type is_managed
set_type_rejected s a t w h = ground arith

-- The monitor's unchecked setter does what `pcd_set_type` does: on a 64-bit address, with a valid
-- type, the two leave the same table, also when the page lies below or above the managed range.
pub set_type_internal-eq-set_type :
    {s : PcdState} (a t : ℕ)
    → IsReady s
    → t ≤ type_max
    → a < u64_mod
    → set_type_internal s a t ≡ (set_type s a t).0
unfolding set_type_internal set_type is_managed get_index
set_type_internal-eq-set_type {s} a t r ht ha = ground arith

-- The managed range and the readiness stay.
abbrev pub SameBounds : PcdState → PcdState → Type 0
SameBounds s s' =
    (s'.base_page ≡ s.base_page) × (s'.max_pages ≡ s.max_pages) × (s'.initialized ≡ s.initialized)

pub set_type-SameBounds : (s : PcdState) (a t : ℕ) → SameBounds s (set_type s a t).0
unfolding set_type
set_type-SameBounds s a t = (ground arith, ground arith, ground arith)

pub SameBounds-IsReady : {s s' : PcdState} → SameBounds s s' → IsReady s → IsReady s'
SameBounds-IsReady (base, max, ready) r = record {
  ready = ready ∙ r.ready;
  no_wrap = omega (arith, r.no_wrap, base, max);
}
