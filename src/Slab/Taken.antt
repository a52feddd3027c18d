-- ===== src/Slab/Taken.antt =====
-- Which objects of a cache of kernel/slab.c are in use: those of its slabs that are not free.
use native.Mathlib.Nat.{div-mul-le_self, div-le_self}
use emergence_kernel.Prelude.Counts.{occurrences}
use emergence_kernel.Slab.Objects.{IsObject}
use emergence_kernel.Slab.{take_object, pop_object, slab_header, usable_space, Slab, SlabCache}
use emergence_kernel.Prelude.{
  refl, subst, sym, update, ◌≢◌, inr, inl, ◌==◌, Bool-cases, ◌⊎◌, ap, arith, page_floor, ◌∷◌, ◌+◌,
  ◌≡◌, List, ◌*◌, ◌<◌, ◌≤◌, ℕ,
}
use emergence_kernel.Slab.Cache.{IsMoved, IsSlab, places, IsCache}

-- The object of a slab that is not free
pub record IsTaken (size n : ℕ) (slab : Slab) (page a : ℕ) : Type 0 where
  pub object : IsObject (page + slab_header) size n a
  pub not_free : occurrences a slab.free_list ≡ 0

-- The address is of an object of a listed slab, and is in use.
pub record InUse (c : SlabCache) (slabs : ℕ → Slab) (a : ℕ) : Type 0 where
  pub listed : 0 < places (page_floor a) c
  pub taken : IsTaken c.object_size c.objects_per_slab (slabs (page_floor a)) (page_floor a) a

-- The objects of the slabs fit into their pages.
pub IsCache-fits :
    {id : ℕ} {c : SlabCache} {slabs : ℕ → Slab}
    → IsCache id c slabs
    → c.objects_per_slab * c.object_size ≤ usable_space
IsCache-fits {c = c} o =
    omega
      (arith, ap (λ (t : ℕ). t * c.object_size) o.room, div-mul-le_self usable_space c.object_size)

pub IsCache-small :
    {id : ℕ} {c : SlabCache} {slabs : ℕ → Slab}
    → IsCache id c slabs
    → c.objects_per_slab ≤ usable_space
IsCache-small {c = c} o = omega (arith, o.room, div-le_self usable_space c.object_size)

module _ {size n page obj : ℕ} {slab : Slab} {rest : List ℕ} (e : slab.free_list ≡ obj ∷ rest) where
  -- Taking the first free object adds it to those in use.
  pub IsTaken-take :
      (a : ℕ)
      → IsTaken size n (take_object page slab) page a
      → IsTaken size n slab page a ⊎ (a ≡ obj)
  unfolding pop_object occurrences
  IsTaken-take a t = elim (Bool-cases (obj == a)) [
    | inl same ↦ inr (ground (arith, same))
    | inr other ↦
        inl (record { object = t.object; not_free = ground (arith, other, e, t.not_free) })
  ]

  pub IsTaken-kept :
      (a : ℕ) → IsTaken size n slab page a → IsTaken size n (take_object page slab) page a
  unfolding pop_object occurrences
  IsTaken-kept a t = record { object = t.object; not_free = ground (arith, e, t.not_free) }

  pub take_object-IsTaken :
      {id : ℕ} → IsSlab id size n slab page → IsTaken size n (take_object page slab) page obj
  unfolding pop_object occurrences
  take_object-IsTaken o = record {
    object = o.objects obj (ground (arith, e));
    not_free = ground (arith, e, o.distinct obj);
  }

  pub IsTaken-not : ¬ IsTaken size n slab page obj
  unfolding occurrences
  IsTaken-not t = absurd (ground (arith, e, t.not_free))

IsTaken-cong :
    {size size' n n' page page' a : ℕ} {slab slab' : Slab}
    → size ≡ size'
    → n ≡ n'
    → slab ≡ slab'
    → page ≡ page'
    → IsTaken size n slab page a
    → IsTaken size' n' slab' page' a
IsTaken-cong {a = a} e f g h t =
    subst (λ (T : Type 0). T) (λ i. IsTaken (e i) (f i) (g i) (h i) a) t

update-same :
    (slab : Slab) (slabs : ℕ → Slab) {page q : ℕ} → q ≡ page → update slabs page slab q ≡ slab
update-same slab slabs {page} {q} e = ground (arith, e)

update-other :
    (slab : Slab) (slabs : ℕ → Slab) {page q : ℕ} → q ≢ page → update slabs page slab q ≡ slabs q
update-other slab slabs {page} {q} e = ground (arith, e)

-- The slab of one page changes: what is in use in another page, and in that page
module _ {page : ℕ} {c c' : SlabCache} (m : IsMoved page c c') (slabs : ℕ → Slab)
    (slab : Slab) where
  pub InUse-elsewhere :
      (a : ℕ) → page_floor a ≢ page → InUse c slabs a → InUse c' (update slabs page slab) a
  InUse-elsewhere a far u = record {
    listed = omega (
      arith,
      m.full (page_floor a) far,
      m.partial (page_floor a) far,
      m.free (page_floor a) far,
      u.listed,
    );
    taken =
        IsTaken-cong (sym m.same_size) (sym m.same_objects) (sym (update-other slab slabs far)) refl
          u.taken;
  }

  pub InUse-elsewhere_back :
      (a : ℕ) → page_floor a ≢ page → InUse c' (update slabs page slab) a → InUse c slabs a
  InUse-elsewhere_back a far u = record {
    listed = omega (
      arith,
      m.full (page_floor a) far,
      m.partial (page_floor a) far,
      m.free (page_floor a) far,
      u.listed,
    );
    taken = IsTaken-cong m.same_size m.same_objects (update-other slab slabs far) refl u.taken;
  }

  pub InUse-here :
      (a : ℕ)
      → page_floor a ≡ page
      → 0 < places page c'
      → IsTaken c.object_size c.objects_per_slab slab page a
      → InUse c' (update slabs page slab) a
  InUse-here a near listed t = record {
    listed = subst (λ (q : ℕ). 0 < places q c') (sym near) listed;
    taken =
        IsTaken-cong (sym m.same_size) (sym m.same_objects) (sym (update-same slab slabs near))
          (sym near) t;
  }

  pub InUse-here_back :
      (a : ℕ)
      → page_floor a ≡ page
      → InUse c' (update slabs page slab) a
      → IsTaken c.object_size c.objects_per_slab slab page a
  InUse-here_back a near u =
      IsTaken-cong m.same_size m.same_objects (update-same slab slabs near) near u.taken
