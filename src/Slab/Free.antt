-- ===== src/Slab/Free.antt =====
-- What `slab_free` of kernel/slab.c does to a well-formed cache when the object is in use.
use emergence_kernel.Slab.Erase.{erase-other, erase_self, inuse_positive}
use emergence_kernel.Slab.Taken.{
  InUse-elsewhere_back, InUse-elsewhere, InUse-here, InUse-here_back, IsCache-small, InUse, IsTaken,
}
use emergence_kernel.Slab.Cache.{
  IsCache-move, IsSlab-put, places, IsMoved, IsPlaced, IsCache, IsSlab,
}
use emergence_kernel.Slab.{free, unlink, was_full, move_slab, put_object, SlabCache, erase, Slab}
use native.Mathlib.Decide.{ℕ_discrete}
use emergence_kernel.Prelude.Counts.{occurrences}
use emergence_kernel.Prelude.{
  true, add_u64, ==-false, sym, update, page_floor, inr, subst, ◌==◌, Bool-cases, inl, refl, ◌∷◌,
  arith, ◌<◌, ◌≡◌, ◌≢◌, ◌≤◌, List, ℕ,
}

-- What is released: the object was in use and is not, and nothing else changes.
pub record IsRelease (id : ℕ) (c : SlabCache) (slabs : ℕ → Slab) (obj : ℕ)
    (r : SlabCache × (ℕ → Slab)) : Type 0 where
  pub valid : IsCache id r.0 r.1
  pub gone : ¬ InUse r.0 r.1 obj
  pub kept : (a : ℕ) → a ≢ obj → InUse c slabs a → InUse r.0 r.1 a
  pub only : (a : ℕ) → InUse r.0 r.1 a → InUse c slabs a

module _ {id obj : ℕ} {c : SlabCache} {slabs : ℕ → Slab} (o : IsCache id c slabs)
    (u : InUse c slabs obj) where
  obj-IsSlab : IsSlab id c.object_size c.objects_per_slab (slabs (page_floor obj)) (page_floor obj)
  obj-IsSlab = (o.placed (page_floor obj)).is_slab u.listed

  freed-IsSlab :
      IsSlab id c.object_size c.objects_per_slab
        (put_object obj (slabs (page_floor obj)))
        (page_floor obj)
  freed-IsSlab =
      IsSlab-put (IsCache-small o) (inuse_positive obj-IsSlab u.taken) u.taken.not_free
        u.taken.object obj-IsSlab

  put_object-IsTaken :
      (a : ℕ)
      → a ≢ obj
      → IsTaken c.object_size c.objects_per_slab (slabs (page_floor obj)) (page_floor obj) a
      → IsTaken c.object_size c.objects_per_slab
          (put_object obj (slabs (page_floor obj)))
          (page_floor obj)
          a
  unfolding occurrences
  put_object-IsTaken a h t = record { object = t.object; not_free = ground (arith, h, t.not_free) }

  put_object-IsTaken_back :
      (a : ℕ)
      → IsTaken c.object_size c.objects_per_slab
          (put_object obj (slabs (page_floor obj)))
          (page_floor obj)
          a
      → IsTaken c.object_size c.objects_per_slab (slabs (page_floor obj)) (page_floor obj) a
  unfolding occurrences
  put_object-IsTaken_back a t = record { object = t.object; not_free = ground (arith, t.not_free) }

  -- The slab keeps a place in the lists, and the object is at the front of its free list.
  IsRelease-move :
      {c' : SlabCache}
      → IsMoved (page_floor obj) c c'
      → 0 < places (page_floor obj) c'
      → IsPlaced id c.object_size c.objects_per_slab c'
          (put_object obj (slabs (page_floor obj)))
          (page_floor obj)
      → IsRelease id c slabs obj
          (c', update slabs (page_floor obj) (put_object obj (slabs (page_floor obj))))
  unfolding occurrences
  IsRelease-move {c'} m listed placed =
      let slab : Slab = put_object obj (slabs (page_floor obj)) in
      record {
        valid = IsCache-move o m placed;
        gone = λ w. absurd (ground (arith, (InUse-here_back m slabs slab obj refl w).not_free));
        kept = λ a other w. elim (ℕ_discrete (page_floor a) (page_floor obj)) [
          | yes near ↦ InUse-here m slabs slab a near listed (
              put_object-IsTaken a other (
                subst (λ (q : ℕ). IsTaken c.object_size c.objects_per_slab (slabs q) q a) near
                  w.taken))
          | no far ↦ InUse-elsewhere m slabs slab a far w
        ];
        only = λ a w. elim (ℕ_discrete (page_floor a) (page_floor obj)) [
          | yes near ↦ record {
            listed = subst (λ (q : ℕ). 0 < places q c) (sym near) u.listed;
            taken =
                subst (λ (q : ℕ). IsTaken c.object_size c.objects_per_slab (slabs q) q a) (sym near)
                  (put_object-IsTaken_back a (InUse-here_back m slabs slab a near w));
          }
          | no far ↦ InUse-elsewhere_back m slabs slab a far w
        ];
      }

  at_obj : IsPlaced id c.object_size c.objects_per_slab c (slabs (page_floor obj)) (page_floor obj)
  at_obj = o.placed (page_floor obj)

  none_left :
      (xs : List ℕ)
      → occurrences (page_floor obj) xs ≤ 1
      → occurrences (page_floor obj) (erase (page_floor obj) xs) ≡ 0
  none_left xs h = omega (arith, h, erase_self (page_floor obj) xs)

  no_full : occurrences (page_floor obj) (erase (page_floor obj) c.slabs_full) ≡ 0
  no_full = none_left c.slabs_full (omega (arith, at_obj.once))

  no_partial : occurrences (page_floor obj) (erase (page_floor obj) c.slabs_partial) ≡ 0
  no_partial = none_left c.slabs_partial (omega (arith, at_obj.once))

  no_free : occurrences (page_floor obj) (erase (page_floor obj) c.slabs_free) ≡ 0
  no_free = none_left c.slabs_free (omega (arith, at_obj.once))

  module _ (n : ℕ) where
    to_partial-IsRelease : IsRelease id c slabs obj (
      record (unlink (page_floor obj) (record c { free_objects = n })) {
        slabs_partial = page_floor obj ∷ erase (page_floor obj) c.slabs_partial;
      },
      update slabs (page_floor obj) (put_object obj (slabs (page_floor obj))),
    )
    unfolding occurrences
    to_partial-IsRelease =
        IsRelease-move
          (record {
            same_size = refl;
            same_objects = refl;
            full = λ q h. erase-other (page_floor obj) q c.slabs_full h;
            partial = λ q h. ground (arith, h, erase-other (page_floor obj) q c.slabs_partial h);
            free = λ q h. erase-other (page_floor obj) q c.slabs_free h;
          })
          (ground arith)
          (record {
            once = ground (arith, no_full, no_partial, no_free);
            is_slab = λ w. freed-IsSlab;
            partial = λ w. omega arith;
            unused = λ w. absurd (omega (arith, w, no_free));
          })

    to_free-IsRelease :
        (put_object obj (slabs (page_floor obj))).inuse ≡ 0
        → IsRelease id c slabs obj (
          record (unlink (page_floor obj) (record c { free_objects = n })) {
            slabs_free = page_floor obj ∷ erase (page_floor obj) c.slabs_free;
          },
          update slabs (page_floor obj) (put_object obj (slabs (page_floor obj))),
        )
    unfolding occurrences
    to_free-IsRelease e =
        IsRelease-move
          (record {
            same_size = refl;
            same_objects = refl;
            full = λ q h. erase-other (page_floor obj) q c.slabs_full h;
            partial = λ q h. erase-other (page_floor obj) q c.slabs_partial h;
            free = λ q h. ground (arith, h, erase-other (page_floor obj) q c.slabs_free h);
          })
          (ground arith)
          (record {
            once = ground (arith, no_full, no_partial, no_free);
            is_slab = λ w. freed-IsSlab;
            partial = λ w. absurd (omega (arith, w, no_partial));
            unused = λ w. e;
          })

    stay-IsRelease : IsRelease id c slabs obj (
      record c { free_objects = n },
      update slabs (page_floor obj) (put_object obj (slabs (page_floor obj))),
    )
    unfolding occurrences
    stay-IsRelease =
        IsRelease-move
          (record {
            same_size = refl;
            same_objects = refl;
            full = λ q h. refl;
            partial = λ q h. refl;
            free = λ q h. refl;
          })
          u.listed
          (record {
            once = at_obj.once;
            is_slab = λ w. freed-IsSlab;
            partial = λ w. omega arith;
            unused =
                λ w. absurd (omega (arith, at_obj.unused w, inuse_positive obj-IsSlab u.taken));
          })

    move_slab-IsRelease : IsRelease id c slabs obj (
      move_slab
          (page_floor obj)
          (put_object obj (slabs (page_floor obj)))
          (record c { free_objects = n }),
      update slabs (page_floor obj) (put_object obj (slabs (page_floor obj))),
    )
    unfolding move_slab
    move_slab-IsRelease =
        elim (Bool-cases (was_full (page_floor obj) (record c { free_objects = n }))) [
          | inl full ↦ rw full to_partial-IsRelease
          | inr other ↦ elim (Bool-cases ((put_object obj (slabs (page_floor obj))).inuse == 0)) [
            | inl empty ↦ rw (other, empty) (to_free-IsRelease (ground (arith, empty)))
            | inr used ↦ rw (other, used) stay-IsRelease
          ]
        ]

-- `slab_free` of an object in use of a well-formed cache: the object is in use no more, no other
-- address becomes or ceases to be in use, and the cache stays well formed.
pub free-IsRelease :
    {id obj : ℕ} {c : SlabCache} {slabs : ℕ → Slab}
    → IsCache id c slabs
    → InUse c slabs obj
    → IsRelease id c slabs obj (free id c slabs obj)
unfolding free
free-IsRelease {id} {obj} {c} {slabs} o u =
    let own = ((o.placed (page_floor obj)).is_slab u.listed).owner in
    let same : ((slabs (page_floor obj)).cache == id) ≡ true = ground (arith, own) in
    rw (==-false obj 0 (omega (arith, u.taken.object.address)), same)
      (move_slab-IsRelease o u (add_u64 c.free_objects 1))
