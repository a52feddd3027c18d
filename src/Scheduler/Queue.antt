-- ===== src/Scheduler/Queue.antt =====
-- Adding to and taking from the run queue of kernel/scheduler.c.
use emergence_kernel.Prelude.{
  ℕ, ◌≡◌, ◌≢◌, refl, sym, ap, arith, none, some, List, [], ◌∷◌, if◌then◌else◌, ==-false, ==_iff, ℤ,
  pos, negsuc, zero, suc,
}
use emergence_kernel.ListHead
use emergence_kernel.ListHead.{Links}
use emergence_kernel.ListHead.Ring.{Fresh, IsRing}
use emergence_kernel.ListHead.Remove.{remove-IsRing, remove-detached}
use emergence_kernel.Scheduler.{ready, Sched, rq_head, inc, dec, add_thread, pick_next}

-- The threads that wait in the run queue, in order.
abbrev pub Queued : Sched → List ℕ → Type 0
Queued s xs = IsRing s.links rq_head xs

-- A thread whose node is linked to itself, as `thread_create` and `list_remove` leave it.
pub record Detached (s : Sched) (t : ℕ) : Type 0 where
  pub self : IsRing s.links t []
  pub no_head : t ≢ rq_head

pub dec-inc : (n : ℤ) → dec (inc n) ≡ n
dec-inc (pos n) = refl
dec-inc (negsuc zero) = refl
dec-inc (negsuc (suc n)) = refl

pub inc-dec : (n : ℤ) → inc (dec n) ≡ n
inc-dec (pos zero) = refl
inc-dec (pos (suc n)) = refl
inc-dec (negsuc n) = refl

-- With the two arguments of `list_push_back` exchanged, a thread linked to itself becomes the only
-- one that the queue leads to.
swapped-IsRing :
    (h : Links) (t : ℕ)
    → t ≢ rq_head
    → IsRing h t []
    → IsRing (ListHead.push_back h t rq_head) rq_head (t ∷ [])
unfolding ListHead.push_back
swapped-IsRing h t ne r = record {
  linked = ground arith;
  apart = ground arith;
  distinct = (tt, tt);
}

-- Whatever threads were queued, after `scheduler_add_thread` of a detached thread the queue holds
-- that thread alone, though the count of runnable threads has grown by one; the thread is READY.
pub add_thread-Queued :
    (s : Sched) (t : ℕ)
    → Detached s t
    → Queued (add_thread s (some t)) (t ∷ [])
      × ((add_thread s (some t)).nr_running ≡ inc s.nr_running)
      × (((add_thread s (some t)).threads t).state ≡ ready)
unfolding add_thread
add_thread-Queued s t d = (swapped-IsRing s.links t d.no_head d.self, refl, ground arith)

pub pick_next-nil : (s : Sched) → Queued s [] → pick_next s ≡ (none, s)
unfolding pick_next ListHead.empty
pick_next-nil s r =
    ap
      (λ b.
        if b
        then (none, s)
        else let (node, links) = ListHead.pop_front s.links rq_head in
          (node, record s { links = links; nr_running = dec s.nr_running }))
      ((==_iff _ rq_head).1 r.linked.0)

-- The state after the node of `x` has been taken from the queue.
abbrev pub without : Sched → ℕ → Sched
without s x = record s { links = ListHead.remove s.links x; nr_running = dec s.nr_running }

pub pick_next-cons :
    (s : Sched) (x : ℕ) (xs : List ℕ) → Queued s (x ∷ xs) → pick_next s ≡ (some x, without s x)
unfolding pick_next ListHead.pop_front ListHead.empty
pick_next-cons s x xs r = rw (r.linked.0, ==-false x rq_head r.apart.0)

pub without-Queued : (s : Sched) (x : ℕ) (xs : List ℕ) → Queued s (x ∷ xs) → Queued (without s x) xs
without-Queued s x xs r = (remove-IsRing [] x xs r).0

pub without-Detached :
    (s : Sched) (x : ℕ) (xs : List ℕ) (p : ℕ)
    → Queued s (x ∷ xs)
    → Fresh p (x ∷ xs)
    → Detached s p
    → Detached (without s x) p
without-Detached s x xs p r f d = record {
  self = remove-detached [] x xs p r (λ e. d.no_head (sym e)) f d.self;
  no_head = d.no_head;
}
