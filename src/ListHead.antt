-- ===== src/ListHead.antt =====
-- kernel/list.h: circular doubly linked lists through a head node, on an explicit heap of links.
pub mod Ring
pub mod Insert
pub mod Remove
mod Tests
use emergence_kernel.Prelude.{
  ℕ, zero, suc, ◌≡◌, ◌≢◌, Bool, Option, none, some, List, [], ◌∷◌, ◌==◌, if◌then◌else◌, update,
}

-- The `next` and `prev` fields of every `struct list_head`, by address.
pub record Links : Type 0 where
  pub next : ℕ → ℕ
  pub prev : ℕ → ℕ

-- `p->next = q` and `p->prev = q`
abbrev pub set_next : Links → ℕ → ℕ → Links
set_next h p q = record h { next = update h.next p q }

abbrev pub set_prev : Links → ℕ → ℕ → Links
set_prev h p q = record h { prev = update h.prev p q }

unfoldable pub init : Links → ℕ → Links
init h head = set_prev (set_next h head head) head head

unfoldable pub empty : Links → ℕ → Bool
empty h head = h.next head == head

unfoldable pub push_front : Links → ℕ → ℕ → Links
push_front h head node =
    let h1 = set_next h node (h.next head) in
    let h2 = set_prev h1 node head in
    let h3 = set_prev h2 (h2.next head) node in set_next h3 head node

unfoldable pub push_back : Links → ℕ → ℕ → Links
push_back h head node =
    let h1 = set_next h node head in
    let h2 = set_prev h1 node (h1.prev head) in
    let h3 = set_next h2 (h2.prev head) node in set_prev h3 head node

unfoldable pub remove : Links → ℕ → Links
remove h node =
    let h1 = set_next h (h.prev node) (h.next node) in
    let h2 = set_prev h1 (h1.next node) (h1.prev node) in
    let h3 = set_next h2 node node in set_prev h3 node node

-- NULL is `none`.
unfoldable pub pop_front : Links → ℕ → Option ℕ × Links
pop_front h head = if empty h head then (none, h) else (some (h.next head), remove h (h.next head))

-- `list_for_each (pos, head)` from `pos` on: the nodes that it visits, with fuel.
unfoldable pub for_each : ℕ → Links → ℕ → ℕ → List ℕ
for_each zero h pos head = []
for_each (suc fuel) h pos head =
    let rest = pos ∷ for_each fuel h (h.next pos) head in if pos == head then [] else rest
