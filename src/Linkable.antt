-- ===== src/Linkable.antt =====
-- src/glist.cpp and include/glist.h: class Linkable and the list List<T> on top of it. A node is its
-- address; the heap holds the two links of every node, so that aliasing is plain to see.
pub mod Rings
mod Tests
pub mod Append
pub mod Detach
pub mod Prepend
use opengcl.Prelude.{
  ℕ, zero, suc, ◌+◌, Bool, true, false, Option, none, some, List, [], ◌∷◌, ◌==◌, if◌then◌else◌,
}

-- `m_next` and `m_prev` of each node.
pub record Heap : Type 0 where
  pub next : ℕ → ℕ
  pub prev : ℕ → ℕ

abbrev pub update : (ℕ → ℕ) → ℕ → ℕ → ℕ → ℕ
update f p v q = if q == p then v else f q

-- `p->m_next = q` and `p->m_prev = q`
abbrev pub set_next : ℕ → ℕ → Heap → Heap
set_next p q h = record h { next = update h.next p q }

abbrev pub set_prev : ℕ → ℕ → Heap → Heap
set_prev p q h = record h { prev = update h.prev p q }

-- The constructor: a node linked to itself.
pub construct : ℕ → Heap → Heap
construct this h = set_prev this this (set_next this this h)

pub is_alone : ℕ → Heap → Bool
is_alone this h = h.next this == this

-- `m_prev->m_next = m_next; m_next->m_prev = m_prev;`
pub detach : ℕ → Heap → Heap
detach this h =
    let h1 : Heap = set_next (h.prev this) (h.next this) h in
    set_prev (h1.next this) (h1.prev this) h1

-- The four assignments of `append`.
pub link : ℕ → ℕ → Heap → Heap
link this node h =
    let h1 : Heap = set_next node this h in
    let h2 : Heap = set_prev node (h1.prev this) h1 in
    let h3 : Heap = set_next (h2.prev this) node h2 in set_prev this node h3

pub append : ℕ → ℕ → Heap → Heap
unfolding is_alone detach link
append this node h = link this node (if is_alone node h then h else detach node h)

pub prepend : ℕ → ℕ → Heap → Heap
unfolding append
prepend this node h = append node this h

-- `node->detach()`, whatever list the node is in.
pub remove : ℕ → ℕ → Heap → Heap
unfolding detach
remove this node h = detach node h

-- The loop of `length` on fuel, `none` when it runs out.
pub count : ℕ → Heap → ℕ → ℕ → ℕ → Option ℕ
count this h zero node n = none
count this h (suc f) node n =
    let rest = count this h f (h.next node) (n + 1) in if node == this then some n else rest

pub length : ℕ → Heap → ℕ → Option ℕ
unfolding count
length this h fuel = count this h fuel (h.next this) 0

-- List<T>: `first`, `last`, `next_of` and `prev_of`; `none` is the null pointer.
pub first : ℕ → Heap → Option ℕ
unfolding is_alone
first this h = if is_alone this h then none else some (h.next this)

pub last : ℕ → Heap → Option ℕ
unfolding is_alone
last this h = if is_alone this h then none else some (h.prev this)

-- `item == (T *)this ? 0 : item`
abbrev not_head : ℕ → Option ℕ → Option ℕ
not_head this none = none
not_head this (some item) = if item == this then none else some item

pub next_of : ℕ → Option ℕ → Heap → Option ℕ
unfolding first
next_of this none h = not_head this (first this h)
next_of this (some node) h = not_head this (some (h.next node))

pub prev_of : ℕ → Option ℕ → Heap → Option ℕ
unfolding last
prev_of this none h = not_head this (last this h)
prev_of this (some node) h = not_head this (some (h.prev node))
