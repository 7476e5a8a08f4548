-- ===== src/Que/Peek.antt =====
-- src/gque.cpp and include/gque.h: looking at the items of a queue without taking them. A `void *` is
-- the offset from `m_q`; `none` is the null pointer.
pub mod Steps
pub mod Traverse
use opengcl.Prelude.{
  ℕ, zero, suc, ◌+◌, ◌-◌, ◌<◌, List, [], ◌∷◌, Option, none, some, Bool, true, false, ◌||◌, ltb, leb,
  ◌==◌, if◌then◌else◌, sub32, not,
}
use mathlib.Core.Option
use opengcl.Que.{Cque, CircularQueue, is_empty}

module _ {ℓ} {A : Type ℓ} where
  -- `head()`, also where the queue is empty.
  pub head : CircularQueue A → Option ℕ
  head none = none
  head (some c) = some c.head

  unfoldable pub peek : CircularQueue A → Option ℕ
  unfolding is_empty
  peek none = none
  peek (some c) = if is_empty (some c) then none else some c.head

  pub first : CircularQueue A → Option ℕ
  first q = peek q

  unfoldable pub last : CircularQueue A → Option ℕ
  unfolding is_empty
  last none = none
  last (some c) =
      if is_empty (some c)
      then none
      else some (sub32 (if c.tail == c.begin then c.end else c.tail) c.item_size)

  next_of : Cque A → ℕ → Option ℕ
  next_of c p =
      if ltb p c.begin || leb c.end p
      then none
      else let after = if p + c.item_size == c.end then c.begin else p + c.item_size in
        if after == c.tail then none else some after

  unfoldable pub peek_next : CircularQueue A → Option ℕ → Option ℕ
  unfolding is_empty next_of
  peek_next none p = none
  peek_next (some c) none = if is_empty (some c) then none else some c.head
  peek_next (some c) (some p) = if is_empty (some c) then none else next_of c p

  prev_of : Cque A → ℕ → Option ℕ
  prev_of c p =
      if ltb p c.begin || leb c.end p
      then none
      else if p == c.head
      then none
      else some ((if p == c.begin then c.end else p) - c.item_size)

  pub peek_prev : CircularQueue A → Option ℕ → Option ℕ
  unfolding is_empty prev_of
  peek_prev none p = none
  peek_prev (some c) none = if is_empty (some c) then none else some (sub32 c.tail c.item_size)
  peek_prev (some c) (some p) = if is_empty (some c) then none else prev_of c p

  -- `for (p = start; p; p = step(p)) visit(*p)` on fuel: the items visited, `none` when it runs out.
  unfoldable pub walk : (Option ℕ → Option ℕ) → (ℕ → A) → ℕ → Option ℕ → Option (List A)
  walk step mem zero p = none
  walk step mem (suc f) none = some []
  walk step mem (suc f) (some p) = Option.map (λ l. mem p ∷ l) (walk step mem f (step (some p)))
