-- ===== src/QueueMt.antt =====
-- include/gque.h, class QueueMT: what its calls do to the queue, which Guard.antt puts behind the lock.
pub mod Fifo
mod Tests
use opengcl.Prelude.{
  ℕ, zero, suc, ◌+◌, ◌-◌, ◌≡◌, refl, Option, none, some, Bool, true, false, List, [], ◌∷◌, ◌++◌,
}
use opengcl.Prelude.Outcome.{Outcome, done, fault, ◌>>=◌}
use opengcl.Guard.{Object}
use opengcl.Que.{
  Cque, CircularQueue, put, get, push, is_empty, is_full, length, available, capacity,
}

-- The calls that take the lock for writing; `none` and `false` stand for a null pointer.
pub data WriteCall {ℓ} (A : Type ℓ) : Type ℓ where
  put_item : Option A → WriteCall A
  get_item : Bool → WriteCall A
  push_item : Option A → WriteCall A
  pop_item : Bool → WriteCall A

-- The calls that take it for reading; `A` only says in which universe they lie.
pub data ReadCall {ℓ} (A : Type ℓ) : Type ℓ where
  ask_item_size : ReadCall A
  ask_empty : ReadCall A
  ask_full : ReadCall A
  ask_length : ReadCall A
  ask_available : ReadCall A
  ask_capacity : ReadCall A

pub data Reply {ℓ} (A : Type ℓ) : Type ℓ where
  stored : Bool → Reply A
  taken : Bool → Option A → Reply A
  flag : Bool → Reply A
  number : ℕ → Reply A

module _ {ℓ} {A : Type ℓ} where
  abbrev item_size : CircularQueue A → ℕ
  item_size none = 0
  item_size (some c) = c.item_size

  abbrev as_stored : Bool × CircularQueue A → Reply A × CircularQueue A
  as_stored (b, q) = (stored b, q)

  abbrev as_taken : Bool × Option A × CircularQueue A → Reply A × CircularQueue A
  as_taken (b, v, q) = (taken b v, q)

  -- `pop` calls `Queue<T>::get`.
  pub write_body : WriteCall A → CircularQueue A → Outcome (Reply A × CircularQueue A)
  write_body (put_item v) q = do r ← put v q; done (as_stored r)
  write_body (get_item want) q = do r ← get want q; done (as_taken r)
  write_body (push_item v) q = do r ← push v q; done (as_stored r)
  write_body (pop_item want) q = do r ← get want q; done (as_taken r)

  -- The queue as a call sees it that reads `m_head` at its first look and the other fields at its second.
  abbrev pub seen : CircularQueue A → CircularQueue A → CircularQueue A
  seen none q' = q'
  seen (some c) none = none
  seen (some c) (some c') = some (record c' { head = c.head })

  pub read_body : ReadCall A → CircularQueue A → CircularQueue A → Reply A
  read_body ask_item_size q q' = number (item_size (seen q q'))
  read_body ask_empty q q' = flag (is_empty (seen q q'))
  read_body ask_full q q' = flag (is_full (seen q q'))
  read_body ask_length q q' = number (length (seen q q'))
  read_body ask_available q q' = number (available (seen q q'))
  read_body ask_capacity q q' = number (capacity (seen q q'))

  abbrev pub queue_mt : Object (CircularQueue A) (WriteCall A) (ReadCall A) (Reply A)
  queue_mt = record { write_body = write_body; read_body = read_body }
