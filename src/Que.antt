-- ===== src/Que.antt =====
-- src/gque.cpp and include/gque.h, class CircularQueue: a ring of items of one size in one block of
-- memory, which begins with a control block of byte offsets.
pub mod Back
pub mod Counts
pub mod Fifo
pub mod Front
pub mod Holds
pub mod Init
pub mod Layout
pub mod Peek
pub mod Refine
mod Tests
pub mod Unwrapped
pub mod Window
use opengcl.Prelude.{
  ℕ, ◌+◌, ◌-◌, ◌*◌, ◌/◌, ◌%◌, ◌^◌, Bool, true, false, ◌&&◌, Option, none, some, ltb, leb, ◌==◌,
  if◌then◌else◌, add32, sub32,
}
use opengcl.Prelude.Outcome.{Outcome, done, fault, ◌>>=◌}

-- `sizeof(cque_t)`: five fields of type `unsigned`.
abbrev pub sizeof_cque : ℕ
sizeof_cque = 20

-- `cque_t` and the bytes behind it. `mem a` is the item that begins at byte `a` of the block: an
-- item is copied whole, by one `memcpy` of `item_size` bytes.
pub record Cque {ℓ} (A : Type ℓ) : Type ℓ where
  pub begin : ℕ
  pub end : ℕ
  pub head : ℕ
  pub tail : ℕ
  pub item_size : ℕ
  pub mem : ℕ → A

-- The field `m_q`; `none` is the null pointer.
abbrev pub CircularQueue {ℓ} : Type ℓ → Type ℓ
CircularQueue A = Option (Cque A)

-- A queue object and the number of blocks that it has allocated and not deleted.
pub record Owner {ℓ} (A : Type ℓ) : Type ℓ where
  pub m_q : CircularQueue A
  pub live : ℕ

module _ {ℓ} {A : Type ℓ} where
  -- The item area is [begin, end); the block ends at `end`.
  unfoldable pub in_area : Cque A → ℕ → Bool
  in_area c a = leb c.begin a && leb (a + c.item_size) c.end

  -- `if (item) memcpy(_ptr(a), item, item_size)`
  pub copy_in : Cque A → ℕ → Option A → Outcome (ℕ → A)
  copy_in c a none = done c.mem
  copy_in c a (some v) = if in_area c a then done (λ b. if b == a then v else c.mem b) else fault

  -- `if (item) memcpy(item, _ptr(a), item_size)`; the flag says whether `item` is not null
  pub copy_out : Cque A → ℕ → Bool → Outcome (Option A)
  copy_out c a false = done none
  copy_out c a true = if in_area c a then done (some (c.mem a)) else fault

  pub is_empty : CircularQueue A → Bool
  is_empty none = true
  is_empty (some c) = c.head == c.tail

  -- The offset behind `a`, round the end.
  pub next_offset : Cque A → ℕ → ℕ
  next_offset c a = let npos = add32 a c.item_size in if npos == c.end then c.begin else npos

  pub is_full : CircularQueue A → Bool
  is_full none = true
  is_full (some c) = next_offset c c.tail == c.head

  unfoldable pub length : CircularQueue A → ℕ
  length none = 0
  length (some c) =
      (if leb c.head c.tail
        then sub32 c.tail c.head
        else add32 (sub32 c.end c.head) (sub32 c.tail c.begin))
      / c.item_size

  unfoldable pub available : CircularQueue A → ℕ
  available none = 0
  available (some c) =
      sub32
        ((if ltb c.tail c.head
            then sub32 c.head c.tail
            else add32 (sub32 c.end c.tail) (sub32 c.head c.begin))
          / c.item_size)
        1

  pub capacity : CircularQueue A → ℕ
  capacity none = 0
  capacity (some c) = sub32 (sub32 c.end c.begin / c.item_size) 1

  pub clear : CircularQueue A → CircularQueue A
  clear none = none
  clear (some c) = some (record c { head = c.begin; tail = c.begin })

  -- `alloc` is what `new char[buf_size]` gives: a block with arbitrary contents, or null.
  pub fresh_block : ℕ → ℕ → (ℕ → A) → Cque A
  fresh_block n size contents = record {
    begin = sizeof_cque;
    end = add32 sizeof_cque (size * add32 n 1 % 2 ^ 32);
    head = sizeof_cque;
    tail = sizeof_cque;
    item_size = size;
    mem = contents;
  }

  -- Plain `new` throws where there is no memory; the test for null that follows it is kept as the code has it,
  -- with `none` for null.
  pub allocate : ℕ → ℕ → Option (ℕ → A) → Owner A → Bool × Owner A
  allocate n size none o = (false, record o { m_q = none })
  allocate n size (some contents) o =
      (true, record { m_q = some (fresh_block n size contents); live = o.live + 1 })

  -- `delete[] m_q; m_q = 0`
  pub destroy : Owner A → Owner A
  destroy o = record { m_q = none; live = elim o.m_q [ none ↦ o.live | some c ↦ o.live - 1 ] }

  pub init : ℕ → ℕ → Option (ℕ → A) → Owner A → Bool × Owner A
  init n size alloc o =
      if capacity o.m_q == n
      then (true, record o { m_q = clear o.m_q })
      else if n == 0
      then (true, destroy o)
      else allocate n size alloc o

  -- The constructor with a capacity.
  pub new_queue : ℕ → ℕ → Option (ℕ → A) → CircularQueue A
  new_queue n size alloc = (init n size alloc (record { m_q = none; live = 0 })).1.m_q

  unfoldable pub put : Option A → CircularQueue A → Outcome (Bool × CircularQueue A)
  put item none = done (false, none)
  put item (some c) =
      let npos = next_offset c c.tail in
      if npos == c.head
      then done (false, some c)
      else do mem ← copy_in c c.tail item; done (true, some (record c { mem = mem; tail = npos }))

  -- The option in the middle is what goes through `item`.
  unfoldable pub get : Bool → CircularQueue A → Outcome (Bool × Option A × CircularQueue A)
  get want none = done (false, none, none)
  get want (some c) = if c.head == c.tail then done (false, none, some c) else do
    v ← copy_out c c.head want
    done (true, v, some (record c { head = next_offset c c.head }))

  -- The offset before `a`, as `push` finds it.
  pub push_offset : Cque A → ℕ → ℕ
  push_offset c a =
      let pos = sub32 a c.item_size in if ltb pos c.begin then sub32 c.end c.item_size else pos

  unfoldable pub push : Option A → CircularQueue A → Outcome (Bool × CircularQueue A)
  push item none = done (false, none)
  push item (some c) =
      let pos = push_offset c c.head in
      if pos == c.head
      then done (false, some c)
      else do mem ← copy_in c pos item; done (true, some (record c { mem = mem; head = pos }))

  unfoldable pub pop : Bool → CircularQueue A → Outcome (Bool × Option A × CircularQueue A)
  pop want none = done (false, none, none)
  pop want (some c) = if c.head == c.tail then done (false, none, some c) else do
    v ← copy_out c (sub32 c.tail c.item_size) want
    done (true, v, some (record c { tail = sub32 c.tail c.item_size }))
