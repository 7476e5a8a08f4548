-- ===== src/Event.antt =====
-- src/gevent.cpp and include/gevent.h: class EventEmitter, which keeps event names and listeners in two
-- circular queues. A string is the list of its characters, without the terminator; a pointer to a name is
-- the offset of its slot in the queue of names. The calls stand without the write lock that each takes, which
-- Event/Threads.antt puts around them. A loop on fuel that does not end in time is `out_of_fuel`.
pub mod Client
pub mod Construct
pub mod Emit
pub mod Erase
pub mod Find
pub mod Moved
pub mod Names
pub mod Off
pub mod On
pub mod Once
pub mod Others
pub mod Places
pub mod Refine
pub mod Register
pub mod Remove
pub mod Shown
pub mod Sim
pub mod Spec
pub mod Squeez
pub mod Threads
pub mod Turn
pub mod Unique
pub mod Wrapped
mod CallTests
mod Tests
use opengcl.Prelude.{
  ℕ, zero, suc, ◌+◌, ◌-◌, Option, none, some, Bool, true, false, ◌&&◌, List, [], ◌∷◌, ltb, leb,
  ◌==◌, if◌then◌else◌,
}
use opengcl.Prelude
use opengcl.Prelude.Outcome.{Outcome, done, fault, out_of_fuel, ◌>>=◌}
use opengcl.Que.{Cque, CircularQueue, in_area, put, get, pop, length, available}
use opengcl.Que.Peek.{peek, peek_next, last}

abbrev pub event_name_length_max : ℕ
event_name_length_max = 15

-- A listener is known by a number, `none` is null; `user_data` is `data`, passed on as it is.
pub record EventBlock : Type 0 where
  pub name : Option ℕ
  pub listener : Option ℕ
  pub user_data : ℕ
  pub once : Bool

pub record EventEmitter : Type 0 where
  pub m_names : CircularQueue (List ℕ)
  pub m_listeners : CircularQueue EventBlock

-- `strcmp(s, t) == 0`
pub same_text : List ℕ → List ℕ → Bool
same_text [] [] = true
same_text [] (y ∷ t) = false
same_text (x ∷ s) [] = false
same_text (x ∷ s) (y ∷ t) = (x == y) && same_text s t

-- `strncpy` of at most `n` characters, and a terminator.
pub truncated : ℕ → List ℕ → List ℕ
truncated zero s = []
truncated (suc n) [] = []
truncated (suc n) (x ∷ s) = x ∷ truncated n s

-- Equality of pointers, of which one or both may be null.
pub same_pointer : Option ℕ → Option ℕ → Bool
same_pointer none none = true
same_pointer none (some b) = false
same_pointer (some a) none = false
same_pointer (some a) (some b) = a == b

abbrev pub is_null : Option ℕ → Bool
is_null none = true
is_null (some a) = false

-- Writes through the pointer to a slot.
abbrev pub set_item : {A : Type 0} → ℕ → A → Cque A → Cque A
set_item p x c = record c { mem = λ a. if a == p then x else c.mem a }

-- The loop that `__find_event_name`, `__register_event_name` and `__unregister_event_name` have in common:
-- the first slot from `p` on that has the text.
pub find_slot : Cque (List ℕ) → List ℕ → ℕ → Option ℕ → Outcome (Option ℕ)
unfolding same_text peek_next
find_slot c text zero p = out_of_fuel
find_slot c text (suc f) none = done none
find_slot c text (suc f) (some p) =
    let rest = find_slot c text f (peek_next (some c) (some p)) in
    if same_text (c.mem p) text then done (some p) else rest

pub find_event_name : ℕ → List ℕ → CircularQueue (List ℕ) → Outcome (Option ℕ)
unfolding find_slot peek
find_event_name fuel text none = done none
find_event_name fuel text (some c) = find_slot c text fuel (peek (some c))

-- `m_names.put(entry) ? m_names.last() : 0`
pub put_name : List ℕ → CircularQueue (List ℕ) → Outcome (Option ℕ × CircularQueue (List ℕ))
unfolding put last truncated
put_name text q = do
  (ok, q') ← put (some (truncated event_name_length_max text)) q
  done ((if ok then last q' else none), q')

-- The part of `__register_event_name` for a name that is not there.
pub use_empty_slot :
    List ℕ → CircularQueue (List ℕ) → Option ℕ → Outcome (Option ℕ × CircularQueue (List ℕ))
unfolding put_name truncated
use_empty_slot text (some c) (some p) =
    done (some p, some (set_item p (truncated event_name_length_max text) c))
use_empty_slot text q slot = put_name text q

pub register_event_name :
    ℕ → List ℕ → CircularQueue (List ℕ) → Outcome (Option ℕ × CircularQueue (List ℕ))
unfolding find_event_name use_empty_slot
register_event_name fuel text q = do
  found ← find_event_name fuel text q
  (if is_null found then (find_event_name fuel [] q >>= use_empty_slot text q) else done (found, q))

pub clear_slot : CircularQueue (List ℕ) → Option ℕ → CircularQueue (List ℕ)
clear_slot (some c) (some p) = some (set_item p [] c)
clear_slot q slot = q

pub unregister_event_name :
    ℕ → List ℕ → CircularQueue (List ℕ) → Outcome (Option ℕ × CircularQueue (List ℕ))
unfolding find_event_name clear_slot
unregister_event_name fuel text q = do
  found ← find_event_name fuel text q
  done (found, clear_slot q found)

-- `peek && !peek->name`; outside the item area there is no listener to be read.
pub dead : CircularQueue EventBlock → Option ℕ → Outcome Bool
dead (some c) (some p) = if in_area c p then done (is_null (c.mem p).name) else fault
dead q p = done false

-- `__squeez_listeners`: the loops that trim the queue from its head and from its tail, and inside.
pub trim_head : ℕ → CircularQueue EventBlock → Outcome (CircularQueue EventBlock)
unfolding get peek dead
trim_head zero q = out_of_fuel
trim_head (suc f) q =
    let rest = get false q >>= λ r. trim_head f r.2 in
    dead q (peek q) >>= λ d. if d then rest else done q

pub trim_tail : ℕ → CircularQueue EventBlock → Outcome (CircularQueue EventBlock)
unfolding pop last dead
trim_tail zero q = out_of_fuel
trim_tail (suc f) q =
    let rest = pop false q >>= λ r. trim_tail f r.2 in
    dead q (last q) >>= λ d. if d then rest else done q

-- `m_listeners.get(eb)`, then `continue` or `put(eb)`. What a failed `get` leaves in `eb` is not known.
pub put_back : Bool → EventBlock → CircularQueue EventBlock → Outcome (CircularQueue EventBlock)
unfolding put
put_back true eb q = done q
put_back false eb q = do (ok, q') ← put (some eb) q; done q'

pub taken : Option EventBlock → Outcome EventBlock
taken none = fault
taken (some eb) = done eb

pub trim_inside : ℕ → CircularQueue EventBlock → Outcome (CircularQueue EventBlock)
unfolding get put_back taken
trim_inside zero q = done q
trim_inside (suc n) q = do
  (ok, v, q1) ← get true q
  eb ← taken v
  q2 ← put_back (is_null eb.name) eb q1
  trim_inside n q2

pub squeez_listeners : ℕ → CircularQueue EventBlock → Outcome (CircularQueue EventBlock)
unfolding trim_head trim_tail trim_inside length
squeez_listeners fuel q = do
  q1 ← trim_head fuel q
  q2 ← trim_tail fuel q1
  trim_inside (length q2) q2

-- The end of `_on`, with the name registered.
pub add_listener :
    ℕ → EventBlock → CircularQueue EventBlock → Outcome (Bool × CircularQueue EventBlock)
unfolding squeez_listeners available put
add_listener fuel eb q = do
  q1 ← (if available q == 0 then squeez_listeners fuel q else done q)
  (if available q1 == 0 then done (false, q1) else put (some eb) q1)

pub add_named :
    ℕ
    → Option ℕ
    → ℕ
    → Bool
    → Option ℕ × CircularQueue (List ℕ)
    → CircularQueue EventBlock
    → Outcome (Bool × EventEmitter)
unfolding add_listener
add_named fuel listener user_data once (none, names) q =
    done (false, record { m_names = names; m_listeners = q })
add_named fuel listener user_data once (some p, names) q = do
  (ok, q') ←
      add_listener fuel
        (record { name = some p; listener = listener; user_data = user_data; once = once }) q
  done (ok, record { m_names = names; m_listeners = q' })

-- `_on`; `on` and `once` call it with `once` false and true.
pub on : ℕ → List ℕ → Option ℕ → ℕ → Bool → EventEmitter → Outcome (Bool × EventEmitter)
unfolding register_event_name add_named
on fuel text listener user_data once e =
    if ltb event_name_length_max (Prelude.length text)
    then done (false, e)
    else (register_event_name fuel text e.m_names >>= λ r.
        add_named fuel listener user_data once r e.m_listeners)

-- The loop of `off`: how many listeners of the name stay, and the queue.
pub off_loop :
    ℕ → ℕ → Option ℕ → ℕ → CircularQueue EventBlock → Outcome (ℕ × CircularQueue EventBlock)
unfolding get put_back taken same_pointer
off_loop name zero listener count q = done (count, q)
off_loop name (suc n) listener count q = do
  (ok, v, q1) ← get true q
  eb ← taken v
  let named = same_pointer eb.name (some name)
  let gone = named && same_pointer eb.listener listener
  q2 ← put_back gone eb q1
  off_loop name n listener (if gone then count else if named then count + 1 else count) q2

-- The text that a pointer to a slot stands for.
pub text_at : CircularQueue (List ℕ) → ℕ → List ℕ
text_at none p = []
text_at (some c) p = c.mem p

pub off_named : ℕ → Option ℕ → Option ℕ → EventEmitter → Outcome (Bool × EventEmitter)
unfolding off_loop unregister_event_name length text_at
off_named fuel listener none e = done (false, e)
off_named fuel listener (some name) e = do
  (count, q) ← off_loop name (length e.m_listeners) listener 0 e.m_listeners
  (p, names) ←
      (if count == 0
        then unregister_event_name fuel (text_at e.m_names name) e.m_names
        else done (none, e.m_names))
  done (true, record { m_names = names; m_listeners = q })

pub off : ℕ → List ℕ → Option ℕ → EventEmitter → Outcome (Bool × EventEmitter)
unfolding find_event_name off_named
off fuel text listener e =
    find_event_name fuel text e.m_names >>= λ found. off_named fuel listener found e

-- `peek->listener` is code of the client: `call` takes the listener, its event and the state of the rest of
-- the program, and gives the event as the listener leaves it.
module _ {W : Type 0} (call : ℕ → EventBlock → W → EventBlock × W) where
  abbrev invoke : EventBlock → Option ℕ → W → EventBlock × W
  invoke eb none w = (eb, w)
  invoke eb (some l) w = call l eb w

  -- The body of the loop of `emit`.
  pub visit : ℕ → ℕ → Cque EventBlock → W → Cque EventBlock × W
  unfolding same_pointer
  visit name p c w =
      let (eb, w') = invoke (c.mem p) (c.mem p).listener w in
      if same_pointer (c.mem p).name (some name)
      then (set_item p (if eb.once then record eb { name = none } else eb) c, w')
      else (c, w)

  pub emit_loop : ℕ → ℕ → Option ℕ → Cque EventBlock → W → Outcome (Cque EventBlock × W)
  unfolding visit peek_next
  emit_loop name zero p c w = out_of_fuel
  emit_loop name (suc f) none c w = done (c, w)
  emit_loop name (suc f) (some p) c w =
      let (c', w') = visit name p c w in emit_loop name f (peek_next (some c') (some p)) c' w'

  pub emit_named : ℕ → Option ℕ → EventEmitter → W → Outcome (Bool × EventEmitter × W)
  unfolding emit_loop peek
  emit_named fuel none e w = done (false, e, w)
  emit_named fuel (some name) e w = go e.m_listeners
    where
      go : CircularQueue EventBlock → Outcome (Bool × EventEmitter × W)
      go none = done (true, e, w)
      go (some c) = do
        (c', w') ← emit_loop name fuel (peek (some c)) c w
        done (true, record e { m_listeners = some c' }, w')

  pub emit : ℕ → List ℕ → EventEmitter → W → Outcome (Bool × EventEmitter × W)
  unfolding find_event_name emit_named
  emit fuel text e w = find_event_name fuel text e.m_names >>= λ found. emit_named fuel found e w
