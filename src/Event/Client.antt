-- ===== src/Event/Client.antt =====
-- src/gevent.cpp: a client that adds a listener by `on` and then calls `emit`.
use opengcl.Prelude.{
  ℕ, suc, ◌≤◌, ◌<◌, ◌≡◌, refl, some, Bool, true, List, [], ◌∷◌, ◌++◌, ltb, eq→==, ne→==, arith,
  length, length-snoc,
}
use opengcl.Prelude.Outcome.{done}
use opengcl.Que.{Cque, CircularQueue}
use opengcl.Que.Holds.{Holds}
use opengcl.Event.On.{kept, with_room, on-Holds}
use opengcl.Event.Emit.{called_all, emit-Holds}
use opengcl.Event.{
  EventBlock, EventEmitter, find_event_name, on, emit, same_pointer, event_name_length_max,
}

kept_room : (n : ℕ) (bs : List EventBlock) → length bs < n → kept n bs ≡ bs
unfolding kept
kept_room n bs lt = rw (ne→== (length bs) n (omega (arith, lt))) refl

with_room_lem :
    (n : ℕ) (bs : List EventBlock) (eb : EventBlock)
    → length bs < n
    → with_room n bs eb ≡ bs ++ eb ∷ []
unfolding with_room
with_room_lem n bs eb lt = let room : ltb (length bs) n ≡ true = ground (arith, lt) in rw room refl

module _ {W : Type 0} (call : ℕ → EventBlock → W → EventBlock × W) where
  -- The last listener is called last.
  called_all-snoc :
      (p l : ℕ) (user_data : ℕ) (once : Bool) (bs : List EventBlock) (w : W)
      → (called_all call p
          (bs
            ++ record { name = some p; listener = some l; user_data = user_data; once = once } ∷ [])
          w).1
        ≡ (call l
            (record { name = some p; listener = some l; user_data = user_data; once = once })
            (called_all call p bs w).1).1
  unfolding called_all same_pointer
  called_all-snoc p l user_data once [] w = rw (eq→== p p refl) refl
  called_all-snoc p l user_data once (b ∷ bs) w = called_all-snoc p l user_data once bs _

  -- For a name of at most 15 characters that is found, on a queue of listeners that has room and has not
  -- wrapped, and on fuel above the number of listeners and one more: `on` succeeds, and an `emit` of that
  -- name right after it succeeds and leaves the rest of the program as the new listener leaves it, called
  -- with the data given to `on` after the listeners of the name that were there before.
  pub emit-on :
      {n : ℕ} {q : Cque EventBlock} {bs : List EventBlock} (fuel : ℕ)
      (names : CircularQueue (List ℕ)) (p : ℕ) (text : List ℕ) (l user_data : ℕ) (once : Bool)
      (w : W)
      → Holds q n bs
      → q.head ≤ q.tail
      → length bs < n
      → suc (length bs) < fuel
      → length text ≤ event_name_length_max
      → find_event_name fuel text names ≡ done (some p)
      → (e1 : EventEmitter) × (e2 : EventEmitter) × (on fuel text
            (some l)
            user_data
            once
            (record { m_names = names; m_listeners = some q })
          ≡ done (true, e1))
        × (emit call fuel text e1 w
            ≡ done (
              true,
              e2,
              (call l
                  (record { name = some p; listener = some l; user_data = user_data; once = once })
                  (called_all call p bs w).1).1,
            ))
  emit-on {n} {bs} fuel names p text l user_data once w h flat room le short found =
      let eb : EventBlock = record {
        name = some p;
        listener = some l;
        user_data = user_data;
        once = once;
      } in
      let (q1, added, h1) =
        on-Holds fuel names p text (some l) user_data once h flat (omega (arith, le)) short found in
      let holds : Holds q1 n (bs ++ eb ∷ []) =
        rw (kept_room n bs room, with_room_lem n bs eb room) at h1 in
      let (q2, emitted, h2) =
        emit-Holds call fuel names p text w holds (omega (arith, le, length-snoc bs eb)) found in
      let fits : ltb (length bs) n ≡ true = ground (arith, room) in
      (
        record { m_names = names; m_listeners = some q1 },
        record { m_names = names; m_listeners = some q2 },
        rw (kept_room n bs room, fits) at added,
        rw (called_all-snoc p l user_data once bs w) at emitted,
      )
