-- ===== src/Event/On.antt =====
-- src/gevent.cpp: the listener that `on` and `once` add, with the name known already.
use opengcl.Prelude.{
  ℕ, ◌≤◌, ◌<◌, ◌≡◌, refl, ap, ◌∙◌, inl, inr, Bool, Bool-cases, List, [], ◌∷◌, ◌++◌, Option, some,
  true, false, if◌then◌else◌, arith, length, ◌==◌, ltb, ◌-◌, eq→==, ne→==,
}
use opengcl.Prelude.Outcome.{done}
use opengcl.Que.{Cque, CircularQueue, available, put}
use opengcl.Que.Holds.{Holds}
use opengcl.Que.Fifo.{put-room}
use opengcl.Que.Counts.{Holds-Counted}
use opengcl.Event.Squeez.{live, squeez_listeners-Holds}
use opengcl.Event.{
  EventBlock, add_listener, add_named, register_event_name, find_event_name, on,
  event_name_length_max,
}

-- The listeners that `on` makes room among: a full queue loses the dead ones.
unfoldable pub kept : ℕ → List EventBlock → List EventBlock
kept n bs = if length bs == n then live bs else bs

-- With the new listener at the end, if there is room for it.
unfoldable pub with_room : ℕ → List EventBlock → EventBlock → List EventBlock
with_room n bs eb = if ltb (length bs) n then bs ++ eb ∷ [] else bs

available_none :
    {n : ℕ} {q : Cque EventBlock} {bs : List EventBlock}
    → Holds q n bs
    → (available (some q) == 0) ≡ (n - length bs == 0)
available_none h = ap (λ (k : ℕ). k == 0) (Holds-Counted h).available_is

available_full :
    {n : ℕ} {q : Cque EventBlock} {bs : List EventBlock}
    → Holds q n bs
    → (available (some q) == 0) ≡ (length bs == n)
available_full h = available_none h ∙ ground (arith, h.laid.len_in)

add_room :
    {n : ℕ} {q : Cque EventBlock} {bs : List EventBlock} (eb : EventBlock)
    → Holds q n bs
    → (q' : Cque EventBlock) × ((if available (some q) == 0
          then done (false, some q)
          else put (some eb) (some q))
        ≡ done (ltb (length bs) n, some q'))
      × Holds q' n (with_room n bs eb)
unfolding with_room
add_room {n} {q} {bs} eb h = elim (Bool-cases (ltb (length bs) n)) [
  | inl room ↦
      let lt : length bs < n = ground (arith, room) in
      let (q', e, h') = put-room h eb lt in
      (q', rw (available_none h, ne→== (n - length bs) 0 (omega (arith, lt)), room) e, rw room h')
  | inr full ↦
      let ge : n ≤ length bs = ground (arith, full) in
      (q, rw (available_none h, eq→== (n - length bs) 0 (omega (arith, ge)), full) refl, rw full h)
]

add_listener-Holds :
    {n : ℕ} {q : Cque EventBlock} {bs : List EventBlock} (fuel : ℕ) (eb : EventBlock)
    → Holds q n bs
    → q.head ≤ q.tail
    → length bs < fuel
    → (q' : Cque EventBlock) × (add_listener fuel eb (some q)
        ≡ done (ltb (length (kept n bs)) n, some q'))
      × Holds q' n (with_room n (kept n bs) eb)
unfolding add_listener kept
add_listener-Holds {n} {q} {bs} fuel eb h flat le = elim (Bool-cases (length bs == n)) [
  | inl full ↦
      let (q1, e1, h1) = squeez_listeners-Holds fuel h flat le in
      let (q', e, h') = add_room eb h1 in (q', rw (available_full h, full, e1) e, rw full h')
  | inr room ↦ let (q', e, h') = add_room eb h in (q', rw (available_full h, room) e, rw room h')
]

-- For a name of at most 15 characters that is found in slot `p`, on a queue of listeners that holds `bs` and
-- has not wrapped, and on fuel above their number: `on` adds the listener behind the others and succeeds,
-- if there is room for it, where a full queue loses its dead listeners first. If there is still no room it
-- fails, and those that are left stay.
pub on-Holds :
    {n : ℕ} {q : Cque EventBlock} {bs : List EventBlock} (fuel : ℕ) (names : CircularQueue (List ℕ))
    (p : ℕ) (text : List ℕ) (listener : Option ℕ) (user_data : ℕ) (once : Bool)
    → Holds q n bs
    → q.head ≤ q.tail
    → length bs < fuel
    → length text ≤ event_name_length_max
    → find_event_name fuel text names ≡ done (some p)
    → (q' : Cque EventBlock) × (on fuel text listener user_data once
          (record { m_names = names; m_listeners = some q })
        ≡ done (ltb (length (kept n bs)) n, record { m_names = names; m_listeners = some q' }))
      × Holds q' n (
          with_room n
            (kept n bs)
            (record { name = some p; listener = listener; user_data = user_data; once = once }))
unfolding on register_event_name add_named
on-Holds {n} {bs} fuel names p text listener user_data once h flat le short found =
    let (q', e, h') =
      add_listener-Holds fuel
        (record { name = some p; listener = listener; user_data = user_data; once = once }) h flat
        le in
    let fits : ltb event_name_length_max (length text) ≡ false = ground (arith, short) in
    (q', rw (fits, found, e) refl, h')

add_listener-room :
    {n : ℕ} {q : Cque EventBlock} {bs : List EventBlock} (fuel : ℕ) (eb : EventBlock)
    → Holds q n bs
    → length bs < n
    → (q' : Cque EventBlock) × (add_listener fuel eb (some q) ≡ done (true, some q'))
      × Holds q' n (bs ++ eb ∷ [])
unfolding add_listener with_room
add_listener-room {n} {bs} fuel eb h lt =
    let (q', e, h') = add_room eb h in
    let room : ltb (length bs) n ≡ true = ground (arith, lt) in
    let not_full : (length bs == n) ≡ false = ne→== (length bs) n (omega (arith, lt)) in
    (q', rw (available_full h, not_full) (rw room at e), rw room at h')

-- Where there is room, and the name is registered in slot `p`, `on` adds the listener behind the others.
pub on-room :
    {n : ℕ} {q : Cque EventBlock} {bs : List EventBlock} (fuel : ℕ)
    (names names' : CircularQueue (List ℕ)) (p : ℕ) (text : List ℕ) (listener : Option ℕ)
    (user_data : ℕ) (once : Bool)
    → Holds q n bs
    → length bs < n
    → length text ≤ event_name_length_max
    → register_event_name fuel text names ≡ done (some p, names')
    → (q' : Cque EventBlock) × (on fuel text listener user_data once
          (record { m_names = names; m_listeners = some q })
        ≡ done (true, record { m_names = names'; m_listeners = some q' }))
      × Holds q' n (
          bs
          ++ record { name = some p; listener = listener; user_data = user_data; once = once } ∷ [])
unfolding on add_named
on-room {n} {bs} fuel names names' p text listener user_data once h lt short registered =
    let (q', e, h') =
      add_listener-room fuel
        (record { name = some p; listener = listener; user_data = user_data; once = once }) h lt in
    let fits : ltb event_name_length_max (length text) ≡ false = ground (arith, short) in
    (q', rw (fits, registered, e) refl, h')
