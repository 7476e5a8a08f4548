-- ===== src/Event/Tests.antt =====
-- Witnesses for the event emitter of gevent.cpp.
use opengcl.Prelude.{
  ℕ, suc, false, ◌≡◌, refl, Option, some, List, [], ◌∷◌, none, true, false, ltb, length, ◌==◌,
  if◌then◌else◌, arith,
}
use opengcl.Prelude.Outcome.{done, fault}
use opengcl.Que.{Cque, pop, in_area}
use opengcl.Que.Peek.{last}
use opengcl.Que.Holds.{Holds}
use opengcl.Event.{
  EventBlock, EventEmitter, same_text, same_pointer, set_item, find_event_name, register_event_name,
  squeez_listeners, on, off, emit,
}
use opengcl.Event.Wrapped.{squeez_listeners-wrapped}
use opengcl.Event.Emit.{called_all, emit-Holds}
use opengcl.Event.Off.{named, without, off-Holds}
use opengcl.Event.Once.{all_once, emit_twice}
use opengcl.Event.On.{kept, with_room, on-Holds}
use opengcl.Event.Register.{find_event_name-register_event_name}

-- Two slots for names of 16 bytes, the first of them taken by the name 97 98.
abbrev names : Cque (List ℕ)
names = record {
  begin = 20;
  end = 68;
  head = 20;
  tail = 36;
  item_size = 16;
  mem = λ a. if a == 20 then 97 ∷ 98 ∷ [] else [];
}

names-Holds : Holds names 2 ((97 ∷ 98 ∷ []) ∷ [])
names-Holds = record { index = 0; laid = omega arith; items = refl }

-- Two listeners of that name, the second marked dead.
abbrev greet : EventBlock
greet = record { name = some 20; listener = some 7; user_data = 0; once = true }

abbrev gone : EventBlock
gone = record { name = none; listener = some 8; user_data = 0; once = true }

abbrev both : List EventBlock
both = greet ∷ gone ∷ []

abbrev listeners : Cque EventBlock
listeners = record {
  begin = 20;
  end = 116;
  head = 20;
  tail = 84;
  item_size = 32;
  mem = λ a. if a == 20 then greet else gone;
}

listeners-Holds : Holds listeners 2 both
listeners-Holds = record { index = 0; laid = omega arith; items = refl }

names_found : find_event_name 5 (97 ∷ 98 ∷ []) (some names) ≡ done (some 20)
unfolding find_event_name
names_found = refl

-- A listener that notes its number.
abbrev note : ℕ → EventBlock → List ℕ → EventBlock × List ℕ
note l eb seen = (eb, l ∷ seen)

emit-Holds_example :
    (q' : Cque EventBlock) × (emit note 5
        (97 ∷ 98 ∷ [])
        (record { m_names = some names; m_listeners = some listeners })
        []
      ≡ done (
        true,
        record { m_names = some names; m_listeners = some q' },
        (called_all note 20 both []).1,
      ))
    × Holds q' 2 (called_all note 20 both []).0
emit-Holds_example =
    emit-Holds note 5 (some names) 20 (97 ∷ 98 ∷ []) [] listeners-Holds (omega arith) names_found

off-Holds_example :
    (q' : Cque EventBlock) × (off 5
        (97 ∷ 98 ∷ [])
        (some 7)
        (record { m_names = some names; m_listeners = some listeners })
      ≡ done (
        true,
        record {
          m_names =
              if named 20 (without 20 (some 7) both) == 0
              then some (set_item 20 [] names)
              else some names;
          m_listeners = some q';
        },
      ))
    × Holds q' 2 (without 20 (some 7) both)
off-Holds_example = off-Holds 5 names 20 (97 ∷ 98 ∷ []) (some 7) listeners-Holds names_found refl

on-Holds_example :
    (q' : Cque EventBlock) × (on 5
        (97 ∷ 98 ∷ [])
        (some 9)
        3
        false
        (record { m_names = some names; m_listeners = some listeners })
      ≡ done (ltb (length (kept 2 both)) 2, record { m_names = some names; m_listeners = some q' }))
    × Holds q' 2 (
        with_room 2
          (kept 2 both)
          (record { name = some 20; listener = some 9; user_data = 3; once = false }))
on-Holds_example =
    on-Holds 5 (some names) 20 (97 ∷ 98 ∷ []) (some 9) 3 false listeners-Holds (omega arith)
      (omega arith) (omega arith) names_found

abbrev one_name : List (List ℕ)
one_name = (97 ∷ 98 ∷ []) ∷ []

find_event_name-register_event_name_example :
    (r : Option ℕ) × (c' : Cque (List ℕ)) × (ys : List (List ℕ)) × (register_event_name 5
        (99 ∷ [])
        (some names)
      ≡ done (r, some c'))
    × Holds c' 2 ys
    × (find_event_name 5 (99 ∷ []) (some c') ≡ done r)
    × (r ≡ none → length one_name ≡ 2)
    × ((t : List ℕ)
        → same_text [] t ≡ false
        → same_text (99 ∷ []) t ≡ false
        → find_event_name 5 t (some c') ≡ find_event_name 5 t (some names))
find_event_name-register_event_name_example =
    find_event_name-register_event_name 5 (99 ∷ []) (omega arith) one_name names-Holds (omega arith)

-- The queue of listeners with the first of them only.
abbrev one_listener : Cque EventBlock
one_listener = record listeners { tail = 52 }

one_listener-Holds : Holds one_listener 2 (greet ∷ [])
one_listener-Holds = record { index = 0; laid = omega arith; items = refl }

asked_once : all_once 20 both ≡ true
unfolding all_once same_pointer
asked_once = refl

emit_twice_example :
    (e1 : EventEmitter) × (e2 : EventEmitter) × (w' : List ℕ) × (emit note 5
        (97 ∷ 98 ∷ [])
        (record { m_names = some names; m_listeners = some listeners })
        []
      ≡ done (true, e1, w'))
    × (emit note 5 (97 ∷ 98 ∷ []) e1 w' ≡ done (true, e2, w'))
emit_twice_example =
    emit_twice note 5 (some names) 20 (97 ∷ 98 ∷ []) [] (λ l eb w. refl) asked_once listeners-Holds
      (omega arith) names_found

-- The same two listeners behind the first slot, so that the tail has wrapped to it.
abbrev wrapped_listeners : Cque EventBlock
wrapped_listeners = record {
  begin = 20;
  end = 116;
  head = 52;
  tail = 20;
  item_size = 32;
  mem = λ a. if a == 52 then greet else gone;
}

wrapped_listeners-Holds : Holds wrapped_listeners 2 both
wrapped_listeners-Holds = record { index = 1; laid = omega arith; items = refl }

squeez_listeners-wrapped_example :
    (q' : Cque EventBlock) × (p : ℕ) × (pop false (some wrapped_listeners)
      ≡ done (true, none, some q'))
    × (last (some q') ≡ some p)
    × (in_area q' p ≡ false)
    × ((f : ℕ) → squeez_listeners (suc (suc f)) (some wrapped_listeners) ≡ fault)
squeez_listeners-wrapped_example =
    squeez_listeners-wrapped greet [] gone wrapped_listeners-Holds refl (omega arith) refl refl
