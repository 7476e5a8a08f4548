-- ===== src/Event/CallTests.antt =====
-- Witnesses for the sequences of calls of the event emitter of gevent.cpp, by one thread and by several.
use opengcl.Prelude.{
  Bool, inl, inr, ℕ, ◌≡◌, refl, some, List, [], ◌∷◌, none, true, false, ◌≤◌, arith,
}
use opengcl.Prelude.Outcome.{done, Outcome-cases}
use opengcl.Event.{EventBlock, EventEmitter, same_text, same_pointer}
use opengcl.Event.Construct.{event_emitter}
use opengcl.Event.Spec.{
  Op, add, remove, fire, run, run_spec, step_spec, fresh, adds, are_names, is_name, fire_all,
  act_of, removed, spent, in_use,
}
use opengcl.Event.Refine.{run-event_emitter}
use opengcl.Guard.{
  write, Entry, idle, written, lock_write, fetch, commit, System, pick, Reach, start, silent,
  effect,
}
use opengcl.Guard.Order.{replies}
use opengcl.Event.Threads.{locked_body, guarded_emitter, Reach-event_emitter}
use opengcl.Event.Spec.{step}

-- What stands in the block of the listeners before any is added.
abbrev gone : EventBlock
gone = record { name = none; listener = some 8; user_data = 0; once = true }

-- An event is asked for once, fired twice, and taken off; in the end its name is not known.
abbrev calls : List Op
calls =
    add (97 ∷ []) (some 7) 1 true
    ∷ add (98 ∷ []) (some 8) 2 false
    ∷ fire (97 ∷ [])
    ∷ fire (97 ∷ [])
    ∷ remove (98 ∷ []) (some 8)
    ∷ fire (98 ∷ [])
    ∷ []

abbrev noted : ℕ → ℕ → List ℕ → List ℕ
noted l user_data seen = l ∷ user_data ∷ seen

are_names-calls : are_names calls ≡ true
unfolding are_names is_name same_text
are_names-calls = refl

adds-calls : adds calls ≤ 2
unfolding adds
adds-calls = omega arith

run-event_emitter_example :
    run noted 5 calls (event_emitter 2 3 (some (λ a. [])) (some (λ a. gone))) []
    ≡ done (run_spec noted calls fresh [])
run-event_emitter_example =
    run-event_emitter noted {m = 2} {n = 3} (omega arith) (omega arith) calls (λ a. []) (λ a. gone)
      [] (omega arith) (omega arith) (omega arith) (omega arith) adds-calls
      (omega (arith, adds-calls)) are_names-calls

run_spec-calls :
    run_spec noted calls fresh [] ≡ (true ∷ true ∷ true ∷ true ∷ true ∷ false ∷ [], 7 ∷ 1 ∷ [])
unfolding run_spec step_spec fire_all act_of removed spent in_use same_text same_pointer
run_spec-calls = refl

-- The second of two threads has added a listener, and still has the lock.
abbrev add_call : Op
add_call = add (97 ∷ []) (some 7) 1 false

abbrev small : EventEmitter
small = event_emitter 1 1 (some (λ a. [])) (some (λ a. gone))

adds-one : adds (add_call ∷ []) ≤ 1
unfolding adds
adds-one = omega arith

are_names-one : are_names (add_call ∷ []) ≡ true
unfolding are_names is_name same_text
are_names-one = refl

-- What one call leaves, if it ends.
after :
    (op : Op) (e : EventEmitter) (b : Bool) (w w' : List ℕ)
    → run noted 5 (op ∷ []) e w ≡ done (b ∷ [], w')
    → (e' : EventEmitter) × (locked_body noted 5 op (e, w) ≡ done (b, (e', w')))
unfolding run
after op e b w w' h = elim (Outcome-cases (step noted 5 op e w)) [
  | inl bad ↦ absurd (elim bad [ inl bad ↦ cc (rw bad at h) | inr bad ↦ cc (rw bad at h) ])
  | inr ((b1, e1, w1), first) ↦
      let ended : done (b1 ∷ [], w1) ≡ done (b ∷ [], w') = rw first at h in
      (e1, rw first (cc ended))
]

add_runs : run noted 5 (add_call ∷ []) small [] ≡ done (true ∷ [], [])
unfolding run_spec step_spec
add_runs =
    run-event_emitter noted {m = 1} {n = 1} (omega arith) (omega arith) (add_call ∷ []) (λ a. [])
      (λ a. gone) [] (omega arith) (omega arith) (omega arith) (omega arith) adds-one adds-one
      are_names-one

abbrev added : EventEmitter
added = (after add_call small true [] [] add_runs).0

add_body : locked_body noted 5 add_call (small, []) ≡ done (true, (added, []))
add_body = (after add_call small true [] [] add_runs).1

abbrev added_entry : Entry Op ⊥ Bool
added_entry = record { call = write add_call; reply = true }

abbrev two_threads : System (EventEmitter × List ℕ) Op ⊥
two_threads = record {
  mem = record { writer = true; readers = 0; state = (added, []) };
  threads = idle ∷ written ∷ [];
}

two_threads-Reach : Reach (guarded_emitter noted 5) 2 (small, []) (added_entry ∷ []) two_threads
two_threads-Reach =
    effect
      (silent (silent start (pick (idle ∷ []) [] refl (lock_write add_call refl refl) refl))
        (pick (idle ∷ []) [] refl fetch refl))
      (pick (idle ∷ []) [] refl (commit add_body) refl)

Reach-event_emitter_example :
    (replies (added_entry ∷ []) ≡ (run_spec noted (add_call ∷ []) fresh []).0)
    × (two_threads.mem.state.1 ≡ (run_spec noted (add_call ∷ []) fresh []).1)
Reach-event_emitter_example =
    Reach-event_emitter noted {m = 1} {n = 1} (omega arith) (omega arith) (add_call ∷ []) (λ a. [])
      (λ a. gone) [] (omega arith) (omega arith) (omega arith) (omega arith) adds-one adds-one
      are_names-one refl two_threads-Reach
