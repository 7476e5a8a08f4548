-- ===== src/Event/Once.antt =====
-- src/gevent.cpp: two calls of `emit`, with listeners added by `once`.
use opengcl.Prelude.{
  ℕ, suc, ◌<◌, ◌≡◌, refl, ap, ◌∙◌, inl, inr, Option, none, some, Bool, Bool-cases, true, ◌&&◌, List,
  [], ◌∷◌, if◌then◌else◌, arith, length,
}
use opengcl.Prelude.Outcome.{done}
use opengcl.Que.{Cque, CircularQueue}
use opengcl.Que.Holds.{Holds}
use opengcl.Event.Emit.{called, called_all, emit-Holds}
use opengcl.Event.{EventBlock, EventEmitter, find_event_name, emit, invoke, same_pointer}

-- Whether every listener of the name asked for one call.
unfoldable pub all_once : ℕ → List EventBlock → Bool
all_once p [] = true
all_once p (eb ∷ l) = (if same_pointer eb.name (some p) then eb.once else true) && all_once p l

module _ {W : Type 0} (call : ℕ → EventBlock → W → EventBlock × W) where
  -- Listeners leave alone how often they asked to be called.
  abbrev pub IsSteady : Type 0
  IsSteady = (l : ℕ) (eb : EventBlock) (w : W) → (call l eb w).0.once ≡ eb.once

  module _ (steady : IsSteady) where
    invoke_once : (eb : EventBlock) (l : Option ℕ) (w : W) → (invoke call eb l w).0.once ≡ eb.once
    invoke_once eb none w = refl
    invoke_once eb (some l) w = steady l eb w

    called_twice :
        (p : ℕ) (eb : EventBlock) (w w' : W)
        → (if same_pointer eb.name (some p) then eb.once else true) ≡ true
        → (called call p (called call p eb w).0 w').1 ≡ w'
    unfolding same_pointer
    called_twice p eb w w' asked = elim (Bool-cases (same_pointer eb.name (some p))) [
      | inl same ↦
          let once : (invoke call eb eb.listener w).0.once ≡ true =
            invoke_once eb eb.listener w ∙ ground (arith, asked, same) in
          rw (same, once) refl
      | inr other ↦ rw (other, other) refl
    ]

    called_all_twice :
        (p : ℕ) (bs : List EventBlock) (w w' : W)
        → all_once p bs ≡ true
        → (called_all call p (called_all call p bs w).0 w').1 ≡ w'
    unfolding called_all all_once
    called_all_twice p [] w w' asked = refl
    called_all_twice p (eb ∷ bs) w w' asked =
        let first : (if same_pointer eb.name (some p) then eb.once else true) ≡ true =
          ground (arith, asked) in
        let others : all_once p bs ≡ true = ground (arith, asked) in
        called_all_twice p bs (called call p eb w).1 _ others ∙ called_twice p eb w w' first

  pub called_all-length :
      (p : ℕ) (bs : List EventBlock) (w : W) → length (called_all call p bs w).0 ≡ length bs
  unfolding called_all
  called_all-length p [] w = refl
  called_all-length p (eb ∷ bs) w = ap suc (called_all-length p bs (called call p eb w).1)

  -- Where every listener of the name asked for one call, and listeners leave that alone: of two calls of
  -- `emit` with a name that is found, on fuel above the number of listeners, both succeed, and the second
  -- leaves the rest of the program as the first left it.
  pub emit_twice :
      {n : ℕ} {q : Cque EventBlock} {bs : List EventBlock} (fuel : ℕ)
      (names : CircularQueue (List ℕ)) (p : ℕ) (text : List ℕ) (w : W)
      → IsSteady
      → all_once p bs ≡ true
      → Holds q n bs
      → length bs < fuel
      → find_event_name fuel text names ≡ done (some p)
      → (e1 : EventEmitter) × (e2 : EventEmitter) × (w' : W) × (emit call fuel text
            (record { m_names = names; m_listeners = some q })
            w
          ≡ done (true, e1, w'))
        × (emit call fuel text e1 w' ≡ done (true, e2, w'))
  emit_twice {bs} fuel names p text w steady asked h le found =
      let w' = (called_all call p bs w).1 in
      let (q1, emitted, h1) = emit-Holds call fuel names p text w h le found in
      let (q2, again, h2) =
        emit-Holds call fuel names p text w' h1 (omega (arith, le, called_all-length p bs w))
          found in
      (
        record { m_names = names; m_listeners = some q1 },
        record { m_names = names; m_listeners = some q2 },
        w',
        emitted,
        rw (called_all_twice steady p bs w w' asked) at again,
      )
