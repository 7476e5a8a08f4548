-- ===== src/Event/Threads.antt =====
-- src/gevent.cpp: an EventEmitter that several threads call. Each of `on`, `off` and `emit` takes the write lock
-- first (Guard.antt); the listeners run while it is held.
use opengcl.Prelude.{
  ℕ, suc, ◌<◌, ◌≤◌, ◌^◌, ◌≡◌, sym, ap, ◌∙◌, inl, inr, some, Bool, true, List, [], ◌∷◌,
}
use opengcl.Prelude.Outcome.{Outcome, Outcome-cases, done, ◌>>=◌}
use opengcl.Que.Layout.{slot}
use opengcl.Guard.{Object, Call, write, Entry, System, Reach}
use opengcl.Guard
use opengcl.Guard.Order.{calls, replies, Reach-run}
use opengcl.Event.{EventBlock, EventEmitter}
use opengcl.Event.Construct.{event_emitter, event_name_size, event_block_size}
use opengcl.Event.Spec.{Op, step, run, run_spec, fresh, adds, are_names}
use opengcl.Event.Refine.{run-event_emitter}

-- Calls as the lock sees them; none takes it for reading.
abbrev pub to_calls : List Op → List (Call Op ⊥)
to_calls [] = []
to_calls (op ∷ ops) = write op ∷ to_calls ops

module _ {W : Type 0} (act : ℕ → ℕ → W → W) (fuel : ℕ) where
  -- The emitter and what its listeners work on.
  abbrev paired : Bool × EventEmitter × W → Bool × (EventEmitter × W)
  paired (b, e, w) = (b, (e, w))

  abbrev pub locked_body : Op → EventEmitter × W → Outcome (Bool × (EventEmitter × W))
  locked_body op (e, w) = do r ← step act fuel op e w; done (paired r)

  abbrev pub guarded_emitter : Object (EventEmitter × W) Op ⊥ Bool
  guarded_emitter = record { write_body = locked_body; read_body = λ c. absurd c }

  run_same :
      (ops : List Op) (e : EventEmitter) (w w' : W) (bs : List Bool)
      → run act fuel ops e w ≡ done (bs, w')
      → (e' : EventEmitter) × (Guard.run guarded_emitter (e, w) (to_calls ops)
          ≡ done (bs, (e', w')))
  unfolding run Guard.run Guard.body
  run_same [] e w w' bs h = (e, cc h)
  run_same (op ∷ ops) e w w' bs h = elim (Outcome-cases (step act fuel op e w)) [
    | inl bad ↦ absurd (elim bad [ inl bad ↦ cc (rw bad at h) | inr bad ↦ cc (rw bad at h) ])
    | inr ((b, e1, w1), first) ↦ elim (Outcome-cases (run act fuel ops e1 w1)) [
      | inl bad ↦
          absurd
            (elim bad [ inl bad ↦ cc (rw (first, bad) at h) | inr bad ↦ cc (rw (first, bad) at h) ])
      | inr ((bs1, w2), rest) ↦
          let ended : done (b ∷ bs1, w2) ≡ done (bs, w') = rw (first, rest) at h in
          let (e', later) = run_same ops e1 w1 w2 bs1 rest in (e', rw (first, later) (cc ended))
    ]
  ]

module _ {W : Type 0} (act : ℕ → ℕ → W → W) {fuel m n : ℕ} (enough : suc m < fuel)
    (enough' : suc n < fuel) where
  -- Any number of threads call an emitter that is made for `m` names and `n` listeners, both above 0, with
  -- memory to be had and blocks of less than 2 ^ 32 bytes, on fuel above both numbers and one more, with names of 1 to 15
  -- characters, and no more of their calls than there is room for add a listener: in the order in which
  -- their calls take effect, the replies are those of a list of listeners under their texts
  -- (Event/Spec.antt), and so is what the listeners have done, where they do not change their event.
  pub Reach-event_emitter :
      (ops : List Op) (names : ℕ → List ℕ) (listeners : ℕ → EventBlock) (w : W)
      → 0 < m
      → 0 < n
      → slot event_name_size (suc m) < 2 ^ 32
      → slot event_block_size (suc n) < 2 ^ 32
      → adds ops ≤ m
      → adds ops ≤ n
      → are_names ops ≡ true
      → {k : ℕ} {l : List (Entry Op ⊥ Bool)} {s : System (EventEmitter × W) Op ⊥}
      → calls l ≡ to_calls ops
      → Reach (guarded_emitter act fuel) k (event_emitter m n (some names) (some listeners), w) l s
      → (replies l ≡ (run_spec act ops fresh w).0) × (s.mem.state.1 ≡ (run_spec act ops fresh w).1)
  Reach-event_emitter ops names listeners w pos pos' fits fits' le le' ok {l} {s} made reach =
      let e : EventEmitter = event_emitter m n (some names) (some listeners) in
      let ran =
        run-event_emitter act enough enough' ops names listeners w pos pos' fits fits' le le' ok in
      let (e', ran') =
        run_same act fuel ops e w (run_spec act ops fresh w).1 (run_spec act ops fresh w).0 ran in
      let same : done (replies l, s.mem.state)
          ≡ done ((run_spec act ops fresh w).0, (e', (run_spec act ops fresh w).1)) =
        sym (Reach-run reach) ∙ ap (Guard.run (guarded_emitter act fuel) (e, w)) made ∙ ran' in
      (cc same, cc same)
