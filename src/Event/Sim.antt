-- ===== src/Event/Sim.antt =====
-- src/gevent.cpp: any sequence of `on`, `once`, `off` and `emit` against the state that Event/Spec.antt has.
use opengcl.Prelude.{
  ℕ, suc, ◌≤◌, ◌<◌, ◌≡◌, refl, sym, ap, ◌∙◌, inl, inr, Option, none, some, Bool, Bool-cases, true,
  false, List, [], arith, length,
}
use opengcl.Prelude.Outcome.{Outcome, done}
use opengcl.Que.{Cque}
use opengcl.Que.Holds.{Holds}
use opengcl.Event.{
  EventBlock, EventEmitter, same_text, find_event_name, off, emit, off_named, emit_named,
}
use opengcl.Event.Others.{find_event_name-mem}
use opengcl.Event.Unique.{Unique}
use opengcl.Event.Emit.{called_all, emit-Holds}
use opengcl.Event.Once.{called_all-length}
use opengcl.Event.Shown.{AreNamed, shown, IsAt, called_all-shown}
use opengcl.Event.Spec.{State, fire, spent, fire_all, step_spec, call_of, step}

-- What a search comes to for a text that is a name, or not.
abbrev pub Looks : Bool → Outcome (Option ℕ) → Type 0
Looks true o = (p : ℕ) × (o ≡ done (some p))
Looks false o = o ≡ done none

-- An EventEmitter with at most `a` names and at most `b` listeners that is in the state `s`.
pub record Sim (fuel m n a b : ℕ) (s : State) : Type 0 where
  pub names : Cque (List ℕ)
  pub queue : Cque EventBlock
  pub texts : List (List ℕ)
  pub blocks : List EventBlock
  pub names_hold : Holds names m texts
  pub queue_holds : Holds queue n blocks
  pub unique : Unique texts
  pub named_well : AreNamed fuel names blocks
  pub entries : s.entries ≡ shown names.mem blocks
  pub known :
      (t : List ℕ)
      → same_text [] t ≡ false
      → Looks (s.known t) (find_event_name fuel t (some names))
  pub few_names : length texts ≤ a
  pub few_blocks : length blocks ≤ b

abbrev pub emitter : {fuel m n a b : ℕ} {s : State} → Sim fuel m n a b s → EventEmitter
emitter S = record { m_names = some S.names; m_listeners = some S.queue }

-- Without the name, nothing happens.
emit_unknown :
    {W : Type 0} (act : ℕ → ℕ → W → W) (fuel : ℕ) (text : List ℕ) (names : Cque (List ℕ))
    (q : Cque EventBlock) (w : W)
    → find_event_name fuel text (some names) ≡ done none
    → emit (call_of act) fuel text (record { m_names = some names; m_listeners = some q }) w
      ≡ done (false, record { m_names = some names; m_listeners = some q }, w)
unfolding emit emit_named
emit_unknown act fuel text names q w e = rw e refl

pub off_unknown :
    (fuel : ℕ) (text : List ℕ) (l : Option ℕ) (names : Cque (List ℕ)) (q : Cque EventBlock)
    → find_event_name fuel text (some names) ≡ done none
    → off fuel text l (record { m_names = some names; m_listeners = some q })
      ≡ done (false, record { m_names = some names; m_listeners = some q })
unfolding off off_named
off_unknown fuel text l names q e = rw e refl

-- A call of the emitter gives the reply and the rest of the program in `r`, and ends in its state.
pub record Stepped {W : Type 0} (fuel m n a b : ℕ) (o : Outcome (Bool × EventEmitter × W))
    (r : Bool × State × W) : Type 0 where
  pub after : Sim fuel m n a b r.1
  pub gives : o ≡ done (r.0, emitter after, r.2)

module _ {W : Type 0} (act : ℕ → ℕ → W → W) {fuel m n a b : ℕ} (enough : suc m < fuel)
    (enough' : suc n < fuel) {s : State} (S : Sim fuel m n a b s) where
  open S use {names, queue, texts, blocks, names_hold, queue_holds}

  pub names_le : suc (length texts) < fuel
  names_le = omega (arith, enough, names_hold.laid.len_in)

  blocks_le : length blocks < fuel
  blocks_le = omega (arith, enough', queue_holds.laid.len_in)

  pub not_known :
      (text : List ℕ)
      → same_text [] text ≡ false
      → s.known text ≡ false
      → find_event_name fuel text (some names) ≡ done none
  not_known text used e = rw e at (S.known text used)

  pub is_known :
      (text : List ℕ)
      → same_text [] text ≡ false
      → s.known text ≡ true
      → (p : ℕ) × (find_event_name fuel text (some names) ≡ done (some p))
  is_known text used e = rw e at (S.known text used)

  pub IsAt-slot :
      (text : List ℕ) (p : ℕ)
      → find_event_name fuel text (some names) ≡ done (some p)
      → IsAt fuel names text p
  IsAt-slot text p e = record {
    found = e;
    there = find_event_name-mem text fuel p names_hold (omega (arith, names_le)) e;
  }

  pub fire-step :
      (text : List ℕ) (w : W)
      → same_text [] text ≡ false
      → Stepped fuel m n a b
          (step act fuel (fire text) (emitter S) w)
          (step_spec act (fire text) s w)
  unfolding step step_spec
  fire-step text w used = elim (Bool-cases (s.known text)) [
    | inl known ↦
        let (p, found) = is_known text used known in
        let (q', e, h') =
          emit-Holds (call_of act) fuel (some names) p text w queue_holds blocks_le found in
        let (sh, rest, named') =
          called_all-shown (IsAt-slot text p found) act blocks w S.named_well in
        rw known (record {
          after = record {
            names = names;
            queue = q';
            texts = texts;
            blocks = (called_all (call_of act) p blocks w).0;
            names_hold = names_hold;
            queue_holds = h';
            unique = S.unique;
            named_well = named';
            entries = ap (spent text) S.entries ∙ sym sh;
            known = S.known;
            few_names = S.few_names;
            few_blocks = omega (arith, S.few_blocks, called_all-length (call_of act) p blocks w);
          };
          gives =
              e
              ∙ ap (λ v. done (true, record { m_names = some names; m_listeners = some q' }, v))
                  (rest ∙ ap (λ es. fire_all act text es w) (sym S.entries));
        })
    | inr unknown ↦ rw unknown (record {
      after = S;
      gives = emit_unknown act fuel text S.names S.queue w (not_known text used unknown);
    })
  ]
