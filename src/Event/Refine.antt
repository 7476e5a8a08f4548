-- ===== src/Event/Refine.antt =====
-- src/gevent.cpp: any sequence of `on`, `once`, `off` and `emit` against the state that Event/Spec.antt has.
use opengcl.Prelude.{
  ℕ, suc, ◌+◌, ◌≤◌, ◌<◌, ◌≡◌, refl, sym, ap, ◌∙◌, inl, inr, Option, some, Bool, Bool-cases,
  Option-cases, true, false, ◌||◌, List, [], ◌∷◌, ◌++◌, ◌^◌, leb, arith, length, length-snoc, ap₂,
}
use opengcl.Prelude.Outcome.{done}
use opengcl.Que.{Cque}
use opengcl.Que.Holds.{Holds}
use opengcl.Event.{EventBlock, same_text, find_event_name, event_name_length_max}
use opengcl.Event.Construct.{event_emitter, event_name_size, event_block_size}
use opengcl.Que.Init.{new_queue-Holds}
use opengcl.Que.Layout.{slot}
use opengcl.Event.Names.{same_text_lem, has_text}
use opengcl.Event.Find.{find_none}
use opengcl.Event.Others.{find_event_name-mem}
use opengcl.Event.Unique.{Unique, other_way}
use opengcl.Event.Register.{Registered, registers}
use opengcl.Event.On.{on-room}
use opengcl.Event.Shown.{IsSlot, AreNamed, shown, entry_of}
use opengcl.Event.Moved.{Keeps, moved, AreNamed-snoc, shown-snoc}
use opengcl.Event.Spec.{
  State, Op, add, remove, fire, step_spec, run_spec, step, run, adds, is_name, are_names, fresh,
}
use opengcl.Event.Remove.{remove-step}
use opengcl.Event.Sim.{Sim, Looks, emitter, Stepped, names_le, fire-step}

-- The name that a registration gives, and the slots that were in use before it.
module _ (fuel : ℕ) (text : List ℕ) {names : Cque (List ℕ)} {m : ℕ} (texts : List (List ℕ))
    (R : Registered fuel text texts m names) (enough : suc m < fuel) (p : ℕ)
    (is : R.result ≡ some p) where
  registered : find_event_name fuel text (some R.queue) ≡ done (some p)
  registered = R.finds ∙ ap done is

  mem_of :
      (t : List ℕ) (q : ℕ)
      → find_event_name fuel t (some R.queue) ≡ done (some q)
      → R.queue.mem q ≡ t
  mem_of t q e = find_event_name-mem t fuel q R.holds (omega (arith, enough, R.holds.laid.len_in)) e

  Keeps-as :
      (q : ℕ)
      → same_text [] (names.mem q) ≡ false
      → find_event_name fuel (names.mem q) (some R.queue) ≡ done (some q)
      → Keeps fuel names R.queue (some q)
  Keeps-as q full e =
      let same : R.queue.mem q ≡ names.mem q = mem_of (names.mem q) q e in
      rw same (((e, full), refl))

  keeps : (q : ℕ) → IsSlot fuel names (some q) → Keeps fuel names R.queue (some q)
  keeps q slot = elim (Bool-cases (same_text text (names.mem q))) [
    | inl same ↦
        let e : text ≡ names.mem q = same_text_lem text (names.mem q) same in
        let before : find_event_name fuel text (some names) ≡ done (some q) = rw e (slot.0) in
        let after : find_event_name fuel text (some R.queue) ≡ done (some q) =
          R.finds ∙ ap done (R.again q before) in
        Keeps-as q slot.1 (ap (λ t. find_event_name fuel t (some R.queue)) (sym e) ∙ after)
    | inr other ↦ Keeps-as q slot.1 (R.others (names.mem q) slot.1 other ∙ slot.0)
  ]

  knows :
      (k : List ℕ → Bool)
      → ((t : List ℕ) → same_text [] t ≡ false → Looks (k t) (find_event_name fuel t (some names)))
      → (t : List ℕ) → same_text [] t ≡ false
      → Looks (same_text text t || k t) (find_event_name fuel t (some R.queue))
  knows k known t u = elim (Bool-cases (same_text text t)) [
    | inl same ↦ rw same (
        (
          p,
          ap (λ a. find_event_name fuel a (some R.queue)) (sym (same_text_lem text t same))
              ∙ registered,
        ))
    | inr other ↦ rw (other, R.others t u other) (known t u)
  ]

module _ {W : Type 0} (act : ℕ → ℕ → W → W) {fuel m n a b : ℕ} (enough : suc m < fuel)
    (enough' : suc n < fuel) {s : State} (S : Sim fuel m n a b s) where
  add-step :
      (text : List ℕ) (l : Option ℕ) (user_data : ℕ) (once : Bool) (w : W)
      → same_text [] text ≡ false
      → length text ≤ event_name_length_max
      → a < m
      → b < n
      → Stepped fuel m n
          (suc a)
          (suc b)
          (step act fuel (add text l user_data once) (emitter S) w)
          (step_spec act (add text l user_data once) s w)
  unfolding step step_spec
  add-step text l user_data once w used short room room' =
      let R = registers fuel text short S.texts S.names_hold (names_le act enough enough' S) in
      elim (Option-cases R.result) [
        | inl refused ↦ absurd (omega (arith, R.refused refused, room, S.few_names))
        | inr (p, e) ↦
            let eb : EventBlock = record {
              name = some p;
              listener = l;
              user_data = user_data;
              once = once;
            } in
            let (q', given, h') =
              on-room fuel (some S.names) (some R.queue) p text l user_data once S.queue_holds
                (omega (arith, room', S.few_blocks)) short
                (R.returns ∙ ap (λ r. done (r, some R.queue)) e) in
            let (named', same) =
              moved fuel S.names R.queue (keeps fuel text S.texts R enough p e) S.blocks
                S.named_well in
            let found = registered fuel text S.texts R enough p e in
            let there : R.queue.mem p ≡ text = mem_of fuel text S.texts R enough p e text p found in
            record {
              after = record {
                names = R.queue;
                queue = q';
                texts = R.names;
                blocks = S.blocks ++ eb ∷ [];
                names_hold = R.holds;
                queue_holds = h';
                unique = R.unique S.unique;
                named_well =
                    AreNamed-snoc fuel R.queue S.blocks eb named' (rw there ((found, used)));
                entries =
                    ap₂ (λ es t. es ++ entry_of t eb ∷ []) (S.entries ∙ sym same) (sym there)
                    ∙ sym (shown-snoc R.queue.mem S.blocks eb p refl);
                known = knows fuel text S.texts R enough p e s.known S.known;
                few_names = omega (arith, R.longer, S.few_names);
                few_blocks = omega (arith, length-snoc S.blocks eb, S.few_blocks);
              };
              gives = rw given refl;
            }
      ]

-- A name is not empty, and fits its slot.
is_name_lem :
    (text : List ℕ)
    → is_name text ≡ true
    → (same_text [] text ≡ false) × (length text ≤ event_name_length_max)
unfolding is_name
is_name_lem text e =
    let used : same_text text [] ≡ false = ground (arith, e) in
    let fits : leb (length text) event_name_length_max ≡ true = ground (arith, e) in
    (other_way text [] used, ground (arith, fits))

empty_emitter :
    {fuel m n : ℕ} {names : Cque (List ℕ)} {queue : Cque EventBlock}
    → Holds names m []
    → Holds queue n []
    → (1 ≤ fuel)
    → Sim fuel m n 0 0 fresh
unfolding Unique AreNamed shown has_text
empty_emitter {fuel} {names = names} {queue} h h' le = record {
  names = names;
  queue = queue;
  texts = [];
  blocks = [];
  names_hold = h;
  queue_holds = h';
  unique = tt;
  named_well = tt;
  entries = refl;
  known = λ t u. find_none t fuel h refl (omega (arith, le));
  few_names = omega arith;
  few_blocks = omega arith;
}

module _ {W : Type 0} (act : ℕ → ℕ → W → W) {fuel m n : ℕ} (enough : suc m < fuel)
    (enough' : suc n < fuel) where
  -- One call, and the calls after it.
  both :
      (op : Op) (ops : List Op) {a b : ℕ} {s : State} (S : Sim fuel m n a b s) (w : W) (a' b' : ℕ)
      (T : Stepped fuel m n a' b' (step act fuel op (emitter S) w) (step_spec act op s w))
      → run act fuel ops (emitter T.after) (step_spec act op s w).2
        ≡ done (run_spec act ops (step_spec act op s w).1 (step_spec act op s w).2)
      → run act fuel (op ∷ ops) (emitter S) w ≡ done (run_spec act (op ∷ ops) s w)
  unfolding run run_spec
  both op ops S w a' b' T later = rw (T.gives, later) refl

  runs :
      (ops : List Op) {a b : ℕ} {s : State} (S : Sim fuel m n a b s) (w : W)
      → a + adds ops ≤ m
      → b + adds ops ≤ n
      → are_names ops ≡ true
      → run act fuel ops (emitter S) w ≡ done (run_spec act ops s w)
  unfolding run run_spec adds are_names
  runs [] S w le le' e = refl
  runs (add text l user_data once ∷ ops) {a} {b} S w le le' e =
      let this : is_name text ≡ true = ground (arith, e) in
      let others : are_names ops ≡ true = ground (arith, e) in
      let (used, short) = is_name_lem text this in
      let T =
        add-step act enough enough' S text l user_data once w used short (omega (arith, le))
          (omega (arith, le')) in
      both (add text l user_data once) ops S w (suc a) (suc b) T (
        runs ops T.after (step_spec act (add text l user_data once) _ w).2 (omega (arith, le))
          (omega (arith, le')) others)
  runs (remove text l ∷ ops) {a} {b} S w le le' e =
      let this : is_name text ≡ true = ground (arith, e) in
      let others : are_names ops ≡ true = ground (arith, e) in
      let (used, short) = is_name_lem text this in
      let T = remove-step act enough enough' S text l w used short in
      both (remove text l) ops S w a b T (runs ops T.after _ le le' others)
  runs (fire text ∷ ops) {a} {b} S w le le' e =
      let this : is_name text ≡ true = ground (arith, e) in
      let others : are_names ops ≡ true = ground (arith, e) in
      let T = fire-step act enough enough' S text w (is_name_lem text this).0 in
      both (fire text) ops S w a b T (runs ops T.after _ le le' others)

  -- For an emitter that is made for `m` names and `n` listeners, both above 0, with memory to be had and
  -- blocks of less than 2 ^ 32 bytes, on fuel above both numbers and one more: any calls of `on`, `once`,
  -- `off` and `emit` with names of 1 to 15 characters, of which at most `m` and at most `n` add a listener,
  -- all end, and their replies and their effects on the rest of the program are those of a list of
  -- listeners under their texts (Event/Spec.antt), where the listeners do not change their event.
  pub run-event_emitter :
      (ops : List Op) (names : ℕ → List ℕ) (listeners : ℕ → EventBlock) (w : W)
      → 0 < m
      → 0 < n
      → slot event_name_size (suc m) < 2 ^ 32
      → slot event_block_size (suc n) < 2 ^ 32
      → adds ops ≤ m
      → adds ops ≤ n
      → are_names ops ≡ true
      → run act fuel ops (event_emitter m n (some names) (some listeners)) w
        ≡ done (run_spec act ops fresh w)
  unfolding empty_emitter event_emitter
  run-event_emitter ops names listeners w pos pos' fits fits' le le' e =
      let (c, made, h) = new_queue-Holds m event_name_size names (omega arith) fits pos in
      let (c', made', h') = new_queue-Holds n event_block_size listeners (omega arith) fits' pos' in
      rw (made, made')
        (runs ops (empty_emitter h h' (omega (arith, enough))) w (omega (arith, le))
          (omega (arith, le')) e)
