-- ===== src/Event/Spec.antt =====
-- src/gevent.cpp: what an EventEmitter promises, without queues and pointers: a set of names and the list of
-- the listeners, each under the text of its name.
use opengcl.Prelude.{
  ℕ, suc, Option, none, some, Bool, true, false, not, ◌&&◌, ◌||◌, List, [], ◌∷◌, ◌++◌,
  if◌then◌else◌, leb, length,
}
use opengcl.Prelude.Outcome.{Outcome, done, ◌>>=◌}
use opengcl.Event.{
  EventBlock, EventEmitter, same_text, same_pointer, on, off, emit, event_name_length_max,
}

pub record Entry : Type 0 where
  pub text : List ℕ
  pub listener : Option ℕ
  pub user_data : ℕ
  pub once : Bool

-- `known` says which texts are names.
pub record State : Type 0 where
  pub known : List ℕ → Bool
  pub entries : List Entry

abbrev pub fresh : State
fresh = record { known = λ t. false; entries = [] }

-- The calls of a client; `add` is `on` or, with `true`, `once`.
pub data Op : Type 0 where
  add : List ℕ → Option ℕ → ℕ → Bool → Op
  remove : List ℕ → Option ℕ → Op
  fire : List ℕ → Op

-- The entries that stay when a listener is taken out from under a name.
unfoldable pub removed : List ℕ → Option ℕ → List Entry → List Entry
removed text l [] = []
removed text l (e ∷ es) =
    if same_text e.text text && same_pointer e.listener l
    then removed text l es
    else e ∷ removed text l es

-- Those that stay when a name is fired: not those that asked for one call.
unfoldable pub spent : List ℕ → List Entry → List Entry
spent text [] = []
spent text (e ∷ es) = if same_text e.text text && e.once then spent text es else e ∷ spent text es

unfoldable pub in_use : List ℕ → List Entry → Bool
in_use text [] = false
in_use text (e ∷ es) = same_text e.text text || in_use text es

module _ {W : Type 0} (act : ℕ → ℕ → W → W) where
  -- A listener gets its data; null is not called.
  unfoldable pub act_of : Option ℕ → ℕ → W → W
  act_of none user_data w = w
  act_of (some l) user_data w = act l user_data w

  unfoldable pub fire_all : List ℕ → List Entry → W → W
  fire_all text [] w = w
  fire_all text (e ∷ es) w =
      fire_all text es (if same_text e.text text then act_of e.listener e.user_data w else w)

  unfoldable pub step_spec : Op → State → W → Bool × State × W
  step_spec (add text l user_data once) s w = (
    true,
    record {
      known = λ t. same_text text t || s.known t;
      entries =
          s.entries
          ++ record { text = text; listener = l; user_data = user_data; once = once } ∷ [];
    },
    w,
  )
  step_spec (remove text l) s w =
      let es = removed text l s.entries in
      if s.known text
      then (
        true,
        record {
          known = λ t. (in_use text es || not (same_text text t)) && s.known t;
          entries = es;
        },
        w,
      )
      else (false, s, w)
  step_spec (fire text) s w =
      if s.known text
      then (
        true,
        record { known = s.known; entries = spent text s.entries },
        fire_all text s.entries w,
      )
      else (false, s, w)

  -- The replies to some calls, and the rest of the program after them.
  unfoldable pub run_spec : List Op → State → W → List Bool × W
  run_spec [] s w = ([], w)
  run_spec (op ∷ ops) s w =
      let (b, s', w') = step_spec op s w in let (bs, w'') = run_spec ops s' w' in (b ∷ bs, w'')

  -- A listener of the code that does this and leaves its event alone.
  abbrev pub call_of : ℕ → EventBlock → W → EventBlock × W
  call_of l eb w = (eb, act l eb.user_data w)

  -- The same calls of an EventEmitter.
  unfoldable pub step : ℕ → Op → EventEmitter → W → Outcome (Bool × EventEmitter × W)
  step fuel (add text l user_data once) e w = do
    (b, e') ← on fuel text l user_data once e
    done (b, e', w)
  step fuel (remove text l) e w = do (b, e') ← off fuel text l e; done (b, e', w)
  step fuel (fire text) e w = emit call_of fuel text e w

  unfoldable pub run : ℕ → List Op → EventEmitter → W → Outcome (List Bool × W)
  run fuel [] e w = done ([], w)
  run fuel (op ∷ ops) e w = do
    (b, e', w') ← step fuel op e w
    (bs, w'') ← run fuel ops e' w'
    done (b ∷ bs, w'')

-- How many listeners the calls add.
unfoldable pub adds : List Op → ℕ
adds [] = 0
adds (add text l user_data once ∷ ops) = suc (adds ops)
adds (remove text l ∷ ops) = adds ops
adds (fire text ∷ ops) = adds ops

-- A name has at least one character and at most 15.
unfoldable pub is_name : List ℕ → Bool
is_name text = not (same_text text []) && leb (length text) event_name_length_max

unfoldable pub are_names : List Op → Bool
are_names [] = true
are_names (add text l user_data once ∷ ops) = is_name text && are_names ops
are_names (remove text l ∷ ops) = is_name text && are_names ops
are_names (fire text ∷ ops) = is_name text && are_names ops
