-- ===== src/Event/Off.antt =====
-- src/gevent.cpp: what `off` leaves of the listeners.
use opengcl.Prelude.{
  ℕ, ◌+◌, ◌≡◌, refl, sym, ap, ◌∙◌, inl, inr, Option, some, Bool, true, false, ◌&&◌, List, [], ◌∷◌,
  ◌++◌, ◌==◌, if◌then◌else◌, Bool-cases, arith, length, append-nil,
}
use opengcl.Prelude.Outcome.{done}
use opengcl.Que.{Cque}
use opengcl.Que.Holds.{Holds}
use opengcl.Que.Counts.{Holds-Counted}
use opengcl.Event.Turn.{turn, keep}
use opengcl.Event.{
  EventBlock, same_pointer, set_item, taken, off_loop, off_named, off, text_at, find_event_name,
  unregister_event_name, clear_slot,
}

-- Whether a listener has the name, and whether `off` takes it out.
abbrev pub is_named : ℕ → EventBlock → Bool
is_named name eb = same_pointer eb.name (some name)

abbrev pub is_gone : ℕ → Option ℕ → EventBlock → Bool
is_gone name listener eb = is_named name eb && same_pointer eb.listener listener

-- The listeners that stay, in order.
unfoldable pub without : ℕ → Option ℕ → List EventBlock → List EventBlock
without name listener [] = []
without name listener (eb ∷ l) =
    if is_gone name listener eb then without name listener l else eb ∷ without name listener l

-- How many listeners have the name.
unfoldable pub named : ℕ → List EventBlock → ℕ
named name [] = 0
named name (eb ∷ l) = (if is_named name eb then 1 else 0) + named name l

-- What `off` counts: those with the name that stay.
step_count :
    (k : ℕ) (b g : Bool) (l : ℕ)
    → (if b && g then k else if b then k + 1 else k) + l
      ≡ k + (if b && g then l else (if b then 1 else 0) + l)
step_count k true true l = refl
step_count k true false l = omega arith
step_count k false g l = omega arith

named-without :
    (name : ℕ) (listener : Option ℕ) (eb : EventBlock) (l : List EventBlock)
    → named name (without name listener (eb ∷ l)) ≡ (
        if is_gone name listener eb
        then named name (without name listener l)
        else (if is_named name eb then 1 else 0) + named name (without name listener l))
unfolding named without
named-without name listener eb l = elim (Bool-cases (is_gone name listener eb)) [
  | inl g ↦ rw g refl
  | inr s ↦ rw s refl
]

off_loop_lem :
    (name : ℕ) (listener : Option ℕ) (rest kept : List EventBlock) (count : ℕ) {n : ℕ}
    {q : Cque EventBlock}
    → Holds q n (rest ++ kept)
    → (q' : Cque EventBlock) × (off_loop name (length rest) listener count (some q)
        ≡ done (count + named name (without name listener rest), some q'))
      × Holds q' n (kept ++ without name listener rest)
unfolding off_loop taken without named
off_loop_lem name listener [] kept count {n} {q} h =
    (q, ap (λ (k : ℕ). done (k, some q)) (omega arith), rw (append-nil kept) h)
off_loop_lem name listener (eb ∷ rest) kept count h =
    let t = turn (is_gone name listener eb) eb rest kept h in
    let (q', e, h') =
      off_loop_lem name listener rest (if is_gone name listener eb then kept else kept ++ eb ∷ [])
        (if is_gone name listener eb then count else if is_named name eb then count + 1 else count)
        t.holds in
    (
      q',
      rw (t.taking, t.putting)
          (e
            ∙ ap (λ (k : ℕ). done (k, some q'))
                (step_count count (is_named name eb) (same_pointer eb.listener listener)
                    (named name (without name listener rest))
                  ∙ ap (λ (k : ℕ). count + k) (sym (named-without name listener eb rest)))),
      rw (keep (is_gone name listener eb) kept (without name listener rest) eb) at h',
    )

-- Where the name is found in slot `p`, `off` succeeds and leaves, in order, the listeners that do not have
-- both the name and the given function. If none of those left has the name, it empties slot `p`.
pub off-Holds :
    {n : ℕ} {q : Cque EventBlock} {bs : List EventBlock} (fuel : ℕ) (names : Cque (List ℕ)) (p : ℕ)
    (text : List ℕ) (listener : Option ℕ)
    → Holds q n bs
    → find_event_name fuel text (some names) ≡ done (some p)
    → names.mem p ≡ text
    → (q' : Cque EventBlock) × (off fuel text listener
          (record { m_names = some names; m_listeners = some q })
        ≡ done (
          true,
          record {
            m_names =
                if named p (without p listener bs) == 0
                then some (set_item p [] names)
                else some names;
            m_listeners = some q';
          },
        ))
      × Holds q' n (without p listener bs)
unfolding off off_named unregister_event_name clear_slot text_at
off-Holds {n} {q} {bs} fuel names p text listener h found here =
    let whole : Holds q n (bs ++ []) = rw (append-nil bs) h in
    let (q', e, h') = off_loop_lem p listener bs [] 0 whole in
    let e0 : off_loop p (length bs) listener 0 (some q)
        ≡ done (named p (without p listener bs), some q') =
      e ∙ ap (λ (k : ℕ). done (k, some q')) (omega arith) in
    (
      q',
      rw (found, (Holds-Counted h).length_is, e0, here)
          (elim (Bool-cases (named p (without p listener bs) == 0)) [
            | inl none_left ↦ rw (none_left, found) refl
            | inr some_left ↦ rw some_left refl
          ]),
      h',
    )
