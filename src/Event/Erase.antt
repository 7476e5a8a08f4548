-- ===== src/Event/Erase.antt =====
-- src/gevent.cpp: that a name that is given up is not found any more, and the others are found where they were.
use opengcl.Prelude.{
  ℕ, suc, ◌+◌, ◌≤◌, ◌<◌, ◌≡◌, sym, ap, ◌∙◌, inl, inr, none, some, Bool-cases, false, List, [], ◌∷◌,
  ◌++◌, arith, length, length-append,
}
use opengcl.Prelude.Outcome.{done}
use opengcl.Que.{Cque}
use opengcl.Que.Layout.{slot, wrap}
use opengcl.Que.Holds.{Holds}
use opengcl.Que.Peek.{peek}
use opengcl.Event.Names.{has_text, true_ne_false, same_text_lem}
use opengcl.Event.Unique.{Unique, Unique-replace, Unique-erased}
use opengcl.Event.Places.{set_item-HoldsAt}
use opengcl.Event.{same_text, set_item, find_event_name, event_name_length_max}
use opengcl.Event.Find.{first_with, find_first, find_none}
use opengcl.Event.Others.{find_event_name-mem, set_item-find_slot}
use opengcl.Event.Register.{placed, enough}

module _ (fuel : ℕ) (text : List ℕ) (short : length text ≤ event_name_length_max)
    {c : Cque (List ℕ)} {n : ℕ} (xs : List (List ℕ)) (h : Holds c n xs)
    (le : suc (length xs) < fuel) where
  -- What emptying the slot of a name leaves: the name is not found, and all others are found where they were.
  pub erased :
      (p : ℕ)
      → Unique xs
      → same_text [] text ≡ false
      → find_event_name fuel text (some c) ≡ done (some p)
      → (ys : List (List ℕ)) × Holds (set_item p [] c) n ys
        × Unique ys
        × (length ys ≡ length xs)
        × (find_event_name fuel text (some (set_item p [] c)) ≡ done none)
        × ((t : List ℕ)
            → same_text [] t ≡ false
            → same_text text t ≡ false
            → find_event_name fuel t (some (set_item p [] c)) ≡ find_event_name fuel t (some c))
  unfolding find_event_name
  erased p u used e = elim (Bool-cases (has_text text xs)) [
    | inr missing ↦ absurd (cc (e, find_none text fuel h missing (omega (arith, le))))
    | inl there ↦
        let (rest, x, post, split, same, none_before) = first_with text xs there in
        let found =
          find_first text fuel rest x post (placed fuel text short xs h le split) same none_before
            (enough fuel text short xs h le rest x post split) in
        let at : slot c.item_size (wrap n (h.index + length rest)) ≡ p = cc (found, e) in
        let is_text : x ≡ text = same_text_lem x text same in
        let cleared = set_item-HoldsAt rest x [] post (placed fuel text short xs h le split) in
        let first : Holds (set_item (slot c.item_size (wrap n (h.index + length rest))) [] c) n
            (rest ++ [] ∷ post) =
          record { index = h.index; laid = cleared.laid; items = cleared.items } in
        let whole : Holds (set_item p [] c) n (rest ++ [] ∷ post) = rw at at first in
        let once : Unique (rest ++ text ∷ post) = rw (split, is_text) at u in
        let len : length (rest ++ [] ∷ post) ≡ length xs =
          length-append rest ([] ∷ post)
          ∙ sym (length-append rest (x ∷ post))
          ∙ ap length (sym split) in
        (
          rest ++ [] ∷ post,
          whole,
          Unique-replace rest text [] post once (λ z. absurd (true_ne_false z)),
          len,
          find_none text fuel whole (Unique-erased rest text post once used none_before)
              (omega (arith, len, le)),
          λ t full other.
              set_item-find_slot t [] p c
                (rw (find_event_name-mem text fuel p h (omega (arith, le)) e) other) full fuel
                (peek (some c)),
        )
  ]
