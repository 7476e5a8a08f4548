-- ===== src/Event/Others.antt =====
-- src/gevent.cpp: that a change of the names leaves the others where `__find_event_name` finds them.
use opengcl.Prelude.{
  ℕ, zero, suc, ◌+◌, ◌<◌, ◌≡◌, refl, sym, ap, ◌∙◌, inl, inr, Option, none, some, Bool-cases, false,
  List, [], ◌∷◌, ◌++◌, length-snoc, ap₂, ==→eq, ◌==◌, arith, length, length-append, append_assoc,
}
use opengcl.Prelude.Outcome.{done}
use opengcl.Que.{Cque}
use opengcl.Que.Layout.{slot, wrap}
use opengcl.Que.Holds.{Holds}
use opengcl.Que.Peek.{peek_next}
use opengcl.Event.Names.{has_text, Answers, find_event_name-Holds}
use opengcl.Event.Places.{HoldsAt}
use opengcl.Event.{set_item, same_text, find_slot, find_event_name}
use opengcl.Event.Find.{first_with, find_first, find_none}

pub has_text-snoc :
    (t text : List ℕ) (xs : List (List ℕ))
    → same_text text t ≡ false
    → has_text t xs ≡ false
    → has_text t (xs ++ text ∷ []) ≡ false
unfolding has_text
has_text-snoc t text [] other e = rw other refl
has_text-snoc t text (x ∷ xs) other e =
    let this : same_text x t ≡ false = ground (arith, e) in
    let later : has_text t xs ≡ false = ground (arith, e) in
    rw this (has_text-snoc t text xs other later)

-- Writing over a slot is not seen by a search for a text that was not there before and is not afterwards.
pub set_item-find_slot :
    (t v : List ℕ) (p : ℕ) (c : Cque (List ℕ))
    → same_text (c.mem p) t ≡ false
    → same_text v t ≡ false
    → (f : ℕ) (a : Option ℕ) → find_slot (set_item p v c) t f a ≡ find_slot c t f a
unfolding find_slot peek_next
set_item-find_slot t v p c before after zero a = refl
set_item-find_slot t v p c before after (suc f) none = refl
set_item-find_slot t v p c before after (suc f) (some a) =
    let rest = set_item-find_slot t v p c before after f (peek_next (some c) (some a)) in
    elim (Bool-cases (a == p)) [
      | inl same ↦
          let here : same_text (c.mem a) t ≡ false = rw (==→eq a p same) before in
          rw (same, after, here, rest) refl
      | inr other ↦ rw (other, rest) refl
    ]

-- The slot that the search finds has the text.
pub find_event_name-mem :
    {c : Cque (List ℕ)} {n : ℕ} {xs : List (List ℕ)} (t : List ℕ) (f p : ℕ)
    → Holds c n xs
    → length xs < f
    → find_event_name f t (some c) ≡ done (some p)
    → c.mem p ≡ t
find_event_name-mem {c} {xs} t f p h le e =
    let (r, e', a) = find_event_name-Holds h t f le in go r (sym e' ∙ e) a
  where
    go : (r : Option ℕ) → done r ≡ done (some p) → Answers c t xs r → c.mem p ≡ t
    go none same a = absurd (cc same)
    go (some p') same a = let at : p' ≡ p = cc same in rw at at (a.0)

-- Another name behind the others does not change where the others are found.
pub find_event_name-snoc :
    {c c' : Cque (List ℕ)} {n : ℕ} {xs : List (List ℕ)} (text t : List ℕ) (f : ℕ) (h : Holds c n xs)
    (h' : Holds c' n (xs ++ text ∷ []))
    → h'.index ≡ h.index
    → c'.item_size ≡ c.item_size
    → same_text text t ≡ false
    → suc (length xs) < f
    → find_event_name f t (some c') ≡ find_event_name f t (some c)
find_event_name-snoc {c} {c'} {n} {xs} text t f h h' at size other le =
    elim (Bool-cases (has_text t xs)) [
      | inl there ↦
          let (rest, x, post, split, same, none_before) = first_with t xs there in
          let short : length rest < f =
            omega (arith, le, ap length split, length-append rest (x ∷ post)) in
          let old : HoldsAt c n h.index (rest ++ x ∷ post) =
            let whole : HoldsAt c n h.index xs = record { laid = h.laid; items = h.items } in
            rw split at whole in
          let new : HoldsAt c' n h'.index (rest ++ x ∷ (post ++ text ∷ [])) =
            let whole : HoldsAt c' n h'.index (xs ++ text ∷ []) = record {
              laid = h'.laid;
              items = h'.items;
            } in
            rw (ap (λ l. l ++ text ∷ []) split ∙ append_assoc rest (x ∷ post) (text ∷ [])) at
              whole in
          find_first t f rest x (post ++ text ∷ []) new same none_before short
          ∙ ap₂ (λ z i. done (some (slot z (wrap n (i + length rest))))) size at
          ∙ sym (find_first t f rest x post old same none_before short)
      | inr missing ↦
          find_none t f h' (has_text-snoc t text xs other missing)
            (omega (arith, le, length-snoc xs text))
          ∙ sym (find_none t f h missing (omega (arith, le)))
    ]
