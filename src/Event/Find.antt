-- ===== src/Event/Find.antt =====
-- src/gevent.cpp: the slot that `__find_event_name` returns, the first with the text.
use opengcl.Prelude.{
  ℕ, zero, suc, ◌+◌, ◌<◌, ◌≡◌, refl, sym, ap, ◌∙◌, inl, inr, Option, none, some, Bool-cases, true,
  false, List, [], ◌∷◌, ◌++◌, eq→==, arith, length, length-append, append_assoc,
}
use opengcl.Prelude.Outcome.{done}
use opengcl.Que.{Cque}
use opengcl.Que.Layout.{slot, wrap}
use opengcl.Que.Holds.{Holds, slots}
use opengcl.Que.Peek.{peek, peek_next}
use opengcl.Que.Peek.Steps.{peek_next-more, peek-head}
use opengcl.Event.Names.{has_text, Answers, true_ne_false, find_event_name-Holds}
use opengcl.Event.Places.{HoldsAt, window_item, full}
use opengcl.Event.{same_text, find_slot, find_event_name}

-- The search from the item behind `pre` finds the first one with the text, which stands behind `rest`.
find_slot-at :
    (text : List ℕ) (c : Cque (List ℕ)) (n i f p : ℕ) (pre rest : List (List ℕ)) (x : List ℕ)
    (post : List (List ℕ))
    → p ≡ slot c.item_size (wrap n (i + length pre))
    → HoldsAt c n i (pre ++ (rest ++ x ∷ post))
    → same_text x text ≡ true
    → has_text text rest ≡ false
    → length rest < f
    → find_slot c text f (some p)
      ≡ done (some (slot c.item_size (wrap n (i + (length pre + length rest)))))
unfolding find_slot has_text
find_slot-at text c n i zero p pre rest x post at h same none_before le = absurd (omega arith)
find_slot-at text c n i (suc f) p pre [] x post at h same none_before le =
    let here : c.mem p ≡ x =
      ap c.mem at
      ∙ window_item (slots c.mem c.item_size) n i pre x post h.laid.head_in h.laid.len_in h.items in
    let no_more : i + length pre ≡ i + (length pre + 0) = omega arith in
    rw (here, same) (ap (λ a. done (some a)) (at ∙ ap (λ k. slot c.item_size (wrap n k)) no_more))
find_slot-at text c n i (suc f) p pre (y ∷ rest) x post at h same none_before le =
    let here : c.mem p ≡ y =
      ap c.mem at
      ∙ window_item (slots c.mem c.item_size) n i pre y (rest ++ x ∷ post) h.laid.head_in
          h.laid.len_in h.items in
    let other : same_text y text ≡ false = ground (arith, none_before) in
    let others : has_text text rest ≡ false = ground (arith, none_before) in
    let there : length (pre ++ y ∷ []) ≡ suc (length pre) =
      omega (arith, length-append pre (y ∷ [])) in
    let long : suc (length pre) < length (pre ++ (y ∷ (rest ++ x ∷ post))) =
      omega (arith, length-append pre (y ∷ (rest ++ x ∷ post)), length-append rest (x ∷ post)) in
    let moved : HoldsAt c n i ((pre ++ y ∷ []) ++ (rest ++ x ∷ post)) =
      rw (append_assoc pre (y ∷ []) (rest ++ x ∷ post)) h in
    let far : length (pre ++ y ∷ []) + length rest ≡ length pre + suc (length rest) =
      omega (arith, there) in
    rw (here, other)
      (ap (find_slot c text f) (
          ap (λ a. peek_next (some c) (some a)) at
          ∙ peek_next-more h.laid (full pre y (rest ++ x ∷ post) h) (length pre) long)
        ∙ find_slot-at text c n i f (slot c.item_size (wrap n (i + suc (length pre))))
            (pre ++ y ∷ []) rest x post (rw there refl) moved same others (omega (arith, le))
        ∙ ap (λ k. done (some (slot c.item_size (wrap n (i + k))))) far)

-- The first of some names that is the text.
pub first_with :
    (text : List ℕ) (xs : List (List ℕ))
    → has_text text xs ≡ true
    → (rest : List (List ℕ)) × (x : List ℕ) × (post : List (List ℕ)) × (xs ≡ rest ++ x ∷ post)
      × (same_text x text ≡ true)
      × (has_text text rest ≡ false)
unfolding has_text
first_with text [] e = absurd (ground (arith, e))
first_with text (x ∷ xs) e = elim (Bool-cases (same_text x text)) [
  | inl same ↦ ([], x, xs, refl, same, refl)
  | inr other ↦
      let later : has_text text xs ≡ true = ground (arith, e, other) in
      let (rest, y, post, split, same, none_before) = first_with text xs later in
      (x ∷ rest, y, post, ap (λ l. x ∷ l) split, same, ground (arith, other, none_before))
]

peek_at :
    {c : Cque (List ℕ)} {n i : ℕ} (rest : List (List ℕ)) (x : List ℕ) (post : List (List ℕ))
    → HoldsAt c n i (rest ++ x ∷ post)
    → peek (some c) ≡ some (slot c.item_size (wrap n (i + 0)))
peek_at [] x post h = peek-head (record { index = _; laid = h.laid; items = h.items })
peek_at (y ∷ rest) x post h = peek-head (record { index = _; laid = h.laid; items = h.items })

pub find_first :
    (text : List ℕ) (f : ℕ) {c : Cque (List ℕ)} {n i : ℕ} (rest : List (List ℕ)) (x : List ℕ)
    (post : List (List ℕ))
    → HoldsAt c n i (rest ++ x ∷ post)
    → same_text x text ≡ true
    → has_text text rest ≡ false
    → length rest < f
    → find_event_name f text (some c) ≡ done (some (slot c.item_size (wrap n (i + length rest))))
unfolding find_event_name
find_first text f {c} {n} {i} rest x post h same none_before le =
    let start : i + (0 + length rest) ≡ i + length rest = omega arith in
    ap (find_slot c text f) (peek_at rest x post h)
    ∙ find_slot-at text c n i f (slot c.item_size (wrap n (i + 0))) [] rest x post refl h same
        none_before le
    ∙ ap (λ k. done (some (slot c.item_size (wrap n k)))) start

pub find_none :
    (text : List ℕ) (f : ℕ) {c : Cque (List ℕ)} {n : ℕ} {xs : List (List ℕ)}
    → Holds c n xs
    → has_text text xs ≡ false
    → length xs < f
    → find_event_name f text (some c) ≡ done none
find_none text f {c} {xs} h missing le =
    let (r, e, a) = find_event_name-Holds h text f le in go r e a
  where
    go :
        (r : Option ℕ)
        → find_event_name f text (some c) ≡ done r
        → Answers c text xs r
        → find_event_name f text (some c) ≡ done none
    go none e a = e
    go (some p) e a = absurd (true_ne_false (sym a.1 ∙ missing))

pub same_text_refl : (s : List ℕ) → same_text s s ≡ true
unfolding same_text
same_text_refl [] = refl
same_text_refl (x ∷ s) = rw (eq→== x x refl) (same_text_refl s)

pub has_text-left :
    (text : List ℕ) (xs ys : List (List ℕ))
    → has_text text (xs ++ ys) ≡ false
    → has_text text xs ≡ false
unfolding has_text
has_text-left text [] ys e = refl
has_text-left text (x ∷ xs) ys e =
    let other : same_text x text ≡ false = ground (arith, e) in
    let later : has_text text (xs ++ ys) ≡ false = ground (arith, e) in
    rw other (has_text-left text xs ys later)
