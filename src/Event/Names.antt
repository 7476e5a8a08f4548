-- ===== src/Event/Names.antt =====
-- src/gevent.cpp: the names that `__find_event_name` finds.
use mathlib.Core.Option
use opengcl.Prelude.{
  ℕ, zero, suc, ◌≤◌, ◌<◌, ◌≡◌, refl, sym, ap, ◌∙◌, inl, inr, Option, none, some, Bool, true, false,
  ◌||◌, ◌&&◌, List, [], ◌∷◌, ◌==◌, Bool-cases, Option-cases, arith, length, ap₂, ==→eq,
}
use opengcl.Prelude.Outcome.{done}
use opengcl.Que.{Cque}
use opengcl.Que.Holds.{Holds}
use opengcl.Que.Peek.{peek, peek_next, walk}
use opengcl.Que.Peek.Traverse.{peek_next_visits}
use opengcl.Event.{same_text, truncated, find_slot, find_event_name}

-- Whether a text is among others.
unfoldable pub has_text : List ℕ → List (List ℕ) → Bool
unfolding same_text
has_text text [] = false
has_text text (x ∷ xs) = same_text x text || has_text text xs

-- What a search among the names `xs` comes to: a slot with the text, or null where none has it.
abbrev pub Answers : Cque (List ℕ) → List ℕ → List (List ℕ) → Option ℕ → Type 0
Answers c text xs none = has_text text xs ≡ false
Answers c text xs (some p) = (c.mem p ≡ text) × (has_text text xs ≡ true)

pub true_ne_false : true ≡ false → ⊥
true_ne_false e = cc e

pub same_text_lem : (s t : List ℕ) → same_text s t ≡ true → s ≡ t
unfolding same_text
same_text_lem [] [] e = refl
same_text_lem [] (y ∷ t) e = absurd (cc e)
same_text_lem (x ∷ s) [] e = absurd (cc e)
same_text_lem (x ∷ s) (y ∷ t) e = elim (Bool-cases (x == y)) [
  | inl same ↦
      ap₂ ◌∷◌ (==→eq x y same) (same_text_lem s t (sym (ap (λ b. b && same_text s t) same) ∙ e))
  | inr differ ↦ absurd (true_ne_false (sym e ∙ ap (λ b. b && same_text s t) differ))
]

some_inj : {A : Type 0} {x y : A} → some x ≡ some y → x ≡ y
some_inj e = cc e

Answers-skip :
    (c : Cque (List ℕ)) (text x : List ℕ) (xs : List (List ℕ)) (r : Option ℕ)
    → same_text x text ≡ false
    → Answers c text xs r
    → Answers c text (x ∷ xs) r
unfolding has_text
Answers-skip c text x xs none miss a = rw miss a
Answers-skip c text x xs (some p) miss a = rw miss a

find_slot_lem :
    (c : Cque (List ℕ)) (text : List ℕ) (f : ℕ) (p : Option ℕ) (xs : List (List ℕ))
    → walk (peek_next (some c)) c.mem f p ≡ some xs
    → (r : Option ℕ) × (find_slot c text f p ≡ done r) × Answers c text xs r
unfolding find_slot has_text walk
find_slot_lem c text zero p xs e = absurd (cc e)
find_slot_lem c text (suc f) none xs e = rw (sym (some_inj e)) ((none, refl, refl))
find_slot_lem c text (suc f) (some p) xs e =
    elim (Option-cases (walk (peek_next (some c)) c.mem f (peek_next (some c) (some p)))) [
      | inl out ↦ absurd (cc (e, out))
      | inr (xs', e') ↦
          let same : c.mem p ∷ xs' ≡ xs =
            some_inj (sym (ap (Option.map (λ t. c.mem p ∷ t)) e') ∙ e) in
          let (r, found, answer) = find_slot_lem c text f (peek_next (some c) (some p)) xs' e' in
          rw (sym same) (elim (Bool-cases (same_text (c.mem p) text)) [
            | inl hit ↦ rw hit (
                (
                  some p,
                  refl,
                  (same_text_lem (c.mem p) text hit, ap (λ b. b || has_text text xs') hit),
                ))
            | inr miss ↦ rw miss ((r, found, Answers-skip c text (c.mem p) xs' r miss answer))
          ])
    ]

-- On a queue of names that holds `xs`, on fuel above their number, `__find_event_name` ends. It returns a
-- slot that has the text if one of `xs` is the text, and null if none is.
pub find_event_name-Holds :
    {c : Cque (List ℕ)} {n : ℕ} {xs : List (List ℕ)}
    → Holds c n xs
    → (text : List ℕ) (fuel : ℕ) → length xs < fuel
    → (r : Option ℕ) × (find_event_name fuel text (some c) ≡ done r) × Answers c text xs r
unfolding find_event_name
find_event_name-Holds {c} {xs = xs} h text fuel le =
    find_slot_lem c text fuel (peek (some c)) xs (peek_next_visits h fuel le)

-- A name of at most `n` characters is stored whole.
pub truncated_lem : (n : ℕ) (s : List ℕ) → length s ≤ n → truncated n s ≡ s
unfolding truncated
truncated_lem zero [] le = refl
truncated_lem zero (x ∷ s) le = absurd (omega (arith, le))
truncated_lem (suc n) [] le = refl
truncated_lem (suc n) (x ∷ s) le = ap (λ t. x ∷ t) (truncated_lem n s (omega (arith, le)))
