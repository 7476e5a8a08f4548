-- ===== src/Tok/Scan.antt =====
-- src/gtockenizer.cpp: where `_find_next_token` stops, and what is copied from the target string.
use opengcl.Prelude.{
  ℕ, suc, ◌+◌, ◌≡◌, refl, sym, ap, ap₂, ◌∙◌, inl, inr, List, [], ◌∷◌, ◌++◌, append_assoc, arith,
  length, length-append, Bool-cases, if◌then◌else◌,
}
use opengcl.Prelude.Outcome.{done}
use opengcl.Tok.{read, copy, is_separator, find_end}

-- One byte further into a string.
pub shift : (pre l : List ℕ) (c : ℕ) → pre ++ c ∷ l ≡ (pre ++ c ∷ []) ++ l
shift pre l c = sym (append_assoc pre (c ∷ []) l)

pub length-shift : (pre : List ℕ) (c : ℕ) → length pre + 1 ≡ length (pre ++ c ∷ [])
length-shift pre c = omega (arith, length-append pre (c ∷ []))

module _ (ys : List ℕ) where
  pub read-append : (pre : List ℕ) (c : ℕ) → read (pre ++ c ∷ ys) (length pre) ≡ done c
  unfolding read
  read-append [] c = refl
  read-append (p ∷ pre) c = read-append pre c

pub copy-append :
    (pre tok ys : List ℕ) → copy (pre ++ (tok ++ ys)) (length pre) (length tok) ≡ done tok
unfolding copy
copy-append pre [] ys = refl
copy-append pre (c ∷ tok) ys =
    let rest : copy (pre ++ c ∷ (tok ++ ys)) (length pre + 1) (length tok) ≡ done tok =
      ap₂ (λ l n. copy l n (length tok)) (shift pre (tok ++ ys) c) (length-shift pre c)
      ∙ copy-append (pre ++ c ∷ []) tok ys in
    rw (read-append (tok ++ ys) pre c, rest)

-- The part of a text before its first separator, and the rest.
unfoldable pub first_token : List ℕ → List ℕ → List ℕ
first_token sep [] = []
first_token sep (c ∷ cs) = if is_separator sep c then [] else c ∷ first_token sep cs

unfoldable pub from_separator : List ℕ → List ℕ → List ℕ
from_separator sep [] = []
from_separator sep (c ∷ cs) = if is_separator sep c then c ∷ cs else from_separator sep cs

module _ (sep : List ℕ) where
  pub first-append-from : (xs : List ℕ) → first_token sep xs ++ from_separator sep xs ≡ xs
  unfolding first_token from_separator
  first-append-from [] = refl
  first-append-from (c ∷ cs) = elim (Bool-cases (is_separator sep c)) [
    | inl e ↦ rw (e, ◌++◌)
    | inr e ↦ rw (e, ◌++◌) (ap (λ l. c ∷ l) (first-append-from cs))
  ]

  -- The loop stops at the first separator, or at the end of the text `xs` that is left.
  pub find_end_lem :
      (xs pre ys : List ℕ)
      → find_end sep (pre ++ (xs ++ ys)) (length pre) (length xs)
        ≡ done (length pre + length (first_token sep xs))
  unfolding find_end first_token
  find_end_lem [] pre ys = ap done (omega arith)
  find_end_lem (c ∷ xs) pre ys =
      let rest : find_end sep (pre ++ c ∷ (xs ++ ys)) (length pre + 1) (length xs)
          ≡ done (length pre + suc (length (first_token sep xs))) =
        ap₂ (λ l n. find_end sep l n (length xs)) (shift pre (xs ++ ys) c) (length-shift pre c)
        ∙ find_end_lem xs (pre ++ c ∷ []) ys
        ∙ ap done (omega (arith, length-shift pre c)) in
      elim (Bool-cases (is_separator sep c)) [
        | inl e ↦ rw (read-append (xs ++ ys) pre c, e, length) (ap done (omega arith))
        | inr e ↦ rw (read-append (xs ++ ys) pre c, e, length) rest
      ]
