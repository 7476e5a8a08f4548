-- ===== src/Tok/Pieces.antt =====
-- include/gtockenizer.h: the tokens of a text, described without pointers, and how they make up the
-- text.
use opengcl.Prelude.{
  ℕ, ◌≡◌, refl, sym, ap, ap₂, ◌∙◌, inl, inr, List, [], ◌∷◌, ◌++◌, append_assoc, append-nil, Bool,
  true, false, none, some, length, Bool-cases, if◌then◌else◌,
}
use mathlib.Core.Option
use opengcl.Tok.{Token, is_separator}
use opengcl.Tok.Scan.{first_token, from_separator}

abbrev pub piece : List ℕ → ℕ → Token
piece tok s = record { text = some tok; sep_by = some s; token_len = some (length tok) }

-- What is left at the end of the text is a token if it is not empty; `z` is the byte behind the text.
abbrev pub last_piece : ℕ → List ℕ → List Token
last_piece z [] = []
last_piece z (a ∷ acc) = piece (a ∷ acc) z ∷ []

module _ (sep : List ℕ) (z : ℕ) where
  -- `acc` is the part of the current token that has been read.
  unfoldable pub pieces : List ℕ → List ℕ → List Token
  pieces acc [] = last_piece z acc
  pieces acc (c ∷ cs) =
      let ended = piece acc c ∷ pieces [] cs in
      let longer = pieces (acc ++ c ∷ []) cs in if is_separator sep c then ended else longer

  pub pieces_unended :
      (xs acc : List ℕ)
      → from_separator sep xs ≡ []
      → pieces acc xs ≡ last_piece z (acc ++ first_token sep xs)
  unfolding pieces first_token from_separator
  pieces_unended [] acc e = ap (last_piece z) (sym (append-nil acc))
  pieces_unended (c ∷ cs) acc e = elim (Bool-cases (is_separator sep c)) [
    | inl h ↦ let cut : from_separator sep (c ∷ cs) ≡ c ∷ cs = rw h in absurd (cc (sym cut ∙ e))
    | inr h ↦
        let past : from_separator sep cs ≡ [] = rw h at e in
        rw h (
          pieces_unended cs (acc ++ c ∷ []) past
          ∙ ap (last_piece z) (append_assoc acc (c ∷ []) (first_token sep cs)))
  ]

  pub pieces_ended :
      (xs acc : List ℕ) {s : ℕ} {r : List ℕ}
      → from_separator sep xs ≡ s ∷ r
      → pieces acc xs ≡ piece (acc ++ first_token sep xs) s ∷ pieces [] r
  unfolding pieces first_token from_separator
  pieces_ended [] acc e = absurd (cc e)
  pieces_ended (c ∷ cs) acc {s} {r} e = elim (Bool-cases (is_separator sep c)) [
    | inl h ↦
        let cut : c ∷ cs ≡ s ∷ r = rw h at e in
        let same_c : c ≡ s = cc cut in
        let same_cs : cs ≡ r = cc cut in
        rw (h, append-nil acc) (ap₂ (λ x l. piece acc x ∷ pieces [] l) same_c same_cs)
    | inr h ↦
        let past : from_separator sep cs ≡ s ∷ r = rw h at e in
        rw h (
          pieces_ended cs (acc ++ c ∷ []) past
          ∙ ap (λ l. piece l s ∷ pieces [] r) (append_assoc acc (c ∷ []) (first_token sep cs)))
  ]

-- The bytes of a token and of what ends it.
pub bytes : Token → List ℕ
bytes t = Option.get_or t.text [] ++ elim t.sep_by [ none ↦ [] | some s ↦ s ∷ [] ]

pub join : List Token → List ℕ
unfolding bytes
join [] = []
join (t ∷ ts) = bytes t ++ join ts

-- Whether a text is empty or ends in a separator.
pub ends_in_separator : List ℕ → Bool → List ℕ → Bool
ends_in_separator sep b [] = b
ends_in_separator sep b (c ∷ cs) = ends_in_separator sep (is_separator sep c) cs

abbrev null : List ℕ → Bool
null [] = true
null (a ∷ acc) = false

null-snoc : (acc : List ℕ) (c : ℕ) → null (acc ++ c ∷ []) ≡ false
null-snoc [] c = refl
null-snoc (a ∷ acc) c = refl

join-pieces_from :
    (sep : List ℕ) (z : ℕ) (xs acc : List ℕ)
    → join (pieces sep z acc xs)
      ≡ acc ++ (xs ++ (if ends_in_separator sep (null acc) xs then [] else z ∷ []))
unfolding join pieces ends_in_separator
join-pieces_from sep z [] [] = refl
join-pieces_from sep z [] (a ∷ acc) = ap (λ l. a ∷ l) (append-nil (acc ++ z ∷ []))
join-pieces_from sep z (c ∷ cs) acc = elim (Bool-cases (is_separator sep c)) [
  | inl h ↦ rw (h, join-pieces_from sep z cs []) (append_assoc acc (c ∷ []) _)
  | inr h ↦
      rw (h, join-pieces_from sep z cs (acc ++ c ∷ []), null-snoc acc c)
        (append_assoc acc (c ∷ []) _)
]

module _ (sep : List ℕ) where
  -- No separator among the bytes.
  abbrev pub IsPlain : List ℕ → Type 0
  IsPlain [] = Unit {0}
  IsPlain (c ∷ cs) = (is_separator sep c ≡ false) × IsPlain cs

  abbrev pub AllPlain : List Token → Type 0
  AllPlain [] = Unit {0}
  AllPlain (t ∷ ts) = IsPlain (Option.get_or t.text []) × AllPlain ts

  IsPlain-snoc :
      (acc : List ℕ) (c : ℕ) → IsPlain acc → is_separator sep c ≡ false → IsPlain (acc ++ c ∷ [])
  IsPlain-snoc [] c h e = (e, tt)
  IsPlain-snoc (a ∷ acc) c h e = (h.0, IsPlain-snoc acc c h.1 e)

  pub pieces-AllPlain : (z : ℕ) (xs acc : List ℕ) → IsPlain acc → AllPlain (pieces sep z acc xs)
  unfolding pieces
  pieces-AllPlain z [] [] h = tt
  pieces-AllPlain z [] (a ∷ acc) h = (h, tt)
  pieces-AllPlain z (c ∷ cs) acc h = elim (Bool-cases (is_separator sep c)) [
    | inl e ↦ rw e (h, pieces-AllPlain z cs [] tt)
    | inr e ↦ rw e (pieces-AllPlain z cs (acc ++ c ∷ []) (IsPlain-snoc acc c h e))
  ]

  -- The tokens of a text hold no separator, and with the byte that ends each of them they make up the
  -- text, and the byte behind it unless the text is empty or ends in a separator.
  pub pieces_lem :
      (z : ℕ) (xs : List ℕ)
      → AllPlain (pieces sep z [] xs)
        × (join (pieces sep z [] xs) ≡ xs ++ (if ends_in_separator sep true xs then [] else z ∷ []))
  pieces_lem z xs = (pieces-AllPlain z xs [] tt, join-pieces_from sep z xs [])
