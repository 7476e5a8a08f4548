-- ===== src/Tok/Steps.antt =====
-- src/gtockenizer.cpp: one call of `get_next`, in the middle of a string and at its end.
use opengcl.Prelude.{
  ℕ, ◌+◌, ◌-◌, ◌%◌, ◌^◌, ◌≤◌, ◌<◌, ◌≡◌, sym, ap, ap₂, ◌∙◌, List, [], ◌∷◌, ◌++◌, append_assoc, true,
  false, some, arith, leb, length, length-append,
}
use opengcl.Prelude.Outcome.{done}
use opengcl.Tok.{no_token, Tockenizer, read, copy, find_end, get_next}
use opengcl.Tok.Scan.{
  first_token, from_separator, first-append-from, find_end_lem, copy-append, read-append,
}
use opengcl.Tok.Pieces.{piece}

-- A tokenizer over the string `whole`, whose current token begins at `p` and ends at `e`.
abbrev pub state : List ℕ → List ℕ → ℕ → ℕ → ℕ → Tockenizer
state sep whole tail p e = record {
  m_head = some whole;
  m_tail = tail;
  m_pos = p;
  m_end = e;
  m_sep = sep;
}

pub lt→leb : (a b : ℕ) → b < a → leb a b ≡ false
lt→leb a b h = ground arith

le→leb : (a b : ℕ) → a ≤ b → leb a b ≡ true
le→leb a b h = ground arith

module _ (sep whole : List ℕ) (size tail : ℕ) where
  -- With nothing left `get_next` refuses and changes nothing.
  pub get_next-end :
      (p e : ℕ)
      → tail ≤ p
      → get_next (some size) true true (state sep whole tail p e)
        ≡ done (false, no_token, state sep whole tail p e)
  unfolding get_next
  get_next-end p e h = rw (le→leb tail p h)

  get_next-step :
      (p e e' s : ℕ) (tok : List ℕ)
      → p < tail
      → (2 ^ 32 + e - p) % 2 ^ 32 ≡ length tok
      → length tok < size
      → copy whole p (length tok) ≡ done tok
      → read whole e ≡ done s
      → find_end sep whole (e + 1) (tail - (e + 1)) ≡ done e'
      → get_next (some size) true true (state sep whole tail p e)
        ≡ done (true, piece tok s, state sep whole tail (e + 1) e')
  unfolding get_next
  get_next-step p e e' s tok more len room copied ends next =
      rw (lt→leb tail p more, len, lt→leb size (length tok) room, copied, ends, next)

module _ (sep whole ys : List ℕ) (z size tail : ℕ) (small : tail < 2 ^ 32) (pre xs : List ℕ)
    (split : whole ≡ pre ++ (xs ++ z ∷ ys)) (tail_at : tail ≡ length pre + length xs)
    (room : length xs < size) where
  abbrev tok : List ℕ
  tok = first_token sep xs

  -- The end of the current token.
  abbrev stop : ℕ
  stop = length pre + length tok

  pub tok_sizes : length xs ≡ length tok + length (from_separator sep xs)
  tok_sizes = ap length (sym (first-append-from sep xs)) ∙ length-append tok (from_separator sep xs)

  -- The string from the current token on: `rest` is what stands behind it.
  at_token : (rest : List ℕ) → from_separator sep xs ++ z ∷ ys ≡ rest → whole ≡ pre ++ (tok ++ rest)
  at_token rest e =
      split
      ∙ ap (λ l. pre ++ (l ++ z ∷ ys)) (sym (first-append-from sep xs))
      ∙ ap (λ l. pre ++ l)
          (append_assoc tok (from_separator sep xs) (z ∷ ys) ∙ ap (λ l. tok ++ l) e)

  step_to :
      (s e' : ℕ) (rest : List ℕ)
      → 0 < length xs
      → from_separator sep xs ++ z ∷ ys ≡ s ∷ rest
      → find_end sep whole (stop + 1) (tail - (stop + 1)) ≡ done e'
      → get_next (some size) true true (state sep whole tail (length pre) stop)
        ≡ done (true, piece tok s, state sep whole tail (stop + 1) e')
  step_to s e' rest some_left e next =
      get_next-step sep whole size tail (length pre) stop e' s tok
        (omega (arith, some_left, tail_at)) (omega (arith, small, tail_at, tok_sizes))
        (omega (arith, room, tok_sizes))
        (ap (λ l. copy l (length pre) (length tok)) (at_token (s ∷ rest) e)
          ∙ copy-append pre tok (s ∷ rest))
        (ap₂ read (at_token (s ∷ rest) e ∙ sym (append_assoc pre tok (s ∷ rest)))
            (sym (length-append pre tok))
          ∙ read-append rest (pre ++ tok) s)
        next

  -- Behind a separator `s`, with `r` left of the text.
  module _ (s : ℕ) (r : List ℕ) (e : from_separator sep xs ≡ s ∷ r) where
    abbrev read_part : List ℕ
    read_part = (pre ++ tok) ++ s ∷ []

    length-read_part : stop + 1 ≡ length read_part
    length-read_part = omega (arith, length-append (pre ++ tok) (s ∷ []), length-append pre tok)

    pub whole_behind : whole ≡ read_part ++ (r ++ z ∷ ys)
    whole_behind =
        at_token (s ∷ (r ++ z ∷ ys)) (ap (λ l. l ++ z ∷ ys) e)
        ∙ sym (append_assoc pre tok (s ∷ (r ++ z ∷ ys)))
        ∙ sym (append_assoc (pre ++ tok) (s ∷ []) (r ++ z ∷ ys))

    pub tail_behind : tail ≡ length read_part + length r
    tail_behind = omega (arith, tail_at, tok_sizes, ap length e, length-read_part)

    pub get_next-ended :
        get_next (some size) true true (state sep whole tail (length pre) stop)
        ≡ done (
          true,
          piece tok s,
          state sep whole tail (length read_part) (length read_part + length (first_token sep r)),
        )
    get_next-ended =
        step_to s (length read_part + length (first_token sep r)) (r ++ z ∷ ys)
          (omega (arith, tok_sizes, ap length e)) (ap (λ l. l ++ z ∷ ys) e) next
        ∙ ap
            (λ p. done (
              true,
              piece tok s,
              state sep whole tail p (length read_part + length (first_token sep r)),
            ))
            length-read_part
      where
        next :
            find_end sep whole (stop + 1) (tail - (stop + 1))
            ≡ done (length read_part + length (first_token sep r))
        next =
            ap₂ (λ w p. find_end sep w p (tail - p)) whole_behind length-read_part
            ∙ ap (find_end sep (read_part ++ (r ++ z ∷ ys)) (length read_part))
                (omega (arith, tail_behind))
            ∙ find_end_lem sep r read_part (z ∷ ys)

  pub get_next-last :
      from_separator sep xs ≡ []
      → 0 < length xs
      → get_next (some size) true true (state sep whole tail (length pre) stop)
        ≡ done (true, piece tok z, state sep whole tail (tail + 1) (tail + 1))
  unfolding find_end
  get_next-last e some_left =
      let at_end : stop ≡ tail = omega (arith, tail_at, tok_sizes, ap length e) in
      let none_left : tail - (stop + 1) ≡ 0 = omega (arith, at_end) in
      step_to z (stop + 1) ys some_left (ap (λ l. l ++ z ∷ ys) e)
        (ap (find_end sep whole (stop + 1)) none_left)
      ∙ ap (λ p. done (true, piece tok z, state sep whole tail (p + 1) (p + 1))) at_end
