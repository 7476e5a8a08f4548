-- ===== src/Tok/Collect.antt =====
-- src/gtockenizer.cpp: `bind`, and then `get_next` until it refuses.
use opengcl.Prelude.{
  ℕ, zero, suc, ◌+◌, ◌-◌, ◌^◌, ◌≤◌, ◌<◌, ◌≡◌, refl, sym, ap, ◌∙◌, ◌⊎◌, inl, inr, List, [], ◌∷◌,
  ◌++◌, true, false, Option, none, some, arith, length, if◌then◌else◌,
}
use opengcl.Prelude.Outcome.{Outcome, done, ◌>>=◌}
use opengcl.Tok.{Tockenizer, Token, find_end, get_next, bind, rewind}
use opengcl.Tok.Scan.{first_token, from_separator, find_end_lem}
use opengcl.Tok.Pieces.{piece, last_piece, pieces, pieces_ended, pieces_unended}
use opengcl.Tok.Steps.{
  state, lt→leb, get_next-end, tok_sizes, whole_behind, tail_behind, get_next-ended, get_next-last,
}

-- `while (get_next(buf, size, &sep, &len)) ...` on fuel: the tokens, or `none` when it runs out.
pub collect : ℕ → ℕ → Tockenizer → Outcome (Option (List Token))
collect zero size t = done none
collect (suc f) size t = get_next (some size) true true t >>= λ (more, token, t').
    let rest = collect f size t' in
    if more
    then (rest >>= λ ts. done (elim ts [ none ↦ none | some l ↦ some (token ∷ l) ]))
    else done (some [])

List-cases : (xs : List ℕ) → (xs ≡ []) ⊎ ((x : ℕ) × (r : List ℕ) × (xs ≡ x ∷ r))
List-cases [] = inl refl
List-cases (x ∷ r) = inr (x, r, refl)

last_piece-ne : (z : ℕ) (l : List ℕ) → 0 < length l → last_piece z l ≡ piece l z ∷ []
last_piece-ne z [] h = absurd (omega arith)
last_piece-ne z (a ∷ l) h = refl

module _ (f size : ℕ) (t : Tockenizer) {t' : Tockenizer} {token : Token} where
  collect-more :
      {ts : List Token}
      → get_next (some size) true true t ≡ done (true, token, t')
      → collect f size t' ≡ done (some ts)
      → collect (suc f) size t ≡ done (some (token ∷ ts))
  unfolding collect
  collect-more e rest = rw (e, rest)

  collect-stop :
      get_next (some size) true true t ≡ done (false, token, t')
      → collect (suc f) size t ≡ done (some [])
  unfolding collect
  collect-stop e = rw e

module _ (sep whole ys : List ℕ) (z size tail : ℕ) (small : tail < 2 ^ 32) where
  collect-end :
      (f p e : ℕ) → tail ≤ p → collect (suc f) size (state sep whole tail p e) ≡ done (some [])
  collect-end f p e h = collect-stop f size _ (get_next-end sep whole size tail p e h)

  collect-pieces_from :
      (f : ℕ) (xs pre : List ℕ)
      → whole ≡ pre ++ (xs ++ z ∷ ys)
      → tail ≡ length pre + length xs
      → length xs < size
      → length xs < f
      → collect f size
          (state sep whole tail (length pre) (length pre + length (first_token sep xs)))
        ≡ done (some (pieces sep z [] xs))
  unfolding pieces
  collect-pieces_from zero xs pre w t room h = absurd (omega arith)
  collect-pieces_from (suc f) [] pre w t room h =
      collect-end f (length pre) (length pre + length (first_token sep [])) (omega arith)
  collect-pieces_from (suc zero) (c ∷ cs) pre w t room h = absurd (omega arith)
  collect-pieces_from (suc (suc f)) (c ∷ cs) pre w t room h =
      elim (List-cases (from_separator sep (c ∷ cs))) [
        | inl e ↦
            collect-more (suc f) size _
              (get_next-last sep whole ys z size tail small pre (c ∷ cs) w t room e (omega arith))
              (collect-end f (tail + 1) (tail + 1) (omega arith))
            ∙ ap (λ l. done (some l))
                (sym (
                  pieces_unended sep z (c ∷ cs) [] e
                  ∙ last_piece-ne z (first_token sep (c ∷ cs)) (
                      omega (
                        arith,
                        tok_sizes sep whole ys z size tail small pre (c ∷ cs) w t room,
                        ap length e,
                      ))))
        | inr (s, r, e) ↦
            let behind = tail_behind sep whole ys z size tail small pre (c ∷ cs) w t room s r e in
            let sizes = tok_sizes sep whole ys z size tail small pre (c ∷ cs) w t room in
            collect-more (suc f) size _
              (get_next-ended sep whole ys z size tail small pre (c ∷ cs) w t room s r e)
              (collect-pieces_from (suc f) r ((pre ++ first_token sep (c ∷ cs)) ++ s ∷ [])
                (whole_behind sep whole ys z size tail small pre (c ∷ cs) w t room s r e) behind
                (omega (arith, sizes, ap length e)) (omega (arith, sizes, ap length e)))
            ∙ ap (λ l. done (some l)) (sym (pieces_ended sep z (c ∷ cs) [] e))
      ]

-- A tokenizer bound to the first bytes `xs` of a string, fewer than 2 ^ 32 with at most 31 separators,
-- gives by `get_next`, with a buffer larger than `xs`, the pieces of `xs` in order, and then refuses,
-- within one round more than `xs` has bytes; after binding, `rewind` changes nothing. `z` is the byte
-- of the string behind `xs`.
pub collect-bind :
    (sep xs ys : List ℕ) (z f size : ℕ) (t : Tockenizer)
    → length sep < 32
    → length xs < 2 ^ 32
    → length xs < size
    → length xs < f
    → (t' : Tockenizer) × (bind (some (xs ++ z ∷ ys)) (length xs) (some sep) t ≡ done (true, t'))
      × (collect f size t' ≡ done (some (pieces sep z [] xs)))
      × (rewind t' ≡ done t')
unfolding bind rewind
collect-bind sep xs ys z f size t few small room fuel = (
  state sep (xs ++ z ∷ ys) (length xs) 0 (0 + length (first_token sep xs)),
  rw (lt→leb 32 (length sep) few, first),
  collect-pieces_from sep (xs ++ z ∷ ys) ys z size (length xs) small f xs [] refl (omega arith) room
      fuel,
  rw first,
)
  where
    first : find_end sep (xs ++ z ∷ ys) 0 (length xs - 0) ≡ done (0 + length (first_token sep xs))
    first = ap (find_end sep (xs ++ z ∷ ys) 0) (omega arith) ∙ find_end_lem sep xs [] (z ∷ ys)
