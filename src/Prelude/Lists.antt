-- ===== src/Prelude/Lists.antt =====
-- Lists measured by native numbers, under the library's names.
use Prim.Native.Nat.{ℕ, suc, ◌+◌}
use mathlib.Core.Path.{◌≡◌, refl, ap, ap₂}
use mathlib.Core.List.{List, [], ◌∷◌, ◌++◌}
use mathlib.Core.Logic.{◌⊎◌, inl, inr}
use native.Mathlib.Omega.{arith}

module _ {ℓ} {A : Type ℓ} where
  abbrev pub length : List A → ℕ
  length [] = 0
  length (x ∷ xs) = suc (length xs)

  pub length-append : (xs ys : List A) → length (xs ++ ys) ≡ length xs + length ys
  length-append [] ys = omega arith
  length-append (x ∷ xs) ys = omega (arith, length-append xs ys)

  pub length-snoc : (xs : List A) (x : A) → length (xs ++ x ∷ []) ≡ suc (length xs)
  length-snoc xs x = omega (arith, length-append xs (x ∷ []))

  -- A list is empty or has a last item.
  pub snoc-cases : (l : List A) → (l ≡ []) ⊎ ((xs : List A) × (x : A) × (l ≡ xs ++ x ∷ []))
  snoc-cases [] = inl refl
  snoc-cases (a ∷ l) = elim (snoc-cases l) [
    | inl e ↦ inr ([], a, ap (λ m. a ∷ m) e)
    | inr (xs, x, e) ↦ inr (a ∷ xs, x, ap (λ m. a ∷ m) e)
  ]

  pub snoc-inj : (xs ys : List A) {x y : A} → xs ++ x ∷ [] ≡ ys ++ y ∷ [] → (xs ≡ ys) × (x ≡ y)
  snoc-inj [] [] e = (refl, cc e)
  snoc-inj [] (b ∷ ys) {y} e = absurd (omega (arith, ap length e, length-snoc ys y))
  snoc-inj (a ∷ xs) [] {x} e = absurd (omega (arith, ap length e, length-snoc xs x))
  snoc-inj (a ∷ xs) (b ∷ ys) {x} {y} e =
      let rest : (xs ≡ ys) × (x ≡ y) = snoc-inj xs ys (cc e) in
      let front : a ≡ b = cc e in (ap₂ ◌∷◌ front rest.0, rest.1)

  -- Equal lists split at the same place have equal parts.
  pub append-inj :
      (xs zs : List A) {ys rest : List A}
      → xs ++ ys ≡ zs ++ rest
      → length xs ≡ length zs
      → (xs ≡ zs) × (ys ≡ rest)
  append-inj [] [] e l = (refl, e)
  append-inj [] (z ∷ zs) e l = absurd (omega (arith, l))
  append-inj (x ∷ xs) [] e l = absurd (omega (arith, l))
  append-inj (x ∷ xs) (z ∷ zs) {ys = ys} {rest = rest} e l =
      let first : x ≡ z = cc e in
      let tails : (xs ≡ zs) × (ys ≡ rest) = append-inj xs zs (cc e) (omega (arith, l)) in
      (ap₂ ◌∷◌ first tails.0, tails.1)
