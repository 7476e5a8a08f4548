-- ===== src/Prelude/Pool.antt =====
-- Any number of threads as a list, of which one moves at a time: `xs ++ p ∷ ys` becomes
-- `xs ++ p' ∷ ys`.
use Prim.Native.Nat.{ℕ, ◌+◌}
use mathlib.Core.Path.{◌≡◌}
use mathlib.Core.List.{List, [], ◌∷◌, ◌++◌}
use native.Mathlib.Omega.{arith}

module _ {ℓ} {A : Type ℓ} where
  abbrev pub total : (A → ℕ) → List A → ℕ
  total w [] = 0
  total w (x ∷ xs) = w x + total w xs

  abbrev pub All {κ} : (A → Type κ) → List A → Type κ
  All P [] = Unit
  All P (x ∷ xs) = P x × All P xs

  pub total-at :
      (w : A → ℕ) (xs : List A) (x : A) (ys : List A)
      → total w (xs ++ x ∷ ys) ≡ w x + total w xs + total w ys
  total-at w [] x ys = omega arith
  total-at w (y ∷ xs) x ys = omega (arith, total-at w xs x ys)

  pub All-at {κ} :
      (P : A → Type κ) (xs : List A) (x : A) (ys : List A)
      → All P (xs ++ x ∷ ys)
      → All P xs × P x × All P ys
  All-at P [] x ys h = (tt, h.0, h.1)
  All-at P (y ∷ xs) x ys h = let (a, b, c) = All-at P xs x ys h.1 in ((h.0, a), b, c)

  pub All-put {κ} :
      (P : A → Type κ) (xs : List A) (x : A) (ys : List A)
      → All P xs
      → P x
      → All P ys
      → All P (xs ++ x ∷ ys)
  All-put P [] x ys a b c = (b, c)
  All-put P (y ∷ xs) x ys a b c = (a.0, All-put P xs x ys a.1 b c)

  -- A predicate may change for those that count for nothing, if nothing is counted.
  pub All-total {κ κ'} :
      (P : A → Type κ) (Q : A → Type κ') (w : A → ℕ)
      → ((x : A) → w x ≡ 0 → P x → Q x)
      → (xs : List A) → total w xs ≡ 0
      → All P xs
      → All Q xs
  All-total P Q w f [] e h = tt
  All-total P Q w f (x ∷ xs) e h =
      (f x (omega (arith, e)) h.0, All-total P Q w f xs (omega (arith, e)) h.1)
