-- ===== src/Event/Unique.antt =====
-- src/gevent.cpp: that no name stands twice among the names of an EventEmitter.
use opengcl.Prelude.{
  ℕ, ◌≡◌, refl, sym, ap, ◌∙◌, inl, inr, Bool-cases, false, List, [], ◌∷◌, ◌++◌, arith,
}
use opengcl.Event.{same_text}
use opengcl.Event.Names.{has_text, true_ne_false, same_text_lem}
use opengcl.Event.Find.{same_text_refl}
use opengcl.Event.Others.{has_text-snoc}

-- Every text that is not empty stands once.
unfoldable pub Unique : List (List ℕ) → Type 0
Unique [] = Unit
Unique (x ∷ xs) = (same_text [] x ≡ false → has_text x xs ≡ false) × Unique xs

-- A text that is not among others, and what is among them.
has_text-split :
    (t : List ℕ) (xs : List (List ℕ)) (y : List ℕ) (post : List (List ℕ))
    → has_text t xs ≡ false
    → same_text y t ≡ false
    → has_text t post ≡ false
    → has_text t (xs ++ y ∷ post) ≡ false
unfolding has_text
has_text-split t [] y post e other behind = rw (other, behind) refl
has_text-split t (x ∷ xs) y post e other behind =
    let this : same_text x t ≡ false = ground (arith, e) in
    let later : has_text t xs ≡ false = ground (arith, e) in
    rw this (has_text-split t xs y post later other behind)

pub has_text-parts :
    (t : List ℕ) (xs : List (List ℕ)) (y : List ℕ) (post : List (List ℕ))
    → has_text t (xs ++ y ∷ post) ≡ false
    → (has_text t xs ≡ false) × (has_text t post ≡ false)
unfolding has_text
has_text-parts t [] y post e = (refl, ground (arith, e))
has_text-parts t (x ∷ xs) y post e =
    let this : same_text x t ≡ false = ground (arith, e) in
    let later : has_text t (xs ++ y ∷ post) ≡ false = ground (arith, e) in
    let (a, b) = has_text-parts t xs y post later in (rw this a, b)

-- Texts that differ one way differ the other way.
pub other_way : (s t : List ℕ) → same_text s t ≡ false → same_text t s ≡ false
other_way s t e = elim (Bool-cases (same_text t s)) [
  | inl same ↦
      absurd (
        true_ne_false
          (sym (same_text_refl s) ∙ ap (same_text s) (sym (same_text_lem t s same)) ∙ e))
  | inr differ ↦ differ
]

-- Another text in the place of `x`, if it is empty or is not among the others.
pub Unique-replace :
    (rest : List (List ℕ)) (x y : List ℕ) (post : List (List ℕ))
    → Unique (rest ++ x ∷ post)
    → (same_text [] y ≡ false → (has_text y rest ≡ false) × (has_text y post ≡ false))
    → Unique (rest ++ y ∷ post)
unfolding Unique has_text
Unique-replace [] x y post u h = (λ used. (h used).1, u.1)
Unique-replace (z ∷ rest) x y post u h = (
  λ used.
      let (a, b) = has_text-parts z rest x post (u.0 used) in
      has_text-split z rest y post a (apart used) b,
  Unique-replace rest x y post u.1
      λ used. let e : has_text y (z ∷ rest) ≡ false = (h used).0 in (ground (arith, e), (h used).1),
)
  where
    apart : same_text [] z ≡ false → same_text y z ≡ false
    apart used = elim (Bool-cases (same_text [] y)) [
      | inl empty ↦ rw (same_text_lem [] y empty) at used
      | inr full ↦
          let e : has_text y (z ∷ rest) ≡ false = (h full).0 in
          let differ : same_text z y ≡ false = ground (arith, e) in other_way z y differ
    ]

pub Unique-snoc :
    (xs : List (List ℕ)) (text : List ℕ)
    → Unique xs
    → has_text text xs ≡ false
    → Unique (xs ++ text ∷ [])
unfolding Unique has_text
Unique-snoc [] text u e = (λ used. refl, tt)
Unique-snoc (z ∷ xs) text u e =
    let this : same_text z text ≡ false = ground (arith, e) in
    let later : has_text text xs ≡ false = ground (arith, e) in
    (
      λ used. has_text-snoc z text xs (other_way z text this) (u.0 used),
      Unique-snoc xs text u.1 later,
    )

-- Once a text is taken out of its place it is not among the others.
pub Unique-erased :
    (rest : List (List ℕ)) (x : List ℕ) (post : List (List ℕ))
    → Unique (rest ++ x ∷ post)
    → same_text [] x ≡ false
    → has_text x rest ≡ false
    → has_text x (rest ++ [] ∷ post) ≡ false
unfolding Unique has_text
Unique-erased [] x post u used e = rw used (u.0 used)
Unique-erased (z ∷ rest) x post u used e =
    let this : same_text z x ≡ false = ground (arith, e) in
    let later : has_text x rest ≡ false = ground (arith, e) in
    rw this (Unique-erased rest x post u.1 used later)
