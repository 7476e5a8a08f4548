-- ===== src/Linkable/Rings.antt =====
-- src/glist.cpp: what it means that a list head `s` is linked in a ring with the nodes of a list.
use opengcl.Prelude.{
  ℕ, zero, suc, ◌+◌, ◌<◌, ◌≡◌, refl, sym, ap, ◌∙◌, ◌≢◌, ◌⊎◌, inl, inr, eq→==, ne→==, List, [], ◌∷◌,
  ◌++◌, Option, none, some, arith, ◌==◌, if◌then◌else◌, Bool, true, false,
}
use opengcl.Prelude
use opengcl.Linkable.{Heap, count, length}

abbrev pub NotIn : ℕ → List ℕ → Type 0
NotIn n [] = Unit {0}
NotIn n (x ∷ xs) = (n ≢ x) × NotIn n xs

abbrev pub Distinct : List ℕ → Type 0
Distinct [] = Unit {0}
Distinct (x ∷ xs) = NotIn x xs × Distinct xs

-- From `a` the nodes `xs` follow one another, and `b` follows the last of them; both links say so.
abbrev pub Links : Heap → ℕ → List ℕ → ℕ → Type 0
Links h a [] b = (h.next a ≡ b) × (h.prev b ≡ a)
Links h a (x ∷ xs) b = (h.next a ≡ x) × (h.prev x ≡ a) × Links h x xs b

pub record IsRing (h : Heap) (s : ℕ) (xs : List ℕ) : Type 0 where
  pub links : Links h s xs s
  pub distinct : Distinct (s ∷ xs)

abbrev pub last_of : ℕ → List ℕ → ℕ
last_of a [] = a
last_of a (x ∷ xs) = last_of x xs

pub Links-last : (h : Heap) (a b : ℕ) (xs : List ℕ) → Links h a xs b → h.prev b ≡ last_of a xs
Links-last h a b [] l = l.1
Links-last h a b (x ∷ xs) l = Links-last h x b xs l.2

pub last_of-ne : (a x : ℕ) (xs : List ℕ) → NotIn a (x ∷ xs) → a ≢ last_of x xs
last_of-ne a x [] h = h.0
last_of-ne a x (y ∷ ys) h = last_of-ne a y ys h.1

pub NotIn-append : (n : ℕ) (xs ys : List ℕ) → NotIn n xs → NotIn n ys → NotIn n (xs ++ ys)
NotIn-append n [] ys h k = k
NotIn-append n (x ∷ xs) ys h k = (h.0, NotIn-append n xs ys h.1 k)

pub Distinct-snoc : (n : ℕ) (xs : List ℕ) → NotIn n xs → Distinct xs → Distinct (xs ++ n ∷ [])
Distinct-snoc n [] h d = (tt, tt)
Distinct-snoc n (x ∷ xs) h d =
    (NotIn-append x xs (n ∷ []) d.0 ((λ e. h.0 (sym e)), tt), Distinct-snoc n xs h.1 d.1)

abbrev pub IsIn : ℕ → List ℕ → Type 0
IsIn p [] = ⊥
IsIn p (x ∷ xs) = (p ≡ x) ⊎ IsIn p xs

pub ne_of-IsIn : (n p : ℕ) (xs : List ℕ) → NotIn n xs → IsIn p xs → p ≢ n
ne_of-IsIn n p [] h i = absurd i
ne_of-IsIn n p (x ∷ xs) h (inl e) = λ q. h.0 (sym q ∙ e)
ne_of-IsIn n p (x ∷ xs) h (inr i) = ne_of-IsIn n p xs h.1 i

-- Links are a matter of the nodes of the ring alone.
pub Links-cong :
    (h g : Heap) (a b : ℕ) (xs : List ℕ)
    → Links h a xs b
    → ((p : ℕ) → IsIn p (a ∷ xs) → g.next p ≡ h.next p)
    → ((p : ℕ) → IsIn p (b ∷ xs) → g.prev p ≡ h.prev p)
    → Links g a xs b
Links-cong h g a b [] l n p = (n a (inl refl) ∙ l.0, p b (inl refl) ∙ l.1)
Links-cong h g a b (x ∷ xs) l n p = (
  n a (inl refl) ∙ l.0,
  p x (inr (inl refl)) ∙ l.1,
  Links-cong h g x b xs l.2 (λ q i. n q (inr i)) (λ q i. p q (keep q i)),
)
  where
    keep : (q : ℕ) → IsIn q (b ∷ xs) → IsIn q (b ∷ x ∷ xs)
    keep q (inl e) = inl e
    keep q (inr i) = inr (inr i)

count-Links :
    (h : Heap) (s a : ℕ) (xs : List ℕ) (f n : ℕ)
    → Links h a xs s
    → NotIn s xs
    → Prelude.length xs < f
    → count s h f (h.next a) n ≡ some (n + Prelude.length xs)
unfolding count
count-Links h s a xs zero n l d e = absurd (omega arith)
count-Links h s a [] (suc f) n l d e = rw (eq→== (h.next a) s l.0) (ap some (omega arith))
count-Links h s a (x ∷ xs) (suc f) n l d e = rw (ne→== (h.next a) s (λ q. d.0 (sym q ∙ l.0))) (
    ap (λ p. count s h f (h.next p) (n + 1)) l.0
    ∙ count-Links h s x xs f (n + 1) l.2 d.1 (omega arith)
    ∙ ap some (omega arith))

-- On fuel above the number of nodes of a ring, its head not counted, `length` ends and gives that
-- number.
pub length-IsRing :
    {h : Heap} {s : ℕ} {xs : List ℕ}
    → IsRing h s xs
    → (fuel : ℕ) → Prelude.length xs < fuel
    → length s h fuel ≡ some (Prelude.length xs)
unfolding length
length-IsRing {h} {s} {xs} r fuel e =
    count-Links h s s xs fuel 0 r.links r.distinct.0 e ∙ ap some (omega arith)
