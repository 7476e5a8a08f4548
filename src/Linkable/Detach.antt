-- ===== src/Linkable/Detach.antt =====
-- src/glist.cpp: `detach` and `remove` take a node out of its ring.
use opengcl.Prelude.{
  ℕ, ◌≡◌, sym, ◌∙◌, ◌≢◌, inl, inr, List, [], ◌∷◌, ◌++◌, arith, ◌==◌, if◌then◌else◌, false, ne→==,
}
use opengcl.Linkable.{Heap, detach, is_alone}
use opengcl.Linkable.Rings.{
  Links, IsRing, NotIn, Distinct, last_of, last_of-ne, IsIn, ne_of-IsIn, Links-cong,
}

pub detach_next :
    (n : ℕ) (h : Heap) (p : ℕ)
    → (detach n h).next p ≡ (if p == h.prev n then h.next n else h.next p)
unfolding detach
detach_next n h p = ground arith

pub detach_prev :
    (n : ℕ) (h : Heap) (p : ℕ)
    → h.prev n ≢ n
    → (detach n h).prev p ≡ (if p == h.next n then h.prev n else h.prev p)
unfolding detach
detach_prev n h p ne = ground arith

pub NotIn-left : (p : ℕ) (xs ys : List ℕ) → NotIn p (xs ++ ys) → NotIn p xs
NotIn-left p [] ys h = tt
NotIn-left p (x ∷ xs) ys h = (h.0, NotIn-left p xs ys h.1)

pub NotIn-right : (p : ℕ) (xs ys : List ℕ) → NotIn p (xs ++ ys) → NotIn p ys
NotIn-right p [] ys h = h
NotIn-right p (x ∷ xs) ys h = NotIn-right p xs ys h.1

NotIn-skip : (p n : ℕ) (xs ys : List ℕ) → NotIn p (xs ++ n ∷ ys) → NotIn p (xs ++ ys)
NotIn-skip p n [] ys h = h.1
NotIn-skip p n (x ∷ xs) ys h = (h.0, NotIn-skip p n xs ys h.1)

Distinct-skip : (n : ℕ) (xs ys : List ℕ) → Distinct (xs ++ n ∷ ys) → Distinct (xs ++ ys)
Distinct-skip n [] ys d = d.1
Distinct-skip n (x ∷ xs) ys d = (NotIn-skip x n xs ys d.0, Distinct-skip n xs ys d.1)

-- The node behind a node, in front of `b`.
abbrev first_of : List ℕ → ℕ → ℕ
first_of [] b = b
first_of (y ∷ ys) b = y

first_of-ne : (p b : ℕ) (ys : List ℕ) → p ≢ b → NotIn p ys → p ≢ first_of ys b
first_of-ne p b [] ne h = ne
first_of-ne p b (y ∷ ys) ne h = h.0

Links-next : (h : Heap) (a b : ℕ) (ys : List ℕ) → Links h a ys b → h.next a ≡ first_of ys b
Links-next h a b [] l = l.0
Links-next h a b (y ∷ ys) l = l.0

-- Links without the node `n`, if a heap `g` differs from `h` as `detach` says.
module _ (h g : Heap) (n b : ℕ)
    (next : (p : ℕ) → g.next p ≡ (if p == h.prev n then h.next n else h.next p))
    (prev : (p : ℕ) → g.prev p ≡ (if p == h.next n then h.prev n else h.prev p)) where
  Links-behind :
      (a : ℕ) (ys : List ℕ)
      → Links h n ys b
      → h.prev n ≡ a
      → NotIn a ys
      → NotIn b ys
      → Distinct ys
      → Links g a ys b
  Links-behind a [] l e out d apart = (ground (arith, next a, l.0), ground (arith, prev b, l.0))
  Links-behind a (y ∷ ys) l e out d apart = (
    ground (arith, next a, l.0),
    ground (arith, prev y, l.0),
    Links-cong h g y b ys l.2 (λ p i. ground (arith, next p, ne_of-IsIn a p (y ∷ ys) out i))
        (λ p i. ground (arith, prev p, not_y p i, l.0)),
  )
    where
      not_y : (p : ℕ) → IsIn p (b ∷ ys) → p ≢ y
      not_y p (inl e) = λ q. d.0 (sym e ∙ q)
      not_y p (inr i) = ne_of-IsIn y p ys apart.0 i

  Links-skip :
      (a : ℕ) (xs ys : List ℕ)
      → Links h a (xs ++ n ∷ ys) b
      → NotIn a (xs ++ n ∷ ys)
      → NotIn b (xs ++ n ∷ ys)
      → Distinct (xs ++ n ∷ ys)
      → Links g a (xs ++ ys) b
  Links-skip a [] ys l out d apart = Links-behind a ys l.2 l.1 out.1 d.1 apart.1
  Links-skip a (x ∷ xs) ys l out d apart = (
    ground (arith, next a, far, l.0),
    ground (arith, prev x, not_next, l.1),
    Links-skip x xs ys l.2 apart.0 d.1 apart.1,
  )
    where
      before : (c : ℕ) (zs : List ℕ) → Links h c (zs ++ n ∷ ys) b → h.prev n ≡ last_of c zs
      before c [] k = k.1
      before c (z ∷ zs) k = before z zs k.2

      behind : (c : ℕ) (zs : List ℕ) → Links h c (zs ++ n ∷ ys) b → h.next n ≡ first_of ys b
      behind c [] k = Links-next h n b ys k.2
      behind c (z ∷ zs) k = behind z zs k.2

      far : a ≢ h.prev n
      far q = last_of-ne a x xs (NotIn-left a (x ∷ xs) (n ∷ ys) out) (q ∙ before x xs l.2)

      not_next : x ≢ h.next n
      not_next q =
          first_of-ne x b ys (λ e. d.0 (sym e)) (NotIn-right x xs (n ∷ ys) apart.0).1
            (q ∙ behind x xs l.2)

NotIn-middle : (n : ℕ) (xs ys : List ℕ) → Distinct (xs ++ n ∷ ys) → NotIn n xs
NotIn-middle n [] ys d = tt
NotIn-middle n (x ∷ xs) ys d =
    ((λ e. (NotIn-right x xs (n ∷ ys) d.0).0 (sym e)), NotIn-middle n xs ys d.1)

pub prev_of_middle :
    (h : Heap) (n a b : ℕ) (xs ys : List ℕ) → Links h a (xs ++ n ∷ ys) b → h.prev n ≡ last_of a xs
prev_of_middle h n a b [] ys k = k.1
prev_of_middle h n a b (z ∷ zs) ys k = prev_of_middle h n z b zs ys k.2

pub next_of_middle :
    (h : Heap) (n a b : ℕ) (xs ys : List ℕ) → Links h a (xs ++ n ∷ ys) b → h.next n ≡ first_of ys b
next_of_middle h n a b [] ys k = Links-next h n b ys k.2
next_of_middle h n a b (z ∷ zs) ys k = next_of_middle h n z b zs ys k.2

pub last_of-ne_out : (n a : ℕ) (xs : List ℕ) → NotIn n (a ∷ xs) → last_of a xs ≢ n
last_of-ne_out n a [] h e = h.0 (sym e)
last_of-ne_out n a (x ∷ xs) h e = last_of-ne_out n x xs h.1 e

module _ {h : Heap} {s n : ℕ} (xs ys : List ℕ) (r : IsRing h s (xs ++ n ∷ ys)) where
  pub out_of_front : NotIn n (s ∷ xs)
  out_of_front =
      ((λ e. (NotIn-right s xs (n ∷ ys) r.distinct.0).0 (sym e)), NotIn-middle n xs ys r.distinct.1)

  pub prev-ne : h.prev n ≢ n
  prev-ne e = last_of-ne_out n s xs out_of_front (sym (prev_of_middle h n s s xs ys r.links) ∙ e)

  -- `detach` of a node of a ring, other than the head, takes it out and leaves the others in order.
  -- The links of the node itself stay as they were, and it does not count as alone.
  pub detach-IsRing :
      IsRing (detach n h) s (xs ++ ys)
      × ((detach n h).next n ≡ h.next n)
      × ((detach n h).prev n ≡ h.prev n)
      × (is_alone n (detach n h) ≡ false)
  unfolding is_alone
  detach-IsRing =
      let ne = prev-ne in
      let away : n ≢ first_of ys s = first_of-ne n s ys out_of_front.0 (behind xs r.distinct.1) in
      let next_ne : h.next n ≢ n = λ e. away (sym e ∙ next_of_middle h n s s xs ys r.links) in
      let same : (detach n h).next n ≡ h.next n = detach_next n h n ∙ ground (arith, ne) in
      (
        record {
          links =
              Links-skip h (detach n h) n s (detach_next n h) (λ p. detach_prev n h p ne) s xs ys
                r.links r.distinct.0 r.distinct.0 r.distinct.1;
          distinct = Distinct-skip n (s ∷ xs) ys r.distinct;
        },
        same,
        detach_prev n h n ne ∙ ground (arith, next_ne),
        ne→== ((detach n h).next n) n (λ e. next_ne (sym same ∙ e)),
      )
    where
      behind : (zs : List ℕ) → Distinct (zs ++ n ∷ ys) → NotIn n ys
      behind [] d = d.0
      behind (z ∷ zs) d = behind zs d.1
