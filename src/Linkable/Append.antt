-- ===== src/Linkable/Append.antt =====
-- src/glist.cpp: `append` links a node in before the list head, behind the last node.
use opengcl.Prelude.{
  ℕ, ◌≡◌, sym, ◌∙◌, ◌≢◌, List, [], ◌∷◌, ◌++◌, arith, ◌==◌, if◌then◌else◌, eq→==, ne→==,
}
use opengcl.Linkable.{Heap, detach, link, append, construct, is_alone}
use opengcl.Linkable.Rings.{
  Links, IsRing, NotIn, Distinct, Distinct-snoc, last_of, Links-last, last_of-ne,
}

-- The links after `link s n`.
pub link_next :
    (s n : ℕ) (h : Heap) (p : ℕ)
    → s ≢ n
    → h.prev s ≢ n
    → (link s n h).next p ≡ (if p == h.prev s then n else if p == n then s else h.next p)
unfolding link
link_next s n h p ne nl = ground arith

pub link_prev :
    (s n : ℕ) (h : Heap) (p : ℕ)
    → s ≢ n
    → (link s n h).prev p ≡ (if p == s then n else if p == n then h.prev s else h.prev p)
unfolding link
link_prev s n h p ne = ground arith

-- Links grow by a node `n` behind the last one, `l`, if a heap `g` differs from `h` as `link` says.
module _ (h g : Heap) (s n l : ℕ) (ne : s ≢ n)
    (next : (p : ℕ) → g.next p ≡ (if p == l then n else if p == n then s else h.next p))
    (prev : (p : ℕ) → g.prev p ≡ (if p == s then n else if p == n then l else h.prev p)) where
  Links-snoc :
      (a : ℕ) (xs : List ℕ)
      → Links h a xs s
      → last_of a xs ≡ l
      → NotIn n (a ∷ xs)
      → NotIn s xs
      → Distinct (a ∷ xs)
      → Links g a (xs ++ n ∷ []) s
  Links-snoc a [] k e out d apart = (
    ground (arith, next a),
    ground (arith, prev n),
    (ground (arith, next n), ground (arith, prev s)),
  )
  Links-snoc a (x ∷ xs) k e out d apart =
      let far : a ≢ l = λ q. last_of-ne a x xs apart.0 (q ∙ sym e) in
      (
        ground (arith, next a, far, out.0, k.0),
        ground (arith, prev x, d.0, out.1.0, k.1),
        Links-snoc x xs k.2 e out.1 d.1 apart.1,
      )

last_of-ne_out : (n a : ℕ) (xs : List ℕ) → NotIn n (a ∷ xs) → last_of a xs ≢ n
last_of-ne_out n a [] h e = h.0 (sym e)
last_of-ne_out n a (x ∷ xs) h e = last_of-ne_out n x xs h.1 e

-- The four assignments put a node that is not in the ring at its end, whatever its own links were.
pub link-IsRing :
    {h : Heap} {s : ℕ} {xs : List ℕ} (n : ℕ)
    → IsRing h s xs
    → NotIn n (s ∷ xs)
    → IsRing (link s n h) s (xs ++ n ∷ [])
link-IsRing {h} {s} {xs} n r out =
    let l : ℕ = last_of s xs in
    let e : h.prev s ≡ l = Links-last h s s xs r.links in
    let ne : s ≢ n = λ q. out.0 (sym q) in
    let nl : h.prev s ≢ n = λ q. last_of-ne_out n s xs out (sym e ∙ q) in
    record {
      links =
          Links-snoc h (link s n h) s n (h.prev s) ne (λ p. link_next s n h p ne nl)
            (λ p. link_prev s n h p ne) s xs r.links (sym e) out r.distinct.0 r.distinct;
      distinct = Distinct-snoc n (s ∷ xs) out r.distinct;
    }

pub append-alone : (s n : ℕ) (h : Heap) → h.next n ≡ n → append s n h ≡ link s n h
unfolding append is_alone
append-alone s n h alone = rw (eq→== (h.next n) n alone)

-- A node that is linked is first detached.
pub append-linked : (s n : ℕ) (h : Heap) → h.next n ≢ n → append s n h ≡ link s n (detach n h)
unfolding append is_alone
append-linked s n h linked = rw (ne→== (h.next n) n linked)

-- `append` to the head of a ring puts a node that stands alone, and is not in the ring, behind the
-- last node, and leaves the others in order.
pub append-IsRing :
    {h : Heap} {s : ℕ} {xs : List ℕ} (n : ℕ)
    → IsRing h s xs
    → NotIn n (s ∷ xs)
    → h.next n ≡ n
    → IsRing (append s n h) s (xs ++ n ∷ [])
append-IsRing {h} {s} n r out alone = rw (append-alone s n h alone) (link-IsRing n r out)

-- A new list head is a ring with no nodes.
pub construct-IsRing : (s : ℕ) (h : Heap) → IsRing (construct s h) s []
unfolding construct
construct-IsRing s h = record { links = (ground arith, ground arith); distinct = (tt, tt) }
