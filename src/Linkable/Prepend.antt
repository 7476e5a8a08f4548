-- ===== src/Linkable/Prepend.antt =====
-- src/glist.cpp and include/glist.h: `prepend`, and putting a removed node back.
use opengcl.Prelude.{
  ℕ, ◌≡◌, sym, ◌∙◌, ◌≢◌, List, [], ◌∷◌, ◌++◌, append-nil, arith, ◌==◌, if◌then◌else◌,
}
use opengcl.Linkable.{Heap, detach, link, append, prepend, remove}
use opengcl.Linkable.Rings.{
  Links, IsRing, NotIn, Distinct-snoc, last_of, Links-last, last_of-ne, ne_of-IsIn, Links-cong,
}
use opengcl.Linkable.Append.{link-IsRing, link_next, link_prev, append-alone, append-linked}
use opengcl.Linkable.Detach.{
  detach_next, detach_prev, detach-IsRing, last_of-ne_out, prev_of_middle, next_of_middle,
  out_of_front, prev-ne, NotIn-left, NotIn-right,
}

Links-append :
    (h : Heap) (a m b : ℕ) (xs ys : List ℕ)
    → Links h a xs m
    → Links h m ys b
    → Links h a (xs ++ m ∷ ys) b
Links-append h a m b [] ys k l = (k.0, k.1, l)
Links-append h a m b (x ∷ xs) ys k l = (k.0, k.1, Links-append h x m b xs ys k.2 l)

-- A ring may be entered at its first node.
rotate : (h : Heap) (s x : ℕ) (xs : List ℕ) → IsRing h s (x ∷ xs) → IsRing h x (xs ++ s ∷ [])
rotate h s x xs r = record {
  links = Links-append h x s x xs [] r.links.2 (r.links.0, r.links.1);
  distinct = Distinct-snoc s (x ∷ xs) r.distinct.0 r.distinct.1;
}

-- The ring of the other nodes is left alone by `link n s`, if neither `n` nor `s` is in it.
link_frame :
    {h : Heap} {x : ℕ} {xs : List ℕ} (n s : ℕ)
    → IsRing h x xs
    → NotIn n (x ∷ xs)
    → NotIn s (x ∷ xs)
    → n ≢ s
    → h.prev n ≡ n
    → IsRing (link n s h) x xs
link_frame {h} {x} {xs} n s r out_n out_s ne alone =
    let before : h.prev n ≢ s = λ e. ne (sym alone ∙ e) in
    record {
      links =
          Links-cong h (link n s h) x x xs r.links
            (λ p i.
              link_next n s h p ne before
              ∙ ground
                  (arith, alone, ne_of-IsIn n p (x ∷ xs) out_n i, ne_of-IsIn s p (x ∷ xs) out_s i))
            (λ p i.
              link_prev n s h p ne
              ∙ ground (arith, ne_of-IsIn n p (x ∷ xs) out_n i, ne_of-IsIn s p (x ∷ xs) out_s i));
      distinct = r.distinct;
    }

-- `prepend` of a node that stands alone, to a list that has nodes and not this one, links the list
-- head with the new node alone; the nodes that the list had are left as a ring without the head.
pub prepend_loses :
    {h : Heap} {s x n : ℕ} {xs : List ℕ}
    → IsRing h s (x ∷ xs)
    → IsRing h n []
    → NotIn n (s ∷ x ∷ xs)
    → IsRing (prepend s n h) s (n ∷ []) × IsRing (prepend s n h) x xs
unfolding prepend
prepend_loses {h} {s} {x} {n} {xs} r alone out =
    let around : IsRing h x (xs ++ s ∷ []) = rotate h s x xs r in
    let d : Heap = detach s h in
    let others : IsRing d x xs = rw append-nil at ((detach-IsRing xs [] around).0) in
    let linked : h.next s ≢ s = λ e. r.distinct.0.0 (sym e ∙ r.links.0) in
    let last : h.prev s ≢ s = prev-ne xs [] around in
    let n_last : n ≢ h.prev s =
      λ e. last_of-ne n x xs out.1 (e ∙ Links-last h s s (x ∷ xs) r.links) in
    let still : IsRing d n [] = record {
      links = (
        detach_next s h n ∙ ground (arith, n_last, alone.links.0),
        detach_prev s h n last ∙ ground (arith, r.links.0, out.1.0, alone.links.1),
      );
      distinct = (tt, tt);
    } in
    rw (append-linked n s h linked) (
      rotate (link n s d) n s [] (link-IsRing s still ((λ e. out.0 (sym e)), tt)),
      link_frame n s others out.1 r.distinct.0 out.0 still.links.1,
    )

-- The last node of a ring leads back to the head.
Links-last_next : (h : Heap) (a b : ℕ) (xs : List ℕ) → Links h a xs b → h.next (last_of a xs) ≡ b
Links-last_next h a b [] l = l.0
Links-last_next h a b (x ∷ xs) l = Links-last_next h x b xs l.2

-- Removing the last node `n` of a list, appending a node `d` that stands alone and is not in the list,
-- and appending `n` again gives the list of before, without `d`.
pub append_again_loses :
    {h : Heap} {s : ℕ} (n d : ℕ) (xs : List ℕ)
    → IsRing h s (xs ++ n ∷ [])
    → h.next d ≡ d
    → NotIn d (s ∷ xs ++ n ∷ [])
    → IsRing (append s n (append s d (remove s n h))) s (xs ++ n ∷ [])
unfolding remove
append_again_loses {h} {s} n d xs r alone out =
    let g1 : Heap = detach n h in
    let removed = detach-IsRing xs [] r in
    let shorter : IsRing g1 s xs = rw append-nil at removed.0 in
    let l : ℕ = last_of s xs in
    let front = out_of_front xs [] r in
    let ne = prev-ne xs [] r in
    let prev_n : h.prev n ≡ l = prev_of_middle h n s s xs [] r.links in
    let next_n : h.next n ≡ s = next_of_middle h n s s xs [] r.links in
    let prev_s : g1.prev s ≡ l = Links-last g1 s s xs shorter.links in
    let next_l : g1.next l ≡ s = Links-last_next g1 s s xs shorter.links in
    let d_out : NotIn d (s ∷ xs) = NotIn-left d (s ∷ xs) (n ∷ []) out in
    let d_n : d ≢ n = (NotIn-right d (s ∷ xs) (n ∷ []) out).0 in
    let s_d : s ≢ d = λ e. d_out.0 (sym e) in
    let l_d : l ≢ d = last_of-ne_out d s xs d_out in
    let prev_d : g1.prev s ≢ d = λ e. l_d (sym prev_s ∙ e) in
    let alone_d : g1.next d ≡ d = detach_next n h d ∙ ground (arith, prev_n, l_d, alone) in
    let g2 : Heap = link s d g1 in
    let next2 : (p : ℕ)
        → g2.next p ≡ (if p == g1.prev s then d else if p == d then s else g1.next p) =
      λ p. link_next s d g1 p s_d prev_d in
    let prev2 : (p : ℕ)
        → g2.prev p ≡ (if p == s then d else if p == d then g1.prev s else g1.prev p) =
      λ p. link_prev s d g1 p s_d in
    let n_l : n ≢ l = λ e. last_of-ne_out n s xs front (sym e) in
    let next2_n : g2.next n ≡ s = next2 n ∙ ground (arith, n_l, prev_s, d_n, removed.1, next_n) in
    let prev2_n : g2.prev n ≡ l = prev2 n ∙ ground (arith, front.0, d_n, removed.2, prev_n) in
    let linked : g2.next n ≢ n = λ e. front.0 (sym e ∙ next2_n) in
    let prev2_ne : g2.prev n ≢ n = λ e. n_l (sym e ∙ prev2_n) in
    let back : IsRing (detach n g2) s xs = record {
      links =
          Links-cong g1 (detach n g2) s s xs shorter.links
            (λ p i.
              detach_next n g2 p
              ∙ ground (
                arith,
                next2 p,
                ne_of-IsIn d p (s ∷ xs) d_out i,
                prev2_n,
                next2_n,
                prev_s,
                next_l,
              ))
            (λ p i.
              detach_prev n g2 p prev2_ne
              ∙ ground (
                arith,
                prev2 p,
                ne_of-IsIn d p (s ∷ xs) d_out i,
                prev2_n,
                next2_n,
                prev_s,
                next_l,
              ));
      distinct = shorter.distinct;
    } in
    rw (append-alone s d g1 alone_d, append-linked s n g2 linked) (link-IsRing n back front)
