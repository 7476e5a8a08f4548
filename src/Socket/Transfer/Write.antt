-- ===== src/Socket/Transfer/Write.antt =====
-- src/gsocket.cpp: `gsock_write`, on a system whose `send` takes bytes off the front of what it is offered.
use mathlib.Core.Path.{subst}
use opengcl.Prelude.{
  ℕ, zero, suc, ◌+◌, ◌-◌, ◌*◌, ◌/◌, ◌%◌, ◌≤◌, ◌<◌, ◌≡◌, refl, sym, ap, ◌∙◌, Option, some, Bool,
  false, ◌==◌, ◌||◌, arith, List, [], ◌∷◌, ◌++◌, append_assoc, append-nil, length, if_both,
}
use opengcl.Socket.{
  Reply, moved, error, Selected, Sys, drop, gsock_write, send_more, gsock_is_writable, positive,
  counted,
}
use opengcl.Socket.Transfer.{Kept, Keeps, Grows, transfer-Keeps, transfer-Ends}

-- The first bytes of a buffer.
abbrev pub take : ℕ → List ℕ → List ℕ
take zero xs = []
take (suc n) [] = []
take (suc n) (x ∷ xs) = x ∷ take n xs

take-nil : (n : ℕ) → take n [] ≡ []
take-nil zero = refl
take-nil (suc n) = refl

take_add : (i k j : ℕ) (xs : List ℕ) → j ≡ i + k → take j xs ≡ take i xs ++ take k (drop i xs)
take_add zero k j xs e = ap (λ m. take m xs) (omega (arith, e))
take_add (suc i) k j [] e = take-nil j ∙ sym (take-nil k)
take_add (suc i) k zero (x ∷ xs) e = absurd (omega (arith, e))
take_add (suc i) k (suc j) (x ∷ xs) e = ap (λ ys. x ∷ ys) (take_add i k j xs (omega (arith, e)))

length-drop : (i : ℕ) (xs : List ℕ) → length (drop i xs) ≡ length xs - i
length-drop zero xs = omega arith
length-drop (suc i) [] = omega arith
length-drop (suc i) (x ∷ xs) = omega (arith, length-drop i xs)

module _ {W : Type 0} (sys : Sys W) (sock : ℕ) (sent : W → List ℕ) where
  -- `send` takes bytes off the front of what it is offered, and none where it fails.
  abbrev pub Accepted : List ℕ → W → Reply ℕ × W → Type 0
  Accepted bytes w (moved k, w') = (sent w' ≡ sent w ++ take k bytes) × (k ≤ length bytes)
  Accepted bytes w (error e, w') = sent w' ≡ sent w

  -- What the code relies on: `send` is as above, and no other call sends anything.
  pub record IsSink : Type 0 where
    pub send_accepted : (bytes : List ℕ) (w : W) → Accepted bytes w (sys.send sock bytes w)
    pub ticks_sent : (w : W) → sent (sys.ticks w).1 ≡ sent w
    pub select_sent : (sec usec : ℕ) (w : W) → sent (sys.select_write sock sec usec w).1 ≡ sent w
    pub so_error_sent : (w : W) → sent (sys.so_error sock w).1 ≡ sent w

  -- Offered some bytes, `send` takes one at least, or fails for good.
  abbrev pub Takes : Reply ℕ × W → Type 0
  Takes (moved k, w') = 0 < k
  Takes (error e, w') = (e == sys.eagain) ≡ false

  Inv : List ℕ → List ℕ → ℕ → W → Type 0
  Inv buf old k w = (sent w ≡ old ++ take k buf) × (k ≤ length buf)

  module _ (sink : IsSink) where
    writable_sent : (t : ℕ) (w : W) → sent (gsock_is_writable sys sock t w).1 ≡ sent w
    unfolding gsock_is_writable
    writable_sent t w =
        if_both same (r.failed || r.in_except) at_select (if_both same r.in_set at_error at_select)
      where
        w1 : W
        w1 = (sys.select_write sock (t / 1000) (t % 1000 * 1000) w).1

        r : Selected
        r = (sys.select_write sock (t / 1000) (t % 1000 * 1000) w).0

        same : Option Bool × W → Type 0
        same o = sent (positive sys o).1 ≡ sent w

        at_select : sent w1 ≡ sent w
        at_select = sink.select_sent (t / 1000) (t % 1000 * 1000) w

        at_error : sent (sys.so_error sock w1).1 ≡ sent w
        at_error = sink.so_error_sent w1 ∙ at_select

    counted_keeps :
        (buf old : List ℕ) (i : ℕ) (w : W) (r : Reply ℕ × W)
        → Inv buf old i w
        → Accepted (drop i buf) w r
        → Kept sys
            (λ k. k)
            (send_more sys sock buf)
            (gsock_is_writable sys sock)
            (length buf)
            0
            (Inv buf old)
            i
            (counted sys i r)
    unfolding Inv
    counted_keeps buf old i w (moved k, w') inv h = (
      h.0
          ∙ (ap (λ x. x ++ take k (drop i buf)) inv.0
              ∙ (append_assoc old (take i buf) (take k (drop i buf))
                  ∙ sym (ap (λ x. old ++ x) (take_add i k (i + k) buf refl)))),
      omega (arith, length-drop i buf, h.1, inv.1),
    )
    counted_keeps buf old i w (error e, w') inv h = (h ∙ inv.0, inv.1)

    send_more_keeps :
        (buf old : List ℕ) (i : ℕ) (w : W)
        → Inv buf old i w
        → Kept sys
            (λ k. k)
            (send_more sys sock buf)
            (gsock_is_writable sys sock)
            (length buf)
            0
            (Inv buf old)
            i
            (send_more sys sock buf i w)
    unfolding send_more
    send_more_keeps buf old i w inv =
        counted_keeps buf old i w (sys.send sock (drop i buf) w) inv
          (sink.send_accepted (drop i buf) w)

    -- Whatever the system does besides, the count that `gsock_write` returns is at most the length of the
    -- buffer, and what has been sent since the call is just that many bytes from its front.
    pub gsock_write-IsSink :
        (buf : List ℕ) (timeout fuel : ℕ) (w : W) {k : ℕ} {w' : W}
        → gsock_write sys sock buf timeout fuel w ≡ some (some k, w')
        → (sent w' ≡ sent w ++ take k buf) × (k ≤ length buf)
    unfolding gsock_write Inv
    gsock_write-IsSink buf timeout fuel w e =
        subst
          (Keeps sys (λ k. k) (send_more sys sock buf) (gsock_is_writable sys sock) (length buf)
            timeout (Inv buf (sent w)))
          e
          (transfer-Keeps sys (λ k. k) (send_more sys sock buf) (gsock_is_writable sys sock)
            (length buf) timeout (λ a v inv. (sink.ticks_sent v ∙ inv.0, inv.1))
            (λ t a v inv. (writable_sent t v ∙ inv.0, inv.1))
            (λ a v inv. send_more_keeps buf (sent w) a v inv) fuel 0 w
            (sym (append-nil (sent w)), omega arith))

    counted-Grows :
        (i : ℕ) (r : Reply ℕ × W)
        → Takes r
        → Grows sys
            (λ k. k)
            (send_more sys sock [])
            (gsock_is_writable sys sock)
            0
            0
            i
            (counted sys i r)
    counted-Grows i (moved k, w) h = omega (arith, h)
    counted-Grows i (error e, w) h = h

    counted_bounded :
        (buf : List ℕ) (w : W) (r : Reply ℕ × W)
        → Accepted buf w r
        → Kept sys
            (λ k. k)
            (send_more sys sock buf)
            (gsock_is_writable sys sock)
            (length buf)
            0
            (λ b v. b ≤ length buf)
            0
            (counted sys 0 r)
    counted_bounded buf w (moved k, w') h = omega (arith, h.1)
    counted_bounded buf w (error e, w') h = omega arith

    -- Where `send` goes on taking bytes, `gsock_write` returns, whatever the time-out: a round for each
    -- byte is enough.
    pub gsock_write_ends :
        ((bytes : List ℕ) (w : W) → 0 < length bytes → Takes (sys.send sock bytes w))
        → (buf : List ℕ) (timeout fuel : ℕ) (w : W) → length buf < fuel
        → (r : Option ℕ × W) × (gsock_write sys sock buf timeout fuel w ≡ some r)
    unfolding gsock_write send_more
    gsock_write_ends takes buf timeout fuel w h =
        transfer-Ends sys (λ k. k) (send_more sys sock buf) (gsock_is_writable sys sock)
          (length buf) timeout grows fuel 0 w h (omega arith) bounded
      where
        grows :
            (a : ℕ) (v : W)
            → a < length buf
            → Grows sys
                (λ k. k)
                (send_more sys sock buf)
                (gsock_is_writable sys sock)
                (length buf)
                timeout
                a
                (send_more sys sock buf a v)
        grows a v lt =
            counted-Grows a (sys.send sock (drop a buf) v)
              (takes (drop a buf) v (omega (arith, length-drop a buf)))

        bounded :
            Kept sys
              (λ k. k)
              (send_more sys sock buf)
              (gsock_is_writable sys sock)
              (length buf)
              timeout
              (λ b v. b ≤ length buf)
              0
              (send_more sys sock buf 0 w)
        bounded = counted_bounded buf w (sys.send sock buf w) (sink.send_accepted buf w)
