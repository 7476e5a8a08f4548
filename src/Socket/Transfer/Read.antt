-- ===== src/Socket/Transfer/Read.antt =====
-- src/gsocket.cpp: `gsock_read`, on a system whose `recv` hands out a stream of bytes.
use mathlib.Core.Path.{subst}
use opengcl.Prelude.{
  ℕ, ◌-◌, ◌*◌, ◌/◌, ◌%◌, ◌≤◌, ◌<◌, ◌≡◌, refl, ap, ◌∙◌, Option, some, Bool, false, ◌==◌, ◌||◌, arith,
  List, [], ◌++◌, append_assoc, length, length-append, if_both,
}
use opengcl.Socket.{
  Reply, moved, error, Selected, Sys, gsock_read, recv_more, gsock_is_readable, positive, stored,
}
use opengcl.Socket.Transfer.{Kept, Keeps, Grows, transfer-Keeps, transfer-Ends}

module _ {W : Type 0} (sys : Sys W) (sock : ℕ) (pending : W → List ℕ) where
  -- `recv` takes bytes off the front of the stream, at most as many as it is asked for, and none where it
  -- fails.
  abbrev pub Received : ℕ → W → Reply (List ℕ) × W → Type 0
  Received k w (moved bytes, w') = (bytes ++ pending w' ≡ pending w) × (length bytes ≤ k)
  Received k w (error e, w') = pending w' ≡ pending w

  -- What the code relies on: `recv` is as above, and no other call touches the stream.
  pub record IsStream : Type 0 where
    pub recv_received : (k : ℕ) (w : W) → Received k w (sys.recv sock k w)
    pub ticks_pending : (w : W) → pending (sys.ticks w).1 ≡ pending w
    pub select_pending :
        (sec usec : ℕ) (w : W) → pending (sys.select_read sock sec usec w).1 ≡ pending w
    pub so_error_pending : (w : W) → pending (sys.so_error sock w).1 ≡ pending w

  -- A blocking `recv` waits for a byte: asked for some, it gives some, or it fails for good.
  abbrev pub Blocks : Reply (List ℕ) × W → Type 0
  Blocks (moved bytes, w') = 0 < length bytes
  Blocks (error e, w') = (e == sys.eagain) ≡ false

  Inv : ℕ → List ℕ → List ℕ → W → Type 0
  Inv n all got w = (got ++ pending w ≡ all) × (length got ≤ n)

  module _ (stream : IsStream) where
    readable_pending : (t : ℕ) (w : W) → pending (gsock_is_readable sys sock t w).1 ≡ pending w
    unfolding gsock_is_readable
    readable_pending t w =
        if_both same (r.failed || r.in_except) at_select
          (if_both same ((sys.so_error sock w1).0 == 0) at_error at_error)
      where
        w1 : W
        w1 = (sys.select_read sock (t / 1000) (t % 1000 * 1000) w).1

        r : Selected
        r = (sys.select_read sock (t / 1000) (t % 1000 * 1000) w).0

        same : Option Bool × W → Type 0
        same o = pending (positive sys o).1 ≡ pending w

        at_select : pending w1 ≡ pending w
        at_select = stream.select_pending (t / 1000) (t % 1000 * 1000) w

        at_error : pending (sys.so_error sock w1).1 ≡ pending w
        at_error = stream.so_error_pending w1 ∙ at_select

    stored_keeps :
        (n : ℕ) (all got : List ℕ) (w : W) (r : Reply (List ℕ) × W)
        → Inv n all got w
        → Received (n - length got) w r
        → Kept sys length
            (recv_more sys sock n)
            (gsock_is_readable sys sock)
            n
            0
            (Inv n all)
            got
            (stored sys got r)
    unfolding Inv
    stored_keeps n all got w (moved bytes, w') inv h = (
      append_assoc got bytes (pending w') ∙ (ap (λ x. got ++ x) h.0 ∙ inv.0),
      omega (arith, length-append got bytes, h.1, inv.1),
    )
    stored_keeps n all got w (error e, w') inv h = (ap (λ x. got ++ x) h ∙ inv.0, inv.1)

    recv_more_keeps :
        (n : ℕ) (all got : List ℕ) (w : W)
        → Inv n all got w
        → Kept sys length
            (recv_more sys sock n)
            (gsock_is_readable sys sock)
            n
            0
            (Inv n all)
            got
            (recv_more sys sock n got w)
    unfolding recv_more
    recv_more_keeps n all got w inv =
        stored_keeps n all got w (sys.recv sock (n - length got) w) inv
          (stream.recv_received (n - length got) w)

    -- Whatever the system does besides, the bytes that `gsock_read` returns are the next ones of the
    -- stream, in order, and none of them is lost or read twice; they are at most as many as it was asked
    -- for.
    pub gsock_read-IsStream :
        (n timeout fuel : ℕ) (w : W) {got : List ℕ} {w' : W}
        → gsock_read sys sock n timeout fuel w ≡ some (some got, w')
        → (got ++ pending w' ≡ pending w) × (length got ≤ n)
    unfolding gsock_read Inv
    gsock_read-IsStream n timeout fuel w e =
        subst
          (Keeps sys length (recv_more sys sock n) (gsock_is_readable sys sock) n timeout
            (Inv n (pending w)))
          e
          (transfer-Keeps sys length (recv_more sys sock n) (gsock_is_readable sys sock) n timeout
            (λ a v inv. (ap (λ x. a ++ x) (stream.ticks_pending v) ∙ inv.0, inv.1))
            (λ t a v inv. (ap (λ x. a ++ x) (readable_pending t v) ∙ inv.0, inv.1))
            (λ a v inv. recv_more_keeps n (pending w) a v inv) fuel [] w (refl, omega arith))

    stored-Grows :
        (got : List ℕ) (r : Reply (List ℕ) × W)
        → Blocks r
        → Grows sys length
            (recv_more sys sock 0)
            (gsock_is_readable sys sock)
            0
            0
            (length got)
            (stored sys got r)
    stored-Grows got (moved bytes, w) h = omega (arith, length-append got bytes, h)
    stored-Grows got (error e, w) h = h

    stored_bounded :
        (n k : ℕ) (w : W) (r : Reply (List ℕ) × W)
        → k ≤ n
        → Received k w r
        → Kept sys length
            (recv_more sys sock n)
            (gsock_is_readable sys sock)
            n
            0
            (λ b v. length b ≤ n)
            []
            (stored sys [] r)
    stored_bounded n k w (moved bytes, w') le h = omega (arith, h.1)
    stored_bounded n k w (error e, w') le h = omega arith

    -- On a blocking socket that goes on sending, `gsock_read` returns, whatever the time-out: a round for
    -- each byte is enough.
    pub gsock_read_ends :
        ((k : ℕ) (w : W) → 0 < k → Blocks (sys.recv sock k w))
        → (n timeout fuel : ℕ) (w : W) → n < fuel
        → (r : Option (List ℕ) × W) × (gsock_read sys sock n timeout fuel w ≡ some r)
    unfolding gsock_read recv_more
    gsock_read_ends blocks n timeout fuel w h =
        transfer-Ends sys length (recv_more sys sock n) (gsock_is_readable sys sock) n timeout grows
          fuel [] w h (omega arith) bounded
      where
        grows :
            (a : List ℕ) (v : W)
            → length a < n
            → Grows sys length
                (recv_more sys sock n)
                (gsock_is_readable sys sock)
                n
                timeout
                (length a)
                (recv_more sys sock n a v)
        grows a v lt =
            stored-Grows a (sys.recv sock (n - length a) v) (blocks (n - length a) v (omega arith))

        bounded :
            Kept sys length
              (recv_more sys sock n)
              (gsock_is_readable sys sock)
              n
              timeout
              (λ b v. length b ≤ n)
              []
              (recv_more sys sock n [] w)
        bounded =
            stored_bounded n (n - 0) w (sys.recv sock (n - 0) w) (omega arith)
              (stream.recv_received (n - 0) w)
