-- ===== src/Socket/Closed.antt =====
-- src/gsocket.cpp: what `gsock_read` does where the peer has closed the connection.
use opengcl.Prelude.{
  ℕ, zero, suc, ◌<◌, ◌≤◌, ◌≡◌, ◌≢◌, refl, ap, none, true, false, [], ltb, leb, ◌-◌, ◌==◌, arith,
  length, ne→==,
}
use opengcl.Time.{elapsed_msec}
use opengcl.Socket.{
  Sys, moved, again, gsock_check_readable, gsock_is_readable, check_round, after_attempt,
  transfer_loop, transfer_rest, transfer_from, transfer, recv_more, stored, gsock_read,
}

module _ {W : Type 0} (sys : Sys W) where
  -- A connection that the peer has closed: `recv` gives no byte, and `select` says at once that there is
  -- something to read.
  pub record IsClosed (sock : ℕ) : Type 0 where
    pub recv_end : (n : ℕ) (w : W) → (sys.recv sock n w).0 ≡ moved []
    pub select_ready :
        (sec usec : ℕ) (w : W)
        → (sys.select_read sock sec usec w).0
          ≡ record { failed = false; in_set = true; in_except = false }
    pub no_error : (w : W) → (sys.so_error sock w).0 ≡ 0

  module _ {sock : ℕ} (closed : IsClosed sock) where
    nothing_more :
        (n : ℕ) (w : W) → recv_more sys sock n [] w ≡ (moved [], (sys.recv sock (n - 0) w).1)
    unfolding recv_more
    nothing_more n w =
        ap (λ r. stored sys [] (r, (sys.recv sock (n - 0) w).1)) (closed.recv_end (n - 0) w)

    ready : (timeout : ℕ) (w : W) → (gsock_is_readable sys sock timeout w).0 ≡ true
    unfolding gsock_is_readable gsock_check_readable
    ready timeout w = rw (closed.select_ready _ _ w, closed.no_error _) refl

    module _ (n timeout : ℕ) where
      -- The system behind the read of no byte with which a round begins.
      abbrev pub received : W → W
      received w = (sys.recv sock (n - 0) w).1

      -- In each of so many rounds from `w` on, the clock that the round reads is not past the time-out, counted from
      -- the reading `tm1`; the next round begins where this one has waited for the rest of the time.
      abbrev pub IsWithin : ℕ → ℕ → W → Type 0
      IsWithin zero tm1 w = Unit
      IsWithin (suc rounds) tm1 w =
          let (tm2, w2) = sys.ticks (received w) in
          (elapsed_msec tm2 tm1 ≤ timeout)
          × IsWithin rounds tm1 (gsock_is_readable sys sock (timeout - elapsed_msec tm2 tm1) w2).1

      module _ (some_bytes : 0 < n) where
        -- A round of the loop changes nothing and asks for another.
        round_again :
            (tm1 : ℕ) (w : W)
            → elapsed_msec (sys.ticks w).0 tm1 ≤ timeout
            → check_round sys length
                (recv_more sys sock n)
                (gsock_is_readable sys sock)
                n
                timeout
                tm1
                []
                w
              ≡ again []
                  (gsock_is_readable sys sock
                    (timeout - elapsed_msec (sys.ticks w).0 tm1)
                    (sys.ticks w).1).1
        unfolding check_round
        round_again tm1 w early =
            let e : leb n 0 ≡ false = ground arith in
            let t : ltb timeout (elapsed_msec (sys.ticks w).0 tm1) ≡ false =
              ground (arith, early) in
            let wait : ℕ = timeout - elapsed_msec (sys.ticks w).0 tm1 in
            rw (e, t, ready wait (sys.ticks w).1) refl

        loop_spins :
            (fuel tm1 : ℕ) (w : W)
            → IsWithin fuel tm1 w
            → transfer_loop sys length
                (recv_more sys sock n)
                (gsock_is_readable sys sock)
                n
                timeout
                tm1
                fuel
                []
                w
              ≡ none
        unfolding transfer_loop after_attempt
        loop_spins zero tm1 w within = refl
        loop_spins (suc fuel) tm1 w (early, within) =
            rw (nothing_more n w, round_again tm1 (received w) early) (loop_spins fuel tm1 _ within)

        -- On a connection that the peer has closed, a read of some bytes with a time-out, which looks at the clock
        -- after its first `recv`: for any number of rounds in each of which the clock, looked at after the `recv` of
        -- the round, is not past the time-out, the read has not ended with those rounds, though nothing will come.
        pub gsock_read_spins :
            timeout ≢ 0
            → (fuel : ℕ) (w : W)
            → IsWithin fuel (sys.ticks (received w)).0 (sys.ticks (received w)).1
            → gsock_read sys sock n timeout fuel w ≡ none
        unfolding gsock_read transfer transfer_from transfer_rest
        gsock_read_spins ne fuel w within =
            let none_yet : (0 == n) ≡ false = ground arith in
            rw (nothing_more n w, none_yet, ne→== timeout 0 ne)
              (loop_spins fuel (sys.ticks (received w)).0 (sys.ticks (received w)).1 within)
