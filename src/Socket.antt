-- ===== src/Socket.antt =====
-- src/gsocket.cpp and include/gsocket.h: BSD sockets. The system is a parameter: `Sys` lists its calls,
-- each of which passes the state `W` of the system on. Sizes and time-outs that the code takes as `int` or
-- `unsigned long` are natural numbers here.
pub mod Calls
pub mod Closed
pub mod Handle
pub mod Methods
pub mod Packet
pub mod Peer
pub mod Transfer
mod Tests
use opengcl.Prelude.{
  ℕ, zero, suc, ◌+◌, ◌-◌, ◌*◌, ◌/◌, ◌%◌, Option, none, some, Bool, true, false, not, ◌&&◌, ◌||◌,
  List, [], ◌∷◌, ◌++◌, ltb, leb, ◌==◌, if◌then◌else◌, length,
}
use opengcl.Time.{elapsed_msec}

-- What `recv` or `send` comes to: bytes moved, or -1 with the error number.
pub data Reply (A : Type 0) : Type 0 where
  moved : A → Reply A
  error : ℕ → Reply A

-- What `select` leaves behind for the one socket that it is asked about.
pub record Selected : Type 0 where
  pub failed : Bool
  pub in_set : Bool
  pub in_except : Bool

-- The calls of the system. `recv sock n` asks for `n` bytes; `send sock bytes` offers the bytes and says
-- how many it took; `select_read` and `select_write` take the seconds and microseconds of a `timeval`.
pub record Sys (W : Type 0) : Type 0 where
  pub recv : ℕ → ℕ → W → Reply (List ℕ) × W
  pub send : ℕ → List ℕ → W → Reply ℕ × W
  pub ticks : W → ℕ × W
  pub select_read : ℕ → ℕ → ℕ → W → Selected × W
  pub select_write : ℕ → ℕ → ℕ → W → Selected × W
  pub so_error : ℕ → W → ℕ × W
  pub eagain : ℕ

-- How one round of the loop ends: with a result (`none` is -1), or with another round.
pub data Round (A W : Type 0) : Type 0 where
  stop : Option A → W → Round A W
  again : A → W → Round A W

-- `buf + count`
abbrev pub drop : ℕ → List ℕ → List ℕ
drop zero xs = xs
drop (suc n) [] = []
drop (suc n) (x ∷ xs) = drop n xs

module _ {W : Type 0} (sys : Sys W) where
  -- `gsock_check_readable`; `none` is -1.
  pub gsock_check_readable : ℕ → ℕ → W → Option Bool × W
  gsock_check_readable sock timeout w =
      let (r, w1) = sys.select_read sock (timeout / 1000) (timeout % 1000 * 1000) w in
      let (err, w2) = sys.so_error sock w1 in
      if r.failed || r.in_except
      then (none, w1)
      else if err == 0
      then (some r.in_set, w2)
      else (none, w2)

  pub gsock_check_writable : ℕ → ℕ → W → Option Bool × W
  gsock_check_writable sock timeout w =
      let (r, w1) = sys.select_write sock (timeout / 1000) (timeout % 1000 * 1000) w in
      let (err, w2) = sys.so_error sock w1 in
      if r.failed || r.in_except
      then (none, w1)
      else if r.in_set
      then (some (err == 0), w2)
      else (some false, w1)

  abbrev pub positive : Option Bool × W → Bool × W
  positive (none, w) = (false, w)
  positive (some b, w) = (b, w)

  pub gsock_is_readable : ℕ → ℕ → W → Bool × W
  unfolding gsock_check_readable
  gsock_is_readable sock timeout w = positive (gsock_check_readable sock timeout w)

  pub gsock_is_writable : ℕ → ℕ → W → Bool × W
  unfolding gsock_check_writable
  gsock_is_writable sock timeout w = positive (gsock_check_writable sock timeout w)

  -- The code that `gsock_read` and `gsock_write` share, but for the calls they make. `A` is what has been
  -- moved so far and `count` its size; `attempt` is `recv` or `send` of the rest, and `is_ready` waits.
  module _ {A : Type 0} (count : A → ℕ) (attempt : A → W → Reply A × W)
      (is_ready : ℕ → W → Bool × W) (n timeout : ℕ) where
    -- From `if (count >= n) break;` to the end of the loop's body.
    pub check_round : ℕ → A → W → Round A W
    unfolding elapsed_msec
    check_round tm1 a w =
        let (now, w1) = sys.ticks w in
        let elapsed : ℕ = elapsed_msec now tm1 in
        let (b, w2) = is_ready (timeout - elapsed) w1 in
        if leb n (count a)
        then stop (some a) w
        else if ltb timeout elapsed
        then stop (some a) w1
        else if b
        then again a w2
        else stop (some a) w2

    pub after_attempt : ℕ → A → Reply A × W → Round A W
    unfolding check_round
    after_attempt tm1 a (moved a', w) = check_round tm1 a' w
    after_attempt tm1 a (error e, w) = if e == sys.eagain then check_round tm1 a w else stop none w

    abbrev pub resume : (A → W → Option (Option A × W)) → Round A W → Option (Option A × W)
    resume loop (stop r w) = some (r, w)
    resume loop (again a w) = loop a w

    -- The loop, `none` when the fuel runs out.
    pub transfer_loop : ℕ → ℕ → A → W → Option (Option A × W)
    unfolding after_attempt
    transfer_loop tm1 zero a w = none
    transfer_loop tm1 (suc f) a w = resume (transfer_loop tm1 f) (after_attempt tm1 a (attempt a w))

    -- From `if (count == n || timeout == 0) return count;` on.
    pub transfer_rest : ℕ → A → W → Option (Option A × W)
    unfolding transfer_loop
    transfer_rest fuel a w =
        let (tm1, w1) = sys.ticks w in
        if (count a == n) || (timeout == 0) then some (some a, w) else transfer_loop tm1 fuel a w1

    pub transfer_from : ℕ → A → Reply A × W → Option (Option A × W)
    unfolding transfer_rest
    transfer_from fuel start (moved a, w) = transfer_rest fuel a w
    transfer_from fuel start (error e, w) =
        if e == sys.eagain then transfer_rest fuel start w else some (none, w)

    pub transfer : ℕ → A → W → Option (Option A × W)
    unfolding transfer_from
    transfer fuel start w = transfer_from fuel start (attempt start w)

  abbrev pub stored : List ℕ → Reply (List ℕ) × W → Reply (List ℕ) × W
  stored got (moved bytes, w) = (moved (got ++ bytes), w)
  stored got (error e, w) = (error e, w)

  -- `recv(sock, buf + count, n - count, 0)`, with what is in `buf` already.
  pub recv_more : ℕ → ℕ → List ℕ → W → Reply (List ℕ) × W
  recv_more sock n got w = stored got (sys.recv sock (n - length got) w)

  abbrev pub counted : ℕ → Reply ℕ × W → Reply ℕ × W
  counted count (moved k, w) = (moved (count + k), w)
  counted count (error e, w) = (error e, w)

  -- `send(sock, buf + count, n - count, MSG_DONTWAIT)`, with `count` bytes gone already.
  pub send_more : ℕ → List ℕ → ℕ → W → Reply ℕ × W
  send_more sock buf count w = counted count (sys.send sock (drop count buf) w)

  -- The bytes that are in `buf` in the end, `none` where the code returns -1.
  pub gsock_read : ℕ → ℕ → ℕ → ℕ → W → Option (Option (List ℕ) × W)
  unfolding transfer recv_more gsock_is_readable
  gsock_read sock n timeout fuel w =
      transfer length (recv_more sock n) (gsock_is_readable sock) n timeout fuel [] w

  -- `buf` holds the `n` bytes to be written; the count, `none` where the code returns -1.
  pub gsock_write : ℕ → List ℕ → ℕ → ℕ → W → Option (Option ℕ × W)
  unfolding transfer send_more gsock_is_writable
  gsock_write sock buf timeout fuel w =
      transfer (λ k. k) (send_more sock buf) (gsock_is_writable sock) (length buf) timeout fuel 0 w

  abbrev pub whole_read : ℕ → Option (Option (List ℕ) × W) → Option (Bool × Option (List ℕ) × W)
  whole_read n none = none
  whole_read n (some (none, w)) = some (false, none, w)
  whole_read n (some (some got, w)) = some (length got == n, some got, w)

  -- Whether all `n` bytes came, and the rest as above.
  pub gsock_readn : ℕ → ℕ → ℕ → ℕ → W → Option (Bool × Option (List ℕ) × W)
  unfolding gsock_read
  gsock_readn sock n timeout fuel w = whole_read n (gsock_read sock n timeout fuel w)

  abbrev pub whole_write : ℕ → Option (Option ℕ × W) → Option (Bool × W)
  whole_write n none = none
  whole_write n (some (none, w)) = some (false, w)
  whole_write n (some (some k, w)) = some (k == n, w)

  pub gsock_writen : ℕ → List ℕ → ℕ → ℕ → W → Option (Bool × W)
  unfolding gsock_write
  gsock_writen sock buf timeout fuel w =
      whole_write (length buf) (gsock_write sock buf timeout fuel w)
