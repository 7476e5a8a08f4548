-- ===== src/Socket/Transfer.antt =====
-- src/gsocket.cpp: what the loop of `gsock_read` and `gsock_write` keeps, and that it ends.
pub mod Read
pub mod Write
use opengcl.Prelude.{
  ℕ, zero, suc, ◌+◌, ◌-◌, ◌≤◌, ◌<◌, ◌≡◌, refl, ◌⊎◌, inl, inr, Option, none, some, Bool, true, false,
  Bool-cases, leb, ltb, ◌==◌, ◌||◌, arith, if_both, if◌then◌else◌,
}
use opengcl.Time.{elapsed_msec}
use opengcl.Socket.{
  Reply, moved, error, Sys, Round, stop, again, resume, check_round, after_attempt, transfer_loop,
  transfer_rest, transfer_from, transfer,
}

module _ {W : Type 0} (sys : Sys W) {A : Type 0} (count : A → ℕ) (attempt : A → W → Reply A × W)
    (is_ready : ℕ → W → Bool × W) (n timeout : ℕ) where
  -- A predicate that one attempt keeps, whether it moves bytes or fails.
  abbrev pub Kept : (A → W → Type 0) → A → Reply A × W → Type 0
  Kept Inv a (moved a', w) = Inv a' w
  Kept Inv a (error e, w) = Inv a w

  abbrev RoundKeeps : (A → W → Type 0) → Round A W → Type 0
  RoundKeeps Inv (stop none w) = Unit
  RoundKeeps Inv (stop (some a) w) = Inv a w
  RoundKeeps Inv (again a w) = Inv a w

  abbrev pub Keeps : (A → W → Type 0) → Option (Option A × W) → Type 0
  Keeps Inv none = Unit
  Keeps Inv (some (none, w)) = Unit
  Keeps Inv (some (some a, w)) = Inv a w

  module _ {Inv : A → W → Type 0} (ticks_keeps : (a : A) (w : W) → Inv a w → Inv a (sys.ticks w).1)
      (ready_keeps : (t : ℕ) (a : A) (w : W) → Inv a w → Inv a (is_ready t w).1)
      (attempt_keeps : (a : A) (w : W) → Inv a w → Kept Inv a (attempt a w)) where
    check_round_keeps :
        (tm1 : ℕ) (a : A) (w : W)
        → Inv a w
        → RoundKeeps Inv (check_round sys count attempt is_ready n timeout tm1 a w)
    unfolding check_round
    check_round_keeps tm1 a w inv = if_both (RoundKeeps Inv) (leb n (count a)) inv (
        if_both (RoundKeeps Inv) (ltb timeout elapsed) kept (
          if_both (RoundKeeps Inv) (is_ready (timeout - elapsed) w1).0 (ready_keeps _ a w1 kept)
            (ready_keeps _ a w1 kept)))
      where
        w1 : W
        w1 = (sys.ticks w).1

        elapsed : ℕ
        elapsed = elapsed_msec (sys.ticks w).0 tm1

        kept : Inv a w1
        kept = ticks_keeps a w inv

    after_attempt_keeps :
        (tm1 : ℕ) (a : A) (r : Reply A × W)
        → Kept Inv a r
        → RoundKeeps Inv (after_attempt sys count attempt is_ready n timeout tm1 a r)
    unfolding after_attempt
    after_attempt_keeps tm1 a (moved a', w) kept = check_round_keeps tm1 a' w kept
    after_attempt_keeps tm1 a (error e, w) kept =
        if_both (RoundKeeps Inv) (e == sys.eagain) (check_round_keeps tm1 a w kept) tt

    resume-Keeps :
        (loop : A → W → Option (Option A × W))
        → ((a : A) (w : W) → Inv a w → Keeps Inv (loop a w))
        → (r : Round A W) → RoundKeeps Inv r
        → Keeps Inv (resume sys count attempt is_ready n timeout loop r)
    resume-Keeps loop h (stop none w) k = tt
    resume-Keeps loop h (stop (some a) w) k = k
    resume-Keeps loop h (again a w) k = h a w k

    transfer_loop-Keeps :
        (tm1 f : ℕ) (a : A) (w : W)
        → Inv a w
        → Keeps Inv (transfer_loop sys count attempt is_ready n timeout tm1 f a w)
    unfolding transfer_loop
    transfer_loop-Keeps tm1 zero a w inv = tt
    transfer_loop-Keeps tm1 (suc f) a w inv =
        resume-Keeps (transfer_loop sys count attempt is_ready n timeout tm1 f)
          (transfer_loop-Keeps tm1 f)
          (after_attempt sys count attempt is_ready n timeout tm1 a (attempt a w))
          (after_attempt_keeps tm1 a (attempt a w) (attempt_keeps a w inv))

    transfer_rest-Keeps :
        (fuel : ℕ) (a : A) (w : W)
        → Inv a w
        → Keeps Inv (transfer_rest sys count attempt is_ready n timeout fuel a w)
    unfolding transfer_rest
    transfer_rest-Keeps fuel a w inv =
        if_both (Keeps Inv) ((count a == n) || (timeout == 0)) inv
          (transfer_loop-Keeps (sys.ticks w).0 fuel a (sys.ticks w).1 (ticks_keeps a w inv))

    transfer_from-Keeps :
        (fuel : ℕ) (a : A) (r : Reply A × W)
        → Kept Inv a r
        → Keeps Inv (transfer_from sys count attempt is_ready n timeout fuel a r)
    unfolding transfer_from
    transfer_from-Keeps fuel a (moved a', w) kept = transfer_rest-Keeps fuel a' w kept
    transfer_from-Keeps fuel a (error e, w) kept =
        if_both (Keeps Inv) (e == sys.eagain) (transfer_rest-Keeps fuel a w kept) tt

    -- What every call of the system keeps holds at the end.
    pub transfer-Keeps :
        (fuel : ℕ) (a : A) (w : W)
        → Inv a w
        → Keeps Inv (transfer sys count attempt is_ready n timeout fuel a w)
    unfolding transfer
    transfer-Keeps fuel a w inv = transfer_from-Keeps fuel a (attempt a w) (attempt_keeps a w inv)

  -- An attempt moves at least one byte, or fails for good.
  abbrev pub Grows : ℕ → Reply A × W → Type 0
  Grows k (moved a, w) = k < count a
  Grows k (error e, w) = (e == sys.eagain) ≡ false

  abbrev AgainAbove : ℕ → Round A W → Type 0
  AgainAbove k (stop r w) = Unit
  AgainAbove k (again a w) = (k < count a) × (count a < n)

  check_round_above :
      (k tm1 : ℕ) (a : A) (w : W)
      → k < count a
      → AgainAbove k (check_round sys count attempt is_ready n timeout tm1 a w)
  unfolding check_round
  check_round_above k tm1 a w lt = elim (Bool-cases (leb n (count a))) [
    | inl all ↦ rw all tt
    | inr more ↦ rw more (
        if_both (AgainAbove k) (ltb timeout elapsed) tt (
          if_both (AgainAbove k) (is_ready (timeout - elapsed) (sys.ticks w).1).0 (lt, ground arith)
            tt))
  ]
    where
      elapsed : ℕ
      elapsed = elapsed_msec (sys.ticks w).0 tm1

  after_attempt_above :
      (k tm1 : ℕ) (a : A) (r : Reply A × W)
      → Grows k r
      → AgainAbove k (after_attempt sys count attempt is_ready n timeout tm1 a r)
  unfolding after_attempt
  after_attempt_above k tm1 a (moved a', w) lt = check_round_above k tm1 a' w lt
  after_attempt_above k tm1 a (error e, w) hard = rw hard tt

  -- A run comes to a result.
  abbrev pub Ends : Option (Option A × W) → Type 0
  Ends o = (r : Option A × W) × (o ≡ some r)

  resume-Ends :
      (k : ℕ) (loop : A → W → Option (Option A × W))
      → ((a : A) (w : W) → k < count a → count a < n → Ends (loop a w))
      → (r : Round A W) → AgainAbove k r
      → Ends (resume sys count attempt is_ready n timeout loop r)
  resume-Ends k loop h (stop r w) x = ((r, w), refl)
  resume-Ends k loop h (again a w) x = h a w x.0 x.1

  module _ (grows : (a : A) (w : W) → count a < n → Grows (count a) (attempt a w)) where
    transfer_loop-Ends :
        (tm1 f : ℕ) (a : A) (w : W)
        → n < count a + f
        → count a < n
        → Ends (transfer_loop sys count attempt is_ready n timeout tm1 f a w)
    unfolding transfer_loop
    transfer_loop-Ends tm1 zero a w h lt = absurd (omega arith)
    transfer_loop-Ends tm1 (suc f) a w h lt =
        resume-Ends (count a) (transfer_loop sys count attempt is_ready n timeout tm1 f)
          (λ a' w' more below. transfer_loop-Ends tm1 f a' w' (omega arith) below)
          (after_attempt sys count attempt is_ready n timeout tm1 a (attempt a w))
          (after_attempt_above (count a) tm1 a (attempt a w) (grows a w lt))

    transfer_rest-Ends :
        (fuel : ℕ) (a : A) (w : W)
        → n < fuel
        → count a ≤ n
        → Ends (transfer_rest sys count attempt is_ready n timeout fuel a w)
    unfolding transfer_rest
    transfer_rest-Ends fuel a w h le = elim (Bool-cases (count a == n)) [
      | inl all ↦ rw all ((some a, w), refl)
      | inr more ↦ rw more (
          if_both Ends (timeout == 0) ((some a, w), refl)
            (transfer_loop-Ends (sys.ticks w).0 fuel a (sys.ticks w).1 (omega arith)
              (ground arith)))
    ]

    transfer_from-Ends :
        (fuel : ℕ) (a : A) (r : Reply A × W)
        → n < fuel
        → count a ≤ n
        → Kept (λ b v. count b ≤ n) a r
        → Ends (transfer_from sys count attempt is_ready n timeout fuel a r)
    unfolding transfer_from
    transfer_from-Ends fuel a (moved a', w) h le kept = transfer_rest-Ends fuel a' w h kept
    transfer_from-Ends fuel a (error e, w) h le kept =
        if_both Ends (e == sys.eagain) (transfer_rest-Ends fuel a w h le) ((none, w), refl)

    -- Fuel above the number of bytes is enough.
    pub transfer-Ends :
        (fuel : ℕ) (a : A) (w : W)
        → n < fuel
        → count a ≤ n
        → Kept (λ b v. count b ≤ n) a (attempt a w)
        → Ends (transfer sys count attempt is_ready n timeout fuel a w)
    unfolding transfer
    transfer-Ends fuel a w h le kept = transfer_from-Ends fuel a (attempt a w) h le kept
