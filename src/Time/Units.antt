-- ===== src/Time/Units.antt =====
-- include/gtime.h: conversions between time units, and elapsed time.
use opengcl.Prelude.{ℕ, ◌+◌, ◌-◌, ◌*◌, ◌/◌, ◌%◌, ◌^◌, ◌≤◌, ◌<◌, ◌≡◌, ◌≢◌, ◌∙◌, ap, arith}
use native.Mathlib.Nat.{mod-eq_of_lt}
use opengcl.Time.{
  ticks_to_msec, ticks_to_usec, nsec_to_usec, nsec_to_msec, usec_to_ticks, usec_to_nsec,
  usec_to_msec, msec_to_ticks, msec_to_nsec, msec_to_usec, elapsed_ticks, elapsed_nsec,
  elapsed_usec, elapsed_msec,
}

-- Milliseconds below 2 ^ 32 come back unchanged from ticks, and with a 64-bit `unsigned long` from
-- microseconds and from nanoseconds.
pub msec_round_trips :
    (msec : ℕ)
    → msec < 2 ^ 32
    → (ticks_to_msec (msec_to_ticks msec) ≡ msec)
      × (usec_to_msec (msec_to_usec (2 ^ 64) msec) ≡ msec)
      × (nsec_to_msec (msec_to_nsec (2 ^ 64) msec) ≡ msec)
unfolding ticks_to_msec msec_to_ticks usec_to_msec msec_to_usec nsec_to_msec msec_to_nsec
msec_round_trips msec h = (omega arith, omega arith, omega arith)

-- Microseconds in the range of `usec_t` come back unchanged from ticks and from nanoseconds, as long
-- as they fit in 64 bits as nanoseconds.
pub usec_round_trip :
    (long_mod usec : ℕ)
    → usec < long_mod
    → usec * 1000 < 2 ^ 64
    → (ticks_to_usec long_mod (usec_to_ticks usec) ≡ usec)
      × (nsec_to_usec long_mod (usec_to_nsec usec) ≡ usec)
unfolding ticks_to_usec usec_to_ticks nsec_to_usec usec_to_nsec
usec_round_trip long_mod usec h fits = (back, back)
  where
    back : usec * 1000 % 2 ^ 64 / 1000 % long_mod ≡ usec
    back =
        let e : usec * 1000 % 2 ^ 64 / 1000 ≡ usec = omega arith in
        ap (λ (x : ℕ). x % long_mod) e ∙ mod-eq_of_lt h

-- With a 32-bit `unsigned long`, `msec_to_nsec` agrees with `msec_to_ticks` for exactly the times
-- whose nanoseconds fit in 32 bits, those up to 4294 milliseconds.
pub msec_to_nsec-long32 :
    (msec : ℕ)
    → msec < 2 ^ 32
    → (msec ≤ 4294 → msec_to_nsec (2 ^ 32) msec ≡ msec_to_ticks msec)
      × (4294 < msec → msec_to_nsec (2 ^ 32) msec ≢ msec_to_ticks msec)
unfolding msec_to_nsec msec_to_ticks
msec_to_nsec-long32 msec h = (λ le. omega arith, λ gt e. omega arith)

-- Of a clock that has gone on by `d` below 2 ^ 64 ticks since the mark, wrapping or not, the elapsed
-- ticks and nanoseconds are `d`, and the micro- and milliseconds are `d` in those units, rounded down
-- and reduced to their widths.
pub elapsed_lem :
    (long_mod tm d : ℕ)
    → tm < 2 ^ 64
    → d < 2 ^ 64
    → let now = (tm + d) % 2 ^ 64 in
      (elapsed_ticks now tm ≡ d)
      × (elapsed_nsec now tm ≡ d)
      × (elapsed_usec long_mod now tm ≡ d / 1000 % long_mod)
      × (elapsed_msec now tm ≡ d / 1000000 % 2 ^ 32)
unfolding elapsed_ticks elapsed_nsec elapsed_usec elapsed_msec
elapsed_lem long_mod tm d h k = (
  since,
  since,
  ap (λ (x : ℕ). x / 1000 % long_mod) since,
  ap (λ (x : ℕ). x / 1000000 % 2 ^ 32) since,
)
  where
    since : ((tm + d) % 2 ^ 64 + 2 ^ 64 - tm) % 2 ^ 64 ≡ d
    since = omega arith
