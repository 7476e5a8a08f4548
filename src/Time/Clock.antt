-- ===== src/Time/Clock.antt =====
-- src/gtime.cpp: the clock.
use opengcl.Prelude.{ℕ, ◌+◌, ◌*◌, ◌/◌, ◌^◌, ◌≤◌, ◌<◌, ◌≡◌, ◌≢◌, refl, ap, arith, Option, none, some}
use opengcl.Time.{ticks, ticks2nsec, ticks_win, Hpc, no_hpc, need_init, ready}

-- A later `timespec` gives a larger tick count, up to the 64-bit range (584 years).
pub ticks_mono :
    (s n s' n' : ℕ)
    → n < 1000000000
    → n' < 1000000000
    → s' * 1000000000 + n' < 2 ^ 64
    → (s < s')
    → ticks s n < ticks s' n'
unfolding ticks
ticks_mono s n s' n' h h' fits lt = omega arith

goes_back : (f a b : ℕ) → 0 < f → a + f ≤ b → a / f < b / f
goes_back f a b p h = grind arith

-- At a frequency above 0 and below 2 ^ 32, counts up to 18446744073 are converted to nanoseconds
-- exactly, rounded down, and the next count is converted to an earlier time than that one.
pub ticks2nsec_range :
    (frequency : ℕ)
    → 0 < frequency
    → frequency < 2 ^ 32
    → ((count : ℕ)
        → count ≤ 18446744073
        → ticks2nsec frequency count ≡ count * 1000000000 / frequency)
      × (ticks2nsec frequency 18446744074 < ticks2nsec frequency 18446744073)
unfolding ticks2nsec
ticks2nsec_range frequency p h = (
  λ count le. ap (λ (x : ℕ). x / frequency) (omega arith),
  goes_back frequency 290448384 18446744073000000000 p (omega arith),
)

-- The kind of clock is settled by the first call of `ticks`: every later call keeps it, whatever the
-- system then says of the performance counter.
pub ticks_win_settles :
    (q q' : Option ℕ) (n t n' t' : ℕ) (s : Hpc)
    → (ticks_win q n t s).1 ≢ need_init
      × ((ticks_win q' n' t' (ticks_win q n t s).1).1 ≡ (ticks_win q n t s).1)
unfolding ticks_win
ticks_win_settles q q' n t n' t' (ready f) = (λ e. cc e, refl)
ticks_win_settles (some f) q' n t n' t' need_init = (λ e. cc e, refl)
ticks_win_settles none none n t n' t' need_init = (λ e. cc e, refl)
ticks_win_settles none (some g) n t n' t' need_init = (λ e. cc e, refl)
ticks_win_settles q none n t n' t' no_hpc = (λ e. cc e, refl)
ticks_win_settles q (some g) n t n' t' no_hpc = (λ e. cc e, refl)
