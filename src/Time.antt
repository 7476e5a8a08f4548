-- ===== src/Time.antt =====
-- include/gtime.h, src/gtime.cpp and src/gtime_sleep.cpp: time units, the clock and sleeping.
-- `tick_t` and `nsec_t` are 64 bits wide, `msec_t` is 32 bits wide, and `usec_t` is `unsigned long`:
-- `long_mod` is 2 ^ 64 on LP64 systems, and 2 ^ 32 on Windows and on 32-bit systems.
pub mod Units
pub mod Clock
pub mod Sleep
mod Tests
use opengcl.Prelude.{
  ℕ, zero, suc, ◌+◌, ◌-◌, ◌*◌, ◌/◌, ◌%◌, ◌^◌, Option, none, some, Bool, true, false, leb,
  if◌then◌else◌,
}

pub ticks_to_nsec : ℕ → ℕ
ticks_to_nsec ticks = ticks

pub ticks_to_msec : ℕ → ℕ
unfolding ticks_to_nsec
ticks_to_msec ticks = ticks_to_nsec ticks / 1000000 % 2 ^ 32

pub nsec_to_ticks : ℕ → ℕ
nsec_to_ticks nsec = nsec

pub nsec_to_msec : ℕ → ℕ
nsec_to_msec nsec = nsec / 1000000 % 2 ^ 32

pub usec_to_ticks : ℕ → ℕ
unfolding nsec_to_ticks
usec_to_ticks usec = nsec_to_ticks (usec * 1000 % 2 ^ 64)

pub usec_to_nsec : ℕ → ℕ
usec_to_nsec usec = usec * 1000 % 2 ^ 64

pub usec_to_msec : ℕ → ℕ
usec_to_msec usec = usec / 1000 % 2 ^ 32

pub msec_to_ticks : ℕ → ℕ
unfolding nsec_to_ticks
msec_to_ticks msec = nsec_to_ticks (msec * 1000000 % 2 ^ 64)

-- The first argument is the clock reading that `ticks()` returns.
pub elapsed_ticks : ℕ → ℕ → ℕ
elapsed_ticks now tm = (now + 2 ^ 64 - tm) % 2 ^ 64

pub elapsed_nsec : ℕ → ℕ → ℕ
unfolding ticks_to_nsec elapsed_ticks
elapsed_nsec now tm = ticks_to_nsec (elapsed_ticks now tm)

unfoldable pub elapsed_msec : ℕ → ℕ → ℕ
unfolding ticks_to_msec elapsed_ticks
elapsed_msec now tm = ticks_to_msec (elapsed_ticks now tm)

module _ (long_mod : ℕ) where
  pub ticks_to_usec : ℕ → ℕ
  unfolding ticks_to_nsec
  ticks_to_usec ticks = ticks_to_nsec ticks / 1000 % long_mod

  pub nsec_to_usec : ℕ → ℕ
  nsec_to_usec nsec = nsec / 1000 % long_mod

  -- The product is taken in `usec_t`.
  pub msec_to_nsec : ℕ → ℕ
  msec_to_nsec msec = msec * 1000000 % long_mod

  pub msec_to_usec : ℕ → ℕ
  msec_to_usec msec = msec * 1000 % long_mod

  pub elapsed_usec : ℕ → ℕ → ℕ
  unfolding ticks_to_usec elapsed_ticks
  elapsed_usec now tm = ticks_to_usec (elapsed_ticks now tm)

-- POSIX `ticks()`, from the two fields that `clock_gettime` fills in.
pub ticks : ℕ → ℕ → ℕ
ticks tv_sec tv_nsec = (tv_sec * 1000000000 + tv_nsec) % 2 ^ 64

-- POSIX `nanosleep`: the `timespec` that it hands to the system.
pub nanosleep : ℕ → ℕ × ℕ
nanosleep nsec = (nsec / 1000000000, nsec % 1000000000)

pub usleep : ℕ → ℕ × ℕ
unfolding nanosleep
usleep usec = nanosleep (usec * 1000 % 2 ^ 64)

pub msleep : ℕ → ℕ × ℕ
unfolding nanosleep
msleep msec = nanosleep (msec * 1000000 % 2 ^ 64)

-- Windows: the argument that `sleep` gives to `nanosleep`.
pub sleep_nsec : ℕ → ℕ → ℕ
sleep_nsec long_mod sec = sec * 1000000000 % long_mod

-- Windows `nanosleep` over the readings that `ticks()` returns in turn: how many it takes. `none`
-- when the fuel runs out.
pub spin : (ℕ → ℕ) → ℕ → ℕ → ℕ → Option ℕ
spin clock expire zero i = none
spin clock expire (suc f) i =
    let rest = spin clock expire f (i + 1) in if leb (clock i) expire then rest else some (i + 1)

pub nanosleep_spin : (ℕ → ℕ) → ℕ → ℕ → Option ℕ
unfolding spin nsec_to_ticks
nanosleep_spin clock fuel nsec = spin clock ((clock 0 + nsec_to_ticks nsec) % 2 ^ 64) fuel 1

-- Windows `_ticks2nsec`, with the frequency of the performance counter.
pub ticks2nsec : ℕ → ℕ → ℕ
ticks2nsec frequency count = count * 1000000000 % 2 ^ 64 / frequency

-- `__hpc` and `__pf`.
pub data Hpc : Type 0 where
  no_hpc : Hpc
  need_init : Hpc
  ready : ℕ → Hpc

-- Windows `ticks()`. `frequency` is what `QueryPerformanceFrequency` gives (`none` where it fails),
-- `counter` and `tick_count` what the two clocks read.
pub ticks_win : Option ℕ → ℕ → ℕ → Hpc → ℕ × Hpc
unfolding ticks2nsec
ticks_win frequency counter tick_count (ready f) = (ticks2nsec f counter, ready f)
ticks_win (some f) counter tick_count need_init = (ticks2nsec f counter, ready f)
ticks_win none counter tick_count need_init = (tick_count * 1000000 % 2 ^ 64, no_hpc)
ticks_win frequency counter tick_count no_hpc = (tick_count * 1000000 % 2 ^ 64, no_hpc)
