-- ===== src/Time/Sleep.antt =====
-- src/gtime_sleep.cpp and include/gtime.h: sleeping.
use opengcl.Prelude.{
  ℕ, zero, suc, ◌+◌, ◌*◌, ◌%◌, ◌^◌, ◌≤◌, ◌<◌, ◌≡◌, ◌≢◌, ap, arith, some, inl, inr, Bool-cases, true,
  false, leb, leb→le,
}
use opengcl.Time.{nanosleep, usleep, msleep, sleep_nsec, spin, nanosleep_spin, nsec_to_ticks}

-- The time in nanoseconds that a `timespec` stands for.
abbrev timespec_nsec : ℕ × ℕ → ℕ
timespec_nsec (sec, nsec) = sec * 1000000000 + nsec

-- On POSIX, `nanosleep`, `usleep` of a time that fits in 64 bits as nanoseconds, and `msleep` of any
-- 32-bit number hand over a `timespec` that stands for the time asked for, with nanoseconds below 10^9.
pub sleeps_lem :
    (nsec usec msec : ℕ)
    → usec * 1000 < 2 ^ 64
    → msec < 2 ^ 32
    → ((timespec_nsec (nanosleep nsec) ≡ nsec) × ((nanosleep nsec).1 < 1000000000))
      × ((timespec_nsec (usleep usec) ≡ usec * 1000) × ((usleep usec).1 < 1000000000))
      × ((timespec_nsec (msleep msec) ≡ msec * 1000000) × ((msleep msec).1 < 1000000000))
unfolding nanosleep usleep msleep
sleeps_lem nsec usec msec h k =
    ((omega arith, omega arith), (omega arith, omega arith), (omega arith, omega arith))

-- With an `unsigned long` of 32 bits the Windows `sleep` waits for the time asked for up to four
-- seconds, and for less than 4294967296 nanoseconds whatever it is asked for.
pub sleep_nsec-long32 :
    (sec : ℕ)
    → (sec ≤ 4 → sleep_nsec (2 ^ 32) sec ≡ sec * 1000000000)
      × (sleep_nsec (2 ^ 32) sec < 4294967296)
unfolding sleep_nsec
sleep_nsec-long32 sec = (λ le. omega arith, omega arith)

spin_lem :
    (clock : ℕ → ℕ) (expire m f i : ℕ)
    → ((j : ℕ) → j < m → i ≤ j → clock j ≤ expire)
    → expire < clock m
    → i ≤ m
    → m < f + i
    → spin clock expire f i ≡ some (m + 1)
unfolding spin
spin_lem clock expire m zero i before after le h = absurd (omega arith)
spin_lem clock expire m (suc f) i before after le h = elim (Bool-cases (leb (clock i) expire)) [
  | inl more ↦
      let ne : i ≢ m = λ e. ne_of e more in
      rw more (
        spin_lem clock expire m f (i + 1) (λ j lt ge. before j lt (omega arith)) after
          (omega (arith, ne)) (omega arith))
  | inr stop ↦ rw stop (ap (λ k. some (k + 1)) (stopped stop))
]
  where
    ne_of : i ≡ m → leb (clock i) expire ≡ true → ⊥
    ne_of e more = omega (arith, ap clock e, leb→le (clock i) expire more)

    stopped : leb (clock i) expire ≡ false → i ≡ m
    stopped stop = ground (arith, before i)

-- If reading `m` of the clock, above 0, is the first one behind the time at which the Windows
-- `nanosleep` expires, then on fuel of at least `m` it ends with that reading.
pub nanosleep_spin_lem :
    (clock : ℕ → ℕ) (nsec m fuel : ℕ)
    → 0 < m
    → ((j : ℕ) → j < m → 1 ≤ j → clock j ≤ (clock 0 + nsec) % 2 ^ 64)
    → (clock 0 + nsec) % 2 ^ 64 < clock m
    → m ≤ fuel
    → nanosleep_spin clock fuel nsec ≡ some (m + 1)
unfolding nanosleep_spin nsec_to_ticks
nanosleep_spin_lem clock nsec m fuel p before after h =
    spin_lem clock ((clock 0 + nsec) % 2 ^ 64) m fuel 1 before after p (omega arith)
