-- ===== src/Time/Tests.antt =====
-- include/gtime.h, src/gtime.cpp and src/gtime_sleep.cpp: each theorem at concrete times.
use opengcl.Prelude.{◌-◌, ◌^◌, ◌≡◌, arith}
use opengcl.Time.{elapsed_ticks, elapsed_nsec, elapsed_usec, elapsed_msec}
use opengcl.Time.Units.{elapsed_lem}

-- The counter wraps between the mark and now.
elapsed_lem_example :
    (elapsed_ticks 2999999 (2 ^ 64 - 1) ≡ 3000000)
    × (elapsed_nsec 2999999 (2 ^ 64 - 1) ≡ 3000000)
    × (elapsed_usec (2 ^ 32) 2999999 (2 ^ 64 - 1) ≡ 3000)
    × (elapsed_msec 2999999 (2 ^ 64 - 1) ≡ 3)
elapsed_lem_example = elapsed_lem (2 ^ 32) (2 ^ 64 - 1) 3000000 (omega arith) (omega arith)
