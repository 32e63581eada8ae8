-- ===== src/Drivers/Tests.antt =====
-- The theorem on drivers/timer.c at an interval of 20 units, and what kclock_init leaves.
use cse_os.Base.{◌≡◌, refl, none, some, arith}
use cse_os.Drivers.Timer.{
  Timer, set_timing_interval_s, set_timing_interval_ms, set_timing_interval_fits, init_timer,
}

abbrev stopped : Timer
stopped = record { tcsr0 = 0; tlr0 = 0 }

set_timing_interval_fits_example :
    (set_timing_interval_s 90 stopped ≡ none)
    × (set_timing_interval_ms 90 stopped ≡ some (record { tcsr0 = 0; tlr0 = 4499996 }))
set_timing_interval_fits_example = set_timing_interval_fits 90 stopped (omega arith)

one_second : init_timer stopped ≡ some (record { tcsr0 = 0xd2; tlr0 = 49999996 })
unfolding init_timer
one_second = refl
