-- ===== src/Drivers/Timer.antt =====
-- drivers/timer.c and lib/kclock.c: the timer that raises the clock's interrupts. A register reads as
-- it was written last; set_exl, which is assembly, is left out.
use cse_os.Base.{
  ℕ, ◌+◌, ◌-◌, ◌*◌, ◌/◌, ◌%◌, ◌^◌, ◌<◌, ◌≡◌, refl, Option, none, some, Bool, true, false, not, ltb,
  ◌==◌, if◌then◌else◌, bit_or, arith, Bool-cases, inl, inr,
}
use cse_os.Mmu.{word}
use cse_os.Drivers.{clear}

pub record Timer : Type 0 where
  pub tcsr0 : ℕ
  pub tlr0 : ℕ

abbrev pub axi_clock_period_hz : ℕ
axi_clock_period_hz = 50000000

abbrev pub axi_clock_period_khz : ℕ
axi_clock_period_khz = 50000

abbrev pub set_tcsr0 : ℕ → Timer → Timer
set_tcsr0 v t = record t { tcsr0 = v }

abbrev pub set_tlr0 : ℕ → Timer → Timer
set_tlr0 v t = record t { tlr0 = v }

-- get_timer0_int
abbrev pub get_timer0_int : Timer → Bool
get_timer0_int t = not (t.tcsr0 / 2 ^ 8 % 2 == 0)

-- clear_timer0_int: a 1 is written to the flag.
abbrev pub clear_timer0_int : Timer → Timer
clear_timer0_int t = set_tcsr0 (bit_or t.tcsr0 (2 ^ 8)) t

abbrev pub enable_timer0 : Timer → Timer
enable_timer0 t = set_tcsr0 (bit_or t.tcsr0 (2 ^ 7)) t

abbrev pub disable_timer0 : Timer → Timer
disable_timer0 t = set_tcsr0 (clear 1 7 t.tcsr0) t

-- set_timing_interval_s; `none` is a call of panic().
unfoldable pub set_timing_interval_s : ℕ → Timer → Option Timer
set_timing_interval_s s t =
    if ltb 85 s
    then none
    else some (set_tlr0 ((s * axi_clock_period_hz % word + word - 4) % word) t)

-- set_timing_interval_ms
unfoldable pub set_timing_interval_ms : ℕ → Timer → Option Timer
set_timing_interval_ms ms t =
    if ltb 85899 ms
    then none
    else some (set_tlr0 ((ms * axi_clock_period_khz % word + word - 4) % word) t)

abbrev started : Option Timer → Option Timer
started none = none
started (some t) = some (enable_timer0 (set_tcsr0 (bit_or (bit_or (2 ^ 6) (2 ^ 4)) (2 ^ 1)) t))

-- init_timer, which is all that kclock_init does.
unfoldable pub init_timer : Timer → Option Timer
unfolding set_timing_interval_ms
init_timer t = started (set_timing_interval_ms 1000 (set_tcsr0 0 t))

-- For an interval of at least one unit, the load register gets four less than the number of clock
-- cycles where that number is a 32-bit one, and the calls panic exactly where it is not: the limits of
-- 85 seconds and 85899 milliseconds are the largest without an overflow.
pub set_timing_interval_fits :
    (n : ℕ) (t : Timer)
    → 0 < n
    → (set_timing_interval_s n t ≡ (
        if ltb (n * axi_clock_period_hz) word
        then some (set_tlr0 (n * axi_clock_period_hz - 4) t)
        else none))
      × (set_timing_interval_ms n t ≡ (
          if ltb (n * axi_clock_period_khz) word
          then some (set_tlr0 (n * axi_clock_period_khz - 4) t)
          else none))
unfolding set_timing_interval_s set_timing_interval_ms
set_timing_interval_fits n t pos = (
  elim (Bool-cases (ltb 85 n)) [
    | inl h ↦
        let over : ltb (n * axi_clock_period_hz) word ≡ false = ground (arith, h) in
        rw (h, over) refl
    | inr h ↦
        let fits : ltb (n * axi_clock_period_hz) word ≡ true = ground (arith, h) in
        let w : (n * axi_clock_period_hz % word + word - 4) % word ≡ n * axi_clock_period_hz - 4 =
          ground (arith, h) in
        rw (h, fits, w) refl
  ],
  elim (Bool-cases (ltb 85899 n)) [
    | inl h ↦
        let over : ltb (n * axi_clock_period_khz) word ≡ false = ground (arith, h) in
        rw (h, over) refl
    | inr h ↦
        let fits : ltb (n * axi_clock_period_khz) word ≡ true = ground (arith, h) in
        let w : (n * axi_clock_period_khz % word + word - 4) % word ≡ n * axi_clock_period_khz - 4 =
          ground (arith, h) in
        rw (h, fits, w) refl
  ],
)
