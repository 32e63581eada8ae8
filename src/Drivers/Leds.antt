-- ===== src/Drivers/Leds.antt =====
-- drivers/leds.c: three groups of eight lights.
use cse_os.Base.{
  ℕ, zero, suc, ◌+◌, ◌*◌, ◌%◌, ◌^◌, ◌<◌, ◌≡◌, refl, ◌∙◌, Bool, true, false, not, ◌||◌, ltb, leb,
  ◌==◌, if◌then◌else◌, update, bit_or, arith, Bool-cases, inl, inr, ap, sym,
}
use cse_os.Mmu.{word}
use cse_os.Drivers.{not_used, clear, sign_extend}

pub record Leds : Type 0 where
  pub lights : ℕ
  pub led_status : ℕ → ℕ

-- led_init
unfoldable pub led_init : Leds → Leds
led_init s = record {
  lights = 0;
  led_status = update (update (update s.led_status 0 not_used) 1 not_used) 2 not_used;
}

-- rt_leds_write_byte, with the byte that `v` points to.
unfoldable pub rt_leds_write_byte : ℕ → ℕ → Leds → Bool × Leds
rt_leds_write_byte v i s = if leb 3 i then (false, s) else (
  true,
  record s { lights = bit_or (clear 8 (i * 8) s.lights) (sign_extend v * 2 ^ (i * 8) % word) },
)

-- rt_leds_write_by_num
unfoldable pub rt_leds_write_by_num : ℕ → ℕ → Leds → Bool × Leds
unfolding rt_leds_write_byte
rt_leds_write_by_num buf num s =
    if leb 3 num
    then (false, s)
    else if s.led_status num == not_used
    then (false, s)
    else rt_leds_write_byte buf num s

-- The loop of rt_leds_require that looks for a group that is in use: true where there is none.
unfoldable pub all_free : ℕ → ℕ → (ℕ → ℕ) → Bool
all_free zero i status = true
all_free (suc left) i status =
    let rest = all_free left (i + 1) status in if not (status i == not_used) then false else rest

-- The loop that marks the groups as used.
unfoldable pub occupy : ℕ → ℕ → (ℕ → ℕ) → ℕ → ℕ
occupy zero i status = status
occupy (suc left) i status = occupy left (i + 1) (update status i 0)

-- rt_leds_require
unfoldable pub rt_leds_require : ℕ → Leds → Bool × Leds
unfolding all_free occupy
rt_leds_require num s =
    if (num == 0) || ltb 3 num
    then (false, s)
    else if not (all_free num 0 s.led_status)
    then (false, s)
    else (true, record s { led_status = occupy num 0 s.led_status })

abbrev pub release_one : ℕ → Leds → Leds
release_one i s =
    let (_, s') = rt_leds_write_byte 0 i s in
    record s' { led_status = update s'.led_status i not_used }

-- The loop of rt_leds_release.
unfoldable pub release_from : ℕ → ℕ → Leds → Leds
unfolding rt_leds_write_byte
release_from zero i s = s
release_from (suc left) i s =
    release_from left (i + 1) (if not (s.led_status i == not_used) then release_one i s else s)

-- rt_leds_release
unfoldable pub rt_leds_release : ℕ → Leds → Bool × Leds
unfolding release_from
rt_leds_release num s = if (num == 0) || ltb 3 num then (false, s) else (true, release_from num 0 s)

occupy-below : (left i j : ℕ) (status : ℕ → ℕ) → j < i → occupy left i status j ≡ status j
unfolding occupy
occupy-below zero i j status h = refl
occupy-below (suc left) i j status h =
    let miss : (j == i) ≡ false = ground arith in
    occupy-below left (i + 1) j (update status i 0) (omega arith) ∙ rw miss refl

all_free-used : (left i : ℕ) (status : ℕ → ℕ) → status i ≡ 0 → all_free (suc left) i status ≡ false
unfolding all_free
all_free-used left i status z = rw (all_free, z) refl

-- Where the first group is in use, no group is given.
require_used : (num : ℕ) (s : Leds) → s.led_status 0 ≡ 0 → rt_leds_require num s ≡ (false, s)
unfolding rt_leds_require
require_used zero s z = refl
require_used (suc n) s z = elim (Bool-cases ((suc n == 0) || ltb 3 (suc n))) [
  | inl t ↦ rw t refl
  | inr t ↦ rw (t, all_free-used n 0 s.led_status z) refl
]

occupy-first : (n : ℕ) (status : ℕ → ℕ) → occupy (suc n) 0 status 0 ≡ 0
unfolding occupy
occupy-first n status = occupy-below n 1 0 (update status 0 0) (omega arith)

require-first : (num : ℕ) (s s' : Leds) → rt_leds_require num s ≡ (true, s') → s'.led_status 0 ≡ 0
unfolding rt_leds_require
require-first zero s s' h = cc h
require-first (suc n) s s' h = elim (Bool-cases ((suc n == 0) || ltb 3 (suc n))) [
  | inl t ↦ cc (rw t at h)
  | inr t ↦ elim (Bool-cases (all_free (suc n) 0 s.led_status)) [
    | inl f ↦
        let e : (true, record s { led_status = occupy (suc n) 0 s.led_status }) ≡ (true, s') =
          rw (t, f) at h in
        ap (λ (r : Bool × Leds). r.1.led_status 0) (sym e) ∙ occupy-first n s.led_status
    | inr f ↦ cc (rw (t, f) at h)
  ]
]

-- A group that was asked for with success is not given to another one before it is released: the next
-- rt_leds_require fails, whatever its number, and changes nothing.
pub rt_leds_require-rt_leds_require :
    (num num' : ℕ) (s s' : Leds)
    → rt_leds_require num s ≡ (true, s')
    → rt_leds_require num' s' ≡ (false, s')
rt_leds_require-rt_leds_require num num' s s' h = require_used num' s' (require-first num s s' h)
