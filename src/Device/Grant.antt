-- ===== src/Device/Grant.antt =====
-- What rt_require_device and rt_release_device do to the matrices.
use cse_os.Base.{
  ℕ, ◌+◌, ◌-◌, ◌≤◌, ◌<◌, ◌≡◌, true, false, Option, some, ◌==◌, if◌then◌else◌, ◌%◌, Bool, ◌&&◌, ◌∷◌,
}
use cse_os.Mmu.{word}
use cse_os.Device.{Bank}
use cse_os.Device.Safety.{CanAllFinish, GetsStuck}

-- In `s`, the customer `c` holds `request` units more of the device than in `b`, needs as many less,
-- and there are as many less available; nothing else of the accounts differs.
pub record Taken (b : Bank) (c device request : ℕ) (s : Bank) : Type 0 where
  pub available :
      (n : ℕ)
      → s.available n
        ≡ (if n == device then (b.available n + word - request) % word else b.available n)
  pub need :
      (i n : ℕ)
      → s.need i n
        ≡ (if (i == c) && (n == device) then (b.need i n + word - request) % word else b.need i n)
  pub allocation :
      (i n : ℕ)
      → s.allocation i n ≡ (
          if (i == c) && (n == device)
          then (b.allocation i n + request) % word
          else b.allocation i n)
  pub status : s.status ≡ b.status

-- `s` is the state that the safety check looks at: the one with the request taken, if it is covered
-- by the customer's need and by what is available, and else the present one.
pub record Looked (b : Bank) (c device request : ℕ) (s : Bank) : Type 0 where
  pub covered :
      request ≤ b.need c device → request ≤ b.available device → Taken b c device request s
  pub beyond_need : b.need c device < request → s ≡ b
  pub beyond_available : b.available device < request → s ≡ b

-- A granted request: the accounts have changed by it, and the driver's function `f` has been called
-- with it; the customers can all finish from the state that was looked at.
pub record Grants (b : Bank) (c device request f : ℕ) (s : Bank) (o : Option Bool × Bank)
    : Type 0 where
  pub answer : o.0 ≡ some true
  pub taken : Taken b c device request o.1
  pub called : o.1.calls ≡ record { function = f; count = request } ∷ b.calls
  pub finish : CanAllFinish s.need s.allocation s.available s.status

-- A refused request: the accounts are as before, and the customers get stuck from the state that was
-- looked at.
pub record Refuses (b s : Bank) (o : Option Bool × Bank) : Type 0 where
  pub answer : o ≡ (some false, b)
  pub stuck : GetsStuck s.need s.allocation s.available s.status
