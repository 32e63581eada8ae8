-- ===== src/Strings/Length.antt =====
-- strlen and strcpy of lib/string.c on a string that ends.
use cse_os.Base.{
  ℕ, zero, suc, ◌+◌, ◌<◌, ◌≡◌, ◌≢◌, refl, ◌∙◌, some, false, arith, ltb, ◌==◌, if◌then◌else◌, ap,
}
use cse_os.Strings.{strlen_from, strlen, strnlen}

-- At `s` stands a string of `n` bytes, with its end after them.
abbrev pub IsString : (ℕ → ℕ) → ℕ → ℕ → Type 0
IsString mem s zero = mem s ≡ 0
IsString mem s (suc n) = (mem s ≢ 0) × IsString mem (s + 1) n

strlen_from-IsString :
    (fuel s c n : ℕ) (mem : ℕ → ℕ)
    → IsString mem s n
    → n < fuel
    → strlen_from fuel s c mem ≡ some (c + n)
unfolding strlen_from
strlen_from-IsString zero s c n mem h f = absurd (omega arith)
strlen_from-IsString (suc fuel) s c zero mem h f = let e : c + 0 ≡ c = omega arith in rw (h, e) refl
strlen_from-IsString (suc fuel) s c (suc n) mem h f =
    let e : c + suc n ≡ c + 1 + n = omega arith in
    let z : (mem s == 0) ≡ false = ground (arith, h.0) in
    rw (z, e) (strlen_from-IsString fuel (s + 1) (c + 1) n mem h.1 (omega arith))

strnlen-IsString :
    (size s n : ℕ) (mem : ℕ → ℕ)
    → IsString mem s n
    → strnlen s size mem ≡ (if ltb n size then n else size)
unfolding strnlen
strnlen-IsString zero s n mem h = ground arith
strnlen-IsString (suc size) s zero mem h = rw h (ground arith)
strnlen-IsString (suc size) s (suc n) mem h =
    let z : (mem s == 0) ≡ false = ground (arith, h.0) in
    let ih = strnlen-IsString size (s + 1) n mem h.1 in rw z (ground arith)

-- On a string of `n` bytes strlen returns `n`, with more fuel than that, and strnlen the smaller of
-- `n` and its limit.
pub strlen-IsString :
    (fuel s n size : ℕ) (mem : ℕ → ℕ)
    → IsString mem s n
    → n < fuel
    → (strlen fuel s mem ≡ some n) × (strnlen s size mem ≡ (if ltb n size then n else size))
unfolding strlen
strlen-IsString fuel s n size mem h f =
    let e : 0 + n ≡ n = omega arith in
    (strlen_from-IsString fuel s 0 n mem h f ∙ ap some e, strnlen-IsString size s n mem h)
