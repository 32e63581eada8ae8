-- ===== src/Shell/Digits.antt =====
-- The digits that the first loop of Int2String in ushell/user/shell.c writes, the last one first.
use cse_os.Base.{
  ℕ, zero, suc, ◌+◌, ◌*◌, ◌/◌, ◌%◌, ◌^◌, ◌≤◌, ◌<◌, ◌≡◌, refl, sym, ap, ◌∙◌, some, false, ◌&&◌,
  arith, leb, ltb, ◌==◌, ==_iff, if◌then◌else◌, Bool-cases, inl, inr, update,
}
use cse_os.Shell.{write_digits}

-- The number without its last `k` digits.
abbrev pub quot : ℕ → ℕ → ℕ
quot n zero = n
quot n (suc k) = quot n k / 10

abbrev pub power : ℕ → ℕ
power zero = 1
power (suc k) = 10 * power k

quot-step : (n k : ℕ) → quot (n / 10) k ≡ quot n (suc k)
quot-step n zero = refl
quot-step n (suc k) = ap (λ q. q / 10) (quot-step n k)

-- `d` digits stand at `a`, the last one first.
pub record Written (n a d : ℕ) (mem mem' : ℕ → ℕ) : Type 0 where
  pub some_digit : 0 < d
  pub all : quot n d ≡ 0
  pub digit : (t : ℕ) → t < d → mem' (a + t) ≡ quot n t % 10 + 48
  pub rest : (b : ℕ) → (leb a b && ltb b (a + d)) ≡ false → mem' b ≡ mem b

write_digits-turn :
    (fuel n a : ℕ) (mem : ℕ → ℕ)
    → n < 2 ^ 31
    → write_digits (suc fuel) n a mem ≡ (
        if n / 10 == 0
        then some (a + 1, update mem a (n % 10 + 48))
        else write_digits fuel (n / 10) (a + 1) (update mem a (n % 10 + 48)))
unfolding write_digits
write_digits-turn fuel n a mem small =
    let pos : leb (2 ^ 31) n ≡ false = ground arith in
    let w : (n % 10 + 48) % 256 ≡ n % 10 + 48 = omega arith in rw (write_digits, pos, w) refl

has_fuel : (fuel n : ℕ) → n < power (suc fuel) → (n / 10 == 0) ≡ false → 0 < fuel
has_fuel zero n room f = let z : n / 10 ≡ 0 = omega arith in cc ((==_iff (n / 10) 0).1 z, f)
has_fuel (suc fuel) n room f = omega arith

-- The digits of `n / 10` after the last one of `n`.
Written-next :
    (n a d : ℕ) (mem mem' : ℕ → ℕ)
    → Written (n / 10) (a + 1) d (update mem a (n % 10 + 48)) mem'
    → Written n a (suc d) mem mem'
Written-next n a d mem mem' w = record {
  some_digit = omega arith;
  all = sym (quot-step n d) ∙ w.all;
  digit = by_place;
  rest = λ b out. w.rest b (ground (arith, out)) ∙ ground (arith, out);
}
  where
    by_place : (t : ℕ) → t < suc d → mem' (a + t) ≡ quot n t % 10 + 48
    by_place zero h =
        let out : (leb (a + 1) a && ltb a (a + 1 + d)) ≡ false = ground arith in
        let z : a + 0 ≡ a = omega arith in ap mem' z ∙ w.rest a out ∙ ground arith
    by_place (suc t) h =
        let s : a + suc t ≡ a + 1 + t = omega arith in
        ap mem' s ∙ w.digit t (omega arith) ∙ ap (λ q. q % 10 + 48) (quot-step n t)

pub write_digits-Written :
    (fuel n a : ℕ) (mem : ℕ → ℕ)
    → n < 2 ^ 31
    → n < power fuel
    → 0 < fuel
    → (d : ℕ) × (mem' : ℕ → ℕ) × (write_digits fuel n a mem ≡ some (a + d, mem'))
      × Written n a d mem mem'
      × (d ≤ fuel)
write_digits-Written zero n a mem small room pos = absurd (omega arith)
write_digits-Written (suc fuel) n a mem small room pos = elim (Bool-cases (n / 10 == 0)) [
  | inl t ↦ (
    1,
    update mem a (n % 10 + 48),
    write_digits-turn fuel n a mem small ∙ rw t refl,
    record {
      some_digit = omega arith;
      all = (==_iff (n / 10) 0).0 t;
      digit = λ t' h. let z : t' ≡ 0 = omega arith in rw z (ground arith);
      rest = λ b out. ground (arith, out);
    },
    omega arith,
  )
  | inr f ↦
      let mem₁ = update mem a (n % 10 + 48) in
      let more : 0 < fuel = has_fuel fuel n room f in
      let (d, mem', e, w, le) =
        write_digits-Written fuel (n / 10) (a + 1) mem₁ (omega arith) (omega arith) more in
      let sum : a + 1 + d ≡ a + suc d = omega arith in
      (
        suc d,
        mem',
        write_digits-turn fuel n a mem small ∙ rw f (e ∙ ap (λ b. some (b, mem')) sum),
        Written-next n a d mem mem' w,
        omega arith,
      )
]
