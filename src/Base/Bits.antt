-- ===== src/Base/Bits.antt =====
-- Facts about `bit_or` at variables: the low bits of a word are filled in by addition, and a shift
-- of the result is the result of the shifts.
use Prim.Native.Nat.{
  ℕ, zero, suc, ◌+◌, ◌*◌, ◌/◌, ◌%◌, ◌≤◌, ◌<◌, max, bit_or, digits, bit_or-bitwise,
}
use mathlib.Core.Path.{◌≡◌, refl, ap, ◌∙◌}
use native.Mathlib.Omega.{arith}

abbrev or_digits : ℕ → ℕ → ℕ → ℕ
or_digits n a b = digits (λ b. b) max n a b

zero-bit_or : (b : ℕ) → bit_or 0 b ≡ b
zero-bit_or b = bit_or-bitwise 0 b

-- Any number of rounds that covers the first operand gives the same digits.
or_digits_rounds : (n m a b : ℕ) → a ≤ n → a ≤ m → or_digits n a b ≡ or_digits m a b
or_digits_rounds zero zero a b p q = refl
or_digits_rounds zero (suc m) zero b p q = refl
or_digits_rounds zero (suc m) (suc a) b p q = absurd (omega arith)
or_digits_rounds (suc n) zero zero b p q = refl
or_digits_rounds (suc n) zero (suc a) b p q = absurd (omega arith)
or_digits_rounds (suc n) (suc m) zero b p q = refl
or_digits_rounds (suc n) (suc m) (suc a) b p q =
    omega (arith, or_digits_rounds n m (suc a / 2) (b / 2) (omega arith) (omega arith))

or_lowest : (a b : ℕ) → bit_or a b ≡ 2 * bit_or (a / 2) (b / 2) + max (a % 2) (b % 2)
or_lowest zero b = omega (arith, zero-bit_or b, zero-bit_or (b / 2))
or_lowest (suc a) b = omega (
  arith,
  bit_or-bitwise (suc a) b,
  bit_or-bitwise (suc a / 2) (b / 2),
  or_digits_rounds a (suc a / 2) (suc a / 2) (b / 2) (omega arith) (omega arith),
)

-- A shift by one of the result, and its lowest bit.
pub or_halves : (a b : ℕ) → bit_or a b / 2 ≡ bit_or (a / 2) (b / 2)
or_halves a b = omega (arith, or_lowest a b)

pub or_parity : (a b : ℕ) → bit_or a b % 2 ≡ max (a % 2) (b % 2)
or_parity a b = omega (arith, or_lowest a b)

bit_or-zero_below : (n a : ℕ) → a ≤ n → bit_or a 0 ≡ a
bit_or-zero_below n zero h = zero-bit_or 0
bit_or-zero_below zero (suc a) h = absurd (omega arith)
bit_or-zero_below (suc n) (suc a) h =
    omega (arith, or_lowest (suc a) 0, bit_or-zero_below n (suc a / 2) (omega arith))

pub bit_or-zero : (a : ℕ) → bit_or a 0 ≡ a
bit_or-zero a = bit_or-zero_below a a (omega arith)

pub zero_bit_or : (a : ℕ) → bit_or 0 a ≡ a
zero_bit_or a = zero-bit_or a

-- The two operands have no bit in common among the lowest `k`, and above them the second is zero.
abbrev Apart : ℕ → ℕ → ℕ → Type 0
Apart zero a p = p ≡ 0
Apart (suc k) a p = (a % 2 ≡ 0) × Apart k (a / 2) (p / 2)

or_Apart : (k a p : ℕ) → Apart k a p → bit_or a p ≡ a + p
or_Apart zero a p h = omega (arith, ap (λ t. bit_or a t) h, bit_or-zero a)
or_Apart (suc k) a p h = omega (arith, or_lowest a p, or_Apart k (a / 2) (p / 2) h.1)

-- `a | p` for a page-aligned `a` and twelve low bits `p` is a sum.
pub or_aligned : (a p : ℕ) → a % 4096 ≡ 0 → p < 4096 → bit_or a p ≡ a + p
or_aligned a p e h = or_Apart 12 a p (omega arith)

abbrev shifted : ℕ → ℕ → ℕ
shifted zero a = a
shifted (suc k) a = shifted k (a / 2)

or_shifted : (k a b : ℕ) → shifted k (bit_or a b) ≡ bit_or (shifted k a) (shifted k b)
or_shifted zero a b = refl
or_shifted (suc k) a b = ap (shifted k) (or_halves a b) ∙ or_shifted k (a / 2) (b / 2)

-- Bit 9 is set once the mask 0x200 has been put in.
pub or_valid : (p : ℕ) → bit_or p 512 / 512 % 2 ≡ 1
or_valid p = omega (arith, or_shifted 9 p 512, or_parity (shifted 9 p) (shifted 9 512))

-- Putting in bits below bit 12 leaves a number below 2 ^ 12 there.
pub or-lt-page : (p q : ℕ) → p < 4096 → q < 4096 → bit_or p q < 4096
or-lt-page p q h g =
    let e : shifted 12 p ≡ 0 = omega arith in
    let f : shifted 12 q ≡ 0 = omega arith in
    omega (
      arith,
      or_shifted 12 p q,
      ap (λ t. bit_or t (shifted 12 q)) e,
      ap (bit_or 0) f,
      zero-bit_or 0,
    )

-- Bits below bit 12 leave the page number of a word alone.
pub or-page : (a p : ℕ) → p < 4096 → bit_or a p / 4096 ≡ a / 4096
or-page a p h =
    let e : shifted 12 p ≡ 0 = omega arith in
    omega (arith, or_shifted 12 a p, ap (bit_or (shifted 12 a)) e, bit_or-zero (shifted 12 a))

-- A word whose bit 9 is set keeps it.
pub or_valid_left : (a p : ℕ) → a / 512 % 2 ≡ 1 → bit_or a p / 512 % 2 ≡ 1
or_valid_left a p h = omega (arith, or_shifted 9 a p, or_parity (shifted 9 a) (shifted 9 p))

pub or_aligned_half : (a p : ℕ) → a % 2048 ≡ 0 → p < 2048 → bit_or a p ≡ a + p
or_aligned_half a p e h = or_Apart 11 a p (omega arith)
