-- ===== src/Shell.antt =====
-- ushell/user/shell.c: how the shell prints a number. Memory is a function from addresses to bytes; an
-- `int` is its 32-bit pattern, and a division of `int`s rounds to 0.
pub mod Digits
pub mod Reverse
pub mod Decimal
mod Tests
use cse_os.Base.{
  ℕ, zero, suc, ◌+◌, ◌-◌, ◌*◌, ◌/◌, ◌%◌, ◌^◌, Option, none, some, Bool, true, false, leb, ◌==◌,
  if◌then◌else◌, update,
}
use cse_os.Mmu.{word}

abbrev pub negative : ℕ → Bool
negative num = leb (2 ^ 31) num

abbrev pub negate : ℕ → ℕ
negate num = (word - num) % word

-- `num % 10` and `num / 10`
abbrev pub rem_ten : ℕ → ℕ
rem_ten num = if negative num then negate (negate num % 10) else num % 10

abbrev pub div_ten : ℕ → ℕ
div_ten num = if negative num then negate (negate num / 10) else num / 10

-- The do loop of Int2String, at the place `a`: the place after the last digit.
unfoldable pub write_digits : ℕ → ℕ → ℕ → (ℕ → ℕ) → Option (ℕ × (ℕ → ℕ))
write_digits zero num a mem = none
write_digits (suc fuel) num a mem =
    let mem' = update mem a ((rem_ten num + 48) % 256) in
    let rest = write_digits fuel (div_ten num) (a + 1) mem' in
    if div_ten num == 0 then some (a + 1, mem') else rest

-- Two places exchange their bytes by sums and differences.
abbrev pub exchange : ℕ → ℕ → (ℕ → ℕ) → ℕ → ℕ
exchange p q mem =
    let m₁ = update mem p ((mem p + mem q) % 256) in
    let m₂ = update m₁ q ((m₁ p + 256 - m₁ q) % 256) in update m₂ p ((m₂ p + 256 - m₂ q) % 256)

-- The for loop of Int2String, `count` rounds from `j` on.
unfoldable pub exchange_all : ℕ → ℕ → ℕ → ℕ → (ℕ → ℕ) → ℕ → ℕ
exchange_all zero j i str mem = mem
exchange_all (suc count) j i str mem =
    exchange_all count (j + 1) i str (exchange (str + j) (str + (i - 1 - j)) mem)

-- Int2String from the end of the digits on.
abbrev pub finish : ℕ → Option (ℕ × (ℕ → ℕ)) → Option (ℕ → ℕ)
finish str none = none
finish str (some (end, mem)) =
    let mem' = update mem end 0 in
    let j = if mem' str == 45 then 1 else 0 in
    let i = (end - str) + j in some (exchange_all (i / 2 - j) j i str mem')

-- Int2String
unfoldable pub int_to_string : ℕ → ℕ → ℕ → (ℕ → ℕ) → Option (ℕ → ℕ)
unfolding write_digits exchange_all
int_to_string fuel num str mem =
    if negative num
    then finish str (write_digits fuel (negate num) (str + 1) (update mem str 45))
    else finish str (write_digits fuel num str mem)
