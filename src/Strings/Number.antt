-- ===== src/Strings/Number.antt =====
-- strtol of lib/string.c. `base` is not negative; an overflow wraps round. `none` is a loop that ran
-- out of fuel.
use cse_os.Base.{
  ℕ, zero, suc, ◌+◌, ◌-◌, ◌*◌, ◌%◌, Option, none, some, Bool, true, false, ◌&&◌, ◌||◌, leb, ◌==◌,
  if◌then◌else◌,
}
use cse_os.Mmu.{word}

-- The first loop, over spaces and tabs.
unfoldable pub skip_blanks : ℕ → ℕ → (ℕ → ℕ) → Option ℕ
skip_blanks zero s mem = none
skip_blanks (suc fuel) s mem =
    let rest = skip_blanks fuel (s + 1) mem in
    if (mem s == 32) || (mem s == 9) then rest else some s

-- The string after its sign, and whether it is negative.
abbrev pub sign : ℕ → (ℕ → ℕ) → ℕ × Bool
sign s mem =
    if mem s == 43 then (s + 1, false) else if mem s == 45 then (s + 1, true) else (s, false)

-- The string after its prefix, and the base.
abbrev pub prefix : ℕ → ℕ → (ℕ → ℕ) → ℕ × ℕ
prefix s base mem =
    if ((base == 0) || (base == 16)) && ((mem s == 48) && (mem (s + 1) == 120))
    then (s + 2, 16)
    else if (base == 0) && (mem s == 48)
    then (s + 1, 8)
    else if base == 0
    then (s, 10)
    else (s, base)

abbrev pub digit : ℕ → Option ℕ
digit c =
    if leb 48 c && leb c 57
    then some (c - 48)
    else if leb 97 c && leb c 122
    then some (c - 97 + 10)
    else if leb 65 c && leb c 90
    then some (c - 65 + 10)
    else none

-- The loop over the digits: where it ends, and the value.
unfoldable pub digits : ℕ → ℕ → ℕ → ℕ → (ℕ → ℕ) → Option (ℕ × ℕ)
digits zero s base val mem = none
digits (suc fuel) s base val mem = elim (digit (mem s)) [
  | none ↦ some (s, val)
  | some dig ↦ elim (leb base dig) [
    | true ↦ some (s, val)
    | false ↦ digits fuel (s + 1) base ((val * base + dig) % word) mem
  ]
]

abbrev pub signed : Bool → Option (ℕ × ℕ) → Option (ℕ × ℕ)
signed neg none = none
signed neg (some (end, val)) = some (end, if neg then (word - val) % word else val)

-- strtol: the end of the number and its value.
unfoldable pub strtol : ℕ → ℕ → ℕ → (ℕ → ℕ) → Option (ℕ × ℕ)
unfolding skip_blanks digits
strtol fuel s base mem = elim (skip_blanks fuel s mem) [
  | none ↦ none
  | some start ↦
      let (s₁, neg) = sign start mem in
      let (s₂, base') = prefix s₁ base mem in signed neg (digits fuel s₂ base' 0 mem)
]
