-- ===== src/Shell/Tests.antt =====
-- The theorem on ushell/user/shell.c at the number -207.
use cse_os.Base.{ℕ, ◌-◌, ◌≡◌, refl, some, arith}
use cse_os.Mmu.{word}
use cse_os.Shell.{int_to_string}
use cse_os.Shell.Decimal.{ReadsBack, int_to_string-strtol}

int_to_string-strtol_example :
    (mem : ℕ → ℕ) × (int_to_string 10 (word - 207) 100 (λ b. 7) ≡ some mem)
    × ReadsBack 12 (word - 207) 100 (λ b. 7) mem
int_to_string-strtol_example =
    int_to_string-strtol 12 (word - 207) 100 (λ b. 7) (omega arith) (omega arith) (omega arith)

prints :
    (mem : ℕ → ℕ) × (int_to_string 10 (word - 207) 100 (λ b. 7) ≡ some mem)
    × (mem 100 ≡ 45)
    × (mem 101 ≡ 50)
    × (mem 102 ≡ 48)
    × (mem 103 ≡ 55)
    × (mem 104 ≡ 0)
unfolding int_to_string
prints = (_, refl, refl, refl, refl, refl, refl)
