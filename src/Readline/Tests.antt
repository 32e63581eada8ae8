-- ===== src/Readline/Tests.antt =====
-- A fresh state and lines of two letters; the theorems on lib/readline.c at them.
use cse_os.Base.{ℕ, ◌≡◌, refl, some, [], ◌∷◌, arith, All}
use cse_os.Readline.{Lines, readline}
use cse_os.Readline.Typed.{Plain, IsLine}
use cse_os.Readline.Recall.{IsHistory, readline-up_key}

abbrev fresh : Lines
fresh = record { buf = λ j. 0; buf_his = λ r j. 0; cur = 0; new = 0; ddl = 0 }

fresh-IsHistory : IsHistory fresh
fresh-IsHistory = record { next_in = omega arith; count_in = omega arith; filling = λ h. refl }

word-Plain : All Plain (108 ∷ 115 ∷ [])
word-Plain = (
  (omega arith, omega arith, λ e. omega (arith, e)),
  ((omega arith, omega arith, λ e. omega (arith, e)), tt),
)

readline-up_key_example :
    (r : ℕ → ℕ) × (l : Lines) × (readline (108 ∷ 115 ∷ 10 ∷ []) (λ j. 0) (λ j. 7) 0 fresh
      ≡ some (r, l))
    × IsLine r (108 ∷ 115 ∷ [])
    × IsHistory l
    × ((r' : ℕ → ℕ) × (l' : Lines) × (readline (27 ∷ 91 ∷ 65 ∷ 10 ∷ []) (λ j. 0) (λ j. 8) 0 l
          ≡ some (r', l'))
        × IsLine r' (108 ∷ 115 ∷ []))
readline-up_key_example =
    readline-up_key (108 ∷ 115 ∷ []) (λ j. 0) (λ j. 7) (λ j. 8) fresh word-Plain (omega arith)
      (omega arith) fresh-IsHistory
