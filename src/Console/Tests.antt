-- ===== src/Console/Tests.antt =====
-- A buffer with two characters, and the theorem on cons_getc at it.
use cse_os.Base.{◌≡◌, refl, [], ◌∷◌, arith, if◌then◌else◌, ◌==◌}
use cse_os.Console.{Cons, cons_getc}
use cse_os.Console.Queue.{IsQueue, cons_getc_lem}

abbrev two : Cons
two = record { buf = λ i. if i == 510 then 65 else 66; rpos = 1022; wpos = 1024 }

two-IsQueue : IsQueue two (65 ∷ 66 ∷ [])
two-IsQueue = record { held = (refl, (refl, tt)); count = refl; room = omega arith }

cons_getc_lem_example :
    ((cons_getc (323 ∷ []) two).0 ≡ 65) × IsQueue (cons_getc (323 ∷ []) two).1 (66 ∷ 67 ∷ [])
cons_getc_lem_example =
    cons_getc_lem (323 ∷ []) two (65 ∷ 66 ∷ []) two-IsQueue (omega arith) (omega arith)
