-- ===== src/Console.antt =====
-- drivers/console.c: the buffer of the characters that were received, and what goes to the serial
-- port.
pub mod Queue
pub mod Wrap
mod Tests
use cse_os.Base.{
  ℕ, suc, ◌+◌, ◌-◌, ◌%◌, Option, none, some, List, [], ◌∷◌, ltb, ◌==◌, if◌then◌else◌, update,
}
use cse_os.Mmu.{word}

abbrev pub consbufsize : ℕ
consbufsize = 512

-- The structure `cons`.
pub record Cons : Type 0 where
  pub buf : ℕ → ℕ
  pub rpos : ℕ
  pub wpos : ℕ

-- One character that `proc` has given.
unfoldable pub store : ℕ → Cons → Cons
store c cons =
    if ltb ((cons.wpos + word - cons.rpos) % word) consbufsize
    then record cons {
      buf = update cons.buf (cons.wpos % consbufsize) (c % 256);
      wpos = (cons.wpos + 1) % word;
    }
    else cons

-- cons_intr, for the characters that `proc` gives before it returns -1.
unfoldable pub cons_intr : List ℕ → Cons → Cons
unfolding store
cons_intr [] cons = cons
cons_intr (c ∷ cs) cons = cons_intr cs (store c cons)

-- The rest of cons_getc after serial_intr.
abbrev take_one : Cons → ℕ × Cons
take_one cons =
    if ltb cons.rpos cons.wpos
    then (cons.buf (cons.rpos % consbufsize), record cons { rpos = (cons.rpos + 1) % word })
    else (0, cons)

-- cons_getc, where the serial port has the characters `received` for serial_intr.
unfoldable pub cons_getc : List ℕ → Cons → ℕ × Cons
unfolding cons_intr
cons_getc received cons = take_one (cons_intr received cons)

-- getchar, for the characters that the serial port has at each call of cons_getc; `none` is a loop
-- that still waits after the last of them.
unfoldable pub getchar : List (List ℕ) → Cons → Option (ℕ × Cons)
unfolding cons_getc
getchar [] cons = none
getchar (received ∷ later) cons =
    let (c, cons') = cons_getc received cons in
    let rest = getchar later cons' in if c == 0 then rest else some (c, cons')

-- cons_putc: the bytes that go to the serial port.
unfoldable pub cons_putc : ℕ → List ℕ
cons_putc c = if c == 10 then 13 ∷ 10 ∷ [] else if c == 8 then 8 ∷ 32 ∷ 8 ∷ [] else c % 256 ∷ []
