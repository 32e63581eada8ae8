-- ===== src/Readline.antt =====
-- lib/readline.c: the line that is typed and the lines before it. The characters that getchar gives
-- are a list; they are bytes, so that the test for an error is left out, and so is what is echoed.
-- `char` is signed, as the compilers for MIPS have it. `echoing` is always 1.
pub mod Typed
pub mod Recall
mod Tests
use cse_os.Base.{
  ℕ, zero, suc, ◌+◌, ◌-◌, ◌<◌, Option, none, some, Bool, true, false, ◌&&◌, ◌||◌, List, [], ◌∷◌,
  ltb, ◌==◌, if◌then◌else◌, update,
}

abbrev pub buflen : ℕ
buflen = 1024

abbrev pub commandsnum : ℕ
commandsnum = 15

-- The static variables of the file.
pub record Lines : Type 0 where
  pub buf : ℕ → ℕ
  pub buf_his : ℕ → ℕ → ℕ
  pub cur : ℕ
  pub new : ℕ
  pub ddl : ℕ

-- They and the local variables of readline.
pub record Edit : Type 0 where
  pub lines : Lines
  pub i : ℕ
  pub flag91 : Bool

-- `buf[i++] = c`
abbrev pub put : ℕ → Edit → Edit
put c e = record e { lines = record e.lines { buf = update e.lines.buf e.i c }; i = e.i + 1 }

-- The loop that takes an earlier line over, with `left` places before the last.
unfoldable pub fetch : ℕ → (ℕ → ℕ) → Edit → Edit
fetch zero his e = e
fetch (suc left) his e =
    let rest = fetch left his (put (his e.i) e) in
    if ltb 31 (his e.i) && ltb (his e.i) 128 then rest else e

abbrev pub up : Lines → ℕ
up l =
    if l.ddl == commandsnum - 1
    then (if l.cur == 0 then l.ddl else l.cur - 1)
    else (if l.cur == 0 then l.cur else l.cur - 1)

abbrev pub down : Lines → ℕ
down l = if l.cur == commandsnum - 1 then 0 else if ltb l.cur l.ddl then l.cur + 1 else l.cur

-- Shows the line `cur` in place of the one that was typed.
unfoldable pub show : ℕ → Edit → Edit
unfolding fetch
show cur e =
    fetch (buflen - 1 - e.i) (e.lines.buf_his cur)
      (record e { lines = record e.lines { cur = cur } })

-- A letter from A to D after a `[`, which removes the line that was typed.
unfoldable pub arrow : ℕ → Edit → Edit
unfolding show
arrow c e =
    let e' = record e { i = 0 } in
    if c == 65 then show (up e'.lines) e' else if c == 66 then show (down e'.lines) e' else e'

abbrev pub back : Edit → Edit
back e = record e { i = e.i - 1 }

abbrev pub type_in : ℕ → Edit → Edit
type_in c e = if c == 91 then record (put c e) { flag91 = true } else put c e

-- One turn of the loop, with a character that does not end the line.
unfoldable pub turn : ℕ → Edit → Edit
unfolding arrow
turn c e =
    if e.flag91 && (ltb 64 c && ltb c 69)
    then arrow c e
    else if (c == 8) || (c == 127)
    then back e
    else if ltb 31 c && ltb e.i (buflen - 1)
    then type_in c e
    else e

-- The line goes among the earlier ones.
abbrev pub remember : Edit → Lines
remember e =
    let l = e.lines in
    let new = if l.new == commandsnum - 1 then 0 else l.new + 1 in
    record l {
      buf_his = update l.buf_his l.new (λ j. if ltb j buflen then l.buf j else l.buf_his l.new j);
      new = new;
      ddl = if ltb l.ddl (commandsnum - 1) then l.ddl + 1 else l.ddl;
      cur = new;
    }

-- The end of a line: `ret` afterwards, and the variables.
unfoldable pub enter : (ℕ → ℕ) → Edit → (ℕ → ℕ) × Lines
enter ret e =
    let l = record e.lines { buf = update e.lines.buf e.i 0 } in
    (
      (λ j. if ltb j buflen then l.buf j else ret j),
      (if e.i == 0 then l else remember (record e { lines = l })),
    )

-- The loop of readline; `none` is a loop that still waits after the last character.
unfoldable pub read_line : List ℕ → (ℕ → ℕ) → Edit → Option ((ℕ → ℕ) × Lines)
unfolding turn enter
read_line [] ret e = none
read_line (c ∷ cs) ret e =
    let rest = read_line cs ret (turn c e) in
    if (c == 10) || (c == 13) then some (enter ret e) else rest

-- The copy of the arguments of a program.
unfoldable pub copy_argv : ℕ → ℕ → (ℕ → ℕ) → (ℕ → ℕ) → ℕ → ℕ
copy_argv zero i myargv ret = update ret i 0
copy_argv (suc left) i myargv ret =
    let rest = copy_argv left (i + 1) myargv (update ret i (myargv i)) in
    if myargv i == 0 then update ret i 0 else rest

abbrev pub start : Lines → Edit
start l = record { lines = l; i = 0; flag91 = false }

-- readline
unfoldable pub readline : List ℕ → (ℕ → ℕ) → (ℕ → ℕ) → ℕ → Lines → Option ((ℕ → ℕ) × Lines)
unfolding read_line copy_argv
readline cs myargv ret getargv l =
    if getargv == 0
    then read_line cs ret (start l)
    else some (copy_argv (buflen - 1) 0 myargv ret, l)
