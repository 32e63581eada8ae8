-- ===== src/Readline/Typed.antt =====
-- The characters of lib/readline.c that are typed into the line.
use cse_os.Base.{
  ℕ, ◌+◌, ◌-◌, ◌<◌, ◌≤◌, ◌≡◌, refl, ◌≢◌, ap, ◌∙◌, some, Bool, true, false, ◌&&◌, ◌||◌, List, [],
  ◌∷◌, ◌++◌, arith, ltb, ◌==◌, if◌then◌else◌, update, length, All,
}
use cse_os.Readline.{Lines, Edit, buflen, put, turn, enter, read_line, start, readline}

-- A printable character other than `[`.
abbrev pub Plain : ℕ → Type 0
Plain c = (31 < c) × (c < 127) × (c ≢ 91)

-- The characters `xs` stand from place `p` on.
abbrev pub Spells : (ℕ → ℕ) → ℕ → List ℕ → Type 0
Spells b p [] = Unit
Spells b p (x ∷ xs) = (b p ≡ x) × Spells b (p + 1) xs

-- The string `xs` with its end.
abbrev pub IsLine : (ℕ → ℕ) → List ℕ → Type 0
IsLine b xs = Spells b 0 xs × (b (length xs) ≡ 0)

abbrev pub typed : List ℕ → Edit → Edit
typed [] e = e
typed (y ∷ ys) e = typed ys (put y e)

-- Not taken for an arrow key.
abbrev pub Passes : Bool → ℕ → Type 0
Passes flag c = Plain c × ((flag && (ltb 64 c && ltb c 69)) ≡ false)

turn-put : (c : ℕ) (e : Edit) → Passes e.flag91 c → e.i < buflen - 1 → turn c e ≡ put c e
unfolding turn
turn-put c e p room =
    let lo = p.0.0 in
    let hi = p.0.1 in
    let ne = p.0.2 in
    let b : ((c == 8) || (c == 127)) ≡ false = ground arith in
    let t : (ltb 31 c && ltb e.i (buflen - 1)) ≡ true = ground arith in
    let n : (c == 91) ≡ false = ground arith in rw (p.1, b, t, n) refl

pub read_line-typed :
    (ys cs : List ℕ) (ret : ℕ → ℕ) (e : Edit)
    → All (Passes e.flag91) ys
    → e.i + length ys < buflen
    → read_line (ys ++ cs) ret e ≡ read_line cs ret (typed ys e)
unfolding read_line
read_line-typed [] cs ret e p room = refl
read_line-typed (y ∷ ys) cs ret e p room =
    let lo = p.0.0.0 in
    let n : ((y == 10) || (y == 13)) ≡ false = ground arith in
    rw n (
      ap (read_line (ys ++ cs) ret) (turn-put y e p.0 (omega arith))
      ∙ read_line-typed ys cs ret (put y e) p.1 (omega arith))

pub typed_i : (ys : List ℕ) (e : Edit) → (typed ys e).i ≡ e.i + length ys
typed_i [] e = omega arith
typed_i (y ∷ ys) e = let h = typed_i ys (put y e) in omega (arith, h)

-- Typing changes the buffer and the place alone.
pub record Rest (e e' : Edit) : Type 0 where
  pub rows : e'.lines.buf_his ≡ e.lines.buf_his
  pub newest : e'.lines.new ≡ e.lines.new
  pub last : e'.lines.ddl ≡ e.lines.ddl
  pub flag : e'.flag91 ≡ e.flag91

pub typed-Rest : (ys : List ℕ) (e : Edit) → Rest e (typed ys e)
typed-Rest [] e = record { rows = refl; newest = refl; last = refl; flag = refl }
typed-Rest (y ∷ ys) e =
    let r = typed-Rest ys (put y e) in
    record { rows = r.rows; newest = r.newest; last = r.last; flag = r.flag }

typed_before : (ys : List ℕ) (e : Edit) (j : ℕ) → j < e.i → (typed ys e).lines.buf j ≡ e.lines.buf j
typed_before [] e j h = refl
typed_before (y ∷ ys) e j h =
    let miss : (j == e.i) ≡ false = ground arith in
    typed_before ys (put y e) j (omega arith) ∙ rw miss refl

pub typed-Spells : (ys : List ℕ) (e : Edit) → Spells (typed ys e).lines.buf e.i ys
typed-Spells [] e = tt
typed-Spells (y ∷ ys) e =
    let here : (e.i == e.i) ≡ true = ground arith in
    (typed_before ys (put y e) e.i (omega arith) ∙ rw here refl, typed-Spells ys (put y e))

-- A string is kept by a change after it and by a copy of the whole buffer.
pub Spells-end :
    (b : ℕ → ℕ) (ret : ℕ → ℕ) (p n : ℕ) (ys : List ℕ)
    → Spells b p ys
    → p + length ys ≤ n
    → n < buflen
    → Spells (λ j. if ltb j buflen then update b n 0 j else ret j) p ys
Spells-end b ret p n [] s h room = tt
Spells-end b ret p n (y ∷ ys) s h room =
    let t : ltb p buflen ≡ true = ground arith in
    let miss : (p == n) ≡ false = ground arith in
    (rw (t, miss) s.0, Spells-end b ret (p + 1) n ys s.1 (omega arith) room)

-- What enter gives and keeps for the line `ys`.
pub enter-IsLine :
    (ys : List ℕ) (ret : ℕ → ℕ) (e : Edit)
    → Spells e.lines.buf 0 ys
    → e.i ≡ length ys
    → e.i < buflen
    → IsLine (enter ret e).0 ys
unfolding enter
enter-IsLine ys ret e s n room =
    let t : ltb (length ys) buflen ≡ true = ground arith in
    let same : (length ys == e.i) ≡ true = ground arith in
    (Spells-end e.lines.buf ret 0 e.i ys s (omega arith) room, rw (t, same) refl)

pub Plain-Passes : (ys : List ℕ) → All Plain ys → All (Passes false) ys
Plain-Passes [] p = tt
Plain-Passes (y ∷ ys) p = ((p.0, refl), Plain-Passes ys p.1)

read_line_end :
    (cs : List ℕ) (ret : ℕ → ℕ) (e : Edit) → read_line (10 ∷ cs) ret e ≡ some (enter ret e)
unfolding read_line
read_line_end cs ret e = refl

-- A line of printable characters without `[`, shorter than the buffer, comes back as it was typed.
pub readline-typed :
    (ys cs : List ℕ) (myargv ret : ℕ → ℕ) (l : Lines)
    → All Plain ys
    → length ys < buflen
    → (readline (ys ++ (10 ∷ cs)) myargv ret 0 l ≡ some (enter ret (typed ys (start l))))
      × IsLine (enter ret (typed ys (start l))).0 ys
unfolding readline
readline-typed ys cs myargv ret l p short =
    let n = typed_i ys (start l) in
    (
      read_line-typed ys (10 ∷ cs) ret (start l) (Plain-Passes ys p) (omega arith)
          ∙ read_line_end cs ret (typed ys (start l)),
      enter-IsLine ys ret (typed ys (start l)) (typed-Spells ys (start l)) (omega (arith, n))
          (omega (arith, n, short)),
    )
