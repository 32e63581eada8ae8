-- ===== src/Readline/Recall.antt =====
-- The earlier lines and the arrow keys of lib/readline.c.
use cse_os.Base.{
  ℕ, zero, suc, ◌+◌, ◌-◌, ◌<◌, ◌≤◌, ◌≡◌, refl, sym, ap, ◌∙◌, some, true, false, ◌&&◌, List, [], ◌∷◌,
  ◌++◌, arith, ltb, ◌==◌, update, length, All,
}
use cse_os.Readline.{
  Lines, Edit, buflen, commandsnum, put, fetch, up, show, turn, arrow, remember, enter, read_line,
  start, readline,
}
use cse_os.Readline.Typed.{
  Plain, Spells, IsLine, Passes, typed, typed_i, typed-Rest, typed-Spells, read_line-typed,
  enter-IsLine, Plain-Passes, Spells-end, readline-typed,
}

-- The places of the earlier lines: `ddl` counts them up to fourteen, and until then the next one goes
-- after the last.
pub record IsHistory (l : Lines) : Type 0 where
  pub next_in : l.new < commandsnum
  pub count_in : l.ddl < commandsnum
  pub filling : l.ddl < commandsnum - 1 → l.new ≡ l.ddl

-- After a line has been entered, up leads to its place.
remember-up :
    (e : Edit) → IsHistory e.lines → IsHistory (remember e) × (up (remember e) ≡ e.lines.new)
remember-up e h =
    let a = h.next_in in
    let b = h.count_in in
    let c = h.filling in
    (
      record { next_in = ground arith; count_in = ground arith; filling = λ d. ground arith },
      ground arith,
    )

-- The earlier line `ys` is typed again.
fetch-typed :
    (left : ℕ) (his : ℕ → ℕ) (ys : List ℕ) (e : Edit)
    → Spells his e.i ys
    → All Plain ys
    → his (e.i + length ys) ≡ 0
    → length ys ≤ left
    → fetch left his e ≡ typed ys e
unfolding fetch
fetch-typed zero his [] e s p z room = refl
fetch-typed zero his (y ∷ ys) e s p z room = absurd (omega arith)
fetch-typed (suc left) his [] e s p z room =
    let w : e.i + 0 ≡ e.i = omega arith in let z' : his e.i ≡ 0 = ap his (sym w) ∙ z in rw z' refl
fetch-typed (suc left) his (y ∷ ys) e s p z room =
    let lo = p.0.0 in
    let hi = p.0.1 in
    let w : e.i + 1 + length ys ≡ e.i + suc (length ys) = omega arith in
    let t : (ltb 31 y && ltb y 128) ≡ true = ground arith in
    rw (s.0, t) (fetch-typed left his ys (put y e) s.1 p.1 (ap his w ∙ z) (omega arith))

-- The characters of the arrow key up, ESC [ A, and the end of the line.
abbrev pub up_key : List ℕ
up_key = 27 ∷ 91 ∷ 65 ∷ 10 ∷ []

-- After ESC and `[` the place is 1.
abbrev bracket : Lines → Edit
bracket l = record (put 91 (start l)) { flag91 = true }

abbrev cleared : Lines → Edit
cleared l = let e = bracket l in record e { i = 0; lines = record e.lines { cur = up e.lines } }

up_key-show :
    (l : Lines) (ret : ℕ → ℕ)
    → read_line up_key ret (start l)
      ≡ some (enter ret (fetch (buflen - 1) (l.buf_his (up l)) (cleared l)))
unfolding read_line turn arrow show
up_key-show l ret = refl

-- The variables after the line `ys`.
abbrev entered : List ℕ → Lines → Lines
entered ys l =
    let e = typed ys (start l) in
    remember (record e { lines = record e.lines { buf = update e.lines.buf e.i 0 } })

module _ (ys : List ℕ) (ret : ℕ → ℕ) (l : Lines) (p : All Plain ys) (short : length ys < buflen)
    (some_char : 0 < length ys) (h : IsHistory l) where
  entered_lem : (enter ret (typed ys (start l))).1 ≡ entered ys l
  unfolding enter
  entered_lem =
      let n = typed_i ys (start l) in
      let z : ((typed ys (start l)).i == 0) ≡ false = ground (arith, n, some_char) in rw z refl

  typed-IsHistory : IsHistory (typed ys (start l)).lines
  typed-IsHistory =
      let r = typed-Rest ys (start l) in
      record {
        next_in = rw r.newest h.next_in;
        count_in = rw r.last h.count_in;
        filling = λ d. r.newest ∙ h.filling (omega (arith, d, r.last)) ∙ sym r.last;
      }

  entered-up : IsHistory (entered ys l) × (up (entered ys l) ≡ (typed ys (start l)).lines.new)
  entered-up =
      let e = typed ys (start l) in
      let t = typed-IsHistory in
      remember-up (record e { lines = record e.lines { buf = update e.lines.buf e.i 0 } })
        (record { next_in = t.next_in; count_in = t.count_in; filling = t.filling })

  kept_row : IsLine ((entered ys l).buf_his (typed ys (start l)).lines.new) ys
  kept_row =
      let e = typed ys (start l) in
      let n = typed_i ys (start l) in
      let here : (e.lines.new == e.lines.new) ≡ true = ground arith in
      let t : ltb (length ys) buflen ≡ true = ground (arith, short) in
      let same : (length ys == e.i) ≡ true = ground (arith, n) in
      rw here (
        Spells-end e.lines.buf (e.lines.buf_his e.lines.new) 0 e.i ys (typed-Spells ys (start l))
            (omega (arith, n)) (omega (arith, n, short)),
        rw (t, same) refl,
      )

  again : IsLine (enter ret (typed ys (cleared (entered ys l)))).0 ys
  again =
      let e = cleared (entered ys l) in
      let n = typed_i ys e in
      enter-IsLine ys ret (typed ys e) (typed-Spells ys e) (omega (arith, n))
        (omega (arith, n, short))

  fetched :
      fetch (buflen - 1) ((entered ys l).buf_his (up (entered ys l))) (cleared (entered ys l))
      ≡ typed ys (cleared (entered ys l))
  fetched =
      let k = kept_row in
      let row = (entered ys l).buf_his in
      let w : 0 + length ys ≡ length ys = omega arith in
      ap (λ u. fetch (buflen - 1) (row u) (cleared (entered ys l))) entered-up.1
      ∙ fetch-typed (buflen - 1) (row (typed ys (start l)).lines.new) ys (cleared (entered ys l))
          k.0 p (ap (row (typed ys (start l)).lines.new) w ∙ k.1) (omega (arith, short))

-- A line of printable characters without `[`, not empty and shorter than the buffer, is returned as
-- it was typed; and after it the arrow key up and an end of line return the same line again.
pub readline-up_key :
    (ys : List ℕ) (myargv ret ret' : ℕ → ℕ) (l : Lines)
    → All Plain ys
    → length ys < buflen
    → 0 < length ys
    → IsHistory l
    → (r : ℕ → ℕ) × (l' : Lines) × (readline (ys ++ (10 ∷ [])) myargv ret 0 l ≡ some (r, l'))
      × IsLine r ys
      × IsHistory l'
      × ((r' : ℕ → ℕ) × (l'' : Lines) × (readline (27 ∷ 91 ∷ 65 ∷ 10 ∷ []) myargv ret' 0 l'
            ≡ some (r', l''))
          × IsLine r' ys)
unfolding readline
readline-up_key ys myargv ret ret' l p short some_char h =
    let (run, line) = readline-typed ys [] myargv ret l p short in
    let e = enter ret' (typed ys (cleared (entered ys l))) in
    (
      (enter ret (typed ys (start l))).0,
      entered ys l,
      run
          ∙ ap (λ l'. some ((enter ret (typed ys (start l))).0, l'))
              (entered_lem ys ret l p short some_char h),
      line,
      (entered-up ys ret l p short some_char h).0,
      (
        e.0,
        e.1,
        up_key-show (entered ys l) ret'
            ∙ ap (λ f. some (enter ret' f)) (fetched ys ret l p short some_char h),
        again ys ret' l p short some_char h,
      ),
    )

bracket-read_line :
    (cs : List ℕ) (ret : ℕ → ℕ) (e : Edit)
    → e.flag91 ≡ false
    → e.i < buflen - 1
    → read_line (91 ∷ cs) ret e ≡ read_line cs ret (record (put 91 e) { flag91 = true })
unfolding read_line turn
bracket-read_line cs ret e f room =
    let t : ltb e.i (buflen - 1) ≡ true = ground arith in rw (f, t) refl

letter-read_line :
    (ret : ℕ → ℕ) (e : Edit)
    → e.flag91 ≡ true
    → read_line (67 ∷ 10 ∷ []) ret e ≡ some (enter ret (record e { i = 0 }))
unfolding read_line turn arrow
letter-read_line ret e f = rw f refl

enter_empty : (ret : ℕ → ℕ) (e : Edit) → (enter ret (record e { i = 0 })).0 0 ≡ 0
unfolding enter
enter_empty ret e = refl

-- Once a `[` has been typed, the letter C removes the whole line before it: readline returns the
-- empty string for a line of printable characters with one `[` whose first letter from A to D after it
-- is a C at the end of the line.
pub readline_bracket :
    (ys zs : List ℕ) (myargv ret : ℕ → ℕ) (l : Lines)
    → All Plain ys
    → All (Passes true) zs
    → length ys + length zs + 1 < buflen
    → (r : ℕ → ℕ) × (l' : Lines) × (readline (ys ++ (91 ∷ (zs ++ (67 ∷ 10 ∷ [])))) myargv ret 0 l
        ≡ some (r, l'))
      × (r 0 ≡ 0)
unfolding readline
readline_bracket ys zs myargv ret l p q short =
    let e₁ = typed ys (start l) in
    let e₂ = record (put 91 e₁) { flag91 = true } in
    let e₃ = typed zs e₂ in
    let n = typed_i ys (start l) in
    let o = enter ret (record e₃ { i = 0 }) in
    (
      o.0,
      o.1,
      read_line-typed ys (91 ∷ (zs ++ (67 ∷ 10 ∷ []))) ret (start l) (Plain-Passes ys p)
            (omega (arith, short))
          ∙ bracket-read_line (zs ++ (67 ∷ 10 ∷ [])) ret e₁ (typed-Rest ys (start l)).flag
              (omega (arith, n, short))
          ∙ read_line-typed zs (67 ∷ 10 ∷ []) ret e₂ q (omega (arith, n, short))
          ∙ letter-read_line ret e₃ (typed-Rest zs e₂).flag,
      enter_empty ret e₃,
    )
