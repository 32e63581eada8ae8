-- ===== src/Shell/Reverse.antt =====
-- The second loop of Int2String in ushell/user/shell.c turns a stretch of bytes round.
use cse_os.Base.{
  ℕ, zero, suc, ◌+◌, ◌-◌, ◌%◌, ◌≤◌, ◌<◌, ◌≡◌, refl, ap, ◌∙◌, Bool, true, false, ◌&&◌, ◌||◌, arith,
  leb, ltb, ◌==◌, ==_iff, if◌then◌else◌, Bool-cases, inl, inr,
}
use cse_os.Shell.{exchange, exchange_all}

sums : (x y : ℕ) → x < 256 → y < 256 → ((x + y) % 256 + 256 - y) % 256 ≡ x
sums x y hx hy = omega arith

sums' : (x y : ℕ) → x < 256 → y < 256 → ((x + y) % 256 + 256 - x) % 256 ≡ y
sums' x y hx hy = omega arith

-- An exchange of two different places.
exchange-at :
    (p q b : ℕ) (mem : ℕ → ℕ)
    → (p == q) ≡ false
    → mem p < 256
    → mem q < 256
    → exchange p q mem b ≡ (if b == p then mem q else if b == q then mem p else mem b)
exchange-at p q b mem ne hp hq =
    let ne' : (q == p) ≡ false = ground arith in
    let pp : (p == p) ≡ true = (==_iff p p).1 refl in
    let qq : (q == q) ≡ true = (==_iff q q).1 refl in
    let s = sums (mem p) (mem q) hp hq in
    let s' = sums' (mem p) (mem q) hp hq in
    elim (Bool-cases (b == p)) [
      | inl t ↦ rw (t, ne, ne', pp, qq, s) s'
      | inr f ↦ elim (Bool-cases (b == q)) [ inl t ↦ rw (f, t, ne', pp) s | inr g ↦ rw (f, g) refl ]
    ]

-- The place `b` is one of the `c` from the `t`-th on of the `d` at `a`, or one of those opposite.
abbrev pub turned : ℕ → ℕ → ℕ → ℕ → ℕ → Bool
turned a d t c b =
    (leb (a + t) b && ltb b (a + t + c)) || (leb (a + d - t - c) b && ltb b (a + d - t))

module _ (a d t : ℕ) (mem : ℕ → ℕ) (room : t + t + 2 ≤ d)
    (bytes : (u : ℕ) → u < d → mem (a + u) < 256) where
  -- The memory after the exchange of the `t`-th place and the one opposite.
  exchanged : ℕ → ℕ
  exchanged = exchange (a + t) (a + (d - 1 - t)) mem

  exchanged-at :
      (b : ℕ)
      → exchanged b ≡ (
          if b == a + t
          then mem (a + (d - 1 - t))
          else if b == a + (d - 1 - t)
          then mem (a + t)
          else mem b)
  unfolding exchanged
  exchanged-at b =
      exchange-at (a + t) (a + (d - 1 - t)) b mem (ground arith) (bytes t (omega arith))
        (bytes (d - 1 - t) (omega arith))

  exchanged-bytes : (u : ℕ) → u < d → exchanged (a + u) < 256
  exchanged-bytes u h =
      let e = exchanged-at (a + u) in
      let x = bytes t (omega arith) in
      let y = bytes (d - 1 - t) (omega arith) in let z = bytes u h in ground (arith, e, x, y, z)

  exchanged-turned :
      (c b : ℕ)
      → t + t + suc c + suc c ≤ d
      → (if turned a d (suc t) c b then exchanged (a + (d - 1 - (b - a))) else exchanged b)
        ≡ (if turned a d t (suc c) b then mem (a + (d - 1 - (b - a))) else mem b)
  exchanged-turned c b fits = elim (Bool-cases (turned a d (suc t) c b)) [
    | inl i ↦
        let o : turned a d t (suc c) b ≡ true = ground (arith, i) in
        let np : (a + (d - 1 - (b - a)) == a + t) ≡ false = ground (arith, i) in
        let nq : (a + (d - 1 - (b - a)) == a + (d - 1 - t)) ≡ false = ground (arith, i) in
        rw (i, o) (exchanged-at (a + (d - 1 - (b - a))) ∙ rw (np, nq) refl)
    | inr i ↦ elim (Bool-cases (b == a + t)) [
      | inl e ↦
          let o : turned a d t (suc c) b ≡ true = ground (arith, e) in
          let w : a + (d - 1 - (b - a)) ≡ a + (d - 1 - t) = ground (arith, e) in
          rw (i, o) (exchanged-at b ∙ rw (e, w) refl)
      | inr ne ↦ elim (Bool-cases (b == a + (d - 1 - t))) [
        | inl e ↦
            let o : turned a d t (suc c) b ≡ true = ground (arith, e) in
            let w : a + (d - 1 - (b - a)) ≡ a + t = ground (arith, e) in
            rw (i, o) (exchanged-at b ∙ rw (ne, e, w) refl)
        | inr nf ↦
            let o : turned a d t (suc c) b ≡ false = ground (arith, i, ne, nf) in
            rw (i, o) (exchanged-at b ∙ rw (ne, nf) refl)
      ]
    ]
  ]

module _ (str o a d : ℕ) (at : str + o ≡ a) where
  pub exchange_all-turned :
      (c t b : ℕ) (mem : ℕ → ℕ)
      → t + t + c + c ≤ d
      → ((u : ℕ) → u < d → mem (a + u) < 256)
      → exchange_all c (t + o) (d + o + o) str mem b
        ≡ (if turned a d t c b then mem (a + (d - 1 - (b - a))) else mem b)
  unfolding exchange_all exchanged
  exchange_all-turned zero t b mem room bytes =
      let out : turned a d t 0 b ≡ false = ground arith in rw out refl
  exchange_all-turned (suc c) t b mem room bytes =
      let two : t + t + 2 ≤ d = omega arith in
      let run = λ (j p q : ℕ). exchange_all c j (d + o + o) str (exchange p q mem) b in
      let j : t + o + 1 ≡ suc t + o = omega arith in
      let p : str + (t + o) ≡ a + t = omega arith in
      let q : str + (d + o + o - 1 - (t + o)) ≡ a + (d - 1 - t) = omega arith in
      ap (λ n. run n (str + (t + o)) (str + (d + o + o - 1 - (t + o)))) j
      ∙ ap (λ n. run (suc t + o) n (str + (d + o + o - 1 - (t + o)))) p
      ∙ ap (λ n. run (suc t + o) (a + t) n) q
      ∙ exchange_all-turned c (suc t) b (exchanged a d t mem two bytes) (omega arith)
          (exchanged-bytes a d t mem two bytes)
      ∙ exchanged-turned a d t mem two bytes c b room
