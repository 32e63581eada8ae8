-- ===== src/Console/Queue.antt =====
-- The buffer of drivers/console.c as a bounded queue.
use cse_os.Base.{
  ℕ, zero, suc, ◌+◌, ◌-◌, ◌%◌, ◌≤◌, ◌<◌, ◌≡◌, refl, sym, ap, ◌∙◌, true, false, List, [], ◌∷◌, ◌++◌,
  map, arith, ltb, ◌==◌, update, Bool-cases, inl, inr, length, length-append,
}
use cse_os.Mmu.{word}
use cse_os.Console.{Cons, consbufsize, store, cons_intr, cons_getc}

abbrev pub take {ℓ} : {A : Type ℓ} → ℕ → List A → List A
take zero xs = []
take (suc n) [] = []
take (suc n) (x ∷ xs) = x ∷ take n xs

abbrev pub byte : ℕ → ℕ
byte c = c % 256

take_all : (n : ℕ) (xs : List ℕ) → length xs ≤ n → take n xs ≡ xs
take_all zero [] h = refl
take_all zero (x ∷ xs) h = absurd (omega arith)
take_all (suc n) [] h = refl
take_all (suc n) (x ∷ xs) h = ap (λ l. x ∷ l) (take_all n xs (omega arith))

take-append : (n : ℕ) (xs ys : List ℕ) → length xs ≡ n → take n (xs ++ ys) ≡ xs
take-append n [] ys h = rw (sym h) refl
take-append zero (x ∷ xs) ys h = absurd (omega arith)
take-append (suc n) (x ∷ xs) ys h = ap (λ l. x ∷ l) (take-append n xs ys (omega arith))

append_nil : (xs : List ℕ) → xs ++ [] ≡ xs
append_nil [] = refl
append_nil (x ∷ xs) = ap (λ l. x ∷ l) (append_nil xs)

snoc-append : (xs : List ℕ) (c : ℕ) (ys : List ℕ) → (xs ++ (c ∷ [])) ++ ys ≡ xs ++ (c ∷ ys)
snoc-append [] c ys = refl
snoc-append (x ∷ xs) c ys = ap (λ l. x ∷ l) (snoc-append xs c ys)

-- The characters `xs` stand in the buffer from position `p` on.
abbrev pub Held : (ℕ → ℕ) → ℕ → List ℕ → Type 0
Held buf p [] = Unit
Held buf p (x ∷ xs) = (buf (p % consbufsize) ≡ x) × Held buf (p + 1) xs

-- The buffer holds the characters `xs`, and neither position has wrapped round.
pub record IsQueue (cons : Cons) (xs : List ℕ) : Type 0 where
  pub held : Held cons.buf cons.rpos xs
  pub count : cons.wpos ≡ cons.rpos + length xs
  pub room : length xs ≤ consbufsize

Held-update :
    (buf : ℕ → ℕ) (p q c : ℕ) (xs : List ℕ)
    → p + length xs ≤ q
    → q < p + consbufsize
    → Held buf p xs
    → Held (update buf (q % consbufsize) c) p xs
Held-update buf p q c [] lo hi h = tt
Held-update buf p q c (x ∷ xs) lo hi h =
    let miss : (p % consbufsize == q % consbufsize) ≡ false = ground arith in
    (rw miss h.0, Held-update buf (p + 1) q c xs (omega arith) (omega arith) h.1)

Held-snoc :
    (buf : ℕ → ℕ) (p c : ℕ) (xs : List ℕ)
    → buf ((p + length xs) % consbufsize) ≡ c
    → Held buf p xs
    → Held buf p (xs ++ (c ∷ []))
Held-snoc buf p c [] e h =
    let z : p + 0 ≡ p = omega arith in ((ap (λ q. buf (q % consbufsize)) (sym z)) ∙ e, tt)
Held-snoc buf p c (x ∷ xs) e h =
    let z : p + 1 + length xs ≡ p + suc (length xs) = omega arith in
    (h.0, Held-snoc buf (p + 1) c xs (ap (λ q. buf (q % consbufsize)) z ∙ e) h.1)

store_room :
    (c : ℕ) (cons : Cons) (xs : List ℕ)
    → IsQueue cons xs
    → cons.wpos + 1 < word
    → length xs < consbufsize
    → IsQueue (store c cons) (xs ++ (byte c ∷ []))
unfolding store
store_room c cons xs q low less =
    let n = q.count in
    let t : ltb ((cons.wpos + word - cons.rpos) % word) consbufsize ≡ true = ground arith in
    let l = length-append xs (byte c ∷ []) in
    let here : (cons.wpos % consbufsize == cons.wpos % consbufsize) ≡ true = ground arith in
    rw t (record {
      held =
          Held-snoc (update cons.buf (cons.wpos % consbufsize) (byte c)) cons.rpos (byte c) xs
            (rw (sym n, here) refl)
            (Held-update cons.buf cons.rpos cons.wpos (byte c) xs (omega arith) (omega arith)
              q.held);
      count = omega (arith, l, n, low);
      room = omega (arith, l, less);
    })

store_full :
    (c : ℕ) (cons : Cons) (xs : List ℕ)
    → IsQueue cons xs
    → cons.wpos < word
    → length xs ≡ consbufsize
    → store c cons ≡ cons
unfolding store
store_full c cons xs q low full =
    let n = q.count in
    let f : ltb ((cons.wpos + word - cons.rpos) % word) consbufsize ≡ false = ground arith in
    rw f refl

store_wpos : (c : ℕ) (cons : Cons) → (store c cons).wpos ≤ cons.wpos + 1
unfolding store
store_wpos c cons = elim (Bool-cases (ltb ((cons.wpos + word - cons.rpos) % word) consbufsize)) [
  | inl t ↦ rw t (omega arith)
  | inr f ↦ rw f (omega arith)
]

store_rpos : (c : ℕ) (cons : Cons) → (store c cons).rpos ≡ cons.rpos
unfolding store
store_rpos c cons = elim (Bool-cases (ltb ((cons.wpos + word - cons.rpos) % word) consbufsize)) [
  | inl t ↦ rw t refl
  | inr f ↦ rw f refl
]

-- One more character goes to the end of the queue, or is dropped where the queue is full.
store_lem :
    (c : ℕ) (cs : List ℕ) (cons : Cons) (xs : List ℕ)
    → IsQueue cons xs
    → cons.wpos + 1 < word
    → (ys : List ℕ) × IsQueue (store c cons) ys
      × ((store c cons).wpos ≤ cons.wpos + 1)
      × (take consbufsize (ys ++ map byte cs) ≡ take consbufsize (xs ++ map byte (c ∷ cs)))
store_lem c cs cons xs q low = elim (Bool-cases (ltb (length xs) consbufsize)) [
  | inl t ↦
      let s = store_room c cons xs q low (ground (arith, t)) in
      let n = s.count in
      (
        xs ++ (byte c ∷ []),
        s,
        store_wpos c cons,
        ap (take consbufsize) (snoc-append xs (byte c) (map byte cs)),
      )
  | inr f ↦
      let r = q.room in
      let full : length xs ≡ consbufsize = ground (arith, f, r) in
      let same = store_full c cons xs q (omega (arith, low)) full in
      (
        xs,
        rw same q,
        rw same (omega arith),
        take-append consbufsize xs (map byte cs) full
            ∙ sym (take-append consbufsize xs (map byte (c ∷ cs)) full),
      )
]

-- cons_intr appends what it receives, as bytes, to the queue, and drops what is beyond the size of
-- the buffer.
pub cons_intr_lem :
    (cs : List ℕ) (cons : Cons) (xs : List ℕ)
    → IsQueue cons xs
    → cons.wpos + length cs < word
    → IsQueue (cons_intr cs cons) (take consbufsize (xs ++ map byte cs))
unfolding cons_intr
cons_intr_lem [] cons xs q low = rw (append_nil xs, take_all consbufsize xs q.room) q
cons_intr_lem (c ∷ cs) cons xs q low =
    let (ys, s, w, e) = store_lem c cs cons xs q (omega arith) in
    rw (sym e) (cons_intr_lem cs (store c cons) ys s (omega arith))

-- What cons_getc does with the queue: it gives the first character, or 0 where there is none.
abbrev pub Gets : ℕ × Cons → List ℕ → Type 0
Gets r [] = (r.0 ≡ 0) × IsQueue r.1 []
Gets r (x ∷ xs) = (r.0 ≡ x) × IsQueue r.1 xs

gets :
    (cons : Cons) (xs : List ℕ)
    → IsQueue cons xs
    → cons.rpos + 1 < word
    → Gets (cons_getc [] cons) xs
unfolding cons_getc cons_intr
gets cons [] q low =
    let n = q.count in let f : ltb cons.rpos cons.wpos ≡ false = ground arith in rw f (refl, q)
gets cons (x ∷ xs) q low =
    let n = q.count in
    let r = q.room in
    let t : ltb cons.rpos cons.wpos ≡ true = ground arith in
    let m : (cons.rpos + 1) % word ≡ cons.rpos + 1 = omega arith in
    rw (t, m)
      (q.held.0, record { held = q.held.1; count = omega (arith, n); room = omega (arith, r) })

getc-intr : (cs : List ℕ) (cons : Cons) → cons_getc cs cons ≡ cons_getc [] (cons_intr cs cons)
unfolding cons_getc cons_intr
getc-intr cs cons = refl

intr_rpos : (cs : List ℕ) (cons : Cons) → (cons_intr cs cons).rpos ≡ cons.rpos
unfolding cons_intr
intr_rpos [] cons = refl
intr_rpos (c ∷ cs) cons = intr_rpos cs (store c cons) ∙ store_rpos c cons

-- Before a position wraps round, the buffer is a queue of at most 512 bytes: cons_getc appends the
-- characters received, drops what is beyond that size, and gives the first one, or 0 where there is
-- none.
pub cons_getc_lem :
    (cs : List ℕ) (cons : Cons) (xs : List ℕ)
    → IsQueue cons xs
    → cons.wpos + length cs < word
    → cons.rpos + 1 < word
    → Gets (cons_getc cs cons) (take consbufsize (xs ++ map byte cs))
cons_getc_lem cs cons xs q low small =
    let r = intr_rpos cs cons in
    rw (getc-intr cs cons) (
      gets (cons_intr cs cons) (take consbufsize (xs ++ map byte cs))
        (cons_intr_lem cs cons xs q low) (omega (arith, r, small)))
