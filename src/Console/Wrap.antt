-- ===== src/Console/Wrap.antt =====
-- What getchar does after the write position has wrapped round.
use cse_os.Base.{
  ℕ, ◌+◌, ◌-◌, ◌%◌, ◌≤◌, ◌<◌, ◌≡◌, refl, none, false, List, [], ◌∷◌, arith, ltb, Bool-cases, inl,
  inr,
}
use cse_os.Mmu.{word}
use cse_os.Console.{Cons, consbufsize, store, cons_intr, cons_getc, getchar}

-- The write position has wrapped round and the read position has not.
pub record IsWrapped (cons : Cons) : Type 0 where
  pub last_read : cons.rpos < word
  pub room : cons.wpos + word ≤ cons.rpos + consbufsize

store-IsWrapped : (c : ℕ) (cons : Cons) → IsWrapped cons → IsWrapped (store c cons)
unfolding store
store-IsWrapped c cons w =
    elim (Bool-cases (ltb ((cons.wpos + word - cons.rpos) % word) consbufsize)) [
      | inl t ↦
          let lo = w.last_read in
          let hi = w.room in
          rw t (record { last_read = w.last_read; room = ground (arith, lo, hi, t) })
      | inr f ↦ rw f w
    ]

cons_intr-IsWrapped : (cs : List ℕ) (cons : Cons) → IsWrapped cons → IsWrapped (cons_intr cs cons)
unfolding cons_intr
cons_intr-IsWrapped [] cons w = w
cons_intr-IsWrapped (c ∷ cs) cons w =
    cons_intr-IsWrapped cs (store c cons) (store-IsWrapped c cons w)

cons_getc-IsWrapped :
    (cs : List ℕ) (cons : Cons) → IsWrapped cons → cons_getc cs cons ≡ (0, cons_intr cs cons)
unfolding cons_getc
cons_getc-IsWrapped cs cons w =
    let v = cons_intr-IsWrapped cs cons w in
    let lo = v.last_read in
    let hi = v.room in
    let ahead : ltb (cons_intr cs cons).rpos (cons_intr cs cons).wpos ≡ false =
      ground (arith, lo, hi) in
    rw ahead refl

-- Once the write position has wrapped round at 2 ^ 32 while the read position has not, getchar does
-- not return any more, whatever the serial port receives.
pub getchar_wrapped :
    (polls : List (List ℕ)) (cons : Cons) → IsWrapped cons → getchar polls cons ≡ none
unfolding getchar
getchar_wrapped [] cons w = refl
getchar_wrapped (cs ∷ later) cons w =
    rw (cons_getc-IsWrapped cs cons w)
      (getchar_wrapped later (cons_intr cs cons) (cons_intr-IsWrapped cs cons w))
