-- ===== src/Hash/Size.antt =====
-- The field `size` counts the live elements.
use cse_os.Base.{
  ℕ, zero, suc, ◌+◌, ◌-◌, ◌≤◌, ◌<◌, ◌≡◌, refl, Bool, true, false, ◌&&◌, Option, none, some, arith,
  ◌==◌, if◌then◌else◌, Bool-cases, inl, inr, ◌∙◌, sym, ==_iff, update,
}
use mathlib.Core.Path.{subst}
use cse_os.Hash.{
  HashElem, HashTable, valid, invalid, is_live, hash_func, hash_max_size, Inserted, insert,
  insert_from, stored, holds, remove, find_cur, find_cur_from, dropped, blank, init, clear_from,
}

-- How many of the `count` elements from `i` on are live.
abbrev pub live_from : ℕ → ℕ → (ℕ → HashElem) → ℕ
live_from zero i elems = 0
live_from (suc count) i elems =
    (if is_live (elems i).stat then 1 else 0) + live_from count (i + 1) elems

abbrev pub IsCounted : HashTable → Type 0
IsCounted ht = ht.size ≡ live_from hash_max_size 0 ht.elems

live_from-le : (count i : ℕ) (elems : ℕ → HashElem) → live_from count i elems ≤ count
live_from-le zero i elems = omega arith
live_from-le (suc count) i elems = ground (arith, live_from-le count (i + 1) elems)

live_from-outside :
    (count i c : ℕ) (elems : ℕ → HashElem) (e : HashElem)
    → c < i
    → live_from count i (update elems c e) ≡ live_from count i elems
live_from-outside zero i c elems e h = refl
live_from-outside (suc count) i c elems e h =
    let miss : (i == c) ≡ false = ground arith in
    rw (miss, live_from-outside count (i + 1) c elems e (omega arith)) refl

-- A change of one element changes the count by that element.
live_from-update :
    (count i c : ℕ) (elems : ℕ → HashElem) (e : HashElem)
    → i ≤ c
    → c < i + count
    → live_from count i (update elems c e) + (if is_live (elems c).stat then 1 else 0)
      ≡ live_from count i elems + (if is_live e.stat then 1 else 0)
live_from-update zero i c elems e lo hi = absurd (omega arith)
live_from-update (suc count) i c elems e lo hi = elim (Bool-cases (i == c)) [
  | inl t ↦
      let same : i ≡ c = (==_iff i c).0 t in
      let rest = live_from-outside count (i + 1) c elems e (omega arith) in
      rw (t, rest, same) (omega arith)
  | inr f ↦
      let rest = live_from-update count (i + 1) c elems e (ground arith) (omega arith) in
      rw f (omega (arith, rest))
]

clear_from-below :
    (count i j : ℕ) (elems : ℕ → HashElem) → j < i → clear_from count i elems j ≡ elems j
unfolding clear_from
clear_from-below zero i j elems h = refl
clear_from-below (suc count) i j elems h =
    let miss : (j == i) ≡ false = ground arith in
    clear_from-below count (i + 1) j (update elems i blank) (omega arith) ∙ rw miss refl

live_from-clear :
    (count i : ℕ) (elems : ℕ → HashElem) → live_from count i (clear_from count i elems) ≡ 0
unfolding clear_from
live_from-clear zero i elems = refl
live_from-clear (suc count) i elems =
    let hit : (i == i) ≡ true = ground arith in
    let here : clear_from count (i + 1) (update elems i blank) i ≡ blank =
      clear_from-below count (i + 1) i (update elems i blank) (omega arith) ∙ rw hit refl in
    let rest = live_from-clear count (i + 1) (update elems i blank) in rw (here, rest) (omega arith)

insert_from-IsCounted :
    (left i key : ℕ) (value : Option ℕ) (ht ht' : HashTable) (b : Bool)
    → left ≤ hash_max_size - i
    → IsCounted ht
    → insert_from left i key value ht ≡ Inserted.returned b ht'
    → IsCounted ht'
unfolding insert_from
insert_from-IsCounted zero i key value ht ht' b e s r = cc
insert_from-IsCounted (suc left) i key value ht ht' b e s r =
    elim (Bool-cases (holds (ht.elems i) key value)) [
      | inl h ↦ let same : ht ≡ ht' = ground arith in rw same at s
      | inr h ↦ elim (Bool-cases (is_live (ht.elems i).stat)) [
        | inl l ↦
            insert_from-IsCounted left (i + 1) key value ht ht' b (omega arith) s (rw (h, l) at r)
        | inr l ↦
            let same : stored ht i key value ≡ ht' = ground arith in
            let up =
              live_from-update hash_max_size 0 i ht.elems
                (record { key = key; value = value; stat = valid }) (omega arith) (omega arith) in
            let le = live_from-le hash_max_size 0 ht.elems in
            let counted : IsCounted (stored ht i key value) = omega (arith, rw l at up, le, s) in
            subst IsCounted same counted
      ]
    ]

find_cur_from-within :
    (left i c key : ℕ) (ht : HashTable)
    → find_cur_from left i key ht ≡ some c
    → (c < i + left) × (i ≤ c) × (is_live (ht.elems c).stat ≡ true) × ((ht.elems c).key ≡ key)
unfolding find_cur_from
find_cur_from-within zero i c key ht e = cc
find_cur_from-within (suc left) i c key ht e =
    elim (Bool-cases (((ht.elems i).key == key) && is_live (ht.elems i).stat)) [
      | inl h ↦
          let found : some i ≡ some c = rw h at e in let same : i ≡ c = ground arith in ground arith
      | inr h ↦
          let ih = find_cur_from-within left (i + 1) c key ht (rw h at e) in
          (omega (arith, ih.0), omega (arith, ih.1), ih.2, ih.3)
    ]

dropped-IsCounted :
    (ht : HashTable) (key : ℕ) (o : Option ℕ)
    → find_cur ht key ≡ o
    → IsCounted ht
    → IsCounted (dropped ht o)
unfolding find_cur
dropped-IsCounted ht key none e s = s
dropped-IsCounted ht key (some c) e s =
    let w = find_cur_from-within hash_max_size 0 c key ht e in
    let up =
      live_from-update hash_max_size 0 c ht.elems (record (ht.elems c) { stat = invalid })
        (omega arith) w.0 in
    let le = live_from-le hash_max_size 0 ht.elems in omega (arith, rw w.2 at up, le, s)

-- The table that an insertion returns, if it returns, is counted.
abbrev pub CountedResult : Inserted → Type 0
CountedResult (Inserted.returned b ht) = IsCounted ht
CountedResult Inserted.overrun = Unit

result-Counted :
    (o : Inserted) (left i key : ℕ) (value : Option ℕ) (ht : HashTable)
    → left ≤ hash_max_size - i
    → IsCounted ht
    → insert_from left i key value ht ≡ o
    → CountedResult o
result-Counted (Inserted.returned b ht') left i key value ht h s r =
    insert_from-IsCounted left i key value ht ht' b h s r
result-Counted Inserted.overrun left i key value ht h s r = tt

-- Where `size` is the number of live elements, it is so after tryHashTableInit, after a removal and
-- after an insertion that returns, whatever the key.
pub size_is_live :
    (ht : HashTable) (key : ℕ) (value : Option ℕ)
    → IsCounted ht
    → IsCounted (init ht) × IsCounted (remove ht key) × CountedResult (insert ht key value)
unfolding init insert remove
size_is_live ht key value s = (
  sym (live_from-clear hash_max_size 0 ht.elems),
  dropped-IsCounted ht key (find_cur ht key) refl s,
  result-Counted (insert ht key value) (hash_max_size - hash_func key) (hash_func key) key value ht
      (omega arith) s refl,
)
