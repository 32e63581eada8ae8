-- ===== src/Hash/Insert.antt =====
-- tryHashTableInsert: where the pair goes, that it is found again, and where the loop leaves the
-- array or loses a pair.
use cse_os.Base.{
  ℕ, zero, suc, ◌+◌, ◌-◌, ◌^◌, ◌≤◌, ◌<◌, ◌≡◌, refl, ◌≢◌, true, false, Option, none, some, arith,
  ◌==◌, Bool-cases, inl, inr, ==_iff,
}
use cse_os.Hash.{
  HashTable, is_live, hash_func, hash_max_size, Found, find, find_loop, Inserted, insert,
  insert_from, stored, holds, remove, find_cur, find_cur_from, dropped, same_page,
}
use cse_os.Hash.Find.{hash_func-lt}

-- From `lo` up to `c`, which is not live, all elements are live, and none of them has the key.
pub record FirstGap (ht : HashTable) (key lo c : ℕ) : Type 0 where
  pub above : lo ≤ c
  pub inside : c < hash_max_size
  pub gap : is_live (ht.elems c).stat ≡ false
  pub taken : (i : ℕ) → lo ≤ i → i < c → is_live (ht.elems i).stat ≡ true
  pub others : (i : ℕ) → lo ≤ i → i < c → (ht.elems i).key ≢ key

FirstGap-next :
    {ht : HashTable} {key lo c : ℕ} → FirstGap ht key lo c → lo ≢ c → FirstGap ht key (lo + 1) c
FirstGap-next {lo} {c} g ne = record {
  above = omega (arith, g.above);
  inside = g.inside;
  gap = g.gap;
  taken = λ i h k. g.taken i (omega arith) k;
  others = λ i h k. g.others i (omega arith) k;
}

insert_from-gap :
    (left lo c key : ℕ) (value : Option ℕ) (ht : HashTable)
    → lo + left ≡ hash_max_size
    → FirstGap ht key lo c
    → holds (ht.elems c) key value ≡ false
    → insert_from left lo key value ht ≡ Inserted.returned true (stored ht c key value)
unfolding insert_from
insert_from-gap zero lo c key value ht e g fresh = absurd (omega (arith, g.above, g.inside))
insert_from-gap (suc left) lo c key value ht e g fresh = elim (Bool-cases (lo == c)) [
  | inl t ↦ let same : lo ≡ c = (==_iff lo c).0 t in rw (same, fresh, g.gap) refl
  | inr f ↦
      let ne : lo ≢ c = ground arith in
      let live = g.taken lo (omega arith) (omega (arith, g.above)) in
      let other = g.others lo (omega arith) (omega (arith, g.above)) in
      let ih =
        insert_from-gap left (lo + 1) c key value ht (omega arith) (FirstGap-next g ne) fresh in
      ground arith
]

find_loop-stored :
    (fuel lo c key : ℕ) (value : Option ℕ) (ht : HashTable)
    → FirstGap ht key lo c
    → c - lo < fuel
    → find_loop fuel lo key (stored ht c key value) ≡ Found.returned value
unfolding find_loop
find_loop-stored zero lo c key value ht g d = absurd (omega arith)
find_loop-stored (suc fuel) lo c key value ht g d = elim (Bool-cases (lo == c)) [
  | inl t ↦ let same : lo ≡ c = (==_iff lo c).0 t in ground (arith, g.inside)
  | inr f ↦
      let ne : lo ≢ c = ground arith in
      let live = g.taken lo (omega arith) (omega (arith, g.above)) in
      let other = g.others lo (omega arith) (omega (arith, g.above)) in
      let ih = find_loop-stored fuel (lo + 1) c key value ht (FirstGap-next g ne) (omega arith) in
      ground (arith, g.above, g.inside)
]

module _ (ht : HashTable) (key c : ℕ) (value : Option ℕ) (nonneg : key < 2 ^ 31)
    (g : FirstGap ht key (hash_func key) c) (fresh : holds (ht.elems c) key value ≡ false) where
  -- For a key below 2 ^ 31 for which an element from its hash on, before the end of the array, is not
  -- live, while none of the live ones up to it has this key and the pair does not stand in it already:
  -- an insertion stores the pair in the first such element, and a look-up afterwards, with ten steps
  -- or more, returns the value.
  pub find-insert :
      (fuel : ℕ)
      → hash_max_size ≤ fuel
      → (insert ht key value ≡ Inserted.returned true (stored ht c key value))
        × (find fuel (stored ht c key value) key ≡ Found.returned value)
  unfolding insert find
  find-insert fuel enough =
      let h = hash_func-lt key nonneg in
      let put =
        insert_from-gap (hash_max_size - hash_func key) (hash_func key) c key value ht (omega arith)
          g fresh in
      let loop = find_loop-stored fuel (hash_func key) c key value ht g (omega (arith, g.inside)) in
      (
        put,
        elim (Bool-cases (hash_func key == c)) [
          | inl t ↦ ground arith
          | inr f ↦
              let ne : hash_func key ≢ c = ground arith in
              let other = g.others (hash_func key) (omega arith) (omega (arith, g.above)) in
              ground arith
        ],
      )

insert_from-overrun :
    (left lo key : ℕ) (value : Option ℕ) (ht : HashTable)
    → lo + left ≡ hash_max_size
    → ((i : ℕ) → lo ≤ i → i < hash_max_size → is_live (ht.elems i).stat ≡ true)
    → ((i : ℕ) → lo ≤ i → i < hash_max_size → (ht.elems i).key ≢ key)
    → insert_from left lo key value ht ≡ Inserted.overrun
unfolding insert_from
insert_from-overrun zero lo key value ht e live others = refl
insert_from-overrun (suc left) lo key value ht e live others =
    let l = live lo (omega arith) (omega arith) in
    let o = others lo (omega arith) (omega arith) in
    let ih =
      insert_from-overrun left (lo + 1) key value ht (omega arith) (λ i h k. live i (omega arith) k)
        (λ i h k. others i (omega arith) k) in
    ground arith

-- Where every element from the key's hash to the end of the array is live with another key, the
-- insertion goes past the end of the array, however many elements below the hash are empty.
pub insert_overrun :
    (ht : HashTable) (key : ℕ) (value : Option ℕ)
    → key < 2 ^ 31
    → ((i : ℕ) → hash_func key ≤ i → i < hash_max_size → is_live (ht.elems i).stat ≡ true)
    → ((i : ℕ) → hash_func key ≤ i → i < hash_max_size → (ht.elems i).key ≢ key)
    → insert ht key value ≡ Inserted.overrun
unfolding insert
insert_overrun ht key value nonneg live others =
    let h = hash_func-lt key nonneg in
    insert_from-overrun (hash_max_size - hash_func key) (hash_func key) key value ht (omega arith)
      live others

find_cur_from-first :
    (left i c key : ℕ) (ht : HashTable)
    → i ≤ c
    → c < i + left
    → (ht.elems c).key ≡ key
    → is_live (ht.elems c).stat ≡ true
    → ((j : ℕ) → i ≤ j → j < c → is_live (ht.elems j).stat ≡ true → (ht.elems j).key ≢ key)
    → find_cur_from left i key ht ≡ some c
unfolding find_cur_from
find_cur_from-first zero i c key ht lo hi k l first = absurd (omega arith)
find_cur_from-first (suc left) i c key ht lo hi k l first = elim (Bool-cases (i == c)) [
  | inl t ↦ let same : i ≡ c = (==_iff i c).0 t in rw same (ground arith)
  | inr f ↦
      let ih =
        find_cur_from-first left (i + 1) c key ht (ground arith) (omega arith) k l
          (λ j a b. first j (omega arith) b) in
      let no : is_live (ht.elems i).stat ≡ true → (ht.elems i).key ≢ key =
        first i (omega arith) (ground arith) in
      ground arith
]

insert_from-held :
    (left c key : ℕ) (value : Option ℕ) (ht : HashTable)
    → 0 < left
    → holds (ht.elems c) key value ≡ true
    → insert_from left c key value ht ≡ Inserted.returned false ht
unfolding insert_from
insert_from-held zero c key value ht pos e = absurd (omega arith)
insert_from-held (suc left) c key value ht pos e = rw e refl

same_page_refl : (v : Option ℕ) → same_page v v ≡ true
same_page_refl none = refl
same_page_refl (some a) = ground arith

dropped-holds :
    (ht : HashTable) (key c : ℕ)
    → (ht.elems c).key ≡ key
    → holds ((dropped ht (some c)).elems c) key (ht.elems c).value ≡ true
dropped-holds ht key c k =
    let hit : (c == c) ≡ true = ground arith in
    let same : ((ht.elems c).key == key) ≡ true = ground arith in
    rw (hit, same) (same_page_refl (ht.elems c).value)

dropped-not_live :
    (ht : HashTable) (key c : ℕ)
    → ((j : ℕ) → j ≢ c → is_live (ht.elems j).stat ≡ true → (ht.elems j).key ≢ key)
    → (j : ℕ) → is_live ((dropped ht (some c)).elems j).stat ≡ true
    → ((dropped ht (some c)).elems j).key ≢ key
dropped-not_live ht key c only j live = elim (Bool-cases (j == c)) [
  | inl t ↦ cc (rw t at live)
  | inr f ↦ rw f (only j (ground arith) (rw f at live))
]

-- A pair that stands at its key's hash, in the only live element with that key, is removed by
-- tryHashRemove; putting the same pair back is then refused, and the table stays without the key:
-- no element with it is live.
pub insert-remove_lost :
    (ht : HashTable) (key : ℕ)
    → key < 2 ^ 31
    → (ht.elems (hash_func key)).key ≡ key
    → is_live (ht.elems (hash_func key)).stat ≡ true
    → ((j : ℕ) → j ≢ hash_func key → is_live (ht.elems j).stat ≡ true → (ht.elems j).key ≢ key)
    → (insert (remove ht key) key (ht.elems (hash_func key)).value
        ≡ Inserted.returned false (remove ht key))
      × ((j : ℕ)
          → is_live ((remove ht key).elems j).stat ≡ true
          → ((remove ht key).elems j).key ≢ key)
unfolding insert remove find_cur
insert-remove_lost ht key nonneg k l only =
    let v = (ht.elems (hash_func key)).value in
    let h = hash_func-lt key nonneg in
    let c =
      find_cur_from-first hash_max_size 0 (hash_func key) key ht (omega arith) (omega arith) k l
        (λ j a b. only j (omega arith)) in
    let held : holds ((dropped ht (some (hash_func key))).elems (hash_func key)) key v ≡ true =
      dropped-holds ht key (hash_func key) k in
    rw c (
      insert_from-held (hash_max_size - hash_func key) (hash_func key) key v
          (dropped ht (some (hash_func key))) (omega arith) held,
      dropped-not_live ht key (hash_func key) only,
    )
