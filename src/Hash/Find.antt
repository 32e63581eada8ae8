-- ===== src/Hash/Find.antt =====
-- tryHashTableFind: what it returns where the key is live, where it is absent, and where the table
-- is full.
use cse_os.Base.{
  ℕ, zero, suc, ◌+◌, ◌-◌, ◌^◌, ◌≤◌, ◌<◌, ◌≡◌, refl, ◌≢◌, true, false, none, arith, leb, ◌==◌,
  if◌then◌else◌, Bool-cases, inl, inr, ap, ==_iff,
}
use cse_os.Hash.{HashTable, is_empty, hash_func, hash_max_size, Found, find, find_loop, next_offset}

-- The key is nowhere in the table: every element that is not empty has another.
abbrev pub IsAbsent : HashTable → ℕ → Type 0
IsAbsent ht key =
    (i : ℕ) → i < hash_max_size → is_empty (ht.elems i).stat ≡ false → (ht.elems i).key ≢ key

-- Steps from `i` round the array to `e`.
abbrev distance : ℕ → ℕ → ℕ
distance i e = if leb i e then e - i else e + hash_max_size - i

ne_of_empty :
    (ht : HashTable) (i e : ℕ)
    → is_empty (ht.elems i).stat ≡ false
    → is_empty (ht.elems e).stat ≡ true
    → (i == e) ≡ false
ne_of_empty ht i e p q = elim (Bool-cases (i == e)) [
  | inl t ↦ cc (ap (λ j. is_empty (ht.elems j).stat) ((==_iff i e).0 t))
  | inr t ↦ t
]

find_loop-absent :
    (fuel i e key : ℕ) (ht : HashTable)
    → IsAbsent ht key
    → i < hash_max_size
    → e < hash_max_size
    → is_empty (ht.elems e).stat ≡ true
    → distance i e < fuel
    → find_loop fuel i key ht ≡ Found.returned none
unfolding find_loop
find_loop-absent zero i e key ht out hi he z d = absurd (omega arith)
find_loop-absent (suc fuel) i e key ht out hi he z d =
    elim (Bool-cases (is_empty (ht.elems i).stat)) [
      | inl b ↦ ground arith
      | inr b ↦
          let ne = out i hi b in
          let miss : (i == e) ≡ false = ne_of_empty ht i e b z in
          let ih =
            find_loop-absent fuel (next_offset i) e key ht out (ground arith) he z (ground arith) in
          ground arith
    ]

pub hash_func-lt : (key : ℕ) → key < 2 ^ 31 → hash_func key < hash_max_size
unfolding hash_func
hash_func-lt key h = ground arith

module _ (fuel : ℕ) (ht : HashTable) (key : ℕ) (nonneg : key < 2 ^ 31) where
  -- A key below 2 ^ 31 that is absent is looked up in at most ten steps while some element is empty:
  -- the result is NULL.
  pub find-absent :
      (e : ℕ)
      → IsAbsent ht key
      → e < hash_max_size
      → is_empty (ht.elems e).stat ≡ true
      → hash_max_size ≤ fuel
      → find fuel ht key ≡ Found.returned none
  unfolding find
  find-absent e out he z enough =
      let h = hash_func-lt key nonneg in
      let loop = find_loop-absent fuel (hash_func key) e key ht out h he z (ground arith) in
      elim (Bool-cases (is_empty (ht.elems (hash_func key)).stat)) [
        | inl b ↦ ground arith
        | inr b ↦ let ne = out (hash_func key) h b in ground arith
      ]

find_loop-full :
    (fuel i key : ℕ) (ht : HashTable)
    → ((j : ℕ) → j < hash_max_size → is_empty (ht.elems j).stat ≡ false)
    → IsAbsent ht key
    → i < hash_max_size
    → find_loop fuel i key ht ≡ Found.out_of_fuel
unfolding find_loop
find_loop-full zero i key ht full out h = refl
find_loop-full (suc fuel) i key ht full out h =
    let ne = out i h (full i h) in
    let b = full i h in
    let ih = find_loop-full fuel (next_offset i) key ht full out (ground arith) in ground arith

-- In a table with no empty element, the search for an absent key below 2 ^ 31 never ends: no fuel is
-- enough.
pub find_full :
    (fuel : ℕ) (ht : HashTable) (key : ℕ)
    → key < 2 ^ 31
    → ((j : ℕ) → j < hash_max_size → is_empty (ht.elems j).stat ≡ false)
    → IsAbsent ht key
    → find fuel ht key ≡ Found.out_of_fuel
unfolding find
find_full fuel ht key nonneg full out =
    let h = hash_func-lt key nonneg in
    let loop = find_loop-full fuel (hash_func key) key ht full out h in
    let b = full (hash_func key) h in let ne = out (hash_func key) h b in ground arith
