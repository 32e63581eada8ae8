-- ===== src/Hash.antt =====
-- env/hash.c: the hash table that maps keys to shared pages, by open addressing in an array of ten
-- elements. An access outside the array is an outcome of its own. A key is an `int`, kept as its
-- 32-bit pattern; a `struct Page *` is `none` for NULL.
pub mod Find
pub mod Insert
pub mod Size
mod Tests
use cse_os.Base.{
  ℕ, zero, suc, ◌+◌, ◌-◌, ◌%◌, ◌^◌, Bool, true, false, not, ◌&&◌, Option, none, some, ltb, leb,
  ◌==◌, if◌then◌else◌, update,
}
use cse_os.Mmu.{word}

abbrev pub hash_max_size : ℕ
hash_max_size = 10

pub data ElmState : Type 0 where
  empty valid invalid : ElmState

pub record HashElem : Type 0 where
  pub key : ℕ
  pub value : Option ℕ
  pub stat : ElmState

pub record HashTable : Type 0 where
  pub elems : ℕ → HashElem
  pub size : ℕ

abbrev pub is_empty : ElmState → Bool
is_empty empty = true
is_empty _ = false

abbrev pub is_live : ElmState → Bool
is_live valid = true
is_live _ = false

abbrev pub same_page : Option ℕ → Option ℕ → Bool
same_page none none = true
same_page none (some b) = false
same_page (some a) none = false
same_page (some a) (some b) = a == b

-- tryHashFuncDefault: the remainder of a signed division, converted to `size_t`.
unfoldable pub hash_func : ℕ → ℕ
hash_func key =
    if ltb key (2 ^ 31) then key % hash_max_size else (word - (word - key) % hash_max_size) % word

abbrev pub blank : HashElem
blank = record { key = 0; value = none; stat = empty }

unfoldable pub clear_from : ℕ → ℕ → (ℕ → HashElem) → ℕ → HashElem
clear_from zero i elems = elems
clear_from (suc count) i elems = clear_from count (i + 1) (update elems i blank)

-- tryHashTableInit
unfoldable pub init : HashTable → HashTable
unfolding clear_from
init ht = record { elems = clear_from hash_max_size 0 ht.elems; size = 0 }

-- The outcome of tryHashTableInsert: the value returned with the new table, or an access beyond
-- the array.
pub data Inserted : Type 0 where
  returned : Bool → HashTable → Inserted
  overrun : Inserted

abbrev pub holds : HashElem → ℕ → Option ℕ → Bool
holds e key value = (e.key == key) && same_page e.value value

-- The table with the pair stored in element `cur`.
abbrev pub stored : HashTable → ℕ → ℕ → Option ℕ → HashTable
stored ht cur key value = record {
  elems = update ht.elems cur (record { key = key; value = value; stat = valid });
  size = (ht.size + 1) % word;
}

-- The loop of tryHashTableInsert, with `left` elements of the array from `cur` on.
unfoldable pub insert_from : ℕ → ℕ → ℕ → Option ℕ → HashTable → Inserted
insert_from zero cur key value ht = overrun
insert_from (suc left) cur key value ht =
    let rest = insert_from left (cur + 1) key value ht in
    if holds (ht.elems cur) key value
    then returned false ht
    else if not (is_live (ht.elems cur).stat)
    then returned true (stored ht cur key value)
    else rest

-- tryHashTableInsert
unfoldable pub insert : HashTable → ℕ → Option ℕ → Inserted
unfolding insert_from
insert ht key value = let cur = hash_func key in insert_from (hash_max_size - cur) cur key value ht

-- The outcome of tryHashTableFind: the pointer returned (NULL where the key is not found), an access
-- beyond the array, or a loop that is not over when the fuel is.
pub data Found : Type 0 where
  returned : Option ℕ → Found
  overrun : Found
  out_of_fuel : Found

abbrev pub next_offset : ℕ → ℕ
next_offset offset = if leb hash_max_size (offset + 1) then 0 else offset + 1

-- The loop of tryHashTableFind.
unfoldable pub find_loop : ℕ → ℕ → ℕ → HashTable → Found
find_loop zero offset key ht = out_of_fuel
find_loop (suc fuel) offset key ht =
    let e = ht.elems offset in
    let wrapped = find_loop fuel (next_offset offset) key ht in
    let following = find_loop fuel (offset + 1) key ht in
    if leb hash_max_size offset
    then overrun
    else if is_empty e.stat
    then returned none
    else if not (e.key == key)
    then wrapped
    else if is_live e.stat
    then returned e.value
    else following

-- tryHashTableFind
unfoldable pub find : ℕ → HashTable → ℕ → Found
find fuel ht key =
    let offset = hash_func key in
    let e = ht.elems offset in
    let looked = find_loop fuel offset key ht in
    if leb hash_max_size offset
    then overrun
    else if (e.key == key) && is_live e.stat
    then returned e.value
    else looked

-- The loop of tryHashTableFindCur, with `left` elements from `i` on.
unfoldable pub find_cur_from : ℕ → ℕ → ℕ → HashTable → Option ℕ
find_cur_from zero i key ht = none
find_cur_from (suc left) i key ht =
    let rest = find_cur_from left (i + 1) key ht in
    if ((ht.elems i).key == key) && is_live (ht.elems i).stat then some i else rest

-- tryHashTableFindCur: `none` is the return of 0.
unfoldable pub find_cur : HashTable → ℕ → Option ℕ
unfolding find_cur_from
find_cur ht key = find_cur_from hash_max_size 0 key ht

abbrev pub dropped : HashTable → Option ℕ → HashTable
dropped ht none = ht
dropped ht (some cur) = record {
  elems = update ht.elems cur (record (ht.elems cur) { stat = invalid });
  size = (ht.size + word - 1) % word;
}

-- tryHashRemove
unfoldable pub remove : HashTable → ℕ → HashTable
remove ht key = dropped ht (find_cur ht key)

-- tryHashEmpty returns 1 on a table that is not empty.
unfoldable pub try_hash_empty : HashTable → ℕ
try_hash_empty ht = if ltb 0 ht.size then 1 else 0

-- tryHashSize
abbrev pub try_hash_size : HashTable → ℕ
try_hash_size ht = ht.size
