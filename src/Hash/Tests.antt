-- ===== src/Hash/Tests.antt =====
-- Tables with one element and with every element live, and the theorems at them.
use cse_os.Base.{◌≡◌, refl, true, none, some, arith, if◌then◌else◌, ◌==◌}
use cse_os.Hash.{
  HashTable, valid, blank, hash_func, init, insert, find, remove, stored, Inserted, Found,
}
use cse_os.Hash.Find.{find-absent, find_full}
use cse_os.Hash.Insert.{FirstGap, find-insert}
use cse_os.Hash.Size.{IsCounted, CountedResult, size_is_live}

-- The pair of 27 and page 3, at its hash.
abbrev single : HashTable
single = record {
  elems = λ i. if i == 7 then record { key = 27; value = some 3; stat = valid } else blank;
  size = 1;
}

abbrev crowded : HashTable
crowded = record { elems = λ i. record { key = i; value = some i; stat = valid }; size = 10 }

find-absent_example : find 10 single 17 ≡ Found.returned none
find-absent_example =
    find-absent 10 single 17 (omega arith) 8 (λ i h e. ground arith) (omega arith) refl
      (omega arith)

find_full_example : find 1000 crowded 57 ≡ Found.out_of_fuel
find_full_example = find_full 1000 crowded 57 (omega arith) (λ j h. refl) (λ i h e. omega arith)

size_is_live_example :
    IsCounted (init single)
    × IsCounted (remove single 27)
    × CountedResult (insert single 27 (some 4))
unfolding hash_func
size_is_live_example = size_is_live single 27 (some 4) refl

second_gap : FirstGap single 17 (hash_func 17) 8
unfolding hash_func
second_gap = record {
  above = omega arith;
  inside = omega arith;
  gap = refl;
  taken = λ i h k. ground arith;
  others = λ i h k. ground arith;
}

find-insert_example :
    (insert single 17 (some 4) ≡ Inserted.returned true (stored single 8 17 (some 4)))
    × (find 10 (stored single 8 17 (some 4)) 17 ≡ Found.returned (some 4))
find-insert_example =
    find-insert single 17 8 (some 4) (omega arith) second_gap refl 10 (omega arith)
