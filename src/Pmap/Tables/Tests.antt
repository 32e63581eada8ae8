-- ===== src/Pmap/Tables/Tests.antt =====
-- An address space on page 1 with one table, on page 2, that maps the page at 0x1000 to page 5, and
-- its directory in the UVPT and VPT windows, as env_setup_vm leaves it; runs
-- of the functions on it, and the theorems at it.
use cse_os.Base.{ℕ, ◌≡◌, refl, ◌≢◌, ◌+◌, ◌*◌, none, some, [], ◌∷◌, arith, if◌then◌else◌, ◌||◌, ◌==◌}
use cse_os.Mmu.{ulim, pte_r}
use cse_os.Mm.{Mm, Page, null_ref, head_ref, ok, kaddr}
use cse_os.Pmap.FreeList.Alloc.{kva, IsFreeList}
use cse_os.Pmap.Tables.{done, va2pa, page_insert, page_remove, pgdir_walk}
use cse_os.Pmap.Tables.Space.{IsSpace, Unseen, translation, vpn}
use cse_os.Pmap.Tables.Walk.{Walk, pgdir_walk_lem}
use cse_os.Pmap.Tables.Write.{with_entry}
use cse_os.Pmap.Tables.Remove.{InUse, Removed, unmapped_at, page_remove_lem}
use cse_os.Pmap.Tables.Insert.{
  OldPage, NewPage, Insertion, filled, page_insert_lem, va2pa-page_insert,
}

abbrev page : Page
page = record { le_next = none; le_prev = null_ref; pp_ref = 1 }

-- Page 4 is the only free one.
abbrev machine : Mm
machine = record {
  mem = λ a.
      if a == kva 1
      then 0x2600
      else if (a == kva 1 + 2044) || (a == kva 1 + 2052)
      then 0x1600
      else if a == kva 2 + 4
      then 0x5600
      else 0;
  pages = λ i. if i == 4 then record { le_next = none; le_prev = head_ref; pp_ref = 0 } else page;
  free_first = some 4;
  npage = 8;
  maxpa = 8 * 4096;
  freemem = ulim;
  tlb_outs = [];
  tlb_count = 0;
}

machine-IsFreeList : IsFreeList machine (4 ∷ [])
machine-IsFreeList = record {
  chain = (refl, refl, refl);
  distinct = (refl, tt);
  unused = (refl, tt);
  within = omega arith;
  small = omega arith;
}

machine-IsSpace : IsSpace machine 1 (4 ∷ [])
machine-IsSpace = record {
  dir_in = omega arith;
  dir_used = refl;
  small = omega arith;
  table_in = λ k h. ground arith;
  table_used = λ k h v. ground arith;
  table_ne_dir = λ k h nw v. ground arith;
  tables_ne = λ k l hk hl vk vl nw ne. ground arith;
}

page-InUse : InUse machine 1 (4 ∷ []) 5
page-InUse = record {
  inside = omega arith;
  busy = refl;
  ne_dir = omega arith;
  ne_table = λ k h v. ground arith;
}

pgdir_walk_lem_example : Walk machine 1 0x40_0000 (4 ∷ [])
pgdir_walk_lem_example =
    pgdir_walk_lem machine 1 0x40_0000 (4 ∷ []) machine-IsSpace machine-IsFreeList

page_remove_lem_example :
    (page_remove (some 0x801) (kva 1) 0x1000 machine
      ≡ ok tt (unmapped_at (some 0x801) 1 0x1000 5 machine))
    × Removed (some 0x801) machine 1 0x1000 (4 ∷ []) (unmapped_at (some 0x801) 1 0x1000 5 machine)
page_remove_lem_example =
    page_remove_lem (some 0x801) machine 1 0x1000 (4 ∷ []) machine-IsSpace machine-IsFreeList refl
      page-InUse (omega arith) (omega arith) refl

old_page : OldPage machine 1 0x1000 (4 ∷ [])
old_page = record {
  user = refl;
  used = λ _. page-InUse;
  pos = λ _. omega arith;
  bound = λ _. omega arith;
}

new_page : NewPage machine (4 ∷ []) 6
new_page = record { inside = omega arith; busy = refl; room = omega arith }

page_insert_lem_example : Insertion none machine 1 0x1000 6 pte_r (4 ∷ [])
page_insert_lem_example =
    page_insert_lem none machine 1 0x1000 6 pte_r (4 ∷ []) machine-IsSpace machine-IsFreeList
      old_page new_page

-- An address with a table and no entry.
old_none : OldPage machine 1 0x3000 (4 ∷ [])
old_none = record { user = refl; used = λ v. cc; pos = λ v. cc; bound = λ v. cc }

abbrev mapped : Mm
mapped = filled 1 0x3000 6 pte_r machine

page_insert_runs : page_insert none (kva 1) 6 0x3000 pte_r machine ≡ ok done mapped
unfolding page_insert pgdir_walk kaddr filled with_entry
page_insert_runs = refl

va2pa-page_insert_example :
    (va2pa (kva 1) 0x3000 mapped ≡ ok 0x6000 mapped)
    × ((vb : ℕ)
        → vpn vb ≢ 3
        → Unseen 0x3000 vb
        → va2pa (kva 1) vb mapped ≡ ok (translation machine 1 vb) mapped)
va2pa-page_insert_example =
    va2pa-page_insert none machine mapped 1 0x3000 6 pte_r (4 ∷ []) machine-IsSpace
      machine-IsFreeList old_none new_page (omega arith) page_insert_runs
