-- ===== src/Pmap/FreeList/Tests.antt =====
-- A machine of eight pages, runs of the page functions on it, and the theorems at it.
use cse_os.Base.{ℕ, ◌≡◌, refl, ◌≢◌, ◌+◌, ◌*◌, none, some, [], ◌∷◌, arith, if◌then◌else◌, ◌==◌}
use cse_os.Mmu.{round_page, ulim}
use cse_os.Mm.{Mm, Page, null_ref, head_ref, next_ref, ok}
use cse_os.Pmap.FreeList.{page_init, page_decref, list_insert_head, mark_used, mark_free}
use cse_os.Pmap.FreeList.Alloc.{IsFreeList, Allocates, page_alloc_lem, page_decref_lem}
use cse_os.Pmap.FreeList.Init.{first_free, initialised, Initialised, page_init_lem}

abbrev page : Page
page = record { le_next = none; le_prev = null_ref; pp_ref = 0 }

-- Before page_init: the kernel ends inside page 2.
abbrev booted : Mm
booted = record {
  mem = λ _. 7;
  pages = λ _. page;
  free_first = none;
  npage = 8;
  maxpa = 8 * 4096;
  freemem = ulim + 2 * 4096 + 100;
  tlb_outs = [];
  tlb_count = 0;
}

-- Pages 4 and 6 are free, in this order; the others have two references.
abbrev pages : ℕ → Page
pages i =
    if i == 4
    then record { le_next = some 6; le_prev = head_ref; pp_ref = 0 }
    else if i == 6
    then record { le_next = none; le_prev = next_ref 4; pp_ref = 0 }
    else if i == 5
    then record page { pp_ref = 1 }
    else record page { pp_ref = 2 }

abbrev machine : Mm
machine = record booted { pages = pages; free_first = some 4 }

machine-IsFreeList : IsFreeList machine (4 ∷ 6 ∷ [])
machine-IsFreeList = record {
  chain = (refl, refl, (refl, refl, refl));
  distinct = (refl, (refl, tt));
  unused = (refl, (refl, tt));
  within = omega arith;
  small = omega arith;
}

page_alloc_lem_example : Allocates machine (4 ∷ 6 ∷ [])
page_alloc_lem_example = page_alloc_lem machine (4 ∷ 6 ∷ []) machine-IsFreeList

page_decref_lem_example :
    IsFreeList (page_decref 5 machine) (5 ∷ 4 ∷ 6 ∷ [])
    × (((page_decref 5 machine).pages 5).pp_ref + 1 ≡ 1)
    × ((j : ℕ) → j ≢ 5 → ((page_decref 5 machine).pages j).pp_ref ≡ (pages j).pp_ref)
    × ((page_decref 5 machine).mem ≡ machine.mem)
page_decref_lem_example =
    page_decref_lem machine 5 (4 ∷ 6 ∷ []) machine-IsFreeList refl (omega arith) (omega arith)
      (omega arith)

page_init_lem_example :
    (page_init booted ≡ ok tt (initialised booted))
    × Initialised booted (first_free booted) (initialised booted)
unfolding round_page
page_init_lem_example = page_init_lem booted (omega arith) (omega arith) (omega arith)

-- The kernel keeps pages 0 to 2, and page 7 heads the list.
page_init_runs :
    ((initialised booted).free_first ≡ some 7) × (((initialised booted).pages 2).pp_ref ≡ 1)
unfolding round_page mark_free mark_used list_insert_head
page_init_runs = (refl, refl)
