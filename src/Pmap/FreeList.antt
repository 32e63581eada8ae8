-- ===== src/Pmap/FreeList.antt =====
-- The list of free pages: LIST_REMOVE and LIST_INSERT_HEAD of inc/queue.h at `pp_link`, and the
-- functions of mm/pmap.c that keep the list (page_init, page_alloc, page_free, page_decref).
pub mod Chain
pub mod Alloc
pub mod Init
mod Tests
use cse_os.Base.{
  update, ℕ, zero, suc, ◌+◌, ◌-◌, ◌%◌, ◌^◌, Option, none, some, ltb, ◌==◌, if◌then◌else◌,
}
use cse_os.Mmu.{by2pg, ppn, round_page}
use cse_os.Mm.{
  LinkRef, null_ref, head_ref, next_ref, Page, Mm, M, ok, fault, ◌>>=◌, ◌>>◌, pure, gets, modify,
  bzero, paddr, page2kva,
}

abbrev pub set_page : ℕ → Page → Mm → Mm
set_page i p m = record m { pages = update m.pages i p }

abbrev pub set_next : ℕ → Option ℕ → Mm → Mm
set_next i o m = set_page i (record (m.pages i) { le_next = o }) m

abbrev pub set_prev : ℕ → LinkRef → Mm → Mm
set_prev i r m = set_page i (record (m.pages i) { le_prev = r }) m

abbrev pub set_ref : ℕ → ℕ → Mm → Mm
set_ref i n m = set_page i (record (m.pages i) { pp_ref = n }) m

-- `*r = o` for a pointer to a link.
abbrev pub store_link : LinkRef → Option ℕ → M (Unit {0})
store_link null_ref o m = fault
store_link head_ref o m = ok tt (record m { free_first = o })
store_link (next_ref i) o m = ok tt (set_next i o m)

-- `elm->le_next->le_prev = elm->le_prev`, if there is a next element.
abbrev pub relink_next : Option ℕ → LinkRef → Mm → Mm
relink_next none r m = m
relink_next (some j) r m = set_prev j r m

unfoldable pub list_remove : ℕ → M (Unit {0})
list_remove i m =
    let m' = relink_next (m.pages i).le_next (m.pages i).le_prev m in
    store_link (m'.pages i).le_prev (m'.pages i).le_next m'

unfoldable pub list_insert_head : ℕ → Mm → Mm
list_insert_head i m =
    let m₁ = set_next i m.free_first m in
    let m₂ = relink_next m.free_first (next_ref i) m₁ in
    set_prev i head_ref (record m₂ { free_first = some i })

-- `none` is the return of -E_NO_MEM; `some pp` is the return of 0 with `pp` stored.
take_page : Option ℕ → M (Option ℕ)
unfolding list_remove page2kva
take_page none = pure none
take_page (some i) = do kva ← page2kva i; bzero kva by2pg; list_remove i; pure (some i)

unfoldable pub page_alloc : M (Option ℕ)
unfolding take_page
page_alloc m = take_page m.free_first m

-- `pp_ref` is unsigned, so the third branch of the source, `pp_ref < 0`, is never taken.
unfoldable pub page_free : ℕ → Mm → Mm
page_free i m = if ltb 0 (m.pages i).pp_ref then m else list_insert_head i m

-- `--pp->pp_ref` and `pp->pp_ref++` on a `u_short`.
unfoldable pub decrement_ref : ℕ → Mm → Mm
decrement_ref i m = set_ref i (((m.pages i).pp_ref + 2 ^ 16 - 1) % 2 ^ 16) m

unfoldable pub increment_ref : ℕ → Mm → Mm
increment_ref i m = set_ref i (((m.pages i).pp_ref + 1) % 2 ^ 16) m

unfoldable pub page_decref : ℕ → Mm → Mm
page_decref i m =
    let m' = decrement_ref i m in if (m'.pages i).pp_ref == 0 then page_free i m' else m'

-- The first loop of page_init: `count` pages from `i` on are in use.
unfoldable pub mark_used : ℕ → ℕ → Mm → Mm
mark_used zero i m = m
mark_used (suc count) i m = mark_used count (i + 1) (set_ref i 1 m)

-- The second loop: `count` pages from `i` on go to the front of the list, one after another.
unfoldable pub mark_free : ℕ → ℕ → Mm → Mm
mark_free zero i m = m
mark_free (suc count) i m = mark_free count (i + 1) (list_insert_head i (set_ref i 0 m))

unfoldable pub page_init : M (Unit {0})
unfolding mark_used mark_free list_insert_head paddr
page_init = do
  modify (λ m. record m { free_first = none; freemem = round_page m.freemem })
  freemem ← gets (λ m. m.freemem)
  pa ← paddr freemem
  modify (mark_used (ppn pa) 0)
  modify (λ m. mark_free (m.npage - ppn pa) (ppn pa) m)
