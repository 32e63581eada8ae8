-- ===== src/Shm.antt =====
-- Shared memory: create_share_vm, insert_share_vm and page_alloc_share of mm/pmap.c, and sys_get_shm
-- of lib/syscall_all.c. A key stands for a page in the hash table of env/hash.c.
pub mod Same
pub mod Create
mod Tests
use cse_os.Base.{ℕ, ◌+◌, ◌%◌, Option, none, some}
use cse_os.Mmu.{word, by2pg, pte_v, pte_r}
use cse_os.Mm.{Mm, M, Outcome, ◌>>=◌, ◌>>◌, pure, bzero, page2kva}
use cse_os.Pmap.FreeList.{page_alloc, set_ref, list_remove}
use cse_os.Pmap.Tables.{Status, done, no_mem, page_insert}
use cse_os.Hash.{HashTable, Found, Inserted, find, insert}
use cse_os.Base.{bit_or}
use cse_os.Env.{Kernel, Env, set_env, current_id}

share_first : Option ℕ → M (Option ℕ)
unfolding list_remove page2kva
share_first none = pure none
share_first (some i) = do
  kva ← page2kva i
  bzero kva by2pg
  list_remove i
  k ← page2kva i
  pure (some k)

-- page_alloc_share, whose value is the page's kernel address; `none` is the return of -E_NO_MEM.
unfoldable pub page_alloc_share : M (Option ℕ)
unfolding share_first
page_alloc_share m = share_first m.free_first m

-- The outcome of a call on shared memory: a result (NULL is `none`), panic(), an access through NULL
-- or beyond the hash table, or no fuel for the look-up.
pub data Shared : Type 0 where
  shared : Option ℕ → Kernel → Shared
  panicked : Shared
  faulted : Shared
  overrun : Shared
  out_of_fuel : Shared

abbrev pub then_page : Shared → (Option ℕ → Kernel → Shared) → Shared
then_page (shared p k) f = f p k
then_page panicked f = panicked
then_page faulted f = faulted
then_page overrun f = overrun
then_page out_of_fuel f = out_of_fuel

-- The end of create_share_vm, with the new page and the hash table after its insertion.
abbrev pub recorded : ℕ → Kernel → Inserted → Shared
recorded p k (Inserted.returned b ht) = shared (some p) (record k { ht = ht })
recorded p k Inserted.overrun = overrun

-- The check on page_alloc compares a `u_long` with 0, so that a failure goes on with NULL.
unfoldable pub create_page : ℕ → Kernel → Outcome (Option ℕ) → Shared
unfolding insert
create_page key k (Outcome.ok none m) = faulted
create_page key k (Outcome.ok (some p) m) =
    recorded p (record k { mm = set_ref p 1 m }) (insert k.ht key (some p))
create_page key k Outcome.panic = panicked
create_page key k Outcome.fault = faulted

unfoldable pub create_if : ℕ → Kernel → Found → Shared
unfolding create_page page_alloc
create_if key k (Found.returned (some p)) = shared (some p) k
create_if key k (Found.returned none) = create_page key k (page_alloc k.mm)
create_if key k Found.overrun = overrun
create_if key k Found.out_of_fuel = out_of_fuel

-- create_share_vm
unfoldable pub create_share_vm : ℕ → ℕ → Kernel → Shared
unfolding create_if find
create_share_vm fuel key k = create_if key k (find fuel k.ht key)

abbrev pub grow : ℕ → Kernel → Kernel
grow e k = set_env e (record (k.envs e) { heap_pc = ((k.envs e).heap_pc + by2pg) % word }) k

-- The status of page_insert is lost, since it is compared with 0 as a `u_long`.
abbrev pub heap_mapped : ℕ → Kernel → Outcome Status → Shared
heap_mapped e k (Outcome.ok s m) = shared (some ((k.envs e).heap_pc)) (grow e (record k { mm = m }))
heap_mapped e k Outcome.panic = panicked
heap_mapped e k Outcome.fault = faulted

-- insert_share_vm
unfoldable pub insert_share_vm : ℕ → ℕ → Kernel → Shared
unfolding page_insert
insert_share_vm e p k = heap_mapped e k (
    page_insert (current_id k k.curenv) (k.envs e).env_pgdir p (k.envs e).heap_pc
      (bit_or pte_v pte_r) k.mm)

unfoldable pub insert_if : Option ℕ → Option ℕ → Kernel → Shared
unfolding insert_share_vm
insert_if c none k = shared none k
insert_if none (some p) k = faulted
insert_if (some c) (some p) k = insert_share_vm c p k

-- sys_get_shm
unfoldable pub sys_get_shm : ℕ → ℕ → Kernel → Shared
unfolding create_share_vm insert_if
sys_get_shm fuel key k = then_page (create_share_vm fuel key k) (λ p j. insert_if j.curenv p j)
