-- ===== src/Syscall/Memory.antt =====
-- sys_mem_alloc, sys_mem_map and sys_mem_unmap of lib/syscall_all.c.
pub mod Alloc
pub mod Map
use cse_os.Base.{
  ℕ, ◌-◌, ◌%◌, Option, none, some, Bool, true, false, not, ◌||◌, leb, ◌==◌, if◌then◌else◌,
}
use cse_os.Mmu.{utop, is_valid, by2pg}
use cse_os.Mm.{Mm, Outcome}
use cse_os.Pmap.FreeList.{page_alloc}
use cse_os.Pmap.Tables.{Status, done, no_mem, page_insert, page_lookup, page_remove}
use cse_os.Env.{on_mm, deref, Kernel, Env, Run, returned, envid2env, current_id}
use cse_os.Syscall.{e_bad_env, e_inval, e_no_mem, on_env}

-- `!(perm & PTE_V) || (perm & PTE_COW)`
abbrev pub bad_perm : ℕ → Bool
bad_perm perm = not (is_valid perm) || (perm % 2 == 1)

-- ROUNDDOWN(va, BY2PG)
abbrev pub round_down : ℕ → ℕ
round_down va = va - va % by2pg

-- The end of a call that inserts a page.
abbrev pub after_insert : Status → Kernel → Run
after_insert done k = returned 0 k
after_insert no_mem k = returned e_no_mem k

-- `page_insert(env->env_pgdir, pp, va, perm)` for the environment `e`.
abbrev pub insert_into : ℕ → ℕ → ℕ → ℕ → Kernel → Run
insert_into e pp va perm k =
    on_mm k (page_insert (current_id k k.curenv) (k.envs e).env_pgdir pp va perm k.mm) after_insert

unfoldable pub alloc_into : ℕ → ℕ → ℕ → Option ℕ → Kernel → Run
unfolding envid2env page_insert
alloc_into envid va perm none k = returned e_no_mem k
alloc_into envid va perm (some pp) k =
    on_env k e_bad_env (envid2env envid true k) (λ o. deref o (λ e. insert_into e pp va perm k))

-- sys_mem_alloc; `va < 0` is false of an unsigned va.
unfoldable pub sys_mem_alloc : ℕ → ℕ → ℕ → Kernel → Run
unfolding alloc_into page_alloc
sys_mem_alloc envid va perm k =
    if bad_perm perm
    then returned e_inval k
    else if leb utop va
    then returned e_inval k
    else on_mm k (page_alloc k.mm) (alloc_into envid va perm)

unfoldable pub map_found : Option ℕ → ℕ → ℕ → Option (ℕ × ℕ) → Kernel → Run
unfolding page_insert
map_found dst dstva perm none k = returned e_no_mem k
map_found dst dstva perm (some (pp, ppte)) k =
    deref dst (λ e. insert_into e pp (round_down dstva) perm k)

unfoldable pub map_between : Option ℕ → ℕ → Option ℕ → ℕ → ℕ → Kernel → Run
unfolding map_found page_lookup
map_between src srcva dst dstva perm k =
    if leb utop srcva || leb utop dstva
    then returned e_no_mem k
    else if bad_perm perm
    then returned e_no_mem k
    else deref src (λ e.
      on_mm k (page_lookup (k.envs e).env_pgdir (round_down srcva) k.mm) (map_found dst dstva perm))

-- sys_mem_map
unfoldable pub sys_mem_map : ℕ → ℕ → ℕ → ℕ → ℕ → Kernel → Run
unfolding map_between envid2env
sys_mem_map srcid srcva dstid dstva perm k = on_env k e_bad_env (envid2env srcid true k) (λ src.
    on_env k e_bad_env (envid2env dstid true k) (λ dst. map_between src srcva dst dstva perm k))

-- sys_mem_unmap
unfoldable pub sys_mem_unmap : ℕ → ℕ → Kernel → Run
unfolding envid2env page_remove
sys_mem_unmap envid va k = on_env k e_bad_env (envid2env envid true k) (λ o.
    if leb utop va
    then returned e_no_mem k
    else deref o (λ e.
      on_mm k (page_remove (current_id k k.curenv) (k.envs e).env_pgdir va k.mm) (λ u. returned 0)))
