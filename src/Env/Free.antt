-- ===== src/Env/Free.antt =====
-- env_free of env/env.c: the address space is torn down, the environment leaves the ring of runnable
-- environments for the list of free ones, and another one runs.
use cse_os.Base.{
  ℕ, zero, suc, ◌+◌, ◌*◌, ◌^◌, Option, none, some, Bool, false, not, ◌==◌, if◌then◌else◌,
}
use cse_os.Mmu.{pte2pt, pte_addr, pdx, is_valid, utop}
use cse_os.Mm.{M, Outcome, ◌>>=◌, ◌>>◌, pure, modify, read, write, kaddr, pa2page}
use cse_os.Pmap.FreeList.{page_decref}
use cse_os.Pmap.Tables.{page_remove}
use cse_os.Env.{
  current_id, Env, Kernel, Run, returned, idle, panicked, faulted, out_of_fuel, env_run, link_to,
  set_env, env_free_status,
}

module _ (running_id : Option ℕ) (pgdir : ℕ) where
  -- The inner loop: `count` entries of the table at `pt`, from `pteno` on, are unmapped.
  unfoldable pub unmap_entries : ℕ → ℕ → ℕ → ℕ → M (Unit {0})
  unmap_entries zero pteno pdeno pt = pure tt
  unmap_entries (suc count) pteno pdeno pt =
      (do
        pte ← read (pt + 4 * pteno)
        if is_valid pte
            then page_remove running_id pgdir (pdeno * 2 ^ 22 + pteno * 2 ^ 12)
            else pure tt)
      >> unmap_entries count (pteno + 1) pdeno pt

  unmap_table : ℕ → ℕ → M (Unit {0})
  unfolding unmap_entries
  unmap_table pdeno pde = if not (is_valid pde) then pure tt else do
    pt ← kaddr (pte_addr pde)
    unmap_entries pte2pt 0 pdeno pt
    write (pgdir + 4 * pdeno) 0
    pp ← pa2page (pte_addr pde)
    modify (page_decref pp)

  -- The outer loop, over `count` entries of the directory from `pdeno` on.
  unfoldable pub unmap_tables : ℕ → ℕ → M (Unit {0})
  unfolding unmap_table
  unmap_tables zero pdeno = pure tt
  unmap_tables (suc count) pdeno =
      (read (pgdir + 4 * pdeno) >>= unmap_table pdeno) >> unmap_tables count (pdeno + 1)

-- The pages of the environment with page directory `pgdir` and env_cr3 `cr3`.
unfoldable pub free_space : Option ℕ → ℕ → ℕ → M (Unit {0})
unfolding unmap_tables
free_space running_id pgdir cr3 = do
  unmap_tables running_id pgdir (pdx utop) 0
  pp ← pa2page cr3
  modify (page_decref pp)

-- What the search for `e` in the ring ends with: its predecessor, the start again, an access
-- through NULL, or no fuel.
pub data Search : Type 0 where
  before : Option ℕ → Search
  absent : Search
  broken : Search
  endless : Search

-- The search, at `temp` with the predecessor `pre`.
unfoldable pub search_ring : ℕ → (ℕ → Env) → ℕ → ℕ → ℕ → Option ℕ → Search
search_ring zero envs head e temp pre = endless
search_ring (suc fuel) envs head e temp pre =
    let next : Search = elim ((envs temp).env_link) [
      | none ↦ broken
      | some t ↦
          let rest = search_ring fuel envs head e t (some temp) in
          if t == head then absent else rest
    ] in
    if temp == e then before pre else next

abbrev pub is_ptr : Option ℕ → ℕ → Bool
is_ptr none e = false
is_ptr (some i) e = i == e

-- Whether the ring has another environment than `e`.
abbrev pub has_runnable : ℕ → Kernel → Bool
has_runnable e k = not (is_ptr (k.envs e).env_link e)

-- `e`, whose predecessor is `pre`, leaves the ring.
unfoldable pub unlink : ℕ → ℕ → Kernel → Kernel
unlink e pre k =
    let next = (k.envs e).env_link in
    let more = has_runnable e k in
    let j = link_to pre next k in
    record j {
      env_runnable_head =
          if is_ptr k.env_runnable_head e
          then (if more then next else none)
          else k.env_runnable_head;
      env_runnable_tail =
          if is_ptr k.env_runnable_tail e
          then (if more then some pre else none)
          else k.env_runnable_tail;
    }

-- `e` goes to the front of the free list.
abbrev pub release : ℕ → Kernel → Kernel
release e k =
    record (set_env e
      (record (k.envs e) { env_status = env_free_status; env_link = k.env_free_list }) k) {
        env_free_list = some e;
      }

-- The end of env_free: another environment runs if `e` is the current one.
abbrev pub leave : ℕ → Option ℕ → Bool → Kernel → Run
leave e next more k =
    if not (is_ptr k.curenv e)
    then returned 1 k
    else if more
    then env_run next k
    else idle (record k { curenv = none })

unfoldable pub after_search : ℕ → Kernel → Search → Run
unfolding unlink
after_search e k absent = returned 0 k
after_search e k broken = faulted
after_search e k endless = out_of_fuel
after_search e k (before none) = faulted
after_search e k (before (some pre)) =
    leave e (k.envs e).env_link (has_runnable e k) (release e (unlink e pre k))

-- The search starts at the head with the tail before it. Of an empty ring, the head is NULL.
unfoldable pub remove_from : ℕ → ℕ → Kernel → Option ℕ → Option ℕ → Run
unfolding after_search search_ring
remove_from fuel e k none tail = faulted
remove_from fuel e k (some h) tail = after_search e k (search_ring fuel k.envs h e h tail)

-- env_free from the search on.
unfoldable pub leave_ring : ℕ → ℕ → Kernel → Run
unfolding remove_from
leave_ring fuel e k = remove_from fuel e k k.env_runnable_head k.env_runnable_tail

unfoldable pub after_space : ℕ → ℕ → Kernel → Outcome (Unit {0}) → Run
unfolding leave_ring
after_space fuel e k (Outcome.ok u m) =
    leave_ring fuel e
      (record (set_env e (record (k.envs e) { env_pgdir = 0; env_cr3 = 0 }) k) { mm = m })
after_space fuel e k Outcome.panic = panicked
after_space fuel e k Outcome.fault = faulted

-- env_free
unfoldable pub env_free : ℕ → ℕ → Kernel → Run
unfolding after_space free_space
env_free fuel e k =
    after_space fuel e k
      (free_space (current_id k k.curenv) (k.envs e).env_pgdir (k.envs e).env_cr3 k.mm)
