-- ===== src/Env/Threads.antt =====
-- copy_curenv, pthread_create and env_create_priority of env/env.c.
use cse_os.Base.{
  ℕ, zero, suc, ◌+◌, ◌-◌, ◌*◌, ◌^◌, Option, none, some, not, ◌==◌, if◌then◌else◌, update, bit_or,
}
use cse_os.Mmu.{pte2pt, pte_addr, pte_v, pte_r, pdx, is_valid, utop, vpt, uvpt, ustacktop, by2pg}
use cse_os.Mm.{M, Outcome, ◌>>=◌, ◌>>◌, pure, modify, read, write, kaddr, pa2page, page2kva, paddr}
use cse_os.Pmap.FreeList.{page_alloc, increment_ref, decrement_ref}
use cse_os.Pmap.Tables.{Status, page_insert}
use cse_os.Env.{
  Kernel, Run, returned, panicked, faulted, Allocated, allocated, no_free_env, alloc_panicked,
  alloc_faulted, env_alloc, env_alloc_arg, link_runnable, set_pri, set_env, current_id, on_mm,
  deref,
}

-- The running environment's identifier, the directory that is copied and the new one.
module _ (running_id : Option ℕ) (src dst : ℕ) where
  -- `count` entries of the table at `pt`, from `pteno` on, are mapped in the new address space too,
  -- and their pages gain a second reference.
  unfoldable pub copy_pages : ℕ → ℕ → ℕ → ℕ → M (Unit {0})
  unfolding page_insert pa2page increment_ref
  copy_pages zero pteno pdeno pt = pure tt
  copy_pages (suc count) pteno pdeno pt =
      (do
        pte ← read (pt + 4 * pteno)
        if not (is_valid pte) then pure tt else do
          pp ← pa2page (pte_addr pte)
          page_insert running_id dst pp (pdeno * 2 ^ 22 + pteno * 2 ^ 12) (bit_or pte_v pte_r)
          modify (increment_ref pp))
      >> copy_pages count (pteno + 1) pdeno pt

  copy_table : ℕ → ℕ → M (Unit {0})
  unfolding copy_pages kaddr pa2page increment_ref
  copy_table pdeno pde = if not (is_valid pde) then write (dst + 4 * pdeno) 0 else do
    pt ← kaddr (pte_addr pde)
    pp ← pa2page (pte_addr pde)
    modify (increment_ref pp)
    copy_pages pte2pt 0 pdeno pt

  unfoldable pub copy_tables : ℕ → ℕ → M (Unit {0})
  unfolding copy_table
  copy_tables zero pdeno = pure tt
  copy_tables (suc count) pdeno =
      (read (src + 4 * pdeno) >>= copy_table pdeno) >> copy_tables count (pdeno + 1)

  -- The pages of a table of the stack lose a reference.
  unfoldable pub drop_pages : ℕ → ℕ → ℕ → M (Unit {0})
  unfolding pa2page decrement_ref
  drop_pages zero pteno pt = pure tt
  drop_pages (suc count) pteno pt =
      (do
        pte ← read (pt + 4 * pteno)
        if not (is_valid pte)
            then pure tt
            else do pp ← pa2page (pte_addr pte); modify (decrement_ref pp))
      >> drop_pages count (pteno + 1) pt

  drop_table : ℕ → M (Unit {0})
  unfolding drop_pages kaddr pa2page decrement_ref
  drop_table pdeno = do
    pde ← read (src + 4 * pdeno)
    pt ← kaddr (pte_addr pde)
    pp ← pa2page (pte_addr pde)
    modify (decrement_ref pp)
    drop_pages pte2pt 0 pt
    write (dst + 4 * pdeno) 0

  -- The loop that clears the stack, down from entry `pdeno - 1` to the first that is not valid. Below
  -- entry 0 it would read before the directory, which counts as a fault.
  unfoldable pub drop_stack : ℕ → M (Unit {0})
  unfolding drop_table
  drop_stack zero = λ _. Outcome.fault
  drop_stack (suc pdeno) = do
    pde ← read (dst + 4 * pdeno)
    if not (is_valid pde) then pure tt else (drop_table pdeno >> drop_stack pdeno)

fill_copy : Option ℕ → ℕ → Option ℕ → M (ℕ × ℕ)
unfolding copy_tables drop_stack page2kva paddr increment_ref
fill_copy running_id src none = λ _. Outcome.panic
fill_copy running_id src (some p) = do
  modify (increment_ref p)
  dst ← page2kva p
  copy_tables running_id src dst (pdx utop) 0
  drop_stack running_id src dst (suc (pdx ustacktop))
  cr3 ← paddr dst
  write (dst + 4 * pdx vpt) cr3
  write (dst + 4 * pdx uvpt) (bit_or (bit_or cr3 pte_v) pte_r)
  pure (dst, cr3)

-- The new page directory of copy_curenv and its physical address.
unfoldable pub copy_space : Option ℕ → ℕ → M (ℕ × ℕ)
unfolding fill_copy page_alloc
copy_space running_id src = page_alloc >>= fill_copy running_id src

abbrev pub copied : ℕ → ℕ → ℕ → ℕ × ℕ → Kernel → Kernel
copied e func arg (pgdir, cr3) k =
    set_env e
      (record (k.envs e) {
        env_tf = record (k.envs e).env_tf {
          cp0_epc = func;
          regs = update (k.envs e).env_tf.regs 4 arg;
        };
        env_pgdir = pgdir;
        env_cr3 = cr3;
      })
      k

-- copy_curenv of `env_src` into `e`.
unfoldable pub copy_curenv : ℕ → ℕ → ℕ → ℕ → Kernel → Run
unfolding copy_space
copy_curenv e env_src func arg k =
    on_mm k (copy_space (current_id k k.curenv) (k.envs env_src).env_pgdir k.mm)
      (λ d j. returned 0 (copied e func arg d j))

abbrev pub then_link : ℕ → Run → Run
then_link e (returned v k) = elim (link_runnable e k) [ none ↦ faulted | some j ↦ returned v j ]
then_link e run = run

unfoldable pub thread_with : ℕ → ℕ → Allocated → Run
unfolding copy_curenv link_runnable
thread_with func arg (allocated e k) =
    deref k.curenv (λ c. then_link e (copy_curenv e c func arg k))
thread_with func arg no_free_env = panicked
thread_with func arg alloc_panicked = panicked
thread_with func arg alloc_faulted = faulted

-- pthread_create
unfoldable pub pthread_create : ℕ → ℕ → Kernel → Run
unfolding thread_with
pthread_create func arg k = thread_with func arg (env_alloc 0 k)

-- `load` stands for load_elf_mapper, which reads a program from the SD card through FatFs into the
-- memory of the environment: the entry point, 1 on a failure, and the kernel afterwards.
module _ (load : ℕ → Kernel → ℕ × Kernel) where
  abbrev pub entered_at : ℕ → ℕ × Kernel → Run
  entered_at e (entry_point, k) =
      if entry_point == 1
      then panicked
      else returned 0 (
          set_env e
            (record (k.envs e) {
              env_tf = record (k.envs e).env_tf {
                cp0_epc = entry_point;
                regs = update (k.envs e).env_tf.regs 25 entry_point;
              };
            })
            k)

  -- The status of page_insert is lost, since it is compared with 0 as a `u_long`.
  abbrev pub load_after : ℕ → Status → Kernel → Run
  load_after e s k = entered_at e (load e k)

  -- The page of the stack; the reference is counted before the failure of page_alloc is looked at.
  unfoldable pub stack_page : ℕ → Option ℕ → Kernel → Run
  unfolding page_insert increment_ref
  stack_page e none k = faulted
  stack_page e (some p) k =
      on_mm k
        (page_insert (current_id k k.curenv) (k.envs e).env_pgdir p (ustacktop - by2pg)
          (bit_or pte_v pte_r) (increment_ref p k.mm))
        (load_after e)

  -- load_icode
  unfoldable pub load_icode : ℕ → Kernel → Run
  unfolding stack_page page_alloc
  load_icode e k = on_mm k (page_alloc k.mm) (stack_page e)

  unfoldable pub create_with : ℕ → Allocated → Run
  unfolding load_icode link_runnable
  create_with priority (allocated e k) = then_link e (load_icode e (set_pri e priority k))
  create_with priority no_free_env = panicked
  create_with priority alloc_panicked = panicked
  create_with priority alloc_faulted = faulted

  -- env_create_priority_arg; env_create_priority is the same with no argument.
  unfoldable pub env_create_priority_arg : ℕ → Option ℕ → Kernel → Run
  unfolding create_with env_alloc_arg
  env_create_priority_arg priority arg k = create_with priority (env_alloc_arg 0 arg k)

  -- env_create_priority
  unfoldable pub env_create_priority : ℕ → Kernel → Run
  unfolding env_create_priority_arg
  env_create_priority priority k = env_create_priority_arg priority none k
