-- ===== src/Shm/Create.antt =====
-- env_create_share of env/env.c: a program that starts with a shared page.
use cse_os.Base.{ℕ, Option, none, some}
use cse_os.Pmap.FreeList.{increment_ref}
use cse_os.Env.{
  Kernel, Run, returned, running, idle, Allocated, allocated, no_free_env, alloc_panicked,
  alloc_faulted, env_alloc, link_runnable, set_pri,
}
use cse_os.Env.Threads.{load_icode}
use cse_os.Shm.{Shared, create_share_vm, insert_share_vm, then_page}

-- The page for key 1 gains a reference and goes into the address space of `e`. The test for NULL
-- comes after the access.
abbrev pub share_page : ℕ → Option ℕ → Kernel → Shared
share_page e none k = Shared.faulted
share_page e (some p) k = insert_share_vm e p (record k { mm = increment_ref p k.mm })

abbrev pub share_linked : ℕ → ℕ → Option Kernel → Shared
share_linked fuel e none = Shared.faulted
share_linked fuel e (some k) = then_page (create_share_vm fuel 1 k) (share_page e)

-- load_icode returns, or panics or faults; it does not run another environment.
abbrev pub share_loaded : ℕ → ℕ → Run → Shared
share_loaded fuel e (returned v k) = share_linked fuel e (link_runnable e k)
share_loaded fuel e (running k) = Shared.panicked
share_loaded fuel e (idle k) = Shared.panicked
share_loaded fuel e Run.panicked = Shared.panicked
share_loaded fuel e Run.faulted = Shared.faulted
share_loaded fuel e Run.out_of_fuel = Shared.out_of_fuel

-- `load` stands for load_elf_mapper.
module _ (load : ℕ → Kernel → ℕ × Kernel) where
  unfoldable pub share_with : ℕ → ℕ → Allocated → Shared
  unfolding load_icode link_runnable create_share_vm insert_share_vm
  share_with fuel priority (allocated e k) =
      share_loaded fuel e (load_icode load e (set_pri e priority k))
  share_with fuel priority no_free_env = Shared.panicked
  share_with fuel priority alloc_panicked = Shared.panicked
  share_with fuel priority alloc_faulted = Shared.faulted

  -- env_create_share
  unfoldable pub env_create_share : ℕ → ℕ → Kernel → Shared
  unfolding share_with
  env_create_share fuel priority k = share_with fuel priority (env_alloc 0 k)
