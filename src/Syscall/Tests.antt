-- ===== src/Syscall/Tests.antt =====
-- Environments 0, 1 and 2 in the ring, with one address space on page 1 that maps the page at 0x1000
-- to page 5, and 3 and 4 free; the theorems on the system calls at this kernel.
use cse_os.Base.{
  ℕ, ◌≡◌, refl, ◌+◌, ◌*◌, ◌%◌, none, some, Option, [], ◌∷◌, arith, if◌then◌else◌, ◌||◌, ◌==◌, inl,
}
use cse_os.Mmu.{ulim, word}
use cse_os.Mm.{Mm, Page, null_ref, head_ref}
use cse_os.Pmap.FreeList.Alloc.{kva}
use cse_os.Pmap.Tables.Remove.{InUse}
use cse_os.Hash.{blank}
use cse_os.Env.{Trapframe, Env, Kernel, envid2env, returned}
use cse_os.Env.Ring.{IsRing}
use cse_os.Env.Alloc.{IsFreeEnvs}
use cse_os.Sched.{sched_yield}
use cse_os.Syscall.Ipc.{set_status, sys_ipc_recv}
use cse_os.Syscall.Ipc.Receive.{Waiting, sys_ipc_recv_lem}
use cse_os.Syscall.Status.{sys_set_env_status, sys_set_env_status_lem}
use cse_os.Syscall.Dev.{sys_write_dev, InDevice, dev_calls-InDevice}

abbrev page : Page
page = record { le_next = none; le_prev = null_ref; pp_ref = 1 }

-- Page 4 is the only free one.
abbrev machine : Mm
machine = record {
  mem = λ a.
      if a == kva 1
      then 0x2600
      else if (a == kva 1 + 2044) || (a == kva 1 + 2052)
      then 0x1600
      else if a == kva 2 + 4
      then 0x5600
      else 0;
  pages = λ i. if i == 4 then record { le_next = none; le_prev = head_ref; pp_ref = 0 } else page;
  free_first = some 4;
  npage = 8;
  maxpa = 8 * 4096;
  freemem = ulim;
  tlb_outs = [];
  tlb_count = 0;
}

page-InUse : InUse machine 1 (4 ∷ []) 5
page-InUse = record {
  inside = omega arith;
  busy = refl;
  ne_dir = omega arith;
  ne_table = λ k h v. ground arith;
}

abbrev no_tf : Trapframe
no_tf = record {
  regs = λ r. 0;
  cp0_status = 0;
  hi = 0;
  lo = 0;
  cp0_badvaddr = 0;
  cp0_cause = 0;
  cp0_epc = 0;
}

abbrev block : Option ℕ → ℕ → ℕ → ℕ → Env
block link id status pri = record {
  env_tf = no_tf;
  env_link = link;
  env_id = id;
  env_parent_id = 0;
  env_status = status;
  env_pgdir = kva 1;
  env_cr3 = 0x1000;
  env_pri = pri;
  env_ipc_value = 0;
  env_ipc_from = 0;
  env_ipc_recving = 0;
  env_ipc_dstva = 0;
  env_ipc_perm = 0;
  env_pgfault_handler = 0;
  env_xstacktop = 0;
  env_runs = 0;
  heap_pc = 0;
}

abbrev blocks : ℕ → Env
blocks i =
    if i == 0
    then block (some 1) 0x800 1 2
    else if i == 1
    then block (some 2) 0x1001 1 4
    else if i == 2
    then block (some 0) 0x1802 1 4
    else if i == 3
    then block (some 4) 0 0 0
    else block none 0 0 0

abbrev kernel : Kernel
kernel = record {
  mm = machine;
  ht = record { elems = λ i. blank; size = 0 };
  envs = blocks;
  curenv = some 0;
  env_free_list = some 3;
  env_runnable_head = some 0;
  env_runnable_tail = some 2;
  next_env_id = 3;
  remaining_time = 1;
  boot_pgdir = ulim + 0x2000;
  context = 0;
  asid = 0;
}

three-IsRing : IsRing kernel (0 ∷ 1 ∷ 2 ∷ [])
three-IsRing = (refl, refl, (refl, (refl, refl)), (refl, (refl, (refl, tt))))

kernel-IsFreeEnvs : IsFreeEnvs kernel (3 ∷ 4 ∷ [])
kernel-IsFreeEnvs = record {
  chain = (refl, refl, (refl, refl, refl));
  distinct = (refl, (refl, tt));
}

sys_ipc_recv_lem_example :
    (j : Kernel) × (sys_ipc_recv 8 0x2000 kernel ≡ sched_yield 8 j)
    × Waiting kernel 0 0x2000 (1 ∷ 2 ∷ []) (3 ∷ 4 ∷ []) j
sys_ipc_recv_lem_example =
    sys_ipc_recv_lem 8 0x2000 kernel 0 [] (1 ∷ 2 ∷ []) (3 ∷ 4 ∷ []) three-IsRing kernel-IsFreeEnvs
      refl refl refl (omega arith) (omega arith) (omega arith)

sys_set_env_status_lem_example :
    (sys_set_env_status 0 0x1001 2 kernel ≡ returned 0 (set_status 1 2 kernel))
    × IsRing (set_status 1 2 kernel) (0 ∷ 1 ∷ 2 ∷ [])
unfolding envid2env
sys_set_env_status_lem_example =
    sys_set_env_status_lem 0 0x1001 2 kernel 1 (0 ∷ 1 ∷ 2 ∷ []) (omega arith) refl three-IsRing

dev_calls-InDevice_example :
    InDevice 0x1000_0004 4
    × (◌≡◌ {A = ℕ} 4 4)
    × (◌≡◌ {A = ℕ} 0x5000 0x5000)
    × (0xb000_0004 ≡ (0x1000_0004 + 0xa000_0000) % word)
unfolding sys_write_dev
dev_calls-InDevice_example =
    dev_calls-InDevice 0x5000 0x1000_0004 4 0x5000 0xb000_0004 4 (omega arith) (inl refl)
