-- ===== src/Shm/Tests.antt =====
-- A kernel in which key 27 stands for page 3 and page 4 is free; the theorem on create_share_vm at it.
use cse_os.Base.{ℕ, ◌≡◌, refl, ◌+◌, ◌*◌, none, some, Option, [], ◌∷◌, arith, if◌then◌else◌, ◌==◌}
use cse_os.Mmu.{ulim}
use cse_os.Mm.{Mm, Page, null_ref, head_ref}
use cse_os.Pmap.FreeList.Alloc.{kva, IsFreeList}
use cse_os.Hash.{HashTable, blank, valid, hash_func}
use cse_os.Hash.Find.{IsAbsent}
use cse_os.Hash.Insert.{FirstGap}
use cse_os.Env.{Trapframe, Env, Kernel}
use cse_os.Shm.{shared, create_share_vm}
use cse_os.Shm.Same.{created, create_share_vm-create_share_vm}

-- The pair of 27 and page 3, at its hash.
abbrev single : HashTable
single = record {
  elems = λ i. if i == 7 then record { key = 27; value = some 3; stat = valid } else blank;
  size = 1;
}

abbrev page : Page
page = record { le_next = none; le_prev = null_ref; pp_ref = 1 }

-- Page 4 is the only free one.
abbrev machine : Mm
machine = record {
  mem = λ a. if a == kva 1 then 0x2600 else if a == kva 2 + 4 then 0x5600 else 0;
  pages = λ i. if i == 4 then record { le_next = none; le_prev = head_ref; pp_ref = 0 } else page;
  free_first = some 4;
  npage = 8;
  maxpa = 8 * 4096;
  freemem = ulim;
  tlb_outs = [];
  tlb_count = 0;
}

machine-IsFreeList : IsFreeList machine (4 ∷ [])
machine-IsFreeList = record {
  chain = (refl, refl, refl);
  distinct = (refl, tt);
  unused = (refl, tt);
  within = omega arith;
  small = omega arith;
}

abbrev no_tf : Trapframe
no_tf = record {
  regs = λ r. 0;
  cp0_status = 0;
  hi = 0;
  lo = 0;
  cp0_badvaddr = 0;
  cp0_cause = 0;
  cp0_epc = 0;
}

abbrev block : Option ℕ → ℕ → ℕ → ℕ → Env
block link id status pri = record {
  env_tf = no_tf;
  env_link = link;
  env_id = id;
  env_parent_id = 0;
  env_status = status;
  env_pgdir = ulim + 0x1000;
  env_cr3 = 0x1000;
  env_pri = pri;
  env_ipc_value = 0;
  env_ipc_from = 0;
  env_ipc_recving = 0;
  env_ipc_dstva = 0;
  env_ipc_perm = 0;
  env_pgfault_handler = 0;
  env_xstacktop = 0;
  env_runs = 0;
  heap_pc = 0;
}

abbrev blocks : ℕ → Env
blocks i =
    if i == 0
    then block (some 1) 0x800 1 2
    else if i == 1
    then block (some 2) 0x1001 1 4
    else if i == 2
    then block (some 0) 0x1802 1 4
    else if i == 3
    then block (some 4) 0 0 0
    else block none 0 0 0

abbrev kernel : Kernel
kernel = record {
  mm = machine;
  ht = single;
  envs = blocks;
  curenv = some 0;
  env_free_list = some 3;
  env_runnable_head = some 0;
  env_runnable_tail = some 2;
  next_env_id = 3;
  remaining_time = 1;
  boot_pgdir = ulim + 0x2000;
  context = 0;
  asid = 0;
}

second_gap : FirstGap single 17 (hash_func 17) 8
unfolding hash_func
second_gap = record {
  above = omega arith;
  inside = omega arith;
  gap = refl;
  taken = λ i h k. ground arith;
  others = λ i h k. ground arith;
}

key-IsAbsent : IsAbsent single 17
key-IsAbsent = λ i h e. ground arith

create_share_vm-create_share_vm_example :
    (create_share_vm 10 17 kernel ≡ shared (some 4) (created 17 4 8 kernel))
    × (create_share_vm 10 17 (created 17 4 8 kernel) ≡ shared (some 4) (created 17 4 8 kernel))
create_share_vm-create_share_vm_example =
    create_share_vm-create_share_vm 10 17 4 8 8 kernel [] machine-IsFreeList (omega arith)
      key-IsAbsent second_gap refl (omega arith) refl (omega arith)
