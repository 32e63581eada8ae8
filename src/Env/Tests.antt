-- ===== src/Env/Tests.antt =====
-- A kernel with environments 0, 1 and 2 in the ring and 3 and 4 free; the theorems on env/env.c at
-- it.
use cse_os.Base.{
  ℕ, ◌+◌, ◌*◌, ◌%◌, ◌≡◌, refl, Option, none, some, true, [], ◌∷◌, arith, ◌==◌, if◌then◌else◌,
}
use cse_os.Mmu.{ulim}
use cse_os.Mm.{Mm, null_ref, head_ref}
use cse_os.Hash.{blank}
use cse_os.Env.{Trapframe, Env, Kernel, env_free_status, mkenvid, envid2env, bad_env, env_setup_vm}
use cse_os.Mm.{ok, page2pa}
use cse_os.Pmap.FreeList.Alloc.{IsFreeList, kva}
use cse_os.Pmap.Tables.Space.{pde, IsSpace}
use cse_os.Env.Setup.{entry_of, env_setup_vm_lem}
use cse_os.Env.Ring.{IsRing}
use cse_os.Env.Free.{leave_ring}
use cse_os.Env.Leave.{GoesOn, leave_ring_lem}
use cse_os.Env.Setup.Windows.{env_setup_vm-IsSpace}
use cse_os.Env.Ids.{envid2env-mkenvid}
use cse_os.Env.Alloc.{IsFreeEnvs, Allocates, env_alloc_lem}

abbrev no_tf : Trapframe
no_tf = record {
  regs = λ r. 0;
  cp0_status = 0;
  hi = 0;
  lo = 0;
  cp0_badvaddr = 0;
  cp0_cause = 0;
  cp0_epc = 0;
}

abbrev block : Option ℕ → ℕ → ℕ → ℕ → Env
block link id status pri = record {
  env_tf = no_tf;
  env_link = link;
  env_id = id;
  env_parent_id = 0;
  env_status = status;
  env_pgdir = ulim + 0x1000;
  env_cr3 = 0x1000;
  env_pri = pri;
  env_ipc_value = 0;
  env_ipc_from = 0;
  env_ipc_recving = 0;
  env_ipc_dstva = 0;
  env_ipc_perm = 0;
  env_pgfault_handler = 0;
  env_xstacktop = 0;
  env_runs = 0;
  heap_pc = 0;
}

abbrev blocks : ℕ → Env
blocks i =
    if i == 0
    then block (some 1) 0x800 1 2
    else if i == 1
    then block (some 2) 0x1001 1 4
    else if i == 2
    then block (some 0) 0x1802 1 4
    else if i == 3
    then block (some 4) 0 0 0
    else block none 0 0 0

-- Page 3 is the only free one.
abbrev memory : Mm
memory = record {
  mem = λ a. 0;
  pages = λ i.
      if i == 3
      then record { le_next = none; le_prev = head_ref; pp_ref = 0 }
      else record { le_next = none; le_prev = null_ref; pp_ref = 1 };
  free_first = some 3;
  npage = 8;
  maxpa = 8 * 4096;
  freemem = ulim;
  tlb_outs = [];
  tlb_count = 0;
}

abbrev kernel : Kernel
kernel = record {
  mm = memory;
  ht = record { elems = λ i. blank; size = 0 };
  envs = blocks;
  curenv = some 0;
  env_free_list = some 3;
  env_runnable_head = some 0;
  env_runnable_tail = some 2;
  next_env_id = 3;
  remaining_time = 1;
  boot_pgdir = ulim + 0x2000;
  context = 0;
  asid = 0;
}

three-IsRing : IsRing kernel (0 ∷ 1 ∷ 2 ∷ [])
three-IsRing = (refl, refl, (refl, (refl, refl)), (refl, (refl, (refl, tt))))

leave_ring_lem_example :
    (j : Kernel) × GoesOn kernel j 1 (0 ∷ []) (2 ∷ []) (leave_ring 3 1 kernel)
    × IsRing j (0 ∷ 2 ∷ [])
    × (j.env_free_list ≡ some 1)
    × ((j.envs 1).env_link ≡ some 3)
    × ((j.envs 1).env_status ≡ env_free_status)
leave_ring_lem_example = leave_ring_lem 3 kernel 1 (0 ∷ []) (2 ∷ []) three-IsRing (omega arith)

envid2env-mkenvid_example :
    envid2env (mkenvid 1 (record kernel { next_env_id = 1 })).0 true kernel ≡ bad_env
unfolding mkenvid
envid2env-mkenvid_example =
    envid2env-mkenvid 1 0 (record kernel { next_env_id = 1 }) kernel true (omega arith)
      (omega arith) refl (omega arith) refl

two-IsFreeEnvs : IsFreeEnvs kernel (3 ∷ 4 ∷ [])
two-IsFreeEnvs = record { chain = (refl, refl, (refl, refl, refl)); distinct = (refl, (refl, tt)) }

memory-IsFreeList : IsFreeList memory (3 ∷ [])
memory-IsFreeList = record {
  chain = (refl, refl, refl);
  distinct = (refl, tt);
  unused = (refl, tt);
  within = (omega arith, tt);
  small = omega arith;
}

env_setup_vm_lem_example :
    (n : Mm) × (env_setup_vm (kva 2) memory ≡ ok (kva 3, page2pa 3) n)
    × IsFreeList n []
    × ((n.pages 3).pp_ref ≡ 1)
    × ((k : ℕ) → pde n 3 (k % 1024) ≡ entry_of memory 3 2 (k % 1024))
env_setup_vm_lem_example = env_setup_vm_lem memory 3 2 [] memory-IsFreeList (omega arith)

-- With a table of the kernel on page 5.
abbrev kernel_memory : Mm
kernel_memory = record memory { mem = λ a. if a == kva 2 + 2040 then 0x5600 else 0 }

kernel_memory-IsFreeList : IsFreeList kernel_memory (3 ∷ [])
kernel_memory-IsFreeList = record {
  chain = (refl, refl, refl);
  distinct = (refl, tt);
  unused = (refl, tt);
  within = (omega arith, tt);
  small = omega arith;
}

kernel-IsSpace : IsSpace kernel_memory 2 (3 ∷ [])
kernel-IsSpace = record {
  dir_in = omega arith;
  dir_used = refl;
  small = omega arith;
  table_in = λ k h. ground arith;
  table_used = λ k h v. ground arith;
  table_ne_dir = λ k h nw v. ground arith;
  tables_ne = λ k l hk hl vk vl nw ne. ground arith;
}

env_setup_vm-IsSpace_example :
    (n : Mm) × (env_setup_vm (kva 2) kernel_memory ≡ ok (kva 3, page2pa 3) n) × IsSpace n 3 []
env_setup_vm-IsSpace_example =
    env_setup_vm-IsSpace kernel_memory 3 2 [] kernel_memory-IsFreeList kernel-IsSpace (omega arith)

new_dir : (n : Mm) × (env_setup_vm (kva 2) memory ≡ ok (kva 3, page2pa 3) n)
new_dir = let v = env_setup_vm_lem memory 3 2 [] memory-IsFreeList (omega arith) in (v.0, v.1)

env_alloc_lem_example : Allocates 0x800 (some 77) kernel (kva 3) (page2pa 3) new_dir.0 (3 ∷ 4 ∷ [])
env_alloc_lem_example =
    env_alloc_lem kernel (3 ∷ 4 ∷ []) 0x800 (kva 3) (page2pa 3) (some 77) new_dir.0 two-IsFreeEnvs
      new_dir.1
