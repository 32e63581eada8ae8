-- ===== src/Sched/Tests.antt =====
-- Three environments in the ring, of priorities 2, 4 and 4, the first running; the theorems on
-- env/sched.c at them.
use cse_os.Base.{ℕ, ◌*◌, none, some, [], ◌==◌, if◌then◌else◌}
use cse_os.Mm.{null_ref}
use cse_os.Hash.{blank}
use cse_os.Env.{Trapframe, Env, Kernel}

abbrev no_tf : Trapframe
no_tf = record {
  regs = λ r. 0;
  cp0_status = 0;
  hi = 0;
  lo = 0;
  cp0_badvaddr = 0;
  cp0_cause = 0;
  cp0_epc = 0;
}

abbrev block : ℕ → ℕ → ℕ → Env
block link id pri = record {
  env_tf = no_tf;
  env_link = some link;
  env_id = id;
  env_parent_id = 0;
  env_status = 1;
  env_pgdir = 0x8000_1000;
  env_cr3 = 0x1000;
  env_pri = pri;
  env_ipc_value = 0;
  env_ipc_from = 0;
  env_ipc_recving = 0;
  env_ipc_dstva = 0;
  env_ipc_perm = 0;
  env_pgfault_handler = 0;
  env_xstacktop = 0;
  env_runs = 0;
  heap_pc = 0;
}

abbrev kernel : Kernel
kernel = record {
  mm = record {
    mem = λ a. 0;
    pages = λ i. record { le_next = none; le_prev = null_ref; pp_ref = 1 };
    free_first = none;
    npage = 8;
    maxpa = 8 * 4096;
    freemem = 0x8000_0000;
    tlb_outs = [];
    tlb_count = 0;
  };
  ht = record { elems = λ i. blank; size = 0 };
  envs = λ i.
      if i == 0 then block 1 0x800 2 else if i == 1 then block 2 0x1001 4 else block 0 0x1802 4;
  curenv = some 0;
  env_free_list = none;
  env_runnable_head = some 0;
  env_runnable_tail = some 2;
  next_env_id = 3;
  remaining_time = 1;
  boot_pgdir = 0x8000_2000;
  context = 0;
  asid = 0;
}
