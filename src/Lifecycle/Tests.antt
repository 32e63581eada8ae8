-- ===== src/Lifecycle/Tests.antt =====
-- A machine with sixteen pages, ten of them free, on which two programs are created and scheduled;
-- the theorems on the states that the kernel reaches at it.
use cse_os.Base.{
  ℕ, ◌+◌, ◌-◌, ◌*◌, ◌≡◌, refl, none, some, true, false, Bool, [], ◌∷◌, arith, ◌==◌, leb,
  if◌then◌else◌, ◌<◌,
}
use cse_os.Mmu.{ulim, word}
use cse_os.Mm.{Mm, null_ref, head_ref, next_ref}
use cse_os.Hash.{blank}
use cse_os.Env.{Env, Kernel, Run, returned, running, idle, panicked, faulted, out_of_fuel, env_init}
use cse_os.Env.Ring.{IsRing}
use cse_os.Env.Threads.{env_create_priority_arg}
use cse_os.Env.{fill_entries, env_run}
use cse_os.Pmap.Tables.{pgdir_walk}
use cse_os.Sched.{sched_yield}
use cse_os.Syscall.Ipc.{sys_ipc_recv}
use cse_os.Lifecycle.Order.{InOrder, SameLists-refl}
use cse_os.Lifecycle.Create.{KeepsLists}
use cse_os.Lifecycle.Reached.{
  Call, create, yield, receive, perform, Leads, Reach, here, next, call, IsBlank, Reach-InOrder,
}

abbrev machine : Mm
machine = record {
  mem = λ a. 0;
  pages = λ i.
      if leb 6 i
      then record {
        le_next = if i == 15 then none else some (i + 1);
        le_prev = if i == 6 then head_ref else next_ref (i - 1);
        pp_ref = 0;
      }
      else record { le_next = none; le_prev = null_ref; pp_ref = 1 };
  free_first = some 6;
  npage = 16;
  maxpa = 16 * 4096;
  freemem = ulim;
  tlb_outs = [];
  tlb_count = 0;
}

abbrev unborn : Env
unborn = record {
  env_tf = record {
    regs = λ r. 0;
    cp0_status = 0;
    hi = 0;
    lo = 0;
    cp0_badvaddr = 0;
    cp0_cause = 0;
    cp0_epc = 0;
  };
  env_link = none;
  env_id = 0;
  env_parent_id = 0;
  env_status = 0;
  env_pgdir = 0;
  env_cr3 = 0;
  env_pri = 0;
  env_ipc_value = 0;
  env_ipc_from = 0;
  env_ipc_recving = 0;
  env_ipc_dstva = 0;
  env_ipc_perm = 0;
  env_pgfault_handler = 0;
  env_xstacktop = 0;
  env_runs = 0;
  heap_pc = 0;
}

abbrev booted : Kernel
booted = record {
  mm = machine;
  ht = record { elems = λ i. blank; size = 0 };
  envs = λ i. unborn;
  curenv = none;
  env_free_list = none;
  env_runnable_head = none;
  env_runnable_tail = none;
  next_env_id = 0;
  remaining_time = 5;
  boot_pgdir = ulim + 0x2000;
  context = 0;
  asid = 0;
}

booted-IsBlank : IsBlank booted
booted-IsBlank = record { no_free = refl; no_head = refl; no_tail = refl; no_current = refl }

-- A loader that finds the entry point of the program and reads nothing.
abbrev entry_only : ℕ → Kernel → ℕ × Kernel
entry_only e k = (0x8000, k)

entry_only-KeepsLists : KeepsLists entry_only
entry_only-KeepsLists e k = (SameLists-refl k, refl)

-- The state in which a run ends, or `k`.
abbrev final : Kernel → Run → Kernel
final k (returned v l) = l
final k (running l) = l
final k (idle l) = l
final k panicked = k
final k faulted = k
final k out_of_fuel = k

abbrev ends : Run → Bool
ends (returned v l) = true
ends (running l) = true
ends (idle l) = true
ends panicked = false
ends faulted = false
ends out_of_fuel = false

Leads-final : (k : Kernel) (r : Run) → ends r ≡ true → Leads r (final k r)
Leads-final k (returned v l) e = refl
Leads-final k (running l) e = refl
Leads-final k (idle l) e = refl
Leads-final k panicked e = cc
Leads-final k faulted e = cc
Leads-final k out_of_fuel e = cc

abbrev after : Call → Kernel → Kernel
after c k = final k (perform entry_only 3 c k)

abbrev first : Kernel
first = after (create 2 none) (env_init booted)

abbrev second : Kernel
second = after (create 4 (some 7)) first

abbrev running_first : Kernel
running_first = after yield second

abbrev waiting : Kernel
waiting = final running_first (perform entry_only 1030 (receive 0x1000) running_first)

first-ends : ends (perform entry_only 3 (create 2 none) (env_init booted)) ≡ true
unfolding env_init env_create_priority_arg fill_entries pgdir_walk
first-ends = refl

second-ends : ends (perform entry_only 3 (create 4 (some 7)) first) ≡ true
unfolding env_init env_create_priority_arg fill_entries pgdir_walk
second-ends = refl

running_first-ends : ends (perform entry_only 3 yield second) ≡ true
unfolding env_init env_create_priority_arg fill_entries pgdir_walk sched_yield env_run
running_first-ends = refl

waiting-ends : ends (perform entry_only 1030 (receive 0x1000) running_first) ≡ true
unfolding env_init env_create_priority_arg fill_entries pgdir_walk sched_yield env_run sys_ipc_recv
waiting-ends = refl

up_to_first_run : Reach entry_only (env_init booted) running_first
up_to_first_run =
    next
      (next
        (next here (
          call (create 2 none) 3 (
            Leads-final (env_init booted) (perform entry_only 3 (create 2 none) (env_init booted))
              first-ends)))
        (call (create 4 (some 7)) 3
          (Leads-final first (perform entry_only 3 (create 4 (some 7)) first) second-ends)))
      (call yield 3 (Leads-final second (perform entry_only 3 yield second) running_first-ends))

Reach-InOrder_example : InOrder waiting
Reach-InOrder_example = Reach-InOrder entry_only entry_only-KeepsLists {k = booted} booted-IsBlank (
    next up_to_first_run (
      call (receive 0x1000) 1030 (
        Leads-final running_first (perform entry_only 1030 (receive 0x1000) running_first)
          waiting-ends)))

first_runs :
    IsRing running_first (0 ∷ 1 ∷ [])
    × (running_first.curenv ≡ some 0)
    × (running_first.remaining_time < word)
unfolding env_init env_create_priority_arg fill_entries pgdir_walk sched_yield env_run
first_runs = ((refl, refl, (refl, refl), (refl, (refl, tt))), refl, omega arith)
