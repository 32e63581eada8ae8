-- ===== src/Syscall.antt =====
-- lib/syscall_all.c: the system calls. The result of one is a Run: what it returns, with the kernel
-- afterwards, or a switch to user mode. An error code is the 32-bit pattern of the negative `int`.
-- What goes to the console is left out.
pub mod Memory
pub mod Ipc
pub mod Status
pub mod Dev
mod Tests
use cse_os.Base.{ℕ, ◌-◌, Option, none, some, Bool}
use cse_os.Mmu.{word}
use cse_os.Mm.{Mm, Outcome}
use cse_os.Env.{
  deref, Kernel, Env, Run, returned, panicked, faulted, Lookup, found, bad_env, no_curenv,
  envid2env, set_env,
}
use cse_os.Env.Threads.{pthread_create}

abbrev pub e_bad_env : ℕ
e_bad_env = word - 2

abbrev pub e_inval : ℕ
e_inval = word - 3

abbrev pub e_no_mem : ℕ
e_no_mem = word - 4

abbrev pub e_ipc_not_recv : ℕ
e_ipc_not_recv = word - 6

-- Goes on from a look-up by envid2env, or returns `error`.
abbrev pub on_env : Kernel → ℕ → Lookup → (Option ℕ → Run) → Run
on_env k error (found e) f = f e
on_env k error bad_env f = returned error k
on_env k error no_curenv f = faulted

-- sys_getenvid
unfoldable pub sys_getenvid : Kernel → Run
sys_getenvid k = deref k.curenv (λ c. returned ((k.envs c).env_id) k)

-- sys_set_pgfault_handler
unfoldable pub sys_set_pgfault_handler : ℕ → ℕ → ℕ → Kernel → Run
unfolding envid2env
sys_set_pgfault_handler envid func xstacktop k =
    on_env k e_inval (envid2env envid Bool.false k) (λ o. deref o (λ e.
      returned 0 (
        set_env e (record (k.envs e) { env_pgfault_handler = func; env_xstacktop = xstacktop }) k)))

abbrev pub returning : ℕ → Run → Run
returning v (returned u k) = returned v k
returning v run = run

-- sys_pthread_create
unfoldable pub sys_pthread_create : ℕ → ℕ → Kernel → Run
unfolding pthread_create
sys_pthread_create func arg k = returning 1 (pthread_create func arg k)

-- sys_env_create_1
unfoldable pub sys_env_create_1 : ℕ → ℕ → Kernel → Run
unfolding pthread_create
sys_env_create_1 func arg k = pthread_create func arg k
