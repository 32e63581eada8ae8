-- ===== src/Lifecycle/Reached.antt =====
-- The states that the kernel reaches from env_init of env/env.c, by the calls that move environments
-- between the ring of env/sched.c and the list of free ones.
use mathlib.Core.Path.{subst}
use cse_os.Base.{ℕ, zero, suc, ◌<◌, ◌≡◌, refl, ◌∙◌, Option, none, some, List, [], ◌∷◌, length}
use cse_os.Mmu.{word}
use cse_os.Env.{
  Kernel, Trapframe, Run, returned, running, idle, panicked, faulted, out_of_fuel, deref, env_run,
  env_init, env_init_from, nenv,
}
use cse_os.Env.Alloc.{counting, env_init_lem}
use cse_os.Env.Free.{env_free}
use cse_os.Env.Ring.{IsRing}
use cse_os.Env.Threads.{env_create_priority_arg, pthread_create}
use cse_os.Sched.{sched_yield, sched_yield_voluntarily_giveup, lower}
use cse_os.Sched.Yield.{sched_yield_lem}
use cse_os.Syscall.Ipc.{sys_ipc_recv, sys_ipc_can_send}
use cse_os.Syscall.Status.{sys_set_env_status, sys_set_trapframe, sys_free_myself}
use cse_os.Lifecycle.Order.{InOrder, Ensures, SameLists, SameLists-InOrder}
use cse_os.Lifecycle.Yield.{sched_yield-InOrder, sched_yield_voluntarily_giveup-InOrder, entered}
use cse_os.Lifecycle.Free.{env_free-InOrder}
use cse_os.Lifecycle.Create.{KeepsLists, env_create_priority_arg-InOrder, pthread_create-InOrder}
use cse_os.Lifecycle.Lookup.{sys_set_env_status-InOrder, sys_set_trapframe-InOrder}
use cse_os.Lifecycle.Receive.{sys_ipc_recv-InOrder}
use cse_os.Lifecycle.Send.{sys_ipc_can_send-InOrder}

-- The calls that create, schedule, suspend, wake and free environments.
pub data Call : Type 0 where
  create : ℕ → Option ℕ → Call
  thread : ℕ → ℕ → Call
  free : ℕ → Call
  free_myself : Call
  yield : Call
  give_way : Call
  set_env_status : ℕ → ℕ → Call
  set_trapframe : ℕ → Trapframe → Call
  receive : ℕ → Call
  send : ℕ → ℕ → ℕ → ℕ → Call

-- `load` stands for load_elf_mapper.
abbrev pub perform : (ℕ → Kernel → ℕ × Kernel) → ℕ → Call → Kernel → Run
perform load fuel (create priority arg) k = env_create_priority_arg load priority arg k
perform load fuel (thread func arg) k = pthread_create func arg k
perform load fuel (free e) k = env_free fuel e k
perform load fuel free_myself k = sys_free_myself fuel k
perform load fuel yield k = sched_yield fuel k
perform load fuel give_way k = sched_yield_voluntarily_giveup fuel k
perform load fuel (set_env_status envid status) k = sys_set_env_status fuel envid status k
perform load fuel (set_trapframe envid tf) k = sys_set_trapframe envid tf k
perform load fuel (receive dstva) k = sys_ipc_recv fuel dstva k
perform load fuel (send envid value srcva perm) k = sys_ipc_can_send fuel envid value srcva perm k

-- The run ends in the state `l`.
abbrev pub Leads : Run → Kernel → Type 0
Leads (returned v k) l = k ≡ l
Leads (running k) l = k ≡ l
Leads (idle k) l = k ≡ l
Leads panicked l = ⊥
Leads faulted l = ⊥
Leads out_of_fuel l = ⊥

-- One step of the kernel: a call that ends, after any number of rounds of its loops, or anything
-- else that keeps the two lists and the current environment, such as a program's own work.
pub data Step (load : ℕ → Kernel → ℕ × Kernel) (k l : Kernel) : Type 0 where
  call : (c : Call) (fuel : ℕ) → Leads (perform load fuel c k) l → Step load k l
  work : SameLists k l → l.curenv ≡ k.curenv → Step load k l

pub data Reach (load : ℕ → Kernel → ℕ × Kernel) (k : Kernel) : Kernel → Type 0 where
  here : Reach load k k
  next : {l n : Kernel} → Reach load k l → Step load l n → Reach load k n

-- The variables of the kernel before env_init: no list and no current environment.
pub record IsBlank (k : Kernel) : Type 0 where
  pub no_free : k.env_free_list ≡ none
  pub no_head : k.env_runnable_head ≡ none
  pub no_tail : k.env_runnable_tail ≡ none
  pub no_current : k.curenv ≡ none

env_init_from-others :
    (i : ℕ) (k : Kernel)
    → ((env_init_from i k).env_runnable_head ≡ k.env_runnable_head)
      × ((env_init_from i k).env_runnable_tail ≡ k.env_runnable_tail)
      × ((env_init_from i k).curenv ≡ k.curenv)
unfolding env_init_from
env_init_from-others zero k = (refl, refl, refl)
env_init_from-others (suc i) k = env_init_from-others i _

env_init-InOrder : (k : Kernel) → IsBlank k → InOrder (env_init k)
unfolding env_init
env_init-InOrder k b =
    let (h, t, c) = env_init_from-others nenv k in
    (
      [],
      counting nenv 0,
      record {
        runnable = (h ∙ b.no_head, t ∙ b.no_tail);
        unused = env_init_lem k b.no_free;
        apart = λ a m. cc;
        current = λ a e. cc (b.no_current, e);
      },
    )

Leads-InOrder : (r : Run) (l : Kernel) → Ensures InOrder r → Leads r l → InOrder l
Leads-InOrder (returned v k) l o e = rw⁻¹ e o
Leads-InOrder (running k) l o e = rw⁻¹ e o
Leads-InOrder (idle k) l o e = rw⁻¹ e o
Leads-InOrder panicked l o e = absurd e
Leads-InOrder faulted l o e = absurd e
Leads-InOrder out_of_fuel l o e = absurd e

sys_free_myself-InOrder :
    (fuel : ℕ) (k : Kernel) → InOrder k → Ensures InOrder (sys_free_myself fuel k)
unfolding sys_free_myself
sys_free_myself-InOrder fuel k o = by_current k.curenv
  where
    by_current : (c : Option ℕ) → Ensures InOrder (deref c (λ e. env_free fuel e k))
    by_current none = tt
    by_current (some c) = env_free-InOrder fuel c k o

module _ (load : ℕ → Kernel → ℕ × Kernel) (keeps : KeepsLists load) where
  perform-InOrder :
      (fuel : ℕ) (c : Call) (k : Kernel) → InOrder k → Ensures InOrder (perform load fuel c k)
  perform-InOrder fuel (create priority arg) k o =
      env_create_priority_arg-InOrder load keeps priority arg k o
  perform-InOrder fuel (thread func arg) k o = pthread_create-InOrder func arg k o
  perform-InOrder fuel (free e) k o = env_free-InOrder fuel e k o
  perform-InOrder fuel free_myself k o = sys_free_myself-InOrder fuel k o
  perform-InOrder fuel yield k o = sched_yield-InOrder fuel k o
  perform-InOrder fuel give_way k o = sched_yield_voluntarily_giveup-InOrder fuel k o
  perform-InOrder fuel (set_env_status envid status) k o =
      sys_set_env_status-InOrder fuel envid status k o
  perform-InOrder fuel (set_trapframe envid tf) k o = sys_set_trapframe-InOrder envid tf k o
  perform-InOrder fuel (receive dstva) k o = sys_ipc_recv-InOrder fuel dstva k o
  perform-InOrder fuel (send envid value srcva perm) k o =
      sys_ipc_can_send-InOrder fuel envid value srcva perm k o

  Step-InOrder : {k l : Kernel} → Step load k l → InOrder k → InOrder l
  Step-InOrder {k} {l} (call c fuel e) o =
      Leads-InOrder (perform load fuel c k) l (perform-InOrder fuel c k o) e
  Step-InOrder (work s cur) o = SameLists-InOrder s cur o

  -- In every state that the kernel reaches from env_init, by any sequence of creating, scheduling,
  -- suspending, waking and freeing environments, the runnable environments form one ring and the
  -- free ones one list, each environment at most once, no environment is in both, and the current
  -- one is not free; the loader of programs is to keep the lists.
  pub Reach-InOrder : {k l : Kernel} → IsBlank k → Reach load (env_init k) l → InOrder l
  Reach-InOrder {k} b here = env_init-InOrder k b
  Reach-InOrder b (next r s) = Step-InOrder s (Reach-InOrder b r)

  -- In every state that the kernel reaches from env_init, when an environment is current, some are
  -- runnable and the counter of the time is a 32-bit number, sched_yield comes to its end: it switches
  -- to an environment, and the environments stay in order. As many rounds of its loops as the ring has
  -- members are enough.
  pub Reach-sched_yield :
      {k l : Kernel} (h : ℕ) (xs : List ℕ) (c fuel : ℕ)
      → IsBlank k
      → Reach load (env_init k) l
      → IsRing l (h ∷ xs)
      → l.curenv ≡ some c
      → l.remaining_time < word
      → length xs < fuel
      → (e : ℕ) × (n : Kernel) × (sched_yield fuel l ≡ running n) × (n.curenv ≡ some e) × InOrder n
  unfolding env_run
  Reach-sched_yield {k} {l} h xs c fuel b r ring cur small enough =
      let (j, e, run, t, first) = sched_yield_lem fuel l h xs c ring cur small enough in
      let n = entered e (lower c j) in
      let kept : Ensures InOrder (running n) =
        subst (Ensures InOrder) run (sched_yield-InOrder fuel l (Reach-InOrder b r)) in
      (e, n, run, refl, kept)
