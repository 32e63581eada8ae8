-- ===== src/Syscall/Ipc.antt =====
-- sys_ipc_recv and sys_ipc_can_send of lib/syscall_all.c. Their searches of the ring go on until they
-- meet the environment, however often they pass the head.
pub mod Receive
pub mod Send
use cse_os.Base.{
  ℕ, zero, suc, Option, none, some, Bool, true, false, not, ◌||◌, leb, ◌==◌, if◌then◌else◌,
}
use cse_os.Mmu.{utop}
use cse_os.Pmap.Tables.{Status, done, no_mem, page_insert, page_lookup}
use cse_os.Env.{
  on_mm, deref, Kernel, Env, Run, returned, faulted, out_of_fuel, envid2env, current_id, set_env,
  link_to, env_runnable,
}
use cse_os.Env.Free.{is_ptr}
use cse_os.Sched.{Walk, over, broken, endless, sched_yield}
use cse_os.Syscall.{e_bad_env, e_no_mem, e_ipc_not_recv, on_env}

abbrev pub env_not_runnable : ℕ
env_not_runnable = 2

-- The search of the ring for `e`, at `temp` with `pre` before it: at its end, the environment
-- before `e`, and the flag Efound.
unfoldable pub seek : ℕ → (ℕ → Env) → ℕ → ℕ → ℕ → Option ℕ → Bool → Walk (Option ℕ × Bool)
seek zero envs head e temp pre efound = endless
seek (suc fuel) envs head e temp pre efound =
    let next : Walk (Option ℕ × Bool) = elim ((envs temp).env_link) [
      | none ↦ broken
      | some t ↦ seek fuel envs head e t (some temp) (if t == head then false else efound)
    ] in
    if temp == e then over (pre, efound) else next

-- The search from the head, with the tail before it.
unfoldable pub seek_from : ℕ → Kernel → ℕ → Option ℕ → Walk (Option ℕ × Bool)
unfolding seek
seek_from fuel k e none = broken
seek_from fuel k e (some h) = seek fuel k.envs h e h k.env_runnable_tail true

-- The walk along the free list for `e`: whether it is there, and the one before it.
unfoldable pub seek_free : ℕ → (ℕ → Env) → ℕ → Option ℕ → Option ℕ → Walk (Bool × Option ℕ)
seek_free fuel envs e none pre = over (false, pre)
seek_free zero envs e (some t) pre = endless
seek_free (suc fuel) envs e (some t) pre =
    let rest = seek_free fuel envs e (envs t).env_link (some t) in
    if t == e then over (true, pre) else rest

-- `pre->env_link = e->env_link`
abbrev pub skip : Option ℕ → ℕ → Kernel → Walk Kernel
skip none e k = broken
skip (some p) e k = over (link_to p (k.envs e).env_link k)

abbrev pub take_found : ℕ → Kernel → Walk (Bool × Option ℕ) → Walk Kernel
take_found e k (over (true, pre)) = skip pre e k
take_found e k (over (false, pre)) = over k
take_found e k broken = broken
take_found e k endless = endless

-- Step 2 of both calls: `e` leaves the free list.
unfoldable pub leave_free : ℕ → ℕ → Kernel → Walk Kernel
unfolding seek_free
leave_free fuel e k = take_found e k (seek_free fuel k.envs e k.env_free_list none)

abbrev pub then_walk : {A : Type 0} → Walk A → (A → Run) → Run
then_walk (over a) f = f a
then_walk broken f = faulted
then_walk endless f = out_of_fuel

abbrev pub advance_head : ℕ → Kernel → Kernel
advance_head e k = record k {
  env_runnable_head =
      if is_ptr k.env_runnable_head e then (k.envs e).env_link else k.env_runnable_head;
}

abbrev pub retreat_tail : ℕ → Option ℕ → Kernel → Kernel
retreat_tail e pre k = record k {
  env_runnable_tail = if is_ptr k.env_runnable_tail e then pre else k.env_runnable_tail;
}

-- `e` leaves the ring, when the search has found it there.
abbrev pub unlink_found : ℕ → Kernel → Walk (Option ℕ × Bool) → Walk Kernel
unlink_found e k (over (pre, true)) = skip pre e (advance_head e (retreat_tail e pre k))
unlink_found e k (over (pre, false)) = over k
unlink_found e k broken = broken
unlink_found e k endless = endless

-- Step 1 of sys_ipc_recv.
unfoldable pub leave_runnable : ℕ → ℕ → Kernel → Walk Kernel
unfolding seek_from
leave_runnable fuel e k = unlink_found e k (seek_from fuel k e k.env_runnable_head)

-- The fields of the receiver.
abbrev pub receiving : ℕ → ℕ → Kernel → Kernel
receiving c dstva k =
    record (set_env c (record (k.envs c) { env_ipc_recving = 1; env_ipc_dstva = dstva }) k) {
      remaining_time = 0;
    }

abbrev pub set_status : ℕ → ℕ → Kernel → Kernel
set_status e status k = set_env e (record (k.envs e) { env_status = status }) k

unfoldable pub recv_as : ℕ → ℕ → ℕ → Kernel → Run
unfolding leave_runnable leave_free sched_yield
recv_as fuel dstva c k =
    then_walk (leave_runnable fuel c (set_status c env_not_runnable k))
      (λ j. then_walk (leave_free fuel c j) (λ l. sched_yield fuel (receiving c dstva l)))

-- sys_ipc_recv. The copy of the trap frame between two stacks of the kernel is left out.
unfoldable pub sys_ipc_recv : ℕ → ℕ → Kernel → Run
unfolding recv_as
sys_ipc_recv fuel dstva k =
    if leb utop dstva then returned 0 k else deref k.curenv (λ c. recv_as fuel dstva c k)

-- `e` goes in front of the ring, when the search has not found it there.
abbrev pub link_found : ℕ → Kernel → Walk (Option ℕ × Bool) → Walk Kernel
link_found e k (over (pre, true)) = over k
link_found e k (over (pre, false)) = elim k.env_runnable_tail [
  | none ↦ broken
  | some t ↦
      over (
        link_to t (some e)
          (record (link_to e k.env_runnable_head k) { env_runnable_head = some e }))
]
link_found e k broken = broken
link_found e k endless = endless

-- Step 1 of sys_ipc_can_send, where the environment before is not kept.
unfoldable pub join_runnable : ℕ → ℕ → Kernel → Walk Kernel
unfolding seek_from
join_runnable fuel e k = link_found e k (seek_from fuel k e k.env_runnable_head)

-- The fields of the receiver after a message from `c`.
abbrev pub delivered : ℕ → ℕ → ℕ → ℕ → Kernel → Kernel
delivered e c value perm k =
    set_env e
      (record (k.envs e) {
        env_ipc_value = value;
        env_ipc_from = (k.envs c).env_id;
        env_ipc_perm = perm;
        env_ipc_recving = 0;
        env_status = env_runnable;
      })
      k

unfoldable pub deliver_from : ℕ → ℕ → ℕ → ℕ → ℕ → Kernel → Run
unfolding join_runnable leave_free
deliver_from fuel e value perm c k =
    then_walk (join_runnable fuel e (delivered e c value perm k))
      (λ j. then_walk (leave_free fuel e j) (returned 0))

unfoldable pub deliver : ℕ → ℕ → ℕ → ℕ → Kernel → Run
unfolding deliver_from
deliver fuel e value perm k = deref k.curenv (λ c. deliver_from fuel e value perm c k)

abbrev pub send_inserted : ℕ → ℕ → ℕ → ℕ → Status → Kernel → Run
send_inserted fuel e value perm done k = deliver fuel e value perm k
send_inserted fuel e value perm no_mem k = returned e_no_mem k

unfoldable pub send_page : ℕ → ℕ → ℕ → ℕ → Option (ℕ × ℕ) → Kernel → Run
unfolding deliver page_insert
send_page fuel e value perm none k = returned e_no_mem k
send_page fuel e value perm (some (pp, ppte)) k =
    on_mm k
      (page_insert (current_id k k.curenv) (k.envs e).env_pgdir pp (k.envs e).env_ipc_dstva perm
        k.mm)
      (send_inserted fuel e value perm)

unfoldable pub send_to : ℕ → ℕ → ℕ → ℕ → ℕ → Kernel → Run
unfolding send_page deliver page_lookup
send_to fuel value srcva perm e k =
    if not ((k.envs e).env_status == env_not_runnable) || ((k.envs e).env_ipc_recving == 0)
    then returned e_ipc_not_recv k
    else if leb utop srcva
    then returned e_no_mem k
    else if srcva == 0
    then deliver fuel e value perm k
    else deref k.curenv
        (λ c. on_mm k (page_lookup (k.envs c).env_pgdir srcva k.mm) (send_page fuel e value perm))

-- sys_ipc_can_send
unfoldable pub sys_ipc_can_send : ℕ → ℕ → ℕ → ℕ → ℕ → Kernel → Run
unfolding send_to envid2env
sys_ipc_can_send fuel envid value srcva perm k =
    on_env k e_bad_env (envid2env envid false k)
      (λ o. deref o (λ e. send_to fuel value srcva perm e k))
