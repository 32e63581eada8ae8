-- ===== src/Lifecycle/Send.antt =====
-- sys_ipc_can_send keeps the environments in order, also where the receiver is outside the ring.
use cse_os.Base.{
  ℕ, refl, Option, none, some, true, false, ◌==◌, Bool-cases, inl, inr, Bool, ◌||◌, not, leb,
}
use cse_os.Mmu.{utop}
use cse_os.Pmap.Tables.{Status, done, no_mem, page_lookup}
use cse_os.Env.{Kernel, on_mm, deref}
use cse_os.Sched.{Walk, over, broken, endless}
use cse_os.Syscall.{e_bad_env}
use cse_os.Syscall.Ipc.{
  seek_from, leave_free, env_not_runnable, link_found, join_runnable, delivered, deliver,
  deliver_from, send_inserted, send_page, send_to, sys_ipc_can_send,
}
use cse_os.Lifecycle.Order.{InOrder, Ensures, on_mm-Ensures}
use cse_os.Lifecycle.Yield.{Ends}
use cse_os.Lifecycle.Lookup.{on_found-InOrder}
use cse_os.Lifecycle.Search.{
  Found, Taken, seek_from-Found, then_walk-Ensures, leave_free-Taken, mm-Taken, set_env-Taken,
}

link_found-Ends :
    (P : Kernel → Type 0) (e : ℕ) (k : Kernel) (w : Walk (Option ℕ × Bool))
    → Found w
    → P k
    → Ends P (link_found e k w)
link_found-Ends P e k (over (pre, true)) f p = p
link_found-Ends P e k (over (pre, false)) f p = cc
link_found-Ends P e k broken f p = tt
link_found-Ends P e k endless f p = tt

join_runnable-Taken :
    (fuel e : ℕ) (k : Kernel) → Taken e k → Ends (Taken e) (join_runnable fuel e k)
unfolding join_runnable
join_runnable-Taken fuel e k (ring, free, o, out) =
    link_found-Ends (Taken e) e k (seek_from fuel k e k.env_runnable_head)
      (seek_from-Found fuel k e ring o.runnable) (ring, free, o, out)

deliver_from-InOrder :
    (fuel e value perm c : ℕ) (k : Kernel)
    → Taken e k
    → Ensures InOrder (deliver_from fuel e value perm c k)
unfolding deliver_from
deliver_from-InOrder fuel e value perm c k t =
    let j = delivered e c value perm k in
    then_walk-Ensures (Taken e) InOrder (join_runnable fuel e j) _
      (join_runnable-Taken fuel e j (set_env-Taken e _ k refl t))
      (λ l u.
        then_walk-Ensures (Taken e) InOrder (leave_free fuel e l) _ (leave_free-Taken fuel e l u)
          (λ n v. (v.0, v.1, v.2)))

deliver-InOrder :
    (fuel e value perm : ℕ) (k : Kernel) → Taken e k → Ensures InOrder (deliver fuel e value perm k)
unfolding deliver
deliver-InOrder fuel e value perm k t = by_current k.curenv
  where
    by_current :
        (o : Option ℕ) → Ensures InOrder (deref o (λ c. deliver_from fuel e value perm c k))
    by_current none = tt
    by_current (some c) = deliver_from-InOrder fuel e value perm c k t

send_inserted-InOrder :
    (fuel e value perm : ℕ) (s : Status) (k : Kernel)
    → Taken e k
    → Ensures InOrder (send_inserted fuel e value perm s k)
send_inserted-InOrder fuel e value perm done k t = deliver-InOrder fuel e value perm k t
send_inserted-InOrder fuel e value perm no_mem k t = (t.0, t.1, t.2)

send_page-InOrder :
    (fuel e value perm : ℕ) (o : Option (ℕ × ℕ)) (k : Kernel)
    → Taken e k
    → Ensures InOrder (send_page fuel e value perm o k)
unfolding send_page
send_page-InOrder fuel e value perm none k t = (t.0, t.1, t.2)
send_page-InOrder fuel e value perm (some (pp, ppte)) k t =
    on_mm-Ensures InOrder k _ (send_inserted fuel e value perm)
      (λ s m. send_inserted-InOrder fuel e value perm s (record k { mm = m }) (mm-Taken e k m t))

send_to-InOrder :
    (fuel value srcva perm e : ℕ) (k : Kernel)
    → Taken e k
    → Ensures InOrder (send_to fuel value srcva perm e k)
unfolding send_to
send_to-InOrder fuel value srcva perm e k t =
    let idle =
      not ((k.envs e).env_status == env_not_runnable) || ((k.envs e).env_ipc_recving == 0) in
    elim (Bool-cases idle) [
      | inl i ↦ rw i (t.0, t.1, t.2)
      | inr i ↦ elim (Bool-cases (leb utop srcva)) [
        | inl h ↦ rw (i, h) (t.0, t.1, t.2)
        | inr h ↦ elim (Bool-cases (srcva == 0)) [
          | inl z ↦ rw (i, h, z) (deliver-InOrder fuel e value perm k t)
          | inr z ↦ rw (i, h, z) (by_current k.curenv)
        ]
      ]
    ]
  where
    by_current :
        (o : Option ℕ)
        → Ensures InOrder (
            deref o (λ c.
              on_mm k (page_lookup (k.envs c).env_pgdir srcva k.mm) (send_page fuel e value perm)))
    by_current none = tt
    by_current (some c) =
        on_mm-Ensures InOrder k (page_lookup (k.envs c).env_pgdir srcva k.mm)
          (send_page fuel e value perm)
          (λ o m. send_page-InOrder fuel e value perm o (record k { mm = m }) (mm-Taken e k m t))

pub sys_ipc_can_send-InOrder :
    (fuel envid value srcva perm : ℕ) (k : Kernel)
    → InOrder k
    → Ensures InOrder (sys_ipc_can_send fuel envid value srcva perm k)
unfolding sys_ipc_can_send
sys_ipc_can_send-InOrder fuel envid value srcva perm k (ring, free, o) =
    on_found-InOrder k ring free e_bad_env envid false (λ e. send_to fuel value srcva perm e k) o
      (λ e out. send_to-InOrder fuel value srcva perm e k (ring, free, o, out))
