-- ===== src/Syscall/Status.antt =====
-- sys_set_env_status, sys_set_trapframe and sys_free_myself of lib/syscall_all.c.
use cse_os.Base.{
  ℕ, ◌≡◌, refl, ◌<◌, Option, none, some, Bool, true, false, not, ◌&&◌, ltb, ◌==◌, if◌then◌else◌,
  arith, List,
}
use cse_os.Env.{
  deref, Kernel, Trapframe, Run, returned, envid2env, found, set_env, link_to, env_runnable,
  env_free_status,
}
use cse_os.Env.Ring.{IsRing}
use cse_os.Env.Free.{env_free}
use cse_os.Sched.{Walk, over, broken, endless}
use cse_os.Syscall.{e_bad_env, e_inval, on_env}
use cse_os.Syscall.Ipc.{
  env_not_runnable, set_status, leave_runnable, join_runnable, leave_free, seek_free, then_walk,
}
use cse_os.Syscall.Ipc.Receive.{set_env-IsRing}

-- `e` goes in front of the free list, when the walk has not found it there.
abbrev free_found : ℕ → Kernel → Walk (Bool × Option ℕ) → Walk Kernel
free_found e k (over (true, pre)) = over k
free_found e k (over (false, pre)) =
    over (record (link_to e k.env_free_list k) { env_free_list = some e })
free_found e k broken = broken
free_found e k endless = endless

unfoldable pub join_free : ℕ → ℕ → Kernel → Walk Kernel
unfolding seek_free
join_free fuel e k = free_found e k (seek_free fuel k.envs e k.env_free_list none)

-- `status == wanted && env->env_status != status`
abbrev changes : ℕ → ℕ → ℕ → Kernel → Bool
changes e status wanted k = (status == wanted) && not ((k.envs e).env_status == status)

-- The rest of the call for the environment `e`, which has the new status already.
unfoldable pub update_lists : ℕ → ℕ → ℕ → Kernel → Run
unfolding join_free leave_runnable join_runnable leave_free
update_lists fuel e status k =
    if changes e status env_free_status k
    then then_walk (leave_runnable fuel e k) (λ j. then_walk (join_free fuel e j) (returned 0))
    else if changes e status env_runnable k
    then then_walk (join_runnable fuel e k) (λ j. then_walk (leave_free fuel e j) (returned 0))
    else if changes e status env_not_runnable k
    then then_walk (leave_runnable fuel e k) (λ j. then_walk (leave_free fuel e j) (returned 0))
    else returned 0 k

-- sys_set_env_status; the values of a status are 0 to 4.
unfoldable pub sys_set_env_status : ℕ → ℕ → ℕ → Kernel → Run
unfolding update_lists envid2env
sys_set_env_status fuel envid status k =
    if ltb 4 status
    then returned e_inval k
    else on_env k e_bad_env (envid2env envid false k)
        (λ o. deref o (λ e. update_lists fuel e status (set_status e status k)))

-- sys_set_trapframe
unfoldable pub sys_set_trapframe : ℕ → Trapframe → Kernel → Run
unfolding envid2env
sys_set_trapframe envid tf k =
    on_env k e_bad_env (envid2env envid true k)
      (λ o. deref o (λ e. returned 0 (set_env e (record (k.envs e) { env_tf = tf }) k)))

-- sys_free_myself
unfoldable pub sys_free_myself : ℕ → Kernel → Run
unfolding env_free
sys_free_myself fuel k = deref k.curenv (λ c. env_free fuel c k)

and_false : (b : Bool) → (b && false) ≡ false
and_false true = refl
and_false false = refl

-- After the assignment no branch is taken.
pub update_lists-same :
    (fuel e status : ℕ) (k : Kernel)
    → update_lists fuel e status (set_status e status k) ≡ returned 0 (set_status e status k)
unfolding update_lists
update_lists-same fuel e status k =
    let here : (e == e) ≡ true = ground arith in
    let same : (status == status) ≡ true = ground arith in
    rw (here, same, and_false (status == 0), and_false (status == 1), and_false (status == 2)) refl

-- sys_set_env_status gives the environment the new status and changes no list: with any fuel it
-- returns 0 at once, and an environment that is to be suspended or freed stays in the ring from
-- which the scheduler chooses.
pub sys_set_env_status_lem :
    (fuel envid status : ℕ) (k : Kernel) (e : ℕ) (ring : List ℕ)
    → status < 5
    → envid2env envid false k ≡ found (some e)
    → IsRing k ring
    → (sys_set_env_status fuel envid status k ≡ returned 0 (set_status e status k))
      × IsRing (set_status e status k) ring
unfolding sys_set_env_status
sys_set_env_status_lem fuel envid status k e ring valid look r =
    let v : ltb 4 status ≡ false = ground arith in
    (
      rw (v, look) (update_lists-same fuel e status k),
      set_env-IsRing k e (record (k.envs e) { env_status = status }) ring r refl,
    )
