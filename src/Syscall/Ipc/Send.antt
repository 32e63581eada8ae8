-- ===== src/Syscall/Ipc/Send.antt =====
-- sys_ipc_can_send of lib/syscall_all.c after sys_ipc_recv has taken the receiver out of the ring.
use cse_os.Base.{
  ℕ, zero, suc, ◌+◌, ◌%◌, ◌≡◌, refl, ap, ◌∙◌, Option, some, Bool, true, false, List, [], ◌∷◌, arith,
  ◌==◌, has,
}
use cse_os.Mmu.{word}
use cse_os.Env.{
  deref, Env, Kernel, out_of_fuel, envid2env, found, get_env_asid, set_env, env_runnable, returned,
}
use cse_os.Env.Ring.{IsRing, Linked}
use cse_os.Sched.{endless}
use cse_os.Syscall.Ipc.{
  seek, seek_from, then_walk, leave_free, link_found, join_runnable, delivered, deliver,
  deliver_from, send_to, sys_ipc_can_send, env_not_runnable,
}
use cse_os.Syscall.Ipc.Receive.{set_env-IsRing}

-- Round a ring without `e` the search never ends, from any place in it.
pub seek-absent :
    (fuel : ℕ) (envs : ℕ → Env) (head e : ℕ) (ring : List ℕ) (x : ℕ) (ys : List ℕ) (pre : Option ℕ)
    (efound : Bool)
    → Linked envs head ring head
    → has e (head ∷ ring) ≡ false
    → Linked envs x ys head
    → has e (x ∷ ys) ≡ false
    → seek fuel envs head e x pre efound ≡ endless
unfolding seek
seek-absent zero envs head e ring x ys pre efound whole out l here = refl
seek-absent (suc fuel) envs head e ring x [] pre efound whole out l here =
    let ne : (x == e) ≡ false = ground arith in
    rw (seek, ne, l) (seek-absent fuel envs head e ring head ring (some x) _ whole out whole out)
seek-absent (suc fuel) envs head e ring x (y ∷ ys) pre efound whole out l here =
    let ne : (x == e) ≡ false = ground arith in
    rw (seek, ne, l.0)
      (seek-absent fuel envs head e ring y ys (some x) _ whole out l.1 (ground arith))

join-absent :
    (fuel : ℕ) (k : Kernel) (e h : ℕ) (xs : List ℕ)
    → IsRing k (h ∷ xs)
    → has e (h ∷ xs) ≡ false
    → join_runnable fuel e k ≡ endless
unfolding join_runnable seek_from
join-absent fuel k e h xs r out =
    ap (λ o. link_found e k (seek_from fuel k e o)) r.0
    ∙ ap (link_found e k)
        (seek-absent fuel k.envs h e xs h xs k.env_runnable_tail true r.2 out r.2 out)

deliver-absent :
    (fuel e value perm : ℕ) (k : Kernel) (c h : ℕ) (xs : List ℕ)
    → IsRing k (h ∷ xs)
    → has e (h ∷ xs) ≡ false
    → k.curenv ≡ some c
    → deliver fuel e value perm k ≡ out_of_fuel
unfolding deliver deliver_from
deliver-absent fuel e value perm k c h xs r out cur =
    let b = record (k.envs e) {
      env_ipc_value = value;
      env_ipc_from = (k.envs c).env_id;
      env_ipc_perm = perm;
      env_ipc_recving = 0;
      env_status = env_runnable;
    } in
    let j = delivered e c value perm k in
    let r' = set_env-IsRing k e b (h ∷ xs) r refl in
    ap (λ o. deref o (λ c'. deliver_from fuel e value perm c' k)) cur
    ∙ ap (λ w. then_walk w (λ l. then_walk (leave_free fuel e l) (returned 0)))
        (join-absent fuel j e h xs r' out)

-- A message without a page to an environment that waits for one outside the ring is never sent: the
-- call returns on no fuel.
pub sys_ipc_can_send_endless :
    (fuel envid value perm : ℕ) (k : Kernel) (c e h : ℕ) (xs : List ℕ)
    → IsRing k (h ∷ xs)
    → has e (h ∷ xs) ≡ false
    → k.curenv ≡ some c
    → envid2env envid false k ≡ found (some e)
    → (k.envs e).env_status ≡ env_not_runnable
    → (k.envs e).env_ipc_recving ≡ 1
    → sys_ipc_can_send fuel envid value 0 perm k ≡ out_of_fuel
unfolding sys_ipc_can_send send_to
sys_ipc_can_send_endless fuel envid value perm k c e h xs r out cur look st re =
    rw (look, st, re) (deliver-absent fuel e value perm k c h xs r out cur)

-- A step that keeps the ring and, in every block, what the calls for messages look at.
record Kept (k k' : Kernel) : Type 0 where
  heads : k'.env_runnable_head ≡ k.env_runnable_head
  tails : k'.env_runnable_tail ≡ k.env_runnable_tail
  links : (a : ℕ) → (k'.envs a).env_link ≡ (k.envs a).env_link
  statuses : (a : ℕ) → (k'.envs a).env_status ≡ (k.envs a).env_status
  recvings : (a : ℕ) → (k'.envs a).env_ipc_recving ≡ (k.envs a).env_ipc_recving
  ids : (a : ℕ) → (k'.envs a).env_id ≡ (k.envs a).env_id

-- The state in which `e` runs.
abbrev entered : ℕ → Kernel → Kernel
entered e k =
    let b = k.envs e in
    record (set_env e (record b { env_runs = (b.env_runs + 1) % word }) k) {
      curenv = some e;
      context = b.env_pgdir;
      asid = get_env_asid b.env_id;
    }
