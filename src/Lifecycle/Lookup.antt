-- ===== src/Lifecycle/Lookup.antt =====
-- An environment that envid2env finds is not free; sys_set_env_status and sys_set_trapframe keep the
-- environments in order.
use cse_os.Base.{
  ℕ, ◌≡◌, refl, ap, Option, none, some, true, false, List, [], ◌∷◌, arith, ◌==◌, ==_iff,
  if◌then◌else◌, has, Bool-cases, inl, inr, Bool, ◌&&◌, not, ltb,
}
use cse_os.Env.{
  Env, Kernel, Trapframe, Run, Lookup, found, bad_env, no_curenv, envid2env, permitted,
  get_env_asid, set_env, deref, env_free_status,
}
use cse_os.Env.Alloc.{FreeChain, IsFreeEnvs}
use cse_os.Syscall.{on_env, e_bad_env}
use cse_os.Syscall.Ipc.{set_status}
use cse_os.Syscall.Ipc.Receive.{set_env-IsRing, set_env-IsFreeEnvs}
use cse_os.Syscall.Status.{update_lists, update_lists-same, sys_set_env_status, sys_set_trapframe}
use cse_os.Lifecycle.Order.{IsOrderly, InOrder, Ensures}

FreeChain-status :
    (envs : ℕ → Env) (o : Option ℕ) (xs : List ℕ) (a : ℕ)
    → FreeChain envs o xs
    → has a xs ≡ true
    → (envs a).env_status ≡ env_free_status
FreeChain-status envs o [] a c m = cc
FreeChain-status envs o (x ∷ xs) a c m = elim (Bool-cases (a == x)) [
  | inl t ↦ rw ((==_iff a x).0 t) c.1
  | inr f ↦ FreeChain-status envs (envs x).env_link xs a c.2 (ground (arith, f, m))
]

-- An environment that is not marked free is not in the list of free ones.
not_free :
    (k : Kernel) (free : List ℕ) (e : ℕ)
    → IsFreeEnvs k free
    → ((k.envs e).env_status == env_free_status) ≡ false
    → has e free ≡ false
not_free k free e f s = elim (Bool-cases (has e free)) [
  | inl t ↦
      let z = FreeChain-status k.envs k.env_free_list free e f.chain t in
      cc (ap (λ v. v == env_free_status) z, s)
  | inr n ↦ n
]

-- The environment that a look-up finds is not free.
abbrev Finds : List ℕ → Lookup → Type 0
Finds free (found (some e)) = has e free ≡ false
Finds free (found none) = Unit
Finds free bad_env = Unit
Finds free no_curenv = Unit

permitted-Finds :
    (k : Kernel) (free : List ℕ) (e : ℕ) (o : Option ℕ)
    → has e free ≡ false
    → Finds free (permitted k e o)
permitted-Finds k free e none out = tt
permitted-Finds k free e (some c) out =
    let denied = not (e == c) && not ((k.envs e).env_parent_id == (k.envs c).env_id) in
    elim (Bool-cases denied) [ inl t ↦ rw t tt | inr f ↦ rw f out ]

current-Finds :
    (free : List ℕ) (o : Option ℕ)
    → ((c : ℕ) → o ≡ some c → has c free ≡ false)
    → Finds free (found o)
current-Finds free none h = tt
current-Finds free (some c) h = h c refl

envid2env-Finds :
    (envid : ℕ) (checkperm : Bool) (k : Kernel) (ring free : List ℕ)
    → IsOrderly k ring free
    → Finds free (envid2env envid checkperm k)
unfolding envid2env
envid2env-Finds envid checkperm k ring free o =
    let e = get_env_asid envid in
    let is_free = (k.envs e).env_status == env_free_status in
    let stale = not ((k.envs e).env_id == envid) in
    elim (Bool-cases (envid == 0)) [
      | inl z ↦ rw z (current-Finds free k.curenv o.current)
      | inr nz ↦ elim (Bool-cases is_free) [
        | inl t ↦ rw (nz, t) tt
        | inr f ↦
            let out = not_free k free e o.unused f in
            elim (Bool-cases stale) [
              | inl t ↦ rw (nz, f, t) tt
              | inr g ↦ rw (nz, f, g) (checked e out checkperm)
            ]
      ]
    ]
  where
    checked :
        (e : ℕ)
        → has e free ≡ false
        → (check : Bool) → Finds free (if check then permitted k e k.curenv else found (some e))
    checked e out true = permitted-Finds k free e k.curenv out
    checked e out false = out

on_env-Ensures :
    (P : Kernel → Type 0) (k : Kernel) (error : ℕ) (l : Lookup) (free : List ℕ) (f : ℕ → Run)
    → P k
    → Finds free l
    → ((e : ℕ) → has e free ≡ false → Ensures P (f e))
    → Ensures P (on_env k error l (λ o. deref o f))
on_env-Ensures P k error (found (some e)) free f p out h = h e out
on_env-Ensures P k error (found none) free f p out h = tt
on_env-Ensures P k error bad_env free f p out h = p
on_env-Ensures P k error no_curenv free f p out h = tt

-- A call that goes on with the environment of the identifier.
pub on_found-InOrder :
    (k : Kernel) (ring free : List ℕ) (error envid : ℕ) (checkperm : Bool) (f : ℕ → Run)
    → IsOrderly k ring free
    → ((e : ℕ) → has e free ≡ false → Ensures InOrder (f e))
    → Ensures InOrder (on_env k error (envid2env envid checkperm k) (λ o. deref o f))
on_found-InOrder k ring free error envid checkperm f o h =
    on_env-Ensures InOrder k error (envid2env envid checkperm k) free f (ring, free, o)
      (envid2env-Finds envid checkperm k ring free o) h

-- The block of an environment that is not free may change, but for its link.
pub set_env-IsOrderly :
    {k : Kernel} {ring free : List ℕ} (c : ℕ) (e : Env)
    → e.env_link ≡ (k.envs c).env_link
    → has c free ≡ false
    → IsOrderly k ring free
    → IsOrderly (set_env c e k) ring free
set_env-IsOrderly {k} {ring} {free} c e same out o = record {
  runnable = set_env-IsRing k c e ring o.runnable same;
  unused = set_env-IsFreeEnvs k c e free o.unused out;
  apart = o.apart;
  current = o.current;
}

pub sys_set_env_status-InOrder :
    (fuel envid status : ℕ) (k : Kernel)
    → InOrder k
    → Ensures InOrder (sys_set_env_status fuel envid status k)
unfolding sys_set_env_status
sys_set_env_status-InOrder fuel envid status k (ring, free, o) = elim (Bool-cases (ltb 4 status)) [
  | inl t ↦ rw t (ring, free, o)
  | inr f ↦ rw f (
      on_found-InOrder k ring free e_bad_env envid false
        (λ e. update_lists fuel e status (set_status e status k)) o
        (λ e out.
          rw (update_lists-same fuel e status k) (
            ring,
            free,
            set_env-IsOrderly e (record (k.envs e) { env_status = status }) refl out o,
          )))
]

pub sys_set_trapframe-InOrder :
    (envid : ℕ) (tf : Trapframe) (k : Kernel)
    → InOrder k
    → Ensures InOrder (sys_set_trapframe envid tf k)
unfolding sys_set_trapframe
sys_set_trapframe-InOrder envid tf k (ring, free, o) =
    on_found-InOrder k ring free e_bad_env envid true _ o
      (λ e out. (ring, free, set_env-IsOrderly e (record (k.envs e) { env_tf = tf }) refl out o))
