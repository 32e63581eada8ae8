-- ===== src/Env/Ids.antt =====
-- mkenvid and envid2env: which environment an identifier stands for.
use cse_os.Base.{
  ℕ, ◌+◌, ◌*◌, ◌%◌, ◌^◌, ◌≤◌, ◌<◌, ◌≡◌, refl, ◌≢◌, Option, none, some, Bool, true, false, not,
  arith, ◌==◌, if◌then◌else◌, Bool-cases, inl, inr, ◌||◌, ◌&&◌,
}
use mathlib.Core.Path.{subst}
use cse_os.Base.Bits.{or_aligned_half}
use cse_os.Mmu.{word}
use cse_os.Env.{
  Kernel, nenv, get_env_asid, mkenvid, envid2env, Lookup, found, bad_env, no_curenv, permitted,
  env_free_status,
}

-- A new identifier is a multiple of 2048 with the environment's place added.
mkenvid-sum :
    (e : ℕ) (k : Kernel) → e < nenv → (mkenvid e k).0 ≡ (k.next_env_id + 1) % word * 2048 % word + e
unfolding mkenvid
mkenvid-sum e k h =
    or_aligned_half ((k.next_env_id + 1) % word * 2048 % word) e (omega arith) (omega arith)

permitted_if :
    (k : Kernel) (e c : ℕ) (checkperm : Bool)
    → (if checkperm then permitted k e (some c) else found (some e)) ≡ (
        if checkperm && (not (e == c) && not ((k.envs e).env_parent_id == (k.envs c).env_id))
        then bad_env
        else found (some e))
permitted_if k e c true = refl
permitted_if k e c false = refl

-- An identifier that mkenvid made for one of the first 256 environments, while that environment has
-- it and is not free, is looked up as that environment, unless a check of permissions is asked for
-- and the environment is neither the current one nor a child of it. The identifiers are not 0 until
-- 2 ^ 21 of them have been made.
pub envid2env-mkenvid :
    (e c : ℕ) (k₀ k : Kernel) (checkperm : Bool)
    → e < 256
    → (k₀.next_env_id + 1) % 2 ^ 21 ≢ 0
    → (k.envs e).env_id ≡ (mkenvid e k₀).0
    → (k.envs e).env_status ≢ env_free_status
    → k.curenv ≡ some c
    → envid2env (mkenvid e k₀).0 checkperm k ≡ (
        if checkperm && (not (e == c) && not ((k.envs e).env_parent_id == (k.envs c).env_id))
        then bad_env
        else found (some e))
unfolding envid2env
envid2env-mkenvid e c k₀ k checkperm h nz id live cur =
    let s = mkenvid-sum e k₀ (omega arith) in
    let low : get_env_asid (mkenvid e k₀).0 ≡ e = omega arith in
    let z : ((mkenvid e k₀).0 == 0) ≡ false = ground arith in
    let st : ((k.envs e).env_status == env_free_status) ≡ false = ground arith in
    let same : ((mkenvid e k₀).0 == (mkenvid e k₀).0) ≡ true = ground arith in
    rw (z, low, st, id, same, cur) (permitted_if k e c checkperm)

-- A result of envid2env, if it is an environment, is one of the first 256.
IsLow : Lookup → Type 0
IsLow (found none) = Unit
IsLow (found (some e)) = e < 256
IsLow bad_env = Unit
IsLow no_curenv = Unit

permitted-IsLow : (k : Kernel) (e : ℕ) (o : Option ℕ) → e < 256 → IsLow (permitted k e o)
unfolding IsLow
permitted-IsLow k e none h = tt
permitted-IsLow k e (some c) h =
    elim (Bool-cases (not (e == c) && not ((k.envs e).env_parent_id == (k.envs c).env_id))) [
      | inl t ↦ rw t tt
      | inr f ↦ rw f h
    ]

envid2env-IsLow :
    (envid : ℕ) (checkperm : Bool) (k : Kernel) → envid ≢ 0 → IsLow (envid2env envid checkperm k)
unfolding envid2env IsLow
envid2env-IsLow envid checkperm k nz =
    let e = get_env_asid envid in
    let z : (envid == 0) ≡ false = ground arith in
    elim (Bool-cases
      (((k.envs e).env_status == env_free_status) || not ((k.envs e).env_id == envid))) [
        | inl t ↦ rw (z, t) tt
        | inr f ↦ rw (z, f) (choose checkperm)
      ]
  where
    choose :
        (b : Bool)
        → IsLow (
            if b
            then permitted k (get_env_asid envid) k.curenv
            else found (some (get_env_asid envid)))
    choose true = permitted-IsLow k (get_env_asid envid) k.curenv (omega arith)
    choose false = omega arith

-- An identifier other than 0 is looked up among the first 256 environments alone: none of the
-- others is ever found by it, with or without the check of permissions.
pub envid2env-low :
    (envid e : ℕ) (checkperm : Bool) (k : Kernel)
    → envid ≢ 0
    → 256 ≤ e
    → envid2env envid checkperm k ≢ found (some e)
unfolding IsLow
envid2env-low envid e checkperm k nz high q =
    let low : e < 256 = subst IsLow q (envid2env-IsLow envid checkperm k nz) in absurd (omega arith)
