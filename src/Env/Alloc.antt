-- ===== src/Env/Alloc.antt =====
-- env_init and env_alloc against the list of free environments.
use cse_os.Base.{
  ℕ, zero, suc, ◌+◌, ◌*◌, ◌^◌, ◌%◌, bit_or, ◌<◌, ◌≡◌, refl, ap, ◌∙◌, Option, none, some, true,
  false, List, [], ◌∷◌, arith, ◌==◌, ==_iff, if◌then◌else◌, Bool-cases, inl, inr, update, has,
  Distinct,
}
use cse_os.Mmu.{word, ustacktop}
use cse_os.Mm.{Mm, Outcome}
use cse_os.Env.{
  Env, Kernel, nenv, env_init_from, env_init, env_alloc_arg, env_alloc_first, env_alloc_with,
  env_setup_vm, env_free_status, allocated, no_free_env, mkenvid, fresh_env, initial_regs,
}

-- From `o` the links lead through the free environments `xs` to NULL.
abbrev pub FreeChain : (ℕ → Env) → Option ℕ → List ℕ → Type 0
FreeChain envs o [] = o ≡ none
FreeChain envs o (x ∷ xs) =
    (o ≡ some x) × ((envs x).env_status ≡ env_free_status) × FreeChain envs (envs x).env_link xs

-- The free list holds the environments of `xs`, in this order, each once and each marked free.
pub record IsFreeEnvs (k : Kernel) (xs : List ℕ) : Type 0 where
  pub chain : FreeChain k.envs k.env_free_list xs
  pub distinct : Distinct xs

abbrev pub counting : ℕ → ℕ → List ℕ
counting zero i = []
counting (suc count) i = i ∷ counting count (suc i)

has-counting : (a count i : ℕ) → a < i → has a (counting count i) ≡ false
has-counting a zero i h = refl
has-counting a (suc count) i h = ground (arith, has-counting a count (suc i) (omega arith))

Distinct-counting : (count i : ℕ) → Distinct (counting count i)
Distinct-counting zero i = tt
Distinct-counting (suc count) i =
    (has-counting i count (suc i) (omega arith), Distinct-counting count (suc i))

pub FreeChain-update :
    (envs : ℕ → Env) (i : ℕ) (e : Env) (o : Option ℕ) (xs : List ℕ)
    → has i xs ≡ false
    → FreeChain envs o xs
    → FreeChain (update envs i e) o xs
FreeChain-update envs i e o [] out c = c
FreeChain-update envs i e o (x ∷ xs) out c =
    let miss : (x == i) ≡ false = ground arith in
    (c.0, rw miss c.1, rw miss (FreeChain-update envs i e (envs x).env_link xs (ground arith) c.2))

env_init_from-chain :
    (i count n : ℕ) (k : Kernel)
    → i + count ≡ n
    → FreeChain k.envs k.env_free_list (counting count i)
    → FreeChain (env_init_from i k).envs (env_init_from i k).env_free_list (counting n 0)
unfolding env_init_from
env_init_from-chain zero count n k s c = let e : n ≡ count = omega arith in rw e c
env_init_from-chain (suc i) count n k s c =
    let here : (i == i) ≡ true = ground arith in
    env_init_from-chain i (suc count) n _ (omega arith) (
      refl,
      rw here refl,
      rw here (
          FreeChain-update k.envs i _ k.env_free_list (counting count (suc i))
            (has-counting i count (suc i) (omega arith)) c),
    )

-- After env_init on an empty list, the free list holds all 1024 environments, the first in front.
pub env_init_lem : (k : Kernel) → k.env_free_list ≡ none → IsFreeEnvs (env_init k) (counting nenv 0)
unfolding env_init
env_init_lem k e = record {
  chain = env_init_from-chain nenv 0 nenv k (omega arith) e;
  distinct = Distinct-counting nenv 0;
}

-- The registers that a program starts with: the stack pointer is USTACKTOP, the return address
-- 0x90000000, and an argument is announced by 1 in register 4 and passed in register 5.
abbrev pub start_reg : Option ℕ → (ℕ → ℕ) → ℕ → ℕ
start_reg none old r = if r == 29 then ustacktop else if r == 31 then 0x9000_0000 else old r
start_reg (some a) old r =
    if r == 4
    then 1
    else if r == 5
    then a
    else if r == 29
    then ustacktop
    else if r == 31
    then 0x9000_0000
    else old r

-- The block of the new environment `x`, where `old` is what the block held before.
pub record IsFresh (x pgdir cr3 parent_id next : ℕ) (arg : Option ℕ) (old new : Env) : Type 0 where
  pub id : new.env_id ≡ bit_or (next * 2048 % word) x
  pub parent : new.env_parent_id ≡ parent_id
  pub status : new.env_status ≡ 1
  pub directory : (new.env_pgdir ≡ pgdir) × (new.env_cr3 ≡ cr3)
  pub runs : new.env_runs ≡ 0
  pub regs : (r : ℕ) → new.env_tf.regs r ≡ start_reg arg old.env_tf.regs r
  pub cp0_status : new.env_tf.cp0_status ≡ 0x1000_7c01
  pub kept :
      (new.heap_pc ≡ old.heap_pc)
      × (new.env_pri ≡ old.env_pri)
      × (new.env_link ≡ old.env_link)
      × (new.env_xstacktop ≡ old.env_xstacktop)
      × (new.env_pgfault_handler ≡ old.env_pgfault_handler)
      × (new.env_ipc_recving ≡ old.env_ipc_recving)
      × (new.env_tf.cp0_epc ≡ old.env_tf.cp0_epc)

initial_regs-start_reg :
    (arg : Option ℕ) (old : ℕ → ℕ) (r : ℕ) → initial_regs arg old r ≡ start_reg arg old r
initial_regs-start_reg none old r = ground arith
initial_regs-start_reg (some a) old r = ground arith

fresh_env-IsFresh :
    (x pgdir cr3 parent_id next : ℕ) (arg : Option ℕ) (old : Env)
    → IsFresh x pgdir cr3 parent_id next arg old
        (fresh_env old pgdir cr3 (bit_or (next * 2 ^ 11 % word) x) parent_id arg)
fresh_env-IsFresh x pgdir cr3 parent_id next arg old = record {
  id = refl;
  parent = refl;
  status = refl;
  directory = (refl, refl);
  runs = refl;
  regs = initial_regs-start_reg arg old.env_tf.regs;
  cp0_status = refl;
  kept = (refl, refl, refl, refl, refl, refl, refl);
}

-- What env_alloc_arg does for each list of free environments, when env_setup_vm succeeds.
abbrev pub Allocates : ℕ → Option ℕ → Kernel → ℕ → ℕ → Mm → List ℕ → Type 0
Allocates parent_id arg k pgdir cr3 m [] = env_alloc_arg parent_id arg k ≡ no_free_env
Allocates parent_id arg k pgdir cr3 m (x ∷ xs) =
    (j : Kernel) × (env_alloc_arg parent_id arg k ≡ allocated x j)
    × IsFreeEnvs j xs
    × IsFresh x pgdir cr3 parent_id ((k.next_env_id + 1) % word) arg (k.envs x) (j.envs x)
    × (j.next_env_id ≡ (k.next_env_id + 1) % word)
    × (j.mm ≡ m)
    × ((a : ℕ) → j.envs a ≡ (if a == x then j.envs x else k.envs a))

-- env_alloc and env_alloc_arg fail exactly when no environment is free; otherwise, when
-- env_setup_vm gives a page directory, they take the first one off the list, give it the identifier
-- of its place and the next count, the status of a runnable environment and the registers to start
-- with, and leave every other environment as it is.
pub env_alloc_lem :
    (k : Kernel) (xs : List ℕ) (parent_id pgdir cr3 : ℕ) (arg : Option ℕ) (m : Mm)
    → IsFreeEnvs k xs
    → env_setup_vm k.boot_pgdir k.mm ≡ Outcome.ok (pgdir, cr3) m
    → Allocates parent_id arg k pgdir cr3 m xs
unfolding env_alloc_arg env_alloc_first env_alloc_with mkenvid
env_alloc_lem k [] parent_id pgdir cr3 arg m f v = rw f.chain refl
env_alloc_lem k (x ∷ xs) parent_id pgdir cr3 arg m f v =
    let here = (==_iff x x).1 refl in
    (
      _,
      ap (λ o. env_alloc_first o parent_id arg k) f.chain.0
          ∙ ap (env_alloc_with x parent_id arg k) v,
      record {
        chain = FreeChain-update k.envs x _ (k.envs x).env_link xs f.distinct.0 f.chain.2;
        distinct = f.distinct.1;
      },
      rw here (fresh_env-IsFresh x pgdir cr3 parent_id ((k.next_env_id + 1) % word) arg (k.envs x)),
      refl,
      refl,
      λ a. elim (Bool-cases (a == x)) [ inl t ↦ rw (t, here) refl | inr e ↦ rw e refl ],
    )
