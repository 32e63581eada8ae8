-- ===== src/Lifecycle/Order.antt =====
-- What the operations on environments keep in order: the ring of runnable environments of
-- env/sched.c and the list of free ones of env/env.c.
use cse_os.Base.{
  ℕ, ◌≡◌, refl, sym, ◌∙◌, Option, some, Bool-cases, inl, inr, true, false, List, [], ◌∷◌, ◌==◌,
  ==_iff, has, update,
}
use cse_os.Mm.{Mm, Outcome}
use cse_os.Env.{
  Env, Kernel, Run, returned, running, idle, panicked, faulted, out_of_fuel, on_mm, set_env,
}
use cse_os.Env.Alloc.{FreeChain, IsFreeEnvs}
use cse_os.Env.Ring.{IsRing}
use cse_os.Syscall.Ipc.Receive.{IsRing-cong}

-- The runnable environments are those of `ring`, the free ones those of `free`, none is both, and
-- the current one is not free.
pub record IsOrderly (k : Kernel) (ring free : List ℕ) : Type 0 where
  pub runnable : IsRing k ring
  pub unused : IsFreeEnvs k free
  pub apart : (a : ℕ) → has a ring ≡ true → has a free ≡ false
  pub current : (c : ℕ) → k.curenv ≡ some c → has c free ≡ false

abbrev pub InOrder : Kernel → Type 0
InOrder k = (ring : List ℕ) × (free : List ℕ) × IsOrderly k ring free

-- The condition holds of the state in which a call ends, if it ends in one.
abbrev pub Ensures : (Kernel → Type 0) → Run → Type 0
Ensures P (returned v k) = P k
Ensures P (running k) = P k
Ensures P (idle k) = P k
Ensures P panicked = Unit
Ensures P faulted = Unit
Ensures P out_of_fuel = Unit

pub on_mm-Ensures :
    {A : Type 0} (P : Kernel → Type 0) (k : Kernel) (o : Outcome A) (f : A → Kernel → Run)
    → ((a : A) (m : Mm) → Ensures P (f a (record k { mm = m })))
    → Ensures P (on_mm k o f)
on_mm-Ensures P k (Outcome.ok a m) f h = h a m
on_mm-Ensures P k Outcome.panic f h = tt
on_mm-Ensures P k Outcome.fault f h = tt

-- The two states have the same ring and the same free list.
pub record SameLists (k l : Kernel) : Type 0 where
  pub heads : l.env_runnable_head ≡ k.env_runnable_head
  pub tails : l.env_runnable_tail ≡ k.env_runnable_tail
  pub frees : l.env_free_list ≡ k.env_free_list
  pub links : (a : ℕ) → (l.envs a).env_link ≡ (k.envs a).env_link
  pub statuses : (a : ℕ) → (l.envs a).env_status ≡ (k.envs a).env_status

pub SameLists-trans : {k l n : Kernel} → SameLists k l → SameLists l n → SameLists k n
SameLists-trans p q = record {
  heads = q.heads ∙ p.heads;
  tails = q.tails ∙ p.tails;
  frees = q.frees ∙ p.frees;
  links = λ a. q.links a ∙ p.links a;
  statuses = λ a. q.statuses a ∙ p.statuses a;
}

pub SameLists-refl : (k : Kernel) → SameLists k k
SameLists-refl k = record {
  heads = refl;
  tails = refl;
  frees = refl;
  links = λ a. refl;
  statuses = λ a. refl;
}

update-field :
    {A : Type 0} (g : Env → A) (envs : ℕ → Env) (c : ℕ) (e : Env)
    → g e ≡ g (envs c)
    → (a : ℕ) → g (update envs c e a) ≡ g (envs a)
update-field g envs c e same a = elim (Bool-cases (a == c)) [
  | inl t ↦ rw (t, (==_iff a c).0 t) same
  | inr f ↦ rw f refl
]

pub set_env-SameLists :
    (k : Kernel) (c : ℕ) (e : Env)
    → e.env_link ≡ (k.envs c).env_link
    → e.env_status ≡ (k.envs c).env_status
    → SameLists k (set_env c e k)
set_env-SameLists k c e l s = record {
  heads = refl;
  tails = refl;
  frees = refl;
  links = update-field (λ (b : Env). b.env_link) k.envs c e l;
  statuses = update-field (λ (b : Env). b.env_status) k.envs c e s;
}

FreeChain-cong :
    (k l : Kernel) (xs : List ℕ)
    → ((a : ℕ) → (l.envs a).env_link ≡ (k.envs a).env_link)
    → ((a : ℕ) → (l.envs a).env_status ≡ (k.envs a).env_status)
    → (o o' : Option ℕ) → o' ≡ o
    → FreeChain k.envs o xs
    → FreeChain l.envs o' xs
FreeChain-cong k l [] links statuses o o' same c = same ∙ c
FreeChain-cong k l (x ∷ xs) links statuses o o' same c = (
  same ∙ c.0,
  statuses x ∙ c.1,
  FreeChain-cong k l xs links statuses (k.envs x).env_link (l.envs x).env_link (links x) c.2,
)

pub IsFreeEnvs-cong :
    {k l : Kernel} (xs : List ℕ) → SameLists k l → IsFreeEnvs k xs → IsFreeEnvs l xs
IsFreeEnvs-cong {k} {l} xs s f = record {
  chain = FreeChain-cong k l xs s.links s.statuses k.env_free_list l.env_free_list s.frees f.chain;
  distinct = f.distinct;
}

-- A step that keeps the lists, to a current environment that is not free.
pub IsOrderly-cong :
    {k l : Kernel} {ring free : List ℕ}
    → SameLists k l
    → ((c : ℕ) → l.curenv ≡ some c → has c free ≡ false)
    → IsOrderly k ring free
    → IsOrderly l ring free
IsOrderly-cong {k} {l} {ring} {free} s cur o = record {
  runnable = IsRing-cong k l ring s.heads s.tails s.links o.runnable;
  unused = IsFreeEnvs-cong free s o.unused;
  apart = o.apart;
  current = cur;
}

-- A step that keeps the lists and the current environment.
pub SameLists-InOrder : {k l : Kernel} → SameLists k l → l.curenv ≡ k.curenv → InOrder k → InOrder l
SameLists-InOrder s cur (ring, free, o) =
    (ring, free, IsOrderly-cong s (λ c e. o.current c (sym cur ∙ e)) o)

pub mm-SameLists : (k : Kernel) (m : Mm) → SameLists k (record k { mm = m })
mm-SameLists k m = record {
  heads = refl;
  tails = refl;
  frees = refl;
  links = λ a. refl;
  statuses = λ a. refl;
}

pub mm-InOrder : (k : Kernel) (m : Mm) → InOrder k → InOrder (record k { mm = m })
mm-InOrder k m o = SameLists-InOrder (mm-SameLists k m) refl o
