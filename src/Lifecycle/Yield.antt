-- ===== src/Lifecycle/Yield.antt =====
-- env_run, sched_yield and sched_yield_voluntarily_giveup keep the environments in order.
use cse_os.Base.{
  ℕ, zero, suc, ◌+◌, ◌-◌, ◌%◌, ◌≡◌, refl, ◌∙◌, Option, none, some, true, false, List, [], ◌∷◌,
  arith, ◌==◌, Option-cases, if◌then◌else◌, has, Bool-cases, inl, inr, ltb, update, ==_iff, Bool,
  All,
}
use cse_os.Mmu.{word}
use cse_os.Env.{Env, Kernel, env_run, set_env, get_env_asid}
use cse_os.Env.Ring.{Linked}
use cse_os.Env.Leave.{eq_refl}
use cse_os.Sched.{
  Walk, over, broken, endless, pick, boost, raise, tick, lower, after_tick, schedule, pick_from,
  run_lowered, run_picked, give_up, boosted, boost_from, sched_yield,
  sched_yield_voluntarily_giveup,
}
use cse_os.Lifecycle.Order.{
  IsOrderly, InOrder, Ensures, SameLists, SameLists-refl, set_env-SameLists, IsOrderly-cong,
  SameLists-InOrder,
}

-- The state in which `e` runs.
abbrev pub entered : ℕ → Kernel → Kernel
entered e k =
    let b = k.envs e in
    record (set_env e (record b { env_runs = (b.env_runs + 1) % word }) k) {
      curenv = some e;
      context = b.env_pgdir;
      asid = get_env_asid b.env_id;
    }

pub entered-SameLists : (k : Kernel) (e : ℕ) → SameLists k (entered e k)
entered-SameLists k e =
    let b = k.envs e in
    let p = set_env-SameLists k e (record b { env_runs = (b.env_runs + 1) % word }) refl refl in
    record {
      heads = p.heads;
      tails = p.tails;
      frees = p.frees;
      links = p.links;
      statuses = p.statuses;
    }

-- env_run of an environment that is not free.
pub env_run-InOrder :
    {k : Kernel} {ring free : List ℕ} (e : ℕ)
    → IsOrderly k ring free
    → has e free ≡ false
    → Ensures InOrder (env_run (some e) k)
unfolding env_run
env_run-InOrder {k} {ring} {free} e o out =
    (ring, free, IsOrderly-cong (entered-SameLists k e) (λ c same. cc) o)

lower-SameLists : (k : Kernel) (c : ℕ) → SameLists k (lower c k)
lower-SameLists k c = elim (Bool-cases (ltb 1 (k.envs c).env_pri)) [
  | inl t ↦
      rw t
        (set_env-SameLists k c (record (k.envs c) { env_pri = (k.envs c).env_pri - 1 }) refl refl)
  | inr f ↦ rw f (SameLists-refl k)
]

lower-current :
    (k : Kernel) (c : ℕ) (free : List ℕ)
    → ((a : ℕ) → k.curenv ≡ some a → has a free ≡ false)
    → (a : ℕ) → (lower c k).curenv ≡ some a
    → has a free ≡ false
lower-current k c free h a = elim (Bool-cases (ltb 1 (k.envs c).env_pri)) [
  | inl t ↦ rw t (h a)
  | inr f ↦ rw f (h a)
]

-- What holds of the value in which a walk ends, if it ends in one.
abbrev pub Ends : {A : Type 0} → (A → Type 0) → Walk A → Type 0
Ends P (over a) = P a
Ends P broken = Unit
Ends P endless = Unit

abbrev SameBlocks : (ℕ → Env) → (ℕ → Env) → Type 0
SameBlocks f g = (a : ℕ) → ((g a).env_link ≡ (f a).env_link) × ((g a).env_status ≡ (f a).env_status)

raise-same : (e : Env) → ((raise e).env_link ≡ e.env_link) × ((raise e).env_status ≡ e.env_status)
raise-same e = elim (Bool-cases (ltb 0 e.env_pri)) [
  | inl t ↦ rw t (refl, refl)
  | inr f ↦ rw f (refl, refl)
]

raise-SameBlocks : (f : ℕ → Env) (x : ℕ) → SameBlocks f (update f x (raise (f x)))
raise-SameBlocks f x a = elim (Bool-cases (a == x)) [
  | inl t ↦ rw (t, (==_iff a x).0 t) (raise-same (f x))
  | inr e ↦ rw e (refl, refl)
]

SameBlocks-Ends :
    (f g : ℕ → Env) (w : Walk (ℕ → Env))
    → SameBlocks f g
    → Ends (SameBlocks g) w
    → Ends (SameBlocks f) w
SameBlocks-Ends f g (over h) s t = λ a. ((t a).0 ∙ (s a).0, (t a).1 ∙ (s a).1)
SameBlocks-Ends f g broken s t = tt
SameBlocks-Ends f g endless s t = tt

boost-SameBlocks : (fuel head x : ℕ) (f : ℕ → Env) → Ends (SameBlocks f) (boost fuel head x f)
unfolding boost
boost-SameBlocks zero head x f = tt
boost-SameBlocks (suc fuel) head x f =
    let g = update f x (raise (f x)) in
    let s = raise-SameBlocks f x in
    elim (Option-cases (g x).env_link) [
      | inl n ↦ rw (boost, n) tt
      | inr (t, l) ↦ elim (Bool-cases (t == head)) [
        | inl e ↦ rw (boost, l, e) s
        | inr e ↦
            rw (boost, l, e)
              (SameBlocks-Ends f g (boost fuel head t g) s (boost-SameBlocks fuel head t g))
      ]
    ]

if_either : (P : ℕ → Type 0) (b : Bool) (x e : ℕ) → P x → P e → P (if b then x else e)
if_either P true x e p q = p
if_either P false x e p q = q

-- The choice is the first candidate or a member of the ring, with any fuel.
pick-Ends :
    (P : ℕ → Type 0) (fuel head x highest e : ℕ) (f : ℕ → Env) (ys : List ℕ)
    → Linked f x ys head
    → P e
    → All P (x ∷ ys)
    → Ends P (pick fuel f head x highest e)
unfolding pick
pick-Ends P zero head x highest e f ys l p all = tt
pick-Ends P (suc fuel) head x highest e f [] l p all =
    rw (pick, l, eq_refl head) (if_either P (ltb highest (f x).env_pri) x e all.0 p)
pick-Ends P (suc fuel) head x highest e f (y ∷ ys) l p all =
    let better = ltb highest (f x).env_pri in
    let q = if_either P better x e all.0 p in
    elim (Bool-cases (y == head)) [
      | inl t ↦ rw (pick, l.0, t) q
      | inr n ↦
          rw (pick, l.0, n)
            (pick-Ends P fuel head y (if better then (f x).env_pri else highest)
              (if better then x else e) f ys l.1 q all.1)
    ]

-- No member of the ring is free.
All-apart :
    (ring free : List ℕ)
    → ((a : ℕ) → has a ring ≡ true → has a free ≡ false)
    → All (λ a. has a free ≡ false) ring
All-apart [] free h = tt
All-apart (x ∷ xs) free h =
    let here : (x == x) ≡ true = eq_refl x in
    (h x (rw here refl), All-apart xs free (λ a m. h a (ground (arith, m))))

pick_from-Ends :
    (fuel : ℕ) (k : Kernel) (c : ℕ) (ring free : List ℕ)
    → IsOrderly k ring free
    → k.curenv ≡ some c
    → Ends (λ e. has e free ≡ false) (pick_from fuel k c k.env_runnable_head)
unfolding pick_from
pick_from-Ends fuel k c [] free o cur = rw (o.runnable.0) tt
pick_from-Ends fuel k c (h ∷ xs) free o cur = rw (o.runnable.0) (
    pick-Ends (λ e. has e free ≡ false) fuel h h 0 c k.envs xs o.runnable.2 (o.current c cur)
      (All-apart (h ∷ xs) free o.apart))

run_lowered-InOrder :
    {k : Kernel} {ring free : List ℕ} (c : ℕ) (w : Walk ℕ)
    → IsOrderly k ring free
    → Ends (λ e. has e free ≡ false) w
    → Ensures InOrder (run_lowered c k w)
run_lowered-InOrder {k} {ring} {free} c (over e) o out =
    env_run-InOrder e (IsOrderly-cong (lower-SameLists k c) (lower-current k c free o.current) o)
      out
run_lowered-InOrder c broken o out = tt
run_lowered-InOrder c endless o out = tt

run_picked-InOrder :
    {k : Kernel} {ring free : List ℕ} (w : Walk ℕ)
    → IsOrderly k ring free
    → Ends (λ e. has e free ≡ false) w
    → Ensures InOrder (run_picked k w)
run_picked-InOrder (over e) o out = env_run-InOrder e o out
run_picked-InOrder broken o out = tt
run_picked-InOrder endless o out = tt

-- The head of the ring runs where no environment is current.
run_head-InOrder :
    (k : Kernel) (ring free : List ℕ) (o : Option ℕ)
    → o ≡ k.env_runnable_head
    → IsOrderly k ring free
    → Ensures InOrder (env_run o k)
unfolding env_run
run_head-InOrder k ring free none same o = tt
run_head-InOrder k [] free (some e) same o = cc (same, o.runnable.0)
run_head-InOrder k (h ∷ xs) free (some e) same o =
    let is_head : h ≡ e = cc (same, o.runnable.0) in
    env_run-InOrder e o (rw⁻¹ is_head (All-apart (h ∷ xs) free o.apart).0)

schedule-at :
    (fuel : ℕ) (k : Kernel) (ring free : List ℕ) (c : Option ℕ)
    → k.curenv ≡ c
    → IsOrderly k ring free
    → Ensures InOrder (schedule fuel k c)
unfolding schedule
schedule-at fuel k ring free none cur o = run_head-InOrder k ring free k.env_runnable_head refl o
schedule-at fuel k ring free (some c) cur o =
    run_lowered-InOrder c (pick_from fuel k c k.env_runnable_head) o
      (pick_from-Ends fuel k c ring free o cur)

give_up-at :
    (fuel : ℕ) (k : Kernel) (ring free : List ℕ) (c : Option ℕ)
    → k.curenv ≡ c
    → IsOrderly k ring free
    → Ensures InOrder (give_up fuel k c)
unfolding give_up
give_up-at fuel k ring free none cur o = run_head-InOrder k ring free k.env_runnable_head refl o
give_up-at fuel k ring free (some c) cur o =
    run_picked-InOrder (pick_from fuel k c k.env_runnable_head) o
      (pick_from-Ends fuel k c ring free o cur)

pub sched_yield_voluntarily_giveup-InOrder :
    (fuel : ℕ) (k : Kernel) → InOrder k → Ensures InOrder (sched_yield_voluntarily_giveup fuel k)
unfolding sched_yield_voluntarily_giveup
sched_yield_voluntarily_giveup-InOrder fuel k (ring, free, o) =
    give_up-at fuel k ring free k.curenv refl o

timed : (k : Kernel) (time : ℕ) → InOrder k → InOrder (record k { remaining_time = time })
timed k time o = SameLists-InOrder (same k time) refl o
  where
    same : (k : Kernel) (time : ℕ) → SameLists k (record k { remaining_time = time })
    same k time = record {
      heads = refl;
      tails = refl;
      frees = refl;
      links = λ a. refl;
      statuses = λ a. refl;
    }

boosted-InOrder :
    (k : Kernel) (w : Walk (ℕ → Env))
    → Ends (SameBlocks k.envs) w
    → InOrder k
    → Ends InOrder (boosted k w)
unfolding boosted
boosted-InOrder k (over f) s o =
    SameLists-InOrder
      (record {
        heads = refl;
        tails = refl;
        frees = refl;
        links = λ a. (s a).0;
        statuses = λ a. (s a).1;
      })
      refl o
boosted-InOrder k broken s o = tt
boosted-InOrder k endless s o = tt

boost_from-InOrder :
    (fuel : ℕ) (k : Kernel) (o : Option ℕ) → InOrder k → Ends InOrder (boost_from fuel k o)
unfolding boost_from
boost_from-InOrder fuel k none o = tt
boost_from-InOrder fuel k (some h) o =
    boosted-InOrder k (boost fuel h h k.envs) (boost-SameBlocks fuel h h k.envs) o

tick-InOrder : (fuel : ℕ) (k : Kernel) → InOrder k → Ends InOrder (tick fuel k)
unfolding tick
tick-InOrder fuel k o =
    let time = (k.remaining_time + word - 1) % word in
    let j = record k { remaining_time = time } in
    elim (Bool-cases (time == 0)) [
      | inl t ↦ rw t (boost_from-InOrder fuel j k.env_runnable_head (timed k time o))
      | inr f ↦ rw f (timed k time o)
    ]

after_tick-InOrder :
    (fuel : ℕ) (w : Walk Kernel) → Ends InOrder w → Ensures InOrder (after_tick fuel w)
unfolding after_tick
after_tick-InOrder fuel (over k) (ring, free, o) = schedule-at fuel k ring free k.curenv refl o
after_tick-InOrder fuel broken o = tt
after_tick-InOrder fuel endless o = tt

pub sched_yield-InOrder : (fuel : ℕ) (k : Kernel) → InOrder k → Ensures InOrder (sched_yield fuel k)
unfolding sched_yield
sched_yield-InOrder fuel k o = after_tick-InOrder fuel (tick fuel k) (tick-InOrder fuel k o)
