-- ===== src/Sched.antt =====
-- env/sched.c: the choice of the next environment by priority, in the ring of runnable environments.
-- A walk round the ring goes on fuel.
pub mod Pick
pub mod Yield
mod Tests
use cse_os.Base.{
  ℕ, zero, suc, ◌+◌, ◌-◌, ◌%◌, Option, none, some, Bool, true, false, ltb, ◌==◌, if◌then◌else◌,
  update,
}
use cse_os.Mmu.{word}
use cse_os.Env.{Env, Kernel, Run, faulted, out_of_fuel, env_run, set_env, set_pri}

abbrev pub max_env_priority : ℕ
max_env_priority = 5

abbrev pub time_to_make_env_all_priorist : ℕ
time_to_make_env_all_priorist = 5

-- A walk round the ring ends with a value, an access through NULL, or no fuel.
pub data Walk (A : Type 0) : Type 0 where
  over : A → Walk A
  broken : Walk A
  endless : Walk A

abbrev pub raise : Env → Env
raise e = if ltb 0 e.env_pri then record e { env_pri = max_env_priority } else e

-- The loop that raises every environment of the ring, at `temp`.
unfoldable pub boost : ℕ → ℕ → ℕ → (ℕ → Env) → Walk (ℕ → Env)
boost zero head temp envs = endless
boost (suc fuel) head temp envs =
    let raised = update envs temp (raise (envs temp)) in
    elim ((raised temp).env_link) [
      | none ↦ broken
      | some t ↦ let rest = boost fuel head t raised in if t == head then over raised else rest
    ]

-- The loop that looks for the highest priority, at `temp`; `e` is the best so far.
unfoldable pub pick : ℕ → (ℕ → Env) → ℕ → ℕ → ℕ → ℕ → Walk ℕ
pick zero envs head temp highest e = endless
pick (suc fuel) envs head temp highest e =
    let better = ltb highest (envs temp).env_pri in
    let highest' = if better then (envs temp).env_pri else highest in
    let e' = if better then temp else e in
    elim ((envs temp).env_link) [
      | none ↦ broken
      | some t ↦ let rest = pick fuel envs head t highest' e' in if t == head then over e' else rest
    ]

unfoldable pub boosted : Kernel → Walk (ℕ → Env) → Walk Kernel
boosted k (over envs) =
    over (record k { envs = envs; remaining_time = time_to_make_env_all_priorist })
boosted k broken = broken
boosted k endless = endless

unfoldable pub boost_from : ℕ → Kernel → Option ℕ → Walk Kernel
unfolding boosted boost
boost_from fuel k none = broken
boost_from fuel k (some h) = boosted k (boost fuel h h k.envs)

-- The first part of sched_yield: a tick, and the boost when the time is over.
unfoldable pub tick : ℕ → Kernel → Walk Kernel
unfolding boost_from
tick fuel k =
    let time = (k.remaining_time + word - 1) % word in
    let j = record k { remaining_time = time } in
    if time == 0 then boost_from fuel j j.env_runnable_head else over j

-- The current environment, `c`, goes down by one level.
abbrev pub lower : ℕ → Kernel → Kernel
lower c k = let pri = (k.envs c).env_pri in if ltb 1 pri then set_pri c (pri - 1) k else k

abbrev pub run_lowered : ℕ → Kernel → Walk ℕ → Run
run_lowered c k (over e) = env_run (some e) (lower c k)
run_lowered c k broken = faulted
run_lowered c k endless = out_of_fuel

abbrev pub run_picked : Kernel → Walk ℕ → Run
run_picked k (over e) = env_run (some e) k
run_picked k broken = faulted
run_picked k endless = out_of_fuel

unfoldable pub pick_from : ℕ → Kernel → ℕ → Option ℕ → Walk ℕ
unfolding pick
pick_from fuel k c none = broken
pick_from fuel k c (some h) = pick fuel k.envs h h 0 c

-- The second part of sched_yield. With no current environment the head of the ring runs.
unfoldable pub schedule : ℕ → Kernel → Option ℕ → Run
unfolding pick_from
schedule fuel k none = env_run k.env_runnable_head k
schedule fuel k (some c) = run_lowered c k (pick_from fuel k c k.env_runnable_head)

unfoldable pub after_tick : ℕ → Walk Kernel → Run
unfolding schedule
after_tick fuel (over k) = schedule fuel k k.curenv
after_tick fuel broken = faulted
after_tick fuel endless = out_of_fuel

-- sched_yield
unfoldable pub sched_yield : ℕ → Kernel → Run
unfolding after_tick tick
sched_yield fuel k = after_tick fuel (tick fuel k)

unfoldable pub give_up : ℕ → Kernel → Option ℕ → Run
unfolding pick_from
give_up fuel k none = env_run k.env_runnable_head k
give_up fuel k (some c) = run_picked k (pick_from fuel k c k.env_runnable_head)

-- sched_yield_voluntarily_giveup
unfoldable pub sched_yield_voluntarily_giveup : ℕ → Kernel → Run
unfolding give_up
sched_yield_voluntarily_giveup fuel k = give_up fuel k k.curenv
