-- ===== src/Sched/Yield.antt =====
-- sched_yield and sched_yield_voluntarily_giveup on the ring of runnable environments.
use cse_os.Base.{
  ℕ, zero, suc, ◌+◌, ◌-◌, ◌%◌, ◌<◌, ◌≡◌, refl, ap, ◌∙◌, some, true, false, List, [], ◌∷◌, arith,
  ◌==◌, ==_iff, if◌then◌else◌, has, Bool-cases, inl, inr, length, ltb, update, ◌&&◌,
}
use cse_os.Mmu.{word}
use cse_os.Env.{Env, Kernel, env_run}
use cse_os.Env.Ring.{IsRing, Linked, Linked-cong}
use cse_os.Sched.{
  over, pick, boost, raise, tick, lower, after_tick, schedule, pick_from, run_lowered, sched_yield,
  sched_yield_voluntarily_giveup, time_to_make_env_all_priorist,
}
use cse_os.Sched.Pick.{best, pick-best, IsFirstMax, best-IsFirstMax}

raise-link : (e : Env) → (raise e).env_link ≡ e.env_link
raise-link e = elim (Bool-cases (ltb 0 e.env_pri)) [ inl t ↦ rw t refl | inr f ↦ rw f refl ]

raise-raise : (e : Env) → raise (raise e) ≡ raise e
raise-raise e = elim (Bool-cases (ltb 0 e.env_pri)) [ inl t ↦ rw t refl | inr f ↦ rw (f, f) refl ]

abbrev raise_all : (ℕ → Env) → List ℕ → ℕ → Env
raise_all envs [] = envs
raise_all envs (x ∷ xs) = raise_all (update envs x (raise (envs x))) xs

update-raise-link :
    (envs : ℕ → Env) (x a : ℕ) → (update envs x (raise (envs x)) a).env_link ≡ (envs a).env_link
update-raise-link envs x a = elim (Bool-cases (a == x)) [
  | inl t ↦ rw (t, (==_iff a x).0 t) (raise-link (envs x))
  | inr f ↦ rw f refl
]

boost-raise_all :
    (fuel : ℕ) (envs : ℕ → Env) (head x : ℕ) (ys : List ℕ)
    → Linked envs x ys head
    → has head ys ≡ false
    → length ys < fuel
    → boost fuel head x envs ≡ over (raise_all envs (x ∷ ys))
unfolding boost
boost-raise_all zero envs head x ys l out h = absurd (omega arith)
boost-raise_all (suc fuel) envs head x [] l out h =
    let same : (head == head) ≡ true = ground arith in
    rw (boost, update-raise-link envs x x ∙ l, same) refl
boost-raise_all (suc fuel) envs head x (y ∷ ys) l out h =
    let miss : (y == head) ≡ false = ground arith in
    rw (boost, update-raise-link envs x x ∙ l.0, miss)
      (boost-raise_all fuel (update envs x (raise (envs x))) head y ys
        (Linked-cong envs (update envs x (raise (envs x))) y ys head
          (λ a _. update-raise-link envs x a) l.1)
        (ground arith) (omega arith))

raise_all-at :
    (envs : ℕ → Env) (xs : List ℕ) (a : ℕ)
    → raise_all envs xs a ≡ (if has a xs then raise (envs a) else envs a)
raise_all-at envs [] a = refl
raise_all-at envs (x ∷ xs) a = elim (Bool-cases (a == x)) [
  | inl t ↦ raise_all-at (update envs x (raise (envs x))) xs a ∙ hit t
  | inr f ↦ raise_all-at (update envs x (raise (envs x))) xs a ∙ rw f refl
]
  where
    hit :
        (a == x) ≡ true
        → (if has a xs
            then raise (update envs x (raise (envs x)) a)
            else update envs x (raise (envs x)) a)
          ≡ (if has a (x ∷ xs) then raise (envs a) else envs a)
    hit t = elim (Bool-cases (has a xs)) [
      | inl m ↦ rw (m, t, (==_iff a x).0 t) (raise-raise (envs x))
      | inr n ↦ rw (n, t, (==_iff a x).0 t) refl
    ]

-- The state after the tick of sched_yield: one unit of time has passed, and when the time was over
-- it starts again, and every environment of the ring whose priority is not 0 is on the highest level.
pub record Ticked (k : Kernel) (ring : List ℕ) (j : Kernel) : Type 0 where
  pub rest : j ≡ record k { envs = j.envs; remaining_time = j.remaining_time }
  pub time : j.remaining_time ≡ (
      if k.remaining_time == 1
      then time_to_make_env_all_priorist
      else (k.remaining_time + word - 1) % word)
  pub levels :
      (a : ℕ)
      → j.envs a ≡ (if (k.remaining_time == 1) && has a ring then raise (k.envs a) else k.envs a)

tick-Ticked :
    (fuel : ℕ) (k : Kernel) (h : ℕ) (xs : List ℕ)
    → IsRing k (h ∷ xs)
    → k.remaining_time < word
    → length xs < fuel
    → (j : Kernel) × (tick fuel k ≡ over j) × Ticked k (h ∷ xs) j
unfolding tick
tick-Ticked fuel k h xs r small enough = elim (Bool-cases (k.remaining_time == 1)) [
  | inl t ↦
      let z : ((k.remaining_time + word - 1) % word == 0) ≡ true = ground arith in
      (
        record k { envs = raise_all k.envs (h ∷ xs); remaining_time = 5 },
        rw (z, r.0, boost-raise_all fuel k.envs h h xs r.2 r.3.0 enough) refl,
        record {
          rest = refl;
          time = rw t refl;
          levels = λ a. rw t (raise_all-at k.envs (h ∷ xs) a);
        },
      )
  | inr f ↦
      let z : ((k.remaining_time + word - 1) % word == 0) ≡ false = ground arith in
      (
        record k { remaining_time = (k.remaining_time + word - 1) % word },
        rw z refl,
        record { rest = refl; time = rw f refl; levels = λ a. rw f refl },
      )
]

pub Ticked-link :
    (k : Kernel) (ring : List ℕ) (j : Kernel)
    → Ticked k ring j
    → (a : ℕ) → (j.envs a).env_link ≡ (k.envs a).env_link
Ticked-link k ring j t a = elim (Bool-cases ((k.remaining_time == 1) && has a ring)) [
  | inl e ↦ rw (t.levels a, e) (raise-link (k.envs a))
  | inr e ↦ rw (t.levels a, e) refl
]

runs :
    (fuel : ℕ) (k j l : Kernel) (h c e : ℕ)
    → tick fuel k ≡ over j
    → j.curenv ≡ some c
    → j.env_runnable_head ≡ some h
    → pick fuel j.envs h h 0 c ≡ over e
    → lower c j ≡ l
    → sched_yield fuel k ≡ env_run (some e) l
unfolding sched_yield after_tick schedule pick_from
runs fuel k j l h c e ticks cur head picks low =
    ap (after_tick fuel) ticks
    ∙ ap (schedule fuel j) cur
    ∙ ap (λ o. run_lowered c j (pick_from fuel j c o)) head
    ∙ ap (run_lowered c j) picks
    ∙ ap (env_run (some e)) low

pub sched_yield_lem :
    (fuel : ℕ) (k : Kernel) (h : ℕ) (xs : List ℕ) (c : ℕ)
    → IsRing k (h ∷ xs)
    → k.curenv ≡ some c
    → k.remaining_time < word
    → length xs < fuel
    → (j : Kernel) × (e : ℕ) × (sched_yield fuel k ≡ env_run (some e) (lower c j))
      × Ticked k (h ∷ xs) j
      × IsFirstMax j.envs 0 c (h ∷ xs) e
unfolding sched_yield
sched_yield_lem fuel k h xs c r cur small enough =
    let (j, ticks, t) = tick-Ticked fuel k h xs r small enough in
    let linked = Linked-cong k.envs j.envs h xs h (λ a _. Ticked-link k (h ∷ xs) j t a) r.2 in
    let picks = pick-best fuel j.envs h h xs 0 c linked r.3.0 enough in
    let cur' : j.curenv ≡ some c = ap (λ x. x.curenv) t.rest ∙ cur in
    let head' : j.env_runnable_head ≡ some h = ap (λ x. x.env_runnable_head) t.rest ∙ r.0 in
    (
      j,
      best j.envs 0 c (h ∷ xs),
      runs fuel k j (lower c j) h c (best j.envs 0 c (h ∷ xs)) ticks cur' head' picks refl,
      t,
      best-IsFirstMax j.envs 0 c (h ∷ xs),
    )

-- sched_yield_voluntarily_giveup chooses in the same way, but no time passes and no priority
-- changes.
pub sched_yield_voluntarily_giveup_lem :
    (fuel : ℕ) (k : Kernel) (h : ℕ) (xs : List ℕ) (c : ℕ)
    → IsRing k (h ∷ xs)
    → k.curenv ≡ some c
    → length xs < fuel
    → (e : ℕ) × (sched_yield_voluntarily_giveup fuel k ≡ env_run (some e) k)
      × IsFirstMax k.envs 0 c (h ∷ xs) e
unfolding sched_yield_voluntarily_giveup
sched_yield_voluntarily_giveup_lem fuel k h xs c r cur enough =
    let picks = pick-best fuel k.envs h h xs 0 c r.2 r.3.0 enough in
    (best k.envs 0 c (h ∷ xs), rw (cur, r.0, picks) refl, best-IsFirstMax k.envs 0 c (h ∷ xs))
