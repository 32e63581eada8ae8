-- ===== src/Sched/Pick.antt =====
-- The environment that the walk of sched_yield picks: the first of the highest priority.
use cse_os.Base.{
  ℕ, zero, suc, ◌≤◌, ◌<◌, ◌⊎◌, ◌≡◌, refl, sym, ap, true, false, List, [], ◌∷◌, ◌++◌, arith, ◌==◌,
  if◌then◌else◌, has, Bool-cases, inl, inr, length, All, ltb,
}
use cse_os.Env.{Env}
use cse_os.Env.Ring.{Linked}
use cse_os.Sched.{over, pick}

-- The choice among the environments of a list, after `e` with `highest`.
abbrev pub best : (ℕ → Env) → ℕ → ℕ → List ℕ → ℕ
best envs highest e [] = e
best envs highest e (x ∷ xs) =
    let better = ltb highest (envs x).env_pri in
    best envs (if better then (envs x).env_pri else highest) (if better then x else e) xs

-- Round a ring, from `x` with `ys` before the head again, the walk ends with that choice.
pub pick-best :
    (fuel : ℕ) (envs : ℕ → Env) (head x : ℕ) (ys : List ℕ) (highest e : ℕ)
    → Linked envs x ys head
    → has head ys ≡ false
    → length ys < fuel
    → pick fuel envs head x highest e ≡ over (best envs highest e (x ∷ ys))
unfolding pick
pick-best zero envs head x ys highest e l out h = absurd (omega arith)
pick-best (suc fuel) envs head x [] highest e l out h =
    let same : (head == head) ≡ true = ground arith in rw (pick, l, same) refl
pick-best (suc fuel) envs head x (y ∷ ys) highest e l out h =
    let better = ltb highest (envs x).env_pri in
    let miss : (y == head) ≡ false = ground arith in
    rw (pick, l.0, miss)
      (pick-best fuel envs head y ys (if better then (envs x).env_pri else highest)
        (if better then x else e) l.1 (ground arith) (omega arith))

-- Either nobody in the list is above `highest` and `e` stays, or the choice `b` is above `highest`,
-- above all before it and not below anybody after it.
abbrev pub IsFirstMax : (ℕ → Env) → ℕ → ℕ → List ℕ → ℕ → Type 0
IsFirstMax envs highest e xs b =
    ((b ≡ e) × All (λ a. (envs a).env_pri ≤ highest) xs)
    ⊎ ((ps : List ℕ) × (qs : List ℕ) × (xs ≡ ps ++ (b ∷ qs))
        × (highest < (envs b).env_pri)
        × All (λ a. (envs a).env_pri < (envs b).env_pri) ps
        × All (λ a. (envs a).env_pri ≤ (envs b).env_pri) qs)

pub best-IsFirstMax :
    (envs : ℕ → Env) (highest e : ℕ) (xs : List ℕ)
    → IsFirstMax envs highest e xs (best envs highest e xs)
best-IsFirstMax envs highest e [] = inl (refl, tt)
best-IsFirstMax envs highest e (x ∷ xs) = elim (Bool-cases (ltb highest (envs x).env_pri)) [
  | inl t ↦ rw t (above t (best-IsFirstMax envs (envs x).env_pri x xs))
  | inr f ↦ rw f (below f (best-IsFirstMax envs highest e xs))
]
  where
    above :
        {b : ℕ}
        → ltb highest (envs x).env_pri ≡ true
        → IsFirstMax envs (envs x).env_pri x xs b
        → IsFirstMax envs highest e (x ∷ xs) b
    above {b} t (inl (same, rest)) =
        inr ([], xs, ap (λ a. a ∷ xs) (sym same), rw same (ground arith), tt, rw same rest)
    above {b} t (inr (ps, qs, split, hi, before, after)) =
        inr (x ∷ ps, qs, ap (λ l. x ∷ l) split, ground arith, (hi, before), after)

    below :
        {b : ℕ}
        → ltb highest (envs x).env_pri ≡ false
        → IsFirstMax envs highest e xs b
        → IsFirstMax envs highest e (x ∷ xs) b
    below {b} f (inl (same, rest)) = inl (same, (ground arith, rest))
    below {b} f (inr (ps, qs, split, hi, before, after)) =
        inr (x ∷ ps, qs, ap (λ l. x ∷ l) split, hi, (ground arith, before), after)
