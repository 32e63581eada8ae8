-- ===== src/Lifecycle/Search.antt =====
-- The searches of the ring and of the free list in lib/syscall_all.c, with any fuel.
use mathlib.Core.Path.{subst}
use native.Mathlib.Decide.{dec_lt}
use cse_os.Base.{
  ℕ, zero, suc, ◌≤◌, ◌≡◌, refl, sym, ap, ◌∙◌, Option, none, some, true, false, List, [], ◌∷◌, ◌++◌,
  arith, ◌==◌, has, Bool-cases, inl, inr, Bool, length,
}
use cse_os.Mm.{Mm}
use cse_os.Env.{Env, Kernel, Run, set_env}
use cse_os.Env.Alloc.{FreeChain}
use cse_os.Env.Ring.{IsRing, Linked}
use cse_os.Env.Leave.{Distinct-middle, has_left}
use cse_os.Sched.{Walk, over, broken, endless}
use cse_os.Syscall.Ipc.{seek, seek_from, seek_free, take_found, leave_free, then_walk}
use cse_os.Syscall.Ipc.Receive.{seek-found}
use cse_os.Syscall.Ipc.Send.{seek-absent}
use cse_os.Lifecycle.Order.{IsOrderly, Ensures, IsOrderly-cong, mm-SameLists}
use cse_os.Lifecycle.Yield.{Ends}
use cse_os.Lifecycle.Free.{split_at_member}
use cse_os.Lifecycle.Lookup.{set_env-IsOrderly}

-- With too little fuel the search does not come to `e`.
seek-short :
    (fuel : ℕ) (envs : ℕ → Env) (head e x : ℕ) (ps qs : List ℕ) (stop : ℕ) (pre : Option ℕ)
    (efound : Bool)
    → Linked envs x (ps ++ (e ∷ qs)) stop
    → has e (x ∷ ps) ≡ false
    → fuel ≤ length (x ∷ ps)
    → seek fuel envs head e x pre efound ≡ endless
unfolding seek
seek-short zero envs head e x ps qs stop pre efound l out f = refl
seek-short (suc fuel) envs head e x [] qs stop pre efound l out f =
    let ne : (x == e) ≡ false = ground arith in
    let no_fuel : fuel ≡ 0 = omega arith in rw (seek, ne, l.0, no_fuel) refl
seek-short (suc fuel) envs head e x (p ∷ ps) qs stop pre efound l out f =
    let ne : (x == e) ≡ false = ground arith in
    rw (seek, ne, l.0)
      (seek-short fuel envs head e p ps qs stop (some x) _ l.1 (ground arith) (omega arith))

-- A walk from the head that ends has found `e` before it came to the head again.
abbrev pub Found : Walk (Option ℕ × Bool) → Type 0
Found w = Ends (λ (r : Option ℕ × Bool). r.1 ≡ true) w

pub seek_from-short :
    (fuel : ℕ) (k : Kernel) (e : ℕ) (ps qs : List ℕ)
    → IsRing k (ps ++ (e ∷ qs))
    → fuel ≤ length ps
    → seek_from fuel k e k.env_runnable_head ≡ endless
unfolding seek_from seek
seek_from-short zero k e [] qs r f = rw (r.0) refl
seek_from-short (suc fuel) k e [] qs r f = absurd (omega arith)
seek_from-short fuel k e (h ∷ ps) qs r f =
    let m = Distinct-middle e (h ∷ ps) qs r.3 in
    ap (seek_from fuel k e) r.0
    ∙ seek-short fuel k.envs h e h ps qs h k.env_runnable_tail true r.2 (has_left e (h ∷ ps) qs m.0)
        f

seek_from-outside :
    (fuel : ℕ) (k : Kernel) (e : ℕ) (ring : List ℕ)
    → IsRing k ring
    → has e ring ≡ false
    → Found (seek_from fuel k e k.env_runnable_head)
unfolding seek_from
seek_from-outside fuel k e [] r out = rw (r.0) tt
seek_from-outside fuel k e (h ∷ xs) r out =
    subst Found
      (sym (
        ap (seek_from fuel k e) r.0
        ∙ seek-absent fuel k.envs h e xs h xs k.env_runnable_tail true r.2 out r.2 out))
      tt

seek_from-inside :
    (fuel : ℕ) (k : Kernel) (e : ℕ) (ps qs : List ℕ)
    → IsRing k (ps ++ (e ∷ qs))
    → Found (seek_from fuel k e k.env_runnable_head)
seek_from-inside fuel k e ps qs r = elim (dec_lt (length ps) fuel) [
  | yes enough ↦ subst Found (sym (seek-found fuel k e ps qs r enough)) refl
  | no short ↦ subst Found (sym (seek_from-short fuel k e ps qs r (omega arith))) tt
]

pub seek_from-Found :
    (fuel : ℕ) (k : Kernel) (e : ℕ) (ring : List ℕ)
    → IsRing k ring
    → Found (seek_from fuel k e k.env_runnable_head)
seek_from-Found fuel k e ring r = elim (Bool-cases (has e ring)) [
  | inl t ↦
      let (ps, qs, s) = split_at_member e ring t in
      seek_from-inside fuel k e ps qs (subst (IsRing k) s r)
  | inr f ↦ seek_from-outside fuel k e ring r f
]

pub then_walk-Ensures :
    {A : Type 0} (P : A → Type 0) (Q : Kernel → Type 0) (w : Walk A) (f : A → Run)
    → Ends P w
    → ((a : A) → P a → Ensures Q (f a))
    → Ensures Q (then_walk w f)
then_walk-Ensures P Q (over a) f p h = h a p
then_walk-Ensures P Q broken f p h = tt
then_walk-Ensures P Q endless f p h = tt

-- Nothing leaves the list of free environments, where `e` is not.
take_found-Ends :
    (P : Kernel → Type 0) (fuel : ℕ) (k : Kernel) (e : ℕ) (o pre : Option ℕ) (xs : List ℕ)
    → FreeChain k.envs o xs
    → has e xs ≡ false
    → P k
    → Ends P (take_found e k (seek_free fuel k.envs e o pre))
unfolding seek_free
take_found-Ends P fuel k e o pre [] c out p = rw c p
take_found-Ends P zero k e o pre (x ∷ xs) c out p = rw (c.0) tt
take_found-Ends P (suc fuel) k e o pre (x ∷ xs) c out p =
    let miss : (x == e) ≡ false = ground arith in
    rw (c.0, seek_free, miss)
      (take_found-Ends P fuel k e (k.envs x).env_link (some x) xs c.2 (ground arith) p)

-- The environments are in order, and `e` is not free.
abbrev pub Taken : ℕ → Kernel → Type 0
Taken e k = (ring : List ℕ) × (free : List ℕ) × IsOrderly k ring free × (has e free ≡ false)

pub leave_free-Taken : (fuel e : ℕ) (k : Kernel) → Taken e k → Ends (Taken e) (leave_free fuel e k)
unfolding leave_free
leave_free-Taken fuel e k (ring, free, o, out) =
    take_found-Ends (Taken e) fuel k e k.env_free_list none free o.unused.chain out
      (ring, free, o, out)

pub mm-Taken : (e : ℕ) (k : Kernel) (m : Mm) → Taken e k → Taken e (record k { mm = m })
mm-Taken e k m (ring, free, o, out) =
    (ring, free, IsOrderly-cong (mm-SameLists k m) o.current o, out)

pub set_env-Taken :
    (e : ℕ) (b : Env) (k : Kernel)
    → b.env_link ≡ (k.envs e).env_link
    → Taken e k
    → Taken e (set_env e b k)
set_env-Taken e b k same (ring, free, o, out) = (ring, free, set_env-IsOrderly e b same out o, out)
