-- ===== src/Lifecycle/Free.antt =====
-- env_free keeps the environments in order, also for an environment outside the ring.
use cse_os.Base.{
  ℕ, zero, suc, ◌≤◌, ◌≡◌, refl, sym, ap, ◌∙◌, Option, none, some, true, false, List, [], ◌∷◌, ◌++◌,
  arith, ◌==◌, ==_iff, has, Bool-cases, inl, inr, length,
}
use mathlib.Core.Path.{subst}
use native.Mathlib.Decide.{dec_lt}
use cse_os.Mm.{Outcome}
use cse_os.Env.{Env, Kernel, set_env, env_run, current_id}
use cse_os.Env.Ring.{IsRing, Linked, last, has-last}
use cse_os.Env.Alloc.{FreeChain-update, IsFreeEnvs}
use cse_os.Env.Free.{
  Search, before, absent, broken, endless, search_ring, after_search, remove_from, has_runnable,
  unlink, release, leave, leave_ring, is_ptr, free_space, after_space, env_free,
}
use cse_os.Env.Leave.{
  prev, nonempty, successor, found_search, unlink-IsRing, release-IsRing, Distinct-middle,
  Distinct-ring, has_middle, link-successor, successor_ne, eq_refl, has_left,
}
use cse_os.Lifecycle.Order.{
  IsOrderly, InOrder, Ensures, set_env-SameLists, SameLists-InOrder, mm-InOrder,
}
use cse_os.Syscall.Ipc.Receive.{IsRing-cong}
use cse_os.Lifecycle.Yield.{env_run-InOrder}

-- A member of a list splits it.
pub split_at_member :
    (e : ℕ) (xs : List ℕ)
    → has e xs ≡ true
    → (ps : List ℕ) × (qs : List ℕ) × (xs ≡ (ps ++ (e ∷ qs)))
split_at_member e [] h = cc
split_at_member e (x ∷ xs) h = elim (Bool-cases (e == x)) [
  | inl t ↦ ([], xs, ap (λ y. y ∷ xs) (sym ((==_iff e x).0 t)))
  | inr f ↦
      let (ps, qs, s) = split_at_member e xs (ground (arith, h, f)) in
      (x ∷ ps, qs, ap (λ l. x ∷ l) s)
]

pub has-prev : (e : ℕ) (ps qs : List ℕ) → has (prev e ps qs) (ps ++ (e ∷ qs)) ≡ true
has-prev e [] qs = has-last e qs
has-prev e (h ∷ ps) qs = has_last_append h ps (e ∷ qs)
  where
    has_last_append : (x : ℕ) (ys zs : List ℕ) → has (last x ys) (x ∷ (ys ++ zs)) ≡ true
    has_last_append x [] zs = ground arith
    has_last_append x (y ∷ ys) zs = ground (arith, has_last_append y ys zs)

has-successor :
    (e : ℕ) (ps qs : List ℕ)
    → nonempty (ps ++ qs) ≡ true
    → has (successor e ps qs) (ps ++ qs) ≡ true
has-successor e [] [] h = cc
has-successor e [] (y ∷ ys) h = ground arith
has-successor e (p ∷ ps) [] h = ground arith
has-successor e (p ∷ ps) (y ∷ ys) h = has_inside y (p ∷ ps) ys
  where
    has_inside : (y : ℕ) (ps ys : List ℕ) → has y (ps ++ (y ∷ ys)) ≡ true
    has_inside y [] ys = ground arith
    has_inside y (p ∷ ps) ys = ground (arith, has_inside y ps ys)

-- The others of the ring and the list of free ones with `e` in front stay apart.
freed_apart :
    (e : ℕ) (ps qs free : List ℕ)
    → has e (ps ++ qs) ≡ false
    → ((a : ℕ) → has a (ps ++ (e ∷ qs)) ≡ true → has a free ≡ false)
    → (a : ℕ) → has a (ps ++ qs) ≡ true
    → has a (e ∷ free) ≡ false
freed_apart e ps qs free out apart a m =
    let ne : (a == e) ≡ false = elim (Bool-cases (a == e)) [
      | inl t ↦ cc (ap (λ b. has b (ps ++ qs)) ((==_iff a e).0 t))
      | inr f ↦ f
    ] in
    let m' : has a (ps ++ (e ∷ qs)) ≡ true = has_middle a e ps qs ∙ rw (ne, m) refl in
    rw (ne, apart a m') refl

module _ (k : Kernel) (e : ℕ) (ps qs free : List ℕ) (o : IsOrderly k (ps ++ (e ∷ qs)) free) where
  -- The state after the removal.
  freed : Kernel
  unfolding unlink
  freed = release e (unlink e (prev e ps qs) k)

  freed-IsFreeEnvs : IsFreeEnvs freed (e ∷ free)
  unfolding freed unlink
  freed-IsFreeEnvs =
      let p = prev e ps qs in
      let out : has p free ≡ false = o.apart p (has-prev e ps qs) in
      let out' : has e free ≡ false = o.apart e (has_middle e e ps qs ∙ rw (eq_refl e) refl) in
      let j = unlink e p k in
      let c = FreeChain-update k.envs p _ k.env_free_list free out o.unused.chain in
      record {
        chain = (
          refl,
          rw (eq_refl e) refl,
          rw (eq_refl e) (FreeChain-update j.envs e _ k.env_free_list free out' c),
        );
        distinct = (out', o.unused.distinct);
      }

  freed-IsRing : IsRing freed (ps ++ qs)
  unfolding freed
  freed-IsRing =
      let m = Distinct-middle e ps qs (Distinct-ring k (ps ++ (e ∷ qs)) o.runnable) in
      release-IsRing (unlink e (prev e ps qs) k) e (ps ++ qs) (unlink-IsRing k e ps qs o.runnable)
        m.0

  freed_out : has e (ps ++ qs) ≡ false
  freed_out = (Distinct-middle e ps qs (Distinct-ring k (ps ++ (e ∷ qs)) o.runnable)).0

  freed-IsOrderly :
      (c : Option ℕ)
      → ((a : ℕ) → c ≡ some a → has a (e ∷ free) ≡ false)
      → IsOrderly (record freed { curenv = c }) (ps ++ qs) (e ∷ free)
  freed-IsOrderly c cur = record {
    runnable =
        IsRing-cong freed (record freed { curenv = c }) (ps ++ qs) refl refl (λ a. refl)
          freed-IsRing;
    unused = record { chain = freed-IsFreeEnvs.chain; distinct = freed-IsFreeEnvs.distinct };
    apart = freed_apart e ps qs free freed_out o.apart;
    current = cur;
  }

  no_current : (a : ℕ) → none ≡ some a → has a (e ∷ free) ≡ false
  no_current a h = cc

  other_current : is_ptr k.curenv e ≡ false → (a : ℕ) → k.curenv ≡ some a → has a (e ∷ free) ≡ false
  other_current ne a h =
      let ne' : (a == e) ≡ false = ap (λ c. is_ptr c e) (sym h) ∙ ne in rw (ne', o.current a h) refl

  leave-InOrder : Ensures InOrder (leave e (some (successor e ps qs)) (nonempty (ps ++ qs)) freed)
  unfolding freed unlink env_run
  leave-InOrder = elim (Bool-cases (is_ptr k.curenv e)) [
    | inr f ↦ rw f (ps ++ qs, e ∷ free, freed-IsOrderly k.curenv (other_current f))
    | inl t ↦ elim (Bool-cases (nonempty (ps ++ qs))) [
      | inl more ↦
          let s = successor e ps qs in
          let out = freed_apart e ps qs free freed_out o.apart s (has-successor e ps qs more) in
          rw (t, more) (env_run-InOrder s (freed-IsOrderly none no_current) out)
      | inr alone ↦ rw (t, alone) (ps ++ qs, e ∷ free, freed-IsOrderly none no_current)
    ]
  ]

  after_search-found : Ensures InOrder (after_search e k (before (some (prev e ps qs))))
  unfolding after_search freed
  after_search-found =
      let l = link-successor k e ps qs o.runnable in
      let more : has_runnable e k ≡ nonempty (ps ++ qs) = rw l (successor_ne e ps qs freed_out) in
      subst (Ensures InOrder)
        (ap (λ n. leave e n (nonempty (ps ++ qs)) freed) (sym l)
          ∙ ap (λ b. leave e (k.envs e).env_link b freed) (sym more))
        leave-InOrder

-- A search that does not find `e`.
abbrev Misses : Search → Type 0
Misses absent = Unit
Misses broken = Unit
Misses endless = Unit
Misses (before o) = ⊥

after_search-InOrder :
    (e : ℕ) (k : Kernel) (s : Search) → Misses s → InOrder k → Ensures InOrder (after_search e k s)
unfolding after_search
after_search-InOrder e k absent m o = o
after_search-InOrder e k broken m o = tt
after_search-InOrder e k endless m o = tt
after_search-InOrder e k (before p) m o = absurd m

-- Round a stretch without `e` the search comes to an end, or to the end of the fuel.
search_ring-Misses :
    (fuel : ℕ) (envs : ℕ → Env) (head e x : ℕ) (ys : List ℕ) (pre : Option ℕ)
    → Linked envs x ys head
    → has e (x ∷ ys) ≡ false
    → Misses (search_ring fuel envs head e x pre)
unfolding search_ring
search_ring-Misses zero envs head e x ys pre l out = tt
search_ring-Misses (suc fuel) envs head e x [] pre l out =
    let ne : (x == e) ≡ false = ground arith in rw (search_ring, ne, l, eq_refl head) tt
search_ring-Misses (suc fuel) envs head e x (y ∷ ys) pre l out =
    let ne : (x == e) ≡ false = ground arith in
    elim (Bool-cases (y == head)) [
      | inl t ↦ rw (search_ring, ne, l.0, t) tt
      | inr f ↦
          rw (search_ring, ne, l.0, f)
            (search_ring-Misses fuel envs head e y ys (some x) l.1 (ground arith))
    ]

-- With too little fuel the search does not come to `e`.
search_ring-short :
    (fuel : ℕ) (envs : ℕ → Env) (head e x : ℕ) (ps qs : List ℕ) (stop : ℕ) (pre : Option ℕ)
    → Linked envs x (ps ++ (e ∷ qs)) stop
    → has e (x ∷ ps) ≡ false
    → fuel ≤ length (x ∷ ps)
    → Misses (search_ring fuel envs head e x pre)
unfolding search_ring
search_ring-short zero envs head e x ps qs stop pre l out f = tt
search_ring-short (suc fuel) envs head e x [] qs stop pre l out f =
    let ne : (x == e) ≡ false = ground arith in
    let no_fuel : fuel ≡ 0 = omega arith in
    elim (Bool-cases (e == head)) [
      | inl t ↦ rw (search_ring, ne, l.0, t) tt
      | inr g ↦ rw (search_ring, ne, l.0, g, no_fuel) tt
    ]
search_ring-short (suc fuel) envs head e x (p ∷ ps) qs stop pre l out f =
    let ne : (x == e) ≡ false = ground arith in
    elim (Bool-cases (p == head)) [
      | inl t ↦ rw (search_ring, ne, l.0, t) tt
      | inr g ↦
          rw (search_ring, ne, l.0, g)
            (search_ring-short fuel envs head e p ps qs stop (some x) l.1 (ground arith)
              (omega arith))
    ]

leave_ring-found :
    (fuel e : ℕ) (k : Kernel) (ps qs free : List ℕ)
    → IsOrderly k (ps ++ (e ∷ qs)) free
    → Ensures InOrder (leave_ring fuel e k)
unfolding leave_ring remove_from search_ring
leave_ring-found zero e k [] qs free o = rw (o.runnable.0) tt
leave_ring-found (suc fuel) e k [] qs free o =
    subst (Ensures InOrder) (sym (found_search (suc fuel) k e [] qs o.runnable (omega arith)))
      (after_search-found k e [] qs free o)
leave_ring-found fuel e k (h ∷ ps) qs free o = elim (dec_lt (length (h ∷ ps)) fuel) [
  | yes enough ↦
      subst (Ensures InOrder) (sym (found_search fuel k e (h ∷ ps) qs o.runnable enough))
        (after_search-found k e (h ∷ ps) qs free o)
  | no short ↦
      let m = Distinct-middle e (h ∷ ps) qs o.runnable.3 in
      let out : has e (h ∷ ps) ≡ false = has_left e (h ∷ ps) qs m.0 in
      subst (λ q. Ensures InOrder (remove_from fuel e k q k.env_runnable_tail)) (sym o.runnable.0)
        (after_search-InOrder e k (search_ring fuel k.envs h e h k.env_runnable_tail)
          (search_ring-short fuel k.envs h e h ps qs h k.env_runnable_tail o.runnable.2 out
            (omega arith))
          ((h ∷ ps) ++ (e ∷ qs), free, o))
]

leave_ring-outside :
    (fuel e : ℕ) (k : Kernel) (ring free : List ℕ)
    → IsOrderly k ring free
    → has e ring ≡ false
    → Ensures InOrder (leave_ring fuel e k)
unfolding leave_ring remove_from
leave_ring-outside fuel e k [] free o out = rw (o.runnable.0) tt
leave_ring-outside fuel e k (h ∷ xs) free o out =
    subst (λ q. Ensures InOrder (remove_from fuel e k q k.env_runnable_tail)) (sym o.runnable.0)
      (after_search-InOrder e k (search_ring fuel k.envs h e h k.env_runnable_tail)
        (search_ring-Misses fuel k.envs h e h xs k.env_runnable_tail o.runnable.2 out)
        (h ∷ xs, free, o))

leave_ring-InOrder : (fuel e : ℕ) (k : Kernel) → InOrder k → Ensures InOrder (leave_ring fuel e k)
leave_ring-InOrder fuel e k (ring, free, o) = elim (Bool-cases (has e ring)) [
  | inl t ↦
      let (ps, qs, s) = split_at_member e ring t in
      leave_ring-found fuel e k ps qs free (subst (λ r. IsOrderly k r free) s o)
  | inr f ↦ leave_ring-outside fuel e k ring free o f
]

without_space : ℕ → Kernel → Kernel
without_space e k = set_env e (record (k.envs e) { env_pgdir = 0; env_cr3 = 0 }) k

without_space-InOrder : (e : ℕ) (k : Kernel) → InOrder k → InOrder (without_space e k)
unfolding without_space
without_space-InOrder e k o =
    SameLists-InOrder
      (set_env-SameLists k e (record (k.envs e) { env_pgdir = 0; env_cr3 = 0 }) refl refl) refl o

after_space-InOrder :
    (fuel e : ℕ) (k : Kernel) (r : Outcome (Unit {0}))
    → InOrder k
    → Ensures InOrder (after_space fuel e k r)
unfolding after_space without_space
after_space-InOrder fuel e k (Outcome.ok u m) o =
    leave_ring-InOrder fuel e (record (without_space e k) { mm = m })
      (mm-InOrder (without_space e k) m (without_space-InOrder e k o))
after_space-InOrder fuel e k Outcome.panic o = tt
after_space-InOrder fuel e k Outcome.fault o = tt

pub env_free-InOrder : (fuel e : ℕ) (k : Kernel) → InOrder k → Ensures InOrder (env_free fuel e k)
unfolding env_free
env_free-InOrder fuel e k o =
    after_space-InOrder fuel e k
      (free_space (current_id k k.curenv) (k.envs e).env_pgdir (k.envs e).env_cr3 k.mm) o
