-- ===== src/Lifecycle/Prepare.antt =====
-- A new environment between env_alloc and its place in the ring.
use mathlib.Core.Path.{subst}
use cse_os.Base.{
  ℕ, ◌≡◌, refl, sym, ap, ◌∙◌, Option, none, some, true, false, List, [], ◌∷◌, ◌++◌, arith, ◌==◌,
  ==_iff, has, Bool-cases, inl, inr,
}
use cse_os.Mm.{Outcome}
use cse_os.Env.{
  Kernel, Run, returned, running, idle, panicked, faulted, out_of_fuel, Allocated, allocated,
  no_free_env, alloc_panicked, alloc_faulted, env_alloc_arg, env_alloc_first, env_alloc_with,
  env_setup_vm, mkenvid, fresh_env, link_runnable, link_runnable_at, link_runnable_after, link_to,
  set_env,
}
use cse_os.Env.Ring.{IsRing, Linked-cong, link_runnable_lem, last, has-last, has_append_one}
use cse_os.Env.Alloc.{FreeChain-update, IsFreeEnvs}
use cse_os.Env.Leave.{eq_refl}
use cse_os.Env.Threads.{then_link}
use cse_os.Syscall.Ipc.Receive.{set_env-IsFreeEnvs}
use cse_os.Lifecycle.Order.{IsOrderly, InOrder, Ensures, SameLists, IsOrderly-cong}

-- The environments are in order, and `e` is neither runnable nor free.
abbrev pub Prepared : ℕ → Kernel → Type 0
Prepared e k =
    (ring : List ℕ) × (free : List ℕ) × IsOrderly k ring free
    × (has e ring ≡ false)
    × (has e free ≡ false)

pub SameLists-Prepared :
    {k l : Kernel} (e : ℕ) → SameLists k l → l.curenv ≡ k.curenv → Prepared e k → Prepared e l
SameLists-Prepared e s cur (ring, free, o, not_ring, not_free) =
    (ring, free, IsOrderly-cong s (λ c h. o.current c (sym cur ∙ h)) o, not_ring, not_free)

-- What env_alloc_arg gives, if it gives an environment.
abbrev pub Allots : Allocated → Type 0
Allots (allocated e k) = Prepared e k
Allots no_free_env = Unit
Allots alloc_panicked = Unit
Allots alloc_faulted = Unit

-- The ring does not change with a block that is not in it.
outside-IsRing :
    (k l : Kernel) (e : ℕ) (ring : List ℕ)
    → l.env_runnable_head ≡ k.env_runnable_head
    → l.env_runnable_tail ≡ k.env_runnable_tail
    → ((a : ℕ) → (a == e) ≡ false → (l.envs a).env_link ≡ (k.envs a).env_link)
    → has e ring ≡ false
    → IsRing k ring
    → IsRing l ring
outside-IsRing k l e [] h t same out r = (h ∙ r.0, t ∙ r.1)
outside-IsRing k l e (x ∷ xs) h t same out r =
    (h ∙ r.0, t ∙ r.1, Linked-cong k.envs l.envs x xs x (λ a m. same a (ne a m)) r.2, r.3)
  where
    ne : (a : ℕ) → has a (x ∷ xs) ≡ true → (a == e) ≡ false
    ne a m = elim (Bool-cases (a == e)) [
      | inl t ↦ cc (ap (λ b. has b (x ∷ xs)) ((==_iff a e).0 t))
      | inr f ↦ f
    ]

env_alloc_with-Allots :
    (e parent_id : ℕ) (arg : Option ℕ) (k : Kernel) (ring free : List ℕ) (r : Outcome (ℕ × ℕ))
    → k.env_free_list ≡ some e
    → IsOrderly k ring (e ∷ free)
    → Allots (env_alloc_with e parent_id arg k r)
unfolding env_alloc_with mkenvid
env_alloc_with-Allots e parent_id arg k ring free (Outcome.ok (pgdir, cr3) m) first o =
    let out : has e ring ≡ false = elim (Bool-cases (has e ring)) [
      | inl t ↦ cc (o.apart e t, eq_refl e)
      | inr f ↦ f
    ] in
    let made = mkenvid e (record k { mm = m }) in
    let j : Kernel =
      record (set_env e (fresh_env (k.envs e) pgdir cr3 made.0 parent_id arg) made.1) {
        env_free_list = (k.envs e).env_link;
      } in
    (
      ring,
      free,
      record {
        runnable = outside-IsRing k j e ring refl refl (λ a n. rw n refl) out o.runnable;
        unused = record {
          chain =
              FreeChain-update k.envs e _ (k.envs e).env_link free o.unused.distinct.0
                o.unused.chain.2;
          distinct = o.unused.distinct.1;
        };
        apart = λ a m. ground (arith, o.apart a m);
        current = λ c h. ground (arith, o.current c h);
      },
      out,
      o.unused.distinct.0,
    )
env_alloc_with-Allots e parent_id arg k ring free Outcome.panic first o = tt
env_alloc_with-Allots e parent_id arg k ring free Outcome.fault first o = tt

pub env_alloc_arg-Allots :
    (parent_id : ℕ) (arg : Option ℕ) (k : Kernel)
    → InOrder k
    → Allots (env_alloc_arg parent_id arg k)
unfolding env_alloc_arg env_alloc_first
env_alloc_arg-Allots parent_id arg k (ring, [], o) = rw (o.unused.chain) tt
env_alloc_arg-Allots parent_id arg k (ring, e ∷ free, o) =
    subst (λ f. Allots (env_alloc_first f parent_id arg k)) (sym o.unused.chain.0)
      (env_alloc_with-Allots e parent_id arg k ring free (env_setup_vm k.boot_pgdir k.mm)
        o.unused.chain.0 o)

-- What link_runnable gives: the tail of the ring and the new environment change, the free list does
-- not.
link_runnable-at :
    (e : ℕ) (k : Kernel) (ring : List ℕ) (free : List ℕ)
    → IsRing k ring
    → IsFreeEnvs k free
    → ((a : ℕ) → has a ring ≡ true → has a free ≡ false)
    → has e free ≡ false
    → (j : Kernel) × (link_runnable e k ≡ some j) × IsFreeEnvs j free × (j.curenv ≡ k.curenv)
unfolding link_runnable link_runnable_at link_runnable_after
link_runnable-at e k [] free r f apart out =
    let g = set_env-IsFreeEnvs k e (record (k.envs e) { env_link = some e }) free f out in
    (
      record (link_to e (some e) k) { env_runnable_head = some e; env_runnable_tail = some e },
      rw (r.0) refl,
      record { chain = g.chain; distinct = g.distinct },
      refl,
    )
link_runnable-at e k (h ∷ xs) free r f apart out =
    let j = link_to e (some h) k in
    let t = last h xs in
    let l = link_to t (some e) j in
    let g = set_env-IsFreeEnvs k e (record (k.envs e) { env_link = some h }) free f out in
    let g' =
      set_env-IsFreeEnvs j t (record (j.envs t) { env_link = some e }) free g
        (apart t (has-last h xs)) in
    (
      record l { env_runnable_tail = some e },
      rw (r.0, r.1) refl,
      record { chain = g'.chain; distinct = g'.distinct },
      refl,
    )

some_injective : (k l : Kernel) → some k ≡ some l → k ≡ l
some_injective k l e = ap (λ o. elim o [ none ↦ k | some a ↦ a ]) e

link-InOrder : (e v : ℕ) (k : Kernel) → Prepared e k → Ensures InOrder (then_link e (returned v k))
link-InOrder e v k (ring, free, o, not_ring, not_free) =
    let (j, links, f, cur) = link_runnable-at e k ring free o.runnable o.unused o.apart not_free in
    let (j', links', r) = link_runnable_lem k e ring o.runnable not_ring in
    let same : j' ≡ j = some_injective j' j (sym links' ∙ links) in
    rw (links, then_link)
      (
        ring ++ (e ∷ []),
        free,
        record {
          runnable = subst (λ l. IsRing l (ring ++ (e ∷ []))) same r;
          unused = f;
          apart = λ a m. appended ring free a o.apart not_free m;
          current = λ c h. o.current c (sym cur ∙ h);
        },
      )
  where
    appended :
        (ring free : List ℕ) (a : ℕ)
        → ((a : ℕ) → has a ring ≡ true → has a free ≡ false)
        → has e free ≡ false
        → has a (ring ++ (e ∷ [])) ≡ true
        → has a free ≡ false
    appended ring free a apart out m = elim (Bool-cases (has a ring)) [
      | inl t ↦ apart a t
      | inr f ↦ elim (Bool-cases (a == e)) [
        | inl t ↦ rw ((==_iff a e).0 t) out
        | inr g ↦ cc (m, has_append_one a e ring g f)
      ]
    ]

pub then_link-InOrder : (e : ℕ) (r : Run) → Ensures (Prepared e) r → Ensures InOrder (then_link e r)
then_link-InOrder e (returned v k) p = link-InOrder e v k p
then_link-InOrder e (running k) p = (p.0, p.1, p.2)
then_link-InOrder e (idle k) p = (p.0, p.1, p.2)
then_link-InOrder e panicked p = tt
then_link-InOrder e faulted p = tt
then_link-InOrder e out_of_fuel p = tt
