-- ===== src/Syscall/Ipc/Receive.antt =====
-- sys_ipc_recv of lib/syscall_all.c: how the caller leaves the ring.
use cse_os.Base.{
  ℕ, zero, suc, ◌+◌, ◌≤◌, ◌<◌, ◌≡◌, refl, ap, ◌∙◌, Option, none, some, Bool, true, false, List, [],
  ◌∷◌, ◌++◌, arith, ◌==◌, ==_iff, has, Distinct, Bool-cases, inl, inr, update, length, leb,
}
use cse_os.Mmu.{utop}
use cse_os.Env.{deref, Env, Kernel, link_to, set_env}
use cse_os.Env.Alloc.{FreeChain, FreeChain-update, IsFreeEnvs}
use cse_os.Env.Ring.{IsRing, Linked, Linked-cong, last, has-last, ne_has}
use cse_os.Env.Free.{has_runnable, unlink}
use cse_os.Env.Leave.{
  prev, nonempty, link-successor, unlink-IsRing, Distinct-middle, Distinct-ring, successor_ne,
  has_left, eq_refl, eq_miss,
}
use cse_os.Sched.{over, sched_yield}
use cse_os.Syscall.Ipc.{
  seek, seek_from, seek_free, take_found, leave_free, then_walk, advance_head, retreat_tail,
  unlink_found, leave_runnable, receiving, set_status, recv_as, sys_ipc_recv, env_not_runnable,
}

-- One step of the search, to an environment that is not the head.
pub seek-step :
    (fuel : ℕ) (envs : ℕ → Env) (head e x y : ℕ) (pre : Option ℕ) (efound : Bool)
    → (x == e) ≡ false
    → (envs x).env_link ≡ some y
    → (y == head) ≡ false
    → seek (suc fuel) envs head e x pre efound ≡ seek fuel envs head e y (some x) efound
unfolding seek
seek-step fuel envs head e x y pre efound ne l miss = rw (seek, ne, l, miss) refl

-- The search finds `e`, which stands after `ps`, before it comes to the head again.
seek-before :
    (fuel : ℕ) (envs : ℕ → Env) (head e x : ℕ) (ps qs : List ℕ) (stop : ℕ) (pre : Option ℕ)
    → Linked envs x (ps ++ (e ∷ qs)) stop
    → (x == e) ≡ false
    → has e ps ≡ false
    → has head (ps ++ (e ∷ qs)) ≡ false
    → length ps + 1 < fuel
    → seek fuel envs head e x pre true ≡ over (some (last x ps), true)
unfolding seek
seek-before zero envs head e x ps qs stop pre l ne out hd f = absurd (omega arith)
seek-before (suc zero) envs head e x ps qs stop pre l ne out hd f = absurd (omega arith)
seek-before (suc (suc fuel)) envs head e x [] qs stop pre l ne out hd f =
    let miss : (e == head) ≡ false = ground arith in rw (seek, ne, l.0, miss, eq_refl e) refl
seek-before (suc (suc fuel)) envs head e x (p ∷ ps) qs stop pre l ne out hd f =
    let miss : (p == head) ≡ false = ground arith in
    let ne' : (p == e) ≡ false = ground arith in
    seek-step (suc fuel) envs head e x p pre true ne l.0 miss
    ∙ seek-before (suc fuel) envs head e p ps qs stop (some x) l.1 ne' (ground arith) (ground arith)
        (omega arith)

seek_first :
    (fuel : ℕ) (envs : ℕ → Env) (e : ℕ) (pre : Option ℕ)
    → seek (suc fuel) envs e e e pre true ≡ over (pre, true)
unfolding seek
seek_first fuel envs e pre = rw (seek, eq_refl e) refl

pub seek-found :
    (fuel : ℕ) (k : Kernel) (e : ℕ) (ps qs : List ℕ)
    → IsRing k (ps ++ (e ∷ qs))
    → length ps < fuel
    → seek_from fuel k e k.env_runnable_head ≡ over (some (prev e ps qs), true)
unfolding seek_from
seek-found zero k e [] qs r f = absurd (omega arith)
seek-found (suc fuel) k e [] qs r f =
    ap (seek_from (suc fuel) k e) r.0
    ∙ seek_first fuel k.envs e k.env_runnable_tail
    ∙ ap (λ o. over (o, true)) r.1
seek-found fuel k e (h ∷ ps) qs r f =
    let m = Distinct-middle e (h ∷ ps) qs r.3 in
    let ne : (h == e) ≡ false = ground (arith, m.0) in
    let out : has e ps ≡ false = has_left e ps qs (ground (arith, m.0)) in
    ap (seek_from fuel k e) r.0
    ∙ seek-before fuel k.envs h e h ps qs h k.env_runnable_tail r.2 ne out r.3.0 (omega arith)

-- In company, leave_runnable takes the same step as env_free.
leave_runnable-unlink :
    (fuel : ℕ) (k : Kernel) (e : ℕ) (ps qs : List ℕ)
    → IsRing k (ps ++ (e ∷ qs))
    → nonempty (ps ++ qs) ≡ true
    → length ps < fuel
    → leave_runnable fuel e k ≡ over (unlink e (prev e ps qs) k)
unfolding leave_runnable unlink
leave_runnable-unlink fuel k e ps qs r company f =
    let m = Distinct-middle e ps qs (Distinct-ring k (ps ++ (e ∷ qs)) r) in
    let l = link-successor k e ps qs r in
    let more : has_runnable e k ≡ true = rw l (successor_ne e ps qs m.0 ∙ company) in
    ap (unlink_found e k) (seek-found fuel k e ps qs r f) ∙ rw more refl

-- A walk along a free list that does not hold `e` changes nothing.
seek_free-absent :
    (fuel : ℕ) (k : Kernel) (e : ℕ) (o pre : Option ℕ) (xs : List ℕ)
    → FreeChain k.envs o xs
    → has e xs ≡ false
    → length xs ≤ fuel
    → take_found e k (seek_free fuel k.envs e o pre) ≡ over k
unfolding seek_free
seek_free-absent fuel k e o pre [] c out f = rw c refl
seek_free-absent zero k e o pre (x ∷ xs) c out f = absurd (omega arith)
seek_free-absent (suc fuel) k e o pre (x ∷ xs) c out f =
    let miss : (x == e) ≡ false = ground arith in
    rw (c.0, seek_free, miss)
      (seek_free-absent fuel k e (k.envs x).env_link (some x) xs c.2 (ground arith) (omega arith))

-- The ring that the receiver leaves behind: the others, or the receiver where it is alone.
abbrev pub left_over : ℕ → List ℕ → List ℕ
left_over c [] = c ∷ []
left_over c (x ∷ xs) = x ∷ xs

-- What leave_runnable leaves: a ring, the free list as it was, and the receiver's own block.
pub record Out (k : Kernel) (c : ℕ) (ring xs : List ℕ) (j : Kernel) : Type 0 where
  pub ring_left : IsRing j ring
  pub free : IsFreeEnvs j xs
  pub own : j.envs c ≡ k.envs c
  pub current : j.curenv ≡ k.curenv

unlink-Out :
    (k : Kernel) (c : ℕ) (ps qs xs : List ℕ)
    → IsRing k (ps ++ (c ∷ qs))
    → IsFreeEnvs k xs
    → has (prev c ps qs) xs ≡ false
    → (c == prev c ps qs) ≡ false
    → Out k c (ps ++ qs) xs (unlink c (prev c ps qs) k)
unfolding unlink
unlink-Out k c ps qs xs r f out ne = record {
  ring_left = unlink-IsRing k c ps qs r;
  free = record {
    chain = FreeChain-update k.envs (prev c ps qs) _ k.env_free_list xs out f.chain;
    distinct = f.distinct;
  };
  own = rw ne refl;
  current = refl;
}

-- In company the environment before the receiver is another one.
prev_ne :
    (c : ℕ) (ps qs : List ℕ)
    → Distinct (ps ++ (c ∷ qs))
    → nonempty (ps ++ qs) ≡ true
    → (c == prev c ps qs) ≡ false
prev_ne c [] [] d company = cc
prev_ne c [] (y ∷ ys) d company =
    eq_miss c (last y ys) (ne_has c (last y ys) (y ∷ ys) d.0 (has-last y ys))
prev_ne c (h ∷ ps) qs d company =
    let m = Distinct-middle c (h ∷ ps) qs d in
    eq_miss c (last h ps)
      (ne_has c (last h ps) (h ∷ ps) (has_left c (h ∷ ps) qs m.0) (has-last h ps))

alone-Out :
    (fuel : ℕ) (k : Kernel) (c : ℕ) (xs : List ℕ)
    → IsRing k (c ∷ [])
    → IsFreeEnvs k xs
    → has c xs ≡ false
    → 0 < fuel
    → (j : Kernel) × (leave_runnable fuel c k ≡ over j) × Out k c (c ∷ []) xs j
unfolding leave_runnable
alone-Out fuel k c xs r f out enough = (
  link_to c (k.envs c).env_link (advance_head c (retreat_tail c (some c) k)),
  ap (unlink_found c k) (seek-found fuel k c [] [] r enough),
  record {
    ring_left = (rw (r.0, eq_refl c) r.2, rw (r.1, eq_refl c) refl, rw (eq_refl c) r.2, r.3);
    free = record {
      chain = FreeChain-update k.envs c _ k.env_free_list xs out f.chain;
      distinct = f.distinct;
    };
    own = rw (eq_refl c) refl;
    current = refl;
  },
)

pub leave_runnable-Out :
    (fuel : ℕ) (k : Kernel) (c : ℕ) (ps qs xs : List ℕ)
    → IsRing k (ps ++ (c ∷ qs))
    → IsFreeEnvs k xs
    → has (prev c ps qs) xs ≡ false
    → length ps < fuel
    → (j : Kernel) × (leave_runnable fuel c k ≡ over j) × Out k c (left_over c (ps ++ qs)) xs j
leave_runnable-Out fuel k c [] [] xs r f out enough = alone-Out fuel k c xs r f out enough
leave_runnable-Out fuel k c [] (y ∷ ys) xs r f out enough = (
  unlink c (last y ys) k,
  leave_runnable-unlink fuel k c [] (y ∷ ys) r refl enough,
  unlink-Out k c [] (y ∷ ys) xs r f out
      (prev_ne c [] (y ∷ ys) (Distinct-ring k (c ∷ y ∷ ys) r) refl),
)
leave_runnable-Out fuel k c (h ∷ ps) qs xs r f out enough = (
  unlink c (last h ps) k,
  leave_runnable-unlink fuel k c (h ∷ ps) qs r refl enough,
  unlink-Out k c (h ∷ ps) qs xs r f out (prev_ne c (h ∷ ps) qs r.3 refl),
)

-- A change of a block that keeps its link keeps the ring.
pub set_env-IsRing :
    (k : Kernel) (c : ℕ) (e : Env) (ring : List ℕ)
    → IsRing k ring
    → e.env_link ≡ (k.envs c).env_link
    → IsRing (set_env c e k) ring
set_env-IsRing k c e [] r same = r
set_env-IsRing k c e (h ∷ xs) r same =
    (r.0, r.1, Linked-cong k.envs (update k.envs c e) h xs h (λ a _. kept a) r.2, r.3)
  where
    kept : (a : ℕ) → (update k.envs c e a).env_link ≡ (k.envs a).env_link
    kept a = elim (Bool-cases (a == c)) [
      | inl t ↦ rw (t, (==_iff a c).0 t) same
      | inr f ↦ rw f refl
    ]

pub set_env-IsFreeEnvs :
    (k : Kernel) (c : ℕ) (e : Env) (xs : List ℕ)
    → IsFreeEnvs k xs
    → has c xs ≡ false
    → IsFreeEnvs (set_env c e k) xs
set_env-IsFreeEnvs k c e xs f out = record {
  chain = FreeChain-update k.envs c e k.env_free_list xs out f.chain;
  distinct = f.distinct;
}

-- The state in which sys_ipc_recv yields: `c` waits for a message with `dstva`, under its old
-- identifier, and the time is over.
pub record Waiting (k : Kernel) (c dstva : ℕ) (ring xs : List ℕ) (j : Kernel) : Type 0 where
  pub ring_left : IsRing j ring
  pub free : IsFreeEnvs j xs
  pub status : (j.envs c).env_status ≡ env_not_runnable
  pub recving : (j.envs c).env_ipc_recving ≡ 1
  pub address : (j.envs c).env_ipc_dstva ≡ dstva
  pub id : (j.envs c).env_id ≡ (k.envs c).env_id
  pub time : j.remaining_time ≡ 0
  pub current : j.curenv ≡ some c

-- A ring depends on its ends and the links alone.
pub IsRing-cong :
    (k k' : Kernel) (ring : List ℕ)
    → k'.env_runnable_head ≡ k.env_runnable_head
    → k'.env_runnable_tail ≡ k.env_runnable_tail
    → ((a : ℕ) → (k'.envs a).env_link ≡ (k.envs a).env_link)
    → IsRing k ring
    → IsRing k' ring
IsRing-cong k k' [] h t l r = (h ∙ r.0, t ∙ r.1)
IsRing-cong k k' (x ∷ xs) h t l r =
    (h ∙ r.0, t ∙ r.1, Linked-cong k.envs k'.envs x xs x (λ a _. l a) r.2, r.3)

receiving-Waiting :
    (k : Kernel) (c dstva : ℕ) (ring xs : List ℕ) (j : Kernel)
    → Out (set_status c env_not_runnable k) c ring xs j
    → has c xs ≡ false
    → k.curenv ≡ some c
    → Waiting k c dstva ring xs (receiving c dstva j)
receiving-Waiting k c dstva ring xs j o out cur =
    let b = record (j.envs c) { env_ipc_recving = 1; env_ipc_dstva = dstva } in
    let r = set_env-IsRing j c b ring o.ring_left refl in
    let f = set_env-IsFreeEnvs j c b xs o.free out in
    let own : j.envs c ≡ record (k.envs c) { env_status = env_not_runnable } =
      o.own ∙ rw (eq_refl c) refl in
    record {
      ring_left = IsRing-cong (set_env c b j) (receiving c dstva j) ring refl refl (λ a. refl) r;
      free = record { chain = f.chain; distinct = f.distinct };
      status = rw (eq_refl c) (ap (λ (e : Env). e.env_status) own);
      recving = rw (eq_refl c) refl;
      address = rw (eq_refl c) refl;
      id = rw (eq_refl c) (ap (λ (e : Env). e.env_id) own);
      time = refl;
      current = o.current ∙ cur;
    }

-- With a valid address, sys_ipc_recv takes the current environment out of the ring, the others
-- keeping their order, marks it as waiting and yields with no time left. Where it is alone in the
-- ring it stays there.
pub sys_ipc_recv_lem :
    (fuel dstva : ℕ) (k : Kernel) (c : ℕ) (ps qs xs : List ℕ)
    → IsRing k (ps ++ (c ∷ qs))
    → IsFreeEnvs k xs
    → has c xs ≡ false
    → has (prev c ps qs) xs ≡ false
    → k.curenv ≡ some c
    → dstva < utop
    → length ps < fuel
    → length xs ≤ fuel
    → (j : Kernel) × (sys_ipc_recv fuel dstva k ≡ sched_yield fuel j)
      × Waiting k c dstva (left_over c (ps ++ qs)) xs j
unfolding sys_ipc_recv recv_as leave_free
sys_ipc_recv_lem fuel dstva k c ps qs xs r f out pout cur low enough room =
    let k₁ = set_status c env_not_runnable k in
    let r₁ =
      set_env-IsRing k c (record (k.envs c) { env_status = env_not_runnable }) (ps ++ (c ∷ qs)) r
        refl in
    let f₁ =
      set_env-IsFreeEnvs k c (record (k.envs c) { env_status = env_not_runnable }) xs f out in
    let (j, left, o) = leave_runnable-Out fuel k₁ c ps qs xs r₁ f₁ pout enough in
    let fr = seek_free-absent fuel j c j.env_free_list none xs o.free.chain out room in
    let high : leb utop dstva ≡ false = ground arith in
    (
      receiving c dstva j,
      rw high (
          ap (λ c'. deref c' (λ d. recv_as fuel dstva d k)) cur
          ∙ ap
              (λ w. then_walk w (λ l.
                then_walk (leave_free fuel c l) (λ n. sched_yield fuel (receiving c dstva n))))
              left
          ∙ ap (λ w. then_walk w (λ n. sched_yield fuel (receiving c dstva n))) fr),
      receiving-Waiting k c dstva (left_over c (ps ++ qs)) xs j o out cur,
    )
