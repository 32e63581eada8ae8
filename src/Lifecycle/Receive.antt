-- ===== src/Lifecycle/Receive.antt =====
-- sys_ipc_recv keeps the environments in order.
use mathlib.Core.Path.{subst}
use native.Mathlib.Decide.{dec_lt}
use cse_os.Base.{
  ℕ, ◌≡◌, refl, sym, ap, ◌∙◌, Option, none, some, true, false, List, [], ◌∷◌, ◌++◌, arith, has,
  Bool-cases, inl, inr, Bool, leb, length,
}
use cse_os.Mmu.{utop}
use cse_os.Env.{Kernel, set_env, deref}
use cse_os.Env.Ring.{IsRing}
use cse_os.Env.Leave.{prev, has_middle, eq_refl}
use cse_os.Sched.{Walk, over, broken, endless}
use cse_os.Syscall.Ipc.{
  seek_from, leave_free, unlink_found, leave_runnable, receiving, set_status, recv_as, sys_ipc_recv,
  env_not_runnable,
}
use cse_os.Syscall.Ipc.Receive.{left_over, leave_runnable-Out}
use cse_os.Syscall.Ipc.Send.{seek-absent}
use cse_os.Lifecycle.Order.{IsOrderly, InOrder, Ensures, SameLists-InOrder}
use cse_os.Lifecycle.Yield.{Ends, sched_yield-InOrder}
use cse_os.Lifecycle.Free.{split_at_member, has-prev}
use cse_os.Lifecycle.Lookup.{set_env-IsOrderly}
use cse_os.Lifecycle.Search.{Taken, seek_from-short, then_walk-Ensures, leave_free-Taken}

has-left_over :
    (a c : ℕ) (ps qs : List ℕ)
    → has a (left_over c (ps ++ qs)) ≡ true
    → has a (ps ++ (c ∷ qs)) ≡ true
has-left_over a c [] [] m = m
has-left_over a c [] (y ∷ ys) m = ground (arith, m)
has-left_over a c (p ∷ ps) qs m = let n = has_middle a c (p ∷ ps) qs in ground (arith, n, m)

leave_runnable-inside :
    (fuel c : ℕ) (k : Kernel) (ps qs free : List ℕ)
    → IsOrderly k (ps ++ (c ∷ qs)) free
    → Ends (Taken c) (leave_runnable fuel c k)
unfolding leave_runnable
leave_runnable-inside fuel c k ps qs free o = elim (dec_lt (length ps) fuel) [
  | no short ↦
      subst (λ w. Ends (Taken c) (unlink_found c k w))
        (sym (seek_from-short fuel k c ps qs o.runnable (omega arith))) tt
  | yes enough ↦
      let p = prev c ps qs in
      let (j, e, t) =
        leave_runnable-Out fuel k c ps qs free o.runnable o.unused (o.apart p (has-prev c ps qs))
          enough in
      let out = o.apart c (has_middle c c ps qs ∙ rw (eq_refl c) refl) in
      subst (Ends (Taken c)) (sym e) (
        left_over c (ps ++ qs),
        free,
        record {
          runnable = t.ring_left;
          unused = t.free;
          apart = λ a m. o.apart a (has-left_over a c ps qs m);
          current = λ a h. o.current a (sym t.current ∙ h);
        },
        out,
      )
]

-- A receiver that is not in the ring is not taken out of it.
unlink_found-outside :
    (c : ℕ) (k : Kernel) (w : Walk (Option ℕ × Bool))
    → Ends (λ r. ⊥) w
    → Ends (Taken c) (unlink_found c k w)
unlink_found-outside c k (over r) h = absurd h
unlink_found-outside c k broken h = tt
unlink_found-outside c k endless h = tt

leave_runnable-outside :
    (fuel c : ℕ) (k : Kernel) (ring : List ℕ)
    → IsRing k ring
    → has c ring ≡ false
    → Ends (Taken c) (leave_runnable fuel c k)
unfolding leave_runnable seek_from
leave_runnable-outside fuel c k [] r out = rw (r.0) tt
leave_runnable-outside fuel c k (h ∷ xs) r out =
    subst (λ w. Ends (Taken c) (unlink_found c k w))
      (sym (
        ap (seek_from fuel k c) r.0
        ∙ seek-absent fuel k.envs h c xs h xs k.env_runnable_tail true r.2 out r.2 out))
      tt

leave_runnable-Taken :
    (fuel c : ℕ) (k : Kernel) (ring free : List ℕ)
    → IsOrderly k ring free
    → Ends (Taken c) (leave_runnable fuel c k)
leave_runnable-Taken fuel c k ring free o = elim (Bool-cases (has c ring)) [
  | inl t ↦
      let (ps, qs, s) = split_at_member c ring t in
      leave_runnable-inside fuel c k ps qs free (subst (λ r. IsOrderly k r free) s o)
  | inr f ↦ leave_runnable-outside fuel c k ring o.runnable f
]

receiving-InOrder : (c dstva : ℕ) (k : Kernel) → Taken c k → InOrder (receiving c dstva k)
receiving-InOrder c dstva k (ring, free, o, out) =
    let j = set_env c (record (k.envs c) { env_ipc_recving = 1; env_ipc_dstva = dstva }) k in
    SameLists-InOrder {k = j}
      (record { heads = refl; tails = refl; frees = refl; links = λ a. refl; statuses = λ a. refl })
      refl (ring, free, set_env-IsOrderly c _ refl out o)

recv_as-InOrder :
    (fuel dstva c : ℕ) (k : Kernel) → Taken c k → Ensures InOrder (recv_as fuel dstva c k)
unfolding recv_as
recv_as-InOrder fuel dstva c k (ring, free, o, out) =
    let j = set_status c env_not_runnable k in
    let p = set_env-IsOrderly c (record (k.envs c) { env_status = env_not_runnable }) refl out o in
    then_walk-Ensures (Taken c) InOrder (leave_runnable fuel c j) _
      (leave_runnable-Taken fuel c j ring free p)
      (λ l t.
        then_walk-Ensures (Taken c) InOrder (leave_free fuel c l) _ (leave_free-Taken fuel c l t)
          (λ n u. sched_yield-InOrder fuel (receiving c dstva n) (receiving-InOrder c dstva n u)))

recv_by-InOrder :
    (fuel dstva : ℕ) (k : Kernel) (o : Option ℕ)
    → k.curenv ≡ o
    → InOrder k
    → Ensures InOrder (deref o (λ c. recv_as fuel dstva c k))
recv_by-InOrder fuel dstva k none cur s = tt
recv_by-InOrder fuel dstva k (some c) cur (ring, free, o) =
    recv_as-InOrder fuel dstva c k (ring, free, o, o.current c cur)

pub sys_ipc_recv-InOrder :
    (fuel dstva : ℕ) (k : Kernel) → InOrder k → Ensures InOrder (sys_ipc_recv fuel dstva k)
unfolding sys_ipc_recv
sys_ipc_recv-InOrder fuel dstva k o = elim (Bool-cases (leb utop dstva)) [
  | inl t ↦ rw t o
  | inr f ↦ rw f (recv_by-InOrder fuel dstva k k.curenv refl o)
]
