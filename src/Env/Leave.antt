-- ===== src/Env/Leave.antt =====
-- The removal of an environment from the ring in env_free.
use cse_os.Base.{
  ℕ, zero, suc, ◌+◌, ◌<◌, ◌≡◌, refl, ◌≢◌, sym, ap, ◌∙◌, Option, none, some, Bool, true, false, not,
  List, [], ◌∷◌, ◌++◌, arith, ◌==◌, has, Distinct, ◌||◌, length,
}
use cse_os.Env.{Env, Kernel, link_to, env_free_status, Run, returned, idle, env_run}
use cse_os.Env.Ring.{IsRing, Linked, Linked-cong, last, has-last, ne_has}
use cse_os.Env.Free.{
  is_ptr, before, search_ring, after_search, remove_from, has_runnable, unlink, release, leave,
  leave_ring,
}

pub has_middle :
    (a e : ℕ) (ps qs : List ℕ) → has a (ps ++ (e ∷ qs)) ≡ ((a == e) || has a (ps ++ qs))
has_middle a e [] qs = refl
has_middle a e (x ∷ ps) qs = ground (arith, has_middle a e ps qs)

pub Distinct-middle :
    (e : ℕ) (ps qs : List ℕ)
    → Distinct (ps ++ (e ∷ qs))
    → (has e (ps ++ qs) ≡ false) × Distinct (ps ++ qs)
Distinct-middle e [] qs d = d
Distinct-middle e (x ∷ ps) qs d =
    let m = has_middle x e ps qs in
    let (out, rest) = Distinct-middle e ps qs d.1 in
    (ground (arith, m, d.0, out), (ground (arith, m, d.0), rest))

last_middle : (x y : ℕ) (ps ys : List ℕ) → last x (ps ++ (y ∷ ys)) ≡ last y ys
last_middle x y [] ys = refl
last_middle x y (p ∷ ps) ys = last_middle p y ps ys

pub has_left : (a : ℕ) (ps qs : List ℕ) → has a (ps ++ qs) ≡ false → has a ps ≡ false
has_left a [] qs h = refl
has_left a (x ∷ ps) qs h = ground (arith, has_left a ps qs)

-- The search that starts at the head, before which there is `pre`.
search_ring-before :
    (fuel : ℕ) (envs : ℕ → Env) (head e x : ℕ) (ps qs : List ℕ) (stop : ℕ) (pre : Option ℕ)
    → Linked envs x (ps ++ (e ∷ qs)) stop
    → (x == e) ≡ false
    → has e ps ≡ false
    → has head (ps ++ (e ∷ qs)) ≡ false
    → length ps + 1 < fuel
    → search_ring fuel envs head e x pre ≡ before (some (last x ps))
unfolding search_ring
search_ring-before zero envs head e x ps qs stop pre l ne out hd f = absurd (omega arith)
search_ring-before (suc zero) envs head e x ps qs stop pre l ne out hd f = absurd (omega arith)
search_ring-before (suc (suc fuel)) envs head e x [] qs stop pre l ne out hd f =
    let same : (e == e) ≡ true = ground arith in
    let miss : (e == head) ≡ false = ground arith in rw (search_ring, ne, l.0, miss, same) refl
search_ring-before (suc (suc fuel)) envs head e x (p ∷ ps) qs stop pre l ne out hd f =
    let miss : (p == head) ≡ false = ground arith in
    let ne' : (p == e) ≡ false = ground arith in
    rw (search_ring, ne, l.0, miss)
      (search_ring-before (suc fuel) envs head e p ps qs stop (some x) l.1 ne' (ground arith)
        (ground arith) (omega arith))

-- The stretch without `e`, when the link before `e` is changed to the one that `e` had.
Linked-cut :
    (envs envs' : ℕ → Env) (x e : ℕ) (ps qs : List ℕ) (stop : ℕ)
    → ((a : ℕ) → a ≢ last x ps → (envs' a).env_link ≡ (envs a).env_link)
    → (envs' (last x ps)).env_link ≡ (envs e).env_link
    → Distinct (x ∷ (ps ++ qs))
    → Linked envs x (ps ++ (e ∷ qs)) stop
    → Linked envs' x (ps ++ qs) stop
Linked-cut envs envs' x e [] [] stop same cut d l = cut ∙ l.1
Linked-cut envs envs' x e [] (y ∷ ys) stop same cut d l = (
  cut ∙ l.1.0,
  Linked-cong envs envs' y ys stop (λ a h. same a (λ q. ne_has x a (y ∷ ys) d.0 h (sym q))) l.1.1,
)
Linked-cut envs envs' x e (p ∷ ps) qs stop same cut d l = (
  same x (ne_has x (last p ps) (p ∷ (ps ++ qs)) d.0 (has_last_left p ps qs)) ∙ l.0,
  Linked-cut envs envs' p e ps qs stop same cut d.1 l.1,
)
  where
    has_last_left : (x : ℕ) (ys zs : List ℕ) → has (last x ys) (x ∷ (ys ++ zs)) ≡ true
    has_last_left x [] zs = ground arith
    has_last_left x (y ∷ ys) zs = ground (arith, has_last_left y ys zs)

-- The last link of a stretch, changed.
Linked-close :
    (envs envs' : ℕ → Env) (x : ℕ) (ys : List ℕ) (old stop : ℕ)
    → ((a : ℕ) → a ≢ last x ys → has a (x ∷ ys) ≡ true → (envs' a).env_link ≡ (envs a).env_link)
    → (envs' (last x ys)).env_link ≡ some stop
    → Distinct (x ∷ ys)
    → Linked envs x ys old
    → Linked envs' x ys stop
Linked-close envs envs' x [] old stop same at d l = at
Linked-close envs envs' x (y ∷ ys) old stop same at d l = (
  same x (ne_has x (last y ys) (y ∷ ys) d.0 (has-last y ys)) (ground arith) ∙ l.0,
  Linked-close envs envs' y ys old stop (λ a n h. same a n (ground (arith, h))) at d.1 l.1,
)

-- The environment before `e` in the ring.
abbrev pub prev : ℕ → List ℕ → List ℕ → ℕ
prev e [] qs = last e qs
prev e (h ∷ ps) qs = last h ps

pub eq_refl : (a : ℕ) → (a == a) ≡ true
eq_refl a = ground arith

pub eq_miss : (a b : ℕ) → a ≢ b → (a == b) ≡ false
eq_miss a b h = ground arith

unlink-head :
    (k : Kernel) (e y : ℕ) (ys : List ℕ)
    → IsRing k (e ∷ y ∷ ys)
    → IsRing (unlink e (last y ys) k) (y ∷ ys)
unfolding unlink
unlink-head k e y ys r =
    let t = last y ys in
    let j = link_to t (some y) k in
    let y_ne : (y == e) ≡ false = ground (arith, r.3.0) in
    let t_ne : (t == e) ≡ false =
      eq_miss t e (λ q. ne_has e t (y ∷ ys) r.3.0 (has-last y ys) (sym q)) in
    rw (r.0, r.1, r.2.0, eq_refl e, y_ne, t_ne)
      (
        refl,
        refl,
        Linked-close k.envs j.envs y ys e y (λ a n h. rw (eq_miss a t n) refl) (rw (eq_refl t) refl)
            r.3.1 r.2.1,
        r.3.1,
      )

Linked-from :
    (envs : ℕ → Env) (x e : ℕ) (ps qs : List ℕ) (stop : ℕ)
    → Linked envs x (ps ++ (e ∷ qs)) stop
    → Linked envs e qs stop
Linked-from envs x e [] qs stop l = l.1
Linked-from envs x e (p ∷ ps) qs stop l = Linked-from envs p e ps qs stop l.1

last-append_nil : (x : ℕ) (ps : List ℕ) → last x (ps ++ []) ≡ last x ps
last-append_nil x [] = refl
last-append_nil x (p ∷ ps) = last-append_nil p ps

pub has_right : (a : ℕ) (ps qs : List ℕ) → has a (ps ++ qs) ≡ false → has a qs ≡ false
has_right a [] qs h = h
has_right a (x ∷ ps) qs h = ground (arith, has_right a ps qs)

-- The tail after the removal of `e` from inside the ring.
unlink-tail :
    (k : Kernel) (e h : ℕ) (ps qs : List ℕ)
    → k.env_runnable_tail ≡ some (last h (ps ++ (e ∷ qs)))
    → Linked k.envs e qs h
    → (h == e) ≡ false
    → has e (ps ++ qs) ≡ false
    → (unlink e (last h ps) k).env_runnable_tail ≡ some (last h (ps ++ qs))
unfolding unlink
unlink-tail k e h ps [] t l ne out =
    rw (t, last_middle h e ps [], eq_refl e, l, ne, last-append_nil h ps) refl
unlink-tail k e h ps (y ∷ ys) t l ne out =
    let apart : (last y ys == e) ≡ false =
      eq_miss (last y ys) e (λ q.
        ne_has e (last y ys) (y ∷ ys) (has_right e ps (y ∷ ys) out) (has-last y ys) (sym q)) in
    rw (t, last_middle h e ps (y ∷ ys), last_middle h y ps ys, apart) refl

unlink-inside :
    (k : Kernel) (e h : ℕ) (ps qs : List ℕ)
    → IsRing k (h ∷ (ps ++ (e ∷ qs)))
    → IsRing (unlink e (last h ps) k) (h ∷ (ps ++ qs))
unfolding unlink
unlink-inside k e h ps qs r =
    let p = last h ps in
    let j = link_to p (k.envs e).env_link k in
    let m = Distinct-middle e (h ∷ ps) qs r.3 in
    let ne : (h == e) ≡ false = ground (arith, m.0) in
    (
      rw (r.0, ne) refl,
      unlink-tail k e h ps qs r.1 (Linked-from k.envs h e ps qs h r.2) ne (ground (arith, m.0)),
      Linked-cut k.envs j.envs h e ps qs h (λ a n. rw (eq_miss a p n) refl) (rw (eq_refl p) refl)
          m.1 r.2,
      m.1,
    )

pub unlink-IsRing :
    (k : Kernel) (e : ℕ) (ps qs : List ℕ)
    → IsRing k (ps ++ (e ∷ qs))
    → IsRing (unlink e (prev e ps qs) k) (ps ++ qs)
unfolding unlink
unlink-IsRing k e [] [] r = rw (r.0, r.1, r.2, eq_refl e) (refl, refl)
unlink-IsRing k e [] (y ∷ ys) r = unlink-head k e y ys r
unlink-IsRing k e (h ∷ ps) qs r = unlink-inside k e h ps qs r

pub release-IsRing :
    (j : Kernel) (e : ℕ) (xs : List ℕ) → IsRing j xs → has e xs ≡ false → IsRing (release e j) xs
release-IsRing j e [] r out = r
release-IsRing j e (h ∷ xs) r out = (
  r.0,
  r.1,
  Linked-cong j.envs (release e j).envs h xs h
      (λ a m. rw (eq_miss a e (λ q. ne_has e a (h ∷ xs) out m (sym q))) refl) r.2,
  r.3,
)

-- The environment after `e` in the ring: `e` itself if there is no other.
abbrev pub successor : ℕ → List ℕ → List ℕ → ℕ
successor e ps (y ∷ ys) = y
successor e (h ∷ ps) [] = h
successor e [] [] = e

abbrev pub nonempty : List ℕ → Bool
nonempty [] = false
nonempty (x ∷ xs) = true

pub link-successor :
    (k : Kernel) (e : ℕ) (ps qs : List ℕ)
    → IsRing k (ps ++ (e ∷ qs))
    → (k.envs e).env_link ≡ some (successor e ps qs)
link-successor k e [] [] r = r.2
link-successor k e [] (y ∷ ys) r = r.2.0
link-successor k e (h ∷ ps) [] r = Linked-from k.envs h e ps [] h r.2
link-successor k e (h ∷ ps) (y ∷ ys) r = (Linked-from k.envs h e ps (y ∷ ys) h r.2).0

pub Distinct-ring : (k : Kernel) (xs : List ℕ) → IsRing k xs → Distinct xs
Distinct-ring k [] r = tt
Distinct-ring k (x ∷ xs) r = r.3

pub successor_ne :
    (e : ℕ) (ps qs : List ℕ)
    → has e (ps ++ qs) ≡ false
    → not (successor e ps qs == e) ≡ nonempty (ps ++ qs)
successor_ne e [] [] out = rw (eq_refl e) refl
successor_ne e [] (y ∷ ys) out = ground arith
successor_ne e (h ∷ ps) [] out = ground arith
successor_ne e (h ∷ ps) (y ∷ ys) out =
    let apart : (y == e) ≡ false = ground (arith, has_right e (h ∷ ps) (y ∷ ys) out) in
    rw apart refl

search_first :
    (fuel : ℕ) (envs : ℕ → Env) (e : ℕ) (pre : Option ℕ)
    → search_ring (suc fuel) envs e e e pre ≡ before pre
unfolding search_ring
search_first fuel envs e pre = rw (search_ring, eq_refl e) refl

pub found_search :
    (fuel : ℕ) (k : Kernel) (e : ℕ) (ps qs : List ℕ)
    → IsRing k (ps ++ (e ∷ qs))
    → length ps < fuel
    → leave_ring fuel e k ≡ after_search e k (before (some (prev e ps qs)))
unfolding leave_ring remove_from search_ring
found_search zero k e [] qs r f = absurd (omega arith)
found_search (suc fuel) k e [] qs r f =
    ap (λ o. remove_from (suc fuel) e k o k.env_runnable_tail) r.0
    ∙ ap (after_search e k)
        (search_first fuel k.envs e k.env_runnable_tail ∙ ap (λ o. before o) r.1)
found_search fuel k e (h ∷ ps) qs r f =
    let m = Distinct-middle e (h ∷ ps) qs r.3 in
    let ne : (h == e) ≡ false = ground (arith, m.0) in
    let out : has e ps ≡ false = has_left e ps qs (ground (arith, m.0)) in
    ap (λ o. remove_from fuel e k o k.env_runnable_tail) r.0
    ∙ ap (after_search e k) (
        search_ring-before fuel k.envs h e h ps qs h k.env_runnable_tail r.2 ne out r.3.0
          (omega arith))

pub leave_ring-leave :
    (fuel : ℕ) (k : Kernel) (e : ℕ) (ps qs : List ℕ)
    → IsRing k (ps ++ (e ∷ qs))
    → length ps < fuel
    → (j : Kernel) × (leave_ring fuel e k
        ≡ leave e (some (successor e ps qs)) (nonempty (ps ++ qs)) j)
      × IsRing j (ps ++ qs)
      × (j.env_free_list ≡ some e)
      × ((j.envs e).env_link ≡ k.env_free_list)
      × ((j.envs e).env_status ≡ env_free_status)
      × (j.curenv ≡ k.curenv)
unfolding after_search unlink
leave_ring-leave fuel k e ps qs r f =
    let m = Distinct-middle e ps qs (Distinct-ring k (ps ++ (e ∷ qs)) r) in
    let l = link-successor k e ps qs r in
    let more : has_runnable e k ≡ nonempty (ps ++ qs) = rw l (successor_ne e ps qs m.0) in
    let j = release e (unlink e (prev e ps qs) k) in
    (
      j,
      found_search fuel k e ps qs r f
          ∙ ap (λ o. leave e o (has_runnable e k) j) l
          ∙ ap (λ b. leave e (some (successor e ps qs)) b j) more,
      release-IsRing (unlink e (prev e ps qs) k) e (ps ++ qs) (unlink-IsRing k e ps qs r) m.0,
      refl,
      rw (eq_refl e) refl,
      rw (eq_refl e) refl,
      refl,
    )

is_ptr-miss : (o : Option ℕ) (e : ℕ) → o ≢ some e → is_ptr o e ≡ false
is_ptr-miss none e ne = refl
is_ptr-miss (some i) e ne = eq_miss i e (λ q. ne (ap (λ t. some t) q))

-- Which environment runs after `e` has left the ring, where `j` is the kernel then.
pub record GoesOn (k j : Kernel) (e : ℕ) (ps qs : List ℕ) (run : Run) : Type 0 where
  pub not_current : k.curenv ≢ some e → run ≡ returned 1 j
  pub others_left :
      k.curenv ≡ some e → nonempty (ps ++ qs) ≡ true → run ≡ env_run (some (successor e ps qs)) j
  pub none_left :
      k.curenv ≡ some e → nonempty (ps ++ qs) ≡ false → run ≡ idle (record j { curenv = none })

leave-GoesOn :
    (k j : Kernel) (e : ℕ) (ps qs : List ℕ)
    → j.curenv ≡ k.curenv
    → GoesOn k j e ps qs (leave e (some (successor e ps qs)) (nonempty (ps ++ qs)) j)
leave-GoesOn k j e ps qs same = record {
  not_current = λ h. let m = is_ptr-miss k.curenv e h in rw (same, m) refl;
  others_left = λ h m. rw (same, h, eq_refl e, m) refl;
  none_left = λ h m. rw (same, h, eq_refl e, m) refl;
}

-- env_free of an environment `e` of the ring, after its address space is gone: the ring keeps the
-- others in their order, and `e` goes free in front of the free list. If `e` is not the current one,
-- env_free returns; if it is, the one after it in the ring runs, or the kernel idles with no current
-- environment when none is left. Fuel for one round is enough.
pub leave_ring_lem :
    (fuel : ℕ) (k : Kernel) (e : ℕ) (ps qs : List ℕ)
    → IsRing k (ps ++ (e ∷ qs))
    → length ps < fuel
    → (j : Kernel) × GoesOn k j e ps qs (leave_ring fuel e k)
      × IsRing j (ps ++ qs)
      × (j.env_free_list ≡ some e)
      × ((j.envs e).env_link ≡ k.env_free_list)
      × ((j.envs e).env_status ≡ env_free_status)
leave_ring_lem fuel k e ps qs r f =
    let (j, run, ring, free, link, status, cur) = leave_ring-leave fuel k e ps qs r f in
    (j, rw run (leave-GoesOn k j e ps qs cur), ring, free, link, status)
