-- ===== src/Env/Ring.antt =====
-- The ring of runnable environments as a list, and the insertion at its end.
use cse_os.Base.{
  ℕ, ◌≡◌, refl, ◌≢◌, sym, ap, ◌∙◌, none, some, true, false, List, [], ◌∷◌, ◌++◌, arith, ◌==◌, has,
  Distinct, ne_of_has,
}
use cse_os.Env.{Env, Kernel, link_to, link_runnable}

-- From `x` the links lead through `ys` and then to `stop`.
abbrev pub Linked : (ℕ → Env) → ℕ → List ℕ → ℕ → Type 0
Linked envs x [] stop = (envs x).env_link ≡ some stop
Linked envs x (y ∷ ys) stop = ((envs x).env_link ≡ some y) × Linked envs y ys stop

abbrev pub last : ℕ → List ℕ → ℕ
last x [] = x
last x (y ∷ ys) = last y ys

-- The runnable environments are those of the list, each once, in the order of the ring.
abbrev pub IsRing : Kernel → List ℕ → Type 0
IsRing k [] = (k.env_runnable_head ≡ none) × (k.env_runnable_tail ≡ none)
IsRing k (h ∷ xs) =
    (k.env_runnable_head ≡ some h)
    × (k.env_runnable_tail ≡ some (last h xs))
    × Linked k.envs h xs h
    × Distinct (h ∷ xs)

pub has-last : (x : ℕ) (ys : List ℕ) → has (last x ys) (x ∷ ys) ≡ true
has-last x [] = ground arith
has-last x (y ∷ ys) = ground (arith, has-last y ys)

pub ne_has : (x y : ℕ) (ys : List ℕ) → has x ys ≡ false → has y ys ≡ true → x ≢ y
ne_has x y ys n h e = cc (ap (λ t. has t ys) e)

-- The links of a stretch depend on the links of its members alone.
pub Linked-cong :
    (envs envs' : ℕ → Env) (x : ℕ) (ys : List ℕ) (stop : ℕ)
    → ((a : ℕ) → has a (x ∷ ys) ≡ true → (envs' a).env_link ≡ (envs a).env_link)
    → Linked envs x ys stop
    → Linked envs' x ys stop
Linked-cong envs envs' x [] stop same l = same x (ground arith) ∙ l
Linked-cong envs envs' x (y ∷ ys) stop same l = (
  same x (ground arith) ∙ l.0,
  Linked-cong envs envs' y ys stop (λ a h. same a (ground (arith, h))) l.1,
)

-- The stretch goes on to `e` if the last link is changed to it.
pub Linked-append :
    (envs envs' : ℕ → Env) (x : ℕ) (ys : List ℕ) (old e stop : ℕ)
    → ((a : ℕ) → a ≢ last x ys → has a (x ∷ ys) ≡ true → (envs' a).env_link ≡ (envs a).env_link)
    → (envs' (last x ys)).env_link ≡ some e
    → (envs' e).env_link ≡ some stop
    → Distinct (x ∷ ys)
    → Linked envs x ys old
    → Linked envs' x (ys ++ (e ∷ [])) stop
Linked-append envs envs' x [] old e stop same at_last at_e d l = (at_last, at_e)
Linked-append envs envs' x (y ∷ ys) old e stop same at_last at_e d l = (
  same x (ne_has x (last y ys) (y ∷ ys) d.0 (has-last y ys)) (ground arith) ∙ l.0,
  Linked-append envs envs' y ys old e stop (λ a n h. same a n (ground (arith, h))) at_last at_e d.1
      l.1,
)

pub last-append : (x e : ℕ) (ys : List ℕ) → last x (ys ++ (e ∷ [])) ≡ e
last-append x e [] = refl
last-append x e (y ∷ ys) = last-append y e ys

pub has_append_one :
    (a e : ℕ) (xs : List ℕ) → (a == e) ≡ false → has a xs ≡ false → has a (xs ++ (e ∷ [])) ≡ false
has_append_one a e [] n h = ground arith
has_append_one a e (x ∷ xs) n h = ground (arith, has_append_one a e xs n)

pub Distinct-append_one :
    (e : ℕ) (xs : List ℕ) → has e xs ≡ false → Distinct xs → Distinct (xs ++ (e ∷ []))
Distinct-append_one e [] n d = (refl, tt)
Distinct-append_one e (x ∷ xs) n d =
    (has_append_one x e xs (ground arith) d.0, Distinct-append_one e xs (ground arith) d.1)

-- The new environment goes to the end of the ring: the list is longer by it, whether it was empty or
-- not, and no access goes through NULL.
pub link_runnable_lem :
    (k : Kernel) (e : ℕ) (xs : List ℕ)
    → IsRing k xs
    → has e xs ≡ false
    → (k' : Kernel) × (link_runnable e k ≡ some k') × IsRing k' (xs ++ (e ∷ []))
unfolding link_runnable
link_runnable_lem k e [] r out = (
  record (link_to e (some e) k) { env_runnable_head = some e; env_runnable_tail = some e },
  rw (r.0) refl,
  (refl, refl, ground arith, (refl, tt)),
)
link_runnable_lem k e (h ∷ xs) r out =
    let j = link_to e (some h) k in
    let t = last h xs in
    let k' = record (link_to t (some e) j) { env_runnable_tail = some e } in
    let ne = ne_has e t (h ∷ xs) out (has-last h xs) in
    let apart : (e == t) ≡ false = ground arith in
    (
      k',
      rw (r.0, r.1) refl,
      (
        r.0,
        ap some (sym (last-append h e xs)),
        Linked-append k.envs k'.envs h xs h e h
            (λ a n m.
              let n' : (a == t) ≡ false = ground arith in
              let m' : (a == e) ≡ false = ne_of_has a e (h ∷ xs) m out in rw (n', m') refl)
            (ground arith) (ground arith) r.3 r.2,
        Distinct-append_one e (h ∷ xs) out r.3,
      ),
    )
