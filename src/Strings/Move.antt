-- ===== src/Strings/Move.antt =====
-- memmove of lib/string.c: it moves a block of bytes whether or not the two blocks overlap.
use cse_os.Base.{
  ℕ, zero, suc, ◌+◌, ◌-◌, ◌≤◌, ◌<◌, ◌≡◌, refl, ◌∙◌, ◌⊎◌, inl, inr, true, false, ◌&&◌, arith, ltb,
  leb, ◌==◌, if◌then◌else◌, Bool-cases, update, ap,
}
use cse_os.Strings.{backward, forward, memmove}

-- The memory in which the `n` bytes from `d` on are those that were from `s` on.
abbrev pub moved : ℕ → ℕ → ℕ → (ℕ → ℕ) → ℕ → ℕ
moved n d s mem a = if leb d a && ltb a (d + n) then mem (s + (a - d)) else mem a

moved-first :
    (n d s a : ℕ) (mem : ℕ → ℕ)
    → (d ≤ s) ⊎ (s + suc n ≤ d)
    → moved n (d + 1) (s + 1) (update mem d (mem s)) a ≡ moved (suc n) d s mem a
moved-first n d s a mem h = elim (Bool-cases (a == d)) [
  | inl t ↦
      let e : a ≡ d = ground arith in
      let out : (leb (d + 1) a && ltb a (d + 1 + n)) ≡ false = ground arith in
      let here : (leb d a && ltb a (d + suc n)) ≡ true = ground arith in
      let k : s ≡ s + (a - d) = omega arith in rw (out, here, t) (ap mem k)
  | inr f ↦ elim (Bool-cases (leb d a && ltb a (d + suc n))) [
    | inl i ↦
        let i' : (leb (d + 1) a && ltb a (d + 1 + n)) ≡ true = ground arith in
        let k : s + 1 + (a - (d + 1)) ≡ s + (a - d) = ground arith in
        let miss : (s + (a - d) == d) ≡ false = ground arith in rw (i, i', k, miss) refl
    | inr o ↦
        let o' : (leb (d + 1) a && ltb a (d + 1 + n)) ≡ false = ground arith in rw (o, o', f) refl
  ]
]

moved-last :
    (n d s a : ℕ) (mem : ℕ → ℕ)
    → s < d
    → moved n d s (update mem (d + n) (mem (s + n))) a ≡ moved (suc n) d s mem a
moved-last n d s a mem h = elim (Bool-cases (a == d + n)) [
  | inl t ↦
      let out : (leb d a && ltb a (d + n)) ≡ false = ground arith in
      let here : (leb d a && ltb a (d + suc n)) ≡ true = ground arith in
      let k : s + n ≡ s + (a - d) = ground arith in rw (out, here, t) (ap mem k)
  | inr f ↦ elim (Bool-cases (leb d a && ltb a (d + n))) [
    | inl i ↦
        let i' : (leb d a && ltb a (d + suc n)) ≡ true = ground arith in
        let miss : (s + (a - d) == d + n) ≡ false = ground arith in rw (i, i', miss) refl
    | inr o ↦ let o' : (leb d a && ltb a (d + suc n)) ≡ false = ground arith in rw (o, o', f) refl
  ]
]

forward-moved :
    (n d s a : ℕ) (mem : ℕ → ℕ) → (d ≤ s) ⊎ (s + n ≤ d) → forward n d s mem a ≡ moved n d s mem a
unfolding forward
forward-moved zero d s a mem h = ground arith
forward-moved (suc n) d s a mem h =
    forward-moved n (d + 1) (s + 1) a (update mem d (mem s)) (ground arith)
    ∙ moved-first n d s a mem h

backward-moved :
    (n d s a : ℕ) (mem : ℕ → ℕ) → s < d → backward n (d + n) (s + n) mem a ≡ moved n d s mem a
unfolding backward
backward-moved zero d s a mem h = ground arith
backward-moved (suc n) d s a mem h =
    let e : d + suc n - 1 ≡ d + n = omega arith in
    let f : s + suc n - 1 ≡ s + n = omega arith in
    rw (e, f)
      (backward-moved n d s a (update mem (d + n) (mem (s + n))) h ∙ moved-last n d s a mem h)

-- memmove leaves at the destination the bytes that were at the source, and every other byte as it
-- was, however the two blocks overlap.
pub memmove-moved :
    (dst src n a : ℕ) (mem : ℕ → ℕ) → memmove dst src n mem a ≡ moved n dst src mem a
unfolding memmove
memmove-moved dst src n a mem = elim (Bool-cases (ltb src dst && ltb dst (src + n))) [
  | inl t ↦ rw t (backward-moved n dst src a mem (ground arith))
  | inr f ↦ rw f (forward-moved n dst src a mem (ground arith))
]
