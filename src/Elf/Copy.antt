-- ===== src/Elf/Copy.antt =====
-- memCpy and memSet of fs/elf.c, against a copy and a fill that are given place by place.
use cse_os.Base.{
  ℕ, zero, suc, ◌+◌, ◌-◌, ◌*◌, ◌/◌, ◌%◌, ◌≤◌, ◌≡◌, ◌≢◌, refl, ◌⊎◌, inl, inr, ap, ◌∙◌, sym, Bool,
  true, false, ◌&&◌, ◌||◌, ltb, leb, ◌==◌, if◌then◌else◌, arith, update, Bool-cases,
}
use cse_os.Elf.{Memory, fill_bytes, mem_set, copy_word, copy_words, copy_bytes, mem_cpy}

-- The place `j` is one of the `n` from `a` on.
abbrev pub inside : ℕ → ℕ → ℕ → Bool
inside a n j = leb a j && ltb j (a + n)

-- `n` bytes from `src` at `dst`, all read before any is written.
abbrev pub moved : ℕ → ℕ → ℕ → Memory → Memory
moved dst src n mem j = if inside dst n j then mem (src + (j - dst)) else mem j

abbrev pub Apart : ℕ → ℕ → ℕ → ℕ → Type 0
Apart a n b m = (a + n ≤ b) ⊎ (b + m ≤ a)

pub copy_bytes-moved :
    (n dst src : ℕ) (mem : Memory)
    → Apart dst n src n
    → (j : ℕ) → copy_bytes n dst src mem j ≡ moved dst src n mem j
unfolding copy_bytes
copy_bytes-moved zero dst src mem a j = let o : inside dst 0 j ≡ false = ground arith in rw o refl
copy_bytes-moved (suc n) dst src mem a j =
    let ih =
      copy_bytes-moved n (dst + 1) (src + 1) (update mem dst (mem src)) (ground (arith, a)) j in
    elim (Bool-cases (inside (dst + 1) n j)) [
      | inl t ↦
          let t' : inside dst (suc n) j ≡ true = ground (arith, t) in
          let miss : (src + 1 + (j - (dst + 1)) == dst) ≡ false = ground (arith, a, t) in
          let w : src + 1 + (j - (dst + 1)) ≡ src + (j - dst) = ground (arith, t) in
          ih ∙ rw (t, t', miss, w) refl
      | inr f ↦ elim (Bool-cases (j == dst)) [
        | inl e ↦
            let t' : inside dst (suc n) j ≡ true = ground (arith, e) in
            let w : src + (j - dst) ≡ src = ground (arith, e) in ih ∙ rw (f, e, t', w) refl
        | inr ne ↦
            let t' : inside dst (suc n) j ≡ false = ground (arith, f, ne) in
            ih ∙ rw (f, ne, t') refl
      ]
    ]

pub moved-cong :
    (dst src n : ℕ) (mem mem' : Memory)
    → ((a : ℕ) → mem a ≡ mem' a)
    → (j : ℕ) → moved dst src n mem j ≡ moved dst src n mem' j
moved-cong dst src n mem mem' same j = elim (Bool-cases (inside dst n j)) [
  | inl t ↦ rw t (same (src + (j - dst)))
  | inr f ↦ rw f (same j)
]

-- Two moves of neighbouring pieces are one.
pub moved-moved :
    (dst src a b : ℕ) (mem : Memory)
    → Apart dst (a + b) src (a + b)
    → (j : ℕ) → moved (dst + a) (src + a) b (moved dst src a mem) j ≡ moved dst src (a + b) mem j
moved-moved dst src a b mem apart j = elim (Bool-cases (inside (dst + a) b j)) [
  | inl t ↦
      let t' : inside dst (a + b) j ≡ true = ground (arith, t) in
      let miss : inside dst a (src + a + (j - (dst + a))) ≡ false = ground (arith, apart, t) in
      let w : src + a + (j - (dst + a)) ≡ src + (j - dst) = ground (arith, t) in
      rw (t, t', miss, w) refl
  | inr f ↦ elim (Bool-cases (inside dst a j)) [
    | inl u ↦ let t' : inside dst (a + b) j ≡ true = ground (arith, u) in rw (f, u, t') refl
    | inr u ↦ let t' : inside dst (a + b) j ≡ false = ground (arith, f, u) in rw (f, u, t') refl
  ]
]

copy_word-moved :
    (dst src : ℕ) (mem : Memory) → (j : ℕ) → copy_word dst src mem j ≡ moved dst src 4 mem j
copy_word-moved dst src mem j = elim (Bool-cases (inside dst 4 j)) [
  | inl t ↦ within t
  | inr f ↦
      let a : (j == dst) ≡ false = ground (arith, f) in
      let b : (j == dst + 1) ≡ false = ground (arith, f) in
      let c : (j == dst + 2) ≡ false = ground (arith, f) in
      let d : (j == dst + 3) ≡ false = ground (arith, f) in rw (a, b, c, d, f) refl
]
  where
    within : inside dst 4 j ≡ true → copy_word dst src mem j ≡ moved dst src 4 mem j
    within t = elim (Bool-cases (j == dst + 3)) [
      | inl e ↦ let w : src + (j - dst) ≡ src + 3 = ground (arith, e) in rw (e, t, w) refl
      | inr e ↦ elim (Bool-cases (j == dst + 2)) [
        | inl d ↦ let w : src + (j - dst) ≡ src + 2 = ground (arith, d) in rw (e, d, t, w) refl
        | inr d ↦ elim (Bool-cases (j == dst + 1)) [
          | inl c ↦ let w : src + (j - dst) ≡ src + 1 = ground (arith, c) in rw (e, d, c, t, w) refl
          | inr c ↦
              let b : (j == dst) ≡ true = ground (arith, t, c, d, e) in
              let w : src + (j - dst) ≡ src = ground (arith, b) in rw (e, d, c, b, t, w) refl
        ]
      ]
    ]

pub copy_words-moved :
    (n dst src : ℕ) (mem : Memory)
    → Apart dst (4 * n) src (4 * n)
    → (j : ℕ) → copy_words n dst src mem j ≡ moved dst src (4 * n) mem j
unfolding copy_words
copy_words-moved zero dst src mem a j = let o : inside dst 0 j ≡ false = ground arith in rw o refl
copy_words-moved (suc n) dst src mem a j =
    let w : 4 * suc n ≡ 4 + 4 * n = omega arith in
    copy_words-moved n (dst + 4) (src + 4) (copy_word dst src mem) (ground (arith, a)) j
    ∙ moved-cong (dst + 4) (src + 4) (4 * n) (copy_word dst src mem) (moved dst src 4 mem)
        (copy_word-moved dst src mem) j
    ∙ moved-moved dst src 4 (4 * n) mem (ground (arith, a)) j
    ∙ ap (λ k. moved dst src k mem j) (sym w)

-- A copy by words and then by the bytes that are left.
pub copy_words-copy_bytes-moved :
    (dst src n : ℕ) (mem : Memory)
    → Apart dst n src n
    → (j : ℕ)
    → copy_bytes (n % 4) (dst + n / 4 * 4) (src + n / 4 * 4) (copy_words (n / 4) dst src mem) j
      ≡ moved dst src n mem j
copy_words-copy_bytes-moved dst src n mem a j =
    let q : n / 4 * 4 ≡ 4 * (n / 4) = omega arith in
    let w : 4 * (n / 4) + n % 4 ≡ n = omega arith in
    rw q (
      copy_bytes-moved (n % 4) (dst + 4 * (n / 4)) (src + 4 * (n / 4))
        (copy_words (n / 4) dst src mem) (ground (arith, a, w)) j
      ∙ moved-cong (dst + 4 * (n / 4)) (src + 4 * (n / 4)) (n % 4) (copy_words (n / 4) dst src mem)
          (moved dst src (4 * (n / 4)) mem)
          (copy_words-moved (n / 4) dst src mem (ground (arith, a, w))) j
      ∙ moved-moved dst src (4 * (n / 4)) (n % 4) mem (ground (arith, a, w)) j
      ∙ ap (λ k. moved dst src k mem j) w)

-- For two ranges that do not overlap and do not start at NULL, memCpy, which copies words and then
-- the bytes that are left, gives the memory in which the bytes of the source stand at the
-- destination and nothing else has changed.
pub mem_cpy-moved :
    (dst src n : ℕ) (mem : Memory)
    → dst ≢ 0
    → src ≢ 0
    → Apart dst n src n
    → (j : ℕ) → mem_cpy dst src n mem j ≡ moved dst src n mem j
unfolding mem_cpy
mem_cpy-moved dst src n mem nz nz' a j =
    let z : ((dst == 0) || (src == 0)) ≡ false = ground (arith, nz, nz') in
    rw z (copy_words-copy_bytes-moved dst src n mem a j)

-- `n` places from `s` on hold `c`.
abbrev pub filled : ℕ → ℕ → ℕ → Memory → Memory
filled s n c mem j = if inside s n j then c else mem j

pub fill_bytes-filled :
    (n s c : ℕ) (mem : Memory) (j : ℕ) → fill_bytes n s c mem j ≡ filled s n (c % 256) mem j
unfolding fill_bytes
fill_bytes-filled zero s c mem j = let o : inside s 0 j ≡ false = ground arith in rw o refl
fill_bytes-filled (suc n) s c mem j =
    let ih = fill_bytes-filled n (s + 1) c (update mem s (c % 256)) j in
    elim (Bool-cases (inside (s + 1) n j)) [
      | inl t ↦ let t' : inside s (suc n) j ≡ true = ground (arith, t) in ih ∙ rw (t, t') refl
      | inr f ↦ elim (Bool-cases (j == s)) [
        | inl e ↦ let t' : inside s (suc n) j ≡ true = ground (arith, e) in ih ∙ rw (f, e, t') refl
        | inr ne ↦
            let t' : inside s (suc n) j ≡ false = ground (arith, f, ne) in ih ∙ rw (f, ne, t') refl
      ]
    ]

pub mem_set-filled :
    (s c n : ℕ) (mem : Memory) → s ≢ 0 → (j : ℕ) → mem_set s c n mem j ≡ filled s n (c % 256) mem j
unfolding mem_set
mem_set-filled s c n mem nz j =
    let z : (s == 0) ≡ false = ground (arith, nz) in rw z (fill_bytes-filled n s c mem j)
