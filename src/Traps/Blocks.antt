-- ===== src/Traps/Blocks.antt =====
-- bcopy and bzero of lib/tool.c, against a copy and a fill that are given place by place.
use cse_os.Base.{
  ℕ, zero, suc, ◌+◌, ◌*◌, ◌/◌, ◌%◌, ◌≤◌, ◌<◌, ◌≡◌, refl, ap, ◌∙◌, none, some, ◌&&◌, true, false,
  ltb, if◌then◌else◌, arith, update, Bool-cases, inl, inr,
}
use cse_os.Elf.{aligned, Memory, write_word, copy_word, copy_words, copy_bytes, fill_bytes}
use cse_os.Elf.Copy.{Apart, moved, filled, inside, copy_words-copy_bytes-moved, fill_bytes-filled}
use cse_os.Mmu.{word}
use cse_os.Traps.{
  bcopy_words, bcopy_bytes, bcopy_left, bcopy, bzero_words, bzero_bytes, bzero_left, bzero,
}

bcopy_words-turn :
    (fuel src dst max : ℕ) (mem : Memory)
    → bcopy_words (suc fuel) src dst max mem ≡ (
        if ltb ((dst + 3) % word) max
        then (if aligned dst && aligned src
            then bcopy_words fuel ((src + 4) % word) ((dst + 4) % word) max (copy_word dst src mem)
            else none)
        else some (src, dst, mem))
unfolding bcopy_words
bcopy_words-turn fuel src dst max mem = refl

bcopy_words-copy_words :
    (n fuel src dst max : ℕ) (mem : Memory)
    → n < fuel
    → dst + 4 * n ≤ max
    → max < dst + 4 * n + 4
    → max + 4 ≤ word
    → src + 4 * n < word
    → dst % 4 ≡ 0
    → src % 4 ≡ 0
    → bcopy_words fuel src dst max mem ≡ some (src + n * 4, dst + n * 4, copy_words n dst src mem)
unfolding copy_words
bcopy_words-copy_words n zero src dst max mem f lo hi top src_top da sa = absurd (omega arith)
bcopy_words-copy_words zero (suc fuel) src dst max mem f lo hi top src_top da sa =
    let over : ltb ((dst + 3) % word) max ≡ false = ground arith in
    let a : src ≡ src + 0 * 4 = omega arith in
    let b : dst ≡ dst + 0 * 4 = omega arith in
    bcopy_words-turn fuel src dst max mem
    ∙ rw over refl
    ∙ ap (λ s. some (s, dst, mem)) a
    ∙ ap (λ d. some (src + 0 * 4, d, mem)) b
bcopy_words-copy_words (suc n) (suc fuel) src dst max mem f lo hi top src_top da sa =
    let more : ltb ((dst + 3) % word) max ≡ true = ground arith in
    let al : (aligned dst && aligned src) ≡ true = ground (arith, da, sa) in
    let ws : (src + 4) % word ≡ src + 4 = omega (arith, src_top) in
    let wd : (dst + 4) % word ≡ dst + 4 = omega (arith, lo, top) in
    let a : src + 4 + n * 4 ≡ src + suc n * 4 = omega arith in
    let b : dst + 4 + n * 4 ≡ dst + suc n * 4 = omega arith in
    let m = copy_words n (dst + 4) (src + 4) (copy_word dst src mem) in
    bcopy_words-turn fuel src dst max mem
    ∙ rw (more, al, ws, wd) refl
    ∙ bcopy_words-copy_words n fuel (src + 4) (dst + 4) max (copy_word dst src mem) (omega arith)
        (omega arith) (omega arith) top (omega arith) (omega (arith, da)) (omega (arith, sa))
    ∙ ap (λ s. some (s, dst + 4 + n * 4, m)) a
    ∙ ap (λ d. some (src + suc n * 4, d, m)) b

bcopy_bytes-copy_bytes :
    (n fuel src dst : ℕ) (max : ℕ) (mem : Memory)
    → n < fuel
    → max ≡ dst + n
    → max < word
    → src + n < word
    → bcopy_bytes fuel src dst max mem ≡ some (copy_bytes n dst src mem)
unfolding copy_bytes bcopy_bytes
bcopy_bytes-copy_bytes n zero src dst max mem f e top src_top = absurd (omega arith)
bcopy_bytes-copy_bytes zero (suc fuel) src dst max mem f e top src_top =
    let over : ltb dst max ≡ false = ground arith in rw over refl
bcopy_bytes-copy_bytes (suc n) (suc fuel) src dst max mem f e top src_top =
    let more : ltb dst max ≡ true = ground arith in
    let ws : (src + 1) % word ≡ src + 1 = omega (arith, src_top) in
    let wd : (dst + 1) % word ≡ dst + 1 = omega (arith, e, top) in
    rw (more, ws, wd)
      (bcopy_bytes-copy_bytes n fuel (src + 1) (dst + 1) max (update mem dst (mem src))
        (omega arith) (omega arith) top (omega arith))

-- For two ranges that do not overlap or reach the top of memory, at multiples of 4, bcopy, which copies words and then the bytes that are left,
-- comes to its end and gives the memory in which the bytes of the source stand at the destination and
-- nothing else has changed. A quarter of the length and four more rounds are enough.
pub bcopy-moved :
    (fuel src dst len : ℕ) (mem : Memory)
    → len / 4 + 4 ≤ fuel
    → Apart dst len src len
    → dst + len + 4 ≤ word
    → src + len < word
    → dst % 4 ≡ 0
    → src % 4 ≡ 0
    → (mem' : Memory) × (bcopy fuel src dst len mem ≡ some mem')
      × ((j : ℕ) → mem' j ≡ moved dst src len mem j)
unfolding bcopy
bcopy-moved fuel src dst len mem enough apart top src_top da sa =
    let n = len / 4 in
    let w : (dst + len) % word ≡ dst + len = omega (arith, top) in
    rw w (
      copy_bytes (len % 4) (dst + n * 4) (src + n * 4) (copy_words n dst src mem),
      ap (bcopy_left fuel (dst + len)) (
            bcopy_words-copy_words n fuel src dst (dst + len) mem (omega arith) (omega arith)
              (omega arith) top (omega (arith, src_top)) da sa)
          ∙ bcopy_bytes-copy_bytes (len % 4) fuel (src + n * 4) (dst + n * 4) (dst + len)
              (copy_words n dst src mem) (omega arith) (omega arith) (omega (arith, top))
              (omega (arith, src_top)),
      copy_words-copy_bytes-moved dst src len mem apart,
    )

-- A fill by words.
abbrev fill_words : ℕ → ℕ → Memory → Memory
fill_words zero b mem = mem
fill_words (suc n) b mem = fill_words n (b + 4) (write_word b 0 mem)

bzero_words-turn :
    (fuel b max : ℕ) (mem : Memory)
    → bzero_words (suc fuel) b max mem ≡ (
        if ltb ((b + 3) % word) max
        then (if aligned b
            then bzero_words fuel ((b + 4) % word) max (write_word b 0 mem)
            else none)
        else some (b, mem))
unfolding bzero_words
bzero_words-turn fuel b max mem = refl

bzero_words-fill_words :
    (n fuel b max : ℕ) (mem : Memory)
    → n < fuel
    → b + 4 * n ≤ max
    → max < b + 4 * n + 4
    → max + 4 ≤ word
    → b % 4 ≡ 0
    → bzero_words fuel b max mem ≡ some (b + n * 4, fill_words n b mem)
bzero_words-fill_words n zero b max mem f lo hi top ba = absurd (omega arith)
bzero_words-fill_words zero (suc fuel) b max mem f lo hi top ba =
    let over : ltb ((b + 3) % word) max ≡ false = ground arith in
    let e : b ≡ b + 0 * 4 = omega arith in
    bzero_words-turn fuel b max mem ∙ rw over refl ∙ ap (λ d. some (d, mem)) e
bzero_words-fill_words (suc n) (suc fuel) b max mem f lo hi top ba =
    let more : ltb ((b + 3) % word) max ≡ true = ground arith in
    let al : aligned b ≡ true = ground (arith, ba) in
    let w : (b + 4) % word ≡ b + 4 = omega (arith, lo, top) in
    let e : b + 4 + n * 4 ≡ b + suc n * 4 = omega arith in
    bzero_words-turn fuel b max mem
    ∙ rw (more, al, w) refl
    ∙ bzero_words-fill_words n fuel (b + 4) max (write_word b 0 mem) (omega arith) (omega arith)
        (omega arith) top (omega (arith, ba))
    ∙ ap (λ d. some (d, fill_words n (b + 4) (write_word b 0 mem))) e

bzero_bytes-fill_bytes :
    (n fuel b max : ℕ) (mem : Memory)
    → n < fuel
    → max ≡ b + n
    → max < word
    → bzero_bytes fuel b max mem ≡ some (fill_bytes n b 0 mem)
unfolding bzero_bytes fill_bytes
bzero_bytes-fill_bytes n zero b max mem f e top = absurd (omega arith)
bzero_bytes-fill_bytes zero (suc fuel) b max mem f e top =
    let over : ltb b max ≡ false = ground arith in rw over refl
bzero_bytes-fill_bytes (suc n) (suc fuel) b max mem f e top =
    let more : ltb b max ≡ true = ground arith in
    let w : (b + 1) % word ≡ b + 1 = omega (arith, e, top) in
    rw (more, w)
      (bzero_bytes-fill_bytes n fuel (b + 1) max (update mem b 0) (omega arith) (omega arith) top)

write_word-filled : (b j : ℕ) (mem : Memory) → write_word b 0 mem j ≡ filled b 4 0 mem j
write_word-filled b j mem = ground arith

fill_words-filled : (n b j : ℕ) (mem : Memory) → fill_words n b mem j ≡ filled b (n * 4) 0 mem j
fill_words-filled zero b j mem = ground arith
fill_words-filled (suc n) b j mem =
    let ih = fill_words-filled n (b + 4) j (write_word b 0 mem) in
    let w = write_word-filled b j mem in
    elim (Bool-cases (inside (b + 4) (n * 4) j)) [
      | inl t ↦ let o : inside b (suc n * 4) j ≡ true = ground (arith, t) in ih ∙ rw (t, o) refl
      | inr f ↦ elim (Bool-cases (inside b 4 j)) [
        | inl t ↦
            let o : inside b (suc n * 4) j ≡ true = ground (arith, t) in
            ih ∙ rw (f, o) (w ∙ rw t refl)
        | inr g ↦
            let o : inside b (suc n * 4) j ≡ false = ground (arith, f, g) in
            ih ∙ rw (f, o) (w ∙ rw g refl)
      ]
    ]

-- On a range at a multiple of 4 that does not reach the top of memory, bzero, which clears words and then the bytes that are left, comes to its end, and exactly the bytes
-- of the range are 0 afterwards.
pub bzero-filled :
    (fuel b len : ℕ) (mem : Memory)
    → len / 4 + 4 ≤ fuel
    → b + len + 4 ≤ word
    → b % 4 ≡ 0
    → (mem' : Memory) × (bzero fuel b len mem ≡ some mem')
      × ((j : ℕ) → mem' j ≡ filled b len 0 mem j)
unfolding bzero
bzero-filled fuel b len mem enough top ba =
    let n = len / 4 in
    let m = fill_words n b mem in
    let w : (b + len) % word ≡ b + len = omega (arith, top) in
    rw w (
      fill_bytes (len % 4) (b + n * 4) 0 m,
      ap (bzero_left fuel (b + len)) (
            bzero_words-fill_words n fuel b (b + len) mem (omega arith) (omega arith) (omega arith)
              top ba)
          ∙ bzero_bytes-fill_bytes (len % 4) fuel (b + n * 4) (b + len) m (omega arith)
              (omega arith) (omega (arith, top)),
      λ j. fill_bytes-filled (len % 4) (b + n * 4) 0 m j ∙ both j,
    )
  where
    rest :
        (j : ℕ)
        → inside (b + len / 4 * 4) (len % 4) j ≡ false
        → filled b (len / 4 * 4) 0 mem j ≡ filled b len 0 mem j
    rest j f = elim (Bool-cases (inside b (len / 4 * 4) j)) [
      | inl t ↦ let o : inside b len j ≡ true = ground (arith, t) in rw (t, o) refl
      | inr g ↦ let o : inside b len j ≡ false = ground (arith, f, g) in rw (g, o) refl
    ]

    both :
        (j : ℕ)
        → filled (b + len / 4 * 4) (len % 4) 0 (fill_words (len / 4) b mem) j ≡ filled b len 0 mem j
    both j =
        let n = len / 4 in
        let w = fill_words-filled n b j mem in
        elim (Bool-cases (inside (b + n * 4) (len % 4) j)) [
          | inl t ↦ let o : inside b len j ≡ true = ground (arith, t) in rw (t, o) refl
          | inr f ↦ rw f (w ∙ rest j f)
        ]
