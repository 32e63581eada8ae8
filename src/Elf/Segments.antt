-- ===== src/Elf/Segments.antt =====
-- One segment of load_elf in fs/elf.c, and the headers that the loop reads again at each turn.
use cse_os.Base.{
  ℕ, ◌+◌, ◌-◌, ◌*◌, ◌%◌, ◌<◌, ◌≤◌, ◌≡◌, ◌≢◌, refl, inl, inr, ap, ◌∙◌, sym, true, false, ltb, ◌==◌,
  if◌then◌else◌, arith, Bool-cases,
}
use cse_os.Mmu.{word}
use cse_os.Elf.{
  Memory, half_at, word_at, ehdr_size, phdr_size, e_phoff, e_phnum, Segment, segment_at, ph,
  headers, is_loaded, load_data, load_zeros,
}
use cse_os.Elf.Copy.{inside, moved, filled, Apart, mem_cpy-moved, mem_set-filled}

-- A segment whose data lie in the file of `size` bytes at `elf`, and whose place in memory is not
-- at NULL, does not wrap round, is as large as the data and is apart from the file; both start at multiples of 4.
pub record Fits (elf size : ℕ) (s : Segment) : Type 0 where
  pub not_null : s.p_vaddr ≢ 0
  pub top : s.p_vaddr + s.p_memsz < word
  pub data_in : s.p_filesz ≤ s.p_memsz
  pub file_in : s.p_offset + s.p_filesz ≤ size
  pub apart : Apart s.p_vaddr s.p_memsz elf size
  pub aligned_at : (s.p_vaddr % 4 ≡ 0) × (s.p_offset % 4 ≡ 0)

-- The work on a segment whose header is `s` throughout.
unfoldable pub load_with : ℕ → Segment → Memory → Memory
load_with elf s mem =
    if is_loaded s then load_zeros s.p_vaddr s (load_data elf s.p_vaddr s mem) else mem

-- `ph[i]` of the file.
abbrev pub header : ℕ → ℕ → Memory → Segment
header elf i file = ph (headers elf file) i file

-- The memory after a segment has been loaded, place by place.
abbrev pub image : ℕ → Segment → Memory → Memory
image elf s mem j =
    if inside s.p_vaddr s.p_memsz j
    then (if ltb (j - s.p_vaddr) s.p_filesz then mem (elf + s.p_offset + (j - s.p_vaddr)) else 0)
    else mem j

module _ (elf size : ℕ) (s : Segment) (mem : Memory) (f : Fits elf size s) (nz : elf ≢ 0)
    (low : elf + size < word) where
  pub data-moved :
      (j : ℕ)
      → load_data elf s.p_vaddr s mem j ≡ moved s.p_vaddr (elf + s.p_offset) s.p_filesz mem j
  unfolding load_data
  data-moved j =
      let b = f.data_in in
      let c = f.file_in in
      let d = f.apart in
      let w : (elf + s.p_offset) % word ≡ elf + s.p_offset = omega (arith, c, low) in
      elim (Bool-cases (s.p_filesz == 0)) [
        | inl t ↦
            let o : inside s.p_vaddr s.p_filesz j ≡ false = ground (arith, t) in rw (t, o) refl
        | inr t ↦
            let src : elf + s.p_offset ≢ 0 = λ e. nz (omega (arith, e)) in
            rw (t, w)
              (mem_cpy-moved s.p_vaddr (elf + s.p_offset) s.p_filesz mem f.not_null src
                (ground (arith, b, c, d)) j)
      ]

  zeros-filled :
      (m : Memory) (j : ℕ)
      → load_zeros s.p_vaddr s m j ≡ filled (s.p_vaddr + s.p_filesz) (s.p_memsz - s.p_filesz) 0 m j
  unfolding load_zeros
  zeros-filled m j =
      let a = f.top in
      let b = f.data_in in
      let w : (s.p_vaddr + s.p_filesz) % word ≡ s.p_vaddr + s.p_filesz = omega (arith, a, b) in
      elim (Bool-cases (ltb s.p_filesz s.p_memsz)) [
        | inl t ↦
            let v : s.p_vaddr + s.p_filesz ≢ 0 = λ e. f.not_null (omega (arith, e)) in
            rw (t, w) (mem_set-filled (s.p_vaddr + s.p_filesz) 0 (s.p_memsz - s.p_filesz) m v j)
        | inr t ↦
            let o : inside (s.p_vaddr + s.p_filesz) (s.p_memsz - s.p_filesz) j ≡ false =
              ground (arith, t, b) in
            rw (t, o) refl
      ]

  -- A segment gets its bytes of the file, and zeros up to its size in memory.
  pub load_with-image : is_loaded s ≡ true → (j : ℕ) → load_with elf s mem j ≡ image elf s mem j
  unfolding load_with
  load_with-image l j =
      let b = f.data_in in
      rw l (
        zeros-filled (load_data elf s.p_vaddr s mem) j
        ∙ (elim (Bool-cases (inside s.p_vaddr s.p_memsz j)) [
          | inl t ↦ elim (Bool-cases (ltb (j - s.p_vaddr) s.p_filesz)) [
            | inl u ↦
                let o : inside (s.p_vaddr + s.p_filesz) (s.p_memsz - s.p_filesz) j ≡ false =
                  ground (arith, t, u) in
                let i : inside s.p_vaddr s.p_filesz j ≡ true = ground (arith, t, u) in
                rw (o, t, u) (data-moved j ∙ rw i refl)
            | inr u ↦
                let o : inside (s.p_vaddr + s.p_filesz) (s.p_memsz - s.p_filesz) j ≡ true =
                  ground (arith, t, u, b) in
                rw (o, t, u) refl
          ]
          | inr t ↦
              let o : inside (s.p_vaddr + s.p_filesz) (s.p_memsz - s.p_filesz) j ≡ false =
                ground (arith, t, b) in
              let i : inside s.p_vaddr s.p_filesz j ≡ false = ground (arith, t, b) in
              rw (o, t) (data-moved j ∙ rw i refl)
        ]))

-- The file at `elf` stands in `m` as in `file`.
abbrev pub Same : ℕ → ℕ → Memory → Memory → Type 0
Same elf size file m = (j : ℕ) → elf ≤ j → j < elf + size → m j ≡ file j

half-Same :
    (elf size a : ℕ) (file m : Memory)
    → Same elf size file m
    → elf ≤ a
    → a + 2 ≤ elf + size
    → half_at m a ≡ half_at file a
half-Same elf size a file m s lo hi =
    rw (s a lo (omega arith), s (a + 1) (omega arith) (omega arith)) refl

word-Same :
    (elf size a : ℕ) (file m : Memory)
    → Same elf size file m
    → elf ≤ a
    → a + 4 ≤ elf + size
    → word_at m a ≡ word_at file a
word-Same elf size a file m s lo hi =
    rw
      (
        half-Same elf size a file m s lo (omega arith),
        half-Same elf size (a + 2) file m s (omega arith) (omega arith),
      )
      refl

pub phnum-Same :
    (elf size : ℕ) (file m : Memory)
    → Same elf size file m
    → ehdr_size ≤ size
    → e_phnum elf m ≡ e_phnum elf file
phnum-Same elf size file m s big =
    half-Same elf size (elf + 44) file m s (omega arith) (omega arith)

segment-Same :
    (elf size a : ℕ) (file m : Memory)
    → Same elf size file m
    → elf ≤ a
    → a + phdr_size ≤ elf + size
    → segment_at m a ≡ segment_at file a
segment-Same elf size a file m s lo hi =
    rw
      (
        word-Same elf size a file m s lo (omega arith),
        word-Same elf size (a + 4) file m s (omega arith) (omega arith),
        word-Same elf size (a + 8) file m s (omega arith) (omega arith),
        word-Same elf size (a + 16) file m s (omega arith) (omega arith),
        word-Same elf size (a + 20) file m s (omega arith) (omega arith),
      )
      refl

pub ph-Same :
    (elf size i : ℕ) (file m : Memory)
    → Same elf size file m
    → ehdr_size ≤ size
    → elf + size < word
    → e_phoff elf file + e_phnum elf file * phdr_size ≤ size
    → i < e_phnum elf file
    → ph (headers elf file) i m ≡ header elf i file
ph-Same elf size i file m s big low table here =
    let w : (elf + e_phoff elf file) % word ≡ elf + e_phoff elf file = omega (arith, table, low) in
    ap (λ p. segment_at m (p + i * phdr_size)) w
    ∙ segment-Same elf size (elf + e_phoff elf file + i * phdr_size) file m s (omega arith)
        (omega (arith, table, here))
    ∙ ap (λ p. segment_at file (p + i * phdr_size)) (sym w)
