-- ===== src/Elf/Turn.antt =====
-- A turn of the loop of load_elf in fs/elf.c, on a program that fits its memory.
use cse_os.Base.{
  ℕ, suc, ◌+◌, ◌*◌, ◌%◌, ◌<◌, ◌≤◌, ◌≡◌, ◌≢◌, refl, inl, inr, ap, ◌∙◌, Bool, true, false, not, ◌&&◌,
  ◌||◌, ◌/◌, ltb, ◌==◌, if◌then◌else◌, arith, Bool-cases,
}
use cse_os.Mmu.{word}
use cse_os.Elf.{
  Memory, ehdr_size, phdr_size, e_phoff, e_phnum, Segment, headers, ph, is_elf32, is_loaded,
  load_data, load_zeros, load_segment, load_segments, Loaded, loaded, checked, aligned, data_traps,
  segment_traps,
}
use cse_os.Elf.Copy.{inside, Apart}
use cse_os.Elf.Segments.{
  Fits, Same, load_with, header, data-moved, load_with-image, phnum-Same, ph-Same,
}

-- A file of `size` bytes whose headers lie in it and whose loaded segments fit, no two of them
-- overlapping. It starts at a multiple of 4, and so do its headers.
pub record IsProgram (elf size : ℕ) (file : Memory) : Type 0 where
  pub not_null : elf ≢ 0
  pub low : elf + size < word
  pub big : ehdr_size ≤ size
  pub elf_aligned : elf % 4 ≡ 0
  pub headers_aligned : e_phoff elf file % 4 ≡ 0
  pub count : e_phnum elf file < 65536
  pub table : e_phoff elf file + e_phnum elf file * phdr_size ≤ size
  pub fits :
      (i : ℕ)
      → i < e_phnum elf file
      → is_loaded (header elf i file) ≡ true
      → Fits elf size (header elf i file)
  pub disjoint :
      (i k : ℕ)
      → i < k
      → k < e_phnum elf file
      → is_loaded (header elf i file) ≡ true
      → is_loaded (header elf k file) ≡ true
      → Apart
          (header elf i file).p_vaddr
          (header elf i file).p_memsz
          (header elf k file).p_vaddr
          (header elf k file).p_memsz

load_segments-turn :
    (left elf p i : ℕ) (m : Memory)
    → ltb i (e_phnum elf m) ≡ true
    → segment_traps elf p i m ≡ false
    → load_segments (suc left) elf p i m ≡ load_segments left elf p (i + 1) (load_segment elf p i m)
unfolding load_segments
load_segments-turn left elf p i m h t = rw (load_segments, h, t) refl

load_segments-end :
    (left elf p i : ℕ) (m : Memory)
    → ltb i (e_phnum elf m) ≡ false
    → load_segments (suc left) elf p i m ≡ loaded m
unfolding load_segments
load_segments-end left elf p i m h = rw (load_segments, h) refl

module _ (elf size : ℕ) (file : Memory) (p : IsProgram elf size file) where
  -- What a segment does to the memory `m`.
  pub turn-Same :
      (i : ℕ) (m : Memory)
      → i < e_phnum elf file
      → Same elf size file m
      → Same elf size file (load_with elf (header elf i file) m)
  unfolding load_with
  turn-Same i m here s j lo hi = elim (Bool-cases (is_loaded (header elf i file))) [
    | inl l ↦
        let f = p.fits i here l in
        let a = f.apart in
        let o : inside (header elf i file).p_vaddr (header elf i file).p_memsz j ≡ false =
          ground (arith, a, lo, hi) in
        load_with-image elf size (header elf i file) m f p.not_null p.low l j ∙ rw o (s j lo hi)
    | inr l ↦ rw l (s j lo hi)
  ]

  data-Same :
      (i : ℕ) (m : Memory)
      → i < e_phnum elf file
      → is_loaded (header elf i file) ≡ true
      → Same elf size file m
      → Same elf size file (load_data elf (header elf i file).p_vaddr (header elf i file) m)
  data-Same i m here l s j lo hi =
      let f = p.fits i here l in
      let a = f.apart in
      let b = f.data_in in
      let o : inside (header elf i file).p_vaddr (header elf i file).p_filesz j ≡ false =
        ground (arith, a, b, lo, hi) in
      data-moved elf size (header elf i file) m f p.not_null p.low j ∙ rw o (s j lo hi)

  -- The headers do not change, so that it makes no difference that one is read again.
  pub load_segment-load_with :
      (i : ℕ) (m : Memory)
      → i < e_phnum elf file
      → Same elf size file m
      → load_segment elf (headers elf file) i m ≡ load_with elf (header elf i file) m
  unfolding load_segment load_with
  load_segment-load_with i m here s =
      let g = ph-Same elf size i file m s p.big p.low p.table here in
      let again = λ (h : Segment). load_data elf h.p_vaddr h m in
      ap
        (λ h.
          if is_loaded h
          then load_zeros (ph (headers elf file) i (again h)).p_vaddr
              (ph (headers elf file) i (again h)) (again h)
          else m)
        g
      ∙ elim (Bool-cases (is_loaded (header elf i file))) [
        | inl l ↦
            let g' =
              ph-Same elf size i file (again (header elf i file)) (data-Same i m here l s) p.big
                p.low p.table here in
            rw l (ap (λ h. load_zeros h.p_vaddr h (again (header elf i file))) g')
        | inr l ↦ rw l refl
      ]

  headers-aligned : aligned (headers elf file) ≡ true
  headers-aligned =
      let a = p.elf_aligned in
      let b = p.headers_aligned in
      let w : (elf + e_phoff elf file) % word % 4 ≡ 0 = omega (arith, a, b) in ground (arith, w)

  pub no_trap :
      (i : ℕ) (m : Memory)
      → i < e_phnum elf file
      → Same elf size file m
      → segment_traps elf (headers elf file) i m ≡ false
  no_trap i m here s =
      let g = ph-Same elf size i file m s p.big p.low p.table here in
      let al = headers-aligned in
      ap (λ h. not (aligned (headers elf file)) || (is_loaded h && data_traps elf h.p_vaddr h)) g
      ∙ elim (Bool-cases (is_loaded (header elf i file))) [
        | inl l ↦
            let f = p.fits i here l in
            let (va, off) = f.aligned_at in
            let e = p.elf_aligned in
            let v : aligned (header elf i file).p_vaddr ≡ true = ground (arith, va) in
            let w : (elf + (header elf i file).p_offset) % word % 4 ≡ 0 = omega (arith, e, off) in
            let u : aligned ((elf + (header elf i file).p_offset) % word) ≡ true =
              ground (arith, w) in
            rw (al, l) (never (header elf i file) v u)
        | inr l ↦ rw (al, l) refl
      ]
    where
      and_false : (b : Bool) → (b && false) ≡ false
      and_false true = refl
      and_false false = refl

      never :
          (h : Segment)
          → aligned h.p_vaddr ≡ true
          → aligned ((elf + h.p_offset) % word) ≡ true
          → data_traps elf h.p_vaddr h ≡ false
      never h v u =
          rw (v, u)
            (ap
                (λ b.
                  not (h.p_filesz == 0)
                  && (not ((h.p_vaddr == 0) || ((elf + h.p_offset) % word == 0)) && b))
                (and_false (not (h.p_filesz / 4 == 0)))
              ∙ ap (λ b. not (h.p_filesz == 0) && b)
                  (and_false (not ((h.p_vaddr == 0) || ((elf + h.p_offset) % word == 0))))
              ∙ and_false (not (h.p_filesz == 0)))

  pub one_turn :
      (left i : ℕ) (m : Memory)
      → i < e_phnum elf file
      → Same elf size file m
      → load_segments (suc left) elf (headers elf file) i m
        ≡ load_segments left elf (headers elf file) (i + 1) (load_with elf (header elf i file) m)
  one_turn left i m here s =
      let n = phnum-Same elf size file m s p.big in
      let t : ltb i (e_phnum elf m) ≡ true = rw n (ground (arith, here)) in
      load_segments-turn left elf (headers elf file) i m t (no_trap i m here s)
      ∙ ap (load_segments left elf (headers elf file) (i + 1)) (load_segment-load_with i m here s)

  pub last_turn :
      (left i : ℕ) (m : Memory)
      → ltb i (e_phnum elf file) ≡ false
      → Same elf size file m
      → load_segments (suc left) elf (headers elf file) i m ≡ loaded m
  last_turn left i m t s =
      let n = phnum-Same elf size file m s p.big in
      load_segments-end left elf (headers elf file) i m (ap (ltb i) n ∙ t)

  pub checks_pass : (next : Loaded) → is_elf32 elf file ≡ true → checked elf size file next ≡ next
  checks_pass next e =
      let a = p.big in
      let b = p.table in
      let c = p.low in
      let d = p.elf_aligned in
      let w : (e_phoff elf file + e_phnum elf file * phdr_size) % word
          ≡ e_phoff elf file + e_phnum elf file * phdr_size =
        omega (arith, b, c) in
      let u : ltb size ehdr_size ≡ false = ground (arith, a) in
      let v : ltb size (e_phoff elf file + e_phnum elf file * phdr_size) ≡ false =
        ground (arith, b) in
      let x : aligned elf ≡ true = ground (arith, d) in rw (u, e, x, w, v) refl
