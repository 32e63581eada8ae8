-- ===== src/Elf/Load.antt =====
-- The loop of load_elf in fs/elf.c over the program headers.
use cse_os.Base.{
  ℕ, zero, suc, ◌+◌, ◌-◌, ◌<◌, ◌≤◌, ◌≡◌, refl, inl, inr, ap, ◌∙◌, sym, true, false, ltb, ◌==◌,
  if◌then◌else◌, arith, Bool-cases, ==_iff,
}
use cse_os.Elf.{Memory, e_phnum, Segment, headers, is_loaded, load_segments, loaded}
use cse_os.Elf.Copy.{inside}
use cse_os.Elf.Turn.{IsProgram, turn-Same, one_turn, last_turn}
use cse_os.Elf.Segments.{Same, load_with, header, load_with-image}

-- In `m` stands the segment `s` of the file that was in `file`: its data, and zeros after them.
abbrev pub Placed : ℕ → Segment → Memory → Memory → Type 0
Placed elf s file m =
    (k : ℕ)
    → k < s.p_memsz
    → m (s.p_vaddr + k) ≡ (if ltb k s.p_filesz then file (elf + s.p_offset + k) else 0)

module _ (elf size : ℕ) (file : Memory) (p : IsProgram elf size file) where
  turn-outside :
      (i j : ℕ) (m : Memory)
      → i < e_phnum elf file
      → (is_loaded (header elf i file) ≡ true
          → inside (header elf i file).p_vaddr (header elf i file).p_memsz j ≡ false)
      → load_with elf (header elf i file) m j ≡ m j
  unfolding load_with
  turn-outside i j m here out = elim (Bool-cases (is_loaded (header elf i file))) [
    | inl l ↦
        load_with-image elf size (header elf i file) m (p.fits i here l) p.not_null p.low l j
        ∙ rw (out l) refl
    | inr l ↦ rw l refl
  ]

  turn-Placed :
      (i : ℕ) (m : Memory)
      → i < e_phnum elf file
      → Same elf size file m
      → is_loaded (header elf i file) ≡ true
      → Placed elf (header elf i file) file (load_with elf (header elf i file) m)
  turn-Placed i m here s l k small =
      let f = p.fits i here l in
      let c = f.file_in in
      let t : inside (header elf i file).p_vaddr (header elf i file).p_memsz
            ((header elf i file).p_vaddr + k)
          ≡ true =
        ground (arith, small) in
      let w : (header elf i file).p_vaddr + k - (header elf i file).p_vaddr ≡ k = omega arith in
      load_with-image elf size (header elf i file) m f p.not_null p.low l
        ((header elf i file).p_vaddr + k)
      ∙ rw (t, w)
          (elim (Bool-cases (ltb k (header elf i file).p_filesz)) [
            | inl u ↦
                let v : k < (header elf i file).p_filesz = ground (arith, u) in
                rw u
                  (s (elf + (header elf i file).p_offset + k) (omega arith) (omega (arith, c, v)))
            | inr u ↦ rw u refl
          ])

  -- The loop from header `i` on.
  pub record Rest (i : ℕ) (m r : Memory) : Type 0 where
    others :
        (j : ℕ)
        → ((k : ℕ)
            → i ≤ k
            → k < e_phnum elf file
            → is_loaded (header elf k file) ≡ true
            → inside (header elf k file).p_vaddr (header elf k file).p_memsz j ≡ false)
        → r j ≡ m j
    placed :
        (k : ℕ)
        → i ≤ k
        → k < e_phnum elf file
        → is_loaded (header elf k file) ≡ true
        → Placed elf (header elf k file) file r

  later_out :
      (i k o : ℕ)
      → i < k
      → k < e_phnum elf file
      → is_loaded (header elf i file) ≡ true
      → is_loaded (header elf k file) ≡ true
      → o < (header elf i file).p_memsz
      → inside
          (header elf k file).p_vaddr
          (header elf k file).p_memsz
          ((header elf i file).p_vaddr + o)
        ≡ false
  later_out i k o less here l l' small =
      let a = p.disjoint i k less here l l' in ground (arith, a, small)

  Rest-suc :
      (i : ℕ) (m r : Memory)
      → i < e_phnum elf file
      → Same elf size file m
      → Rest (i + 1) (load_with elf (header elf i file) m) r
      → Rest i m r
  Rest-suc i m r here s h = record {
    others = λ j out.
        h.others j (λ k lo hi l. out k (omega (arith, lo)) hi l)
        ∙ turn-outside i j m here (λ l. out i (omega arith) here l);
    placed = λ k lo hi l. elim (Bool-cases (k == i)) [
      | inl e ↦
          let same : k ≡ i = (==_iff k i).0 e in
          let l' : is_loaded (header elf i file) ≡ true =
            ap (λ u. is_loaded (header elf u file)) (sym same) ∙ l in
          rw same (λ o small.
            h.others ((header elf i file).p_vaddr + o)
              (λ u up top lu. later_out i u o (omega (arith, up)) top l' lu small)
            ∙ turn-Placed i m here s l' o small)
      | inr ne ↦ h.placed k (ground (arith, lo, ne)) hi l
    ];
  }

  pub load_segments-Rest :
      (left i : ℕ) (m : Memory)
      → Same elf size file m
      → e_phnum elf file < i + left + 1
      → (r : Memory) × (load_segments left elf (headers elf file) i m ≡ loaded r)
        × Rest i m r
        × Same elf size file r
  unfolding load_segments
  load_segments-Rest zero i m s enough = (
    m,
    refl,
    record { others = λ j out. refl; placed = λ k lo hi l. absurd (omega (arith, lo, hi, enough)) },
    s,
  )
  load_segments-Rest (suc left) i m s enough = elim (Bool-cases (ltb i (e_phnum elf file))) [
    | inl t ↦
        let here : i < e_phnum elf file = ground (arith, t) in
        let (r, run, rest, same) =
          load_segments-Rest left (i + 1) (load_with elf (header elf i file) m)
            (turn-Same elf size file p i m here s) (omega (arith, enough)) in
        (r, one_turn elf size file p left i m here s ∙ run, Rest-suc i m r here s rest, same)
    | inr t ↦ (
      m,
      last_turn elf size file p left i m t s,
      record { others = λ j out. refl; placed = λ k lo hi l. absurd (ground (arith, t, lo, hi)) },
      s,
    )
  ]
