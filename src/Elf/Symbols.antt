-- ===== src/Elf/Symbols.antt =====
-- The look-up of a name by the dynamic linker of fs/elf.c.
use cse_os.Base.{
  ℕ, zero, suc, ◌+◌, ◌-◌, ◌%◌, ◌<◌, ◌≤◌, ◌≡◌, ◌≢◌, refl, ◌⊎◌, inl, inr, ap, ◌∙◌, sym, Option, some,
  true, false, not, ◌&&◌, ◌==◌, arith, Bool-cases, ==_iff, List, [], ◌∷◌, length,
}
use cse_os.Mmu.{word}
use cse_os.Elf.{Memory}
use cse_os.Elf.Dynamic.{DynLinkInfo, symbol, symbol_name, str_cmp, lookup_from, lookup_symbol}

-- The string `xs`, of bytes that are not 0, stands at `a` with its end.
abbrev pub IsName : Memory → ℕ → List ℕ → Type 0
IsName mem a [] = mem a ≡ 0
IsName mem a (x ∷ xs) = (mem a ≡ x) × (x ≢ 0) × (x < 256) × IsName mem (a + 1) xs

str_cmp-same :
    (fuel a b : ℕ) (mem : Memory) (xs : List ℕ)
    → IsName mem a xs
    → IsName mem b xs
    → length xs < fuel
    → str_cmp fuel a b mem ≡ some 0
unfolding str_cmp
str_cmp-same zero a b mem xs h g enough = absurd (omega arith)
str_cmp-same (suc fuel) a b mem [] h g enough = rw (str_cmp, h, g) refl
str_cmp-same (suc fuel) a b mem (x ∷ xs) h g enough =
    let z : (x == 0) ≡ false = ground (arith, h.1) in
    let e : (x == x) ≡ true = ground arith in
    rw (str_cmp, h.0, g.0, z, e) (str_cmp-same fuel (a + 1) (b + 1) mem xs h.3 g.3 (omega arith))

-- The comparison ends with a difference.
Differs : Option ℕ → Type 0
Differs o = (d : ℕ) × (o ≡ some d) × (d ≢ 0)

-- The comparison gives 0, for equal strings, or a difference.
Compared : Option ℕ → List ℕ → List ℕ → Type 0
Compared o xs ys = ((o ≡ some 0) × (xs ≡ ys)) ⊎ Differs o

Compared-suc :
    (x : ℕ) (o : Option ℕ) (xs ys : List ℕ) → Compared o xs ys → Compared o (x ∷ xs) (x ∷ ys)
unfolding Compared Differs
Compared-suc x o xs ys (inl (e, s)) = inl (e, ap (λ l. x ∷ l) s)
Compared-suc x o xs ys (inr d) = inr d

str_cmp_lem :
    (fuel a b : ℕ) (mem : Memory) (xs ys : List ℕ)
    → IsName mem a xs
    → IsName mem b ys
    → length xs < fuel
    → Compared (str_cmp fuel a b mem) xs ys
unfolding str_cmp Compared Differs
str_cmp_lem zero a b mem xs ys h g enough = absurd (omega arith)
str_cmp_lem (suc fuel) a b mem [] [] h g enough = inl (rw (str_cmp, h, g) refl, refl)
str_cmp_lem (suc fuel) a b mem [] (y ∷ ys) h g enough =
    inr ((0 + word - y) % word, rw (str_cmp, h, g.0) refl, λ e. g.1 (omega (arith, e, g.2)))
str_cmp_lem (suc fuel) a b mem (x ∷ xs) [] h g enough =
    let z : (x == 0) ≡ false = ground (arith, h.1) in
    inr ((x + word - 0) % word, rw (str_cmp, h.0, g, z) refl, λ e. h.1 (omega (arith, e, h.2)))
str_cmp_lem (suc fuel) a b mem (x ∷ xs) (y ∷ ys) h g enough =
    let z : (x == 0) ≡ false = ground (arith, h.1) in
    elim (Bool-cases (x == y)) [
      | inl e ↦
          let same : y ≡ x = sym ((==_iff x y).0 e) in
          let step : str_cmp (suc fuel) a b mem ≡ str_cmp fuel (a + 1) (b + 1) mem =
            rw (str_cmp, h.0, g.0, z, e) refl in
          rw (step, same)
            (Compared-suc x (str_cmp fuel (a + 1) (b + 1) mem) xs ys
              (str_cmp_lem fuel (a + 1) (b + 1) mem xs ys h.3 g.3 (omega arith)))
      | inr e ↦
          let u : x ≢ y = λ s. cc ((==_iff x y).1 s, e) in
          inr (
            (x + word - y) % word,
            rw (str_cmp, h.0, g.0, z, e) refl,
            λ d. u (omega (arith, d, h.2, g.2)),
          )
    ]

-- The name of symbol `i`.
abbrev pub name_at : DynLinkInfo → Memory → ℕ → ℕ
name_at info mem i = symbol_name info (symbol info i mem)

-- Symbol `i` is passed over: it is not defined or has another name than `xs`.
abbrev pub Skipped : DynLinkInfo → Memory → List ℕ → (ℕ → List ℕ) → ℕ → Type 0
Skipped info mem xs names i = ((symbol info i mem).st_shndx ≡ 0) ⊎ (xs ≢ names i)

module _ (fuel name : ℕ) (info : DynLinkInfo) (mem : Memory) (xs : List ℕ) (names : ℕ → List ℕ)
    (h : IsName mem name xs) (enough : length xs < fuel)
    (g : (i : ℕ) → i < info.symtab_count → IsName mem (name_at info mem i) (names i)) where
  defined_turn :
      (left i d : ℕ)
      → str_cmp fuel name (name_at info mem i) mem ≡ some d
      → ((d == 0) && not ((symbol info i mem).st_shndx == 0)) ≡ true
      → lookup_from fuel (suc left) i name info mem
        ≡ some ((info.base_addr + (symbol info i mem).st_value) % word)
  unfolding lookup_from
  defined_turn left i d c t = rw (lookup_from, c, t) refl

  skipped_turn :
      (left i d : ℕ)
      → str_cmp fuel name (name_at info mem i) mem ≡ some d
      → ((d == 0) && not ((symbol info i mem).st_shndx == 0)) ≡ false
      → lookup_from fuel (suc left) i name info mem ≡ lookup_from fuel left (i + 1) name info mem
  unfolding lookup_from
  skipped_turn left i d c t = rw (lookup_from, c, t) refl

  skipped_lem :
      (left i : ℕ)
      → i < info.symtab_count
      → Skipped info mem xs names i
      → lookup_from fuel (suc left) i name info mem ≡ lookup_from fuel left (i + 1) name info mem
  unfolding Compared Differs
  skipped_lem left i here k =
      elim (str_cmp_lem fuel name (name_at info mem i) mem xs (names i) h (g i here) enough) [
        | inl (c, same) ↦ elim k [
          | inl u ↦ skipped_turn left i 0 c (rw u refl)
          | inr ne ↦ absurd (ne same)
        ]
        | inr (d, c, nz) ↦
            let z : (d == 0) ≡ false = ground (arith, nz) in skipped_turn left i d c (rw z refl)
      ]

  -- The loop passes over the symbols from `i` on that are skipped.
  skip_all :
      (count left i : ℕ)
      → i + count ≤ info.symtab_count
      → ((j : ℕ) → i ≤ j → j < i + count → Skipped info mem xs names j)
      → lookup_from fuel (count + left) i name info mem
        ≡ lookup_from fuel left (i + count) name info mem
  skip_all zero left i inside k =
      let w : i + 0 ≡ i = omega arith in let v : 0 + left ≡ left = omega arith in rw (w, v) refl
  skip_all (suc count) left i inside k =
      let w : i + 1 + count ≡ i + suc count = omega arith in
      let v : suc count + left ≡ suc (count + left) = omega arith in
      ap (λ n. lookup_from fuel n i name info mem) v
      ∙ skipped_lem (count + left) i (omega arith) (k i (omega arith) (omega arith))
      ∙ skip_all count left (i + 1) (omega arith) (λ j lo hi. k j (omega arith) (omega arith))
      ∙ ap (λ n. lookup_from fuel left n name info mem) w

  looked_up :
      name ≢ 0
      → info.symtab ≢ 0
      → info.strtab ≢ 0
      → lookup_symbol fuel name info mem ≡ lookup_from fuel info.symtab_count 0 name info mem
  unfolding lookup_symbol
  looked_up a b c =
      let a' : (name == 0) ≡ false = ground (arith, a) in
      let b' : (info.symtab == 0) ≡ false = ground (arith, b) in
      let c' : (info.strtab == 0) ≡ false = ground (arith, c) in rw (a', b', c') refl

  -- lookup_symbol gives the address of the first symbol that is defined and has the name, when it has
  -- more fuel than the name is long.
  pub lookup_symbol_lem :
      (i : ℕ)
      → name ≢ 0
      → info.symtab ≢ 0
      → info.strtab ≢ 0
      → i < info.symtab_count
      → xs ≡ names i
      → (symbol info i mem).st_shndx ≢ 0
      → ((j : ℕ) → j < i → Skipped info mem xs names j)
      → lookup_symbol fuel name info mem
        ≡ some ((info.base_addr + (symbol info i mem).st_value) % word)
  lookup_symbol_lem i a b c here same defined before =
      let left = info.symtab_count - i - 1 in
      let w : i + suc (info.symtab_count - i - 1) ≡ info.symtab_count = omega (arith, here) in
      let z : ((symbol info i mem).st_shndx == 0) ≡ false = ground (arith, defined) in
      let start : 0 + i ≡ i = omega arith in
      let e = str_cmp-same fuel name (name_at info mem i) mem xs h (rw same (g i here)) enough in
      looked_up a b c
      ∙ ap (λ n. lookup_from fuel n 0 name info mem) (sym w)
      ∙ skip_all i (suc left) 0 (omega (arith, here)) (λ j lo hi. before j (omega (arith, hi)))
      ∙ ap (λ n. lookup_from fuel (suc left) n name info mem) start
      ∙ defined_turn left i 0 e (rw z refl)
