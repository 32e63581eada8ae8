-- ===== src/Elf/Tests.antt =====
-- A program with one segment at 0x1000, and a table of two symbols; the theorems on fs/elf.c at them.
use cse_os.Base.{
  ℕ, ◌+◌, ◌⊎◌, ◌<◌, ◌≡◌, refl, ◌≢◌, some, inl, inr, List, [], ◌∷◌, arith, if◌then◌else◌, ◌==◌, sym,
  ap,
}
use mathlib.Core.Path.{subst}
use cse_os.Elf.{Memory, Segment}
use cse_os.Elf.Segments.{header}
use cse_os.Elf.Dynamic.{DynLinkInfo, lookup_symbol}
use cse_os.Elf.Shared.{SoLoaded, so_failed}
use cse_os.Elf.Symbols.{IsName, Skipped, name_at, lookup_symbol_lem}

-- The headers, and two bytes of data at 0x1054 for the address 0x4000, where four are taken.
abbrev file : Memory
file a =
    if a == 0x1000
    then 0x7f
    else if a == 0x1001
    then 69
    else if a == 0x1002
    then 76
    else if a == 0x1003
    then 70
    else if a == 0x1004
    then 1
    else if a == 0x101c
    then 52
    else if a == 0x102c
    then 1
    else if a == 0x1034
    then 1
    else if a == 0x1038
    then 84
    else if a == 0x103d
    then 0x40
    else if a == 0x1044
    then 2
    else if a == 0x1048
    then 4
    else if a == 0x1054
    then 11
    else if a == 0x1055
    then 22
    else 0

abbrev only : Segment
only = header 0x1000 0 file

-- The names `a` at 0x201 and `b` at 0x203, of the symbols at 0x100 and 0x110, and `b` again at 0x300.
abbrev table : Memory
table a =
    if a == 0x201
    then 97
    else if a == 0x203
    then 98
    else if a == 0x300
    then 98
    else if a == 0x100
    then 1
    else if a == 0x10e
    then 1
    else if a == 0x110
    then 3
    else if a == 0x114
    then 80
    else if a == 0x11e
    then 1
    else 0

abbrev info : DynLinkInfo
info = record {
  base_addr = 0x2000_0000;
  symtab = 0x100;
  strtab = 0x200;
  got = 0x400;
  symtab_count = 2;
  local_gotno = 0;
  gotsym = 0;
}

abbrev names : ℕ → List ℕ
names i = if i == 0 then 97 ∷ [] else 98 ∷ []

one_byte : (a c : ℕ) → table a ≡ c → c ≢ 0 → c < 256 → table (a + 1) ≡ 0 → IsName table a (c ∷ [])
one_byte a c e nz small z = (e, nz, small, z)

first_or_second : (i : ℕ) → i < 2 → (i ≡ 0) ⊎ (i ≡ 1)
first_or_second i h = ground arith

names-IsName : (i : ℕ) → i < 2 → IsName table (name_at info table i) (names i)
names-IsName i h = elim (first_or_second i h) [
  | inl e ↦
      subst (λ k. IsName table (name_at info table k) (names k)) (sym e)
        (one_byte 0x201 97 refl (λ d. omega (arith, d)) (omega arith) refl)
  | inr e ↦
      subst (λ k. IsName table (name_at info table k) (names k)) (sym e)
        (one_byte 0x203 98 refl (λ d. omega (arith, d)) (omega arith) refl)
]

abbrev first : List ℕ → ℕ
first [] = 0
first (x ∷ xs) = x

other_name : ◌≢◌ {A = List ℕ} (98 ∷ []) (97 ∷ [])
other_name e = let d : 98 ≡ 97 = ap first e in omega (arith, d)

first-Skipped : (j : ℕ) → j < 1 → Skipped info table (98 ∷ []) names j
first-Skipped j h = let z : j ≡ 0 = omega (arith, h) in rw z (inr other_name)

lookup_symbol_lem_example : lookup_symbol 5 0x300 info table ≡ some (0x2000_0000 + 80)
lookup_symbol_lem_example =
    lookup_symbol_lem 5 0x300 info table (98 ∷ []) names
      (one_byte 0x300 98 refl (λ d. omega (arith, d)) (omega arith) refl) (omega arith) names-IsName
      1 (λ e. omega (arith, e)) (λ e. omega (arith, e)) (λ e. omega (arith, e)) (omega arith) refl
      (λ e. omega (arith, e)) first-Skipped

-- A loader that finds no library.
abbrev no_library : ℕ → Memory → SoLoaded
no_library name mem = so_failed mem
