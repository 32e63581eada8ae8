-- ===== src/Elf/Dynamic.antt =====
-- The dynamic linker of fs/elf.c, for files and tables whose words lie at multiples of 4. A name is the address of its first byte; NULL is 0.
use cse_os.Base.{
  ℕ, zero, suc, ◌+◌, ◌-◌, ◌*◌, ◌%◌, Option, none, some, Bool, true, false, not, ◌&&◌, ◌||◌, ltb,
  ◌==◌, if◌then◌else◌,
}
use cse_os.Mmu.{word}
use cse_os.Elf.{
  Memory, half_at, word_at, write_word, ehdr_size, e_phnum, is_elf32, headers, ph, pt_dynamic,
  pt_interp, Loaded, loaded, failed, out_of_fuel,
}

-- `DynLinkInfo`
pub record DynLinkInfo : Type 0 where
  pub base_addr : ℕ
  pub symtab : ℕ
  pub strtab : ℕ
  pub got : ℕ
  pub symtab_count : ℕ
  pub local_gotno : ℕ
  pub gotsym : ℕ

-- `struct Elf32_Sym`, the fields that are used.
pub record Symbol : Type 0 where
  pub st_name : ℕ
  pub st_value : ℕ
  pub st_shndx : ℕ

abbrev pub symbol_at : Memory → ℕ → Symbol
symbol_at mem a = record {
  st_name = word_at mem a;
  st_value = word_at mem (a + 4);
  st_shndx = half_at mem (a + 14);
}

-- `&info->symtab[i]`
abbrev pub symbol : DynLinkInfo → ℕ → Memory → Symbol
symbol info i mem = symbol_at mem ((info.symtab + 16 * i) % word)

abbrev pub symbol_name : DynLinkInfo → Symbol → ℕ
symbol_name info s = (info.strtab + s.st_name) % word

-- strCmp: the difference of the first bytes that differ, as a 32-bit pattern, or 0.
unfoldable pub str_cmp : ℕ → ℕ → ℕ → Memory → Option ℕ
str_cmp zero s1 s2 mem = none
str_cmp (suc fuel) s1 s2 mem =
    let rest = str_cmp fuel (s1 + 1) (s2 + 1) mem in
    if not (mem s1 == 0) && (mem s1 == mem s2) then rest else some ((mem s1 + word - mem s2) % word)

-- The loop of elf_needs_dynlink.
unfoldable pub needs_from : ℕ → ℕ → ℕ → Memory → Bool
needs_from zero elf i mem = false
needs_from (suc left) elf i mem =
    let s = ph (headers elf mem) i mem in
    elim (ltb i (e_phnum elf mem)) [
      | true ↦ elim ((s.p_type == pt_interp) || (s.p_type == pt_dynamic)) [
        | true ↦ true
        | false ↦ needs_from left elf (i + 1) mem
      ]
      | false ↦ false
    ]

-- elf_needs_dynlink
unfoldable pub elf_needs_dynlink : ℕ → ℕ → Memory → Bool
unfolding needs_from
elf_needs_dynlink elf elf_size mem =
    if ltb elf_size ehdr_size
    then false
    else if not (is_elf32 elf mem)
    then false
    else needs_from 65536 elf 0 mem

-- The address of the dynamic section after the first loop of parse_dynamic_section: that of the last
-- segment of the type.
unfoldable pub find_dynamic : ℕ → ℕ → ℕ → ℕ → Memory → ℕ
find_dynamic zero elf i dyn mem = dyn
find_dynamic (suc left) elf i dyn mem =
    let s = ph (headers elf mem) i mem in
    elim (ltb i (e_phnum elf mem)) [
      | true ↦
          find_dynamic left elf (i + 1)
            (if s.p_type == pt_dynamic then (elf + s.p_offset) % word else dyn) mem
      | false ↦ dyn
    ]

-- The switch on the tag of an entry with the value `v`.
abbrev pub entry : ℕ → ℕ → DynLinkInfo → DynLinkInfo
entry tag v info =
    if tag == 5
    then record info { strtab = v }
    else if tag == 6
    then record info { symtab = v }
    else if tag == 3
    then record info { got = v }
    else if tag == 0x7000_0011
    then record info { symtab_count = v }
    else if tag == 0x7000_000a
    then record info { local_gotno = v }
    else if tag == 0x7000_0013
    then record info { gotsym = v }
    else info

-- The loop over the entries of the dynamic section, up to DT_NULL.
unfoldable pub entries : ℕ → ℕ → Memory → DynLinkInfo → Option DynLinkInfo
entries zero dyn mem info = none
entries (suc fuel) dyn mem info =
    let rest = entries fuel (dyn + 8) mem (entry (word_at mem dyn) (word_at mem (dyn + 4)) info) in
    if word_at mem dyn == 0 then some info else rest

abbrev pub no_info : DynLinkInfo
no_info = record {
  base_addr = 0;
  symtab = 0;
  strtab = 0;
  got = 0;
  symtab_count = 0;
  local_gotno = 0;
  gotsym = 0;
}

-- The outcome of a parse: the information for 0, `invalid` for -1.
pub data Parsed : Type 0 where
  parsed : DynLinkInfo → Parsed
  invalid : Parsed
  endless : Parsed

abbrev pub parsed_or : Option DynLinkInfo → Parsed
parsed_or none = endless
parsed_or (some info) = parsed info

-- parse_dynamic_section, which no caller gives NULL for `info`.
unfoldable pub parse_dynamic_section : ℕ → ℕ → ℕ → Memory → Parsed
unfolding find_dynamic entries
parse_dynamic_section fuel elf elf_size mem =
    if (elf == 0) || ltb elf_size ehdr_size
    then invalid
    else let dyn = find_dynamic 65536 elf 0 0 mem in
      if dyn == 0 then invalid else parsed_or (entries fuel dyn mem no_info)

-- The loop of lookup_symbol from symbol `i` on, with `left` symbols to go.
unfoldable pub lookup_from : ℕ → ℕ → ℕ → ℕ → DynLinkInfo → Memory → Option ℕ
unfolding str_cmp
lookup_from fuel zero i name info mem = some 0
lookup_from fuel (suc left) i name info mem =
    let s = symbol info i mem in
    elim (str_cmp fuel name (symbol_name info s) mem) [
      | none ↦ none
      | some d ↦ elim ((d == 0) && not (s.st_shndx == 0)) [
        | true ↦ some ((info.base_addr + s.st_value) % word)
        | false ↦ lookup_from fuel left (i + 1) name info mem
      ]
    ]

-- lookup_symbol; `none` is a comparison of names that ran out of fuel.
unfoldable pub lookup_symbol : ℕ → ℕ → DynLinkInfo → Memory → Option ℕ
unfolding lookup_from
lookup_symbol fuel name info mem =
    if (name == 0) || ((info.symtab == 0) || (info.strtab == 0))
    then some 0
    else lookup_from fuel info.symtab_count 0 name info mem

-- The look-up in the shared library, where there is one.
abbrev pub lookup_so : ℕ → ℕ → Option DynLinkInfo → Memory → Option ℕ
lookup_so fuel name none mem = some 0
lookup_so fuel name (some so_info) mem = lookup_symbol fuel name so_info mem

-- The address for a symbol that the program does not define: the library's, or else the program's.
unfoldable pub resolve : ℕ → ℕ → DynLinkInfo → Option DynLinkInfo → Memory → Option ℕ
unfolding lookup_symbol
resolve fuel name main_info so_info mem = elim (lookup_so fuel name so_info mem) [
  | none ↦ none
  | some addr ↦ if addr == 0 then lookup_symbol fuel name main_info mem else some addr
]

-- `main_info->got[main_info->local_gotno + i] = addr`
abbrev pub set_got : DynLinkInfo → ℕ → ℕ → Memory → Memory
set_got info i addr mem =
    write_word ((info.got + 4 * ((info.local_gotno + i) % word)) % word) addr mem

abbrev pub set_resolved : DynLinkInfo → ℕ → Option ℕ → Memory → Option Memory
set_resolved info i none mem = none
set_resolved info i (some addr) mem = some (if addr == 0 then mem else set_got info i addr mem)

-- One turn of the loop of fill_got_table.
unfoldable pub fill_one : ℕ → ℕ → DynLinkInfo → Option DynLinkInfo → Memory → Option Memory
unfolding resolve
fill_one fuel i main_info so_info mem =
    let s = symbol main_info ((main_info.gotsym + i) % word) mem in
    if not (s.st_shndx == 0) && not (s.st_value == 0)
    then some (set_got main_info i ((main_info.base_addr + s.st_value) % word) mem)
    else set_resolved main_info i (resolve fuel (symbol_name main_info s) main_info so_info mem) mem

unfoldable pub fill_from : ℕ → ℕ → ℕ → DynLinkInfo → Option DynLinkInfo → Memory → Loaded
unfolding fill_one
fill_from fuel zero i main_info so_info mem = loaded mem
fill_from fuel (suc left) i main_info so_info mem = elim (fill_one fuel i main_info so_info mem) [
  | none ↦ out_of_fuel
  | some mem' ↦ fill_from fuel left (i + 1) main_info so_info mem'
]

-- fill_got_table
unfoldable pub fill_got_table : ℕ → DynLinkInfo → Option DynLinkInfo → Memory → Loaded
unfolding fill_from
fill_got_table fuel main_info so_info mem =
    if (main_info.got == 0) || ((main_info.symtab == 0) || (main_info.strtab == 0))
    then failed mem
    else fill_from fuel ((main_info.symtab_count + word - main_info.gotsym) % word) 0 main_info
        so_info mem
