-- ===== src/Elf/Shared.antt =====
-- Programs that need shared libraries: load_so_file, load_elf_sd and load_elf_dynamic of fs/elf.c.
use cse_os.Base.{
  ℕ, zero, suc, ◌+◌, ◌-◌, ◌%◌, Option, none, some, true, false, not, ◌&&◌, ◌||◌, ltb, ◌==◌,
  if◌then◌else◌,
}
use cse_os.Mmu.{word}
use cse_os.Elf.{
  Memory, word_at, ehdr_size, e_phnum, is_elf32, ph, pt_load, pt_dynamic, is_loaded, load_data,
  load_zeros, load_segment, load_elf, checked, Loaded, loaded, failed, out_of_fuel, address_error,
  headers, aligned, data_traps, segment_traps,
}
use cse_os.Elf.Dynamic.{
  DynLinkInfo, Parsed, parsed, invalid, endless, parse_dynamic_section, fill_got_table,
  elf_needs_dynlink,
}

-- The outcome of load_so_file: the base, with `so_dyninfo` and the memory; a base of 0 is a failure.
pub data SoLoaded : Type 0 where
  so_base : ℕ → DynLinkInfo → Memory → SoLoaded
  so_failed : Memory → SoLoaded
  so_address_error : SoLoaded
  so_endless : SoLoaded

-- The least address of a PT_LOAD segment.
unfoldable pub first_vaddr : ℕ → ℕ → ℕ → ℕ → Memory → ℕ
first_vaddr zero elf i least mem = least
first_vaddr (suc left) elf i least mem =
    let s = ph (headers elf mem) i mem in
    elim (ltb i (e_phnum elf mem)) [
      | true ↦
          first_vaddr left elf (i + 1)
            (if (s.p_type == pt_load) && ltb s.p_vaddr least then s.p_vaddr else least) mem
      | false ↦ least
    ]

-- The loop body for a segment of a library, which goes to its address and the offset; the header is
-- read again after memCpy.
unfoldable pub load_offset_segment : ℕ → ℕ → ℕ → ℕ → Memory → Memory
unfolding load_data load_zeros
load_offset_segment elf p i offset mem =
    let s = ph p i mem in
    let addr = (offset + s.p_vaddr) % word in
    let mem' = load_data elf addr s mem in
    if is_loaded s then load_zeros addr (ph p i mem') mem' else mem

-- The segments of a library.
unfoldable pub load_offset_segments : ℕ → ℕ → ℕ → ℕ → ℕ → Memory → Loaded
unfolding load_offset_segment
load_offset_segments zero elf p i offset mem = loaded mem
load_offset_segments (suc left) elf p i offset mem =
    let s = ph p i mem in
    let addr = (offset + s.p_vaddr) % word in
    elim (ltb i (e_phnum elf mem)) [
      | true ↦ elim (not (aligned p) || (is_loaded s && data_traps elf addr s)) [
        | true ↦ address_error
        | false ↦
            load_offset_segments left elf p (i + 1) offset (load_offset_segment elf p i offset mem)
      ]
      | false ↦ loaded mem
    ]

-- The addresses of a library that was loaded at an offset.
abbrev pub adjusted : ℕ → DynLinkInfo → DynLinkInfo
adjusted offset info = if offset == 0 then info else record info {
  symtab = (offset + info.symtab) % word;
  strtab = (offset + info.strtab) % word;
  got = (offset + info.got) % word;
  base_addr = offset;
}

abbrev pub so_filled : ℕ → DynLinkInfo → Loaded → SoLoaded
so_filled base info (loaded mem) = so_base base info mem
so_filled base info (failed mem) = so_failed mem
so_filled base info address_error = so_address_error
so_filled base info out_of_fuel = so_endless

abbrev pub so_parsed : ℕ → ℕ → ℕ → Memory → Parsed → SoLoaded
so_parsed fuel offset base mem (parsed info) =
    so_filled base (adjusted offset info) (fill_got_table fuel (adjusted offset info) none mem)
so_parsed fuel offset base mem invalid = so_failed mem
so_parsed fuel offset base mem endless = so_endless

-- load_so_file after its segments were loaded.
abbrev pub so_linked : ℕ → ℕ → ℕ → ℕ → ℕ → Loaded → SoLoaded
so_linked fuel so_load_buf so_size offset base (loaded mem) =
    so_parsed fuel offset base mem (parse_dynamic_section fuel so_load_buf so_size mem)
so_linked fuel so_load_buf so_size offset base (failed mem) = so_failed mem
so_linked fuel so_load_buf so_size offset base address_error = so_address_error
so_linked fuel so_load_buf so_size offset base out_of_fuel = so_endless

-- load_so_file after the file was read to `so_load_buf`.
unfoldable pub link_so : ℕ → ℕ → ℕ → Memory → SoLoaded
unfolding first_vaddr load_offset_segments parse_dynamic_section fill_got_table
link_so fuel so_load_buf so_size mem =
    if ltb so_size ehdr_size || not (is_elf32 so_load_buf mem)
    then so_failed mem
    else if not (aligned so_load_buf)
    then so_address_error
    else let first = first_vaddr 65536 so_load_buf 0 (word - 1) mem in
      let offset = if first == 0 then 0x2000_0000 else 0 in
      so_linked fuel so_load_buf so_size offset ((offset + first) % word)
        (load_offset_segments 65536 so_load_buf (headers so_load_buf mem) 0 offset mem)

abbrev pub so_buf_size : ℕ
so_buf_size = 0x10_0000

-- `open` stands for f_open of FatFs: the size of the file of that name, where it can be opened.
-- `read_file` stands for f_read: the number of bytes read to the buffer, with the memory.
module _ (open_file : ℕ → Memory → Option ℕ) (read_file : ℕ → ℕ → Memory → Option (ℕ × Memory))
    (so_load_buf : ℕ) where
  abbrev pub so_read : ℕ → ℕ → Memory → Option (ℕ × Memory) → SoLoaded
  so_read fuel fsize mem none = so_failed mem
  so_read fuel fsize mem (some (br, mem')) =
      if not (br == fsize) then so_failed mem' else link_so fuel so_load_buf fsize mem'

  abbrev pub so_opened : ℕ → ℕ → Memory → Option ℕ → SoLoaded
  so_opened fuel name mem none = so_failed mem
  so_opened fuel name mem (some fsize) =
      if ltb so_buf_size fsize
      then so_failed mem
      else so_read fuel fsize mem (read_file name fsize mem)

  -- load_so_file
  unfoldable pub load_so_file : ℕ → ℕ → Memory → SoLoaded
  unfolding link_so
  load_so_file fuel so_name mem = so_opened fuel so_name mem (open_file so_name mem)

-- The first PT_DYNAMIC segment, as the address of its entries.
unfoldable pub first_dynamic : ℕ → ℕ → ℕ → Memory → Option ℕ
first_dynamic zero elf i mem = none
first_dynamic (suc left) elf i mem =
    let s = ph (headers elf mem) i mem in
    elim (ltb i (e_phnum elf mem)) [
      | true ↦ elim (s.p_type == pt_dynamic) [
        | true ↦ some ((elf + s.p_offset) % word)
        | false ↦ first_dynamic left elf (i + 1) mem
      ]
      | false ↦ none
    ]

-- The result of the loop over DT_NEEDED: the information on the last library.
pub data Needed : Type 0 where
  needed : Option DynLinkInfo → Memory → Needed
  need_failed : Memory → Needed
  need_address_error : Needed
  need_endless : Needed

-- `so_loader` stands for load_so_file, or for the function that load_elf_dynamic is given.
module _ (so_loader : ℕ → Memory → SoLoaded) where
  -- The loop over the entries at `dyn`.
  unfoldable pub load_needed : ℕ → ℕ → DynLinkInfo → Option DynLinkInfo → Memory → Needed
  load_needed zero dyn main_info so mem = need_endless
  load_needed (suc fuel) dyn main_info so mem = elim (word_at mem dyn == 0) [
    | true ↦ needed so mem
    | false ↦ elim (word_at mem dyn == 1) [
      | false ↦ load_needed fuel (dyn + 8) main_info so mem
      | true ↦ elim (so_loader ((main_info.strtab + word_at mem (dyn + 4)) % word) mem) [
        | so_base base info mem' ↦
            if base == 0
            then need_failed mem'
            else load_needed fuel (dyn + 8) main_info (some info) mem'
        | so_failed mem' ↦ need_failed mem'
        | so_address_error ↦ need_address_error
        | so_endless ↦ need_endless
      ]
    ]
  ]

  abbrev pub load_dynamic : ℕ → DynLinkInfo → Memory → Option ℕ → Needed
  load_dynamic fuel main_info mem none = needed none mem
  load_dynamic fuel main_info mem (some dyn) = load_needed fuel dyn main_info none mem

  abbrev pub link_needed : ℕ → DynLinkInfo → Needed → Loaded
  link_needed fuel main_info (needed so mem) = fill_got_table fuel main_info so mem
  link_needed fuel main_info (need_failed mem) = failed mem
  link_needed fuel main_info need_address_error = address_error
  link_needed fuel main_info need_endless = out_of_fuel

  -- The dynamic part of both loaders.
  unfoldable pub link_parsed : ℕ → ℕ → Memory → Parsed → Loaded
  unfolding load_needed first_dynamic fill_got_table
  link_parsed fuel elf mem (parsed info) =
      link_needed fuel info (load_dynamic fuel info mem (first_dynamic 65536 elf 0 mem))
  link_parsed fuel elf mem invalid = failed mem
  link_parsed fuel elf mem endless = out_of_fuel

  abbrev pub link_loaded : ℕ → ℕ → ℕ → Loaded → Loaded
  link_loaded fuel elf elf_size (loaded mem) =
      link_parsed fuel elf mem (parse_dynamic_section fuel elf elf_size mem)
  link_loaded fuel elf elf_size (failed mem) = failed mem
  link_loaded fuel elf elf_size address_error = address_error
  link_loaded fuel elf elf_size out_of_fuel = out_of_fuel

  -- load_elf_dynamic, with a function for the libraries.
  unfoldable pub load_elf_dynamic : ℕ → ℕ → ℕ → Memory → Loaded
  unfolding load_elf link_parsed parse_dynamic_section
  load_elf_dynamic fuel elf elf_size mem = link_loaded fuel elf elf_size (load_elf elf elf_size mem)

  -- The loop of load_elf_sd over the segments: it returns -1 at one that reaches past the file.
  unfoldable pub load_sd_segments : ℕ → ℕ → ℕ → ℕ → ℕ → Memory → Loaded
  unfolding load_segment
  load_sd_segments zero elf elf_size p i mem = loaded mem
  load_sd_segments (suc left) elf elf_size p i mem =
      let s = ph p i mem in
      let past = not (s.p_filesz == 0) && ltb elf_size ((s.p_offset + s.p_filesz) % word) in
      elim (ltb i (e_phnum elf mem)) [
        | false ↦ loaded mem
        | true ↦ elim (aligned p && (is_loaded s && past)) [
          | true ↦ failed mem
          | false ↦ elim (segment_traps elf p i mem) [
            | true ↦ address_error
            | false ↦ load_sd_segments left elf elf_size p (i + 1) (load_segment elf p i mem)
          ]
        ]
      ]

  abbrev pub sd_loaded : ℕ → ℕ → ℕ → Loaded → Loaded
  sd_loaded fuel elf elf_size (loaded mem) =
      if not (elf_needs_dynlink elf elf_size mem)
      then loaded mem
      else link_parsed fuel elf mem (parse_dynamic_section fuel elf elf_size mem)
  sd_loaded fuel elf elf_size (failed mem) = failed mem
  sd_loaded fuel elf elf_size address_error = address_error
  sd_loaded fuel elf elf_size out_of_fuel = out_of_fuel

  -- load_elf_sd
  unfoldable pub load_elf_sd : ℕ → ℕ → ℕ → Memory → Loaded
  unfolding load_sd_segments link_parsed parse_dynamic_section elf_needs_dynlink
  load_elf_sd fuel elf elf_size mem =
      checked elf elf_size mem
        (sd_loaded fuel elf elf_size (load_sd_segments 65536 elf elf_size (headers elf mem) 0 mem))
