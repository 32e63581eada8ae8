-- ===== src/Elf/Static.antt =====
-- load_elf_sd of fs/elf.c against load_elf, for a program that is linked already.
use cse_os.Base.{ℕ, ◌+◌, ◌%◌, ◌<◌, ◌≢◌, Bool, not, ◌&&◌, ltb, ◌==◌}
use cse_os.Mmu.{word}
use cse_os.Elf.{Memory, e_phnum, Segment}
use cse_os.Elf.Segments.{header}

-- `ph[i].p_filesz && ph[i].p_offset + ph[i].p_filesz > elf_size`
abbrev past : ℕ → Segment → Bool
past size s = not (s.p_filesz == 0) && ltb size ((s.p_offset + s.p_filesz) % word)

-- No header of the file asks for an interpreter (3) or a dynamic section (2).
abbrev pub IsLinked : ℕ → Memory → Type 0
IsLinked elf file =
    (i : ℕ)
    → i < e_phnum elf file
    → ((header elf i file).p_type ≢ 3) × ((header elf i file).p_type ≢ 2)
