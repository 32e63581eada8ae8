-- ===== src/Elf.antt =====
-- fs/elf.c: the loader of programs. Memory is a function from virtual addresses, as the environment
-- that is loaded sees them, to bytes; the file stands in it at `elf`. Words are little-endian, and
-- no object reaches past the end of the address space. A word at an address that is not a multiple of
-- 4 gives an address error of the processor, which the loaders of segments return as an outcome. What
-- is printed is left out.
pub mod Copy
pub mod Dynamic
pub mod Shared
pub mod Static
pub mod Segments
pub mod Turn
pub mod Load
pub mod Symbols
mod Tests
use cse_os.Base.{
  ℕ, zero, suc, ◌+◌, ◌-◌, ◌*◌, ◌/◌, ◌%◌, Bool, true, false, not, ◌&&◌, ◌||◌, ltb, ◌==◌,
  if◌then◌else◌, update,
}
use cse_os.Mmu.{word}

abbrev pub Memory : Type 0
Memory = ℕ → ℕ

abbrev pub half_at : Memory → ℕ → ℕ
half_at mem a = mem a + 256 * mem (a + 1)

abbrev pub word_at : Memory → ℕ → ℕ
word_at mem a = half_at mem a + 65536 * half_at mem (a + 2)

abbrev pub write_word : ℕ → ℕ → Memory → Memory
write_word a w mem =
    update
      (update (update (update mem a (w % 256)) (a + 1) (w / 256 % 256)) (a + 2) (w / 65536 % 256))
      (a + 3) (w / 16777216 % 256)

-- The loop of memSet.
unfoldable pub fill_bytes : ℕ → ℕ → ℕ → Memory → Memory
fill_bytes zero s c mem = mem
fill_bytes (suc n) s c mem = fill_bytes n (s + 1) c (update mem s (c % 256))

-- memSet; its result is not used.
unfoldable pub mem_set : ℕ → ℕ → ℕ → Memory → Memory
unfolding fill_bytes
mem_set s c n mem = if s == 0 then mem else fill_bytes n s c mem

-- One turn of the first loop of memCpy: the four bytes of a word are read, then written.
abbrev pub copy_word : ℕ → ℕ → Memory → Memory
copy_word dst src mem =
    update
      (update (update (update mem dst (mem src)) (dst + 1) (mem (src + 1))) (dst + 2)
        (mem (src + 2)))
      (dst + 3) (mem (src + 3))

unfoldable pub copy_words : ℕ → ℕ → ℕ → Memory → Memory
copy_words zero dst src mem = mem
copy_words (suc n) dst src mem = copy_words n (dst + 4) (src + 4) (copy_word dst src mem)

-- The second loop of memCpy.
unfoldable pub copy_bytes : ℕ → ℕ → ℕ → Memory → Memory
copy_bytes zero dst src mem = mem
copy_bytes (suc n) dst src mem = copy_bytes n (dst + 1) (src + 1) (update mem dst (mem src))

-- memCpy; its result is not used.
unfoldable pub mem_cpy : ℕ → ℕ → ℕ → Memory → Memory
unfolding copy_words copy_bytes
mem_cpy dst src n mem =
    if (dst == 0) || (src == 0)
    then mem
    else copy_bytes (n % 4) (dst + n / 4 * 4) (src + n / 4 * 4) (copy_words (n / 4) dst src mem)

abbrev pub aligned : ℕ → Bool
aligned a = a % 4 == 0

-- Whether the first loop of memCpy makes an address error.
abbrev pub copy_traps : ℕ → ℕ → ℕ → Bool
copy_traps dst src n =
    not ((dst == 0) || (src == 0)) && (not (n / 4 == 0) && not (aligned dst && aligned src))

-- The size of `Elf32_Ehdr` and of `Elf32_Phdr`.
abbrev pub ehdr_size : ℕ
ehdr_size = 52

abbrev pub phdr_size : ℕ
phdr_size = 32

-- The fields of `Elf32_Ehdr`.
abbrev pub e_entry : ℕ → Memory → ℕ
e_entry elf mem = word_at mem (elf + 24)

abbrev pub e_phoff : ℕ → Memory → ℕ
e_phoff elf mem = word_at mem (elf + 28)

abbrev pub e_phnum : ℕ → Memory → ℕ
e_phnum elf mem = half_at mem (elf + 44)

abbrev pub is_elf32 : ℕ → Memory → Bool
is_elf32 elf mem =
    (mem elf == 0x7f)
    && ((mem (elf + 1) == 69)
        && ((mem (elf + 2) == 76) && ((mem (elf + 3) == 70) && (mem (elf + 4) == 1))))

-- The fields of `Elf32_Phdr` that are used; `ph` is the address of a program header.
pub record Segment : Type 0 where
  pub p_type : ℕ
  pub p_offset : ℕ
  pub p_vaddr : ℕ
  pub p_filesz : ℕ
  pub p_memsz : ℕ

abbrev pub segment_at : Memory → ℕ → Segment
segment_at mem ph = record {
  p_type = word_at mem ph;
  p_offset = word_at mem (ph + 4);
  p_vaddr = word_at mem (ph + 8);
  p_filesz = word_at mem (ph + 16);
  p_memsz = word_at mem (ph + 20);
}

-- The address `ph` of the program headers of the file at `elf`.
abbrev pub headers : ℕ → Memory → ℕ
headers elf mem = (elf + e_phoff elf mem) % word

-- `ph[i]`
abbrev pub ph : ℕ → ℕ → Memory → Segment
ph p i mem = segment_at mem (p + i * phdr_size)

abbrev pub pt_load : ℕ
pt_load = 1

abbrev pub pt_dynamic : ℕ
pt_dynamic = 2

abbrev pub pt_interp : ℕ
pt_interp = 3

-- The copy of the data of a segment to `addr`, and the zeros after it.
unfoldable pub load_data : ℕ → ℕ → Segment → Memory → Memory
unfolding mem_cpy
load_data elf addr s mem =
    if s.p_filesz == 0 then mem else mem_cpy addr ((elf + s.p_offset) % word) s.p_filesz mem

unfoldable pub load_zeros : ℕ → Segment → Memory → Memory
unfolding mem_set
load_zeros addr s mem =
    if ltb s.p_filesz s.p_memsz
    then mem_set ((addr + s.p_filesz) % word) 0 (s.p_memsz - s.p_filesz) mem
    else mem

-- `p_type == PT_LOAD && p_memsz`
abbrev pub is_loaded : Segment → Bool
is_loaded s = (s.p_type == pt_load) && not (s.p_memsz == 0)

-- The loop body of load_elf for `ph[i]`; the header is read again after memCpy.
unfoldable pub load_segment : ℕ → ℕ → ℕ → Memory → Memory
unfolding load_data load_zeros
load_segment elf p i mem =
    let s = ph p i mem in
    let mem' = load_data elf s.p_vaddr s mem in
    if is_loaded s then load_zeros (ph p i mem').p_vaddr (ph p i mem') mem' else mem

-- Whether the copy of the data of a segment to `addr` makes an address error.
abbrev pub data_traps : ℕ → ℕ → Segment → Bool
data_traps elf addr s =
    not (s.p_filesz == 0) && copy_traps addr ((elf + s.p_offset) % word) s.p_filesz

-- Whether the loop body of load_elf makes an address error.
abbrev pub segment_traps : ℕ → ℕ → ℕ → Memory → Bool
segment_traps elf p i mem =
    let s = ph p i mem in not (aligned p) || (is_loaded s && data_traps elf s.p_vaddr s)

-- The result of a loader, 0 or -1, with the memory afterwards, an address error, or no fuel for a
-- search.
pub data Loaded : Type 0 where
  loaded : Memory → Loaded
  failed : Memory → Loaded
  address_error : Loaded
  out_of_fuel : Loaded

-- The loop of load_elf. The number of headers is read before each turn, and has 16 bits.
unfoldable pub load_segments : ℕ → ℕ → ℕ → ℕ → Memory → Loaded
unfolding load_segment
load_segments zero elf p i mem = loaded mem
load_segments (suc left) elf p i mem = elim (ltb i (e_phnum elf mem)) [
  | true ↦ elim (segment_traps elf p i mem) [
    | true ↦ address_error
    | false ↦ load_segments left elf p (i + 1) (load_segment elf p i mem)
  ]
  | false ↦ loaded mem
]

-- The checks before the loop, and what comes after them.
abbrev pub checked : ℕ → ℕ → Memory → Loaded → Loaded
checked elf elf_size mem next =
    if ltb elf_size ehdr_size || not (is_elf32 elf mem)
    then failed mem
    else if not (aligned elf)
    then address_error
    else if ltb elf_size ((e_phoff elf mem + e_phnum elf mem * phdr_size) % word)
    then failed mem
    else next

-- load_elf
unfoldable pub load_elf : ℕ → ℕ → Memory → Loaded
unfolding load_segments
load_elf elf elf_size mem =
    checked elf elf_size mem (load_segments 65536 elf (headers elf mem) 0 mem)

-- get_entry
unfoldable pub get_entry : ℕ → Memory → ℕ
get_entry elf mem = e_entry elf mem
