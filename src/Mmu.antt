-- ===== src/Mmu.antt =====
-- inc/mmu.h: the constants and macros on 32-bit addresses and page table entries.
-- A word is a number below 2 ^ 32. A mask of high bits, `x & ~0xFFF`, is `x - x % 4096`; a field,
-- `(x >> 22) & 0x3FF`, is a quotient and a remainder.
use cse_os.Base.{ℕ, ◌+◌, ◌-◌, ◌*◌, ◌/◌, ◌%◌, ◌^◌, Bool, ◌==◌}

abbrev pub word : ℕ
word = 2 ^ 32

-- Bytes to a page.
abbrev pub by2pg : ℕ
by2pg = 4096

-- Entries of a page table.
abbrev pub pte2pt : ℕ
pte2pt = 1024

abbrev pub pte_v : ℕ
pte_v = 0x200

abbrev pub pte_r : ℕ
pte_r = 0x400

abbrev pub pte_cow : ℕ
pte_cow = 1

abbrev pub ulim : ℕ
ulim = 0x8000_0000

abbrev pub pdmap : ℕ
pdmap = 4 * 1024 * 1024

abbrev pub vpt : ℕ
vpt = ulim + pdmap

abbrev pub uvpt : ℕ
uvpt = ulim - pdmap

abbrev pub upages : ℕ
upages = uvpt - pdmap

abbrev pub uenvs : ℕ
uenvs = upages - pdmap

abbrev pub utop : ℕ
utop = uenvs - pdmap

abbrev pub ustacktop : ℕ
ustacktop = utop - 2 * by2pg

abbrev pub pdx : ℕ → ℕ
pdx va = va / 2 ^ 22 % 1024

abbrev pub ptx : ℕ → ℕ
ptx va = va / 2 ^ 12 % 1024

abbrev pub pte_addr : ℕ → ℕ
pte_addr pte = pte - pte % 4096

abbrev pub ppn : ℕ → ℕ
ppn pa = pa / 4096

abbrev pub va2pfn : ℕ → ℕ
va2pfn va = va - va % 4096

-- `entry & PTE_V`, as a test.
abbrev pub is_valid : ℕ → Bool
is_valid pte = pte / pte_v % 2 == 1

-- ROUND(a, BY2PG) of inc/types.h: up to the next page, modulo 2 ^ 32.
unfoldable pub round_page : ℕ → ℕ
round_page a = let x = (a + by2pg - 1) % word in x - x % by2pg
