-- ===== src/Pmap/Boot/Alloc.antt =====
-- The allocator of mm/pmap.c that only moves `freemem`.
use cse_os.Base.{ℕ, ◌+◌, ◌-◌, ◌%◌, ◌≤◌, ◌<◌, ◌≡◌, refl, true, false, arith, leb, ltb}
use cse_os.Mmu.{word, by2pg, ulim}
use cse_os.Mm.{Mm, ok, paddr, zeroed}
use cse_os.Pmap.Boot.{alloc, check_memory, start, round_to}

-- With room for the request below the end of memory, alloc of a page-aligned block hands out `n`
-- bytes at the first page boundary from freemem on, moves freemem past them, clears them and leaves
-- every other byte as it is.
pub alloc_lem :
    (end n : ℕ) (m : Mm)
    → ulim ≤ start end m
    → start end m + by2pg + n ≤ m.maxpa + ulim
    → m.maxpa ≤ ulim
    → 0 < n
    → let a = round_to (start end m) by2pg in
      (a % by2pg ≡ 0)
      × (start end m ≤ a)
      × (alloc end n by2pg true m ≡ ok a (record m { freemem = a + n; mem = zeroed m.mem a n }))
unfolding alloc check_memory paddr
alloc_lem end n m lo room top pos =
    let a = round_to (start end m) by2pg in
    let h : a < start end m + by2pg = omega arith in
    let g : start end m ≤ a = omega arith in
    let w : (a + n) % word ≡ a + n = omega arith in
    let p : ltb (a + n) ulim ≡ false = ground arith in
    let q : leb m.maxpa (a + n - ulim) ≡ false = ground arith in (omega arith, g, rw (w, p, q) refl)
