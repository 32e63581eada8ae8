-- ===== src/Pmap/Boot/Arrays.antt =====
-- A step of vm_init in mm/pmap.c: an array that is handed out and mapped for user programs.
use cse_os.Base.{
  ℕ, suc, ◌+◌, ◌-◌, ◌*◌, ◌%◌, ◌≤◌, ◌<◌, ◌≡◌, refl, ap, ◌∙◌, true, false, ◌&&◌, arith, leb, ltb,
  ◌==◌,
}
use cse_os.Mmu.{word, by2pg, ulim, pdx, ptx, pte_r}
use cse_os.Mm.{Mm, ok, and_then, paddr, zeroed}
use cse_os.Pmap.Boot.{alloc, boot_map_segment, map_array, start, round_to}
use cse_os.Pmap.Boot.Alloc.{alloc_lem}
use cse_os.Pmap.Boot.Segment.{
  entry, entries, entries-at, entries-outside, table_entry, with_table, Room,
  boot_map_segment-absent,
}

pub round_to-place :
    (x : ℕ)
    → x + by2pg < word
    → (x ≤ round_to x by2pg) × (round_to x by2pg < x + by2pg) × (round_to x by2pg % by2pg ≡ 0)
round_to-place x h =
    let w : (x + by2pg - 1) % word ≡ x + by2pg - 1 = omega arith in
    (omega (arith, w), omega (arith, w), omega (arith, w))

-- What a step of vm_init does: the array `a` and a table `t` behind it are handed out, the table maps
-- the pages of the array and has no other entry, and below them only the directory's entry for `va` changes.
pub record Mapped (end pgdir va size count : ℕ) (m : Mm) (a t : ℕ) (m' : Mm) : Type 0 where
  pub first : start end m ≤ a
  pub second : a + size ≤ t
  pub close : t < a + size + by2pg
  pub near : a < start end m + by2pg
  pub page : a % by2pg ≡ 0
  pub free : m'.freemem ≡ t + by2pg
  pub same_npage : m'.npage ≡ m.npage
  pub same_maxpa : m'.maxpa ≡ m.maxpa
  pub slot : m'.mem (pgdir + 4 * pdx va) ≡ table_entry t
  pub maps :
      (k : ℕ) → k < suc count → m'.mem (t + 4 * ptx va + 4 * k) ≡ entry (a - ulim + by2pg * k) pte_r
  pub rest :
      (j : ℕ)
      → j < 1024
      → (leb (ptx va) j && ltb j (ptx va + suc count)) ≡ false
      → m'.mem (t + 4 * j) ≡ 0
  pub kept : (b : ℕ) → b < start end m → (b == pgdir + 4 * pdx va) ≡ false → m'.mem b ≡ m.mem b

module _ (end pgdir va size count : ℕ) (m : Mm) (above : ulim ≤ start end m)
    (below : start end m + size + 3 * by2pg ≤ m.maxpa + ulim) (top : m.maxpa ≤ ulim)
    (counted : m.maxpa ≤ by2pg * m.npage) (some_bytes : 0 < size)
    (whole : round_to size by2pg ≡ by2pg * suc count) (small : va < word)
    (none : m.mem (pgdir + 4 * pdx va) ≡ 0) (before : pgdir + by2pg ≤ start end m)
    (fits : ptx va + suc count ≤ 1024) where
  array : ℕ
  array = round_to (start end m) by2pg

  allotted : Mm
  unfolding array
  allotted = record m { freemem = array + size; mem = zeroed m.mem array size }

  table : ℕ
  unfolding allotted
  table = round_to (start end allotted) by2pg

  array-place : (start end m ≤ array) × (array < start end m + by2pg) × (array % by2pg ≡ 0)
  unfolding array
  array-place = round_to-place (start end m) (omega arith)

  start-allotted : start end allotted ≡ array + size
  unfolding allotted
  start-allotted = let z : (array + size == 0) ≡ false = ground (arith, some_bytes) in rw z refl

  table-place : (array + size ≤ table) × (table < array + size + by2pg)
  unfolding table
  table-place =
      let e = start-allotted in
      let (lo, hi, _) = array-place in
      let (lo', hi', _) = round_to-place (start end allotted) (omega (arith, e, hi)) in
      (omega (arith, e, lo'), omega (arith, e, hi'))

  mapped : Mm
  unfolding allotted table
  mapped = record allotted {
    freemem = table + by2pg;
    mem =
        entries (suc count) (table + 4 * ptx va) (array - ulim) pte_r
          (with_table pgdir va table allotted.mem);
  }

  alloc-ok : alloc end size by2pg true m ≡ ok array allotted
  unfolding array allotted
  alloc-ok = (alloc_lem end size m above (omega arith) top some_bytes).2

  segment-ok :
      boot_map_segment end pgdir va (round_to size by2pg) (array - ulim) pte_r allotted
      ≡ ok tt mapped
  unfolding mapped table allotted
  segment-ok =
      let (lo, hi, page) = array-place in
      let e = start-allotted in
      let room : Room end by2pg allotted = record {
        above = omega (arith, e, lo);
        below = omega (arith, e, hi);
        top = top;
        counted = counted;
      } in
      let slot : (leb array (pgdir + 4 * pdx va) && ltb (pgdir + 4 * pdx va) (array + size))
          ≡ false =
        ground (arith, lo) in
      boot_map_segment-absent end pgdir allotted room count (round_to size by2pg) va (array - ulim)
        pte_r whole small (rw slot none) (omega (arith, e, lo)) fits

  map_array-ok : map_array end pgdir va size m ≡ ok array mapped
  unfolding map_array paddr
  map_array-ok =
      let (lo, hi, page) = array-place in
      let in_kernel : ltb array ulim ≡ false = ground (arith, lo) in
      rw (alloc-ok, in_kernel) (ap (λ o. and_then o (λ _. ok array)) segment-ok)

  mapped-Mapped : Mapped end pgdir va size count m array table mapped
  unfolding mapped allotted
  mapped-Mapped =
      let (lo, hi, page) = array-place in
      let (lo', hi') = table-place in
      let a = table + 4 * ptx va in
      let pa = array - ulim in
      let tabled = with_table pgdir va table allotted.mem in
      record {
        first = lo;
        second = lo';
        close = hi';
        near = hi;
        page = page;
        free = refl;
        same_npage = refl;
        same_maxpa = refl;
        slot =
            let out : (leb a (pgdir + 4 * pdx va) && ltb (pgdir + 4 * pdx va) (a + 4 * suc count))
                ≡ false =
              ground (arith, lo, lo') in
            let here : (pgdir + 4 * pdx va == pgdir + 4 * pdx va) ≡ true = ground arith in
            entries-outside (suc count) a pa pte_r (pgdir + 4 * pdx va) tabled out ∙ rw here refl;
        maps = λ k h. entries-at (suc count) a pa pte_r k tabled h (fits-below lo hi);
        rest = λ j h o.
            let out : (leb a (table + 4 * j) && ltb (table + 4 * j) (a + 4 * suc count)) ≡ false =
              ground (arith, o) in
            let ne : (table + 4 * j == pgdir + 4 * pdx va) ≡ false = ground (arith, lo, lo') in
            let i : (leb table (table + 4 * j) && ltb (table + 4 * j) (table + by2pg)) ≡ true =
              ground (arith, h) in
            entries-outside (suc count) a pa pte_r (table + 4 * j) tabled out ∙ rw (ne, i) refl;
        kept = λ b h ne.
            let out : (leb a b && ltb b (a + 4 * suc count)) ≡ false = ground (arith, lo, lo', h) in
            let o₂ : (leb table b && ltb b (table + by2pg)) ≡ false = ground (arith, lo, lo', h) in
            let o₁ : (leb array b && ltb b (array + size)) ≡ false = ground (arith, lo, h) in
            entries-outside (suc count) a pa pte_r b tabled out ∙ rw (ne, o₂, o₁) refl;
      }
    where
      fits-below :
          start end m ≤ array
          → array < start end m + by2pg
          → array - ulim + by2pg * suc count ≤ word
      fits-below lo hi = omega (arith, whole, above, below, top)

pub map_array-Mapped :
    (end pgdir va size count : ℕ) (m : Mm)
    → ulim ≤ start end m
    → start end m + size + 3 * by2pg ≤ m.maxpa + ulim
    → m.maxpa ≤ ulim
    → m.maxpa ≤ by2pg * m.npage
    → 0 < size
    → round_to size by2pg ≡ by2pg * suc count
    → va < word
    → m.mem (pgdir + 4 * pdx va) ≡ 0
    → pgdir + by2pg ≤ start end m
    → ptx va + suc count ≤ 1024
    → (a : ℕ) × (t : ℕ) × (m' : Mm) × (map_array end pgdir va size m ≡ ok a m')
      × Mapped end pgdir va size count m a t m'
map_array-Mapped end pgdir va size count m above below top counted pos whole small none before
      fits =
    (
      _,
      _,
      _,
      map_array-ok end pgdir va size count m above below top counted pos whole small none before
          fits,
      mapped-Mapped end pgdir va size count m above below top counted pos whole small none before
          fits,
    )
