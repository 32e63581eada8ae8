-- ===== src/Pmap/Boot/Segment.antt =====
-- boot_map_segment of mm/pmap.c on a segment inside the range of one page table.
use cse_os.Base.{
  ℕ, zero, suc, ◌+◌, ◌-◌, ◌*◌, ◌/◌, ◌%◌, ◌≤◌, ◌<◌, ◌≡◌, refl, ap, ◌∙◌, sym, some, true, false, ◌&&◌,
  arith, leb, ltb, ◌==◌, update, bit_or,
}
use cse_os.Base.Bits.{or_valid, or_valid_left, or-page}
use cse_os.Mmu.{word, by2pg, ulim, pdx, ptx, pte_addr, pte_v, pte_r, is_valid, ppn}
use cse_os.Mm.{Mm, ok, paddr, kaddr, zeroed}
use cse_os.Pmap.Boot.{
  boot_table, boot_pgdir_walk, write_entry, map_pages, boot_map_segment, start, round_to,
}
use cse_os.Pmap.Boot.Alloc.{alloc_lem}

-- The entry of a page of the kernel.
abbrev pub entry : ℕ → ℕ → ℕ
entry pa perm = bit_or (bit_or pa perm) pte_v

-- `count` entries from the address `a` on, for the pages from `pa` on.
abbrev pub entries : ℕ → ℕ → ℕ → ℕ → (ℕ → ℕ) → ℕ → ℕ
entries zero a pa perm mem = mem
entries (suc count) a pa perm mem =
    entries count (a + 4) ((pa + by2pg) % word) perm (update mem a (entry pa perm))

entries-below :
    (count a pa perm b : ℕ) (mem : ℕ → ℕ) → b < a → entries count a pa perm mem b ≡ mem b
entries-below zero a pa perm b mem h = refl
entries-below (suc count) a pa perm b mem h =
    let miss : (b == a) ≡ false = ground arith in
    entries-below count (a + 4) ((pa + by2pg) % word) perm b (update mem a (entry pa perm))
      (omega arith)
    ∙ rw miss refl

pub entries-outside :
    (count a pa perm b : ℕ) (mem : ℕ → ℕ)
    → ((leb a b && ltb b (a + 4 * count)) ≡ false)
    → entries count a pa perm mem b ≡ mem b
entries-outside zero a pa perm b mem h = refl
entries-outside (suc count) a pa perm b mem h =
    let miss : (b == a) ≡ false = ground (arith, h) in
    entries-outside count (a + 4) ((pa + by2pg) % word) perm b (update mem a (entry pa perm))
      (ground (arith, h))
    ∙ rw miss refl

pub entries-at :
    (count a pa perm k : ℕ) (mem : ℕ → ℕ)
    → k < count
    → pa + by2pg * count ≤ word
    → entries count a pa perm mem (a + 4 * k) ≡ entry (pa + by2pg * k) perm
entries-at zero a pa perm k mem h fits = absurd (omega arith)
entries-at (suc count) a pa perm zero mem h fits =
    let here : (a + 4 * 0 == a) ≡ true = ground arith in
    let z : pa ≡ pa + by2pg * 0 = omega arith in
    let out : (leb (a + 4) (a + 4 * 0) && ltb (a + 4 * 0) (a + 4 + 4 * count)) ≡ false =
      ground arith in
    entries-outside count (a + 4) ((pa + by2pg) % word) perm (a + 4 * 0)
      (update mem a (entry pa perm)) out
    ∙ rw here (ap (λ p. entry p perm) z)
entries-at (suc zero) a pa perm (suc k) mem h fits = absurd (omega arith)
entries-at (suc (suc count)) a pa perm (suc k) mem h fits =
    let e : a + 4 * suc k ≡ a + 4 + 4 * k = omega arith in
    let w : (pa + by2pg) % word ≡ pa + by2pg = omega arith in
    let m = update mem a (entry pa perm) in
    let s : pa + by2pg + by2pg * k ≡ pa + by2pg * suc k = omega arith in
    ap (entries (suc count) (a + 4) ((pa + by2pg) % word) perm m) e
    ∙ ap (λ p. entries (suc count) (a + 4) p perm m (a + 4 + 4 * k)) w
    ∙ entries-at (suc count) (a + 4) (pa + by2pg) perm k m (omega arith) (omega arith)
    ∙ ap (λ p. entry p perm) s

module _ (end pgdir : ℕ) where
  -- The table for `va` is there.
  walk-present :
      (va : ℕ) (m : Mm) (pde table : ℕ)
      → m.mem (pgdir + 4 * pdx va) ≡ pde
      → is_valid pde ≡ true
      → leb m.npage (ppn (pte_addr pde)) ≡ false
      → (pte_addr pde + ulim) % word ≡ table
      → boot_pgdir_walk end pgdir va true m ≡ ok (some (table + 4 * ptx va)) m
  unfolding boot_pgdir_walk kaddr
  walk-present va m pde table at valid known is_table = rw (at, known, valid, is_table) refl

  next_page :
      (va count : ℕ)
      → va < word
      → ptx va + suc (suc count) ≤ 1024
      → (pdx ((va + by2pg) % word) ≡ pdx va) × (ptx ((va + by2pg) % word) ≡ ptx va + 1)
  next_page va count small room = (omega arith, omega arith)

  map_pages-turn :
      (count va pa perm : ℕ) (m n : Mm) (a : ℕ)
      → boot_pgdir_walk end pgdir va true m ≡ ok (some a) n
      → map_pages end (suc count) pgdir va pa perm m
        ≡ map_pages end count pgdir
            ((va + by2pg) % word)
            ((pa + by2pg) % word)
            perm
            (record n { mem = update n.mem a (entry pa perm) })
  unfolding map_pages write_entry
  map_pages-turn count va pa perm m n a w = rw (map_pages, w) refl

  map_pages-present :
      (count va pa perm : ℕ) (m : Mm) (pde table : ℕ)
      → va < word
      → m.mem (pgdir + 4 * pdx va) ≡ pde
      → is_valid pde ≡ true
      → leb m.npage (ppn (pte_addr pde)) ≡ false
      → (pte_addr pde + ulim) % word ≡ table
      → ((k : ℕ) → k < 1024 → (pgdir + 4 * pdx va == table + 4 * k) ≡ false)
      → ptx va + count ≤ 1024
      → map_pages end count pgdir va pa perm m
        ≡ ok tt (record m { mem = entries count (table + 4 * ptx va) pa perm m.mem })
  unfolding map_pages
  map_pages-present zero va pa perm m pde table small at valid known is_table apart room = refl
  map_pages-present (suc zero) va pa perm m pde table small at valid known is_table apart room =
      map_pages-turn 0 va pa perm m m (table + 4 * ptx va)
        (walk-present va m pde table at valid known is_table)
  map_pages-present (suc (suc count)) va pa perm m pde table small at valid known is_table apart
        room =
      let (same, after) = next_page va count small room in
      let va' = (va + by2pg) % word in
      let pa' = (pa + by2pg) % word in
      let a = table + 4 * ptx va in
      let n = record m { mem = update m.mem a (entry pa perm) } in
      let at' : n.mem (pgdir + 4 * pdx va') ≡ pde =
        ap (λ i. n.mem (pgdir + 4 * i)) same ∙ rw (apart (ptx va) (omega arith)) at in
      let there : table + 4 * ptx va' ≡ a + 4 = omega (arith, after) in
      map_pages-turn (suc count) va pa perm m m a
        (walk-present va m pde table at valid known is_table)
      ∙ map_pages-present (suc count) va' pa' perm n pde table (omega arith) at' valid known
          is_table (λ k h. ap (λ i. pgdir + 4 * i == table + 4 * k) same ∙ apart k h)
          (omega (arith, after))
      ∙ ap (λ b. ok tt (record m { mem = entries (suc count) b pa' perm n.mem })) there

-- The entry of the page directory for the table at `table`.
abbrev pub table_entry : ℕ → ℕ
table_entry table = bit_or (bit_or (table - ulim) pte_v) pte_r

table_entry_fields :
    (table : ℕ)
    → ulim ≤ table
    → table < word
    → table % 4096 ≡ 0
    → (is_valid (table_entry table) ≡ true) × (pte_addr (table_entry table) ≡ table - ulim)
table_entry_fields table lo hi page =
    let a = table - ulim in
    let v = or_valid_left (bit_or a pte_v) pte_r (or_valid a) in
    let p : table_entry table / 4096 ≡ a / 4096 =
      omega (arith, or-page (bit_or a pte_v) pte_r (omega arith), or-page a pte_v (omega arith)) in
    (ground (arith, v), omega (arith, p))

-- The memory with an empty table at `table`, entered in the directory for `va`.
abbrev pub with_table : ℕ → ℕ → ℕ → (ℕ → ℕ) → ℕ → ℕ
with_table pgdir va table mem =
    update (zeroed mem table by2pg) (pgdir + 4 * pdx va) (table_entry table)

-- What is needed to hand out `n` bytes.
pub record Room (end n : ℕ) (m : Mm) : Type 0 where
  pub above : ulim ≤ start end m
  pub below : start end m + by2pg + n ≤ m.maxpa + ulim
  pub top : m.maxpa ≤ ulim
  pub counted : m.maxpa ≤ by2pg * m.npage

module _ (end pgdir : ℕ) (m : Mm) (r : Room end by2pg m) where
  boot_table-ok :
      (va : ℕ)
      → let table = round_to (start end m) by2pg in
        boot_table end pgdir va m
        ≡ ok
            (some (table + 4 * ptx va))
            (record m { freemem = table + by2pg; mem = with_table pgdir va table m.mem })
  unfolding boot_table paddr
  boot_table-ok va =
      let (page, lo, al) = alloc_lem end by2pg m r.above r.below r.top (omega arith) in
      let in_kernel : ltb (round_to (start end m) by2pg) ulim ≡ false =
        ground (arith, lo, r.above) in
      rw (al, in_kernel) refl

  walk-absent :
      (va : ℕ)
      → m.mem (pgdir + 4 * pdx va) ≡ 0
      → boot_pgdir_walk end pgdir va true m ≡ boot_table end pgdir va m
  unfolding boot_pgdir_walk kaddr
  walk-absent va none =
      let known : leb m.npage 0 ≡ false = ground (arith, r.counted, r.above, r.below) in
      rw (none, known) refl

  -- The state with the new table.
  tabled : ℕ → Mm
  tabled va =
      let table = round_to (start end m) by2pg in
      record m { freemem = table + by2pg; mem = with_table pgdir va table m.mem }

  map_pages-absent :
      (count va pa perm : ℕ)
      → va < word
      → m.mem (pgdir + 4 * pdx va) ≡ 0
      → pgdir + by2pg ≤ start end m
      → ptx va + suc count ≤ 1024
      → let table = round_to (start end m) by2pg in
        map_pages end (suc count) pgdir va pa perm m
        ≡ ok tt (record m {
          freemem = table + by2pg;
          mem = entries (suc count) (table + 4 * ptx va) pa perm (with_table pgdir va table m.mem);
        })
  unfolding tabled
  map_pages-absent count va pa perm small none before room =
      let table = round_to (start end m) by2pg in
      let (page, lo, al) = alloc_lem end by2pg m r.above r.below r.top (omega arith) in
      let hi : table < start end m + by2pg = omega arith in
      let (valid, addr) =
        table_entry_fields table (omega (arith, lo, r.above)) (omega (arith, hi, r.below, r.top))
          page in
      let n = tabled va in
      let here : (pgdir + 4 * pdx va == pgdir + 4 * pdx va) ≡ true = ground arith in
      let at : n.mem (pgdir + 4 * pdx va) ≡ table_entry table = rw here refl in
      let known : leb n.npage (ppn (pte_addr (table_entry table))) ≡ false =
        rw addr (ground (arith, hi, lo, r.counted, r.below, r.above)) in
      let is_table : (pte_addr (table_entry table) + ulim) % word ≡ table =
        omega (arith, addr, lo, hi, r.above, r.below, r.top) in
      map_pages-turn end pgdir count va pa perm m n (table + 4 * ptx va)
        (walk-absent va none ∙ boot_table-ok va)
      ∙ sym (
          map_pages-turn end pgdir count va pa perm n n (table + 4 * ptx va)
            (walk-present end pgdir va n (table_entry table) table at valid known is_table))
      ∙ map_pages-present end pgdir (suc count) va pa perm n (table_entry table) table small at
          valid known is_table
          (λ k h.
            let ne : (pgdir + 4 * pdx va == table + 4 * k) ≡ false = ground (arith, lo, before) in
            ne)
          room

  -- A segment of `count + 1` pages inside the range of one table, which is not there yet.
  pub boot_map_segment-absent :
      (count size va pa perm : ℕ)
      → size ≡ by2pg * suc count
      → va < word
      → m.mem (pgdir + 4 * pdx va) ≡ 0
      → pgdir + by2pg ≤ start end m
      → ptx va + suc count ≤ 1024
      → let table = round_to (start end m) by2pg in
        boot_map_segment end pgdir va size pa perm m
        ≡ ok tt (record m {
          freemem = table + by2pg;
          mem = entries (suc count) (table + 4 * ptx va) pa perm (with_table pgdir va table m.mem);
        })
  unfolding boot_map_segment
  boot_map_segment-absent count size va pa perm is_size small none before room =
      let whole : (size % by2pg == 0) ≡ true = ground (arith, is_size) in
      let pages : size / by2pg ≡ suc count = omega (arith, is_size) in
      rw (whole, pages) (map_pages-absent count va pa perm small none before room)
