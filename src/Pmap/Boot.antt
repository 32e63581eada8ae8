-- ===== src/Pmap/Boot.antt =====
-- The part of mm/pmap.c that runs before the free list exists: the size of memory, the allocator
-- that only moves `freemem`, and the kernel's page tables. An alignment is a power of two.
mod Alloc
mod Segment
mod Arrays
mod VmInit
mod Tests
use cse_os.Base.{
  ℕ, zero, suc, ◌+◌, ◌-◌, ◌*◌, ◌/◌, ◌%◌, Option, none, some, Bool, true, false, not, leb, ◌==◌,
  if◌then◌else◌, bit_or,
}
use cse_os.Mmu.{word, by2pg, pdx, ptx, upages, uenvs, pte_addr, pte_v, pte_r, is_valid}
use cse_os.Mm.{Mm, M, Outcome, ◌>>=◌, ◌>>◌, pure, gets, modify, read, write, bzero, paddr, kaddr}

-- set_physic_mm
unfoldable pub set_physic_mm : Mm → Mm
set_physic_mm m = record m { maxpa = 250 * 1024 * 1024; npage = 250 * 1024 * 1024 / by2pg }

abbrev pub max_tlb : ℕ
max_tlb = 16

-- getNextTlb: the index returned and the state with the next one.
unfoldable pub get_next_tlb : Mm → ℕ × Mm
get_next_tlb m = (m.tlb_count, record m { tlb_count = (m.tlb_count + 1) % word % max_tlb })

-- sizeof(struct Page) and sizeof(struct Env)
abbrev pub sizeof_page : ℕ
sizeof_page = 12

abbrev pub sizeof_env : ℕ
sizeof_env = 228

-- ROUND(a, n)
abbrev pub round_to : ℕ → ℕ → ℕ
round_to a n = let x = (a + n - 1) % word in x - x % n

-- `end` is the address that the linker gives to the end of the kernel.
module _ (end : ℕ) where
  abbrev pub start : Mm → ℕ
  start m = if m.freemem == 0 then end else m.freemem

  -- The end of alloc, which runs when the memory has been handed out.
  check_memory : ℕ → M ℕ
  check_memory alloced_mem = do
    freemem ← gets (λ m. m.freemem)
    pa ← paddr freemem
    maxpa ← gets (λ m. m.maxpa)
    if leb maxpa pa then (λ _. Outcome.panic) else pure alloced_mem

  -- alloc
  unfoldable pub alloc : ℕ → ℕ → Bool → M ℕ
  unfolding check_memory paddr
  alloc n align clear m =
      let alloced_mem = round_to (start m) align in
      (do
        modify (λ m. record m { freemem = (alloced_mem + n) % word })
        if clear then bzero alloced_mem n else pure tt
        check_memory alloced_mem)
        m

  -- A new table of the kernel.
  unfoldable pub boot_table : ℕ → ℕ → M (Option ℕ)
  unfolding alloc
  boot_table pgdir va = do
    table ← alloc by2pg by2pg true
    pa ← paddr table
    write (pgdir + 4 * pdx va) (bit_or (bit_or pa pte_v) pte_r)
    pure (some (table + 4 * ptx va))

  -- boot_pgdir_walk; `none` is the return of 0.
  unfoldable pub boot_pgdir_walk : ℕ → ℕ → Bool → M (Option ℕ)
  unfolding boot_table
  boot_pgdir_walk pgdir va create = do
    pde ← read (pgdir + 4 * pdx va)
    pgtable ← kaddr (pte_addr pde)
    if is_valid pde
        then pure (some (pgtable + 4 * ptx va))
        else (if not create then pure none else boot_table pgdir va)

  -- `*pgtable_entry = ...`, through the pointer that boot_pgdir_walk returns.
  unfoldable pub write_entry : Option ℕ → ℕ → M (Unit {0})
  write_entry none v = λ _. Outcome.fault
  write_entry (some a) v = write a v

  -- The loop of boot_map_segment, `count` pages from `va` and `pa` on.
  unfoldable pub map_pages : ℕ → ℕ → ℕ → ℕ → ℕ → M (Unit {0})
  unfolding boot_pgdir_walk write_entry
  map_pages zero pgdir va pa perm = pure tt
  map_pages (suc count) pgdir va pa perm =
      (boot_pgdir_walk pgdir va true >>= λ o. write_entry o (bit_or (bit_or pa perm) pte_v))
      >> map_pages count pgdir ((va + by2pg) % word) ((pa + by2pg) % word) perm

  -- boot_map_segment
  unfoldable pub boot_map_segment : ℕ → ℕ → ℕ → ℕ → ℕ → M (Unit {0})
  unfolding map_pages
  boot_map_segment pgdir va size pa perm =
      if not (size % by2pg == 0)
      then (λ _. Outcome.panic)
      else map_pages (size / by2pg) pgdir va pa perm

  -- A step of vm_init: an array of `size` bytes, mapped at `va` for user programs.
  unfoldable pub map_array : ℕ → ℕ → ℕ → M ℕ
  unfolding alloc boot_map_segment paddr
  map_array pgdir va size = do
    array ← alloc size by2pg true
    pa ← paddr array
    boot_map_segment pgdir va (round_to size by2pg) pa pte_r
    pure array

  -- vm_init: boot_pgdir, pages and envs.
  unfoldable pub vm_init : M (ℕ × ℕ × ℕ)
  unfolding alloc map_array
  vm_init = do
    pgdir ← alloc by2pg by2pg true
    npage ← gets (λ m. m.npage)
    pages ← map_array pgdir upages (npage * sizeof_page % word)
    envs ← map_array pgdir uenvs (1024 * sizeof_env)
    pure (pgdir, pages, envs)
