-- ===== src/Pmap/Tables.antt =====
-- The two-level page tables of mm/pmap.c. `pgdir` is the address of a page directory; entry `k` of a
-- table at `a` is the word at `a + 4 * k`. The messages that the functions print are left out.
pub mod Space
pub mod Walk
pub mod Write
pub mod Insert
pub mod Remove
pub mod Fresh
mod Tests
use cse_os.Base.{
  ℕ, suc, ◌+◌, ◌-◌, ◌*◌, ◌%◌, Option, none, some, Bool, true, false, not, ◌&&◌, ◌∷◌, ltb, leb, ◌==◌,
  if◌then◌else◌, bit_or,
}
use cse_os.Mmu.{word, ulim, pdx, ptx, pte_addr, pte_v, pte_r, va2pfn, is_valid}
use cse_os.Mm.{
  Mm, M, ok, panic, fault, ◌>>=◌, ◌>>◌, pure, modify, read, write, kaddr, pa2page, page2kva,
  page2pa,
}
use cse_os.Pmap.FreeList.{page_alloc, page_decref, decrement_ref, increment_ref}

-- The return of 0 or of -E_NO_MEM.
pub data Status : Type 0 where
  done no_mem : Status

-- What va2pa returns for an address that is not mapped: ~0.
abbrev pub unmapped : ℕ
unmapped = word - 1

unfoldable pub va2pa : ℕ → ℕ → M ℕ
va2pa pgdir va = do
  pde ← read (pgdir + 4 * pdx va)
  if not (is_valid pde) then pure unmapped else do
    p ← kaddr (pte_addr pde)
    pte ← read (p + 4 * ptx va)
    if not (is_valid pte) then pure unmapped else pure (bit_or (pte_addr pte) (va % 4096))

-- A new page table: its page, zeroed, goes into the directory entry and gains a reference.
new_table : ℕ → ℕ → Option ℕ → M (Status × Option ℕ)
new_table pgdir va none = pure (no_mem, none)
new_table pgdir va (some pp) = do
  pgtable ← page2kva pp
  write (pgdir + 4 * pdx va) (bit_or (bit_or (page2pa pp) pte_v) pte_r)
  modify (increment_ref pp)
  pure (done, some (pgtable + 4 * ptx va))

-- The second component is what goes through `ppte`: the address of the table entry, or 0.
unfoldable pub pgdir_walk : ℕ → ℕ → Bool → M (Status × Option ℕ)
unfolding new_table
pgdir_walk pgdir va create = do
  pde ← read (pgdir + 4 * pdx va)
  pgtable ← kaddr (pte_addr pde)
  if not (is_valid pde)
      then (if not create then pure (done, none) else (page_alloc >>= new_table pgdir va))
      else pure (done, some (pgtable + 4 * ptx va))

-- The page mapped at `va`, with the address of its table entry.
look_at : ℕ → Option ℕ → M (Option (ℕ × ℕ))
look_at va none = pure none
look_at va (some a) = do
  pte ← read a
  if not (is_valid pte) then pure none else do pp ← pa2page (pte_addr pte); pure (some (pp, a))

unfoldable pub page_lookup : ℕ → ℕ → M (Option (ℕ × ℕ))
unfolding look_at
page_lookup pgdir va = do (_, ppte) ← pgdir_walk pgdir va false; look_at va ppte

-- `running` is `curenv->env_id`, or `none` where `curenv` is NULL.
module _ (running : Option ℕ) where
  -- The operand of the TLB instruction: the page's address with the address space of `curenv`.
  abbrev pub entry_hi : ℕ → ℕ
  entry_hi va = elim running [ none ↦ pte_addr va | some id ↦ bit_or (pte_addr va) (id % 256) ]

  unfoldable pub tlb_invalidate : ℕ → M (Unit {0})
  tlb_invalidate va = modify λ m. record m { tlb_outs = entry_hi va ∷ m.tlb_outs }

  remove_at : ℕ → Option (ℕ × ℕ) → M (Unit {0})
  unfolding tlb_invalidate
  remove_at va none = pure tt
  remove_at va (some (pp, a)) = do modify (page_decref pp); write a 0; tlb_invalidate va

  unfoldable pub page_remove : ℕ → ℕ → M (Unit {0})
  unfolding remove_at
  page_remove pgdir va = page_lookup pgdir va >>= remove_at va

  -- What is mapped at `va` before an insertion: the same page loses the reference that it is about
  -- to gain, another page is unmapped.
  make_room : ℕ → ℕ → ℕ → ℕ → M (Unit {0})
  unfolding page_remove
  make_room pgdir pp va pte = if not (is_valid pte) then pure tt else do
    q ← pa2page (pte_addr pte)
    if q == pp then modify (decrement_ref pp) else page_remove pgdir va

  insert_at : ℕ → ℕ → ℕ → ℕ → Option ℕ → M Status
  unfolding make_room
  insert_at pgdir pp va perm none = pure no_mem
  insert_at pgdir pp va perm (some a) = do
    pte ← read a
    make_room pgdir pp va pte
    write a (bit_or (page2pa pp) (bit_or perm pte_v))
    modify (increment_ref pp)
    pure done

  unfoldable pub page_insert : ℕ → ℕ → ℕ → ℕ → M Status
  unfolding insert_at
  page_insert pgdir pp va perm = do
    (_, ppte) ← pgdir_walk pgdir va true
    insert_at pgdir pp va perm ppte

  -- page_insert with NULL for the page: where there is a table, it ends in an access through NULL.
  insert_null : ℕ → ℕ → Option ℕ → M Status
  unfolding page_remove
  insert_null pgdir va none = pure no_mem
  insert_null pgdir va (some a) = do
    pte ← read a
    if not (is_valid pte) then pure tt else do pa2page (pte_addr pte); page_remove pgdir va
    λ _. fault

  -- The check on page_alloc compares a `u_long` with 0, so that a failure goes on with NULL.
  refill : ℕ → ℕ → Option ℕ → M ℕ
  unfolding page_insert insert_null pgdir_walk va2pa
  refill va context none =
      (do (_, ppte) ← pgdir_walk context (va2pfn va) true; insert_null context (va2pfn va) ppte)
      >> va2pa context va
  refill va context (some p) = page_insert context p (va2pfn va) pte_r >> va2pa context va

  -- The handler of a TLB miss on an address that is not mapped.
  unfoldable pub pageout : ℕ → ℕ → M ℕ
  unfolding refill
  pageout va context =
      if ltb context 0x8000_0000
      then (λ _. panic)
      else if ltb 0x7f40_0000 va && ltb va 0x7f80_0000
      then (λ _. panic)
      else (page_alloc >>= refill va context)
