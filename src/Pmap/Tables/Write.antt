-- ===== src/Pmap/Tables/Write.antt =====
-- Writing one page table entry, and giving a page back, in an address space.
use cse_os.Base.{
  ℕ, ◌+◌, ◌*◌, ◌<◌, ◌≡◌, refl, sym, ◌≢◌, true, false, List, arith, Bool-cases, inl, inr, ◌==◌,
  update,
}
use cse_os.Mmu.{pdx, is_valid}
use cse_os.Mm.{Mm}
use cse_os.Pmap.FreeList.Alloc.{kva}
use cse_os.Pmap.Tables.Space.{
  pde, slot, entry, IsSpace, is_window, vpn, slot_ne, slot-ne-pde, IsSpace-cong,
}

-- The word at the slot for `va` becomes `v`.
unfoldable pub with_entry : ℕ → ℕ → ℕ → Mm → Mm
with_entry d va v m = record m { mem = update m.mem (slot m d va) v }

module _ (m : Mm) (d va v : ℕ) (xs : List ℕ) (s : IsSpace m d xs)
    (table : is_valid (pde m d (pdx va)) ≡ true) (user : is_window (pdx va) ≡ false) where
  pub pde-with_entry : (k : ℕ) → k < 1024 → pde (with_entry d va v m) d k ≡ pde m d k
  unfolding with_entry
  pde-with_entry k h =
      let ne = slot-ne-pde m d va k xs s table user h in
      let miss : (kva d + 4 * k == slot m d va) ≡ false = ground arith in rw miss refl

  -- Writing an entry keeps the invariant of the address space.
  pub with_entry-IsSpace : IsSpace (with_entry d va v m) d xs
  unfolding with_entry
  with_entry-IsSpace =
      IsSpace-cong m (with_entry d va v m) d xs xs s pde-with_entry refl s.dir_used s.table_used

  pub entry-with_entry_self : entry (with_entry d va v m) d va ≡ v
  unfolding with_entry
  entry-with_entry_self = rw (pde-with_entry (pdx va) (omega arith), table) (ground arith)

  pub entry-with_entry_other :
      (vb : ℕ) → vpn vb ≢ vpn va → entry (with_entry d va v m) d vb ≡ entry m d vb
  unfolding with_entry
  entry-with_entry_other vb ne = elim (Bool-cases (is_valid (pde m d (pdx vb)))) [
    | inr e ↦ rw (pde-with_entry (pdx vb) (omega arith), e) refl
    | inl e ↦
        let apart = slot_ne m d va vb xs s table e user (λ w. ne (sym w)) in
        let miss : (slot m d vb == slot m d va) ≡ false = ground arith in
        rw (pde-with_entry (pdx vb) (omega arith), e, miss) refl
  ]
