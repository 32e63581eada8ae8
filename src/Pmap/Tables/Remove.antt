-- ===== src/Pmap/Tables/Remove.antt =====
-- page_lookup and page_remove: the page mapped at an address is found, and unmapped.
use cse_os.Base.{
  ℕ, ◌+◌, ◌*◌, ◌^◌, ◌<◌, ◌≡◌, refl, ◌∙◌, ◌≢◌, true, false, List, arith, has, if◌then◌else◌,
  Bool-cases, inl, inr, leb, ◌∷◌, Option, none, some, ◌==◌, ap,
}
use cse_os.Mmu.{pdx, ptx, pte_addr, is_valid, ppn}
use cse_os.Mm.{Mm, ok, pa2page}
use cse_os.Pmap.FreeList.{page_decref}
use cse_os.Pmap.FreeList.Alloc.{
  kva, IsFreeList, page_decref_lem, mem-page_decref, npage-page_decref, tlb_outs-page_decref,
  IsFreeList-cong,
}
use cse_os.Pmap.Tables.{done, pgdir_walk, page_lookup, page_remove, entry_hi}
use cse_os.Pmap.Tables.Space.{pde, slot, entry, IsSpace, is_window, vpn, kaddr-page, IsSpace-cong}
use cse_os.Pmap.Tables.Walk.{pgdir_walk_found}
use cse_os.Pmap.Tables.Write.{
  with_entry, with_entry-IsSpace, entry-with_entry_self, entry-with_entry_other, pde-with_entry,
}

-- A page in ordinary use by the address space on `d`: in memory, not free, counted, and neither the
-- directory nor one of its tables.
pub record InUse (m : Mm) (d : ℕ) (xs : List ℕ) (q : ℕ) : Type 0 where
  pub inside : q < m.npage
  pub busy : has q xs ≡ false
  pub ne_dir : q ≢ d
  pub ne_table : (k : ℕ) → k < 1024 → is_valid (pde m d k) ≡ true → ppn (pde m d k) ≢ q

pub pa2page-ok : (m : Mm) (pte : ℕ) → ppn pte < m.npage → pa2page (pte_addr pte) m ≡ ok (ppn pte) m
unfolding pa2page
pa2page-ok m pte h =
    let e : ppn (pte_addr pte) ≡ ppn pte = omega arith in
    let f : leb m.npage (ppn (pte_addr pte)) ≡ false = rw e (ground arith) in rw f (ground arith)

pgdir_walk_missing :
    (m : Mm) (d va : ℕ) (xs : List ℕ)
    → IsSpace m d xs
    → is_valid (pde m d (pdx va)) ≡ false
    → pgdir_walk (kva d) va false m ≡ ok (done, none) m
unfolding pgdir_walk
pgdir_walk_missing m d va xs s e =
    rw (kaddr-page m (pde m d (pdx va)) (s.table_in (pdx va) (omega arith)) s.small, e) refl

-- page_lookup returns the page of the entry for `va` and the address of that entry, or NULL where
-- there is no valid entry; it changes nothing.
pub page_lookup_lem :
    (m : Mm) (d va : ℕ) (xs : List ℕ)
    → IsSpace m d xs
    → ppn (entry m d va) < m.npage
    → page_lookup (kva d) va m
      ≡ ok (if is_valid (entry m d va) then some (ppn (entry m d va), slot m d va) else none) m
unfolding page_lookup
page_lookup_lem m d va xs s h = elim (Bool-cases (is_valid (pde m d (pdx va)))) [
  | inr e ↦ rw (pgdir_walk_missing m d va xs s e, e) refl
  | inl table ↦
      let w = pgdir_walk_found m d va false xs s table in
      let e : entry m d va ≡ m.mem (slot m d va) = rw table refl in
      elim (Bool-cases (is_valid (m.mem (slot m d va)))) [
        | inr v ↦ rw (w, table, v) refl
        | inl v ↦ rw (w, table, v, pa2page-ok m (m.mem (slot m d va)) (rw e at h)) refl
      ]
]

-- The state after the page `q` mapped at `va` has been unmapped.
unfoldable pub unmapped_at : Option ℕ → ℕ → ℕ → ℕ → Mm → Mm
unmapped_at running d va q m =
    let n = with_entry d va 0 (page_decref q m) in
    record n { tlb_outs = entry_hi running va ∷ n.tlb_outs }

page_remove_mapped :
    (running : Option ℕ) (m : Mm) (d va : ℕ) (xs : List ℕ)
    → IsSpace m d xs
    → ppn (entry m d va) < m.npage
    → is_valid (entry m d va) ≡ true
    → page_remove running (kva d) va m ≡ ok tt (unmapped_at running d va (ppn (entry m d va)) m)
unfolding page_remove unmapped_at with_entry
page_remove_mapped running m d va xs s h v =
    rw (page_lookup_lem m d va xs s h, v) (cc (mem-page_decref m (ppn (entry m d va))))

-- The free pages once `q` has lost a reference.
abbrev pub freed : Mm → ℕ → List ℕ → List ℕ
freed m q xs = if (m.pages q).pp_ref == 1 then q ∷ xs else xs

-- What unmapping `va` does: its entry becomes 0 and no other changes, its page loses a reference and
-- is freed with the last one, the TLB is told, and the invariants are kept.
pub record Removed (running : Option ℕ) (m : Mm) (d va : ℕ) (xs : List ℕ) (u : Mm) : Type 0 where
  pub gone : entry u d va ≡ 0
  pub others : (vb : ℕ) → vpn vb ≢ vpn va → entry u d vb ≡ entry m d vb
  pub space : IsSpace u d (freed m (ppn (entry m d va)) xs)
  pub free : IsFreeList u (freed m (ppn (entry m d va)) xs)
  pub ref : (u.pages (ppn (entry m d va))).pp_ref + 1 ≡ (m.pages (ppn (entry m d va))).pp_ref
  pub refs : (i : ℕ) → i ≢ ppn (entry m d va) → (u.pages i).pp_ref ≡ (m.pages i).pp_ref
  pub flushed : u.tlb_outs ≡ entry_hi running va ∷ m.tlb_outs
  pub npage : u.npage ≡ m.npage
  pub table : is_valid (pde u d (pdx va)) ≡ true
  pub slots : slot u d va ≡ slot m d va

module _ (running : Option ℕ) (m : Mm) (d va : ℕ) (xs : List ℕ) (s : IsSpace m d xs)
    (f : IsFreeList m xs) (v : is_valid (entry m d va) ≡ true)
    (used : InUse m d xs (ppn (entry m d va))) (pos : 0 < (m.pages (ppn (entry m d va))).pp_ref)
    (bound : (m.pages (ppn (entry m d va))).pp_ref < 2 ^ 16)
    (user : is_window (pdx va) ≡ false) where
  table_of_entry : is_valid (pde m d (pdx va)) ≡ true
  table_of_entry = ground arith

  decref-IsSpace : IsSpace (page_decref (ppn (entry m d va)) m) d (freed m (ppn (entry m d va)) xs)
  decref-IsSpace =
      let q = ppn (entry m d va) in
      let ne_dir : d ≢ q = omega (arith, used.ne_dir) in
      IsSpace-cong m (page_decref q m) d xs (freed m q xs) s
        (λ k h. ap (λ (g : ℕ → ℕ). g (kva d + 4 * k)) (mem-page_decref m q)) (npage-page_decref m q)
        (ground (arith, s.dir_used))
        (λ k h w. ground (arith, s.table_used k h w, used.ne_table k h w))

  -- page_remove unmaps the page at `va`, as `Removed` says, when that page is in use and counted and
  -- `va` does not lie in the UVPT or VPT window.
  pub page_remove_lem :
      (page_remove running (kva d) va m ≡ ok tt (unmapped_at running d va (ppn (entry m d va)) m))
      × Removed running m d va xs (unmapped_at running d va (ppn (entry m d va)) m)
  unfolding unmapped_at with_entry
  page_remove_lem =
      let q = ppn (entry m d va) in
      let n = page_decref q m in
      let dr = page_decref_lem m q xs f used.busy used.inside pos bound in
      let mem = mem-page_decref m q in
      let t : is_valid (pde n d (pdx va)) ≡ true = rw mem table_of_entry in
      let u = with_entry d va 0 n in
      let sp = with_entry-IsSpace n d va 0 (freed m q xs) decref-IsSpace t user in
      (
        page_remove_mapped running m d va xs s used.inside v,
        record {
          gone = entry-with_entry_self n d va 0 (freed m q xs) decref-IsSpace t user;
          others = λ vb ne.
              entry-with_entry_other n d va 0 (freed m q xs) decref-IsSpace t user vb ne
              ∙ (rw mem refl);
          space =
              IsSpace-cong u (unmapped_at running d va q m) d (freed m q xs) (freed m q xs) sp
                (λ k h. refl) refl sp.dir_used sp.table_used;
          free =
              IsFreeList-cong n (unmapped_at running d va q m) (freed m q xs) dr.0 refl refl refl;
          ref = dr.1;
          refs = dr.2;
          flushed = ap (λ l. entry_hi running va ∷ l) (tlb_outs-page_decref m q);
          npage = npage-page_decref m q;
          table =
              rw
                (pde-with_entry n d va 0 (freed m q xs) decref-IsSpace t user (pdx va)
                  (omega arith))
                t;
          slots =
              ap (λ p. kva (ppn p) + 4 * ptx va)
                (pde-with_entry n d va 0 (freed m q xs) decref-IsSpace t user (pdx va) (omega arith)
                  ∙ ap (λ (g : ℕ → ℕ). g (kva d + 4 * pdx va)) mem);
        },
      )
