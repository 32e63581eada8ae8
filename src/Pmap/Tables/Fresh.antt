-- ===== src/Pmap/Tables/Fresh.antt =====
-- An address space across page_alloc: taking a free page changes no entry, and the page can be
-- inserted. pageout, which does both for an address that is not mapped.
use cse_os.Base.{
  ℕ, ◌+◌, ◌*◌, ◌%◌, ◌^◌, ◌<◌, ◌≡◌, refl, ◌≢◌, ◌∙◌, ◌⊎◌, List, [], ◌∷◌, Option, arith, Bool-cases,
  inl, inr, ap, if◌then◌else◌,
}
use cse_os.Mmu.{pdx, ptx, pte_addr, pte_r, is_valid, ppn, by2pg, va2pfn}
use cse_os.Mm.{Outcome, Mm, ok, fault, zeroed}
use cse_os.Pmap.FreeList.Alloc.{kva, IsFreeList, allocated, page_alloc_lem}
use cse_os.Pmap.Tables.{pageout, unmapped}
use cse_os.Pmap.Tables.Space.{pde, entry, IsSpace, IsSpace-cong, translation}
use cse_os.Pmap.Tables.Remove.{InUse}
use cse_os.Pmap.Tables.Insert.{
  OldPage, NewPage, Insertion, Inserted, page_insert_lem, new_pte, new_pte_fields,
}

module _ (m : Mm) (d x : ℕ) (xs : List ℕ) (s : IsSpace m d (x ∷ xs))
    (f : IsFreeList m (x ∷ xs)) where
  word-allocated :
      (t j : ℕ) → t ≢ x → j < 1024 → (allocated x m).mem (kva t + 4 * j) ≡ m.mem (kva t + 4 * j)
  word-allocated t j ne h =
      let z : zeroed m.mem (kva x) by2pg (kva t + 4 * j) ≡ m.mem (kva t + 4 * j) = ground arith in
      ap (λ (g : ℕ → ℕ). g (kva t + 4 * j)) (page_alloc_lem m (x ∷ xs) f).3 ∙ z

  dir_ne : d ≢ x
  dir_ne = ground (arith, s.dir_used)

  pde-allocated : (k : ℕ) → k < 1024 → pde (allocated x m) d k ≡ pde m d k
  pde-allocated k h = word-allocated d k dir_ne h

  pub allocated-IsSpace : IsSpace (allocated x m) d xs
  allocated-IsSpace =
      IsSpace-cong m (allocated x m) d (x ∷ xs) xs s pde-allocated
        (page_alloc_lem m (x ∷ xs) f).2.npage (ground (arith, s.dir_used))
        (λ k h v. ground (arith, s.table_used k h v))

  pub entry-allocated : (va : ℕ) → entry (allocated x m) d va ≡ entry m d va
  entry-allocated va = elim (Bool-cases (is_valid (pde m d (pdx va)))) [
    | inr v ↦ rw (pde-allocated (pdx va) (omega arith), v) refl
    | inl v ↦
        let t = ppn (pde m d (pdx va)) in
        let ne : t ≢ x = ground (arith, s.table_used (pdx va) (omega arith) v) in
        rw (pde-allocated (pdx va) (omega arith), v) (word-allocated t (ptx va) ne (omega arith))
  ]

  allocated-InUse : (q : ℕ) → InUse m d (x ∷ xs) q → InUse (allocated x m) d xs q
  allocated-InUse q u = record {
    inside = omega (arith, u.inside, (page_alloc_lem m (x ∷ xs) f).2.npage);
    busy = ground (arith, u.busy);
    ne_dir = u.ne_dir;
    ne_table = λ k h v. rw (pde-allocated k h) (u.ne_table k h (rw (pde-allocated k h) at v));
  }

  pub allocated-OldPage : (va : ℕ) → OldPage m d va (x ∷ xs) → OldPage (allocated x m) d va xs
  allocated-OldPage va old =
      let e = entry-allocated va in
      let refs = (page_alloc_lem m (x ∷ xs) f).2.refs (ppn (entry m d va)) in
      record {
        user = old.user;
        used = λ v. rw e (allocated-InUse (ppn (entry m d va)) (old.used (rw e at v)));
        pos = λ v. rw (e, refs) (old.pos (rw e at v));
        bound = λ v. rw (e, refs) (old.bound (rw e at v));
      }

  pub allocated-NewPage : NewPage (allocated x m) xs x
  allocated-NewPage =
      let al = page_alloc_lem m (x ∷ xs) f in
      record {
        inside = omega (arith, al.2.npage, f.within.0);
        busy = f.distinct.0;
        room = omega (arith, al.2.refs x, f.unused.0);
      }

  -- page_insert of the page that page_alloc has just taken.
  pub insert_fresh_page :
      (running : Option ℕ) (va perm : ℕ)
      → OldPage m d va (x ∷ xs)
      → Insertion running (allocated x m) d va x perm xs
  insert_fresh_page running va perm old =
      page_insert_lem running (allocated x m) d va x perm xs allocated-IsSpace
        (page_alloc_lem m (x ∷ xs) f).1 (allocated-OldPage va old) allocated-NewPage

pub translation-mapped :
    (r : Mm) (d va x perm : ℕ)
    → entry r d va ≡ new_pte x perm
    → x < 2 ^ 19
    → perm < 4096
    → translation r d va ≡ x * 4096 + va % 4096
translation-mapped r d va x perm e h p =
    let g = new_pte_fields x perm h p in
    let a : pte_addr (new_pte x perm) ≡ x * 4096 = omega (arith, g.1, g.0) in rw (e, g.2, a) refl

-- The outcome of pageout with `x` taken from the free list: it maps the page at `va` to `x` and
-- returns the physical address; or the table for `va` is missing and no other page is left for it,
-- and `x` is taken off the list for nothing.
abbrev pub Refilled : Mm → ℕ → ℕ → ℕ → List ℕ → Outcome ℕ → Type 0
Refilled m d va x xs o =
    ((r : Mm) × (zs : List ℕ) × (o ≡ ok (x * 4096 + va % 4096) r)
      × Inserted (allocated x m) d (va2pfn va) x pte_r xs r zs)
    ⊎ ((xs ≡ []) × (o ≡ ok unmapped (allocated x m)))

-- What pageout does with the pages `xs` free.
abbrev pub PagesOut : Option ℕ → Mm → ℕ → ℕ → List ℕ → Type 0
PagesOut running m d va [] =
    pageout running va (kva d) m ≡ (if is_valid (pde m d (pdx va)) then fault else ok unmapped m)
PagesOut running m d va (x ∷ xs) = Refilled m d va x xs (pageout running va (kva d) m)
