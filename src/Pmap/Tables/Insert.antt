-- ===== src/Pmap/Tables/Insert.antt =====
-- page_insert: the page is mapped at the address, whatever was mapped there before.
use cse_os.Base.{
  ℕ, ◌+◌, ◌*◌, ◌%◌, ◌^◌, ◌<◌, ◌≡◌, refl, sym, ◌∙◌, ◌≢◌, true, false, List, arith, has,
  if◌then◌else◌, Bool-cases, inl, inr, bit_or, [], Option, some, ◌==◌, ==_iff, ap, ◌&&◌,
}
use cse_os.Base.Bits.{or_aligned, or_valid, or-lt-page}
use cse_os.Mmu.{pdx, pte_addr, is_valid, ppn, pte_v}
use cse_os.Mm.{Mm, ok, page2pa}
use cse_os.Pmap.FreeList.{increment_ref, decrement_ref}
use cse_os.Pmap.FreeList.Alloc.{kva, IsFreeList, IsFreeList-cong, set_ref-IsFreeList}
use cse_os.Pmap.Tables.{va2pa, done, no_mem, page_insert, insert_at, make_room, page_remove}
use cse_os.Pmap.Tables.Space.{
  pde, slot, entry, IsSpace, is_window, Unseen, vpn, IsSpace-cong, va2pa-translation, translation,
}
use cse_os.Pmap.Tables.Walk.{Walk, walked, out_of_memory, Walked, pgdir_walk_lem}
use cse_os.Pmap.Tables.Write.{
  with_entry, with_entry-IsSpace, entry-with_entry_self, entry-with_entry_other,
}
use cse_os.Pmap.Tables.Remove.{InUse, pa2page-ok, page_remove_lem, unmapped_at, freed}

-- The entry that maps page `pp` with the permissions `perm`.
abbrev pub new_pte : ℕ → ℕ → ℕ
new_pte pp perm = bit_or (page2pa pp) (bit_or perm pte_v)

-- It holds the page's number, is valid, and adds nothing but the permission bits.
pub new_pte_fields :
    (pp perm : ℕ)
    → pp < 2 ^ 19
    → perm < 4096
    → (new_pte pp perm ≡ pp * 4096 + bit_or perm pte_v)
      × (ppn (new_pte pp perm) ≡ pp)
      × (is_valid (new_pte pp perm) ≡ true)
new_pte_fields pp perm h p =
    let low = or-lt-page perm pte_v p (omega arith) in
    let e : page2pa pp ≡ pp * 4096 = omega arith in
    let f : new_pte pp perm ≡ pp * 4096 + bit_or perm pte_v =
      rw e (or_aligned (pp * 4096) (bit_or perm pte_v) (omega arith) low) in
    (f, omega (arith, f, low), (==_iff _ _).1 (omega (arith, f, low, or_valid perm)))

-- The last three steps of page_insert: the entry is written, and the page gains a reference.
unfoldable pub filled : ℕ → ℕ → ℕ → ℕ → Mm → Mm
filled d va pp perm u = increment_ref pp (with_entry d va (new_pte pp perm) u)

-- What these steps do in an address space with a table for `va`.
record Filled (u : Mm) (d va pp perm : ℕ) (zs : List ℕ) (r : Mm) : Type 0 where
  mapped : entry r d va ≡ new_pte pp perm
  others : (vb : ℕ) → vpn vb ≢ vpn va → entry r d vb ≡ entry u d vb
  space : IsSpace r d zs
  free : IsFreeList r zs
  ref : (r.pages pp).pp_ref ≡ (u.pages pp).pp_ref + 1
  refs : (i : ℕ) → i ≢ pp → (r.pages i).pp_ref ≡ (u.pages i).pp_ref

filled-Filled :
    (u : Mm) (d va pp perm : ℕ) (zs : List ℕ)
    → IsSpace u d zs
    → IsFreeList u zs
    → is_valid (pde u d (pdx va)) ≡ true
    → is_window (pdx va) ≡ false
    → has pp zs ≡ false
    → (u.pages pp).pp_ref + 1 < 2 ^ 16
    → Filled u d va pp perm zs (filled d va pp perm u)
unfolding filled increment_ref with_entry
filled-Filled u d va pp perm zs s f t user out bound =
    let v = new_pte pp perm in
    let n = with_entry d va v u in
    let sp = with_entry-IsSpace u d va v zs s t user in
    let count : ((u.pages pp).pp_ref + 1) % 2 ^ 16 ≡ (u.pages pp).pp_ref + 1 = omega arith in
    record {
      mapped = entry-with_entry_self u d va v zs s t user;
      others = entry-with_entry_other u d va v zs s t user;
      space = IsSpace-cong n _ d zs zs sp (λ k h. refl) refl sp.dir_used sp.table_used;
      free = set_ref-IsFreeList n pp _ zs (IsFreeList-cong u n zs f refl refl refl) out;
      ref = ground (arith, count);
      refs = λ i ne. ground arith;
    }

-- What page_insert makes of the address space: `va` maps to page `pp` with `perm` and PTE_V, every
-- other page of the address space, but for those that show the table for `va` in a window, is
-- mapped as before, and the invariants hold with the pages `zs`
-- free. `pp` gains a reference unless it was mapped at `va` already; the page that it replaces loses
-- one, and is free afterwards if that was the last; the other pages in use keep their count.
pub record Inserted (m : Mm) (d va pp perm : ℕ) (xs : List ℕ) (r : Mm) (zs : List ℕ) : Type 0 where
  pub mapped : entry r d va ≡ new_pte pp perm
  pub others : (vb : ℕ) → vpn vb ≢ vpn va → Unseen va vb → entry r d vb ≡ entry m d vb
  pub space : IsSpace r d zs
  pub free : IsFreeList r zs
  pub ref : (r.pages pp).pp_ref ≡ (
      if is_valid (entry m d va) && (ppn (entry m d va) == pp)
      then (m.pages pp).pp_ref
      else (m.pages pp).pp_ref + 1)
  pub replaced :
      is_valid (entry m d va) ≡ true
      → ppn (entry m d va) ≢ pp
      → ((r.pages (ppn (entry m d va))).pp_ref + 1 ≡ (m.pages (ppn (entry m d va))).pp_ref)
        × (has (ppn (entry m d va)) zs ≡ ((m.pages (ppn (entry m d va))).pp_ref == 1))
  pub refs :
      (i : ℕ)
      → has i xs ≡ false
      → i ≢ pp
      → (is_valid (entry m d va) ≡ true → i ≢ ppn (entry m d va))
      → (r.pages i).pp_ref ≡ (m.pages i).pp_ref

-- `va` lies outside the UVPT and VPT windows, and the page mapped at it, if there is one, is in use and
-- counted.
pub record OldPage (m : Mm) (d va : ℕ) (xs : List ℕ) : Type 0 where
  pub user : is_window (pdx va) ≡ false
  pub used : is_valid (entry m d va) ≡ true → InUse m d xs (ppn (entry m d va))
  pub pos : is_valid (entry m d va) ≡ true → 0 < (m.pages (ppn (entry m d va))).pp_ref
  pub bound : is_valid (entry m d va) ≡ true → (m.pages (ppn (entry m d va))).pp_ref < 2 ^ 16

-- The page to insert is a page of memory that is not free, and its count has room.
pub record NewPage (m : Mm) (xs : List ℕ) (pp : ℕ) : Type 0 where
  pub inside : pp < m.npage
  pub busy : has pp xs ≡ false
  pub room : (m.pages pp).pp_ref + 1 < 2 ^ 16

module _ (running : Option ℕ) (m : Mm) (d va pp perm : ℕ) (xs : List ℕ) (n : Mm) (ys : List ℕ)
    (w : Walked m d va xs n ys) (old : OldPage m d va xs) (new : NewPage m xs pp) where
  unseen : Unseen va va
  unseen e = let u = old.user in cc

  here : n.mem (slot n d va) ≡ entry m d va
  here = let e : entry n d va ≡ n.mem (slot n d va) = rw w.table refl in sym e ∙ w.entries va unseen

  room : (n.pages pp).pp_ref + 1 < 2 ^ 16
  room = omega (arith, w.refs pp new.busy, new.room)

  -- A page in use before the walk is still in use after it.
  still_used : (q : ℕ) → InUse m d xs q → InUse n d ys q
  still_used q u = record {
    inside = omega (arith, u.inside, w.npage);
    busy = w.used q u.busy;
    ne_dir = u.ne_dir;
    ne_table = λ k h v e.
        let same = w.tables k h (rw e u.busy) in u.ne_table k h (rw same at v) (rw same at e);
  }

  insert_fresh :
      is_valid (entry m d va) ≡ false
      → (insert_at running (kva d) pp va perm (some (slot n d va)) n
          ≡ ok done (filled d va pp perm n))
        × Inserted m d va pp perm xs (filled d va pp perm n) ys
  unfolding insert_at make_room filled with_entry
  insert_fresh e =
      let g =
        filled-Filled n d va pp perm ys w.space w.free w.table old.user (w.used pp new.busy) room in
      (
        rw (here, e) refl,
        record {
          mapped = g.mapped;
          others = λ vb ne un. g.others vb ne ∙ w.entries vb un;
          space = g.space;
          free = g.free;
          ref = rw e (g.ref ∙ ap (λ t. t + 1) (w.refs pp new.busy));
          replaced = λ v ne. cc;
          refs = λ i h ne nq. g.refs i ne ∙ w.refs i h;
        },
      )

  insert_same :
      is_valid (entry m d va) ≡ true
      → ppn (entry m d va) ≡ pp
      → (insert_at running (kva d) pp va perm (some (slot n d va)) n
          ≡ ok done (filled d va pp perm (decrement_ref pp n)))
        × Inserted m d va pp perm xs (filled d va pp perm (decrement_ref pp n)) ys
  unfolding insert_at make_room filled with_entry decrement_ref
  insert_same v e =
      let u = decrement_ref pp n in
      let same : (pp == pp) ≡ true = ground arith in
      let pos : 0 < (m.pages pp).pp_ref = rw e at (old.pos v) in
      let count : (u.pages pp).pp_ref + 1 ≡ (m.pages pp).pp_ref =
        ground (arith, w.refs pp new.busy, pos, new.room) in
      let out = w.used pp new.busy in
      let sp =
        IsSpace-cong n u d ys ys w.space (λ k h. refl) refl w.space.dir_used w.space.table_used in
      let g =
        filled-Filled u d va pp perm ys sp (set_ref-IsFreeList n pp _ ys w.free out) w.table
          old.user out (omega (arith, count, new.room)) in
      let looked = pa2page-ok n (entry m d va) (rw e (omega (arith, new.inside, w.npage))) in
      (
        rw (here, v, looked, e, same) refl,
        record {
          mapped = g.mapped;
          others = λ vb ne un. g.others vb ne ∙ w.entries vb un;
          space = g.space;
          free = g.free;
          ref = rw (v, e, same) (g.ref ∙ count);
          replaced = λ _ ne. absurd (ne e);
          refs = λ i h ne nq. g.refs i ne ∙ (ground arith) ∙ w.refs i h;
        },
      )

  other_runs :
      (u : Mm)
      → is_valid (entry m d va) ≡ true
      → ppn (entry m d va) ≢ pp
      → ppn (entry m d va) < n.npage
      → page_remove running (kva d) va n ≡ ok tt u
      → slot u d va ≡ slot n d va
      → insert_at running (kva d) pp va perm (some (slot n d va)) n
        ≡ ok done (filled d va pp perm u)
  unfolding insert_at make_room filled with_entry
  other_runs u v ne inside removed slots =
      let looked = pa2page-ok n (entry m d va) inside in
      let miss : (ppn (entry m d va) == pp) ≡ false = ground arith in
      rw (here, v, looked, miss, removed, slots) refl

  -- The page that was mapped at `va` is free afterwards exactly if it had one reference.
  freed_iff :
      (q : ℕ)
      → has q ys ≡ false
      → (n.pages q).pp_ref ≡ (m.pages q).pp_ref
      → has q (freed n q ys) ≡ ((m.pages q).pp_ref == 1)
  freed_iff q out e = rw e (ground arith)

  insert_other :
      is_valid (entry m d va) ≡ true
      → ppn (entry m d va) ≢ pp
      → (r : Mm) × (insert_at running (kva d) pp va perm (some (slot n d va)) n ≡ ok done r)
        × Inserted m d va pp perm xs r (freed n (ppn (entry n d va)) ys)
  insert_other v ne =
      let en = w.entries va unseen in
      let q = ppn (entry n d va) in
      let busy_page : InUse n d ys q = rw en (still_used _ (old.used v)) in
      let qref : (n.pages q).pp_ref ≡ (m.pages q).pp_ref = w.refs q (rw en (old.used v).busy) in
      let pos : 0 < (n.pages q).pp_ref = rw (qref, en) (old.pos v) in
      let bound : (n.pages q).pp_ref < 2 ^ 16 = rw (qref, en) (old.bound v) in
      let u = unmapped_at running d va q n in
      let rm =
        page_remove_lem running n d va ys w.space w.free (rw en v) busy_page pos bound old.user in
      let qne : q ≢ pp = rw en ne in
      let busy : has pp (freed n q ys) ≡ false = ground (arith, w.used pp new.busy, qne) in
      let keep : (u.pages pp).pp_ref ≡ (m.pages pp).pp_ref =
        rm.1.refs pp (λ e. qne (sym e)) ∙ w.refs pp new.busy in
      let g =
        filled-Filled u d va pp perm (freed n q ys) rm.1.space rm.1.free rm.1.table old.user busy
          (omega (arith, keep, new.room)) in
      let miss : (ppn (entry m d va) == pp) ≡ false = ground arith in
      (
        filled d va pp perm u,
        other_runs u v ne (rw (← en) busy_page.inside) rm.0 rm.1.slots,
        record {
          mapped = g.mapped;
          others = λ vb nv un. g.others vb nv ∙ rm.1.others vb nv ∙ w.entries vb un;
          space = g.space;
          free = g.free;
          ref = rw (v, miss) (g.ref ∙ ap (λ t. t + 1) keep);
          replaced = λ _ _.
              rw (← en)
                (ap (λ t. t + 1) (g.refs q qne) ∙ rm.1.ref ∙ qref, freed_iff q busy_page.busy qref);
          refs = λ i h ni nq. g.refs i ni ∙ rm.1.refs i (rw en (nq v)) ∙ w.refs i h;
        },
      )

-- The outcomes of page_insert.
pub data Insertion (running : Option ℕ) (m : Mm) (d va pp perm : ℕ) (xs : List ℕ) : Type 0 where
  inserted :
      (r : Mm) (zs : List ℕ)
      → page_insert running (kva d) pp va perm m ≡ ok done r
      → Inserted m d va pp perm xs r zs
      → Insertion running m d va pp perm xs
  no_table :
      xs ≡ []
      → is_valid (pde m d (pdx va)) ≡ false
      → page_insert running (kva d) pp va perm m ≡ ok no_mem m
      → Insertion running m d va pp perm xs

insert_after :
    (running : Option ℕ) (m : Mm) (d va pp perm : ℕ) (xs : List ℕ)
    → OldPage m d va xs
    → NewPage m xs pp
    → Walk m d va xs
    → Insertion running m d va pp perm xs
unfolding page_insert
insert_after running m d va pp perm xs old new (out_of_memory e t r) = no_table e t (rw r refl)
insert_after running m d va pp perm xs old new (walked n ys w) =
    elim (Bool-cases (is_valid (entry m d va))) [
      | inr v ↦
          let g = insert_fresh running m d va pp perm xs n ys w old new v in
          inserted _ ys (rw w.result g.0) g.1
      | inl v ↦ elim (Bool-cases (ppn (entry m d va) == pp)) [
        | inl e ↦
            let g = insert_same running m d va pp perm xs n ys w old new v (ground arith) in
            inserted _ ys (rw w.result g.0) g.1
        | inr e ↦
            let g = insert_other running m d va pp perm xs n ys w old new v (ground arith) in
            inserted g.0 _ (rw w.result g.1) g.2
      ]
    ]

-- In an address space whose tables are pages of memory in use, page_insert of a page that is not
-- free and whose count has room, at an address outside the UVPT and VPT windows where a page that
-- is mapped already is in use and counted, either fails for want of a page for the table, with
-- nothing changed, or maps the page as `Inserted` says.
pub page_insert_lem :
    (running : Option ℕ) (m : Mm) (d va pp perm : ℕ) (xs : List ℕ)
    → IsSpace m d xs
    → IsFreeList m xs
    → OldPage m d va xs
    → NewPage m xs pp
    → Insertion running m d va pp perm xs
page_insert_lem running m d va pp perm xs s f old new =
    insert_after running m d va pp perm xs old new (pgdir_walk_lem m d va xs s f)

-- Translations in the state that `Inserted` describes.
translations :
    (m r : Mm) (d va pp perm : ℕ) (xs zs : List ℕ)
    → Inserted m d va pp perm xs r zs
    → pp < 2 ^ 19
    → perm < 4096
    → (va2pa (kva d) va r ≡ ok (pp * 4096 + va % 4096) r)
      × ((vb : ℕ) → vpn vb ≢ vpn va → Unseen va vb → va2pa (kva d) vb r ≡ ok (translation m d vb) r)
translations m r d va pp perm xs zs i h p =
    let f = new_pte_fields pp perm h p in
    let v : is_valid (entry r d va) ≡ true = rw i.mapped f.2 in
    let a : pte_addr (entry r d va) ≡ pp * 4096 = rw i.mapped (omega (arith, f.1)) in
    (
      rw (va2pa-translation r d va zs i.space, v, a) refl,
      λ vb ne un. rw (va2pa-translation r d vb zs i.space, i.others vb ne un) refl,
    )

translated_after :
    (running : Option ℕ) (m r : Mm) (d va pp perm : ℕ) (xs : List ℕ)
    → pp < 2 ^ 19
    → perm < 4096
    → Insertion running m d va pp perm xs
    → page_insert running (kva d) pp va perm m ≡ ok done r
    → (va2pa (kva d) va r ≡ ok (pp * 4096 + va % 4096) r)
      × ((vb : ℕ) → vpn vb ≢ vpn va → Unseen va vb → va2pa (kva d) vb r ≡ ok (translation m d vb) r)
translated_after running m r d va pp perm xs h p (no_table e t g) done_eq = cc
translated_after running m r d va pp perm xs h p (inserted r' zs g i) done_eq =
    let same : r' ≡ r = cc in rw same at (translations m r' d va pp perm xs zs i h p)

-- In an address space whose tables are pages of memory in use, after a successful page_insert of a
-- page that is not free and whose count has room, with a permission below 4096, at an address
-- outside the UVPT and VPT windows where a page that is mapped already is in use and counted:
-- va2pa translates the address to the inserted page with the offset kept, and every address in
-- another page as it was translated before, but for the pages of the windows that show the table
-- for `va`.
pub va2pa-page_insert :
    (running : Option ℕ) (m r : Mm) (d va pp perm : ℕ) (xs : List ℕ)
    → IsSpace m d xs
    → IsFreeList m xs
    → OldPage m d va xs
    → NewPage m xs pp
    → perm < 4096
    → page_insert running (kva d) pp va perm m ≡ ok done r
    → (va2pa (kva d) va r ≡ ok (pp * 4096 + va % 4096) r)
      × ((vb : ℕ) → vpn vb ≢ vpn va → Unseen va vb → va2pa (kva d) vb r ≡ ok (translation m d vb) r)
va2pa-page_insert running m r d va pp perm xs s f old new p e =
    translated_after running m r d va pp perm xs (omega (arith, new.inside, f.small)) p
      (page_insert_lem running m d va pp perm xs s f old new) e
