-- ===== src/Pmap/Tables/Walk.antt =====
-- pgdir_walk: it finds the slot of an address, and builds the missing table when asked to.
use cse_os.Base.{
  ℕ, ◌+◌, ◌*◌, ◌^◌, ◌<◌, ◌≡◌, refl, ◌≢◌, Bool, true, false, List, arith, has, if◌then◌else◌,
  Bool-cases, inl, inr, bit_or, [], ◌∷◌, none, some, ◌==◌, ==_iff, ap, update,
}
use cse_os.Base.Bits.{or-page, or_valid, or_valid_left}
use cse_os.Mmu.{pdx, ptx, is_valid, ppn, pte_v, pte_r, by2pg}
use cse_os.Mm.{Mm, ok, page2pa, zeroed}
use cse_os.Pmap.FreeList.{increment_ref}
use cse_os.Pmap.FreeList.Alloc.{
  kva, IsFreeList, IsFreeList-cong, allocated, page_alloc_lem, page2kva-ok, set_ref-IsFreeList,
}
use cse_os.Pmap.Tables.{pgdir_walk, done, no_mem}
use cse_os.Pmap.Tables.Space.{pde, slot, entry, IsSpace, is_window, Unseen, kaddr-page}

-- The directory entry of a new table on page `x`.
abbrev new_pde : ℕ → ℕ
new_pde x = bit_or (bit_or (page2pa x) pte_v) pte_r

new_pde_fields : (x : ℕ) → x < 2 ^ 19 → (ppn (new_pde x) ≡ x) × (is_valid (new_pde x) ≡ true)
new_pde_fields x h =
    let a = page2pa x in
    let v = or_valid_left (bit_or a pte_v) pte_r (or_valid a) in
    (
      omega (arith, or-page (bit_or a pte_v) pte_r (omega arith), or-page a pte_v (omega arith)),
      (==_iff _ _).1 v,
    )

-- An existing table: the slot, and nothing changes.
pub pgdir_walk_found :
    (m : Mm) (d va : ℕ) (create : Bool) (xs : List ℕ)
    → IsSpace m d xs
    → is_valid (pde m d (pdx va)) ≡ true
    → pgdir_walk (kva d) va create m ≡ ok (done, some (slot m d va)) m
unfolding pgdir_walk
pgdir_walk_found m d va create xs s table =
    rw (kaddr-page m (pde m d (pdx va)) (s.table_in (pdx va) (omega arith)) s.small, table) refl

-- The state after the walk has built a table on page `x`.
unfoldable pub with_table : ℕ → ℕ → ℕ → Mm → Mm
with_table x d va m =
    let n = allocated x m in
    increment_ref x (record n { mem = update n.mem (kva d + 4 * pdx va) (new_pde x) })

module _ (m : Mm) (d va x : ℕ) (xs : List ℕ) (s : IsSpace m d (x ∷ xs)) (f : IsFreeList m (x ∷ xs))
    (no_table : is_valid (pde m d (pdx va)) ≡ false) where
  pgdir_walk_new :
      pgdir_walk (kva d) va true m ≡ ok (done, some (kva x + 4 * ptx va)) (with_table x d va m)
  unfolding pgdir_walk with_table
  pgdir_walk_new =
      let al = page_alloc_lem m (x ∷ xs) f in
      let g = al.1 in
      rw
        (
          kaddr-page m (pde m d (pdx va)) (s.table_in (pdx va) (omega arith)) s.small,
          no_table,
          al.0,
          page2kva-ok (allocated x m) x (omega (arith, al.2.npage, f.within.0)) g.small,
        )
        refl

  mem-with_table :
      (a : ℕ)
      → (with_table x d va m).mem a
        ≡ (if a == kva d + 4 * pdx va then new_pde x else zeroed m.mem (kva x) by2pg a)
  unfolding increment_ref with_table
  mem-with_table a =
      let al = page_alloc_lem m (x ∷ xs) f in
      ap (λ (g : ℕ → ℕ). update g (kva d + 4 * pdx va) (new_pde x) a) al.3

  pde-with_table :
      (k : ℕ)
      → k < 1024
      → pde (with_table x d va m) d k ≡ (if k == pdx va then new_pde x else pde m d k)
  pde-with_table k h = ground (arith, mem-with_table (kva d + 4 * k), s.dir_used)

  apart_words :
      (t j l : ℕ) → (t ≡ d → j ≢ l) → j < 1024 → l < 1024 → (kva t + 4 * j == kva d + 4 * l) ≡ false
  apart_words t j l ne h h' = elim (Bool-cases (t == d)) [
    | inl e ↦ let ne' = ne ((==_iff t d).0 e) in ground (arith, ne')
    | inr e ↦ ground arith
  ]

  -- The words of another page: the new table is empty, the others are as they were.
  page-with_table :
      (t j : ℕ)
      → (t ≡ d → j ≢ pdx va)
      → j < 1024
      → (with_table x d va m).mem (kva t + 4 * j) ≡ (if t == x then 0 else m.mem (kva t + 4 * j))
  page-with_table t j ne h =
      let miss : (kva t + 4 * j == kva d + 4 * pdx va) ≡ false =
        apart_words t j (pdx va) ne h (omega arith) in
      rw (mem-with_table (kva t + 4 * j), miss) (ground arith)

  table_is_new : ppn (new_pde x) ≡ x
  table_is_new = (new_pde_fields x (omega (arith, f.within.0, f.small))).0

  new_is_valid : is_valid (new_pde x) ≡ true
  new_is_valid = (new_pde_fields x (omega (arith, f.within.0, f.small))).1

  x_ne_dir : x ≢ d
  x_ne_dir = ground (arith, s.dir_used)

  entry-with_table_same :
      (vb : ℕ) → pdx vb ≡ pdx va → entry (with_table x d va m) d vb ≡ entry m d vb
  entry-with_table_same vb e =
      let p : pde (with_table x d va m) d (pdx vb) ≡ new_pde x =
        ground (arith, pde-with_table (pdx vb) (omega arith)) in
      let z : (with_table x d va m).mem (kva x + 4 * ptx vb) ≡ 0 =
        ground (arith, page-with_table x (ptx vb) (λ w. absurd (x_ne_dir w)) (omega arith)) in
      rw (p, new_is_valid, table_is_new, z, e, no_table) refl

  seen :
      (vb : ℕ)
      → Unseen va vb
      → is_valid (pde m d (pdx vb)) ≡ true
      → ppn (pde m d (pdx vb)) ≡ d
      → ptx vb ≢ pdx va
  seen vb unseen v same = elim (Bool-cases (is_window (pdx vb))) [
    | inl e ↦ unseen e
    | inr e ↦ absurd (s.table_ne_dir (pdx vb) (omega arith) e v same)
  ]

  entry-with_table_other :
      (vb : ℕ) → pdx vb ≢ pdx va → Unseen va vb → entry (with_table x d va m) d vb ≡ entry m d vb
  entry-with_table_other vb ne unseen =
      let p : pde (with_table x d va m) d (pdx vb) ≡ pde m d (pdx vb) =
        ground (arith, pde-with_table (pdx vb) (omega arith)) in
      elim (Bool-cases (is_valid (pde m d (pdx vb)))) [
        | inr e ↦ rw (p, e) refl
        | inl e ↦
            let t = ppn (pde m d (pdx vb)) in
            let apart : t ≡ d → ptx vb ≢ pdx va = seen vb unseen e in
            let used : has t (x ∷ xs) ≡ false = s.table_used (pdx vb) (omega arith) e in
            let z : (with_table x d va m).mem (slot m d vb) ≡ m.mem (slot m d vb) =
              ground (arith, page-with_table t (ptx vb) apart (omega arith)) in
            rw (p, e) z
      ]

  entry-with_table : (vb : ℕ) → Unseen va vb → entry (with_table x d va m) d vb ≡ entry m d vb
  entry-with_table vb unseen = elim (Bool-cases (pdx vb == pdx va)) [
    | inl e ↦ entry-with_table_same vb ((==_iff (pdx vb) (pdx va)).0 e)
    | inr e ↦ entry-with_table_other vb (ground arith) unseen
  ]

  npage-with_table : (with_table x d va m).npage ≡ m.npage
  unfolding increment_ref with_table
  npage-with_table = (page_alloc_lem m (x ∷ xs) f).2.npage

  with_table-IsSpace : IsSpace (with_table x d va m) d xs
  with_table-IsSpace = record {
    dir_in = omega (arith, s.dir_in, npage-with_table);
    dir_used = ground (arith, s.dir_used);
    small = omega (arith, s.small, npage-with_table);
    table_in = λ k h.
        ground
          (arith, pde-with_table k h, s.table_in k h, table_is_new, npage-with_table, f.within.0);
    table_used =
        λ k h v. ground (arith, pde-with_table k h, s.table_used k h, table_is_new, f.distinct.0);
    table_ne_dir = λ k h nw v.
        ground (arith, pde-with_table k h, s.table_ne_dir k h nw, table_is_new, x_ne_dir);
    tables_ne = λ k l hk hl vk vl nw ne. ground (
      arith,
      pde-with_table k hk,
      pde-with_table l hl,
      s.table_used k hk,
      s.table_used l hl,
      table_is_new,
      s.tables_ne k l hk hl,
    );
  }

  with_table-IsFreeList : IsFreeList (with_table x d va m) xs
  unfolding with_table increment_ref
  with_table-IsFreeList =
      let g = (page_alloc_lem m (x ∷ xs) f).1 in
      let n = allocated x m in
      let n' = record n { mem = update n.mem (kva d + 4 * pdx va) (new_pde x) } in
      let g' = IsFreeList-cong n n' xs g refl refl refl in
      set_ref-IsFreeList n' x _ xs g' f.distinct.0

  refs-with_table : (i : ℕ) → i ≢ x → ((with_table x d va m).pages i).pp_ref ≡ (m.pages i).pp_ref
  unfolding with_table increment_ref
  refs-with_table i ne =
      let r = (page_alloc_lem m (x ∷ xs) f).2.refs i in
      let miss : (i == x) ≡ false = ground arith in rw miss r

-- The walk has found or built the table for `va`: no entry of the address space has changed but the
-- one that shows a new table in a window, pages that were in use still are, with the references
-- that they had.
pub record Walked (m : Mm) (d va : ℕ) (xs : List ℕ) (n : Mm) (ys : List ℕ) : Type 0 where
  pub result : pgdir_walk (kva d) va true m ≡ ok (done, some (slot n d va)) n
  pub table : is_valid (pde n d (pdx va)) ≡ true
  pub entries : (vb : ℕ) → Unseen va vb → entry n d vb ≡ entry m d vb
  pub space : IsSpace n d ys
  pub free : IsFreeList n ys
  pub npage : n.npage ≡ m.npage
  pub used : (i : ℕ) → has i xs ≡ false → has i ys ≡ false
  pub refs : (i : ℕ) → has i xs ≡ false → (n.pages i).pp_ref ≡ (m.pages i).pp_ref
  pub tables : (k : ℕ) → k < 1024 → has (ppn (pde n d k)) xs ≡ false → pde n d k ≡ pde m d k

-- The outcomes of a walk that may build a table.
pub data Walk (m : Mm) (d va : ℕ) (xs : List ℕ) : Type 0 where
  walked : (n : Mm) (ys : List ℕ) → Walked m d va xs n ys → Walk m d va xs
  out_of_memory :
      xs ≡ []
      → is_valid (pde m d (pdx va)) ≡ false
      → pgdir_walk (kva d) va true m ≡ ok (no_mem, none) m
      → Walk m d va xs

build :
    (m : Mm) (d va : ℕ) (xs : List ℕ)
    → IsSpace m d xs
    → IsFreeList m xs
    → is_valid (pde m d (pdx va)) ≡ false
    → Walk m d va xs
unfolding pgdir_walk
build m d va [] s f none_yet =
    let k = kaddr-page m (pde m d (pdx va)) (s.table_in (pdx va) (omega arith)) s.small in
    out_of_memory refl none_yet (rw (k, none_yet, page_alloc_lem m [] f) refl)
build m d va (x ∷ xs) s f none_yet =
    let p : pde (with_table x d va m) d (pdx va) ≡ new_pde x =
      ground (arith, pde-with_table m d va x xs s f none_yet (pdx va) (omega arith)) in
    let e : ppn (new_pde x) ≡ x = table_is_new m d va x xs s f none_yet in
    let v : is_valid (new_pde x) ≡ true = new_is_valid m d va x xs s f none_yet in
    walked (with_table x d va m) xs (record {
      result = rw (p, e) (pgdir_walk_new m d va x xs s f none_yet);
      table = rw p v;
      entries = entry-with_table m d va x xs s f none_yet;
      space = with_table-IsSpace m d va x xs s f none_yet;
      free = with_table-IsFreeList m d va x xs s f none_yet;
      npage = npage-with_table m d va x xs s f none_yet;
      used = λ i h. ground arith;
      refs = λ i h. refs-with_table m d va x xs s f none_yet i (ground arith);
      tables = λ k h out. ground (arith, pde-with_table m d va x xs s f none_yet k h, e);
    })

-- In an address space whose tables are pages of memory in use, pgdir_walk with `create` fails only
-- when a table is missing and no page is free, and then changes nothing; otherwise it returns the
-- address of the entry for `va`, in a table that exists afterwards, and no entry of the address
-- space changes, except that a new table may appear in the pages of the UVPT and VPT windows that
-- stand for it.
pub pgdir_walk_lem :
    (m : Mm) (d va : ℕ) (xs : List ℕ) → IsSpace m d xs → IsFreeList m xs → Walk m d va xs
pgdir_walk_lem m d va xs s f = elim (Bool-cases (is_valid (pde m d (pdx va)))) [
  | inr none_yet ↦ build m d va xs s f none_yet
  | inl table ↦ walked m xs (record {
    result = pgdir_walk_found m d va true xs s table;
    table = table;
    entries = λ vb u. refl;
    space = s;
    free = f;
    npage = refl;
    used = λ i h. h;
    refs = λ i h. refl;
    tables = λ k h out. refl;
  })
]
