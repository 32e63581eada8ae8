-- ===== src/Env/Setup.antt =====
-- env_setup_vm: the page directory of a new environment.
pub mod Windows
use cse_os.Base.{
  ℕ, zero, suc, ◌+◌, ◌-◌, ◌*◌, ◌%◌, ◌^◌, ◌≤◌, ◌<◌, ◌≡◌, refl, ◌≢◌, ap, ◌∙◌, some, Bool, true, false,
  List, ◌∷◌, arith, ◌==◌, ==_iff, if◌then◌else◌, Bool-cases, inl, inr, update, ◌&&◌, leb, ltb,
  bit_or, has, sym,
}
use cse_os.Base.Bits.{or-page}
use cse_os.Mmu.{utop, vpt, uvpt, pte2pt, pte_v, pte_r, pdx, by2pg, ppn, is_valid}
use cse_os.Mm.{Mm, ok, page2pa, and_then, zeroed}
use cse_os.Pmap.FreeList.{increment_ref}
use cse_os.Pmap.FreeList.Alloc.{
  kva, IsFreeList, IsFreeList-cong, allocated, page_alloc_lem, page2kva-ok, set_ref-IsFreeList,
}
use cse_os.Pmap.Tables.Space.{pde, IsSpace, is_window}
use cse_os.Env.{zero_entries, copy_entries, fill_entries, setup_page, env_setup_vm}

abbrev in_range : ℕ → ℕ → ℕ → Bool
in_range i count k = leb i k && ltb k (i + count)

zero_entries-at :
    (count i pgdir k : ℕ) (mem : ℕ → ℕ)
    → zero_entries count i pgdir mem (pgdir + 4 * k)
      ≡ (if in_range i count k then 0 else mem (pgdir + 4 * k))
unfolding zero_entries
zero_entries-at zero i pgdir k mem = ground arith
zero_entries-at (suc count) i pgdir k mem =
    ground (arith, zero_entries-at count (i + 1) pgdir k (update mem (pgdir + 4 * i) 0))

zero_entries-elsewhere :
    (count i pgdir a : ℕ) (mem : ℕ → ℕ)
    → ((j : ℕ) → j < i + count → (a == pgdir + 4 * j) ≡ false)
    → zero_entries count i pgdir mem a ≡ mem a
unfolding zero_entries
zero_entries-elsewhere zero i pgdir a mem out = refl
zero_entries-elsewhere (suc count) i pgdir a mem out =
    zero_entries-elsewhere count (i + 1) pgdir a (update mem (pgdir + 4 * i) 0)
      (λ j h. out j (omega arith))
    ∙ rw (out i (omega arith)) refl

copy_entries-elsewhere :
    (count i pgdir boot a : ℕ) (mem : ℕ → ℕ)
    → ((j : ℕ) → j < i + count → (a == pgdir + 4 * j) ≡ false)
    → copy_entries count i pgdir boot mem a ≡ mem a
unfolding copy_entries
copy_entries-elsewhere zero i pgdir boot a mem out = refl
copy_entries-elsewhere (suc count) i pgdir boot a mem out =
    copy_entries-elsewhere count (i + 1) pgdir boot a
      (update mem (pgdir + 4 * i) (mem (boot + 4 * i))) (λ j h. out j (omega arith))
    ∙ rw (out i (omega arith)) refl

-- The two directories lie apart.
abbrev pub Apart : ℕ → ℕ → Type 0
Apart pgdir boot = (j k : ℕ) → j < pte2pt → k < pte2pt → (boot + 4 * j == pgdir + 4 * k) ≡ false

copy_entries-at :
    (count i pgdir boot k : ℕ) (mem : ℕ → ℕ)
    → Apart pgdir boot
    → k < pte2pt
    → i + count ≤ pte2pt
    → copy_entries count i pgdir boot mem (pgdir + 4 * k)
      ≡ (if in_range i count k then mem (boot + 4 * k) else mem (pgdir + 4 * k))
unfolding copy_entries
copy_entries-at zero i pgdir boot k mem apart hk h = ground arith
copy_entries-at (suc count) i pgdir boot k mem apart hk h =
    let rest = update mem (pgdir + 4 * i) (mem (boot + 4 * i)) in
    let ih = copy_entries-at count (i + 1) pgdir boot k rest apart hk (omega arith) in
    let same : rest (boot + 4 * k) ≡ mem (boot + 4 * k) = rw (apart k i hk (omega arith)) refl in
    ground arith

below_utop : (k : ℕ) → ltb k 508 ≡ true → (in_range 508 516 k ≡ false) × (in_range 0 508 k ≡ true)
below_utop k h = ground arith

above_utop : (k : ℕ) → ltb k 508 ≡ false → k < 1024 → in_range 508 516 k ≡ true
above_utop k h g = ground arith

fill_entries-at :
    (pgdir boot k : ℕ) (m : Mm)
    → Apart pgdir boot
    → k < pte2pt
    → (fill_entries pgdir boot m).mem (pgdir + 4 * k)
      ≡ (if ltb k (pdx utop) then 0 else m.mem (boot + 4 * k))
unfolding fill_entries
fill_entries-at pgdir boot k m apart hk =
    let z = zero_entries (pdx utop) 0 pgdir m.mem in
    let c = copy_entries-at (pte2pt - pdx utop) (pdx utop) pgdir boot k z apart hk (omega arith) in
    let d = zero_entries-at (pdx utop) 0 pgdir k m.mem in
    let e =
      zero_entries-elsewhere (pdx utop) 0 pgdir (boot + 4 * k) m.mem
        (λ j h. apart k j hk (omega arith)) in
    elim (Bool-cases (ltb k (pdx utop))) [
      | inl t ↦
          let high : in_range (pdx utop) (pte2pt - pdx utop) k ≡ false = (below_utop k t).0 in
          let low : in_range 0 (pdx utop) k ≡ true = (below_utop k t).1 in
          c ∙ rw high (d ∙ rw (low, t) refl)
      | inr g ↦
          let high : in_range (pdx utop) (pte2pt - pdx utop) k ≡ true = above_utop k g hk in
          c ∙ rw high (e ∙ rw g refl)
    ]

-- The entries of the new directory on page `p`, where the kernel's directory is on page `b`.
abbrev pub entry_of : Mm → ℕ → ℕ → ℕ → ℕ
entry_of m p b k =
    if k == pdx uvpt
    then bit_or (bit_or (page2pa p) pte_v) pte_r
    else if k == pdx vpt
    then bit_or (page2pa p) pte_v
    else if ltb k (pdx utop)
    then 0
    else pde m b k

-- The directory of page `p`, filled in.
filled_in : Mm → ℕ → ℕ → Mm
filled_in n p b =
    let g = fill_entries (kva p) (kva b) (increment_ref p n) in
    let v = update g.mem (kva p + 4 * pdx vpt) (bit_or (page2pa p) pte_v) in
    record g { mem = update v (kva p + 4 * pdx uvpt) (bit_or (bit_or (page2pa p) pte_v) pte_r) }

npage-increment_ref : (p : ℕ) (n : Mm) → (increment_ref p n).npage ≡ n.npage
unfolding increment_ref
npage-increment_ref p n = refl

setup_page-ok :
    (n : Mm) (p b : ℕ)
    → p < n.npage
    → n.npage ≤ 2 ^ 19
    → setup_page (kva b) (some p) n ≡ ok (kva p, page2pa p) (filled_in n p b)
unfolding setup_page filled_in
setup_page-ok n p b h small =
    let npage : (increment_ref p n).npage ≡ n.npage = npage-increment_ref p n in
    rw (page2kva-ok (increment_ref p n) p (omega arith) (omega arith)) refl

offset_eq : (a j k : ℕ) → (a + 4 * k == a + 4 * j) ≡ (k == j)
offset_eq a j k = ground arith

filled_in-ref : (n : Mm) (p b : ℕ) → (n.pages p).pp_ref ≡ 0 → ((filled_in n p b).pages p).pp_ref ≡ 1
unfolding filled_in fill_entries increment_ref
filled_in-ref n p b z = rw ((==_iff p p).1 refl, z) refl

filled_in-at :
    (n : Mm) (p b k : ℕ)
    → Apart (kva p) (kva b)
    → k < 1024
    → pde (filled_in n p b) p k ≡ (
        if k == pdx uvpt
        then bit_or (bit_or (page2pa p) pte_v) pte_r
        else if k == pdx vpt
        then bit_or (page2pa p) pte_v
        else if ltb k (pdx utop)
        then 0
        else n.mem (kva b + 4 * k))
unfolding filled_in increment_ref
filled_in-at n p b k apart h =
    let fl = fill_entries-at (kva p) (kva b) k (increment_ref p n) apart h in
    rw (offset_eq (kva p) (pdx uvpt) k, offset_eq (kva p) (pdx vpt) k, fl) refl

module _ (m : Mm) (p b : ℕ) (ps : List ℕ) (f : IsFreeList m (p ∷ ps)) where
  -- The state with the new directory.
  set_up : Mm
  set_up = filled_in (allocated p m) p b

  env_setup_vm-ok : env_setup_vm (kva b) m ≡ ok (kva p, page2pa p) set_up
  unfolding env_setup_vm set_up
  env_setup_vm-ok =
      let al = page_alloc_lem m (p ∷ ps) f in
      ap (λ o. and_then o (setup_page (kva b))) al.0
      ∙ setup_page-ok (allocated p m) p b (omega (arith, al.2.npage, f.within.0)) al.1.small

  kernel_entry : (k : ℕ) → b ≢ p → k < 1024 → (allocated p m).mem (kva b + 4 * k) ≡ pde m b k
  kernel_entry k ne h =
      let al = page_alloc_lem m (p ∷ ps) f in
      let z : zeroed m.mem (kva p) by2pg (kva b + 4 * k) ≡ pde m b k = ground arith in
      ap (λ (g : ℕ → ℕ). g (kva b + 4 * k)) al.3 ∙ z

  pde-set_up : (k : ℕ) → b ≢ p → k < 1024 → pde set_up p k ≡ entry_of m p b k
  unfolding set_up
  pde-set_up k ne h =
      rw (filled_in-at (allocated p m) p b k (λ i j hi hj. ground arith) h, kernel_entry k ne h)
        refl

  set_up-IsFreeList : IsFreeList set_up ps
  unfolding set_up filled_in fill_entries increment_ref
  set_up-IsFreeList =
      let al = page_alloc_lem m (p ∷ ps) f in
      let g = set_ref-IsFreeList (allocated p m) p _ ps al.1 f.distinct.0 in
      IsFreeList-cong _ _ ps g refl refl refl

  -- env_setup_vm takes the first free page as the page directory and counts a reference to it: below
  -- UTOP its entries are empty, above they are the kernel's, and at VPT and UVPT it maps itself.
  pub env_setup_vm_lem :
      b ≢ p
      → (n : Mm) × (env_setup_vm (kva b) m ≡ ok (kva p, page2pa p) n)
        × IsFreeList n ps
        × ((n.pages p).pp_ref ≡ 1)
        × ((k : ℕ) → pde n p (k % 1024) ≡ entry_of m p b (k % 1024))
  unfolding set_up
  env_setup_vm_lem ne =
      let al = page_alloc_lem m (p ∷ ps) f in
      (
        set_up,
        env_setup_vm-ok,
        set_up-IsFreeList,
        filled_in-ref (allocated p m) p b (al.2.refs p ∙ f.unused.0),
        λ k. pde-set_up (k % 1024) ne (omega arith),
      )

  npage-set_up : set_up.npage ≡ m.npage
  unfolding set_up filled_in fill_entries increment_ref
  npage-set_up = (page_alloc_lem m (p ∷ ps) f).2.npage
