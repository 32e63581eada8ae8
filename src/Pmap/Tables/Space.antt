-- ===== src/Pmap/Tables/Space.antt =====
-- An address space as a function from virtual addresses to page table entries, and the invariant
-- under which the two-level tables in memory stand for such a function.
use cse_os.Base.{
  ℕ, ◌+◌, ◌*◌, ◌/◌, ◌%◌, ◌^◌, ◌≤◌, ◌<◌, ◌≡◌, refl, ◌≢◌, true, false, List, arith, Bool, ◌||◌, has,
  if◌then◌else◌, Bool-cases, inl, inr, leb, ap, ◌==◌, ==_iff,
}
use cse_os.Base.Bits.{or_aligned}
use cse_os.Mmu.{uvpt, vpt, pdx, ptx, pte_addr, is_valid, ppn}
use cse_os.Mm.{Mm, ok, kaddr}
use cse_os.Pmap.FreeList.Alloc.{kva}
use cse_os.Pmap.Tables.{unmapped, va2pa}

-- The number of the page that a 32-bit virtual address lies in.
abbrev pub vpn : ℕ → ℕ
vpn va = va / 4096 % 2 ^ 20

-- Entry `k` of the page directory on page `d`.
abbrev pub pde : Mm → ℕ → ℕ → ℕ
pde m d k = m.mem (kva d + 4 * k)

-- Where the page table entry for `va` stands, given that its table exists.
abbrev pub slot : Mm → ℕ → ℕ → ℕ
slot m d va = kva (ppn (pde m d (pdx va))) + 4 * ptx va

-- The page table entry for `va`, 0 if there is no table for it.
abbrev pub entry : Mm → ℕ → ℕ → ℕ
entry m d va = if is_valid (pde m d (pdx va)) then m.mem (slot m d va) else 0

-- The directory entries through which the tables themselves are seen: env_setup_vm points those of
-- UVPT and VPT at the directory.
abbrev pub is_window : ℕ → Bool
is_window k = (k == pdx uvpt) || (k == pdx vpt)

-- `vb` does not lie in a page of a window that shows the table for `va`.
abbrev pub Unseen : ℕ → ℕ → Type 0
Unseen va vb = is_window (pdx vb) ≡ true → ptx vb ≢ pdx va

-- The directory on page `d` and its tables are distinct pages of memory, but for the entries of
-- the windows, which may be the directory; none of them is free.
pub record IsSpace (m : Mm) (d : ℕ) (xs : List ℕ) : Type 0 where
  pub dir_in : d < m.npage
  pub dir_used : has d xs ≡ false
  pub small : m.npage ≤ 2 ^ 19
  pub table_in : (k : ℕ) → k < 1024 → ppn (pde m d k) < m.npage
  pub table_used :
      (k : ℕ) → k < 1024 → is_valid (pde m d k) ≡ true → has (ppn (pde m d k)) xs ≡ false
  pub table_ne_dir :
      (k : ℕ) → k < 1024 → is_window k ≡ false → is_valid (pde m d k) ≡ true → ppn (pde m d k) ≢ d
  pub tables_ne :
      (k l : ℕ)
      → k < 1024
      → l < 1024
      → is_valid (pde m d k) ≡ true
      → is_valid (pde m d l) ≡ true
      → is_window k ≡ false
      → k ≢ l
      → ppn (pde m d k) ≢ ppn (pde m d l)

-- What va2pa computes for `va`.
abbrev pub translation : Mm → ℕ → ℕ → ℕ
translation m d va =
    let pte = entry m d va in if is_valid pte then pte_addr pte + va % 4096 else unmapped

pub kaddr-page :
    (m : Mm) (pa : ℕ)
    → ppn pa < m.npage
    → m.npage ≤ 2 ^ 19
    → kaddr (pte_addr pa) m ≡ ok (kva (ppn pa)) m
unfolding kaddr
kaddr-page m pa h s =
    let e : ppn (pte_addr pa) ≡ ppn pa = omega arith in
    let f : leb m.npage (ppn (pte_addr pa)) ≡ false = rw e (ground arith) in rw f (ground arith)

-- va2pa reads the entry of the address space at every address, and changes nothing: it returns the
-- page address in the entry with the offset, or ~0 where no valid entry is found.
pub va2pa-translation :
    (m : Mm) (d va : ℕ) (xs : List ℕ)
    → IsSpace m d xs
    → va2pa (kva d) va m ≡ ok (translation m d va) m
unfolding va2pa
va2pa-translation m d va xs s = elim (Bool-cases (is_valid (pde m d (pdx va)))) [
  | inr no_table ↦ rw no_table refl
  | inl table ↦
      let e = kaddr-page m (pde m d (pdx va)) (s.table_in (pdx va) (omega arith)) s.small in
      let pte = m.mem (slot m d va) in
      rw (table, e, or_aligned (pte_addr pte) (va % 4096) (omega arith) (omega arith))
        (ground arith)
]

-- Two slots are the same word only for the same page of the address space.
pub slot_ne :
    (m : Mm) (d va vb : ℕ) (xs : List ℕ)
    → IsSpace m d xs
    → is_valid (pde m d (pdx va)) ≡ true
    → is_valid (pde m d (pdx vb)) ≡ true
    → is_window (pdx va) ≡ false
    → vpn va ≢ vpn vb
    → slot m d va ≢ slot m d vb
slot_ne m d va vb xs s p q user ne = elim (Bool-cases (pdx va == pdx vb)) [
  | inl e ↦ let f = ap (pde m d) ((==_iff (pdx va) (pdx vb)).0 e) in ground (arith, f)
  | inr e ↦
      let apart =
        s.tables_ne (pdx va) (pdx vb) (omega arith) (omega arith) p q user (ground arith) in
      omega arith
]

-- No slot is a word of the page directory.
pub slot-ne-pde :
    (m : Mm) (d va k : ℕ) (xs : List ℕ)
    → IsSpace m d xs
    → is_valid (pde m d (pdx va)) ≡ true
    → is_window (pdx va) ≡ false
    → k < 1024
    → slot m d va ≢ kva d + 4 * k
slot-ne-pde m d va k xs s p user h =
    let apart = s.table_ne_dir (pdx va) (omega arith) user p in omega arith

-- The invariant depends on the directory's entries, the number of pages and the free list alone.
pub IsSpace-cong :
    (m m' : Mm) (d : ℕ) (xs ys : List ℕ)
    → IsSpace m d xs
    → ((k : ℕ) → k < 1024 → pde m' d k ≡ pde m d k)
    → m'.npage ≡ m.npage
    → has d ys ≡ false
    → ((k : ℕ) → k < 1024 → is_valid (pde m d k) ≡ true → has (ppn (pde m d k)) ys ≡ false)
    → IsSpace m' d ys
IsSpace-cong m m' d xs ys s same n dir used = record {
  dir_in = omega (arith, s.dir_in, n);
  dir_used = dir;
  small = omega (arith, s.small, n);
  table_in = λ k h. rw (same k h, n) (s.table_in k h);
  table_used = λ k h v. rw (same k h) (used k h (rw (same k h) at v));
  table_ne_dir = λ k h nw v. rw (same k h) (s.table_ne_dir k h nw (rw (same k h) at v));
  tables_ne = λ k l hk hl vk vl nw ne.
      rw (same k hk, same l hl)
        (s.tables_ne k l hk hl (rw (same k hk) at vk) (rw (same l hl) at vl) nw ne);
}
