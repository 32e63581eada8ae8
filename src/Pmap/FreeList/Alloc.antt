-- ===== src/Pmap/FreeList/Alloc.antt =====
-- page_alloc, page_free and page_decref against the list of free page numbers.
use cse_os.Base.{
  ◌%◌, Bool-cases, inl, inr, ℕ, suc, ◌+◌, ◌-◌, ◌*◌, ◌^◌, ◌≤◌, ◌<◌, ◌≡◌, refl, false, none, some,
  List, [], ◌∷◌, arith, ◌==◌, has, Distinct, All, All-mono, All-update, ◌∙◌, ◌≢◌, if◌then◌else◌,
}
use cse_os.Mmu.{by2pg, ulim}
use cse_os.Mm.{head_ref, Page, Mm, ok, zeroed, page2kva, kaddr}
use cse_os.Pmap.FreeList.{
  list_insert_head, take_page, page_alloc, page_free, page_decref, decrement_ref, set_ref,
}
use cse_os.Pmap.FreeList.Chain.{
  Chain, Chain-update, head_removed, list_remove-Chain, list_insert_head-Chain,
}

-- The address at which the kernel sees page `i`.
abbrev pub kva : ℕ → ℕ
kva i = i * 4096 + ulim

-- The free list holds the pages `xs`, in this order, each once and with no reference.
pub record IsFreeList (m : Mm) (xs : List ℕ) : Type 0 where
  pub chain : Chain m.pages head_ref m.free_first xs
  pub distinct : Distinct xs
  pub unused : All (λ i. (m.pages i).pp_ref ≡ 0) xs
  pub within : All (λ i. i < m.npage) xs
  pub small : m.npage ≤ 2 ^ 19

-- The free list depends on the pages, its head and the number of pages alone.
pub IsFreeList-cong :
    (m m' : Mm) (xs : List ℕ)
    → IsFreeList m xs
    → m'.pages ≡ m.pages
    → m'.free_first ≡ m.free_first
    → m'.npage ≡ m.npage
    → IsFreeList m' xs
IsFreeList-cong m m' xs f p o n = record {
  chain = rw (p, o) f.chain;
  distinct = f.distinct;
  unused = rw p f.unused;
  within = rw n f.within;
  small = rw n f.small;
}

pub page2kva-ok : (m : Mm) (i : ℕ) → i < m.npage → m.npage ≤ 2 ^ 19 → page2kva i m ≡ ok (kva i) m
unfolding page2kva kaddr
page2kva-ok m i h s = ground arith

-- What page_alloc does to the state when page `i` heads the list.
abbrev pub allocated : ℕ → Mm → Mm
allocated i m = head_removed i (record m { mem = zeroed m.mem (kva i) by2pg })

-- The reference counts, the page count and the TLB log stay as they were.
pub record SameRefs (m m' : Mm) : Type 0 where
  pub refs : (i : ℕ) → (m'.pages i).pp_ref ≡ (m.pages i).pp_ref
  pub npage : m'.npage ≡ m.npage
  pub tlb_outs : m'.tlb_outs ≡ m.tlb_outs

head_removed-SameRefs : (m : Mm) (i : ℕ) → SameRefs m (head_removed i m)
head_removed-SameRefs m i = record {
  refs = λ j. ground arith;
  npage = ground arith;
  tlb_outs = ground arith;
}

pub allocated-SameRefs : (m : Mm) (i : ℕ) → SameRefs m (allocated i m)
allocated-SameRefs m i =
    let s = head_removed-SameRefs (record m { mem = zeroed m.mem (kva i) by2pg }) i in
    record { refs = s.refs; npage = s.npage; tlb_outs = s.tlb_outs }

-- What page_alloc returns and leaves behind, for each list of free pages.
abbrev pub Allocates : Mm → List ℕ → Type 0
Allocates m [] = page_alloc m ≡ ok none m
Allocates m (x ∷ xs) =
    (page_alloc m ≡ ok (some x) (allocated x m))
    × IsFreeList (allocated x m) xs
    × SameRefs m (allocated x m)
    × ((allocated x m).mem ≡ zeroed m.mem (kva x) by2pg)

-- page_alloc fails exactly on the empty list, and then changes nothing; otherwise it takes the first
-- free page off the list, clears its 4096 bytes and no others, and changes no reference count.
pub page_alloc_lem : (m : Mm) (xs : List ℕ) → IsFreeList m xs → Allocates m xs
unfolding page_alloc take_page
page_alloc_lem m [] f = rw (f.chain, take_page) refl
page_alloc_lem m (x ∷ xs) f =
    let n = record m { mem = zeroed m.mem (kva x) by2pg } in
    let r = list_remove-Chain n x xs f.distinct f.chain in
    let s = allocated-SameRefs m x in
    (
      ground (arith, f.chain.0, r.0, page2kva-ok m x f.within.0 f.small),
      record {
        chain = r.1;
        distinct = f.distinct.1;
        unused = All-mono xs (λ a h. ground (arith, s.refs a)) f.unused.1;
        within = All-mono xs (λ a h. omega (arith, s.npage)) f.within.1;
        small = omega (arith, f.small, s.npage);
      },
      s,
      ground arith,
    )

pub list_insert_head-SameRefs : (m : Mm) (i : ℕ) → SameRefs m (list_insert_head i m)
unfolding list_insert_head
list_insert_head-SameRefs m i = record {
  refs = λ j. ground arith;
  npage = ground arith;
  tlb_outs = ground arith;
}

pub list_insert_head-IsFreeList :
    (m : Mm) (i : ℕ) (xs : List ℕ)
    → IsFreeList m xs
    → has i xs ≡ false
    → i < m.npage
    → (m.pages i).pp_ref ≡ 0
    → IsFreeList (list_insert_head i m) (i ∷ xs)
list_insert_head-IsFreeList m i xs f out h z =
    let s = list_insert_head-SameRefs m i in
    record {
      chain = list_insert_head-Chain m i xs (out, f.distinct) f.chain;
      distinct = (out, f.distinct);
      unused = (s.refs i ∙ z, All-mono xs (λ a g. s.refs a ∙ g) f.unused);
      within = (omega (arith, s.npage), All-mono xs (λ a g. omega (arith, s.npage)) f.within);
      small = omega (arith, f.small, s.npage);
    }

-- A new reference count for a page outside the list does not disturb the list.
pub set_ref-IsFreeList :
    (m : Mm) (i n : ℕ) (xs : List ℕ)
    → IsFreeList m xs
    → has i xs ≡ false
    → IsFreeList (set_ref i n m) xs
set_ref-IsFreeList m i n xs f out = record {
  chain = Chain-update m.pages head_ref m.free_first xs i _ out f.chain;
  distinct = f.distinct;
  unused = All-update (λ (p : Page). p.pp_ref ≡ 0) m.pages i _ xs out f.unused;
  within = f.within;
  small = f.small;
}

page_free_last : (m : Mm) (i : ℕ) → (m.pages i).pp_ref ≡ 0 → page_free i m ≡ list_insert_head i m
unfolding page_free
page_free_last m i z = rw z refl

decrement_ref_lem :
    (m : Mm) (i n : ℕ) → (m.pages i).pp_ref ≡ n + 1 → n < 65535 → decrement_ref i m ≡ set_ref i n m
unfolding decrement_ref
decrement_ref_lem m i n e h =
    let r : ((m.pages i).pp_ref + 2 ^ 16 - 1) % 2 ^ 16 ≡ n = omega arith in rw r refl

page_decref_last :
    (m : Mm) (i : ℕ) → (m.pages i).pp_ref ≡ 1 → page_decref i m ≡ list_insert_head i (set_ref i 0 m)
unfolding page_decref
page_decref_last m i e =
    let d : decrement_ref i m ≡ set_ref i 0 m =
      decrement_ref_lem m i 0 (omega arith) (omega arith) in
    let z : ((decrement_ref i m).pages i).pp_ref ≡ 0 = rw d (ground arith) in
    rw z (rw d (page_free_last (set_ref i 0 m) i (ground arith)))

page_decref_more :
    (m : Mm) (i n : ℕ)
    → (m.pages i).pp_ref ≡ suc n + 1
    → n < 65534
    → page_decref i m ≡ set_ref i (suc n) m
unfolding page_decref
page_decref_more m i n e h =
    let d : decrement_ref i m ≡ set_ref i (suc n) m =
      decrement_ref_lem m i (suc n) e (omega arith) in
    let z : (((decrement_ref i m).pages i).pp_ref == 0) ≡ false = rw d (ground arith) in rw z d

mem-list_insert_head : (m : Mm) (i : ℕ) → (list_insert_head i m).mem ≡ m.mem
unfolding list_insert_head
mem-list_insert_head m i = ground arith

-- page_decref takes one reference away, and gives the page back exactly when that was the last one.
pub page_decref_lem :
    (m : Mm) (i : ℕ) (xs : List ℕ)
    → IsFreeList m xs
    → has i xs ≡ false
    → i < m.npage
    → 0 < (m.pages i).pp_ref
    → (m.pages i).pp_ref < 2 ^ 16
    → IsFreeList (page_decref i m) (if (m.pages i).pp_ref == 1 then i ∷ xs else xs)
      × (((page_decref i m).pages i).pp_ref + 1 ≡ (m.pages i).pp_ref)
      × ((j : ℕ) → j ≢ i → ((page_decref i m).pages j).pp_ref ≡ (m.pages j).pp_ref)
      × ((page_decref i m).mem ≡ m.mem)
page_decref_lem m i xs f out h pos bound = elim (Bool-cases ((m.pages i).pp_ref == 1)) [
  | inl e ↦
      let n = set_ref i 0 m in
      let s = list_insert_head-SameRefs n i in
      let g =
        list_insert_head-IsFreeList n i xs (set_ref-IsFreeList m i 0 xs f out) out h
          (ground arith) in
      rw (page_decref_last m i (ground arith), e)
        (g, ground (arith, s.refs i), λ j ne. ground (arith, s.refs j), mem-list_insert_head n i)
  | inr e ↦
      rw (page_decref_more m i ((m.pages i).pp_ref - 2) (ground arith) (omega arith), e)
        (set_ref-IsFreeList m i _ xs f out, ground arith, λ j ne. ground arith, refl)
]

-- Whatever the count, page_decref leaves the memory and the number of pages alone.
pub mem-page_decref : (m : Mm) (i : ℕ) → (page_decref i m).mem ≡ m.mem
unfolding page_decref decrement_ref page_free
mem-page_decref m i = ground (arith, mem-list_insert_head (decrement_ref i m) i)

pub npage-page_decref : (m : Mm) (i : ℕ) → (page_decref i m).npage ≡ m.npage
unfolding page_decref decrement_ref page_free
npage-page_decref m i =
    let s = list_insert_head-SameRefs (decrement_ref i m) i in ground (arith, s.npage)

pub tlb_outs-page_decref : (m : Mm) (i : ℕ) → (page_decref i m).tlb_outs ≡ m.tlb_outs
unfolding page_decref decrement_ref page_free
tlb_outs-page_decref m i =
    let s = list_insert_head-SameRefs (decrement_ref i m) i in ground (arith, s.tlb_outs)
