-- ===== src/Pmap/FreeList/Init.antt =====
-- page_init: the pages below the end of the kernel are in use, the others make up the free list.
use cse_os.Base.{
  ℕ, zero, suc, ◌+◌, ◌-◌, ◌^◌, ◌≤◌, ◌<◌, ◌≡◌, refl, ◌∙◌, false, none, List, [], ◌∷◌, arith, has,
  All, All-mono, ltb, leb, ◌&&◌, ◌||◌, ◌==◌, inl, inr, Bool-cases,
}
use cse_os.Mmu.{ulim, ppn, round_page}
use cse_os.Mm.{Mm, ok, paddr}
use cse_os.Pmap.FreeList.{list_insert_head, set_ref, mark_used, mark_free, page_init}
use cse_os.Pmap.FreeList.Alloc.{
  IsFreeList, list_insert_head-IsFreeList, list_insert_head-SameRefs, set_ref-IsFreeList,
}

-- `count` numbers from `i` on, each put in front of the ones before it.
abbrev pub stack_up : ℕ → ℕ → List ℕ → List ℕ
stack_up zero i xs = xs
stack_up (suc count) i xs = stack_up count (i + 1) (i ∷ xs)

-- Such a list has exactly those numbers and the ones it started with.
has-stack_up :
    (j count i : ℕ) (xs : List ℕ)
    → has j (stack_up count i xs) ≡ ((leb i j && ltb j (i + count)) || has j xs)
has-stack_up j zero i xs = elim (Bool-cases (leb i j && ltb j (i + 0))) [
  | inl e ↦ absurd (ground arith)
  | inr e ↦ ground arith
]
has-stack_up j (suc count) i xs = ground (arith, has-stack_up j count (i + 1) (i ∷ xs))

not-has_of_lt : (i : ℕ) (xs : List ℕ) → All (λ a. a < i) xs → has i xs ≡ false
not-has_of_lt i [] h = refl
not-has_of_lt i (x ∷ xs) h = ground (arith, not-has_of_lt i xs h.1)

mark_used-below : (count i j : ℕ) (m : Mm) → j < i → (mark_used count i m).pages j ≡ m.pages j
unfolding mark_used
mark_used-below zero i j m h = refl
mark_used-below (suc count) i j m h =
    ground (arith, mark_used-below count (i + 1) j (set_ref i 1 m))

mark_used-pages :
    (count i j : ℕ) (m : Mm) → i ≤ j → j < i + count → ((mark_used count i m).pages j).pp_ref ≡ 1
unfolding mark_used
mark_used-pages zero i j m lo hi = absurd (omega arith)
mark_used-pages (suc count) i j m lo hi = elim (Bool-cases (j == i)) [
  | inl e ↦ ground (arith, mark_used-below count (i + 1) j (set_ref i 1 m))
  | inr e ↦ mark_used-pages count (i + 1) j (set_ref i 1 m) (ground arith) (ground arith)
]

mark_used-rest :
    (count i : ℕ) (m : Mm)
    → ((mark_used count i m).free_first ≡ m.free_first) × ((mark_used count i m).npage ≡ m.npage)
unfolding mark_used
mark_used-rest zero i m = (refl, refl)
mark_used-rest (suc count) i m = mark_used-rest count (i + 1) (set_ref i 1 m)

mark_free-refs :
    (count i j : ℕ) (m : Mm) → j < i → ((mark_free count i m).pages j).pp_ref ≡ (m.pages j).pp_ref
unfolding mark_free
mark_free-refs zero i j m h = refl
mark_free-refs (suc count) i j m h =
    let n = set_ref i 0 m in
    let s = list_insert_head-SameRefs n i in
    ground (arith, mark_free-refs count (i + 1) j (list_insert_head i n), s.refs j)

mark_free-npage : (count i : ℕ) (m : Mm) → (mark_free count i m).npage ≡ m.npage
unfolding mark_free
mark_free-npage zero i m = refl
mark_free-npage (suc count) i m =
    let s = list_insert_head-SameRefs (set_ref i 0 m) i in
    mark_free-npage count (i + 1) (list_insert_head i (set_ref i 0 m)) ∙ s.npage

mark_free-IsFreeList :
    (count i : ℕ) (m : Mm) (xs : List ℕ)
    → IsFreeList m xs
    → All (λ a. a < i) xs
    → i + count ≤ m.npage
    → IsFreeList (mark_free count i m) (stack_up count i xs)
unfolding mark_free
mark_free-IsFreeList zero i m xs f below fits = f
mark_free-IsFreeList (suc count) i m xs f below fits =
    let out = not-has_of_lt i xs below in
    let n = set_ref i 0 m in
    let s = list_insert_head-SameRefs n i in
    let g = set_ref-IsFreeList m i 0 xs f out in
    mark_free-IsFreeList count (i + 1) (list_insert_head i n) (i ∷ xs)
      (list_insert_head-IsFreeList n i xs g out (omega arith) (ground arith))
      (omega arith, All-mono xs (λ a h. omega arith) below) (omega (arith, s.npage))

-- What page_init leaves: the pages below `used` count one reference, and the free list holds just
-- the others, the highest in front.
pub record Initialised (m : Mm) (used : ℕ) (m' : Mm) : Type 0 where
  pub npage : m'.npage ≡ m.npage
  pub kernel : (j : ℕ) → j < used → (m'.pages j).pp_ref ≡ 1
  pub free : IsFreeList m' (stack_up (m.npage - used) used [])
  pub members : (j : ℕ) → has j (stack_up (m.npage - used) used []) ≡ (leb used j && ltb j m.npage)

paddr-ok : (a : ℕ) (m : Mm) → ulim ≤ a → paddr a m ≡ ok (a - ulim) m
unfolding paddr
paddr-ok a m h = let e : ltb a ulim ≡ false = ground arith in rw e refl

abbrev cleared : Mm → Mm
cleared m = record m { free_first = none; freemem = round_page m.freemem }

-- The page at which free memory begins.
abbrev pub first_free : Mm → ℕ
first_free m = ppn (round_page m.freemem - ulim)

abbrev pub initialised : Mm → Mm
initialised m =
    let used = first_free m in mark_free (m.npage - used) used (mark_used used 0 (cleared m))

-- With `freemem` in the kernel's segment and below the end of memory, page_init succeeds: it counts
-- one reference to each page below `freemem`, and frees exactly the pages from there to `npage`.
pub page_init_lem :
    (m : Mm)
    → ulim ≤ round_page m.freemem
    → first_free m ≤ m.npage
    → m.npage ≤ 2 ^ 19
    → (page_init m ≡ ok tt (initialised m)) × Initialised m (first_free m) (initialised m)
unfolding page_init
page_init_lem m lo hi small =
    let used = first_free m in
    let n = mark_used used 0 (cleared m) in
    let rest = mark_used-rest used 0 (cleared m) in
    let start : IsFreeList n [] = record {
      chain = rest.0;
      distinct = tt;
      unused = tt;
      within = tt;
      small = omega (arith, rest.1);
    } in
    (
      rw (paddr-ok (round_page m.freemem) (cleared m) lo, rest.1) refl,
      record {
        npage = mark_free-npage (m.npage - used) used n ∙ rest.1;
        kernel = λ j h.
            mark_free-refs (m.npage - used) used j n h
            ∙ mark_used-pages used 0 j (cleared m) (omega arith) (omega arith);
        free = mark_free-IsFreeList (m.npage - used) used n [] start tt (omega (arith, rest.1));
        members = λ j. ground (arith, has-stack_up j (m.npage - used) used []);
      },
    )
