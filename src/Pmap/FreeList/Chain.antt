-- ===== src/Pmap/FreeList/Chain.antt =====
-- The doubly linked list of free pages as the list of its page numbers, and what LIST_REMOVE at the
-- head and LIST_INSERT_HEAD do to it.
use cse_os.Base.{
  update, ℕ, ◌≡◌, refl, true, false, Option, none, some, List, [], ◌∷◌, arith, has, Distinct,
  ne_of_has,
}
use cse_os.Mm.{LinkRef, head_ref, next_ref, Page, Mm, ok}
use cse_os.Pmap.FreeList.{set_next, relink_next, list_remove, list_insert_head}

-- From `o`, which `r` points at, the links lead forward and back through the pages `xs` to NULL.
abbrev pub Chain : (ℕ → Page) → LinkRef → Option ℕ → List ℕ → Type 0
Chain p r o [] = o ≡ none
Chain p r o (i ∷ xs) = (o ≡ some i) × ((p i).le_prev ≡ r) × Chain p (next_ref i) (p i).le_next xs

-- Two states of the pages have the same links at `a`.
abbrev SameLinks : (ℕ → Page) → (ℕ → Page) → ℕ → Type 0
SameLinks p q a = ((q a).le_next ≡ (p a).le_next) × ((q a).le_prev ≡ (p a).le_prev)

pub Chain-frame :
    (p q : ℕ → Page) (r : LinkRef) (o : Option ℕ) (xs : List ℕ)
    → ((a : ℕ) → has a xs ≡ true → SameLinks p q a)
    → Chain p r o xs
    → Chain q r o xs
Chain-frame p q r o [] same c = c
Chain-frame p q r o (x ∷ xs) same c =
    let s : SameLinks p q x = same x (ground arith) in
    let rest : Chain q (next_ref x) (p x).le_next xs =
      Chain-frame p q (next_ref x) (p x).le_next xs (λ a h. same a (ground arith)) c.2 in
    (c.0, ground arith, rw s.0 rest)

-- Giving the first page of a chain another back link makes it a chain for that link.
relink-Chain :
    (m : Mm) (r s : LinkRef) (o : Option ℕ) (xs : List ℕ)
    → Distinct xs
    → Chain m.pages r o xs
    → Chain (relink_next o s m).pages s o xs
relink-Chain m r s none [] d c = refl
relink-Chain m r s none (x ∷ xs) d c = cc
relink-Chain m r s (some i) [] d c = cc
relink-Chain m r s (some i) (x ∷ xs) d c =
    let q = (relink_next (some i) s m).pages in
    let e : i ≡ x = ground (arith, c.0) in
    let rest : Chain q (next_ref x) (m.pages x).le_next xs =
      Chain-frame m.pages q (next_ref x) (m.pages x).le_next xs
        (λ a h. ground (arith, ne_of_has a x xs h d.0)) c.2 in
    let next : (m.pages x).le_next ≡ (q x).le_next = ground arith in
    (c.0, ground arith, rw (← next) rest)

-- Links that differ only at a page outside a chain leave it alone.
pub Chain-update :
    (p : ℕ → Page) (r : LinkRef) (o : Option ℕ) (xs : List ℕ) (i : ℕ) (v : Page)
    → has i xs ≡ false
    → Chain p r o xs
    → Chain (update p i v) r o xs
Chain-update p r o xs i v out c =
    Chain-frame p (update p i v) r o xs (λ a h. ground (arith, ne_of_has a i xs h out)) c

-- LIST_INSERT_HEAD puts the page in front, given that it is not in the list.
pub list_insert_head-Chain :
    (m : Mm) (i : ℕ) (xs : List ℕ)
    → Distinct (i ∷ xs)
    → Chain m.pages head_ref m.free_first xs
    → let m' = list_insert_head i m in Chain m'.pages head_ref m'.free_first (i ∷ xs)
unfolding list_insert_head
list_insert_head-Chain m i xs d c =
    let o = m.free_first in
    let m₁ = set_next i o m in
    let m₂ = relink_next o (next_ref i) m₁ in
    let v : Page = record (m₂.pages i) { le_prev = head_ref } in
    let c₁ : Chain m₁.pages head_ref o xs = Chain-update m.pages head_ref o xs i _ d.0 c in
    let c₂ : Chain m₂.pages (next_ref i) o xs = relink-Chain m₁ head_ref (next_ref i) o xs d.1 c₁ in
    let c₃ : Chain (update m₂.pages i v) (next_ref i) o xs =
      Chain-update m₂.pages (next_ref i) o xs i v d.0 c₂ in
    let e : o ≡ (update m₂.pages i v i).le_next = ground arith in (refl, ground arith, rw (← e) c₃)

-- The state after LIST_REMOVE of the first page of the list.
abbrev pub head_removed : ℕ → Mm → Mm
head_removed i m =
    let m' = relink_next (m.pages i).le_next head_ref m in
    record m' { free_first = (m'.pages i).le_next }

-- LIST_REMOVE of the first page leaves the rest of the list.
pub list_remove-Chain :
    (m : Mm) (i : ℕ) (xs : List ℕ)
    → Distinct (i ∷ xs)
    → Chain m.pages head_ref m.free_first (i ∷ xs)
    → let m' = head_removed i m in
      (list_remove i m ≡ ok tt m') × Chain m'.pages head_ref m'.free_first xs
unfolding list_remove
list_remove-Chain m i xs d c =
    let o = (m.pages i).le_next in
    let q = (relink_next o head_ref m).pages in
    let c' : Chain q head_ref o xs = relink-Chain m (next_ref i) head_ref o xs d.1 c.2 in
    let e : o ≡ (q i).le_next = ground arith in (ground arith, rw (← e) c')
