-- ===== src/Mm.antt =====
-- The state of the memory manager (mm/pmap.c, inc/pmap.h) and the commands over it.
-- Page control blocks are named by their index in `pages`, so a `struct Page *` is a number, and
-- NULL is `none`. `mem` holds the words of physical memory by their kernel virtual address.
use cse_os.Base.{ℕ, ◌+◌, ◌-◌, ◌*◌, ◌%◌, ◌&&◌, Option, List, ltb, leb, update, if◌then◌else◌}
use cse_os.Mmu.{word, ulim, ppn}

-- What `le_prev` points at: the head of the free list, or the `le_next` of a page.
pub data LinkRef : Type 0 where
  null_ref : LinkRef
  head_ref : LinkRef
  next_ref : ℕ → LinkRef

-- `struct Page`; `pp_ref` is a `u_short`.
pub record Page : Type 0 where
  pub le_next : Option ℕ
  pub le_prev : LinkRef
  pub pp_ref : ℕ

pub record Mm : Type 0 where
  pub mem : ℕ → ℕ
  pub pages : ℕ → Page
  pub free_first : Option ℕ
  pub npage : ℕ
  pub maxpa : ℕ
  pub freemem : ℕ
  pub tlb_outs : List ℕ
  pub tlb_count : ℕ

-- `panic` is a call of panic(), `fault` an access through NULL.
pub data Outcome (A : Type 0) : Type 0 where
  ok : A → Mm → Outcome A
  panic : Outcome A
  fault : Outcome A

abbrev pub M : Type 0 → Type 0
M A = Mm → Outcome A

module _ {A B : Type 0} where
  abbrev pub and_then : Outcome A → (A → M B) → Outcome B
  and_then (ok a m) k = k a m
  and_then panic k = panic
  and_then fault k = fault

  infixl 5 ◌>>=◌ ◌>>◌
  abbrev pub ◌>>=◌ : M A → (A → M B) → M B
  (c >>= k) m = and_then (c m) k

  abbrev pub ◌>>◌ : M A → M B → M B
  (c >> k) m = and_then (c m) (λ _. k)

abbrev pub pure : {A : Type 0} → A → M A
pure a m = ok a m

abbrev pub gets : {A : Type 0} → (Mm → A) → M A
gets f m = ok (f m) m

abbrev pub modify : (Mm → Mm) → M (Unit {0})
modify f m = ok tt (f m)

abbrev pub read : ℕ → M ℕ
read a = gets λ m. m.mem a

abbrev pub write : ℕ → ℕ → M (Unit {0})
write a v = modify λ m. record m { mem = update m.mem a v }

-- The words from `a` on, `n` bytes of them, become zero.
abbrev pub zeroed : (ℕ → ℕ) → ℕ → ℕ → ℕ → ℕ
zeroed f a n b = if leb a b && ltb b (a + n) then 0 else f b

abbrev pub bzero : ℕ → ℕ → M (Unit {0})
bzero a n = modify λ m. record m { mem = zeroed m.mem a n }

-- PADDR and KADDR of inc/mmu.h.
unfoldable pub paddr : ℕ → M ℕ
paddr kva = if ltb kva ulim then (λ _. panic) else pure (kva - ulim)

unfoldable pub kaddr : ℕ → M ℕ
kaddr pa m = if leb m.npage (ppn pa) then panic else ok ((pa + ulim) % word) m

-- page2ppn, page2pa, pa2page and page2kva of mm/pmap.c.
abbrev pub page2ppn : ℕ → ℕ
page2ppn pp = pp

abbrev pub page2pa : ℕ → ℕ
page2pa pp = page2ppn pp * 4096 % word

unfoldable pub pa2page : ℕ → M ℕ
pa2page pa m = if leb m.npage (ppn pa) then panic else ok (ppn pa) m

unfoldable pub page2kva : ℕ → M ℕ
unfolding kaddr
page2kva pp = kaddr (page2pa pp)
