-- ===== src/Syscall/Memory/Map.antt =====
-- sys_mem_map: it makes a page of one address space visible in another.
use cse_os.Base.{ℕ, ◌<◌, ◌≡◌, ◌⊎◌, true, false, List, []}
use cse_os.Mmu.{utop, is_valid, ppn}
use cse_os.Mm.{Mm}
use cse_os.Pmap.FreeList.Alloc.{kva, IsFreeList}
use cse_os.Pmap.Tables.Space.{IsSpace, entry}
use cse_os.Pmap.Tables.Insert.{OldPage, NewPage, Inserted}
use cse_os.Env.{Kernel, Run, returned}
use cse_os.Syscall.{e_no_mem}
use cse_os.Syscall.Memory.{bad_perm, round_down}

-- The outcome of sys_mem_map into the address space on page `d`, of page `q` at `va`: success, with
-- the page mapped, or -E_NO_MEM for want of a table, with nothing changed.
abbrev pub Shares : Kernel → ℕ → ℕ → ℕ → ℕ → List ℕ → Run → Type 0
Shares k d va q perm xs run =
    ((r : Mm) × (zs : List ℕ) × (run ≡ returned 0 (record k { mm = r }))
      × Inserted k.mm d va q perm xs r zs
      × (ppn (entry r d va) ≡ q))
    ⊎ ((xs ≡ []) × (run ≡ returned e_no_mem k))

module _ (k : Kernel) (e₁ e₂ d₁ d₂ srcva dstva perm : ℕ) (xs : List ℕ)
    (dir₁ : (k.envs e₁).env_pgdir ≡ kva d₁) (dir₂ : (k.envs e₂).env_pgdir ≡ kva d₂)
    (s₁ : IsSpace k.mm d₁ xs) (s₂ : IsSpace k.mm d₂ xs) (f : IsFreeList k.mm xs)
    (allowed : bad_perm perm ≡ false) (small : perm < 4096) (low₁ : srcva < utop)
    (low₂ : dstva < utop) (mapped : is_valid (entry k.mm d₁ (round_down srcva)) ≡ true)
    (new : NewPage k.mm xs (ppn (entry k.mm d₁ (round_down srcva))))
    (old : OldPage k.mm d₂ (round_down dstva) xs) where
  shared : ℕ
  shared = ppn (entry k.mm d₁ (round_down srcva))
