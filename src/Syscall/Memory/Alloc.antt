-- ===== src/Syscall/Memory/Alloc.antt =====
-- sys_mem_alloc: what it maps, and what it loses on an error.
use cse_os.Base.{
  ℕ, ◌%◌, ◌<◌, ◌≡◌, refl, ◌∙◌, ap, ◌⊎◌, true, false, List, [], ◌∷◌, Option, none, some, arith, Bool,
  leb, has,
}
use cse_os.Mmu.{utop, ppn}
use cse_os.Mm.{Mm, Outcome}
use cse_os.Pmap.FreeList.Alloc.{kva, IsFreeList, allocated, page_alloc_lem}
use cse_os.Pmap.Tables.{Status, page_insert}
use cse_os.Pmap.Tables.Space.{entry}
use cse_os.Pmap.Tables.Insert.{Inserted}
use cse_os.Env.{
  on_mm, deref, Kernel, Run, returned, Lookup, bad_env, envid2env, permitted, current_id,
}
use cse_os.Syscall.{e_bad_env, e_no_mem, on_env}
use cse_os.Syscall.Memory.{bad_perm, alloc_into, insert_into, after_insert, sys_mem_alloc}

permitted-mm :
    (k : Kernel) (m : Mm) (e : ℕ) (o : Option ℕ)
    → permitted (record k { mm = m }) e o ≡ permitted k e o
permitted-mm k m e none = refl
permitted-mm k m e (some c) = refl

-- The look-up does not depend on the memory.
pub envid2env-mm :
    (k : Kernel) (m : Mm) (envid : ℕ) (b : Bool)
    → envid2env envid b (record k { mm = m }) ≡ envid2env envid b k
unfolding envid2env
envid2env-mm k m envid b = rw (permitted-mm k m (envid % 256) k.curenv) refl

current_id-mm :
    (k : Kernel) (m : Mm) (o : Option ℕ) → current_id (record k { mm = m }) o ≡ current_id k o
current_id-mm k m none = refl
current_id-mm k m (some c) = refl

-- insert_into in the environment `e`, whose page directory is on page `d`, with the memory `m`.
pub insert_into-on_mm :
    (k : Kernel) (m : Mm) (e d pp va perm : ℕ) (o : Outcome Status)
    → (k.envs e).env_pgdir ≡ kva d
    → page_insert (current_id k k.curenv) (kva d) pp va perm m ≡ o
    → insert_into e pp va perm (record k { mm = m }) ≡ on_mm (record k { mm = m }) o after_insert
insert_into-on_mm k m e d pp va perm o dir g =
    ap
      (λ i.
        on_mm (record k { mm = m }) (page_insert i (k.envs e).env_pgdir pp va perm m) after_insert)
      (current_id-mm k m k.curenv)
    ∙ ap
        (λ p.
          on_mm (record k { mm = m }) (page_insert (current_id k k.curenv) p pp va perm m)
            after_insert)
        dir
    ∙ ap (λ o'. on_mm (record k { mm = m }) o' after_insert) g

-- The outcome of sys_mem_alloc in the address space on page `d`: success with the page `x` mapped at
-- `va`, or -E_NO_MEM with `x` taken off the list for nothing.
abbrev pub Allots : Kernel → ℕ → ℕ → ℕ → ℕ → List ℕ → Run → Type 0
Allots k d va perm x xs run =
    ((r : Mm) × (zs : List ℕ) × (run ≡ returned 0 (record k { mm = r }))
      × Inserted (allocated x k.mm) d va x perm xs r zs
      × (ppn (entry r d va) ≡ x))
    ⊎ ((xs ≡ []) × (run ≡ returned e_no_mem (record k { mm = allocated x k.mm })))

module _ (k : Kernel) (envid va perm x : ℕ) (xs : List ℕ) (f : IsFreeList k.mm (x ∷ xs))
    (allowed : bad_perm perm ≡ false) (small : perm < 4096) (low : va < utop) where
  after_alloc :
      (l : Lookup)
      → envid2env envid true k ≡ l
      → sys_mem_alloc envid va perm k
        ≡ on_env
            (record k { mm = allocated x k.mm })
            e_bad_env
            l
            (λ o. deref o (λ e. insert_into e x va perm (record k { mm = allocated x k.mm })))
  unfolding sys_mem_alloc alloc_into
  after_alloc l found_l =
      let h : leb utop va ≡ false = ground arith in
      rw (allowed, h)
        (ap (λ o. on_mm k o (alloc_into envid va perm)) (page_alloc_lem k.mm (x ∷ xs) f).0
          ∙ ap
              (λ l'.
                on_env (record k { mm = allocated x k.mm }) e_bad_env l'
                  (λ o.
                    deref o (λ e. insert_into e x va perm (record k { mm = allocated x k.mm }))))
              (envid2env-mm k (allocated x k.mm) envid true ∙ found_l))

  -- Where the environment is not found, sys_mem_alloc returns -E_BAD_ENV after page_alloc: the first
  -- free page is off the list, and nothing refers to it.
  pub sys_mem_alloc_leaks :
      envid2env envid true k ≡ bad_env
      → (sys_mem_alloc envid va perm k ≡ returned e_bad_env (record k { mm = allocated x k.mm }))
        × IsFreeList (allocated x k.mm) xs
        × (has x xs ≡ false)
        × (((allocated x k.mm).pages x).pp_ref ≡ 0)
  sys_mem_alloc_leaks e =
      let al = page_alloc_lem k.mm (x ∷ xs) f in
      (after_alloc bad_env e, al.1, f.distinct.0, al.2.refs x ∙ f.unused.0)
