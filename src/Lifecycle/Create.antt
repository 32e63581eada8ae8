-- ===== src/Lifecycle/Create.antt =====
-- env_create_priority, env_create_priority_arg and pthread_create keep the environments in order.
use cse_os.Base.{ℕ, ◌≡◌, refl, Option, none, some, ◌==◌, Bool-cases, inl, inr}
use cse_os.Pmap.FreeList.{page_alloc}
use cse_os.Pmap.Tables.{Status}
use cse_os.Env.{
  Kernel, Allocated, allocated, no_free_env, alloc_panicked, alloc_faulted, env_alloc_arg, set_pri,
  deref, current_id,
}
use cse_os.Env.Threads.{
  then_link, copy_curenv, copy_space, thread_with, pthread_create, load_icode, load_after,
  stack_page, entered_at, create_with, env_create_priority_arg,
}
use cse_os.Lifecycle.Order.{
  InOrder, Ensures, on_mm-Ensures, SameLists, SameLists-trans, set_env-SameLists, mm-SameLists,
}
use cse_os.Lifecycle.Prepare.{
  Prepared, Allots, SameLists-Prepared, env_alloc_arg-Allots, then_link-InOrder,
}

copy_curenv-Prepared :
    (e c func arg : ℕ) (k : Kernel)
    → Prepared e k
    → Ensures (Prepared e) (copy_curenv e c func arg k)
unfolding copy_curenv
copy_curenv-Prepared e c func arg k p =
    on_mm-Ensures (Prepared e) k (copy_space (current_id k k.curenv) (k.envs c).env_pgdir k.mm) _
      (λ d m.
        let j = record k { mm = m } in
        SameLists-Prepared e
          (SameLists-trans (mm-SameLists k m) (set_env-SameLists j e _ refl refl)) refl p)

thread_of :
    (func arg e : ℕ) (k : Kernel) (o : Option ℕ)
    → Prepared e k
    → Ensures InOrder (deref o (λ c. then_link e (copy_curenv e c func arg k)))
thread_of func arg e k none p = tt
thread_of func arg e k (some c) p =
    then_link-InOrder e (copy_curenv e c func arg k) (copy_curenv-Prepared e c func arg k p)

thread_with-InOrder :
    (func arg : ℕ) (a : Allocated) → Allots a → Ensures InOrder (thread_with func arg a)
unfolding thread_with
thread_with-InOrder func arg (allocated e k) p = thread_of func arg e k k.curenv p
thread_with-InOrder func arg no_free_env p = tt
thread_with-InOrder func arg alloc_panicked p = tt
thread_with-InOrder func arg alloc_faulted p = tt

pub pthread_create-InOrder :
    (func arg : ℕ) (k : Kernel) → InOrder k → Ensures InOrder (pthread_create func arg k)
unfolding pthread_create
pthread_create-InOrder func arg k o =
    thread_with-InOrder func arg (env_alloc_arg 0 none k) (env_alloc_arg-Allots 0 none k o)

-- The loader of programs changes no list and no current environment.
abbrev pub KeepsLists : (ℕ → Kernel → ℕ × Kernel) → Type 0
KeepsLists load = (e : ℕ) (k : Kernel) → SameLists k (load e k).1 × ((load e k).1.curenv ≡ k.curenv)

module _ (load : ℕ → Kernel → ℕ × Kernel) (keeps : KeepsLists load) where
  entered_at-Prepared :
      (e : ℕ) (r : ℕ × Kernel) → Prepared e r.1 → Ensures (Prepared e) (entered_at load e r)
  entered_at-Prepared e (entry_point, k) p = elim (Bool-cases (entry_point == 1)) [
    | inl t ↦ rw t tt
    | inr f ↦ rw f (SameLists-Prepared e (set_env-SameLists k e _ refl refl) refl p)
  ]

  load_after-Prepared :
      (e : ℕ) (s : Status) (k : Kernel)
      → Prepared e k
      → Ensures (Prepared e) (load_after load e s k)
  load_after-Prepared e s k p =
      entered_at-Prepared e (load e k) (SameLists-Prepared e (keeps e k).0 (keeps e k).1 p)

  stack_page-Prepared :
      (e : ℕ) (o : Option ℕ) (k : Kernel)
      → Prepared e k
      → Ensures (Prepared e) (stack_page load e o k)
  unfolding stack_page
  stack_page-Prepared e none k p = tt
  stack_page-Prepared e (some n) k p = on_mm-Ensures (Prepared e) k _ (load_after load e) (λ s m.
      load_after-Prepared e s (record k { mm = m })
        (SameLists-Prepared e (mm-SameLists k m) refl p))

  load_icode-Prepared :
      (e : ℕ) (k : Kernel) → Prepared e k → Ensures (Prepared e) (load_icode load e k)
  unfolding load_icode
  load_icode-Prepared e k p =
      on_mm-Ensures (Prepared e) k (page_alloc k.mm) (stack_page load e) (λ o m.
        stack_page-Prepared e o (record k { mm = m })
          (SameLists-Prepared e (mm-SameLists k m) refl p))

  create_with-InOrder :
      (priority : ℕ) (a : Allocated) → Allots a → Ensures InOrder (create_with load priority a)
  unfolding create_with
  create_with-InOrder priority (allocated e k) p =
      then_link-InOrder e (load_icode load e (set_pri e priority k)) (
        load_icode-Prepared e (set_pri e priority k) (
          SameLists-Prepared e
            (set_env-SameLists k e (record (k.envs e) { env_pri = priority }) refl refl) refl p))
  create_with-InOrder priority no_free_env p = tt
  create_with-InOrder priority alloc_panicked p = tt
  create_with-InOrder priority alloc_faulted p = tt

  pub env_create_priority_arg-InOrder :
      (priority : ℕ) (arg : Option ℕ) (k : Kernel)
      → InOrder k
      → Ensures InOrder (env_create_priority_arg load priority arg k)
  unfolding env_create_priority_arg
  env_create_priority_arg-InOrder priority arg k o =
      create_with-InOrder priority (env_alloc_arg 0 arg k) (env_alloc_arg-Allots 0 arg k o)
