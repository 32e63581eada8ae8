-- ===== src/Env.antt =====
-- env/env.c: the environment control blocks, the list of free ones, the ring of runnable ones.
-- A `struct Env *` is the index of its block in `envs`, and NULL is `none`. The messages that the
-- functions print are left out, and so is the loading of a program from the SD card.
pub mod Ids
pub mod Setup
pub mod Alloc
pub mod Ring
pub mod Free
pub mod Leave
pub mod Threads
mod Tests
use cse_os.Base.{
  ℕ, zero, suc, ◌+◌, ◌-◌, ◌*◌, ◌%◌, ◌^◌, Option, none, some, Bool, true, false, not, ◌&&◌, ◌||◌,
  ltb, leb, ◌==◌, if◌then◌else◌, update, bit_or,
}
use cse_os.Mmu.{word, utop, vpt, uvpt, ustacktop, pte2pt, pte_v, pte_r, pte_addr, pdx, is_valid}
use cse_os.Mm.{
  Mm, M, Outcome, ◌>>=◌, ◌>>◌, pure, modify, read, write, kaddr, pa2page, page2kva, page2pa,
}
use cse_os.Pmap.FreeList.{page_alloc, page_decref, increment_ref}
use cse_os.Hash.{HashTable}

abbrev pub nenv : ℕ
nenv = 1024

-- The values of env_status.
abbrev pub env_free_status : ℕ
env_free_status = 0

abbrev pub env_runnable : ℕ
env_runnable = 1

abbrev pub get_env_asid : ℕ → ℕ
get_env_asid envid = envid % 256

-- `struct Trapframe`
pub record Trapframe : Type 0 where
  pub regs : ℕ → ℕ
  pub cp0_status : ℕ
  pub hi : ℕ
  pub lo : ℕ
  pub cp0_badvaddr : ℕ
  pub cp0_cause : ℕ
  pub cp0_epc : ℕ

-- `struct Env`; the fields that no code uses are left out.
pub record Env : Type 0 where
  pub env_tf : Trapframe
  pub env_link : Option ℕ
  pub env_id : ℕ
  pub env_parent_id : ℕ
  pub env_status : ℕ
  pub env_pgdir : ℕ
  pub env_cr3 : ℕ
  pub env_pri : ℕ
  pub env_ipc_value : ℕ
  pub env_ipc_from : ℕ
  pub env_ipc_recving : ℕ
  pub env_ipc_dstva : ℕ
  pub env_ipc_perm : ℕ
  pub env_pgfault_handler : ℕ
  pub env_xstacktop : ℕ
  pub env_runs : ℕ
  pub heap_pc : ℕ

-- The variables of env/env.c, env/sched.c and the table of shared pages of mm/pmap.c, and the
-- processor's page directory and address space.
pub record Kernel : Type 0 where
  pub mm : Mm
  pub ht : HashTable
  pub envs : ℕ → Env
  pub curenv : Option ℕ
  pub env_free_list : Option ℕ
  pub env_runnable_head : Option ℕ
  pub env_runnable_tail : Option ℕ
  pub next_env_id : ℕ
  pub remaining_time : ℕ
  pub boot_pgdir : ℕ
  pub context : ℕ
  pub asid : ℕ

-- `returned` is a return, with the value, to the caller; `running` a switch to user mode in `curenv`;
-- `idle` the endless loop; `panicked` a call of panic(), `faulted` an access through NULL.
pub data Run : Type 0 where
  returned : ℕ → Kernel → Run
  running : Kernel → Run
  idle : Kernel → Run
  panicked : Run
  faulted : Run
  out_of_fuel : Run

abbrev pub set_env : ℕ → Env → Kernel → Kernel
set_env i e k = record k { envs = update k.envs i e }

-- mkenvid
unfoldable pub mkenvid : ℕ → Kernel → ℕ × Kernel
mkenvid low k =
    let next_env_id = (k.next_env_id + 1) % word in
    (bit_or (next_env_id * 2 ^ 11 % word) low, record k { next_env_id = next_env_id })

-- The outcome of envid2env: what is stored through `penv`, -E_BAD_ENV, or an access through NULL.
pub data Lookup : Type 0 where
  found : Option ℕ → Lookup
  bad_env : Lookup
  no_curenv : Lookup

-- The test of `checkperm` for the environment `e`.
abbrev pub permitted : Kernel → ℕ → Option ℕ → Lookup
permitted k e none = no_curenv
permitted k e (some c) =
    if not (e == c) && not ((k.envs e).env_parent_id == (k.envs c).env_id)
    then bad_env
    else found (some e)

-- envid2env
unfoldable pub envid2env : ℕ → Bool → Kernel → Lookup
envid2env envid checkperm k =
    let e = get_env_asid envid in
    if envid == 0
    then found k.curenv
    else if ((k.envs e).env_status == env_free_status) || not ((k.envs e).env_id == envid)
    then bad_env
    else if checkperm
    then permitted k e k.curenv
    else found (some e)

-- The loop of env_init, from element `i - 1` down to the first.
unfoldable pub env_init_from : ℕ → Kernel → Kernel
env_init_from zero k = k
env_init_from (suc i) k =
    env_init_from i
      (record (set_env i
        (record (k.envs i) {
          env_id = word - 1;
          env_status = env_free_status;
          env_link = k.env_free_list;
          heap_pc = utop;
        })
        k) { env_free_list = some i })

-- env_init
unfoldable pub env_init : Kernel → Kernel
unfolding env_init_from
env_init k = env_init_from nenv k

-- The loops of env_setup_vm over the page directory: `count` entries from `i` on become zero, or
-- those of the kernel's directory.
unfoldable pub zero_entries : ℕ → ℕ → ℕ → (ℕ → ℕ) → ℕ → ℕ
zero_entries zero i pgdir mem = mem
zero_entries (suc count) i pgdir mem =
    zero_entries count (i + 1) pgdir (update mem (pgdir + 4 * i) 0)

unfoldable pub copy_entries : ℕ → ℕ → ℕ → ℕ → (ℕ → ℕ) → ℕ → ℕ
copy_entries zero i pgdir boot mem = mem
copy_entries (suc count) i pgdir boot mem =
    copy_entries count (i + 1) pgdir boot (update mem (pgdir + 4 * i) (mem (boot + 4 * i)))

unfoldable pub fill_entries : ℕ → ℕ → Mm → Mm
unfolding zero_entries copy_entries
fill_entries pgdir boot m = record m {
  mem =
      copy_entries (pte2pt - pdx utop) (pdx utop) pgdir boot
        (zero_entries (pdx utop) 0 pgdir m.mem);
}

unfoldable pub setup_page : ℕ → Option ℕ → M (ℕ × ℕ)
setup_page boot none = λ _. Outcome.panic
setup_page boot (some p) = do
  modify (increment_ref p)
  pgdir ← page2kva p
  modify (fill_entries pgdir boot)
  write (pgdir + 4 * pdx vpt) (bit_or (page2pa p) pte_v)
  write (pgdir + 4 * pdx uvpt) (bit_or (bit_or (page2pa p) pte_v) pte_r)
  pure (pgdir, page2pa p)

-- env_setup_vm: the new environment's env_pgdir and env_cr3.
unfoldable pub env_setup_vm : ℕ → M (ℕ × ℕ)
unfolding setup_page
env_setup_vm boot = page_alloc >>= setup_page boot

-- The outcome of env_alloc: the environment, or -E_NO_FREE_ENV.
pub data Allocated : Type 0 where
  allocated : ℕ → Kernel → Allocated
  no_free_env : Allocated
  alloc_panicked : Allocated
  alloc_faulted : Allocated

-- The registers that a new environment starts with; `arg` is NULL or the argument.
abbrev pub initial_regs : Option ℕ → (ℕ → ℕ) → ℕ → ℕ
initial_regs none regs = update (update regs 29 ustacktop) 31 0x9000_0000
initial_regs (some arg) regs =
    update (update (update (update regs 29 ustacktop) 31 0x9000_0000) 4 1) 5 arg

-- The block of a new environment.
abbrev pub fresh_env : Env → ℕ → ℕ → ℕ → ℕ → Option ℕ → Env
fresh_env e pgdir cr3 id parent_id arg = record e {
  env_pgdir = pgdir;
  env_cr3 = cr3;
  env_id = id;
  env_parent_id = parent_id;
  env_status = env_runnable;
  env_tf = record e.env_tf { cp0_status = 0x1000_7c01; regs = initial_regs arg e.env_tf.regs };
  env_runs = 0;
}

-- env_alloc and env_alloc_arg from the call of env_setup_vm on.
unfoldable pub env_alloc_with : ℕ → ℕ → Option ℕ → Kernel → Outcome (ℕ × ℕ) → Allocated
unfolding mkenvid
env_alloc_with e parent_id arg k (Outcome.ok (pgdir, cr3) mm) =
    let (id, k') = mkenvid e (record k { mm = mm }) in
    allocated e (record (set_env e (fresh_env (k.envs e) pgdir cr3 id parent_id arg) k') {
      env_free_list = (k.envs e).env_link;
    })
env_alloc_with e parent_id arg k Outcome.panic = alloc_panicked
env_alloc_with e parent_id arg k Outcome.fault = alloc_faulted

unfoldable pub env_alloc_first : Option ℕ → ℕ → Option ℕ → Kernel → Allocated
unfolding env_alloc_with env_setup_vm
env_alloc_first none parent_id arg k = no_free_env
env_alloc_first (some e) parent_id arg k =
    env_alloc_with e parent_id arg k (env_setup_vm k.boot_pgdir k.mm)

-- env_alloc_arg; env_alloc is the same with no argument.
unfoldable pub env_alloc_arg : ℕ → Option ℕ → Kernel → Allocated
unfolding env_alloc_first
env_alloc_arg parent_id arg k = env_alloc_first k.env_free_list parent_id arg k

abbrev pub env_alloc : ℕ → Kernel → Allocated
env_alloc parent_id k = env_alloc_arg parent_id none k

abbrev pub link_to : ℕ → Option ℕ → Kernel → Kernel
link_to i o k = set_env i (record (k.envs i) { env_link = o }) k

unfoldable pub link_runnable_after : Option ℕ → ℕ → Kernel → Option Kernel
link_runnable_after none e k = none
link_runnable_after (some t) e k =
    some (record (link_to t (some e) k) { env_runnable_tail = some e })

unfoldable pub link_runnable_at : Option ℕ → ℕ → Kernel → Option Kernel
unfolding link_runnable_after
link_runnable_at none e k =
    some (record (link_to e (some e) k) { env_runnable_head = some e; env_runnable_tail = some e })
link_runnable_at (some h) e k = link_runnable_after k.env_runnable_tail e (link_to e (some h) k)

-- The step of env_create_priority that puts `e` at the end of the ring of runnable environments;
-- `none` is an access through NULL.
unfoldable pub link_runnable : ℕ → Kernel → Option Kernel
unfolding link_runnable_at
link_runnable e k = link_runnable_at k.env_runnable_head e k

abbrev pub set_pri : ℕ → ℕ → Kernel → Kernel
set_pri e priority k = set_env e (record (k.envs e) { env_pri = priority }) k

-- env_run; `none` is NULL.
unfoldable pub env_run : Option ℕ → Kernel → Run
env_run none k = faulted
env_run (some e) k =
    let b = k.envs e in
    running (record (set_env e (record b { env_runs = (b.env_runs + 1) % word }) k) {
      curenv = some e;
      context = b.env_pgdir;
      asid = get_env_asid b.env_id;
    })

-- `curenv->env_id`, or `none` where `curenv` is NULL.
abbrev pub current_id : Kernel → Option ℕ → Option ℕ
current_id k none = none
current_id k (some c) = some ((k.envs c).env_id)

-- Goes on from what a function of the memory manager gave, with its memory in the kernel.
abbrev pub on_mm : {A : Type 0} → Kernel → Outcome A → (A → Kernel → Run) → Run
on_mm k (Outcome.ok a m) f = f a (record k { mm = m })
on_mm k Outcome.panic f = panicked
on_mm k Outcome.fault f = faulted

-- An access through the pointer.
abbrev pub deref : Option ℕ → (ℕ → Run) → Run
deref none f = faulted
deref (some e) f = f e
