-- ===== src/Pmap/Boot/Tests.antt =====
-- A megabyte of memory, before anything is allocated; the theorem on vm_init at it.
use cse_os.Base.{ℕ, refl, ◌*◌, ◌+◌, ◌≡◌, none, [], arith}
use cse_os.Mmu.{ulim}
use cse_os.Mm.{Mm, null_ref, ok}
use cse_os.Pmap.Boot.{vm_init}
use cse_os.Pmap.Boot.VmInit.{KernelMap, vm_init_lem}

abbrev blank_machine : Mm
blank_machine = record {
  mem = λ a. 1;
  pages = λ i. record { le_next = none; le_prev = null_ref; pp_ref = 0 };
  free_first = none;
  npage = 256;
  maxpa = 256 * 4096;
  freemem = 0;
  tlb_outs = [];
  tlb_count = 0;
}

vm_init_lem_example :
    (pgdir : ℕ) × (pages : ℕ) × (envs : ℕ) × (m' : Mm) × (vm_init (ulim + 5) blank_machine
      ≡ ok (pgdir, pages, envs) m')
    × KernelMap (ulim + 5) blank_machine pgdir pages envs m'
vm_init_lem_example =
    vm_init_lem (ulim + 5) blank_machine refl (omega arith) (omega arith) (omega arith)
      (omega arith) (omega arith)
