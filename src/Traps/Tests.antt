-- ===== src/Traps/Tests.antt =====
-- The theorems on lib/traps.c and lib/tool.c at a frame at 1000, with its copy at 2000, whose stack
-- pointer lies on the exception stack that ends at 0x8000.
use cse_os.Base.{ℕ, ◌≡◌, refl, ◌==◌, if◌then◌else◌}
use cse_os.Elf.{Memory}
use cse_os.Traps.{Handler, handle_reserved, handle_sys, handle_tlb, trap_init}

-- The stack pointer, at 1116, is 0x7F00.
abbrev faulted : Memory
faulted a = if a == 1117 then 0x7f else 0

vectors :
    (t : ℕ → Handler)
    → (trap_init t 8 ≡ handle_sys)
      × (trap_init t 2 ≡ handle_tlb)
      × (trap_init t 31 ≡ handle_reserved)
      × (trap_init t 40 ≡ t 40)
unfolding trap_init
vectors t = (refl, refl, refl, refl)
