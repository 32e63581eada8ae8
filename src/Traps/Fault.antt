-- ===== src/Traps/Fault.antt =====
-- page_fault_handler of lib/traps.c: the frame on the exception stack.
use cse_os.Base.{ℕ, ◌+◌, ◌%◌, ◌≤◌, ◌<◌, ◌≡◌, ◌||◌, if◌then◌else◌}
use cse_os.Mmu.{word}
use cse_os.Elf.{Memory, word_at, write_word}
use cse_os.Elf.Copy.{Apart, moved, inside}
use cse_os.Traps.{trapframe_size, sp_offset, epc_offset}

-- After page_fault_handler: the frame of the fault stands at `sp`, and the frame to return with has
-- that stack pointer and goes on in the handler.
pub record Handles (tf sp handler : ℕ) (mem mem' : Memory) : Type 0 where
  pub frame : (j : ℕ) → mem' (sp + j % trapframe_size) ≡ mem (tf + j % trapframe_size)
  pub stack_pointer : word_at mem' (tf + sp_offset) ≡ sp
  pub counter : word_at mem' (tf + epc_offset) ≡ handler
  pub others :
      (j : ℕ)
      → mem' (tf + j % trapframe_size) ≡ (
          if inside sp_offset 4 (j % trapframe_size) || inside epc_offset 4 (j % trapframe_size)
          then mem' (tf + j % trapframe_size)
          else mem (tf + j % trapframe_size))

module _ (fuel tf frame handler : ℕ) (mem m₁ : Memory) (sp : ℕ) (enough : 42 ≤ fuel)
    (sp_word : sp < word) (handler_word : handler < word)
    (apart₁ : Apart frame trapframe_size tf trapframe_size)
    (apart₂ : Apart sp trapframe_size frame trapframe_size)
    (apart₃ : Apart sp trapframe_size tf trapframe_size) (sp_high : sp + trapframe_size + 4 ≤ word)
    (sp_aligned : sp % 4 ≡ 0) (frame_high : frame + trapframe_size < word)
    (frame_aligned : frame % 4 ≡ 0)
    (copied : (j : ℕ) → m₁ j ≡ moved frame tf trapframe_size mem j) where
  m₂ : Memory
  m₂ = write_word (tf + sp_offset) sp m₁
