-- ===== src/Traps.antt =====
-- lib/traps.c: the table of exception handlers and the frame of a page fault, with bcopy and bzero of
-- lib/tool.c. Memory is a function from addresses to bytes, a word is little-endian, and a pointer
-- wraps round at 2 ^ 32. A loop is on fuel, and `none` says that the fuel ran out or that a word was
-- accessed at an address that is not a multiple of 4, an address error of the processor.
pub mod Blocks
pub mod Fault
mod Tests
use cse_os.Base.{
  ℕ, zero, suc, ◌+◌, ◌-◌, ◌*◌, ◌%◌, Option, none, some, Bool, true, false, ◌&&◌, ltb, leb,
  if◌then◌else◌, update, ◌==◌,
}
use cse_os.Mmu.{word, by2pg}
use cse_os.Elf.{Memory, word_at, write_word, copy_word, aligned}

-- The first loop of bcopy, which copies words; where it ends.
unfoldable pub bcopy_words : ℕ → ℕ → ℕ → ℕ → Memory → Option (ℕ × ℕ × Memory)
bcopy_words zero src dst max mem = none
bcopy_words (suc fuel) src dst max mem =
    let rest = bcopy_words fuel ((src + 4) % word) ((dst + 4) % word) max (copy_word dst src mem) in
    if ltb ((dst + 3) % word) max
    then (if aligned dst && aligned src then rest else none)
    else some (src, dst, mem)

-- The second loop, which copies the bytes that are left.
unfoldable pub bcopy_bytes : ℕ → ℕ → ℕ → ℕ → Memory → Option Memory
bcopy_bytes zero src dst max mem = none
bcopy_bytes (suc fuel) src dst max mem =
    let rest =
      bcopy_bytes fuel ((src + 1) % word) ((dst + 1) % word) max (update mem dst (mem src)) in
    if ltb dst max then rest else some mem

abbrev pub bcopy_left : ℕ → ℕ → Option (ℕ × ℕ × Memory) → Option Memory
bcopy_left fuel max none = none
bcopy_left fuel max (some (src, dst, mem)) = bcopy_bytes fuel src dst max mem

-- bcopy
unfoldable pub bcopy : ℕ → ℕ → ℕ → ℕ → Memory → Option Memory
unfolding bcopy_words bcopy_bytes
bcopy fuel src dst len mem =
    let max = (dst + len) % word in bcopy_left fuel max (bcopy_words fuel src dst max mem)

-- The two loops of bzero.
unfoldable pub bzero_words : ℕ → ℕ → ℕ → Memory → Option (ℕ × Memory)
bzero_words zero b max mem = none
bzero_words (suc fuel) b max mem =
    let rest = bzero_words fuel ((b + 4) % word) max (write_word b 0 mem) in
    if ltb ((b + 3) % word) max then (if aligned b then rest else none) else some (b, mem)

unfoldable pub bzero_bytes : ℕ → ℕ → ℕ → Memory → Option Memory
bzero_bytes zero b max mem = none
bzero_bytes (suc fuel) b max mem =
    let rest = bzero_bytes fuel ((b + 1) % word) max (update mem b 0) in
    if ltb b max then rest else some mem

abbrev pub bzero_left : ℕ → ℕ → Option (ℕ × Memory) → Option Memory
bzero_left fuel max none = none
bzero_left fuel max (some (b, mem)) = bzero_bytes fuel b max mem

-- bzero
unfoldable pub bzero : ℕ → ℕ → ℕ → Memory → Option Memory
unfolding bzero_words bzero_bytes
bzero fuel b len mem =
    let max = (b + len) % word in bzero_left fuel max (bzero_words fuel b max mem)

-- The handlers, which are written in assembly.
pub data Handler : Type 0 where
  handle_int : Handler
  handle_reserved : Handler
  handle_tlb : Handler
  handle_sys : Handler
  handle_mod : Handler
  handle_addr : Handler
  handle_mult_tlb : Handler

-- set_except_vector: the old handler and the table with the new one.
abbrev pub set_except_vector : ℕ → Handler → (ℕ → Handler) → Handler × (ℕ → Handler)
set_except_vector n handler exception_handlers =
    (exception_handlers n, update exception_handlers n handler)

-- The loop of trap_init, over `count` exceptions from `i` on.
unfoldable pub reserve : ℕ → ℕ → (ℕ → Handler) → ℕ → Handler
reserve zero i table = table
reserve (suc count) i table = reserve count (i + 1) (set_except_vector i handle_reserved table).1

-- trap_init
unfoldable pub trap_init : (ℕ → Handler) → ℕ → Handler
unfolding reserve
trap_init table =
    let t₀ = (set_except_vector 0 handle_int (reserve 32 0 table)).1 in
    let t₁ = (set_except_vector 1 handle_mod t₀).1 in
    let t₂ = (set_except_vector 2 handle_tlb t₁).1 in
    let t₃ = (set_except_vector 3 handle_tlb t₂).1 in
    let t₄ = (set_except_vector 4 handle_addr t₃).1 in
    let t₅ = (set_except_vector 5 handle_addr t₄).1 in
    let t₈ = (set_except_vector 8 handle_sys t₅).1 in (set_except_vector 24 handle_mult_tlb t₈).1

-- The size of `struct Trapframe`, and the places of `regs[29]` and `cp0_epc` in it.
abbrev pub trapframe_size : ℕ
trapframe_size = 152

abbrev pub sp_offset : ℕ
sp_offset = 116

abbrev pub epc_offset : ℕ
epc_offset = 148

-- page_fault_handler from the second copy on, with the stack pointer to use.
unfoldable pub push_frame : ℕ → ℕ → ℕ → ℕ → ℕ → Memory → Option Memory
unfolding bcopy
push_frame fuel tf frame sp handler mem =
    elim (bcopy fuel frame sp trapframe_size (write_word (tf + sp_offset) sp mem)) [
      | none ↦ none
      | some mem' ↦ some (write_word (tf + epc_offset) handler mem')
    ]

-- The stack pointer that the handler is to have.
abbrev pub fault_stack : ℕ → ℕ → ℕ
fault_stack xstacktop sp =
    if leb ((xstacktop + word - by2pg) % word) sp && leb sp ((xstacktop + word - 1) % word)
    then (sp + word - trapframe_size) % word
    else (xstacktop + word - trapframe_size) % word

-- page_fault_handler; `frame` is the address of PgTrapFrame, `xstacktop` and `handler` are
-- env_xstacktop and env_pgfault_handler of the current environment.
unfoldable pub page_fault_handler : ℕ → ℕ → ℕ → ℕ → ℕ → Memory → Option Memory
unfolding bcopy push_frame
page_fault_handler fuel tf frame xstacktop handler mem =
    elim (bcopy fuel tf frame trapframe_size mem) [
      | none ↦ none
      | some mem' ↦
          push_frame fuel tf frame (fault_stack xstacktop (word_at mem' (tf + sp_offset))) handler
            mem'
    ]
