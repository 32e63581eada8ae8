-- ===== src/Syscall/Dev.antt =====
-- sys_write_dev and sys_read_dev of lib/syscall_all.c: the check of the device address, and the
-- copy that it guards.
use cse_os.Base.{
  ℕ, ◌+◌, ◌%◌, ◌≤◌, ◌<◌, ◌≡◌, ◌⊎◌, Bool, true, false, not, ◌&&◌, ◌||◌, leb, if◌then◌else◌, arith,
  Bool-cases, inl, inr,
}
use cse_os.Mmu.{word}

-- -E_INVAL, or the copy of `len` bytes that precedes the return of 0.
pub data DevCall : Type 0 where
  copied : ℕ → ℕ → ℕ → DevCall
  invalid_dev : DevCall

-- `dev >= start && endaddr <= start + size`
abbrev pub within : ℕ → ℕ → ℕ → ℕ → Bool
within start size dev endaddr = leb start dev && leb endaddr (start + size)

-- The devices: the console, the disk and the clock.
abbrev pub valid_dev : ℕ → ℕ → Bool
valid_dev dev len =
    let endaddr = (dev + len) % word in
    within 0x1000_0000 0x20 dev endaddr
    || within 0x1300_0000 0x4200 dev endaddr
    || within 0x1500_0000 0x200 dev endaddr

abbrev uncached : ℕ → ℕ
uncached dev = (dev + 0xa000_0000) % word

-- sys_write_dev
unfoldable pub sys_write_dev : ℕ → ℕ → ℕ → DevCall
sys_write_dev va dev len =
    if not (valid_dev dev len) then invalid_dev else copied va (uncached dev) len

-- sys_read_dev
unfoldable pub sys_read_dev : ℕ → ℕ → ℕ → DevCall
sys_read_dev va dev len =
    if not (valid_dev dev len) then invalid_dev else copied (uncached dev) va len

-- The bytes from `dev` on lie in the registers of a device.
abbrev pub InDevice : ℕ → ℕ → Type 0
InDevice dev len =
    ((0x1000_0000 ≤ dev) × (dev + len ≤ 0x1000_0020))
    ⊎ (((0x1300_0000 ≤ dev) × (dev + len ≤ 0x1300_4200))
        ⊎ ((0x1500_0000 ≤ dev) × (dev + len ≤ 0x1500_0200)))

valid_dev-InDevice : (dev len : ℕ) → dev + len < word → valid_dev dev len ≡ true → InDevice dev len
valid_dev-InDevice dev len nowrap v = ground arith

-- Where the end of the range does not wrap round, a write that is carried out stays inside the
-- registers of one device, and so does a read.
pub dev_calls-InDevice :
    (va dev len from to n : ℕ)
    → dev + len < word
    → (sys_write_dev va dev len ≡ copied from to n) ⊎ (sys_read_dev va dev len ≡ copied to from n)
    → InDevice dev len × (n ≡ len) × (from ≡ va) × (to ≡ (dev + 0xa000_0000) % word)
unfolding sys_write_dev sys_read_dev
dev_calls-InDevice va dev len from to n nowrap h = elim (Bool-cases (valid_dev dev len)) [
  | inl v ↦ let c = copies v h in (valid_dev-InDevice dev len nowrap v, c.0, c.1, c.2)
  | inr v ↦ absurd (refuses v h)
]
  where
    copies :
        valid_dev dev len ≡ true
        → (sys_write_dev va dev len ≡ copied from to n)
          ⊎ (sys_read_dev va dev len ≡ copied to from n)
        → (n ≡ len) × (from ≡ va) × (to ≡ (dev + 0xa000_0000) % word)
    copies v (inl e) = let c = rw v at e in (cc c, cc c, cc c)
    copies v (inr e) = let c = rw v at e in (cc c, cc c, cc c)

    refuses :
        valid_dev dev len ≡ false
        → (sys_write_dev va dev len ≡ copied from to n)
          ⊎ (sys_read_dev va dev len ≡ copied to from n)
        → ⊥
    refuses v (inl e) = cc (rw v at e)
    refuses v (inr e) = cc (rw v at e)
