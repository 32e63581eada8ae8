-- ===== src/Strings.antt =====
-- lib/string.c: strings and blocks of bytes in memory. Memory is a function from addresses to bytes;
-- addresses do not wrap round. A loop that goes on to the end of a string is on fuel, and `none` says
-- that the fuel ran out. An `int` result is its 32-bit pattern. memset with a count of 2 ^ 31 or
-- more is not modelled.
pub mod Move
pub mod Length
pub mod Number
pub mod Tokens
mod Tests
use cse_os.Base.{
  ℕ, zero, suc, ◌+◌, ◌-◌, ◌%◌, ◌^◌, Option, none, some, Bool, true, false, not, ◌&&◌, ◌||◌, ltb,
  ◌==◌, if◌then◌else◌, update,
}
use cse_os.Mmu.{word}

-- The loop of strlen, with `n` bytes counted.
unfoldable pub strlen_from : ℕ → ℕ → ℕ → (ℕ → ℕ) → Option ℕ
strlen_from zero s n mem = none
strlen_from (suc fuel) s n mem =
    let rest = strlen_from fuel (s + 1) (n + 1) mem in if mem s == 0 then some n else rest

-- strlen
unfoldable pub strlen : ℕ → ℕ → (ℕ → ℕ) → Option ℕ
unfolding strlen_from
strlen fuel s mem = strlen_from fuel s 0 mem

-- strnlen
unfoldable pub strnlen : ℕ → ℕ → (ℕ → ℕ) → ℕ
strnlen s zero mem = 0
strnlen s (suc size) mem = let rest = strnlen (s + 1) size mem in if mem s == 0 then 0 else suc rest

-- strcpy
unfoldable pub strcpy : ℕ → ℕ → ℕ → (ℕ → ℕ) → Option (ℕ → ℕ)
strcpy zero dst src mem = none
strcpy (suc fuel) dst src mem =
    let mem' = update mem dst (mem src) in
    let rest = strcpy fuel (dst + 1) (src + 1) mem' in if mem src == 0 then some mem' else rest

strcat_at : ℕ → ℕ → ℕ → (ℕ → ℕ) → Option ℕ → Option (ℕ → ℕ)
unfolding strcpy
strcat_at fuel dst src mem none = none
strcat_at fuel dst src mem (some len) = strcpy fuel (dst + len) src mem

-- strcat
unfoldable pub strcat : ℕ → ℕ → ℕ → (ℕ → ℕ) → Option (ℕ → ℕ)
unfolding strcat_at strlen
strcat fuel dst src mem = strcat_at fuel dst src mem (strlen fuel dst mem)

-- strncpy
unfoldable pub strncpy : ℕ → ℕ → ℕ → (ℕ → ℕ) → ℕ → ℕ
strncpy zero dst src mem = mem
strncpy (suc size) dst src mem =
    let mem' = update mem dst (mem src) in
    strncpy size (dst + 1) (if mem' src == 0 then src else src + 1) mem'

-- The loop of strlcpy, with `left` bytes of room before the last; the address where it stops.
unfoldable pub strlcpy_from : ℕ → ℕ → ℕ → (ℕ → ℕ) → ℕ × (ℕ → ℕ)
strlcpy_from zero dst src mem = (dst, mem)
strlcpy_from (suc left) dst src mem =
    let rest = strlcpy_from left (dst + 1) (src + 1) (update mem dst (mem src)) in
    if mem src == 0 then (dst, mem) else rest

-- strlcpy
unfoldable pub strlcpy : ℕ → ℕ → ℕ → (ℕ → ℕ) → ℕ × (ℕ → ℕ)
unfolding strlcpy_from
strlcpy dst src zero mem = (0, mem)
strlcpy dst src (suc size) mem =
    let (stop, mem') = strlcpy_from size dst src mem in (stop - dst, update mem' stop 0)

abbrev difference : ℕ → ℕ → ℕ
difference a b = (a + word - b) % word

-- strcmp
unfoldable pub strcmp : ℕ → ℕ → ℕ → (ℕ → ℕ) → Option ℕ
strcmp zero p q mem = none
strcmp (suc fuel) p q mem =
    let rest = strcmp fuel (p + 1) (q + 1) mem in
    if not (mem p == 0) && (mem p == mem q) then rest else some (difference (mem p) (mem q))

-- strncmp
unfoldable pub strncmp : ℕ → ℕ → ℕ → (ℕ → ℕ) → ℕ
strncmp p q zero mem = 0
strncmp p q (suc n) mem =
    let rest = strncmp (p + 1) (q + 1) n mem in
    if not (mem p == 0) && (mem p == mem q) then rest else difference (mem p) (mem q)

-- strchr; the inner `none` is NULL.
unfoldable pub strchr : ℕ → ℕ → ℕ → (ℕ → ℕ) → Option (Option ℕ)
strchr zero s c mem = none
strchr (suc fuel) s c mem =
    let rest = strchr fuel (s + 1) c mem in
    if mem s == 0 then some none else if mem s == c then some (some s) else rest

-- strfind
unfoldable pub strfind : ℕ → ℕ → ℕ → (ℕ → ℕ) → Option ℕ
strfind zero s c mem = none
strfind (suc fuel) s c mem =
    let rest = strfind fuel (s + 1) c mem in if (mem s == 0) || (mem s == c) then some s else rest

-- memset
unfoldable pub memset : ℕ → ℕ → ℕ → (ℕ → ℕ) → ℕ → ℕ
memset v c zero mem = mem
memset v c (suc n) mem = memset (v + 1) c n (update mem v (c % 256))

-- The two loops of memmove.
unfoldable pub backward : ℕ → ℕ → ℕ → (ℕ → ℕ) → ℕ → ℕ
backward zero d s mem = mem
backward (suc n) d s mem = backward n (d - 1) (s - 1) (update mem (d - 1) (mem (s - 1)))

unfoldable pub forward : ℕ → ℕ → ℕ → (ℕ → ℕ) → ℕ → ℕ
forward zero d s mem = mem
forward (suc n) d s mem = forward n (d + 1) (s + 1) (update mem d (mem s))

-- memmove, which is also memcpy.
unfoldable pub memmove : ℕ → ℕ → ℕ → (ℕ → ℕ) → ℕ → ℕ
unfolding backward forward
memmove dst src n mem =
    if ltb src dst && ltb dst (src + n)
    then backward n (dst + n) (src + n) mem
    else forward n dst src mem

abbrev pub memcpy : ℕ → ℕ → ℕ → (ℕ → ℕ) → ℕ → ℕ
memcpy dst src n mem = memmove dst src n mem

-- memcmp
unfoldable pub memcmp : ℕ → ℕ → ℕ → (ℕ → ℕ) → ℕ
memcmp s₁ s₂ zero mem = 0
memcmp s₁ s₂ (suc n) mem =
    let rest = memcmp (s₁ + 1) (s₂ + 1) n mem in
    if not (mem s₁ == mem s₂) then difference (mem s₁) (mem s₂) else rest

-- memfind
unfoldable pub memfind : ℕ → ℕ → ℕ → (ℕ → ℕ) → ℕ
memfind p c zero mem = p
memfind p c (suc n) mem = let rest = memfind (p + 1) c n mem in if mem p == c % 256 then p else rest
