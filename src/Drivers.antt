-- ===== src/Drivers.antt =====
-- drivers/leds.c and drivers/seven_seg.c: the lights and the digits of the board, and which of them
-- have been asked for. A register of the board reads as it was written last.
pub mod Leds
pub mod SevenSeg
pub mod Timer
mod Tests
use cse_os.Base.{ℕ, ◌+◌, ◌-◌, ◌*◌, ◌/◌, ◌%◌, ◌^◌, ltb, if◌then◌else◌}
use cse_os.Mmu.{word}

-- The value -1 of a status that is free.
abbrev pub not_used : ℕ
not_used = word - 1

-- `x & ~(mask << shift)`, where the mask has `width` ones.
abbrev pub clear : ℕ → ℕ → ℕ → ℕ
clear width shift x = x - x / 2 ^ shift % 2 ^ width * 2 ^ shift

-- A `char`, which is signed, as an `int`.
abbrev pub sign_extend : ℕ → ℕ
sign_extend c = if ltb c 128 then c else word - 256 + c
