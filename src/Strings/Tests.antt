-- ===== src/Strings/Tests.antt =====
-- Bytes that count up, and the string of two bytes at address 10; the theorems at them.
use cse_os.Base.{ℕ, ◌≡◌}
use cse_os.Strings.{memmove}
use cse_os.Strings.Move.{memmove-moved}

abbrev counting_up : ℕ → ℕ
counting_up a = a

memmove-moved_example : memmove 4 2 5 counting_up 6 ≡ 4
memmove-moved_example = memmove-moved 4 2 5 6 counting_up
