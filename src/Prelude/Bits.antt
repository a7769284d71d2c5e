-- ===== src/Prelude/Bits.antt =====
-- Shifts and masks in the form that the arithmetic tactics read. `x | y` of two words that share
-- no bit is `x + y`.
use Prim.Native.Nat.{ℕ, ◌*◌, ◌/◌, ◌%◌, ◌^◌}

-- x >> k
abbrev pub shr : ℕ → ℕ → ℕ
shr x k = x / 2 ^ k

-- x << k, in a word of w bits
abbrev pub shl : ℕ → ℕ → ℕ → ℕ
shl w x k = (x * 2 ^ k) % 2 ^ w

-- x & (2^k - 1)
abbrev pub low_bits : ℕ → ℕ → ℕ
low_bits x k = x % 2 ^ k
