-- ===== src/Prelude/Words.antt =====
-- Words as they lie in memory: little endian, a byte at a time.
use Prim.Native.Nat.{ℕ, zero, suc, ◌+◌, ◌*◌, ◌/◌, ◌%◌, ◌^◌, ◌<◌}
use mathlib.Core.Path.{◌≡◌, refl}
use mathlib.Core.List.{[], ◌∷◌, ◌++◌}
use native.Mathlib.Omega.{arith}
use cppcms.Prelude.Lists.{Bytes, length, IsBytes}

-- The first so many bytes of a word.
abbrev pub le_bytes : ℕ → ℕ → Bytes
le_bytes zero n = []
le_bytes (suc k) n = n % 256 ∷ le_bytes k (n / 256)

-- The word of so many bytes at the front of a text; bytes that are not there count as zero.
abbrev pub read_le : ℕ → Bytes → ℕ
read_le zero s = 0
read_le (suc k) [] = 0
read_le (suc k) (c ∷ s) = c + 256 * read_le k s

pub length-le_bytes : (k n : ℕ) → length (le_bytes k n) ≡ k
length-le_bytes zero n = refl
length-le_bytes (suc k) n = omega (arith, length-le_bytes k (n / 256))

pub le_bytes-IsBytes : (k n : ℕ) → IsBytes (le_bytes k n)
le_bytes-IsBytes zero n = tt
le_bytes-IsBytes (suc k) n = (omega arith, le_bytes-IsBytes k (n / 256))

pub read_le-le_bytes_4 : (n : ℕ) (s : Bytes) → n < 2 ^ 32 → read_le 4 (le_bytes 4 n ++ s) ≡ n
read_le-le_bytes_4 n s h = omega arith

pub read_le-le_bytes_8 : (n : ℕ) (s : Bytes) → n < 2 ^ 64 → read_le 8 (le_bytes 8 n ++ s) ≡ n
read_le-le_bytes_8 n s h = omega arith
