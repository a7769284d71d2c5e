-- ===== src/Crypto/Hex.antt =====
-- Hexadecimal text of bytes.
use cppcms.Prelude.{
  ℕ, ◌*◌, ◌%◌, ◌≡◌, refl, ◌≢◌, ◌↔◌, Bool, true, ◌&&◌, ◌||◌, none, some, [], ◌∷◌, arith, leb, Bytes,
  length, All, IsBytes,
}
use cppcms.Crypto.{all_hex, hex_pairs, set_hex, tohex}

-- The digits that tohex writes.
unfoldable pub is_low_digit : ℕ → Bool
is_low_digit c = (leb b'0' c && leb c b'9') || (leb b'a' c && leb c b'f')

pub tohex-digits : (p : Bytes) → All (λ c. is_low_digit c ≡ true) (tohex p)
unfolding tohex is_low_digit
tohex-digits [] = tt
tohex-digits (v ∷ p) = (ground arith, (ground arith, tohex-digits p))

pub length-tohex : (p : Bytes) → length (tohex p) ≡ 2 * length p
unfolding tohex
length-tohex [] = omega arith
length-tohex (v ∷ p) = omega (arith, length-tohex p)

all_hex-tohex : (p : Bytes) → IsBytes p → all_hex (tohex p) ≡ true
unfolding tohex all_hex
all_hex-tohex [] b = refl
all_hex-tohex (v ∷ p) (lt, b) = ground (arith, all_hex-tohex p b)

hex_pairs-tohex : (p : Bytes) → IsBytes p → hex_pairs (tohex p) ≡ p
unfolding tohex hex_pairs
hex_pairs-tohex [] b = refl
hex_pairs-tohex (v ∷ p) (lt, b) = ground (arith, hex_pairs-tohex p b)

-- A key is read back from its hexadecimal digits.
pub set_hex-tohex : (p : Bytes) → IsBytes p → set_hex (tohex p) ≡ some p
unfolding set_hex
set_hex-tohex p b = ground (arith, length-tohex p, all_hex-tohex p b, hex_pairs-tohex p b)

-- set_hex takes exactly the texts of hexadecimal digits of even length, and a key of half of it.
pub set_hex-some_iff : (s : Bytes) → (set_hex s ≢ none) ↔ ((length s % 2 ≡ 0) × (all_hex s ≡ true))
unfolding set_hex
set_hex-some_iff s = ground arith
