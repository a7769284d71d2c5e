-- ===== src/Utf16.antt =====
-- private/utf_iterator.h, namespace utf16. A unit is a uint16_t.
use cppcms.Prelude.{
  ℕ, ◌+◌, ◌-◌, ◌%◌, ◌^◌, ◌≤◌, ◌<◌, ◌≡◌, ◌≢◌, ◌↔◌, Bool, true, ◌||◌, List, [], ◌∷◌, ◌++◌, arith, ltb,
  leb, if◌then◌else◌, within, length, shr, shl, low_bits,
}
use cppcms.Utf8.{illegal, valid}

unfoldable pub is_first_surrogate : ℕ → Bool
is_first_surrogate x = within 0xD800 0xDBFF x

unfoldable pub is_second_surrogate : ℕ → Bool
is_second_surrogate x = within 0xDC00 0xDFFF x

unfoldable pub combine_surrogate : ℕ → ℕ → ℕ
combine_surrogate w1 w2 = (shl 32 (low_bits w1 10) 10 + low_bits w2 10 + 0x10000) % 2 ^ 32

-- The part of `next` behind a first surrogate.
unfoldable pub next_second : ℕ → List ℕ → ℕ × List ℕ
unfolding combine_surrogate
next_second w1 [] = (illegal, [])
next_second w1 (w2 ∷ s) =
    if ltb w2 0xDC00 || ltb 0xDFFF w2 then (illegal, s) else (combine_surrogate w1 w2, s)

-- utf16::next, on a range that is not empty: the source reads its first unit with no test.
unfoldable pub next : ℕ → List ℕ → ℕ × List ℕ
unfolding next_second
next w1 s =
    if ltb w1 0xD800 || ltb 0xDFFF w1
    then (w1, s)
    else if ltb 0xDBFF w1
    then (illegal, s)
    else next_second w1 s

unfoldable pub width : ℕ → ℕ
width u = if leb 0x100000 u then 2 else 1

-- The first `len` units of the result.
unfoldable pub encode : ℕ → List ℕ
encode u =
    if leb u 0xFFFF
    then u ∷ []
    else (0xD800 + shr (u - 0x10000) 10) ∷ (0xDC00 + low_bits (u - 0x10000) 10) ∷ []

abbrev pub next_of : List ℕ → ℕ × List ℕ
next_of [] = (illegal, [])
next_of (w ∷ s) = next w s

-- A valid code point is read back from its encoding, whatever units follow it.
pub next16-encode16 :
    (v : ℕ) (rest : List ℕ) → valid v ≡ true → next_of (encode v ++ rest) ≡ (v, rest)
unfolding next encode valid
next16-encode16 v rest h = ground arith

-- Of the valid code points, exactly those between 0x10000 and 0xFFFFF are encoded in a number of
-- units that differs from the one that `width` gives.
pub width16-ne-length_iff :
    (v : ℕ) → valid v ≡ true → (width v ≢ length (encode v)) ↔ ((0x10000 ≤ v) × (v < 0x100000))
unfolding width encode valid
width16-ne-length_iff v h = ground arith
