-- ===== src/Utf8.antt =====
-- private/utf_iterator.h, namespaces utf and utf8. An iterator range is the list of the bytes
-- that it still holds, so `next` returns what it decoded and the rest of the range.
pub mod RoundTrip
pub mod Validate
use cppcms.Prelude.{
  ℕ, zero, suc, ◌+◌, ◌-◌, Bool, true, false, not, ◌&&◌, ◌||◌, Option, none, some, [], ◌∷◌, Bytes,
  ltb, leb, ◌==◌, if◌then◌else◌, within, shr, shl, low_bits, length,
}

abbrev pub illegal : ℕ
illegal = 0xFFFFFFFF

-- utf::valid
unfoldable pub valid : ℕ → Bool
valid v = if ltb 0x10FFFF v then false else if within 0xD800 0xDFFF v then false else true

-- (c & 0xC0) == 0x80, for an unsigned char
unfoldable pub is_trail : ℕ → Bool
is_trail c = shr c 6 == 2

-- `none` stands for -1.
unfoldable pub trail_length : ℕ → Option ℕ
trail_length c =
    if ltb c 128
    then some 0
    else if ltb c 194
    then none
    else if ltb c 224
    then some 1
    else if ltb c 240
    then some 2
    else if leb c 244
    then some 3
    else none

unfoldable pub width : ℕ → ℕ
width value =
    if leb value 0x7F then 1 else if leb value 0x7FF then 2 else if leb value 0xFFFF then 3 else 4

-- The fall-through cases of `switch(trail_size)`: `n` trail bytes are read behind the bits `c`.
-- `none` is the early `return illegal`.
unfoldable pub read_trail : ℕ → ℕ → Bytes → Option ℕ × Bytes
unfolding is_trail
read_trail zero c s = (some c, s)
read_trail (suc n) c [] = (none, [])
read_trail (suc n) c (tmp ∷ s) =
    if is_trail tmp then read_trail n (shl 32 c 6 + low_bits tmp 6) s else (none, s)

-- An ASCII character that HTML allows.
unfoldable pub html_ascii : ℕ → Bool
html_ascii lead =
    (leb 0x20 lead && not (lead == 0x7F)) || lead == 0x9 || lead == 0x0A || lead == 0x0D

-- The tests behind the switch.
unfoldable pub check : Bool → ℕ → ℕ → ℕ
unfolding valid width
check html trail_size c =
    if not (valid c)
    then illegal
    else if not (width c == trail_size + 1)
    then illegal
    else if html && ltb c 0xA0
    then illegal
    else c

unfoldable pub finish : Bool → ℕ → Option ℕ × Bytes → ℕ × Bytes
unfolding check
finish html n (none, s) = (illegal, s)
finish html n (some c, s) = (check html n c, s)

-- The part of `next` behind the lead byte.
unfoldable pub next_from : Bool → ℕ → Option ℕ → Bytes → ℕ × Bytes
unfolding html_ascii read_trail finish
next_from html lead none s = (illegal, s)
next_from html lead (some zero) s = (if not html || html_ascii lead then lead else illegal, s)
next_from html lead (some (suc n)) s =
    finish html (suc n) (read_trail (suc n) (low_bits lead (6 - suc n)) s)

unfoldable pub next : Bool → Bytes → ℕ × Bytes
unfolding trail_length next_from
next html [] = (illegal, [])
next html (lead ∷ s) = next_from html lead (trail_length lead) s

-- validate(p,e,count,html): the verdict and the count. Each round takes a byte at least, so the
-- length of the range is fuel enough.
unfoldable pub validate_loop : ℕ → Bool → Bytes → ℕ → Bool × ℕ
validate_loop fuel html [] count = (true, count)
validate_loop zero html (c ∷ s) count = (false, count)
validate_loop (suc fuel) html (c ∷ s) count =
    let rest = validate_loop fuel html (next html (c ∷ s)).1 (count + 1) in
    if (next html (c ∷ s)).0 == illegal then (false, count) else rest

unfoldable pub validate : Bool → Bytes → ℕ → Bool × ℕ
unfolding validate_loop next
validate html s count = validate_loop (length s) html s count

-- utf8::encode: the first `len` bytes of the result.
unfoldable pub encode : ℕ → Bytes
encode value =
    if leb value 0x7F
    then value ∷ []
    else if leb value 0x7FF
    then (shr value 6 + 0xC0) ∷ (low_bits value 6 + 0x80) ∷ []
    else if leb value 0xFFFF
    then (shr value 12 + 0xE0) ∷ (low_bits (shr value 6) 6 + 0x80) ∷ (low_bits value 6 + 0x80) ∷ []
    else (shr value 18 + 0xF0)
      ∷ (low_bits (shr value 12) 6 + 0x80)
      ∷ (low_bits (shr value 6) 6 + 0x80)
      ∷ (low_bits value 6 + 0x80)
      ∷ []
