-- ===== src/Url.antt =====
-- src/util.cpp: urlencode and urldecode. Bytes stand for chars; a char of 128 or more is negative
-- there, and fails the same tests. An output iterator is the text written so far.
pub mod RoundTrip
use cppcms.Prelude.{
  ℕ, ◌+◌, ◌-◌, ◌*◌, Bool, ◌&&◌, ◌||◌, [], ◌∷◌, ◌++◌, ltb, ◌==◌, if◌then◌else◌, within, Bytes, shr,
  low_bits,
}

-- http::protocol::xdigit (private/http_protocol.h)
unfoldable pub xdigit : ℕ → Bool
xdigit c = within b'0' b'9' c || within b'a' b'f' c || within b'A' b'F' c

-- The characters that are written as they are.
unfoldable pub plain : ℕ → Bool
plain c =
    within b'a' b'z' c
    || within b'A' b'Z' c
    || within b'0' b'9' c
    || c == b'-'
    || c == b'_'
    || c == b'.'
    || c == b'~'

-- The array `hex` at an index below 16.
unfoldable pub hex : ℕ → ℕ
hex i = if ltb i 10 then b'0' + i else b'a' + (i - 10)

-- What one round of urlencode_impl writes.
unfoldable pub urlencode_char : ℕ → Bytes
unfolding plain hex
urlencode_char c =
    if plain c then c ∷ [] else b'%' ∷ hex (low_bits (shr c 4) 4) ∷ hex (low_bits c 4) ∷ []

unfoldable pub urlencode_impl : Bytes → Bytes → Bytes
urlencode_impl [] out = out
urlencode_impl (c ∷ s) out = urlencode_impl s (out ++ urlencode_char c)

unfoldable pub urlencode : Bytes → Bytes
unfolding urlencode_impl urlencode_char
urlencode s = urlencode_impl s []

-- The value of a hexadecimal digit, as `sscanf("%x")` reads it.
unfoldable pub digit_value : ℕ → ℕ
digit_value c =
    if within b'0' b'9' c
    then c - b'0'
    else if within b'a' b'f' c
    then c - b'a' + 10
    else if within b'A' b'F' c
    then c - b'A' + 10
    else 0

-- The text from `begin` to `end`; a `%` with no two digits behind it is dropped.
unfoldable pub urldecode_loop : Bytes → Bytes → Bytes
urldecode_loop [] result = result
urldecode_loop (c ∷ []) result =
    if c == b'+' then result ++ b' ' ∷ [] else if c == b'%' then result else result ++ c ∷ []
urldecode_loop (c ∷ d ∷ []) result =
    urldecode_loop (d ∷ [])
      (if c == b'+' then result ++ b' ' ∷ [] else if c == b'%' then result else result ++ c ∷ [])
urldecode_loop (c ∷ d ∷ e ∷ s) result =
    let triple = urldecode_loop s (result ++ (digit_value d * 16 + digit_value e) ∷ []) in
    let space = urldecode_loop (d ∷ e ∷ s) (result ++ b' ' ∷ []) in
    let dropped = urldecode_loop (d ∷ e ∷ s) result in
    let copied = urldecode_loop (d ∷ e ∷ s) (result ++ c ∷ []) in
    if c == b'+'
    then space
    else if c == b'%'
    then (if xdigit d && xdigit e then triple else dropped)
    else copied

unfoldable pub urldecode : Bytes → Bytes
unfolding urldecode_loop xdigit digit_value
urldecode s = urldecode_loop s []
