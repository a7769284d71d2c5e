-- ===== src/Http/Protocol.antt =====
-- private/http_protocol.h. An iterator with its end is the list of the characters between them, so
-- `skip_ws` and `tocken` return the rest of the range. Bytes stand for chars: a byte of 128 or
-- more is a negative char.
pub mod Quoting
pub mod Comparing
pub mod Scanning
use cppcms.Prelude.{
  ℕ, ◌+◌, ◌-◌, ◌%◌, Bool, true, false, not, ◌&&◌, ◌||◌, Option, none, some, [], ◌∷◌, ◌++◌, ltb, leb,
  ◌==◌, if◌then◌else◌, Bytes,
}

unfoldable pub separator : ℕ → Bool
separator c =
    c == b'('
    || c == b')'
    || c == b'<'
    || c == b'>'
    || c == b'@'
    || c == b','
    || c == b';'
    || c == b':'
    || c == b'\\'
    || c == b'"'
    || c == b'/'
    || c == b'['
    || c == b']'
    || c == b'?'
    || c == b'='
    || c == b'{'
    || c == b'}'
    || c == b' '
    || c == b'\t'

unfoldable pub ascii_to_lower : ℕ → ℕ
ascii_to_lower c = if ltb c b'A' || ltb b'Z' c then c else (c - b'A') + b'a'

-- `p+2 < end && *(p+1)=='\n' && (*(p+2)==' ' || *(p+2)=='\t')`, for the range behind `p`.
unfoldable pub folds : Bytes → Bool
folds [] = false
folds (a ∷ []) = false
folds (a ∷ b ∷ s) = a == b'\n' && (b == b' ' || b == b'\t')

-- A round takes one character, or the three of a folded line.
unfoldable pub skip_ws : Bytes → Bytes
unfolding folds
skip_ws [] = []
skip_ws (c ∷ []) = if c == b' ' || c == b'\t' then [] else c ∷ []
skip_ws (c ∷ d ∷ []) =
    let rest = skip_ws (d ∷ []) in if c == b' ' || c == b'\t' then rest else c ∷ d ∷ []
skip_ws (c ∷ d ∷ e ∷ s) =
    let rest = skip_ws (d ∷ e ∷ s) in
    let unfolded = skip_ws s in
    if c == b'\r'
    then (if folds (d ∷ e ∷ s) then unfolded else c ∷ d ∷ e ∷ s)
    else if c == b' ' || c == b'\t'
    then rest
    else c ∷ d ∷ e ∷ s

-- The test of the loop in `tocken`.
unfoldable pub token_char : ℕ → Bool
unfolding separator
token_char c = leb 0x20 c && leb c 0x7E && not (separator c)

unfoldable pub tocken : Bytes → Bytes
unfolding token_char
tocken [] = []
tocken (c ∷ s) = if token_char c then tocken s else c ∷ s

-- The loop of `unquote` behind the first quote: the result, and `begin` where it is moved.
unfoldable pub unquote_loop : Bytes → Bytes → Option (Bytes × Bytes)
unquote_loop [] result = none
unquote_loop (c ∷ []) result = if c == b'"' then some (result, []) else none
unquote_loop (c ∷ d ∷ s) result =
    let escaped = unquote_loop s (result ++ d ∷ []) in
    let plain = unquote_loop (d ∷ s) (result ++ c ∷ []) in
    if c == b'"' then some (result, d ∷ s) else if c == b'\\' then escaped else plain

-- `unquote`: the result and `begin`, which stays where it is at a malformed text.
unfoldable pub unquote : Bytes → Bytes × Bytes
unfolding unquote_loop
unquote [] = ([], [])
unquote (c ∷ s) =
    let body = unquote_loop s [] in
    if not (c == b'"')
    then ([], c ∷ s)
    else elim body [ none ↦ ([], c ∷ s) | some (result, begin) ↦ (result, begin) ]

-- The order of chars: a byte of 128 or more is below the others.
unfoldable pub char_less : ℕ → ℕ → Bool
char_less a b = ltb ((a + 128) % 256) ((b + 128) % 256)

pub data Order : Type 0 where
  less equal greater : Order

-- The sizes decide where the loop finds no difference.
unfoldable pub compare : Bytes → Bytes → Order
unfolding ascii_to_lower char_less
compare [] [] = equal
compare [] (b ∷ right) = less
compare (a ∷ left) [] = greater
compare (a ∷ left) (b ∷ right) =
    let rest = compare left right in
    if char_less (ascii_to_lower a) (ascii_to_lower b)
    then less
    else if char_less (ascii_to_lower b) (ascii_to_lower a)
    then greater
    else rest

-- What `quote` writes for one character: `0<=c && c<' '` holds of the bytes below 32.
unfoldable pub quote_char : ℕ → Bytes
quote_char c = if ltb c 32 then b'\\' ∷ c ∷ [] else c ∷ []

unfoldable pub quote_loop : Bytes → Bytes → Bytes
quote_loop [] result = result
quote_loop (c ∷ s) result = quote_loop s (result ++ quote_char c)

unfoldable pub quote : Bytes → Bytes
unfolding quote_loop quote_char
quote input = quote_loop input (b'"' ∷ []) ++ b'"' ∷ []

-- The loop of is_prefix_of over the prefix and the text.
unfoldable pub has_prefix : Bytes → Bytes → Bool
unfolding ascii_to_lower
has_prefix [] s = true
has_prefix (c ∷ prefix) [] = false
has_prefix (c ∷ prefix) (d ∷ s) =
    if not (ascii_to_lower c == ascii_to_lower d) then false else has_prefix prefix s

unfoldable pub is_prefix_of : Bytes → Bytes → Bool
unfolding has_prefix skip_ws
is_prefix_of prefix s = has_prefix prefix (skip_ws s)
