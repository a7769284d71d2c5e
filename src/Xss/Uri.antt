-- ===== src/Xss/Uri.antt =====
-- src/xss.cpp: uri_parser, a recursive descent over RFC 3986. A member function is a function of
-- the text from `begin_` on; its result is what it returns and the text from the new `begin_` on,
-- also when it returns false.
pub mod Reference
pub mod Laws
use cppcms.Prelude.{
  ℕ, zero, suc, ◌+◌, ◌-◌, ◌*◌, Bool, true, false, not, ◌&&◌, ◌||◌, Option, none, some, [], ◌∷◌, ltb,
  leb, ◌==◌, if◌then◌else◌, within, Bytes, codes, length, count,
}

abbrev pub Parser : Type 0
Parser = Bytes → Bool × Bytes

infixr 30 ◌andthen◌
infixr 25 ◌orelse◌
-- `p() && q()`
unfoldable pub ◌andthen◌ : Parser → Parser → Parser
(p andthen q) s = if (p s).0 then q (p s).1 else (false, (p s).1)

-- `p() || q()`
unfoldable pub ◌orelse◌ : Parser → Parser → Parser
(p orelse q) s = if (p s).0 then (true, (p s).1) else q (p s).1

-- A save point that is committed when `p` returns true.
unfoldable pub saved : Parser → Parser
saved p s = if (p s).0 then p s else (false, s)

-- What succeeds also when `p` does not, and is then where `p` has left off.
unfoldable pub optional : Parser → Parser
optional p s = (true, (p s).1)

-- `while(p()) ;` Each round that goes on takes a character, so the text's length is fuel enough.
unfoldable pub many_loop : ℕ → Parser → Parser
many_loop zero p s = (true, s)
many_loop (suc fuel) p s =
    let rest = many_loop fuel p (p s).1 in if (p s).0 then rest else (true, (p s).1)

unfoldable pub many : Parser → Parser
unfolding many_loop
many p s = many_loop (length s + 1) p s

-- One character that a test accepts.
unfoldable pub one : (ℕ → Bool) → Parser
one test [] = (false, [])
one test (c ∷ s) = if test c then (true, s) else (false, c ∷ s)

-- `follows(char)`
unfoldable pub follows : ℕ → Parser
unfolding one
follows x = one (λ c. c == x)

unfoldable pub strip : Bytes → Bytes → Option Bytes
strip [] s = some s
strip (x ∷ xs) [] = none
strip (x ∷ xs) (c ∷ s) = if c == x then strip xs s else none

-- `follows(char const *)`
unfoldable pub follows_text : Bytes → Parser
unfolding strip
follows_text text s = elim (strip text s) [ none ↦ (false, s) | some rest ↦ (true, rest) ]

-- The cases of the switch in sub_delims, the character 39 is the apostrophe.
abbrev pub is_sub_delim : ℕ → Bool
is_sub_delim c =
    c == b'!'
    || c == b'$'
    || c == b'('
    || c == b')'
    || c == b'*'
    || c == b'+'
    || c == b','
    || c == b';'
    || c == b'='
    || c == 39

unfoldable pub sub_delims : Parser
unfolding one follows_text ◌orelse◌
sub_delims =
    follows_text (codes "&amp;") orelse follows_text (codes "&apos;") orelse one is_sub_delim

abbrev pub is_gen_delim : ℕ → Bool
is_gen_delim c =
    c == b':' || c == b'/' || c == b'?' || c == b'#' || c == b'[' || c == b']' || c == b'@'

unfoldable pub gen_delims : Parser
unfolding one
gen_delims = one is_gen_delim

unfoldable pub reserverd : Parser
unfolding gen_delims sub_delims ◌orelse◌
reserverd = gen_delims orelse sub_delims

abbrev pub is_digit : ℕ → Bool
is_digit c = within b'0' b'9' c

abbrev pub is_alapha : ℕ → Bool
is_alapha c = within b'a' b'z' c || within b'A' b'Z' c

abbrev pub is_unreserved : ℕ → Bool
is_unreserved c = is_alapha c || is_digit c || c == b'-' || c == b'.' || c == b'_' || c == b'~'

unfoldable pub unreserved : Parser
unfolding one
unreserved = one is_unreserved

abbrev pub is_hex : ℕ → Bool
is_hex c = is_digit c || within b'a' b'f' c || within b'A' b'F' c

unfoldable pub pct_encoded : Parser
pct_encoded (c ∷ x ∷ y ∷ s) =
    if c == b'%' && is_hex x && is_hex y then (true, s) else (false, c ∷ x ∷ y ∷ s)
pct_encoded s = (false, s)

-- unreserved, pct-encoded and sub-delims, which several productions share.
unfoldable pub name_char : Parser
unfolding unreserved pct_encoded sub_delims ◌orelse◌
name_char = unreserved orelse pct_encoded orelse sub_delims

unfoldable pub pchar : Parser
unfolding name_char follows ◌orelse◌
pchar = name_char orelse follows b':' orelse follows b'@'

unfoldable pub query : Parser
unfolding many pchar follows ◌orelse◌
query = many (pchar orelse follows b'/' orelse follows b'?')

unfoldable pub fragment : Parser
unfolding query
fragment = query

unfoldable pub segment : Parser
unfolding many pchar
segment = many pchar

unfoldable pub segment_nz : Parser
unfolding pchar many ◌andthen◌
segment_nz = pchar andthen many pchar

-- The count of the rounds is not 0 when the first one succeeds.
unfoldable pub segment_nz_nc : Parser
unfolding name_char follows many ◌andthen◌ ◌orelse◌
segment_nz_nc = (name_char orelse follows b'@') andthen many (name_char orelse follows b'@')

-- `save_point sp(this); while(follows('/') && segment()) sp.commit();`
unfoldable pub segments : Parser
unfolding many saved follows segment ◌andthen◌
segments = many (saved (follows b'/' andthen segment))

unfoldable pub path_rootless : Parser
unfolding segment_nz segments ◌andthen◌
path_rootless = segment_nz andthen segments

unfoldable pub path_noscheme : Parser
unfolding segment_nz_nc segments ◌andthen◌
path_noscheme = segment_nz_nc andthen segments

unfoldable pub path_absolute : Parser
unfolding follows optional saved segment_nz segments ◌andthen◌
path_absolute = follows b'/' andthen optional (saved (segment_nz andthen segments))

unfoldable pub path_abempty : Parser
unfolding segments
path_abempty = segments

unfoldable pub path : Parser
unfolding path_absolute path_noscheme path_rootless path_abempty optional ◌orelse◌
path = optional (path_absolute orelse path_noscheme orelse path_rootless orelse path_abempty)

unfoldable pub reg_name : Parser
unfolding many name_char
reg_name = many name_char

-- The loop of dec_octet from `count` and `value` on, three rounds at most: it reads the character
-- at `begin_` and does not move on.
unfoldable pub octet_loop : ℕ → ℕ → ℕ → Bytes → ℕ × ℕ
octet_loop zero count value s = (count, value)
octet_loop (suc left) count value [] = (count, value)
octet_loop (suc left) count value (c ∷ s) =
    let next = octet_loop left (count + 1) ((value * 10 + c) - b'0') (c ∷ s) in
    if is_digit c then next else (count, value)

unfoldable pub dec_octet : Parser
unfolding octet_loop
dec_octet s =
    let (count, value) = octet_loop 3 0 0 s in
    if count == 0
    then (false, s)
    else if leb value 9 && not (count == 1)
    then (false, s)
    else if leb value 99 && not (count == 2)
    then (false, s)
    else if ltb 255 value
    then (false, s)
    else (true, s)

unfoldable pub ipv4addr : Parser
unfolding saved dec_octet follows ◌andthen◌
ipv4addr = saved (
    dec_octet
    andthen follows b'.'
    andthen dec_octet
    andthen follows b'.'
    andthen dec_octet
    andthen follows b'.'
    andthen dec_octet)

unfoldable pub port : Parser
unfolding many one
port = many (one is_digit)

unfoldable pub host : Parser
unfolding ipv4addr reg_name ◌orelse◌
host = ipv4addr orelse reg_name

unfoldable pub userinfo : Parser
unfolding many name_char follows ◌orelse◌
userinfo = many (name_char orelse follows b':')

-- The `else if` goes on from where the first test has left off.
unfoldable pub authority : Parser
unfolding saved userinfo follows host optional port ◌andthen◌ ◌orelse◌
authority =
    saved ((userinfo andthen follows b'@' andthen host) orelse host)
    andthen optional (saved (follows b':' andthen port))

unfoldable pub relative_part : Parser
unfolding saved authority path_abempty optional path_absolute path_noscheme ◌andthen◌ ◌orelse◌
relative_part =
    saved (authority andthen path_abempty) orelse optional (path_absolute orelse path_noscheme)

-- The optional query and fragment at the end of a reference.
unfoldable pub query_and_fragment : Parser
unfolding optional saved follows query fragment ◌andthen◌
query_and_fragment =
    optional (saved (follows b'?' andthen query))
    andthen optional (saved (follows b'#' andthen fragment))

unfoldable pub relative_ref : Parser
unfolding relative_part query_and_fragment ◌andthen◌
relative_ref = relative_part andthen query_and_fragment
