-- ===== src/Xss/Parse.antt =====
-- src/xss.cpp: the parsers of one part, which see a tag without its `>` and an entity without its
-- `;`, as the properties are seen.
pub mod Laws
pub mod Parts
use cppcms.Prelude.{
  ℕ, zero, suc, ◌+◌, ◌-◌, ◌*◌, ◌/◌, ◌%◌, ◌^◌, ◌≤◌, ◌<◌, ◌≡◌, refl, sym, ap, ◌∙◌, ◌≢◌, ◌↔◌, ◌⊎◌, inl,
  inr, Bool, true, false, not, ◌&&◌, ◌||◌, Option, none, some, List, [], ◌∷◌, ◌++◌, append-nil,
  append_assoc, arith, ltb, leb, ◌==◌, if◌then◌else◌, within, ==_iff, Bool-cases, Option-cases,
  Bytes, codes, length, length-append, All, All-append, IsBytes, shr, shl, low_bits, take, drop,
  get_elem?, take-length-append, subst, same, same_iff, count, remove, count-remove, length-remove,
  lookup, erase, keys, lookup-erase, lookup-absent, KeysOnce, KeysOnce-tail, lookup_once,
  KeysOnce-put, lookup-cons, count-keys-erase, length-erase, length-take, drop-length-append,
  take-append-drop, length-drop, drop-drop, le_bytes, read_le, length-le_bytes, le_bytes-IsBytes,
  read_le-le_bytes_4, read_le-le_bytes_8,
}
use cppcms.Xss.{
  HtmlDataType, Entry, PropertyData, TagData, entry, invalidate, ascii_isalpha, ascii_isalnum,
  ascii_isdigit, ascii_isxdigit, ascii_isspace, invalid_data, plain_text, html_entity, html_tag,
  html_comment, open_tag, close_tag, open_and_close_tag, html_numeric_entity,
}
use cppcms.Xss.Properties.{span, parse_properties}

-- The value of a digit in base 16, and strtol on a run of digits: the largest `long` of 64 bits
-- stands for the values above it.
unfoldable pub digit_value : ℕ → ℕ
digit_value c =
    if within b'0' b'9' c
    then c - b'0'
    else if within b'a' b'f' c
    then (c - b'a') + 10
    else (c - b'A') + 10

unfoldable pub digits_value : ℕ → ℕ → Bytes → ℕ
unfolding digit_value
digits_value base value [] = value
digits_value base value (c ∷ s) = digits_value base (value * base + digit_value c) s

abbrev pub long_max : ℕ
long_max = 2 ^ 63 - 1

unfoldable pub strtol : Bytes → ℕ → ℕ
unfolding digits_value
strtol s base = let value = digits_value base 0 s in if ltb long_max value then long_max else value

-- The code points that a numeric entity may not name.
unfoldable pub is_refused : ℕ → Bool
is_refused code_point =
    ltb 0x10FFFF code_point
    || within 0xD800 0xDBFF code_point
    || code_point == 0xFFFF
    || code_point == 0xFFFE
    || within 0x7F 0x9F code_point
    || (ltb code_point 0x20 && not (within 0x9 0xA code_point || code_point == 0xD))
    || leb code_point 0x08

unfoldable pub all_chars : (ℕ → Bool) → Bytes → Bool
all_chars test [] = true
all_chars test (c ∷ s) = if test c then all_chars test s else false

-- The digits of a numeric entity in a base, one at least.
unfoldable pub numeric : Entry → (ℕ → Bool) → ℕ → Bytes → Entry
unfolding invalidate all_chars strtol is_refused
numeric part test base [] = invalidate part
numeric part test base (c ∷ s) =
    if all_chars test (c ∷ s)
    then if is_refused (strtol (c ∷ s) base) then invalidate part else part
    else invalidate part

-- What follows `&#`.
unfoldable pub numeric_entity : Entry → Bytes → Entry
unfolding invalidate numeric ascii_isxdigit ascii_isdigit
numeric_entity part [] = invalidate part
numeric_entity part (c ∷ s) =
    if c == b'x' || c == b'X'
    then numeric part ascii_isxdigit 16 s
    else numeric part ascii_isdigit 10 (c ∷ s)

-- The text between the first and the last character.
unfoldable pub inside : Bytes → Bytes
inside text = take (length text - 2) (drop 1 text)

unfoldable pub set_name : Entry → Bytes → Entry
set_name part name = record part { tag = record part.tag { name = name } }

unfoldable pub entity_body : Entry → Bytes → Entry
unfolding invalidate numeric_entity all_chars ascii_isalnum set_name
entity_body part [] = invalidate part
entity_body part (c ∷ s) =
    if c == b'#'
    then numeric_entity (record part { type = html_numeric_entity }) s
    else if all_chars ascii_isalnum (c ∷ s)
    then set_name part (c ∷ s)
    else invalidate part

unfoldable pub parse_html_entity : Entry → Entry
unfolding inside entity_body
parse_html_entity part = entity_body part (inside part.text)

-- What follows `</`.
unfoldable pub closing : Entry → Bytes → Entry
unfolding invalidate ascii_isalpha span ascii_isalnum ascii_isspace set_name
closing part [] = invalidate part
closing part (c ∷ s) =
    if not (ascii_isalpha c)
    then invalidate part
    else elim (span ascii_isspace (span ascii_isalnum s).1).1 [
      | [] ↦ record (set_name part (c ∷ (span ascii_isalnum s).0)) { type = close_tag }
      | _ ∷ _ ↦ invalidate part
    ]

unfoldable pub last_is : ℕ → Bytes → Bool
last_is x [] = false
last_is x (c ∷ []) = c == x
last_is x (c ∷ d ∷ s) = last_is x (d ∷ s)

-- A tag that is not a closing one, from its name on.
unfoldable pub opening : Entry → Bytes → Entry
unfolding invalidate ascii_isalpha span ascii_isalnum set_name last_is parse_properties
opening part [] = invalidate part
opening part (c ∷ s) =
    let named = set_name part (c ∷ (span ascii_isalnum s).0) in
    let rest = (span ascii_isalnum s).1 in
    if not (ascii_isalpha c)
    then invalidate part
    else if last_is b'/' (c ∷ s)
    then parse_properties (record named { type = open_and_close_tag }) (take (length rest - 1) rest)
    else parse_properties (record named { type = open_tag }) rest

unfoldable pub tag_body : Entry → Bytes → Entry
unfolding invalidate closing opening
tag_body part [] = invalidate part
tag_body part (c ∷ s) = if c == b'/' then closing part s else opening part (c ∷ s)

unfoldable pub parse_html_tag : Entry → Entry
unfolding inside tag_body
parse_html_tag part = tag_body part (inside part.text)

-- The switch of parse_part.
unfoldable pub parse_as : HtmlDataType → Entry → Entry
unfolding parse_html_entity parse_html_tag
parse_as HtmlDataType.html_entity part = parse_html_entity part
parse_as HtmlDataType.html_tag part = parse_html_tag part
parse_as _ part = part

unfoldable pub parse_part : Entry → Entry
unfolding parse_as
parse_part part = parse_as part.type part
