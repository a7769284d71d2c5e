-- ===== src/Xss/Properties.antt =====
-- src/xss.cpp: validate_property_value and parse_properties. A tag's text ends in `>`, so the scans
-- that the source leaves unbounded stop there at the latest. A function that reads a text here sees
-- it without that last character, and stops at its end as the source does at it.
pub mod Laws
pub mod Parts
use cppcms.Prelude.{
  ℕ, zero, suc, ◌+◌, ◌-◌, ◌*◌, ◌/◌, ◌%◌, ◌^◌, ◌≤◌, ◌<◌, ◌≡◌, refl, sym, ap, ◌∙◌, ◌≢◌, ◌↔◌, ◌⊎◌, inl,
  inr, Bool, true, false, not, ◌&&◌, ◌||◌, Option, none, some, List, [], ◌∷◌, ◌++◌, append-nil,
  append_assoc, arith, ltb, leb, ◌==◌, if◌then◌else◌, within, ==_iff, Bool-cases, Option-cases,
  Bytes, codes, length, length-append, All, All-append, IsBytes, shr, shl, low_bits, take, drop,
  get_elem?, take-length-append, subst, same, same_iff, count, remove, count-remove, length-remove,
  lookup, erase, keys, lookup-erase, lookup-absent, KeysOnce, KeysOnce-tail, lookup_once,
  KeysOnce-put, lookup-cons, count-keys-erase, length-erase, length-take, drop-length-append,
  take-append-drop, length-drop, drop-drop, le_bytes, read_le, length-le_bytes, le_bytes-IsBytes,
  read_le-le_bytes_4, read_le-le_bytes_8,
}
use cppcms.Xss.{
  HtmlDataType, Entry, PropertyData, TagData, entry, invalidate, ascii_isalpha, ascii_isalnum,
  ascii_isdigit, ascii_isxdigit, ascii_isspace, invalid_data, plain_text, html_entity, html_tag,
  html_comment, open_tag, close_tag, open_and_close_tag, html_numeric_entity,
}

-- The entities that may stand in a property's value.
abbrev pub value_entities : List Bytes
value_entities =
    codes "amp;"
    ∷ codes "lt;"
    ∷ codes "gt;"
    ∷ codes "quot;"
    ∷ codes "apos;"
    ∷ codes "#x27;"
    ∷ codes "#X27;"
    ∷ codes "#39;"
    ∷ []

-- `ends_with(begin,end,value)`: the text behind `value` when it begins with it.
unfoldable pub ends_with : Bytes → Bytes → Option Bytes
ends_with [] s = some s
ends_with (v ∷ value) [] = none
ends_with (v ∷ value) (c ∷ s) = if c == v then ends_with value s else none

unfoldable pub ends_with_any : List Bytes → Bytes → Option Bytes
unfolding ends_with
ends_with_any [] s = none
ends_with_any (v ∷ values) s = elim (ends_with v s) [
  | some rest ↦ some rest
  | none ↦ ends_with_any values s
]

-- The loop of validate_property_value; a round takes a character at least.
unfoldable pub value_loop : ℕ → Bytes → Bool
unfolding ends_with_any
value_loop fuel [] = true
value_loop zero (c ∷ s) = false
value_loop (suc fuel) (c ∷ s) =
    let next = value_loop fuel s in
    let behind : Bool = elim (ends_with_any value_entities s) [
      | none ↦ false
      | some rest ↦ value_loop fuel rest
    ] in
    if c == b'<' || c == b'>' then false else if c == b'&' then behind else next

unfoldable pub validate_property_value : Bytes → Bool
unfolding value_loop
validate_property_value s = value_loop (length s) s

-- A run of characters that a test accepts, and what follows.
unfoldable pub span : (ℕ → Bool) → Bytes → Bytes × Bytes
span test [] = ([], [])
span test (c ∷ s) = let rest = span test s in if test c then (c ∷ rest.0, rest.1) else ([], c ∷ s)

abbrev pub is_quote : ℕ → Bool
is_quote c = c == b'"' || c == 39

abbrev pub is_char : ℕ → ℕ → Bool
is_char quote c = not (c == quote)

-- A value with the text from the quote that ends it on; none when there is no quote, or when the
-- value is not valid.
unfoldable pub checked_value : Bytes → Bytes → Option (Bytes × Bytes)
unfolding validate_property_value
checked_value value [] = none
checked_value value (_ ∷ rest) = if validate_property_value value then some (value, rest) else none

-- What follows `=`.
unfoldable pub quoted_value : Bytes → Option (Bytes × Bytes)
unfolding span checked_value
quoted_value [] = none
quoted_value (quote ∷ s) =
    if is_quote quote
    then checked_value (span (is_char quote) s).0 (span (is_char quote) s).1
    else none

-- A property with what follows its `=`: without a valid value it is left bare.
unfoldable pub with_value : Bytes → Option (Bytes × Bytes) → PropertyData × Option (Bool × Bytes)
with_value name none = (record { name = name; value = none }, none)
with_value name (some (value, rest)) =
    (record { name = name; value = some value }, some (false, rest))

-- A property from the end of its name on, and whether a space ended it with what follows; none
-- there when the text is not valid.
unfoldable pub behind_name : Bytes → Bytes → PropertyData × Option (Bool × Bytes)
unfolding ascii_isspace quoted_value with_value
behind_name name [] = (record { name = name; value = none }, none)
behind_name name (c ∷ rest) =
    if ascii_isspace c
    then (record { name = name; value = none }, some (true, rest))
    else if c == b'='
    then with_value name (quoted_value rest)
    else (record { name = name; value = none }, none)

unfoldable pub one_property : Bytes → PropertyData × Option (Bool × Bytes)
unfolding span ascii_isalnum behind_name
one_property s = behind_name (span ascii_isalnum s).0 (span ascii_isalnum s).1

-- `part.tag.properties.push_back(property)`
unfoldable pub push_property : Entry → PropertyData → Entry
push_property part property = record part {
  tag = record part.tag { properties = part.tag.properties ++ property ∷ [] };
}

-- One round of the loop of parse_properties: the part that it leaves, and `space_found` with the
-- text from `begin` on unless it returns.
unfoldable pub properties_round : Entry → Bool → ℕ → Bytes → Entry × Option (Bool × Bytes)
unfolding invalidate ascii_isspace ascii_isalpha one_property push_property
properties_round part space_found c s =
    let pushed = push_property part (one_property (c ∷ s)).0 in
    let next = (one_property (c ∷ s)).1 in
    if ascii_isspace c
    then (part, some (true, s))
    else if not space_found
    then (invalidate part, none)
    else if not (ascii_isalpha c)
    then (invalidate part, none)
    else (elim next [ none ↦ invalidate pushed | some _ ↦ pushed ], next)

-- The loop; a round takes a character at least.
unfoldable pub properties_loop : ℕ → Entry → Bool → Bytes → Entry
unfolding properties_round
properties_loop fuel part space_found [] = part
properties_loop zero part space_found (c ∷ s) = part
properties_loop (suc fuel) part space_found (c ∷ s) =
    elim (properties_round part space_found c s).1 [
      | none ↦ (properties_round part space_found c s).0
      | some (spaced, rest) ↦
          properties_loop fuel (properties_round part space_found c s).0 spaced rest
    ]

unfoldable pub parse_properties : Entry → Bytes → Entry
unfolding properties_loop
parse_properties part s = properties_loop (length s) part true s
