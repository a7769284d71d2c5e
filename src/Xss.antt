-- ===== src/Xss.antt =====
-- src/xss.cpp, private/c_string.h: the parts of an HTML text, their character tests, and the rules as
-- the filter sees them. The children are the splitter, the parsers of one part, the nesting of
-- tags, the filter itself and the rules' implementation.
pub mod Split
pub mod Properties
pub mod Parse
pub mod Nesting
pub mod Validate
pub mod Filter
pub mod RuleSet
pub mod Uri
use cppcms.Prelude.{
  ℕ, zero, suc, ◌+◌, ◌-◌, ◌*◌, ◌/◌, ◌%◌, ◌^◌, ◌≤◌, ◌<◌, ◌≡◌, refl, sym, ap, ◌∙◌, ◌≢◌, ◌↔◌, ◌⊎◌, inl,
  inr, Bool, true, false, not, ◌&&◌, ◌||◌, Option, none, some, List, [], ◌∷◌, ◌++◌, append-nil,
  append_assoc, arith, ltb, leb, ◌==◌, if◌then◌else◌, within, ==_iff, Bool-cases, Option-cases,
  Bytes, codes, length, length-append, All, All-append, IsBytes, shr, shl, low_bits, take, drop,
  get_elem?, take-length-append, subst, same, same_iff, count, remove, count-remove, length-remove,
  lookup, erase, keys, lookup-erase, lookup-absent, KeysOnce, KeysOnce-tail, lookup_once,
  KeysOnce-put, lookup-cons, count-keys-erase, length-erase, length-take, drop-length-append,
  take-append-drop, length-drop, drop-drop, le_bytes, read_le, length-le_bytes, le_bytes-IsBytes,
  read_le-le_bytes_4, read_le-le_bytes_8,
}

-- html_data_type.
pub data HtmlDataType : Type 0 where
  invalid_data plain_text html_entity html_tag open_tag close_tag : HtmlDataType
  open_and_close_tag html_comment html_numeric_entity : HtmlDataType
  open_and_close_tag_without_slash : HtmlDataType

-- A property has no value where `value_begin` is null.
pub record PropertyData : Type 0 where
  pub name : Bytes
  pub value : Option Bytes

-- tag_data. The name of a part that has none is empty; `pair` is none for -1.
pub record TagData : Type 0 where
  pub name : Bytes
  pub pair : Option ℕ
  pub properties : List PropertyData

-- An entry with the text `[begin,end)`.
pub record Entry : Type 0 where
  pub text : Bytes
  pub type : HtmlDataType
  pub tag : TagData

unfoldable pub no_tag : TagData
no_tag = record { name = []; pair = none; properties = [] }

-- `entry(b,e,t)`
unfoldable pub entry : Bytes → HtmlDataType → Entry
entry text type = record { text = text; type = type; tag = no_tag }

abbrev pub is_invalid : HtmlDataType → Bool
is_invalid HtmlDataType.invalid_data = true
is_invalid _ = false

-- `part.type=invalid_data`
unfoldable pub invalidate : Entry → Entry
invalidate part = record part { type = HtmlDataType.invalid_data }

unfoldable pub ascii_isalpha : ℕ → Bool
ascii_isalpha c = within b'a' b'z' c || within b'A' b'Z' c || c == b'_'

unfoldable pub ascii_tolower : ℕ → ℕ
ascii_tolower c = if within b'A' b'Z' c then (c - b'A') + b'a' else c

-- ascii_streq compares the characters behind a test of the lengths.
unfoldable pub equal_chars : Bool → Bytes → Bytes → Bool
equal_chars xhtml [] r = true
equal_chars xhtml (c ∷ l) [] = true
equal_chars xhtml (c ∷ l) (d ∷ r) =
    let rest = equal_chars xhtml l r in
    if (if xhtml then c == d else ascii_tolower c == ascii_tolower d) then rest else false

unfoldable pub ascii_streq : Bytes → Bytes → Bool → Bool
unfolding equal_chars
ascii_streq l r xhtml = if length l == length r then equal_chars xhtml l r else false

unfoldable pub ascii_isdigit : ℕ → Bool
ascii_isdigit c = within b'0' b'9' c

unfoldable pub ascii_isalnum : ℕ → Bool
unfolding ascii_isdigit
ascii_isalnum c = ascii_isdigit c || within b'a' b'z' c || within b'A' b'Z' c

unfoldable pub ascii_isxdigit : ℕ → Bool
unfolding ascii_isdigit
ascii_isxdigit c = ascii_isdigit c || within b'a' b'f' c || within b'A' b'F' c

unfoldable pub ascii_isspace : ℕ → Bool
ascii_isspace c = c == b' ' || c == 13 || c == 10 || c == 9

-- rules::tag_type
pub data TagType : Type 0 where
  invalid_tag opening_and_closing stand_alone any_tag : TagType

-- What the filter asks of its rules; `is_xhtml` is `html() == xhtml_input`.
pub record Rules : Type 0 where
  pub is_xhtml : Bool
  pub encoding : Bytes
  pub comments_allowed : Bool
  pub numeric_entities_allowed : Bool
  pub valid_entity : Bytes → Bool
  pub valid_tag : Bytes → TagType
  pub valid_boolean_property : Bytes → Bytes → Bool
  pub valid_property : Bytes → Bytes → Bytes → Bool
