-- ===== src/Xss/Validate.antt =====
-- src/xss.cpp: the rules' test of a part, and `validate` for a text whose encoding is checked.
pub mod Laws
use cppcms.Prelude.{
  ℕ, zero, suc, ◌+◌, ◌-◌, ◌*◌, ◌/◌, ◌%◌, ◌^◌, ◌≤◌, ◌<◌, ◌≡◌, refl, sym, ap, ◌∙◌, ◌≢◌, ◌↔◌, ◌⊎◌, inl,
  inr, Bool, true, false, not, ◌&&◌, ◌||◌, Option, none, some, List, [], ◌∷◌, ◌++◌, append-nil,
  append_assoc, arith, ltb, leb, ◌==◌, if◌then◌else◌, within, ==_iff, Bool-cases, Option-cases,
  Bytes, codes, length, length-append, All, All-append, IsBytes, shr, shl, low_bits, take, drop,
  get_elem?, take-length-append, subst, same, same_iff, count, remove, count-remove, length-remove,
  lookup, erase, keys, lookup-erase, lookup-absent, KeysOnce, KeysOnce-tail, lookup_once,
  KeysOnce-put, lookup-cons, count-keys-erase, length-erase, length-take, drop-length-append,
  take-append-drop, length-drop, drop-drop, le_bytes, read_le, length-le_bytes, le_bytes-IsBytes,
  read_le-le_bytes_4, read_le-le_bytes_8,
}
use cppcms.Xss.{HtmlDataType, TagType, Entry, PropertyData, Rules, ascii_tolower, is_invalid}
use cppcms.Xss.Split.{split_to_parts}
use cppcms.Xss.Parse.{parse_part}
use cppcms.Xss.Nesting.{validate_nesting}

unfoldable pub lower : Bytes → Bytes
unfolding ascii_tolower
lower [] = []
lower (c ∷ s) = ascii_tolower c ∷ lower s

-- The sets of the names that were found: one compares them as they are, the other without case.
unfoldable pub is_found : Bool → Bytes → List Bytes → Bool
unfolding lower
is_found xhtml name [] = false
is_found xhtml name (x ∷ found) =
    (if xhtml then same name x else same (lower name) (lower x)) || is_found xhtml name found

-- The loop of `validate` over the parts: one that is invalid before or after it is parsed ends it.
unfoldable pub parse_valid : List Entry → Option (List Entry)
unfolding parse_part
parse_valid [] = some []
parse_valid (e ∷ es) =
    let rest : Option (List Entry) = elim (parse_valid es) [
      | none ↦ none
      | some done ↦ some (parse_part e ∷ done)
    ] in
    if is_invalid e.type then none else if is_invalid (parse_part e).type then none else rest

unfoldable pub any_invalid : List Entry → Bool
any_invalid [] = false
any_invalid (e ∷ es) = if is_invalid e.type then true else any_invalid es

module _ (r : Rules) where
  unfoldable pub valid_value : Bytes → Bytes → Option Bytes → Bool
  valid_value tag name none = r.valid_boolean_property tag name
  valid_value tag name (some value) = r.valid_property tag name value

  -- The loop over the properties of a tag.
  unfoldable pub valid_properties : Bytes → List Bytes → List PropertyData → Bool
  unfolding is_found valid_value
  valid_properties tag found [] = true
  valid_properties tag found (p ∷ properties) =
      let rest = valid_properties tag (p.name ∷ found) properties in
      if is_found r.is_xhtml p.name found
      then false
      else if valid_value tag p.name p.value
      then rest
      else false

  -- The switch on the tag's type, for a part of one of the four types of tags.
  abbrev pub allows : TagType → HtmlDataType → Bool
  allows TagType.invalid_tag type = false
  allows TagType.stand_alone HtmlDataType.open_and_close_tag_without_slash = true
  allows TagType.stand_alone HtmlDataType.open_and_close_tag = true
  allows TagType.stand_alone _ = false
  allows TagType.opening_and_closing HtmlDataType.open_tag = true
  allows TagType.opening_and_closing HtmlDataType.close_tag = true
  allows TagType.opening_and_closing _ = false
  allows TagType.any_tag type = true

  unfoldable pub valid_element : Entry → Bool
  unfolding valid_properties
  valid_element part =
      if allows (r.valid_tag part.tag.name) part.type
      then valid_properties part.tag.name [] part.tag.properties
      else false

  unfoldable pub valid_as : HtmlDataType → Entry → Bool
  unfolding valid_element
  valid_as HtmlDataType.invalid_data part = false
  valid_as HtmlDataType.plain_text part = true
  valid_as HtmlDataType.html_tag part = false
  valid_as HtmlDataType.html_entity part = r.valid_entity part.tag.name
  valid_as HtmlDataType.html_comment part = r.comments_allowed
  valid_as HtmlDataType.html_numeric_entity part = r.numeric_entities_allowed
  valid_as HtmlDataType.close_tag part = allows (r.valid_tag part.tag.name) HtmlDataType.close_tag
  valid_as _ part = valid_element part

  unfoldable pub validate_entry_by_rules : Entry → Bool
  unfolding valid_as
  validate_entry_by_rules part = valid_as part.type part

  unfoldable pub all_by_rules : List Entry → Bool
  unfolding validate_entry_by_rules
  all_by_rules [] = true
  all_by_rules (e ∷ es) = if validate_entry_by_rules e then all_by_rules es else false

  -- The nesting and the rules, for parts that were parsed.
  unfoldable pub validate_parsed : Option (List Entry) → Bool
  unfolding any_invalid all_by_rules
  validate_parsed none = false
  validate_parsed (some parsed) =
      let nested = validate_nesting parsed r.is_xhtml in
      if any_invalid nested then false else all_by_rules nested

  -- `validate` behind the encoding.
  unfoldable pub validate_text : Bytes → Bool
  unfolding parse_valid validate_parsed
  validate_text s = validate_parsed (parse_valid (split_to_parts s))
