-- ===== src/Xss/Filter.antt =====
-- src/xss.cpp: `validate`, `validate_and_filter_if_invalid` and `filter`. The conversions of
-- booster are parameters: `to_utf` and `from_utf` are those between an encoding and UTF-8.
pub mod Laws
pub mod Marks
pub mod Done
pub mod Origin
pub mod Clean
pub mod Output
pub mod Verdict
use cppcms.Prelude.{
  ℕ, zero, suc, ◌+◌, Bool, true, false, not, ◌&&◌, Option, none, some, List, [], ◌∷◌, ◌++◌, ◌==◌,
  if◌then◌else◌, Bytes, codes, length, get_elem?, same,
}
use cppcms.Xss.{HtmlDataType, Entry, Rules, invalidate, is_invalid}
use cppcms.Xss.Split.{split_to_parts}
use cppcms.Xss.Parse.{parse_part}
use cppcms.Xss.Nesting.{validate_nesting, modify}
use cppcms.Xss.Validate.{validate_entry_by_rules, any_invalid, validate_text}
use cppcms.Encoding
use cppcms.Encoding.{Conversion, is_ascii_compatible}

-- filtering_method_type
pub data FilteringMethod : Type 0 where
  remove_invalid escape_invalid : FilteringMethod

-- What the switch appends for one character of an invalid part.
unfoldable pub escape_char : ℕ → Bytes
escape_char c =
    if c == b'<'
    then codes "&lt;"
    else if c == b'>'
    then codes "&gt;"
    else if c == b'&'
    then codes "&amp;"
    else if c == b'"'
    then codes "&quot;"
    else c ∷ []

unfoldable pub escape_text : Bytes → Bytes
unfolding escape_char
escape_text [] = []
escape_text (c ∷ s) = escape_char c ++ escape_text s

unfoldable pub print_invalid : FilteringMethod → Bytes → Bytes
unfolding escape_text
print_invalid FilteringMethod.remove_invalid text = []
print_invalid FilteringMethod.escape_invalid text = escape_text text

unfoldable pub print_part : FilteringMethod → Entry → Bytes
unfolding print_invalid
print_part method part = if is_invalid part.type then print_invalid method part.text else part.text

-- The loop that writes `filtered`.
unfoldable pub print_parts : FilteringMethod → List Entry → Bytes
unfolding print_part
print_parts method [] = []
print_parts method (e ∷ es) = print_part method e ++ print_parts method es

-- The loop of the filter over the parts: whether none is invalid, and the parsed parts.
unfoldable pub parse_all : List Entry → Bool × List Entry
unfolding parse_part
parse_all [] = (true, [])
parse_all (e ∷ es) = (
  not (is_invalid e.type) && not (is_invalid (parse_part e).type) && (parse_all es).0,
  parse_part e ∷ (parse_all es).1,
)

unfoldable pub invalidate_pair : Option ℕ → List Entry → List Entry
unfolding modify invalidate
invalidate_pair none parsed = parsed
invalidate_pair (some pair) parsed = modify pair invalidate parsed

module _ (r : Rules) where
  -- One round of the loop over the rules: an invalid part makes its pair invalid too.
  unfoldable pub filter_part : ℕ → List Entry → Bool × List Entry
  unfolding validate_entry_by_rules invalidate_pair modify invalidate
  filter_part i parsed = elim (get_elem? parsed i) [
    | none ↦ (true, parsed)
    | some part ↦
        if validate_entry_by_rules r part
        then (true, parsed)
        else (false, modify i invalidate (invalidate_pair part.tag.pair parsed))
  ]

  unfoldable pub filter_loop : ℕ → ℕ → List Entry → Bool × List Entry
  unfolding filter_part
  filter_loop zero i parsed = (true, parsed)
  filter_loop (suc left) i parsed =
      let rest = filter_loop left (i + 1) (filter_part i parsed).1 in
      ((filter_part i parsed).0 && rest.0, rest.1)

  unfoldable pub filter_parts : Bytes → Bool × List Entry
  unfolding parse_all filter_loop
  filter_parts s =
      let parsed = parse_all (split_to_parts s) in
      let nested = validate_nesting parsed.1 r.is_xhtml in
      let checked = filter_loop (length nested) 0 nested in
      (parsed.0 && not (any_invalid nested) && checked.0, checked.1)

  -- The filter behind the encoding: whether the text is valid, and `filtered`.
  unfoldable pub filter_text : FilteringMethod → Bytes → Bool × Bytes
  unfolding filter_parts print_parts
  filter_text method s =
      let filtered = filter_parts s in (filtered.0, print_parts method filtered.1)

module _ (conv : Conversion) (r : Rules) where
  abbrev utf8_name : Bytes
  utf8_name = codes "UTF-8"

  -- `validate(begin,end,r)`
  unfoldable pub validate : Bytes → Bool
  unfolding validate_text
  validate s =
      if length r.encoding == 0
      then validate_text r s
      else if is_ascii_compatible r.encoding
      then (if (Encoding.valid conv r.encoding s 0).0 then validate_text r s else false)
      else elim (conv.stop s utf8_name r.encoding) [
        | none ↦ false
        | some t ↦ if (Encoding.valid conv utf8_name t 0).0 then validate_text r t else false
      ]

  unfoldable pub work_encoding : Bytes
  work_encoding =
      if length r.encoding == 0
      then r.encoding
      else if is_ascii_compatible r.encoding
      then r.encoding
      else utf8_name

  -- A text in the encoding of the work: whether it is valid, and it or what is left of it. Here and
  -- below `none` is an exception that leaves the function.
  unfoldable pub filter_encoding : ℕ → Bytes → Option (Bool × Bytes)
  unfolding work_encoding
  filter_encoding repl_ch s = elim (Encoding.validate_or_filter conv work_encoding s [] repl_ch) [
    | none ↦ none
    | some checked ↦ some (if checked.0 then (true, s) else checked)
  ]

  -- Behind the exception of the first conversion.
  unfoldable pub decode_skipping : Bytes → Option (Bool × Bytes)
  unfolding filter_encoding
  decode_skipping s = elim (conv.skip s utf8_name r.encoding) [
    | none ↦ none
    | some t ↦ elim (filter_encoding 0 t) [ none ↦ none | some work ↦ some (false, work.1) ]
  ]

  -- The text that is split, and whether the encoding was valid.
  unfoldable pub decode : ℕ → Bytes → Option (Bool × Bytes)
  unfolding filter_encoding decode_skipping
  decode repl_ch s =
      if length r.encoding == 0
      then some (true, s)
      else if is_ascii_compatible r.encoding
      then filter_encoding repl_ch s
      else elim (conv.stop s utf8_name r.encoding) [
        | some t ↦ filter_encoding 0 t
        | none ↦ decode_skipping s
      ]

  -- What goes to `output`: an exception of the conversion leaves it as it was.
  unfoldable pub encode_output : Bytes → Bytes → Bytes
  unfolding work_encoding
  encode_output filtered output =
      if same work_encoding r.encoding
      then filtered
      else elim (conv.stop filtered r.encoding utf8_name) [ some t ↦ t | none ↦ output ]

  -- The result, and `output`.
  unfoldable pub validate_and_filter_if_invalid :
      Bytes → Bytes → FilteringMethod → ℕ → Option (Bool × Bytes)
  unfolding decode filter_text encode_output
  validate_and_filter_if_invalid s output method repl_ch = elim (decode repl_ch s) [
    | none ↦ none
    | some work ↦ some (
        let filtered = filter_text r method work.1 in
        if work.0 && filtered.0 then (true, output) else (false, encode_output filtered.1 output))
  ]

  unfoldable pub filter : Bytes → FilteringMethod → ℕ → Option Bytes
  unfolding validate_and_filter_if_invalid
  filter input method repl_ch = elim (validate_and_filter_if_invalid input [] method repl_ch) [
    | none ↦ none
    | some res ↦ some (if res.0 then input else res.1)
  ]
