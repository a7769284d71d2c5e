-- ===== src/Tests/Xss.antt =====
-- The XSS filter on a small set of rules.
use cppcms.Prelude.{
  ℕ, ◌≡◌, refl, ◌≢◌, ◌↔◌, ◌⊎◌, Bool, true, false, ◌&&◌, none, some, [], ◌∷◌, if◌then◌else◌, within,
  Bytes, codes, All, same,
}
use cppcms.Xss.{
  ascii_streq, no_tag, TagType, Entry, Rules, entry, is_invalid, open_tag, html_numeric_entity,
}
use cppcms.Xss.RuleSet.{
  Data, new, equivalent, find_property, holder_add_property, new_holder, as_rules, add_tag,
  add_integer_property, integer_property_functor,
}
use cppcms.Xss.RuleSet.Laws.{find_property-holder_add_property}
use cppcms.Xss.Split.{split_to_parts}
use cppcms.Xss.Split.Laws.{texts, split_to_parts-texts}
use cppcms.Xss.Split.Forms.{IsPart, split_to_parts-IsPart}
use cppcms.Xss.Properties.{validate_property_value}
use cppcms.Xss.Properties.Laws.{IsValue, validate_property_value_iff}
use cppcms.Xss.Parse.{numeric, all_chars, digits_value}
use cppcms.Xss.Parse.Laws.{IsAllowed, numeric_iff}
use cppcms.Xss.Nesting.{validate_nesting}
use cppcms.Xss.Nesting.Xhtml.{Nested, validate_nesting_iff}
use cppcms.Xss.Validate.{any_invalid, validate_text}
use cppcms.Xss.Validate.Laws.{Fine, validate_text_iff}
use cppcms.Xss.Filter.{filter_text, escape_invalid}
use cppcms.Xss.Filter.Verdict.{Unconvertible, validate_and_filter_if_invalid-validate}
use cppcms.Xss.Filter.{validate, validate_and_filter_if_invalid}
use cppcms.Encoding
use cppcms.Encoding.{Conversion, is_ascii_compatible}
use cppcms.Xss.Filter.Clean.{IsAccepted, HasEntities}
use cppcms.Xss.Filter.Output.{filter_text-IsAccepted}
use cppcms.Xss.Uri.{ipv4addr}
use cppcms.Xss.Uri.Reference.{both, full, relative, uri_validator_functor}
use cppcms.Xss.Uri.Laws.{uri_validator_functor-scheme, ipv4addr-false}

-- `hr` alone with an integer `size`, and `a` with its end.
abbrev table : Data
table =
    add_integer_property (codes "hr") (codes "size") (
      add_tag (codes "hr") TagType.stand_alone
        (add_tag (codes "a") TagType.opening_and_closing new))

abbrev page_rules : Rules
page_rules = as_rules table

-- A good part, an unknown tag, and an entity that is not allowed.
abbrev page : Bytes
page = codes "x <hr size='1' /><ul><a>&foo;</a>"

page_rules-HasEntities : HasEntities page_rules
unfolding as_rules add_integer_property add_tag new
page_rules-HasEntities = record { lt = refl; gt = refl; amp = refl; quot = refl }

split_to_parts-texts_example : texts (split_to_parts page) ≡ page
split_to_parts-texts_example = split_to_parts-texts page

split_to_parts-IsPart_example : All IsPart (split_to_parts page)
split_to_parts-IsPart_example = split_to_parts-IsPart page

validate_property_value_iff_example :
    (validate_property_value (codes "a&lt;b") ≡ true) ↔ IsValue (codes "a&lt;b")
validate_property_value_iff_example = validate_property_value_iff (codes "a&lt;b")

abbrev numeric_part : Entry
numeric_part = entry (codes "&#56320;") html_numeric_entity

abbrev is_decimal : ℕ → Bool
is_decimal c = within b'0' b'9' c

-- A low surrogate is accepted.
numeric_iff_example :
    (is_invalid (numeric numeric_part is_decimal 10 (codes "56320")).type ≡ false) ↔ (
      (codes "56320" ≢ [])
      × (all_chars is_decimal (codes "56320") ≡ true)
      × IsAllowed (digits_value 10 0 (codes "56320")))
unfolding entry
numeric_iff_example = numeric_iff numeric_part is_decimal 10 (codes "56320") refl

abbrev open_b : Entry
open_b = entry (codes "<b>") open_tag

validate_nesting_iff_example :
    (any_invalid (validate_nesting (open_b ∷ []) true) ≡ false) ↔ Nested [] (open_b ∷ [])
unfolding entry any_invalid
validate_nesting_iff_example = validate_nesting_iff (open_b ∷ []) refl

validate_text_iff_example :
    (validate_text page_rules page ≡ true) ↔ Fine page_rules [] (split_to_parts page)
unfolding as_rules add_integer_property add_tag new
validate_text_iff_example = validate_text_iff page_rules page refl

-- Conversions that take no text.
abbrev no_conversion : Conversion
no_conversion = record { stop = λ _ _ _. none; skip = λ _ _ _. none }

abbrev latin_rules : Rules
latin_rules = record page_rules { encoding = codes "ISO-8859-1" }

validate_and_filter_if_invalid-validate_example :
    ((out : Bytes) × (validate_and_filter_if_invalid no_conversion latin_rules page []
          escape_invalid 63
        ≡ some (validate no_conversion latin_rules page, out))
      × (validate no_conversion latin_rules page ≡ true → out ≡ []))
    ⊎ ((validate_and_filter_if_invalid no_conversion latin_rules page [] escape_invalid 63 ≡ none)
        × (validate no_conversion latin_rules page ≡ false)
        × Unconvertible no_conversion latin_rules page)
validate_and_filter_if_invalid-validate_example =
    validate_and_filter_if_invalid-validate no_conversion latin_rules escape_invalid page [] 63

-- An encoding that is not known makes the filter throw where `validate` returns false.
abbrev unknown_rules : Rules
unknown_rules = record page_rules { encoding = codes "x" }

unknown_throws :
    validate_and_filter_if_invalid no_conversion unknown_rules page [] escape_invalid 63 ≡ none
unfolding validate_and_filter_if_invalid is_ascii_compatible Encoding.equivalent Encoding.get
unknown_throws = refl

unknown_refused : validate no_conversion unknown_rules page ≡ false
unfolding validate is_ascii_compatible Encoding.equivalent Encoding.get
unknown_refused = refl

filter_text-IsAccepted_example :
    All (IsAccepted page_rules) (split_to_parts (filter_text page_rules escape_invalid page).1)
unfolding as_rules add_integer_property add_tag new
filter_text-IsAccepted_example =
    filter_text-IsAccepted page_rules escape_invalid page refl page_rules-HasEntities

page_filtered :
    (filter_text page_rules escape_invalid page).1
    ≡ codes "x <hr size='1' />&lt;ul&gt;<a>&amp;foo;</a>"
unfolding filter_text as_rules add_integer_property add_tag new validate_nesting split_to_parts
    ascii_streq no_tag integer_property_functor
page_filtered = refl

abbrev is_http : Bytes → Bool
is_http s = same s (codes "http")

uri_validator_functor-scheme_example : (is_http (codes "http") ≡ true) × (both ≢ relative)
unfolding uri_validator_functor same
uri_validator_functor-scheme_example =
    uri_validator_functor-scheme is_http both (codes "http") (codes "//a/")
      (refl, (refl, (refl, (refl, tt)))) refl

-- A relative reference passes for an absolute one when it begins with the name of a scheme.
full_relative : uri_validator_functor is_http full (codes "http/x") ≡ true
unfolding uri_validator_functor same
full_relative = refl

ipv4addr-false_example : (ipv4addr (codes "10.0.0.1")).0 ≡ false
ipv4addr-false_example = ipv4addr-false (codes "10.0.0.1")

find_property-holder_add_property_example :
    find_property
      (holder_add_property (codes "HR") (codes "Size") none (new_holder false))
      (codes "hr")
      (codes "size")
    ≡ (if equivalent false (codes "hr") (codes "HR")
          && equivalent false (codes "size") (codes "Size")
        then some none
        else find_property (new_holder false) (codes "hr") (codes "size"))
unfolding new_holder
find_property-holder_add_property_example =
    find_property-holder_add_property (new_holder false) (codes "HR") (codes "Size") (codes "hr")
      (codes "size") none
