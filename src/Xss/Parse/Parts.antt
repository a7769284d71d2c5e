-- ===== src/Xss/Parse/Parts.antt =====
-- What the parsers leave of a part: its text, no pair, and properties with accepted values.
use cppcms.Xss.{ascii_isdigit}
use cppcms.Xss.{ascii_isxdigit}
use cppcms.Xss.Parse.{all_chars}
use cppcms.Xss.Properties.{span, parse_properties}
use cppcms.Xss.Parse.{
  numeric, numeric_entity, set_name, inside, entity_body, parse_html_entity, closing, last_is,
  opening, tag_body, parse_html_tag, parse_as, parse_part,
}
use cppcms.Prelude.{ℕ, ◌-◌, refl, Bool, not, ◌||◌, [], ◌∷◌, arith, ◌==◌, Bytes, length, take}
use cppcms.Xss.{
  HtmlDataType, Entry, invalidate, ascii_isalnum, ascii_isspace, ascii_isalpha, open_tag,
  open_and_close_tag, close_tag, html_numeric_entity,
}
use cppcms.Xss.Properties.{span, parse_properties}
use cppcms.Xss.Parse.{
  numeric, numeric_entity, set_name, inside, entity_body, parse_html_entity, closing, last_is,
  opening, tag_body, parse_html_tag, parse_as, parse_part,
}
use cppcms.Xss.Properties.Parts.{
  Keeps, Keeps-refl, Keeps-trans, Keeps-invalidate, if_both, parse_properties-Keeps,
}

Keeps-set_name :
    (e : Entry) (name : Bytes) (type : HtmlDataType)
    → Keeps e (record (set_name e name) { type = type })
unfolding set_name
Keeps-set_name e name type = record { same_text = refl; same_pair = refl; safe = λ h. h }

numeric-Keeps :
    (e : Entry) (test : ℕ → Bool) (base : ℕ) (s : Bytes) → Keeps e (numeric e test base s)
unfolding numeric
numeric-Keeps e test base [] = Keeps-invalidate e
numeric-Keeps e test base (c ∷ s) = ground (arith, Keeps-invalidate e, Keeps-refl e)

-- A change of the type alone.
Keeps-type : (e : Entry) (type : HtmlDataType) → Keeps e (record e { type = type })
Keeps-type e type = record { same_text = refl; same_pair = refl; safe = λ h. h }

numeric_entity-Keeps : (e : Entry) (s : Bytes) → Keeps e (numeric_entity e s)
unfolding numeric_entity
numeric_entity-Keeps e [] = Keeps-invalidate e
numeric_entity-Keeps e (c ∷ s) =
    if_both (Keeps e) (c == b'x' || c == b'X') (numeric-Keeps e ascii_isxdigit 16 s)
      (numeric-Keeps e ascii_isdigit 10 (c ∷ s))

entity_body-Keeps : (e : Entry) (s : Bytes) → Keeps e (entity_body e s)
unfolding entity_body
entity_body-Keeps e [] = Keeps-invalidate e
entity_body-Keeps e (c ∷ s) =
    if_both (Keeps e) (c == b'#')
      (Keeps-trans e _ _ (Keeps-type e html_numeric_entity) (numeric_entity-Keeps _ s))
      (if_both (Keeps e) (all_chars ascii_isalnum (c ∷ s)) (Keeps-set_name e (c ∷ s) e.type)
        (Keeps-invalidate e))

closed-Keeps :
    (e : Entry) (name : Bytes) (t : Bytes)
    → Keeps e (elim t [ [] ↦ record (set_name e name) { type = close_tag } | _ ∷ _ ↦ invalidate e ])
closed-Keeps e name [] = Keeps-set_name e name close_tag
closed-Keeps e name (_ ∷ _) = Keeps-invalidate e

closing-Keeps : (e : Entry) (s : Bytes) → Keeps e (closing e s)
unfolding closing
closing-Keeps e [] = Keeps-invalidate e
closing-Keeps e (c ∷ s) =
    if_both (Keeps e) (not (ascii_isalpha c)) (Keeps-invalidate e) (
      closed-Keeps e (c ∷ (span ascii_isalnum s).0) (span ascii_isspace (span ascii_isalnum s).1).1)

opened-Keeps :
    (e : Entry) (name : Bytes) (type : HtmlDataType) (s : Bytes)
    → Keeps e (parse_properties (record (set_name e name) { type = type }) s)
opened-Keeps e name type s =
    Keeps-trans e _ _ (Keeps-set_name e name type) (parse_properties-Keeps _ s)

opening-Keeps : (e : Entry) (s : Bytes) → Keeps e (opening e s)
unfolding opening
opening-Keeps e [] = Keeps-invalidate e
opening-Keeps e (c ∷ s) =
    let name = c ∷ (span ascii_isalnum s).0 in
    let rest = (span ascii_isalnum s).1 in
    if_both (Keeps e) (not (ascii_isalpha c)) (Keeps-invalidate e) (
      if_both (Keeps e) (last_is b'/' (c ∷ s))
        (opened-Keeps e name open_and_close_tag (take (length rest - 1) rest))
        (opened-Keeps e name open_tag rest))

tag_body-Keeps : (e : Entry) (s : Bytes) → Keeps e (tag_body e s)
unfolding tag_body
tag_body-Keeps e [] = Keeps-invalidate e
tag_body-Keeps e (c ∷ s) =
    if_both (Keeps e) (c == b'/') (closing-Keeps e s) (opening-Keeps e (c ∷ s))

parse_as-Keeps : (type : HtmlDataType) (e : Entry) → Keeps e (parse_as type e)
unfolding parse_as parse_html_entity parse_html_tag
parse_as-Keeps HtmlDataType.html_entity e = entity_body-Keeps e (inside e.text)
parse_as-Keeps HtmlDataType.html_tag e = tag_body-Keeps e (inside e.text)
parse_as-Keeps _ e = Keeps-refl e

-- The parser of a part leaves its text and its pair, and of the properties that it adds each has
-- no value or one that is accepted.
pub parse_part-Keeps : (e : Entry) → Keeps e (parse_part e)
unfolding parse_part
parse_part-Keeps e = parse_as-Keeps e.type e
