-- ===== src/Xss/RuleSet.antt =====
-- src/xss.cpp, private/c_string.h: the rules as two tables, one for XHTML and one for HTML, of which
-- the type of the input chooses one. `std::map` and `std::set` are association lists whose keys
-- are found by the equivalence of the comparison; a pointer to an empty container is an empty name.
pub mod Laws
use cppcms.Prelude.{
  ℕ, zero, suc, ◌+◌, ◌-◌, ◌*◌, ◌/◌, ◌%◌, ◌^◌, ◌≤◌, ◌<◌, ◌≡◌, refl, sym, ap, ◌∙◌, ◌≢◌, ◌↔◌, ◌⊎◌, inl,
  inr, Bool, true, false, not, ◌&&◌, ◌||◌, Option, none, some, List, [], ◌∷◌, ◌++◌, append-nil,
  append_assoc, arith, ltb, leb, ◌==◌, if◌then◌else◌, within, ==_iff, Bool-cases, Option-cases,
  Bytes, codes, length, length-append, All, All-append, IsBytes, shr, shl, low_bits, take, drop,
  get_elem?, take-length-append, subst, same, same_iff, count, remove, count-remove, length-remove,
  lookup, erase, keys, lookup-erase, lookup-absent, KeysOnce, KeysOnce-tail, lookup_once,
  KeysOnce-put, lookup-cons, count-keys-erase, length-erase, length-take, drop-length-append,
  take-append-drop, length-drop, drop-drop, le_bytes, read_le, length-le_bytes, le_bytes-IsBytes,
  read_le-le_bytes_4, read_le-le_bytes_8,
}
use cppcms.Xss.{TagType, Rules, ascii_tolower, ascii_isdigit}

-- `std::lexicographical_compare` with an order of the characters' images under `f`.
unfoldable pub less : (ℕ → ℕ) → Bytes → Bytes → Bool
less f l [] = false
less f [] (d ∷ r) = true
less f (c ∷ l) (d ∷ r) =
    let rest = less f l r in
    if ltb (f c) (f d) then true else if ltb (f d) (f c) then false else rest

-- c_string::compare for XHTML, c_string::icompare for HTML.
unfoldable pub image : Bool → ℕ → ℕ
unfolding ascii_tolower
image is_xhtml c = if is_xhtml then c else ascii_tolower c

unfoldable pub equivalent : Bool → Bytes → Bytes → Bool
unfolding less image
equivalent is_xhtml a b = not (less (image is_xhtml) a b) && not (less (image is_xhtml) b a)

module _ {ℓ} {V : Type ℓ} where
  unfoldable pub find : Bool → Bytes → List (Bytes × V) → Option V
  unfolding equivalent
  find is_xhtml k [] = none
  find is_xhtml k ((j, v) ∷ m) = if equivalent is_xhtml k j then some v else find is_xhtml k m

  -- `m[k]` is assigned: an equivalent key keeps its spelling.
  unfoldable pub put : Bool → Bytes → V → List (Bytes × V) → List (Bytes × V)
  unfolding equivalent
  put is_xhtml k v [] = (k, v) ∷ []
  put is_xhtml k v ((j, w) ∷ m) =
      let rest = put is_xhtml k v m in if equivalent is_xhtml k j then (j, v) ∷ m else (j, w) ∷ rest

-- A validator that is null makes a property boolean.
abbrev pub Validator : Type 0
Validator = Option (Bytes → Bool)

pub record Tag : Type 0 where
  pub properties : List (Bytes × Validator)
  pub type : TagType

-- rules_holder with its base; `is_xhtml` stands for its template's parameters.
pub record RulesHolder : Type 0 where
  pub is_xhtml : Bool
  pub entities : List (Bytes × Unit {0})
  pub tags : List (Bytes × Tag)

-- The entities are compared with their case in both tables.
unfoldable pub holder_add_entity : Bytes → RulesHolder → RulesHolder
unfolding put
holder_add_entity name h = record h { entities = put true name tt h.entities }

unfoldable pub new_holder : Bool → RulesHolder
unfolding holder_add_entity
new_holder is_xhtml = holder_add_entity (codes "quot") (
    holder_add_entity (codes "amp") (
      holder_add_entity (codes "gt") (
        holder_add_entity (codes "lt") (record { is_xhtml = is_xhtml; entities = []; tags = [] }))))

unfoldable pub holder_valid_entity : RulesHolder → Bytes → Bool
unfolding find
holder_valid_entity h name = elim (find true name h.entities) [ none ↦ false | some _ ↦ true ]

-- `tags[name]`, with a new entry where there is none; its type is assigned at once.
unfoldable pub tag_of : RulesHolder → Bytes → TagType → Tag
unfolding find
tag_of h name type = elim (find h.is_xhtml name h.tags) [
  | none ↦ record { properties = []; type = type }
  | some t ↦ t
]

unfoldable pub holder_add_tag : Bytes → TagType → RulesHolder → RulesHolder
unfolding put tag_of
holder_add_tag name type h = record h {
  tags = put h.is_xhtml name (record (tag_of h name type) { type = type }) h.tags;
}

unfoldable pub holder_add_property : Bytes → Bytes → Validator → RulesHolder → RulesHolder
unfolding put tag_of
holder_add_property tname pname validator h =
    let tag = tag_of h tname TagType.invalid_tag in
    let properties = put h.is_xhtml pname validator tag.properties in
    record h { tags = put h.is_xhtml tname (record tag { properties = properties }) h.tags }

unfoldable pub holder_valid_tag : RulesHolder → Bytes → TagType
unfolding find
holder_valid_tag h name = elim (find h.is_xhtml name h.tags) [
  | none ↦ TagType.invalid_tag
  | some t ↦ t.type
]

-- The validator that a tag has for a property.
unfoldable pub find_property : RulesHolder → Bytes → Bytes → Option Validator
unfolding find
find_property h tname pname = elim (find h.is_xhtml tname h.tags) [
  | none ↦ none
  | some t ↦ find h.is_xhtml pname t.properties
]

abbrev is_null : Validator → Bool
is_null none = true
is_null (some _) = false

unfoldable pub holder_valid_boolean_property : RulesHolder → Bytes → Bytes → Bool
unfolding find_property
holder_valid_boolean_property h tname pname =
    if h.is_xhtml
    then false
    else elim (find_property h tname pname) [ none ↦ false | some validator ↦ is_null validator ]

-- What a validator says of a value; without one, XHTML wants the property's own name.
unfoldable pub run_validator : Bool → Bytes → Bytes → Validator → Bool
unfolding equivalent
run_validator is_xhtml pname value none =
    if is_xhtml then equivalent is_xhtml pname value else false
run_validator is_xhtml pname value (some validator) = validator value

unfoldable pub holder_valid_property : RulesHolder → Bytes → Bytes → Bytes → Bool
unfolding find_property run_validator
holder_valid_property h tname pname value = elim (find_property h tname pname) [
  | none ↦ false
  | some validator ↦ run_validator h.is_xhtml pname value validator
]

unfoldable pub all_digits : Bytes → Bool
unfolding ascii_isdigit
all_digits [] = true
all_digits (c ∷ s) = if ascii_isdigit c then all_digits s else false

unfoldable pub digits_behind : Bytes → Bool
unfolding all_digits
digits_behind [] = false
digits_behind (c ∷ s) = all_digits (c ∷ s)

unfoldable pub integer_property_functor : Bytes → Bool
unfolding digits_behind
integer_property_functor [] = false
integer_property_functor (c ∷ s) = if c == b'-' then digits_behind s else digits_behind (c ∷ s)

-- rules::data
pub record Data : Type 0 where
  pub xhtml_rules : RulesHolder
  pub html_rules : RulesHolder
  pub is_xhtml : Bool
  pub comments_allowed : Bool
  pub numeric_entities_allowed : Bool
  pub encoding : Bytes

unfoldable pub new : Data
unfolding new_holder
new = record {
  xhtml_rules = new_holder true;
  html_rules = new_holder false;
  is_xhtml = true;
  comments_allowed = false;
  numeric_entities_allowed = false;
  encoding = [];
}

-- `impl()`, to read and to change.
unfoldable pub impl : Data → RulesHolder
impl d = if d.is_xhtml then d.xhtml_rules else d.html_rules

unfoldable pub update : (RulesHolder → RulesHolder) → Data → Data
update f d =
    if d.is_xhtml
    then record d { xhtml_rules = f d.xhtml_rules }
    else record d { html_rules = f d.html_rules }

-- `html(t)`, with true for xhtml_input.
unfoldable pub html : Bool → Data → Data
html t d = record d { is_xhtml = t }

unfoldable pub add_tag : Bytes → TagType → Data → Data
unfolding update holder_add_tag
add_tag name type d = update (holder_add_tag name type) d

unfoldable pub add_entity : Bytes → Data → Data
unfolding update holder_add_entity
add_entity name d = update (holder_add_entity name) d

unfoldable pub add_property : Bytes → Bytes → Validator → Data → Data
unfolding update holder_add_property
add_property tname pname validator d = update (holder_add_property tname pname validator) d

unfoldable pub add_boolean_property : Bytes → Bytes → Data → Data
unfolding add_property
add_boolean_property tname pname d = add_property tname pname none d

unfoldable pub add_integer_property : Bytes → Bytes → Data → Data
unfolding add_property
add_integer_property tname pname d = add_property tname pname (some integer_property_functor) d

-- The rules as the filter asks them.
unfoldable pub as_rules : Data → Rules
unfolding impl holder_valid_entity holder_valid_tag holder_valid_boolean_property
    holder_valid_property
as_rules d = record {
  is_xhtml = d.is_xhtml;
  encoding = d.encoding;
  comments_allowed = d.comments_allowed;
  numeric_entities_allowed = d.numeric_entities_allowed;
  valid_entity = holder_valid_entity (impl d);
  valid_tag = holder_valid_tag (impl d);
  valid_boolean_property = holder_valid_boolean_property (impl d);
  valid_property = holder_valid_property (impl d);
}
