-- ===== src/Xss/RuleSet/Laws.antt =====
-- What the rules answer after they were changed.
use cppcms.Prelude.{
  ◌≡◌, refl, sym, ap, ◌∙◌, ◌↔◌, inl, inr, Bool, true, false, ◌&&◌, Option, none, some, List, [],
  ◌∷◌, arith, if◌then◌else◌, Bool-cases, Option-cases, Bytes,
}
use cppcms.Xss.{TagType}
use cppcms.Xss.RuleSet.{
  less, image, equivalent, find, put, Validator, Tag, RulesHolder, tag_of, holder_add_tag,
  holder_add_property, holder_valid_tag, find_property, Data, impl, update, add_tag, as_rules,
}

abbrev images : Bool → Bytes → Bytes
images x [] = []
images x (c ∷ s) = image x c ∷ images x s

less_neither_iff : (x : Bool) (a b : Bytes) → (equivalent x a b ≡ true) ↔ (images x a ≡ images x b)
unfolding equivalent less image
less_neither_iff x [] [] = ground arith
less_neither_iff x [] (d ∷ b) = ground arith
less_neither_iff x (c ∷ a) [] = ground arith
less_neither_iff x (c ∷ a) (d ∷ b) = ground (arith, less_neither_iff x a b)

equivalent-sym : (x : Bool) (a b : Bytes) → equivalent x a b ≡ true → equivalent x b a ≡ true
equivalent-sym x a b h = (less_neither_iff x b a).1 (sym ((less_neither_iff x a b).0 h))

equivalent_trans :
    (x : Bool) (a b c : Bytes)
    → equivalent x a b ≡ true
    → equivalent x b c ≡ true
    → equivalent x a c ≡ true
equivalent_trans x a b c h k =
    (less_neither_iff x a c).1 ((less_neither_iff x a b).0 h ∙ (less_neither_iff x b c).0 k)

clash : {b : Bool} → b ≡ false → b ≡ true → ⊥
clash h k = absurd (ground (arith, h, k))

equivalent-congr :
    (x : Bool) (k i j : Bytes) → equivalent x j i ≡ true → equivalent x k j ≡ equivalent x k i
equivalent-congr x k i j h = elim (Bool-cases (equivalent x k j)) [
  | inl a ↦ a ∙ sym (equivalent_trans x k j i a h)
  | inr a ↦ elim (Bool-cases (equivalent x k i)) [
    | inr b ↦ a ∙ sym b
    | inl b ↦ absurd (clash a (equivalent_trans x k i j b (equivalent-sym x j i h)))
  ]
]

module _ {ℓ} {A : Type ℓ} where
  swap_tests :
      (a b : Bool) (p q r : A)
      → (a ≡ true → b ≡ true → ⊥)
      → (if a then p else if b then q else r) ≡ (if b then q else if a then p else r)
  swap_tests true true p q r h = absurd (h refl refl)
  swap_tests true false p q r h = refl
  swap_tests false b p q r h = refl

module _ {ℓ} {V : Type ℓ} where
  -- The first entry of a map, changed or kept.
  put-cons :
      (x : Bool) (j i : Bytes) (v w : V) (m : List (Bytes × V)) (b : Bool)
      → equivalent x j i ≡ b
      → put x j v ((i, w) ∷ m) ≡ (if b then (i, v) ∷ m else (i, w) ∷ put x j v m)
  unfolding put
  put-cons x j i v w m b h = ap (λ t. if t then (i, v) ∷ m else (i, w) ∷ put x j v m) h

  find-cons :
      (x : Bool) (k i : Bytes) (w : V) (m : List (Bytes × V))
      → find x k ((i, w) ∷ m) ≡ (if equivalent x k i then some w else find x k m)
  unfolding find
  find-cons x k i w m = refl

  find-put :
      (x : Bool) (k j : Bytes) (v : V) (m : List (Bytes × V))
      → find x k (put x j v m) ≡ (if equivalent x k j then some v else find x k m)
  unfolding find put
  find-put x k j v [] = refl
  find-put x k j v ((i, w) ∷ m) = elim (Bool-cases (equivalent x j i)) [
    | inl a ↦
        ap (find x k) (put-cons x j i v w m true a)
        ∙ hit a (equivalent x k j) (equivalent x k i) (equivalent-congr x k i j a)
    | inr a ↦
        ap (find x k) (put-cons x j i v w m false a)
        ∙ ap (λ o. if equivalent x k i then some w else o) (find-put x k j v m)
        ∙ swap_tests (equivalent x k i) (equivalent x k j) _ _ _
            (λ p q. clash a (equivalent_trans x j k i (equivalent-sym x k j q) p))
  ]
    where
      hit :
          equivalent x j i ≡ true
          → (a b : Bool) → a ≡ b
          → (if b then some v else find x k m)
            ≡ (if a then some v else if b then some w else find x k m)
      hit h true true e = refl
      hit h false false e = refl
      hit h true false e = absurd (ground (arith, e))
      hit h false true e = absurd (ground (arith, e))

type_of : Option Tag → TagType
type_of none = TagType.invalid_tag
type_of (some t) = t.type

valid_tag-type_of :
    (h : RulesHolder) (tag : Bytes) → holder_valid_tag h tag ≡ type_of (find h.is_xhtml tag h.tags)
unfolding holder_valid_tag type_of
valid_tag-type_of h tag = elim (Option-cases (find h.is_xhtml tag h.tags)) [
  | inl e ↦ rw (e, holder_valid_tag) refl
  | inr (t, e) ↦ rw (e, holder_valid_tag) refl
]

holder_valid_tag-holder_add_tag :
    (h : RulesHolder) (name tag : Bytes) (type : TagType)
    → holder_valid_tag (holder_add_tag name type h) tag
      ≡ (if equivalent h.is_xhtml tag name then type else holder_valid_tag h tag)
unfolding holder_add_tag type_of
holder_valid_tag-holder_add_tag h name tag type =
    valid_tag-type_of (holder_add_tag name type h) tag
    ∙ ap type_of (find-put h.is_xhtml tag name (record (tag_of h name type) { type = type }) h.tags)
    ∙ branch (equivalent h.is_xhtml tag name)
    ∙ ap (λ t. if equivalent h.is_xhtml tag name then type else t) (sym (valid_tag-type_of h tag))
  where
    branch :
        (b : Bool)
        → type_of (
            if b
            then some (record (tag_of h name type) { type = type })
            else find h.is_xhtml tag h.tags)
          ≡ (if b then type else type_of (find h.is_xhtml tag h.tags))
    branch true = refl
    branch false = refl

property_of : Bool → Bytes → Option Tag → Option Validator
property_of x pname none = none
property_of x pname (some t) = find x pname t.properties

find_property-property_of :
    (h : RulesHolder) (tag pname : Bytes)
    → find_property h tag pname ≡ property_of h.is_xhtml pname (find h.is_xhtml tag h.tags)
unfolding find_property property_of
find_property-property_of h tag pname = elim (Option-cases (find h.is_xhtml tag h.tags)) [
  | inl e ↦ rw (e, find_property) refl
  | inr (t, e) ↦ rw (e, find_property) refl
]

find-congr :
    (x : Bool) (a b : Bytes) (m : List (Bytes × Tag))
    → equivalent x a b ≡ true
    → find x a m ≡ find x b m
unfolding find
find-congr x a b [] h = refl
find-congr x a b ((i, w) ∷ m) h =
    let same_key : equivalent x a i ≡ equivalent x b i = key x a b i h in
    ap (λ t. if t then some w else find x a m) same_key
    ∙ ap (λ o. if equivalent x b i then some w else o) (find-congr x a b m h)
  where
    key : (x : Bool) (a b i : Bytes) → equivalent x a b ≡ true → equivalent x a i ≡ equivalent x b i
    key x a b i h = elim (Bool-cases (equivalent x a i)) [
      | inl p ↦ p ∙ sym (equivalent_trans x b a i (equivalent-sym x a b h) p)
      | inr p ↦ elim (Bool-cases (equivalent x b i)) [
        | inr q ↦ p ∙ sym q
        | inl q ↦ absurd (clash p (equivalent_trans x a b i h q))
      ]
    ]

tag_of-property_of :
    (h : RulesHolder) (tname name : Bytes) (type : TagType)
    → find h.is_xhtml name (tag_of h tname type).properties
      ≡ property_of h.is_xhtml name (find h.is_xhtml tname h.tags)
unfolding property_of find tag_of
tag_of-property_of h tname name type = elim (Option-cases (find h.is_xhtml tname h.tags)) [
  | inl e ↦ rw (e, tag_of) refl
  | inr (t, e) ↦ rw (e, tag_of) refl
]

pick_property :
    (x : Bool) (name : Bytes) (t : Tag) (o : Option Tag) (b p : Bool) (v : Validator)
    (found : Option Validator)
    → found ≡ property_of x name o
    → (b ≡ true → find x name t.properties ≡ (if p then some v else found))
    → property_of x name (if b then some t else o) ≡ (if b && p then some v else found)
unfolding property_of
pick_property x name t o true p v found h k = k refl
pick_property x name t o false p v found h k = sym h

-- After a property was added, the tag and the property, up to the case of HTML, have its
-- validator, and all others what they had.
pub find_property-holder_add_property :
    (h : RulesHolder) (tname pname tag name : Bytes) (v : Validator)
    → find_property (holder_add_property tname pname v h) tag name ≡ (
        if equivalent h.is_xhtml tag tname && equivalent h.is_xhtml name pname
        then some v
        else find_property h tag name)
unfolding holder_add_property property_of tag_of find
find_property-holder_add_property h tname pname tag name v =
    let x = h.is_xhtml in
    let old = tag_of h tname TagType.invalid_tag in
    let new : Tag = record old { properties = put x pname v old.properties } in
    find_property-property_of (holder_add_property tname pname v h) tag name
    ∙ ap (property_of x name) (find-put x tag tname new h.tags)
    ∙ pick_property x name new (find x tag h.tags) (equivalent x tag tname)
        (equivalent x name pname) v (find_property h tag name)
        (find_property-property_of h tag name)
        (λ e.
          find-put x name pname v old.properties
          ∙ ap (λ o. if equivalent x name pname then some v else o)
              (tag_of-property_of h tname name TagType.invalid_tag
                ∙ ap (property_of x name) (sym (find-congr x tag tname h.tags e))
                ∙ sym (find_property-property_of h tag name)))

-- The two tables have their own comparisons, which no operation changes.
abbrev pub IsData : Data → Type 0
IsData d = (d.xhtml_rules.is_xhtml ≡ true) × (d.html_rules.is_xhtml ≡ false)

impl-update : (f : RulesHolder → RulesHolder) (d : Data) → impl (update f d) ≡ f (impl d)
unfolding impl update
impl-update f d = ground arith

impl-is_xhtml : (d : Data) → IsData d → (impl d).is_xhtml ≡ d.is_xhtml
unfolding impl
impl-is_xhtml d h = ground arith

-- After a tag was added, it has its type, in HTML in any case, and every other tag has the type
-- that it had.
pub valid_tag-add_tag :
    (d : Data) (name tag : Bytes) (type : TagType)
    → IsData d
    → (as_rules (add_tag name type d)).valid_tag tag
      ≡ (if equivalent d.is_xhtml tag name then type else (as_rules d).valid_tag tag)
unfolding as_rules add_tag update impl
valid_tag-add_tag d name tag type h =
    ap (λ r. holder_valid_tag r tag) (impl-update (holder_add_tag name type) d)
    ∙ holder_valid_tag-holder_add_tag (impl d) name tag type
    ∙ ap (λ x. if equivalent x tag name then type else holder_valid_tag (impl d) tag)
        (impl-is_xhtml d h)
