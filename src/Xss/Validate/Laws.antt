-- ===== src/Xss/Validate/Laws.antt =====
-- What `validate` accepts in XHTML, by one pass over the parts with a stack of names.
use cppcms.Prelude.{
  ◌≡◌, refl, sym, ap, ◌∙◌, ◌↔◌, ◌⊎◌, inl, inr, Bool, true, false, none, some, List, [], ◌∷◌, arith,
  if◌then◌else◌, Bool-cases, Bytes, All, subst,
}
use cppcms.Xss.{HtmlDataType, Entry, Rules, is_invalid}
use cppcms.Xss.Split.{split_to_parts}
use cppcms.Xss.Parse.{parse_part}
use cppcms.Xss.Nesting.{validate_nesting}
use cppcms.Xss.Nesting.Laws.{bare, bares}
use cppcms.Xss.Nesting.Xhtml.{Step, Step-map, Nested, validate_nesting_iff, validate_nesting-bares}
use cppcms.Xss.Validate.{
  valid_as, valid_element, validate_entry_by_rules, parse_valid, any_invalid, all_by_rules,
  validate_text, validate_parsed,
}

-- A part that is valid before and after it is parsed.
abbrev pub IsParsed : Entry → Type 0
IsParsed e = (is_invalid e.type ≡ false) × (is_invalid (parse_part e).type ≡ false)

-- The parts are valid, the rules accept each, and its tags are nested.
abbrev pub Fine : Rules → List Bytes → List Entry → Type 0
Fine r st [] = st ≡ []
Fine r st (e ∷ es) =
    IsParsed e
    × (validate_entry_by_rules r (parse_part e) ≡ true)
    × Step (parse_part e).type (parse_part e).tag.name st (λ behind. Fine r behind es)

parse_all : List Entry → List Entry
parse_all [] = []
parse_all (e ∷ es) = parse_part e ∷ parse_all es

parse_valid_some :
    (es : List Entry)
    → ((parse_valid es ≡ some (parse_all es)) × All IsParsed es)
      ⊎ ((parse_valid es ≡ none) × (All IsParsed es → ⊥))
unfolding parse_valid parse_all
parse_valid_some [] = inl (refl, tt)
parse_valid_some (e ∷ es) = elim (Bool-cases (is_invalid e.type)) [
  | inl a ↦ inr (rw a refl, λ p. absurd (ground (arith, a, p.0.0)))
  | inr a ↦ elim (Bool-cases (is_invalid (parse_part e).type)) [
    | inl b ↦ inr (rw (a, b) refl, λ p. absurd (ground (arith, b, p.0.1)))
    | inr b ↦ elim (parse_valid_some es) [
      | inl (h, k) ↦ inl (rw (a, b, h) refl, ((a, b), k))
      | inr (h, n) ↦ inr (rw (a, b, h) refl, λ p. n p.1)
    ]
  ]
]

any_invalid-parse_all : (es : List Entry) → All IsParsed es → any_invalid (parse_all es) ≡ false
unfolding any_invalid parse_all
any_invalid-parse_all [] h = refl
any_invalid-parse_all (e ∷ es) (p, h) = rw (p.1, any_invalid-parse_all es h) refl

pub valid_as-bare :
    (r : Rules) (t : HtmlDataType) (e : Entry) → valid_as r t (bare e) ≡ valid_as r t e
unfolding valid_as valid_element
valid_as-bare r HtmlDataType.invalid_data e = refl
valid_as-bare r _ e = refl

all_by_rules-bares : (r : Rules) (es : List Entry) → all_by_rules r (bares es) ≡ all_by_rules r es
unfolding all_by_rules validate_entry_by_rules
all_by_rules-bares r [] = refl
all_by_rules-bares r (e ∷ es) = rw (valid_as-bare r e.type e, all_by_rules-bares r es) refl

Step-and :
    (t : HtmlDataType) (name : Bytes) (st : List Bytes) (A : Type 0) (P : List Bytes → Type 0)
    → Step t name st (λ b. A × P b) ↔ (A × Step t name st P)
Step-and HtmlDataType.open_tag name st A P = (λ x. x, λ x. x)
Step-and HtmlDataType.close_tag name [] A P = (λ x. absurd x, λ x. x.1)
Step-and HtmlDataType.close_tag name (top ∷ st) A P =
    (λ (p, (a, q)). (a, (p, q)), λ (a, (p, q)). (p, (a, q)))
Step-and _ name st A P = (λ x. x, λ x. x)

-- The three tests of the parts, apart.
IsChecked : Rules → List Entry → Type 0
IsChecked r es = All IsParsed es × (all_by_rules r (parse_all es) ≡ true)

IsChecked-cons :
    (r : Rules) (e : Entry) (es : List Entry)
    → IsChecked r (e ∷ es)
      ↔ (IsParsed e × (validate_entry_by_rules r (parse_part e) ≡ true) × IsChecked r es)
unfolding IsChecked all_by_rules parse_all
IsChecked-cons r e es = elim (Bool-cases (validate_entry_by_rules r (parse_part e))) [
  | inl v ↦ rw v (λ ((p, ps), a). (p, refl, (ps, a)), λ (p, _, (ps, a)). ((p, ps), a))
  | inr v ↦ rw v (λ (_, a). absurd (ground (arith, a)), λ (_, a, _). absurd (ground (arith, a)))
]

Fine-IsChecked :
    (r : Rules) (es : List Entry) (st : List Bytes)
    → Fine r st es ↔ (IsChecked r es × Nested st (parse_all es))
unfolding IsChecked all_by_rules parse_all
Fine-IsChecked r [] st = (λ h. ((tt, refl), h), λ h. h.1)
Fine-IsChecked r (e ∷ es) st =
    let t = (parse_part e).type in
    let name = (parse_part e).tag.name in
    let inner = Step-map t name st _ _ (λ b. Fine-IsChecked r es b) in
    let apart = Step-and t name st (IsChecked r es) (λ b. Nested b (parse_all es)) in
    let whole = IsChecked-cons r e es in
    (
      λ (p, v, s). let (c, n) = apart.0 (inner.0 s) in (whole.1 (p, v, c), n),
      λ (c, n). let (p, v, k) = whole.0 c in (p, v, inner.1 (apart.1 (k, n))),
    )

nested_text :
    (r : Rules) (es : List Entry) (xhtml : Bool)
    → xhtml ≡ true
    → All IsParsed es
    → ((if any_invalid (validate_nesting (parse_all es) xhtml)
          then false
          else all_by_rules r (validate_nesting (parse_all es) xhtml))
        ≡ true)
      ↔ Fine r [] es
unfolding IsChecked
nested_text r es false x k = absurd (ground (arith, x))
nested_text r es true x k =
    let v = any_invalid-parse_all es k in
    let nest = validate_nesting_iff (parse_all es) v in
    let fine = Fine-IsChecked r es [] in
    elim (Bool-cases (any_invalid (validate_nesting (parse_all es) true))) [
      | inl i ↦
          rw i
            (λ b. absurd (ground (arith, b)), λ f. absurd (ground (arith, i, nest.1 (fine.0 f).1)))
      | inr i ↦
          let same_rules =
            sym (all_by_rules-bares r _)
            ∙ ap (all_by_rules r) (validate_nesting-bares (parse_all es) v i)
            ∙ all_by_rules-bares r (parse_all es) in
          rw (i, same_rules) (λ b. fine.1 ((k, b), nest.0 i), λ f. (fine.0 f).0.1)
    ]

-- `validate` accepts a text in XHTML exactly when its parts are valid, accepted by the rules and
-- nested.
pub validate_text_iff :
    (r : Rules) (s : Bytes)
    → r.is_xhtml ≡ true
    → (validate_text r s ≡ true) ↔ Fine r [] (split_to_parts s)
unfolding validate_text validate_parsed IsChecked
validate_text_iff r s x = elim (parse_valid_some (split_to_parts s)) [
  | inr (h, n) ↦
      subst (λ o. (validate_parsed r o ≡ true) ↔ Fine r [] (split_to_parts s)) (sym h)
        (
          λ b. absurd (ground (arith, b)),
          λ f. absurd (n ((Fine-IsChecked r (split_to_parts s) []).0 f).0.0),
        )
  | inl (h, k) ↦
      subst (λ o. (validate_parsed r o ≡ true) ↔ Fine r [] (split_to_parts s)) (sym h)
        (nested_text r (split_to_parts s) r.is_xhtml x k)
]
