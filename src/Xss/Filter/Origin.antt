-- ===== src/Xss/Filter/Origin.antt =====
-- src/xss.cpp: where the parts that the filter keeps come from.
use cppcms.Xss.Split.Forms.{IsPart, HasForm, split_to_parts-IsPart}
use cppcms.Xss.Split.Fresh.{IsFresh, split_to_parts-IsFresh}
use cppcms.Xss.Parse.{parse_as}
use cppcms.Xss.{no_tag}
use cppcms.Prelude.{
  ℕ, ◌≡◌, refl, sym, ap, ◌∙◌, ◌⊎◌, inl, inr, true, false, List, [], ◌∷◌, arith, Bool-cases, Bytes,
  length, All, subst,
}
use cppcms.Xss.{HtmlDataType, Entry, Rules, is_invalid, invalidate, entry}
use cppcms.Xss.Parse.{parse_part}
use cppcms.Xss.Parse.Parts.{parse_part-Keeps}
use cppcms.Xss.Split.{split_to_parts}
use cppcms.Xss.Nesting.{set_pair, validate_nesting}
use cppcms.Xss.Nesting.Laws.{bare}
use cppcms.Xss.Filter.{parse_all, filter_parts}
use cppcms.Xss.Filter.Marks.{All-validate_nesting, All-filter_loop}

-- A part that is invalid, or a part of the splitter that was parsed.
unfoldable pub IsFrom : Entry → Type 0
IsFrom f =
    (is_invalid f.type ≡ true)
    ⊎ ((t : HtmlDataType) × HasForm t f.text
        × (is_invalid t ≡ false)
        × (bare f ≡ bare (parse_part (entry f.text t))))

invalidate-IsFrom : (e : Entry) → IsFrom e → IsFrom (invalidate e)
unfolding IsFrom invalidate
invalidate-IsFrom e h = inl refl

set_pair-IsFrom : (j : ℕ) (e : Entry) → IsFrom e → IsFrom (set_pair j e)
unfolding IsFrom set_pair
set_pair-IsFrom j e (inl h) = inl h
set_pair-IsFrom j e (inr h) = inr h

parse_as-invalid : (t : HtmlDataType) (e : Entry) → is_invalid t ≡ true → parse_as t e ≡ e
unfolding parse_as
parse_as-invalid HtmlDataType.invalid_data e h = refl
parse_as-invalid HtmlDataType.html_entity e h = absurd (ground (arith, h))
parse_as-invalid HtmlDataType.html_tag e h = absurd (ground (arith, h))
parse_as-invalid _ e h = refl

parse_part-IsFrom : (e : Entry) → IsPart e → e.tag ≡ no_tag → IsFrom (parse_part e)
unfolding IsFrom parse_part entry
parse_part-IsFrom e h n = elim (Bool-cases (is_invalid e.type)) [
  | inl i ↦ inl (ap (λ f. is_invalid f.type) (parse_as-invalid e.type e i) ∙ i)
  | inr i ↦
      let same_text = (parse_part-Keeps e).same_text in
      let same_entry : entry (parse_part e).text e.type ≡ e =
        ap (λ t. entry t e.type) same_text
        ∙ ap (λ t. record { text = e.text; type = e.type; tag = t }) (sym n) in
      inr (
        e.type,
        subst (HasForm e.type) (sym same_text) h,
        i,
        ap (λ f. bare (parse_part f)) (sym same_entry),
      )
]

parse_all-IsFrom : (es : List Entry) → All IsPart es → All IsFresh es → All IsFrom (parse_all es).1
unfolding parse_all
parse_all-IsFrom [] h k = tt
parse_all-IsFrom (e ∷ es) (h, hs) (k, ks) = (parse_part-IsFrom e h k, parse_all-IsFrom es hs ks)

pub filter_parts-IsFrom :
    (r : Rules) (s : Bytes) → r.is_xhtml ≡ true → All IsFrom (filter_parts r s).1
unfolding filter_parts
filter_parts-IsFrom r s x =
    let parsed =
      parse_all-IsFrom (split_to_parts s) (split_to_parts-IsPart s) (split_to_parts-IsFresh s) in
    let nested =
      subst (λ b. All IsFrom (validate_nesting (parse_all (split_to_parts s)).1 b)) (sym x)
        (All-validate_nesting IsFrom invalidate-IsFrom set_pair-IsFrom
          (parse_all (split_to_parts s)).1 parsed) in
    All-filter_loop IsFrom invalidate-IsFrom set_pair-IsFrom r
      (length (validate_nesting (parse_all (split_to_parts s)).1 r.is_xhtml)) 0 _ nested
