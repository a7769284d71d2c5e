-- ===== src/Xss/Filter/Laws.antt =====
-- src/xss.cpp: the verdict of the filter, behind the encoding.
use cppcms.Prelude.{
  ℕ, ◌+◌, ◌≡◌, refl, sym, ap, ◌∙◌, inl, inr, Bool, true, false, not, ◌&&◌, Option, none, some, List,
  [], ◌∷◌, ◌++◌, append_assoc, arith, if◌then◌else◌, Bool-cases, Bytes, length, length-append,
  get_elem?, subst,
}
use cppcms.Xss.{Entry, Rules}
use cppcms.Xss.Split.{split_to_parts}
use cppcms.Xss.Nesting.{validate_nesting}
use cppcms.Xss.Validate.{
  validate_entry_by_rules, parse_valid, any_invalid, all_by_rules, validate_parsed, validate_text,
}
use cppcms.Xss.Filter.{
  FilteringMethod, parse_all, filter_part, filter_loop, filter_parts, filter_text,
}

abbrev when : Bool → List Entry → Option (List Entry)
when b es = if b then some es else none

parse_valid-parse_all : (es : List Entry) → parse_valid es ≡ when (parse_all es).0 (parse_all es).1
unfolding parse_valid parse_all
parse_valid-parse_all [] = refl
parse_valid-parse_all (e ∷ es) = ground (arith, parse_valid-parse_all es)

get_elem-append :
    (pre suf : List Entry) (e : Entry) → get_elem? (pre ++ e ∷ suf) (length pre) ≡ some e
get_elem-append [] suf e = refl
get_elem-append (x ∷ pre) suf e = get_elem-append pre suf e

-- One round, at a part that is there.
filter_part-some :
    (r : Rules) (i : ℕ) (es : List Entry) (e : Entry)
    → get_elem? es i ≡ some e
    → ((filter_part r i es).0 ≡ validate_entry_by_rules r e)
      × (validate_entry_by_rules r e ≡ true → (filter_part r i es).1 ≡ es)
unfolding filter_part
filter_part-some r i es e h = elim (Bool-cases (validate_entry_by_rules r e)) [
  | inl v ↦ rw (h, v, filter_part) (refl, λ _. refl)
  | inr v ↦ rw (h, v, filter_part) (refl, λ a. absurd (ground (arith, a)))
]

filter_loop-all_by_rules :
    (r : Rules) (pre suf : List Entry) (i : ℕ)
    → i ≡ length pre
    → (filter_loop r (length suf) i (pre ++ suf)).0 ≡ all_by_rules r suf
unfolding filter_loop all_by_rules
filter_loop-all_by_rules r pre [] i k = refl
filter_loop-all_by_rules r pre (e ∷ suf) i k =
    let (v, same_parts) =
      filter_part-some r i (pre ++ e ∷ suf) e (rw k (get_elem-append pre suf e)) in
    elim (Bool-cases (validate_entry_by_rules r e)) [
      | inr n ↦ rw (v, n) refl
      | inl y ↦
          let rest =
            filter_loop-all_by_rules r (pre ++ e ∷ []) suf (i + 1)
              (omega (arith, length-append pre (e ∷ []))) in
          rw (v, y, same_parts y)
            (subst (λ es. (filter_loop r (length suf) (i + 1) es).0 ≡ all_by_rules r suf)
              (append_assoc pre (e ∷ []) suf) rest)
    ]

judge :
    (r : Rules) (b : Bool) (ps : List Entry)
    → (b
        && not (any_invalid (validate_nesting ps r.is_xhtml))
        && (filter_loop r
            (length (validate_nesting ps r.is_xhtml))
            0
            (validate_nesting ps r.is_xhtml)).0)
      ≡ validate_parsed r (when b ps)
unfolding validate_parsed
judge r false ps = refl
judge r true ps =
    ground (arith, filter_loop-all_by_rules r [] (validate_nesting ps r.is_xhtml) 0 refl)

-- The filter says that a text is valid when `validate` does, in XHTML and in HTML.
pub filter_text-validate_text :
    (r : Rules) (method : FilteringMethod) (s : Bytes)
    → (filter_text r method s).0 ≡ validate_text r s
unfolding filter_text filter_parts validate_text
filter_text-validate_text r method s =
    judge r (parse_all (split_to_parts s)).0 (parse_all (split_to_parts s)).1
    ∙ ap (validate_parsed r) (sym (parse_valid-parse_all (split_to_parts s)))
