-- ===== src/Xss/Filter/Output.antt =====
-- src/xss.cpp: what the filter writes.
use cppcms.Prelude.{
  ◌≡◌, sym, ap, ◌∙◌, inl, inr, true, false, List, [], ◌∷◌, ◌++◌, arith, Bytes, All,
}
use cppcms.Xss.{HtmlDataType, Entry, Rules, is_invalid, entry}
use cppcms.Xss.Parse.{parse_part}
use cppcms.Xss.Split.{split_to_parts}
use cppcms.Xss.Nesting.Laws.{bare}
use cppcms.Xss.Validate.{validate_entry_by_rules}
use cppcms.Xss.Validate.Laws.{valid_as-bare}
use cppcms.Xss.Filter.{
  FilteringMethod, print_invalid, print_part, print_parts, filter_parts, filter_text,
}
use cppcms.Xss.Filter.Done.{IsDone, filter_parts-IsDone}
use cppcms.Xss.Filter.Origin.{IsFrom, filter_parts-IsFrom}
use cppcms.Xss.Filter.Clean.{
  IsAccepted, HasEntities, Clean, if_cases, part-Clean, escape_text-Clean,
}

module _ (r : Rules) where
  kept-IsAccepted :
      (f : Entry) (t : HtmlDataType)
      → is_invalid t ≡ false
      → is_invalid f.type ≡ false
      → bare f ≡ bare (parse_part (entry f.text t))
      → validate_entry_by_rules r f ≡ true
      → IsAccepted r (entry f.text t)
  unfolding validate_entry_by_rules entry
  kept-IsAccepted f t i v q h = record {
    split_valid = i;
    parse_valid = ap (λ e. is_invalid e.type) (sym q) ∙ v;
    by_rules =
        sym (valid_as-bare r (parse_part (entry f.text t)).type (parse_part (entry f.text t)))
        ∙ ap (λ e. validate_entry_by_rules r e) (sym q)
        ∙ valid_as-bare r f.type f
        ∙ h;
  }

  print_invalid-Clean :
      HasEntities r
      → (method : FilteringMethod) (text s : Bytes) → Clean r s
      → Clean r (print_invalid method text ++ s)
  unfolding print_invalid
  print_invalid-Clean n FilteringMethod.remove_invalid text s k = k
  print_invalid-Clean n FilteringMethod.escape_invalid text s k = escape_text-Clean r n text s k

  kept-Clean :
      (f : Entry) (s : Bytes)
      → IsFrom f
      → IsDone r f
      → is_invalid f.type ≡ false
      → Clean r s
      → Clean r (f.text ++ s)
  unfolding IsFrom IsDone
  kept-Clean f s (inl i) done v k = absurd (ground (arith, i, v))
  kept-Clean f s (inr _) (inl i) v k = absurd (ground (arith, i, v))
  kept-Clean f s (inr (t, h, i, q)) (inr rules) v k =
      part-Clean r t f.text s h (kept-IsAccepted f t i v q rules) k

  print_part-Clean :
      HasEntities r
      → (method : FilteringMethod) (f : Entry) (s : Bytes) → IsFrom f
      → IsDone r f
      → Clean r s
      → Clean r (print_part method f ++ s)
  unfolding print_part
  print_part-Clean n method f s from done k =
      if_cases (λ t. Clean r (t ++ s)) (is_invalid f.type)
        (λ _. print_invalid-Clean n method f.text s k) (λ v. kept-Clean f s from done v k)

  print_parts-Clean :
      HasEntities r
      → (method : FilteringMethod) (fs : List Entry) → All IsFrom fs
      → All (IsDone r) fs
      → Clean r (print_parts method fs)
  unfolding print_parts Clean split_to_parts
  print_parts-Clean n method [] h k = tt
  print_parts-Clean n method (f ∷ fs) (h, hs) (k, ks) =
      print_part-Clean n method f _ h k (print_parts-Clean n method fs hs ks)

-- In XHTML, when the rules accept the four entities that the filter writes, each part of what it
-- writes is valid and accepted by the rules, with both methods and for any text: the nesting is
-- all that is left to check.
pub filter_text-IsAccepted :
    (r : Rules) (method : FilteringMethod) (s : Bytes)
    → r.is_xhtml ≡ true
    → HasEntities r
    → All (IsAccepted r) (split_to_parts (filter_text r method s).1)
unfolding filter_text Clean
filter_text-IsAccepted r method s x n =
    print_parts-Clean r n method (filter_parts r s).1 (filter_parts-IsFrom r s x)
      (filter_parts-IsDone r s)
