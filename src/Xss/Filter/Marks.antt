-- ===== src/Xss/Filter/Marks.antt =====
-- What the passes of the filter keep of each part, in XHTML, and what the loop over the rules
-- makes sure of.
use cppcms.Prelude.{
  ℕ, zero, suc, ◌+◌, inl, inr, true, Option, none, some, List, [], ◌∷◌, Bool-cases, Option-cases,
  length, All, get_elem?,
}
use cppcms.Xss.{HtmlDataType, Entry, Rules, invalidate, ascii_streq}
use cppcms.Xss.Nesting.{
  modify, name_at, type_at, set_pair, join, close_xhtml, nest_as, nest_loop, close_rest,
  validate_nesting,
}
use cppcms.Xss.Validate.{validate_entry_by_rules}
use cppcms.Xss.Filter.{invalidate_pair, filter_part, filter_loop}

module _ (P : Entry → Type 0) (invalid : (e : Entry) → P e → P (invalidate e))
    (paired : (j : ℕ) (e : Entry) → P e → P (set_pair j e)) where
  All-modify :
      (g : Entry → Entry)
      → ((e : Entry) → P e → P (g e))
      → (i : ℕ) (es : List Entry) → All P es
      → All P (modify i g es)
  unfolding modify
  All-modify g k i [] h = tt
  All-modify g k zero (e ∷ es) (p, h) = (k e p, h)
  All-modify g k (suc i) (e ∷ es) (p, h) = (p, All-modify g k i es h)

  All-invalidate : (i : ℕ) (es : List Entry) → All P es → All P (modify i invalidate es)
  All-invalidate = All-modify invalidate invalid

  All-join : (i j : ℕ) (es : List Entry) → All P es → All P (join i j es)
  unfolding join
  All-join i j es h =
      All-modify (set_pair i) (paired i) j _ (All-modify (set_pair j) (paired j) i es h)

  All-close_xhtml :
      (i : ℕ) (st : List ℕ) (es : List Entry) → All P es → All P (close_xhtml i st es).1
  unfolding close_xhtml
  All-close_xhtml i [] es h = All-invalidate i es h
  All-close_xhtml i (j ∷ st) es h =
      elim (Bool-cases (ascii_streq (name_at j es) (name_at i es) true)) [
        | inl e ↦ rw e (All-join i j es h)
        | inr e ↦ rw e (All-invalidate j _ (All-invalidate i es h))
      ]

  All-nest_as :
      (t : HtmlDataType) (i : ℕ) (st : List ℕ) (es : List Entry)
      → All P es
      → All P (nest_as t true i st es).1
  unfolding nest_as
  All-nest_as HtmlDataType.close_tag i st es h = All-close_xhtml i st es h
  All-nest_as HtmlDataType.open_tag i st es h = h
  All-nest_as _ i st es h = h

  All-nest_loop :
      (left i : ℕ) (st : List ℕ) (es : List Entry)
      → All P es
      → All P (nest_loop left true i st es).1
  unfolding nest_loop
  All-nest_loop zero i st es h = h
  All-nest_loop (suc left) i st es h =
      All-nest_loop left (i + 1) _ _ (All-nest_as (type_at i es) i st es h)

  All-close_rest : (st : List ℕ) (es : List Entry) → All P es → All P (close_rest true st es)
  unfolding close_rest
  All-close_rest [] es h = h
  All-close_rest (j ∷ st) es h = All-close_rest st _ (All-invalidate j es h)

  pub All-validate_nesting : (es : List Entry) → All P es → All P (validate_nesting es true)
  unfolding validate_nesting
  All-validate_nesting es h =
      All-close_rest (nest_loop (length es) true 0 [] es).0 _ (All-nest_loop (length es) 0 [] es h)

  pub All-invalidate_pair :
      (o : Option ℕ) (es : List Entry) → All P es → All P (invalidate_pair o es)
  unfolding invalidate_pair
  All-invalidate_pair none es h = h
  All-invalidate_pair (some j) es h = All-invalidate j es h

  All-filter_part : (r : Rules) (i : ℕ) (es : List Entry) → All P es → All P (filter_part r i es).1
  unfolding filter_part
  All-filter_part r i es h = elim (Option-cases (get_elem? es i)) [
    | inl e ↦ rw (e, filter_part) h
    | inr (p, e) ↦ elim (Bool-cases (validate_entry_by_rules r p)) [
      | inl v ↦ rw (e, v, filter_part) h
      | inr v ↦ rw (e, v, filter_part) (All-invalidate i _ (All-invalidate_pair p.tag.pair es h))
    ]
  ]

  pub All-filter_loop :
      (r : Rules) (left i : ℕ) (es : List Entry) → All P es → All P (filter_loop r left i es).1
  unfolding filter_loop
  All-filter_loop r zero i es h = h
  All-filter_loop r (suc left) i es h = All-filter_loop r left (i + 1) _ (All-filter_part r i es h)
