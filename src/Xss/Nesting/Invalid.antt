-- ===== src/Xss/Nesting/Invalid.antt =====
-- src/xss.cpp: invalid parts through the nesting.
use cppcms.Prelude.{ℕ, zero, suc, ◌+◌, ◌≡◌, ◌∙◌, inl, inr, true, List, [], ◌∷◌, Bool-cases}
use cppcms.Xss.{HtmlDataType, Entry, invalidate, ascii_streq}
use cppcms.Xss.Nesting.{modify, name_at, type_at, close_xhtml, nest_as, nest_loop, close_rest}
use cppcms.Xss.Validate.{any_invalid}
use cppcms.Xss.Nesting.Laws.{any_invalid-invalidate, any_invalid-join}

any_invalid-close_xhtml :
    (i : ℕ) (st : List ℕ) (es : List Entry)
    → any_invalid es ≡ true
    → any_invalid (close_xhtml i st es).1 ≡ true
unfolding close_xhtml
any_invalid-close_xhtml i [] es h = any_invalid-invalidate i es h
any_invalid-close_xhtml i (j ∷ st) es h =
    elim (Bool-cases (ascii_streq (name_at j es) (name_at i es) true)) [
      | inl e ↦ rw e (any_invalid-join i j es ∙ h)
      | inr e ↦ rw e (any_invalid-invalidate j _ (any_invalid-invalidate i es h))
    ]

any_invalid-nest_as :
    (t : HtmlDataType) (i : ℕ) (st : List ℕ) (es : List Entry)
    → any_invalid es ≡ true
    → any_invalid (nest_as t true i st es).1 ≡ true
unfolding nest_as
any_invalid-nest_as HtmlDataType.close_tag i st es h = any_invalid-close_xhtml i st es h
any_invalid-nest_as HtmlDataType.open_tag i st es h = h
any_invalid-nest_as _ i st es h = h

pub any_invalid-close_rest :
    (st : List ℕ) (es : List Entry)
    → any_invalid es ≡ true
    → any_invalid (close_rest true st es) ≡ true
unfolding close_rest
any_invalid-close_rest [] es h = h
any_invalid-close_rest (j ∷ st) es h =
    any_invalid-close_rest st (modify j invalidate es) (any_invalid-invalidate j es h)

-- Both parts of the routine, from any place in the loop on.
unfoldable pub finish : ℕ → ℕ → List ℕ → List Entry → List Entry
finish left i st es = let nested = nest_loop left true i st es in close_rest true nested.0 nested.1

pub any_invalid-finish :
    (left i : ℕ) (st : List ℕ) (es : List Entry)
    → any_invalid es ≡ true
    → any_invalid (finish left i st es) ≡ true
unfolding finish nest_loop
any_invalid-finish zero i st es h = any_invalid-close_rest st es h
any_invalid-finish (suc left) i st es h =
    any_invalid-finish left (i + 1) (nest_as (type_at i es) true i st es).0 _
      (any_invalid-nest_as (type_at i es) i st es h)
