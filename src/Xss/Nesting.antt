-- ===== src/Xss/Nesting.antt =====
-- src/xss.cpp: validate_nesting. The vector of parts is a list that is updated by index, and the
-- stack of indices a list; an index is below 2^32.
pub mod Laws
pub mod Invalid
pub mod Xhtml
use cppcms.Prelude.{
  ℕ, zero, suc, ◌+◌, Bool, true, false, none, some, List, [], ◌∷◌, if◌then◌else◌, Bytes, length,
  get_elem?,
}
use cppcms.Xss.{
  HtmlDataType, Entry, invalidate, ascii_streq, invalid_data, open_tag, close_tag,
  open_and_close_tag_without_slash,
}

-- `parsed[i]` is replaced by its image.
unfoldable pub modify {ℓ} : {A : Type ℓ} → ℕ → (A → A) → List A → List A
modify i f [] = []
modify zero f (x ∷ xs) = f x ∷ xs
modify (suc i) f (x ∷ xs) = x ∷ modify i f xs

-- `parsed[i].tag` as a name; each index that is asked for is in range.
unfoldable pub name_at : ℕ → List Entry → Bytes
name_at i parsed = elim (get_elem? parsed i) [ none ↦ [] | some part ↦ part.tag.name ]

unfoldable pub type_at : ℕ → List Entry → HtmlDataType
type_at i parsed = elim (get_elem? parsed i) [ none ↦ invalid_data | some part ↦ part.type ]

unfoldable pub set_pair : ℕ → Entry → Entry
set_pair i part = record part { tag = record part.tag { pair = some i } }

unfoldable pub without_slash : Entry → Entry
without_slash part = record part { type = open_and_close_tag_without_slash }

-- `cur.tag.pair = top_index; parsed[top_index].tag.pair = i`
unfoldable pub join : ℕ → ℕ → List Entry → List Entry
unfolding modify set_pair
join i top_index parsed = modify top_index (set_pair i) (modify i (set_pair top_index) parsed)

-- A closing tag in XHTML, with the stack before it.
unfoldable pub close_xhtml : ℕ → List ℕ → List Entry → List ℕ × List Entry
unfolding modify invalidate name_at join
close_xhtml i [] parsed = ([], modify i invalidate parsed)
close_xhtml i (top_index ∷ st) parsed =
    if ascii_streq (name_at top_index parsed) (name_at i parsed) true
    then (st, join i top_index parsed)
    else (st, modify top_index invalidate (modify i invalidate parsed))

-- A closing tag in HTML: the open tags above its own are tags without an end.
unfoldable pub close_html : ℕ → List ℕ → List Entry → List ℕ × List Entry
unfolding modify invalidate name_at join without_slash
close_html i [] parsed = ([], modify i invalidate parsed)
close_html i (top_index ∷ st) parsed =
    let more = close_html i st (modify top_index without_slash parsed) in
    if ascii_streq (name_at top_index parsed) (name_at i parsed) false
    then (st, join i top_index parsed)
    else more

-- The switch on `cur.type`.
unfoldable pub nest_as : HtmlDataType → Bool → ℕ → List ℕ → List Entry → List ℕ × List Entry
unfolding close_xhtml close_html
nest_as HtmlDataType.close_tag xhtml i st parsed =
    if xhtml then close_xhtml i st parsed else close_html i st parsed
nest_as HtmlDataType.open_tag xhtml i st parsed = (i ∷ st, parsed)
nest_as _ xhtml i st parsed = (st, parsed)

-- The loop over the parts from `i` on, `left` of them.
unfoldable pub nest_loop : ℕ → Bool → ℕ → List ℕ → List Entry → List ℕ × List Entry
unfolding nest_as type_at
nest_loop zero xhtml i st parsed = (st, parsed)
nest_loop (suc left) xhtml i st parsed =
    let next = nest_as (type_at i parsed) xhtml i st parsed in
    nest_loop left xhtml (i + 1) next.0 next.1

-- The open tags that are left on the stack.
unfoldable pub close_rest : Bool → List ℕ → List Entry → List Entry
unfolding modify invalidate without_slash
close_rest xhtml [] parsed = parsed
close_rest xhtml (top_index ∷ st) parsed =
    close_rest xhtml st (modify top_index (if xhtml then invalidate else without_slash) parsed)

unfoldable pub validate_nesting : List Entry → Bool → List Entry
unfolding nest_loop close_rest
validate_nesting parsed xhtml =
    let nested = nest_loop (length parsed) xhtml 0 [] parsed in close_rest xhtml nested.0 nested.1
