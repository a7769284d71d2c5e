-- ===== src/Xss/Split.antt =====
-- src/xss.cpp: split_to_parts.
pub mod Laws
pub mod Forms
pub mod Fresh
pub mod Again
use cppcms.Prelude.{
  ℕ, zero, suc, Bool, false, ◌&&◌, ◌||◌, Option, none, some, List, [], ◌∷◌, ◌++◌, ◌==◌,
  if◌then◌else◌, Bytes, codes, length,
}
use cppcms.Xss.{
  HtmlDataType, Entry, entry, invalid_data, plain_text, html_entity, html_tag, html_comment,
}

-- The text up to the first `stop`, it included, and what follows; none at the end of the text.
unfoldable pub cut : ℕ → Bytes → Option (Bytes × Bytes)
cut stop [] = none
cut stop (c ∷ s) =
    let more : Option (Bytes × Bytes) = elim (cut stop s) [
      | none ↦ none
      | some (taken, rest) ↦ some (c ∷ taken, rest)
    ] in
    if c == stop then some (c ∷ [], s) else more

-- A part from `c` to the first `stop`, or an invalid one with all that is left.
unfoldable pub delimited : HtmlDataType → ℕ → ℕ → Bytes → Entry × Bytes
unfolding entry cut
delimited type stop c s = elim (cut stop s) [
  | none ↦ (entry (c ∷ s) invalid_data, [])
  | some (taken, rest) ↦ (entry (c ∷ taken) type, rest)
]

abbrev pub is_markup : ℕ → Bool
is_markup c = c == b'<' || c == b'>' || c == b'&'

-- The scan for the end of a comment: the text in front of the first `--`, and the text from it
-- on, which is the last character alone when there is none.
unfoldable pub scan_comment : Bytes → Bytes × Bytes
scan_comment [] = ([], [])
scan_comment (c ∷ []) = ([], c ∷ [])
scan_comment (c ∷ d ∷ s) =
    let rest = scan_comment (d ∷ s) in
    if c == b'-' && d == b'-' then ([], c ∷ d ∷ s) else (c ∷ rest.0, rest.1)

unfoldable pub has_markup : Bytes → Bool
has_markup [] = false
has_markup (c ∷ s) = is_markup c || has_markup s

abbrev pub comment_start : Bytes
comment_start = codes "<!--"

-- A comment is closed where `-->` stands at the scan's end.
unfoldable pub close_comment : Bytes → Bytes → Entry × Bytes
unfolding entry has_markup
close_comment content (c ∷ d ∷ g ∷ rest) =
    if g == b'>'
    then (
      entry (comment_start ++ content ++ c ∷ d ∷ g ∷ [])
          (if has_markup content then invalid_data else html_comment),
      rest,
    )
    else (entry (comment_start ++ content ++ c ∷ d ∷ g ∷ rest) invalid_data, [])
close_comment content from = (entry (comment_start ++ content ++ from) invalid_data, [])

-- The part that begins with `<`; a comment has one more character behind `<!--` at least.
unfoldable pub tag_or_comment : Bytes → Entry × Bytes
unfolding delimited scan_comment close_comment
tag_or_comment (x ∷ y ∷ z ∷ w ∷ s) =
    if x == b'!' && y == b'-' && z == b'-'
    then close_comment (scan_comment (w ∷ s)).0 (scan_comment (w ∷ s)).1
    else delimited html_tag b'>' b'<' (x ∷ y ∷ z ∷ w ∷ s)
tag_or_comment s = delimited html_tag b'>' b'<' s

-- A run of plain text, and what follows.
unfoldable pub plain_run : Bytes → Bytes × Bytes
plain_run [] = ([], [])
plain_run (c ∷ s) =
    let rest = plain_run s in if is_markup c then ([], c ∷ s) else (c ∷ rest.0, rest.1)

-- The switch on the character at `p`.
unfoldable pub split_part : ℕ → Bytes → Entry × Bytes
unfolding delimited tag_or_comment entry plain_run
split_part c s =
    if c == b'&'
    then delimited html_entity b';' c s
    else if c == b'<'
    then tag_or_comment s
    else if c == b'>'
    then (entry (c ∷ []) invalid_data, s)
    else (entry (c ∷ (plain_run s).0) plain_text, (plain_run s).1)

-- Each round takes a character at least, so the length of the text is fuel enough.
unfoldable pub split_loop : ℕ → Bytes → List Entry
unfolding split_part
split_loop fuel [] = []
split_loop zero (c ∷ s) = []
split_loop (suc fuel) (c ∷ s) = (split_part c s).0 ∷ split_loop fuel (split_part c s).1

unfoldable pub split_to_parts : Bytes → List Entry
unfolding split_loop
split_to_parts s = split_loop (length s) s
