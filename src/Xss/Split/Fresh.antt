-- ===== src/Xss/Split/Fresh.antt =====
-- src/xss.cpp: the tags of the splitter's parts.
use cppcms.Xss.{no_tag}
use cppcms.Prelude.{
  ℕ, zero, suc, ◌≡◌, refl, inl, inr, ◌&&◌, [], ◌∷◌, ◌==◌, Bool-cases, Option-cases, Bytes, length,
  All,
}
use cppcms.Xss.{HtmlDataType, Entry, entry, html_entity, html_tag}
use cppcms.Xss.Split.{
  cut, delimited, scan_comment, close_comment, tag_or_comment, split_part, split_loop,
  split_to_parts,
}

-- No parser has seen the parts.
abbrev pub IsFresh : Entry → Type 0
IsFresh e = e.tag ≡ no_tag

delimited-IsFresh :
    (type : HtmlDataType) (stop c : ℕ) (s : Bytes) → IsFresh (delimited type stop c s).0
unfolding delimited entry
delimited-IsFresh type stop c s = elim (Option-cases (cut stop s)) [
  | inl e ↦ rw (e, delimited) refl
  | inr (t, e) ↦ rw (e, delimited) refl
]

close_comment-IsFresh : (content from : Bytes) → IsFresh (close_comment content from).0
unfolding close_comment entry
close_comment-IsFresh content [] = refl
close_comment-IsFresh content (c ∷ []) = refl
close_comment-IsFresh content (c ∷ d ∷ []) = refl
close_comment-IsFresh content (c ∷ d ∷ g ∷ rest) = elim (Bool-cases (g == b'>')) [
  | inl z ↦ rw z refl
  | inr z ↦ rw z refl
]

tag_or_comment-IsFresh : (s : Bytes) → IsFresh (tag_or_comment s).0
unfolding tag_or_comment
tag_or_comment-IsFresh [] = delimited-IsFresh html_tag b'>' b'<' []
tag_or_comment-IsFresh (x ∷ []) = delimited-IsFresh html_tag b'>' b'<' (x ∷ [])
tag_or_comment-IsFresh (x ∷ y ∷ []) = delimited-IsFresh html_tag b'>' b'<' (x ∷ y ∷ [])
tag_or_comment-IsFresh (x ∷ y ∷ z ∷ []) = delimited-IsFresh html_tag b'>' b'<' (x ∷ y ∷ z ∷ [])
tag_or_comment-IsFresh (x ∷ y ∷ z ∷ w ∷ s) =
    elim (Bool-cases (x == b'!' && y == b'-' && z == b'-')) [
      | inl e ↦ rw e (close_comment-IsFresh (scan_comment (w ∷ s)).0 (scan_comment (w ∷ s)).1)
      | inr e ↦ rw e (delimited-IsFresh html_tag b'>' b'<' (x ∷ y ∷ z ∷ w ∷ s))
    ]

split_part-IsFresh : (c : ℕ) (s : Bytes) → IsFresh (split_part c s).0
unfolding split_part entry
split_part-IsFresh c s = elim (Bool-cases (c == b'&')) [
  | inl a ↦ rw a (delimited-IsFresh html_entity b';' c s)
  | inr a ↦ elim (Bool-cases (c == b'<')) [
    | inl b ↦ rw (a, b) (tag_or_comment-IsFresh s)
    | inr b ↦ elim (Bool-cases (c == b'>')) [
      | inl g ↦ rw (a, b, g) refl
      | inr g ↦ rw (a, b, g) refl
    ]
  ]
]

split_loop-IsFresh : (fuel : ℕ) (s : Bytes) → All IsFresh (split_loop fuel s)
unfolding split_loop
split_loop-IsFresh fuel [] = tt
split_loop-IsFresh zero (c ∷ s) = tt
split_loop-IsFresh (suc fuel) (c ∷ s) =
    (split_part-IsFresh c s, split_loop-IsFresh fuel (split_part c s).1)

pub split_to_parts-IsFresh : (s : Bytes) → All IsFresh (split_to_parts s)
unfolding split_to_parts
split_to_parts-IsFresh s = split_loop-IsFresh (length s) s
