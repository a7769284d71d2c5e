-- ===== src/Xss/Split/Laws.antt =====
-- src/xss.cpp: the parts of a text and their forms.
use cppcms.Prelude.{
  ℕ, zero, suc, ◌≤◌, ◌≡◌, refl, sym, ap, ◌∙◌, ◌≢◌, inl, inr, true, ◌&&◌, none, some, List, [], ◌∷◌,
  ◌++◌, append-nil, append_assoc, arith, ◌==◌, ==_iff, Bool-cases, Option-cases, Bytes, length,
  length-append, All,
}
use cppcms.Xss.{HtmlDataType, Entry, entry, html_entity, html_tag}
use cppcms.Xss.Split.{
  cut, delimited, scan_comment, comment_start, close_comment, tag_or_comment, plain_run, split_part,
  split_loop, split_to_parts,
}

abbrev pub texts : List Entry → Bytes
texts [] = []
texts (e ∷ es) = e.text ++ texts es

-- What `cut` finds, by recursion on the text.
abbrev pub Lacks : ℕ → Bytes → Type 0
Lacks x = All (λ c. c ≢ x)

pub cut-some :
    (stop : ℕ) (s taken rest : Bytes)
    → cut stop s ≡ some (taken, rest)
    → (body : Bytes) × Lacks stop body × (taken ≡ body ++ stop ∷ []) × (s ≡ taken ++ rest)
unfolding cut
cut-some stop [] taken rest h = absurd (ground arith)
cut-some stop (c ∷ s) taken rest h = elim (Bool-cases (c == stop)) [
  | inl z ↦ ([], tt, ground (arith, h, z), ground (arith, h, z))
  | inr z ↦ elim (Option-cases (cut stop s)) [
    | inl e ↦ absurd (ground (arith, h, e, z))
    | inr ((t, r), e) ↦
        let (body, l, p, q) = cut-some stop s t r e in
        (
          c ∷ body,
          (ground (arith, z), l),
          ground (arith, h, e, z, p),
          ground (arith, h, e, z, p, q),
        )
  ]
]

pub cut-none : (stop : ℕ) (s : Bytes) → cut stop s ≡ none → Lacks stop s
unfolding cut
cut-none stop [] h = tt
cut-none stop (c ∷ s) h = ground (arith, cut-none stop s)

scan_comment-append : (s : Bytes) → (scan_comment s).0 ++ (scan_comment s).1 ≡ s
unfolding scan_comment
scan_comment-append [] = refl
scan_comment-append (c ∷ []) = refl
scan_comment-append (c ∷ d ∷ s) = ground (arith, scan_comment-append (d ∷ s))

plain_run-append : (s : Bytes) → (plain_run s).0 ++ (plain_run s).1 ≡ s
unfolding plain_run
plain_run-append [] = refl
plain_run-append (c ∷ s) = ground (arith, plain_run-append s)

delimited-append :
    (type : HtmlDataType) (stop c : ℕ) (s : Bytes)
    → (delimited type stop c s).0.text ++ (delimited type stop c s).1 ≡ c ∷ s
unfolding delimited entry
delimited-append type stop c s = elim (Option-cases (cut stop s)) [
  | inl e ↦ rw (e, delimited) (append-nil _)
  | inr ((t, r), e) ↦
      let (body, l, p, q) = cut-some stop s t r e in rw (e, delimited) (ap (◌∷◌ c) (sym q))
]

close_comment-append :
    (content from : Bytes)
    → (close_comment content from).0.text ++ (close_comment content from).1
      ≡ comment_start ++ content ++ from
unfolding close_comment entry
close_comment-append content [] = append-nil _
close_comment-append content (c ∷ []) = append-nil _
close_comment-append content (c ∷ d ∷ []) = append-nil _
close_comment-append content (c ∷ d ∷ g ∷ rest) = elim (Bool-cases (g == b'>')) [
  | inl z ↦ rw z (simp append_assoc)
  | inr z ↦ rw z (append-nil _)
]

spelled :
    (x y z : ℕ) (s : Bytes)
    → x == b'!' && y == b'-' && z == b'-' ≡ true
    → comment_start ++ (scan_comment s).0 ++ (scan_comment s).1 ≡ b'<' ∷ x ∷ y ∷ z ∷ s
spelled x y z s h = ground (arith, scan_comment-append s)

tag_or_comment-append : (s : Bytes) → (tag_or_comment s).0.text ++ (tag_or_comment s).1 ≡ b'<' ∷ s
unfolding tag_or_comment
tag_or_comment-append [] = delimited-append html_tag b'>' b'<' []
tag_or_comment-append (x ∷ []) = delimited-append html_tag b'>' b'<' (x ∷ [])
tag_or_comment-append (x ∷ y ∷ []) = delimited-append html_tag b'>' b'<' (x ∷ y ∷ [])
tag_or_comment-append (x ∷ y ∷ z ∷ []) = delimited-append html_tag b'>' b'<' (x ∷ y ∷ z ∷ [])
tag_or_comment-append (x ∷ y ∷ z ∷ w ∷ s) =
    elim (Bool-cases (x == b'!' && y == b'-' && z == b'-')) [
      | inl e ↦ rw e (
          close_comment-append (scan_comment (w ∷ s)).0 (scan_comment (w ∷ s)).1
          ∙ spelled x y z (w ∷ s) e)
      | inr e ↦ rw e (delimited-append html_tag b'>' b'<' (x ∷ y ∷ z ∷ w ∷ s))
    ]

split_part-append : (c : ℕ) (s : Bytes) → (split_part c s).0.text ++ (split_part c s).1 ≡ c ∷ s
unfolding split_part entry
split_part-append c s = ground (
  arith,
  ==_iff c b'<',
  delimited-append html_entity b';' c s,
  tag_or_comment-append s,
  plain_run-append s,
)

delimited-longer :
    (type : HtmlDataType) (stop c : ℕ) (s : Bytes) → 1 ≤ length (delimited type stop c s).0.text
unfolding delimited entry
delimited-longer type stop c s = elim (Option-cases (cut stop s)) [
  | inl e ↦ rw (e, delimited) (omega arith)
  | inr ((t, r), e) ↦ rw (e, delimited) (omega arith)
]

close_comment-longer : (content from : Bytes) → 1 ≤ length (close_comment content from).0.text
unfolding close_comment entry
close_comment-longer content [] = omega arith
close_comment-longer content (c ∷ []) = omega arith
close_comment-longer content (c ∷ d ∷ []) = omega arith
close_comment-longer content (c ∷ d ∷ g ∷ rest) = ground arith

tag_or_comment-longer : (s : Bytes) → 1 ≤ length (tag_or_comment s).0.text
unfolding tag_or_comment
tag_or_comment-longer [] = delimited-longer html_tag b'>' b'<' []
tag_or_comment-longer (x ∷ []) = delimited-longer html_tag b'>' b'<' (x ∷ [])
tag_or_comment-longer (x ∷ y ∷ []) = delimited-longer html_tag b'>' b'<' (x ∷ y ∷ [])
tag_or_comment-longer (x ∷ y ∷ z ∷ []) = delimited-longer html_tag b'>' b'<' (x ∷ y ∷ z ∷ [])
tag_or_comment-longer (x ∷ y ∷ z ∷ w ∷ s) = ground (
  arith,
  close_comment-longer (scan_comment (w ∷ s)).0 (scan_comment (w ∷ s)).1,
  delimited-longer html_tag b'>' b'<' (x ∷ y ∷ z ∷ w ∷ s),
)

pub split_part-longer : (c : ℕ) (s : Bytes) → 1 ≤ length (split_part c s).0.text
unfolding split_part entry
split_part-longer c s =
    ground (arith, delimited-longer html_entity b';' c s, tag_or_comment-longer s)

pub split_part-shorter : (c : ℕ) (s : Bytes) → length (split_part c s).1 ≤ length s
split_part-shorter c s = omega (
  arith,
  split_part-longer c s,
  length-append (split_part c s).0.text (split_part c s).1,
  ap length (split_part-append c s),
)

split_loop-texts : (fuel : ℕ) (s : Bytes) → length s ≤ fuel → texts (split_loop fuel s) ≡ s
unfolding split_loop
split_loop-texts fuel [] h = refl
split_loop-texts zero (c ∷ s) h = absurd (omega arith)
split_loop-texts (suc fuel) (c ∷ s) h =
    ap (λ t. (split_part c s).0.text ++ t)
      (split_loop-texts fuel (split_part c s).1 (omega (arith, split_part-shorter c s)))
    ∙ split_part-append c s

-- The parts of a text, one after the other, are the text.
pub split_to_parts-texts : (s : Bytes) → texts (split_to_parts s) ≡ s
unfolding split_to_parts
split_to_parts-texts s = split_loop-texts (length s) s (omega arith)
