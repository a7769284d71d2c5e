-- ===== src/Xss/Split/Forms.antt =====
-- The form of each part that the splitter makes.
use cppcms.Prelude.{
  ℕ, zero, suc, ◌≤◌, ◌≡◌, refl, sym, ap, ◌∙◌, ◌≢◌, inl, inr, Bool, true, false, ◌&&◌, [], ◌∷◌, ◌++◌,
  append_assoc, arith, ◌==◌, ==_iff, Bool-cases, Option-cases, Bytes, codes, length, length-append,
  All,
}
use cppcms.Xss.{HtmlDataType, Entry, entry, html_entity, html_tag}
use cppcms.Xss.Split.{
  cut, delimited, is_markup, scan_comment, has_markup, comment_start, close_comment, tag_or_comment,
  plain_run, split_part, split_loop, split_to_parts,
}
use cppcms.Xss.Split.Laws.{Lacks, cut-some}

abbrev pub IsPlain : Bytes → Type 0
IsPlain = All (λ c. is_markup c ≡ false)

-- A body of a comment has no `--`, also with a `-` behind it.
abbrev pub NoDashes : Bytes → Type 0
NoDashes [] = Unit
NoDashes (c ∷ []) = c ≢ b'-'
NoDashes (c ∷ d ∷ s) = ((c == b'-' && d == b'-') ≡ false) × NoDashes (d ∷ s)

-- The body of a tag does not begin a comment.
abbrev pub starts_comment : Bytes → Bool
starts_comment (x ∷ y ∷ z ∷ s) = x == b'!' && y == b'-' && z == b'-'
starts_comment s = false

-- The parser makes the other types, never the splitter.
abbrev pub HasForm : HtmlDataType → Bytes → Type 0
HasForm HtmlDataType.invalid_data s = Unit
HasForm HtmlDataType.plain_text s = IsPlain s
HasForm HtmlDataType.html_entity s =
    (body : Bytes) × Lacks b';' body × (s ≡ b'&' ∷ body ++ b';' ∷ [])
HasForm HtmlDataType.html_tag s =
    (body : Bytes) × Lacks b'>' body
    × (starts_comment body ≡ false)
    × (s ≡ b'<' ∷ body ++ b'>' ∷ [])
HasForm HtmlDataType.html_comment s =
    (body : Bytes) × IsPlain body × NoDashes body × (s ≡ comment_start ++ body ++ codes "-->")
HasForm _ s = ⊥

abbrev pub IsPart : Entry → Type 0
IsPart e = HasForm e.type e.text

delimited-entity-IsPart : (s : Bytes) → IsPart (delimited html_entity b';' b'&' s).0
unfolding delimited entry
delimited-entity-IsPart s = elim (Option-cases (cut b';' s)) [
  | inl e ↦ rw (e, delimited) tt
  | inr ((t, r), e) ↦
      let (body, l, p, q) = cut-some b';' s t r e in rw (e, delimited) (body, l, ap (◌∷◌ b'&') p)
]

-- No tag in the text has a body that begins a comment.
NoComment : Bytes → Type 0
NoComment s = (body rest : Bytes) → s ≡ body ++ b'>' ∷ rest → starts_comment body ≡ false

starts_comment-long : (s : Bytes) → starts_comment s ≡ true → 3 ≤ length s
starts_comment-long [] h = absurd (ground (arith, h))
starts_comment-long (x ∷ []) h = absurd (ground (arith, h))
starts_comment-long (x ∷ y ∷ []) h = absurd (ground (arith, h))
starts_comment-long (x ∷ y ∷ z ∷ s) h = omega arith

NoComment-short : (s : Bytes) → length s ≤ 3 → NoComment s
unfolding NoComment
NoComment-short s h body rest e = elim (Bool-cases (starts_comment body)) [
  | inr n ↦ n
  | inl y ↦
      absurd
        (omega (arith, starts_comment-long body y, ap length e, length-append body (b'>' ∷ rest)))
]

starts_comment-prefix :
    (body t : Bytes) → starts_comment (body ++ t) ≡ false → starts_comment body ≡ false
starts_comment-prefix [] t h = refl
starts_comment-prefix (x ∷ []) t h = refl
starts_comment-prefix (x ∷ y ∷ []) t h = refl
starts_comment-prefix (x ∷ y ∷ z ∷ s) t h = h

NoComment-false : (s : Bytes) → starts_comment s ≡ false → NoComment s
unfolding NoComment
NoComment-false s h body rest e =
    starts_comment-prefix body (b'>' ∷ rest) (ap starts_comment (sym e) ∙ h)

delimited-tag-IsPart : (s : Bytes) → NoComment s → IsPart (delimited html_tag b'>' b'<' s).0
unfolding delimited entry NoComment
delimited-tag-IsPart s n = elim (Option-cases (cut b'>' s)) [
  | inl e ↦ rw (e, delimited) tt
  | inr ((t, r), e) ↦
      let (body, l, p, q) = cut-some b'>' s t r e in
      rw (e, delimited)
        (
          body,
          l,
          n body r (q ∙ ap (λ t. t ++ r) p ∙ append_assoc body (b'>' ∷ []) r),
          ap (◌∷◌ b'<') p,
        )
]

has_markup-IsPlain : (s : Bytes) → has_markup s ≡ false → IsPlain s
unfolding has_markup
has_markup-IsPlain [] h = tt
has_markup-IsPlain (c ∷ s) h = ground (arith, has_markup-IsPlain s)

-- Where the scan stops before the last character, it stops at `--`.
Dashes : Bytes → Type 0
Dashes (c ∷ d ∷ s) = (c ≡ b'-') × (d ≡ b'-')
Dashes s = Unit

scan_comment-Dashes : (s : Bytes) → Dashes (scan_comment s).1
unfolding scan_comment Dashes
scan_comment-Dashes [] = tt
scan_comment-Dashes (c ∷ []) = tt
scan_comment-Dashes (c ∷ d ∷ s) = elim (Bool-cases (c == b'-' && d == b'-')) [
  | inl e ↦ rw e (ground (arith, e))
  | inr e ↦ rw e (scan_comment-Dashes (d ∷ s))
]

-- What the scan has passed holds no `--` when it stops in front of the last character.
scan_comment-head : (d e : ℕ) (s body : Bytes) → (scan_comment (d ∷ s)).0 ≡ e ∷ body → d ≡ e
unfolding scan_comment
scan_comment-head d e [] body h = absurd (ground (arith, h))
scan_comment-head d e (x ∷ s) body h = ground (arith, h)

NoDashes-cons :
    (c d : ℕ) (s body : Bytes)
    → (c == b'-' && d == b'-') ≡ false
    → (body ≡ [] → d ≡ b'-')
    → ((e : ℕ) (t : Bytes) → body ≡ e ∷ t → d ≡ e)
    → NoDashes body
    → NoDashes (c ∷ body)
NoDashes-cons c d s [] n k l h = ground (arith, n, k refl)
NoDashes-cons c d s (e ∷ t) n k l h = (ground (arith, n, l e t refl), h)

Dashes-head :
    (d : ℕ) (s : Bytes)
    → (scan_comment (d ∷ s)).0 ≡ []
    → 2 ≤ length (scan_comment (d ∷ s)).1
    → d ≡ b'-'
unfolding scan_comment
Dashes-head d [] h k = absurd (omega arith)
Dashes-head d (x ∷ s) h k = ground (arith, h)

scan_comment-NoDashes : (s : Bytes) → 2 ≤ length (scan_comment s).1 → NoDashes (scan_comment s).0
unfolding scan_comment
scan_comment-NoDashes [] k = tt
scan_comment-NoDashes (c ∷ []) k = tt
scan_comment-NoDashes (c ∷ d ∷ s) k = elim (Bool-cases (c == b'-' && d == b'-')) [
  | inl e ↦ rw e tt
  | inr e ↦ rw e (
      NoDashes-cons c d s (scan_comment (d ∷ s)).0 e (λ n. Dashes-head d s n (rw e at k))
        (λ x t. scan_comment-head d x s t) (scan_comment-NoDashes (d ∷ s) (rw e at k)))
]

close_comment-IsPart :
    (content from : Bytes)
    → Dashes from
    → (2 ≤ length from → NoDashes content)
    → IsPart (close_comment content from).0
unfolding close_comment entry Dashes
close_comment-IsPart content [] h k = tt
close_comment-IsPart content (c ∷ []) h k = tt
close_comment-IsPart content (c ∷ d ∷ []) h k = tt
close_comment-IsPart content (c ∷ d ∷ g ∷ rest) (hc, hd) k = elim (Bool-cases (g == b'>')) [
  | inr z ↦ rw z tt
  | inl z ↦ elim (Bool-cases (has_markup content)) [
    | inl m ↦ rw (z, m) tt
    | inr m ↦
        rw (z, m)
          (
            content,
            has_markup-IsPlain content m,
            k (omega arith),
            rw (hc, hd, (==_iff g b'>').0 z) refl,
          )
  ]
]

tag_or_comment-IsPart : (s : Bytes) → IsPart (tag_or_comment s).0
unfolding tag_or_comment
tag_or_comment-IsPart [] = delimited-tag-IsPart [] (NoComment-short [] (omega arith))
tag_or_comment-IsPart (x ∷ []) =
    delimited-tag-IsPart (x ∷ []) (NoComment-short (x ∷ []) (omega arith))
tag_or_comment-IsPart (x ∷ y ∷ []) =
    delimited-tag-IsPart (x ∷ y ∷ []) (NoComment-short (x ∷ y ∷ []) (omega arith))
tag_or_comment-IsPart (x ∷ y ∷ z ∷ []) =
    delimited-tag-IsPart (x ∷ y ∷ z ∷ []) (NoComment-short (x ∷ y ∷ z ∷ []) (omega arith))
tag_or_comment-IsPart (x ∷ y ∷ z ∷ w ∷ s) =
    elim (Bool-cases (x == b'!' && y == b'-' && z == b'-')) [
      | inl e ↦ rw e (
          close_comment-IsPart (scan_comment (w ∷ s)).0 (scan_comment (w ∷ s)).1
            (scan_comment-Dashes (w ∷ s)) (scan_comment-NoDashes (w ∷ s)))
      | inr e ↦
          rw e (delimited-tag-IsPart (x ∷ y ∷ z ∷ w ∷ s) (NoComment-false (x ∷ y ∷ z ∷ w ∷ s) e))
    ]

pub plain_run-IsPlain : (s : Bytes) → IsPlain (plain_run s).0
unfolding plain_run
plain_run-IsPlain [] = tt
plain_run-IsPlain (c ∷ s) = elim (Bool-cases (is_markup c)) [
  | inl e ↦ rw e tt
  | inr e ↦ rw e (e, plain_run-IsPlain s)
]

split_part-IsPart : (c : ℕ) (s : Bytes) → IsPart (split_part c s).0
unfolding split_part entry
split_part-IsPart c s = elim (Bool-cases (c == b'&')) [
  | inl a ↦ rw (a, (==_iff c b'&').0 a) (delimited-entity-IsPart s)
  | inr a ↦ elim (Bool-cases (c == b'<')) [
    | inl b ↦ rw (a, b) (tag_or_comment-IsPart s)
    | inr b ↦ elim (Bool-cases (c == b'>')) [
      | inl g ↦ rw (a, b, g) tt
      | inr g ↦ rw (a, b, g) (ground (arith, a, b, g), plain_run-IsPlain s)
    ]
  ]
]

split_loop-IsPart : (fuel : ℕ) (s : Bytes) → All IsPart (split_loop fuel s)
unfolding split_loop
split_loop-IsPart fuel [] = tt
split_loop-IsPart zero (c ∷ s) = tt
split_loop-IsPart (suc fuel) (c ∷ s) =
    (split_part-IsPart c s, split_loop-IsPart fuel (split_part c s).1)

-- Each part has the form of its type: plain text holds no `<`, `>` or `&`, an entity goes from `&`
-- to the first `;`, a tag from `<` to the first `>`, and a comment holds no markup.
pub split_to_parts-IsPart : (s : Bytes) → All IsPart (split_to_parts s)
unfolding split_to_parts
split_to_parts-IsPart s = split_loop-IsPart (length s) s
