-- ===== src/Xss/Split/Again.antt =====
-- src/xss.cpp: the parts in front of any text.
use cppcms.Xss.Split.Forms.{plain_run-IsPlain}
use cppcms.Prelude.{
  ℕ, zero, suc, ◌≤◌, ◌≡◌, refl, sym, ap, ◌∙◌, inl, inr, false, some, [], ◌∷◌, ◌++◌, append_assoc,
  arith, Bool-cases, Bytes, codes, length, All, All-append, subst,
}
use cppcms.Xss.{HtmlDataType, Entry, entry, plain_text, html_entity, html_tag, html_comment}
use cppcms.Xss.Split.{
  cut, delimited, is_markup, scan_comment, has_markup, comment_start, close_comment, tag_or_comment,
  plain_run, split_part, split_loop, split_to_parts,
}
use cppcms.Xss.Split.Forms.{NoDashes, starts_comment, IsPlain, HasForm}
use cppcms.Xss.Split.Laws.{Lacks, split_part-shorter}

split_loop-enough :
    (n m : ℕ) (s : Bytes) → length s ≤ n → length s ≤ m → split_loop n s ≡ split_loop m s
unfolding split_loop
split_loop-enough n m [] h k = refl
split_loop-enough zero m (c ∷ s) h k = absurd (omega arith)
split_loop-enough n zero (c ∷ s) h k = absurd (omega arith)
split_loop-enough (suc n) (suc m) (c ∷ s) h k =
    let shorter = split_part-shorter c s in
    ap (◌∷◌ (split_part c s).0)
      (split_loop-enough n m (split_part c s).1 (omega (arith, shorter)) (omega (arith, shorter)))

-- One part, and the parts of the rest.
pub split_to_parts-cons :
    (c : ℕ) (s : Bytes)
    → split_to_parts (c ∷ s) ≡ (split_part c s).0 ∷ split_to_parts (split_part c s).1
unfolding split_to_parts split_loop
split_to_parts-cons c s = ap (◌∷◌ (split_part c s).0) (
    split_loop-enough (length s) (length (split_part c s).1) (split_part c s).1
      (split_part-shorter c s) (omega arith))

cut-append :
    (stop : ℕ) (body rest : Bytes)
    → Lacks stop body
    → cut stop (body ++ stop ∷ rest) ≡ some (body ++ stop ∷ [], rest)
unfolding cut
cut-append stop [] rest h = ground arith
cut-append stop (c ∷ body) rest (n, h) = ground (arith, cut-append stop body rest h, n)

delimited-again :
    (type : HtmlDataType) (stop c : ℕ) (body rest : Bytes)
    → Lacks stop body
    → delimited type stop c (body ++ stop ∷ rest) ≡ (entry (c ∷ body ++ stop ∷ []) type, rest)
unfolding delimited
delimited-again type stop c body rest h = rw (cut-append stop body rest h, delimited) refl

tag_or_comment-delimited :
    (s : Bytes) → starts_comment s ≡ false → tag_or_comment s ≡ delimited html_tag b'>' b'<' s
unfolding tag_or_comment
tag_or_comment-delimited [] h = refl
tag_or_comment-delimited (x ∷ []) h = refl
tag_or_comment-delimited (x ∷ y ∷ []) h = refl
tag_or_comment-delimited (x ∷ y ∷ z ∷ []) h = refl
tag_or_comment-delimited (x ∷ y ∷ z ∷ w ∷ s) h = rw h refl

starts_comment-append :
    (body rest : Bytes) → starts_comment body ≡ false → starts_comment (body ++ b'>' ∷ rest) ≡ false
starts_comment-append [] [] h = refl
starts_comment-append [] (a ∷ []) h = refl
starts_comment-append [] (a ∷ b ∷ r) h = refl
starts_comment-append (x ∷ []) [] h = refl
starts_comment-append (x ∷ []) (a ∷ r) h = ground arith
starts_comment-append (x ∷ y ∷ []) r h = ground arith
starts_comment-append (x ∷ y ∷ z ∷ t) r h = h

tag-again :
    (body rest : Bytes)
    → Lacks b'>' body
    → starts_comment body ≡ false
    → tag_or_comment (body ++ b'>' ∷ rest) ≡ (entry (b'<' ∷ body ++ b'>' ∷ []) html_tag, rest)
tag-again body rest h n =
    tag_or_comment-delimited (body ++ b'>' ∷ rest) (starts_comment-append body rest n)
    ∙ delimited-again html_tag b'>' b'<' body rest h

scan_comment-again :
    (body rest : Bytes)
    → NoDashes body
    → scan_comment (body ++ (codes "-->" ++ rest)) ≡ (body, codes "-->" ++ rest)
unfolding scan_comment
scan_comment-again [] rest h = refl
scan_comment-again (c ∷ []) rest h = ground (arith, h)
scan_comment-again (c ∷ d ∷ s) rest (n, h) = ground (arith, n, scan_comment-again (d ∷ s) rest h)

IsPlain-has_markup : (s : Bytes) → All (λ c. is_markup c ≡ false) s → has_markup s ≡ false
unfolding has_markup
IsPlain-has_markup [] h = refl
IsPlain-has_markup (c ∷ s) (p, h) = rw (p, IsPlain-has_markup s h) refl

close_comment-again :
    (body rest : Bytes)
    → has_markup body ≡ false
    → close_comment body (codes "-->" ++ rest)
      ≡ (entry (comment_start ++ body ++ codes "-->") html_comment, rest)
unfolding close_comment
close_comment-again body rest h = rw h refl

comment-again :
    (body rest : Bytes)
    → NoDashes body
    → has_markup body ≡ false
    → tag_or_comment (b'!' ∷ b'-' ∷ b'-' ∷ (body ++ (codes "-->" ++ rest)))
      ≡ (entry (comment_start ++ body ++ codes "-->") html_comment, rest)
unfolding tag_or_comment
comment-again [] rest n h = close_comment-again [] rest h
comment-again (c ∷ body) rest n h =
    ap (λ p. close_comment p.0 p.1) (scan_comment-again (c ∷ body) rest n)
    ∙ close_comment-again (c ∷ body) rest h

plain_run-append :
    (p s : Bytes)
    → All (λ c. is_markup c ≡ false) p
    → plain_run (p ++ s) ≡ (p ++ (plain_run s).0, (plain_run s).1)
unfolding plain_run
plain_run-append [] s h = refl
plain_run-append (c ∷ p) s (n, h) = rw (n, plain_run-append p s h) refl

-- The parts that are split off in one piece.
abbrev pub IsSolid : HtmlDataType → Type 0
IsSolid HtmlDataType.html_entity = Unit
IsSolid HtmlDataType.html_tag = Unit
IsSolid HtmlDataType.html_comment = Unit
IsSolid _ = ⊥

from_split_part :
    (c : ℕ) (s rest : Bytes) (e : Entry)
    → split_part c s ≡ (e, rest)
    → split_to_parts (c ∷ s) ≡ e ∷ split_to_parts rest
from_split_part c s rest e h = split_to_parts-cons c s ∙ ap (λ p. p.0 ∷ split_to_parts p.1) h

-- A part of such a form, with any text behind it, is split off as it was.
pub split_to_parts-solid :
    (type : HtmlDataType) (text s : Bytes)
    → IsSolid type
    → HasForm type text
    → split_to_parts (text ++ s) ≡ entry text type ∷ split_to_parts s
unfolding split_part
split_to_parts-solid HtmlDataType.html_entity text s _ (body, l, q) = rw q (
    ap (λ t. split_to_parts (b'&' ∷ t)) (append_assoc body (b';' ∷ []) s)
    ∙ from_split_part b'&' (body ++ b';' ∷ s) s _ (delimited-again html_entity b';' b'&' body s l))
split_to_parts-solid HtmlDataType.html_tag text s _ (body, l, n, q) = rw q (
    ap (λ t. split_to_parts (b'<' ∷ t)) (append_assoc body (b'>' ∷ []) s)
    ∙ from_split_part b'<' (body ++ b'>' ∷ s) s _ (tag-again body s l n))
split_to_parts-solid HtmlDataType.html_comment text s _ (body, p, n, q) = rw q (
    ap (λ t. split_to_parts (b'<' ∷ b'!' ∷ b'-' ∷ b'-' ∷ t)) (append_assoc body (codes "-->") s)
    ∙ from_split_part b'<' (b'!' ∷ b'-' ∷ b'-' ∷ (body ++ (codes "-->" ++ s))) s _
        (comment-again body s n (IsPlain-has_markup body p)))
split_to_parts-solid HtmlDataType.invalid_data text s h _ = absurd h
split_to_parts-solid HtmlDataType.plain_text text s h _ = absurd h
split_to_parts-solid HtmlDataType.open_tag text s h _ = absurd h
split_to_parts-solid HtmlDataType.close_tag text s h _ = absurd h
split_to_parts-solid HtmlDataType.open_and_close_tag text s h _ = absurd h
split_to_parts-solid HtmlDataType.html_numeric_entity text s h _ = absurd h
split_to_parts-solid HtmlDataType.open_and_close_tag_without_slash text s h _ = absurd h

split_part-plain :
    (c : ℕ) (s : Bytes)
    → is_markup c ≡ false
    → split_part c s ≡ (entry (c ∷ (plain_run s).0) plain_text, (plain_run s).1)
unfolding split_part
split_part-plain c s h = ground (arith, h)

module _ (P : Entry → Type 0) (plain : (t : Bytes) → IsPlain t → P (entry t plain_text)) where
  -- The parts of a text, but for the plain text that it begins with.
  All-behind : (s : Bytes) → All P (split_to_parts s) → All P (split_to_parts (plain_run s).1)
  unfolding plain_run
  All-behind [] h = h
  All-behind (c ∷ s) h = elim (Bool-cases (is_markup c)) [
    | inl e ↦ rw e h
    | inr e ↦
        rw e (subst (All P) (from_split_part c s (plain_run s).1 _ (split_part-plain c s e)) h).1
  ]

  -- Plain text in front of a text makes no part but a plain one.
  pub All-plain :
      (p s : Bytes) → IsPlain p → All P (split_to_parts s) → All P (split_to_parts (p ++ s))
  All-plain [] s h k = k
  All-plain (c ∷ p) s (n, h) k =
      subst (All P)
        (sym (
          from_split_part c (p ++ s) (plain_run s).1 _ (
            split_part-plain c (p ++ s) n
            ∙ ap (λ r. (entry (c ∷ r.0) plain_text, r.1)) (plain_run-append p s h))))
        (plain _ (n, All-append _ p _ h (plain_run-IsPlain s)), All-behind s k)
