-- ===== src/Http/Multipart/Content.antt =====
-- The loop over the content of a part against the first occurrence of the boundary.
use cppcms.Prelude.{
  ℕ, zero, suc, ◌+◌, ◌≤◌, ◌<◌, ◌≡◌, refl, sym, ap, ◌∙◌, inl, inr, true, false, Option, none, some,
  [], ◌∷◌, ◌++◌, append-nil, append_assoc, arith, ◌==◌, if◌then◌else◌, ==_iff, Bool-cases, Bytes,
  length, All, take, subst, length-take,
}
use cppcms.Http.Multipart.{
  Result, content_partial, content_ready, Parser, go_on, stop, past, char_is, finish_file,
  match_boundary, write_char, on_content, content,
}
use cppcms.Http.Multipart.Search.{
  find, prepend, find-mismatch, find-other, find-found, find-part, take-char_is,
}

pub content-go_on :
    (room : Bytes → ℕ) (p q : Parser) (c : ℕ) (s : Bytes)
    → on_content room p c ≡ go_on q
    → content room p (c ∷ s) ≡ content room q s
unfolding content
content-go_on room p q c s e = rw (e, content) refl

pub content-past :
    (room : Bytes → ℕ) (p q : Parser) (r : Result) (c : ℕ) (s : Bytes)
    → on_content room p c ≡ past r q
    → content room p (c ∷ s) ≡ (r, q, s)
unfolding content
content-past room p q r c s e = rw (e, content) refl

pub content-stop :
    (room : Bytes → ℕ) (p q : Parser) (r : Result) (c : ℕ) (s : Bytes)
    → on_content room p c ≡ stop r q
    → content room p (c ∷ s) ≡ (r, q, c ∷ s)
unfolding content
content-stop room p q r c s e = rw (e, content) refl

take-enough : (n : ℕ) (s : Bytes) → length s ≤ n → take n s ≡ s
take-enough zero [] lt = refl
take-enough zero (c ∷ s) lt = absurd (omega arith)
take-enough (suc n) [] lt = refl
take-enough (suc n) (c ∷ s) lt = ap (◌∷◌ c) (take-enough n s (omega arith))

-- The parser with the boundary, so much of it seen, and so much content written.
abbrev at : Bytes → ℕ → Bytes → Parser → Parser
at b k x p = record p { boundary = b; position = k; file = record p.file { content = x } }

-- What the loop returns and leaves, by the place of the boundary in the text that follows the
-- content `base`. Without the boundary, the content and the part of the boundary seen are the text.
unfoldable pub Agrees :
    Parser → Bytes → Bytes → Option (Bytes × Bytes) → Result × Parser × Bytes → Type 0
Agrees p base text (some (d, rest)) r =
    r ≡ (content_ready, finish_file (at p.boundary 0 (base ++ d) p), rest)
Agrees p base text none r =
    (k : ℕ) × (x : Bytes) × (k < length p.boundary)
    × (r ≡ (content_partial, at p.boundary k x p, []))
    × (x ++ take k p.boundary ≡ base ++ text)

Agrees-prepend :
    (p : Parser) (base w text : Bytes) (o : Option (Bytes × Bytes)) (r : Result × Parser × Bytes)
    → Agrees p (base ++ w) text o r
    → Agrees p base (w ++ text) (prepend w o) r
unfolding Agrees prepend
Agrees-prepend p base w text (some (d, rest)) r h = rw (← append_assoc base w d) h
Agrees-prepend p base w text none r (k, x, lt, e, kept) =
    (k, x, lt, e, kept ∙ append_assoc base w text)

module _ (room : Bytes → ℕ) (p : Parser) (h : ℕ) (t : Bytes)
    (enough : (d : Bytes) → length (h ∷ t) < room d) (other : All (λ x. (x == h) ≡ false) t) where
  abbrev b : Bytes
  b = h ∷ t

  -- A character that goes on with the boundary.
  on_content-match :
      (k c : ℕ) (x : Bytes)
      → char_is b k c ≡ true
      → on_content room (at b k x p) c ≡ (
          if k + 1 == length b
          then past content_ready (finish_file (at b 0 x p))
          else go_on (at b (k + 1) x p))
  unfolding on_content match_boundary write_char finish_file
  on_content-match k c x e = ground arith

  -- Any other character: the part of the boundary was content, and the character may start anew.
  on_content-other :
      (k c : ℕ) (x : Bytes)
      → k < length b
      → char_is b k c ≡ false
      → on_content room (at b k x p) c
        ≡ go_on (if c == h then at b 1 (x ++ take k b) p else at b 0 ((x ++ take k b) ++ c ∷ []) p)
  unfolding on_content match_boundary write_char char_is
  on_content-other zero c x lt e = ground (arith, enough x, append-nil x)
  on_content-other (suc k) c x lt e = ground (
    arith,
    enough x,
    enough (x ++ take (suc k) (h ∷ t)),
    take-enough (room x) (take (suc k) (h ∷ t)),
    length-take (suc k) (h ∷ t),
  )

  abbrev start : Parser
  start = at b 0 [] p

  Outcome : Bytes → Bytes → Result × Parser × Bytes → Type 0
  Outcome x text r = Agrees start x text (find b text) r

  carry :
      (x text other_text : Bytes) (r other_r : Result × Parser × Bytes)
      → text ≡ other_text
      → other_r ≡ r
      → Outcome x text r
      → Outcome x other_text other_r
  carry x text other_text r other_r e d o =
      subst (λ u. Outcome x other_text u) (sym d) (subst (λ u. Outcome x u r) e o)

  found :
      (x s : Bytes)
      → Outcome x (take (length b) b ++ s) (content_ready, finish_file (at b 0 x p), s)
  unfolding Outcome
  found x s = rw (find-found h t s) (unfold Agrees in rw (append-nil x) refl)

  -- Behind a mismatch the search goes on with the character, from the position 0 or 1.
  restart :
      (k c : ℕ) (x s : Bytes)
      → k < length b
      → char_is b k c ≡ false
      → find b (take k b ++ c ∷ s) ≡ prepend (take k b) (find b (c ∷ s))
  unfolding char_is find prepend
  restart zero c x s lt e = ground arith
  restart (suc k) c x s lt e =
      find-mismatch h t k c s other (omega arith) (unfold char_is in ground arith)

  after :
      (k c : ℕ) (x s : Bytes) (r : Result × Parser × Bytes)
      → k < length b
      → char_is b k c ≡ false
      → Outcome (x ++ take k b) (c ∷ s) r
      → Outcome x (take k b ++ c ∷ s) r
  unfolding Outcome
  after k c x s r lt e o =
      rw (restart k c x s lt e) (Agrees-prepend start x (take k b) (c ∷ s) (find b (c ∷ s)) r o)

  apart_after :
      (c : ℕ) (x s : Bytes) (r : Result × Parser × Bytes)
      → (c == h) ≡ false
      → Outcome (x ++ c ∷ []) s r
      → Outcome x (c ∷ s) r
  unfolding Outcome
  apart_after c x s r e o =
      rw (find-other h t c s e) (Agrees-prepend start x (c ∷ []) s (find b s) r o)

  content-finds :
      (k : ℕ) (x s : Bytes) → k < length b → Outcome x (take k b ++ s) (content room (at b k x p) s)
  unfolding content
  content-finds k x [] lt =
      unfold Outcome in
      rw (find-part h t k other lt)
        (unfold Agrees in (k, x, lt, refl, ap (x ++◌) (sym (append-nil (take k b)))))
  content-finds k x (c ∷ s) lt = elim (Bool-cases (char_is b k c)) [
    | inl hit ↦ elim (Bool-cases (k + 1 == length b)) [
      | inl full ↦
          carry x _ _ _ _
            (ap (λ n. take n b ++ s) (sym ((==_iff _ _).0 full)) ∙ take-char_is b k c s lt hit)
            (content-past room (at b k x p) _ _ c s (on_content-match k c x hit ∙ (rw full refl)))
            (found x s)
      | inr short ↦
          carry x _ _ _ _ (take-char_is b k c s lt hit)
            (content-go_on room (at b k x p) _ c s (on_content-match k c x hit ∙ (rw short refl)))
            (content-finds (k + 1) x s (ground arith))
    ]
    | inr miss ↦ elim (Bool-cases (c == h)) [
      | inl again ↦ after k c x s _ lt miss (
          carry _ _ _ _ _ (ap (λ u. u ∷ s) (sym ((==_iff _ _).0 again)))
            (content-go_on room (at b k x p) _ c s
              (on_content-other k c x lt miss ∙ (rw again refl)))
            (content-finds 1 (x ++ take k b) s (longer k c lt miss again)))
      | inr apart ↦ after k c x s _ lt miss (
          apart_after c _ s _ apart (
            carry _ _ _ _ _ refl
              (content-go_on room (at b k x p) _ c s
                (on_content-other k c x lt miss ∙ (rw apart refl)))
              (content-finds 0 ((x ++ take k b) ++ c ∷ []) s (omega arith))))
    ]
  ]
    where
      longer : (k c : ℕ) → k < length b → char_is b k c ≡ false → (c == h) ≡ true → 1 < length b
      longer k c lt e f = unfold char_is in ground arith

Agrees-start :
    (p : Parser) (base text : Bytes) (o : Option (Bytes × Bytes)) (r : Result × Parser × Bytes)
    → Agrees (at p.boundary 0 [] p) base text o r
    → Agrees p base text o r
unfolding Agrees
Agrees-start p base text none r a = a
Agrees-start p base text (some (d, rest)) r a = a

-- The content of a part ends at the first occurrence of the boundary, and is exactly the text before
-- it; where the boundary does not occur, the content written and the part of the boundary that was
-- seen at the end are together the text. The text starts with the part of the boundary that the
-- parser has seen before. The first character of the boundary (a CR) is not in the rest of it, and
-- the storage behind the file takes all that is written.
pub content-find :
    (room : Bytes → ℕ) (p : Parser) (h : ℕ) (t s : Bytes)
    → p.boundary ≡ h ∷ t
    → All (λ x. (x == h) ≡ false) t
    → p.position < length p.boundary
    → ((d : Bytes) → length p.boundary < room d)
    → Agrees p p.file.content
        (take p.position p.boundary ++ s)
        (find p.boundary (take p.position p.boundary ++ s))
        (content room p s)
content-find room p h t s whole other lt enough = Agrees-start p _ _ _ _ (
    subst
      (λ b.
        Agrees (at b 0 [] p) p.file.content (take p.position b ++ s)
          (find b (take p.position b ++ s)) (content room (at b p.position p.file.content p) s))
      (sym whole)
      (unfold Outcome in
        content-finds room p h t (λ d. subst (λ b. length b < room d) whole (enough d)) other
          p.position p.file.content s (subst (λ b. p.position < length b) whole lt)))
