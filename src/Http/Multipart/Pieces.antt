-- ===== src/Http/Multipart/Pieces.antt =====
-- private/multipart_parser.h: a body in pieces.
use cppcms.Prelude.{
  ℕ, ◌≡◌, refl, sym, ap, ◌∙◌, inl, inr, Bool, true, false, [], ◌∷◌, ◌++◌, arith, if◌then◌else◌,
  Bool-cases, Bytes, length-append, subst,
}
use cppcms.Http.Multipart.Content.{content-go_on, content-stop, content-past}
use cppcms.Http.Multipart.{
  State, expecting_first_boundary, expecting_one_crlf_or_eof, expecting_minus, expecting_eof_cr,
  expecting_eof_lf, expecting_lf, expecting_crlfcrlf, expecting_separator_boundary, Result,
  parsing_error, meta_ready, content_partial, content_ready, continue_input, eof, no_room_left,
  Parser, Round, go_on, stop, past, match_boundary, write_char, on_content, content, in_content,
  consume, on_char, expecting, first_boundary, in_header, end_of_header,
}

-- The results that ask for the next buffer.
unfoldable pub asks : Result → Bool
asks parsing_error = false
asks meta_ready = false
asks content_partial = true
asks content_ready = false
asks continue_input = true
asks eof = false
asks no_room_left = false

unfoldable pub is_eof : Result → Bool
is_eof parsing_error = false
is_eof meta_ready = false
is_eof content_partial = false
is_eof content_ready = false
is_eof continue_input = false
is_eof eof = true
is_eof no_room_left = false

-- What a round may do in the content of a part, and outside of it.
abbrev Fine : Bool → Round → Type 0
Fine inside (go_on q) = inside ≡ true → in_content q.state ≡ true
Fine inside (stop r q) = asks r ≡ false
Fine inside (past r q) = asks r ≡ false

-- Two rounds are the same, and a return other than `eof` asks for nothing.
abbrev Same : Round → Round → Type 0
Same (go_on q) r = r ≡ go_on q
Same (stop a q) r = (asks a ≡ false) × (r ≡ stop a q)
Same (past a q) r = is_eof a ≡ false → (asks a ≡ false) × (r ≡ past a q)

module _ (room : Bytes → ℕ) where
  -- The next call of `consume` with the text `u`, or the rest of this one.
  unfoldable pub resume : Result × Parser × Bytes → Bytes → Result × Parser × Bytes
  unfolding asks consume
  resume (r, q, rest) u = if asks r then consume room q u else (r, q, rest ++ u)

  on_content-Fine :
      (p : Parser) (c : ℕ) → in_content p.state ≡ true → Fine true (on_content room p c)
  unfolding on_content match_boundary write_char asks
  on_content-Fine p c h = ground arith

  resume-return :
      (r : Result) (q : Parser) (rest u : Bytes)
      → asks r ≡ false
      → resume (r, q, rest) u ≡ (r, q, rest ++ u)
  unfolding resume
  resume-return r q rest u h = rw h refl

  joins :
      {a b c d : Result × Parser × Bytes} (u : Bytes)
      → a ≡ b
      → b ≡ resume c u
      → d ≡ c
      → a ≡ resume d u
  joins u e f g = e ∙ f ∙ sym (ap (λ r. resume r u) g)

  content-append :
      (p : Parser) (s : Bytes) (d : ℕ) (t : Bytes)
      → in_content p.state ≡ true
      → content room p (s ++ d ∷ t) ≡ resume (content room p s) (d ∷ t)
  content-append p [] d t h = unfold resume content consume asks in ground arith
  content-append p (c ∷ s) d t h =
      go (λ q. content-append q s d t) (on_content room p c) refl (on_content-Fine p c h)
    where
      go :
          (later : (q : Parser)
            → in_content q.state ≡ true
            → content room q (s ++ d ∷ t) ≡ resume (content room q s) (d ∷ t))
          (r : Round)
          → on_content room p c ≡ r
          → Fine true r
          → content room p (c ∷ s ++ d ∷ t) ≡ resume (content room p (c ∷ s)) (d ∷ t)
      go later (go_on q) e f =
          joins (d ∷ t) (content-go_on room p q c _ e) (later q (f refl))
            (content-go_on room p q c s e)
      go later (stop r q) e f =
          joins (d ∷ t) (content-stop room p q r c _ e) (sym (resume-return r q _ _ f))
            (content-stop room p q r c s e)
      go later (past r q) e f =
          joins (d ∷ t) (content-past room p q r c _ e) (sym (resume-return r q _ _ f))
            (content-past room p q r c s e)

  -- A return of `on_char` that is not `eof` asks for nothing and does not depend on what follows.
  on_char-Same :
      (p : Parser) (c : ℕ) (s u : Bytes)
      → in_content p.state ≡ false
      → Same (on_char p c s) (on_char p c (s ++ u))
  unfolding on_char
  on_char-Same p c s u h = go p.state refl
    where
      go : (st : State) → p.state ≡ st → Same (on_char p c s) (on_char p c (s ++ u))
      go expecting_separator_boundary e = absurd (unfold in_content in ground arith)
      go expecting_first_boundary e = unfold first_boundary asks is_eof in rw e (ground arith)
      go expecting_one_crlf_or_eof e = unfold asks is_eof in rw e (ground arith)
      go expecting_minus e = unfold expecting asks is_eof in rw e (ground arith)
      go expecting_eof_cr e = unfold expecting asks is_eof in rw e (ground arith)
      go expecting_eof_lf e = unfold asks is_eof in rw e (ground (arith, length-append s u))
      go expecting_lf e = unfold expecting asks is_eof in rw e (ground arith)
      go expecting_crlfcrlf e = unfold in_header end_of_header asks is_eof in rw e (ground arith)

  pub consume-go_on :
      (p q : Parser) (c : ℕ) (s : Bytes)
      → in_content p.state ≡ false
      → on_char p c s ≡ go_on q
      → consume room p (c ∷ s) ≡ consume room q s
  unfolding consume
  consume-go_on p q c s h e = rw (h, consume) (rw (e, consume) refl)

  consume-stop :
      (p q : Parser) (r : Result) (c : ℕ) (s : Bytes)
      → in_content p.state ≡ false
      → on_char p c s ≡ stop r q
      → consume room p (c ∷ s) ≡ (r, q, c ∷ s)
  unfolding consume
  consume-stop p q r c s h e = rw (h, consume) (rw (e, consume) refl)

  pub consume-past :
      (p q : Parser) (r : Result) (c : ℕ) (s : Bytes)
      → in_content p.state ≡ false
      → on_char p c s ≡ past r q
      → consume room p (c ∷ s) ≡ (r, q, s)
  unfolding consume
  consume-past p q r c s h e = rw (h, consume) (rw (e, consume) refl)

  pub consume-content :
      (p : Parser) (s : Bytes) (c : ℕ)
      → in_content p.state ≡ true
      → consume room p (c ∷ s) ≡ content room p (c ∷ s)
  unfolding consume
  consume-content p s c h = rw (h, consume) refl

  -- A body may be given in pieces: `consume` on a text with more behind it does what `consume` on the
  -- text does, followed, if that asks for more, by `consume` on the rest. The end of the form, which
  -- has to be the end of its buffer, is the exception.
  pub consume-append :
      (p : Parser) (s : Bytes) (d : ℕ) (t : Bytes)
      → is_eof (consume room p s).0 ≡ false
      → consume room p (s ++ d ∷ t) ≡ resume (consume room p s) (d ∷ t)
  consume-append p [] d t h = unfold resume consume asks in ground arith
  consume-append p (c ∷ s) d t h = elim (Bool-cases (in_content p.state)) [
    | inl inside ↦
        joins (d ∷ t) (consume-content p _ c inside) (content-append p (c ∷ s) d t inside)
          (consume-content p s c inside)
    | inr outside ↦
        go (λ q. consume-append q s d t) outside (on_char p c s) refl
          (on_char-Same p c s (d ∷ t) outside)
  ]
    where
      go :
          (later : (q : Parser)
            → is_eof (consume room q s).0 ≡ false
            → consume room q (s ++ d ∷ t) ≡ resume (consume room q s) (d ∷ t))
          (outside : in_content p.state ≡ false) (r : Round)
          → on_char p c s ≡ r
          → Same r (on_char p c (s ++ d ∷ t))
          → consume room p (c ∷ s ++ d ∷ t) ≡ resume (consume room p (c ∷ s)) (d ∷ t)
      go later outside (go_on q) e f =
          joins (d ∷ t) (consume-go_on p q c _ outside f)
            (later q (subst (λ r. is_eof r.0 ≡ false) (consume-go_on p q c s outside e) h))
            (consume-go_on p q c s outside e)
      go later outside (stop r q) e (n, f) =
          joins (d ∷ t) (consume-stop p q r c _ outside f) (sym (resume-return r q _ _ n))
            (consume-stop p q r c s outside e)
      go later outside (past r q) e f =
          let (n, g) = f (subst (λ r. is_eof r.0 ≡ false) (consume-past p q r c s outside e) h) in
          joins (d ∷ t) (consume-past p q r c _ outside g) (sym (resume-return r q _ _ n))
            (consume-past p q r c s outside e)
