-- ===== src/Http/Multipart/RoundTrip.antt =====
-- A form with one part, from the first boundary to the end.
use cppcms.Prelude.{
  ℕ, zero, suc, ◌+◌, ◌<◌, ◌≡◌, refl, sym, ap, ◌∙◌, true, false, some, List, [], ◌∷◌, ◌++◌,
  append-nil, append_assoc, arith, ◌==◌, if◌then◌else◌, Bytes, codes, length, length-append, All,
  subst,
}
use cppcms.Http.Multipart.{
  expecting_first_boundary, expecting_one_crlf_or_eof, expecting_eof_lf, expecting_crlfcrlf,
  expecting_separator_boundary, Result, meta_ready, content_ready, eof, Parser, go_on, char_is,
  finish_file, init, set_content_type, content, in_content, consume, on_char, expecting,
  first_boundary, in_header, end_of_header,
}
use cppcms.Http.PartHeader.{File, process_header, new_file}
use cppcms.Http.Multipart.Search.{find}
use cppcms.Http.Multipart.Content.{Agrees, content-find}
use cppcms.Http.Multipart.Pieces.{consume-go_on, consume-past, consume-content}

char_is-append : (pre v : Bytes) (c d : ℕ) → char_is (pre ++ d ∷ v) (length pre) c ≡ (c == d)
unfolding char_is
char_is-append [] v c d = refl
char_is-append (x ∷ pre) v c d = char_is-append pre v c d

first_boundary-step :
    (p : Parser) (pre : Bytes) (d : ℕ) (v u : Bytes)
    → p.state ≡ expecting_first_boundary
    → p.boundary ≡ pre ++ d ∷ v
    → p.position ≡ length pre
    → on_char p d u
      ≡ go_on (
          if length v == 0
          then record p { state = expecting_one_crlf_or_eof; position = 0 }
          else record p { position = p.position + 1 })
unfolding on_char first_boundary
first_boundary-step p pre d v u st b pos =
    rw st (ground (arith, char_is-append pre v d d, length-append pre (d ∷ v)))

header-step :
    (p : Parser) (c : ℕ) (u : Bytes)
    → p.state ≡ expecting_crlfcrlf
    → p.position ≡ 0
    → (c == b'\r') ≡ false
    → on_char p c u ≡ go_on (record p { header = p.header ++ c ∷ [] })
unfolding on_char in_header end_of_header char_is
header-step p c u st pos n = rw st (ground arith)

module _ (room : Bytes → ℕ) where
  -- The first boundary is read to its end.
  first_boundary-read :
      (p : Parser) (pre : Bytes) (d : ℕ) (v u : Bytes)
      → p.state ≡ expecting_first_boundary
      → p.boundary ≡ pre ++ d ∷ v
      → p.position ≡ length pre
      → consume room p (d ∷ v ++ u)
        ≡ consume room (record p { state = expecting_one_crlf_or_eof; position = 0 }) u
  first_boundary-read p pre d [] u st b pos =
      consume-go_on room p _ d u (rw st (unfold in_content in refl))
        (first_boundary-step p pre d [] u st b pos)
  first_boundary-read p pre d (e ∷ v) u st b pos =
      consume-go_on room p (record p { position = p.position + 1 }) d _
        (rw st (unfold in_content in refl))
        (ground (arith, first_boundary-step p pre d (e ∷ v) (e ∷ v ++ u) st b pos))
      ∙ first_boundary-read (record p { position = p.position + 1 }) (pre ++ d ∷ []) e v u st
          (b ∙ sym (append_assoc pre (d ∷ []) (e ∷ v))) (omega (arith, length-append pre (d ∷ [])))

  -- The text of a header with no CR is collected.
  header-read :
      (p : Parser) (line u : Bytes)
      → p.state ≡ expecting_crlfcrlf
      → p.position ≡ 0
      → All (λ c. (c == b'\r') ≡ false) line
      → consume room p (line ++ u) ≡ consume room (record p { header = p.header ++ line }) u
  header-read p [] u st pos a =
      ap (λ x. consume room (record p { header = x }) u) (sym (append-nil p.header))
  header-read p (c ∷ line) u st pos (n, a) =
      consume-go_on room p (record p { header = p.header ++ c ∷ [] }) c _
        (rw st (unfold in_content in refl)) (header-step p c _ st pos n)
      ∙ header-read (record p { header = p.header ++ c ∷ [] }) line u st pos a
      ∙ ap (λ x. consume room (record p { header = x }) u) (append_assoc p.header (c ∷ []) line)

-- The text of a form with one part, behind the first two characters of its boundary.
unfoldable pub form : Bytes → Bytes → Bytes → Bytes
form bkey line text =
    (codes "--" ++ bkey)
    ++ (codes "\r\n"
        ++ (line ++ (codes "\r\n\r\n" ++ (text ++ ((codes "\r\n--" ++ bkey) ++ codes "--\r\n")))))

-- So many calls of `consume`, each on what the one before left: their results and the files.
unfoldable pub calls : (Bytes → ℕ) → ℕ → Parser → Bytes → List Result × List File
calls room zero p s = ([], p.files)
calls room (suc n) p s =
    let (r, q, rest) = consume room p s in
    let (results, files) = calls room n q rest in (r ∷ results, files)

call :
    (room : Bytes → ℕ) (n : ℕ) (p q : Parser) (s rest : Bytes) (r : Result) (rs : List Result)
    (files : List File)
    → consume room p s ≡ (r, q, rest)
    → calls room n q rest ≡ (rs, files)
    → calls room (suc n) p s ≡ (r ∷ rs, files)
unfolding calls
call room n p q s rest r rs files e later = rw e (ap (λ l. (r ∷ l.0, l.1)) later)

module _ (room : Bytes → ℕ) (bkey line text : Bytes) (f : File)
    (named : All (λ c. (c == b'\r') ≡ false) bkey) (one_line : All (λ c. (c == b'\r') ≡ false) line)
    (enough : (d : Bytes) → length (codes "\r\n--" ++ bkey) < room d)
    (headed : process_header (line ++ codes "\r\n\r\n") new_file ≡ (true, f)) where
  abbrev b : Bytes
  b = codes "\r\n--" ++ bkey

  abbrev fresh : Parser
  fresh = record init { boundary = b; position = 2 }

  -- The parser in the content of the part.
  abbrev inside : Parser
  inside = record {
    state = expecting_separator_boundary;
    file = f;
    files = [];
    position = 0;
    header = [];
    boundary = b;
    file_is_ready = true;
  }

  first-crlf :
      (u : Bytes)
      → consume room
          (record fresh { state = expecting_one_crlf_or_eof; position = 0 })
          (codes "\r\n" ++ u)
        ≡ consume room (record fresh { state = expecting_crlfcrlf; position = 0 }) u
  unfolding consume on_char expecting in_content init
  first-crlf u = refl

  header-first :
      (u : Bytes)
      → consume room
          (record fresh { state = expecting_crlfcrlf; position = 0; header = line })
          (codes "\r\n\r\n" ++ u)
        ≡ consume room
            (record fresh {
              state = expecting_crlfcrlf;
              position = 3;
              header = ((line ++ b'\r' ∷ []) ++ b'\n' ∷ []) ++ b'\r' ∷ [];
            })
            (b'\n' ∷ u)
  unfolding consume on_char in_header in_content init char_is end_of_header
  header-first u = refl

  header-last :
      (hdr u : Bytes)
      → process_header (hdr ++ b'\n' ∷ []) new_file ≡ (true, f)
      → consume room
          (record fresh { state = expecting_crlfcrlf; position = 3; header = hdr })
          (b'\n' ∷ u)
        ≡ (meta_ready, inside, u)
  header-last hdr u h =
      consume-past room _ inside meta_ready b'\n' u (unfold in_content in refl)
        (unfold on_char in_header end_of_header char_is init in ground (arith, h))

  whole_header :
      (((line ++ b'\r' ∷ []) ++ b'\n' ∷ []) ++ b'\r' ∷ []) ++ b'\n' ∷ [] ≡ line ++ codes "\r\n\r\n"
  whole_header =
      append_assoc ((line ++ b'\r' ∷ []) ++ b'\n' ∷ []) (b'\r' ∷ []) (b'\n' ∷ [])
      ∙ append_assoc (line ++ b'\r' ∷ []) (b'\n' ∷ []) (b'\r' ∷ b'\n' ∷ [])
      ∙ append_assoc line (b'\r' ∷ []) (b'\n' ∷ b'\r' ∷ b'\n' ∷ [])

  header-all :
      (u : Bytes)
      → consume room
          (record fresh { state = expecting_crlfcrlf; position = 0 })
          (line ++ (codes "\r\n\r\n" ++ u))
        ≡ (meta_ready, inside, u)
  unfolding init
  header-all u =
      header-read room (record fresh { state = expecting_crlfcrlf; position = 0 }) line
        (codes "\r\n\r\n" ++ u) refl refl one_line
      ∙ header-first u
      ∙ header-last _ u (ap (λ x. process_header x new_file) whole_header ∙ headed)

  -- The first call stops behind the header.
  meta :
      (u : Bytes)
      → consume room fresh
          ((codes "--" ++ bkey) ++ (codes "\r\n" ++ (line ++ (codes "\r\n\r\n" ++ u))))
        ≡ (meta_ready, inside, u)
  unfolding init
  meta u =
      first_boundary-read room fresh (codes "\r\n") b'-' (b'-' ∷ bkey)
        (codes "\r\n" ++ (line ++ (codes "\r\n\r\n" ++ u))) refl refl refl
      ∙ first-crlf (line ++ (codes "\r\n\r\n" ++ u))
      ∙ header-all u

  abbrev done : Parser
  done = record inside { file = record f { content = f.content ++ text } }

  -- The second stops behind the boundary with the content in the list.
  part :
      (u : Bytes)
      → find b (text ++ (b ++ u)) ≡ some (text, u)
      → content room inside (text ++ (b ++ u)) ≡ (content_ready, finish_file done, u)
  part u h =
      unfold Agrees in
      subst
        (λ o. Agrees inside f.content (text ++ (b ++ u)) o (content room inside (text ++ (b ++ u))))
        h
        (content-find room inside b'\r' (codes "\n--" ++ bkey) (text ++ (b ++ u)) refl
          (refl, (refl, (refl, named))) (omega arith) enough)

  ending :
      (q : Parser)
      → q.state ≡ expecting_one_crlf_or_eof
      → consume room q (codes "--\r\n") ≡ (eof, record q { state = expecting_eof_lf }, [])
  unfolding consume on_char expecting in_content
  ending q st = rw st refl

  inside-content : (s : Bytes) → 0 < length s → consume room inside s ≡ content room inside s
  inside-content [] lt = absurd (omega arith)
  inside-content (c ∷ s) lt = consume-content room inside s c (unfold in_content in refl)

  started : 0 < length bkey → (set_content_type bkey init).1 ≡ fresh
  unfolding set_content_type init
  started pos = ground arith

  -- A form with one part is read in three calls: behind the header of the part, behind its content,
  -- and at the end. The list of files then has the file of the header with exactly the content. The
  -- key of the boundary has no CR and is not empty, the header is one line that process_header takes,
  -- the boundary does not occur earlier in the content, and the storage takes what is written.
  pub calls-form :
      0 < length bkey
      → find b (text ++ (b ++ codes "--\r\n")) ≡ some (text, codes "--\r\n")
      → calls room 3 (set_content_type bkey init).1 (form bkey line text)
        ≡ (meta_ready ∷ content_ready ∷ eof ∷ [], record f { content = f.content ++ text } ∷ [])
  unfolding form finish_file
  calls-form pos h =
      call room 2 _ inside _ (text ++ (b ++ codes "--\r\n")) meta_ready _ _
        (ap (λ p. consume room p (form bkey line text)) (started pos)
          ∙ meta (text ++ (b ++ codes "--\r\n")))
        (call room 1 inside (finish_file done) _ (codes "--\r\n") content_ready _ _
          (inside-content _ (omega (arith, length-append text (b ++ codes "--\r\n")))
            ∙ part (codes "--\r\n") h)
          last_call)
    where
      last_call :
          calls room 1 (finish_file done) (codes "--\r\n")
          ≡ (eof ∷ [], record f { content = f.content ++ text } ∷ [])
      last_call =
          call room 0 (finish_file done) (record (finish_file done) { state = expecting_eof_lf }) _
            [] eof [] _ (ending (finish_file done) refl) (unfold calls in refl)
