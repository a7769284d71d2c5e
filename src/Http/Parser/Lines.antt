-- ===== src/Http/Parser/Lines.antt =====
-- private/http_parser.h: header lines, by the machine and by the parser.
use cppcms.Http.Parser.{
  closing_bracket_expected, State, idle, input_observed, last_lf_exptected, lf_exptected,
  space_or_other_exptected, got_header, end_of_headers, chop,
}
use cppcms.Http.Parser.{Parser, Event, step, unread}
use cppcms.Http.Parser.Refines.{IsValid, Returns, core, step-Returns}
use cppcms.Http.Parser.Machine.{Core, next_core, run, run_go, run_take, run_leave}
use cppcms.Prelude.{
  ℕ, ◌-◌, ◌<◌, ◌≡◌, refl, sym, ap, Option, none, some, ◌∙◌, ◌≢◌, ◌⊎◌, [], ◌∷◌, ◌++◌, append-nil,
  append_assoc, arith, Bytes, length, length-append, All, take-length-append,
}

-- A character that is copied: no line end, quote or bracket begins with it.
abbrev pub IsPlain : ℕ → Type 0
IsPlain c = (c ≢ b'\r') × (c ≢ b'"') × (c ≢ b'(')

abbrev pub at : State → Bytes → Core
at st h = record { state = st; header = h }

run_text :
    (h t rest : Bytes)
    → All IsPlain t
    → run (at input_observed h) (t ++ rest) ≡ run (at input_observed (h ++ t)) rest
run_text h [] rest a = rw append-nil
run_text h (c ∷ t) rest (p, a) =
    run_go (at input_observed h) (at input_observed (h ++ c ∷ [])) c (t ++ rest)
      (unfold next_core in ground arith)
    ∙ run_text (h ++ c ∷ []) t rest a
    ∙ rw append_assoc

chop-append : (h : Bytes) (a b : ℕ) → chop (h ++ a ∷ b ∷ []) ≡ h
chop-append h a b =
    let e : length (h ++ a ∷ b ∷ []) - 2 ≡ length h = omega (arith, length-append h (a ∷ b ∷ [])) in
    rw e (take-length-append h (a ∷ b ∷ []))

-- A line end, from the text to the state in which the next character decides.
run_crlf :
    (h rest : Bytes)
    → run (at input_observed h) (b'\r' ∷ b'\n' ∷ rest)
      ≡ run (at space_or_other_exptected (h ++ b'\r' ∷ b'\n' ∷ [])) rest
run_crlf h rest =
    run_go (at input_observed h) (at lf_exptected (h ++ b'\r' ∷ [])) b'\r' (b'\n' ∷ rest)
      (unfold next_core in refl)
    ∙ run_go (at lf_exptected (h ++ b'\r' ∷ []))
        (at space_or_other_exptected ((h ++ b'\r' ∷ []) ++ b'\n' ∷ [])) b'\n' rest
        (unfold next_core in refl)
    ∙ rw append_assoc

-- A line that starts the text, holds no quote, bracket or carriage return, and is followed by a
-- character that is no blank, is returned as it stands; the following character stays unread.
pub run_line :
    (h : Bytes) (c : ℕ) (t : Bytes) (d : ℕ) (rest : Bytes)
    → IsPlain c
    → All IsPlain t
    → d ≢ b' '
    → d ≢ b'\t'
    → run (at idle h) (c ∷ (t ++ b'\r' ∷ b'\n' ∷ d ∷ rest))
      ≡ (got_header, at idle (c ∷ t), d ∷ rest)
run_line h c t d rest p a x y =
    run_go (at idle h) (at input_observed (c ∷ [])) c _ (unfold next_core in ground arith)
    ∙ run_text (c ∷ []) t _ a
    ∙ run_crlf (c ∷ t) (d ∷ rest)
    ∙ run_leave _ (at idle (c ∷ t)) d rest got_header
        (unfold next_core in ground (arith, chop-append (c ∷ t) b'\r' b'\n'))

-- A blank behind a line end folds the next line into this one: the line end is dropped and the
-- blank is kept.
pub run_fold :
    (h t : Bytes) (d : ℕ) (rest : Bytes)
    → All IsPlain t
    → (d ≡ b' ') ⊎ (d ≡ b'\t')
    → run (at input_observed h) (t ++ b'\r' ∷ b'\n' ∷ d ∷ rest)
      ≡ run (at input_observed (h ++ t ++ d ∷ [])) rest
run_fold h t d rest a x =
    run_text h t _ a
    ∙ run_crlf (h ++ t) (d ∷ rest)
    ∙ run_go (at space_or_other_exptected ((h ++ t) ++ b'\r' ∷ b'\n' ∷ []))
        (at input_observed ((h ++ t) ++ d ∷ [])) d rest
        (unfold next_core in ground (arith, chop-append (h ++ t) b'\r' b'\n'))
    ∙ rw append_assoc

-- The empty line ends the headers.
pub run_end :
    (h rest : Bytes)
    → run (at idle h) (b'\r' ∷ b'\n' ∷ rest) ≡ (end_of_headers, at last_lf_exptected [], rest)
run_end h rest =
    run_go (at idle h) (at last_lf_exptected (b'\r' ∷ [])) b'\r' (b'\n' ∷ rest)
      (unfold next_core in refl)
    ∙ run_take (at last_lf_exptected (b'\r' ∷ [])) (at last_lf_exptected []) b'\n' rest
        end_of_headers (unfold next_core in refl)

-- The characters inside a bracket that do not end it: an opening bracket is one of them.
abbrev pub IsInside : ℕ → Type 0
IsInside c = (c ≢ b')') × (c ≢ b'\\')

run_inside :
    (h t rest : Bytes)
    → All IsInside t
    → run (at closing_bracket_expected h) (t ++ rest)
      ≡ run (at closing_bracket_expected (h ++ t)) rest
run_inside h [] rest a = rw append-nil
run_inside h (c ∷ t) rest (p, a) =
    run_go (at closing_bracket_expected h) (at closing_bracket_expected (h ++ c ∷ [])) c (t ++ rest)
      (unfold next_core in ground arith)
    ∙ run_inside (h ++ c ∷ []) t rest a
    ∙ rw append_assoc

run_comment :
    (h t rest : Bytes)
    → All IsInside t
    → run (at closing_bracket_expected h) (t ++ b')' ∷ rest)
      ≡ run (at input_observed (h ++ t ++ b')' ∷ [])) rest
run_comment h t rest a =
    run_inside h t (b')' ∷ rest) a
    ∙ run_go (at closing_bracket_expected (h ++ t)) (at input_observed ((h ++ t) ++ b')' ∷ [])) b')'
        rest (unfold next_core in refl)
    ∙ rw append_assoc

-- A line with a comment in it, and its end.
abbrev pub with_comment : ℕ → Bytes → Bytes → Bytes → Bytes
with_comment c t comment u = c ∷ (t ++ b'(' ∷ (comment ++ b')' ∷ u))

run_to_comment :
    (h : Bytes) (c : ℕ) (t rest : Bytes)
    → IsPlain c
    → All IsPlain t
    → run (at idle h) (c ∷ (t ++ b'(' ∷ rest))
      ≡ run (at closing_bracket_expected (c ∷ (t ++ b'(' ∷ []))) rest
run_to_comment h c t rest p a =
    run_go (at idle h) (at input_observed (c ∷ [])) c (t ++ b'(' ∷ rest)
      (unfold next_core in ground arith)
    ∙ run_text (c ∷ []) t (b'(' ∷ rest) a
    ∙ run_go (at input_observed (c ∷ t)) (at closing_bracket_expected (c ∷ (t ++ b'(' ∷ []))) b'('
        rest (unfold next_core in refl)

run_line_end :
    (h t : Bytes) (d : ℕ) (rest : Bytes)
    → All IsPlain t
    → d ≢ b' '
    → d ≢ b'\t'
    → run (at input_observed h) (t ++ b'\r' ∷ b'\n' ∷ d ∷ rest)
      ≡ (got_header, at idle (h ++ t), d ∷ rest)
run_line_end h t d rest a x y =
    run_text h t _ a
    ∙ run_crlf (h ++ t) (d ∷ rest)
    ∙ run_leave _ (at idle (h ++ t)) d rest got_header
        (unfold next_core in ground (arith, chop-append (h ++ t) b'\r' b'\n'))

run-with_comment :
    (h : Bytes) (c : ℕ) (t comment u : Bytes) (d : ℕ) (rest : Bytes)
    → IsPlain c
    → All IsPlain t
    → All IsInside comment
    → All IsPlain u
    → d ≢ b' '
    → d ≢ b'\t'
    → run (at idle h) (c ∷ (t ++ b'(' ∷ (comment ++ b')' ∷ (u ++ b'\r' ∷ b'\n' ∷ d ∷ rest))))
      ≡ (got_header, at idle (with_comment c t comment u), d ∷ rest)
run-with_comment h c t comment u d rest p a i b x y =
    run_to_comment h c t _ p a
    ∙ run_comment (c ∷ (t ++ b'(' ∷ [])) comment (u ++ b'\r' ∷ b'\n' ∷ d ∷ rest) i
    ∙ run_line_end (c ∷ (t ++ b'(' ∷ []) ++ comment ++ b')' ∷ []) u d rest b x y
    ∙ simp append_assoc

Returns-some :
    (p : Parser) (o : Option (Event × Parser)) (e : Event) (k : Core) (s : Bytes)
    → Returns p o
    → run (core p) (unread p) ≡ (e, k, s)
    → (q : Parser) × (o ≡ some (e, q)) × (core q ≡ k) × (unread q ≡ s)
Returns-some p none e k s r h = absurd r
Returns-some p (some (e', q)) e k s (v, r) h =
    let same : (e', core q, unread q) ≡ (e, k, s) = sym r ∙ h in
    (q, ap (λ x. some (x.0, q)) same, ap (λ x. x.1) same, ap (λ x. x.2) same)

-- A header line with a comment in it: a valid parser between two lines returns the line as it
-- stands, with fuel for the unread text, and leaves unread what follows the line. The comment may
-- hold any characters but a closing bracket and a backslash, opening brackets among them: the first
-- closing bracket ends it, so the rest of the line is read as text. Outside of the comment the line
-- has no carriage return, no double quote and no opening bracket, it has a character before the
-- comment, and no blank follows it.
pub step-comment :
    (fuel : ℕ) (p : Parser) (c : ℕ) (t comment u : Bytes) (d : ℕ) (rest : Bytes)
    → IsValid p
    → p.state ≡ idle
    → unread p ≡ c ∷ (t ++ b'(' ∷ (comment ++ b')' ∷ (u ++ b'\r' ∷ b'\n' ∷ d ∷ rest)))
    → length (unread p) < fuel
    → IsPlain c
    → All IsPlain t
    → All IsInside comment
    → All IsPlain u
    → d ≢ b' '
    → d ≢ b'\t'
    → (q : Parser) × (step fuel p ≡ some (got_header, q))
      × (q.header ≡ with_comment c t comment u)
      × (q.state ≡ idle)
      × (unread q ≡ d ∷ rest)
step-comment fuel p c t comment u d rest v e text room plain a i b x y =
    let (q, f, k, s) =
      Returns-some p (step fuel p) got_header (at idle (with_comment c t comment u)) (d ∷ rest)
        (step-Returns fuel p v room)
        (ap (λ st. run (at st p.header) (unread p)) e
          ∙ ap (run (at idle p.header)) text
          ∙ run-with_comment p.header c t comment u d rest plain a i b x y) in
    (q, f, ap (λ k. k.header) k, ap (λ k. k.state) k, s)
