-- ===== src/Http/Parser/Machine.antt =====
-- The parser as a machine over the text that it reads, with no buffer and no pushing back.
use cppcms.Http.Parser.{
  State, idle, input_observed, last_lf_exptected, lf_exptected, space_or_other_exptected,
  quote_expected, pass_quote_exptected, closing_bracket_expected, pass_closing_bracket_expected,
  Event, more_data, got_header, end_of_headers, error_observerd, chop,
}
use cppcms.Prelude.{
  ℕ, ◌≡◌, refl, sym, inl, inr, ◌||◌, [], ◌∷◌, ◌++◌, leb, ◌==◌, if◌then◌else◌, Bool-cases, Bytes,
}

-- What is kept between characters. The number of open brackets shows in the state: it is 1 in the
-- two states of a bracket, and 0 elsewhere.
pub record Core : Type 0 where
  pub state : State
  pub header : Bytes

pub data Next : Type 0 where
  go_on : Core → Next
  -- the character is consumed, or stays unread
  take_it : Event → Core → Next
  leave_it : Event → Core → Next

unfoldable pub text_state : State → ℕ → State
text_state after_cr c =
    if c == b'\r'
    then after_cr
    else if c == b'"'
    then quote_expected
    else if c == b'('
    then closing_bracket_expected
    else input_observed

abbrev goes : State → Bytes → ℕ → Next
goes st header c = go_on (record { state = st; header = header ++ c ∷ [] })

unfoldable pub next_core : State → Bytes → ℕ → Next
unfolding text_state
next_core idle h c = goes (text_state last_lf_exptected c) [] c
next_core input_observed h c = goes (text_state lf_exptected c) h c
next_core last_lf_exptected h c =
    if c == b'\n'
    then take_it end_of_headers (record { state = last_lf_exptected; header = [] })
    else take_it error_observerd (record { state = last_lf_exptected; header = h })
next_core lf_exptected h c =
    if c == b'\n'
    then goes space_or_other_exptected h c
    else take_it error_observerd (record { state = lf_exptected; header = h })
next_core space_or_other_exptected h c =
    if c == b' ' || c == b'\t'
    then goes input_observed (chop h) c
    else leave_it got_header (record { state = idle; header = chop h })
next_core quote_expected h c =
    goes
      (if c == b'"'
        then input_observed
        else if c == b'\\'
        then pass_quote_exptected
        else quote_expected)
      h c
next_core pass_quote_exptected h c =
    if leb 127 c
    then take_it error_observerd (record { state = pass_quote_exptected; header = h })
    else goes quote_expected h c
next_core closing_bracket_expected h c =
    goes
      (if c == b')'
        then input_observed
        else if c == b'\\'
        then pass_closing_bracket_expected
        else closing_bracket_expected)
      h c
next_core pass_closing_bracket_expected h c =
    if leb 127 c
    then take_it error_observerd (record { state = pass_closing_bracket_expected; header = h })
    else goes closing_bracket_expected h c

-- The event, what is kept, and the text that is left.
unfoldable pub run : Core → Bytes → Event × Core × Bytes
run k [] = (more_data, k, [])
run k (c ∷ s) = elim (next_core k.state k.header c) [
  | go_on k' ↦ run k' s
  | take_it e k' ↦ (e, k', s)
  | leave_it e k' ↦ (e, k', c ∷ s)
]

-- How the answer to a part of the text is taken up when more text follows.
abbrev pub resume : Event × Core × Bytes → Bytes → Event × Core × Bytes
resume (more_data, k, s) rest = run k rest
resume (got_header, k, s) rest = (got_header, k, s ++ rest)
resume (end_of_headers, k, s) rest = (end_of_headers, k, s ++ rest)
resume (error_observerd, k, s) rest = (error_observerd, k, s ++ rest)

-- A round never returns `more_data`.
abbrev Stops : Event → Type 0
Stops more_data = ⊥
Stops _ = Unit {0}

abbrev Ends : Next → Type 0
Ends (go_on k) = Unit {0}
Ends (take_it e k) = Stops e
Ends (leave_it e k) = Stops e

next_core-Ends : (st : State) (h : Bytes) (c : ℕ) → Ends (next_core st h c)
unfolding next_core
next_core-Ends idle h c = tt
next_core-Ends input_observed h c = tt
next_core-Ends last_lf_exptected h c = elim (Bool-cases (c == b'\n')) [
  | inl a ↦ rw a tt
  | inr a ↦ rw a tt
]
next_core-Ends lf_exptected h c = elim (Bool-cases (c == b'\n')) [
  | inl a ↦ rw a tt
  | inr a ↦ rw a tt
]
next_core-Ends space_or_other_exptected h c = elim (Bool-cases (c == b' ' || c == b'\t')) [
  | inl a ↦ rw a tt
  | inr a ↦ rw a tt
]
next_core-Ends quote_expected h c = tt
next_core-Ends pass_quote_exptected h c = elim (Bool-cases (leb 127 c)) [
  | inl a ↦ rw a tt
  | inr a ↦ rw a tt
]
next_core-Ends closing_bracket_expected h c = tt
next_core-Ends pass_closing_bracket_expected h c = elim (Bool-cases (leb 127 c)) [
  | inl a ↦ rw a tt
  | inr a ↦ rw a tt
]

resume_stop : (e : Event) (k : Core) (s b : Bytes) → Stops e → resume (e, k, s) b ≡ (e, k, s ++ b)
resume_stop more_data k s b h = absurd h
resume_stop got_header k s b h = refl
resume_stop end_of_headers k s b h = refl
resume_stop error_observerd k s b h = refl

-- The machine may be given its text in pieces, cut anywhere: the answer to the whole is the answer
-- to the first piece, taken up with the rest if that piece ended in the middle of a line.
pub run-append : (k : Core) (a b : Bytes) → run k (a ++ b) ≡ resume (run k a) b
unfolding run
run-append k [] b = refl
run-append k (c ∷ a) b =
    go (next_core k.state k.header c) refl (next_core-Ends k.state k.header c)
      (λ k'. run-append k' a b)
  where
    go :
        (n : Next)
        → next_core k.state k.header c ≡ n
        → Ends (next_core k.state k.header c)
        → ((k' : Core) → run k' (a ++ b) ≡ resume (run k' a) b)
        → run k (c ∷ (a ++ b)) ≡ resume (run k (c ∷ a)) b
    go (go_on k') e x ih = rw (e, run) (ih k')
    go (take_it ev k') e x ih = rw (e, run) (sym (resume_stop ev k' a b (rw e at x)))
    go (leave_it ev k') e x ih = rw (e, run) (sym (resume_stop ev k' (c ∷ a) b (rw e at x)))

pub run_go :
    (k k' : Core) (c : ℕ) (s : Bytes)
    → next_core k.state k.header c ≡ go_on k'
    → run k (c ∷ s) ≡ run k' s
unfolding run
run_go k k' c s e = rw (e, run)

pub run_take :
    (k k' : Core) (c : ℕ) (s : Bytes) (ev : Event)
    → next_core k.state k.header c ≡ take_it ev k'
    → run k (c ∷ s) ≡ (ev, k', s)
unfolding run
run_take k k' c s ev e = rw (e, run)

pub run_leave :
    (k k' : Core) (c : ℕ) (s : Bytes) (ev : Event)
    → next_core k.state k.header c ≡ leave_it ev k'
    → run k (c ∷ s) ≡ (ev, k', c ∷ s)
unfolding run
run_leave k k' c s ev e = rw (e, run)

pub run_nil : (k : Core) → run k [] ≡ (more_data, k, [])
unfolding run
run_nil k = refl
