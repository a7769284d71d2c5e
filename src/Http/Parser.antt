-- ===== src/Http/Parser.antt =====
-- private/http_parser.h: the parser that cuts a header block into logical lines. The model reads
-- from the body vector, as the constructor with `body` and `body_ptr` sets it up.
pub mod Machine
pub mod Refines
pub mod Lines
use cppcms.Prelude.{
  ℕ, zero, suc, ◌+◌, ◌-◌, ◌%◌, ◌^◌, not, ◌||◌, Option, none, some, [], ◌∷◌, ◌++◌, ltb, leb, ◌==◌,
  if◌then◌else◌, Bytes, length, take, drop, get_elem?,
}

pub data State : Type 0 where
  idle input_observed last_lf_exptected lf_exptected space_or_other_exptected : State
  quote_expected pass_quote_exptected : State
  closing_bracket_expected pass_closing_bracket_expected : State

-- `body_` with the unsigned `body_ptr_`, and the stack `ungot_`, whose top is the head of the list.
pub record Parser : Type 0 where
  pub state : State
  pub bracket_counter : ℕ
  pub body : Bytes
  pub body_ptr : ℕ
  pub ungot : Bytes
  pub header : Bytes

-- parser(body,body_ptr)
unfoldable pub init : Bytes → ℕ → Parser
init body body_ptr = record {
  state = idle;
  bracket_counter = 0;
  body = body;
  body_ptr = body_ptr;
  ungot = [];
  header = [];
}

unfoldable pub reset : Parser → Parser
reset p = record p { state = idle; bracket_counter = 0; header = [] }

-- `none` stands for -1.
unfoldable pub getc_from : Bytes → Parser → Option ℕ × Parser
getc_from (r ∷ ungot) p = (some r, record p { ungot = ungot })
getc_from [] p = elim (get_elem? p.body p.body_ptr) [
  | some c ↦ (some c, record p { body_ptr = (p.body_ptr + 1) % 2 ^ 32 })
  | none ↦ (none, record p { body = []; body_ptr = 0 })
]

unfoldable pub getc : Parser → Option ℕ × Parser
unfolding getc_from
getc p = getc_from p.ungot p

unfoldable pub ungetc : ℕ → Parser → Parser
ungetc c p =
    if ltb 0 p.body_ptr
    then record p { body_ptr = p.body_ptr - 1 }
    else record p { ungot = c ∷ p.ungot }

pub data Event : Type 0 where
  more_data got_header end_of_headers error_observerd : Event

-- What a round of the loop does: go on, or return.
pub data Round : Type 0 where
  go_on : Parser → Round
  return : Event → Parser → Round

-- `header_+=char(c)`, behind the switch.
abbrev append : ℕ → Parser → Parser
append c p = record p { header = p.header ++ c ∷ [] }

-- `header_.resize(header_.size() - 2)`
abbrev pub chop : Bytes → Bytes
chop header = take (length header - 2) header

abbrev enter : State → Parser → Parser
enter st p = record p { state = st }

-- `bracket_counter_++` and `bracket_counter_--`, of an unsigned too.
abbrev pub incr : ℕ → ℕ
incr n = (n + 1) % 2 ^ 32

abbrev pub decr : ℕ → ℕ
decr n = (n + (2 ^ 32 - 1)) % 2 ^ 32

-- The switch that the states idle and input_observed share, but for the state that `\r` leads to.
unfoldable pub on_text : State → ℕ → Parser → Parser
on_text after_cr c p =
    if c == b'\r'
    then enter after_cr p
    else if c == b'"'
    then enter quote_expected p
    else if c == b'('
    then record p { state = closing_bracket_expected; bracket_counter = incr p.bracket_counter }
    else enter input_observed p

unfoldable pub on_closing : ℕ → Parser → Parser
on_closing c p =
    let n = decr p.bracket_counter in
    if c == b')'
    then record p {
      bracket_counter = n;
      state = if n == 0 then input_observed else closing_bracket_expected;
    }
    else if c == b'\\'
    then enter pass_closing_bracket_expected p
    else enter closing_bracket_expected p

-- The switch on the state, for the character `c`.
unfoldable pub on_char : State → ℕ → Parser → Round
unfolding on_text on_closing ungetc
on_char idle c p = go_on (append c (on_text last_lf_exptected c (record p { header = [] })))
on_char last_lf_exptected c p =
    if not (c == b'\n')
    then return error_observerd p
    else return end_of_headers (record p { header = [] })
on_char lf_exptected c p =
    if not (c == b'\n')
    then return error_observerd p
    else go_on (append c (enter space_or_other_exptected p))
on_char space_or_other_exptected c p =
    if c == b' ' || c == b'\t'
    then go_on (append c (record p { header = chop p.header; state = input_observed }))
    else return got_header (record (ungetc c p) { header = chop p.header; state = idle })
on_char input_observed c p = go_on (append c (on_text lf_exptected c p))
on_char quote_expected c p = go_on (
    append c (
      enter
        (if c == b'"'
          then input_observed
          else if c == b'\\'
          then pass_quote_exptected
          else quote_expected)
        p))
on_char pass_quote_exptected c p =
    if leb 127 c then return error_observerd p else go_on (append c (enter quote_expected p))
on_char closing_bracket_expected c p = go_on (append c (on_closing c p))
on_char pass_closing_bracket_expected c p =
    if leb 127 c
    then return error_observerd p
    else go_on (append c (enter closing_bracket_expected p))

-- `step()` on fuel; `none` means that the fuel ran out.
unfoldable pub step : ℕ → Parser → Option (Event × Parser)
unfolding getc on_char
step zero p = none
step (suc fuel) p = elim (getc p).0 [
  | none ↦ some (more_data, (getc p).1)
  | some c ↦ elim (on_char p.state c (getc p).1) [
    | return e q ↦ some (e, q)
    | go_on q ↦ step fuel q
  ]
]

-- The characters that the parser has yet to read. Each round reads one, so one more than their
-- number is fuel enough.
abbrev pub unread : Parser → Bytes
unread p = p.ungot ++ drop p.body_ptr p.body
