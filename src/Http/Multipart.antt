-- ===== src/Http/Multipart.antt =====
-- private/multipart_parser.h: class multipart_parser. The range of `consume` is a list; what it
-- leaves of it is the third part of the result. The buffer behind a file is an argument:
-- `room d` is the number of bytes that it still takes when it holds `d`.
pub mod Search
pub mod Content
pub mod Pieces
pub mod RoundTrip
use cppcms.Prelude.{
  ℕ, ◌+◌, Bool, true, false, not, none, some, List, [], ◌∷◌, ◌++◌, ltb, ◌==◌, if◌then◌else◌, Bytes,
  codes, length, take, get_elem?,
}
use cppcms.Http.PartHeader.{File, new_file, process_header}

pub data State : Type 0 where
  expecting_first_boundary expecting_one_crlf_or_eof expecting_minus : State
  expecting_eof_cr expecting_eof_lf expecting_lf : State
  expecting_crlfcrlf expecting_separator_boundary : State

pub data Result : Type 0 where
  parsing_error meta_ready content_partial content_ready continue_input eof no_room_left : Result

pub record Parser : Type 0 where
  pub state : State
  pub file : File
  pub files : List File
  pub position : ℕ
  pub header : Bytes
  pub boundary : Bytes
  pub file_is_ready : Bool

-- multipart_parser()
unfoldable pub init : Parser
init = record {
  state = expecting_first_boundary;
  file = new_file;
  files = [];
  position = 0;
  header = [];
  boundary = [];
  file_is_ready = false;
}

-- set_content_type, for the parameter `boundary` of the content type.
unfoldable pub set_content_type : Bytes → Parser → Bool × Parser
set_content_type bkey p = if length bkey == 0 then (false, p) else (
  true,
  record p {
    boundary = codes "\r\n--" ++ bkey;
    position = 2;
    state = expecting_first_boundary;
    file = new_file;
  },
)

unfoldable pub get_files : Parser → List File × Parser
get_files p = (p.files, record p { files = [] })

unfoldable pub is_ok : Result → Bool
is_ok parsing_error = false
is_ok meta_ready = true
is_ok content_partial = true
is_ok content_ready = true
is_ok continue_input = true
is_ok eof = false
is_ok no_room_left = false

-- What one character does: the loop goes on; `return` with the buffer at the character; or
-- `return` behind a `buffer++`.
pub data Round : Type 0 where
  go_on : Parser → Round
  stop past : Result → Parser → Round

-- `c == text[position_]`, where the string ends with a zero.
unfoldable pub char_is : Bytes → ℕ → ℕ → Bool
char_is text position c = elim (get_elem? text position) [ none ↦ c == 0 | some b ↦ c == b ]

unfoldable pub expecting : ℕ → State → Parser → ℕ → Round
expecting want next p c =
    if not (c == want) then stop parsing_error p else go_on (record p { state = next })

unfoldable pub first_boundary : Parser → ℕ → Round
unfolding char_is
first_boundary p c =
    if not (char_is p.boundary p.position c)
    then stop parsing_error p
    else if p.position + 1 == length p.boundary
    then go_on (record p { state = expecting_one_crlf_or_eof; position = 0 })
    else go_on (record p { position = p.position + 1 })

-- expecting_crlfcrlf, behind `header_+=*buffer` and the step of `position_`.
unfoldable pub end_of_header : Parser → Round
unfolding process_header
end_of_header p =
    let done = process_header p.header p.file in
    if not (p.position == 4)
    then go_on p
    else if not done.0
    then stop parsing_error (record p { file = done.1 })
    else past meta_ready (record p {
      file = done.1;
      header = [];
      position = 0;
      state = expecting_separator_boundary;
      file_is_ready = true;
    })

unfoldable pub in_header : Parser → ℕ → Round
unfolding end_of_header char_is
in_header p c = end_of_header (record p {
  header = p.header ++ c ∷ [];
  position = if char_is (codes "\r\n\r\n") p.position c then p.position + 1 else 0;
})

-- The cases of the switch but for the last, with the rest of the range behind the character.
unfoldable pub on_char : Parser → ℕ → Bytes → Round
unfolding first_boundary expecting in_header
on_char p c s = elim p.state [
  | expecting_first_boundary ↦ first_boundary p c
  | expecting_one_crlf_or_eof ↦
      if c == b'\r'
      then go_on (record p { state = expecting_lf })
      else if c == b'-'
      then go_on (record p { state = expecting_minus })
      else stop parsing_error p
  | expecting_minus ↦ expecting b'-' expecting_eof_cr p c
  | expecting_eof_cr ↦ expecting b'\r' expecting_eof_lf p c
  | expecting_eof_lf ↦
      if not (c == b'\n')
      then stop parsing_error p
      else if length s == 0
      then past eof p
      else stop parsing_error p
  | expecting_lf ↦ expecting b'\n' expecting_crlfcrlf p c
  | expecting_crlfcrlf ↦ in_header p c
  | expecting_separator_boundary ↦ stop content_partial p
]

-- The end of a part: the file goes to the list, and a new one is made.
unfoldable pub finish_file : Parser → Parser
finish_file p = record p {
  state = expecting_one_crlf_or_eof;
  position = 0;
  files = p.files ++ p.file ∷ [];
  file = new_file;
  file_is_ready = false;
}

unfoldable pub in_content : State → Bool
in_content expecting_separator_boundary = true
in_content s = false

module _ (room : Bytes → ℕ) where
  -- The comparison with the boundary: whether a write was short, and the parser.
  unfoldable pub match_boundary : Parser → ℕ → Bool × Parser
  unfolding char_is
  match_boundary p c =
      if char_is p.boundary p.position c
      then (false, record p { position = p.position + 1 })
      else if ltb 0 p.position
      then (
        ltb (room p.file.content) p.position,
        record p {
          position = if char_is p.boundary 0 c then 1 else 0;
          file = record p.file {
            content = p.file.content ++ take (room p.file.content) (take p.position p.boundary);
          };
        },
      )
      else (false, p)

  -- The rest of a round, on the character.
  unfoldable pub write_char : Parser → ℕ → Round
  unfolding finish_file
  write_char p c =
      if p.position == 0
      then if room p.file.content == 0
        then stop no_room_left p
        else go_on (record p { file = record p.file { content = p.file.content ++ c ∷ [] } })
      else if p.position == length p.boundary
      then past content_ready (finish_file p)
      else go_on p

  unfoldable pub on_content : Parser → ℕ → Round
  unfolding match_boundary write_char
  on_content p c =
      let matched = match_boundary p c in
      if matched.0 then stop no_room_left matched.1 else write_char matched.1 c

  -- The loop of expecting_separator_boundary.
  unfoldable pub content : Parser → Bytes → Result × Parser × Bytes
  unfolding on_content
  content p [] = (content_partial, p, [])
  content p (c ∷ s) = elim (on_content p c) [
    | go_on q ↦ content q s
    | stop r q ↦ (r, q, c ∷ s)
    | past r q ↦ (r, q, s)
  ]

  unfoldable pub consume : Parser → Bytes → Result × Parser × Bytes
  unfolding on_char content in_content
  consume p [] = (if p.file_is_ready then content_partial else continue_input, p, [])
  consume p (c ∷ s) = if in_content p.state then content p (c ∷ s) else elim (on_char p c s) [
    | go_on q ↦ consume q s
    | stop r q ↦ (r, q, c ∷ s)
    | past r q ↦ (r, q, s)
  ]
