-- ===== src/Http/PartHeader.antt =====
-- private/multipart_parser.h: process_header, which reads the header of a part into the file.
use cppcms.Prelude.{
  ℕ, zero, suc, Bool, true, false, not, ◌&&◌, Option, none, some, [], ◌∷◌, ◌==◌, if◌then◌else◌,
  Bytes, codes, length, same,
}
use mathlib.Core.List.{map}
use cppcms.Http.Protocol.{skip_ws, tocken, ascii_to_lower}
use cppcms.Http.Scanner.{◌>>=◌, expect, some_left, assign, word, value, same_name}
use cppcms.Http.ContentType.{parse}

-- The parts of http::file that the parser sets.
pub record File : Type 0 where
  pub name : Bytes
  pub filename : Bytes
  pub mime : Bytes
  pub content : Bytes

abbrev pub new_file : File
new_file = record { name = []; filename = []; mime = []; content = [] }

-- parse_pair: name, value and `p` where it is moved.
unfoldable pub parse_pair : Bytes → Option (Bytes × Bytes × Bytes)
unfolding skip_ws word value
parse_pair p = do
  semicolon ← expect b';' p
  start ← some_left (skip_ws semicolon)
  (name, end) ← word start
  equals ← expect b'=' end
  quoted ← some_left (skip_ws equals)
  (text, rest) ← value quoted
  some (name, text, rest)

unfoldable pub set_field : Bytes → Bytes → File → File
unfolding same
set_field name text file =
    if same name (codes "filename")
    then record file { filename = text }
    else if same name (codes "name")
    then record file { name = text }
    else file

-- The loop of parse_content_disposition; each round takes a character at least.
unfoldable pub disposition_loop : ℕ → Bytes → File → Bool × File
unfolding parse_pair set_field skip_ws
disposition_loop fuel [] file = (true, file)
disposition_loop zero (c ∷ s) file = (false, file)
disposition_loop (suc fuel) (c ∷ s) file = elim (parse_pair (c ∷ s)) [
  | none ↦ (false, file)
  | some (name, text, rest) ↦
      disposition_loop fuel (skip_ws rest) (set_field (map ascii_to_lower name) text file)
]

unfoldable pub parse_content_disposition : Bytes → File → Bool × File
unfolding disposition_loop
parse_content_disposition p file = disposition_loop (length p) (skip_ws p) file

-- `hdr.find("\r\n",pos)`: the text before it and behind it.
unfoldable pub find_crlf : Bytes → Option (Bytes × Bytes)
find_crlf [] = none
find_crlf (c ∷ []) = none
find_crlf (c ∷ d ∷ s) =
    let rest = find_crlf (d ∷ s) in
    if c == b'\r' && d == b'\n'
    then some ([], s)
    else elim rest [ none ↦ none | some (one_header, behind) ↦ some (c ∷ one_header, behind) ]

-- The value of a header behind its name and the colon.
unfoldable pub header_value : Bytes → Bytes → File → Bool × File
unfolding same_name parse_content_disposition parse
header_value header_name p file =
    if same_name header_name (codes "Content-Disposition")
    then if not (same_name (assign p (tocken p)) (codes "form-data"))
      then (false, file)
      else parse_content_disposition (tocken p) file
    else if same_name header_name (codes "Content-Type")
    then (true, record file { mime = (parse p).media_type })
    else (true, file)

unfoldable pub one_header : Bytes → File → Bool × File
unfolding header_value skip_ws tocken
one_header line file =
    let start = skip_ws line in
    elim (expect b':' (skip_ws (tocken start))) [
      | none ↦ (false, file)
      | some p ↦ header_value (assign start (tocken start)) (skip_ws p) file
    ]

-- The loop of process_header; each round takes a character at least.
unfoldable pub header_loop : ℕ → Bytes → File → Bool × File
unfolding find_crlf one_header
header_loop fuel [] file = (false, file)
header_loop zero (c ∷ s) file = (false, file)
header_loop (suc fuel) (c ∷ s) file = elim (find_crlf (c ∷ s)) [
  | none ↦ (false, file)
  | some (line, rest) ↦
      let done = one_header line file in
      let next = header_loop fuel rest done.1 in
      if length line == 0 then (true, file) else if done.0 then next else done
]

unfoldable pub process_header : Bytes → File → Bool × File
unfolding header_loop
process_header hdr file = header_loop (length hdr) hdr file
