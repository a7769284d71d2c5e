-- ===== src/Tests/Multipart.antt =====
-- Forms with parts, and content types.
use cppcms.Prelude.{
  ℕ, ◌≡◌, refl, ◌≢◌, true, false, [], ◌∷◌, ◌++◌, arith, ◌==◌, Bytes, codes, All, same, lookup,
}
use cppcms.Http.Protocol.{ascii_to_lower}
use mathlib.Core.List.{map}
use cppcms.Http.Protocol.{token_char, separator}
use cppcms.Http.ContentType.Printed.{printed, parse-printed}
use cppcms.Http.ContentType.{parse, parameter_by_key}
use cppcms.Http.Multipart.RoundTrip.{form, calls, calls-form}
use cppcms.Http.Multipart.{
  meta_ready, eof, Parser, expecting_separator_boundary, consume, content, init, set_content_type,
  content_ready,
}
use cppcms.Http.PartHeader.{File, new_file, process_header}
use cppcms.Http.Multipart.Search.{find}
use cppcms.Http.Multipart.Content.{Agrees, content-find}
use cppcms.Http.Multipart.Pieces.{resume, consume-append, is_eof}

abbrev roomy : Bytes → ℕ
roomy d = 1000

abbrev part : Parser
part = record {
  state = expecting_separator_boundary;
  file = new_file;
  files = [];
  position = 0;
  header = [];
  boundary = codes "\r\n--x";
  file_is_ready = true;
}

content-find_example :
    Agrees part []
      (codes "a\r\r\n--x--")
      (find (codes "\r\n--x") (codes "a\r\r\n--x--"))
      (content roomy part (codes "a\r\r\n--x--"))
content-find_example =
    content-find roomy part b'\r' (codes "\n--x") (codes "a\r\r\n--x--") refl
      (refl, (refl, (refl, (refl, tt)))) (omega arith) (λ d. omega arith)

consume-append_example :
    consume roomy part (codes "ab\r\n" ++ b'-' ∷ codes "-x")
    ≡ resume roomy (consume roomy part (codes "ab\r\n")) (b'-' ∷ codes "-x")
unfolding is_eof consume
consume-append_example = consume-append roomy part (codes "ab\r\n") b'-' (codes "-x") refl

utf8_page :
    parameter_by_key (codes "charset") (parse (codes "text/html; Charset=\"utf-8\""))
    ≡ codes "utf-8"
unfolding parse parameter_by_key lookup same ascii_to_lower
utf8_page = refl

no_cr : (s : Bytes) → All (λ c. c ≢ b'\r') s → All (λ c. (c == b'\r') ≡ false) s
no_cr [] a = tt
no_cr (c ∷ s) (n, a) = (ground arith, no_cr s a)

abbrev disposition : Bytes
disposition = codes "Content-Disposition: form-data; Name=\"a\""

abbrev field : File
field = record new_file { name = codes "a" }

calls-form_example :
    calls roomy 3
      (set_content_type (codes "x") init).1
      (form (codes "x") disposition (codes "hi\r\n"))
    ≡ (meta_ready ∷ content_ready ∷ eof ∷ [], record field { content = codes "hi\r\n" } ∷ [])
unfolding process_header find
calls-form_example =
    calls-form roomy (codes "x") disposition (codes "hi\r\n") field (refl, tt)
      (no_cr disposition (omega arith)) (λ d. omega arith) refl (omega arith) refl

parse-printed_example :
    ((parse (
        printed
          (codes "Multipart")
          (codes "form-data")
          (codes "Boundary")
          (codes "x y"))).media_type
      ≡ map ascii_to_lower (codes "Multipart") ++ b'/' ∷ map ascii_to_lower (codes "form-data"))
    × (parameter_by_key
          (map ascii_to_lower (codes "Boundary"))
          (parse (printed (codes "Multipart") (codes "form-data") (codes "Boundary") (codes "x y")))
        ≡ codes "x y")
unfolding token_char separator
parse-printed_example =
    parse-printed (codes "Multipart") (codes "form-data") (codes "Boundary") (codes "x y")
      (omega arith, ground arith) (omega arith, ground arith) (omega arith, ground arith)
      (omega arith)
