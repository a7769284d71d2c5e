-- ===== src/Html.antt =====
-- src/util.cpp: `escape` for HTML text.
pub mod Laws
use cppcms.Prelude.{
  ℕ, ◌-◌, Bool, true, false, [], ◌∷◌, ◌++◌, leb, ◌==◌, if◌then◌else◌, Bytes, codes, length, take,
}

-- What the switch appends for one character.
unfoldable pub escape_char : ℕ → Bytes
escape_char c =
    if c == b'<'
    then codes "&lt;"
    else if c == b'>'
    then codes "&gt;"
    else if c == b'&'
    then codes "&amp;"
    else if c == b'"'
    then codes "&quot;"
    else if c == 39
    then codes "&#39;"
    else c ∷ []

unfoldable pub escape_loop : Bytes → Bytes → Bytes
escape_loop [] content = content
escape_loop (c ∷ s) content = escape_loop s (content ++ escape_char c)

-- `escape(std::string const &)`
unfoldable pub escape : Bytes → Bytes
unfolding escape_loop escape_char
escape s = escape_loop s []

-- `escape(char const *,char const *,std::streambuf &)` into a buffer that takes `room` more bytes:
-- the result 0 or -1 as true or false, and the bytes that the buffer took. `sputn` of a string
-- that does not fit takes what there is room for.
unfoldable pub escape_to : ℕ → Bytes → Bytes → Bool × Bytes
escape_to room [] output = (true, output)
escape_to room (c ∷ s) output =
    let rest = escape_to (room - length (escape_char c)) s (output ++ escape_char c) in
    if leb (length (escape_char c)) room then rest else (false, output ++ take room (escape_char c))
