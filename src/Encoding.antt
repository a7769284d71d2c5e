-- ===== src/Encoding.antt =====
-- src/encoding.cpp: names of encodings, the table of validators, and the filters. The conversions
-- of booster (`conv::between`) are parameters, since they call iconv or ICU.
pub mod Names
pub mod Filter
pub mod Verdict
use cppcms.Prelude.{
  ℕ, zero, suc, ◌+◌, ◌-◌, Bool, true, false, not, ◌&&◌, Option, none, some, List, [], ◌∷◌, ◌++◌,
  ltb, ◌==◌, if◌then◌else◌, within, Bytes, codes, length, take,
}
use cppcms.Charset
use cppcms.Charset.{Charset, Tester, utf8, single_byte, test}
use cppcms.Utf8.{next, illegal}

-- encodings_comparator::next on a zero-terminated name: the next letter or digit in lower case,
-- 0 at the end, and the rest of the name.
unfoldable pub next_char : Bytes → ℕ × Bytes
next_char [] = (0, [])
next_char (c ∷ s) =
    let rest = next_char s in
    if c == 0
    then (0, c ∷ s)
    else if within b'0' b'9' c
    then (c, s)
    else if within b'a' b'z' c
    then (c, s)
    else if within b'A' b'Z' c
    then ((c - b'A') + b'a', s)
    else rest

-- operator()(char const *,char const *). A round that goes on has taken a letter of the left name,
-- so one more than its length is fuel enough.
unfoldable pub less_loop : ℕ → Bytes → Bytes → Bool
less_loop zero l r = false
less_loop (suc fuel) l r =
    let rest = less_loop fuel (next_char l).1 (next_char r).1 in
    if ltb (next_char l).0 (next_char r).0
    then true
    else if ltb (next_char r).0 (next_char l).0
    then false
    else if (next_char l).0 == 0
    then false
    else rest

unfoldable pub less : Bytes → Bytes → Bool
unfolding less_loop next_char
less l r = less_loop (length l + 1) l r

-- The test of `is_utf8` at any name: neither is less than the other.
unfoldable pub equivalent : Bytes → Bytes → Bool
unfolding less
equivalent a b = not (less a b) && not (less b a)

unfoldable pub is_utf8 : Bytes → Bool
unfolding equivalent
is_utf8 name = equivalent name (codes "utf8")

-- The entries that the constructor of validators_set puts into `predefined_`.
abbrev pub predefined : List (Bytes × Tester)
predefined =
    (codes "latin1", single_byte Charset.iso_8859_1)
    ∷ (codes "iso88591", single_byte Charset.iso_8859_1)
    ∷ (codes "iso88592", single_byte Charset.iso_8859_1)
    ∷ (codes "iso88594", single_byte Charset.iso_8859_1)
    ∷ (codes "iso88595", single_byte Charset.iso_8859_1)
    ∷ (codes "iso88599", single_byte Charset.iso_8859_1)
    ∷ (codes "iso885910", single_byte Charset.iso_8859_1)
    ∷ (codes "iso885913", single_byte Charset.iso_8859_1)
    ∷ (codes "iso885914", single_byte Charset.iso_8859_1)
    ∷ (codes "iso885915", single_byte Charset.iso_8859_1)
    ∷ (codes "iso885916", single_byte Charset.iso_8859_1)
    ∷ (codes "iso88593", single_byte Charset.iso_8859_3)
    ∷ (codes "iso88596", single_byte Charset.iso_8859_6)
    ∷ (codes "iso88597", single_byte Charset.iso_8859_7)
    ∷ (codes "iso88598", single_byte Charset.iso_8859_8)
    ∷ (codes "iso885911", single_byte Charset.iso_8859_11)
    ∷ (codes "windows1250", single_byte Charset.windows_1250)
    ∷ (codes "windows1251", single_byte Charset.windows_1251)
    ∷ (codes "windows1252", single_byte Charset.windows_1252)
    ∷ (codes "windows1253", single_byte Charset.windows_1253)
    ∷ (codes "windows1255", single_byte Charset.windows_1255)
    ∷ (codes "windows1256", single_byte Charset.windows_1256)
    ∷ (codes "windows1257", single_byte Charset.windows_1257)
    ∷ (codes "windows1258", single_byte Charset.windows_1258)
    ∷ (codes "cp1250", single_byte Charset.windows_1250)
    ∷ (codes "cp1251", single_byte Charset.windows_1251)
    ∷ (codes "cp1252", single_byte Charset.windows_1252)
    ∷ (codes "cp1253", single_byte Charset.windows_1253)
    ∷ (codes "cp1255", single_byte Charset.windows_1255)
    ∷ (codes "cp1256", single_byte Charset.windows_1256)
    ∷ (codes "cp1257", single_byte Charset.windows_1257)
    ∷ (codes "cp1258", single_byte Charset.windows_1258)
    ∷ (codes "koi8r", single_byte Charset.koi8)
    ∷ (codes "koi8u", single_byte Charset.koi8)
    ∷ (codes "utf8", utf8)
    ∷ (codes "ascii", single_byte Charset.ascii)
    ∷ (codes "usascii", single_byte Charset.ascii)
    ∷ []

-- `std::map::find`: the entry whose key is equivalent to the name.
unfoldable pub find : List (Bytes × Tester) → Bytes → Option Tester
find [] name = none
find ((k, t) ∷ m) name = if equivalent k name then some t else find m name

unfoldable pub get : Bytes → Option Tester
unfolding find
get name = find predefined name

unfoldable pub is_ascii_compatible : Bytes → Bool
unfolding get
is_ascii_compatible name = elim (get name) [ none ↦ false | some t ↦ true ]

-- `append(prev,ptr)` and `if(replace) output+=replace`.
abbrev pub between_ptrs : Bytes → Bytes → Bytes
between_ptrs prev ptr = take (length prev - length ptr) prev

abbrev pub replacement : ℕ → Bytes
replacement replace = if replace == 0 then [] else replace ∷ []

-- The first loop of validate_or_filter_utf8: whether the text is valid, `[begin,prev)` and the
-- range from `prev` on. Each round takes a byte at least.
unfoldable pub first_illegal : ℕ → Bytes → Bytes → Bool × Bytes × Bytes
unfolding next
first_illegal fuel [] out = (true, out, [])
first_illegal zero (c ∷ s) out = (false, out, c ∷ s)
first_illegal (suc fuel) (c ∷ s) out =
    let ptr = (next true (c ∷ s)).1 in
    let rest = first_illegal fuel ptr (out ++ between_ptrs (c ∷ s) ptr) in
    if (next true (c ∷ s)).0 == illegal then (false, out, c ∷ s) else rest

-- The second loop.
unfoldable pub filter_loop : ℕ → ℕ → Bytes → Bytes → Bytes
unfolding next
filter_loop fuel replace [] out = out
filter_loop zero replace (c ∷ s) out = out
filter_loop (suc fuel) replace (c ∷ s) out =
    let ptr = (next true (c ∷ s)).1 in
    let kept = filter_loop fuel replace ptr (out ++ between_ptrs (c ∷ s) ptr) in
    let skip_byte = filter_loop fuel replace s (out ++ replacement replace) in
    let skip_char = filter_loop fuel replace (next false (c ∷ s)).1 (out ++ replacement replace) in
    if not ((next true (c ∷ s)).0 == illegal)
    then kept
    else if (next false (c ∷ s)).0 == illegal
    then skip_byte
    else skip_char

-- The result and `output`, which a valid text leaves alone.
unfoldable pub validate_or_filter_utf8 : Bytes → Bytes → ℕ → Bool × Bytes
unfolding first_illegal filter_loop
validate_or_filter_utf8 s output replace =
    let scanned = first_illegal (length s) s [] in
    if scanned.0
    then (true, output)
    else (false, filter_loop (length scanned.2) replace scanned.2 scanned.1)

-- The loop of validate_or_filter_single_byte_charset.
unfoldable pub filter_bytes : Tester → ℕ → Bytes → Bytes → Bytes
filter_bytes tester repl [] out = out
filter_bytes tester repl (c ∷ s) out = filter_bytes tester repl s (
    if (test tester (c ∷ []) 0).0
    then out ++ c ∷ []
    else if not (repl == 0)
    then out ++ repl ∷ []
    else out)

unfoldable pub validate_or_filter_single_byte_charset : Tester → Bytes → Bytes → ℕ → Bool × Bytes
unfolding filter_bytes
validate_or_filter_single_byte_charset tester s output repl =
    if (test tester s 0).0 then (true, output) else (false, filter_bytes tester repl s [])

-- `conv::between(text,to,from)` of booster, with `stop` and with `skip`. An exception is `none`: of
-- `stop` for a text that cannot be converted, of both for an encoding that is not known.
pub record Conversion : Type 0 where
  pub stop : Bytes → Bytes → Bytes → Option Bytes
  pub skip : Bytes → Bytes → Bytes → Option Bytes

module _ (conv : Conversion) where
  -- valid(encoding,begin,end,count). The table has "utf8", to which "utf-8" is equivalent.
  unfoldable pub valid : Bytes → Bytes → ℕ → Bool × ℕ
  unfolding get
  valid encoding s count = elim (get encoding) [
    | some tester ↦ test tester s count
    | none ↦ elim (conv.stop s (codes "UTF-8") encoding) [
      | none ↦ (false, count)
      | some utf8_string ↦ test utf8 utf8_string count
    ]
  ]

  -- `tmp_out` behind the filter of a text in UTF-8.
  unfoldable pub filtered_utf8 : Bytes → Bytes
  unfolding validate_or_filter_utf8
  filtered_utf8 utf8_string =
      let filtered = validate_or_filter_utf8 utf8_string [] 0 in
      if filtered.0 then utf8_string else filtered.1

  -- The last part of validate_or_filter: the text in UTF-8 is filtered and converted back.
  unfoldable pub filter_converted : Bytes → Bytes → Option (Bool × Bytes)
  unfolding filtered_utf8
  filter_converted encoding s = elim (conv.skip s (codes "UTF-8") encoding) [
    | none ↦ none
    | some utf8_string ↦ elim (conv.skip (filtered_utf8 utf8_string) encoding (codes "UTF-8")) [
      | none ↦ none
      | some output ↦ some (false, output)
    ]
  ]

  -- The result and `output`; `none` is an exception.
  unfoldable pub validate_or_filter : Bytes → Bytes → Bytes → ℕ → Option (Bool × Bytes)
  unfolding is_utf8 get valid filter_converted validate_or_filter_single_byte_charset
  validate_or_filter encoding s output replace =
      if is_utf8 encoding
      then some (validate_or_filter_utf8 s output replace)
      else elim (get encoding) [
        | some tester ↦ some (validate_or_filter_single_byte_charset tester s output replace)
        | none ↦ if (valid encoding s 0).0 then some (true, output) else filter_converted encoding s
      ]
