-- ===== src/Xss/Uri/Reference.antt =====
-- src/xss.cpp: uri_parser from `hier_part` up, and uri_validator_functor. The match of a scheme
-- with booster::regex is a parameter.
use cppcms.Prelude.{
  ℕ, Bool, true, false, not, ◌&&◌, ◌||◌, Option, none, some, [], ◌∷◌, ◌==◌, if◌then◌else◌, Bytes,
  codes, length,
}
use cppcms.Xss.Uri.{
  Parser, saved, optional, follows, follows_text, authority, path_abempty, path_absolute,
  path_rootless, relative_ref, query_and_fragment, is_alapha, is_digit, ◌andthen◌, ◌orelse◌,
}

unfoldable pub hier_part : Parser
unfolding follows_text saved optional authority path_abempty path_absolute path_rootless ◌andthen◌
    ◌orelse◌
hier_part s =
    if (follows_text (codes "//") s).0
    then saved (follows_text (codes "//") andthen authority andthen path_abempty) s
    else optional (path_absolute orelse path_rootless) s

abbrev pub is_scheme_char : ℕ → Bool
is_scheme_char c = is_alapha c || is_digit c || c == b'+' || c == b'-' || c == b'.'

-- The characters of a scheme, and what follows.
unfoldable pub scheme_chars : Bytes → Bytes × Bytes
scheme_chars [] = ([], [])
scheme_chars (c ∷ s) =
    let rest = scheme_chars s in if is_scheme_char c then (c ∷ rest.0, rest.1) else ([], c ∷ s)

-- The text from `scheme_start_` to `scheme_end_`, and what follows; none when it returns false.
unfoldable pub scheme : Bytes → Option (Bytes × Bytes)
unfolding scheme_chars
scheme [] = none
scheme (c ∷ s) = if is_alapha c then some (c ∷ (scheme_chars s).0, (scheme_chars s).1) else none

-- What `uri` parses behind the scheme.
unfoldable pub behind_scheme : Parser
unfolding follows hier_part query_and_fragment ◌andthen◌
behind_scheme = follows b':' andthen hier_part andthen query_and_fragment

-- What a parse leaves: the result, the text from `begin_` on, `is_relative_`, and the text from
-- `scheme_start_` to `scheme_end_`, which is empty where they are null.
pub record Parsed : Type 0 where
  pub result : Bool
  pub rest : Bytes
  pub is_relative : Bool
  pub scheme_text : Bytes

-- What `uri` does with the scheme: a failure goes back to the start, but the scheme stays.
unfoldable pub after_scheme : Bytes → Option (Bytes × Bytes) → Parsed
unfolding behind_scheme
after_scheme s none = record { result = false; rest = s; is_relative = false; scheme_text = [] }
after_scheme s (some (name, rest)) = record {
  result = (behind_scheme rest).0;
  rest = if (behind_scheme rest).0 then (behind_scheme rest).1 else s;
  is_relative = false;
  scheme_text = name;
}

unfoldable pub uri : Bytes → Parsed
unfolding scheme after_scheme
uri s = after_scheme s (scheme s)

-- `uri() || (is_relative_ = relative_ref())!=false`, behind `uri()`.
unfoldable pub or_relative : Parsed → Parsed
unfolding relative_ref
or_relative u = if u.result then u else record {
  result = (relative_ref u.rest).0;
  rest = (relative_ref u.rest).1;
  is_relative = (relative_ref u.rest).0;
  scheme_text = u.scheme_text;
}

unfoldable pub uri_reference : Bytes → Parsed
unfolding uri or_relative
uri_reference s = or_relative (uri s)

-- `parse()` and `parse_full()`, which are the same: the result says whether all of the text is
-- a reference.
unfoldable pub parse : Bytes → Parsed
unfolding uri_reference
parse s = let p = uri_reference s in record p { result = p.result && length p.rest == 0 }

-- uri_validator_functor::uri_type
pub data UriType : Type 0 where
  both relative full : UriType

module _ (regex_match : Bytes → Bool) where
  unfoldable pub accept : UriType → Parsed → Bool
  accept UriType.both p =
      if p.result then (if not p.is_relative then regex_match p.scheme_text else true) else false
  accept UriType.relative p = if p.result then p.is_relative else false
  accept UriType.full p = if p.result then regex_match p.scheme_text else false

  -- `operator()(begin,end)`
  unfoldable pub uri_validator_functor : UriType → Bytes → Bool
  unfolding accept parse
  uri_validator_functor type s = accept type (parse s)
