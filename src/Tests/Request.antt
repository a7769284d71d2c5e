-- ===== src/Tests/Request.antt =====
-- Forms and cookies of a few pairs.
use cppcms.Prelude.{ℕ, ◌≡◌, refl, true, false, List, [], ◌∷◌, arith, Bytes, codes, lookup}
use cppcms.Http.Protocol.{token_char, separator}
use cppcms.Http.Form.{parse_form_urlencoded}
use cppcms.Http.Form.RoundTrip.{form, parse_form_urlencoded-form}
use cppcms.Http.Cookies.{parse_cookies}
use cppcms.Http.Cookies.RoundTrip.{header, expected, parse_cookies-header}
use cppcms.Http.ContentType.Printed.{IsToken}

abbrev search : List (Bytes × Bytes)
search = (codes "q", codes "a&b = c") ∷ (codes "page", []) ∷ []

parse_form_urlencoded-form_example : parse_form_urlencoded (form search) ≡ (true, search)
parse_form_urlencoded-form_example =
    parse_form_urlencoded-form search
      ((omega arith, omega arith, omega arith), ((omega arith, tt, omega arith), tt))

-- A text without a name is refused.
no_name : parse_form_urlencoded (codes "=1") ≡ (false, [])
unfolding parse_form_urlencoded
no_name = refl

abbrev two : List (Bytes × Bytes)
two = (codes "a", codes "1") ∷ (codes "b", codes "2") ∷ []

one_char : (c : ℕ) → token_char c ≡ true → IsToken (c ∷ [])
one_char c e = (omega arith, (e, tt))

parse_cookies-header_example :
    lookup (codes "b") (parse_cookies (header two)) ≡ expected (codes "b") (lookup (codes "b") two)
parse_cookies-header_example = parse_cookies-header (codes "b") two (
  (
    (one_char b'a' (unfold token_char separator in refl), λ e. ground arith),
    one_char b'1' (unfold token_char separator in refl),
  ),
  (
    (
      (one_char b'b' (unfold token_char separator in refl), λ e. ground arith),
      one_char b'2' (unfold token_char separator in refl),
    ),
    tt,
  ),
)
