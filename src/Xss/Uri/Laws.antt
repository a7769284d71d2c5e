-- ===== src/Xss/Uri/Laws.antt =====
-- src/xss.cpp: schemes and IPv4 addresses in the parser of URIs.
use cppcms.Xss.Uri.Reference.{Parsed}
use cppcms.Xss.Uri.Reference.{after_scheme}
use cppcms.Xss.Uri.Reference.{or_relative}
use cppcms.Xss.Uri.{fragment}
use cppcms.Xss.Uri.{path_rootless}
use cppcms.Xss.Uri.{port}
use cppcms.Xss.Uri.{path_absolute}
use cppcms.Xss.Uri.{query}
use cppcms.Xss.Uri.{userinfo}
use cppcms.Prelude.{
  ℕ, zero, suc, ◌+◌, ◌≡◌, refl, sym, ap, ◌≢◌, inl, inr, Bool, true, false, some, [], ◌∷◌, ◌++◌,
  arith, if◌then◌else◌, Bool-cases, Bytes, codes, length, All, subst,
}
use cppcms.Xss.Uri.{
  Parser, ◌andthen◌, ◌orelse◌, saved, optional, many_loop, many, one, follows, follows_text,
  octet_loop, dec_octet, ipv4addr, reg_name, host, authority, segments, path_abempty,
  query_and_fragment, is_alapha,
}
use cppcms.Xss.Uri.Reference.{
  hier_part, is_scheme_char, scheme_chars, scheme, behind_scheme, uri, uri_reference, parse,
  UriType, relative, accept, uri_validator_functor,
}

-- A parser that never returns false.
IsTotal : Parser → Type 0
IsTotal p = (s : Bytes) → (p s).0 ≡ true

many_loop-IsTotal : (fuel : ℕ) (p : Parser) → IsTotal (many_loop fuel p)
unfolding many_loop IsTotal
many_loop-IsTotal zero p s = refl
many_loop-IsTotal (suc fuel) p s = ground (arith, many_loop-IsTotal fuel p (p s).1)

many-IsTotal : (p : Parser) → IsTotal (many p)
unfolding many IsTotal
many-IsTotal p s = many_loop-IsTotal (length s + 1) p s

optional-IsTotal : (p : Parser) → IsTotal (optional p)
unfolding optional IsTotal
optional-IsTotal p s = refl

andthen-true : (p q : Parser) (s : Bytes) → (p s).0 ≡ true → IsTotal q → ((p andthen q) s).0 ≡ true
unfolding ◌andthen◌ IsTotal
andthen-true p q s hp hq = simp (hp, hq (p s).1)

andthen-IsTotal : (p q : Parser) → IsTotal p → IsTotal q → IsTotal (p andthen q)
unfolding IsTotal
andthen-IsTotal p q hp hq s = andthen-true p q s (hp s) hq

orelse-IsTotal : (p q : Parser) → IsTotal q → IsTotal (p orelse q)
unfolding ◌orelse◌ IsTotal
orelse-IsTotal p q hq s = ground (arith, hq (p s).1)

saved-true : (p : Parser) (s : Bytes) → (p s).0 ≡ true → (saved p s).0 ≡ true
unfolding saved
saved-true p s h = ground (arith, h)

saved-IsTotal : (p : Parser) → IsTotal p → IsTotal (saved p)
unfolding IsTotal
saved-IsTotal p hp s = saved-true p s (hp s)

host-IsTotal : IsTotal host
unfolding host reg_name
host-IsTotal = orelse-IsTotal ipv4addr reg_name (many-IsTotal _)

authority-IsTotal : IsTotal authority
unfolding authority
authority-IsTotal =
    andthen-IsTotal (saved ((userinfo andthen follows b'@' andthen host) orelse host))
      (optional (saved (follows b':' andthen port)))
      (saved-IsTotal _
        (orelse-IsTotal (userinfo andthen follows b'@' andthen host) host host-IsTotal))
      (optional-IsTotal (saved (follows b':' andthen port)))

path_abempty-IsTotal : IsTotal path_abempty
unfolding path_abempty segments
path_abempty-IsTotal = many-IsTotal _

query_and_fragment-IsTotal : IsTotal query_and_fragment
unfolding query_and_fragment
query_and_fragment-IsTotal =
    andthen-IsTotal (optional (saved (follows b'?' andthen query)))
      (optional (saved (follows b'#' andthen fragment)))
      (optional-IsTotal (saved (follows b'?' andthen query)))
      (optional-IsTotal (saved (follows b'#' andthen fragment)))

if_true :
    (b : Bool) (p q : Bool × Bytes)
    → (b ≡ true → p.0 ≡ true)
    → q.0 ≡ true
    → (if b then p else q).0 ≡ true
if_true true p q hp hq = hp refl
if_true false p q hp hq = hq

abbrev slashes : Parser
slashes = follows_text (codes "//")

hier_part-IsTotal : IsTotal hier_part
unfolding hier_part IsTotal
hier_part-IsTotal s =
    if_true (slashes s).0 _ _
      (λ e. saved-true (slashes andthen authority andthen path_abempty) s (
        andthen-true slashes (authority andthen path_abempty) s e
          (andthen-IsTotal authority path_abempty authority-IsTotal path_abempty-IsTotal)))
      (optional-IsTotal (path_absolute orelse path_rootless) s)

-- A scheme in front of `:` is parsed as such, and what follows is always a reference.
scheme_chars-append :
    (name rest : Bytes)
    → All (λ c. is_scheme_char c ≡ true) name
    → scheme_chars (name ++ b':' ∷ rest) ≡ (name, b':' ∷ rest)
unfolding scheme_chars
scheme_chars-append [] rest h = refl
scheme_chars-append (c ∷ name) rest (p, h) = rw (p, scheme_chars-append name rest h) refl

-- The names of schemes: a letter, then letters, digits, `+`, `-` and `.`.
abbrev pub IsScheme : Bytes → Type 0
IsScheme [] = ⊥
IsScheme (c ∷ name) = (is_alapha c ≡ true) × All (λ d. is_scheme_char d ≡ true) name

behind_scheme-true : (rest : Bytes) → (behind_scheme (b':' ∷ rest)).0 ≡ true
unfolding behind_scheme follows one
behind_scheme-true rest =
    andthen-true (follows b':') (hier_part andthen query_and_fragment) (b':' ∷ rest) refl
      (andthen-IsTotal hier_part query_and_fragment hier_part-IsTotal query_and_fragment-IsTotal)

scheme-append :
    (name rest : Bytes) → IsScheme name → scheme (name ++ b':' ∷ rest) ≡ some (name, b':' ∷ rest)
unfolding scheme
scheme-append [] rest h = absurd h
scheme-append (c ∷ name) rest (a, h) = rw (a, scheme_chars-append name rest h) refl

-- A reference that has the scheme `name`.
HasScheme : Bytes → Parsed → Type 0
HasScheme name p = (p.is_relative ≡ false) × (p.scheme_text ≡ name)

or_relative-HasScheme :
    (name : Bytes) (u : Parsed)
    → u.result ≡ true
    → HasScheme name u
    → HasScheme name (or_relative u)
unfolding or_relative HasScheme
or_relative-HasScheme name u h (a, b) = ground (arith, h, a, b)

parse-HasScheme : (name rest : Bytes) → IsScheme name → HasScheme name (parse (name ++ b':' ∷ rest))
unfolding parse uri_reference HasScheme uri after_scheme
parse-HasScheme name rest h =
    subst (λ o. HasScheme name (or_relative (after_scheme (name ++ b':' ∷ rest) o)))
      (sym (scheme-append name rest h))
      (or_relative-HasScheme name (after_scheme (name ++ b':' ∷ rest) (some (name, b':' ∷ rest)))
        (behind_scheme-true rest) (refl, refl))

accept-HasScheme :
    (m : Bytes → Bool) (type : UriType) (name : Bytes) (p : Parsed)
    → HasScheme name p
    → accept m type p ≡ true
    → (m name ≡ true) × (type ≢ relative)
unfolding accept HasScheme
accept-HasScheme m UriType.both name p (a, b) h = ground (arith, h, a, ap m b)
accept-HasScheme m UriType.relative name p (a, b) h = absurd (ground (arith, h, a))
accept-HasScheme m UriType.full name p (a, b) h = ground (arith, h, ap m b)

-- What begins with a scheme and `:` is accepted only when the scheme matches, and never where the
-- reference is to be relative.
pub uri_validator_functor-scheme :
    (regex_match : Bytes → Bool) (type : UriType) (name rest : Bytes)
    → IsScheme name
    → uri_validator_functor regex_match type (name ++ b':' ∷ rest) ≡ true
    → (regex_match name ≡ true) × (type ≢ relative)
unfolding uri_validator_functor
uri_validator_functor-scheme m type name rest h a =
    accept-HasScheme m type name _ (parse-HasScheme name rest h) a

dec_octet-stays : (s : Bytes) → (dec_octet s).1 ≡ s
unfolding dec_octet
dec_octet-stays s = ground arith

follows-false :
    (x : ℕ) (q : Parser) (s : Bytes) → (follows x s).0 ≡ false → ((follows x andthen q) s).0 ≡ false
unfolding ◌andthen◌
follows-false x q s h = ground (arith, h)

dec_octet-digit : (s : Bytes) → (dec_octet s).0 ≡ true → (follows b'.' s).0 ≡ false
unfolding dec_octet octet_loop follows one
dec_octet-digit [] h = refl
dec_octet-digit (c ∷ s) h = ground (arith, h)

dot-false : (q : Parser) (s : Bytes) → ((dec_octet andthen follows b'.' andthen q) s).0 ≡ false
unfolding ◌andthen◌
dot-false q s = elim (Bool-cases (dec_octet s).0) [
  | inr e ↦ simp e
  | inl e ↦ simp (e, dec_octet-stays s, follows-false b'.' q s (dec_octet-digit s e))
]

saved-false : (p : Parser) (s : Bytes) → (p s).0 ≡ false → (saved p s).0 ≡ false
unfolding saved
saved-false p s h = ground (arith, h)

abbrev behind_dot : Parser
behind_dot = dec_octet andthen follows b'.' andthen dec_octet andthen follows b'.' andthen dec_octet

-- The digits of an octet are read without moving on, so the dot behind them is never met and no
-- text is taken for an IPv4 address.
pub ipv4addr-false : (s : Bytes) → (ipv4addr s).0 ≡ false
unfolding ipv4addr
ipv4addr-false s =
    saved-false (dec_octet andthen follows b'.' andthen behind_dot) s (dot-false behind_dot s)
