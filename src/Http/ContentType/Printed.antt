-- ===== src/Http/ContentType/Printed.antt =====
-- A content type as a client writes it, with one parameter.
use cppcms.Prelude.{
  ℕ, ◌-◌, ◌<◌, ◌≡◌, refl, sym, ap, ◌∙◌, ◌≢◌, true, false, some, [], ◌∷◌, ◌++◌, append-nil, arith,
  Bytes, length, length-append, All, take-length-append, subst, same_iff, lookup,
}
use mathlib.Core.List.{map}
use cppcms.Http.Protocol.{
  skip_ws, tocken, token_char, separator, ascii_to_lower, quote, quote_loop, unquote,
}
use cppcms.Http.Protocol.Scanning.{skip_ws-other, skip_ws-blank}
use cppcms.Http.Protocol.Quoting.{IsQuotable, unquote-quote}
use cppcms.Http.Scanner.{some_left, word, word_to, value}
use cppcms.Http.ContentType.{parameter, parameters_loop, insert_new, media, parse, parameter_by_key}

abbrev pub IsToken : Bytes → Type 0
IsToken w = (0 < length w) × All (λ c. token_char c ≡ true) w

pub tocken-stop :
    (w : Bytes) (c : ℕ) (s : Bytes)
    → All (λ c. token_char c ≡ true) w
    → token_char c ≡ false
    → tocken (w ++ c ∷ s) ≡ c ∷ s
unfolding tocken
tocken-stop [] c s a h = rw h refl
tocken-stop (x ∷ w) c s (e, a) h = rw e (tocken-stop w c s a h)

-- A token ends at the first other character.
word-stop :
    (w : Bytes) (c : ℕ) (s : Bytes)
    → IsToken w
    → token_char c ≡ false
    → word (w ++ c ∷ s) ≡ some (w, c ∷ s)
word-stop w c s (pos, a) h = unfold word in ap (word_to (w ++ c ∷ s)) (tocken-stop w c s a h) ∙ cut
  where
    sizes : length (w ++ c ∷ s) - length (c ∷ s) ≡ length w
    sizes = omega (arith, length-append w (c ∷ s))

    cut : word_to (w ++ c ∷ s) (c ∷ s) ≡ some (w, c ∷ s)
    cut =
        unfold word_to in
        ground (arith, length-append w (c ∷ s), take-length-append w (c ∷ s), sizes)

-- No blank stands before a token.
pub skip_ws-token : (w s : Bytes) → IsToken w → skip_ws (w ++ s) ≡ w ++ s
skip_ws-token [] s (pos, a) = absurd (omega arith)
skip_ws-token (c ∷ w) s (pos, (e, a)) =
    skip_ws-other c (w ++ s) (unfold token_char separator in ground arith)
      (unfold token_char separator in ground arith)

quote_loop-starts :
    (s : Bytes) (c : ℕ) (out : Bytes) → (r : Bytes) × (quote_loop s (c ∷ out) ≡ c ∷ r)
unfolding quote_loop
quote_loop-starts [] c out = (out, refl)
quote_loop-starts (x ∷ s) c out = quote_loop-starts s c _

quote-starts : (s : Bytes) → (r : Bytes) × (quote s ≡ b'"' ∷ r)
unfolding quote
quote-starts s =
    let (r, e) = quote_loop-starts s b'"' [] in (r ++ b'"' ∷ [], ap (λ t. t ++ b'"' ∷ []) e)

value-quoted :
    (r text : Bytes) → unquote (b'"' ∷ r) ≡ (text, []) → value (b'"' ∷ r) ≡ some (text, [])
unfolding value
value-quoted r text h = rw h (ground arith)

value-quote : (s : Bytes) → All IsQuotable s → value (quote s) ≡ some (s, [])
value-quote s a =
    let (r, e) = quote-starts s in
    ap value e
    ∙ value-quoted r s (ap unquote (sym e ∙ sym (append-nil (quote s))) ∙ unquote-quote s [] a)

some_left-token : (w s : Bytes) → IsToken w → some_left (w ++ s) ≡ some (w ++ s)
some_left-token [] s (pos, a) = absurd (omega arith)
some_left-token (c ∷ w) s a = refl

some_left-quote : (s : Bytes) → some_left (quote s) ≡ some (quote s)
some_left-quote s = let (r, e) = quote-starts s in subst (λ t. some_left t ≡ some t) (sym e) refl

skip_ws-quote : (s : Bytes) → skip_ws (quote s) ≡ quote s
skip_ws-quote s =
    let (r, e) = quote-starts s in
    subst (λ t. skip_ws t ≡ t) (sym e) (skip_ws-other b'"' r refl refl)

skip_ws-char : (c : ℕ) (s : Bytes) → c ≢ b' ' → c ≢ b'\t' → c ≢ b'\r' → skip_ws (c ∷ s) ≡ c ∷ s
skip_ws-char c s a b d = skip_ws-other c s (ground arith) (ground arith)

-- A content type with one parameter.
unfoldable pub printed : Bytes → Bytes → Bytes → Bytes → Bytes
printed type subtype name text =
    type ++ b'/' ∷ (subtype ++ b';' ∷ b' ' ∷ (name ++ b'=' ∷ quote text))

module _ (type subtype name text : Bytes) (a : IsToken type) (b : IsToken subtype)
    (c : IsToken name) (q : All IsQuotable text) where
  abbrev behind : Bytes
  behind = b';' ∷ b' ' ∷ (name ++ b'=' ∷ quote text)

  media-printed :
      media (printed type subtype name text)
      ≡ some (map ascii_to_lower type, map ascii_to_lower subtype, behind)
  unfolding media printed
  media-printed =
      rw
        (
          skip_ws-token type (b'/' ∷ (subtype ++ behind)) a,
          some_left-token type (b'/' ∷ (subtype ++ behind)) a,
          word-stop type b'/' (subtype ++ behind) a (unfold token_char separator in refl),
          word-stop subtype b';' (b' ' ∷ (name ++ b'=' ∷ quote text)) b
              (unfold token_char separator in refl),
        )
        refl

  parameter-printed : parameter behind ≡ some (map ascii_to_lower name, text, [])
  unfolding parameter
  parameter-printed =
      rw
        (
          skip_ws-char b';' (b' ' ∷ (name ++ b'=' ∷ quote text)) (omega arith) (omega arith)
              (omega arith),
          skip_ws-blank b' ' (name ++ b'=' ∷ quote text) refl,
          skip_ws-token name (b'=' ∷ quote text) c,
          some_left-token name (b'=' ∷ quote text) c,
          word-stop name b'=' (quote text) c (unfold token_char separator in refl),
          skip_ws-char b'=' (quote text) (omega arith) (omega arith) (omega arith),
          skip_ws-quote text,
          some_left-quote text,
          value-quote text q,
        )
        refl

  loop-printed : parameters_loop (length behind) behind [] ≡ (map ascii_to_lower name, text) ∷ []
  unfolding parameters_loop insert_new lookup
  loop-printed = rw (parameter-printed, parameters_loop) refl

  -- A content type with one quoted parameter is read back: the media type and the name of the
  -- parameter in lower case, and the value as it was. The type, the subtype and the name are tokens,
  -- and the value has no quote and no backslash.
  pub parse-printed :
      ((parse (printed type subtype name text)).media_type
        ≡ map ascii_to_lower type ++ b'/' ∷ map ascii_to_lower subtype)
      × (parameter_by_key (map ascii_to_lower name) (parse (printed type subtype name text)) ≡ text)
  parse-printed = (
    ap (λ p. p.media_type) whole,
    ap (parameter_by_key (map ascii_to_lower name)) whole
        ∙ (unfold parameter_by_key lookup in
            ground (arith, same_iff (map ascii_to_lower name) (map ascii_to_lower name))),
  )
    where
      whole : parse (printed type subtype name text) ≡ record {
        type = map ascii_to_lower type;
        subtype = map ascii_to_lower subtype;
        media_type = map ascii_to_lower type ++ b'/' ∷ map ascii_to_lower subtype;
        parameters = (map ascii_to_lower name, text) ∷ [];
      }
      whole = unfold parse in rw (media-printed, parse) (rw loop-printed refl)
