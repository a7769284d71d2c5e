-- ===== src/Http/Protocol/Quoting.antt =====
-- Quoted strings.
use cppcms.Http.Protocol.{quote, quote_char, quote_loop, unquote, unquote_loop}
use mathlib.Core.List.{flat_map}
use cppcms.Prelude.{
  ℕ, ◌≡◌, refl, sym, ◌∙◌, ◌≢◌, some, [], ◌∷◌, ◌++◌, append-nil, append_assoc, arith, Bytes, All,
}

quote_loop-flat_map : (s result : Bytes) → quote_loop s result ≡ result ++ flat_map quote_char s
unfolding quote_loop flat_map
quote_loop-flat_map [] result = sym (append-nil result)
quote_loop-flat_map (c ∷ s) result = simp (quote_loop-flat_map s, append_assoc)

quote-flat_map : (s : Bytes) → quote s ≡ b'"' ∷ (flat_map quote_char s ++ b'"' ∷ [])
unfolding quote
quote-flat_map s = rw quote_loop-flat_map

-- The characters that `quote` leaves readable.
abbrev pub IsQuotable : ℕ → Type 0
IsQuotable c = (c ≢ b'"') × (c ≢ b'\\')

unquote_loop-quote_char :
    (c : ℕ) (s result : Bytes)
    → IsQuotable c
    → s ≢ []
    → unquote_loop (quote_char c ++ s) result ≡ unquote_loop s (result ++ c ∷ [])
unfolding unquote_loop quote_char
unquote_loop-quote_char c [] result h ne = absurd (ne refl)
unquote_loop-quote_char c (d ∷ s) result h ne = ground arith

unquote_loop_end : (rest result : Bytes) → unquote_loop (b'"' ∷ rest) result ≡ some (result, rest)
unfolding unquote_loop
unquote_loop_end [] result = refl
unquote_loop_end (c ∷ rest) result = refl

unquote_loop-flat_map :
    (s rest result : Bytes)
    → All IsQuotable s
    → unquote_loop (flat_map quote_char s ++ b'"' ∷ rest) result ≡ some (result ++ s, rest)
unfolding flat_map
unquote_loop-flat_map [] rest result h = rw (append-nil result) (unquote_loop_end rest result)
unquote_loop-flat_map (c ∷ s) rest result (h, hs) = rw append_assoc (
    unquote_loop-quote_char c (flat_map quote_char s ++ b'"' ∷ rest) result h (ne s)
    ∙ unquote_loop-flat_map s rest (result ++ c ∷ []) hs
    ∙ rw append_assoc)
  where
    ne : (t : Bytes) → flat_map quote_char t ++ b'"' ∷ rest ≢ []
    ne [] = λ e. cc
    ne (d ∷ t) = unfold quote_char in λ e. ground arith

unquote-some :
    (s result begin : Bytes)
    → unquote_loop s [] ≡ some (result, begin)
    → unquote (b'"' ∷ s) ≡ (result, begin)
unfolding unquote
unquote-some s result begin e = rw e

-- A quoted text is read back with what follows it left over, if the text holds no quote and no
-- backslash.
pub unquote-quote : (s rest : Bytes) → All IsQuotable s → unquote (quote s ++ rest) ≡ (s, rest)
unquote-quote s rest h =
    rw (quote-flat_map, append_assoc) (unquote-some _ s rest (unquote_loop-flat_map s rest [] h))

flat_map-append_quote :
    (a b : Bytes)
    → flat_map quote_char (a ++ b'"' ∷ b) ≡ flat_map quote_char a ++ b'"' ∷ flat_map quote_char b
unfolding flat_map
flat_map-append_quote [] b = unfold quote_char in refl
flat_map-append_quote (c ∷ a) b =
    rw (flat_map-append_quote a b)
      (sym (append_assoc (quote_char c) (flat_map quote_char a) (34 ∷ flat_map quote_char b)))

-- A text with a quote in it is not read back: the quoted form ends at the first quote of the text,
-- as `quote` puts no backslash in front of it.
pub unquote-quote_cut :
    (a b rest : Bytes)
    → All IsQuotable a
    → (t : Bytes) × (unquote (quote (a ++ b'"' ∷ b) ++ rest) ≡ (a, t ++ b'"' ∷ rest))
unquote-quote_cut a b rest h = (
  flat_map quote_char b,
  rw (quote-flat_map, flat_map-append_quote, append_assoc, append_assoc)
      (unquote-some _ a _ (unquote_loop-flat_map a _ [] h)),
)
