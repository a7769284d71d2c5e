-- ===== src/Encoding/Verdict.antt =====
-- src/encoding.cpp: the verdicts of the filter of an encoding and of its test.
use cppcms.Prelude.{
  ℕ, ◌≡◌, refl, sym, ap, ◌∙◌, inl, inr, Bool, true, false, none, some, arith, if◌then◌else◌,
  Bool-cases, Option-cases, Bytes,
}
use cppcms.Charset.{Tester, utf8, test}
use cppcms.Encoding.{
  Conversion, is_utf8, get, valid, filter_converted, validate_or_filter, validate_or_filter_utf8,
  validate_or_filter_single_byte_charset,
}
use cppcms.Encoding.Names.{is_utf8-get_iff}
use cppcms.Encoding.Filter.{validate_or_filter_utf8-validate}

utf8-verdict :
    (s output : Bytes) (r : ℕ) → (validate_or_filter_utf8 s output r).0 ≡ (test utf8 s 0).0
unfolding test
utf8-verdict s output r = ap (λ p. p.0) (validate_or_filter_utf8-validate s output r)

single-verdict :
    (t : Tester) (s output : Bytes) (r : ℕ)
    → (validate_or_filter_single_byte_charset t s output r).0 ≡ (test t s 0).0
unfolding validate_or_filter_single_byte_charset
single-verdict t s output r = ground arith

module _ (conv : Conversion) where
  valid-some :
      (encoding s : Bytes) (t : Tester)
      → get encoding ≡ some t
      → (valid conv encoding s 0).0 ≡ (test t s 0).0
  unfolding valid
  valid-some encoding s t e = rw (e, valid) refl

  -- For an encoding of the table, `validate_or_filter` returns, with the verdict of `valid`.
  pub validate_or_filter-get :
      (encoding s output : Bytes) (r : ℕ) (t : Tester)
      → get encoding ≡ some t
      → (res : Bool × Bytes) × (validate_or_filter conv encoding s output r ≡ some res)
        × (res.0 ≡ (valid conv encoding s 0).0)
  unfolding validate_or_filter
  validate_or_filter-get encoding s output r t e = elim (Bool-cases (is_utf8 encoding)) [
    | inl u ↦ (
      validate_or_filter_utf8 s output r,
      rw u refl,
      utf8-verdict s output r ∙ sym (valid-some encoding s utf8 ((is_utf8-get_iff encoding).0 u)),
    )
    | inr u ↦ (
      validate_or_filter_single_byte_charset t s output r,
      rw (u, e) refl,
      single-verdict t s output r ∙ sym (valid-some encoding s t e),
    )
  ]

  filter_converted-false :
      (encoding s : Bytes) (res : Bool × Bytes)
      → filter_converted conv encoding s ≡ some res
      → res.0 ≡ false
  unfolding filter_converted
  filter_converted-false encoding s res h = ground arith

  not_listed :
      (encoding s output : Bytes) (r : ℕ)
      → get encoding ≡ none
      → validate_or_filter conv encoding s output r ≡ (
          if (valid conv encoding s 0).0
          then some (true, output)
          else filter_converted conv encoding s)
  unfolding validate_or_filter
  not_listed encoding s output r e = elim (Bool-cases (is_utf8 encoding)) [
    | inl u ↦ absurd (ground (arith, (is_utf8-get_iff encoding).0 u))
    | inr u ↦ rw (u, e) refl
  ]

  -- With every encoding, what `validate_or_filter` returns is the verdict of `valid`.
  pub validate_or_filter-valid :
      (encoding s output : Bytes) (r : ℕ) (res : Bool × Bytes)
      → validate_or_filter conv encoding s output r ≡ some res
      → res.0 ≡ (valid conv encoding s 0).0
  validate_or_filter-valid encoding s output r res h = elim (Option-cases (get encoding)) [
    | inr (t, e) ↦
        let (res', f, g) = validate_or_filter-get encoding s output r t e in
        let same : some res ≡ some res' = sym h ∙ f in ground arith
    | inl e ↦
        let out = sym (not_listed encoding s output r e) ∙ h in
        ground (arith, filter_converted-false encoding s res)
  ]
