-- ===== src/Xss/Filter/Verdict.antt =====
-- src/xss.cpp: the verdicts of `validate` and of the filters, in every encoding.
use cppcms.Prelude.{
  ℕ, ◌≡◌, ◌≢◌, ◌⊎◌, refl, sym, ap, ◌∙◌, inl, inr, Bool, true, false, ◌&&◌, [], arith, ◌==◌,
  if◌then◌else◌, Bool-cases, Option-cases, Option, none, some, Bytes, length,
}
use cppcms.Xss.{Rules}
use cppcms.Encoding
use cppcms.Encoding.{Conversion, is_ascii_compatible, get}
use cppcms.Encoding.Verdict.{validate_or_filter-get}
use cppcms.Xss.Validate.{validate_text}
use cppcms.Xss.Filter.{
  FilteringMethod, filter_text, validate, utf8_name, work_encoding, filter_encoding, decode,
  decode_skipping, encode_output, validate_and_filter_if_invalid, filter,
}
use cppcms.Xss.Filter.Laws.{filter_text-validate_text}

-- Both conversions to UTF-8 throw, where one is made.
pub record Unconvertible (conv : Conversion) (r : Rules) (s : Bytes) : Type 0 where
  pub named : length r.encoding ≢ 0
  pub not_listed : is_ascii_compatible r.encoding ≡ false
  pub no_stop : conv.stop s (utf8_name conv r) r.encoding ≡ none
  pub no_skip : conv.skip s (utf8_name conv r) r.encoding ≡ none

module _ (conv : Conversion) (r : Rules) (method : FilteringMethod) where
  -- The verdict on a text that has been decoded.
  verdict : Bool × Bytes → Bool
  verdict work = work.0 && (filter_text r method work.1).0

  -- A text in an encoding of the table.
  filter_encoding-verdict :
      (repl_ch : ℕ) (s : Bytes)
      → is_ascii_compatible (work_encoding conv r) ≡ true
      → (work : Bool × Bytes) × (filter_encoding conv r repl_ch s ≡ some work)
        × (verdict work ≡ (
            if (Encoding.valid conv (work_encoding conv r) s 0).0
            then validate_text r s
            else false))
  unfolding filter_encoding verdict is_ascii_compatible
  filter_encoding-verdict repl_ch s a = elim (Option-cases (get (work_encoding conv r))) [
    | inl e ↦ absurd (ground arith)
    | inr (t, e) ↦
        let (res, f, g) = validate_or_filter-get conv (work_encoding conv r) s [] repl_ch t e in
        (
          if res.0 then (true, s) else res,
          rw (f, filter_encoding) refl,
          ground (arith, g, filter_text-validate_text r method s),
        )
  ]

  in_ascii :
      length r.encoding == 0 ≡ false
      → is_ascii_compatible r.encoding ≡ true
      → work_encoding conv r ≡ r.encoding
  unfolding work_encoding
  in_ascii e a = rw (e, a) refl

  in_utf8 :
      length r.encoding == 0 ≡ false
      → is_ascii_compatible r.encoding ≡ false
      → work_encoding conv r ≡ utf8_name conv r
  unfolding work_encoding
  in_utf8 e a = rw (e, a) refl

  utf8_name_listed : is_ascii_compatible (utf8_name conv r) ≡ true
  unfolding is_ascii_compatible get Encoding.equivalent
  utf8_name_listed = refl

  abbrev Decoded : Bytes → Option (Bool × Bytes) → Type 0
  Decoded s (some work) = verdict work ≡ validate conv r s
  Decoded s none = Unconvertible conv r s × (validate conv r s ≡ false)

  validate-named :
      (s : Bytes)
      → length r.encoding == 0 ≡ false
      → is_ascii_compatible r.encoding ≡ true
      → validate conv r s
        ≡ (if (Encoding.valid conv r.encoding s 0).0 then validate_text r s else false)
  unfolding validate
  validate-named s e a = rw (e, a) refl

  validate-stop :
      (s t : Bytes)
      → length r.encoding == 0 ≡ false
      → is_ascii_compatible r.encoding ≡ false
      → conv.stop s (utf8_name conv r) r.encoding ≡ some t
      → validate conv r s
        ≡ (if (Encoding.valid conv (utf8_name conv r) t 0).0 then validate_text r t else false)
  unfolding validate
  validate-stop s t e a o = rw (e, a, o, validate) refl

  validate-no_stop :
      (s : Bytes)
      → length r.encoding == 0 ≡ false
      → is_ascii_compatible r.encoding ≡ false
      → conv.stop s (utf8_name conv r) r.encoding ≡ none
      → validate conv r s ≡ false
  unfolding validate
  validate-no_stop s e a o = rw (e, a, o, validate) refl

  filter_encoding_named :
      (name : Bytes) (repl_ch : ℕ) (s : Bytes)
      → work_encoding conv r ≡ name
      → is_ascii_compatible name ≡ true
      → (work : Bool × Bytes) × (filter_encoding conv r repl_ch s ≡ some work)
        × (verdict work ≡ (if (Encoding.valid conv name s 0).0 then validate_text r s else false))
  filter_encoding_named name repl_ch s w a =
      let (work, f, g) = filter_encoding-verdict repl_ch s (ap is_ascii_compatible w ∙ a) in
      (work, f, g ∙ ap (λ n. if (Encoding.valid conv n s 0).0 then validate_text r s else false) w)

  decode_skipping-Decoded :
      (s : Bytes)
      → length r.encoding == 0 ≡ false
      → is_ascii_compatible r.encoding ≡ false
      → conv.stop s (utf8_name conv r) r.encoding ≡ none
      → Decoded s (decode_skipping conv r s)
  unfolding decode_skipping
  decode_skipping-Decoded s e a o =
      let refused = validate-no_stop s e a o in
      elim (Option-cases (conv.skip s (utf8_name conv r) r.encoding)) [
        | inl k ↦
            rw (k, decode_skipping)
              (record { named = ground arith; not_listed = a; no_stop = o; no_skip = k }, refused)
        | inr (t, k) ↦
            let (work, f, g) =
              filter_encoding_named (utf8_name conv r) 0 t (in_utf8 e a) utf8_name_listed in
            rw (k, f, decode_skipping) (unfold verdict in sym refused)
      ]

  decode-Decoded : (repl_ch : ℕ) (s : Bytes) → Decoded s (decode conv r repl_ch s)
  unfolding decode
  decode-Decoded repl_ch s = elim (Bool-cases (length r.encoding == 0)) [
    | inl e ↦
        rw (e, decode)
          (unfold verdict validate in rw (e, validate) (filter_text-validate_text r method s))
    | inr e ↦ elim (Bool-cases (is_ascii_compatible r.encoding)) [
      | inl a ↦
          let (work, f, g) = filter_encoding_named r.encoding repl_ch s (in_ascii e a) a in
          rw (e, a, f, decode) (g ∙ sym (validate-named s e a))
      | inr a ↦ elim (Option-cases (conv.stop s (utf8_name conv r) r.encoding)) [
        | inl o ↦ rw (e, a, o, decode) (decode_skipping-Decoded s e a o)
        | inr (t, o) ↦
            let (work, f, g) =
              filter_encoding_named (utf8_name conv r) 0 t (in_utf8 e a) utf8_name_listed in
            rw (e, a, o, f, decode) (g ∙ sym (validate-stop s t e a o))
      ]
    ]
  ]

  verdict_of :
      (s output : Bytes) (repl_ch : ℕ) (o : Option (Bool × Bytes))
      → decode conv r repl_ch s ≡ o
      → Decoded s o
      → ((out : Bytes) × (validate_and_filter_if_invalid conv r s output method repl_ch
            ≡ some (validate conv r s, out))
          × (validate conv r s ≡ true → out ≡ output))
        ⊎ ((validate_and_filter_if_invalid conv r s output method repl_ch ≡ none)
            × (validate conv r s ≡ false)
            × Unconvertible conv r s)
  unfolding validate_and_filter_if_invalid
  verdict_of s output repl_ch none e (u, v) =
      inr (rw (e, validate_and_filter_if_invalid) refl, v, u)
  verdict_of s output repl_ch (some work) e h = inl (
    if verdict work then output else encode_output conv r (filter_text r method work.1).1 output,
    rw (e, validate_and_filter_if_invalid) (unfold verdict in ground (arith, h)),
    λ v. ground (arith, h),
  )

  -- With every encoding and both methods, the filter returns true for a text that `validate`
  -- accepts, whose output it leaves alone, and false for every other, or it throws. It throws for a
  -- text that `validate` refuses only, where the encoding is not one of the table and both
  -- conversions to UTF-8 throw.
  pub validate_and_filter_if_invalid-validate :
      (s output : Bytes) (repl_ch : ℕ)
      → ((out : Bytes) × (validate_and_filter_if_invalid conv r s output method repl_ch
            ≡ some (validate conv r s, out))
          × (validate conv r s ≡ true → out ≡ output))
        ⊎ ((validate_and_filter_if_invalid conv r s output method repl_ch ≡ none)
            × (validate conv r s ≡ false)
            × Unconvertible conv r s)
  validate_and_filter_if_invalid-validate s output repl_ch =
      verdict_of s output repl_ch (decode conv r repl_ch s) refl (decode-Decoded repl_ch s)

-- `filter` returns a text that `validate` accepts as it is.
pub filter-valid :
    (conv : Conversion) (r : Rules) (method : FilteringMethod) (s : Bytes) (repl_ch : ℕ)
    → validate conv r s ≡ true
    → filter conv r s method repl_ch ≡ some s
unfolding filter
filter-valid conv r method s repl_ch h =
    elim (validate_and_filter_if_invalid-validate conv r method s [] repl_ch) [
      | inl (out, e, same) ↦ rw (e, h, filter) refl
      | inr (e, refused, u) ↦ absurd (ground arith)
    ]
