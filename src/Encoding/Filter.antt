-- ===== src/Encoding/Filter.antt =====
-- What the filters leave.
use cppcms.Prelude.{
  ℕ, zero, suc, ◌+◌, ◌-◌, ◌≤◌, ◌≡◌, refl, sym, ap, ◌≢◌, ◌⊎◌, inl, inr, Bool, true, false, List, [],
  ◌∷◌, ◌++◌, append-nil, append_assoc, arith, ◌==◌, if◌then◌else◌, Bool-cases, Bytes, length,
  length-append, All, All-append, IsBytes, take-length-append, subst,
}
use cppcms.Charset.{Charset, single_byte, refuses, test}
use cppcms.Charset.Laws.{passes, test-single_byte_iff}
use cppcms.Encoding.{
  first_illegal, filter_loop, validate_or_filter_utf8, filter_bytes,
  validate_or_filter_single_byte_charset, between_ptrs, replacement,
}
use cppcms.Utf8.{next, encode, illegal, validate, validate_loop}
use cppcms.Utf8.RoundTrip.{accepts, next-IsDecoded, next-length}
use cppcms.Utf8.Validate.{encode_all, Accepted, validate_complete}

-- A replacement that is zero (no replacement) or a character that the text may hold.
abbrev IsReplacement : ℕ → Type 0
IsReplacement r = (r ≡ 0) ⊎ ((accepts true r ≡ true) × (r ≤ 0x7F))

-- A text that is the encoding of characters that HTML allows.
abbrev IsClean : Bytes → Type 0
IsClean s = (vs : List ℕ) × Accepted true vs × (s ≡ encode_all vs)

encode_all-append : (us vs : List ℕ) → encode_all (us ++ vs) ≡ encode_all us ++ encode_all vs
encode_all-append [] vs = refl
encode_all-append (u ∷ us) vs = simp (encode_all-append us, append_assoc)

IsClean-append : (s t : Bytes) → IsClean s → IsClean t → IsClean (s ++ t)
IsClean-append s t (us, au, eu) (vs, av, ev) =
    (us ++ vs, All-append _ us vs au av, rw (eu, ev) (sym (encode_all-append us vs)))

IsClean-encode : (v : ℕ) → accepts true v ≡ true → IsClean (encode v)
IsClean-encode v a = (v ∷ [], (a, tt), sym (append-nil _))

IsClean-replacement : (r : ℕ) → IsReplacement r → IsClean (replacement r)
IsClean-replacement r (inl z) = ([], tt, ground arith)
IsClean-replacement r (inr (a, small)) = elim (Bool-cases (r == 0)) [
  | inl z ↦ ([], tt, rw z)
  | inr nz ↦ (r ∷ [], (a, tt), rw nz (unfold encode in ground arith))
]

-- The bytes between two pointers are what stands in front of the second.
between_ptrs-append : (xs ys : Bytes) → between_ptrs (xs ++ ys) ys ≡ xs
between_ptrs-append xs ys =
    let e : length (xs ++ ys) - length ys ≡ length xs = omega (arith, length-append xs ys) in
    rw e (take-length-append xs ys)

-- The bytes that a successful round of `next` passes over are the character's encoding.
between_ptrs-encode :
    (s : Bytes)
    → IsBytes s
    → (next true s).0 ≢ illegal
    → between_ptrs s (next true s).1 ≡ encode (next true s).0
between_ptrs-encode s b h =
    let (_, e, _) = next-IsDecoded true s b h in
    subst (λ t. between_ptrs t (next true s).1 ≡ encode (next true s).0) (sym e)
      (between_ptrs-append (encode (next true s).0) (next true s).1)

IsClean-between_ptrs :
    (s : Bytes) → IsBytes s → (next true s).0 ≢ illegal → IsClean (between_ptrs s (next true s).1)
IsClean-between_ptrs s b h =
    rw (between_ptrs-encode s b h) (IsClean-encode _ (next-IsDecoded true s b h).0)

filter_loop-IsClean :
    (fuel r : ℕ) (s out : Bytes)
    → IsBytes s
    → IsReplacement r
    → IsClean out
    → IsClean (filter_loop fuel r s out)
unfolding filter_loop
filter_loop-IsClean fuel r [] out b hr ho = ho
filter_loop-IsClean zero r (c ∷ s) out b hr ho = ho
filter_loop-IsClean (suc fuel) r (c ∷ s) out b hr ho = elim (Bool-cases (v == illegal)) [
  | inr good ↦
      let kept = IsClean-append out _ ho (IsClean-between_ptrs (c ∷ s) b (ground arith)) in
      let rest = filter_loop-IsClean fuel r ptr _ (next-length true c s b.1).1 hr kept in
      rw good rest
  | inl bad ↦
      let replaced = IsClean-append out _ ho (IsClean-replacement r hr) in
      let by_byte = filter_loop-IsClean fuel r s _ b.1 hr replaced in
      let by_char =
        filter_loop-IsClean fuel r (next false (c ∷ s)).1 _ (next-length false c s b.1).1 hr
          replaced in
      elim (Bool-cases ((next false (c ∷ s)).0 == illegal)) [
        | inl worse ↦ rw (bad, worse) by_byte
        | inr better ↦ rw (bad, better) by_char
      ]
]
  where
    v : ℕ
    v = (next true (c ∷ s)).0

    ptr : Bytes
    ptr = (next true (c ∷ s)).1

-- Where the first loop stops: behind a clean prefix, and at the end only if all of it is clean.
record Stops (s out : Bytes) (result : Bool × Bytes × Bytes) : Type 0 where
  prefix : IsClean out → IsClean result.1
  bytes : IsBytes result.2

first_illegal-Stops :
    (fuel : ℕ) (s out : Bytes) → IsBytes s → Stops s out (first_illegal fuel s out)
unfolding first_illegal
first_illegal-Stops fuel [] out b = record { prefix = λ h. h; bytes = tt }
first_illegal-Stops zero (c ∷ s) out b = record { prefix = λ h. h; bytes = b }
first_illegal-Stops (suc fuel) (c ∷ s) out b =
    elim (Bool-cases ((next true (c ∷ s)).0 == illegal)) [
      | inl bad ↦ rw bad (record { prefix = λ h. h; bytes = b })
      | inr good ↦
          let ptr = (next true (c ∷ s)).1 in
          let later =
            first_illegal-Stops fuel ptr (out ++ between_ptrs (c ∷ s) ptr)
              (next-length true c s b.1).1 in
          unfold first_illegal in
          rw good (record {
            prefix = λ h.
                later.prefix
                  (IsClean-append out _ h (IsClean-between_ptrs (c ∷ s) b (ground arith)));
            bytes = later.bytes;
          })
    ]

-- The first loop gives the verdict of `validate`.
first_illegal-validate :
    (fuel : ℕ) (s out : Bytes) (count : ℕ)
    → (first_illegal fuel s out).0 ≡ (validate_loop fuel true s count).0
unfolding first_illegal validate_loop
first_illegal-validate fuel [] out count = refl
first_illegal-validate zero (c ∷ s) out count = refl
first_illegal-validate (suc fuel) (c ∷ s) out count = ground (
  arith,
  first_illegal-validate fuel (next true (c ∷ s)).1
      (out ++ between_ptrs (c ∷ s) (next true (c ∷ s)).1) (count + 1),
)

-- The UTF-8 filter gives the verdict of `validate`, and leaves `output` alone if that is true.
pub validate_or_filter_utf8-validate :
    (s output : Bytes) (r : ℕ)
    → validate_or_filter_utf8 s output r ≡ (
      (validate true s 0).0,
      (if (validate true s 0).0 then output else (validate_or_filter_utf8 s output r).1),
    )
unfolding validate_or_filter_utf8 validate
validate_or_filter_utf8-validate s output r =
    ground (arith, first_illegal-validate (length s) s [] 0)

-- What the UTF-8 filter leaves of a text that it refuses is valid: whatever bytes the text holds,
-- if they are replaced by nothing or by an ASCII character that HTML allows.
pub validate_or_filter_utf8-IsClean :
    (s output : Bytes) (r : ℕ)
    → IsBytes s
    → IsReplacement r
    → (validate_or_filter_utf8 s output r).0 ≡ false
    → (validate true (validate_or_filter_utf8 s output r).1 0).0 ≡ true
validate_or_filter_utf8-IsClean s output r b hr h =
    let (vs, a, e) = clean in rw e (ap (λ p. p.0) (validate_complete true vs 0 a))
  where
    stops : Stops s [] (first_illegal (length s) s [])
    stops = first_illegal-Stops (length s) s [] b

    clean : IsClean (validate_or_filter_utf8 s output r).1
    clean = elim (Bool-cases (first_illegal (length s) s []).0) [
      | inl yes' ↦ absurd (unfold validate_or_filter_utf8 in ground arith)
      | inr no' ↦
          unfold validate_or_filter_utf8 in
          rw no' (filter_loop-IsClean _ r _ _ stops.bytes hr (stops.prefix ([], tt, refl)))
    ]

-- What the filter of a single-byte charset leaves.
filter_bytes-passes :
    (cs : Charset) (r : ℕ) (s out : Bytes)
    → (r ≡ 0) ⊎ (passes (refuses cs) r ≡ true)
    → All (λ c. passes (refuses cs) c ≡ true) out
    → All (λ c. passes (refuses cs) c ≡ true) (filter_bytes (single_byte cs) r s out)
unfolding filter_bytes
filter_bytes-passes cs r [] out hr ho = ho
filter_bytes-passes cs r (c ∷ s) out hr ho =
    filter_bytes-passes cs r s _ hr (elim (Bool-cases (test (single_byte cs) (c ∷ []) 0).0) [
      | inl good ↦
          rw good (All-append _ out (c ∷ []) ho ((test-single_byte_iff cs (c ∷ []) 0).0 good))
      | inr bad ↦ rw bad (elim (Bool-cases (r == 0)) [
        | inl z ↦ rw z ho
        | inr nz ↦ rw nz (All-append _ out (r ∷ []) ho (ground arith, tt))
      ])
    ])

-- What the filter of a single-byte charset leaves of a text that it refuses is valid in the
-- charset, if the replacement is (or is zero, for none).
pub filter_single_byte_valid :
    (cs : Charset) (s output : Bytes) (r : ℕ)
    → (r ≡ 0) ⊎ (passes (refuses cs) r ≡ true)
    → (validate_or_filter_single_byte_charset (single_byte cs) s output r).0 ≡ false
    → (test
        (single_byte cs)
        (validate_or_filter_single_byte_charset (single_byte cs) s output r).1
        0).0
      ≡ true
filter_single_byte_valid cs s output r hr h = elim (Bool-cases (test (single_byte cs) s 0).0) [
  | inl good ↦ absurd (unfold validate_or_filter_single_byte_charset in ground arith)
  | inr bad ↦
      unfold validate_or_filter_single_byte_charset in
      rw bad ((test-single_byte_iff cs _ 0).1 (filter_bytes-passes cs r s [] hr tt))
]
