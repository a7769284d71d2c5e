-- ===== src/Charset/Laws.antt =====
-- What the validators accept.
use cppcms.Prelude.{
  ℕ, ◌+◌, ◌≡◌, refl, ap, ◌↔◌, Bool, true, not, ◌||◌, [], ◌∷◌, arith, Bytes, length, All,
}
use cppcms.Charset.{
  Charset, Tester, utf8, single_byte, refuses, test, scan, is_space, ascii, iso_8859_1, iso_8859_3,
  iso_8859_6, iso_8859_7, iso_8859_8, iso_8859_11, windows_1250, windows_1251, windows_1252,
  windows_1253, windows_1254, windows_1255, windows_1256, windows_1257, windows_1258, koi8,
  ascii_refuses, iso_8859_1_refuses, iso_8859_3_refuses, iso_8859_6_refuses, iso_8859_7_refuses,
  iso_8859_8_refuses, iso_8859_11_refuses, windows_1250_refuses, windows_1251_refuses,
  windows_1252_refuses, windows_1253_refuses, windows_1254_refuses, windows_1255_refuses,
  windows_1256_refuses, windows_1257_refuses, windows_1258_refuses, koi8_refuses,
}
use cppcms.Utf8.{validate, encode}
use cppcms.Utf8.Validate.{encode_all, Accepted, validate_complete}
use mathlib.Core.Path.{subst}
use cppcms.Utf8.RoundTrip.{accepts}

-- The bytes that a single-byte charset lets through.
unfoldable pub passes : (ℕ → Bool) → ℕ → Bool
unfolding is_space
passes refuses c = is_space c || not (refuses c)

pub scan_complete :
    (r : ℕ → Bool) (s : Bytes) (count : ℕ)
    → All (λ c. passes r c ≡ true) s
    → scan r s count ≡ (true, count + length s)
unfolding scan passes
scan_complete r [] count h = ground arith
scan_complete r (c ∷ s) count h = ground (arith, scan_complete r s (count + 1))

scan_sound :
    (r : ℕ → Bool) (s : Bytes) (count : ℕ)
    → (scan r s count).0 ≡ true
    → All (λ c. passes r c ≡ true) s
unfolding scan passes
scan_sound r [] count h = tt
scan_sound r (c ∷ s) count h = (ground arith, scan_sound r s (count + 1) (ground arith))

-- A single-byte validator accepts a text exactly if every byte of it passes its tests of a byte.
pub test-single_byte_iff :
    (cs : Charset) (s : Bytes) (count : ℕ)
    → ((test (single_byte cs) s count).0 ≡ true) ↔ All (λ c. passes (refuses cs) c ≡ true) s
unfolding test
test-single_byte_iff cs s count =
    (scan_sound (refuses cs) s count, λ h. ap (λ p. p.0) (scan_complete (refuses cs) s count h))

-- An ASCII byte that is allowed passes in every charset.
passes_ascii : (cs : Charset) (c : ℕ) → passes ascii_refuses c ≡ true → passes (refuses cs) c ≡ true
unfolding passes ascii_refuses iso_8859_1_refuses iso_8859_3_refuses iso_8859_6_refuses
    iso_8859_7_refuses iso_8859_8_refuses iso_8859_11_refuses windows_1250_refuses
    windows_1251_refuses windows_1252_refuses windows_1253_refuses windows_1254_refuses
    windows_1255_refuses windows_1256_refuses windows_1257_refuses windows_1258_refuses koi8_refuses
passes_ascii ascii c h = ground arith
passes_ascii iso_8859_1 c h = ground arith
passes_ascii iso_8859_3 c h = ground arith
passes_ascii iso_8859_6 c h = ground arith
passes_ascii iso_8859_7 c h = ground arith
passes_ascii iso_8859_8 c h = ground arith
passes_ascii iso_8859_11 c h = ground arith
passes_ascii windows_1250 c h = ground arith
passes_ascii windows_1251 c h = ground arith
passes_ascii windows_1252 c h = ground arith
passes_ascii windows_1253 c h = ground arith
passes_ascii windows_1254 c h = ground arith
passes_ascii windows_1255 c h = ground arith
passes_ascii windows_1256 c h = ground arith
passes_ascii windows_1257 c h = ground arith
passes_ascii windows_1258 c h = ground arith
passes_ascii koi8 c h = ground arith

All-passes_ascii :
    (cs : Charset) (s : Bytes)
    → All (λ c. passes ascii_refuses c ≡ true) s
    → All (λ c. passes (refuses cs) c ≡ true) s
All-passes_ascii cs [] h = tt
All-passes_ascii cs (c ∷ s) (h, hs) = (passes_ascii cs c h, All-passes_ascii cs s hs)

encode_ascii : (c : ℕ) → passes ascii_refuses c ≡ true → encode c ≡ c ∷ []
unfolding passes ascii_refuses encode
encode_ascii c h = ground arith

accepts_ascii : (c : ℕ) → passes ascii_refuses c ≡ true → accepts true c ≡ true
unfolding passes ascii_refuses accepts
accepts_ascii c h = ground arith

encode_all_ascii : (s : Bytes) → All (λ c. passes ascii_refuses c ≡ true) s → encode_all s ≡ s
encode_all_ascii [] h = refl
encode_all_ascii (c ∷ s) (h, hs) = rw (encode_ascii c h) (ap (◌∷◌ c) (encode_all_ascii s hs))

Accepted-ascii : (s : Bytes) → All (λ c. passes ascii_refuses c ≡ true) s → Accepted true s
Accepted-ascii [] h = tt
Accepted-ascii (c ∷ s) (h, hs) = (accepts_ascii c h, Accepted-ascii s hs)

-- A text that is valid ASCII is valid in every encoding of the tables, and each validator counts
-- all its bytes.
pub test_ascii :
    (t : Tester) (s : Bytes) (count : ℕ)
    → (test (single_byte ascii) s count).0 ≡ true
    → test t s count ≡ (true, count + length s)
unfolding test
test_ascii (single_byte cs) s count h =
    scan_complete (refuses cs) s count (All-passes_ascii cs s (scan_sound ascii_refuses s count h))
test_ascii utf8 s count h =
    let all = scan_sound ascii_refuses s count h in
    subst (λ t. validate true t count ≡ (true, count + length s)) (encode_all_ascii s all)
      (validate_complete true s count (Accepted-ascii s all))
