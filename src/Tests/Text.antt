-- ===== src/Tests/Text.antt =====
-- Encodings, base64 and escapes.
use cppcms.Prelude.{
  ℕ, ◌+◌, ◌≤◌, ◌<◌, ◌≡◌, refl, ◌≢◌, ◌↔◌, inr, true, false, some, List, [], ◌∷◌, arith, ◌==◌,
  if◌then◌else◌, Bytes, codes, length,
}
use cppcms.Encoding.{validate_or_filter_utf8}
use cppcms.Encoding.Filter.{validate_or_filter_utf8-IsClean}
use cppcms.Utf8
use cppcms.Utf8.{validate}
use cppcms.Utf8.RoundTrip.{accepts}
use cppcms.Utf8.Validate.{Accepted, encode_all, validate_complete, validate_sound}
use cppcms.Utf16
use cppcms.Base64
use cppcms.Base64.RoundTrip.{decode-encode}
use cppcms.Url.{urlencode}

-- The letter alef and a line feed.
abbrev alef : List ℕ
alef = 0x5D0 ∷ 0x0A ∷ []

alef_bytes : encode_all alef ≡ 0xD7 ∷ 0x90 ∷ 0x0A ∷ []
unfolding Utf8.encode
alef_bytes = refl

validate_complete_example : validate true (encode_all alef) 3 ≡ (true, 3 + length alef)
unfolding accepts
validate_complete_example = validate_complete true alef 3 (refl, (refl, tt))

validate_sound_example :
    (vs : List ℕ) × Accepted true vs
    × (0xD7 ∷ 0x90 ∷ 0x0A ∷ [] ≡ encode_all vs)
    × ((validate true (0xD7 ∷ 0x90 ∷ 0x0A ∷ []) 0).1 ≡ 0 + length vs)
unfolding validate
validate_sound_example = validate_sound true (0xD7 ∷ 0x90 ∷ 0x0A ∷ []) 0 (omega arith) refl

overlong : (validate false (0xC0 ∷ 0x80 ∷ []) 0).0 ≡ false
unfolding validate
overlong = refl

width16-ne-length_iff_example :
    (Utf16.width 0x10000 ≢ length (Utf16.encode 0x10000))
    ↔ ((0x10000 ≤ 0x10000) × (0x10000 < 0x100000))
unfolding Utf8.valid
width16-ne-length_iff_example = Utf16.width16-ne-length_iff 0x10000 refl

-- A text with a byte that begins no character.
abbrev broken : Bytes
broken = 65 ∷ 0xFF ∷ 66 ∷ []

validate_or_filter_utf8-IsClean_example :
    (validate true (validate_or_filter_utf8 broken [] b'?').1 0).0 ≡ true
unfolding validate_or_filter_utf8 accepts
validate_or_filter_utf8-IsClean_example =
    validate_or_filter_utf8-IsClean broken [] b'?' (omega arith) (inr (refl, omega arith)) refl

encoded : Base64.encode (codes "cppcms!") ≡ some (codes "Y3BwY21zIQ")
unfolding Base64.encode Base64.bencode_1 Base64.bencode_3 Base64.encode_6_to_8
encoded = refl

abbrev two_bytes : Bytes
two_bytes = 0 ∷ 255 ∷ []

decode-encode_example :
    (text : Bytes) × (Base64.encode two_bytes ≡ some text)
    × (Base64.decode text [] ≡ (true, (if length two_bytes == 0 then [] else two_bytes)))
decode-encode_example = decode-encode two_bytes [] (omega arith) (omega arith)

urlencoded : urlencode (codes "a b&c") ≡ codes "a%20b%26c"
unfolding urlencode
urlencoded = refl
