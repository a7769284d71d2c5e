-- ===== src/Charset.antt =====
-- private/encoding_validators.h. Each function there is the same loop over the text with its own
-- tests of a byte: `scan` is the loop, and the tests of each function are a definition of their
-- own. The functions return the verdict and add to `count` the bytes that they looked at.
pub mod Laws
use cppcms.Prelude.{
  ℕ, ◌+◌, Bool, true, false, ◌&&◌, ◌||◌, List, [], ◌∷◌, ltb, leb, ◌==◌, if◌then◌else◌, within,
  Bytes,
}
use cppcms.Utf8.{validate}

-- The range of a text: `c==0x09 || c==0xA || c==0xD` goes on with the next byte.
unfoldable pub is_space : ℕ → Bool
is_space c = c == 0x09 || c == 0xA || c == 0xD

-- `while(p!=e) { count++; ... }`, where `refuses` holds of the bytes at which the loop returns.
unfoldable pub scan : (ℕ → Bool) → Bytes → ℕ → Bool × ℕ
unfolding is_space
scan refuses [] count = (true, count)
scan refuses (c ∷ s) count =
    let rest = scan refuses s (count + 1) in
    if is_space c then rest else if refuses c then (false, count + 1) else rest

-- The cases of a `switch` that share one body.
unfoldable pub listed : ℕ → List ℕ → Bool
listed c [] = false
listed c (x ∷ xs) = c == x || listed c xs

-- `c<0x20 || (0x7F<=c && c<0xA0)`, the test that the iso_8859 functions share.
unfoldable pub iso_control : ℕ → Bool
iso_control c = ltb c 0x20 || (leb 0x7F c && ltb c 0xA0)

-- `c<0x20 || 0x7F==c`, the test that the windows functions and koi8 share.
unfoldable pub windows_control : ℕ → Bool
windows_control c = ltb c 0x20 || 0x7F == c

unfoldable pub ascii_refuses : ℕ → Bool
ascii_refuses c = ltb c 0x20 || ltb 0x7E c

unfoldable pub iso_8859_1_refuses : ℕ → Bool
unfolding iso_control
iso_8859_1_refuses c = iso_control c

unfoldable pub iso_8859_3_refuses : ℕ → Bool
unfolding iso_control listed
iso_8859_3_refuses c =
    iso_control c || listed c (0xA5 ∷ 0xAE ∷ 0xBE ∷ 0xC3 ∷ 0xD0 ∷ 0xE3 ∷ 0xF0 ∷ [])

unfoldable pub iso_8859_6_refuses : ℕ → Bool
unfolding iso_control
iso_8859_6_refuses c =
    iso_control c
    || within 0xA1 0xA3 c
    || within 0xA5 0xAB c
    || within 0xAE 0xBA c
    || within 0xBC 0xBE c
    || 0xC0 == c
    || within 0xDB 0xDF c
    || within 0xF3 0xFF c

unfoldable pub iso_8859_7_refuses : ℕ → Bool
unfolding iso_control listed
iso_8859_7_refuses c = iso_control c || listed c (0xAE ∷ 0xD2 ∷ 0xFF ∷ [])

unfoldable pub iso_8859_8_refuses : ℕ → Bool
unfolding iso_control listed
iso_8859_8_refuses c =
    iso_control c || listed c (0xA1 ∷ 0xFB ∷ 0xFC ∷ 0xFF ∷ []) || within 0xBF 0xDE c

unfoldable pub iso_8859_11_refuses : ℕ → Bool
unfolding iso_control listed
iso_8859_11_refuses c =
    iso_control c || listed c (0xDB ∷ 0xDC ∷ 0xDD ∷ 0xDE ∷ 0xFC ∷ 0xFD ∷ 0xFE ∷ 0xFF ∷ [])

unfoldable pub windows_1250_refuses : ℕ → Bool
unfolding windows_control listed
windows_1250_refuses c = windows_control c || listed c (0x81 ∷ 0x83 ∷ 0x88 ∷ 0x90 ∷ 0x98 ∷ [])

unfoldable pub windows_1251_refuses : ℕ → Bool
windows_1251_refuses c = ltb c 0x20 || 0x7F == c || c == 152

unfoldable pub windows_1252_refuses : ℕ → Bool
unfolding windows_control listed
windows_1252_refuses c = windows_control c || listed c (0x81 ∷ 0x8D ∷ 0x8F ∷ 0x90 ∷ 0x9D ∷ [])

unfoldable pub windows_1253_refuses : ℕ → Bool
unfolding windows_control listed
windows_1253_refuses c =
    windows_control c
    || listed c (
        0x81 ∷ 0x88 ∷ 0x8A ∷ 0x8C ∷ 0x8D ∷ 0x8E ∷ 0x8F ∷ 0x90 ∷ 0x98 ∷ 0x9A ∷ 0x9C ∷ 0x9D ∷ 0x9E
        ∷ 0x9F ∷ 0xAA ∷ 0xD2 ∷ 0xFF ∷ [])

unfoldable pub windows_1254_refuses : ℕ → Bool
unfolding windows_control listed
windows_1254_refuses c =
    windows_control c || listed c (0x81 ∷ 0x8D ∷ 0x8E ∷ 0x8F ∷ 0x90 ∷ 0x9D ∷ 0x9E ∷ [])

unfoldable pub windows_1255_refuses : ℕ → Bool
unfolding windows_control listed
windows_1255_refuses c =
    windows_control c
    || listed c (
        0x81 ∷ 0x8A ∷ 0x8C ∷ 0x8D ∷ 0x8E ∷ 0x8F ∷ 0x90 ∷ 0x9A ∷ 0x9C ∷ 0x9D ∷ 0x9E ∷ 0x9F ∷ 0xD9
        ∷ 0xDA ∷ 0xDB ∷ 0xDC ∷ 0xDD ∷ 0xDE ∷ 0xDF ∷ 0xCA ∷ 0xFB ∷ 0xFC ∷ 0xFF ∷ [])

unfoldable pub windows_1256_refuses : ℕ → Bool
unfolding windows_control
windows_1256_refuses c = windows_control c

unfoldable pub windows_1257_refuses : ℕ → Bool
unfolding windows_control listed
windows_1257_refuses c =
    windows_control c
    || listed c
        (0x81 ∷ 0x83 ∷ 0x88 ∷ 0x8A ∷ 0x8C ∷ 0x90 ∷ 0x98 ∷ 0x9A ∷ 0x9C ∷ 0x9F ∷ 0xA1 ∷ 0xA5 ∷ [])

unfoldable pub windows_1258_refuses : ℕ → Bool
unfolding windows_control listed
windows_1258_refuses c =
    windows_control c
    || listed c (0x81 ∷ 0x8A ∷ 0x8D ∷ 0x8E ∷ 0x8F ∷ 0x90 ∷ 0x9A ∷ 0x9D ∷ 0x9E ∷ [])

unfoldable pub koi8_refuses : ℕ → Bool
unfolding windows_control
koi8_refuses c = windows_control c

-- The single-byte functions of the file.
pub data Charset : Type 0 where
  ascii iso_8859_1 iso_8859_3 iso_8859_6 iso_8859_7 iso_8859_8 iso_8859_11 : Charset
  windows_1250 windows_1251 windows_1252 windows_1253 windows_1254 : Charset
  windows_1255 windows_1256 windows_1257 windows_1258 koi8 : Charset

-- The bytes at which each of them returns false.
abbrev pub refuses : Charset → ℕ → Bool
refuses ascii = ascii_refuses
refuses iso_8859_1 = iso_8859_1_refuses
refuses iso_8859_3 = iso_8859_3_refuses
refuses iso_8859_6 = iso_8859_6_refuses
refuses iso_8859_7 = iso_8859_7_refuses
refuses iso_8859_8 = iso_8859_8_refuses
refuses iso_8859_11 = iso_8859_11_refuses
refuses windows_1250 = windows_1250_refuses
refuses windows_1251 = windows_1251_refuses
refuses windows_1252 = windows_1252_refuses
refuses windows_1253 = windows_1253_refuses
refuses windows_1254 = windows_1254_refuses
refuses windows_1255 = windows_1255_refuses
refuses windows_1256 = windows_1256_refuses
refuses windows_1257 = windows_1257_refuses
refuses windows_1258 = windows_1258_refuses
refuses koi8 = koi8_refuses

-- A value of `encoding_tester_type`.
pub data Tester : Type 0 where
  utf8 : Tester
  single_byte : Charset → Tester

-- A call of the function that the tester points to.
unfoldable pub test : Tester → Bytes → ℕ → Bool × ℕ
test utf8 s count = validate true s count
test (single_byte cs) s count = scan (refuses cs) s count
