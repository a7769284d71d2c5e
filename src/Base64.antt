-- ===== src/Base64.antt =====
-- src/base64.cpp: the URL variant of base64, with no padding. A pointer into a buffer is the list
-- of the bytes behind it; what `bencode` and `bdecode` write is their result.
pub mod RoundTrip
use cppcms.Prelude.{
  ℕ, zero, suc, ◌+◌, ◌-◌, ◌*◌, ◌/◌, ◌%◌, ◌^◌, Bool, true, false, Option, none, some, List, [], ◌∷◌,
  ◌++◌, leb, ◌==◌, if◌then◌else◌, within, Bytes, codes, length, shr, shl, low_bits, take,
}

abbrev table : Bytes
table = codes "ABCDEFGHIJKLMNOPQRSTUVWXYZabcdefghijklmnopqrstuvwxyz0123456789-_"

abbrev get_or : List ℕ → ℕ → ℕ → ℕ
get_or [] i d = d
get_or (x ∷ xs) zero d = x
get_or (x ∷ xs) (suc i) d = get_or xs i d

-- The array `encode_6_to_8` at an index below 64.
unfoldable pub encode_6_to_8 : ℕ → ℕ
encode_6_to_8 i = get_or table i 0

unfoldable pub encode_8_to_6 : ℕ → ℕ
encode_8_to_6 c =
    if within b'A' b'Z' c
    then c - b'A'
    else if within b'a' b'z' c
    then (b'Z' - b'A' + 1) + c - b'a'
    else if within b'0' b'9' c
    then 2 * (b'Z' - b'A' + 1) + c - b'0'
    else if c == b'-'
    then 62
    else if c == b'_'
    then 63
    else 0

-- `bencode` at len 1, 2 and 3. `(in[1] & 0xf0) >> 4` is `in[1] >> 4` for a byte.
unfoldable pub bencode_1 : ℕ → Bytes
bencode_1 a = encode_6_to_8 (shr a 2) ∷ encode_6_to_8 (shl 32 (low_bits a 2) 4) ∷ []

unfoldable pub bencode_2 : ℕ → ℕ → Bytes
bencode_2 a b =
    encode_6_to_8 (shr a 2)
    ∷ encode_6_to_8 (shl 32 (low_bits a 2) 4 + shr b 4)
    ∷ encode_6_to_8 (shl 32 (low_bits b 4) 2)
    ∷ []

unfoldable pub bencode_3 : ℕ → ℕ → ℕ → Bytes
bencode_3 a b c =
    encode_6_to_8 (shr a 2)
    ∷ encode_6_to_8 (shl 32 (low_bits a 2) 4 + shr b 4)
    ∷ encode_6_to_8 (shl 32 (low_bits b 4) 2 + shr c 6)
    ∷ encode_6_to_8 (low_bits c 6)
    ∷ []

-- `bdecode` on sextets. The casts to unsigned char keep eight bits; `in[1] >> 4` and the other
-- low parts share no bit with what they are joined to.
abbrev out_0 : ℕ → ℕ → ℕ
out_0 a b = (shl 32 a 2 + shr b 4) % 256

abbrev out_1 : ℕ → ℕ → ℕ
out_1 b c = (shl 32 b 4 + shr c 2) % 256

-- `((in[2] << 6) & 0xc0) | in[3]`
abbrev out_2 : ℕ → ℕ → ℕ
out_2 c d = (low_bits c 2 * 64 + d) % 256

-- `bdecode` at len 4, 3 and 2, and at len 1, where the three missing sextets are zero and the
-- function takes its last branch.
unfoldable pub bdecode_4 : ℕ → ℕ → ℕ → ℕ → Bytes
bdecode_4 a b c d =
    out_0 (encode_8_to_6 a) (encode_8_to_6 b)
    ∷ out_1 (encode_8_to_6 b) (encode_8_to_6 c)
    ∷ out_2 (encode_8_to_6 c) (encode_8_to_6 d)
    ∷ []

unfoldable pub bdecode_3 : ℕ → ℕ → ℕ → Bytes
bdecode_3 a b c =
    out_0 (encode_8_to_6 a) (encode_8_to_6 b) ∷ out_1 (encode_8_to_6 b) (encode_8_to_6 c) ∷ []

unfoldable pub bdecode_2 : ℕ → ℕ → Bytes
bdecode_2 a b = out_0 (encode_8_to_6 a) (encode_8_to_6 b) ∷ []

unfoldable pub bdecode_1 : ℕ → Bytes
bdecode_1 a = out_0 (encode_8_to_6 a) 0 ∷ out_1 0 0 ∷ out_2 0 0 ∷ []

-- The loops of `encode` and `decode` over the pointers.
unfoldable pub encode_range : Bytes → Bytes
encode_range [] = []
encode_range (a ∷ []) = bencode_1 a
encode_range (a ∷ b ∷ []) = bencode_2 a b
encode_range (a ∷ b ∷ c ∷ s) = bencode_3 a b c ++ encode_range s

unfoldable pub decode_range : Bytes → Bytes
decode_range [] = []
decode_range (a ∷ []) = bdecode_1 a
decode_range (a ∷ b ∷ []) = bdecode_2 a b
decode_range (a ∷ b ∷ c ∷ []) = bdecode_3 a b c
decode_range (a ∷ b ∷ c ∷ d ∷ s) = bdecode_4 a b c d ++ decode_range s

-- An int of 32 bits is the number of its two's complement, so a negative one is 2^31 or more.
abbrev pub as_int : ℕ → ℕ
as_int n = n % 2 ^ 32

abbrev pub is_negative : ℕ → Bool
is_negative n = leb (2 ^ 31) n

unfoldable pub encoded_size : ℕ → ℕ
encoded_size s =
    as_int (if s % 3 == 1 then s / 3 * 4 + 2 else if s % 3 == 2 then s / 3 * 4 + 3 else s / 3 * 4)

-- -1 is 2^32 - 1.
unfoldable pub decoded_size : ℕ → ℕ
decoded_size s =
    if s % 4 == 1
    then 2 ^ 32 - 1
    else as_int
        (if s % 4 == 2 then s / 4 * 3 + 1 else if s % 4 == 3 then s / 4 * 3 + 2 else s / 4 * 3)

-- A buffer of `size` zeros into which `written` is written from its start. A write that does not
-- fit, which takes a size that wrapped, is undefined; the theorems show that below the sizes in
-- their statements it does not happen.
abbrev in_buffer : ℕ → Bytes → Bytes
in_buffer size written = take size written

-- `encode(std::string const &)`. A negative size becomes a size_t that no vector has: `none` is its
-- exception.
unfoldable pub encode : Bytes → Option Bytes
unfolding encode_range encoded_size
encode input =
    let enc_size = encoded_size (length input) in
    if enc_size == 0
    then some []
    else if is_negative enc_size
    then none
    else some (in_buffer enc_size (encode_range input))

-- `decode(std::string const &,std::string &)`: the result and `output`.
unfoldable pub decode : Bytes → Bytes → Bool × Bytes
unfolding decode_range decoded_size
decode input output =
    let ds = decoded_size (length input) in
    if is_negative ds
    then (false, output)
    else if ds == 0
    then (true, output)
    else (true, in_buffer ds (decode_range input))
