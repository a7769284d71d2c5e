-- ===== src/Base64/RoundTrip.antt =====
-- Sizes, and decoding what was encoded.
use cppcms.Base64.{
  encode_6_to_8, encode_8_to_6, bencode_1, bencode_2, bencode_3, bdecode_2, bdecode_3, bdecode_4,
  encode_range, decode_range, encoded_size, decoded_size, encode, decode, is_negative,
}
use cppcms.Prelude.{
  ℕ, zero, suc, ◌+◌, ◌*◌, ◌/◌, ◌%◌, ◌^◌, ◌≤◌, ◌<◌, ◌≡◌, refl, ap, ◌∙◌, ◌↔◌, inl, inr, Bool, true,
  false, sym, ◌&&◌, some, [], ◌∷◌, ◌++◌, arith, leb, ◌==◌, if◌then◌else◌, ==_iff, Bool-cases, Bytes,
  length, IsBytes, take,
}

-- Whether a test holds at so many numbers from `lo` on.
holds_from : ℕ → ℕ → (ℕ → Bool) → Bool
holds_from lo zero test = true
holds_from lo (suc steps) test = holds_from (lo + 1) steps test && test lo

holds_from-test :
    (lo steps i : ℕ) (test : ℕ → Bool)
    → lo ≤ i
    → i < lo + steps
    → holds_from lo steps test ≡ true
    → test i ≡ true
unfolding holds_from
holds_from-test lo zero i test low high h = absurd (omega arith)
holds_from-test lo (suc steps) i test low high h =
    ground (arith, holds_from-test (lo + 1) steps i test)

-- The two tables are inverse to one another on sextets.
sextet_table : holds_from 0 64 (λ i. encode_8_to_6 (encode_6_to_8 i) == i) ≡ true
unfolding holds_from encode_8_to_6 encode_6_to_8
sextet_table = refl

sextet : (i : ℕ) → i < 64 → encode_8_to_6 (encode_6_to_8 i) ≡ i
sextet i h = (==_iff _ i).0 (holds_from-test 0 64 i _ (omega arith) (omega arith) sextet_table)

-- The number of characters that `n` bytes take.
exact_size : ℕ → ℕ
exact_size n = if n % 3 == 1 then n / 3 * 4 + 2 else if n % 3 == 2 then n / 3 * 4 + 3 else n / 3 * 4

exact_size_int : (n : ℕ) → n < 3 * 2 ^ 29 → exact_size n < 2 ^ 31
unfolding exact_size
exact_size_int n h = ground arith

encoded_size_exact : (n : ℕ) → n < 3 * 2 ^ 29 → encoded_size n ≡ exact_size n
unfolding encoded_size
encoded_size_exact n h =
    let small = exact_size_int n h in unfold exact_size in ground (arith, small)

length-encode_range_exact : (s : Bytes) → length (encode_range s) ≡ exact_size (length s)
unfolding encode_range exact_size bencode_1 bencode_2 bencode_3
length-encode_range_exact [] = refl
length-encode_range_exact (a ∷ []) = refl
length-encode_range_exact (a ∷ b ∷ []) = refl
length-encode_range_exact (a ∷ b ∷ c ∷ s) = ground (arith, length-encode_range_exact s)

-- The loop of `encode` writes as many bytes as the buffer has, where the int has room for their
-- number.
length-encode_range :
    (s : Bytes) → length s < 3 * 2 ^ 29 → length (encode_range s) ≡ encoded_size (length s)
length-encode_range s h = length-encode_range_exact s ∙ sym (encoded_size_exact (length s) h)

encoded_size_int : (n : ℕ) → n < 3 * 2 ^ 29 → encoded_size n < 2 ^ 31
unfolding encoded_size
encoded_size_int n h = ground arith

-- Decoding a block that was encoded.
block_1 : (a : ℕ) → a < 256 → decode_range (bencode_1 a) ≡ a ∷ []
unfolding decode_range bencode_1 bdecode_2
block_1 a h =
    simp (sextet (a / 4) (omega arith), sextet (((a % 4) * 16) % 2 ^ 32) (omega arith))
      (ground arith)

block_2 : (a b : ℕ) → a < 256 → b < 256 → decode_range (bencode_2 a b) ≡ a ∷ b ∷ []
unfolding decode_range bencode_2 bdecode_3
block_2 a b h k = ground (
  arith,
  sextet (a / 4) (omega arith),
  sextet ((((a % 4) * 16) % 2 ^ 32) + b / 16) (omega arith),
  sextet (((b % 16) * 4) % 2 ^ 32) (omega arith),
)

block_3 :
    (a b c : ℕ) (s : Bytes)
    → a < 256
    → b < 256
    → c < 256
    → decode_range (bencode_3 a b c ++ s) ≡ a ∷ b ∷ c ∷ decode_range s
unfolding decode_range bencode_3 bdecode_4
block_3 a b c s h k l = ground (
  arith,
  sextet (a / 4) (omega arith),
  sextet ((((a % 4) * 16) % 2 ^ 32) + b / 16) (omega arith),
  sextet ((((b % 16) * 4) % 2 ^ 32) + c / 64) (omega arith),
  sextet (c % 64) (omega arith),
)

decode_range-encode_range : (s : Bytes) → IsBytes s → decode_range (encode_range s) ≡ s
unfolding encode_range
decode_range-encode_range [] b = unfold decode_range in refl
decode_range-encode_range (a ∷ []) h = block_1 a h.0
decode_range-encode_range (a ∷ b ∷ []) h = block_2 a b h.0 h.1.0
decode_range-encode_range (a ∷ b ∷ c ∷ s) (ha, (hb, (hc, hs))) =
    block_3 a b c (encode_range s) ha hb hc
    ∙ ap (λ t. a ∷ b ∷ c ∷ t) (decode_range-encode_range s hs)

take-length : (s : Bytes) (n : ℕ) → length s ≡ n → take n s ≡ s
take-length s n h = rw (← h) (all s)
  where
    all : (t : Bytes) → take (length t) t ≡ t
    all [] = refl
    all (x ∷ t) = ap (◌∷◌ x) (all t)

encoded_size_zero : (n : ℕ) → n < 3 * 2 ^ 29 → encoded_size n ≡ 0 → n ≡ 0
unfolding encoded_size
encoded_size_zero n h e = ground arith

-- `encode` throws nothing and loses nothing to its buffer: it returns all that its loop writes.
pub encode-encode_range : (s : Bytes) → length s < 3 * 2 ^ 29 → encode s ≡ some (encode_range s)
unfolding encode
encode-encode_range s h = elim (Bool-cases (encoded_size (length s) == 0)) [
  | inl z ↦ rw z (empty s (encoded_size_zero (length s) h (ground arith)))
  | inr nz ↦
      let room : leb (2 ^ 31) (encoded_size (length s)) ≡ false =
        ground (arith, encoded_size_int (length s) h) in
      rw (nz, room) (ap (λ t. some t) (take-length (encode_range s) _ (length-encode_range s h)))
]
  where
    empty : (t : Bytes) → length t ≡ 0 → some [] ≡ some (encode_range t)
    empty [] e = unfold encode_range in refl
    empty (a ∷ t) e = absurd (omega arith)

-- The length of what `encode` returns is what `encoded_size` says.
pub length-encode :
    (s text : Bytes)
    → length s < 3 * 2 ^ 29
    → encode s ≡ some text
    → length text ≡ encoded_size (length s)
length-encode s text h e =
    let same : some (encode_range s) ≡ some text = sym (encode-encode_range s h) ∙ e in
    ground (arith, length-encode_range s h)

decoded_size-encoded_size : (n : ℕ) → n < 3 * 2 ^ 29 → decoded_size (encoded_size n) ≡ n
unfolding decoded_size encoded_size
decoded_size-encoded_size n h = ground arith

decode-encode_range :
    (s output : Bytes)
    → IsBytes s
    → length s < 3 * 2 ^ 29
    → decode (encode_range s) output ≡ (true, (if length s == 0 then output else s))
unfolding decode
decode-encode_range s output b h =
    rw
      (
        decode,
        length-encode_range s h,
        decoded_size-encoded_size (length s) h,
        decode_range-encode_range s b,
      )
      (ground (arith, take-length s (length s) refl))

-- `encode` returns for a string of fewer than 3 * 2^29 bytes, whose text has a size that an int
-- holds, and decoding the text succeeds and gives the string back, but for the empty one, at which
-- `decode` leaves its output as it was.
pub decode-encode :
    (s output : Bytes)
    → IsBytes s
    → length s < 3 * 2 ^ 29
    → (text : Bytes) × (encode s ≡ some text)
      × (decode text output ≡ (true, (if length s == 0 then output else s)))
decode-encode s output b h =
    (encode_range s, encode-encode_range s h, decode-encode_range s output b h)

decoded_size-negative : (n : ℕ) → n < 2 ^ 31 → is_negative (decoded_size n) ≡ (n % 4 == 1)
unfolding decoded_size
decoded_size-negative n h = elim (Bool-cases (n % 4 == 1)) [
  | inl e ↦ rw e refl
  | inr e ↦ rw e (ground arith)
]

-- Of the strings shorter than 2^31, exactly those of length 1 modulo 4 are refused.
pub decode-false_iff :
    (s output : Bytes) → length s < 2 ^ 31 → ((decode s output).0 ≡ false) ↔ (length s % 4 ≡ 1)
unfolding decode
decode-false_iff s output h =
    let n = decoded_size-negative (length s) h in (λ e. ground (arith, n), λ e. ground (arith, n))

decode_refused : (s output : Bytes) → length s % 4 ≡ 1 → decode s output ≡ (false, output)
unfolding decode decoded_size
decode_refused s output h = ground arith
