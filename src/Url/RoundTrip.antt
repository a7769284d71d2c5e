-- ===== src/Url/RoundTrip.antt =====
-- src/util.cpp: urldecode against urlencode.
use cppcms.Url.{
  plain, hex, xdigit, digit_value, urlencode_char, urlencode_impl, urlencode, urldecode_loop,
  urldecode,
}
use mathlib.Core.List.{flat_map}
use cppcms.Prelude.{
  ℕ, ◌+◌, ◌*◌, ◌<◌, ◌≡◌, refl, sym, ap, ◌∙◌, ◌≢◌, ◌⊎◌, inl, inr, true, [], ◌∷◌, ◌++◌, append-nil,
  append_assoc, arith, Bool-cases, Bytes, All, All-append, IsBytes, shr, low_bits,
}

urlencode_impl-flat_map : (s out : Bytes) → urlencode_impl s out ≡ out ++ flat_map urlencode_char s
unfolding urlencode_impl flat_map
urlencode_impl-flat_map [] out = sym (append-nil out)
urlencode_impl-flat_map (c ∷ s) out = simp (urlencode_impl-flat_map s, append_assoc)

-- Two digits of `hex` are read back as the byte.
hex_pair :
    (c : ℕ)
    → c < 256
    → (xdigit (hex (low_bits (shr c 4) 4)) ≡ true)
      × (xdigit (hex (low_bits c 4)) ≡ true)
      × (digit_value (hex (low_bits (shr c 4) 4)) * 16 + digit_value (hex (low_bits c 4)) ≡ c)
unfolding xdigit hex digit_value
hex_pair c h = ground arith

loop_copy :
    (c : ℕ) (s result : Bytes)
    → c ≢ b'+'
    → c ≢ b'%'
    → urldecode_loop (c ∷ s) result ≡ urldecode_loop s (result ++ c ∷ [])
unfolding urldecode_loop
loop_copy c [] result h k = ground arith
loop_copy c (d ∷ []) result h k = ground arith
loop_copy c (d ∷ e ∷ s) result h k = ground arith

loop_triple :
    (d e : ℕ) (s result : Bytes)
    → xdigit d ≡ true
    → xdigit e ≡ true
    → urldecode_loop (b'%' ∷ d ∷ e ∷ s) result
      ≡ urldecode_loop s (result ++ (digit_value d * 16 + digit_value e) ∷ [])
unfolding urldecode_loop
loop_triple d e s result h k = ground arith

plain_ne : (c : ℕ) → plain c ≡ true → (c ≢ b'+') × (c ≢ b'%')
unfolding plain
plain_ne c h = ground arith

loop-urlencode_char :
    (c : ℕ) (s result : Bytes)
    → c < 256
    → urldecode_loop (urlencode_char c ++ s) result ≡ urldecode_loop s (result ++ c ∷ [])
loop-urlencode_char c s result h = elim (Bool-cases (plain c)) [
  | inl p ↦ unfold urlencode_char in rw p (loop_copy c s result (plain_ne c p).0 (plain_ne c p).1)
  | inr p ↦
      let (x, y, v) = hex_pair c h in
      unfold urlencode_char in
      rw p (loop_triple _ _ s result x y ∙ ap (λ n. urldecode_loop s (result ++ n ∷ [])) v)
]

loop-flat_map :
    (s result : Bytes) → IsBytes s → urldecode_loop (flat_map urlencode_char s) result ≡ result ++ s
unfolding flat_map
loop-flat_map [] result b = unfold urldecode_loop in sym (append-nil result)
loop-flat_map (c ∷ s) result (h, b) =
    loop-urlencode_char c (flat_map urlencode_char s) result h
    ∙ loop-flat_map s (result ++ c ∷ []) b
    ∙ append_assoc result (c ∷ []) s

-- `urldecode` undoes `urlencode` at every byte string.
pub urldecode-urlencode : (s : Bytes) → IsBytes s → urldecode (urlencode s) ≡ s
unfolding urldecode urlencode
urldecode-urlencode s b = rw urlencode_impl-flat_map (loop-flat_map s [] b)

-- A character that needs no escape in a URL, or the mark of an escape.
abbrev pub IsUrlChar : ℕ → Type 0
IsUrlChar c = (plain c ≡ true) ⊎ (c ≡ b'%')

plain-hex : (i : ℕ) → i < 16 → plain (hex i) ≡ true
unfolding plain hex
plain-hex i h = ground arith

urlencode_char-IsUrlChar : (c : ℕ) → All IsUrlChar (urlencode_char c)
urlencode_char-IsUrlChar c = elim (Bool-cases (plain c)) [
  | inl p ↦ unfold urlencode_char in rw p (inl p, tt)
  | inr p ↦
      unfold urlencode_char in
      rw p (
        inr refl,
        (
          inl (plain-hex (low_bits (shr c 4) 4) (omega arith)),
          (inl (plain-hex (low_bits c 4) (omega arith)), tt),
        ),
      )
]

flat_map-IsUrlChar : (s : Bytes) → All IsUrlChar (flat_map urlencode_char s)
unfolding flat_map
flat_map-IsUrlChar [] = tt
flat_map-IsUrlChar (c ∷ s) =
    All-append IsUrlChar (urlencode_char c) _ (urlencode_char-IsUrlChar c) (flat_map-IsUrlChar s)

-- `urlencode` writes nothing but letters, digits, `-_.~` and the mark `%`.
pub urlencode-IsUrlChar : (s : Bytes) → All IsUrlChar (urlencode s)
unfolding urlencode
urlencode-IsUrlChar s = rw urlencode_impl-flat_map (flat_map-IsUrlChar s)
