-- ===== src/Utf8/RoundTrip.antt =====
-- private/utf_iterator.h: decoding against encoding.
use cppcms.Prelude.{
  length, ℕ, ◌≤◌, ◌<◌, ◌≡◌, ◌≢◌, inl, inr, Bool, true, not, ◌&&◌, ◌||◌, [], ◌∷◌, ◌++◌, arith, leb,
  if◌then◌else◌, Bool-cases, Bytes, IsBytes,
}
use cppcms.Utf8.{valid, html_ascii, next, encode, illegal}

-- The code points that `next` lets through: in HTML mode the control characters are refused.
unfoldable pub accepts : Bool → ℕ → Bool
unfolding html_ascii valid
accepts html v = valid v && (not html || (if leb v 0x7F then html_ascii v else leb 0xA0 v))

module _ (html : Bool) (v : ℕ) (rest : Bytes) (ok : accepts html v ≡ true) where
  next-encode_one : v ≤ 0x7F → next html (encode v ++ rest) ≡ (v, rest)
  unfolding next encode accepts
  next-encode_one h = ground arith

  next-encode_two : 0x7F < v → v ≤ 0x7FF → next html (encode v ++ rest) ≡ (v, rest)
  unfolding next encode accepts
  next-encode_two lo hi = ground arith

  next-encode_three : 0x7FF < v → v ≤ 0xFFFF → next html (encode v ++ rest) ≡ (v, rest)
  unfolding next encode accepts
  next-encode_three lo hi = ground arith

  next-encode_four : 0xFFFF < v → next html (encode v ++ rest) ≡ (v, rest)
  unfolding next encode accepts
  next-encode_four lo = ground arith

  -- A code point that the mode accepts is read back from its encoding, whatever bytes follow it.
  pub next-encode : next html (encode v ++ rest) ≡ (v, rest)
  next-encode = elim (Bool-cases (leb v 0x7F)) [
    | inl a ↦ next-encode_one (ground arith)
    | inr a ↦ elim (Bool-cases (leb v 0x7FF)) [
      | inl b ↦ next-encode_two (ground arith) (ground arith)
      | inr b ↦ elim (Bool-cases (leb v 0xFFFF)) [
        | inl c ↦ next-encode_three (ground arith) (ground arith)
        | inr c ↦ next-encode_four (ground arith)
      ]
    ]
  ]

pub accepts-ne-illegal : (html : Bool) (v : ℕ) → accepts html v ≡ true → v ≢ illegal
unfolding accepts
accepts-ne-illegal html v h = ground arith

-- What one call of `next` on the range `s` guarantees if it does not return `illegal`.
abbrev pub IsDecoded : Bool → Bytes → ℕ × Bytes → Type 0
IsDecoded html s (v, rest) =
    v ≢ illegal → (accepts html v ≡ true) × (s ≡ encode v ++ rest) × IsBytes rest

pub next-IsDecoded : (html : Bool) (s : Bytes) → IsBytes s → IsDecoded html s (next html s)
unfolding next encode accepts
next-IsDecoded html [] b = ground arith
next-IsDecoded html (lead ∷ []) b = ground arith
next-IsDecoded html (lead ∷ a ∷ []) b = ground arith
next-IsDecoded html (lead ∷ a ∷ c ∷ []) b = ground arith
next-IsDecoded html (lead ∷ a ∷ c ∷ d ∷ s) b = ground arith

-- Whatever it returns, `next` leaves a part of the range, shorter by a byte at least.
pub next-length :
    (html : Bool) (lead : ℕ) (s : Bytes)
    → IsBytes s
    → (length (next html (lead ∷ s)).1 ≤ length s) × IsBytes (next html (lead ∷ s)).1
unfolding next
next-length html lead [] b = ground arith
next-length html lead (a ∷ []) b = ground arith
next-length html lead (a ∷ c ∷ []) b = ground arith
next-length html lead (a ∷ c ∷ d ∷ s) b = ground arith
