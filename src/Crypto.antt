-- ===== src/Crypto.antt =====
-- src/crypto.cpp: keys in hexadecimal and class hmac. The digests come from other libraries, so a
-- digest is an argument: `hash` is what `readout` gives for all the text that was appended since
-- the last one.
pub mod Hex
pub mod Mac
use cppcms.Prelude.{
  ℕ, zero, suc, ◌+◌, ◌-◌, ◌*◌, ◌/◌, ◌%◌, ◌^◌, ◌≤◌, ◌<◌, ◌≡◌, refl, sym, ap, ◌∙◌, ◌≢◌, ◌↔◌, ◌⊎◌, inl,
  inr, Bool, true, false, not, ◌&&◌, ◌||◌, Option, none, some, List, [], ◌∷◌, ◌++◌, append-nil,
  append_assoc, arith, ltb, leb, ◌==◌, if◌then◌else◌, within, ==_iff, Bool-cases, Option-cases,
  Bytes, codes, length, length-append, All, All-append, IsBytes, shr, shl, low_bits, take, drop,
  get_elem?, take-length-append, subst, same, same_iff, count, remove, count-remove, length-remove,
  lookup, erase, keys, lookup-erase, lookup-cons, count-keys-erase, length-erase, le_bytes, read_le,
  length-le_bytes, le_bytes-IsBytes, read_le-le_bytes_4, read_le-le_bytes_8,
}
use Prim.Native.Nat.{bit_xor}
use mathlib.Core.List.{map}

pub record Digest : Type 0 where
  pub hash : Bytes → Bytes
  pub digest_size : ℕ
  pub block_size : ℕ

-- What message_digest documents: the digest has digest_size bytes.
pub record IsDigest (d : Digest) : Type 0 where
  pub hash_size : (m : Bytes) → length (d.hash m) ≡ d.digest_size
  pub hash_bytes : (m : Bytes) → IsBytes (d.hash m)

-- key::from_hex
unfoldable pub from_hex : ℕ → ℕ
from_hex c =
    if leb b'0' c && leb c b'9'
    then c - b'0'
    else if leb b'a' c && leb c b'f'
    then (c - b'a') + 10
    else if leb b'A' c && leb c b'F'
    then (c - b'A') + 10
    else 0

unfoldable pub is_hex : ℕ → Bool
is_hex c = (leb b'0' c && leb c b'9') || (leb b'a' c && leb c b'f') || (leb b'A' c && leb c b'F')

unfoldable pub all_hex : Bytes → Bool
unfolding is_hex
all_hex [] = true
all_hex (c ∷ s) = is_hex c && all_hex s

-- The loop over the pairs of digits, into bytes.
unfoldable pub hex_pairs : Bytes → Bytes
unfolding from_hex
hex_pairs [] = []
hex_pairs (a ∷ []) = []
hex_pairs (a ∷ b ∷ s) = (shl 32 (from_hex a) 4 + from_hex b) % 256 ∷ hex_pairs s

-- key::set_hex; `none` is the exception.
unfoldable pub set_hex : Bytes → Option Bytes
unfolding all_hex hex_pairs
set_hex ptr =
    if not (length ptr % 2 == 0) then none else if all_hex ptr then some (hex_pairs ptr) else none

-- cppcms::impl::tohex
unfoldable pub digit : ℕ → ℕ
digit v = if ltb v 10 then b'0' + v else b'a' + (v - 10)

unfoldable pub tohex : Bytes → Bytes
unfolding digit
tohex [] = []
tohex (v ∷ p) = digit (low_bits (shr v 4) 4) ∷ digit (low_bits v 4) ∷ tohex p

-- memcpy of `src` to the front of `dst`.
unfoldable pub memcpy : Bytes → Bytes → Bytes
memcpy dst [] = dst
memcpy [] (c ∷ src) = []
memcpy (d ∷ dst) (c ∷ src) = c ∷ memcpy dst src

unfoldable pub zeros : ℕ → Bytes
zeros zero = []
zeros (suc n) = 0 ∷ zeros n

unfoldable pub xor_all : ℕ → Bytes → Bytes
xor_all k s = map (λ c. bit_xor c k) s

-- class hmac: the text that `md_` and `md_opad_` have been given since their last readout.
pub record Hmac : Type 0 where
  pub key : Bytes
  pub md : Bytes
  pub md_opad : Bytes

module _ (d : Digest) where
  -- The end of hmac::init: the pads are mixed into the key in its block.
  unfoldable pub add_pads : Bytes → Hmac → Hmac
  unfolding xor_all
  add_pads block h = record h {
    md = h.md ++ xor_all 0x36 block;
    md_opad = h.md_opad ++ xor_all 0x5c block;
  }

  -- hmac::init; the readout of a long key leaves `md_` empty.
  unfoldable pub init : Hmac → Hmac
  unfolding add_pads memcpy zeros
  init h =
      if ltb d.block_size (length h.key)
      then add_pads (memcpy (zeros d.block_size) (d.hash (h.md ++ h.key))) (record h { md = [] })
      else add_pads (memcpy (zeros d.block_size) h.key) h

  -- hmac(digest,key)
  unfoldable pub hmac : Bytes → Hmac
  unfolding init
  hmac key = init (record { key = key; md = []; md_opad = [] })

  unfoldable pub append : Bytes → Hmac → Hmac
  append text h = record h { md = h.md ++ text }

  unfoldable pub readout : Hmac → Bytes × Hmac
  unfolding init
  readout h = (d.hash (h.md_opad ++ d.hash h.md), init (record h { md = []; md_opad = [] }))
