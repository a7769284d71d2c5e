-- ===== src/Session/AesCipher.antt =====
-- src/aes_encryptor.cpp: class aes_cipher, which encrypts a text with its size and signs the
-- result. The block cipher comes from OpenSSL or gcrypt: it is an argument, with the random start
-- that `set_nonce_iv` makes.
use cppcms.Prelude.{
  ℕ, zero, suc, ◌+◌, ◌-◌, ◌*◌, ◌/◌, ◌%◌, ◌^◌, ◌≤◌, ◌<◌, ◌≡◌, refl, sym, ap, ◌∙◌, ◌≢◌, ◌↔◌, ◌⊎◌, inl,
  inr, Bool, true, false, not, ◌&&◌, ◌||◌, Option, none, some, List, [], ◌∷◌, ◌++◌, append-nil,
  append_assoc, arith, ltb, leb, ◌==◌, if◌then◌else◌, within, ==_iff, Bool-cases, Option-cases,
  Bytes, codes, length, length-append, All, All-append, IsBytes, shr, shl, low_bits, take, drop,
  get_elem?, take-length-append, subst, same, same_iff, count, remove, count-remove, length-remove,
  lookup, erase, keys, lookup-erase, lookup-cons, count-keys-erase, length-erase,
  drop-length-append, take-append-drop, length-drop, drop-drop, le_bytes, read_le, length-le_bytes,
  le_bytes-IsBytes, read_le-le_bytes_4, read_le-le_bytes_8,
}
pub mod RoundTrip
use cppcms.Crypto.{Digest, IsDigest, Hmac, hmac, append, readout, memcpy, zeros}
use cppcms.Crypto.Mac.{mac, readout_text, length-mac, mac-IsBytes}
use cppcms.Session.Encryptor.{Encryptor, IsEncryptor}
use cppcms.Session.HmacCipher.{equal, equal_iff}

-- class cbc, with the number of bytes of a block.
pub record Cbc : Type 0 where
  pub block_size : ℕ
  pub encrypt : Bytes → Bytes → Bytes
  pub decrypt : Bytes → Bytes

-- What crypto::cbc documents: whole blocks are encrypted to as many bytes, and all but the first
-- block is decrypted again.
pub record IsCbc (b : Cbc) : Type 0 where
  pub holds_word : 4 ≤ b.block_size
  pub small : b.block_size ≤ 64
  pub encrypt_size : (iv s : Bytes) → length (b.encrypt iv s) ≡ length s
  pub encrypt_bytes : (iv s : Bytes) → IsBytes s → IsBytes (b.encrypt iv s)
  pub decrypt-encrypt :
      (iv s : Bytes)
      → IsBytes s
      → length s % b.block_size ≡ 0
      → drop b.block_size (b.decrypt (b.encrypt iv s)) ≡ drop b.block_size s

module _ (b : Cbc) where
  -- The bytes that the blocks take, one more than the size and the text need. The size is a uint32_t.
  unfoldable pub blocks_size : ℕ → ℕ
  blocks_size size =
      (size % 2 ^ 32 + 4 + (b.block_size - 1)) / b.block_size * b.block_size + b.block_size

  -- `input` behind the two calls of memcpy; the size is a uint32_t.
  unfoldable pub padded : Bytes → Bytes
  unfolding blocks_size memcpy zeros
  padded plain =
      zeros b.block_size
      ++ memcpy (zeros (blocks_size (length plain) - b.block_size))
          (le_bytes 4 (length plain) ++ plain)

  -- The part of `decrypt` behind the signature, on the decrypted blocks.
  unfoldable pub unpad : ℕ → Bytes → Option Bytes
  unpad real_size full_plain =
      let size = read_le 4 (drop b.block_size full_plain) in
      if ltb ((real_size + 2 ^ 64 - b.block_size - 4) % 2 ^ 64) size
      then none
      else some (take size (drop (b.block_size + 4) full_plain))

unfoldable pub sign : Digest → Bytes → Bytes → Bytes
sign d key text = text ++ (readout d (append d text (hmac d key))).0

module _ (b : Cbc) (d : Digest) (key : Bytes) where
  unfoldable pub encrypt : Bytes → Bytes → Bytes
  unfolding padded
  encrypt iv plain = sign d key (b.encrypt iv (padded b plain))

  unfoldable pub decrypt : Bytes → Option Bytes
  decrypt cipher =
      let real_size = length cipher - d.digest_size in
      let signed_text = take real_size cipher in
      if ltb (length cipher) (d.digest_size + b.block_size)
      then none
      else if not (real_size % b.block_size == 0)
      then none
      else if ltb (real_size / b.block_size) 2
      then none
      else if not (equal (readout d (append d signed_text (hmac d key))).0 (drop real_size cipher))
      then none
      else unpad b real_size (b.decrypt signed_text)
