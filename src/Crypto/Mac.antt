-- ===== src/Crypto/Mac.antt =====
-- src/crypto.cpp: class hmac against HMAC.
use cppcms.Prelude.{
  ◌≡◌, refl, inl, inr, [], ◌++◌, append_assoc, ltb, if◌then◌else◌, Bool-cases, Bytes, length,
  IsBytes,
}
use cppcms.Crypto.{Digest, IsDigest, add_pads, init, hmac, append, readout, xor_all, memcpy, zeros}

module _ (d : Digest) where
  -- The key in a block: hashed first if it is longer.
  unfoldable pub key_block : Bytes → Bytes
  key_block key =
      memcpy (zeros d.block_size) (if ltb d.block_size (length key) then d.hash key else key)

  -- HMAC as RFC 2104 defines it, with the key in a block.
  unfoldable pub mac : Bytes → Bytes → Bytes
  mac key text =
      d.hash (xor_all 0x5c (key_block key) ++ d.hash (xor_all 0x36 (key_block key) ++ text))

  init_lem :
      (key : Bytes)
      → init d (record { key = key; md = []; md_opad = [] }) ≡ record {
        key = key;
        md = xor_all 0x36 (key_block key);
        md_opad = xor_all 0x5c (key_block key);
      }
  unfolding init key_block add_pads
  init_lem key = elim (Bool-cases (ltb d.block_size (length key))) [
    | inl long ↦ rw long refl
    | inr short ↦ rw short refl
  ]

  fresh :
      (key : Bytes)
      → hmac d key ≡ record {
        key = key;
        md = xor_all 0x36 (key_block key);
        md_opad = xor_all 0x5c (key_block key);
      }
  unfolding hmac
  fresh key = init_lem key

  -- A fresh object, given a text in two pieces, computes HMAC of the text as RFC 2104 defines it, and
  -- is then as fresh as it was.
  pub readout-hmac :
      (key a b : Bytes)
      → readout d (append d b (append d a (hmac d key))) ≡ (mac key (a ++ b), hmac d key)
  unfolding readout append mac
  readout-hmac key a b =
      rw (fresh key) (rw (append_assoc (xor_all 0x36 (key_block key)) a b, init_lem key) refl)

  pub readout_text :
      (key text : Bytes) → readout d (append d text (hmac d key)) ≡ (mac key text, hmac d key)
  unfolding readout append mac
  readout_text key text = rw (fresh key) (rw (init_lem key) refl)

  pub length-mac : IsDigest d → (key text : Bytes) → length (mac key text) ≡ d.digest_size
  unfolding mac
  length-mac v key text = v.hash_size _

  pub mac-IsBytes : IsDigest d → (key text : Bytes) → IsBytes (mac key text)
  unfolding mac
  mac-IsBytes v key text = v.hash_bytes _
