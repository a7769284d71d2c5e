-- ===== src/Session/HmacCipher.antt =====
-- src/hmac_encryptor.cpp: class hmac_cipher, which signs a text and leaves it readable.
use cppcms.Crypto.Mac.{length-mac}
use cppcms.Crypto.Mac.{mac-IsBytes}
use cppcms.Crypto.Mac.{readout_text}
use cppcms.Prelude.{
  ℕ, ◌+◌, ◌-◌, ◌≤◌, ◌<◌, ◌≡◌, refl, sym, ◌↔◌, inl, inr, Bool, true, false, Option, none, some, [],
  ◌∷◌, ◌++◌, arith, ltb, ◌==◌, if◌then◌else◌, Bool-cases, Bytes, length, length-append, All-append,
  IsBytes, take, drop, take-length-append, subst, drop-length-append, take-append-drop, length-drop,
}
use cppcms.Crypto.{Digest, IsDigest, hmac, append, readout}
use cppcms.Crypto.Mac.{mac}
use cppcms.Session.Encryptor.{Encryptor, IsEncryptor}

-- hmac_cipher(hash_name,k); `none` is the exception for a short key.
unfoldable pub hmac_cipher : Bytes → Option Bytes
hmac_cipher k = if ltb (length k) 16 then none else some k

-- The loop of hmac_cipher::equal over both texts.
unfoldable pub diff : Bytes → Bytes → ℕ
diff (a ∷ left) (b ∷ right) = (if a == b then 0 else 1) + diff left right
diff left right = 0

unfoldable pub equal : Bytes → Bytes → Bool
unfolding diff
equal left right = diff left right == 0

module _ (d : Digest) (key : Bytes) where
  unfoldable pub encrypt : Bytes → Bytes
  encrypt plain = plain ++ (readout d (append d plain (hmac d key))).0

  unfoldable pub decrypt : Bytes → Option Bytes
  decrypt cipher =
      if ltb (length cipher) d.digest_size
      then none
      else let message = take (length cipher - d.digest_size) cipher in
        let tag = drop (length cipher - d.digest_size) cipher in
        if equal (readout d (append d message (hmac d key))).0 tag then some message else none

pub equal_iff : (a b : Bytes) → length a ≡ length b → (equal a b ≡ true) ↔ (a ≡ b)
unfolding equal diff
equal_iff [] [] h = ground arith
equal_iff [] (y ∷ b) h = absurd (omega arith)
equal_iff (x ∷ a) [] h = absurd (omega arith)
equal_iff (x ∷ a) (y ∷ b) h = ground (arith, equal_iff a b (omega arith))

module _ (d : Digest) (v : IsDigest d) (key : Bytes) where
  encrypt_mac : (plain : Bytes) → encrypt d key plain ≡ plain ++ mac d key plain
  unfolding encrypt
  encrypt_mac plain = rw (readout_text d key plain) refl

  decrypt_parts :
      (message tag : Bytes)
      → length tag ≡ d.digest_size
      → decrypt d key (message ++ tag)
        ≡ (if equal (mac d key message) tag then some message else none)
  unfolding decrypt
  decrypt_parts message tag h =
      rw (long, size, take-length-append message tag, drop-length-append message tag)
        (rw (readout_text d key message) refl)
    where
      size : length (message ++ tag) - d.digest_size ≡ length message
      size = omega (arith, length-append message tag)

      long : ltb (length (message ++ tag)) d.digest_size ≡ false
      long = ground (arith, length-append message tag)

  decrypt-encrypt : (plain : Bytes) → decrypt d key (encrypt d key plain) ≡ some plain
  decrypt-encrypt plain =
      rw (encrypt_mac plain, decrypt_parts plain (mac d key plain) (length-mac d v key plain))
        (rw ((equal_iff (mac d key plain) (mac d key plain) refl).1 refl) refl)

  decrypt_split :
      (cipher : Bytes)
      → d.digest_size ≤ length cipher
      → (message : Bytes) × (tag : Bytes) × (cipher ≡ message ++ tag) × (length tag ≡ d.digest_size)
  decrypt_split cipher h = (
    take (length cipher - d.digest_size) cipher,
    drop (length cipher - d.digest_size) cipher,
    sym (take-append-drop (length cipher - d.digest_size) cipher),
    omega (arith, length-drop (length cipher - d.digest_size) cipher),
  )

  -- A text is decrypted exactly if it is a signed one, and then to what was signed: no other
  -- signature is taken for a text than the one that `encrypt` puts behind it.
  pub decrypt-some_iff :
      (cipher plain : Bytes) → (decrypt d key cipher ≡ some plain) ↔ (cipher ≡ encrypt d key plain)
  decrypt-some_iff cipher plain = (
    λ h. elim (Bool-cases (ltb (length cipher) d.digest_size)) [
      | inl short ↦ absurd (unfold decrypt in ground arith)
      | inr long ↦
          let (message, tag, e, n) = decrypt_split cipher (ground arith) in
          let f : decrypt d key (message ++ tag) ≡ some plain =
            subst (λ c. decrypt d key c ≡ some plain) e h in
          ground (
            arith,
            decrypt_parts message tag n,
            equal_iff (mac d key message) tag,
            length-mac d v key message,
            encrypt_mac plain,
          )
    ],
    λ h. rw h (decrypt-encrypt plain),
  )

  pub encrypt-IsBytes : (plain : Bytes) → IsBytes plain → IsBytes (encrypt d key plain)
  encrypt-IsBytes plain b =
      rw (encrypt_mac plain) (All-append (λ c. c < 256) plain _ b (mac-IsBytes d v key plain))

  encrypt-length : (plain : Bytes) → length (encrypt d key plain) ≤ length plain + d.digest_size
  encrypt-length plain =
      rw (encrypt_mac plain)
        (omega (arith, length-append plain (mac d key plain), length-mac d v key plain))

-- The signing cipher is an encryptor.
unfoldable pub cipher : Digest → Bytes → Encryptor
cipher d key = record { encrypt = λ nonce. encrypt d key; decrypt = decrypt d key }

pub cipher-IsEncryptor : (d : Digest) → IsDigest d → (key : Bytes) → IsEncryptor (cipher d key)
unfolding cipher
cipher-IsEncryptor d v key = record {
  decrypt-encrypt = λ nonce plain b lt. decrypt-encrypt d v key plain;
  encrypt_bytes = λ nonce. encrypt-IsBytes d v key;
  overhead = d.digest_size;
  encrypt_size = λ nonce. encrypt-length d v key;
}

pub cipher-overhead :
    (d : Digest) (v : IsDigest d) (key : Bytes)
    → (cipher-IsEncryptor d v key).overhead ≡ d.digest_size
unfolding cipher-IsEncryptor
cipher-overhead d v key = refl
