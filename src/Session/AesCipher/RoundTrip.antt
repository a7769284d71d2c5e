-- ===== src/Session/AesCipher/RoundTrip.antt =====
-- src/aes_encryptor.cpp: decrypting what aes_cipher encrypted.
use native.Mathlib.Nat.{le-div_iff_mul-le}
use native.Mathlib.Nat.{add_comm}
use cppcms.Prelude.{
  le_bytes-IsBytes, ℕ, zero, suc, ◌+◌, ◌-◌, ◌*◌, ◌/◌, ◌%◌, ◌^◌, ◌≤◌, ◌<◌, ◌≡◌, refl, sym, ap, ◌∙◌,
  inl, inr, false, not, none, some, [], ◌∷◌, ◌++◌, append_assoc, arith, ltb, ◌==◌, if◌then◌else◌,
  Bool-cases, Bytes, length, length-append, All-append, IsBytes, take, drop, take-length-append,
  subst, length-take, drop-length-append, take-append-drop, length-drop, drop-drop, le_bytes,
  read_le, read_le-le_bytes_4,
}
use native.Mathlib.Nat.{
  lt-div-mul-add, div-mul-le_self, add-mul-mod_self_right, add-mul-div_right, mod_self, div_self,
  zero-mul,
}
use cppcms.Crypto.{Digest, IsDigest, memcpy, zeros}
use cppcms.Crypto.Mac.{mac, readout_text, length-mac, mac-IsBytes}
use cppcms.Session.Encryptor.{Encryptor, IsEncryptor}
use cppcms.Session.HmacCipher.{equal, equal_iff}
use cppcms.Session.AesCipher.{Cbc, IsCbc, blocks_size, padded, sign, encrypt, unpad, decrypt}

length-zeros : (n : ℕ) → length (zeros n) ≡ n
unfolding zeros
length-zeros zero = refl
length-zeros (suc n) = omega (arith, length-zeros n)

length-memcpy : (dst src : Bytes) → length (memcpy dst src) ≡ length dst
unfolding memcpy
length-memcpy [] [] = refl
length-memcpy (x ∷ dst) [] = refl
length-memcpy [] (c ∷ src) = refl
length-memcpy (x ∷ dst) (c ∷ src) = omega (arith, length-memcpy dst src)

zeros-IsBytes : (n : ℕ) → IsBytes (zeros n)
unfolding zeros
zeros-IsBytes zero = tt
zeros-IsBytes (suc n) = (omega arith, zeros-IsBytes n)

memcpy-IsBytes : (dst src : Bytes) → IsBytes dst → IsBytes src → IsBytes (memcpy dst src)
unfolding memcpy
memcpy-IsBytes [] [] u v = tt
memcpy-IsBytes (x ∷ dst) [] u v = u
memcpy-IsBytes [] (c ∷ src) u v = tt
memcpy-IsBytes (x ∷ dst) (c ∷ src) (le, u) (lt, v) = (lt, memcpy-IsBytes dst src u v)

padded-IsBytes : (b : Cbc) (plain : Bytes) → IsBytes plain → IsBytes (padded b plain)
unfolding padded
padded-IsBytes b plain v =
    All-append (λ x. x < 256) (zeros b.block_size) _ (zeros-IsBytes b.block_size)
      (memcpy-IsBytes (zeros (blocks_size b (length plain) - b.block_size))
        (le_bytes 4 (length plain) ++ plain)
        (zeros-IsBytes (blocks_size b (length plain) - b.block_size))
        (All-append (λ x. x < 256) (le_bytes 4 (length plain)) plain
          (le_bytes-IsBytes 4 (length plain)) v))

memcpy_fits :
    (dst src : Bytes) → length src ≤ length dst → memcpy dst src ≡ src ++ drop (length src) dst
unfolding memcpy
memcpy_fits dst [] h = refl
memcpy_fits [] (c ∷ src) h = absurd (omega arith)
memcpy_fits (x ∷ dst) (c ∷ src) h = ap (◌∷◌ c) (memcpy_fits dst src (omega arith))

pos_of_mul : (q b : ℕ) → 0 < q * b → 1 ≤ q
pos_of_mul zero b h = absurd (omega (arith, zero-mul b))
pos_of_mul (suc q) b h = omega arith

mod-mul_add : (q z : ℕ) → (q * z + z) % z ≡ 0
mod-mul_add q z = ap (λ t. t % z) (add_comm (q * z) z) ∙ add-mul-mod_self_right z q z ∙ mod_self z

div-mul_add : (q z : ℕ) → 0 < z → (q * z + z) / z ≡ 1 + q
div-mul_add q z h =
    ap (λ t. t / z) (add_comm (q * z) z) ∙ add-mul-div_right z q h ∙ ap (λ t. t + q) (div_self h)

module _ (b : Cbc) (c : IsCbc b) where
  -- Whole blocks, at least two of them, with room for the size and the text, and not much more.
  blocks_size_blocks :
      (size : ℕ)
      → (blocks_size b size % b.block_size ≡ 0)
        × (2 ≤ blocks_size b size / b.block_size)
        × (size % 2 ^ 32 + 4 + b.block_size ≤ blocks_size b size)
        × (blocks_size b size ≤ size % 2 ^ 32 + 4 + 2 * b.block_size)
  unfolding blocks_size
  blocks_size_blocks size = (
    mod-mul_add q b.block_size,
    omega (
      arith,
      div-mul_add q b.block_size (omega arith),
      pos_of_mul q b.block_size (omega (arith, enough)),
    ),
    omega (arith, enough),
    omega (arith, div-mul-le_self (size % 2 ^ 32 + 4 + (b.block_size - 1)) b.block_size),
  )
    where
      q : ℕ
      q = (size % 2 ^ 32 + 4 + (b.block_size - 1)) / b.block_size

      enough : size % 2 ^ 32 + 4 ≤ q * b.block_size
      enough = omega (
        arith,
        lt-div-mul-add {a = size % 2 ^ 32 + 4 + (b.block_size - 1)} {b = b.block_size}
            (omega arith),
      )

  length-padded : (plain : Bytes) → length (padded b plain) ≡ blocks_size b (length plain)
  unfolding padded
  length-padded plain =
      let total = blocks_size b (length plain) in
      let body = le_bytes 4 (length plain) ++ plain in
      omega (
        arith,
        length-append (zeros b.block_size) (memcpy (zeros (total - b.block_size)) body),
        length-zeros b.block_size,
        length-memcpy (zeros (total - b.block_size)) body,
        length-zeros (total - b.block_size),
        blocks_size_blocks (length plain),
      )

  module _ (plain : Bytes) (lt : length plain < 2 ^ 32) where
    abbrev total : ℕ
    total = blocks_size b (length plain)

    abbrev body : Bytes
    body = le_bytes 4 (length plain) ++ plain

    abbrev rest : Bytes
    rest = drop (length body) (zeros (total - b.block_size))

    -- Behind the first block stand the size, the text, and zeros.
    drop-padded : drop b.block_size (padded b plain) ≡ body ++ rest
    unfolding padded
    drop-padded =
        ap (λ n. drop n (padded b plain)) (sym (length-zeros b.block_size))
        ∙ drop-length-append (zeros b.block_size) _
        ∙ memcpy_fits (zeros (total - b.block_size)) body (
            omega (
              arith,
              blocks_size_blocks (length plain),
              length-zeros (total - b.block_size),
              length-append (le_bytes 4 (length plain)) plain,
            ))

    unpad-padded :
        (full : Bytes) → drop b.block_size full ≡ body ++ rest → unpad b total full ≡ some plain
    unfolding unpad
    unpad-padded full e = rw size_read (rw (fits, text_read) refl)
      where
        size_read : read_le 4 (drop b.block_size full) ≡ length plain
        size_read =
            ap (read_le 4) (e ∙ append_assoc (le_bytes 4 (length plain)) plain rest)
            ∙ read_le-le_bytes_4 (length plain) (plain ++ rest) lt

        text_read : take (length plain) (drop (b.block_size + 4) full) ≡ plain
        text_read =
            ap (take (length plain)) (sym (drop-drop b.block_size 4 full) ∙ ap (drop 4) e)
            ∙ take-length-append plain rest

        fits : ltb ((total + 2 ^ 64 - b.block_size - 4) % 2 ^ 64) (length plain) ≡ false
        fits = ground (arith, blocks_size_blocks (length plain))

module _ (b : Cbc) (c : IsCbc b) (d : Digest) (v : IsDigest d) (key : Bytes) where
  sign-mac : (text : Bytes) → sign d key text ≡ text ++ mac d key text
  unfolding sign
  sign-mac text = ap (λ r. text ++ r.0) (readout_text d key text)

  decrypt_parts :
      (text tag : Bytes)
      → length tag ≡ d.digest_size
      → decrypt b d key (text ++ tag) ≡ (
          if ltb (length text + d.digest_size) (d.digest_size + b.block_size)
          then none
          else if not (length text % b.block_size == 0)
          then none
          else if ltb (length text / b.block_size) 2
          then none
          else if not (equal (mac d key text) tag)
          then none
          else unpad b (length text) (b.decrypt text))
  unfolding decrypt
  decrypt_parts text tag h =
      rw
        (
          real_size,
          take-length-append text tag,
          drop-length-append text tag,
          length-append text tag,
          h,
        )
        (rw (readout_text d key text) refl)
    where
      real_size : length (text ++ tag) - d.digest_size ≡ length text
      real_size = omega (arith, length-append text tag)

  -- Signed whole blocks are decrypted and unpadded.
  decrypt-sign :
      (text : Bytes)
      → length text % b.block_size ≡ 0
      → 2 ≤ length text / b.block_size
      → b.block_size ≤ length text
      → decrypt b d key (sign d key text) ≡ unpad b (length text) (b.decrypt text)
  decrypt-sign text whole two enough =
      rw (sign-mac text, decrypt_parts text (mac d key text) (length-mac d v key text))
        (ground (arith, equal_iff (mac d key text) (mac d key text)))

  -- A string of fewer than 2^32 bytes that aes_cipher encrypts it decrypts, whatever the random start
  -- was, with any block cipher and digest that do what their interfaces document.
  pub decrypt-encrypt :
      (iv plain : Bytes)
      → IsBytes plain
      → length plain < 2 ^ 32
      → decrypt b d key (encrypt b d key iv plain) ≡ some plain
  unfolding encrypt
  decrypt-encrypt iv plain bytes lt =
      let (whole, two, enough, most) = blocks_size_blocks b c (length plain) in
      let size : length (b.encrypt iv (padded b plain)) ≡ blocks_size b (length plain) =
        c.encrypt_size iv (padded b plain) ∙ length-padded b c plain in
      decrypt-sign (b.encrypt iv (padded b plain)) (ap (λ n. n % b.block_size) size ∙ whole)
        (rw size two) (omega (arith, size))
      ∙ ap (λ n. unpad b n (b.decrypt (b.encrypt iv (padded b plain)))) size
      ∙ unpad-padded b c plain lt _ (
          c.decrypt-encrypt iv (padded b plain) (padded-IsBytes b plain bytes)
            (ap (λ n. n % b.block_size) (length-padded b c plain) ∙ whole)
          ∙ drop-padded b c plain lt)

  unpad-some :
      (n : ℕ) (full plain : Bytes)
      → n < 2 ^ 63
      → b.block_size + 4 ≤ n
      → unpad b n full ≡ some plain
      → length plain + b.block_size + 4 ≤ n
  unfolding unpad
  unpad-some n full plain lt enough h =
      ground
        (arith, length-take (read_le 4 (drop b.block_size full)) (drop (b.block_size + 4) full))

  two_blocks : (n : ℕ) → 2 ≤ n / b.block_size → b.block_size + 4 ≤ n
  two_blocks n h =
      omega (arith, (le-div_iff_mul-le {k = b.block_size} {x = 2} {y = n} (omega arith)).0 h)

  -- Of fewer than 2^63 bytes nothing is decrypted that is not signed, and the plain text lies within
  -- the blocks: behind the first block and the size.
  pub decrypt-some :
      (cipher plain : Bytes)
      → length cipher < 2 ^ 63
      → decrypt b d key cipher ≡ some plain
      → (text : Bytes) × (cipher ≡ sign d key text)
        × (length plain + b.block_size + 4 ≤ length text)
  decrypt-some cipher plain lt h = elim (Bool-cases (ltb (length cipher) d.digest_size)) [
    | inl short ↦ absurd (unfold decrypt in ground arith)
    | inr long ↦
        of_parts (take n cipher) (drop n cipher) (sym (take-append-drop n cipher))
          (ground (arith, length-drop n cipher))
  ]
    where
      n : ℕ
      n = length cipher - d.digest_size

      of_parts :
          (text tag : Bytes)
          → cipher ≡ text ++ tag
          → length tag ≡ d.digest_size
          → (text : Bytes) × (cipher ≡ sign d key text)
            × (length plain + b.block_size + 4 ≤ length text)
      of_parts text tag e m =
          let f : decrypt b d key (text ++ tag) ≡ some plain =
            subst (λ c. decrypt b d key c ≡ some plain) e h in
          (
            text,
            ground (
              arith,
              decrypt_parts text tag m,
              equal_iff (mac d key text) tag,
              length-mac d v key text,
              sign-mac text,
            ),
            ground (
              arith,
              decrypt_parts text tag m,
              two_blocks (length text),
              unpad-some (length text) (b.decrypt text) plain,
              ap length e,
              length-append text tag,
            ),
          )

  encrypt-IsBytes : (iv plain : Bytes) → IsBytes plain → IsBytes (encrypt b d key iv plain)
  unfolding encrypt
  encrypt-IsBytes iv plain bytes = rw (sign-mac (b.encrypt iv (padded b plain))) (
      All-append (λ x. x < 256) (b.encrypt iv (padded b plain)) _
        (c.encrypt_bytes iv _ (padded-IsBytes b plain bytes)) (mac-IsBytes d v key _))

  -- The first block, the size, the rest of the last block, and the signature.
  abbrev pub overhead : ℕ
  overhead = 4 + 2 * b.block_size + d.digest_size

  encrypt-length : (iv plain : Bytes) → length (encrypt b d key iv plain) ≤ length plain + overhead
  unfolding encrypt
  encrypt-length iv plain =
      let text = b.encrypt iv (padded b plain) in
      let (whole, two, enough, most) = blocks_size_blocks b c (length plain) in
      rw (sign-mac text) (
        omega (
          arith,
          length-append text (mac d key text),
          length-mac d v key text,
          c.encrypt_size iv (padded b plain),
          length-padded b c plain,
          most,
        ))

-- The cipher is an encryptor.
unfoldable pub cipher : Cbc → Digest → Bytes → Encryptor
cipher b d key = record { encrypt = encrypt b d key; decrypt = decrypt b d key }

pub cipher-IsEncryptor :
    (b : Cbc) → IsCbc b → (d : Digest) → IsDigest d → (key : Bytes) → IsEncryptor (cipher b d key)
unfolding cipher
cipher-IsEncryptor b c d v key = record {
  decrypt-encrypt = decrypt-encrypt b c d v key;
  encrypt_bytes = encrypt-IsBytes b c d v key;
  overhead = overhead b c d v key;
  encrypt_size = encrypt-length b c d v key;
}
