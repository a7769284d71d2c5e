-- ===== src/Session/Cookies.antt =====
-- src/session_cookies.cpp: class session_cookies, which keeps a session in its cookie. A time_t is
-- 8 bytes, and `now` is time(0).
use cppcms.Prelude.{
  ℕ, ◌+◌, ◌*◌, ◌^◌, ◌≤◌, ◌<◌, ◌≡◌, refl, ◌∙◌, inl, inr, Bool, true, false, not, Option, none, some,
  [], ◌∷◌, ◌++◌, arith, ltb, ◌==◌, if◌then◌else◌, Option-cases, Bytes, length, length-append,
  All-append, IsBytes, drop, le_bytes, read_le, le_bytes-IsBytes, read_le-le_bytes_8,
}
use cppcms.Base64.{encode, decode}
use cppcms.Base64.RoundTrip.{decode-encode}
use cppcms.Session.Encryptor.{Encryptor, IsEncryptor}
use cppcms.Crypto.{Digest, IsDigest}
use cppcms.Session.HmacCipher
use cppcms.Session.Client.{Client, set_session_cookie, clear_session_cookie, next_request}

module _ (e : Encryptor) where
  -- `none` is the exception for what has to stay on the server, or that of `encode`.
  unfoldable pub save : Bytes → Client → Bytes → ℕ → Bool → Option Client
  unfolding set_session_cookie
  save nonce session content timeout on_server =
      if on_server then none else elim (encode (e.encrypt nonce (le_bytes 8 timeout ++ content))) [
        | none ↦ none
        | some cookie ↦ some (set_session_cookie (b'C' ∷ cookie) session)
      ]

  -- The part of `load` behind the decryption, on the plain text.
  unfoldable pub open_plain : ℕ → Bytes → Option (Bytes × ℕ)
  open_plain now tmp =
      if ltb (length tmp) 8
      then none
      else if ltb (read_le 8 tmp) now
      then none
      else some (drop 8 tmp, read_le 8 tmp)

  -- What `load` reads from a cookie.
  unfoldable pub open_cookie : ℕ → Bytes → Option (Bytes × ℕ)
  unfolding open_plain
  open_cookie now [] = none
  open_cookie now (c ∷ cdata) =
      if not (c == b'C')
      then none
      else if not (decode cdata []).0
      then none
      else elim (e.decrypt (decode cdata []).1) [ none ↦ none | some tmp ↦ open_plain now tmp ]

  -- Each failure but that of a missing cookie clears the cookie, and clearing an empty cookie does
  -- nothing.
  unfoldable pub load : ℕ → Client → Option (Bytes × ℕ) × Client
  unfolding open_cookie clear_session_cookie
  load now session = elim (open_cookie now session.cookie) [
    | none ↦ (none, clear_session_cookie session)
    | some found ↦ (some found, session)
  ]

  unfoldable pub clear : Client → Client
  unfolding clear_session_cookie
  clear session = clear_session_cookie session

pub decode-encode_whole :
    (s : Bytes)
    → IsBytes s
    → length s < 3 * 2 ^ 29
    → (text : Bytes) × (encode s ≡ some text) × (decode text [] ≡ (true, s))
decode-encode_whole [] b small = decode-encode [] [] b small
decode-encode_whole (c ∷ s) b small =
    let (text, e, d) = decode-encode (c ∷ s) [] b small in (text, e, d ∙ ground arith)

save_text :
    (e : Encryptor) (nonce content : Bytes) (timeout : ℕ) (session : Client) (text : Bytes)
    → encode (e.encrypt nonce (le_bytes 8 timeout ++ content)) ≡ some text
    → save e nonce session content timeout false ≡ some (set_session_cookie (b'C' ∷ text) session)
unfolding save
save_text e nonce content timeout session text h = rw h refl

load_found :
    (e : Encryptor) (now : ℕ) (session : Client) (found : Bytes × ℕ)
    → open_cookie e now session.cookie ≡ some found
    → load e now session ≡ (some found, session)
unfolding load
load_found e now session found h = rw (h, load) refl

module _ (e : Encryptor) (v : IsEncryptor e) (nonce content : Bytes) (timeout now : ℕ)
    (b : IsBytes content) (small : length content + 8 + v.overhead < 3 * 2 ^ 29)
    (fits : timeout < 2 ^ 64) (live : now ≤ timeout) where
  abbrev plain : Bytes
  plain = le_bytes 8 timeout ++ content

  length-plain : length plain ≡ length content + 8
  length-plain = omega (arith, length-append (le_bytes 8 timeout) content)

  plain-IsBytes : IsBytes plain
  plain-IsBytes =
      All-append (λ x. x < 256) (le_bytes 8 timeout) content (le_bytes-IsBytes 8 timeout) b

  decrypted : e.decrypt (e.encrypt nonce plain) ≡ some plain
  decrypted = v.decrypt-encrypt nonce plain plain-IsBytes (omega (arith, length-plain))

  plain_opened : open_plain e now plain ≡ some (content, timeout)
  unfolding open_plain
  plain_opened =
      rw (read_le-le_bytes_8 timeout content fits)
        (ground (arith, length-append (le_bytes 8 timeout) content))

  -- The text of the cookie, and what is read from it.
  pub opened :
      (text : Bytes) × (encode (e.encrypt nonce plain) ≡ some text)
      × (open_cookie e now (b'C' ∷ text) ≡ some (content, timeout))
  unfolding open_cookie
  opened =
      let (text, f, d) =
        decode-encode_whole (e.encrypt nonce plain) (v.encrypt_bytes nonce plain plain-IsBytes)
          (omega (arith, v.encrypt_size nonce plain, length-plain)) in
      (text, f, rw (d, open_cookie) (rw (decrypted, open_cookie) plain_opened))

  -- `save` returns, and what it puts into the cookie `load` finds at the next request, up to the
  -- time of the end of the session, with any cipher that decrypts what it encrypts, if the content is
  -- a string of bytes, the time has 64 bits, and the encrypted content with its time has fewer than
  -- 3 * 2^29 bytes. The cookie starts with the letter of a client's session.
  pub load-save_client :
      (session : Client)
      → (saved : Client) × (save e nonce session content timeout false ≡ some saved)
        × ((text : Bytes) × (saved.temp_cookie ≡ b'C' ∷ text))
        × (load e now (next_request saved) ≡ (some (content, timeout), next_request saved))
  load-save_client session =
      let (text, f, g) = opened in
      (
        set_session_cookie (b'C' ∷ text) session,
        save_text e nonce content timeout session text f,
        (text, (unfold set_session_cookie in refl)),
        load_found e now (next_request (set_session_cookie (b'C' ∷ text) session))
            (content, timeout) (unfold set_session_cookie in g),
      )

module _ (d : Digest) (v : IsDigest d) (key : Bytes) where
  -- With the signing cipher, whatever `load` takes from a cookie was signed with the key, together
  -- with its time, which is not over: a client can neither change the content nor the time.
  pub open_cookie-signed :
      (now timeout : ℕ) (cdata content : Bytes)
      → open_cookie (HmacCipher.cipher d key) now (b'C' ∷ cdata) ≡ some (content, timeout)
      → (text : Bytes) × ((decode cdata []).1 ≡ HmacCipher.encrypt d key text)
        × (content ≡ drop 8 text)
        × (timeout ≡ read_le 8 text)
        × (now ≤ timeout)
  open_cookie-signed now timeout cdata content h =
      elim (Option-cases (HmacCipher.decrypt d key (decode cdata []).1)) [
        | inl refused ↦ absurd (unfold open_cookie HmacCipher.cipher in ground arith)
        | inr (text, e) ↦ (
          text,
          (HmacCipher.decrypt-some_iff d v key (decode cdata []).1 text).0 e,
          unfold open_cookie HmacCipher.cipher open_plain in ground arith,
          unfold open_cookie HmacCipher.cipher open_plain in ground arith,
          unfold open_cookie HmacCipher.cipher open_plain in ground arith,
        )
      ]
