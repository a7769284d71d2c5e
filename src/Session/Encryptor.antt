-- ===== src/Session/Encryptor.antt =====
-- class encryptor: what a session in a cookie asks of a cipher. `nonce` stands for the random start
-- of a cipher that has one.
use cppcms.Prelude.{ℕ, ◌+◌, ◌≤◌, ◌<◌, ◌^◌, ◌≡◌, Option, some, Bytes, length, IsBytes}

pub record Encryptor : Type 0 where
  pub encrypt : Bytes → Bytes → Bytes
  pub decrypt : Bytes → Option Bytes

-- What a client may rely on: what was encrypted is decrypted, and is a string of bytes that is not
-- much longer.
pub record IsEncryptor (e : Encryptor) : Type 0 where
  pub decrypt-encrypt :
      (nonce plain : Bytes)
      → IsBytes plain
      → length plain < 2 ^ 32
      → e.decrypt (e.encrypt nonce plain) ≡ some plain
  pub encrypt_bytes : (nonce plain : Bytes) → IsBytes plain → IsBytes (e.encrypt nonce plain)
  pub overhead : ℕ
  pub encrypt_size :
      (nonce plain : Bytes) → length (e.encrypt nonce plain) ≤ length plain + overhead
