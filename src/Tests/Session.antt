-- ===== src/Tests/Session.antt =====
-- Sessions with a digest, a cipher and a storage of a few lines.
use cppcms.Prelude.{
  ℕ, ◌+◌, ◌%◌, ◌*◌, ◌^◌, ◌<◌, ◌≤◌, sym, ◌∙◌, subst, ◌≡◌, refl, ◌≢◌, true, false, none, some, List,
  [], ◌∷◌, ◌++◌, arith, Bytes, codes, length, IsBytes, drop, same, same_iff, count, lookup, keys,
  le_bytes, read_le,
}
use cppcms.Multimap.{times_of}
use cppcms.Base64.{encode_range, decode}
use cppcms.Base64.RoundTrip.{encode-encode_range}
use cppcms.Crypto.{Digest, IsDigest, hmac, append, readout}
use cppcms.Crypto.Mac.{mac, readout-hmac}
use cppcms.Session.HmacCipher
use cppcms.Session.AesCipher
use cppcms.Session.AesCipher.{Cbc, IsCbc, sign}
use cppcms.Session.AesCipher.RoundTrip as AesRoundTrip
use cppcms.Session.Client.{Client, next_request}
use cppcms.Session.Cookies
use cppcms.Session.MemoryStorage
use cppcms.Session.MemoryStorage.{Memory, IsValid, memory, empty}
use cppcms.Session.Sid
use cppcms.Session.Dual
use cppcms.Session.Packing
use cppcms.Session.Packing.RoundTrip.{load_data-save_data}

abbrev sum : Bytes → ℕ
sum [] = 0
sum (c ∷ s) = c + sum s

-- A digest of two bytes: the sum and the length.
abbrev pub checksum : Digest
checksum = record {
  hash = λ m. (sum m % 256) ∷ (length m % 256) ∷ [];
  digest_size = 2;
  block_size = 4;
}

pub checksum-IsDigest : IsDigest checksum
checksum-IsDigest = record {
  hash_size = λ m. refl;
  hash_bytes = λ m. (omega arith, (omega arith, tt));
}

-- A cipher that leaves its blocks as they are.
abbrev identity : Cbc
identity = record { block_size = 4; encrypt = λ iv s. s; decrypt = λ s. s }

identity-IsCbc : IsCbc identity
identity-IsCbc = record {
  holds_word = omega arith;
  small = omega arith;
  encrypt_size = λ iv s. refl;
  encrypt_bytes = λ iv s b. b;
  decrypt-encrypt = λ iv s b h. refl;
}

abbrev pub key : Bytes
key = codes "key"

abbrev text : Bytes
text = codes "user=7"

text-IsBytes : IsBytes text
text-IsBytes = ground arith

readout-hmac_example :
    readout checksum (append checksum (codes "b") (append checksum (codes "a") (hmac checksum key)))
    ≡ (mac checksum key (codes "a" ++ codes "b"), hmac checksum key)
readout-hmac_example = readout-hmac checksum key (codes "a") (codes "b")

aes_text :
    AesCipher.decrypt identity checksum key (AesCipher.encrypt identity checksum key [] text)
    ≡ some text
aes_text =
    AesRoundTrip.decrypt-encrypt identity identity-IsCbc checksum checksum-IsDigest key [] text
      text-IsBytes (omega arith)

aes_decrypt-some_example :
    (signed_text : Bytes) × (AesCipher.encrypt identity checksum key [] text
      ≡ sign checksum key signed_text)
    × (length text + 4 + 4 ≤ length signed_text)
aes_decrypt-some_example =
    AesRoundTrip.decrypt-some identity identity-IsCbc checksum checksum-IsDigest key
      (AesCipher.encrypt identity checksum key [] text) text
      (unfold AesCipher.encrypt sign append readout hmac in omega arith) aes_text

abbrev pub visitor : Client
visitor = record { cookie = []; temp_cookie = []; dropped = false }

abbrev one_session : Memory
one_session = MemoryStorage.save 10 (codes "a") 100 text empty

pub empty-IsValid : IsValid empty
empty-IsValid = record { in_timeout = λ k. (unfold times_of lookup in refl) }

one_session-IsValid : IsValid one_session
one_session-IsValid = MemoryStorage.save-IsValid 10 (codes "a") 100 text empty empty-IsValid

memory_load-save_example :
    MemoryStorage.load 50 (codes "a") (MemoryStorage.save 20 (codes "b") 15 text one_session)
    ≡ MemoryStorage.load 50 (codes "a") one_session
unfolding same
memory_load-save_example =
    MemoryStorage.load-save_later 20 50 (codes "a") (codes "b") 15 text one_session
      one_session-IsValid (omega arith)

abbrev pub random : Bytes
random = codes "0123456789abcdef"

abbrev planted : Client
planted = record visitor { cookie = codes "I0000000000000000000000000000abcd" }

planted_id : Sid.valid_sid planted.cookie ≡ some (codes "0000000000000000000000000000abcd")
unfolding Sid.valid_sid
planted_id = refl

save_new_example :
    let (session', s') = Sid.save memory 10 random planted text 100 true one_session in
    (session'.temp_cookie ≡ b'I' ∷ Sid.get_new_sid random)
    × (codes "0000000000000000000000000000abcd" ≢ Sid.get_new_sid random
        → MemoryStorage.load 50 (codes "0000000000000000000000000000abcd") s' ≡ none)
save_new_example =
    Sid.save_new memory 10 50 random planted text 100 one_session one_session-IsValid refl
      (omega arith) (codes "0000000000000000000000000000abcd") planted_id

dual_load-save_example :
    (session' : Client) × (s' : Memory) × (Dual.save
        (HmacCipher.cipher checksum key)
        memory
        4
        10
        []
        random
        planted
        text
        100
        true
        false
        one_session
      ≡ some (session', s'))
    × (Dual.load (HmacCipher.cipher checksum key) memory 50 (next_request session') s'
        ≡ (some (text, 100), next_request session', s'))
dual_load-save_example =
    Dual.load-save_anywhere (HmacCipher.cipher checksum key)
      (HmacCipher.cipher-IsEncryptor checksum checksum-IsDigest key) memory 10 50 [] random text 100
      one_session one_session-IsValid refl text-IsBytes (omega arith) (omega arith) (omega arith) 4
      planted true false (omega (arith, HmacCipher.cipher-overhead checksum checksum-IsDigest key))

abbrev signed_plain : Bytes
signed_plain = HmacCipher.encrypt checksum key (le_bytes 8 100 ++ text)

signed_opens :
    Cookies.open_cookie (HmacCipher.cipher checksum key) 50 (b'C' ∷ encode_range signed_plain)
    ≡ some (text, 100)
signed_opens =
    let (cdata, e, f) =
      Cookies.opened (HmacCipher.cipher checksum key)
        (HmacCipher.cipher-IsEncryptor checksum checksum-IsDigest key) [] text 100 50 text-IsBytes
        (omega (arith, HmacCipher.cipher-overhead checksum checksum-IsDigest key)) (omega arith)
        (omega arith) in
    let same : some (encode_range signed_plain) ≡ some cdata =
      sym (encode-encode_range signed_plain signed_small) ∙ (unfold HmacCipher.cipher in e) in
    subst
      (λ c. Cookies.open_cookie (HmacCipher.cipher checksum key) 50 (b'C' ∷ c) ≡ some (text, 100))
      (ground arith) f
  where
    signed_small : length signed_plain < 3 * 2 ^ 29
    signed_small = unfold HmacCipher.encrypt append readout hmac in omega arith

open_cookie-signed_example :
    (plain : Bytes) × ((decode (encode_range signed_plain) []).1
      ≡ HmacCipher.encrypt checksum key plain)
    × (text ≡ drop 8 plain)
    × (100 ≡ read_le 8 plain)
    × (50 ≤ 100)
open_cookie-signed_example =
    Cookies.open_cookie-signed checksum checksum-IsDigest key 50 100 (encode_range signed_plain)
      text signed_opens

abbrev content : List (Bytes × Packing.Entry)
content =
    (codes "user", record { value = codes "7"; exposed = false })
    ∷ (codes "_t", record { value = codes "60"; exposed = true })
    ∷ []

abbrev packed : Bytes
packed = (4 ∷ 8 ∷ 0 ∷ 0 ∷ codes "user7") ++ (2 ∷ 20 ∷ 0 ∷ 0 ∷ codes "_t60")

content_once : (k : Bytes) → count k (keys content) ≤ 1
unfolding count
content_once k = ground (arith, same_iff k (codes "user"), same_iff k (codes "_t"))

load_data-save_data_example :
    (d : List (Bytes × Packing.Entry)) × (Packing.load_data packed ≡ some d)
    × ((j : Bytes) → lookup j d ≡ lookup j content)
load_data-save_data_example =
    load_data-save_data content packed content_once (unfold Packing.save_data in refl) (omega arith)
