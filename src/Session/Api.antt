-- ===== src/Session/Api.antt =====
-- cppcms/session_api.h: class session_api, what a session asks of the place where it is kept.
use cppcms.Prelude.{ℕ, ◌+◌, ◌*◌, ◌^◌, ◌≤◌, ◌<◌, ◌≡◌, Bool, Option, some, Bytes, length, IsBytes}
use cppcms.Session.Client.{Client, next_request}
use cppcms.Session.Encryptor.{Encryptor, IsEncryptor}
use cppcms.Session.Storage.{Storage}
use cppcms.Session.Dual

-- The operations take the time and, where they may need one, a nonce for a cipher and the bytes of
-- a new id. `none` is an exception.
pub record Api : Type 1 where
  pub State : Type 0
  pub save : ℕ → Bytes → Bytes → Client → Bytes → ℕ → Bool → Bool → State → Option (Client × State)
  pub load : ℕ → Client → State → Option (Bytes × ℕ) × Client × State
  pub clear : ℕ → Client → State → Client × State

-- What a session relies on: up to its time, a session is found at the next request.
pub record IsApi (a : Api) : Type 1 where
  pub Valid : a.State → Type 0
  pub load-save :
      (now later : ℕ) (nonce rnd : Bytes) (session : Client) (content : Bytes) (timeout : ℕ)
      (new_data on_server : Bool) (s : a.State)
      → Valid s
      → length rnd ≡ 16
      → IsBytes content
      → length content + 8 < 2 ^ 32
      → timeout < 2 ^ 64
      → now ≤ later
      → later ≤ timeout
      → (session' : Client) × (s' : a.State) × (a.save now nonce rnd session content timeout
            new_data on_server s
          ≡ some (session', s'))
        × (a.load later (next_request session') s'
            ≡ (some (content, timeout), next_request session', s'))

-- class session_dual keeps the promise, if its limit leaves room for the time and for what the
-- encryptor adds.
abbrev pub dual : Encryptor → Storage → ℕ → Api
dual e storage limit = record {
  State = storage.State;
  save = λ now nonce rnd. Dual.save e storage limit now nonce rnd;
  load = Dual.load e storage;
  clear = Dual.clear e storage;
}

abbrev pub dual-IsApi :
    (e : Encryptor) (v : IsEncryptor e) (storage : Storage) (limit : ℕ)
    → limit + 8 + v.overhead < 3 * 2 ^ 29
    → IsApi (dual e storage limit)
dual-IsApi e v storage limit limited = record {
  Valid = storage.Valid;
  load-save =
      λ now later nonce rnd session content timeout new_data on_server s w size b small fits le
          live.
        Dual.load-save_anywhere e v storage now later nonce rnd content timeout s w size b fits le
          live limit session new_data on_server limited;
}
