-- ===== src/Session/Dual.antt =====
-- src/session_dual.cpp: class session_dual, which keeps small sessions in the cookie and the others
-- on the server.
use cppcms.Prelude.{
  ℕ, ◌+◌, ◌*◌, ◌^◌, ◌≤◌, ◌<◌, ◌≡◌, refl, ap, ◌∙◌, inl, inr, Bool, true, false, ◌||◌, Option, none,
  some, [], ◌∷◌, arith, ltb, ◌==◌, if◌then◌else◌, Bool-cases, Bytes, length, IsBytes,
}
use cppcms.Session.Encryptor.{Encryptor, IsEncryptor}
use cppcms.Session.Client.{Client, next_request}
use cppcms.Session.Storage.{Storage}
use cppcms.Session.Cookies
use cppcms.Session.Sid

-- `!cookie.empty() && cookie[0]==c`
unfoldable pub starts_with : ℕ → Bytes → Bool
starts_with c [] = false
starts_with c (d ∷ s) = d == c

module _ (e : Encryptor) (storage : Storage) where
  open storage use {State}

  unfoldable pub save :
      ℕ → ℕ → Bytes → Bytes → Client → Bytes → ℕ → Bool → Bool → State → Option (Client × State)
  unfolding starts_with
  save data_size_limit now nonce rnd session content timeout isnew on_server s =
      if on_server || ltb data_size_limit (length content)
      then some (Sid.save storage now rnd session content timeout isnew s)
      else let (session', s') =
          if starts_with b'I' session.cookie
          then Sid.clear storage now session s
          else (session, s) in
        elim (Cookies.save e nonce session' content timeout false) [
          | none ↦ none
          | some saved ↦ some (saved, s')
        ]

  unfoldable pub load : ℕ → Client → State → Option (Bytes × ℕ) × Client × State
  unfolding starts_with
  load now session s =
      if starts_with b'C' session.cookie
      then (let (found, session') = Cookies.load e now session in (found, session', s))
      else let (found, s') = Sid.load storage now session s in (found, session, s')

  unfoldable pub clear : ℕ → Client → State → Client × State
  unfolding starts_with
  clear now session s =
      if starts_with b'C' session.cookie
      then (Cookies.clear e session, s)
      else Sid.clear storage now session s

module _ (e : Encryptor) (v : IsEncryptor e) (storage : Storage) (now later : ℕ) (nonce rnd : Bytes)
    (content : Bytes) (timeout : ℕ) (s : storage.State) (w : storage.Valid s)
    (size : length rnd ≡ 16) (b : IsBytes content) (fits : timeout < 2 ^ 64) (le : now ≤ later)
    (live : later ≤ timeout) where
  load_sid :
      (session : Client) (u : storage.State)
      → starts_with b'C' session.cookie ≡ false
      → Sid.load storage later session u ≡ (some (content, timeout), u)
      → load e storage later session u ≡ (some (content, timeout), session, u)
  unfolding load
  load_sid session u h f = rw h (rw f refl)

  load_cookie :
      (session : Client) (u : storage.State)
      → starts_with b'C' session.cookie ≡ true
      → Cookies.load e later session ≡ (some (content, timeout), session)
      → load e storage later session u ≡ (some (content, timeout), session, u)
  unfolding load
  load_cookie session u h f = rw h (rw f refl)

  saved_on_server :
      (session : Client) (isnew : Bool)
      → let (session', s') = Sid.save storage now rnd session content timeout isnew s in
        load e storage later (next_request session') s'
        ≡ (some (content, timeout), next_request session', s')
  saved_on_server session isnew =
      let (id, c) = Sid.save_cookie storage now rnd session content timeout isnew s in
      load_sid _ _ (ap (starts_with b'C') c ∙ (unfold starts_with in refl))
        (Sid.load-save storage now later rnd session content timeout s w size le isnew live)

  saved_in_cookie :
      (session : Client) (u : storage.State)
      → length content + 8 + v.overhead < 3 * 2 ^ 29
      → (saved : Client) × (Cookies.save e nonce session content timeout false ≡ some saved)
        × (load e storage later (next_request saved) u
            ≡ (some (content, timeout), next_request saved, u))
  saved_in_cookie session u small =
      let (saved, h, (text, letter), found) =
        Cookies.load-save_client e v nonce content timeout later b small fits live session in
      (
        saved,
        h,
        load_cookie _ u (ap (starts_with b'C') letter ∙ (unfold starts_with in refl)) found,
      )

  -- `save` of a string of bytes returns, and what it stores, in the cookie or on the server, `load`
  -- finds at the next request up to the time of its end: the first letter of the cookie leads it to
  -- the place that `save` chose. This holds for any encryptor and any storage that keep the promises
  -- of their interfaces, and any cookie sent before, if the limit of the contents in cookies, with
  -- the time and what the encryptor adds, is below 3 * 2^29 bytes, and the time has 64 bits.
  pub load-save_anywhere :
      (data_size_limit : ℕ) (session : Client) (isnew on_server : Bool)
      → data_size_limit + 8 + v.overhead < 3 * 2 ^ 29
      → (session' : Client) × (s' : storage.State) × (save e storage data_size_limit now nonce rnd
            session content timeout isnew on_server s
          ≡ some (session', s'))
        × (load e storage later (next_request session') s'
            ≡ (some (content, timeout), next_request session', s'))
  load-save_anywhere data_size_limit session isnew on_server limited =
      elim (Bool-cases (on_server || ltb data_size_limit (length content))) [
        | inl server ↦
            let r = Sid.save storage now rnd session content timeout isnew s in
            (r.0, r.1, (unfold save in rw server refl), saved_on_server session isnew)
        | inr client ↦
            let small : length content + 8 + v.overhead < 3 * 2 ^ 29 = ground arith in
            elim (Bool-cases (starts_with b'I' session.cookie)) [
              | inl moved ↦
                  let (cleared, s') = Sid.clear storage now session s in
                  let (saved, h, found) = saved_in_cookie cleared s' small in
                  (saved, s', (unfold save in rw client (rw moved (rw h (rw moved refl)))), found)
              | inr stays ↦
                  let (saved, h, found) = saved_in_cookie session s small in
                  (saved, s, (unfold save in rw client (rw stays (rw h (rw stays refl)))), found)
            ]
      ]
