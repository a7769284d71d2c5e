-- ===== src/Session/Interface/Saving.antt =====
-- src/session_interface.cpp: `load` and `save`, which move a session between an application and the
-- place where it is kept.
use cppcms.Prelude.{
  ℕ, ◌+◌, ◌-◌, ◌*◌, ◌%◌, Bool, true, false, not, ◌&&◌, ◌||◌, Option, none, some, List, [], ◌∷◌, ltb,
  leb, ◌==◌, if◌then◌else◌, Bytes, codes, length, same, lookup,
}
use cppcms.Base64.{encode_range}
use cppcms.Http.Scanner.{◌>>=◌}
use cppcms.Session.Client.{Client}
use cppcms.Session.Api.{Api}
use cppcms.Session.Packing.{Entry, save_data, load_data}
use cppcms.Session.Exposed.{SetCookie, session_cookie, update_exposed}
use cppcms.Session.Interface.{Settings, Session, fixed, renew, browser, set, expose}

-- cookie_age, where `none` is a negative number.
unfoldable pub cookie_age : ℕ → Session → Option ℕ
cookie_age now s =
    if s.how == browser
    then some 0
    else if s.how == renew || (s.how == fixed && s.new_session)
    then some s.timeout_val
    else if leb now s.timeout_in
    then some (s.timeout_in - now)
    else none

unfoldable pub session_age : ℕ → Session → ℕ
session_age now s =
    if s.how == browser || s.how == renew || (s.how == fixed && s.new_session)
    then s.timeout_val + now
    else s.timeout_in

-- `if(is_set(key)) value=get<int>(key);`
unfoldable pub int_of : (Bytes → Option ℕ) → Bytes → ℕ → List (Bytes × Entry) → Option ℕ
int_of from_string key value content = elim (lookup key content) [
  | none ↦ some value
  | some e ↦ from_string e.value
]

-- The members that `load` sets before it asks the storage.
unfoldable pub cleared : Settings → Session → Session
cleared settings s = record s {
  content = [];
  copy = [];
  timeout_val = settings.timeout_val_def;
  how = settings.how_def;
  saved = false;
  on_server = false;
  loaded = true;
}

-- The part of `load` behind the call of the storage.
unfoldable pub restore : (Bytes → Option ℕ) → Settings → Bytes → ℕ → Session → Option Session
unfolding int_of cleared
restore from_string settings ar timeout_in s = do
  content ← load_data ar
  timeout_val ← int_of from_string (codes "_t") settings.timeout_val_def content
  how ← int_of from_string (codes "_h") settings.how_def content
  on_server ← int_of from_string (codes "_s") 0 content
  some (record (cleared settings s) {
    content = content;
    copy = content;
    timeout_val = timeout_val;
    how = how;
    timeout_in = timeout_in;
    on_server = on_server % 2 == 1;
  })

-- `data_==data_copy_`
unfoldable pub same_entry : Entry → Option Entry → Bool
same_entry e none = false
same_entry e (some old) =
    same e.value old.value && (if e.exposed then old.exposed else not old.exposed)

unfoldable pub all_same : List (Bytes × Entry) → List (Bytes × Entry) → Bool
unfolding same_entry
all_same [] copy = true
all_same ((key, e) ∷ content) copy = same_entry e (lookup key copy) && all_same content copy

-- A std::map has each key once.
unfoldable pub same_data : List (Bytes × Entry) → List (Bytes × Entry) → Bool
unfolding all_same
same_data content copy = length content == length copy && all_same content copy

-- generate_csrf_token, of 6 random bytes.
unfoldable pub generate_csrf_token : Bytes → Bytes
generate_csrf_token binary = encode_range binary

-- The members that `save` sets first, and the token of a new session.
unfoldable pub with_new_session : Session → Session
with_new_session s = record s {
  new_session = (length s.copy == 0 && not (length s.content == 0)) || s.reset;
}

unfoldable pub with_token : Settings → Bytes → Session → Session
unfolding set expose generate_csrf_token
with_token settings binary s =
    if s.new_session && settings.csrf_enable
    then (let t = set (codes "_csrf") (generate_csrf_token binary) s in
        if settings.csrf_exposed then expose (codes "_csrf") true t else t)
    else s

unfoldable pub unchanged : Session → Bool
unfolding same_data
unchanged s = same_data s.content s.copy && not s.new_session

-- Less than a tenth of the time has passed since the last renewal.
unfoldable pub recent : ℕ → Session → Bool
recent now s = ltb (10 * (now + s.timeout_val)) (s.timeout_val + 10 * s.timeout_in)

-- The early returns of `save`.
unfoldable pub keeps : ℕ → Session → Bool
unfolding unchanged recent
keeps now s =
    unchanged s && (s.how == fixed || ((s.how == renew || s.how == browser) && recent now s))

module _ (settings : Settings) where
  unfoldable pub exposing : List Bytes → Bool → ℕ → Session → List SetCookie
  unfolding update_exposed cookie_age
  exposing cookies force now s =
      update_exposed settings.remove_unknown_cookies settings.prefix cookies force
        (cookie_age now s) s.content s.copy

  module _ (api : Api) where
    open api use {State}

    unfoldable pub load :
        (Bytes → Option ℕ) → ℕ → Session → Client → State → Option (Bool × Session × Client × State)
    unfolding cleared
    load from_string now s client st =
        if s.loaded
        then some (false, s, client, st)
        else let (found, client', st') = api.load now client st in
          elim found [
            | none ↦ some (false, cleared settings s, client', st')
            | some (ar, timeout_in) ↦ do
              t ← restore from_string settings ar timeout_in s
              some (true, t, client', st')
          ]

    -- The end of `save`. `cookies` are the names of the cookies that came in, and the result has
    -- those of the response.
    unfoldable pub store :
        ℕ
        → Bytes
        → Bytes
        → List Bytes
        → Session
        → Client
        → State
        → Option (Session × Client × State × List SetCookie)
    unfolding session_age exposing
    store now nonce rnd cookies s client st = do
      ar ← save_data s.content
      (client', st') ←
          api.save now nonce rnd (record client { temp_cookie = [] }) ar (session_age now s)
            s.new_session s.on_server st
      some (
        record s { saved = true },
        record client' { temp_cookie = [] },
        st',
        session_cookie (cookie_age now s) client'.temp_cookie []
            ∷ exposing cookies (unchanged s) now s,
      )

    unfoldable pub save :
        ℕ
        → Bytes
        → Bytes
        → Bytes
        → List Bytes
        → Session
        → Client
        → State
        → Option (Session × Client × State × List SetCookie)
    unfolding with_new_session with_token keeps store
    save now nonce rnd binary cookies s client st =
        let t = with_new_session s in
        let u = with_token settings binary t in
        if not s.loaded || s.saved
        then some (s, client, st, [])
        else if length t.content == 0
        then (let (client', st') =
              if length client.cookie == 0 then (client, st) else api.clear now client st in
            some (t, client', st', exposing cookies true now t))
        else if keeps now u
        then some (u, client, st, [])
        else store now nonce rnd cookies u client st
