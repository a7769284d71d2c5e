-- ===== src/Tests/Interface.antt =====
-- The session of an application, saved in a cookie and on the server.
use cppcms.Prelude.{
  ℕ, ◌-◌, ◌≡◌, refl, ◌⊎◌, true, false, Option, none, some, List, [], ◌∷◌, ◌++◌, arith, Bytes, codes,
  same, same_iff, count, lookup, KeysOnce,
}
use cppcms.Session.Client.{Client}
use cppcms.Session.HmacCipher.{cipher, cipher-IsEncryptor, cipher-overhead}
use cppcms.Session.MemoryStorage.{memory, empty}
use cppcms.Session.Api.{Api, IsApi, dual, dual-IsApi}
use cppcms.Session.Packing.{Entry, save_data}
use cppcms.Session.Exposed.{SetCookie, update_exposed, is_exposed}
use cppcms.Session.Exposed.Mirror.{
  receive, shown, update_exposed-shown, update_exposed-session_cookie,
}
use cppcms.Session.Interface.{Settings, Session}
use cppcms.Session.Interface.Saving.{save, with_token, with_new_session, session_age, int_of}
use cppcms.Session.Interface.RoundTrip.{Reads, Found, load-save}
use cppcms.Tests.Session.{checksum, checksum-IsDigest, key, visitor, random, empty-IsValid}

abbrev settings : Settings
settings = record {
  timeout_val_def = 3600;
  how_def = 1;
  csrf_enable = false;
  csrf_exposed = false;
  prefix = codes "cppcms_session";
  remove_unknown_cookies = true;
}

abbrev fresh : Session
fresh = record {
  content = [];
  copy = [];
  timeout_val = 3600;
  how = 1;
  timeout_in = 0;
  new_session = false;
  saved = false;
  on_server = false;
  loaded = false;
  reset = false;
}

abbrev user : List (Bytes × Entry)
user = (codes "user", record { value = codes "7"; exposed = true }) ∷ []

abbrev filled : Session
filled = record fresh { content = user; loaded = true }

abbrev made_new : Session
made_new = record filled { new_session = true }

abbrev one_digit : Bytes → Option ℕ
one_digit [] = none
one_digit (c ∷ s) = some (c - b'0')

abbrev both : Api
both = dual (cipher checksum key) memory 2048

user_once : KeysOnce user
unfolding count
user_once k = ground (arith, same_iff k (codes "user"))

abbrev both-IsApi : IsApi both
both-IsApi =
    dual-IsApi (cipher checksum key) (cipher-IsEncryptor checksum checksum-IsDigest key) memory 2048
      (omega (arith, cipher-overhead checksum checksum-IsDigest key))

load-save_example :
    ((save settings both 10 [] random [] [] filled visitor empty
        ≡ some (made_new, visitor, empty, []))
      × ((j : Bytes) → lookup j user ≡ lookup {V = Entry} j []))
    ⊎ ((client' : Client) × (st' : both.State) × (out : List SetCookie) × (save settings both 10 []
            random [] [] filled visitor empty
          ≡ some (record made_new { saved = true }, client', st', out))
        × Found settings both both-IsApi one_digit 10 50 [] random empty empty-IsValid refl
            (omega arith)
            made_new
            fresh
            client'
            st'
            out
            3600
            1
            0)
unfolding same
load-save_example =
    load-save settings both both-IsApi one_digit 10 50 [] random empty empty-IsValid refl
      (omega arith) [] [] filled made_new fresh visitor
      ((4 ∷ 12 ∷ 0 ∷ 0 ∷ codes "user") ++ (codes "7")) 3600 1 0 refl refl (omega arith)
      (unfold with_token with_new_session in refl) user_once nothing_once (unfold save_data in refl)
      (ground arith) (omega arith) (unfold session_age in omega arith)
      (unfold session_age in omega arith) reads refl
  where
    nothing_once : KeysOnce {V = Entry} []
    nothing_once k = unfold count in omega arith

    reads : Reads one_digit settings user 3600 1 0
    reads = record {
      reads_t = unfold int_of lookup in refl;
      reads_h = unfold int_of lookup in refl;
      reads_s = unfold int_of lookup in refl;
    }

abbrev old_user : List (Bytes × Entry)
old_user = (codes "user", record { value = codes "6"; exposed = true }) ∷ []

old_user_once : KeysOnce old_user
unfolding count
old_user_once k = ground (arith, same_iff k (codes "user"))

update_exposed-shown_example :
    lookup (codes "user") (
      receive
        (update_exposed true (codes "s") (codes "s_old" ∷ []) false (some 60) user old_user)
        ((codes "user", codes "6") ∷ []))
    ≡ shown (lookup (codes "user") user)
update_exposed-shown_example =
    update_exposed-shown true (codes "s") (codes "s_old" ∷ []) false 60 user old_user
      ((codes "user", codes "6") ∷ []) user_once old_user_once
      (λ j. unfold lookup shown in ground arith) (codes "user")

update_exposed-session_cookie_example :
    lookup [] (
      receive
        (update_exposed true (codes "s") (codes "s_" ∷ []) false (some 60) user user)
        (([], codes "Cabc") ∷ []))
    ≡ none
unfolding same
update_exposed-session_cookie_example =
    update_exposed-session_cookie (codes "s") (codes "s_" ∷ []) false (some 60) user user
      (([], codes "Cabc") ∷ []) (unfold lookup is_exposed in refl) (unfold count in omega arith)
