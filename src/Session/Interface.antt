-- ===== src/Session/Interface.antt =====
-- src/session_interface.cpp: class session_interface, the session that an application works with.
-- The clock does not move within a call, a time is a number of seconds, and the texts of numbers,
-- which C++ streams write and read, are arguments.
pub mod Saving
pub mod RoundTrip
use cppcms.Prelude.{
  ℕ, zero, suc, ◌+◌, ◌-◌, ◌*◌, ◌/◌, ◌%◌, ◌^◌, ◌≤◌, ◌<◌, ◌≡◌, refl, sym, ap, ◌∙◌, ◌≢◌, ◌↔◌, ◌⊎◌, inl,
  inr, Bool, true, false, not, ◌&&◌, ◌||◌, Option, none, some, List, [], ◌∷◌, ◌++◌, append-nil,
  append_assoc, arith, ltb, leb, ◌==◌, if◌then◌else◌, within, ==_iff, Bool-cases, Option-cases,
  Bytes, codes, length, length-append, All, All-append, IsBytes, shr, shl, low_bits, take, drop,
  get_elem?, take-length-append, subst, same, same_iff, count, remove, count-remove, length-remove,
  lookup, erase, keys, lookup-erase, lookup-absent, KeysOnce, KeysOnce-tail, lookup_once,
  KeysOnce-put, lookup-cons, count-keys-erase, length-erase, length-take, drop-length-append,
  take-append-drop, length-drop, drop-drop, le_bytes, read_le, length-le_bytes, le_bytes-IsBytes,
  read_le-le_bytes_4, read_le-le_bytes_8,
}
use cppcms.Http.Scanner.{◌>>=◌}
use cppcms.Session.Client.{Client}
use cppcms.Session.Api.{Api}
use cppcms.Session.Packing.{Entry, save_data, load_data}
use cppcms.Session.Exposed.{SetCookie, session_cookie, update_exposed, is_exposed, missing}

-- The parts of cached_settings that count.
pub record Settings : Type 0 where
  pub timeout_val_def : ℕ
  pub how_def : ℕ
  pub csrf_enable : Bool
  pub csrf_exposed : Bool
  pub prefix : Bytes
  pub remove_unknown_cookies : Bool

pub record Session : Type 0 where
  pub content : List (Bytes × Entry)
  pub copy : List (Bytes × Entry)
  pub timeout_val : ℕ
  pub how : ℕ
  pub timeout_in : ℕ
  pub new_session : Bool
  pub saved : Bool
  pub on_server : Bool
  pub loaded : Bool
  pub reset : Bool

-- The values of `how`.
abbrev pub fixed : ℕ
fixed = 0

abbrev pub renew : ℕ
renew = 1

abbrev pub browser : ℕ
browser = 2

-- `data_[key]`, which makes an empty entry where there is none.
unfoldable pub entry_of : Option Entry → Entry
entry_of none = record { value = []; exposed = false }
entry_of (some e) = e

unfoldable pub set : Bytes → Bytes → Session → Session
unfolding entry_of
set key v s = record s {
  content = (key, record (entry_of (lookup key s.content)) { value = v }) ∷ erase key s.content;
}

unfoldable pub expose : Bytes → Bool → Session → Session
unfolding entry_of
expose key exp s = record s {
  content = (key, record (entry_of (lookup key s.content)) { exposed = exp }) ∷ erase key s.content;
}

unfoldable pub hide : Bytes → Session → Session
unfolding expose
hide key s = expose key false s

unfoldable pub erase_key : Bytes → Session → Session
erase_key key s = record s { content = erase key s.content }

unfoldable pub clear : Session → Session
clear s = record s { content = [] }

unfoldable pub reset_session : Session → Session
reset_session s = record s { reset = true }

unfoldable pub is_set : Bytes → Session → Bool
unfolding missing
is_set key s = not (missing (lookup key s.content))

-- get(key), where `none` is the exception, and get(key,def).
unfoldable pub get : Bytes → Session → Option Bytes
get key s = elim (lookup key s.content) [ none ↦ none | some e ↦ some e.value ]

unfoldable pub get_or : Bytes → Bytes → Session → Bytes
get_or key other s = elim (lookup key s.content) [ none ↦ other | some e ↦ e.value ]

unfoldable pub validate_csrf_token : Bytes → Session → Bool
unfolding get_or
validate_csrf_token token s =
    let session_token = get_or (codes "_csrf") [] s in
    length session_token == 0 || same session_token token

module _ (to_string : ℕ → Bytes) where
  unfoldable pub set_age : ℕ → Session → Session
  unfolding set
  set_age t s = set (codes "_t") (to_string t) (record s { timeout_val = t })

  unfoldable pub set_expiration : ℕ → Session → Session
  unfolding set
  set_expiration h s = set (codes "_h") (to_string h) (record s { how = h })

  unfoldable pub set_on_server : Bool → Session → Session
  unfolding set
  set_on_server srv s =
      set (codes "_s") (to_string (if srv then 1 else 0)) (record s { on_server = srv })

unfoldable pub default_age : Settings → Session → Session
unfolding erase_key
default_age settings s = record (erase_key (codes "_t") s) {
  timeout_val = settings.timeout_val_def;
}

unfoldable pub default_expiration : Settings → Session → Session
unfolding erase_key
default_expiration settings s = record (erase_key (codes "_h") s) { how = settings.how_def }
