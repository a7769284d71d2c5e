-- ===== src/Session/Exposed.antt =====
-- src/session_interface.cpp: update_exposed, which keeps a cookie of its own for each exposed value
-- of a session. The order of std::map and std::set is that of the lists; no cookie is set twice.
pub mod Mirror
use cppcms.Prelude.{
  ℕ, zero, suc, ◌+◌, ◌-◌, ◌*◌, ◌/◌, ◌%◌, ◌^◌, ◌≤◌, ◌<◌, ◌≡◌, refl, sym, ap, ◌∙◌, ◌≢◌, ◌↔◌, ◌⊎◌, inl,
  inr, Bool, true, false, not, ◌&&◌, ◌||◌, Option, none, some, List, [], ◌∷◌, ◌++◌, append-nil,
  append_assoc, arith, ltb, leb, ◌==◌, if◌then◌else◌, within, ==_iff, Bool-cases, Option-cases,
  Bytes, codes, length, length-append, All, All-append, IsBytes, shr, shl, low_bits, take, drop,
  get_elem?, take-length-append, subst, same, same_iff, count, remove, count-remove, length-remove,
  lookup, erase, keys, lookup-erase, lookup-cons, count-keys-erase, length-erase, length-take,
  drop-length-append, take-append-drop, length-drop, drop-drop, le_bytes, read_le, length-le_bytes,
  le_bytes-IsBytes, read_le-le_bytes_4, read_le-le_bytes_8,
}
use cppcms.Session.Packing.{Entry}

-- A cookie of the response, by the key behind the prefix of its name: the key is empty in the
-- cookie of the session itself. Without an age it is dropped. The other attributes come from the
-- settings, and the value is url-encoded.
pub record SetCookie : Type 0 where
  pub key : Bytes
  pub value : Bytes
  pub age : Option ℕ

-- set_session_cookie(age,data,key)
unfoldable pub session_cookie : Option ℕ → Bytes → Bytes → SetCookie
session_cookie age content key = record {
  key = key;
  value = content;
  age = if length content == 0 then none else age;
}

unfoldable pub is_exposed : Option Entry → Bool
is_exposed none = false
is_exposed (some e) = e.exposed

-- Whether the copy shows the client something else.
unfoldable pub changed : Entry → Option Entry → Bool
changed e none = true
changed e (some old) = not old.exposed || not (same e.value old.value)

-- The first loop: the cookies that it sets, and the keys that it removes.
unfoldable pub set_exposed :
    Bool → Option ℕ → List (Bytes × Entry) → List (Bytes × Entry) → List SetCookie
unfolding session_cookie changed
set_exposed force age [] copy = []
set_exposed force age ((key, e) ∷ content) copy =
    let rest = set_exposed force age content copy in
    if e.exposed && (force || changed e (lookup key copy))
    then session_cookie age e.value key ∷ rest
    else rest

unfoldable pub insert : Bytes → List Bytes → List Bytes
insert key removed = if count key removed == 0 then key ∷ removed else removed

unfoldable pub hidden : Bool → List (Bytes × Entry) → List (Bytes × Entry) → List Bytes → List Bytes
unfolding is_exposed insert
hidden force [] copy removed = removed
hidden force ((key, e) ∷ content) copy removed =
    let rest = hidden force content copy removed in
    if not e.exposed && (is_exposed (lookup key copy) || force) then insert key rest else rest

-- `data_.find(key)==data_.end()`
unfoldable pub missing : Option Entry → Bool
missing none = true
missing (some e) = false

-- The second loop.
unfoldable pub gone : List (Bytes × Entry) → List (Bytes × Entry) → List Bytes → List Bytes
unfolding insert missing
gone content [] removed = removed
gone content ((key, e) ∷ copy) removed =
    let rest = gone content copy removed in
    if e.exposed && missing (lookup key content) then insert key rest else rest

-- The key of a cookie whose name starts with the prefix.
unfoldable pub key_of : Bytes → Bytes → Option Bytes
key_of [] name = some name
key_of (c ∷ prefix) [] = none
key_of (c ∷ prefix) (d ∷ name) = if d == c then key_of prefix name else none

-- The loop over the names of the cookies that came in.
unfoldable pub unknown : Bytes → List (Bytes × Entry) → List Bytes → List Bytes → List Bytes
unfolding key_of is_exposed insert
unknown prefix content [] removed = removed
unknown prefix content (name ∷ cookies) removed =
    let rest = unknown prefix content cookies removed in
    elim (key_of prefix name) [
      | none ↦ rest
      | some key ↦
          if not (count key rest == 0)
          then rest
          else if not (is_exposed (lookup key content))
          then insert key rest
          else rest
    ]

-- The last loop.
unfoldable pub drop_cookies : List Bytes → List SetCookie
unfolding session_cookie
drop_cookies [] = []
drop_cookies (key ∷ removed) = session_cookie none [] key ∷ drop_cookies removed

unfoldable pub removed_keys :
    Bool → Bytes → List Bytes → Bool → List (Bytes × Entry) → List (Bytes × Entry) → List Bytes
unfolding hidden gone unknown
removed_keys remove_unknown_cookies prefix cookies force content copy =
    let removed = gone content copy (hidden force content copy []) in
    if remove_unknown_cookies
    then unknown (prefix ++ (b'_' ∷ [])) content cookies removed
    else removed

unfoldable pub update_exposed :
    Bool
    → Bytes
    → List Bytes
    → Bool
    → Option ℕ
    → List (Bytes × Entry)
    → List (Bytes × Entry)
    → List SetCookie
unfolding set_exposed removed_keys drop_cookies
update_exposed remove_unknown_cookies prefix cookies force age content copy =
    set_exposed force age content copy
    ++ drop_cookies (removed_keys remove_unknown_cookies prefix cookies force content copy)
