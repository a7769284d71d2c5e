-- ===== src/Session/Exposed/Mirror.antt =====
-- src/session_interface.cpp: the cookies of the exposed values against the session.
use cppcms.Prelude.{
  ℕ, ◌<◌, ◌≡◌, refl, ap, ◌∙◌, ◌⊎◌, inl, inr, Bool, true, false, not, ◌&&◌, ◌||◌, Option, none, some,
  List, [], ◌∷◌, ◌++◌, append-nil, arith, ◌==◌, if◌then◌else◌, Bool-cases, Option-cases, Bytes,
  length, same, same_iff, count, lookup, erase, lookup-erase, KeysOnce, KeysOnce-tail, lookup_once,
}
use cppcms.Session.Packing.{Entry}
use cppcms.Session.Exposed.{
  SetCookie, session_cookie, is_exposed, changed, set_exposed, insert, hidden, missing, gone,
  key_of, unknown, drop_cookies, removed_keys, update_exposed,
}

-- What the client keeps of a response: a cookie replaces the one with its name.
unfoldable pub receive : List SetCookie → List (Bytes × Bytes) → List (Bytes × Bytes)
receive [] jar = jar
receive (c ∷ cookies) jar = elim c.age [
  | none ↦ receive cookies (erase c.key jar)
  | some age ↦ receive cookies ((c.key, c.value) ∷ erase c.key jar)
]

-- The value that a client is to see at a key: an exposed one that is not empty.
unfoldable pub shown : Option Entry → Option Bytes
shown none = none
shown (some e) = if e.exposed && not (length e.value == 0) then some e.value else none

receive-append :
    (a b : List SetCookie) (jar : List (Bytes × Bytes))
    → receive (a ++ b) jar ≡ receive b (receive a jar)
unfolding receive
receive-append [] b jar = refl
receive-append (c ∷ a) b jar = elim (Option-cases c.age) [
  | inl e ↦ rw (e, receive) (receive-append a b (erase c.key jar))
  | inr (t, e) ↦ rw (e, receive) (receive-append a b ((c.key, c.value) ∷ erase c.key jar))
]

-- Whether a key is in a list.
abbrev has : Bytes → List Bytes → Bool
has j l = not (count j l == 0)

has-insert : (j k : Bytes) (l : List Bytes) → has j (insert k l) ≡ (same j k || has j l)
unfolding insert count
has-insert j k l = ground (arith, same_iff j k)

lookup-drop_cookies :
    (j : Bytes) (removed : List Bytes) (jar : List (Bytes × Bytes))
    → lookup j (receive (drop_cookies removed) jar) ≡ (if has j removed then none else lookup j jar)
unfolding drop_cookies receive session_cookie count
lookup-drop_cookies j [] jar = refl
lookup-drop_cookies j (k ∷ removed) jar =
    lookup-drop_cookies j removed (erase k jar) ∙ ground (arith, lookup-erase j k jar)

abbrev received : Bytes → Bytes → List (Bytes × Bytes) → List (Bytes × Bytes)
received v k jar = if length v == 0 then erase k jar else (k, v) ∷ erase k jar

receive-session_cookie :
    (age : ℕ) (v k : Bytes) (rest : List SetCookie) (jar : List (Bytes × Bytes))
    → receive (session_cookie (some age) v k ∷ rest) jar ≡ receive rest (received v k jar)
unfolding receive session_cookie
receive-session_cookie age v k rest jar = elim (Bool-cases (length v == 0)) [
  | inl e ↦ rw (e, receive) refl
  | inr e ↦ rw (e, receive) refl
]

lookup-received :
    (j v k : Bytes) (jar : List (Bytes × Bytes))
    → lookup j (received v k jar)
      ≡ (if same j k then (if length v == 0 then none else some v) else lookup j jar)
unfolding lookup
lookup-received j v k jar = ground (arith, lookup-erase j k jar)

-- The first loop shows the client what has changed.
updated : Bool → Option Entry → Option Entry → Option Bytes → Option Bytes
updated force none old before = before
updated force (some e) old before =
    if e.exposed && (force || changed e old) then shown (some e) else before

lookup-set_exposed :
    (j : Bytes) (force : Bool) (age : ℕ) (m copy : List (Bytes × Entry))
    (jar : List (Bytes × Bytes))
    → KeysOnce m
    → lookup j (receive (set_exposed force (some age) m copy) jar)
      ≡ updated force (lookup j m) (lookup j copy) (lookup j jar)
unfolding set_exposed session_cookie receive lookup updated shown
lookup-set_exposed j force age [] copy jar h = refl
lookup-set_exposed j force age ((k, e) ∷ m) copy jar h =
    let rest = lookup-set_exposed j force age m copy jar (KeysOnce-tail k e m h) in
    let next =
      lookup-set_exposed j force age m copy (received e.value k jar) (KeysOnce-tail k e m h) in
    elim (Bool-cases (e.exposed && (force || changed e (lookup k copy)))) [
      | inl now ↦ rw now (
          ap (lookup j)
            (receive-session_cookie age e.value k (set_exposed force (some age) m copy) jar)
          ∙ next
          ∙ ground (arith, lookup-received j e.value k jar, same_iff j k, lookup_once k e m h))
      | inr not_now ↦ rw not_now (rest ∙ ground (arith, same_iff j k, lookup_once k e m h))
    ]

has-hidden :
    (j : Bytes) (force : Bool) (m copy : List (Bytes × Entry)) (removed : List Bytes)
    → KeysOnce m
    → has j (hidden force m copy removed) ≡ (
        elim (lookup j m) [
          | none ↦ false
          | some e ↦ not e.exposed && (is_exposed (lookup j copy) || force)
        ]
        || has j removed)
unfolding hidden lookup
has-hidden j force [] copy removed h = refl
has-hidden j force ((k, e) ∷ m) copy removed h =
    let rest = has-hidden j force m copy removed (KeysOnce-tail k e m h) in
    ground
      (arith, rest, has-insert j k (hidden force m copy removed), same_iff j k, lookup_once k e m h)

has-gone :
    (j : Bytes) (m copy : List (Bytes × Entry)) (removed : List Bytes)
    → KeysOnce copy
    → has j (gone m copy removed)
      ≡ ((is_exposed (lookup j copy) && missing (lookup j m)) || has j removed)
unfolding gone lookup is_exposed
has-gone j m [] removed h = refl
has-gone j m ((k, e) ∷ copy) removed h =
    let rest = has-gone j m copy removed (KeysOnce-tail k e copy h) in
    ground (arith, rest, has-insert j k (gone m copy removed), same_iff j k, lookup_once k e copy h)

-- What the third loop adds is not exposed.
has-unknown :
    (j prefix : Bytes) (m : List (Bytes × Entry)) (cookies removed : List Bytes)
    → (has j removed ≡ true → has j (unknown prefix m cookies removed) ≡ true)
      × (has j (unknown prefix m cookies removed) ≡ true
          → (has j removed ≡ true) ⊎ (is_exposed (lookup j m) ≡ false))
unfolding unknown
has-unknown j prefix m [] removed = (λ h. h, λ h. inl h)
has-unknown j prefix m (name ∷ cookies) removed = elim (Option-cases (key_of prefix name)) [
  | inl e ↦ rw (e, unknown) (has-unknown j prefix m cookies removed)
  | inr (key, e) ↦
      rw (e, unknown)
        (ground (
          arith,
          has-unknown j prefix m cookies removed,
          has-insert j key (unknown prefix m cookies removed),
          same_iff j key,
        ))
]

has-removed_keys :
    (j : Bytes) (remove_unknown_cookies : Bool) (prefix : Bytes) (cookies : List Bytes)
    (force : Bool) (m copy : List (Bytes × Entry))
    → KeysOnce m
    → KeysOnce copy
    → let shut = has j (removed_keys remove_unknown_cookies prefix cookies force m copy) in
      (shut ≡ true → is_exposed (lookup j m) ≡ false)
      × (is_exposed (lookup j m) ≡ false → is_exposed (lookup j copy) ≡ true → shut ≡ true)
unfolding removed_keys is_exposed missing count
has-removed_keys j remove_unknown_cookies prefix cookies force m copy h i = ground (
  arith,
  has-hidden j force m copy [] h,
  has-gone j m copy (hidden force m copy []) i,
  has-unknown j (prefix ++ (b'_' ∷ [])) m cookies (gone m copy (hidden force m copy [])),
)

shown_after :
    (force shut : Bool) {after : Option Bytes} (found old : Option Entry)
    → (shut ≡ true → is_exposed found ≡ false)
      × (is_exposed found ≡ false → is_exposed old ≡ true → shut ≡ true)
    → after ≡ updated force found old (shown old)
    → (if shut then none else after) ≡ shown found
unfolding updated shown is_exposed changed
shown_after force shut none none h a = ground arith
shown_after force shut none (some old) h a = ground arith
shown_after force shut (some e) none h a = ground arith
shown_after force shut (some e) (some old) h a = ground (arith, same_iff e.value old.value)

-- Where each key stands once in the session and in the copy, the age is not negative, and the client
-- has the cookies that show it the copy, it has after update_exposed those that show it the session:
-- each exposed value that is not empty under its key, and no other.
pub update_exposed-shown :
    (remove_unknown_cookies : Bool) (prefix : Bytes) (cookies : List Bytes) (force : Bool) (age : ℕ)
    (m copy : List (Bytes × Entry)) (jar : List (Bytes × Bytes))
    → KeysOnce m
    → KeysOnce copy
    → ((j : Bytes) → lookup j jar ≡ shown (lookup j copy))
    → (j : Bytes)
    → lookup j
        (receive (update_exposed remove_unknown_cookies prefix cookies force (some age) m copy) jar)
      ≡ shown (lookup j m)
unfolding update_exposed
update_exposed-shown remove_unknown_cookies prefix cookies force age m copy jar h i same_shown j =
    ap (lookup j) (receive-append (set_exposed force (some age) m copy) _ jar)
    ∙ lookup-drop_cookies j (removed_keys remove_unknown_cookies prefix cookies force m copy) _
    ∙ shown_after force _ (lookup j m) (lookup j copy)
        (has-removed_keys j remove_unknown_cookies prefix cookies force m copy h i)
        (lookup-set_exposed j force age m copy jar h
          ∙ ap (updated force (lookup j m) (lookup j copy)) (same_shown j))

key_of-append : (prefix key : Bytes) → key_of prefix (prefix ++ key) ≡ some key
unfolding key_of
key_of-append [] key = refl
key_of-append (c ∷ prefix) key = ground (arith, key_of-append prefix key)

unknown-in :
    (key prefix : Bytes) (m : List (Bytes × Entry)) (cookies removed : List Bytes)
    → is_exposed (lookup key m) ≡ false
    → 0 < count (prefix ++ key) cookies
    → has key (unknown prefix m cookies removed) ≡ true
unfolding unknown count
unknown-in key prefix m [] removed h in_cookies = absurd (omega arith)
unknown-in key prefix m (name ∷ cookies) removed h in_cookies =
    let rest = unknown-in key prefix m cookies removed h in
    elim (Option-cases (key_of prefix name)) [
      | inl e ↦
          rw (e, unknown)
            (ground (arith, rest, same_iff (prefix ++ key) name, key_of-append prefix key))
      | inr (k, e) ↦
          rw (e, unknown)
            (ground (
              arith,
              rest,
              same_iff (prefix ++ key) name,
              key_of-append prefix key,
              has-insert key k (unknown prefix m cookies removed),
              same_iff key k,
            ))
    ]

-- A client that sends a cookie whose name is the prefix with the underscore, and nothing behind it,
-- loses the cookie of the session itself where unknown cookies are removed and no value is exposed
-- under the empty key: the key behind the underscore is empty, and so names that cookie.
pub update_exposed-session_cookie :
    (prefix : Bytes) (cookies : List Bytes) (force : Bool) (age : Option ℕ)
    (m copy : List (Bytes × Entry)) (jar : List (Bytes × Bytes))
    → is_exposed (lookup [] m) ≡ false
    → 0 < count (prefix ++ (b'_' ∷ [])) cookies
    → lookup [] (receive (update_exposed true prefix cookies force age m copy) jar) ≡ none
unfolding update_exposed removed_keys
update_exposed-session_cookie prefix cookies force age m copy jar h in_cookies =
    ap (lookup []) (receive-append (set_exposed force age m copy) _ jar)
    ∙ lookup-drop_cookies [] (removed_keys true prefix cookies force m copy) _
    ∙ ground (
      arith,
      unknown-in [] (prefix ++ (b'_' ∷ [])) m cookies (gone m copy (hidden force m copy [])) h,
      append-nil (prefix ++ (b'_' ∷ [])),
    )
