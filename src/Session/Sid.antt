-- ===== src/Session/Sid.antt =====
-- src/session_sid.cpp: class session_sid, which keeps a session on the server under a random id.
-- `rnd` stands for the 16 bytes of the random device.
use cppcms.Prelude.{
  ℕ, zero, suc, ◌≤◌, ◌≡◌, refl, sym, ap, ◌∙◌, ◌≢◌, ◌↔◌, inl, inr, Bool, true, not, ◌&&◌, ◌||◌,
  Option, none, some, [], ◌∷◌, arith, ltb, ◌==◌, if◌then◌else◌, Bool-cases, Option-cases, Bytes,
  length, All, take, subst, same_iff,
}
use cppcms.Crypto.{tohex}
use cppcms.Crypto.Hex.{is_low_digit, tohex-digits, length-tohex}
use cppcms.Session.Client.{Client, set_session_cookie, clear_session_cookie, next_request}
use cppcms.Session.Storage.{Storage}

-- get_new_sid
unfoldable pub get_new_sid : Bytes → Bytes
get_new_sid rnd = tohex rnd

-- The loop of valid_sid.
unfoldable pub low_digits : Bytes → Bool
unfolding is_low_digit
low_digits [] = true
low_digits (c ∷ s) = is_low_digit c && low_digits s

-- valid_sid: the id, if the cookie has one.
unfoldable pub valid_sid : Bytes → Option Bytes
unfolding low_digits
valid_sid [] = none
valid_sid (c ∷ s) =
    if not (length (c ∷ s) == 33) || not (c == b'I')
    then none
    else if low_digits s
    then some (take 32 s)
    else none

module _ (storage : Storage) where
  open storage use {State}

  -- `save` once the id is there.
  unfoldable pub save_as : ℕ → Bytes → Client → Bytes → ℕ → State → Client × State
  unfolding set_session_cookie
  save_as now id session content timeout s =
      (set_session_cookie (b'I' ∷ id) session, storage.save now id timeout content s)

  unfoldable pub save : ℕ → Bytes → Client → Bytes → ℕ → Bool → State → Client × State
  unfolding valid_sid save_as get_new_sid
  save now rnd session content timeout new_data s = elim (valid_sid session.cookie) [
    | none ↦ save_as now (get_new_sid rnd) session content timeout s
    | some id ↦
        if new_data
        then save_as now (get_new_sid rnd) session content timeout (storage.remove now id s)
        else save_as now id session content timeout s
  ]

  unfoldable pub load : ℕ → Client → State → Option (Bytes × ℕ) × State
  unfolding valid_sid
  load now session s = elim (valid_sid session.cookie) [
    | none ↦ (none, s)
    | some id ↦ elim (storage.load now id s) [
      | none ↦ (none, s)
      | some (content, timeout) ↦
          if ltb timeout now then (none, storage.remove now id s) else (some (content, timeout), s)
    ]
  ]

  unfoldable pub clear : ℕ → Client → State → Client × State
  unfolding valid_sid clear_session_cookie
  clear now session s = elim (valid_sid session.cookie) [
    | none ↦ (clear_session_cookie session, s)
    | some id ↦ (clear_session_cookie session, storage.remove now id s)
  ]

low_digits-All : (s : Bytes) → All (λ c. is_low_digit c ≡ true) s → low_digits s ≡ true
unfolding low_digits
low_digits-All [] a = refl
low_digits-All (c ∷ s) (e, a) = ground (arith, low_digits-All s a)

take_all : (n : ℕ) (s : Bytes) → length s ≤ n → take n s ≡ s
take_all zero [] h = refl
take_all zero (c ∷ s) h = absurd (omega arith)
take_all (suc n) [] h = refl
take_all (suc n) (c ∷ s) h = ap (◌∷◌ c) (take_all n s (omega arith))

valid_sid_tests :
    (cookie text : Bytes) (c : ℕ) (s id : Bytes)
    → (if not (length (c ∷ s) == 33) || not (c == b'I')
        then none
        else if low_digits s
        then some text
        else none)
      ≡ some id
    → (length s ≡ 32) × (c ≡ b'I') × (low_digits s ≡ true) × (text ≡ id)
valid_sid_tests cookie text c s id h = ground arith

valid_sid-I : (id : Bytes) → length id ≡ 32 → low_digits id ≡ true → valid_sid (b'I' ∷ id) ≡ some id
unfolding valid_sid
valid_sid-I id n d = rw (ap suc n, d) (ap (λ x. some x) (take_all 32 id (omega arith)))

-- An id has 32 digits; a cookie has an id exactly if it is the letter I with one.
pub valid_sid-some_iff :
    (cookie id : Bytes)
    → (valid_sid cookie ≡ some id)
      ↔ ((cookie ≡ b'I' ∷ id) × (length id ≡ 32) × (low_digits id ≡ true))
valid_sid-some_iff [] id = (λ h. (unfold valid_sid in cc), λ h. cc)
valid_sid-some_iff (c ∷ s) id = (
  λ h.
      let (n, e, d, f) = valid_sid_tests (c ∷ s) (take 32 s) c s id (unfold valid_sid in h) in
      let same_id : s ≡ id = sym (take_all 32 s (omega arith)) ∙ f in
      (cc, subst (λ x. length x ≡ 32) same_id n, subst (λ x. low_digits x ≡ true) same_id d),
  λ (e, n, d). rw e (valid_sid-I id n d),
)

new_sid_valid :
    (rnd : Bytes) → length rnd ≡ 16 → valid_sid (b'I' ∷ get_new_sid rnd) ≡ some (get_new_sid rnd)
unfolding get_new_sid
new_sid_valid rnd h =
    valid_sid-I (tohex rnd) (omega (arith, length-tohex rnd))
      (low_digits-All (tohex rnd) (tohex-digits rnd))

-- Whatever was there, the cookie is the letter I with an id.
pub save_cookie :
    (storage : Storage) (now : ℕ) (rnd : Bytes) (session : Client) (content : Bytes) (timeout : ℕ)
    (new_data : Bool) (s : storage.State)
    → (id : Bytes) × ((save storage now rnd session content timeout new_data s).0.temp_cookie
        ≡ b'I' ∷ id)
unfolding save save_as set_session_cookie
save_cookie storage now rnd session content timeout new_data s =
    elim (Option-cases (valid_sid session.cookie)) [
      | inl e ↦ (get_new_sid rnd, rw (e, save) refl)
      | inr (id, e) ↦ elim (Bool-cases new_data) [
        | inl new ↦ (get_new_sid rnd, rw (e, save) (rw new refl))
        | inr old ↦ (id, rw (e, save) (rw old refl))
      ]
    ]

load_found :
    (storage : Storage) (later timeout : ℕ) (session : Client) (content id : Bytes)
    (u : storage.State)
    → valid_sid session.cookie ≡ some id
    → storage.load later id u ≡ some (content, timeout)
    → later ≤ timeout
    → load storage later session u ≡ (some (content, timeout), u)
unfolding load
load_found storage later timeout session content id u h e live =
    rw (h, load) (rw (e, load) (ground arith))

module _ (storage : Storage) (now later : ℕ) (rnd : Bytes) (session : Client) (content : Bytes)
    (timeout : ℕ) (s : storage.State) (v : storage.Valid s) (size : length rnd ≡ 16)
    (le : now ≤ later) where
  -- What `load` finds under an id that `save` wrote to.
  load-save_as :
      (id : Bytes) (u : storage.State)
      → storage.Valid u
      → valid_sid (b'I' ∷ id) ≡ some id
      → later ≤ timeout
      → let (session', u') = save_as storage now id session content timeout u in
        load storage later (next_request session') u' ≡ (some (content, timeout), u')
  unfolding save_as set_session_cookie
  load-save_as id u w h live =
      load_found storage later timeout _ content id _ h
        (storage.load-save now later id id timeout content u w le ∙ ground (arith, same_iff id id))
        live

  -- A session is found at the next request up to its time, whatever cookie the client sent.
  pub load-save :
      (new_data : Bool)
      → later ≤ timeout
      → let (session', s') = save storage now rnd session content timeout new_data s in
        load storage later (next_request session') s' ≡ (some (content, timeout), s')
  unfolding save
  load-save new_data live = elim (Option-cases (valid_sid session.cookie)) [
    | inl e ↦ rw (e, save) (load-save_as (get_new_sid rnd) s v (new_sid_valid rnd size) live)
    | inr (id, e) ↦ elim (Bool-cases new_data) [
      | inl new ↦
          rw (e, save)
            (rw new (
              load-save_as (get_new_sid rnd) _ (storage.remove_valid now id s v)
                (new_sid_valid rnd size) live))
      | inr old ↦
          rw (e, save) (rw old (load-save_as id s v (ap valid_sid (sym (cookie_id id e)) ∙ e) live))
    ]
  ]
    where
      cookie_id : (id : Bytes) → valid_sid session.cookie ≡ some id → session.cookie ≡ b'I' ∷ id
      cookie_id id e = ((valid_sid-some_iff session.cookie id).0 e).0

  -- A new session of a client that sent an id gets the new id, and under the id that it sent nothing
  -- is found any more, unless it is the new one: a client cannot choose the id under which somebody
  -- is logged in.
  pub save_new :
      (id : Bytes)
      → valid_sid session.cookie ≡ some id
      → let (session', s') = save storage now rnd session content timeout true s in
        (session'.temp_cookie ≡ b'I' ∷ get_new_sid rnd)
        × (id ≢ get_new_sid rnd → storage.load later id s' ≡ none)
  unfolding save save_as set_session_cookie
  save_new id h =
      rw (h, save)
        (
          refl,
          λ other.
              storage.load-save now later id (get_new_sid rnd) timeout content
                (storage.remove now id s) (storage.remove_valid now id s v) le
              ∙ ground (
                arith,
                same_iff id (get_new_sid rnd),
                same_iff id id,
                storage.load-remove now later id id s v le,
              ),
        )
