-- ===== src/Session/Interface/RoundTrip.antt =====
-- src/session_interface.cpp: a session through two requests.
use cppcms.Prelude.{
  ℕ, ◌+◌, ◌%◌, ◌^◌, ◌≤◌, ◌<◌, ◌≡◌, refl, ap, ◌∙◌, ◌≢◌, ◌⊎◌, inl, inr, true, false, Option, none,
  some, List, [], ◌∷◌, arith, ◌==◌, if◌then◌else◌, Bool-cases, Bytes, codes, length, IsBytes,
  same_iff, count, lookup, erase, keys, lookup-erase, lookup-absent, KeysOnce, KeysOnce-tail,
  lookup_once, count-keys-erase, length-erase,
}
use cppcms.Session.Client.{Client, next_request}
use cppcms.Session.Api.{Api, IsApi}
use cppcms.Session.Packing.{Entry, save_data}
use cppcms.Session.Packing.RoundTrip.{load_data-save_data}
use cppcms.Session.Exposed.{SetCookie, session_cookie}
use cppcms.Session.Interface.{Settings, Session}
use cppcms.Session.Interface.Saving.{
  cookie_age, session_age, int_of, cleared, restore, exposing, unchanged, keeps, with_new_session,
  with_token, load, store, save, same_entry, all_same, same_data,
}

same_entry_lem : (e : Entry) (old : Option Entry) → same_entry e old ≡ true → old ≡ some e
unfolding same_entry
same_entry_lem e none h = absurd (ground arith)
same_entry_lem e (some old) h =
    ap (λ x. some x) (entries old e (ground (arith, same_iff e.value old.value)) (ground arith))
  where
    entries : (x y : Entry) → x.value ≡ y.value → x.exposed ≡ y.exposed → x ≡ y
    entries x y f g i = record { value = f i; exposed = g i }

all_same-erase :
    (k : Bytes) (m copy : List (Bytes × Entry))
    → count k (keys m) ≡ 0
    → all_same m copy ≡ true
    → all_same m (erase k copy) ≡ true
unfolding all_same count
all_same-erase k [] copy h a = refl
all_same-erase k ((j, e) ∷ m) copy h a =
    ground (arith, all_same-erase k m copy, lookup-erase j k copy, same_iff j k, same_iff k j)

-- Two maps of the same size, of which one lies in the other, are the same.
same_data-lookup :
    (m copy : List (Bytes × Entry))
    → KeysOnce m
    → KeysOnce copy
    → length m ≡ length copy
    → all_same m copy ≡ true
    → (j : Bytes) → lookup j m ≡ lookup j copy
unfolding all_same lookup
same_data-lookup [] [] u v h a j = refl
same_data-lookup [] (x ∷ copy) u v h a j = absurd (omega arith)
same_data-lookup ((k, e) ∷ m) copy u v h a j =
    let rest : lookup j m ≡ lookup j (erase k copy) =
      same_data-lookup m (erase k copy) (KeysOnce-tail k e m u)
        (λ i. ground (arith, v i, count-keys-erase i k copy))
        (ground (arith, length-erase k copy, v k, lookup-absent k copy, found))
        (all_same-erase k m copy zero_in_m (ground arith)) j in
    ground (arith, rest, lookup-erase j k copy, found, same_iff j k, lookup_once k e m u)
  where
    found : lookup k copy ≡ some e
    found = same_entry_lem e (lookup k copy) (ground arith)

    zero_in_m : count k (keys m) ≡ 0
    zero_in_m = unfold count in ground (arith, u k, same_iff k k)

int_of_cong :
    (from_string : Bytes → Option ℕ) (key : Bytes) (value : ℕ) (d m : List (Bytes × Entry))
    → lookup key d ≡ lookup key m
    → int_of from_string key value d ≡ int_of from_string key value m
unfolding int_of
int_of_cong from_string key value d m h = rw (h, int_of) refl

module _ (from_string : Bytes → Option ℕ) (settings : Settings) (m : List (Bytes × Entry)) where
  -- The numbers that a session keeps among its values are texts of numbers.
  pub record Reads (timeout_val how on_server : ℕ) : Type 0 where
    pub reads_t : int_of from_string (codes "_t") settings.timeout_val_def m ≡ some timeout_val
    pub reads_h : int_of from_string (codes "_h") settings.how_def m ≡ some how
    pub reads_s : int_of from_string (codes "_s") 0 m ≡ some on_server

  abbrev pub restored : ℕ → ℕ → ℕ → ℕ → List (Bytes × Entry) → Session → Session
  restored timeout_val how on_server timeout_in d s = record (cleared settings s) {
    content = d;
    copy = d;
    timeout_val = timeout_val;
    how = how;
    timeout_in = timeout_in;
    on_server = on_server % 2 == 1;
  }

  restore-save_data :
      (timeout_val how on_server timeout_in : ℕ) (ar : Bytes) (s : Session)
      → KeysOnce m
      → save_data m ≡ some ar
      → length ar < 2 ^ 32
      → Reads timeout_val how on_server
      → (d : List (Bytes × Entry)) × ((j : Bytes) → lookup j d ≡ lookup j m)
        × (restore from_string settings ar timeout_in s
            ≡ some (restored timeout_val how on_server timeout_in d s))
  unfolding restore
  restore-save_data timeout_val how on_server timeout_in ar s u h small r =
      let (d, e, f) = load_data-save_data m ar u h small in
      (
        d,
        f,
        rw
            (
              e,
              int_of_cong from_string (codes "_t") settings.timeout_val_def d m (f (codes "_t"))
                  ∙ r.reads_t,
              int_of_cong from_string (codes "_h") settings.how_def d m (f (codes "_h"))
                  ∙ r.reads_h,
              int_of_cong from_string (codes "_s") 0 d m (f (codes "_s")) ∙ r.reads_s,
            )
            refl,
      )

load_found :
    (settings : Settings) (api : Api) (from_string : Bytes → Option ℕ) (later : ℕ)
    (fresh back : Session) (client : Client) (st : api.State) (ar : Bytes) (timeout : ℕ)
    → fresh.loaded ≡ false
    → api.load later client st ≡ (some (ar, timeout), client, st)
    → restore from_string settings ar timeout fresh ≡ some back
    → load settings api from_string later fresh client st ≡ some (true, back, client, st)
unfolding load
load_found settings api from_string later fresh back client st ar timeout new found e =
    rw (new, ap (λ r. r.0) found, e, load) (ap (λ r. some (true, back, r.1, r.2)) found)

module _ (settings : Settings) (api : Api) (v : IsApi api) (from_string : Bytes → Option ℕ)
    (now later : ℕ) (nonce rnd : Bytes) (st : api.State) (w : v.Valid st) (size : length rnd ≡ 16)
    (le : now ≤ later) where
  -- What `load` finds at the next request, by a client with the cookie that `store` gave it.
  abbrev pub Found : Session → Session → Client → api.State → List SetCookie → ℕ → ℕ → ℕ → Type 0
  Found s fresh client' st' cookies timeout_val how on_server =
      (c : Bytes) × (rest : List SetCookie) × (cookies
        ≡ session_cookie (cookie_age now s) c [] ∷ rest)
      × (d : List (Bytes × Entry)) × ((j : Bytes) → lookup j d ≡ lookup j s.content)
      × (load settings api from_string later fresh
            (next_request (record client' { temp_cookie = c })) st'
          ≡ some (
            true,
            restored from_string settings s.content timeout_val how on_server (session_age now s) d
                fresh,
            next_request (record client' { temp_cookie = c }),
            st',
          ))

  load-store :
      (s fresh : Session) (client : Client) (cookies : List Bytes) (ar : Bytes)
      (timeout_val how on_server : ℕ)
      → KeysOnce s.content
      → save_data s.content ≡ some ar
      → IsBytes ar
      → length ar + 8 < 2 ^ 32
      → session_age now s < 2 ^ 64
      → later ≤ session_age now s
      → Reads from_string settings s.content timeout_val how on_server
      → fresh.loaded ≡ false
      → (client' : Client) × (st' : api.State) × (out : List SetCookie) × (store settings api now
            nonce rnd cookies s client st
          ≡ some (record s { saved = true }, client', st', out))
        × Found s fresh client' st' out timeout_val how on_server
  unfolding store load
  load-store s fresh client cookies ar timeout_val how on_server u h b small fits live r new =
      let (client', st', e, f) =
        v.load-save now later nonce rnd (record client { temp_cookie = [] }) ar (session_age now s)
          s.new_session s.on_server st w size b small fits le live in
      let (d, g, i) =
        restore-save_data from_string settings s.content timeout_val how on_server
          (session_age now s) ar fresh u h (omega arith) r in
      (
        record client' { temp_cookie = [] },
        st',
        session_cookie (cookie_age now s) client'.temp_cookie []
            ∷ exposing settings cookies (unchanged s) now s,
        rw (h, e) refl,
        (
          client'.temp_cookie,
          exposing settings cookies (unchanged s) now s,
          refl,
          d,
          g,
          load_found settings api from_string later fresh _ (next_request client') st' ar
              (session_age now s) new f i,
        ),
      )

  save_outcome :
      (binary : Bytes) (cookies : List Bytes) (s : Session) (client : Client)
      → s.loaded ≡ true
      → s.saved ≡ false
      → length s.content ≢ 0
      → let u = with_token settings binary (with_new_session s) in
        save settings api now nonce rnd binary cookies s client st ≡ (
          if keeps now u
          then some (u, client, st, [])
          else store settings api now nonce rnd cookies u client st)
  unfolding save with_new_session
  save_outcome binary cookies s client is_loaded unsaved full =
      let some_content : (length s.content == 0) ≡ false = ground arith in
      rw (is_loaded, unsaved, some_content, save) refl

  kept :
      (u : Session)
      → KeysOnce u.content
      → KeysOnce u.copy
      → keeps now u ≡ true
      → (j : Bytes) → lookup j u.content ≡ lookup j u.copy
  unfolding keeps unchanged same_data
  kept u a b h = same_data-lookup u.content u.copy a b (ground arith) (ground arith)

  -- What an application has in a session at `save` it has again at the next request. `s` is a loaded
  -- session that is not saved and not empty, and `u` is `s` with the token of a new session. Either
  -- `u` holds what was loaded, and nothing is done, or `save` returns and `load` finds by the first
  -- cookie of the response each value and flag of `u`, the age and the kind of expiration that the
  -- values say, and the time of its end. This is so up to that time, with any storage that keeps the
  -- promise of its interface, if the keys are different, save_data takes the values and gives a
  -- string of fewer than 2^32 bytes with its time, and the numbers among the values can be read.
  pub load-save :
      (binary : Bytes) (cookies : List Bytes) (s u fresh : Session) (client : Client) (ar : Bytes)
      (timeout_val how on_server : ℕ)
      → s.loaded ≡ true
      → s.saved ≡ false
      → length s.content ≢ 0
      → with_token settings binary (with_new_session s) ≡ u
      → KeysOnce u.content
      → KeysOnce u.copy
      → save_data u.content ≡ some ar
      → IsBytes ar
      → length ar + 8 < 2 ^ 32
      → session_age now u < 2 ^ 64
      → later ≤ session_age now u
      → Reads from_string settings u.content timeout_val how on_server
      → fresh.loaded ≡ false
      → ((save settings api now nonce rnd binary cookies s client st ≡ some (u, client, st, []))
          × ((j : Bytes) → lookup j u.content ≡ lookup j u.copy))
        ⊎ ((client' : Client) × (st' : api.State) × (out : List SetCookie) × (save settings api now
                nonce rnd binary cookies s client st
              ≡ some (record u { saved = true }, client', st', out))
            × Found u fresh client' st' out timeout_val how on_server)
  load-save binary cookies s u fresh client ar timeout_val how on_server is_loaded unsaved full e
        once copy_once h b small fits live r new =
      let outcome = save_outcome binary cookies s client is_loaded unsaved full in
      elim (Bool-cases (keeps now u)) [
        | inl keep ↦ inl (outcome ∙ (rw (e, keep) refl), kept u once copy_once keep)
        | inr stored ↦
            let (client', st', out, f, g) =
              load-store u fresh client cookies ar timeout_val how on_server once h b small fits
                live r new in
            inr (client', st', out, outcome ∙ (rw (e, stored) f), g)
      ]
