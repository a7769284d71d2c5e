-- ===== src/Http/Cookies.antt =====
-- src/http_request.cpp: the cookies of a request.
pub mod RoundTrip
use cppcms.Prelude.{
  ℕ, zero, suc, ◌+◌, ◌-◌, ◌*◌, ◌/◌, ◌%◌, ◌^◌, ◌≤◌, ◌<◌, ◌≡◌, refl, sym, ap, ◌∙◌, ◌≢◌, ◌↔◌, ◌⊎◌, inl,
  inr, Bool, true, false, not, ◌&&◌, ◌||◌, Option, none, some, List, [], ◌∷◌, ◌++◌, append-nil,
  append_assoc, arith, ltb, leb, ◌==◌, if◌then◌else◌, within, ==_iff, Bool-cases, Option-cases,
  Bytes, codes, length, length-append, All, All-append, IsBytes, shr, shl, low_bits, take, drop,
  get_elem?, take-length-append, subst, same, same_iff, count, remove, count-remove, length-remove,
  lookup, erase, keys, lookup-erase, lookup-absent, KeysOnce, KeysOnce-tail, lookup_once,
  KeysOnce-put, lookup-cons, count-keys-erase, length-erase, length-take, drop-length-append,
  take-append-drop, length-drop, drop-drop, le_bytes, read_le, length-le_bytes, le_bytes-IsBytes,
  read_le-le_bytes_4, read_le-le_bytes_8,
}
use cppcms.Http.Protocol.{skip_ws, tocken, unquote}
use cppcms.Http.Scanner.{assign, same_name}

-- The parts of class cookie that a request sets.
pub record Cookie : Type 0 where
  pub name : Bytes
  pub value : Bytes
  pub domain : Bytes

abbrev pub no_cookie : Cookie
no_cookie = record { name = []; value = []; domain = [] }

-- `c==';' || c==','`
unfoldable pub is_period : ℕ → Bool
is_period c = c == b';' || c == b','

unfoldable pub skip_after_period : Bytes → Bytes
unfolding is_period
skip_after_period [] = []
skip_after_period (c ∷ s) = let rest = skip_after_period s in if is_period c then s else rest

-- What a round reads: whether it is a key with its value, both, and the rest of the range.
pub record Pair : Type 0 where
  pub ok : Bool
  pub key : Bytes
  pub value : Bytes
  pub rest : Bytes

-- The end of read_key_value, behind the value.
unfoldable pub past_period : Bytes → Bytes
unfolding is_period
past_period [] = []
past_period (c ∷ s) = if is_period c then skip_ws s else c ∷ s

-- The value behind the `=`, at the first character `c` of the range `p`.
unfoldable pub read_value : Bytes → ℕ → Bytes → Pair
unfolding is_period skip_after_period past_period
read_value key c p =
    let (text, behind) = unquote p in
    let end = tocken p in
    if c == b'"'
    then (if length behind == length p
        then record { ok = false; key = key; value = text; rest = [] }
        else record { ok = true; key = key; value = text; rest = past_period (skip_ws behind) })
    else if length end == length p && not (is_period c)
    then record { ok = false; key = key; value = assign p end; rest = skip_after_period end }
    else record { ok = true; key = key; value = assign p end; rest = past_period (skip_ws end) }

-- The range behind the key.
unfoldable pub behind_key : Bytes → Bytes → Pair
unfolding is_period
behind_key key [] = record { ok = true; key = key; value = []; rest = [] }
behind_key key (c ∷ s) =
    if not (c == b'=') && is_period c
    then record { ok = true; key = key; value = []; rest = s }
    else elim (skip_ws s) [
      | [] ↦ record { ok = true; key = key; value = []; rest = [] }
      | d ∷ t ↦ read_value key d (d ∷ t)
    ]

unfoldable pub read_key_value : Bytes → Pair
unfolding skip_after_period behind_key read_value
read_key_value p =
    let start = skip_ws p in
    let end = tocken start in
    if length end == length start && not (length start == 0)
    then record { ok = false; key = []; value = []; rest = skip_after_period end }
    else behind_key (assign start end) (skip_ws end)

-- `cookies_.insert`, which keeps the first cookie of a name.
unfoldable pub insert_cookie : Cookie → List (Bytes × Cookie) → List (Bytes × Cookie)
insert_cookie c m =
    if length c.name == 0
    then m
    else elim (lookup c.name m) [ none ↦ m ++ ((c.name, c) ∷ []) | some old ↦ m ]

-- An attribute of the cookie before it.
unfoldable pub attribute : Bytes → Bytes → Cookie → Cookie
attribute key v c =
    if not (length c.name == 0)
    then c
    else if same_name key (codes "$Path")
    then record c { name = v }
    else if same_name key (codes "$Domain")
    then record c { domain = v }
    else c

-- What a round does to the cookie that it is at, and to those behind it.
unfoldable pub on_pair : Pair → Cookie → List (Bytes × Cookie) → Cookie × List (Bytes × Cookie)
unfolding insert_cookie attribute
on_pair r c m = if not r.ok then (no_cookie, m) else elim r.key [
  | [] ↦ (record { name = r.key; value = r.value; domain = [] }, insert_cookie c m)
  | d ∷ key ↦
      if d == b'$'
      then (attribute r.key r.value c, m)
      else (record { name = r.key; value = r.value; domain = [] }, insert_cookie c m)
]

-- Each round takes a character at least.
unfoldable pub cookies_loop : ℕ → Bytes → Cookie → List (Bytes × Cookie) → List (Bytes × Cookie)
unfolding on_pair read_key_value
cookies_loop fuel [] c m = insert_cookie c m
cookies_loop zero (x ∷ p) c m = m
cookies_loop (suc fuel) (x ∷ p) c m =
    let r = read_key_value (x ∷ p) in let (c', m') = on_pair r c m in cookies_loop fuel r.rest c' m'

unfoldable pub parse_cookies : Bytes → List (Bytes × Cookie)
unfolding cookies_loop
parse_cookies cookie_str = let p = skip_ws cookie_str in cookies_loop (length p) p no_cookie []
