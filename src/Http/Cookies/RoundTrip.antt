-- ===== src/Http/Cookies/RoundTrip.antt =====
-- src/http_request.cpp: the cookies of the header that a client sends.
use cppcms.Prelude.{
  ℕ, zero, suc, ◌+◌, ◌≤◌, ◌<◌, ◌≡◌, refl, ◌∙◌, ◌≢◌, true, false, List, [], ◌∷◌, ◌++◌, append-nil,
  arith, ◌==◌, Bytes, codes, length, length-append, All, take, take-length-append, lookup,
  lookup-cons, same, same_iff, Option, none, some, if◌then◌else◌, inl, inr, Option-cases, ap,
}
use cppcms.Http.Protocol.{skip_ws, tocken, token_char, separator, compare}
use cppcms.Http.Protocol.Scanning.{skip_ws-other, skip_ws-blank}
use cppcms.Http.ContentType.Printed.{IsToken, tocken-stop, skip_ws-token}
use cppcms.Http.Scanner.{assign, same_name}
use cppcms.Http.Cookies.{
  Cookie, no_cookie, is_period, Pair, past_period, read_value, behind_key, read_key_value,
  insert_cookie, attribute, on_pair, cookies_loop, parse_cookies,
}

assign-append : (w s : Bytes) → assign (w ++ s) s ≡ w
assign-append w s =
    ap (λ n. take n (w ++ s)) (omega (arith, length-append w s)) ∙ take-length-append w s

tocken-end : (w : Bytes) → All (λ c. token_char c ≡ true) w → tocken w ≡ []
unfolding tocken
tocken-end [] a = refl
tocken-end (x ∷ w) (e, a) = rw e (tocken-end w a)

-- A value that is a token, up to where it ends.
read_value-token :
    (key v rest : Bytes) (c : ℕ)
    → IsToken (c ∷ v)
    → tocken ((c ∷ v) ++ rest) ≡ rest
    → read_value key c ((c ∷ v) ++ rest)
      ≡ record { ok = true; key = key; value = c ∷ v; rest = past_period (skip_ws rest) }
unfolding read_value
read_value-token key v rest c (pos, (e, a)) stop =
    rw (no_quote, read_value) (rw (stop, assign-append (c ∷ v) rest, longer) refl)
  where
    no_quote : (c == b'"') ≡ false
    no_quote = unfold token_char separator in ground arith

    longer : (length rest == length ((c ∷ v) ++ rest)) ≡ false
    longer = ground (arith, length-append (c ∷ v) rest)

behind_key-token :
    (key v rest : Bytes)
    → IsToken v
    → tocken (v ++ rest) ≡ rest
    → behind_key key (b'=' ∷ (v ++ rest))
      ≡ record { ok = true; key = key; value = v; rest = past_period (skip_ws rest) }
unfolding behind_key
behind_key-token key [] rest (pos, a) stop = absurd (omega arith)
behind_key-token key (c ∷ v) rest t stop =
    rw (skip_ws-token (c ∷ v) rest t, behind_key) (read_value-token key v rest c t stop)

read_key_value-pair :
    (key v rest : Bytes)
    → IsToken key
    → IsToken v
    → tocken (v ++ rest) ≡ rest
    → read_key_value (key ++ (b'=' ∷ (v ++ rest)))
      ≡ record { ok = true; key = key; value = v; rest = past_period (skip_ws rest) }
unfolding read_key_value
read_key_value-pair key v rest t u stop =
    rw
      (
        skip_ws-token key (b'=' ∷ (v ++ rest)) t,
        tocken-stop key b'=' (v ++ rest) t.1 (unfold token_char separator in refl),
        read_key_value,
      )
      (rw (longer, assign-append key (b'=' ∷ (v ++ rest)), equals)
        (behind_key-token key v rest u stop))
  where
    longer : (length (b'=' ∷ (v ++ rest)) == length (key ++ (b'=' ∷ (v ++ rest)))) ≡ false
    longer = ground (arith, length-append key (b'=' ∷ (v ++ rest)), t.0)

    equals : skip_ws (b'=' ∷ (v ++ rest)) ≡ b'=' ∷ (v ++ rest)
    equals = skip_ws-other b'=' (v ++ rest) refl refl

-- A key that names a cookie, and the cookies as a client sends them.
abbrev pub IsName : Bytes → Type 0
IsName key = IsToken key × (take 1 key ≢ b'$' ∷ [])

abbrev pub IsPair : Bytes × Bytes → Type 0
IsPair p = IsName p.0 × IsToken p.1

unfoldable pub header : List (Bytes × Bytes) → Bytes
header [] = []
header ((key, v) ∷ []) = key ++ (b'=' ∷ (v ++ []))
header ((key, v) ∷ p ∷ l) = key ++ (b'=' ∷ (v ++ (b';' ∷ b' ' ∷ header (p ∷ l))))

unfoldable pub cookie : Bytes × Bytes → Cookie
cookie (key, v) = record { name = key; value = v; domain = [] }

-- The cookies of a list put in one after the other.
unfoldable insert_all : List (Bytes × Bytes) → List (Bytes × Cookie) → List (Bytes × Cookie)
insert_all [] m = m
insert_all (p ∷ l) m = insert_all l (insert_cookie (cookie p) m)

on_pair-name :
    (key v rest : Bytes) (c : Cookie) (m : List (Bytes × Cookie))
    → IsName key
    → on_pair (record { ok = true; key = key; value = v; rest = rest }) c m
      ≡ (cookie (key, v), insert_cookie c m)
unfolding on_pair cookie
on_pair-name [] v rest c m ((pos, a), n) = absurd (omega arith)
on_pair-name (d ∷ key) v rest c m (t, n) = rw no_dollar refl
  where
    no_dollar : (d == b'$') ≡ false
    no_dollar = ground (arith, n)

loop_any :
    (fuel x : ℕ) (p : Bytes) (c : Cookie) (m : List (Bytes × Cookie)) (r : Pair)
    → read_key_value (x ∷ p) ≡ r
    → cookies_loop (suc fuel) (x ∷ p) c m
      ≡ cookies_loop fuel r.rest (on_pair r c m).0 (on_pair r c m).1
unfolding cookies_loop
loop_any fuel x p c m r e = ap (λ q. cookies_loop fuel q.rest (on_pair q c m).0 (on_pair q c m).1) e

loop_round :
    (fuel : ℕ) (p : Bytes) (c : Cookie) (m : List (Bytes × Cookie)) (key v rest : Bytes)
    → IsName key
    → 0 < length p
    → read_key_value p ≡ record { ok = true; key = key; value = v; rest = rest }
    → cookies_loop (suc fuel) p c m ≡ cookies_loop fuel rest (cookie (key, v)) (insert_cookie c m)
unfolding cookies_loop
loop_round fuel [] c m key v rest n h e = absurd (omega arith)
loop_round fuel (x ∷ p) c m key v rest n h e =
    loop_any fuel x p c m (record { ok = true; key = key; value = v; rest = rest }) e
    ∙ ap (λ q. cookies_loop fuel rest q.0 q.1) (on_pair-name key v rest c m n)

header-starts : (l : List (Bytes × Bytes)) → All IsPair l → skip_ws (header l) ≡ header l
unfolding header
header-starts [] a = (unfold skip_ws in refl)
header-starts ((key, v) ∷ []) (((t, n), u), a) = skip_ws-token key _ t
header-starts ((key, v) ∷ p ∷ l) (((t, n), u), a) = skip_ws-token key _ t

pair_size : (key s : Bytes) → length (key ++ (b'=' ∷ s)) ≡ length key + (1 + length s)
pair_size key s = omega (arith, length-append key (b'=' ∷ s))

-- The pair of the last cookie, and that of another.
read_last :
    (key v : Bytes)
    → IsToken key
    → IsToken v
    → read_key_value (key ++ (b'=' ∷ (v ++ [])))
      ≡ record { ok = true; key = key; value = v; rest = [] }
read_last key v t u =
    read_key_value-pair key v [] t u (ap tocken (append-nil v) ∙ tocken-end v u.1)
    ∙ (unfold past_period skip_ws in refl)

past_period-skip_ws : (s : Bytes) → skip_ws s ≡ s → past_period (skip_ws (b';' ∷ b' ' ∷ s)) ≡ s
unfolding past_period is_period
past_period-skip_ws s e =
    ap past_period (skip_ws-other b';' (b' ' ∷ s) refl refl) ∙ skip_ws-blank b' ' s refl ∙ e

read_next :
    (key v s : Bytes)
    → IsToken key
    → IsToken v
    → skip_ws s ≡ s
    → read_key_value (key ++ (b'=' ∷ (v ++ (b';' ∷ b' ' ∷ s))))
      ≡ record { ok = true; key = key; value = v; rest = s }
read_next key v s t u e =
    read_key_value-pair key v (b';' ∷ b' ' ∷ s) t u
      (tocken-stop v b';' (b' ' ∷ s) u.1 (unfold token_char separator in refl))
    ∙ ap (λ r. record { ok = true; key = key; value = v; rest = r }) (past_period-skip_ws s e)

loop_header :
    (fuel : ℕ) (l : List (Bytes × Bytes)) (c : Cookie) (m : List (Bytes × Cookie))
    → All IsPair l
    → length (header l) ≤ fuel
    → cookies_loop fuel (header l) c m ≡ insert_all l (insert_cookie c m)
unfolding header insert_all
loop_header fuel [] c m a le = (unfold cookies_loop in refl)
loop_header zero ((key, v) ∷ []) c m (((t, n), u), a) le =
    absurd (omega (arith, pair_size key (v ++ [])))
loop_header (suc fuel) ((key, v) ∷ []) c m (((t, n), u), a) le =
    loop_round fuel (key ++ (b'=' ∷ (v ++ []))) c m key v [] (t, n)
      (omega (arith, pair_size key (v ++ []))) (read_last key v t u)
    ∙ (unfold cookies_loop in refl)
loop_header zero ((key, v) ∷ p ∷ l) c m (((t, n), u), a) le =
    absurd (omega (arith, pair_size key (v ++ (b';' ∷ b' ' ∷ header (p ∷ l)))))
loop_header (suc fuel) ((key, v) ∷ p ∷ l) c m (((t, n), u), a) le =
    loop_round fuel (key ++ (b'=' ∷ (v ++ (b';' ∷ b' ' ∷ header (p ∷ l))))) c m key v
      (header (p ∷ l)) (t, n) (omega (arith, pair_size key (v ++ (b';' ∷ b' ' ∷ header (p ∷ l)))))
      (read_next key v (header (p ∷ l)) t u (header-starts (p ∷ l) a))
    ∙ loop_header fuel (p ∷ l) (cookie (key, v)) (insert_cookie c m) a (
        omega (
          arith,
          pair_size key (v ++ (b';' ∷ b' ' ∷ header (p ∷ l))),
          length-append v (b';' ∷ b' ' ∷ header (p ∷ l)),
        ))

parse_cookies-insert_all :
    (l : List (Bytes × Bytes)) → All IsPair l → parse_cookies (header l) ≡ insert_all l []
unfolding parse_cookies
parse_cookies-insert_all l a = rw (header-starts l a) (
    loop_header (length (header l)) l no_cookie [] a (omega arith) ∙ (unfold insert_cookie in refl))

-- What a client that sent a value under a name expects under that name.
abbrev pub expected : Bytes → Option Bytes → Option Cookie
expected j none = none
expected j (some v) = some (cookie (j, v))

lookup-append_one :
    (j k : Bytes) (c : Cookie) (m : List (Bytes × Cookie))
    → lookup k m ≡ none
    → lookup j (m ++ ((k, c) ∷ [])) ≡ (if same j k then some c else lookup j m)
unfolding lookup
lookup-append_one j k c [] h = refl
lookup-append_one j k c ((i, d) ∷ m) h =
    ground (arith, lookup-append_one j k c m, same_iff j k, same_iff j i, same_iff k i)

abbrev or_else : Option Cookie → Option Cookie → Option Cookie
or_else none d = d
or_else (some c) d = some c

insert_cookie-outcome :
    (c : Cookie) (m : List (Bytes × Cookie))
    → 0 < length c.name
    → insert_cookie c m ≡ elim (lookup c.name m) [ none ↦ m ++ ((c.name, c) ∷ []) | some old ↦ m ]
unfolding insert_cookie
insert_cookie-outcome c m h =
    let named : (length c.name == 0) ≡ false = ground arith in rw named refl

lookup-insert_cookie :
    (j : Bytes) (c : Cookie) (m : List (Bytes × Cookie))
    → 0 < length c.name
    → lookup j (insert_cookie c m) ≡ or_else (lookup j m) (if same j c.name then some c else none)
lookup-insert_cookie j c m h = elim (Option-cases (lookup c.name m)) [
  | inl e ↦
      rw (insert_cookie-outcome c m h, e)
        (ground (arith, lookup-append_one j c.name c m e, same_iff j c.name, e))
  | inr (d, e) ↦ rw (insert_cookie-outcome c m h, e) (ground (arith, same_iff j c.name, e))
]

lookup-insert_all :
    (j : Bytes) (l : List (Bytes × Bytes)) (m : List (Bytes × Cookie))
    → All IsPair l
    → lookup j (insert_all l m) ≡ or_else (lookup j m) (expected j (lookup j l))
unfolding insert_all cookie
lookup-insert_all j [] m a = unfold lookup in ground arith
lookup-insert_all j ((k, v) ∷ l) m (((t, n), u), a) =
    let rest = lookup-insert_all j l (insert_cookie (cookie (k, v)) m) a in
    rest
    ∙ (rw (lookup-insert_cookie j (cookie (k, v)) m t.0, lookup-cons)
        (ground (arith, same_iff j k)))

-- For every name, the cookies that are read from a header hold the first value that the client sent
-- under it, and nothing under a name that it did not send: with names and values that are tokens,
-- if no name starts with a dollar.
pub parse_cookies-header :
    (j : Bytes) (l : List (Bytes × Bytes))
    → All IsPair l
    → lookup j (parse_cookies (header l)) ≡ expected j (lookup j l)
parse_cookies-header j l a =
    ap (lookup j) (parse_cookies-insert_all l a)
    ∙ lookup-insert_all j l [] a
    ∙ (unfold lookup in refl)

path-IsToken : IsToken (codes "$Path")
path-IsToken =
    (omega arith, (unfold token_char separator in (refl, (refl, (refl, (refl, (refl, tt)))))))

path_taken :
    (v : Bytes)
    → on_pair (record { ok = true; key = codes "$Path"; value = v; rest = [] }) no_cookie []
      ≡ (record { name = v; value = []; domain = [] }, [])
unfolding on_pair attribute same_name compare
path_taken v = refl

insert_first :
    (fuel : ℕ) (c : Cookie) → 0 < length c.name → cookies_loop fuel [] c [] ≡ (c.name, c) ∷ []
unfolding cookies_loop insert_cookie lookup
insert_first fuel c h = ground arith

-- A header of nothing but `$Path` and a token gives a cookie of which the token is the name: the
-- attribute is taken, where no cookie is before it, for the name of one.
pub parse_cookies-path :
    (v : Bytes)
    → IsToken v
    → parse_cookies (codes "$Path" ++ (b'=' ∷ (v ++ [])))
      ≡ (v, record { name = v; value = []; domain = [] }) ∷ []
unfolding parse_cookies
parse_cookies-path v u =
    let fuel = length (codes "Path" ++ (b'=' ∷ (v ++ []))) in
    rw (skip_ws-token (codes "$Path") (b'=' ∷ (v ++ [])) path-IsToken) (
      loop_any fuel b'$' (codes "Path" ++ (b'=' ∷ (v ++ []))) no_cookie []
        (record { ok = true; key = codes "$Path"; value = v; rest = [] })
        (read_last (codes "$Path") v path-IsToken u)
      ∙ ap (λ q. cookies_loop fuel [] q.0 q.1) (path_taken v)
      ∙ insert_first fuel (record { name = v; value = []; domain = [] }) u.0)
