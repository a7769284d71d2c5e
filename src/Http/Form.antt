-- ===== src/Http/Form.antt =====
-- src/http_request.cpp: parse_form_urlencoded, which reads the values of a form.
pub mod RoundTrip
use cppcms.Prelude.{
  ℕ, zero, suc, ◌+◌, ◌-◌, ◌*◌, ◌/◌, ◌%◌, ◌^◌, ◌≤◌, ◌<◌, ◌≡◌, refl, sym, ap, ◌∙◌, ◌≢◌, ◌↔◌, ◌⊎◌, inl,
  inr, Bool, true, false, not, ◌&&◌, ◌||◌, Option, none, some, List, [], ◌∷◌, ◌++◌, append-nil,
  append_assoc, arith, ltb, leb, ◌==◌, if◌then◌else◌, within, ==_iff, Bool-cases, Option-cases,
  Bytes, codes, length, length-append, All, All-append, IsBytes, shr, shl, low_bits, take, drop,
  get_elem?, take-length-append, subst, same, same_iff, count, remove, count-remove, length-remove,
  lookup, erase, keys, lookup-erase, lookup-absent, KeysOnce, KeysOnce-tail, lookup_once,
  KeysOnce-put, lookup-cons, count-keys-erase, length-erase, length-take, drop-length-append,
  take-append-drop, length-drop, drop-drop, le_bytes, read_le, length-le_bytes, le_bytes-IsBytes,
  read_le-le_bytes_4, read_le-le_bytes_8,
}
use cppcms.Url.{urldecode}
use cppcms.Http.Scanner.{assign}

-- std::find: the range from the first such character.
unfoldable pub find_char : ℕ → Bytes → Bytes
find_char x [] = []
find_char x (c ∷ s) = let rest = find_char x s in if c == x then c ∷ s else rest

-- A pair of the form from `p` to `e`, if it has a name.
unfoldable pub name_value : Bytes → Option (Bytes × Bytes)
unfolding find_char
name_value p =
    let name_end = find_char b'=' p in
    if length name_end == 0 || length name_end == length p
    then none
    else some (urldecode (assign p name_end), urldecode (drop 1 name_end))

-- A round of the loop: the pair, and the range of the next round.
unfoldable pub read_pair : Bytes → Option (Bytes × Bytes × Bytes)
unfolding name_value
read_pair p =
    let e = find_char b'&' p in
    elim (name_value (assign p e)) [ none ↦ none | some (name, v) ↦ some (name, v, drop 1 e) ]

-- Each round takes a character at least. The pairs are in the order in which they are inserted.
unfoldable pub form_loop : ℕ → Bytes → List (Bytes × Bytes) → Bool × List (Bytes × Bytes)
unfolding read_pair
form_loop fuel [] out = (true, out)
form_loop zero (c ∷ p) out = (false, out)
form_loop (suc fuel) (c ∷ p) out = elim (read_pair (c ∷ p)) [
  | none ↦ (false, out)
  | some (name, v, rest) ↦ form_loop fuel rest (out ++ ((name, v) ∷ []))
]

unfoldable pub parse_form_urlencoded : Bytes → Bool × List (Bytes × Bytes)
unfolding form_loop
parse_form_urlencoded p = form_loop (length p) p []
