-- ===== src/Http/Form/RoundTrip.antt =====
-- src/http_request.cpp: a form and its text.
use cppcms.Prelude.{
  ℕ, zero, suc, ◌≤◌, ◌<◌, ◌≡◌, refl, sym, ap, ◌∙◌, true, false, some, List, [], ◌∷◌, ◌++◌,
  append-nil, append_assoc, arith, ◌==◌, Bytes, length, length-append, All, All-append, IsBytes,
  take, drop, take-length-append,
}
use cppcms.Url.{urlencode, urldecode, plain}
use cppcms.Url.RoundTrip.{urldecode-urlencode, urlencode-IsUrlChar, IsUrlChar}
use cppcms.Http.Scanner.{assign}
use cppcms.Http.Form.{find_char, name_value, read_pair, form_loop, parse_form_urlencoded}

find_char-stop :
    (x : ℕ) (w s : Bytes) → All (λ c. (c == x) ≡ false) w → find_char x (w ++ x ∷ s) ≡ x ∷ s
unfolding find_char
find_char-stop x [] s a = ground arith
find_char-stop x (c ∷ w) s (e, a) = rw e (find_char-stop x w s a)

find_char-end : (x : ℕ) (w : Bytes) → All (λ c. (c == x) ≡ false) w → find_char x w ≡ []
unfolding find_char
find_char-end x [] a = refl
find_char-end x (c ∷ w) (e, a) = rw e (find_char-end x w a)

All-map : (P Q : ℕ → Type 0) (w : Bytes) → ((c : ℕ) → P c → Q c) → All P w → All Q w
All-map P Q [] f a = tt
All-map P Q (c ∷ w) f (p, a) = (f c p, All-map P Q w f a)

no_mark : (w : Bytes) → All (λ c. (c == b'&') ≡ false) (urlencode w)
no_mark w =
    All-map IsUrlChar _ (urlencode w) (λ c p. (unfold plain in ground arith))
      (urlencode-IsUrlChar w)

no_equals : (w : Bytes) → All (λ c. (c == b'=') ≡ false) (urlencode w)
no_equals w =
    All-map IsUrlChar _ (urlencode w) (λ c p. (unfold plain in ground arith))
      (urlencode-IsUrlChar w)

-- A pair as a client writes it, and the whole form.
abbrev pub pair : Bytes → Bytes → Bytes
pair name v = urlencode name ++ (b'=' ∷ urlencode v)

unfoldable pub form : List (Bytes × Bytes) → Bytes
form [] = []
form ((name, v) ∷ []) = pair name v
form ((name, v) ∷ p ∷ l) = pair name v ++ (b'&' ∷ form (p ∷ l))

assign-append : (w s : Bytes) → assign (w ++ s) s ≡ w
assign-append w s =
    ap (λ n. take n (w ++ s)) (omega (arith, length-append w s)) ∙ take-length-append w s

from_some : (w name : Bytes) → urldecode w ≡ name → 0 < length name → 0 < length w
from_some [] name e h = unfold urldecode in absurd (omega (arith, h, ap length e))
from_some (c ∷ w) name e h = omega arith

long : (name : Bytes) → IsBytes name → 0 < length name → 0 < length (urlencode name)
long name b h = from_some (urlencode name) name (urldecode-urlencode name b) h

name_value-pair :
    (name v : Bytes)
    → IsBytes name
    → IsBytes v
    → 0 < length name
    → name_value (pair name v) ≡ some (name, v)
unfolding name_value
name_value-pair name v b c h =
    rw
      (
        find_char-stop b'=' (urlencode name) (urlencode v) (no_equals name),
        assign-append (urlencode name) (b'=' ∷ urlencode v),
        urldecode-urlencode name b,
      )
      (ground (
        arith,
        urldecode-urlencode v c,
        long name b h,
        length-append (urlencode name) (b'=' ∷ urlencode v),
      ))

All-marks : (name v : Bytes) → All (λ c. (c == b'&') ≡ false) (pair name v)
All-marks name v =
    All-append (λ c. (c == b'&') ≡ false) (urlencode name) _ (no_mark name) (refl, no_mark v)

read_pair-pair :
    (name v s : Bytes)
    → IsBytes name
    → IsBytes v
    → 0 < length name
    → read_pair (pair name v ++ (b'&' ∷ s)) ≡ some (name, v, s)
unfolding read_pair
read_pair-pair name v s b c h =
    rw
      (
        find_char-stop b'&' (pair name v) s (All-marks name v),
        assign-append (pair name v) (b'&' ∷ s),
        name_value-pair name v b c h,
        read_pair,
      )
      (ap (λ e. some (name, v, drop 1 e)) (find_char-stop b'&' (pair name v) s (All-marks name v)))

read_pair-last :
    (name v : Bytes)
    → IsBytes name
    → IsBytes v
    → 0 < length name
    → read_pair (pair name v) ≡ some (name, v, [])
unfolding read_pair
read_pair-last name v b c h =
    rw
      (
        find_char-end b'&' (pair name v) (All-marks name v),
        ap (λ w. assign w []) (sym (append-nil (pair name v))) ∙ assign-append (pair name v) [],
        name_value-pair name v b c h,
        read_pair,
      )
      (ap (λ e. some (name, v, drop 1 e)) (find_char-end b'&' (pair name v) (All-marks name v)))

form_loop-round :
    (fuel : ℕ) (p : Bytes) (out : List (Bytes × Bytes)) (name v rest : Bytes)
    → read_pair p ≡ some (name, v, rest)
    → 0 < length p
    → form_loop (suc fuel) p out ≡ form_loop fuel rest (out ++ ((name, v) ∷ []))
unfolding form_loop
form_loop-round fuel [] out name v rest e h = absurd (omega arith)
form_loop-round fuel (c ∷ p) out name v rest e h = rw (e, form_loop) refl

-- A pair that a form can have: bytes, and a name that is not empty.
abbrev pub IsPair : Bytes × Bytes → Type 0
IsPair p = IsBytes p.0 × IsBytes p.1 × (0 < length p.0)

form_loop-form :
    (fuel : ℕ) (l out : List (Bytes × Bytes))
    → All IsPair l
    → length (form l) ≤ fuel
    → form_loop fuel (form l) out ≡ (true, out ++ l)
unfolding form
form_loop-form fuel [] out a le = (unfold form_loop in ap (λ o. (true, o)) (sym (append-nil out)))
form_loop-form zero ((name, v) ∷ []) out ((b, c, h), a) le =
    absurd (omega (arith, length-append (urlencode name) (b'=' ∷ urlencode v)))
form_loop-form (suc fuel) ((name, v) ∷ []) out ((b, c, h), a) le =
    form_loop-round fuel (pair name v) out name v [] (read_pair-last name v b c h)
      (omega (arith, length-append (urlencode name) (b'=' ∷ urlencode v)))
    ∙ (unfold form_loop in refl)
form_loop-form zero ((name, v) ∷ p ∷ l) out ((b, c, h), a) le =
    absurd (omega (arith, length-append (pair name v) (b'&' ∷ form (p ∷ l))))
form_loop-form (suc fuel) ((name, v) ∷ p ∷ l) out ((b, c, h), a) le =
    form_loop-round fuel (pair name v ++ (b'&' ∷ form (p ∷ l))) out name v (form (p ∷ l))
      (read_pair-pair name v (form (p ∷ l)) b c h)
      (omega (arith, length-append (pair name v) (b'&' ∷ form (p ∷ l))))
    ∙ form_loop-form fuel (p ∷ l) (out ++ ((name, v) ∷ [])) a
        (omega (arith, length-append (pair name v) (b'&' ∷ form (p ∷ l))))
    ∙ ap (λ o. (true, o)) (append_assoc out ((name, v) ∷ []) (p ∷ l))

-- The text of a form, of url-encoded pairs, is read back in their order: any bytes, if no name is
-- empty.
pub parse_form_urlencoded-form :
    (l : List (Bytes × Bytes)) → All IsPair l → parse_form_urlencoded (form l) ≡ (true, l)
unfolding parse_form_urlencoded
parse_form_urlencoded-form l a = form_loop-form (length (form l)) l [] a (omega arith)
