-- ===== src/Html/Laws.antt =====
-- src/util.cpp: escaped text and a reader of entities.
use cppcms.Html.{escape_char, escape_loop, escape, escape_to}
use mathlib.Core.List.{flat_map}
use cppcms.Prelude.{
  ℕ, zero, suc, ◌-◌, ◌≤◌, ◌≡◌, refl, sym, ap, ◌∙◌, ◌≢◌, inl, inr, Option, none, some, List, [], ◌∷◌,
  ◌++◌, append-nil, append_assoc, arith, leb, ◌==◌, if◌then◌else◌, Bool-cases, Bytes, codes, length,
  length-append, All, All-append, take,
}

escape_loop-flat_map :
    (s content : Bytes) → escape_loop s content ≡ content ++ flat_map escape_char s
unfolding escape_loop flat_map
escape_loop-flat_map [] content = sym (append-nil content)
escape_loop-flat_map (c ∷ s) content = simp (escape_loop-flat_map s, append_assoc)

escape-flat_map : (s : Bytes) → escape s ≡ flat_map escape_char s
unfolding escape
escape-flat_map s = escape_loop-flat_map s []

-- The characters that end a text node or an attribute's value.
abbrev pub IsSafe : ℕ → Type 0
IsSafe c = (c ≢ b'<') × (c ≢ b'>') × (c ≢ b'"') × (c ≢ 39)

escape_char-IsSafe : (c : ℕ) → All IsSafe (escape_char c)
unfolding escape_char
escape_char-IsSafe c = ground arith

flat_map-IsSafe : (s : Bytes) → All IsSafe (flat_map escape_char s)
unfolding flat_map
flat_map-IsSafe [] = tt
flat_map-IsSafe (c ∷ s) =
    All-append IsSafe (escape_char c) _ (escape_char-IsSafe c) (flat_map-IsSafe s)

-- Escaped text holds no `<`, no `>` and no quote of either kind.
pub escape-IsSafe : (s : Bytes) → All IsSafe (escape s)
escape-IsSafe s = rw escape-flat_map (flat_map-IsSafe s)

-- The text behind a prefix.
strip : Bytes → Bytes → Option Bytes
strip [] s = some s
strip (p ∷ ps) [] = none
strip (p ∷ ps) (c ∷ s) = if p == c then strip ps s else none

-- The first of the entities that the text begins with, and what follows it.
entity : List (Bytes × ℕ) → Bytes → Option (ℕ × Bytes)
entity [] s = none
entity ((name, c) ∷ es) s = elim (strip name s) [ some rest ↦ some (c, rest) | none ↦ entity es s ]

abbrev entities : List (Bytes × ℕ)
entities =
    (codes "&lt;", b'<')
    ∷ (codes "&gt;", b'>')
    ∷ (codes "&amp;", b'&')
    ∷ (codes "&quot;", b'"')
    ∷ (codes "&#39;", 39)
    ∷ []

-- A reader of HTML text that knows these entities; a round takes a byte at least.
pub unescape : ℕ → Bytes → Bytes
unescape zero s = []
unescape (suc fuel) [] = []
unescape (suc fuel) (c ∷ s) = elim (entity entities (c ∷ s)) [
  | some (d, rest) ↦ d ∷ unescape fuel rest
  | none ↦ c ∷ unescape fuel s
]

unescape-escape_char :
    (fuel c : ℕ) (s : Bytes) → unescape (suc fuel) (escape_char c ++ s) ≡ c ∷ unescape fuel s
unfolding unescape escape_char entity strip
unescape-escape_char fuel c s = ground arith

unescape-flat_map :
    (fuel : ℕ) (s : Bytes) → length s ≤ fuel → unescape fuel (flat_map escape_char s) ≡ s
unfolding flat_map
unescape-flat_map zero [] h = unfold unescape in refl
unescape-flat_map (suc fuel) [] h = unfold unescape in refl
unescape-flat_map zero (c ∷ s) h = absurd (omega arith)
unescape-flat_map (suc fuel) (c ∷ s) h =
    unescape-escape_char fuel c (flat_map escape_char s)
    ∙ ap (◌∷◌ c) (unescape-flat_map fuel s (omega arith))

-- A reader that knows the five entities gets back every text that was escaped.
pub unescape-escape : (s : Bytes) → unescape (length s) (escape s) ≡ s
unescape-escape s = rw escape-flat_map (unescape-flat_map (length s) s (omega arith))

take-append_le :
    (xs ys : Bytes) (n : ℕ) → length xs ≤ n → take n (xs ++ ys) ≡ xs ++ take (n - length xs) ys
take-append_le [] ys n h = ap (λ m. take m ys) (omega arith)
take-append_le (x ∷ xs) ys zero h = absurd (omega arith)
take-append_le (x ∷ xs) ys (suc n) h =
    ap (◌∷◌ x) (take-append_le xs ys n (omega arith))
    ∙ ap (λ m. x ∷ (xs ++ take m ys)) (omega arith)

take-append_gt : (xs ys : Bytes) (n : ℕ) → n ≤ length xs → take n (xs ++ ys) ≡ take n xs
take-append_gt [] ys zero h = refl
take-append_gt [] ys (suc n) h = absurd (omega arith)
take-append_gt (x ∷ xs) ys zero h = refl
take-append_gt (x ∷ xs) ys (suc n) h = ap (◌∷◌ x) (take-append_gt xs ys n (omega arith))

take_nil : (n : ℕ) → take {A = ℕ} n [] ≡ []
take_nil zero = refl
take_nil (suc n) = refl

escape_to-flat_map :
    (room : ℕ) (s output : Bytes)
    → escape_to room s output
      ≡ (leb (length (flat_map escape_char s)) room, output ++ take room (flat_map escape_char s))
unfolding escape_to flat_map
escape_to-flat_map room [] output = ground (arith, append-nil output, take_nil room)
escape_to-flat_map room (c ∷ s) output = elim (Bool-cases (leb (length (escape_char c)) room)) [
  | inl fits ↦ rw fits (
      escape_to-flat_map (room - length e) s (output ++ e)
      ∙ ground (
        arith,
        take-append_le e r room,
        length-append e r,
        append_assoc output e (take (room - length e) r),
      ))
  | inr full ↦ rw full (ground (arith, take-append_gt e r room, length-append e r))
]
  where
    e : Bytes
    e = escape_char c

    r : Bytes
    r = flat_map escape_char s

-- The version that writes to a stream buffer succeeds exactly if the escaped text fits, and
-- writes the part of it that does.
pub escape_to-escape :
    (room : ℕ) (s output : Bytes)
    → escape_to room s output ≡ (leb (length (escape s)) room, output ++ take room (escape s))
escape_to-escape room s output = rw escape-flat_map (escape_to-flat_map room s output)
