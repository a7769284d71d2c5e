-- ===== src/Encoding/Names.antt =====
-- src/encoding.cpp: the comparison of names of encodings.
use cppcms.Charset.{windows_1254, single_byte}
use cppcms.Encoding.{predefined}
use cppcms.Encoding.{single_byte}
use cppcms.Encoding.{utf8}
use cppcms.Encoding.{Tester}
use cppcms.Encoding.{find}
use cppcms.Encoding.{get}
use cppcms.Encoding.{is_utf8}
use mathlib.Core.Path.{subst}
use cppcms.Prelude.{
  ℕ, zero, suc, ◌+◌, ◌<◌, ◌≡◌, refl, sym, ap, ◌∙◌, ◌≢◌, ◌↔◌, ◌⊎◌, inl, inr, Bool, true, false, ◌||◌,
  some, List, [], ◌∷◌, arith, ltb, ◌==◌, if◌then◌else◌, within, Bool-cases, Bytes, codes, length,
  All,
}
use cppcms.Encoding.{next_char, less_loop, less, equivalent}

-- The letters and digits of a name, in lower case, up to its terminator.
unfoldable pub normal : Bytes → Bytes
normal [] = []
normal (c ∷ s) =
    let rest = normal s in
    if c == 0
    then []
    else if within b'0' b'9' c || within b'a' b'z' c
    then c ∷ rest
    else if within b'A' b'Z' c
    then (c + 32) ∷ rest
    else rest

-- The order of dictionaries.
unfoldable pub lex_less : Bytes → Bytes → Bool
lex_less [] [] = false
lex_less [] (y ∷ ys) = true
lex_less (x ∷ xs) [] = false
lex_less (x ∷ xs) (y ∷ ys) = if ltb x y then true else if ltb y x then false else lex_less xs ys

-- `next_char` takes the normal form apart.
abbrev Takes : Bytes → ℕ × Bytes → Type 0
Takes s (c, rest) =
    ((c ≡ 0) × (normal s ≡ []))
    ⊎ ((0 < c) × (normal s ≡ c ∷ normal rest) × (length rest < length s))

next_char-Takes : (s : Bytes) → Takes s (next_char s)
unfolding next_char normal
next_char-Takes [] = inl (refl, refl)
next_char-Takes (c ∷ s) = ground (arith, next_char-Takes s)

less_loop-lex :
    (fuel : ℕ) (l r : Bytes) → length l < fuel → less_loop fuel l r ≡ lex_less (normal l) (normal r)
unfolding less_loop lex_less
less_loop-lex zero l r h = absurd (omega arith)
less_loop-lex (suc fuel) l r h = ground (
  arith,
  next_char-Takes l,
  next_char-Takes r,
  less_loop-lex fuel (next_char l).1 (next_char r).1,
)

-- The comparator orders names by their letters and digits alone, whatever their case.
pub less-lex_less : (l r : Bytes) → less l r ≡ lex_less (normal l) (normal r)
unfolding less
less-lex_less l r = less_loop-lex (length l + 1) l r (omega arith)

lex_less_antisym : (a b : Bytes) → lex_less a b ≡ false → lex_less b a ≡ false → a ≡ b
unfolding lex_less
lex_less_antisym [] [] p q = refl
lex_less_antisym [] (y ∷ ys) p q = cc
lex_less_antisym (x ∷ xs) [] p q = cc
lex_less_antisym (x ∷ xs) (y ∷ ys) p q = ground (arith, lex_less_antisym xs ys)

lex_less_irrefl : (a : Bytes) → lex_less a a ≡ false
unfolding lex_less
lex_less_irrefl [] = refl
lex_less_irrefl (x ∷ xs) = ground (arith, lex_less_irrefl xs)

-- Two names are equivalent exactly if their letters and digits are the same up to case.
pub equivalent_iff : (a b : Bytes) → (equivalent a b ≡ true) ↔ (normal a ≡ normal b)
unfolding equivalent
equivalent_iff a b = (
  λ h.
      lex_less_antisym (normal a) (normal b) (sym (less-lex_less a b) ∙ ground arith)
        (sym (less-lex_less b a) ∙ ground arith),
  λ e. ground (arith, less-lex_less a b, less-lex_less b a, lex_less_irrefl (normal a)),
)

find_congr : (m : List (Bytes × Tester)) (a b : Bytes) → normal a ≡ normal b → find m a ≡ find m b
unfolding find
find_congr [] a b e = refl
find_congr ((k, t) ∷ m) a b e =
    ground (arith, find_congr m a b e, equivalent_iff k a, equivalent_iff k b)

find-All :
    (P : Bytes → Tester → Type 0) (m : List (Bytes × Tester)) (name : Bytes) {t : Tester}
    → All (λ e. P e.0 e.1) m
    → find m name ≡ some t
    → (k : Bytes) × P k t × (equivalent k name ≡ true)
unfolding find
find-All P [] name h e = cc
find-All P ((k, t) ∷ m) name {t = u} (p, ps) e = elim (Bool-cases (equivalent k name)) [
  | inl hit ↦ let same : t ≡ u = ground arith in (k, subst (P k) same p, hit)
  | inr miss ↦ find-All P m name ps (ground arith)
]

utf8_once : All (λ (e : Bytes × Tester). e.1 ≡ utf8 → e.0 ≡ codes "utf8") predefined
utf8_once = ground arith

no_windows_1254 : All (λ (e : Bytes × Tester). e.1 ≢ single_byte windows_1254) predefined
no_windows_1254 = ground arith

-- A name is taken for UTF-8 exactly if the table gives it the UTF-8 validator, so the two places
-- that decide it agree.
pub is_utf8-get_iff : (name : Bytes) → (is_utf8 name ≡ true) ↔ (get name ≡ some utf8)
unfolding is_utf8 get find
is_utf8-get_iff name = (
  λ h. find_congr predefined name (codes "utf8") ((equivalent_iff name (codes "utf8")).0 h),
  λ h.
      let (k, once, same) =
        find-All (λ k t. t ≡ utf8 → k ≡ codes "utf8") predefined name utf8_once h in
      (equivalent_iff name (codes "utf8")).1
        (sym ((equivalent_iff k name).0 same) ∙ ap normal (once refl)),
)

-- No name of an encoding leads to the validator of windows-1254, although the file has one.
pub get-ne-windows_1254 : (name : Bytes) → get name ≢ some (single_byte windows_1254)
unfolding get
get-ne-windows_1254 name h =
    let (k, ne, _) =
      find-All (λ k t. t ≢ single_byte windows_1254) predefined name no_windows_1254 h in
    ne refl
