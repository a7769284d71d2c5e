-- ===== src/Http/Multipart/Search.antt =====
-- The first occurrence of a boundary in a text, found by trying each place.
use cppcms.Prelude.{
  ℕ, zero, suc, ◌+◌, ◌<◌, ◌≡◌, refl, sym, ap, ◌∙◌, true, false, Option, none, some, [], ◌∷◌, ◌++◌,
  arith, ◌==◌, if◌then◌else◌, Bytes, length, All, take,
}
use cppcms.Http.Multipart.{char_is}

-- What stands behind a prefix of a text.
unfoldable pub strip : Bytes → Bytes → Option Bytes
strip [] s = some s
strip (x ∷ b) [] = none
strip (x ∷ b) (c ∷ s) = if c == x then strip b s else none

-- The text before the first occurrence of `b` and the text behind it.
unfoldable pub find : Bytes → Bytes → Option (Bytes × Bytes)
unfolding strip
find b [] = none
find b (c ∷ s) = elim (strip b (c ∷ s)) [
  | some rest ↦ some ([], rest)
  | none ↦ elim (find b s) [ none ↦ none | some (d, rest) ↦ some (c ∷ d, rest) ]
]

unfoldable pub prepend : Bytes → Option (Bytes × Bytes) → Option (Bytes × Bytes)
prepend w none = none
prepend w (some (d, rest)) = some (w ++ d, rest)

prepend-cons :
    (c : ℕ) (w : Bytes) (o : Option (Bytes × Bytes))
    → prepend (c ∷ w) o ≡ prepend (c ∷ []) (prepend w o)
unfolding prepend
prepend-cons c w none = refl
prepend-cons c w (some (d, rest)) = refl

strip-append : (b s : Bytes) → strip b (b ++ s) ≡ some s
unfolding strip
strip-append [] s = refl
strip-append (x ∷ b) s = ground (arith, strip-append b s)

-- No occurrence starts at another character than the first of `b`.
pub find-other :
    (h : ℕ) (t : Bytes) (c : ℕ) (s : Bytes)
    → (c == h) ≡ false
    → find (h ∷ t) (c ∷ s) ≡ prepend (c ∷ []) (find (h ∷ t) s)
unfolding find strip prepend
find-other h t c s e = ground arith

find-others :
    (h : ℕ) (t u s : Bytes)
    → All (λ x. (x == h) ≡ false) u
    → find (h ∷ t) (u ++ s) ≡ prepend u (find (h ∷ t) s)
find-others h t [] s _ = prepend-nil (find (h ∷ t) s)
  where
    prepend-nil : (o : Option (Bytes × Bytes)) → o ≡ prepend [] o
    prepend-nil o = unfold prepend in ground arith
find-others h t (c ∷ u) s (e, a) =
    find-other h t c (u ++ s) e
    ∙ ap (prepend (c ∷ [])) (find-others h t u s a)
    ∙ sym (prepend-cons c u (find (h ∷ t) s))

strip-mismatch :
    (t : Bytes) (k c : ℕ) (s : Bytes)
    → k < length t
    → char_is t k c ≡ false
    → strip t (take k t ++ c ∷ s) ≡ none
unfolding strip char_is
strip-mismatch [] k c s lt e = absurd (omega arith)
strip-mismatch (x ∷ t) zero c s lt e = ground arith
strip-mismatch (x ∷ t) (suc k) c s lt e = ground (arith, strip-mismatch t k c s)

All-take : (P : ℕ → Type 0) (k : ℕ) (t : Bytes) → All P t → All P (take k t)
All-take P zero t a = tt
All-take P (suc k) [] a = tt
All-take P (suc k) (x ∷ t) (p, a) = (p, All-take P k t a)

-- Behind a part of the boundary that does not go on, the search starts anew.
pub find-mismatch :
    (h : ℕ) (t : Bytes) (k c : ℕ) (s : Bytes)
    → All (λ x. (x == h) ≡ false) t
    → k < length t
    → char_is t k c ≡ false
    → find (h ∷ t) (h ∷ take k t ++ c ∷ s) ≡ prepend (h ∷ take k t) (find (h ∷ t) (c ∷ s))
find-mismatch h t k c s a lt e =
    first
    ∙ ap (prepend (h ∷ [])) (find-others h t (take k t) (c ∷ s) (All-take _ k t a))
    ∙ sym (prepend-cons h (take k t) (find (h ∷ t) (c ∷ s)))
  where
    first :
        find (h ∷ t) (h ∷ take k t ++ c ∷ s) ≡ prepend (h ∷ []) (find (h ∷ t) (take k t ++ c ∷ s))
    first = unfold find strip prepend in ground (arith, strip-mismatch t k c s lt e)

-- A match makes the part of the boundary longer.
pub take-char_is :
    (b : Bytes) (k c : ℕ) (s : Bytes)
    → k < length b
    → char_is b k c ≡ true
    → take (k + 1) b ++ s ≡ take k b ++ c ∷ s
unfolding char_is
take-char_is [] k c s lt e = absurd (omega arith)
take-char_is (x ∷ b) zero c s lt e = ground arith
take-char_is (x ∷ b) (suc k) c s lt e = ground (arith, take-char_is b k c s)

take-all : (b : Bytes) → take (length b) b ≡ b
take-all [] = refl
take-all (x ∷ b) = ap (◌∷◌ x) (take-all b)

pub find-found :
    (h : ℕ) (t s : Bytes) → find (h ∷ t) (take (length (h ∷ t)) (h ∷ t) ++ s) ≡ some ([], s)
unfolding find
find-found h t s = rw (take-all t) (rw (strip-append (h ∷ t) s, find) refl)

strip-short : (t : Bytes) (k : ℕ) → k < length t → strip t (take k t ++ []) ≡ none
unfolding strip
strip-short [] k lt = absurd (omega arith)
strip-short (x ∷ t) zero lt = refl
strip-short (x ∷ t) (suc k) lt = ground (arith, strip-short t k)

-- A part of the boundary does not have the boundary in it.
pub find-part :
    (h : ℕ) (t : Bytes) (k : ℕ)
    → All (λ x. (x == h) ≡ false) t
    → k < length (h ∷ t)
    → find (h ∷ t) (take k (h ∷ t) ++ []) ≡ none
unfolding find
find-part h t zero a lt = refl
find-part h t (suc k) a lt = unfold strip in ground (arith, strip-short t k, others)
  where
    others : find (h ∷ t) (take k t ++ []) ≡ none
    others = find-others h t (take k t) [] (All-take _ k t a) ∙ (unfold find prepend in refl)
