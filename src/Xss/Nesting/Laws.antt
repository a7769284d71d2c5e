-- ===== src/Xss/Nesting/Laws.antt =====
-- Updates of a list by index, and what the nesting leaves of the parts.
use cppcms.Prelude.{
  ℕ, zero, suc, ◌<◌, ◌≡◌, refl, sym, ap, ◌∙◌, ◌↔◌, inl, inr, true, none, List, [], ◌∷◌, arith, ◌==◌,
  ==_iff, Bool-cases, Bytes, length,
}
use cppcms.Xss.{Entry, invalidate, is_invalid, ascii_streq, equal_chars}
use cppcms.Xss.Nesting.{modify, set_pair, join}
use cppcms.Xss.Validate.{any_invalid}

-- A part without what the nesting writes into a valid text.
abbrev pub bare : Entry → Entry
bare e = record e { tag = record e.tag { pair = none } }

abbrev pub bares : List Entry → List Entry
bares [] = []
bares (e ∷ es) = bare e ∷ bares es

pub length-bares : (es : List Entry) → length (bares es) ≡ length es
length-bares [] = refl
length-bares (e ∷ es) = omega (arith, length-bares es)

pub any_invalid-bares : (es : List Entry) → any_invalid (bares es) ≡ any_invalid es
unfolding any_invalid
any_invalid-bares [] = refl
any_invalid-bares (e ∷ es) = rw (any_invalid-bares es) refl

bares-modify : (i j : ℕ) (es : List Entry) → bares (modify i (set_pair j) es) ≡ bares es
unfolding modify set_pair
bares-modify i j [] = refl
bares-modify zero j (e ∷ es) = refl
bares-modify (suc i) j (e ∷ es) = ap (◌∷◌ (bare e)) (bares-modify i j es)

pub bares-join : (i j : ℕ) (es : List Entry) → bares (join i j es) ≡ bares es
unfolding join
bares-join i j es = bares-modify j i _ ∙ bares-modify i j es

pub length-modify {ℓ} :
    {A : Type ℓ} (i : ℕ) (f : A → A) (xs : List A) → length (modify i f xs) ≡ length xs
unfolding modify
length-modify i f [] = refl
length-modify zero f (x ∷ xs) = refl
length-modify (suc i) f (x ∷ xs) = omega (arith, length-modify i f xs)

any_invalid-modify :
    (i : ℕ) (f : Entry → Entry) (es : List Entry)
    → ((e : Entry) → is_invalid e.type ≡ true → is_invalid (f e).type ≡ true)
    → any_invalid es ≡ true
    → any_invalid (modify i f es) ≡ true
unfolding any_invalid modify
any_invalid-modify i f [] k h = h
any_invalid-modify zero f (e ∷ es) k h = ground (arith, k e)
any_invalid-modify (suc i) f (e ∷ es) k h = ground (arith, any_invalid-modify i f es k)

-- An invalid part stays invalid.
pub any_invalid-invalidate :
    (i : ℕ) (es : List Entry) → any_invalid es ≡ true → any_invalid (modify i invalidate es) ≡ true
unfolding invalidate
any_invalid-invalidate i es h = any_invalid-modify i invalidate es (λ e _. refl) h

pub invalidate-any_invalid :
    (i : ℕ) (es : List Entry) → i < length es → any_invalid (modify i invalidate es) ≡ true
unfolding any_invalid modify invalidate
invalidate-any_invalid i [] h = absurd (omega arith)
invalidate-any_invalid zero (e ∷ es) h = refl
invalidate-any_invalid (suc i) (e ∷ es) h = ground (arith, invalidate-any_invalid i es)

pub any_invalid-join : (i j : ℕ) (es : List Entry) → any_invalid (join i j es) ≡ any_invalid es
any_invalid-join i j es =
    sym (any_invalid-bares (join i j es))
    ∙ ap any_invalid (bares-join i j es)
    ∙ any_invalid-bares es

equal_chars_iff : (l r : Bytes) → length l ≡ length r → (equal_chars true l r ≡ true) ↔ (l ≡ r)
unfolding equal_chars
equal_chars_iff [] [] h = ground arith
equal_chars_iff [] (d ∷ r) h = absurd (omega arith)
equal_chars_iff (c ∷ l) [] h = absurd (omega arith)
equal_chars_iff (c ∷ l) (d ∷ r) h = ground (arith, equal_chars_iff l r)

-- In XHTML, `ascii_streq` is the equality of texts.
pub ascii_streq_iff : (l r : Bytes) → (ascii_streq l r true ≡ true) ↔ (l ≡ r)
unfolding ascii_streq
ascii_streq_iff l r = elim (Bool-cases (length l == length r)) [
  | inl e ↦ rw e (equal_chars_iff l r ((==_iff (length l) (length r)).0 e))
  | inr e ↦ rw e (λ h. absurd (ground (arith, h)), λ p. absurd (ground (arith, e, ap length p)))
]
