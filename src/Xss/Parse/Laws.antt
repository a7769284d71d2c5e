-- ===== src/Xss/Parse/Laws.antt =====
-- The code points of numeric entities that are accepted.
use cppcms.Prelude.{
  ℕ, ◌≤◌, ◌≡◌, refl, ◌≢◌, ◌↔◌, ◌⊎◌, inl, inr, Bool, true, false, [], ◌∷◌, arith, ltb, Bool-cases,
  Bytes,
}
use cppcms.Xss.{Entry, invalidate, is_invalid}
use cppcms.Xss.Parse.{strtol, digits_value, long_max, is_refused, all_chars, numeric}

-- The code points that the parser accepts.
abbrev pub IsAllowed : ℕ → Type 0
IsAllowed n =
    (n ≡ 9)
    ⊎ (n ≡ 10)
    ⊎ (n ≡ 13)
    ⊎ ((0x20 ≤ n) × (n ≤ 0x7E))
    ⊎ ((0xA0 ≤ n) × (n ≤ 0xD7FF))
    ⊎ ((0xDC00 ≤ n) × (n ≤ 0xFFFD))
    ⊎ ((0x10000 ≤ n) × (n ≤ 0x10FFFF))

is_refused-IsAllowed : (n : ℕ) → (is_refused n ≡ false) ↔ IsAllowed n
unfolding is_refused
is_refused-IsAllowed n = ground arith

-- A number too large for a `long` is refused, as the largest `long` is.
strtol-IsAllowed :
    (s : Bytes) (base : ℕ)
    → (is_refused (strtol s base) ≡ false) ↔ IsAllowed (digits_value base 0 s)
unfolding strtol
strtol-IsAllowed s base = elim (Bool-cases (ltb long_max (digits_value base 0 s))) [
  | inl e ↦ rw e (
    λ r. absurd (ground (arith, is_refused-IsAllowed long_max, r)),
    λ a. absurd (ground (arith, e, a)),
  )
  | inr e ↦ rw e (is_refused-IsAllowed (digits_value base 0 s))
]

-- The digits of a numeric entity are accepted exactly when there is one, each is a digit, and the
-- number that they write, however large, is an allowed code point.
pub numeric_iff :
    (part : Entry) (test : ℕ → Bool) (base : ℕ) (s : Bytes)
    → is_invalid part.type ≡ false
    → (is_invalid (numeric part test base s).type ≡ false)
      ↔ ((s ≢ []) × (all_chars test s ≡ true) × IsAllowed (digits_value base 0 s))
unfolding numeric invalidate
numeric_iff part test base [] h = (λ e. absurd (ground (arith, e)), λ p. absurd (p.0 refl))
numeric_iff part test base (c ∷ s) h = elim (Bool-cases (all_chars test (c ∷ s))) [
  | inr e ↦ rw e (λ q. absurd (ground (arith, q)), λ p. absurd (ground (arith, e, p.1)))
  | inl e ↦ elim (Bool-cases (is_refused (strtol (c ∷ s) base))) [
    | inl f ↦
        rw (e, f)
          (
            λ q. absurd (ground (arith, q)),
            λ p. absurd (ground (arith, f, (strtol-IsAllowed (c ∷ s) base).1 p.2)),
          )
    | inr f ↦
        rw (e, f) (λ q. (λ n. ground (arith, n), refl, (strtol-IsAllowed (c ∷ s) base).0 f), λ p. h)
  ]
]
