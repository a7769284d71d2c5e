-- ===== src/Http/Protocol/Scanning.antt =====
-- What `skip_ws` and `tocken` leave.
use cppcms.Http.Protocol.{skip_ws, tocken, token_char, folds}
use cppcms.Prelude.{
  ℕ, ◌≡◌, refl, sym, ap, inl, inr, true, false, ◌&&◌, ◌||◌, [], ◌∷◌, ◌++◌, arith, ◌==◌, Bool-cases,
  Bytes, All,
}

-- The blanks of HTTP text: spaces, tabs and line ends that a space or tab follows.
pub data IsBlank : Bytes → Type 0 where
  done : IsBlank []
  blank : {c : ℕ} {s : Bytes} → (c == b' ' || c == b'\t') ≡ true → IsBlank s → IsBlank (c ∷ s)
  fold :
      {c : ℕ} {s : Bytes}
      → (c == b' ' || c == b'\t') ≡ true
      → IsBlank s
      → IsBlank (b'\r' ∷ b'\n' ∷ c ∷ s)

-- What a call of `skip_ws` on the range `s` does.
pub record Skips (s : Bytes) : Type 0 where
  pub skipped : Bytes
  pub splits : s ≡ skipped ++ skip_ws s
  pub blanks : IsBlank skipped
  pub stops : skip_ws (skip_ws s) ≡ skip_ws s

Skips-none : (s : Bytes) → skip_ws s ≡ s → Skips s
Skips-none s e = record { skipped = []; splits = sym e; blanks = done; stops = ap skip_ws e }

Skips-blank :
    (c : ℕ) (s : Bytes)
    → (c == b' ' || c == b'\t') ≡ true
    → skip_ws (c ∷ s) ≡ skip_ws s
    → Skips s
    → Skips (c ∷ s)
Skips-blank c s h e k = record {
  skipped = c ∷ k.skipped;
  splits = rw e (ap (◌∷◌ c) k.splits);
  blanks = blank h k.blanks;
  stops = rw e k.stops;
}

pub skip_ws-blank :
    (c : ℕ) (s : Bytes) → (c == b' ' || c == b'\t') ≡ true → skip_ws (c ∷ s) ≡ skip_ws s
unfolding skip_ws
skip_ws-blank c [] h = ground arith
skip_ws-blank c (d ∷ []) h = ground arith
skip_ws-blank c (d ∷ e ∷ s) h = ground arith

skip_ws-fold :
    (c : ℕ) (s : Bytes)
    → (c == b' ' || c == b'\t') ≡ true
    → skip_ws (b'\r' ∷ b'\n' ∷ c ∷ s) ≡ skip_ws s
unfolding skip_ws
skip_ws-fold c s h = ground arith

pub skip_ws-other :
    (c : ℕ) (s : Bytes)
    → (c == b' ' || c == b'\t') ≡ false
    → (c == b'\r' && folds s) ≡ false
    → skip_ws (c ∷ s) ≡ c ∷ s
unfolding skip_ws
skip_ws-other c [] h k = ground arith
skip_ws-other c (d ∷ []) h k = ground arith
skip_ws-other c (d ∷ e ∷ s) h k = ground arith

Skips-fold :
    (c : ℕ) (s : Bytes) → (c == b' ' || c == b'\t') ≡ true → Skips s → Skips (b'\r' ∷ b'\n' ∷ c ∷ s)
Skips-fold c s h k = record {
  skipped = b'\r' ∷ b'\n' ∷ c ∷ k.skipped;
  splits = rw (skip_ws-fold c s h) (ap (λ t. b'\r' ∷ b'\n' ∷ c ∷ t) k.splits);
  blanks = fold h k.blanks;
  stops = rw (skip_ws-fold c s h) k.stops;
}

folds_parts :
    (c d e : ℕ) (s : Bytes)
    → (c == b'\r' && folds (d ∷ e ∷ s)) ≡ true
    → (c ≡ b'\r') × (d ≡ b'\n') × ((e == b' ' || e == b'\t') ≡ true)
unfolding folds
folds_parts c d e s h = ground arith

-- `skip_ws` drops a prefix of blanks, and all of it: a second call drops nothing more.
pub skip_ws-Skips : (s : Bytes) → Skips s
skip_ws-Skips [] = Skips-none [] (unfold skip_ws in refl)
skip_ws-Skips (c ∷ []) = elim (Bool-cases (c == b' ' || c == b'\t')) [
  | inl b ↦ Skips-blank c [] b (skip_ws-blank c [] b) (skip_ws-Skips [])
  | inr other ↦ Skips-none (c ∷ []) (unfold skip_ws in rw other)
]
skip_ws-Skips (c ∷ d ∷ []) = elim (Bool-cases (c == b' ' || c == b'\t')) [
  | inl b ↦ Skips-blank c (d ∷ []) b (skip_ws-blank c (d ∷ []) b) (skip_ws-Skips (d ∷ []))
  | inr other ↦ Skips-none (c ∷ d ∷ []) (unfold skip_ws in rw other)
]
skip_ws-Skips (c ∷ d ∷ e ∷ s) = elim (Bool-cases (c == b' ' || c == b'\t')) [
  | inl b ↦ Skips-blank c (d ∷ e ∷ s) b (skip_ws-blank c (d ∷ e ∷ s) b) (skip_ws-Skips (d ∷ e ∷ s))
  | inr other ↦ elim (Bool-cases (c == b'\r' && folds (d ∷ e ∷ s))) [
    | inr plain ↦ Skips-none (c ∷ d ∷ e ∷ s) (skip_ws-other c (d ∷ e ∷ s) other plain)
    | inl folded ↦
        let (ec, ed, b) = folds_parts c d e s folded in
        rw (ec, ed) (Skips-fold e s b (skip_ws-Skips s))
  ]
]

-- `tocken` splits its range at the first character that is not of a token.
pub tocken-split :
    (s : Bytes)
    → (t : Bytes) × (s ≡ t ++ tocken s)
      × All (λ c. token_char c ≡ true) t
      × (tocken (tocken s) ≡ tocken s)
unfolding tocken
tocken-split [] = ([], refl, tt, refl)
tocken-split (c ∷ s) = elim (Bool-cases (token_char c)) [
  | inl h ↦ let (t, e, a, z) = tocken-split s in rw h (c ∷ t, ap (◌∷◌ c) e, (h, a), z)
  | inr h ↦ rw h ([], refl, tt, rw h)
]
