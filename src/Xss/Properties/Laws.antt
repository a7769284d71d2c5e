-- ===== src/Xss/Properties/Laws.antt =====
-- The values of properties that are accepted.
use cppcms.Prelude.{
  ℕ, zero, suc, ◌≤◌, ◌≡◌, refl, sym, ◌∙◌, ◌≢◌, ◌↔◌, inl, inr, Bool, true, false, Option, none, some,
  List, [], ◌∷◌, ◌++◌, arith, ◌==◌, ==_iff, Bool-cases, Option-cases, Bytes, codes, length,
  length-append, All,
}
use cppcms.Xss.Properties.{
  ends_with, ends_with_any, value_entities, value_loop, validate_property_value,
}

-- The names that may follow `&` in a property's value.
pub data IsValueEntity : Bytes → Type 0 where
  amp_entity : IsValueEntity (codes "amp;")
  lt_entity : IsValueEntity (codes "lt;")
  gt_entity : IsValueEntity (codes "gt;")
  quot_entity : IsValueEntity (codes "quot;")
  apos_entity : IsValueEntity (codes "apos;")
  hex_entity : IsValueEntity (codes "#x27;")
  upper_hex_entity : IsValueEntity (codes "#X27;")
  decimal_entity : IsValueEntity (codes "#39;")

-- The texts that may stand between the quotes.
pub data IsValue : Bytes → Type 0 where
  empty : IsValue []
  char : {c : ℕ} {s : Bytes} → c ≢ b'<' → c ≢ b'>' → c ≢ b'&' → IsValue s → IsValue (c ∷ s)
  entity : {v s : Bytes} → IsValueEntity v → IsValue s → IsValue (b'&' ∷ v ++ s)

ends_with-some : (v s rest : Bytes) → ends_with v s ≡ some rest → s ≡ v ++ rest
unfolding ends_with
ends_with-some [] s rest h = ground (arith, h)
ends_with-some (x ∷ v) [] rest h = absurd (ground (arith, h))
ends_with-some (x ∷ v) (c ∷ s) rest h = ground (arith, ends_with-some v s rest)

ends_with_any-some :
    (vs : List Bytes) (s rest : Bytes)
    → All IsValueEntity vs
    → ends_with_any vs s ≡ some rest
    → (v : Bytes) × IsValueEntity v × (s ≡ v ++ rest)
unfolding ends_with_any
ends_with_any-some [] s rest a h = absurd (ground (arith, h))
ends_with_any-some (v ∷ vs) s rest (p, a) h = elim (Option-cases (ends_with v s)) [
  | inl e ↦ ends_with_any-some vs s rest a (rw (e, ends_with_any) at h)
  | inr (t, e) ↦ (v, p, ends_with-some v s rest (ground (arith, h, e)))
]

value_entities-IsValueEntity : All IsValueEntity value_entities
value_entities-IsValueEntity = (
  amp_entity,
  (
    lt_entity,
    (
      gt_entity,
      (quot_entity, (apos_entity, (hex_entity, (upper_hex_entity, (decimal_entity, tt))))),
    ),
  ),
)

-- What is left to test behind `&`.
behind_entity : ℕ → Option Bytes → Bool
behind_entity fuel none = false
behind_entity fuel (some rest) = value_loop fuel rest

value_loop-amp :
    (fuel c : ℕ) (s : Bytes)
    → c == b'&' ≡ true
    → value_loop (suc fuel) (c ∷ s) ≡ behind_entity fuel (ends_with_any value_entities s)
unfolding value_loop behind_entity
value_loop-amp fuel c s z = elim (Option-cases (ends_with_any value_entities s)) [
  | inl e ↦ rw ((==_iff c b'&').0 z, e) refl
  | inr (rest, e) ↦ rw ((==_iff c b'&').0 z, e) refl
]

value_loop-IsValue : (fuel : ℕ) (s : Bytes) → value_loop fuel s ≡ true → IsValue s
unfolding value_loop behind_entity
value_loop-IsValue fuel [] h = empty
value_loop-IsValue zero (c ∷ s) h = absurd (ground (arith, h))
value_loop-IsValue (suc fuel) (c ∷ s) h = elim (Bool-cases (c == b'&')) [
  | inr n ↦
      char (ground (arith, h)) (ground (arith, h)) (ground (arith, n))
        (value_loop-IsValue fuel s (ground (arith, h, n)))
  | inl z ↦
      let behind = sym (value_loop-amp fuel c s z) ∙ h in
      elim (Option-cases (ends_with_any value_entities s)) [
        | inl e ↦ absurd (ground (arith, rw e at behind))
        | inr (rest, e) ↦
            let (v, p, q) =
              ends_with_any-some value_entities s rest value_entities-IsValueEntity e in
            let good = value_loop-IsValue fuel rest (rw e at behind) in
            rw ((==_iff c b'&').0 z, q) (entity p good)
      ]
]

ends_with_any-entity :
    (v s : Bytes) → IsValueEntity v → ends_with_any value_entities (v ++ s) ≡ some s
unfolding ends_with_any ends_with
ends_with_any-entity _ s amp_entity = refl
ends_with_any-entity _ s lt_entity = refl
ends_with_any-entity _ s gt_entity = refl
ends_with_any-entity _ s quot_entity = refl
ends_with_any-entity _ s apos_entity = refl
ends_with_any-entity _ s hex_entity = refl
ends_with_any-entity _ s upper_hex_entity = refl
ends_with_any-entity _ s decimal_entity = refl

IsValue-value_loop : (fuel : ℕ) (s : Bytes) → length s ≤ fuel → IsValue s → value_loop fuel s ≡ true
unfolding value_loop
IsValue-value_loop fuel _ h empty = refl
IsValue-value_loop zero _ h (char a b n p) = absurd (omega arith)
IsValue-value_loop zero _ h (entity a p) = absurd (omega arith)
IsValue-value_loop (suc fuel) _ h (char {c = c} {s = s} a b n p) =
    ground (arith, IsValue-value_loop fuel s (omega arith) p, a, b, n)
IsValue-value_loop (suc fuel) _ h (entity {v = v} {s = s} a p) =
    rw (ends_with_any-entity v s a) (IsValue-value_loop fuel s (omega (arith, length-append v s)) p)

-- A property's value is accepted exactly when it holds no `<`, no `>`, and `&` only at the start
-- of one of eight entities.
pub validate_property_value_iff : (s : Bytes) → (validate_property_value s ≡ true) ↔ IsValue s
unfolding validate_property_value
validate_property_value_iff s =
    (value_loop-IsValue (length s) s, IsValue-value_loop (length s) s (omega arith))
