-- ===== src/Xss/Filter/Done.antt =====
-- src/xss.cpp: the filter's loop over the rules.
use cppcms.Xss.Nesting.Laws.{length-modify}
use cppcms.Prelude.{
  ℕ, zero, suc, ◌+◌, ◌≤◌, ◌≡◌, refl, ◌∙◌, ◌⊎◌, inl, inr, true, Option, none, some, List, [], ◌∷◌,
  arith, Bool-cases, Option-cases, Bytes, length, All, take, get_elem?, subst,
}
use cppcms.Xss.{Entry, Rules, is_invalid, invalidate}
use cppcms.Xss.Split.{split_to_parts}
use cppcms.Xss.Nesting.{modify, validate_nesting}
use cppcms.Xss.Validate.{validate_entry_by_rules}
use cppcms.Xss.Filter.{parse_all, filter_part, filter_loop, filter_parts, invalidate_pair}

-- The invalid parts, and those that the rules accept.
unfoldable pub IsDone : Rules → Entry → Type 0
IsDone r e = (is_invalid e.type ≡ true) ⊎ (validate_entry_by_rules r e ≡ true)

All-take-modify :
    (P : Entry → Type 0) (g : Entry → Entry)
    → ((e : Entry) → P (g e))
    → (i : ℕ) (es : List Entry) → All P (take i es)
    → All P (take (suc i) (modify i g es))
unfolding modify
All-take-modify P g k zero [] h = tt
All-take-modify P g k zero (e ∷ es) h = (k e, tt)
All-take-modify P g k (suc i) [] h = tt
All-take-modify P g k (suc i) (e ∷ es) (p, h) = (p, All-take-modify P g k i es h)

All-take-keep :
    (P : Entry → Type 0) (g : Entry → Entry)
    → ((e : Entry) → P (g e))
    → (i j : ℕ) (es : List Entry) → All P (take i es)
    → All P (take i (modify j g es))
unfolding modify
All-take-keep P g k zero j es h = tt
All-take-keep P g k (suc i) j [] h = h
All-take-keep P g k (suc i) zero (e ∷ es) (p, h) = (k e, h)
All-take-keep P g k (suc i) (suc j) (e ∷ es) (p, h) = (p, All-take-keep P g k i j es h)

same_some : {x e : Entry} → some x ≡ some e → e ≡ x
same_some h = ground (arith, h)

All-take-suc :
    (P : Entry → Type 0) (i : ℕ) (es : List Entry) (e : Entry)
    → get_elem? es i ≡ some e
    → P e
    → All P (take i es)
    → All P (take (suc i) es)
All-take-suc P i [] e g p h = tt
All-take-suc P zero (x ∷ es) e g p h = (subst P (same_some g) p, tt)
All-take-suc P (suc i) (x ∷ es) e g p (q, h) = (q, All-take-suc P i es e g p h)

All-take-none :
    (P : Entry → Type 0) (i : ℕ) (es : List Entry)
    → get_elem? es i ≡ none
    → All P (take i es)
    → All P (take (suc i) es)
All-take-none P i [] g h = tt
All-take-none P zero (x ∷ es) g h = absurd (ground (arith, g))
All-take-none P (suc i) (x ∷ es) g (q, h) = (q, All-take-none P i es g h)

module _ (r : Rules) where
  invalidate-IsDone : (e : Entry) → IsDone r (invalidate e)
  unfolding IsDone invalidate
  invalidate-IsDone e = inl refl

  pair-IsDone :
      (o : Option ℕ) (i : ℕ) (es : List Entry)
      → All (IsDone r) (take i es)
      → All (IsDone r) (take i (invalidate_pair o es))
  unfolding invalidate_pair
  pair-IsDone none i es h = h
  pair-IsDone (some j) i es h = All-take-keep (IsDone r) invalidate invalidate-IsDone i j es h

  filter_part-IsDone :
      (i : ℕ) (es : List Entry)
      → All (IsDone r) (take i es)
      → All (IsDone r) (take (suc i) (filter_part r i es).1)
  unfolding filter_part IsDone
  filter_part-IsDone i es h = elim (Option-cases (get_elem? es i)) [
    | inl e ↦ rw (e, filter_part) (All-take-none (IsDone r) i es e h)
    | inr (p, e) ↦ elim (Bool-cases (validate_entry_by_rules r p)) [
      | inl v ↦ rw (e, v, filter_part) (All-take-suc (IsDone r) i es p e (inr v) h)
      | inr v ↦
          rw (e, v, filter_part)
            (All-take-modify (IsDone r) invalidate invalidate-IsDone i _
              (pair-IsDone p.tag.pair i es h))
    ]
  ]

  filter_loop-IsDone :
      (left i : ℕ) (es : List Entry)
      → All (IsDone r) (take i es)
      → All (IsDone r) (take (i + left) (filter_loop r left i es).1)
  unfolding filter_loop
  filter_loop-IsDone zero i es h = subst (λ n. All (IsDone r) (take n es)) (omega arith) h
  filter_loop-IsDone (suc left) i es h =
      let here : suc i ≡ i + 1 = omega arith in
      let there : (i + 1) + left ≡ i + suc left = omega arith in
      let next =
        subst (λ n. All (IsDone r) (take n (filter_part r i es).1)) here
          (filter_part-IsDone i es h) in
      subst (λ n. All (IsDone r) (take n (filter_loop r (suc left) i es).1)) there
        (filter_loop-IsDone left (i + 1) (filter_part r i es).1 next)

All-take-All :
    (P : Entry → Type 0) (n : ℕ) (es : List Entry) → length es ≤ n → All P (take n es) → All P es
All-take-All P n [] h k = tt
All-take-All P zero (e ∷ es) h k = absurd (omega arith)
All-take-All P (suc n) (e ∷ es) h (p, k) = (p, All-take-All P n es (omega arith) k)

length-invalidate_pair :
    (o : Option ℕ) (es : List Entry) → length (invalidate_pair o es) ≡ length es
unfolding invalidate_pair
length-invalidate_pair none es = refl
length-invalidate_pair (some j) es = length-modify j invalidate es

length-filter_part :
    (r : Rules) (i : ℕ) (es : List Entry) → length (filter_part r i es).1 ≡ length es
unfolding filter_part
length-filter_part r i es = elim (Option-cases (get_elem? es i)) [
  | inl e ↦ rw (e, filter_part) refl
  | inr (p, e) ↦ elim (Bool-cases (validate_entry_by_rules r p)) [
    | inl v ↦ rw (e, v, filter_part) refl
    | inr v ↦
        rw (e, v, filter_part) (length-modify i invalidate _ ∙ length-invalidate_pair p.tag.pair es)
  ]
]

length-filter_loop :
    (r : Rules) (left i : ℕ) (es : List Entry) → length (filter_loop r left i es).1 ≡ length es
unfolding filter_loop
length-filter_loop r zero i es = refl
length-filter_loop r (suc left) i es =
    length-filter_loop r left (i + 1) (filter_part r i es).1 ∙ length-filter_part r i es

pub filter_parts-IsDone : (r : Rules) (s : Bytes) → All (IsDone r) (filter_parts r s).1
unfolding filter_parts
filter_parts-IsDone r s =
    let es = validate_nesting (parse_all (split_to_parts s)).1 r.is_xhtml in
    let enough : length (filter_loop r (length es) 0 es).1 ≤ 0 + length es =
      omega (arith, length-filter_loop r (length es) 0 es) in
    All-take-All (IsDone r) (0 + length es) _ enough (filter_loop-IsDone r (length es) 0 es tt)
