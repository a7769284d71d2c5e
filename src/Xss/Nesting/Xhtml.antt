-- ===== src/Xss/Nesting/Xhtml.antt =====
-- src/xss.cpp: the nesting of XHTML against a stack of names.
use cppcms.Prelude.{
  ℕ, zero, suc, ◌+◌, ◌<◌, ◌≡◌, refl, sym, ap, ◌∙◌, ◌↔◌, ◌⊎◌, inl, inr, true, false, List, [], ◌∷◌,
  ◌++◌, append_assoc, arith, Bool-cases, Bytes, length, length-append, All, subst,
}
use cppcms.Xss.{HtmlDataType, Entry, invalidate, ascii_streq, close_tag}
use cppcms.Xss.Nesting.{
  name_at, type_at, join, close_xhtml, nest_as, nest_loop, close_rest, validate_nesting,
}
use cppcms.Xss.Validate.{any_invalid}
use cppcms.Xss.Nesting.Laws.{
  bares, length-bares, bares-join, length-modify, invalidate-any_invalid, any_invalid-join,
  ascii_streq_iff,
}
use cppcms.Xss.Nesting.Invalid.{finish, any_invalid-close_rest, any_invalid-finish}

-- One part on a stack of the names of open tags, and what is to hold of the stack behind it.
abbrev pub Step : HtmlDataType → Bytes → List Bytes → (List Bytes → Type 0) → Type 0
Step HtmlDataType.open_tag name st next = next (name ∷ st)
Step HtmlDataType.close_tag name [] next = ⊥
Step HtmlDataType.close_tag name (top ∷ st) next = (top ≡ name) × next st
Step _ name st next = next st

-- The parts close the open tags of the stack, and those that they open, in order.
abbrev pub Nested : List Bytes → List Entry → Type 0
Nested st [] = st ≡ []
Nested st (e ∷ es) = Step e.type e.tag.name st (λ behind. Nested behind es)

-- The names of the tags that a stack of indices stands for.
abbrev names : List Entry → List ℕ → List Bytes
names es [] = []
names es (j ∷ st) = name_at j es ∷ names es st

bares-at :
    (i : ℕ) (es : List Entry)
    → (name_at i (bares es) ≡ name_at i es) × (type_at i (bares es) ≡ type_at i es)
unfolding name_at type_at
bares-at i [] = (refl, refl)
bares-at zero (e ∷ es) = (refl, refl)
bares-at (suc i) (e ∷ es) = bares-at i es

append-at :
    (pre suf : List Entry) (e : Entry)
    → (name_at (length pre) (pre ++ e ∷ suf) ≡ e.tag.name)
      × (type_at (length pre) (pre ++ e ∷ suf) ≡ e.type)
unfolding name_at type_at
append-at [] suf e = (refl, refl)
append-at (x ∷ pre) suf e = append-at pre suf e

names-bares : (es fs : List Entry) (st : List ℕ) → bares es ≡ bares fs → names es st ≡ names fs st
names-bares es fs [] h = refl
names-bares es fs (j ∷ st) h =
    let p : name_at j es ≡ name_at j fs =
      sym (bares-at j es).0 ∙ ap (name_at j) h ∙ (bares-at j fs).0 in
    rw (p, names-bares es fs st h) refl

-- Either the parts stay valid and as they were but for their pairs, and `P` holds, or one becomes
-- invalid, and it does not.
Outcome : List Entry → List Entry → Type 0 → Type 0
Outcome out es P =
    ((any_invalid out ≡ false) × (bares out ≡ bares es) × P) ⊎ ((any_invalid out ≡ true) × (P → ⊥))

Outcome-map :
    (out es fs : List Entry) (P Q : Type 0)
    → bares fs ≡ bares es
    → (P ↔ Q)
    → Outcome out fs P
    → Outcome out es Q
unfolding Outcome
Outcome-map out es fs P Q h (f, g) (inl (a, b, p)) = inl (a, b ∙ h, f p)
Outcome-map out es fs P Q h (f, g) (inr (a, n)) = inr (a, λ q. n (g q))

length-bares_eq : (es fs : List Entry) → bares es ≡ bares fs → length es ≡ length fs
length-bares_eq es fs h = sym (length-bares es) ∙ ap length h ∙ length-bares fs

InRange : List Entry → List ℕ → Type 0
InRange es = All (λ j. j < length es)

InRange-bares :
    (es fs : List Entry) (st : List ℕ) → bares es ≡ bares fs → InRange es st → InRange fs st
unfolding InRange
InRange-bares es fs st h r = subst (λ n. All (λ j. j < n) st) (length-bares_eq es fs h) r

module _ (i left : ℕ) (name : Bytes) (suf es : List Entry) where
  -- What is known of the rest of the loop.
  Rest : Type 0
  Rest =
      (st : List ℕ) (fs : List Entry)
      → bares fs ≡ bares es
      → InRange fs st
      → any_invalid fs ≡ false
      → Outcome (finish left (i + 1) st fs) fs (Nested (names fs st) suf)

  round-close :
      (st : List ℕ)
      → name_at i es ≡ name
      → i < length es
      → InRange es st
      → any_invalid es ≡ false
      → Rest
      → Outcome
          (finish left (i + 1) (close_xhtml i st es).0 (close_xhtml i st es).1)
          es
          (Step close_tag name (names es st) (λ b. Nested b suf))
  unfolding close_xhtml Outcome InRange Rest
  round-close [] n l r v rest =
      inr (any_invalid-finish left (i + 1) [] _ (invalidate-any_invalid i es l), λ x. x)
  round-close (j ∷ st) n l (rj, r) v rest =
      let same_names = ascii_streq_iff (name_at j es) (name_at i es) in
      elim (Bool-cases (ascii_streq (name_at j es) (name_at i es) true)) [
        | inr e ↦ rw e (
            inr (
              any_invalid-finish left (i + 1) st _
                  (invalidate-any_invalid j _ (rw (length-modify i invalidate es) rj)),
              λ p. absurd (ground (arith, e, same_names.1 (p.0 ∙ sym n))),
            ))
        | inl e ↦ rw e (
            Outcome-map _ es (join i j es) _ _ (bares-join i j es)
              (
                λ p. (
                  same_names.0 e ∙ n,
                  subst (λ ns. Nested ns suf) (names-bares (join i j es) es st (bares-join i j es))
                      p,
                ),
                λ p.
                    subst (λ ns. Nested ns suf)
                      (sym (names-bares (join i j es) es st (bares-join i j es))) p.1,
              )
              (rest st (join i j es) (bares-join i j es)
                (InRange-bares es (join i j es) st (sym (bares-join i j es)) r)
                (any_invalid-join i j es ∙ v)))
      ]

  round :
      (t : HtmlDataType) (st : List ℕ)
      → name_at i es ≡ name
      → i < length es
      → InRange es st
      → any_invalid es ≡ false
      → Rest
      → Outcome
          (finish left (i + 1) (nest_as t true i st es).0 (nest_as t true i st es).1)
          es
          (Step t name (names es st) (λ b. Nested b suf))
  unfolding nest_as Rest InRange
  round HtmlDataType.close_tag st n l r v rest = round-close st n l r v rest
  round HtmlDataType.open_tag st n l r v rest = rw n at (rest (i ∷ st) es refl (l, r) v)
  round _ st n l r v rest = rest st es refl r v

cons-not-nil : {x : Bytes} {st : List Bytes} → x ∷ st ≡ [] → ⊥
cons-not-nil h = absurd (ground (arith, h))

left-open :
    (j : ℕ) (st : List ℕ) (es : List Entry)
    → InRange es (j ∷ st)
    → any_invalid (close_rest true (j ∷ st) es) ≡ true
unfolding close_rest InRange
left-open j st es (r, _) = any_invalid-close_rest st _ (invalidate-any_invalid j es r)

length-middle :
    (pre suf es : List Entry) (e : Entry) → bares es ≡ pre ++ e ∷ suf → length pre < length es
length-middle pre suf es e h =
    omega (arith, length-bares es, ap length h, length-append pre (e ∷ suf))

finish-round :
    (left i : ℕ) (st : List ℕ) (es : List Entry) (t : HtmlDataType)
    → type_at i es ≡ t
    → finish (suc left) i st es
      ≡ finish left (i + 1) (nest_as t true i st es).0 (nest_as t true i st es).1
unfolding finish nest_loop
finish-round left i st es t h =
    ap (λ u. finish left (i + 1) (nest_as u true i st es).0 (nest_as u true i st es).1) h

finish-Outcome :
    (pre suf : List Entry) (i : ℕ) (st : List ℕ) (es : List Entry)
    → bares es ≡ pre ++ suf
    → i ≡ length pre
    → InRange es st
    → any_invalid es ≡ false
    → Outcome (finish (length suf) i st es) es (Nested (names es st) suf)
unfolding finish nest_loop close_rest Outcome Rest
finish-Outcome pre [] i [] es h k r v = inl (v, refl, refl)
finish-Outcome pre [] i (j ∷ st) es h k r v = inr (left-open j st es r, cons-not-nil)
finish-Outcome pre (e ∷ suf) i st es h k r v =
    let (n, t) = append-at pre suf e in
    let (bn, bt) = bares-at i es in
    let name : name_at i es ≡ e.tag.name = sym bn ∙ ap (name_at i) h ∙ rw (sym k) at n in
    let type : type_at i es ≡ e.type = sym bt ∙ ap (type_at i) h ∙ rw (sym k) at t in
    subst (λ out. Outcome out es (Nested (names es st) (e ∷ suf)))
      (sym (finish-round (length suf) i st es e.type type))
      (round i (length suf) e.tag.name suf es e.type st name (rw k (length-middle pre suf es e h)) r
        v
        (λ st' fs b r' v'.
          finish-Outcome (pre ++ e ∷ []) suf (i + 1) st' fs
            (b ∙ h ∙ sym (append_assoc pre (e ∷ []) suf))
            (omega (arith, length-append pre (e ∷ []))) r' v'))

pub Step-map :
    (t : HtmlDataType) (name : Bytes) (st : List Bytes) (P Q : List Bytes → Type 0)
    → ((ns : List Bytes) → P ns ↔ Q ns)
    → Step t name st P ↔ Step t name st Q
Step-map HtmlDataType.open_tag name st P Q h = h (name ∷ st)
Step-map HtmlDataType.close_tag name [] P Q h = (λ x. x, λ x. x)
Step-map HtmlDataType.close_tag name (top ∷ st) P Q h =
    (λ (p, q). (p, (h st).0 q), λ (p, q). (p, (h st).1 q))
Step-map _ name st P Q h = h st

Nested-bares : (es : List Entry) (st : List Bytes) → Nested st (bares es) ↔ Nested st es
Nested-bares [] st = (λ x. x, λ x. x)
Nested-bares (e ∷ es) st = Step-map e.type e.tag.name st _ _ (λ ns. Nested-bares es ns)

validate_nesting-Outcome :
    (es : List Entry)
    → any_invalid es ≡ false
    → Outcome (validate_nesting es true) es (Nested [] es)
unfolding validate_nesting finish InRange
validate_nesting-Outcome es v = Outcome-map _ es es _ _ refl (Nested-bares es []) (
    subst (λ n. Outcome (finish n 0 [] es) es (Nested [] (bares es))) (length-bares es)
      (finish-Outcome [] (bares es) 0 [] es refl refl tt v))

-- Parts of which none is invalid keep none when the nesting has been checked in XHTML exactly when
-- their tags are nested: each closing tag has the name of the last tag that is open, and no tag
-- stays open.
pub validate_nesting_iff :
    (es : List Entry)
    → any_invalid es ≡ false
    → (any_invalid (validate_nesting es true) ≡ false) ↔ Nested [] es
unfolding Outcome
validate_nesting_iff es v = elim (validate_nesting-Outcome es v) [
  | inl (a, b, p) ↦ (λ _. p, λ _. a)
  | inr (a, n) ↦ (λ h. absurd (ground (arith, a, h)), λ p. absurd (n p))
]

-- Where none is invalid, the nesting changed nothing but the pairs.
pub validate_nesting-bares :
    (es : List Entry)
    → any_invalid es ≡ false
    → any_invalid (validate_nesting es true) ≡ false
    → bares (validate_nesting es true) ≡ bares es
unfolding Outcome
validate_nesting-bares es v h = elim (validate_nesting-Outcome es v) [
  | inl (a, b, p) ↦ b
  | inr (a, n) ↦ absurd (ground (arith, a, h))
]
