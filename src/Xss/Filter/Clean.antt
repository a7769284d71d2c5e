-- ===== src/Xss/Filter/Clean.antt =====
-- Texts whose parts the rules accept.
use cppcms.Xss.Split.Forms.{IsPlain, HasForm}
use cppcms.Xss.Parse.{parse_as}
use cppcms.Prelude.{
  ℕ, ◌≡◌, refl, sym, Bool, true, false, [], ◌∷◌, ◌++◌, append_assoc, arith, ◌==◌, if◌then◌else◌,
  Bytes, codes, All, subst,
}
use cppcms.Xss.{HtmlDataType, Entry, Rules, is_invalid, entry, plain_text, html_entity}
use cppcms.Xss.Parse.{parse_part}
use cppcms.Xss.Split.{split_to_parts}
use cppcms.Xss.Split.Again.{IsSolid, split_to_parts-solid, All-plain}
use cppcms.Xss.Validate.{valid_as, validate_entry_by_rules}
use cppcms.Xss.Filter.{escape_char, escape_text}

-- A part that is valid and that the rules accept, its nesting aside.
pub record IsAccepted (r : Rules) (e : Entry) : Type 0 where
  pub split_valid : is_invalid e.type ≡ false
  pub parse_valid : is_invalid (parse_part e).type ≡ false
  pub by_rules : validate_entry_by_rules r (parse_part e) ≡ true

-- The entities that the filter writes are accepted.
pub record HasEntities (r : Rules) : Type 0 where
  pub lt : r.valid_entity (codes "lt") ≡ true
  pub gt : r.valid_entity (codes "gt") ≡ true
  pub amp : r.valid_entity (codes "amp") ≡ true
  pub quot : r.valid_entity (codes "quot") ≡ true

pub if_cases {ℓ κ} :
    {A : Type ℓ} (P : A → Type κ) (b : Bool) {x y : A}
    → (b ≡ true → P x)
    → (b ≡ false → P y)
    → P (if b then x else y)
if_cases P true p q = p refl
if_cases P false p q = q refl

-- Accepted plain text, and accepted entities.
module _ (r : Rules) where
  plain-IsAccepted : (t : Bytes) → IsPlain t → IsAccepted r (entry t plain_text)
  unfolding entry parse_part parse_as validate_entry_by_rules valid_as
  plain-IsAccepted t h = record { split_valid = refl; parse_valid = refl; by_rules = refl }

  unfoldable pub Clean : Bytes → Type 0
  Clean s = All (IsAccepted r) (split_to_parts s)

  plain-Clean : (p s : Bytes) → IsPlain p → Clean s → Clean (p ++ s)
  unfolding Clean
  plain-Clean p s h k = All-plain (IsAccepted r) plain-IsAccepted p s h k

  solid-Clean :
      (type : HtmlDataType) (text s : Bytes)
      → IsSolid type
      → HasForm type text
      → IsAccepted r (entry text type)
      → Clean s
      → Clean (text ++ s)
  unfolding Clean
  solid-Clean type text s i h a k =
      subst (All (IsAccepted r)) (sym (split_to_parts-solid type text s i h)) (a, k)

  pub part-Clean :
      (type : HtmlDataType) (text s : Bytes)
      → HasForm type text
      → IsAccepted r (entry text type)
      → Clean s
      → Clean (text ++ s)
  unfolding entry
  part-Clean HtmlDataType.plain_text text s h a k = plain-Clean text s h k
  part-Clean HtmlDataType.html_entity text s h a k = solid-Clean html_entity text s tt h a k
  part-Clean HtmlDataType.html_tag text s h a k = solid-Clean HtmlDataType.html_tag text s tt h a k
  part-Clean HtmlDataType.html_comment text s h a k =
      solid-Clean HtmlDataType.html_comment text s tt h a k
  part-Clean HtmlDataType.invalid_data text s h a k = absurd (ground (arith, a.split_valid))
  part-Clean HtmlDataType.open_tag text s h a k = absurd h
  part-Clean HtmlDataType.close_tag text s h a k = absurd h
  part-Clean HtmlDataType.open_and_close_tag text s h a k = absurd h
  part-Clean HtmlDataType.html_numeric_entity text s h a k = absurd h
  part-Clean HtmlDataType.open_and_close_tag_without_slash text s h a k = absurd h

  lt-IsAccepted : HasEntities r → IsAccepted r (entry (codes "&lt;") html_entity)
  unfolding entry parse_part parse_as validate_entry_by_rules valid_as
  lt-IsAccepted n = record { split_valid = refl; parse_valid = refl; by_rules = n.lt }

  gt-IsAccepted : HasEntities r → IsAccepted r (entry (codes "&gt;") html_entity)
  unfolding entry parse_part parse_as validate_entry_by_rules valid_as
  gt-IsAccepted n = record { split_valid = refl; parse_valid = refl; by_rules = n.gt }

  amp-IsAccepted : HasEntities r → IsAccepted r (entry (codes "&amp;") html_entity)
  unfolding entry parse_part parse_as validate_entry_by_rules valid_as
  amp-IsAccepted n = record { split_valid = refl; parse_valid = refl; by_rules = n.amp }

  quot-IsAccepted : HasEntities r → IsAccepted r (entry (codes "&quot;") html_entity)
  unfolding entry parse_part parse_as validate_entry_by_rules valid_as
  quot-IsAccepted n = record { split_valid = refl; parse_valid = refl; by_rules = n.quot }

  -- Each of the four entities, and any other character alone.
  escape_char-Clean : HasEntities r → (c : ℕ) (s : Bytes) → Clean s → Clean (escape_char c ++ s)
  unfolding escape_char
  escape_char-Clean n c s k =
      if_cases (λ t. Clean (t ++ s)) (c == b'<')
        (λ _.
          solid-Clean html_entity (codes "&lt;") s tt (codes "lt", ground arith, refl)
            (lt-IsAccepted n) k)
        λ a.
          if_cases (λ t. Clean (t ++ s)) (c == b'>')
            (λ _.
              solid-Clean html_entity (codes "&gt;") s tt (codes "gt", ground arith, refl)
                (gt-IsAccepted n) k)
            λ b.
              if_cases (λ t. Clean (t ++ s)) (c == b'&')
                (λ _.
                  solid-Clean html_entity (codes "&amp;") s tt (codes "amp", ground arith, refl)
                    (amp-IsAccepted n) k)
                λ d.
                  if_cases (λ t. Clean (t ++ s)) (c == b'"')
                    (λ _.
                      solid-Clean html_entity (codes "&quot;") s tt
                        (codes "quot", ground arith, refl) (quot-IsAccepted n) k)
                    λ _. plain-Clean (c ∷ []) s (ground (arith, a, b, d), tt) k

  pub escape_text-Clean : HasEntities r → (t s : Bytes) → Clean s → Clean (escape_text t ++ s)
  unfolding escape_text
  escape_text-Clean n [] s k = k
  escape_text-Clean n (c ∷ t) s k =
      subst Clean (sym (append_assoc (escape_char c) (escape_text t) s))
        (escape_char-Clean n c (escape_text t ++ s) (escape_text-Clean n t s k))
