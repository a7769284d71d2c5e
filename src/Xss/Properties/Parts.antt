-- ===== src/Xss/Properties/Parts.antt =====
-- What the parser of properties leaves of a part: its text, its pair, and accepted values.
use cppcms.Xss.Properties.{
  checked_value, with_value, behind_name, span, validate_property_value, quoted_value, one_property,
  push_property, properties_round, properties_loop, parse_properties, is_quote,
}
use cppcms.Prelude.{
  ℕ, zero, suc, ◌≡◌, refl, ◌∙◌, inl, inr, Bool, true, false, not, Option, none, some, [], ◌∷◌, ◌==◌,
  if◌then◌else◌, Bool-cases, Bytes, length, All, All-append,
}
use cppcms.Xss.{Entry, PropertyData, invalidate, ascii_isalnum, ascii_isspace, ascii_isalpha}
use cppcms.Xss.Properties.{
  span, validate_property_value, quoted_value, checked_value, quoted_value, with_value, behind_name,
  one_property, push_property, properties_loop, parse_properties, is_quote, is_char,
}
use cppcms.Xss.Properties.Laws.{IsValue, validate_property_value_iff}

abbrev IsSafeValue : Option Bytes → Type 0
IsSafeValue none = Unit
IsSafeValue (some v) = IsValue v

-- A property that has no value or one that is accepted.
abbrev pub IsSafe : PropertyData → Type 0
IsSafe p = IsSafeValue p.value

-- What no parser changes, and what each keeps of the properties.
pub record Keeps (e f : Entry) : Type 0 where
  pub same_text : f.text ≡ e.text
  pub same_pair : f.tag.pair ≡ e.tag.pair
  pub safe : All IsSafe e.tag.properties → All IsSafe f.tag.properties

pub Keeps-refl : (e : Entry) → Keeps e e
Keeps-refl e = record { same_text = refl; same_pair = refl; safe = λ h. h }

pub Keeps-trans : (e f g : Entry) → Keeps e f → Keeps f g → Keeps e g
Keeps-trans e f g h k = record {
  same_text = k.same_text ∙ h.same_text;
  same_pair = k.same_pair ∙ h.same_pair;
  safe = λ s. k.safe (h.safe s);
}

pub Keeps-invalidate : (e : Entry) → Keeps e (invalidate e)
unfolding invalidate
Keeps-invalidate e = record { same_text = refl; same_pair = refl; safe = λ h. h }

Keeps-push_property : (e : Entry) (p : PropertyData) → IsSafe p → Keeps e (push_property e p)
unfolding push_property
Keeps-push_property e p a = record {
  same_text = refl;
  same_pair = refl;
  safe = λ h. All-append IsSafe e.tag.properties (p ∷ []) h (a, tt);
}

pub if_both {ℓ κ} :
    {A : Type ℓ} (P : A → Type κ) (b : Bool) {x y : A} → P x → P y → P (if b then x else y)
if_both P true p q = p
if_both P false p q = q

-- A value that was read is an accepted one.
IsRead : Option (Bytes × Bytes) → Type 0
IsRead none = Unit
IsRead (some (v, _)) = IsValue v

checked_value-IsRead : (v s : Bytes) → IsRead (checked_value v s)
unfolding checked_value IsRead
checked_value-IsRead v [] = tt
checked_value-IsRead v (_ ∷ rest) = elim (Bool-cases (validate_property_value v)) [
  | inl e ↦ rw e ((validate_property_value_iff v).0 e)
  | inr e ↦ rw e tt
]

quoted_value-IsRead : (s : Bytes) → IsRead (quoted_value s)
unfolding quoted_value IsRead
quoted_value-IsRead [] = tt
quoted_value-IsRead (quote ∷ s) =
    if_both IsRead (is_quote quote)
      (checked_value-IsRead (span (is_char quote) s).0 (span (is_char quote) s).1) tt

with_value-IsSafe :
    (name : Bytes) (o : Option (Bytes × Bytes)) → IsRead o → IsSafe (with_value name o).0
unfolding with_value IsRead
with_value-IsSafe name none h = tt
with_value-IsSafe name (some (v, rest)) h = h

Sound : PropertyData × Option (Bool × Bytes) → Type 0
Sound r = IsSafe r.0

behind_name-Sound : (name s : Bytes) → Sound (behind_name name s)
unfolding behind_name Sound
behind_name-Sound name [] = tt
behind_name-Sound name (c ∷ rest) = if_both Sound (ascii_isspace c) tt (
    if_both Sound (c == b'=')
      (with_value-IsSafe name (quoted_value rest) (quoted_value-IsRead rest)) tt)

one_property-IsSafe : (s : Bytes) → IsSafe (one_property s).0
unfolding one_property Sound
one_property-IsSafe s = behind_name-Sound (span ascii_isalnum s).0 (span ascii_isalnum s).1

push_next-Keeps :
    (e : Entry) (p : PropertyData) (o : Option (Bool × Bytes))
    → IsSafe p
    → Keeps e (elim o [ none ↦ invalidate (push_property e p) | some _ ↦ push_property e p ])
push_next-Keeps e p none a =
    Keeps-trans e _ _ (Keeps-push_property e p a) (Keeps-invalidate (push_property e p))
push_next-Keeps e p (some _) a = Keeps-push_property e p a

properties_round-Keeps :
    (e : Entry) (spaced : Bool) (c : ℕ) (s : Bytes) → Keeps e (properties_round e spaced c s).0
unfolding properties_round
properties_round-Keeps e spaced c s =
    if_both (λ (r : Entry × Option (Bool × Bytes)). Keeps e r.0) (ascii_isspace c) (Keeps-refl e)
      (if_both (λ (r : Entry × Option (Bool × Bytes)). Keeps e r.0) (not spaced)
        (Keeps-invalidate e)
        (if_both (λ (r : Entry × Option (Bool × Bytes)). Keeps e r.0) (not (ascii_isalpha c))
          (Keeps-invalidate e)
          (push_next-Keeps e (one_property (c ∷ s)).0 (one_property (c ∷ s)).1
            (one_property-IsSafe (c ∷ s)))))

-- The way on after a round, by what it says.
go_on-Keeps :
    (fuel : ℕ) (e f : Entry) (o : Option (Bool × Bytes))
    → ((g : Entry) (spaced : Bool) (s : Bytes) → Keeps g (properties_loop fuel g spaced s))
    → Keeps e f
    → Keeps e (elim o [ none ↦ f | some (spaced, rest) ↦ properties_loop fuel f spaced rest ])
go_on-Keeps fuel e f none ih h = h
go_on-Keeps fuel e f (some (spaced, rest)) ih h = Keeps-trans e _ _ h (ih f spaced rest)

properties_loop-Keeps :
    (fuel : ℕ) (e : Entry) (spaced : Bool) (s : Bytes) → Keeps e (properties_loop fuel e spaced s)
unfolding properties_loop
properties_loop-Keeps fuel e spaced [] = Keeps-refl e
properties_loop-Keeps zero e spaced (c ∷ s) = Keeps-refl e
properties_loop-Keeps (suc fuel) e spaced (c ∷ s) =
    go_on-Keeps fuel e (properties_round e spaced c s).0 (properties_round e spaced c s).1
      (properties_loop-Keeps fuel) (properties_round-Keeps e spaced c s)

pub parse_properties-Keeps : (e : Entry) (s : Bytes) → Keeps e (parse_properties e s)
unfolding parse_properties
parse_properties-Keeps e s = properties_loop-Keeps (length s) e true s
