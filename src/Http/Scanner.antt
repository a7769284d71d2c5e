-- ===== src/Http/Scanner.antt =====
-- The steps that http_content_type.cpp and multipart_parser.h take over a header: each is the test
-- of one pointer with its early return, so a chain of them is a `do` block in Option.
use cppcms.Prelude.{
  ℕ, ◌-◌, Bool, true, false, not, Option, none, some, [], ◌∷◌, ◌==◌, if◌then◌else◌, Bytes, length,
  take,
}
use cppcms.Http.Protocol.{tocken, unquote, compare, less, equal, greater}

infixl 5 ◌>>=◌
abbrev pub ◌>>=◌ {ℓ κ} : {A : Type ℓ} {B : Type κ} → Option A → (A → Option B) → Option B
none >>= next = none
some a >>= next = next a

-- The characters between two pointers, where `end` is the rest of the range of `begin`.
abbrev pub assign : Bytes → Bytes → Bytes
assign begin end = take (length begin - length end) begin

-- `begin==end || *begin++ != c`
abbrev pub expect : ℕ → Bytes → Option Bytes
expect c [] = none
expect c (d ∷ s) = if d == c then some s else none

-- `begin==end`
abbrev pub some_left : Bytes → Option Bytes
some_left [] = none
some_left (c ∷ s) = some (c ∷ s)

-- The text up to `end`; `end==begin` is an error.
unfoldable pub word_to : Bytes → Bytes → Option (Bytes × Bytes)
word_to begin end = if length end == length begin then none else some (assign begin end, end)

-- A token with the rest.
unfoldable pub word : Bytes → Option (Bytes × Bytes)
unfolding word_to tocken
word s = word_to s (tocken s)

-- A quoted string or a token.
unfoldable pub value : Bytes → Option (Bytes × Bytes)
unfolding word unquote
value [] = word []
value (c ∷ s) =
    if not (c == b'"')
    then word (c ∷ s)
    else if length (unquote (c ∷ s)).1 == length (c ∷ s)
    then none
    else some (unquote (c ∷ s))

-- `compare(a,b)==0`
unfoldable pub same_name : Bytes → Bytes → Bool
unfolding compare
same_name a b = elim (compare a b) [ less ↦ false | equal ↦ true | greater ↦ false ]
