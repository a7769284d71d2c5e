-- ===== src/Http/Protocol/Comparing.antt =====
-- private/http_protocol.h: `compare` as an order on header names.
use cppcms.Http.Protocol.{compare, Order, less, equal, greater, ascii_to_lower, char_less}
use mathlib.Core.List.{map}
use cppcms.Prelude.{ℕ, ◌<◌, ◌≡◌, refl, ◌↔◌, true, false, [], ◌∷◌, arith, Bytes, IsBytes}

pub flip : Order → Order
flip less = greater
flip equal = equal
flip greater = less

lower : Bytes → Bytes
lower = map ascii_to_lower

ascii_to_lower-lt : (c : ℕ) → c < 256 → ascii_to_lower c < 256
unfolding ascii_to_lower
ascii_to_lower-lt c h = ground arith

char_less_total :
    (a b : ℕ) → a < 256 → b < 256 → char_less a b ≡ false → char_less b a ≡ false → a ≡ b
unfolding char_less
char_less_total a b h k p q = ground arith

char_less_irrefl : (a : ℕ) → char_less a a ≡ false
unfolding char_less
char_less_irrefl a = ground arith

char_less_asym : (a b : ℕ) → char_less a b ≡ true → char_less b a ≡ false
unfolding char_less
char_less_asym a b h = ground arith

char_less_trans : (a b c : ℕ) → char_less a b ≡ true → char_less b c ≡ true → char_less a c ≡ true
unfolding char_less
char_less_trans a b c h k = ground arith

-- Swapping the names swaps the answer.
pub compare-flip : (a b : Bytes) → compare b a ≡ flip (compare a b)
unfolding compare flip
compare-flip [] [] = refl
compare-flip [] (y ∷ b) = refl
compare-flip (x ∷ a) [] = refl
compare-flip (x ∷ a) (y ∷ b) =
    ground (arith, compare-flip a b, char_less_asym (ascii_to_lower x) (ascii_to_lower y))

compare_sound : (a b : Bytes) → IsBytes a → IsBytes b → compare a b ≡ equal → lower a ≡ lower b
unfolding compare lower
compare_sound [] [] p q h = refl
compare_sound [] (y ∷ b) p q h = cc
compare_sound (x ∷ a) [] p q h = cc
compare_sound (x ∷ a) (y ∷ b) (hx, p) (hy, q) h = ground (
  arith,
  compare_sound a b p q,
  char_less_total (ascii_to_lower x) (ascii_to_lower y) (ascii_to_lower-lt x hx)
      (ascii_to_lower-lt y hy),
)

compare_complete : (a b : Bytes) → lower a ≡ lower b → compare a b ≡ equal
unfolding compare lower
compare_complete [] [] h = refl
compare_complete [] (y ∷ b) h = cc
compare_complete (x ∷ a) [] h = cc
compare_complete (x ∷ a) (y ∷ b) h =
    ground (arith, compare_complete a b, char_less_irrefl (ascii_to_lower x))

-- Two names are equal for `compare` exactly if they are the same but for the case of letters.
pub compare-equal_iff :
    (a b : Bytes)
    → IsBytes a
    → IsBytes b
    → (compare a b ≡ equal) ↔ (map ascii_to_lower a ≡ map ascii_to_lower b)
unfolding lower
compare-equal_iff a b p q = (compare_sound a b p q, compare_complete a b)

-- `compare(left,right) < 0` is transitive, as a map that is ordered by it needs.
pub compare-less_trans :
    (a b c : Bytes)
    → IsBytes a
    → IsBytes b
    → IsBytes c
    → compare a b ≡ less
    → compare b c ≡ less
    → compare a c ≡ less
unfolding compare
compare-less_trans [] [] c p q r h k = k
compare-less_trans [] (y ∷ b) [] p q r h k = cc
compare-less_trans [] (y ∷ b) (z ∷ c) p q r h k = refl
compare-less_trans (x ∷ a) [] c p q r h k = cc
compare-less_trans (x ∷ a) (y ∷ b) [] p q r h k = cc
compare-less_trans (x ∷ a) (y ∷ b) (z ∷ c) (hx, p) (hy, q) (hz, r) h k = ground (
  arith,
  compare-less_trans a b c p q r,
  char_less_trans (ascii_to_lower x) (ascii_to_lower y) (ascii_to_lower z),
  char_less_total (ascii_to_lower x) (ascii_to_lower y) (ascii_to_lower-lt x hx)
      (ascii_to_lower-lt y hy),
  char_less_total (ascii_to_lower y) (ascii_to_lower z) (ascii_to_lower-lt y hy)
      (ascii_to_lower-lt z hz),
  char_less_asym (ascii_to_lower x) (ascii_to_lower y),
  char_less_asym (ascii_to_lower y) (ascii_to_lower z),
)
