-- ===== src/Prelude/Dict.antt =====
-- Byte strings as keys: equality, counts, and association lists with one law for each operation.
use Prim.Native.Nat.{ℕ, ◌+◌, ◌-◌, ◌<◌, ◌≤◌}
use mathlib.Core.Path.{◌≡◌, refl}
use mathlib.Core.Logic.{◌↔◌}
use mathlib.Core.Bool.{Bool, true, false, ◌&&◌}
use mathlib.Core.Option.{Option, none, some}
use mathlib.Core.List.{List, [], ◌∷◌}
use native.Mathlib.Omega.{arith}
use cppcms.Prelude.Tests.{◌==◌, if◌then◌else◌}
use cppcms.Prelude.Lists.{Bytes, length}

unfoldable pub same : Bytes → Bytes → Bool
same [] [] = true
same [] (y ∷ b) = false
same (x ∷ a) [] = false
same (x ∷ a) (y ∷ b) = x == y && same a b

pub same_iff : (a b : Bytes) → (same a b ≡ true) ↔ (a ≡ b)
unfolding same
same_iff [] [] = ground arith
same_iff [] (y ∷ b) = ground arith
same_iff (x ∷ a) [] = ground arith
same_iff (x ∷ a) (y ∷ b) = ground (arith, same_iff a b)

-- How often a key stands in a list, and the list without its first occurrence.
unfoldable pub count : Bytes → List Bytes → ℕ
count k [] = 0
count k (j ∷ l) = (if same k j then 1 else 0) + count k l

unfoldable pub remove : Bytes → List Bytes → List Bytes
remove k [] = []
remove k (j ∷ l) = if same k j then l else j ∷ remove k l

pub count-remove :
    (j k : Bytes) (l : List Bytes) → count j (remove k l) ≡ count j l - (if same j k then 1 else 0)
unfolding count remove
count-remove j k [] = ground arith
count-remove j k (i ∷ l) =
    ground (arith, count-remove j k l, same_iff j k, same_iff j i, same_iff k i)

pub length-remove :
    (k : Bytes) (l : List Bytes) → 0 < count k l → length (remove k l) + 1 ≡ length l
unfolding count remove
length-remove k [] h = absurd (omega arith)
length-remove k (i ∷ l) h = ground (arith, length-remove k l)

module _ {ℓ} {V : Type ℓ} where
  unfoldable pub lookup : Bytes → List (Bytes × V) → Option V
  lookup k [] = none
  lookup k ((j, v) ∷ m) = if same k j then some v else lookup k m

  -- The map without a key.
  unfoldable pub erase : Bytes → List (Bytes × V) → List (Bytes × V)
  erase k [] = []
  erase k ((j, v) ∷ m) = if same k j then erase k m else (j, v) ∷ erase k m

  abbrev pub keys : List (Bytes × V) → List Bytes
  keys [] = []
  keys ((j, v) ∷ m) = j ∷ keys m

  pub lookup-erase :
      (j k : Bytes) (m : List (Bytes × V))
      → lookup j (erase k m) ≡ (if same j k then none else lookup j m)
  unfolding lookup erase
  lookup-erase j k [] = ground arith
  lookup-erase j k ((i, v) ∷ m) =
      ground (arith, lookup-erase j k m, same_iff j k, same_iff j i, same_iff k i)

  pub lookup-cons :
      (j k : Bytes) (v : V) (m : List (Bytes × V))
      → lookup j ((k, v) ∷ m) ≡ (if same j k then some v else lookup j m)
  unfolding lookup
  lookup-cons j k v m = refl

  pub count-keys-erase :
      (j k : Bytes) (m : List (Bytes × V))
      → count j (keys (erase k m)) ≡ (if same j k then 0 else count j (keys m))
  unfolding count erase
  count-keys-erase j k [] = ground arith
  count-keys-erase j k ((i, v) ∷ m) =
      ground (arith, count-keys-erase j k m, same_iff j k, same_iff j i, same_iff k i)

  pub length-erase :
      (k : Bytes) (m : List (Bytes × V)) → length (erase k m) + count k (keys m) ≡ length m
  unfolding count erase
  length-erase k [] = omega arith
  length-erase k ((i, v) ∷ m) = ground (arith, length-erase k m)

  pub lookup-absent : (j : Bytes) (m : List (Bytes × V)) → count j (keys m) ≡ 0 → lookup j m ≡ none
  unfolding lookup count
  lookup-absent j [] h = refl
  lookup-absent j ((k, v) ∷ m) h = ground (arith, lookup-absent j m)

  -- Each key stands once at most.
  abbrev pub KeysOnce : List (Bytes × V) → Type 0
  KeysOnce m = (k : Bytes) → count k (keys m) ≤ 1

  pub KeysOnce-tail :
      (k : Bytes) (v : V) (m : List (Bytes × V)) → KeysOnce ((k, v) ∷ m) → KeysOnce m
  unfolding count
  KeysOnce-tail k v m h j = ground (arith, h j)

  pub lookup_once :
      (k : Bytes) (v : V) (m : List (Bytes × V)) → KeysOnce ((k, v) ∷ m) → lookup k m ≡ none
  unfolding count
  lookup_once k v m h = lookup-absent k m (ground (arith, h k, same_iff k k))

  pub KeysOnce-put :
      (k : Bytes) (v : V) (m : List (Bytes × V)) → KeysOnce m → KeysOnce ((k, v) ∷ erase k m)
  unfolding count
  KeysOnce-put k v m h j = ground (arith, h j, count-keys-erase j k m)
