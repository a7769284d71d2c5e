-- ===== src/Utf8/Validate.antt =====
-- `validate` against the list of the code points that a text encodes.
use cppcms.Prelude.{
  ℕ, zero, suc, ◌+◌, ◌≤◌, ◌<◌, ◌≡◌, refl, ap, ◌∙◌, ◌≢◌, inl, inr, Bool, true, List, [], ◌∷◌, ◌++◌,
  arith, ◌==◌, Bool-cases, Bytes, length, length-append, All, IsBytes,
}
use cppcms.Utf8.{next, encode, illegal, validate, validate_loop}
use cppcms.Utf8.RoundTrip.{accepts, accepts-ne-illegal, next-encode, next-IsDecoded}

-- The text that a list of code points is written as.
abbrev pub encode_all : List ℕ → Bytes
encode_all [] = []
encode_all (v ∷ vs) = encode v ++ encode_all vs

abbrev pub Accepted : Bool → List ℕ → Type 0
Accepted html = All (λ v. accepts html v ≡ true)

length-encode_pos : (v : ℕ) → 0 < length (encode v)
unfolding encode
length-encode_pos v = ground arith

-- One round of the loop.
round :
    (fuel : ℕ) (html : Bool) (s : Bytes) (v : ℕ) (rest : Bytes) (count : ℕ)
    → next html s ≡ (v, rest)
    → v ≢ illegal
    → s ≢ []
    → validate_loop (suc fuel) html s count ≡ validate_loop fuel html rest (count + 1)
unfolding validate_loop
round fuel html [] v rest count e h ne = absurd (ne refl)
round fuel html (c ∷ s) v rest count e h ne = rw e (ground arith)

encode-append-ne-nil : (v : ℕ) (rest : Bytes) → encode v ++ rest ≢ []
unfolding encode
encode-append-ne-nil v rest = ground arith

loop_complete :
    (fuel : ℕ) (html : Bool) (vs : List ℕ) (count : ℕ)
    → Accepted html vs
    → length (encode_all vs) ≤ fuel
    → validate_loop fuel html (encode_all vs) count ≡ (true, count + length vs)
loop_complete zero html [] count a f = unfold validate_loop in ground arith
loop_complete (suc fuel) html [] count a f = unfold validate_loop in ground arith
loop_complete zero html (v ∷ vs) count (a, as') f =
    absurd (omega (arith, length-encode_pos v, length-append (encode v) (encode_all vs)))
loop_complete (suc fuel) html (v ∷ vs) count (a, as') f =
    round fuel html (encode v ++ encode_all vs) v (encode_all vs) count
      (next-encode html v (encode_all vs) a) (accepts-ne-illegal html v a)
      (encode-append-ne-nil v _)
    ∙ loop_complete fuel html vs (count + 1) as'
        (omega (arith, length-encode_pos v, length-append (encode v) (encode_all vs)))
    ∙ ap (λ n. (true, n)) (omega arith)

-- Every text made of code points that the mode accepts is valid, and their number is added to the
-- counter.
pub validate_complete :
    (html : Bool) (vs : List ℕ) (count : ℕ)
    → Accepted html vs
    → validate html (encode_all vs) count ≡ (true, count + length vs)
unfolding validate
validate_complete html vs count a = loop_complete _ html vs count a (omega arith)

loop_sound :
    (fuel : ℕ) (html : Bool) (s : Bytes) (count : ℕ)
    → IsBytes s
    → (validate_loop fuel html s count).0 ≡ true
    → (vs : List ℕ) × Accepted html vs
      × (s ≡ encode_all vs)
      × ((validate_loop fuel html s count).1 ≡ count + length vs)
loop_sound fuel html [] count b h = ([], tt, refl, unfold validate_loop in omega arith)
loop_sound zero html (c ∷ s) count b h = absurd (unfold validate_loop in ground arith)
loop_sound (suc fuel) html (c ∷ s) count b h = elim (Bool-cases (v == illegal)) [
  | inl bad ↦ absurd (unfold validate_loop in ground arith)
  | inr good ↦
      let (a, e, b') = next-IsDecoded html (c ∷ s) b (ground arith) in
      let step = round fuel html (c ∷ s) v rest count refl (ground arith) (cc) in
      let (vs, as', es, n) = loop_sound fuel html rest (count + 1) b' (rw (← step) h) in
      (v ∷ vs, (a, as'), rw (← es) e, rw step (omega (arith, n)))
]
  where
    v : ℕ
    v = (next html (c ∷ s)).0

    rest : Bytes
    rest = (next html (c ∷ s)).1

-- A byte string that is valid is the encoding of some list of code points that the mode accepts,
-- and the counter has gone up by their number.
pub validate_sound :
    (html : Bool) (s : Bytes) (count : ℕ)
    → IsBytes s
    → (validate html s count).0 ≡ true
    → (vs : List ℕ) × Accepted html vs
      × (s ≡ encode_all vs)
      × ((validate html s count).1 ≡ count + length vs)
unfolding validate
validate_sound html s count b h = loop_sound (length s) html s count b h
