-- ===== src/Session/Packing.antt =====
-- src/session_interface.cpp: struct packed, save_data and load_data, which turn the values of a
-- session into a text and back. std::map is a list of the entries with their keys. The bit fields
-- lie in a 32-bit word from its low end.
pub mod RoundTrip
use cppcms.Prelude.{
  ℕ, zero, suc, ◌+◌, ◌-◌, ◌*◌, ◌/◌, ◌%◌, ◌^◌, ◌≤◌, ◌<◌, ◌≡◌, refl, sym, ap, ◌∙◌, ◌≢◌, ◌↔◌, ◌⊎◌, inl,
  inr, Bool, true, false, not, ◌&&◌, ◌||◌, Option, none, some, List, [], ◌∷◌, ◌++◌, append-nil,
  append_assoc, arith, ltb, leb, ◌==◌, if◌then◌else◌, within, ==_iff, Bool-cases, Option-cases,
  Bytes, codes, length, length-append, All, All-append, IsBytes, shr, shl, low_bits, take, drop,
  get_elem?, take-length-append, subst, same, same_iff, count, remove, count-remove, length-remove,
  lookup, erase, keys, lookup-erase, lookup-cons, count-keys-erase, length-erase, length-take,
  drop-length-append, take-append-drop, length-drop, drop-drop, le_bytes, read_le, length-le_bytes,
  le_bytes-IsBytes, read_le-le_bytes_4, read_le-le_bytes_8,
}
use cppcms.Http.Scanner.{◌>>=◌}

-- struct session_interface::entry
pub record Entry : Type 0 where
  pub value : Bytes
  pub exposed : Bool

-- A size_t that is passed for an unsigned.
abbrev pub as_unsigned : ℕ → ℕ
as_unsigned n = n % 2 ^ 32

-- packed(ks,exp,ds) of unsigned numbers, as the four bytes that are appended; `none` is the
-- exception.
unfoldable pub pack : ℕ → Bool → ℕ → Option Bytes
pack ks exp ds =
    if leb 1024 ks
    then none
    else if leb (1024 * 1024 * 2) ds
    then none
    else some (le_bytes 4 (ks + (if exp then 1024 else 0) + ds * 2048))

-- packed(start,end): the fields key_size, exposed and data_size.
unfoldable pub unpack : Bytes → Option (ℕ × Bool × ℕ)
unpack s =
    if leb 4 (length s)
    then (let word = read_le 4 s in some (word % 1024, (word / 1024) % 2 == 1, word / 2048))
    else none

unfoldable pub save_entry : Bytes → Entry → Option Bytes
unfolding pack
save_entry key e = do
  header ← pack (as_unsigned (length key)) e.exposed (as_unsigned (length e.value))
  some (header ++ (key ++ e.value))

unfoldable pub save_data : List (Bytes × Entry) → Option Bytes
unfolding save_entry
save_data [] = some []
save_data ((key, e) ∷ content) = do
  first ← save_entry key e
  rest ← save_data content
  some (first ++ rest)

-- The part of a round of load_data behind the header: key, entry and the rest of the text.
unfoldable pub cut_entry : ℕ → Bool → ℕ → Bytes → Option (Bytes × Entry × Bytes)
cut_entry key_size exposed data_size begin =
    if leb (key_size + data_size) (length begin)
    then some (
      take key_size begin,
      record { value = take data_size (drop key_size begin); exposed = exposed },
      drop data_size (drop key_size begin),
    )
    else none

unfoldable pub load_entry : Bytes → Option (Bytes × Entry × Bytes)
unfolding unpack cut_entry
load_entry begin = do
  (key_size, exposed, data_size) ← unpack begin
  cut_entry key_size exposed data_size (drop 4 begin)

-- Each round takes four bytes at least. `data[key]` is set to the entry.
unfoldable pub load_loop : ℕ → Bytes → List (Bytes × Entry) → Option (List (Bytes × Entry))
unfolding load_entry
load_loop fuel [] content = some content
load_loop zero (c ∷ s) content = none
load_loop (suc fuel) (c ∷ s) content = elim (load_entry (c ∷ s)) [
  | none ↦ none
  | some (key, e, rest) ↦ load_loop fuel rest ((key, e) ∷ erase key content)
]

unfoldable pub load_data : Bytes → Option (List (Bytes × Entry))
unfolding load_loop
load_data s = load_loop (length s) s []
