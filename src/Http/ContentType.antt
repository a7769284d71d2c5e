-- ===== src/Http/ContentType.antt =====
-- src/http_content_type.cpp: the media type of a header with its parameters.
pub mod Printed
use cppcms.Prelude.{ℕ, zero, suc, Option, none, some, List, [], ◌∷◌, ◌++◌, Bytes, length, lookup}
use mathlib.Core.List.{map}
use cppcms.Http.Protocol.{skip_ws, ascii_to_lower}
use cppcms.Http.Scanner.{◌>>=◌, expect, some_left, word, value}

-- struct content_type::data
pub record ContentType : Type 0 where
  pub type : Bytes
  pub subtype : Bytes
  pub media_type : Bytes
  pub parameters : List (Bytes × Bytes)

abbrev pub no_type : ContentType
no_type = record { type = []; subtype = []; media_type = []; parameters = [] }

-- One round of the loop over the parameters: name, value and the rest of the range.
unfoldable pub parameter : Bytes → Option (Bytes × Bytes × Bytes)
unfolding skip_ws word value
parameter begin = do
  semicolon ← expect b';' (skip_ws begin)
  start ← some_left (skip_ws semicolon)
  (param, param_end) ← word start
  equals ← expect b'=' (skip_ws param_end)
  quoted ← some_left (skip_ws equals)
  (text, rest) ← value quoted
  some (map ascii_to_lower param, text, rest)

-- `parameters.insert`: the first value of a name stays.
unfoldable pub insert_new : Bytes → Bytes → List (Bytes × Bytes) → List (Bytes × Bytes)
insert_new k v m = elim (lookup k m) [ none ↦ (k, v) ∷ m | some w ↦ m ]

-- Each round takes a character at least.
unfoldable pub parameters_loop : ℕ → Bytes → List (Bytes × Bytes) → List (Bytes × Bytes)
unfolding parameter insert_new
parameters_loop fuel [] m = m
parameters_loop zero (c ∷ s) m = m
parameters_loop (suc fuel) (c ∷ s) m = elim (parameter (c ∷ s)) [
  | none ↦ m
  | some (name, text, rest) ↦ parameters_loop fuel rest (insert_new name text m)
]

-- The part of `parse` before the loop: type, subtype and the rest of the range.
unfoldable pub media : Bytes → Option (Bytes × Bytes × Bytes)
unfolding skip_ws word
media begin = do
  start ← some_left (skip_ws begin)
  (type, type_end) ← word start
  slash ← expect b'/' type_end
  (subtype, subtype_end) ← word slash
  some (map ascii_to_lower type, map ascii_to_lower subtype, subtype_end)

unfoldable pub parse : Bytes → ContentType
unfolding media parameters_loop
parse s = elim (media s) [
  | none ↦ no_type
  | some (type, subtype, rest) ↦ record {
    type = type;
    subtype = subtype;
    media_type = type ++ b'/' ∷ subtype;
    parameters = parameters_loop (length rest) rest [];
  }
]

unfoldable pub parameter_by_key : Bytes → ContentType → Bytes
parameter_by_key key t = elim (lookup key t.parameters) [ none ↦ [] | some v ↦ v ]
