-- ===== src/Tests/Archive.antt =====
-- Archives of a few chunks.
use cppcms.Prelude.{
  ℕ, ◌+◌, ◌≤◌, ◌<◌, ◌≡◌, refl, ◌↔◌, true, List, [], ◌∷◌, arith, Bytes, codes, length, drop, read_le,
}
use cppcms.Archive.{
  Archive, value, outside, new_archive, write_chunk, eof, set_mode, load_from_archive,
  read_chunk_as_string,
}
use cppcms.Archive.Chunks.{read_chunk_as_string-outside_iff}
use cppcms.Archive.Traits.{string_traits, size_traits, pair_traits, save_container, load_container}
use cppcms.Archive.Containers.{
  string_traits-IsTraits, size_traits-IsTraits, pair_traits-IsTraits, load_container-save_container,
}

-- The size says five bytes, and two follow.
abbrev forged : Archive
forged = record { buffer = 5 ∷ 0 ∷ 0 ∷ 0 ∷ codes "ab"; ptr = 0; mode = load_from_archive }

read_chunk_as_string-outside_iff_example : (read_chunk_as_string forged ≡ outside) ↔ (
    (0 + 4 ≤ length forged.buffer)
    × (0 + read_le 4 (drop 0 forged.buffer) < length forged.buffer)
    × (length forged.buffer + 1 < 0 + 4 + read_le 4 (drop 0 forged.buffer)))
read_chunk_as_string-outside_iff_example =
    read_chunk_as_string-outside_iff forged (ground arith) (omega arith)

forged_outside : read_chunk_as_string forged ≡ outside
unfolding read_chunk_as_string
forged_outside = refl

abbrev counts : List (Bytes × ℕ)
counts = (codes "a", 1) ∷ (codes "bc", 300) ∷ []

load_container-save_container_example :
    (b : Archive) × (load_container (pair_traits string_traits size_traits) (
        set_mode load_from_archive
          (save_container (pair_traits string_traits size_traits) counts new_archive))
      ≡ value counts b)
    × (eof b ≡ true)
load_container-save_container_example =
    load_container-save_container (pair_traits string_traits size_traits)
      (pair_traits-IsTraits string_traits string_traits-IsTraits size_traits size_traits-IsTraits)
      counts (omega arith) ((omega arith, omega arith), ((omega arith, omega arith), tt))
      (unfold save_container write_chunk in omega arith)
