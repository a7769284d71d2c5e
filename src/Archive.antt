-- ===== src/Archive.antt =====
-- src/archive.cpp: class archive, a text of chunks with their sizes in front. A std::string has a
-- zero byte behind its end, which may be read too.
pub mod Chunks
pub mod Traits
pub mod Containers
use cppcms.Prelude.{
  ℕ, zero, suc, ◌+◌, ◌-◌, ◌*◌, ◌/◌, ◌%◌, ◌^◌, ◌≤◌, ◌<◌, ◌≡◌, refl, sym, ap, ◌∙◌, ◌≢◌, ◌↔◌, ◌⊎◌, inl,
  inr, Bool, true, false, not, ◌&&◌, ◌||◌, Option, none, some, List, [], ◌∷◌, ◌++◌, append-nil,
  append_assoc, arith, ltb, leb, ◌==◌, if◌then◌else◌, within, ==_iff, Bool-cases, Option-cases,
  Bytes, codes, length, length-append, All, All-append, IsBytes, shr, shl, low_bits, take, drop,
  get_elem?, take-length-append, subst, same, same_iff, count, remove, count-remove, length-remove,
  lookup, erase, keys, lookup-erase, lookup-absent, KeysOnce, KeysOnce-tail, lookup_once,
  KeysOnce-put, lookup-cons, count-keys-erase, length-erase, length-take, drop-length-append,
  take-append-drop, length-drop, drop-drop, le_bytes, read_le, length-le_bytes, le_bytes-IsBytes,
  read_le-le_bytes_4, read_le-le_bytes_8,
}

pub data Mode : Type 0 where
  save_to_archive : Mode
  load_from_archive : Mode

pub record Archive : Type 0 where
  pub buffer : Bytes
  pub ptr : ℕ
  pub mode : Mode

-- What reading gives: a value and the archive behind it, an exception, or what it takes from
-- outside of the buffer.
pub data Result (A : Type 0) : Type 0 where
  value : A → Archive → Result A
  archive_error : Result A
  outside : Result A

abbrev pub new_archive : Archive
new_archive = record { buffer = []; ptr = 0; mode = save_to_archive }

unfoldable pub write_chunk : Bytes → Archive → Archive
write_chunk s a = record a { buffer = a.buffer ++ (le_bytes 4 (length s) ++ s) }

unfoldable pub eof : Archive → Bool
eof a = leb (length a.buffer) a.ptr

-- `none` is the exception. `ptr_ + size` is a 64-bit number.
unfoldable pub next_chunk_size : Archive → Option ℕ
unfolding eof
next_chunk_size a =
    let size = read_le 4 (drop a.ptr a.buffer) in
    let past = (a.ptr + size) % 2 ^ 64 in
    if eof a
    then none
    else if ltb (length a.buffer - a.ptr) 4
    then none
    else if ltb past a.ptr || leb (length a.buffer) past
    then none
    else some size

-- The copy of the bytes behind the size, and the pointer behind them.
unfoldable pub copy_chunk : ℕ → Archive → Result Bytes
copy_chunk size a =
    if ltb (length a.buffer + 1) (a.ptr + 4 + size)
    then outside
    else value (take size (drop (a.ptr + 4) (a.buffer ++ (0 ∷ []))))
        (record a { ptr = a.ptr + 4 + size })

unfoldable pub read_chunk : ℕ → Archive → Result Bytes
unfolding next_chunk_size copy_chunk
read_chunk len a = elim (next_chunk_size a) [
  | none ↦ archive_error
  | some next ↦ if not (next == len) then archive_error else copy_chunk len a
]

unfoldable pub read_chunk_as_string : Archive → Result Bytes
unfolding next_chunk_size copy_chunk
read_chunk_as_string a = elim (next_chunk_size a) [
  | none ↦ archive_error
  | some size ↦ copy_chunk size a
]

-- mode(m), reset() and str(str)
unfoldable pub set_mode : Mode → Archive → Archive
set_mode m a = record a { mode = m; ptr = 0 }

unfoldable pub reset : Archive → Archive
reset a = record a { ptr = 0 }

unfoldable pub set_str : Bytes → Archive → Archive
set_str s a = record { buffer = s; ptr = 0; mode = load_from_archive }
