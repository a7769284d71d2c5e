-- ===== src/Archive/Traits.antt =====
-- cppcms/archive_traits.h: how values of different types are written and read. What the traits of
-- a type promise is a record, and the traits of pairs and containers keep the promise if those of
-- their parts do.
use cppcms.Prelude.{
  ℕ, zero, suc, ◌^◌, ◌<◌, ◌≡◌, List, [], ◌∷◌, ◌++◌, Bytes, length, le_bytes, read_le,
}
use cppcms.Archive.{
  Archive, Mode, Result, value, archive_error, outside, write_chunk, read_chunk,
  read_chunk_as_string,
}

pub record Traits (A : Type 0) : Type 0 where
  pub save : A → Archive → Archive
  pub load : Archive → Result A

-- A step behind a read that gave a value.
unfoldable pub then_read : {A B : Type 0} → Result A → (A → Archive → Result B) → Result B
then_read (value x a) f = f x a
then_read archive_error f = archive_error
then_read outside f = outside

-- archive_traits<std::string>
abbrev pub string_traits : Traits Bytes
string_traits = record { save = write_chunk; load = read_chunk_as_string }

-- archive_traits<size_t> of 8 bytes.
unfoldable pub load_size : Archive → Result ℕ
unfolding then_read
load_size a = then_read (read_chunk 8 a) (λ s. value (read_le 8 s))

abbrev pub size_traits : Traits ℕ
size_traits = record { save = λ n. write_chunk (le_bytes 8 n); load = load_size }

module _ {A B : Type 0} (t : Traits A) (u : Traits B) where
  unfoldable pub load_pair : Archive → Result (A × B)
  unfolding then_read
  load_pair a = then_read (t.load a) (λ x b. then_read (u.load b) (λ y. value (x, y)))

  -- archive_traits<std::pair<F,S> >
  abbrev pub pair_traits : Traits (A × B)
  pair_traits = record { save = λ (x, y) a. u.save y (t.save x a); load = load_pair }

module _ {A : Type 0} (t : Traits A) where
  unfoldable pub save_items : List A → Archive → Archive
  save_items [] a = a
  save_items (x ∷ v) a = save_items v (t.save x a)

  -- archive_save_container
  unfoldable pub save_container : List A → Archive → Archive
  unfolding save_items
  save_container v a = save_items v (write_chunk (le_bytes 8 (length v)) a)

  unfoldable pub load_items : ℕ → Archive → Result (List A)
  unfolding then_read
  load_items zero a = value [] a
  load_items (suc n) a =
      then_read (t.load a) (λ x b. then_read (load_items n b) (λ v. value (x ∷ v)))

  -- archive_load_container
  unfoldable pub load_container : Archive → Result (List A)
  unfolding load_items load_size
  load_container a = then_read (load_size a) (λ n. load_items n)

  -- The traits of a container.
  abbrev pub container_traits : Traits (List A)
  container_traits = record { save = save_container; load = load_container }

-- The archive with the pointer between two parts of the buffer.
abbrev pub at_ptr : Mode → Bytes → Bytes → Archive
at_ptr m before s = record { buffer = before ++ s; ptr = length before; mode = m }

-- What traits promise: they put a text behind the buffer that depends on the value alone, and read
-- the value back from it, wherever it stands.
pub record IsTraits {A : Type 0} (t : Traits A) : Type 1 where
  pub Fits : A → Type 0
  pub encode : A → Bytes
  pub save_encode : (x : A) (a : Archive) → t.save x a ≡ record a { buffer = a.buffer ++ encode x }
  pub load-encode :
      (m : Mode) (x : A) (before rest : Bytes)
      → Fits x
      → length (before ++ (encode x ++ rest)) < 2 ^ 63
      → t.load (at_ptr m before (encode x ++ rest)) ≡ value x (at_ptr m (before ++ encode x) rest)
