-- ===== src/Archive/Containers.antt =====
-- cppcms/archive_traits.h: the traits of strings, sizes, pairs and containers.
use cppcms.Prelude.{
  ℕ, ◌+◌, ◌^◌, ◌<◌, ◌≡◌, refl, sym, ap, ◌∙◌, true, List, [], ◌∷◌, ◌++◌, append-nil, append_assoc,
  arith, Bytes, length, length-append, All, le_bytes, read_le, read_le-le_bytes_8,
}
use cppcms.Archive.{
  Archive, Mode, Result, value, new_archive, write_chunk, read_chunk_as_string, eof, set_mode,
  load_from_archive,
}
use cppcms.Archive.Chunks.{read_chunk_as_string-chunk, read_chunk-chunk}
use cppcms.Archive.Traits.{
  Traits, IsTraits, then_read, string_traits, load_size, size_traits, load_pair, pair_traits,
  save_items, save_container, load_items, load_container, container_traits, at_ptr,
}

abbrev pub chunk : Bytes → Bytes
chunk s = le_bytes 4 (length s) ++ s

pub moved :
    (m : Mode) (before c rest : Bytes)
    → record { buffer = before ++ (c ++ rest); ptr = length before + length c; mode = m }
      ≡ at_ptr m (before ++ c) rest
moved m before c rest =
    ap (λ b. record { buffer = b; ptr = length before + length c; mode = m })
      (sym (append_assoc before c rest))
    ∙ ap (λ n. record { buffer = (before ++ c) ++ rest; ptr = n; mode = m })
        (sym (length-append before c))

pub save_chunk :
    (s : Bytes) (a : Archive) → write_chunk s a ≡ record a { buffer = a.buffer ++ chunk s }
unfolding write_chunk
save_chunk s a = refl

pub load_string :
    (m : Mode) (s before rest : Bytes)
    → length s < 2 ^ 32
    → length (before ++ (chunk s ++ rest)) < 2 ^ 63
    → read_chunk_as_string (at_ptr m before (chunk s ++ rest))
      ≡ value s (at_ptr m (before ++ chunk s) rest)
load_string m s before rest small fits =
    read_chunk_as_string-chunk m before s rest small fits
    ∙ ap (value s) (moved m before (chunk s) rest)

abbrev pub string_traits-IsTraits : IsTraits string_traits
string_traits-IsTraits = record {
  Fits = λ s. length s < 2 ^ 32;
  encode = chunk;
  save_encode = save_chunk;
  load-encode = load_string;
}

pub load_size-le_bytes :
    (m : Mode) (n : ℕ) (before rest : Bytes)
    → n < 2 ^ 64
    → length (before ++ (chunk (le_bytes 8 n) ++ rest)) < 2 ^ 63
    → load_size (at_ptr m before (chunk (le_bytes 8 n) ++ rest))
      ≡ value n (at_ptr m (before ++ chunk (le_bytes 8 n)) rest)
unfolding load_size then_read
load_size-le_bytes m n before rest small fits =
    ap (λ r. then_read r (λ s. value (read_le 8 s)))
      (read_chunk-chunk m before (le_bytes 8 n) rest (omega arith) fits
        ∙ ap (value (le_bytes 8 n)) (moved m before (chunk (le_bytes 8 n)) rest))
    ∙ ap (λ k. value k (at_ptr m (before ++ chunk (le_bytes 8 n)) rest))
        (read_le-le_bytes_8 n [] small)

abbrev pub size_traits-IsTraits : IsTraits size_traits
size_traits-IsTraits = record {
  Fits = λ n. n < 2 ^ 64;
  encode = λ n. chunk (le_bytes 8 n);
  save_encode = λ n. save_chunk (le_bytes 8 n);
  load-encode = load_size-le_bytes;
}

abbrev with_buffer : Archive → Bytes → Archive
with_buffer a s = record a { buffer = s }

abbrev append_to : Bytes → Archive → Archive
append_to s a = record a { buffer = a.buffer ++ s }

fits_first :
    (before a b rest : Bytes)
    → length (before ++ ((a ++ b) ++ rest)) < 2 ^ 63
    → length (before ++ (a ++ (b ++ rest))) < 2 ^ 63
fits_first before a b rest fits =
    omega (arith, ap (λ s. length (before ++ s)) (append_assoc a b rest))

-- Two reads in a row, of a text in two parts.
module _ {A B : Type 0} (m : Mode) (before a b rest : Bytes)
    (fits : length (before ++ ((a ++ b) ++ rest)) < 2 ^ 63) where
  reads :
      (first : Archive → Result A) (second : A → Archive → Result B) (x : A) (y : B)
      → (length (before ++ (a ++ (b ++ rest))) < 2 ^ 63
          → first (at_ptr m before (a ++ (b ++ rest)))
            ≡ value x (at_ptr m (before ++ a) (b ++ rest)))
      → (length ((before ++ a) ++ (b ++ rest)) < 2 ^ 63
          → second x (at_ptr m (before ++ a) (b ++ rest))
            ≡ value y (at_ptr m ((before ++ a) ++ b) rest))
      → then_read (first (at_ptr m before ((a ++ b) ++ rest))) second
        ≡ value y (at_ptr m (before ++ (a ++ b)) rest)
  unfolding then_read
  reads first second x y f g =
      ap (λ s. then_read (first (at_ptr m before s)) second) (append_assoc a b rest)
      ∙ ap (λ r. then_read r second) (f first_fits)
      ∙ g second_fits
      ∙ ap (λ s. value y (at_ptr m s rest)) (append_assoc before a b)
    where
      first_fits : length (before ++ (a ++ (b ++ rest))) < 2 ^ 63
      first_fits = fits_first before a b rest fits

      second_fits : length ((before ++ a) ++ (b ++ rest)) < 2 ^ 63
      second_fits = omega (arith, first_fits, ap length (append_assoc before a (b ++ rest)))

module _ {A B : Type 0} (t : Traits A) (v : IsTraits t) (u : Traits B) (w : IsTraits u) where
  pub save_both :
      (x : A) (y : B) (a : Archive)
      → u.save y (t.save x a) ≡ record a { buffer = a.buffer ++ (v.encode x ++ w.encode y) }
  save_both x y a =
      w.save_encode y (t.save x a)
      ∙ ap (append_to (w.encode y)) (v.save_encode x a)
      ∙ ap (with_buffer a) (append_assoc a.buffer (v.encode x) (w.encode y))

  pub load_both :
      (m : Mode) (x : A) (y : B) (before rest : Bytes)
      → v.Fits x
      → w.Fits y
      → length (before ++ ((v.encode x ++ w.encode y) ++ rest)) < 2 ^ 63
      → load_pair t u (at_ptr m before ((v.encode x ++ w.encode y) ++ rest))
        ≡ value (x, y) (at_ptr m (before ++ (v.encode x ++ w.encode y)) rest)
  unfolding load_pair then_read
  load_both m x y before rest fx fy fits =
      reads m before (v.encode x) (w.encode y) rest fits t.load
        (λ x' b. then_read (u.load b) (λ y'. value (x', y'))) x (x, y)
        (v.load-encode m x before (w.encode y ++ rest) fx)
        (λ h.
          ap (λ r. then_read r (λ y'. value (x, y')))
            (w.load-encode m y (before ++ v.encode x) rest fy h))

  abbrev pub pair_traits-IsTraits : IsTraits (pair_traits t u)
  pair_traits-IsTraits = record {
    Fits = λ p. v.Fits p.0 × w.Fits p.1;
    encode = λ p. v.encode p.0 ++ w.encode p.1;
    save_encode = λ p a. save_both p.0 p.1 a;
    load-encode = λ m p before rest f. load_both m p.0 p.1 before rest f.0 f.1;
  }

module _ {A : Type 0} (t : Traits A) (v : IsTraits t) where
  abbrev pub items : List A → Bytes
  items [] = []
  items (x ∷ l) = v.encode x ++ items l

  save_items_lem :
      (l : List A) (a : Archive) → save_items t l a ≡ record a { buffer = a.buffer ++ items l }
  unfolding save_items
  save_items_lem [] a = ap (with_buffer a) (sym (append-nil a.buffer))
  save_items_lem (x ∷ l) a =
      save_items_lem l (t.save x a)
      ∙ ap (append_to (items l)) (v.save_encode x a)
      ∙ ap (with_buffer a) (append_assoc a.buffer (v.encode x) (items l))

  load_items_lem :
      (m : Mode) (l : List A) (before rest : Bytes)
      → All v.Fits l
      → length (before ++ (items l ++ rest)) < 2 ^ 63
      → load_items t (length l) (at_ptr m before (items l ++ rest))
        ≡ value l (at_ptr m (before ++ items l) rest)
  unfolding load_items then_read
  load_items_lem m [] before rest f fits =
      ap (λ s. value [] (at_ptr m s rest)) (sym (append-nil before))
  load_items_lem m (x ∷ l) before rest (fx, f) fits =
      reads m before (v.encode x) (items l) rest fits t.load
        (λ x' b. then_read (load_items t (length l) b) (λ l'. value (x' ∷ l'))) x (x ∷ l)
        (v.load-encode m x before (items l ++ rest) fx)
        (λ h.
          ap (λ r. then_read r (λ l'. value (x ∷ l')))
            (load_items_lem m l (before ++ v.encode x) rest f h))

  pub load_container_lem :
      (m : Mode) (l : List A) (before rest : Bytes)
      → (length l < 2 ^ 64) × All v.Fits l
      → length (before ++ ((chunk (le_bytes 8 (length l)) ++ items l) ++ rest)) < 2 ^ 63
      → load_container t (at_ptr m before ((chunk (le_bytes 8 (length l)) ++ items l) ++ rest))
        ≡ value l (at_ptr m (before ++ (chunk (le_bytes 8 (length l)) ++ items l)) rest)
  unfolding load_container
  load_container_lem m l before rest (n, f) fits =
      reads m before (chunk (le_bytes 8 (length l))) (items l) rest fits load_size
        (λ k. load_items t k) (length l) l
        (load_size-le_bytes m (length l) before (items l ++ rest) n)
        (load_items_lem m l (before ++ chunk (le_bytes 8 (length l))) rest f)

  pub save_container_lem :
      (l : List A) (a : Archive)
      → save_container t l a
        ≡ record a { buffer = a.buffer ++ (chunk (le_bytes 8 (length l)) ++ items l) }
  unfolding save_container write_chunk
  save_container_lem l a =
      save_items_lem l _
      ∙ ap (with_buffer a) (append_assoc a.buffer (chunk (le_bytes 8 (length l))) (items l))

  abbrev pub container_traits-IsTraits : IsTraits (container_traits t)
  container_traits-IsTraits = record {
    Fits = λ l. (length l < 2 ^ 64) × All v.Fits l;
    encode = λ l. chunk (le_bytes 8 (length l)) ++ items l;
    save_encode = save_container_lem;
    load-encode = load_container_lem;
  }

-- A new archive with one value, opened again.
open_saved :
    {A : Type 0} (t : Traits A) (v : IsTraits t) (x : A)
    → v.Fits x
    → length (t.save x new_archive).buffer < 2 ^ 63
    → (b : Archive) × (t.load (set_mode load_from_archive (t.save x new_archive)) ≡ value x b)
      × (eof b ≡ true)
unfolding set_mode eof
open_saved t v x f fits =
    let saved = v.save_encode x new_archive in
    let same_text : (t.save x new_archive).buffer ≡ v.encode x ++ [] =
      ap (λ a. a.buffer) saved ∙ sym (append-nil (v.encode x)) in
    (
      at_ptr load_from_archive (v.encode x) [],
      ap (λ s. t.load (at_ptr load_from_archive [] s)) same_text
          ∙ v.load-encode load_from_archive x [] [] f (omega (arith, ap length same_text)),
      ground (arith, length-append (v.encode x) []),
    )

-- A container that is saved to a new archive is loaded from it again, and the archive is then at its
-- end: for elements of any type with traits that keep their promise, if each element fits, there are
-- fewer than 2^64, and the archive has fewer than 2^63 bytes.
pub load_container-save_container :
    {A : Type 0} (t : Traits A) (v : IsTraits t) (l : List A)
    → length l < 2 ^ 64
    → All v.Fits l
    → length (save_container t l new_archive).buffer < 2 ^ 63
    → (b : Archive) × (load_container t
          (set_mode load_from_archive (save_container t l new_archive))
        ≡ value l b)
      × (eof b ≡ true)
load_container-save_container t v l n f fits =
    open_saved (container_traits t) (container_traits-IsTraits t v) l (n, f) fits
