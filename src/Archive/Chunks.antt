-- ===== src/Archive/Chunks.antt =====
-- Reading a chunk: what was written, and what the test of the size lets through.
use cppcms.Prelude.{
  ℕ, zero, suc, ◌+◌, ◌-◌, ◌%◌, ◌^◌, ◌≤◌, ◌<◌, ◌≡◌, refl, sym, ap, ◌∙◌, ◌↔◌, false, ◌||◌, none, some,
  [], ◌∷◌, ◌++◌, append_assoc, arith, ltb, leb, if◌then◌else◌, ==_iff, Bytes, length, length-append,
  IsBytes, take, drop, take-length-append, drop-length-append, drop-drop, le_bytes, read_le,
  read_le-le_bytes_4,
}
use cppcms.Archive.{
  Archive, value, archive_error, outside, Mode, eof, next_chunk_size, copy_chunk, read_chunk,
  read_chunk_as_string,
}

-- A chunk at the pointer, with something before it and behind it.
module _ (m : Mode) (before s rest : Bytes) (small : length s < 2 ^ 32)
    (fits : length (before ++ ((le_bytes 4 (length s) ++ s) ++ rest)) < 2 ^ 63) where
  abbrev pub at_chunk : Archive
  at_chunk = record {
    buffer = before ++ ((le_bytes 4 (length s) ++ s) ++ rest);
    ptr = length before;
    mode = m;
  }

  abbrev pub behind_chunk : Archive
  behind_chunk = record at_chunk { ptr = length before + length (le_bytes 4 (length s) ++ s) }

  size : length at_chunk.buffer ≡ length before + (4 + length s + length rest)
  size = omega (
    arith,
    length-append before ((le_bytes 4 (length s) ++ s) ++ rest),
    length-append (le_bytes 4 (length s) ++ s) rest,
    length-append (le_bytes 4 (length s)) s,
  )

  next : next_chunk_size at_chunk ≡ some (length s)
  unfolding next_chunk_size eof
  next =
      rw
        (
          drop-length-append before ((le_bytes 4 (length s) ++ s) ++ rest),
          append_assoc (le_bytes 4 (length s)) s rest,
          read_le-le_bytes_4 (length s) (s ++ rest) small,
        )
        (ground (arith, size))

  text : take (length s) (drop (length before + 4) (at_chunk.buffer ++ (0 ∷ []))) ≡ s
  text =
      ap (take (length s)) (
        sym (drop-drop (length before) 4 (at_chunk.buffer ++ (0 ∷ [])))
        ∙ ap (λ x. drop 4 (drop (length before) x))
            (append_assoc before ((le_bytes 4 (length s) ++ s) ++ rest) (0 ∷ []))
        ∙ ap (drop 4)
            (drop-length-append before (((le_bytes 4 (length s) ++ s) ++ rest) ++ (0 ∷ [])))
        ∙ append_assoc s rest (0 ∷ []))
      ∙ take-length-append s (rest ++ (0 ∷ []))

  copied : copy_chunk (length s) at_chunk ≡ value s behind_chunk
  unfolding copy_chunk
  copied =
      let short : ltb (length at_chunk.buffer + 1) (length before + 4 + length s) ≡ false =
        ground (arith, size) in
      let pointer : length before + 4 + length s
          ≡ length before + length (le_bytes 4 (length s) ++ s) =
        omega (arith, length-append (le_bytes 4 (length s)) s) in
      rw short (
        ap (λ x. value x (record at_chunk { ptr = length before + 4 + length s })) text
        ∙ ap (λ n. value s (record at_chunk { ptr = n })) pointer)

  -- A chunk is read as a string, and as so many bytes.
  pub read_chunk_as_string-chunk : read_chunk_as_string at_chunk ≡ value s behind_chunk
  unfolding read_chunk_as_string
  read_chunk_as_string-chunk = rw (next, read_chunk_as_string) copied

  pub read_chunk-chunk : read_chunk (length s) at_chunk ≡ value s behind_chunk
  unfolding read_chunk
  read_chunk-chunk = rw (next, read_chunk) (rw ((==_iff (length s) (length s)).1 refl) copied)

read_le-bound : (s : Bytes) → IsBytes s → read_le 4 s < 2 ^ 32
read_le-bound [] b = omega arith
read_le-bound (c ∷ []) (lt, b) = omega arith
read_le-bound (c ∷ d ∷ []) (lt, (mt, b)) = omega arith
read_le-bound (c ∷ d ∷ e ∷ []) (lt, (mt, (nt, b))) = omega arith
read_le-bound (c ∷ d ∷ e ∷ f ∷ s) (lt, (mt, (nt, (ot, b)))) = omega arith

drop-IsBytes : (n : ℕ) (s : Bytes) → IsBytes s → IsBytes (drop n s)
drop-IsBytes zero s b = b
drop-IsBytes (suc n) [] b = tt
drop-IsBytes (suc n) (c ∷ s) (lt, b) = drop-IsBytes n s b

-- The test of the size does not count the four bytes of the size itself. So of a buffer of fewer
-- than 2^63 bytes read_chunk_as_string reads outside, behind the zero byte, exactly where there is a
-- size at the pointer, and the buffer has the bytes that it says if the four bytes of the size are
-- counted among them, but not behind them, nor with the zero byte.
pub read_chunk_as_string-outside_iff :
    (a : Archive)
    → IsBytes a.buffer
    → length a.buffer < 2 ^ 63
    → (read_chunk_as_string a ≡ outside) ↔ (
        (a.ptr + 4 ≤ length a.buffer)
        × (a.ptr + read_le 4 (drop a.ptr a.buffer) < length a.buffer)
        × (length a.buffer + 1 < a.ptr + 4 + read_le 4 (drop a.ptr a.buffer)))
unfolding read_chunk_as_string next_chunk_size copy_chunk eof
read_chunk_as_string-outside_iff a b small =
    tests a.ptr (length a.buffer) (read_le 4 (drop a.ptr a.buffer))
      (λ n. take n (drop (a.ptr + 4) (a.buffer ++ (0 ∷ []))))
      (λ n. record a { ptr = a.ptr + 4 + n }) small
      (read_le-bound (drop a.ptr a.buffer) (drop-IsBytes a.ptr a.buffer b))
  where
    tests :
        (ptr len n : ℕ) (text : ℕ → Bytes) (behind : ℕ → Archive)
        → len < 2 ^ 63
        → n < 2 ^ 32
        → ((elim (if leb len ptr
              then none
              else if ltb (len - ptr) 4
              then none
              else if ltb ((ptr + n) % 2 ^ 64) ptr || leb len ((ptr + n) % 2 ^ 64)
              then none
              else some n) [
                | none ↦ archive_error
                | some m ↦
                    if ltb (len + 1) (ptr + 4 + m) then outside else value (text m) (behind m)
              ])
            ≡ outside)
          ↔ ((ptr + 4 ≤ len) × (ptr + n < len) × (len + 1 < ptr + 4 + n))
    tests ptr len n text behind short lt = ground arith
