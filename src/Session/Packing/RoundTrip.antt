-- ===== src/Session/Packing/RoundTrip.antt =====
-- src/session_interface.cpp: load_data against save_data.
use cppcms.Prelude.{
  ℕ, zero, suc, ◌+◌, ◌*◌, ◌/◌, ◌%◌, ◌^◌, ◌≤◌, ◌<◌, ◌≡◌, refl, sym, ap, ◌∙◌, Bool, true, false,
  Option, none, some, List, [], ◌∷◌, ◌++◌, append_assoc, arith, leb, ◌==◌, if◌then◌else◌, Bytes,
  length, length-append, drop, take-length-append, subst, same_iff, count, lookup, erase, keys,
  lookup-erase, lookup-absent, KeysOnce, drop-length-append, le_bytes, read_le-le_bytes_4,
}
use cppcms.Http.Scanner.{◌>>=◌}
use cppcms.Session.Packing.{
  Entry, as_unsigned, pack, unpack, save_entry, save_data, cut_entry, load_entry, load_loop,
  load_data,
}

abbrev exposed_bit : Bool → ℕ
exposed_bit exp = if exp then 1024 else 0

pack_tests :
    (long large : Bool) (s header : Bytes)
    → (if long then none else if large then none else some s) ≡ some header
    → (long ≡ false) × (large ≡ false) × (s ≡ header)
pack_tests true large s header h = absurd (ground arith)
pack_tests false true s header h = absurd (ground arith)
pack_tests false false s header h = (refl, refl, ground arith)

pack_fits :
    (ks : ℕ) (exp : Bool) (ds : ℕ) (header : Bytes)
    → pack ks exp ds ≡ some header
    → (ks < 1024) × (ds < 2 ^ 21) × (header ≡ le_bytes 4 (ks + exposed_bit exp + ds * 2048))
unfolding pack
pack_fits ks exp ds header h =
    let (short, small, e) =
      pack_tests (leb 1024 ks) (leb (1024 * 1024 * 2) ds)
        (le_bytes 4 (ks + exposed_bit exp + ds * 2048)) header h in
    (ground arith, ground arith, sym e)

word_fits :
    (ks : ℕ) (exp : Bool) (ds : ℕ)
    → ks < 1024
    → ds < 2 ^ 21
    → ks + exposed_bit exp + ds * 2048 < 2 ^ 32
word_fits ks true ds short small = omega arith
word_fits ks false ds short small = omega arith

fields :
    (ks : ℕ) (exp : Bool) (ds : ℕ)
    → ks < 1024
    → ((ks + exposed_bit exp + ds * 2048) % 1024 ≡ ks)
      × ((((ks + exposed_bit exp + ds * 2048) / 1024) % 2 == 1) ≡ exp)
      × ((ks + exposed_bit exp + ds * 2048) / 2048 ≡ ds)
fields ks true ds h = (omega arith, ground arith, omega arith)
fields ks false ds h = (omega arith, ground arith, omega arith)

unpack-le_bytes :
    (word : ℕ) (s : Bytes)
    → word < 2 ^ 32
    → unpack (le_bytes 4 word ++ s) ≡ some (word % 1024, (word / 1024) % 2 == 1, word / 2048)
unfolding unpack
unpack-le_bytes word s h = rw (read_le-le_bytes_4 word s h) (ground arith)

unpack-pack :
    (ks : ℕ) (exp : Bool) (ds : ℕ) (header s : Bytes)
    → pack ks exp ds ≡ some header
    → (unpack (header ++ s) ≡ some (ks, exp, ds)) × (drop 4 (header ++ s) ≡ s) × (length header ≡ 4)
unpack-pack ks exp ds header s h =
    let (short, small, e) = pack_fits ks exp ds header h in
    let (f, g, k) = fields ks exp ds short in
    rw e (
      unpack-le_bytes (ks + exposed_bit exp + ds * 2048) s (word_fits ks exp ds short small)
          ∙ (rw (f, g, k) refl),
      refl,
      refl,
    )

cut_entry-append :
    (key : Bytes) (e : Entry) (s : Bytes)
    → cut_entry (length key) e.exposed (length e.value) (key ++ (e.value ++ s)) ≡ some (key, e, s)
unfolding cut_entry
cut_entry-append key e s =
    rw
      (
        take-length-append key (e.value ++ s),
        drop-length-append key (e.value ++ s),
        take-length-append e.value s,
        drop-length-append e.value s,
      )
      (ground (arith, length-append key (e.value ++ s), length-append e.value s))

bind_some :
    {A B : Type 0} (x : Option A) (f : A → Option B) (r : B)
    → (x >>= f) ≡ some r
    → (y : A) × (x ≡ some y) × (f y ≡ some r)
bind_some none f r h = absurd (ground arith)
bind_some (some y) f r h = (y, refl, h)

save_entry_parts :
    (key : Bytes) (e : Entry) (first : Bytes)
    → save_entry key e ≡ some first
    → (header : Bytes) × (pack (as_unsigned (length key)) e.exposed (as_unsigned (length e.value))
        ≡ some header)
      × (header ++ (key ++ e.value) ≡ first)
unfolding save_entry
save_entry_parts key e first h =
    let (header, f, g) =
      bind_some (pack (as_unsigned (length key)) e.exposed (as_unsigned (length e.value))) _ first
        h in
    (header, f, ground arith)

save_data_parts :
    (key : Bytes) (e : Entry) (m : List (Bytes × Entry)) (s : Bytes)
    → save_data ((key, e) ∷ m) ≡ some s
    → (first rest : Bytes) × (save_entry key e ≡ some first)
      × (save_data m ≡ some rest)
      × (first ++ rest ≡ s)
unfolding save_data
save_data_parts key e m s h =
    let (first, f, g) = bind_some (save_entry key e) _ s h in
    let (rest, i, j) = bind_some (save_data m) _ s g in (first, rest, f, i, ground arith)

fits_unsigned :
    (header key value first : Bytes)
    → header ++ (key ++ value) ≡ first
    → length first < 2 ^ 32
    → (as_unsigned (length key) ≡ length key) × (as_unsigned (length value) ≡ length value)
fits_unsigned header key value first parts small =
    let sizes = ap length parts in
    (
      omega (arith, sizes, length-append header (key ++ value), length-append key value),
      omega (arith, sizes, length-append header (key ++ value), length-append key value),
    )

-- An entry is read back, with what follows it left over.
load_entry-save_entry :
    (key : Bytes) (e : Entry) (first s : Bytes)
    → save_entry key e ≡ some first
    → length first < 2 ^ 32
    → (load_entry (first ++ s) ≡ some (key, e, s)) × (4 ≤ length first)
unfolding load_entry
load_entry-save_entry key e first s h small =
    let (header, packed, parts) = save_entry_parts key e first h in
    let (key_fits, value_fits) = fits_unsigned header key e.value first parts small in
    let (f, g, k) =
      unpack-pack (length key) e.exposed (length e.value) header (key ++ (e.value ++ s)) (
        ap (λ n. pack n e.exposed (length e.value)) (sym key_fits)
        ∙ ap (pack (as_unsigned (length key)) e.exposed) (sym value_fits)
        ∙ packed) in
    let whole : first ++ s ≡ header ++ (key ++ (e.value ++ s)) =
      ap (λ x. x ++ s) (sym parts)
      ∙ append_assoc header (key ++ e.value) s
      ∙ ap (λ x. header ++ x) (append_assoc key e.value s) in
    (
      rw (whole, f, g) (cut_entry-append key e s),
      subst (λ x. 4 ≤ length x) parts (omega (arith, k, length-append header (key ++ e.value))),
    )

-- The map behind the assignments `data[key]=...` of a list of entries.
put_all : List (Bytes × Entry) → List (Bytes × Entry) → List (Bytes × Entry)
put_all [] content = content
put_all ((k, e) ∷ m) content = put_all m ((k, e) ∷ erase k content)

lookup-put_all :
    (j : Bytes) (m content : List (Bytes × Entry))
    → KeysOnce m
    → lookup j (put_all m content)
      ≡ (if count j (keys m) == 0 then lookup j content else lookup j m)
unfolding put_all lookup count
lookup-put_all j [] content h = refl
lookup-put_all j ((k, e) ∷ m) content h =
    let rest = lookup-put_all j m ((k, e) ∷ erase k content) (λ i. ground (arith, h i)) in
    rest ∙ ground (arith, lookup-erase j k content, same_iff j k, h j)

load_loop-round :
    (fuel : ℕ) (s : Bytes) (content : List (Bytes × Entry)) (key : Bytes) (e : Entry) (rest : Bytes)
    → load_entry s ≡ some (key, e, rest)
    → 0 < length s
    → load_loop (suc fuel) s content ≡ load_loop fuel rest ((key, e) ∷ erase key content)
unfolding load_loop
load_loop-round fuel [] content key e rest h long = absurd (omega arith)
load_loop-round fuel (c ∷ s) content key e rest h long = rw (h, load_loop) refl

load_loop-save_data :
    (fuel : ℕ) (m : List (Bytes × Entry)) (s : Bytes) (content : List (Bytes × Entry))
    → save_data m ≡ some s
    → length s < 2 ^ 32
    → length s ≤ fuel
    → load_loop fuel s content ≡ some (put_all m content)
unfolding put_all
load_loop-save_data fuel [] s content h small le =
    let done : [] ≡ s = unfold save_data in ground arith in rw (sym done) (unfold load_loop in refl)
load_loop-save_data zero ((k, e) ∷ m) s content h small le =
    let (first, rest, f, g, parts) = save_data_parts k e m s h in
    let sizes = ap length parts in
    let (loaded, four) =
      load_entry-save_entry k e first rest f (omega (arith, sizes, length-append first rest)) in
    absurd (omega (arith, ap length parts, length-append first rest))
load_loop-save_data (suc fuel) ((k, e) ∷ m) s content h small le =
    let (first, rest, f, g, parts) = save_data_parts k e m s h in
    let sizes = ap length parts in
    let (loaded, four) =
      load_entry-save_entry k e first rest f (omega (arith, sizes, length-append first rest)) in
    let size : length first + length rest ≡ length s =
      sym (length-append first rest) ∙ ap length parts in
    load_loop-round fuel s content k e rest
      (subst (λ x. load_entry x ≡ some (k, e, rest)) parts loaded) (omega arith)
    ∙ load_loop-save_data fuel m rest ((k, e) ∷ erase k content) g (omega arith) (omega arith)

-- Where every key of the map stands once and save_data writes fewer than 2^32 bytes, load_data
-- reads what save_data writes, and finds at every key the value and the flag that the map has
-- there.
pub load_data-save_data :
    (m : List (Bytes × Entry)) (s : Bytes)
    → KeysOnce m
    → save_data m ≡ some s
    → length s < 2 ^ 32
    → (d : List (Bytes × Entry)) × (load_data s ≡ some d) × ((j : Bytes) → lookup j d ≡ lookup j m)
load_data-save_data m s h saved small = (
  put_all m [],
  (unfold load_data in load_loop-save_data (length s) m s [] saved small (omega arith)),
  λ j.
      lookup-put_all j m [] h
      ∙ ground (arith, lookup-absent j m, lookup-absent {V = Entry} j [] (unfold count in refl)),
)
