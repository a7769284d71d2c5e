-- ===== src/Session/MemoryStorage.antt =====
-- src/session_memory_storage.cpp: class session_memory_storage. The lock makes each operation one
-- step; the clock is an argument.
use cppcms.Prelude.{
  ℕ, zero, suc, ◌≤◌, ◌<◌, ◌≡◌, refl, ap, ◌∙◌, inl, inr, Option, none, some, List, [], ◌∷◌, arith,
  ltb, if◌then◌else◌, Bool-cases, Option-cases, Bytes, same, same_iff, lookup, erase, lookup-erase,
}
use cppcms.Multimap.{
  erase_timeout, insert_timeout, times_of, times_of-erase_timeout, times_of-insert_timeout,
}
use cppcms.Session.Storage.{Storage}

-- struct _data; `timeout_ptr` is the place of the key in the multimap.
pub record Entry : Type 0 where
  pub timeout : ℕ
  pub info : Bytes

pub record Memory : Type 0 where
  pub map : List (Bytes × Entry)
  pub timeout : List (ℕ × Bytes)

abbrev pub empty : Memory
empty = record { map = []; timeout = [] }

-- The loop of short_gc, with the rounds that are left.
unfoldable pub gc_loop : ℕ → ℕ → List (ℕ × Bytes) → List (Bytes × Entry) → Memory
gc_loop zero now timeout map = record { map = map; timeout = timeout }
gc_loop (suc n) now [] map = record { map = map; timeout = [] }
gc_loop (suc n) now ((t, k) ∷ timeout) map =
    let next = gc_loop n now timeout (erase k map) in
    if ltb t now then next else record { map = map; timeout = (t, k) ∷ timeout }

unfoldable pub short_gc : ℕ → Memory → Memory
unfolding gc_loop
short_gc now s = gc_loop 5 now s.timeout s.map

-- The part of `save` before short_gc.
unfoldable pub put : Bytes → ℕ → Bytes → Memory → Memory
unfolding insert_timeout erase_timeout
put key to text s = elim (lookup key s.map) [
  | none ↦ record {
    map = (key, record { timeout = to; info = text }) ∷ s.map;
    timeout = insert_timeout to key s.timeout;
  }
  | some p ↦ record {
    map = (key, record { timeout = to; info = text }) ∷ erase key s.map;
    timeout = insert_timeout to key (erase_timeout key s.timeout);
  }
]

unfoldable pub save : ℕ → Bytes → ℕ → Bytes → Memory → Memory
save now key to text s = short_gc now (put key to text s)

unfoldable pub found : ℕ → Option Entry → Option (Bytes × ℕ)
found now none = none
found now (some p) = if ltb p.timeout now then none else some (p.info, p.timeout)

unfoldable pub load : ℕ → Bytes → Memory → Option (Bytes × ℕ)
load now key s = found now (lookup key s.map)

unfoldable pub take_out : Bytes → Memory → Memory
unfolding erase_timeout
take_out key s = record { map = erase key s.map; timeout = erase_timeout key s.timeout }

unfoldable pub remove : ℕ → Bytes → Memory → Memory
unfolding take_out
remove now key s = elim (lookup key s.map) [ none ↦ s | some p ↦ short_gc now (take_out key s) ]

abbrev pub times : Option Entry → List ℕ
times none = []
times (some p) = p.timeout ∷ []

-- Each entry stands in the multimap with its time, once, and nothing else does.
pub record IsValid (s : Memory) : Type 0 where
  pub in_timeout : (k : Bytes) → times_of k s.timeout ≡ times (lookup k s.map)

erased :
    (t : ℕ) (k : Bytes) (timeout : List (ℕ × Bytes)) (map : List (Bytes × Entry))
    → ((k' : Bytes) → times_of k' ((t, k) ∷ timeout) ≡ times (lookup k' map))
    → (j : Bytes) → times_of j timeout ≡ times (lookup j (erase k map))
erased t k timeout map v j =
    unfold times_of in ground (arith, v j, v k, lookup-erase j k map, same_iff j k, same_iff k k)

unseen :
    (t now later : ℕ) (j k : Bytes) (timeout : List (ℕ × Bytes)) (map : List (Bytes × Entry))
    → ((k' : Bytes) → times_of k' ((t, k) ∷ timeout) ≡ times (lookup k' map))
    → t < now
    → now ≤ later
    → found later (lookup j (erase k map)) ≡ found later (lookup j map)
unseen t now later j k timeout map v old le =
    unfold found times_of in ground (arith, v k, lookup-erase j k map, same_iff j k, same_iff k k)

-- What a round of short_gc erases is past its time, so `load` does not find it before or behind.
gc_loop-IsValid :
    (n now : ℕ) (timeout : List (ℕ × Bytes)) (map : List (Bytes × Entry))
    → ((k : Bytes) → times_of k timeout ≡ times (lookup k map))
    → IsValid (gc_loop n now timeout map)
unfolding gc_loop
gc_loop-IsValid zero now timeout map v = record { in_timeout = v }
gc_loop-IsValid (suc n) now [] map v = record { in_timeout = v }
gc_loop-IsValid (suc n) now ((t, k) ∷ timeout) map v = elim (Bool-cases (ltb t now)) [
  | inl old ↦
      rw (old, gc_loop) (gc_loop-IsValid n now timeout (erase k map) (erased t k timeout map v))
  | inr fresh ↦ rw (fresh, gc_loop) (record { in_timeout = v })
]

load-gc_loop :
    (n now later : ℕ) (j : Bytes) (timeout : List (ℕ × Bytes)) (map : List (Bytes × Entry))
    → ((k : Bytes) → times_of k timeout ≡ times (lookup k map))
    → now ≤ later
    → load later j (gc_loop n now timeout map) ≡ found later (lookup j map)
unfolding gc_loop load
load-gc_loop zero now later j timeout map v le = refl
load-gc_loop (suc n) now later j [] map v le = refl
load-gc_loop (suc n) now later j ((t, k) ∷ timeout) map v le = elim (Bool-cases (ltb t now)) [
  | inl old ↦
      rw (old, gc_loop)
        (load-gc_loop n now later j timeout (erase k map) (erased t k timeout map v) le
          ∙ unseen t now later j k timeout map v (ground arith) le)
  | inr fresh ↦ rw (fresh, gc_loop) refl
]

put-IsValid :
    (key : Bytes) (to : ℕ) (text : Bytes) (s : Memory) → IsValid s → IsValid (put key to text s)
unfolding put
put-IsValid key to text s v = elim (Option-cases (lookup key s.map)) [
  | inl e ↦
      rw (e, put)
        (record {
          in_timeout = λ j.
              unfold lookup in
              ground (
                arith,
                v.in_timeout j,
                v.in_timeout key,
                times_of-insert_timeout j key to s.timeout,
                same_iff j key,
              );
        })
  | inr (p, e) ↦
      rw (e, put)
        (record {
          in_timeout = λ j.
              unfold lookup in
              ground (
                arith,
                v.in_timeout j,
                v.in_timeout key,
                times_of-insert_timeout j key to (erase_timeout key s.timeout),
                times_of-erase_timeout j key s.timeout,
                times_of-erase_timeout key key s.timeout,
                lookup-erase j key s.map,
                same_iff j key,
                same_iff key key,
              );
        })
]

lookup-put :
    (j key : Bytes) (to : ℕ) (text : Bytes) (s : Memory)
    → lookup j (put key to text s).map
      ≡ (if same j key then some (record { timeout = to; info = text }) else lookup j s.map)
unfolding put lookup
lookup-put j key to text s = ground (arith, lookup-erase j key s.map)

take_out-IsValid : (key : Bytes) (s : Memory) → IsValid s → IsValid (take_out key s)
unfolding take_out
take_out-IsValid key s v = record {
  in_timeout = λ j. ground (
    arith,
    v.in_timeout j,
    times_of-erase_timeout j key s.timeout,
    lookup-erase j key s.map,
    same_iff j key,
  );
}

-- `save` keeps the entries and their times in step: each entry has its time in the multimap, once,
-- and no other key is there, also behind the collection that `save` ends with.
pub save-IsValid :
    (now : ℕ) (key : Bytes) (to : ℕ) (text : Bytes) (s : Memory)
    → IsValid s
    → IsValid (save now key to text s)
unfolding save short_gc
save-IsValid now key to text s v =
    let u = put-IsValid key to text s v in gc_loop-IsValid 5 now _ _ u.in_timeout

pub remove-IsValid : (now : ℕ) (key : Bytes) (s : Memory) → IsValid s → IsValid (remove now key s)
unfolding remove short_gc
remove-IsValid now key s v = elim (Option-cases (lookup key s.map)) [
  | inl e ↦ rw (e, remove) v
  | inr (p, e) ↦
      let u = take_out-IsValid key s v in rw (e, remove) (gc_loop-IsValid 5 now _ _ u.in_timeout)
]

-- In a valid storage a `load` after `save` finds the new value up to its time and then nothing, and
-- each other key as before: what short_gc drops on the way is past its time, so no later `load`
-- would have found it.
pub load-save_later :
    (now later : ℕ) (j key : Bytes) (to : ℕ) (text : Bytes) (s : Memory)
    → IsValid s
    → now ≤ later
    → load later j (save now key to text s)
      ≡ (if same j key then (if ltb to later then none else some (text, to)) else load later j s)
unfolding save short_gc
load-save_later now later j key to text s v le =
    load-gc_loop 5 now later j _ _ u.in_timeout le
    ∙ ap (found later) (lookup-put j key to text s)
    ∙ (unfold found load in ground arith)
  where
    u : IsValid (put key to text s)
    u = put-IsValid key to text s v

pub load-remove :
    (now later : ℕ) (j key : Bytes) (s : Memory)
    → IsValid s
    → now ≤ later
    → load later j (remove now key s) ≡ (if same j key then none else load later j s)
unfolding remove short_gc
load-remove now later j key s v le = elim (Option-cases (lookup key s.map)) [
  | inl e ↦ rw (e, remove) (unfold load found in ground (arith, same_iff j key))
  | inr (p, e) ↦
      rw (e, remove)
        (load-gc_loop 5 now later j _ _ u.in_timeout le
          ∙ (unfold load found take_out in ground (arith, lookup-erase j key s.map)))
]
  where
    u : IsValid (take_out key s)
    u = take_out-IsValid key s v

-- The storage keeps the promises of its interface.
abbrev pub memory : Storage
memory = record {
  State = Memory;
  Valid = IsValid;
  save = save;
  load = load;
  remove = remove;
  save_valid = save-IsValid;
  remove_valid = remove-IsValid;
  load-save = load-save_later;
  load-remove = load-remove;
}
