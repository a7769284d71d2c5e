-- ===== src/Multimap.antt =====
-- std::multimap<time_t,pointer>, which the cache (src/cache_storage.cpp) and the session storage
-- (src/session_memory_storage.cpp) keep of the times at which their entries end: a list in the order
-- of the times. A pointer is the key of its entry, and an entry is in the map once at most.
use cppcms.Prelude.{ℕ, ◌≡◌, List, [], ◌∷◌, arith, leb, if◌then◌else◌, Bytes, drop, same, same_iff}

-- `timeout.erase(p->second.timeout)`: the element of the key.
unfoldable pub erase_timeout : Bytes → List (ℕ × Bytes) → List (ℕ × Bytes)
erase_timeout k [] = []
erase_timeout k ((t, j) ∷ m) = if same k j then m else (t, j) ∷ erase_timeout k m

-- `timeout.insert(...)`: behind the elements with the same time.
unfoldable pub insert_timeout : ℕ → Bytes → List (ℕ × Bytes) → List (ℕ × Bytes)
insert_timeout t k [] = (t, k) ∷ []
insert_timeout t k ((u, j) ∷ m) =
    let later = insert_timeout t k m in if leb u t then (u, j) ∷ later else (t, k) ∷ (u, j) ∷ m

-- The times at which the multimap holds a key.
unfoldable pub times_of : Bytes → List (ℕ × Bytes) → List ℕ
times_of k [] = []
times_of k ((t, j) ∷ m) = if same k j then t ∷ times_of k m else times_of k m

pub times_of-erase_timeout :
    (k key : Bytes) (m : List (ℕ × Bytes))
    → times_of k (erase_timeout key m)
      ≡ (if same k key then drop 1 (times_of k m) else times_of k m)
unfolding times_of erase_timeout
times_of-erase_timeout k key [] = ground arith
times_of-erase_timeout k key ((t, j) ∷ m) =
    ground (arith, times_of-erase_timeout k key m, same_iff k key, same_iff k j, same_iff key j)

pub times_of-insert_timeout :
    (k key : Bytes) (t : ℕ) (m : List (ℕ × Bytes))
    → times_of key m ≡ []
    → times_of k (insert_timeout t key m) ≡ (if same k key then t ∷ [] else times_of k m)
unfolding times_of insert_timeout
times_of-insert_timeout k key t [] h = ground arith
times_of-insert_timeout k key t ((u, j) ∷ m) h =
    ground (arith, times_of-insert_timeout k key t m, same_iff k key, same_iff k j, same_iff key j)
