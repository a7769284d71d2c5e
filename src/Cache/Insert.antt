-- ===== src/Cache/Insert.antt =====
-- src/cache_storage.cpp: the insertion of `store` and the room for it.
use cppcms.Cache.{
  Container, Cache, trig_list, add_trigger, add_triggers, all_triggers, insert, gen_of, gen_after,
}
use cppcms.Cache.Invariant.{IsValid, present, times, tags, total}
use cppcms.Multimap.{insert_timeout, times_of, times_of-insert_timeout}
use cppcms.Prelude.{
  ℕ, ◌+◌, ◌≡◌, refl, ◌∙◌, Option, none, some, List, [], ◌∷◌, arith, if◌then◌else◌, Bytes, length,
  same, same_iff, count, lookup, erase, keys, lookup-erase, lookup-cons,
}

-- add_trigger changes nothing but the triggers and their counter.
add_triggers-eq :
    (p : Bytes) (c : Cache) (l : List Bytes)
    → add_triggers p c l ≡ record c {
      triggers = (add_triggers p c l).triggers;
      triggers_count = c.triggers_count + length l;
    }
unfolding add_triggers
add_triggers-eq p c [] = ground arith
add_triggers-eq p c (t ∷ l) = ground (arith, add_triggers-eq p (add_trigger p c t) l)

trig_list-add_trigger :
    (t p u : Bytes) (c : Cache)
    → trig_list t (add_trigger p c u).triggers
      ≡ (if same t u then p ∷ trig_list u c.triggers else trig_list t c.triggers)
unfolding add_trigger trig_list
trig_list-add_trigger t p u c = ground (
  arith,
  lookup-cons t u (p ∷ trig_list u c.triggers) (erase u c.triggers),
  lookup-erase t u c.triggers,
)

count-add_triggers :
    (t k p : Bytes) (c : Cache) (l : List Bytes)
    → count k (trig_list t (add_triggers p c l).triggers)
      ≡ count k (trig_list t c.triggers) + (if same k p then count t l else 0)
unfolding add_triggers count
count-add_triggers t k p c [] = ground arith
count-add_triggers t k p c (u ∷ l) = ground (
  arith,
  count-add_triggers t k p (add_trigger p c u) l,
  trig_list-add_trigger t p u c,
  same_iff t u,
)

-- A key with no entry has no place anywhere.
module _ (key : Bytes) (e : Container) (c : Cache) (v : IsValid c)
    (absent : lookup key c.primary ≡ none) where
  in_timeout_after :
      (k : Bytes)
      → times_of k (insert_timeout e.timeout key c.timeout)
        ≡ times (lookup k ((key, e) ∷ c.primary))
  unfolding times lookup
  in_timeout_after k =
      ground
        (arith, times_of-insert_timeout k key e.timeout c.timeout, v.in_timeout key, v.in_timeout k)

  in_lru_after : (k : Bytes) → count k (key ∷ c.lru) ≡ present (lookup k ((key, e) ∷ c.primary))
  unfolding present lookup count
  in_lru_after k = ground (arith, v.in_lru k, v.in_lru key, same_iff k key)

  one_entry_after :
      (k : Bytes) → count k (key ∷ keys c.primary) ≡ present (lookup k ((key, e) ∷ c.primary))
  unfolding present lookup count
  one_entry_after k = ground (arith, v.one_entry k, v.one_entry key, same_iff k key)

  in_triggers_after :
      (t k : Bytes)
      → count k (trig_list t c.triggers) + (if same k key then count t e.triggers else 0)
        ≡ tags t (lookup k ((key, e) ∷ c.primary))
  unfolding tags lookup
  in_triggers_after t k = ground (arith, v.in_triggers t k, v.in_triggers t key, same_iff k key)

-- Inserting a key that has no entry keeps the invariant.
pub insert-IsValid :
    (key a : Bytes) (triggers_in : List Bytes) (t : ℕ) (gen : Option ℕ) (c : Cache)
    → IsValid c
    → lookup key c.primary ≡ none
    → IsValid (insert key a triggers_in t gen c)
unfolding insert
insert-IsValid key a triggers_in t gen c v absent = rw (add_triggers-eq key) (record {
  one_entry = one_entry_after key entry c v absent;
  in_lru = in_lru_after key entry c v absent;
  in_timeout = in_timeout_after key entry c v absent;
  in_triggers = λ u k.
      count-add_triggers u k key placed entry.triggers ∙ in_triggers_after key entry c v absent u k;
  sized = ground (arith, v.sized);
  triggers_counted = unfold total in ground (arith, v.triggers_counted);
})
  where
    entry : Container
    entry = record {
      content = a;
      triggers = all_triggers key triggers_in;
      timeout = t;
      generation = gen_of gen c;
    }

    placed : Cache
    placed = record c {
      primary = (key, entry) ∷ c.primary;
      size = c.size + 1;
      lru = key ∷ c.lru;
      timeout = insert_timeout t key c.timeout;
      generation = gen_after gen c;
    }

-- A new entry is found under its key, and the others as before.
pub lookup-insert :
    (j key a : Bytes) (triggers_in : List Bytes) (t : ℕ) (gen : Option ℕ) (c : Cache)
    → lookup j (insert key a triggers_in t gen c).primary ≡ (
        if same j key
        then some (record {
          content = a;
          triggers = all_triggers key triggers_in;
          timeout = t;
          generation = gen_of gen c;
        })
        else lookup j c.primary)
unfolding insert
lookup-insert j key a triggers_in t gen c = rw (add_triggers-eq key) (unfold lookup in refl)

pub size-insert :
    (key a : Bytes) (triggers_in : List Bytes) (t : ℕ) (gen : Option ℕ) (c : Cache)
    → (insert key a triggers_in t gen c).size ≡ c.size + 1
unfolding insert
size-insert key a triggers_in t gen c = rw (add_triggers-eq key) refl
