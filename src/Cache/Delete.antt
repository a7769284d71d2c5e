-- ===== src/Cache/Delete.antt =====
-- src/cache_storage.cpp: delete_node and the invariant.
use cppcms.Cache.{
  Container, Cache, trig_list, drop_triggers, delete_entry, delete_node, delete_all, rise, fetch,
}
use cppcms.Cache.Invariant.{IsValid, present, times, tags, count-drop_triggers, total-erase}
use cppcms.Multimap.{erase_timeout, times_of, times_of-erase_timeout}
use cppcms.Prelude.{
  ℕ, ◌≡◌, refl, inl, inr, none, some, List, [], ◌∷◌, arith, ltb, ◌==◌, if◌then◌else◌, Bool-cases,
  Option-cases, Bytes, same, same_iff, count, remove, count-remove, lookup, erase, keys,
  lookup-erase, count-keys-erase, length-erase,
}

present-erase :
    (k key : Bytes) (m : List (Bytes × Container))
    → present (lookup k (erase key m)) ≡ (if same k key then 0 else present (lookup k m))
unfolding present
present-erase k key m = ground (arith, lookup-erase k key m)

module _ (key : Bytes) (e : Container) (c : Cache) (v : IsValid c)
    (found : lookup key c.primary ≡ some e) where
  one : count key (keys c.primary) ≡ 1
  unfolding present
  one = ground (arith, v.one_entry key)

  in_lru_after : (k : Bytes) → count k (remove key c.lru) ≡ present (lookup k (erase key c.primary))
  unfolding present
  in_lru_after k =
      ground
        (arith, v.in_lru k, count-remove k key c.lru, lookup-erase k key c.primary, same_iff k key)

  in_timeout_after :
      (k : Bytes)
      → times_of k (erase_timeout key c.timeout) ≡ times (lookup k (erase key c.primary))
  unfolding times
  in_timeout_after k = ground (
    arith,
    v.in_timeout k,
    times_of-erase_timeout k key c.timeout,
    lookup-erase k key c.primary,
    same_iff k key,
  )

  in_triggers_after :
      (t k : Bytes)
      → count k (trig_list t (drop_triggers key e.triggers c.triggers))
        ≡ tags t (lookup k (erase key c.primary))
  unfolding tags
  in_triggers_after t k = ground (
    arith,
    v.in_triggers t k,
    count-drop_triggers t k key e.triggers c.triggers,
    lookup-erase k key c.primary,
    same_iff k key,
  )

  delete_entry-IsValid : IsValid (delete_entry key e c)
  unfolding delete_entry
  delete_entry-IsValid = record {
    one_entry = λ k.
        ground
          (arith, v.one_entry k, count-keys-erase k key c.primary, present-erase k key c.primary);
    in_lru = in_lru_after;
    in_timeout = in_timeout_after;
    in_triggers = in_triggers_after;
    sized = ground (arith, v.sized, length-erase key c.primary, one);
    triggers_counted = ground (arith, v.triggers_counted, total-erase key e c.primary one found);
  }

-- Deleting an entry keeps the invariant.
pub delete_node-IsValid : (key : Bytes) (c : Cache) → IsValid c → IsValid (delete_node key c)
unfolding delete_node
delete_node-IsValid key c v = elim (Option-cases (lookup key c.primary)) [
  | inl e ↦ rw (e, delete_node) v
  | inr (d, e) ↦ rw (e, delete_node) (delete_entry-IsValid key d c v e)
]

-- Deleting an entry makes a lookup of its key fail, and changes no other lookup.
pub lookup-delete_node :
    (j key : Bytes) (c : Cache)
    → lookup j (delete_node key c).primary ≡ (if same j key then none else lookup j c.primary)
unfolding delete_node delete_entry
lookup-delete_node j key c = elim (Option-cases (lookup key c.primary)) [
  | inl e ↦ rw (e, delete_node) (ground (arith, same_iff j key))
  | inr (d, e) ↦ rw (e, delete_node) (lookup-erase j key c.primary)
]

-- `lookup` behind the deletion of a list of keys.
pub lookup-delete_all :
    (j : Bytes) (kill_list : List Bytes) (c : Cache)
    → lookup j (delete_all kill_list c).primary
      ≡ (if count j kill_list == 0 then lookup j c.primary else none)
unfolding delete_all count
lookup-delete_all j [] c = refl
lookup-delete_all j (k ∷ l) c =
    ground (arith, lookup-delete_all j l (delete_node k c), lookup-delete_node j k c)

pub delete_all-IsValid :
    (kill_list : List Bytes) (c : Cache) → IsValid c → IsValid (delete_all kill_list c)
unfolding delete_all
delete_all-IsValid [] c v = v
delete_all-IsValid (k ∷ l) c v = delete_all-IsValid l (delete_node k c) (delete_node-IsValid k c v)

-- After `rise` of a trigger an entry is gone if it has that trigger, and stands as it was if not.
pub lookup-rise :
    (j trigger : Bytes) (c : Cache)
    → IsValid c
    → lookup j (rise trigger c).primary
      ≡ (if tags trigger (lookup j c.primary) == 0 then lookup j c.primary else none)
unfolding rise
lookup-rise j trigger c v =
    rw (lookup-delete_all j (trig_list trigger c.triggers) c, v.in_triggers trigger j) refl

-- `rise` keeps the invariant.
pub rise-IsValid : (trigger : Bytes) (c : Cache) → IsValid c → IsValid (rise trigger c)
unfolding rise
rise-IsValid trigger c v = delete_all-IsValid (trig_list trigger c.triggers) c v

-- `fetch` keeps the invariant: it moves the key to the front of `lru` and changes nothing else.
pub fetch-IsValid : (key : Bytes) (now : ℕ) (c : Cache) → IsValid c → IsValid (fetch key now c).1
unfolding fetch
fetch-IsValid key now c v = elim (Option-cases (lookup key c.primary)) [
  | inl e ↦ rw (e, fetch) v
  | inr (d, e) ↦ elim (Bool-cases (ltb d.timeout now)) [
    | inl old ↦ rw (e, fetch, old) v
    | inr fresh ↦
        rw (e, fetch, fresh)
          (record {
            one_entry = v.one_entry;
            in_lru = λ k. moved d e k;
            in_timeout = v.in_timeout;
            in_triggers = v.in_triggers;
            sized = v.sized;
            triggers_counted = v.triggers_counted;
          })
  ]
]
  where
    moved :
        (d : Container)
        → lookup key c.primary ≡ some d
        → (k : Bytes) → count k (key ∷ remove key c.lru) ≡ present (lookup k c.primary)
    moved d e k =
        unfold count present in
        ground (arith, count-remove k key c.lru, v.in_lru k, v.in_lru key, same_iff k key)
