-- ===== src/Cache/Laws.antt =====
-- `store` and what a later `fetch` finds.
use cppcms.Cache.{
  Container, Cache, Setup, delete_node, check_limits, insert, store, fetch, all_triggers, gen_of,
  rise,
}
use cppcms.Cache.Invariant.{IsValid, tags}
use cppcms.Cache.Delete.{delete_node-IsValid, lookup-delete_node, lookup-rise}
use cppcms.Cache.Insert.{insert-IsValid, lookup-insert, size-insert}
use cppcms.Cache.Limits.{
  size-lt-limit, limit-delete_node, generation-delete_node, Trims, check_limits-Trims,
  size-delete_node,
}
use cppcms.Prelude.{
  ℕ, ◌≤◌, ◌<◌, ◌≡◌, refl, ◌∙◌, inl, inr, Option, none, some, List, arith, ltb, ◌==◌, if◌then◌else◌,
  Bool-cases, Bytes, same_iff, lookup,
}

-- What `fetch` returns for an entry that has not timed out.
fetch_found :
    (key : Bytes) (now : ℕ) (c : Cache) (e : Container)
    → lookup key c.primary ≡ some e
    → now ≤ e.timeout
    → (fetch key now c).0
      ≡ some (record {
        content = e.content;
        triggers = e.triggers;
        timeout = e.timeout;
        generation = e.generation;
      })
unfolding fetch
fetch_found key now c e h le = rw (h, fetch) (ground arith)

gen_of_kept :
    (gen : Option ℕ) (c d : Cache) → d.generation ≡ c.generation → gen_of gen d ≡ gen_of gen c
unfolding gen_of
gen_of_kept none c d h = h
gen_of_kept (some g) c d h = refl

module _ (setup : Setup) (now : ℕ) (key a : Bytes) (triggers_in : List Bytes) (t : ℕ)
    (gen : Option ℕ) (c : Cache) (v : IsValid c) where
  removed : Cache
  removed = delete_node key c

  trimmed : Cache
  trimmed = check_limits setup now removed

  trims : Trims setup now removed trimmed
  unfolding trimmed
  trims = check_limits-Trims setup now removed (unfold removed in delete_node-IsValid key c v)

  absent : lookup key trimmed.primary ≡ none
  absent =
      trims.nothing_new key
        (unfold removed in ground (arith, lookup-delete_node key key c, same_iff key key))

  -- `store` keeps the invariant, whether it inserts the entry or refuses it for the size limit.
  pub store-IsValid : IsValid (store setup now key a triggers_in t gen c)
  unfolding store removed trimmed
  store-IsValid = elim (Bool-cases (ltb setup.size_limit removed.size)) [
    | inl full ↦ rw full (delete_node-IsValid key c v)
    | inr room ↦ rw room (insert-IsValid key a triggers_in t gen trimmed trims.valid absent)
  ]

  -- `store` never leaves more entries than `limit`, if that is set and was met before.
  pub store_limit :
      0 < c.limit → c.size ≤ c.limit → (store setup now key a triggers_in t gen c).size ≤ c.limit
  unfolding store removed trimmed
  store_limit pos h = elim (Bool-cases (ltb setup.size_limit removed.size)) [
    | inl full ↦ rw full (omega (arith, size-delete_node key c))
    | inr room ↦ rw room (
        omega (
          arith,
          size-insert key a triggers_in t gen trimmed,
          size-lt-limit setup trimmed trims.below (omega (arith, kept)),
          kept,
        ))
  ]
    where
      kept : trimmed.limit ≡ c.limit
      kept = trims.limit_kept ∙ limit-delete_node key c

  -- Right after a `store` that the size limit lets through, a `fetch` at a time up to the timeout
  -- finds the data, the triggers (the key is one of them), the timeout and the generation.
  pub fetch-store :
      (later : ℕ)
      → (delete_node key c).size ≤ setup.size_limit
      → later ≤ t
      → (fetch key later (store setup now key a triggers_in t gen c)).0
        ≡ some (record {
          content = a;
          triggers = all_triggers key triggers_in;
          timeout = t;
          generation = gen_of gen c;
        })
  unfolding store removed trimmed
  fetch-store later h k = elim (Bool-cases (ltb setup.size_limit removed.size)) [
    | inl full ↦ absurd (ground arith)
    | inr room ↦ rw room (
        rw (← gen_of_kept gen c trimmed (trims.generation_kept ∙ generation-delete_node key c)) (
          fetch_found key later (insert key a triggers_in t gen trimmed) _
            (ground (arith, lookup-insert key key a triggers_in t gen trimmed, same_iff key key))
            k))
  ]

-- After `rise` of a trigger no `fetch` finds an entry that has it, and each other entry is found as
-- before: the answers to a `fetch` differ only in that.
pub fetch-rise :
    (key trigger : Bytes) (now : ℕ) (c : Cache)
    → IsValid c
    → (fetch key now (rise trigger c)).0
      ≡ (if tags trigger (lookup key c.primary) == 0 then (fetch key now c).0 else none)
unfolding fetch
fetch-rise key trigger now c v = elim (Bool-cases (tags trigger (lookup key c.primary) == 0)) [
  | inl other ↦ rw other (rw (lookup-rise key trigger c v, other, fetch) (ground arith))
  | inr hit ↦ rw hit (rw (lookup-rise key trigger c v, hit, fetch) refl)
]
