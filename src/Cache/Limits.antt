-- ===== src/Cache/Limits.antt =====
-- src/cache_storage.cpp: the loop of check_limits.
use cppcms.Cache.{
  Container, Cache, Setup, delete_entry, delete_node, last, victim_from, over_limits,
  check_limits_loop, check_limits,
}
use cppcms.Cache.Invariant.{IsValid, present, times}
use cppcms.Cache.Delete.{delete_node-IsValid, lookup-delete_node}
use mathlib.Core.List.{cons-ne-nil}
use cppcms.Multimap.{times_of}
use cppcms.Prelude.{
  ℕ, zero, suc, ◌-◌, ◌≤◌, ◌<◌, ◌≡◌, refl, ◌∙◌, inl, inr, true, false, none, some, List, [], ◌∷◌,
  arith, ltb, Bool-cases, Option-cases, Bytes, length, subst, same_iff, count, lookup,
}

last-count : (l : List Bytes) (k : Bytes) → last l ≡ some k → 0 < count k l
unfolding last count
last-count [] k h = cc
last-count (j ∷ []) k h = ground (arith, same_iff k j)
last-count (j ∷ i ∷ l) k h = ground (arith, last-count (i ∷ l) k)

last-none : (l : List Bytes) → last l ≡ none → l ≡ []
unfolding last
last-none [] h = refl
last-none (j ∷ []) h = cc
last-none (j ∷ i ∷ l) h = absurd (cons-ne-nil i l (last-none (i ∷ l) h))

module _ (now : ℕ) (c : Cache) (v : IsValid c) where
  present_of_lru : (k : Bytes) → last c.lru ≡ some k → present (lookup k c.primary) ≡ 1
  unfolding present
  present_of_lru k h = ground (arith, last-count c.lru k, v.in_lru k)

  present_of_timeout :
      (t : ℕ) (k : Bytes) (m : List (ℕ × Bytes))
      → c.timeout ≡ (t, k) ∷ m
      → present (lookup k c.primary) ≡ 1
  unfolding present times times_of
  present_of_timeout t k m e = ground (arith, v.in_timeout k, same_iff k k)

  -- What check_limits deletes has an entry.
  victim_present :
      (m : List (ℕ × Bytes)) (k : Bytes)
      → c.timeout ≡ m
      → victim_from m now c ≡ some k
      → present (lookup k c.primary) ≡ 1
  unfolding victim_from
  victim_present [] k e h = present_of_lru k h
  victim_present ((t, j) ∷ m) k e h = elim (Bool-cases (ltb t now)) [
    | inl old ↦
        let same_key : j ≡ k = ground arith in
        subst (λ i. present (lookup i c.primary) ≡ 1) same_key (present_of_timeout t j m e)
    | inr fresh ↦ present_of_lru k (ground arith)
  ]

  empty_of_lru : (m : List (Bytes × Container)) → c.primary ≡ m → c.lru ≡ [] → length m ≡ 0
  empty_of_lru [] p e = refl
  empty_of_lru ((k, d) ∷ m) p e =
      absurd (unfold present lookup count in ground (arith, v.in_lru k, same_iff k k))

  -- It finds nothing to delete only in an empty cache.
  victim_none : (m : List (ℕ × Bytes)) → victim_from m now c ≡ none → c.size ≡ 0
  unfolding victim_from
  victim_none [] h = v.sized ∙ empty_of_lru c.primary refl (last-none c.lru h)
  victim_none ((t, j) ∷ m) h =
      v.sized ∙ empty_of_lru c.primary refl (last-none c.lru (ground arith))

pub size-delete_node :
    (k : Bytes) (c : Cache) → (delete_node k c).size ≡ c.size - present (lookup k c.primary)
unfolding delete_node delete_entry present
size-delete_node k c = ground arith

pub generation-delete_node : (k : Bytes) (c : Cache) → (delete_node k c).generation ≡ c.generation
unfolding delete_node delete_entry
generation-delete_node k c = ground arith

pub limit-delete_node : (k : Bytes) (c : Cache) → (delete_node k c).limit ≡ c.limit
unfolding delete_node delete_entry
limit-delete_node k c = ground arith

module _ (setup : Setup) (now : ℕ) where
  -- What check_limits keeps of a cache, and that it gets below the limits.
  pub record Trims (c d : Cache) : Type 0 where
    pub valid : IsValid d
    pub below : over_limits setup d ≡ false
    pub limit_kept : d.limit ≡ c.limit
    pub generation_kept : d.generation ≡ c.generation
    pub nothing_new : (k : Bytes) → lookup k c.primary ≡ none → lookup k d.primary ≡ none

  Trims-delete_node : (k : Bytes) (c d : Cache) → Trims (delete_node k c) d → Trims c d
  Trims-delete_node k c d h = record {
    valid = h.valid;
    below = h.below;
    limit_kept = h.limit_kept ∙ limit-delete_node k c;
    generation_kept = h.generation_kept ∙ generation-delete_node k c;
    nothing_new = λ j e. h.nothing_new j (ground (arith, lookup-delete_node j k c));
  }

  loop-Trims :
      (fuel : ℕ) (c : Cache)
      → IsValid c
      → c.size ≤ fuel
      → Trims c (check_limits_loop setup fuel now c)
  unfolding check_limits_loop
  loop-Trims zero c v h = record {
    valid = v;
    below = unfold over_limits in ground arith;
    limit_kept = refl;
    generation_kept = refl;
    nothing_new = λ k e. e;
  }
  loop-Trims (suc fuel) c v h = elim (Bool-cases (over_limits setup c)) [
    | inr fits ↦
        rw (fits, check_limits_loop)
          (record {
            valid = v;
            below = fits;
            limit_kept = refl;
            generation_kept = refl;
            nothing_new = λ k e. e;
          })
    | inl over ↦ elim (Option-cases (victim_from c.timeout now c)) [
      | inl nothing ↦
          absurd (unfold over_limits in ground (arith, victim_none now c v c.timeout nothing))
      | inr (k, e) ↦
          rw (over, e, check_limits_loop)
            (Trims-delete_node k c _ (
              loop-Trims fuel (delete_node k c) (delete_node-IsValid k c v) (
                omega (
                  arith,
                  size-delete_node k c,
                  victim_present now c v c.timeout k refl e,
                  positive over,
                ))))
    ]
  ]
    where
      positive : over_limits setup c ≡ true → 0 < c.size
      positive o = unfold over_limits in ground arith

  -- On a valid cache check_limits ends with the limits met: neither is memory short nor are there
  -- as many entries as `limit` allows, unless the cache is empty. It keeps the invariant, the
  -- limit and the generation counter, and adds no key.
  pub check_limits-Trims : (c : Cache) → IsValid c → Trims c (check_limits setup now c)
  unfolding check_limits
  check_limits-Trims c v = loop-Trims c.size c v (omega arith)

pub size-lt-limit :
    (setup : Setup) (c : Cache) → over_limits setup c ≡ false → 0 < c.limit → c.size < c.limit
unfolding over_limits
size-lt-limit setup c h pos = ground arith
