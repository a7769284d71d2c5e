-- ===== src/Cache/Invariant.antt =====
-- What holds of a cache between operations, and the effect of the list operations on it.
use cppcms.Cache.{Container, Cache, trig_list, drop_trigger, drop_triggers, nl_clear}
use cppcms.Multimap.{times_of}
use cppcms.Prelude.{
  ℕ, ◌+◌, ◌-◌, ◌≡◌, refl, Option, none, some, List, [], ◌∷◌, arith, if◌then◌else◌, Bytes, length,
  same, same_iff, count, remove, count-remove, lookup, erase, keys, lookup-erase, lookup-cons,
}

-- What the entry of a key asks of the other structures: its number of places in `lru`, its times in
-- the multimap, and its number of places behind a trigger.
unfoldable pub present : Option Container → ℕ
present none = 0
present (some e) = 1

unfoldable pub times : Option Container → List ℕ
times none = []
times (some e) = e.timeout ∷ []

unfoldable pub tags : Bytes → Option Container → ℕ
tags t none = 0
tags t (some e) = count t e.triggers

unfoldable pub total : List (Bytes × Container) → ℕ
total [] = 0
total ((k, e) ∷ m) = length e.triggers + total m

-- Each key has one entry, one place in `lru`, one time, and a place behind each of its triggers;
-- nothing else stands there; and the counters count.
pub record IsValid (c : Cache) : Type 0 where
  pub one_entry : (k : Bytes) → count k (keys c.primary) ≡ present (lookup k c.primary)
  pub in_lru : (k : Bytes) → count k c.lru ≡ present (lookup k c.primary)
  pub in_timeout : (k : Bytes) → times_of k c.timeout ≡ times (lookup k c.primary)
  pub in_triggers : (t k : Bytes) → count k (trig_list t c.triggers) ≡ tags t (lookup k c.primary)
  pub sized : c.size ≡ length c.primary
  pub triggers_counted : c.triggers_count ≡ total c.primary

pub nl_clear-IsValid : (c : Cache) → IsValid (nl_clear c)
unfolding nl_clear present times tags times_of total lookup count trig_list
nl_clear-IsValid c = record {
  one_entry = λ k. refl;
  in_lru = λ k. refl;
  in_timeout = λ k. refl;
  in_triggers = λ t k. refl;
  sized = refl;
  triggers_counted = refl;
}

pub trig_list-drop_trigger :
    (u key t : Bytes) (ts : List (Bytes × List Bytes))
    → trig_list u (drop_trigger key t ts)
      ≡ (if same u t then remove key (trig_list t ts) else trig_list u ts)
unfolding drop_trigger trig_list
trig_list-drop_trigger u key t ts = go (remove key (trig_list t ts)) refl
  where
    go :
        (l : List Bytes)
        → remove key (trig_list t ts) ≡ l
        → trig_list u (drop_trigger key t ts)
          ≡ (if same u t then remove key (trig_list t ts) else trig_list u ts)
    go [] e = rw (e, drop_trigger) (ground (arith, lookup-erase u t ts))
    go (x ∷ l) e =
        rw (e, drop_trigger)
          (ground (arith, lookup-erase u t ts, lookup-cons u t (x ∷ l) (erase t ts)))

-- A key loses a place behind each trigger of the list, and no other key loses one.
pub count-drop_triggers :
    (t k key : Bytes) (l : List Bytes) (ts : List (Bytes × List Bytes))
    → count k (trig_list t (drop_triggers key l ts))
      ≡ count k (trig_list t ts) - (if same k key then count t l else 0)
unfolding drop_triggers count
count-drop_triggers t k key [] ts = ground arith
count-drop_triggers t k key (u ∷ l) ts = ground (
  arith,
  count-drop_triggers t k key l (drop_trigger key u ts),
  trig_list-drop_trigger t key u ts,
  count-remove k key (trig_list u ts),
  same_iff t u,
)

erase_absent : (k : Bytes) (m : List (Bytes × Container)) → count k (keys m) ≡ 0 → erase k m ≡ m
unfolding erase count
erase_absent k [] h = refl
erase_absent k ((j, d) ∷ m) h = ground (arith, erase_absent k m)

pub total-erase :
    (k : Bytes) (e : Container) (m : List (Bytes × Container))
    → count k (keys m) ≡ 1
    → lookup k m ≡ some e
    → total (erase k m) + length e.triggers ≡ total m
unfolding total erase lookup count
total-erase k e [] h f = cc
total-erase k e ((j, d) ∷ m) h f = ground (arith, total-erase k e m, erase_absent k m)
