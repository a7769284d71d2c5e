-- ===== src/Cache.antt =====
-- src/cache_storage.cpp: class mem_cache. A pointer into `primary` is the key of its entry. The
-- iterators `lru` and `timeout` of a container are the key's place in those lists, and an element
-- of its `triggers` is the name of the trigger: erasing by such an iterator removes the key there.
-- Times are seconds since the epoch. The locks make each operation one step.
pub mod Invariant
pub mod Delete
pub mod Insert
pub mod Limits
pub mod Laws
use cppcms.Multimap.{erase_timeout, insert_timeout}
use cppcms.Prelude.{
  ℕ, zero, suc, ◌+◌, ◌-◌, ◌*◌, ◌/◌, ◌%◌, ◌^◌, ◌≤◌, ◌<◌, ◌≡◌, refl, sym, ap, ◌∙◌, ◌≢◌, ◌↔◌, ◌⊎◌, inl,
  inr, Bool, true, false, not, ◌&&◌, ◌||◌, Option, none, some, List, [], ◌∷◌, ◌++◌, append-nil,
  append_assoc, arith, ltb, leb, ◌==◌, if◌then◌else◌, within, ==_iff, Bool-cases, Option-cases,
  Bytes, codes, length, length-append, All, All-append, IsBytes, shr, shl, low_bits, take, drop,
  get_elem?, take-length-append, subst, same, same_iff, count, remove, count-remove, length-remove,
  lookup, erase, keys, lookup-erase, lookup-cons, count-keys-erase, length-erase, length-take,
  drop-length-append, take-append-drop, length-drop, drop-drop, le_bytes, read_le, length-le_bytes,
  le_bytes-IsBytes, read_le-le_bytes_4, read_le-le_bytes_8,
}

-- struct container; `timeout` is the time in the multimap that its iterator points to.
pub record Container : Type 0 where
  pub content : Bytes
  pub triggers : List Bytes
  pub timeout : ℕ
  pub generation : ℕ

-- `timeout` is the multimap, in the order of its times; the head of `lru` is its front.
pub record Cache : Type 0 where
  pub primary : List (Bytes × Container)
  pub triggers : List (Bytes × List Bytes)
  pub timeout : List (ℕ × Bytes)
  pub lru : List Bytes
  pub limit : ℕ
  pub size : ℕ
  pub triggers_count : ℕ
  pub refs : ℕ
  pub generation : ℕ

-- The pointers behind a trigger; none if the map does not have it.
unfoldable pub trig_list : Bytes → List (Bytes × List Bytes) → List Bytes
trig_list t ts = elim (lookup t ts) [ none ↦ [] | some l ↦ l ]

-- One round of the loop in delete_node over the triggers of an entry.
unfoldable pub drop_trigger : Bytes → Bytes → List (Bytes × List Bytes) → List (Bytes × List Bytes)
unfolding trig_list
drop_trigger key t ts = elim (remove key (trig_list t ts)) [
  | [] ↦ erase t ts
  | x ∷ l ↦ (t, x ∷ l) ∷ erase t ts
]

unfoldable pub drop_triggers :
    Bytes → List Bytes → List (Bytes × List Bytes) → List (Bytes × List Bytes)
unfolding drop_trigger
drop_triggers key [] ts = ts
drop_triggers key (t ∷ l) ts = drop_triggers key l (drop_trigger key t ts)

-- `unsigned` and `size_t` subtraction does not wrap here: the counters count what is removed.
unfoldable pub delete_entry : Bytes → Container → Cache → Cache
unfolding drop_triggers erase_timeout
delete_entry key e c = record c {
  lru = remove key c.lru;
  timeout = erase_timeout key c.timeout;
  triggers = drop_triggers key e.triggers c.triggers;
  triggers_count = c.triggers_count - length e.triggers;
  primary = erase key c.primary;
  size = c.size - 1;
}

-- delete_node(p), where `p` points to the entry of a key that is there.
unfoldable pub delete_node : Bytes → Cache → Cache
unfolding delete_entry
delete_node key c = elim (lookup key c.primary) [ none ↦ c | some e ↦ delete_entry key e c ]

unfoldable pub nl_clear : Cache → Cache
nl_clear c = record c {
  primary = [];
  triggers = [];
  timeout = [];
  lru = [];
  size = 0;
  triggers_count = 0;
}

-- mem_cache(pages)
unfoldable pub init : ℕ → Cache
init pages = record {
  primary = [];
  triggers = [];
  timeout = [];
  lru = [];
  limit = pages;
  size = 0;
  triggers_count = 0;
  refs = 0;
  generation = 0;
}

unfoldable pub set_size : ℕ → Cache → Cache
unfolding nl_clear
set_size l c = nl_clear (record c { limit = l })

-- What `fetch` stores through its four pointers.
pub record Found : Type 0 where
  pub content : Bytes
  pub triggers : List Bytes
  pub timeout : ℕ
  pub generation : ℕ

unfoldable pub fetch : Bytes → ℕ → Cache → Option Found × Cache
fetch key now c = elim (lookup key c.primary) [
  | none ↦ (none, c)
  | some e ↦ if ltb e.timeout now then (none, c) else (
    some (record {
      content = e.content;
      triggers = e.triggers;
      timeout = e.timeout;
      generation = e.generation;
    }),
    record c { lru = key ∷ remove key c.lru },
  )
]

unfoldable pub delete_all : List Bytes → Cache → Cache
unfolding delete_node
delete_all [] c = c
delete_all (k ∷ kill_list) c = delete_all kill_list (delete_node k c)

unfoldable pub rise : Bytes → Cache → Cache
unfolding delete_all trig_list
rise trigger c = delete_all (trig_list trigger c.triggers) c

unfoldable pub remove_key : Bytes → Cache → Cache
unfolding delete_node
remove_key key c = delete_node key c

unfoldable pub stats : Cache → ℕ × ℕ
stats c = (c.size, c.triggers_count)

-- `*lru.rbegin()`
unfoldable pub last : List Bytes → Option Bytes
last [] = none
last (k ∷ []) = some k
last (k ∷ j ∷ l) = last (j ∷ l)

-- The entry that check_limits deletes: the first to time out if its time is past, or the least
-- recently used. `none` is the break.
unfoldable pub victim_from : List (ℕ × Bytes) → ℕ → Cache → Option Bytes
unfolding last
victim_from [] now c = last c.lru
victim_from ((t, k) ∷ m) now c = if ltb t now then some k else last c.lru

-- Setup: whether memory is short, which the allocator decides, and the limit on the size.
pub record Setup : Type 0 where
  pub not_enough_memory : Cache → Bool
  pub size_limit : ℕ

-- thread_settings
abbrev pub thread_settings : Setup
thread_settings = record { not_enough_memory = λ c. false; size_limit = 2 ^ 64 - 1 }

module _ (setup : Setup) where
  -- The condition of the loop in check_limits.
  unfoldable pub over_limits : Cache → Bool
  over_limits c =
      ltb 0 c.size && (setup.not_enough_memory c || (leb c.limit c.size && ltb 0 c.limit))

  -- Each round deletes an entry, so the size is fuel enough.
  unfoldable pub check_limits_loop : ℕ → ℕ → Cache → Cache
  unfolding victim_from delete_node over_limits
  check_limits_loop zero now c = c
  check_limits_loop (suc fuel) now c =
      let next : Cache = elim (victim_from c.timeout now c) [
        | none ↦ c
        | some k ↦ check_limits_loop fuel now (delete_node k c)
      ] in
      if over_limits c then next else c

  unfoldable pub check_limits : ℕ → Cache → Cache
  unfolding check_limits_loop
  check_limits now c = check_limits_loop c.size now c

-- The part of add_trigger that concerns the maps: the pointer goes to the front of the list.
unfoldable pub add_trigger : Bytes → Cache → Bytes → Cache
unfolding trig_list
add_trigger p c key = record c {
  triggers = (key, p ∷ trig_list key c.triggers) ∷ erase key c.triggers;
  triggers_count = c.triggers_count + 1;
}

unfoldable pub add_triggers : Bytes → Cache → List Bytes → Cache
unfolding add_trigger
add_triggers p c [] = c
add_triggers p c (t ∷ l) = add_triggers p (add_trigger p c t) l

-- The triggers of a new entry in the order in which they are added: the key itself if the set
-- does not have it, and then the set.
unfoldable pub all_triggers : Bytes → List Bytes → List Bytes
all_triggers key triggers_in = if count key triggers_in == 0 then key ∷ triggers_in else triggers_in

-- `cont.generation=*gen` or `generation++` of a uint64_t.
unfoldable pub gen_of : Option ℕ → Cache → ℕ
gen_of none c = c.generation
gen_of (some g) c = g

unfoldable pub gen_after : Option ℕ → Cache → ℕ
gen_after none c = (c.generation + 1) % 2 ^ 64
gen_after (some g) c = c.generation

-- The part of `store` behind check_limits, with the entry's triggers pushed back by add_trigger.
unfoldable pub insert : Bytes → Bytes → List Bytes → ℕ → Option ℕ → Cache → Cache
unfolding add_triggers insert_timeout
insert key a triggers_in timeout_in gen c =
    add_triggers key
      (record c {
        primary =
            (
              key,
              record {
                content = a;
                triggers = all_triggers key triggers_in;
                timeout = timeout_in;
                generation = gen_of gen c;
              },
            )
            ∷ c.primary;
        size = c.size + 1;
        lru = key ∷ c.lru;
        timeout = insert_timeout timeout_in key c.timeout;
        generation = gen_after gen c;
      })
      (all_triggers key triggers_in)

-- store(key,a,triggers_in,timeout_in,gen) with memory enough: the allocations succeed.
unfoldable pub store : Setup → ℕ → Bytes → Bytes → List Bytes → ℕ → Option ℕ → Cache → Cache
store setup now key a triggers_in timeout_in gen c =
    let removed = delete_node key c in
    if ltb setup.size_limit removed.size
    then removed
    else insert key a triggers_in timeout_in gen (check_limits setup now removed)

unfoldable pub add_ref : Bool → Cache → Cache
add_ref process_shared c = if process_shared then c else record c { refs = c.refs + 1 }

-- The result says whether the object is to be deleted: `refs` is 0 after the decrement. Each call
-- matches an earlier add_ref, so the counter is not below 1 here.
unfoldable pub del_ref : Bool → Cache → Bool × Cache
del_ref process_shared c =
    if process_shared then (false, c) else (c.refs == 1, record c { refs = c.refs - 1 })
