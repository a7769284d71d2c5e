-- ===== src/Tests/Cache.antt =====
-- The cache on a few operations.
use cppcms.Prelude.{
  ◌≡◌, refl, none, some, [], ◌∷◌, arith, ◌==◌, if◌then◌else◌, Bytes, codes, same, count, lookup,
  erase,
}
use cppcms.Cache.{
  insert, Cache, init, store, fetch, rise, delete_node, nl_clear, thread_settings, check_limits,
  all_triggers, gen_of,
}
use cppcms.Cache.Invariant.{IsValid, nl_clear-IsValid, tags}
use cppcms.Cache.Delete.{delete_node-IsValid, lookup-delete_node}
use cppcms.Cache.Limits.{Trims, check_limits-Trims}
use cppcms.Cache.Laws.{store-IsValid, fetch-store, fetch-rise}

abbrev page : Bytes
page = codes "page"

abbrev news : Bytes
news = codes "news"

abbrev empty_cache : Cache
empty_cache = nl_clear (init 2)

abbrev one_page : Cache
one_page = store thread_settings 100 page (codes "<p>") (news ∷ []) 200 none empty_cache

empty_cache-IsValid : IsValid empty_cache
empty_cache-IsValid = nl_clear-IsValid (init 2)

one_page-IsValid : IsValid one_page
one_page-IsValid =
    store-IsValid thread_settings 100 page (codes "<p>") (news ∷ []) 200 none empty_cache
      empty_cache-IsValid

store-IsValid_example :
    IsValid (store thread_settings 150 (codes "b") (codes "B") [] 160 (some 7) one_page)
store-IsValid_example =
    store-IsValid thread_settings 150 (codes "b") (codes "B") [] 160 (some 7) one_page
      one_page-IsValid

fetch-store_example :
    (fetch page 150 one_page).0
    ≡ some (record {
      content = codes "<p>";
      triggers = all_triggers page (news ∷ []);
      timeout = 200;
      generation = gen_of none empty_cache;
    })
unfolding delete_node init nl_clear lookup
fetch-store_example =
    fetch-store thread_settings 100 page (codes "<p>") (news ∷ []) 200 none empty_cache
      empty_cache-IsValid 150 (omega arith) (omega arith)

fetch-rise_example :
    (fetch page 150 (rise news one_page)).0
    ≡ (if tags news (lookup page one_page.primary) == 0 then (fetch page 150 one_page).0 else none)
fetch-rise_example = fetch-rise page news 150 one_page one_page-IsValid

delete_node-IsValid_example : IsValid (delete_node page one_page)
delete_node-IsValid_example = delete_node-IsValid page one_page one_page-IsValid

lookup-delete_node_example :
    lookup news (delete_node page one_page).primary
    ≡ (if same news page then none else lookup news one_page.primary)
lookup-delete_node_example = lookup-delete_node news page one_page

check_limits-Trims_example :
    Trims thread_settings 150 one_page (check_limits thread_settings 150 one_page)
check_limits-Trims_example = check_limits-Trims thread_settings 150 one_page one_page-IsValid

-- After a rise of the trigger the page is gone.
gone : (fetch page 150 (rise news one_page)).0 ≡ none
unfolding fetch rise store init lookup nl_clear insert all_triggers count same erase check_limits
gone = refl

-- A page is not found after its time.
expired : (fetch page 201 one_page).0 ≡ none
unfolding fetch store init lookup delete_node nl_clear insert all_triggers count same
expired = refl
