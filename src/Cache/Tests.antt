-- ===== src/Cache/Tests.antt =====
-- The theorems on the cache after a concrete history (internal/cache/store.go).
use kortex.Common.{◌≡◌, none, List, [], ◌∷◌}
use kortex.Cache.{
  NamespacedName, StoreCall, sets_route, deletes_route, sets_backend, store_run, new_store,
  get_route, get_backend,
}
use kortex.Cache.Laws.{last_route, last_backend, gets-last}
use kortex.Samples.{chat_route, external_backend}

abbrev chat : NamespacedName
chat = record { namespace = "default"; name = "chat" }

abbrev history : List StoreCall
history =
    sets_route chat chat_route
    ∷ sets_backend chat (external_backend "gpt")
    ∷ deletes_route chat
    ∷ []

gets-last_example :
    (get_route chat (store_run new_store history) ≡ last_route chat history none)
    × (get_backend chat (store_run new_store history) ≡ last_backend chat history none)
gets-last_example = gets-last chat history
