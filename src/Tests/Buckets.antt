-- ===== src/Tests/Buckets.antt =====
-- Runs of the subscriptions, the queue and the keys, and the properties at them.
use lark_git_webhook.Base.{
  ◌+◌, ◌≡◌, refl, true, false, ◌||◌, none, some, List, [], ◌∷◌, ◌++◌, arith, ltb, keep,
}
use lark_git_webhook.Base.Bytes.{Bytes, ascii, same, before}
use lark_git_webhook.Bolt.Memory.{memory}
use lark_git_webhook.Bolt.Assoc.{lookup, insert}
use lark_git_webhook.Store.Error.{ok}
use lark_git_webhook.Store.Types.{Item, json}
use lark_git_webhook.Store.Keys.{decode_time, number_key, get_uint, time_key, dedupe_index_key}
use lark_git_webhook.Store.Keys.Order.{before-number_key, before-dedupe_index_key}
use lark_git_webhook.Store.Keys.Roundtrip.{get_uint-number_key, decode_time-time_key}
use lark_git_webhook.Store.Db.{Db, Store}
use lark_git_webhook.Store.Queue.{due, is_due}
use lark_git_webhook.Store.Queue.Due.{take, items_of, encoded, due_lem}
use lark_git_webhook.Store.Subscription.{
  repository_prefix, add_repository_subscription, repository_subscribers,
}
use lark_git_webhook.Store.Subscription.Seek.{has_chat, subscribers-add_subscription}
use lark_git_webhook.Tests.Data.{queued_item, empty_db, empty_store, noon, delivery, chat}

abbrev repository : Bytes
repository = ascii "a/b"

abbrev subscribed : Store
subscribed = (add_repository_subscription empty_store chat repository).1

subscribes : add_repository_subscription empty_store chat repository ≡ (ok tt, subscribed)
unfolding same add_repository_subscription
subscribes = refl

bare : memory.get empty_db.repository_subscription (repository_prefix repository) ≡ none
unfolding memory lookup
bare = refl

apart : same (repository_prefix repository ++ chat) (repository_prefix repository) ≡ false
unfolding same
apart = refl

subscribers-add_subscription_example :
    (old new : List Bytes) × (repository_subscribers empty_store repository ≡ ok old)
    × (repository_subscribers subscribed repository ≡ ok new)
    × ((chat' : Bytes)
        → has_chat chat' new ≡ (
            same (repository_prefix repository ++ chat) (repository_prefix repository ++ chat')
            || has_chat chat' old))
subscribers-add_subscription_example =
    subscribers-add_subscription empty_store subscribed empty_db chat repository refl subscribes
      repository bare apart

abbrev two_items : List (Bytes × Item)
two_items = (1 ∷ [], queued_item 1 false noon) ∷ (2 ∷ [], queued_item 2 true noon) ∷ []

abbrev two_queued : Db
two_queued = record empty_db {
  queue =
      memory.put (memory.put empty_db.queue (1 ∷ []) (json (queued_item 1 false noon))) (2 ∷ [])
        (json (queued_item 2 true noon));
}

two_entries : memory.entries two_queued.queue ≡ encoded two_items
unfolding memory insert same before
two_entries = refl

due_example :
    due (record empty_store { db = some two_queued }) noon 5
    ≡ ok (take 5 (keep (is_due noon) (items_of two_items)))
due_example =
    due_lem (record empty_store { db = some two_queued }) two_queued two_items noon 5 refl
      two_entries

before-number_key_example : before (number_key 9) (number_key 10) ≡ ltb 9 10
before-number_key_example = before-number_key 9 10 (omega arith) (omega arith)

before-dedupe_index_key_example :
    before (dedupe_index_key noon (9 ∷ [])) (dedupe_index_key (noon + 1) (1 ∷ [])) ≡ true
before-dedupe_index_key_example =
    before-dedupe_index_key noon (noon + 1) (9 ∷ []) (1 ∷ []) (omega arith) (omega arith)
      (omega arith)

get_uint-number_key_example : get_uint (number_key 70_000) ≡ 70_000
get_uint-number_key_example = get_uint-number_key 70_000 (omega arith)

decode_time-time_key_example : decode_time (time_key noon ++ delivery) ≡ noon
decode_time-time_key_example = decode_time-time_key noon delivery (omega arith) (omega arith)
