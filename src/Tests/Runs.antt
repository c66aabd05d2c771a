-- ===== src/Tests/Runs.antt =====
-- Runs of the store, and the properties of the store at them.
use lark_git_webhook.Base.{
  ◌≤◌, ◌<◌, ◌≡◌, refl, true, false, ◌&&◌, some, List, [], ◌∷◌, arith, inl, ℕ, ◌⊎◌,
}
use lark_git_webhook.Base.Bytes.{Bytes, same}
use lark_git_webhook.Base.Words.{add64, sub64}
use lark_git_webhook.Bolt.Memory.{memory}
use lark_git_webhook.Bolt.Assoc.{lookup, insert}
use lark_git_webhook.Bolt.Totals.{total}
use lark_git_webhook.Store.Error.{ok, err, delivery_conflict}
use lark_git_webhook.Store.Types.{Time}
use lark_git_webhook.Store.Keys.{decode_time, number_key, time_key, dedupe_index_key}
use lark_git_webhook.Store.Db.{Db, Store}
use lark_git_webhook.Store.Accounting.{active_item_bytes}
use lark_git_webhook.Store.Dedupe.{cleanup_dedupe, evict_dedupe, remember}
use lark_git_webhook.Store.Admission.{admit, admit_new, make_room, over_capacity, push_item}
use lark_git_webhook.Store.Admission.Window.{admission-bounds_window}
use lark_git_webhook.Store.Delivery.{claim_subscription_reply}
use lark_git_webhook.Store.Delivery.Identity.{admit-again, claim-again}
use lark_git_webhook.Store.Ledger.{IsBounded, limits_of, IsSound}
use lark_git_webhook.Store.Call.{Call, after}
use lark_git_webhook.Store.Invariant.{HasWords, History, History-IsSound}
use lark_git_webhook.Store.Rate.{reserve_request}
use lark_git_webhook.Store.Rate.Window.{Granted, Refused, reserve_request-window}
use lark_git_webhook.Tests.Data.{sizes, empty_db, empty_store, noon, delivery, push, payload, chat}

abbrev pub chats : List Bytes
chats = chat ∷ []

abbrev pub admitted : Store
admitted = (admit empty_store delivery push payload chats noon 60).1

admits : admit empty_store delivery push payload chats noon 60 ≡ (ok false, admitted)
unfolding memory admit admit_new make_room cleanup_dedupe evict_dedupe over_capacity push_item
    remember add64 sub64 active_item_bytes number_key time_key dedupe_index_key
admits = refl

admit-again_example :
    ((chats' : List Bytes) (now' : Time) (ttl' : ℕ)
      → admit admitted delivery push payload chats' now' ttl' ≡ (ok true, admitted))
    × ((event' raw' : Bytes) (chats' : List Bytes) (now' : Time) (ttl' : ℕ)
        → (same push event' && same (sizes.sum256 payload) (sizes.sum256 raw')) ≡ false
        → admit admitted delivery event' raw' chats' now' ttl' ≡ (err delivery_conflict, admitted))
admit-again_example =
    admit-again empty_store admitted delivery push payload chats noon 60 false admits

abbrev claimed : Store
claimed = (claim_subscription_reply admitted delivery).1

claims : claim_subscription_reply admitted delivery ≡ (ok true, claimed)
unfolding memory lookup insert admit admit_new make_room cleanup_dedupe evict_dedupe over_capacity
    push_item remember add64 sub64 active_item_bytes number_key time_key dedupe_index_key
    claim_subscription_reply same
claims = refl

claim-again_example : claim_subscription_reply claimed delivery ≡ (ok false, claimed)
claim-again_example = claim-again admitted claimed delivery true claims

admission-bounds_window_example :
    (db' : Db) × (admitted.db ≡ some db') × (db'.meta.dedupe_count ≤ empty_store.dedupe_max_items)
admission-bounds_window_example =
    admission-bounds_window empty_store (omega arith) (omega arith) admitted delivery push payload
      chats noon 60 (inl admits)

empty_IsBounded : IsBounded (limits_of empty_store)
empty_IsBounded = record {
  items_fit = omega arith;
  bytes_fit = omega arith;
  dead_items_fit = omega arith;
  dead_bytes_fit = omega arith;
}

empty_IsSound : IsSound empty_store
unfolding memory total
empty_IsSound = record {
  counted = refl;
  weighed = refl;
  dead_counted = refl;
  dead_weighed = refl;
  items_kept = omega arith;
  bytes_kept = omega arith;
  dead_items_kept = omega arith;
  dead_bytes_kept = omega arith;
  queued = tt;
  buried = tt;
  numbered = omega arith;
}

abbrev first_call : Call
first_call = Call.admits delivery push payload chats noon 60

first_words : HasWords first_call empty_store
first_words db e = ground arith

History-IsSound_example :
    (limits_of (after (Call.finalizes delivery) (after first_call empty_store))
      ≡ limits_of empty_store)
    × IsSound (after (Call.finalizes delivery) (after first_call empty_store))
History-IsSound_example =
    History-IsSound empty_IsBounded
      (History.call (Call.finalizes delivery) (History.call first_call History.start first_words)
        tt)
      empty_IsSound

reserved : reserve_request empty_store noon ≡ (ok 0, (reserve_request empty_store noon).1)
unfolding memory reserve_request decode_time
reserved = refl

reserve_request-window_example :
    (db' : Db) × ((reserve_request empty_store noon).1.db ≡ some db')
    × (((◌≡◌ {A = ℕ} 0 0) × Granted noon empty_db db') ⊎ ((0 < 0) × Refused empty_db db'))
reserve_request-window_example =
    reserve_request-window empty_store (reserve_request empty_store noon).1 empty_db noon 0 refl
      reserved
