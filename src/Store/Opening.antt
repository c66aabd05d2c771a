-- ===== src/Store/Opening.antt =====
-- `Open` of internal/store/store.go: what a restart rebuilds from the buckets.
pub mod Books
use lark_git_webhook.Base.{
  ℕ, false, not, ◌||◌, none, some, [], ◌∷◌, ltb, ◌==◌, if◌then◌else◌, length,
}
use lark_git_webhook.Base.Bytes.{Bytes}
use lark_git_webhook.Base.Words.{add64}
use lark_git_webhook.Bolt.{Bolt}
use lark_git_webhook.Bolt.Assoc.{Entries}
use lark_git_webhook.Store.Error.{Result, ok, ◌>>=◌}
use lark_git_webhook.Store.Types.{
  Time, Item, DeadItem, DeliveryState, queued, dead, Stored, json, malformed, unmarshal, Encoding,
}
use lark_git_webhook.Store.Keys.{decode_time, dedupe_index_key}
use lark_git_webhook.Store.Db.{Db, Store}
use lark_git_webhook.Store.Accounting.{rebuild_active_stats, rebuild_dead_stats}
use lark_git_webhook.Store.Dedupe.{evict_dedupe}

module _ ⦃bolt : Bolt⦄ where
  open bolt use {Bucket, fresh, get, put, delete, entries}

  -- The first loop of `rebuildDedupe` empties the index.
  unfoldable pub clear_index : Entries Bytes → Bucket Bytes → Bucket Bytes
  clear_index [] index = index
  clear_index ((k, v) ∷ rest) index = clear_index rest (delete index k)

  -- One live entry is indexed and counted; another is deleted.
  unfoldable pub reindex_entry : Time → Bytes → Bytes → ℕ × Db → ℕ × Db
  reindex_entry now id value (count, db) =
      if not (length value == 8) || not (ltb now (decode_time value))
      then (count, record db { dedupe = delete db.dedupe id })
      else (
        add64 count 1,
        record db {
          dedupe_expiry = put db.dedupe_expiry (dedupe_index_key (decode_time value) id) id;
        },
      )

  unfoldable pub reindex_loop : Time → Entries Bytes → ℕ × Db → ℕ × Db
  unfolding reindex_entry
  reindex_loop now [] r = r
  reindex_loop now ((id, value) ∷ rest) r = reindex_loop now rest (reindex_entry now id value r)

  unfoldable pub rebuild_dedupe : Time → ℕ → Db → Db
  unfolding clear_index reindex_loop
  rebuild_dedupe now max db =
      let cleared = record db {
        dedupe_expiry = clear_index (entries db.dedupe_expiry) db.dedupe_expiry;
      } in
      let (count, db') = reindex_loop now (entries db.dedupe) (0, cleared) in
      evict_dedupe max (record db' { meta = record (db'.meta) { dedupe_count = count } })

module _ ⦃bolt : Bolt⦄ ⦃encoding : Encoding⦄ where
  open bolt use {Bucket, get, put, entries}

  abbrev pub add_state :
      Bytes → DeliveryState → Bucket (Stored DeliveryState) → Bucket (Stored DeliveryState)
  add_state id state states = elim (get states id) [
    | none ↦ put states id (json state)
    | some value ↦ states
  ]

  abbrev pub queued_state : Item → DeliveryState
  queued_state item = record {
    delivery_id = [];
    event = item.event;
    digest = encoding.sum256 item.raw_json;
    sequence = item.sequence;
    status = queued;
    archived = item.archived;
    subscription_reply_claimed = false;
    raw_json = item.raw_json;
  }

  abbrev pub dead_state : DeadItem → DeliveryState
  dead_state d = record (queued_state d.item) { status = dead; archived = false }

  unfoldable pub queued_states :
      Entries (Stored Item) → Bucket (Stored DeliveryState) → Result (Bucket (Stored DeliveryState))
  queued_states [] states = ok states
  queued_states ((k, malformed) ∷ rest) states = unmarshal malformed
  queued_states ((k, json item) ∷ rest) states =
      queued_states rest (add_state item.delivery_id (queued_state item) states)

  unfoldable pub dead_states :
      Entries (Stored DeadItem)
      → Bucket (Stored DeliveryState)
      → Result (Bucket (Stored DeliveryState))
  dead_states [] states = ok states
  dead_states ((k, malformed) ∷ rest) states = unmarshal malformed
  dead_states ((k, json d) ∷ rest) states =
      dead_states rest (add_state d.item.delivery_id (dead_state d) states)

  unfoldable pub rebuild_delivery_states : Db → Result Db
  unfolding queued_states dead_states
  rebuild_delivery_states db = do
    states ← queued_states (entries db.queue) db.delivery_state
    states' ← dead_states (entries db.dead_letter) states
    ok (record db { delivery_state = states' })

  -- The transaction of `Open`, over buckets that exist.
  unfoldable pub open_tx : Time → ℕ → Db → Result Db
  unfolding rebuild_dedupe rebuild_active_stats rebuild_dead_stats rebuild_delivery_states
  open_tx now dedupe_max_items db = do
    active ← rebuild_active_stats (rebuild_dedupe now dedupe_max_items db)
    letters ← rebuild_dead_stats active
    rebuild_delivery_states letters

  -- `Open`: the limits are kept, and no consumer holds the store.
  unfoldable pub open_store : Time → Db → ℕ → ℕ → ℕ → ℕ → ℕ → Result Store
  unfolding open_tx
  open_store now db max_items max_bytes dedupe_max_items dead_max_items dead_max_bytes = do
    db' ← open_tx now dedupe_max_items db
    ok (record {
      db = some db';
      max_items = max_items;
      max_bytes = max_bytes;
      dedupe_max_items = dedupe_max_items;
      dead_max_items = dead_max_items;
      dead_max_bytes = dead_max_bytes;
      consumer_held = false;
    })
