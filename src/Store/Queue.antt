-- ===== src/Store/Queue.antt =====
-- The active queue of internal/store/store.go: `Due`, `Delete`, `CompleteChatDelivery`, `Stats`,
-- `OldestAge`.
pub mod Due
use lark_git_webhook.Base.{
  ℕ, zero, suc, ◌-◌, Bool, not, ◌&&◌, ◌||◌, none, some, List, [], ◌∷◌, ltb, ◌==◌, if◌then◌else◌,
  keep, length,
}
use lark_git_webhook.Base.Bytes.{Bytes, same}
use lark_git_webhook.Base.Words.{sub64}
use lark_git_webhook.Bolt.{Bolt}
use lark_git_webhook.Bolt.Assoc.{Entries}
use lark_git_webhook.Store.Error.{Result, ok, ◌>>=◌}
use lark_git_webhook.Store.Types.{
  Time, Item, Status, delivered, Stats, Stored, json, malformed, unmarshal, Encoding,
}
use lark_git_webhook.Store.Keys.{number_key}
use lark_git_webhook.Store.Db.{Db, Store, update, view}
use lark_git_webhook.Store.Accounting.{active_item_bytes, rebuild_active_stats}

-- `item.Archived && !item.NextAttempt.After(now)`.
unfoldable pub is_due : Time → Item → Bool
is_due now item = item.archived && not (ltb now item.next_attempt)

-- The cursor loop of `Due`: at most `left` more items.
unfoldable pub due_loop : Time → ℕ → Entries (Stored Item) → Result (List Item)
unfolding is_due
due_loop now left [] = ok []
due_loop now zero (entry ∷ rest) = ok []
due_loop now (suc left) ((k, malformed) ∷ rest) = unmarshal malformed
due_loop now (suc left) ((k, json item) ∷ rest) =
    let skip = due_loop now (suc left) rest in
    let take = (do more ← due_loop now left rest; ok (item ∷ more)) in
    if is_due now item then take else skip

-- `target != chatID`.
abbrev pub other_than : Bytes → Bytes → Bool
other_than chat target = not (same target chat)

module _ ⦃bolt : Bolt⦄ where
  open bolt use {get, put, delete, entries}

  unfoldable pub due : Store → Time → ℕ → Result (List Item)
  unfolding due_loop
  due s now limit = view s λ db. due_loop now limit (entries db.queue)

  -- The status of the item's delivery, if its state is still kept.
  unfoldable pub set_status : Status → Bytes → Db → Result Db
  set_status status id db = elim (get db.delivery_state id) [
    | none ↦ ok db
    | some value ↦ (do
      state ← unmarshal value
      ok (record db {
        delivery_state = put db.delivery_state id (json (record state { status = status }));
      }))
  ]

  -- The item leaves the queue, delivered.
  unfoldable pub take_delivered : Item → Db → Result Db
  unfolding set_status
  take_delivered item db =
      set_status delivered item.delivery_id
        (record db { queue = delete db.queue (number_key item.sequence) })

  unfoldable pub stats : Store → Result Stats
  stats s = view s λ db. ok (record {
    items = db.meta.count;
    bytes = db.meta.bytes;
    dead_letters = db.meta.dead_count;
    dead_bytes = db.meta.dead_bytes;
  })

  -- `return 0, err` when there is no item, or one without a time.
  unfoldable pub age_of : Time → Item → ℕ
  age_of now item = if item.received_at == 0 then 0 else now - item.received_at

  unfoldable pub oldest_loop : Time → Entries (Stored Item) → Result ℕ
  unfolding age_of
  oldest_loop now [] = ok 0
  oldest_loop now ((k, value) ∷ rest) = do item ← unmarshal value; ok (age_of now item)

  unfoldable pub oldest_age : Store → Time → Result ℕ
  unfolding oldest_loop
  oldest_age s now = view s λ db. oldest_loop now (entries db.queue)

module _ ⦃bolt : Bolt⦄ ⦃encoding : Encoding⦄ where
  open bolt use {get, put, delete, entries}

  -- One round of `Delete`, with the counters of the transaction.
  unfoldable pub delete_one : Item → ℕ → ℕ → Db → Result (ℕ × ℕ × Db)
  unfolding take_delivered
  delete_one item count bytes db = elim (get db.queue (number_key item.sequence)) [
    | none ↦ ok (count, bytes, db)
    | some value ↦ (do
      current ← unmarshal value
      db' ←
          set_status delivered current.delivery_id
            (record db { queue = delete db.queue (number_key item.sequence) })
      ok (sub64 count 1, sub64 bytes (active_item_bytes current), db'))
  ]

  unfoldable pub delete_loop : List Item → ℕ → ℕ → Db → Result (ℕ × ℕ × Db)
  unfolding delete_one
  delete_loop [] count bytes db = ok (count, bytes, db)
  delete_loop (item ∷ items) count bytes db = do
    r ← delete_one item count bytes db
    delete_loop items r.0 r.1 r.2

  unfoldable pub delete_tx : List Item → Db → Result (Unit {0} × Db)
  unfolding delete_loop
  delete_tx items db = do
    r ← delete_loop items db.meta.count db.meta.bytes db
    let db' = r.2
    ok (tt, record db' { meta = record (db'.meta) { count = r.0; bytes = r.1 } })

  unfoldable pub delete_items : Store → List Item → Result (Unit {0}) × Store
  unfolding delete_tx
  delete_items s items = update s (delete_tx items)

  -- The item as it is stored, after a send to `chat`. An item without chats has the configured
  -- chat as its one target, which is sent to as `""`.
  unfoldable pub complete_item : Bytes → Item → Db → Result Db
  unfolding take_delivered
  complete_item chat current db =
      let remaining = keep (other_than chat) current.chat_ids in
      let untargeted = length current.chat_ids == 0 && not (same chat []) in
      let unchanged =
        ltb 0 (length current.chat_ids) && (length remaining == length current.chat_ids) in
      if untargeted || unchanged
      then ok db
      else if ltb 0 (length remaining)
      then ok (record db {
        queue =
            put db.queue (number_key current.sequence)
              (json (record current { chat_ids = remaining }));
      })
      else take_delivered current db

  unfoldable pub complete_one : Bytes → Item → Db → Result Db
  unfolding complete_item
  complete_one chat item db = elim (get db.queue (number_key item.sequence)) [
    | none ↦ ok db
    | some value ↦ (do current ← unmarshal value; complete_item chat current db)
  ]

  unfoldable pub complete_loop : Bytes → List Item → Db → Result Db
  unfolding complete_one
  complete_loop chat [] db = ok db
  complete_loop chat (item ∷ items) db = do
    db' ← complete_one chat item db
    complete_loop chat items db'

  unfoldable pub complete_tx : List Item → Bytes → Db → Result (Unit {0} × Db)
  unfolding complete_loop rebuild_active_stats
  complete_tx items chat db = do
    db' ← complete_loop chat items db
    db'' ← rebuild_active_stats db'
    ok (tt, db'')

  unfoldable pub complete_chat_delivery : Store → List Item → Bytes → Result (Unit {0}) × Store
  unfolding complete_tx
  complete_chat_delivery s items chat = update s (complete_tx items chat)
