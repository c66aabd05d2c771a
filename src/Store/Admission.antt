-- ===== src/Store/Admission.antt =====
-- Taking deliveries in: `Enqueue`, `Admit`, `AdmitToChats` and `AdmitArchiveOnly` of
-- internal/store/store.go.
pub mod Window
use lark_git_webhook.Base.{
  ℕ, ◌+◌, ◌-◌, Bool, true, false, ◌&&◌, ◌||◌, none, some, List, [], ltb, leb, ◌==◌, if◌then◌else◌,
  length,
}
use lark_git_webhook.Base.Bytes.{Bytes, same}
use lark_git_webhook.Base.Words.{add64, sub64}
use lark_git_webhook.Bolt.{Bolt}
use lark_git_webhook.Store.Error.{Result, ok, err, ◌>>=◌, queue_full, delivery_conflict}
use lark_git_webhook.Store.Types.{
  Time, Item, DeliveryState, queued, archive_only, Stored, json, unmarshal, Encoding,
}
use lark_git_webhook.Store.Keys.{number_key, decode_time}
use lark_git_webhook.Store.Db.{Meta, Db, Store, update}
use lark_git_webhook.Store.Accounting.{active_item_bytes}
use lark_git_webhook.Store.Dedupe.{cleanup_dedupe, evict_dedupe, remember, drop_expired}

module _ ⦃bolt : Bolt⦄ ⦃encoding : Encoding⦄ where
  open bolt use {get, put}

  -- `count >= s.maxItems || logicalBytes > s.maxBytes || size > s.maxBytes-logicalBytes`.
  unfoldable pub over_capacity : Store → Meta → ℕ → Bool
  over_capacity s m size =
      leb s.max_items m.count || (ltb s.max_bytes m.bytes || ltb (s.max_bytes - m.bytes) size)

  -- The queue and its counters with one more item.
  unfoldable pub push_item : Item → Db → Db
  push_item item db = record db {
    meta = record (db.meta) {
      next = item.sequence;
      count = add64 db.meta.count 1;
      bytes = add64 db.meta.bytes (active_item_bytes item);
    };
    queue = put db.queue (number_key item.sequence) (json item);
  }

  -- Room is made in the dedupe window before the capacity is looked at.
  unfoldable pub make_room : Store → Time → Db → Db
  make_room s now db = evict_dedupe (sub64 s.dedupe_max_items 1) (cleanup_dedupe now 1000 db)

  abbrev pub new_item : Bytes → Bytes → Bytes → List Bytes → Time → Bool → ℕ → Item
  new_item id event raw chats now archived next = record {
    sequence = next;
    delivery_id = id;
    event = event;
    received_at = now;
    raw_json = raw;
    attempts = 0;
    next_attempt = now;
    last_error = [];
    archived = archived;
    chat_ids = chats;
  }

  unfoldable pub enqueue_new : Store → Bytes → Bytes → Bytes → Time → ℕ → Db → Result (Bool × Db)
  enqueue_new s id event raw now ttl db =
      let db' = make_room s now db in
      let item = new_item id event raw [] now true (add64 db'.meta.next 1) in
      if over_capacity s db'.meta (active_item_bytes item)
      then err queue_full
      else ok (false, remember id (now + ttl) (push_item item db'))

  -- An unexpired dedupe entry makes the delivery a duplicate; an expired one goes.
  unfoldable pub enqueue_tx : Store → Bytes → Bytes → Bytes → Time → ℕ → Db → Result (Bool × Db)
  unfolding enqueue_new
  enqueue_tx s id event raw now ttl db = elim (get db.dedupe id) [
    | none ↦ enqueue_new s id event raw now ttl db
    | some expiry ↦
        if length expiry == 8
        then (if ltb now (decode_time expiry)
            then ok (true, db)
            else enqueue_new s id event raw now ttl (drop_expired id (decode_time expiry) db))
        else enqueue_new s id event raw now ttl db
  ]

  unfoldable pub enqueue : Store → Bytes → Bytes → Bytes → Time → ℕ → Result Bool × Store
  unfolding enqueue_tx
  enqueue s id event raw now ttl = update s (enqueue_tx s id event raw now ttl)

  -- A delivery that is known: the same one again, or a conflict.
  unfoldable pub recognise : Bytes → Bytes → Stored DeliveryState → Result DeliveryState
  recognise event raw value = do
    state ← unmarshal value
    if same state.event event && same state.digest (encoding.sum256 raw)
        then ok state
        else err delivery_conflict

  abbrev pub new_state : Bytes → Bytes → ℕ → DeliveryState
  new_state event raw next = record {
    delivery_id = [];
    event = event;
    digest = encoding.sum256 raw;
    sequence = next;
    status = queued;
    archived = false;
    subscription_reply_claimed = false;
    raw_json = raw;
  }

  unfoldable pub admit_new :
      Store → Bytes → Bytes → Bytes → List Bytes → Time → ℕ → Db → Result (Bool × Db)
  admit_new s id event raw chats now ttl db =
      let db' = make_room s now db in
      let item = new_item id event raw chats now false (add64 db'.meta.next 1) in
      if over_capacity s db'.meta (active_item_bytes item)
      then err queue_full
      else ok (
        false,
        remember id (now + ttl) (record (push_item item db') {
          delivery_state = put db'.delivery_state id (json (new_state event raw item.sequence));
        }),
      )

  unfoldable pub admit_tx :
      Store → Bytes → Bytes → Bytes → List Bytes → Time → ℕ → Db → Result (Bool × Db)
  unfolding admit_new recognise
  admit_tx s id event raw chats now ttl db = elim (get db.delivery_state id) [
    | none ↦ admit_new s id event raw chats now ttl db
    | some value ↦ (do _ ← recognise event raw value; ok (true, db))
  ]

  -- `admit`, and `AdmitToChats`; `Admit` passes no chats.
  unfoldable pub admit : Store → Bytes → Bytes → Bytes → List Bytes → Time → ℕ → Result Bool × Store
  unfolding admit_tx
  admit s id event raw chats now ttl = update s (admit_tx s id event raw chats now ttl)

  unfoldable pub admit_archive_only_tx : Bytes → Bytes → Bytes → Db → Result (Bool × Db)
  unfolding recognise
  admit_archive_only_tx id event raw db = elim (get db.delivery_state id) [
    | none ↦ ok (
      false,
      record db {
        delivery_state =
            put db.delivery_state id
              (json (record (new_state event raw 0) { status = archive_only }));
      },
    )
    | some value ↦ (do _ ← recognise event raw value; ok (true, db))
  ]

  unfoldable pub admit_archive_only : Store → Bytes → Bytes → Bytes → Result Bool × Store
  unfolding admit_archive_only_tx
  admit_archive_only s id event raw = update s (admit_archive_only_tx id event raw)
