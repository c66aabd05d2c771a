-- ===== src/Tests/Data.antt =====
-- Concrete stores and deliveries that the runs use.
use lark_git_webhook.Base.{
  ℕ, Bool, ◌+◌, none, some, [], ◌∷◌, arith, length, length-keep-le, false, ◌≤◌, keep,
}
use lark_git_webhook.Base.Bytes.{Bytes, ascii}
use lark_git_webhook.Bolt.Memory.{memory}
use lark_git_webhook.Store.Types.{Time, Encoding, ActiveFields, DeadItem, Item}
use lark_git_webhook.Store.Keys.{unix_epoch}
use lark_git_webhook.Store.Db.{Db, Store}

pub fewer :
    (f : ActiveFields) (p : Bytes → Bool)
    → length f.raw_json + length (keep p f.chat_ids) ≤ length f.raw_json + length f.chat_ids
fewer f p = omega (arith, length-keep-le p f.chat_ids)

-- Sizes that are easy to follow, and a digest that is the payload itself.
instance abbrev pub sizes : Encoding
sizes = record {
  active_json_len = λ (f : ActiveFields). length f.raw_json + length f.chat_ids;
  dead_json_len = λ (d : DeadItem). length d.item.raw_json + length d.item.last_error;
  sum256 = λ raw. raw;
  fewer_chats = fewer;
}

abbrev pub empty_db : Db
empty_db = record {
  meta = record {
    next = 0;
    count = 0;
    bytes = 0;
    rate = 0;
    dedupe_count = 0;
    dead_count = 0;
    dead_bytes = 0;
    cooldown = none;
  };
  queue = memory.fresh;
  dedupe = memory.fresh;
  dedupe_expiry = memory.fresh;
  rate_history = memory.fresh;
  dead_letter = memory.fresh;
  delivery_state = memory.fresh;
  workflow_state = memory.fresh;
  onboarding_state = memory.fresh;
  onboarding_callback_result = memory.fresh;
  audit_checkpoint = memory.fresh;
  audit_bootstrap = memory.fresh;
  repository_subscription = memory.fresh;
}

abbrev pub empty_store : Store
empty_store = record {
  db = some empty_db;
  max_items = 3;
  max_bytes = 4_000;
  dedupe_max_items = 2;
  dead_max_items = 1;
  dead_max_bytes = 100;
  consumer_held = false;
}

-- 2001-09-09, a billion seconds after 1970.
abbrev pub noon : Time
noon = unix_epoch + 1_000_000_000_000_000_000

abbrev pub delivery : Bytes
delivery = 7 ∷ []

abbrev pub push : Bytes
push = ascii "push"

abbrev pub payload : Bytes
payload = 1 ∷ 2 ∷ 3 ∷ []

abbrev pub chat : Bytes
chat = 40 ∷ []

abbrev pub queued_item : ℕ → Bool → Time → Item
queued_item sequence ready at = record {
  sequence = sequence;
  delivery_id = delivery;
  event = push;
  received_at = noon;
  raw_json = payload;
  attempts = 0;
  next_attempt = at;
  last_error = [];
  archived = ready;
  chat_ids = [];
}
