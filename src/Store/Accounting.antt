-- ===== src/Store/Accounting.antt =====
-- The queue statistics of internal/store/store.go, counted again from the buckets.
pub mod Rebuild
use lark_git_webhook.Base.{
  ℕ, length, zero, suc, ◌+◌, ◌-◌, ◌*◌, ◌/◌, ◌%◌, ◌^◌, ◌≤◌, ◌<◌, ◌≡◌, refl, sym, ap, ◌∙◌, subst, ◌≢◌,
  ◌↔◌, ◌⊎◌, inl, inr, Bool, true, false, not, ◌&&◌, ◌||◌, Option, none, some, List, [], ◌∷◌, ◌++◌,
  map, arith, ltb, leb, ◌==◌, if◌then◌else◌, Bool-cases, Option-cases,
}
use lark_git_webhook.Bolt.{Bolt}
use lark_git_webhook.Bolt.Assoc.{Entries}
use lark_git_webhook.Base.Words.{add64}
use lark_git_webhook.Store.Error.{Result, ok, err, ◌>>=◌, malformed_value}
use lark_git_webhook.Store.Types.{
  Item, DeadItem, ActiveFields, Stored, json, malformed, unmarshal, Encoding,
}
use lark_git_webhook.Store.Db.{Meta, Db}

abbrev pub active_metadata_reserve : ℕ
active_metadata_reserve = 512

-- The projection that `activeItemBytes` marshals.
abbrev pub active_fields : Item → ActiveFields
active_fields i = record {
  sequence = i.sequence;
  delivery_id = i.delivery_id;
  event = i.event;
  received_at = i.received_at;
  raw_json = i.raw_json;
  chat_ids = i.chat_ids;
}

-- The loop over a bucket: `size` is what one decoded value adds to the bytes.
unfoldable pub tally : {A : Type 0} → (A → ℕ) → ℕ → ℕ → Entries (Stored A) → Result (ℕ × ℕ)
tally size count bytes [] = ok (count, bytes)
tally size count bytes ((k, json item) ∷ rest) =
    tally size (add64 count 1) (add64 bytes (size item)) rest
tally size count bytes ((k, malformed) ∷ rest) = err malformed_value

module _ ⦃encoding : Encoding⦄ where
  unfoldable pub active_item_bytes : Item → ℕ
  active_item_bytes i = encoding.active_json_len (active_fields i) + active_metadata_reserve

module _ ⦃bolt : Bolt⦄ ⦃encoding : Encoding⦄ where
  open bolt use {entries}

  unfoldable pub rebuild_active_stats : Db → Result Db
  unfolding tally
  rebuild_active_stats db = do
    t ← tally active_item_bytes 0 0 (entries db.queue)
    ok (record db { meta = record (db.meta) { count = t.0; bytes = t.1 } })

  unfoldable pub rebuild_dead_stats : Db → Result Db
  unfolding tally
  rebuild_dead_stats db = do
    t ← tally encoding.dead_json_len 0 0 (entries db.dead_letter)
    ok (record db { meta = record (db.meta) { dead_count = t.0; dead_bytes = t.1 } })
