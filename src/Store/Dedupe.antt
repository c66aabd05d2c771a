-- ===== src/Store/Dedupe.antt =====
-- The deduplication window of internal/store/store.go: `dedupe` holds the encoded expiry of each
-- delivery, and `dedupe_expiry` indexes the deliveries by expiry and identifier.
pub mod Bound
use lark_git_webhook.Base.{
  ℕ, length, zero, suc, ◌+◌, ◌-◌, ◌*◌, ◌/◌, ◌%◌, ◌^◌, ◌≤◌, ◌<◌, ◌≡◌, refl, sym, ap, ◌∙◌, subst, ◌≢◌,
  ◌↔◌, ◌⊎◌, inl, inr, Bool, true, false, not, ◌&&◌, ◌||◌, Option, none, some, List, [], ◌∷◌, ◌++◌,
  map, arith, ltb, leb, ◌==◌, if◌then◌else◌, Bool-cases, Option-cases,
}
use lark_git_webhook.Base.Bytes.{Bytes}
use lark_git_webhook.Bolt.{Bolt}
use lark_git_webhook.Bolt.Assoc.{Entries}
use lark_git_webhook.Base.Words.{add64, sub64}
use lark_git_webhook.Store.Types.{Time}
use lark_git_webhook.Store.Keys.{decode_time, time_key, dedupe_index_key}
use lark_git_webhook.Store.Error.{Result, ok}
use lark_git_webhook.Store.Db.{Meta, Db, Store, update}

-- `decrement(meta, keyDedupeCount)`.
unfoldable pub decrement_dedupe : Meta → Meta
decrement_dedupe m =
    if m.dedupe_count == 0 then m else record m { dedupe_count = m.dedupe_count - 1 }

-- `len(stored) == 8 && decodeTime(stored).Equal(expiresAt)`.
unfoldable pub expires_at : Option Bytes → Time → Bool
expires_at none t = false
expires_at (some v) t = (length v == 8) && (decode_time v == t)

module _ ⦃bolt : Bolt⦄ where
  open bolt use {get, put, delete, entries}

  -- The delivery goes if the index entry is its current one.
  unfoldable pub forget : Bytes → Time → Db → Db
  unfolding expires_at decrement_dedupe
  forget id t db =
      if expires_at (get db.dedupe id) t
      then record db { meta = decrement_dedupe db.meta; dedupe = delete db.dedupe id }
      else db

  -- One index entry and what it stands for.
  unfoldable pub drop_entry : Bytes → Bytes → Db → Db
  unfolding forget
  drop_entry key id db =
      let db' = forget id (decode_time key) db in
      record db' { dedupe_expiry = delete db'.dedupe_expiry key }

  -- The cursor loop of `cleanupDedupe`: `left` more entries may be removed.
  unfoldable pub cleanup_loop : Time → ℕ → Entries Bytes → Db → Db
  unfolding drop_entry
  cleanup_loop now left [] db = db
  cleanup_loop now zero ((key, id) ∷ rest) db = db
  cleanup_loop now (suc left) ((key, id) ∷ rest) db =
      if ltb now (decode_time key) then db else cleanup_loop now left rest (drop_entry key id db)

  unfoldable pub cleanup_dedupe : Time → ℕ → Db → Db
  unfolding cleanup_loop
  cleanup_dedupe now limit db = cleanup_loop now limit (entries db.dedupe_expiry) db

  -- The loop of `evictDedupe`: each round removes the first index entry, so one round more than
  -- there are entries is enough.
  unfoldable pub evict_loop : ℕ → ℕ → Db → Db
  unfolding drop_entry
  evict_loop zero max db = db
  evict_loop (suc fuel) max db =
      let next : Db = elim (entries db.dedupe_expiry) [
        | [] ↦ record db { meta = record (db.meta) { dedupe_count = 0 } }
        | (e ∷ rest) ↦ evict_loop fuel max (drop_entry e.0 e.1 db)
      ] in
      if ltb max db.meta.dedupe_count then next else db

  unfoldable pub evict_dedupe : ℕ → Db → Db
  unfolding evict_loop
  evict_dedupe max db = evict_loop (suc (length (entries db.dedupe_expiry))) max db

  -- What `Enqueue` and `admit` write for a new delivery.
  unfoldable pub remember : Bytes → Time → Db → Db
  remember id expiry db = record db {
    meta = record (db.meta) { dedupe_count = add64 db.meta.dedupe_count 1 };
    dedupe = put db.dedupe id (time_key expiry);
    dedupe_expiry = put db.dedupe_expiry (dedupe_index_key expiry id) id;
  }

  -- The expired entry of `Enqueue`, with its index entry.
  unfoldable pub drop_expired : Bytes → Time → Db → Db
  unfolding decrement_dedupe
  drop_expired id t db = record db {
    meta = decrement_dedupe db.meta;
    dedupe = delete db.dedupe id;
    dedupe_expiry = delete db.dedupe_expiry (dedupe_index_key t id);
  }

  unfoldable pub cleanup_tx : Time → ℕ → Db → Result (Unit {0} × Db)
  unfolding cleanup_dedupe
  cleanup_tx now limit db = ok (tt, cleanup_dedupe now limit db)

  -- `CleanupDedupe`.
  unfoldable pub cleanup : Store → Time → ℕ → Result (Unit {0}) × Store
  unfolding cleanup_tx
  cleanup s now limit = update s (cleanup_tx now limit)
