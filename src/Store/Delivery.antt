-- ===== src/Store/Delivery.antt =====
-- The permanent state of a delivery in internal/store/store.go: `FinalizeArchive`,
-- `ClaimSubscriptionReply`, `LookupDelivery` and `PendingArchives`.
pub mod Identity
pub mod Finalize
use lark_git_webhook.Base.{
  ℕ, zero, suc, ◌+◌, ◌-◌, Bool, true, false, Option, none, some, List, [], ◌∷◌, ltb, if◌then◌else◌,
}
use lark_git_webhook.Base.Bytes.{Bytes}
use lark_git_webhook.Base.Words.{u64}
use lark_git_webhook.Bolt.{Bolt}
use lark_git_webhook.Bolt.Assoc.{Entries}
use lark_git_webhook.Store.Error.{
  Result, ok, err, ◌>>=◌, not_found, stats_underflow, stats_overflow,
}
use lark_git_webhook.Store.Types.{Item, DeliveryState, Stored, json, malformed, unmarshal, Encoding}
use lark_git_webhook.Store.Keys.{number_key}
use lark_git_webhook.Store.Db.{Db, Store, update, view}
use lark_git_webhook.Store.Accounting.{active_item_bytes}
use lark_git_webhook.Store.Admission.{recognise}

module _ ⦃bolt : Bolt⦄ ⦃encoding : Encoding⦄ where
  open bolt use {get, put, entries}

  -- The queued item becomes deliverable, and its bytes are counted anew.
  unfoldable pub unlock_item : ℕ → Stored Item → Db → Result Db
  unlock_item sequence value db = do
    item ← unmarshal value
    let old_bytes = active_item_bytes item
    let item' = record item { archived = true }
    let new_bytes = active_item_bytes item'
    if ltb db.meta.bytes old_bytes
        then err stats_underflow
        else if ltb (u64 - 1 - (db.meta.bytes - old_bytes)) new_bytes
        then err stats_overflow
        else ok (record db {
          meta = record (db.meta) { bytes = db.meta.bytes - old_bytes + new_bytes };
          queue = put db.queue (number_key sequence) (json item');
        })

  unfoldable pub unlock_queued : ℕ → Db → Result Db
  unfolding unlock_item
  unlock_queued sequence db = elim (get db.queue (number_key sequence)) [
    | none ↦ ok db
    | some value ↦ unlock_item sequence value db
  ]

  unfoldable pub finalize_state : Bytes → DeliveryState → Db → Result (Unit {0} × Db)
  unfolding unlock_queued
  finalize_state id state db = if state.archived then ok (tt, db) else (do
    db' ← unlock_queued state.sequence db
    ok (
      tt,
      record db' {
        delivery_state =
            put db'.delivery_state id (json (record state { archived = true; raw_json = [] }));
      },
    ))

  unfoldable pub finalize_archive_tx : Bytes → Db → Result (Unit {0} × Db)
  unfolding finalize_state
  finalize_archive_tx id db = elim (get db.delivery_state id) [
    | none ↦ err not_found
    | some value ↦ (do state ← unmarshal value; finalize_state id state db)
  ]

  unfoldable pub finalize_archive : Store → Bytes → Result (Unit {0}) × Store
  unfolding finalize_archive_tx
  finalize_archive s id = update s (finalize_archive_tx id)

  unfoldable pub claim_state : Bytes → DeliveryState → Db → Bool × Db
  claim_state id state db = if state.subscription_reply_claimed then (false, db) else (
    true,
    record db {
      delivery_state =
          put db.delivery_state id (json (record state { subscription_reply_claimed = true }));
    },
  )

  unfoldable pub claim_subscription_reply_tx : Bytes → Db → Result (Bool × Db)
  unfolding claim_state
  claim_subscription_reply_tx id db = elim (get db.delivery_state id) [
    | none ↦ err not_found
    | some value ↦ (do state ← unmarshal value; ok (claim_state id state db))
  ]

  unfoldable pub claim_subscription_reply : Store → Bytes → Result Bool × Store
  unfolding claim_subscription_reply_tx
  claim_subscription_reply s id = update s (claim_subscription_reply_tx id)

  -- `some` is the found state.
  unfoldable pub lookup_delivery : Store → Bytes → Bytes → Bytes → Result (Option DeliveryState)
  unfolding recognise
  lookup_delivery s id event raw = view s λ db. elim (get db.delivery_state id) [
    | none ↦ ok none
    | some value ↦ (do
      state ← recognise event raw value
      ok (some (record state { delivery_id = id })))
  ]

  -- At most `left` more states; what stands after the last one taken is not decoded.
  unfoldable pub pending_loop : ℕ → Entries (Stored DeliveryState) → Result (List DeliveryState)
  pending_loop left [] = ok []
  pending_loop zero (entry ∷ rest) = ok []
  pending_loop (suc left) ((id, malformed) ∷ rest) = unmarshal malformed
  pending_loop (suc left) ((id, json state) ∷ rest) =
      let skip = pending_loop (suc left) rest in
      let take = (do
        more ← pending_loop left rest
        ok (record state { delivery_id = id } ∷ more)) in
      if state.archived then skip else take

  unfoldable pub pending_archives : Store → ℕ → Result (List DeliveryState)
  unfolding pending_loop
  pending_archives s limit = view s λ db. pending_loop limit (entries db.delivery_state)
