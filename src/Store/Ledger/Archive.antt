-- ===== src/Store/Ledger/Archive.antt =====
-- `FinalizeArchive` of internal/store/store.go, and the books of the queue.
use lark_git_webhook.Base.Bytes.{Bytes}
use lark_git_webhook.Bolt.{Bolt}
use lark_git_webhook.Store.Error.{Result, ok, >>=-eq_ok}
use lark_git_webhook.Store.Types.{Item, DeliveryState, Stored, json, malformed, Encoding}
use lark_git_webhook.Store.Keys.{number_key}
use lark_git_webhook.Store.Db.{Db}
use lark_git_webhook.Store.Accounting.{active_item_bytes}
use lark_git_webhook.Store.Delivery.{
  unlock_item, unlock_queued, finalize_state, finalize_archive_tx,
}
use lark_git_webhook.Store.Ledger.{
  Limits, IsBounded, ledger, IsBalanced, IsBalanced-of_eq, KeepsBooks,
}
use lark_git_webhook.Store.Ledger.Moves.{replace-IsBalanced, item-le-bytes}
use lark_git_webhook.Base.{ℕ, ◌≡◌, refl, inl, inr, true, Option, none, some, [], arith, Bool-cases}

module _ ⦃bolt : Bolt⦄ ⦃encoding : Encoding⦄ where
  open bolt use {get, put}

  -- The archived flag is not among the measured fields.
  archived_size :
      (item : Item) → active_item_bytes (record item { archived = true }) ≡ active_item_bytes item
  unfolding active_item_bytes
  archived_size item = refl

  -- The item as it is deliverable, and nothing else.
  abbrev pub unlocked : ℕ → Item → Db → Db
  unlocked n item db = record db {
    queue = put db.queue (number_key n) (json (record item { archived = true }));
  }

  module _ (m : Limits) (limits : IsBounded m) (db : Db) (b : IsBalanced m (ledger db)) where
    -- Neither of the two tests of the statistics can fail.
    pub unlock_item_lem :
        (n : ℕ) (item : Item)
        → get db.queue (number_key n) ≡ some (json item)
        → unlock_item n (json item) db ≡ ok (unlocked n item db)
    unfolding unlock_item
    unlock_item_lem n item there = ground (
      arith,
      archived_size item,
      item-le-bytes m (ledger db) (number_key n) item b there,
      b.bytes_kept,
      limits.bytes_fit,
    )

    unlocked-IsBalanced :
        (n : ℕ) (item : Item)
        → get db.queue (number_key n) ≡ some (json item)
        → IsBalanced m (ledger (unlocked n item db))
    unlocked-IsBalanced n item there =
        replace-IsBalanced m (ledger db) (number_key n) item (record item { archived = true }) b
          there (archived_size item) refl

    unlock_queued_keeps :
        (n : ℕ) (db' : Db) → unlock_queued n db ≡ ok db' → IsBalanced m (ledger db')
    unfolding unlock_queued
    unlock_queued_keeps n db' h = go (get db.queue (number_key n)) refl
      where
        go :
            (o : Option (Stored Item)) → get db.queue (number_key n) ≡ o → IsBalanced m (ledger db')
        go none e = IsBalanced-of_eq m (ledger db) (ledger db') (ground arith) b
        go (some (json item)) e =
            IsBalanced-of_eq m (ledger (unlocked n item db)) (ledger db')
              (ground (arith, unlock_item_lem n item e)) (unlocked-IsBalanced n item e)
        go (some malformed) e = absurd (ground arith)

    abbrev finished : Bytes → DeliveryState → Db → Result (Unit {0} × Db)
    finished id state d = ok (
      tt,
      record d {
        delivery_state =
            put d.delivery_state id (json (record state { archived = true; raw_json = [] }));
      },
    )

    finalize_state_keeps :
        (id : Bytes) (state : DeliveryState) (a : Unit {0}) (db' : Db)
        → finalize_state id state db ≡ ok (a, db')
        → IsBalanced m (ledger db')
    unfolding finalize_state
    finalize_state_keeps id state a db' h = elim (Bool-cases state.archived) [
      | inl e ↦ IsBalanced-of_eq m (ledger db) (ledger db') (ground arith) b
      | inr e ↦
          finalize_open
            (>>=-eq_ok (unlock_queued state.sequence db) _ (rw (e, finalize_state) at h))
    ]
      where
        finalize_open :
            (d : Db) × (unlock_queued state.sequence db ≡ ok d)
              × (finished id state d ≡ ok (a, db'))
            → IsBalanced m (ledger db')
        finalize_open (d, e, f) =
            IsBalanced-of_eq m (ledger d) (ledger db') (ground arith)
              (unlock_queued_keeps state.sequence d e)

  pub finalize_archive_tx_keeps :
      (m : Limits) → IsBounded m → (id : Bytes) → KeepsBooks m (finalize_archive_tx id)
  unfolding finalize_archive_tx
  finalize_archive_tx_keeps m limits id db a db' b h = go (get db.delivery_state id) refl
    where
      go :
          (o : Option (Stored DeliveryState))
          → get db.delivery_state id ≡ o
          → IsBalanced m (ledger db')
      go none e = absurd (ground arith)
      go (some malformed) e = absurd (ground arith)
      go (some (json state)) e =
          finalize_state_keeps m limits db b id state a db' (rw (e, finalize_archive_tx) at h)
