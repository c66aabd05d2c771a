-- ===== src/Store/Ledger/Unlock.antt =====
-- When `FinalizeArchive` of internal/store/store.go succeeds.
use lark_git_webhook.Base.{
  ◌≡◌, refl, sym, ◌∙◌, true, Option, none, some, [], Bool-cases, inl, inr, ℕ,
}
use lark_git_webhook.Base.Bytes.{Bytes}
use lark_git_webhook.Bolt.{Bolt}
use lark_git_webhook.Bolt.Totals.{All-lookup}
use lark_git_webhook.Store.Error.{ok}
use lark_git_webhook.Store.Types.{Item, DeliveryState, Stored, json, malformed, Encoding}
use lark_git_webhook.Store.Keys.{number_key}
use lark_git_webhook.Store.Db.{Db, Store}
use lark_git_webhook.Store.Db.Transactions.{update_ok}
use lark_git_webhook.Store.Delivery.{
  unlock_queued, finalize_state, finalize_archive_tx, finalize_archive,
}
use lark_git_webhook.Store.Ledger.{
  Limits, IsBounded, limits_of, ledger, IsQueued, IsBalanced, IsSound,
}
use lark_git_webhook.Store.Ledger.Archive.{unlocked, unlock_item_lem}

module _ ⦃bolt : Bolt⦄ ⦃encoding : Encoding⦄ where
  open bolt use {get, put, entries, get_entries}

  module _ (m : Limits) (limits : IsBounded m) (db : Db) (b : IsBalanced m (ledger db)) where
    unlock_queued_ok : (n : ℕ) → (db' : Db) × (unlock_queued n db ≡ ok db')
    unfolding unlock_queued
    unlock_queued_ok n = go (get db.queue (number_key n)) refl
      where
        go :
            (o : Option (Stored Item))
            → get db.queue (number_key n) ≡ o
            → (db' : Db) × (unlock_queued n db ≡ ok db')
        go none e = (db, rw (unlock_queued, e) refl)
        go (some (json item)) e =
            (unlocked n item db, rw (unlock_queued, e) (unlock_item_lem m limits db b n item e))
        go (some malformed) e = absurd (
            All-lookup (IsQueued db.meta.next) (number_key n) malformed (entries db.queue) b.queued
              (sym (get_entries db.queue (number_key n)) ∙ e))

    finalize_tx_ok :
        (id : Bytes) (state : DeliveryState)
        → get db.delivery_state id ≡ some (json state)
        → (db' : Db) × (finalize_archive_tx id db ≡ ok (tt, db'))
    unfolding finalize_archive_tx finalize_state
    finalize_tx_ok id state there = elim (Bool-cases state.archived) [
      | inl c ↦ (db, rw (finalize_archive_tx, there, finalize_state, c) refl)
      | inr c ↦
          let (d, u) = unlock_queued_ok state.sequence in
          (
            record d {
              delivery_state =
                  put d.delivery_state id (json (record state { archived = true; raw_json = [] }));
            },
            rw (finalize_archive_tx, there, finalize_state, c, u) refl,
          )
    ]

  -- On a sound store, `FinalizeArchive` succeeds for every delivery whose state is kept and decodes:
  -- its tests for an underflow or an overflow of the queue's bytes never fail.
  pub finalize_archive-succeeds :
      (s : Store) (db : Db) (id : Bytes) (state : DeliveryState)
      → IsBounded (limits_of s)
      → IsSound s
      → s.db ≡ some db
      → get db.delivery_state id ≡ some (json state)
      → (t : Store) × (finalize_archive s id ≡ (ok tt, t))
  unfolding finalize_archive
  finalize_archive-succeeds s db id state limits sound e there =
      let b : IsBalanced (limits_of s) (ledger db) = rw e at sound in
      let (db', made) = finalize_tx_ok (limits_of s) limits db b id state there in
      (record s { db = some db' }, update_ok s (finalize_archive_tx id) db db' e made)
