-- ===== src/Store/Ledger/Frame.antt =====
-- The dedupe window and the delivery states of internal/store/store.go, and the queue's books.
use lark_git_webhook.Base.Bytes.{Bytes}
use lark_git_webhook.Base.{length, List-cases}
use lark_git_webhook.Base.Words.{sub64}
use lark_git_webhook.Bolt.{Bolt}
use lark_git_webhook.Bolt.Assoc.{Entries}
use lark_git_webhook.Store.Error.{ok}
use lark_git_webhook.Store.Types.{Time, Status, Encoding}
use lark_git_webhook.Store.Db.{Db, Store}
use lark_git_webhook.Store.Dedupe.{
  drop_entry, cleanup_loop, cleanup_dedupe, evict_loop, evict_dedupe, remember, drop_expired,
}
use lark_git_webhook.Store.Admission.{make_room}
use lark_git_webhook.Store.Queue.{set_status}
use lark_git_webhook.Store.Ledger.{ledger}
use lark_git_webhook.Base.{ℕ, zero, suc, ◌≡◌, refl, ◌∙◌, inl, inr, [], ◌∷◌, arith}

module _ ⦃bolt : Bolt⦄ ⦃encoding : Encoding⦄ where
  open bolt use {get, entries}

  pub ledger-drop_entry : (k id : Bytes) (db : Db) → ledger (drop_entry k id db) ≡ ledger db
  unfolding drop_entry
  ledger-drop_entry k id db = ground arith

  ledger-cleanup_loop :
      (now : Time) (left : ℕ) (l : Entries Bytes) (db : Db)
      → ledger (cleanup_loop now left l db) ≡ ledger db
  unfolding cleanup_loop
  ledger-cleanup_loop now left [] db = refl
  ledger-cleanup_loop now zero ((k, id) ∷ l) db = refl
  ledger-cleanup_loop now (suc left) ((k, id) ∷ l) db =
      ground (arith, ledger-cleanup_loop now left l (drop_entry k id db), ledger-drop_entry k id db)

  pub ledger-cleanup_dedupe :
      (now : Time) (limit : ℕ) (db : Db) → ledger (cleanup_dedupe now limit db) ≡ ledger db
  unfolding cleanup_dedupe
  ledger-cleanup_dedupe now limit db = ledger-cleanup_loop now limit (entries db.dedupe_expiry) db

  ledger-evict_loop : (fuel max : ℕ) (db : Db) → ledger (evict_loop fuel max db) ≡ ledger db
  unfolding evict_loop
  ledger-evict_loop zero max db = refl
  ledger-evict_loop (suc fuel) max db = elim (List-cases (entries db.dedupe_expiry)) [
    | inl e ↦ ground arith
    | inr (a, rest, e) ↦
        ground
          (arith, ledger-evict_loop fuel max (drop_entry a.0 a.1 db), ledger-drop_entry a.0 a.1 db)
  ]

  pub ledger-evict_dedupe : (max : ℕ) (db : Db) → ledger (evict_dedupe max db) ≡ ledger db
  unfolding evict_dedupe
  ledger-evict_dedupe max db = ledger-evict_loop (suc (length (entries db.dedupe_expiry))) max db

  pub ledger-make_room :
      (s : Store) (now : Time) (db : Db) → ledger (make_room s now db) ≡ ledger db
  unfolding make_room
  ledger-make_room s now db =
      ledger-evict_dedupe (sub64 s.dedupe_max_items 1) (cleanup_dedupe now 1000 db)
      ∙ ledger-cleanup_dedupe now 1000 db

  pub ledger-remember : (id : Bytes) (t : Time) (db : Db) → ledger (remember id t db) ≡ ledger db
  unfolding remember
  ledger-remember id t db = refl

  pub ledger-drop_expired :
      (id : Bytes) (t : Time) (db : Db) → ledger (drop_expired id t db) ≡ ledger db
  unfolding drop_expired
  ledger-drop_expired id t db = ground arith

  pub ledger-set_status :
      (st : Status) (id : Bytes) (db db' : Db)
      → set_status st id db ≡ ok db'
      → ledger db' ≡ ledger db
  unfolding set_status
  ledger-set_status st id db db' e = ground arith
