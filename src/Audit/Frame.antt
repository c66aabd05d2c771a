-- ===== src/Audit/Frame.antt =====
-- What admitting a delivery in internal/store/store.go leaves of the audit checkpoints.
use lark_git_webhook.Base.{
  ◌≡◌, refl, ap, ◌∙◌, ℕ, zero, suc, Option, none, some, List, [], ◌∷◌, arith, length, inl, inr,
  List-cases,
}
use lark_git_webhook.Base.Bytes.{Bytes}
use lark_git_webhook.Base.Words.{sub64}
use lark_git_webhook.Bolt.{Bolt}
use lark_git_webhook.Bolt.Assoc.{Entries}
use lark_git_webhook.Store.Error.{Result, ok, err, >>=-eq_ok}
use lark_git_webhook.Store.Types.{Time, DeliveryState, Stored, Encoding}
use lark_git_webhook.Store.Db.{Db, Store, update, commit}
use lark_git_webhook.Store.Dedupe.{
  drop_entry, cleanup_loop, cleanup_dedupe, evict_loop, evict_dedupe, remember,
}
use lark_git_webhook.Store.Admission.{push_item, make_room, admit_new, recognise, admit_tx, admit}
use lark_git_webhook.Store.Delivery.{
  unlock_item, unlock_queued, finalize_state, finalize_archive_tx, finalize_archive,
}

module _ ⦃bolt : Bolt⦄ where
  open bolt use {Bucket, entries, get}

  abbrev pub Stamps : Type 0
  Stamps = Bucket (Stored Time) × Bucket (Stored Time)

  -- The two buckets of the checkpoints.
  abbrev pub stamps : Db → Stamps
  stamps db = (db.audit_checkpoint, db.audit_bootstrap)

  abbrev pub store_stamps : Store → Option Stamps
  store_stamps s = elim s.db [ none ↦ none | some db ↦ some (stamps db) ]

  -- A transaction that leaves the checkpoints alone.
  abbrev pub LeavesStamps : {A : Type 0} → (Db → Result (A × Db)) → Type 0
  LeavesStamps {A} f = (db : Db) (a : A) (db' : Db) → f db ≡ ok (a, db') → stamps db' ≡ stamps db

  stamps-commit :
      {A : Type 0} (s : Store) (db : Db) (r : Result (A × Db))
      → store_stamps s ≡ some (stamps db)
      → ((a : A) (db' : Db) → r ≡ ok (a, db') → stamps db' ≡ stamps db)
      → store_stamps (commit s r).1 ≡ some (stamps db)
  stamps-commit s db (ok (a, db')) e leaves = ap some (leaves a db' refl)
  stamps-commit s db (err why) e leaves = e

  pub stamps-update :
      {A : Type 0} (s : Store) (f : Db → Result (A × Db))
      → LeavesStamps f
      → store_stamps (update s f).1 ≡ store_stamps s
  stamps-update {A} s f leaves = go s.db refl
    where
      go : (o : Option Db) → s.db ≡ o → store_stamps (update s f).1 ≡ store_stamps s
      go none e = rw e refl
      go (some db) e = rw e (stamps-commit (record s { db = some db }) db (f db) refl (leaves db))

  stamps-drop_entry : (k id : Bytes) (db : Db) → stamps (drop_entry k id db) ≡ stamps db
  unfolding drop_entry
  stamps-drop_entry k id db = ground arith

  stamps-cleanup_loop :
      (now : Time) (left : ℕ) (l : Entries Bytes) (db : Db)
      → stamps (cleanup_loop now left l db) ≡ stamps db
  unfolding cleanup_loop
  stamps-cleanup_loop now left [] db = refl
  stamps-cleanup_loop now zero ((k, id) ∷ l) db = refl
  stamps-cleanup_loop now (suc left) ((k, id) ∷ l) db =
      ground (arith, stamps-cleanup_loop now left l (drop_entry k id db), stamps-drop_entry k id db)

  stamps-evict_loop : (fuel max : ℕ) (db : Db) → stamps (evict_loop fuel max db) ≡ stamps db
  unfolding evict_loop
  stamps-evict_loop zero max db = refl
  stamps-evict_loop (suc fuel) max db = elim (List-cases (entries db.dedupe_expiry)) [
    | inl e ↦ ground arith
    | inr (a, rest, e) ↦
        ground
          (arith, stamps-evict_loop fuel max (drop_entry a.0 a.1 db), stamps-drop_entry a.0 a.1 db)
  ]

module _ ⦃bolt : Bolt⦄ ⦃encoding : Encoding⦄ where
  open bolt use {entries, get}

  stamps-make_room : (s : Store) (now : Time) (db : Db) → stamps (make_room s now db) ≡ stamps db
  unfolding make_room evict_dedupe cleanup_dedupe
  stamps-make_room s now db =
      stamps-evict_loop (suc (length (entries (cleanup_dedupe now 1000 db).dedupe_expiry)))
        (sub64 s.dedupe_max_items 1) (cleanup_dedupe now 1000 db)
      ∙ stamps-cleanup_loop now 1000 (entries db.dedupe_expiry) db

  admit_new-LeavesStamps :
      (s : Store) (id event raw : Bytes) (chats : List Bytes) (now : Time) (ttl : ℕ)
      → LeavesStamps (admit_new s id event raw chats now ttl)
  unfolding admit_new push_item remember
  admit_new-LeavesStamps s id event raw chats now ttl db a db' h =
      ground (arith, stamps-make_room s now db)

  admit_tx-LeavesStamps :
      (s : Store) (id event raw : Bytes) (chats : List Bytes) (now : Time) (ttl : ℕ)
      → LeavesStamps (admit_tx s id event raw chats now ttl)
  unfolding admit_tx
  admit_tx-LeavesStamps s id event raw chats now ttl db a db' h = go (get db.delivery_state id) refl
    where
      go :
          (o : Option (Stored DeliveryState))
          → get db.delivery_state id ≡ o
          → stamps db' ≡ stamps db
      go none e =
          admit_new-LeavesStamps s id event raw chats now ttl db a db' (rw (e, admit_tx) at h)
      go (some value) e =
          let (state, m, rest) = >>=-eq_ok (recognise event raw value) _ (rw (e, admit_tx) at h) in
          ground arith

  pub admit-stamps :
      (s : Store) (id event raw : Bytes) (chats : List Bytes) (now : Time) (ttl : ℕ)
      → store_stamps (admit s id event raw chats now ttl).1 ≡ store_stamps s
  unfolding admit
  admit-stamps s id event raw chats now ttl =
      stamps-update s (admit_tx s id event raw chats now ttl)
        (admit_tx-LeavesStamps s id event raw chats now ttl)

  finalize_tx-LeavesStamps : (id : Bytes) → LeavesStamps (finalize_archive_tx id)
  unfolding finalize_archive_tx finalize_state unlock_queued unlock_item
  finalize_tx-LeavesStamps id db a db' h = ground arith

  pub finalize-stamps :
      (s : Store) (id : Bytes) → store_stamps (finalize_archive s id).1 ≡ store_stamps s
  unfolding finalize_archive
  finalize-stamps s id = stamps-update s (finalize_archive_tx id) (finalize_tx-LeavesStamps id)
