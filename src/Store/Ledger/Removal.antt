-- ===== src/Store/Ledger/Removal.antt =====
-- `Delete` of internal/store/store.go, and the books of the queue.
use lark_git_webhook.Base.Words.{sub64}
use lark_git_webhook.Bolt.{Bolt}
use lark_git_webhook.Store.Error.{ok, >>=-eq_ok}
use lark_git_webhook.Store.Types.{Item, delivered, Stored, json, malformed, Encoding}
use lark_git_webhook.Store.Keys.{number_key}
use lark_git_webhook.Store.Db.{Db}
use lark_git_webhook.Store.Accounting.{active_item_bytes}
use lark_git_webhook.Store.Queue.{set_status, delete_one, delete_loop, delete_tx}
use lark_git_webhook.Store.Ledger.{
  Limits, IsBounded, Ledger, ledger, IsBalanced, IsBalanced-of_eq, KeepsBooks,
}
use lark_git_webhook.Store.Ledger.Moves.{drop-IsBalanced}
use lark_git_webhook.Store.Ledger.Frame.{ledger-set_status}
use lark_git_webhook.Base.{ℕ, ◌≡◌, refl, Option, none, some, List, [], ◌∷◌, arith}

module _ ⦃bolt : Bolt⦄ ⦃encoding : Encoding⦄ (m : Limits) (limits : IsBounded m) where
  open bolt use {get, put, delete}

  -- The books with the counters that `Delete` holds in its variables.
  abbrev with_counters : ℕ → ℕ → Db → Ledger
  with_counters count bytes db = record (ledger db) { count = count; bytes = bytes }

  delete_one_keeps :
      (item : Item) (count bytes : ℕ) (db : Db) (r : ℕ × ℕ × Db)
      → IsBalanced m (with_counters count bytes db)
      → delete_one item count bytes db ≡ ok r
      → IsBalanced m (with_counters r.0 r.1 r.2)
  unfolding delete_one
  delete_one_keeps item count bytes db r b h = go (get db.queue (number_key item.sequence)) refl
    where
      go :
          (o : Option (Stored Item))
          → get db.queue (number_key item.sequence) ≡ o
          → IsBalanced m (with_counters r.0 r.1 r.2)
      go none e =
          IsBalanced-of_eq m (with_counters count bytes db) (with_counters r.0 r.1 r.2)
            (ground arith) b
      go (some malformed) e = absurd (ground arith)
      go (some (json current)) e =
          let removed : Db = record db { queue = delete db.queue (number_key item.sequence) } in
          let (d, f, g) =
            >>=-eq_ok (set_status delivered current.delivery_id removed) _
              (rw (e, delete_one) at h) in
          IsBalanced-of_eq m
            (record (with_counters count bytes db) {
              count = sub64 count 1;
              bytes = sub64 bytes (active_item_bytes current);
              queue = delete db.queue (number_key item.sequence);
            })
            (with_counters r.0 r.1 r.2)
            (ground (arith, ledger-set_status delivered current.delivery_id removed d f))
            (drop-IsBalanced m (with_counters count bytes db) (number_key item.sequence) current
              limits b e)

  delete_loop_keeps :
      (items : List Item) (count bytes : ℕ) (db : Db) (r : ℕ × ℕ × Db)
      → IsBalanced m (with_counters count bytes db)
      → delete_loop items count bytes db ≡ ok r
      → IsBalanced m (with_counters r.0 r.1 r.2)
  unfolding delete_loop
  delete_loop_keeps [] count bytes db r b h =
      IsBalanced-of_eq m (with_counters count bytes db) (with_counters r.0 r.1 r.2) (ground arith) b
  delete_loop_keeps (item ∷ items) count bytes db r b h =
      let (r', e, f) =
        >>=-eq_ok (delete_one item count bytes db) (λ r'. delete_loop items r'.0 r'.1 r'.2) h in
      delete_loop_keeps items r'.0 r'.1 r'.2 r (delete_one_keeps item count bytes db r' b e) f

  pub delete_tx_keeps : (items : List Item) → KeepsBooks m (delete_tx items)
  unfolding delete_tx
  delete_tx_keeps items db a db' b h =
      let (r, e, f) = >>=-eq_ok (delete_loop items db.meta.count db.meta.bytes db) _ h in
      IsBalanced-of_eq m (with_counters r.0 r.1 r.2) (ledger db') (ground arith)
        (delete_loop_keeps items db.meta.count db.meta.bytes db r b e)
