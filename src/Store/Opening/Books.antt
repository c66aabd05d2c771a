-- ===== src/Store/Opening/Books.antt =====
-- What `Open` of internal/store/store.go makes of buckets that an earlier run left behind.
use lark_git_webhook.Base.{◌<◌, ◌≡◌, refl, sym, ◌∙◌, subst, false, some, [], ◌∷◌, arith, ℕ}
use lark_git_webhook.Base.Bytes.{Bytes}
use lark_git_webhook.Base.Words.{u64}
use lark_git_webhook.Bolt.{Bolt}
use lark_git_webhook.Bolt.Assoc.{Entries}
use lark_git_webhook.Bolt.Totals.{All}
use lark_git_webhook.Store.Error.{ok}
use lark_git_webhook.Store.Types.{
  Time, Item, DeadItem, DeliveryState, Stored, json, malformed, Encoding,
}
use lark_git_webhook.Store.Db.{Db, Store}
use lark_git_webhook.Store.Ledger.{
  Limits, IsBounded, limits_of, Ledger, ledger, IsQueued, IsBuried, IsBalanced, IsBalanced-of_eq,
  IsSound,
}
use lark_git_webhook.Store.Ledger.Frame.{ledger-evict_dedupe}
use lark_git_webhook.Store.Ledger.Moves.{QueueFits}
use lark_git_webhook.Store.Ledger.Recount.{
  LettersFit, count_active, count_dead, rebuild_active_lem, rebuild_dead_lem,
}
use lark_git_webhook.Store.Opening.{
  clear_index, reindex_entry, reindex_loop, rebuild_dedupe, add_state, queued_state, dead_state,
  queued_states, dead_states, rebuild_delivery_states, open_tx, open_store,
}

module _ ⦃bolt : Bolt⦄ ⦃encoding : Encoding⦄ where
  open bolt use {Bucket, entries}

  ledger-reindex_entry :
      (now : Time) (id value : Bytes) (count : ℕ) (db : Db)
      → ledger (reindex_entry now id value (count, db)).1 ≡ ledger db
  unfolding reindex_entry
  ledger-reindex_entry now id value count db = ground arith

  ledger-reindex_loop :
      (now : Time) (l : Entries Bytes) (r : ℕ × Db) → ledger (reindex_loop now l r).1 ≡ ledger r.1
  unfolding reindex_loop
  ledger-reindex_loop now [] r = refl
  ledger-reindex_loop now ((id, value) ∷ rest) (count, db) =
      ledger-reindex_loop now rest (reindex_entry now id value (count, db))
      ∙ ledger-reindex_entry now id value count db

  ledger-rebuild_dedupe :
      (now : Time) (max : ℕ) (db : Db) → ledger (rebuild_dedupe now max db) ≡ ledger db
  unfolding rebuild_dedupe
  ledger-rebuild_dedupe now max db =
      let cleared : Db = record db {
        dedupe_expiry = clear_index (entries db.dedupe_expiry) db.dedupe_expiry;
      } in
      let r = reindex_loop now (entries db.dedupe) (0, cleared) in
      let db' : Db = r.1 in
      ledger-evict_dedupe max (record db' { meta = record (db'.meta) { dedupe_count = r.0 } })
      ∙ ledger-reindex_loop now (entries db.dedupe) (0, cleared)

  queued_states_ok :
      (next : ℕ) (l : Entries (Stored Item)) (states : Bucket (Stored DeliveryState))
      → All (IsQueued next) l
      → (states' : Bucket (Stored DeliveryState)) × (queued_states l states ≡ ok states')
  unfolding queued_states
  queued_states_ok next [] states a = (states, refl)
  queued_states_ok next ((k, malformed) ∷ rest) states a = absurd a.0
  queued_states_ok next ((k, json item) ∷ rest) states a =
      queued_states_ok next rest (add_state item.delivery_id (queued_state item) states) a.1

  dead_states_ok :
      (next : ℕ) (l : Entries (Stored DeadItem)) (states : Bucket (Stored DeliveryState))
      → All (IsBuried next) l
      → (states' : Bucket (Stored DeliveryState)) × (dead_states l states ≡ ok states')
  unfolding dead_states
  dead_states_ok next [] states a = (states, refl)
  dead_states_ok next ((k, malformed) ∷ rest) states a = absurd a.0
  dead_states_ok next ((k, json d) ∷ rest) states a =
      dead_states_ok next rest (add_state d.item.delivery_id (dead_state d) states) a.1

  states_ok :
      (next : ℕ) (db : Db)
      → All (IsQueued next) (entries db.queue)
      → All (IsBuried next) (entries db.dead_letter)
      → (db' : Db) × (rebuild_delivery_states db ≡ ok db') × (ledger db' ≡ ledger db)
  unfolding rebuild_delivery_states
  states_ok next db q d =
      let (states, e) = queued_states_ok next (entries db.queue) db.delivery_state q in
      let (states', e') = dead_states_ok next (entries db.dead_letter) states d in
      (record db { delivery_state = states' }, rw (rebuild_delivery_states, e, e') refl, refl)

  module _ (m : Limits) (limits : IsBounded m) where
    balanced :
        (db : Db)
        → QueueFits m db.meta.next db.queue
        → LettersFit m db.meta.next db.dead_letter
        → db.meta.next < u64
        → IsBalanced m (ledger (count_dead (count_active db)))
    balanced db f g n = record {
      counted = refl;
      weighed = refl;
      dead_counted = refl;
      dead_weighed = refl;
      items_kept = f.items_kept;
      bytes_kept = f.bytes_kept;
      dead_items_kept = g.items_kept;
      dead_bytes_kept = g.bytes_kept;
      queued = f.queued;
      buried = g.buried;
      numbered = n;
    }

    open_tx_lem :
        (now : Time) (max : ℕ) (db : Db)
        → QueueFits m db.meta.next db.queue
        → LettersFit m db.meta.next db.dead_letter
        → db.meta.next < u64
        → (db' : Db) × (open_tx now max db ≡ ok db') × IsBalanced m (ledger db')
    unfolding open_tx
    open_tx_lem now max db f g n =
        let d = rebuild_dedupe now max db in
        let same_ledger = sym (ledger-rebuild_dedupe now max db) in
        let f' = subst (λ (l : Ledger). QueueFits m l.next l.queue) same_ledger f in
        let g' = subst (λ (l : Ledger). LettersFit m l.next l.dead_letter) same_ledger g in
        let n' = subst (λ (l : Ledger). l.next < u64) same_ledger n in
        let (db', e, kept) =
          states_ok d.meta.next (count_dead (count_active d)) f'.queued g'.buried in
        (
          db',
          rw
              (
                open_tx,
                rebuild_active_lem m limits d f',
                rebuild_dead_lem m limits (count_active d) g',
                e,
              )
              refl,
          IsBalanced-of_eq m (ledger (count_dead (count_active d))) (ledger db') (sym kept)
              (balanced d f' g' n'),
        )

  pub open_store-IsSound :
      (now : Time) (db : Db) (dedupe_max : ℕ) (m : Limits)
      → IsBounded m
      → QueueFits m db.meta.next db.queue
      → LettersFit m db.meta.next db.dead_letter
      → db.meta.next < u64
      → (t : Store) × (open_store now db m.max_items m.max_bytes dedupe_max m.dead_max_items
            m.dead_max_bytes
          ≡ ok t)
        × (limits_of t ≡ m)
        × IsSound t
  unfolding open_store
  open_store-IsSound now db dedupe_max m limits f g n =
      let (db', e, b) = open_tx_lem m limits now dedupe_max db f g n in
      (
        record {
          db = some db';
          max_items = m.max_items;
          max_bytes = m.max_bytes;
          dedupe_max_items = dedupe_max;
          dead_max_items = m.dead_max_items;
          dead_max_bytes = m.dead_max_bytes;
          consumer_held = false;
        },
        rw (open_store, e) refl,
        refl,
        b,
      )
