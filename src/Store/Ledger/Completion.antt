-- ===== src/Store/Ledger/Completion.antt =====
-- `CompleteChatDelivery` of internal/store/store.go, and the books of the queue.
use lark_git_webhook.Base.{
  keep, length, ◌≤◌, ◌≡◌, refl, sym, subst, inl, inr, Bool, true, false, not, ◌&&◌, ◌||◌, Option,
  none, some, List, [], ◌∷◌, arith, ltb, ◌==◌, Bool-cases,
}
use lark_git_webhook.Base.Bytes.{Bytes, same}
use lark_git_webhook.Bolt.{Bolt}
use lark_git_webhook.Store.Error.{ok, >>=-eq_ok}
use lark_git_webhook.Store.Types.{Item, Status, delivered, Stored, json, malformed, Encoding}
use lark_git_webhook.Store.Keys.{number_key}
use lark_git_webhook.Store.Db.{Db}
use lark_git_webhook.Store.Accounting.{active_item_bytes, active_fields, rebuild_active_stats}
use lark_git_webhook.Store.Queue.{
  set_status, other_than, take_delivered, complete_item, complete_one, complete_loop, complete_tx,
}
use lark_git_webhook.Store.Ledger.{Limits, IsBounded, Ledger, ledger, IsBalanced-of_eq, KeepsBooks}
use lark_git_webhook.Store.Ledger.Moves.{
  QueueFits, QueueFits-of_balanced, QueueFits-delete, QueueFits-put, queued_item,
}
use lark_git_webhook.Store.Ledger.Frame.{ledger-set_status}
use lark_git_webhook.Store.Ledger.Recount.{recount_active_IsBalanced}

module _ ⦃bolt : Bolt⦄ ⦃encoding : Encoding⦄ (m : Limits) where
  open bolt use {Bucket, get, put, delete}

  -- A change of the queue alone, within the limits.
  abbrev pub StaysFit : Db → Db → Type 0
  StaysFit db db' =
      QueueFits m db'.meta.next db'.queue × (ledger db' ≡ record (ledger db) { queue = db'.queue })

  pub set_status-StaysFit :
      (st : Status) (id : Bytes) (db db' : Db) (q : Bucket (Stored Item))
      → QueueFits m db.meta.next q
      → set_status st id (record db { queue = q }) ≡ ok db'
      → StaysFit db db'
  set_status-StaysFit st id db db' q f h =
      let e : ledger db' ≡ ledger (record db { queue = q }) =
        ledger-set_status st id (record db { queue = q }) db' h in
      (subst (λ (l : Ledger). QueueFits m l.next l.queue) (sym e) f, cc)

  fewer_bytes :
      (item : Item) (p : Bytes → Bool)
      → active_item_bytes (record item { chat_ids = keep p item.chat_ids }) ≤ active_item_bytes item
  unfolding active_item_bytes
  fewer_bytes item p = omega (arith, encoding.fewer_chats (active_fields item) p)

  complete_item-StaysFit :
      (chat : Bytes) (current : Item) (db db' : Db)
      → QueueFits m db.meta.next db.queue
      → get db.queue (number_key current.sequence) ≡ some (json current)
      → current.sequence ≤ db.meta.next
      → complete_item chat current db ≡ ok db'
      → StaysFit db db'
  unfolding complete_item take_delivered
  complete_item-StaysFit chat current db db' f there handed h =
      elim (Bool-cases (length current.chat_ids == 0 && not (same chat []) || unchanged)) [
        | inl e ↦ let same_db : db ≡ db' = ground arith in subst (StaysFit db) same_db (f, refl)
        | inr e ↦ elim (Bool-cases (ltb 0 (length remaining))) [
          | inl more ↦ subst (StaysFit db) (shrunk e more) (smaller, refl)
          | inr last ↦
              set_status-StaysFit delivered current.delivery_id db db'
                (delete db.queue (number_key current.sequence))
                (QueueFits-delete m db.meta.next db.queue (number_key current.sequence) f)
                (rw (e, last) at h)
        ]
      ]
    where
      remaining : List Bytes
      remaining = keep (other_than chat) current.chat_ids

      unchanged : Bool
      unchanged = ltb 0 (length current.chat_ids) && (length remaining == length current.chat_ids)

      shorter : Item
      shorter = record current { chat_ids = remaining }

      rest : Db
      rest = record db { queue = put db.queue (number_key current.sequence) (json shorter) }

      smaller : QueueFits m db.meta.next rest.queue
      smaller =
          QueueFits-put m db.meta.next db.queue current shorter there
            (fewer_bytes current (other_than chat)) handed f

      shrunk :
          (length current.chat_ids == 0 && not (same chat []) || unchanged) ≡ false
          → ltb 0 (length remaining) ≡ true
          → rest ≡ db'
      shrunk e more = ground arith

  complete_one-StaysFit :
      (chat : Bytes) (item : Item) (db db' : Db)
      → QueueFits m db.meta.next db.queue
      → complete_one chat item db ≡ ok db'
      → StaysFit db db'
  unfolding complete_one
  complete_one-StaysFit chat item db db' f h = go (get db.queue (number_key item.sequence)) refl
    where
      go :
          (o : Option (Stored Item)) → get db.queue (number_key item.sequence) ≡ o → StaysFit db db'
      go none e = let same_db : db ≡ db' = ground arith in subst (StaysFit db) same_db (f, refl)
      go (some malformed) e = absurd (ground arith)
      go (some (json current)) e =
          let (key, handed) =
            queued_item db.meta.next db.queue (number_key item.sequence) current f.queued e in
          complete_item-StaysFit chat current db db' f
            (subst (λ k. get db.queue k ≡ some (json current)) key e) handed
            (rw (e, complete_one) at h)

  complete_loop-StaysFit :
      (chat : Bytes) (items : List Item) (db db' : Db)
      → QueueFits m db.meta.next db.queue
      → complete_loop chat items db ≡ ok db'
      → StaysFit db db'
  unfolding complete_loop
  complete_loop-StaysFit chat [] db db' f h =
      let same_db : db ≡ db' = ground arith in subst (StaysFit db) same_db (f, refl)
  complete_loop-StaysFit chat (item ∷ items) db db' f h =
      let (d, e, g) = >>=-eq_ok (complete_one chat item db) (λ d. complete_loop chat items d) h in
      let (fit, books) = complete_one-StaysFit chat item db d f e in
      let (fit', books') = complete_loop-StaysFit chat items d db' fit g in (fit', cc)

  pub complete_tx_keeps :
      IsBounded m → (items : List Item) (chat : Bytes) → KeepsBooks m (complete_tx items chat)
  unfolding complete_tx
  complete_tx_keeps limits items chat db a db' b h =
      let (d, e, g) = >>=-eq_ok (complete_loop chat items db) _ h in
      let (d', e', g') = >>=-eq_ok (rebuild_active_stats d) (λ d'. ok (tt, d')) g in
      let (fit, books) =
        complete_loop-StaysFit chat items db d (QueueFits-of_balanced m (ledger db) b) e in
      IsBalanced-of_eq m (ledger d') (ledger db') (ground arith) (
        recount_active_IsBalanced m limits (ledger db) d d' fit
          (IsBalanced-of_eq m (ledger db) (record (ledger db) { next = d.meta.next }) (cc) b) (cc)
          (cc) (cc) e')
