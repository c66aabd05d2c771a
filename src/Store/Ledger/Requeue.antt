-- ===== src/Store/Ledger/Requeue.antt =====
-- `RequeueDeadLetter` of internal/store/store.go, and the books.
use lark_git_webhook.Base.Bytes.{Bytes}
use lark_git_webhook.Base.Words.{u64}
use lark_git_webhook.Bolt.{Bolt}
use lark_git_webhook.Bolt.Totals.{All-insert, All-erase, All-lookup}
use lark_git_webhook.Bolt.Laws.{sum-put, sum-delete}
use lark_git_webhook.Store.Error.{Result, ok, ◌>>=◌, >>=-eq_ok}
use lark_git_webhook.Store.Types.{Time, Item, DeadItem, Stored, json, malformed, Encoding}
use lark_git_webhook.Store.Keys.{number_key}
use lark_git_webhook.Store.Db.{Db, Store}
use lark_git_webhook.Store.Accounting.{active_item_bytes, rebuild_active_stats, rebuild_dead_stats}
use lark_git_webhook.Store.Accounting.Rebuild.{one, size_of}
use lark_git_webhook.Store.Admission.{over_capacity}
use lark_git_webhook.Store.Failure.{revived, requeue_state, requeue_item, requeue_tx}
use lark_git_webhook.Store.Ledger.{
  IsQueued, IsBuried, limits_of, IsBounded, Ledger, ledger, IsBalanced, IsBalanced-of_eq,
  KeepsBooks,
}
use lark_git_webhook.Store.Ledger.Moves.{QueueFits}
use lark_git_webhook.Store.Ledger.Admit.{over_capacity-false}
use lark_git_webhook.Store.Ledger.Recount.{LettersFit, recount_IsBalanced}
use lark_git_webhook.Base.{
  ℕ, ◌≤◌, ◌<◌, ◌≡◌, refl, sym, subst, inl, inr, false, Option, none, some, arith, Bool-cases,
}

module _ ⦃bolt : Bolt⦄ ⦃encoding : Encoding⦄ where
  open bolt use {get, put, delete, entries, get_entries, entries-put, entries-delete}

  ledger-requeue_state :
      (n : ℕ) (id : Bytes) (db db' : Db) → requeue_state n id db ≡ ok db' → ledger db' ≡ ledger db
  unfolding requeue_state
  ledger-requeue_state n id db db' e = ground arith

  module _ (s : Store) (limits : IsBounded (limits_of s)) (db : Db)
      (b : IsBalanced (limits_of s) (ledger db)) where
    requeue_item_keeps :
        (n : ℕ) (item : Item) (a : Unit {0}) (db' : Db)
        → number_key n ≡ number_key item.sequence
        → item.sequence ≤ db.meta.next
        → requeue_item s n item db ≡ ok (a, db')
        → IsBalanced (limits_of s) (ledger db')
    unfolding requeue_item
    requeue_item_keeps n item a db' key handed h =
        elim (Bool-cases (over_capacity s db.meta (active_item_bytes item))) [
          | inl e ↦ absurd (ground arith)
          | inr e ↦ main e (
              >>=-eq_ok (requeue_state n item.delivery_id moved) finish (rw (e, requeue_item) at h))
        ]
      where
        moved : Db
        moved = record db {
          queue = put db.queue (number_key n) (json item);
          dead_letter = delete db.dead_letter (number_key n);
        }

        finish : Db → Result (Unit {0} × Db)
        finish d = do active ← rebuild_active_stats d; d' ← rebuild_dead_stats active; ok (tt, d')

        moved_fits :
            over_capacity s db.meta (active_item_bytes item) ≡ false
            → QueueFits (limits_of s) db.meta.next moved.queue
        moved_fits e =
            let (room, space) = over_capacity-false s db.meta (active_item_bytes item) e in
            record {
              items_kept =
                  omega (arith, b.counted, sum-put one db.queue (number_key n) (json item));
              bytes_kept = omega (
                arith,
                b.weighed,
                sum-put (size_of active_item_bytes) db.queue (number_key n) (json item),
              );
              queued = rw entries-put (
                  All-insert (IsQueued db.meta.next) (number_key n) (json item) (entries db.queue)
                    (key, handed) b.queued);
            }

        left_letters : LettersFit (limits_of s) db.meta.next moved.dead_letter
        left_letters = record {
          items_kept = omega (
            arith,
            b.dead_items_kept,
            b.dead_counted,
            sum-delete one db.dead_letter (number_key n),
          );
          bytes_kept = omega (
            arith,
            b.dead_bytes_kept,
            b.dead_weighed,
            sum-delete (size_of encoding.dead_json_len) db.dead_letter (number_key n),
          );
          buried =
              rw entries-delete (
                All-erase (IsBuried db.meta.next) (number_key n) (entries db.dead_letter) b.buried);
        }

        main :
            over_capacity s db.meta (active_item_bytes item) ≡ false
            → (d : Db) × (requeue_state n item.delivery_id moved ≡ ok d) × (finish d ≡ ok (a, db'))
            → IsBalanced (limits_of s) (ledger db')
        main e (d, f, g) =
            let (d', p, h₁) = >>=-eq_ok (rebuild_active_stats d) _ g in
            let (d'', q, h₂) = >>=-eq_ok (rebuild_dead_stats d') (λ x. ok (tt, x)) h₁ in
            let same_books : ledger moved ≡ ledger d =
              sym (ledger-requeue_state n item.delivery_id moved d f) in
            IsBalanced-of_eq (limits_of s) (ledger d'') (ledger db') (ground arith) (
              recount_IsBalanced (limits_of s) limits d d' d''
                (subst (λ (l : Ledger). QueueFits (limits_of s) l.next l.queue) same_books
                  (moved_fits e))
                (subst (λ (l : Ledger). LettersFit (limits_of s) l.next l.dead_letter) same_books
                  left_letters)
                (subst (λ (l : Ledger). l.next < u64) same_books b.numbered) p q)

  pub requeue_tx_keeps :
      (s : Store)
      → IsBounded (limits_of s)
      → (n : ℕ) (now : Time) → KeepsBooks (limits_of s) (requeue_tx s n now)
  unfolding requeue_tx
  requeue_tx_keeps s limits n now db a db' b h = go (get db.dead_letter (number_key n)) refl
    where
      go :
          (o : Option (Stored DeadItem))
          → get db.dead_letter (number_key n) ≡ o
          → IsBalanced (limits_of s) (ledger db')
      go none e = absurd (ground arith)
      go (some malformed) e = absurd (ground arith)
      go (some (json letter)) e =
          let (key, handed) =
            All-lookup (IsBuried db.meta.next) (number_key n) (json letter) (entries db.dead_letter)
              b.buried (rw get_entries at e) in
          requeue_item_keeps s limits db b n (revived letter.item now) a db' key handed
            (rw (e, requeue_tx) at h)
