-- ===== src/Store/Ledger/Recount.antt =====
-- `rebuildActiveStats` and `rebuildDeadStats` of internal/store/store.go, and the books.
use lark_git_webhook.Base.Words.{u64}
use lark_git_webhook.Bolt.{Bolt}
use lark_git_webhook.Bolt.Totals.{All}
use lark_git_webhook.Bolt.Laws.{sum}
use lark_git_webhook.Store.Error.{ok}
use lark_git_webhook.Store.Types.{DeadItem, Stored, Encoding}
use lark_git_webhook.Store.Db.{Db}
use lark_git_webhook.Store.Accounting.{active_item_bytes, rebuild_active_stats, rebuild_dead_stats}
use lark_git_webhook.Store.Accounting.Rebuild.{one, tally_lem}
use lark_git_webhook.Store.Ledger.{
  IsBuried, Limits, IsBounded, Ledger, ledger, queue_bytes, letter_bytes, IsBalanced,
  IsBalanced-of_eq,
}
use lark_git_webhook.Store.Ledger.Moves.{QueueFits, IsReadable-queued, IsReadable-buried}
use lark_git_webhook.Base.{ℕ, ◌≤◌, ◌<◌, ◌≡◌, refl, sym, ap, ◌∙◌, arith}

module _ ⦃bolt : Bolt⦄ ⦃encoding : Encoding⦄ where
  open bolt use {Bucket, entries}

  -- What the dead letters keep between two counts.
  pub record LettersFit (m : Limits) (next : ℕ) (q : Bucket (Stored DeadItem)) : Type 0 where
    pub items_kept : sum one q ≤ m.dead_max_items
    pub bytes_kept : letter_bytes q ≤ m.dead_max_bytes
    pub buried : All (IsBuried next) (entries q)

  pub LettersFit-of_balanced :
      (m : Limits) (l : Ledger) → IsBalanced m l → LettersFit m l.next l.dead_letter
  LettersFit-of_balanced m l b = record {
    items_kept = omega (arith, b.dead_items_kept, b.dead_counted);
    bytes_kept = omega (arith, b.dead_bytes_kept, b.dead_weighed);
    buried = b.buried;
  }

  abbrev pub count_active : Db → Db
  count_active db = record db {
    meta = record (db.meta) { count = sum one db.queue; bytes = queue_bytes db.queue };
  }

  abbrev pub count_dead : Db → Db
  count_dead db = record db {
    meta = record (db.meta) {
      dead_count = sum one db.dead_letter;
      dead_bytes = letter_bytes db.dead_letter;
    };
  }

  ok_eq : (a b : Db) → ok a ≡ ok b → a ≡ b
  ok_eq a b e = cc

  module _ (m : Limits) (limits : IsBounded m) where
    pub rebuild_active_lem :
        (db : Db)
        → QueueFits m db.meta.next db.queue
        → rebuild_active_stats db ≡ ok (count_active db)
    unfolding rebuild_active_stats
    rebuild_active_lem db f = rw (
        tally_lem active_item_bytes (entries db.queue)
          (IsReadable-queued db.meta.next (entries db.queue) f.queued)
          (omega (arith, f.items_kept, limits.items_fit))
          (omega (arith, f.bytes_kept, limits.bytes_fit)))

    pub rebuild_dead_lem :
        (db : Db)
        → LettersFit m db.meta.next db.dead_letter
        → rebuild_dead_stats db ≡ ok (count_dead db)
    unfolding rebuild_dead_stats
    rebuild_dead_lem db f = rw (
        tally_lem encoding.dead_json_len (entries db.dead_letter)
          (IsReadable-buried db.meta.next (entries db.dead_letter) f.buried)
          (omega (arith, f.items_kept, limits.dead_items_fit))
          (omega (arith, f.bytes_kept, limits.dead_bytes_fit)))

    -- Both counts, as `HandleFailure` and `RequeueDeadLetter` end.
    pub recount_IsBalanced :
        (db d d' : Db)
        → QueueFits m db.meta.next db.queue
        → LettersFit m db.meta.next db.dead_letter
        → db.meta.next < u64
        → rebuild_active_stats db ≡ ok d
        → rebuild_dead_stats d ≡ ok d'
        → IsBalanced m (ledger d')
    recount_IsBalanced db d d' f g n e e' =
        IsBalanced-of_eq m (ledger (count_dead (count_active db))) (ledger d') (ap ledger both)
          (record {
            counted = refl;
            weighed = refl;
            dead_counted = refl;
            dead_weighed = refl;
            items_kept = f.items_kept;
            bytes_kept = f.bytes_kept;
            dead_items_kept = g.items_kept;
            dead_bytes_kept = g.bytes_kept;
            queued = f.queued;
            buried = g.buried;
            numbered = n;
          })
      where
        first : count_active db ≡ d
        first = ok_eq (count_active db) d (sym (rebuild_active_lem db f) ∙ e)

        both : count_dead (count_active db) ≡ d'
        both =
            ok_eq (count_dead (count_active db)) d'
              (sym (rebuild_dead_lem (count_active db) g) ∙ ap rebuild_dead_stats first ∙ e')

    -- The active count alone, over dead letters that nobody touched.
    pub recount_active_IsBalanced :
        (l : Ledger) (db d : Db)
        → QueueFits m db.meta.next db.queue
        → IsBalanced m (record l { next = db.meta.next })
        → l.dead_count ≡ db.meta.dead_count
        → l.dead_bytes ≡ db.meta.dead_bytes
        → l.dead_letter ≡ db.dead_letter
        → rebuild_active_stats db ≡ ok d
        → IsBalanced m (ledger d)
    recount_active_IsBalanced l db d f b p q r e =
        IsBalanced-of_eq m
          (record l {
            next = db.meta.next;
            count = sum one db.queue;
            bytes = queue_bytes db.queue;
            queue = db.queue;
          })
          (ledger d)
          (cc (p, q, r, ap ledger (ok_eq (count_active db) d (sym (rebuild_active_lem db f) ∙ e))))
          (record {
            counted = refl;
            weighed = refl;
            dead_counted = b.dead_counted;
            dead_weighed = b.dead_weighed;
            items_kept = f.items_kept;
            bytes_kept = f.bytes_kept;
            dead_items_kept = b.dead_items_kept;
            dead_bytes_kept = b.dead_bytes_kept;
            queued = f.queued;
            buried = b.buried;
            numbered = b.numbered;
          })
