-- ===== src/Tests/Restarts.antt =====
-- A restart and a failed send, and the properties of `Open` and `HandleFailure` at them.
use lark_git_webhook.Base.{
  ◌+◌, ◌≡◌, refl, true, false, some, List, [], ◌∷◌, arith, if◌then◌else◌, keep, length,
}
use lark_git_webhook.Base.Bytes.{ascii, same}
use lark_git_webhook.Base.Words.{add64}
use lark_git_webhook.Bolt.Memory.{memory}
use lark_git_webhook.Bolt.Assoc.{lookup, insert}
use lark_git_webhook.Bolt.Totals.{total}
use lark_git_webhook.Store.Error.{ok}
use lark_git_webhook.Store.Types.{DeliveryState, queued, Item, FailureResult, json}
use lark_git_webhook.Store.Keys.{number_key}
use lark_git_webhook.Store.Accounting.{
  active_item_bytes, rebuild_active_stats, rebuild_dead_stats, tally,
}
use lark_git_webhook.Store.Db.{Db, Store}
use lark_git_webhook.Store.Failure.{
  handle_failure, handle_failure_tx, repeats, gather, dead_demand, dead_letter_full, fail_loop,
  exhausted, cool_down, trim_reason,
}
use lark_git_webhook.Store.Failure.Counts.{attempt_of, handle_failure-Counts}
use lark_git_webhook.Store.Ledger.{Limits, IsBounded, limits_of, IsSound}
use lark_git_webhook.Store.Ledger.Moves.{QueueFits}
use lark_git_webhook.Store.Ledger.Recount.{LettersFit}
use lark_git_webhook.Store.Opening.{open_store}
use lark_git_webhook.Store.Opening.Books.{open_store-IsSound}
use lark_git_webhook.Store.Delivery.{finalize_archive}
use lark_git_webhook.Store.Ledger.Unlock.{finalize_archive-succeeds}
use lark_git_webhook.Tests.Data.{
  delivery, push, payload, sizes, empty_db, empty_store, noon, queued_item,
}

-- One item is queued, and the counters are wrong.
abbrev left_behind : Db
left_behind = record empty_db {
  meta = record (empty_db.meta) { next = 1; count = 7; bytes = 70 };
  queue = memory.put empty_db.queue (number_key 1) (json (queued_item 1 true noon));
}

abbrev limits : Limits
limits = record { max_items = 3; max_bytes = 4_000; dead_max_items = 1; dead_max_bytes = 100 }

limits-IsBounded : IsBounded limits
limits-IsBounded = record {
  items_fit = omega arith;
  bytes_fit = omega arith;
  dead_items_fit = omega arith;
  dead_bytes_fit = omega arith;
}

left_QueueFits : QueueFits limits left_behind.meta.next left_behind.queue
unfolding memory insert total active_item_bytes
left_QueueFits = record {
  items_kept = omega arith;
  bytes_kept = omega arith;
  queued = ((refl, omega arith), tt);
}

left_LettersFit : LettersFit limits left_behind.meta.next left_behind.dead_letter
unfolding memory total
left_LettersFit = record { items_kept = omega arith; bytes_kept = omega arith; buried = tt }

open_store-IsSound_example :
    (t : Store) × (open_store noon left_behind limits.max_items limits.max_bytes 2
        limits.dead_max_items limits.dead_max_bytes
      ≡ ok t)
    × (limits_of t ≡ limits)
    × IsSound t
open_store-IsSound_example =
    open_store-IsSound noon left_behind 2 limits limits-IsBounded left_QueueFits left_LettersFit
      (omega arith)

abbrev running : Store
running = record empty_store { db = some left_behind }

abbrev sent : List Item
sent = queued_item 1 true noon ∷ []

abbrev report : FailureResult
report = record { retried = 1; dead_lettered = 0; dead_letter_full = false }

abbrev after_failure : Store
after_failure = (handle_failure running sent noon (noon + 5) (ascii "timeout") 0 3 false).1

fails :
    handle_failure running sent noon (noon + 5) (ascii "timeout") 0 3 false
    ≡ (ok report, after_failure)
unfolding memory lookup insert same number_key handle_failure handle_failure_tx repeats gather
    dead_demand dead_letter_full fail_loop exhausted cool_down trim_reason rebuild_active_stats
    rebuild_dead_stats tally add64 active_item_bytes
fails = refl

handle_failure-Counts_example :
    let a = attempt_of noon (noon + 5) (ascii "timeout") 0 3 false in
    (current : List Item) × (gather sent left_behind ≡ ok current)
    × (report.dead_letter_full ≡ dead_letter_full running left_behind.meta (dead_demand a current))
    × (report.dead_lettered
        ≡ (if report.dead_letter_full then 0 else length (keep (exhausted a) current)))
    × (report.retried + report.dead_lettered ≡ length current)
handle_failure-Counts_example =
    handle_failure-Counts running after_failure left_behind sent noon (noon + 5) (ascii "timeout") 0
      3 false report refl fails

abbrev pending_state : DeliveryState
pending_state = record {
  delivery_id = [];
  event = push;
  digest = payload;
  sequence = 1;
  status = queued;
  archived = false;
  subscription_reply_claimed = false;
  raw_json = payload;
}

-- One delivery is queued, and its payload is not archived yet.
abbrev pending_db : Db
pending_db = record left_behind {
  meta = record (empty_db.meta) { next = 1; count = 1; bytes = 515 };
  queue = memory.put empty_db.queue (number_key 1) (json (queued_item 1 false noon));
  delivery_state = memory.put empty_db.delivery_state delivery (json pending_state);
}

abbrev pending_store : Store
pending_store = record empty_store { db = some pending_db }

pending-IsBounded : IsBounded (limits_of pending_store)
pending-IsBounded = record {
  items_fit = omega arith;
  bytes_fit = omega arith;
  dead_items_fit = omega arith;
  dead_bytes_fit = omega arith;
}

pending-IsSound : IsSound pending_store
unfolding memory insert total active_item_bytes add64
pending-IsSound = record {
  counted = refl;
  weighed = refl;
  dead_counted = refl;
  dead_weighed = refl;
  items_kept = omega arith;
  bytes_kept = omega arith;
  dead_items_kept = omega arith;
  dead_bytes_kept = omega arith;
  queued = ((refl, omega arith), tt);
  buried = tt;
  numbered = omega arith;
}

pending_there : memory.get pending_db.delivery_state delivery ≡ some (json pending_state)
unfolding memory lookup insert same
pending_there = refl

finalize_archive-succeeds_example :
    (t : Store) × (finalize_archive pending_store delivery ≡ (ok tt, t))
finalize_archive-succeeds_example =
    finalize_archive-succeeds pending_store pending_db delivery pending_state pending-IsBounded
      pending-IsSound refl pending_there
