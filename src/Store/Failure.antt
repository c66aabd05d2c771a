-- ===== src/Store/Failure.antt =====
-- Failed deliveries in internal/store/store.go: `HandleFailure` and `RequeueDeadLetter`.
pub mod Counts
use lark_git_webhook.Base.{
  ℕ, ◌+◌, ◌-◌, Bool, true, false, not, ◌&&◌, ◌||◌, none, some, List, [], ◌∷◌, ◌++◌, ltb, leb, ◌==◌,
  if◌then◌else◌, length,
}
use lark_git_webhook.Base.Bytes.{Bytes, ascii}
use lark_git_webhook.Base.Words.{add64}
use lark_git_webhook.Bolt.{Bolt}
use lark_git_webhook.Store.Error.{Result, ok, err, ◌>>=◌, duplicate_item, not_found, queue_full}
use lark_git_webhook.Store.Types.{
  Time, Item, DeadItem, queued, dead, FailureResult, json, unmarshal, Encoding,
}
use lark_git_webhook.Store.Keys.{number_key, time_key, decode_time, first_bytes}
use lark_git_webhook.Store.Db.{Meta, Db, Store, update}
use lark_git_webhook.Store.Accounting.{active_item_bytes, rebuild_active_stats, rebuild_dead_stats}
use lark_git_webhook.Store.Admission.{over_capacity}
use lark_git_webhook.Store.Queue.{set_status}

unfoldable pub trim_reason : Bytes → Bytes
unfolding first_bytes
trim_reason reason = if ltb 256 (length reason) then first_bytes 256 reason else reason

-- The items whose sequence was seen before.
unfoldable pub has_sequence : ℕ → List Item → Bool
has_sequence n [] = false
has_sequence n (item ∷ items) = (item.sequence == n) || has_sequence n items

unfoldable pub repeats : List Item → Bool
unfolding has_sequence
repeats [] = false
repeats (item ∷ items) = has_sequence item.sequence items || repeats items

-- What a call of `HandleFailure` is given, its reason trimmed.
pub record Attempt : Type 0 where
  pub now : Time
  pub retry_at : Time
  pub reason : Bytes
  pub retry_after : ℕ
  pub max_attempts : ℕ
  pub permanent : Bool

-- `permanent || stored.Attempts+1 >= maxAttempts`.
unfoldable pub exhausted : Attempt → Item → Bool
exhausted a item = a.permanent || leb a.max_attempts (item.attempts + 1)

abbrev pub failed_once : Attempt → Item → Item
failed_once a item = record item { attempts = item.attempts + 1; last_error = a.reason }

abbrev pub dead_item : Attempt → Item → DeadItem
dead_item a item = record { item = failed_once a item; failed_at = a.now }

-- "dead-letter capacity full: "
abbrev pub full_prefix : Bytes
full_prefix = ascii "dead-letter capacity full: "

-- The end of the cooldown; the zero time if there is none.
abbrev pub cooldown_time : Meta → Time
cooldown_time m = elim m.cooldown [ none ↦ 0 | some v ↦ decode_time v ]

module _ ⦃encoding : Encoding⦄ where
  -- The number and bytes of the items that are to be dead letters.
  unfoldable pub dead_demand : Attempt → List Item → ℕ × ℕ
  unfolding exhausted
  dead_demand a [] = (0, 0)
  dead_demand a (item ∷ items) =
      let rest = dead_demand a items in
      if exhausted a item
      then (add64 1 rest.0, add64 (encoding.dead_json_len (dead_item a item)) rest.1)
      else rest

module _ ⦃bolt : Bolt⦄ ⦃encoding : Encoding⦄ where
  open bolt use {get, put, delete}

  -- The items that are still queued, as they are stored.
  unfoldable pub gather : List Item → Db → Result (List Item)
  gather [] db = ok []
  gather (item ∷ items) db = elim (get db.queue (number_key item.sequence)) [
    | none ↦ gather items db
    | some value ↦ (do stored ← unmarshal value; rest ← gather items db; ok (stored ∷ rest))
  ]

  unfoldable pub dead_letter_full : Store → Meta → ℕ × ℕ → Bool
  dead_letter_full s m demand =
      ltb 0 demand.0
      && (ltb s.dead_max_items m.dead_count
          || (ltb s.dead_max_bytes m.dead_bytes
              || (ltb (s.dead_max_items - m.dead_count) demand.0
                  || ltb (s.dead_max_bytes - m.dead_bytes) demand.1)))

  unfoldable pub bury : Attempt → Item → Db → Result Db
  unfolding set_status
  bury a item db = set_status dead item.delivery_id (record db {
    queue = delete db.queue (number_key item.sequence);
    dead_letter = put db.dead_letter (number_key item.sequence) (json (dead_item a item));
  })

  abbrev pub retried_item : Attempt → Bool → Item → Item
  retried_item a full item = record item {
    attempts = item.attempts + 1;
    next_attempt = a.retry_at;
    last_error = if full then trim_reason (full_prefix ++ a.reason) else a.reason;
  }

  unfoldable pub retry : Attempt → Bool → Item → Db → Db
  unfolding trim_reason
  retry a full item db = record db {
    queue = put db.queue (number_key item.sequence) (json (retried_item a full item));
  }

  unfoldable pub fail_loop :
      Attempt → Bool → List Item → FailureResult → Db → Result (FailureResult × Db)
  unfolding exhausted bury retry
  fail_loop a full [] r db = ok (r, db)
  fail_loop a full (item ∷ items) r db =
      let buried = (do
        db' ← bury a item db
        fail_loop a full items (record r { dead_lettered = r.dead_lettered + 1 }) db') in
      let retried =
        fail_loop a full items (record r { retried = r.retried + 1 }) (retry a full item db) in
      if exhausted a item && not full then buried else retried

  -- A longer cooldown replaces a shorter one.
  unfoldable pub cool_down : Attempt → Db → Db
  cool_down a db =
      if ltb 0 a.retry_after && ltb (cooldown_time db.meta) (a.now + a.retry_after)
      then record db {
        meta = record (db.meta) { cooldown = some (time_key (a.now + a.retry_after)) };
      }
      else db

  unfoldable pub handle_failure_tx : Store → List Item → Attempt → Db → Result (FailureResult × Db)
  handle_failure_tx s items a db = if repeats items then err duplicate_item else (do
    current ← gather items db
    let full = dead_letter_full s db.meta (dead_demand a current)
    r ←
        fail_loop a full current
          (record { retried = 0; dead_lettered = 0; dead_letter_full = full }) db
    db' ← rebuild_active_stats (cool_down a r.1)
    db'' ← rebuild_dead_stats db'
    ok (r.0, db''))

  unfoldable pub handle_failure :
      Store → List Item → Time → Time → Bytes → ℕ → ℕ → Bool → Result FailureResult × Store
  unfolding handle_failure_tx trim_reason
  handle_failure s items now retry_at reason retry_after max_attempts permanent = update s (
      handle_failure_tx s items (record {
        now = now;
        retry_at = retry_at;
        reason = trim_reason reason;
        retry_after = retry_after;
        max_attempts = max_attempts;
        permanent = permanent;
      }))

  abbrev pub revived : Item → Time → Item
  revived item now = record item { attempts = 0; next_attempt = now; last_error = [] }

  -- The delivery is queued again in the same transaction.
  unfoldable pub requeue_state : ℕ → Bytes → Db → Result Db
  requeue_state sequence id db = elim (get db.delivery_state id) [
    | none ↦ ok db
    | some value ↦ (do
      state ← unmarshal value
      ok (record db {
        delivery_state = put db.delivery_state id (
            json (record state {
              sequence = sequence;
              status = queued;
              archived = true;
              raw_json = [];
            }));
      }))
  ]

  unfoldable pub requeue_item : Store → ℕ → Item → Db → Result (Unit {0} × Db)
  requeue_item s sequence item db =
      if over_capacity s db.meta (active_item_bytes item) then err queue_full else (do
        db' ← requeue_state sequence item.delivery_id (record db {
          queue = put db.queue (number_key sequence) (json item);
          dead_letter = delete db.dead_letter (number_key sequence);
        })
        active ← rebuild_active_stats db'
        db'' ← rebuild_dead_stats active
        ok (tt, db''))

  unfoldable pub requeue_tx : Store → ℕ → Time → Db → Result (Unit {0} × Db)
  unfolding requeue_item
  requeue_tx s sequence now db = elim (get db.dead_letter (number_key sequence)) [
    | none ↦ err not_found
    | some value ↦ (do
      letter ← unmarshal value
      requeue_item s sequence (revived letter.item now) db)
  ]

  unfoldable pub requeue_dead_letter : Store → ℕ → Time → Result (Unit {0}) × Store
  unfolding requeue_tx
  requeue_dead_letter s sequence now = update s (requeue_tx s sequence now)
