-- ===== src/Store/Rate.antt =====
-- The outbound rate limit of internal/store/store.go: `ReserveRequest`, five requests a second and
-- a hundred a minute, kept across restarts.
pub mod Window
use lark_git_webhook.Base.{ℕ, ◌+◌, ◌-◌, Bool, List, [], ◌∷◌, ◌++◌, ltb, leb, if◌then◌else◌, length}
use lark_git_webhook.Base.Bytes.{Bytes}
use lark_git_webhook.Base.Words.{add64}
use lark_git_webhook.Bolt.{Bolt}
use lark_git_webhook.Bolt.Assoc.{Entries}
use lark_git_webhook.Store.Error.{Result, ok}
use lark_git_webhook.Store.Types.{Time, second, minute}
use lark_git_webhook.Store.Keys.{number_key, time_key, decode_time}
use lark_git_webhook.Store.Db.{Db, Store, update}
use lark_git_webhook.Store.Failure.{cooldown_time}

-- `t.After(now.Add(-d))`: no subtraction, so that no time is cut off at 0.
unfoldable pub within : ℕ → Time → Time → Bool
within d now t = ltb now (t + d)

-- The times of the last `d` nanoseconds, in the order of the cursor.
unfoldable pub recent : ℕ → Time → Entries Bytes → List Time
unfolding within
recent d now [] = []
recent d now ((k, v) ∷ rest) =
    let more = recent d now rest in
    if within d now (decode_time v) then decode_time v ∷ more else more

-- `oldest.Add(d).Sub(now)`, which is positive for a recent time.
abbrev pub wait_for : ℕ → Time → List Time → ℕ
wait_for d now [] = 0
wait_for d now (t ∷ ts) = t + d - now

module _ ⦃bolt : Bolt⦄ where
  open bolt use {Bucket, put, delete, entries}

  -- The cursor loop: entries that are a minute old are deleted.
  unfoldable pub prune : Time → Entries Bytes → Bucket Bytes → Bucket Bytes
  unfolding within
  prune now [] rate = rate
  prune now ((k, v) ∷ rest) rate =
      prune now rest (if within minute now (decode_time v) then rate else delete rate k)

  abbrev pub rate_key : Time → ℕ → Bytes
  rate_key now n = time_key now ++ number_key n

  unfoldable pub take_slot : Time → Db → Db
  take_slot now db = record db {
    meta = record (db.meta) { rate = add64 db.meta.rate 1 };
    rate_history = put db.rate_history (rate_key now (add64 db.meta.rate 1)) (time_key now);
  }

  -- The result is the wait; 0 means that a slot was reserved.
  unfoldable pub reserve_request_tx : Time → Db → ℕ × Db
  unfolding prune recent take_slot
  reserve_request_tx now db =
      let history = entries db.rate_history in
      let pruned = record db { rate_history = prune now history db.rate_history } in
      let last_second = recent second now history in
      let last_minute = recent minute now history in
      if ltb now (cooldown_time db.meta)
      then (cooldown_time db.meta - now, db)
      else if leb 5 (length last_second)
      then (wait_for second now last_second, pruned)
      else if leb 100 (length last_minute)
      then (wait_for minute now last_minute, pruned)
      else (0, take_slot now pruned)

  unfoldable pub reserve_tx : Time → Db → Result (ℕ × Db)
  unfolding reserve_request_tx
  reserve_tx now db = ok (reserve_request_tx now db)

  unfoldable pub reserve_request : Store → Time → Result ℕ × Store
  unfolding reserve_tx
  reserve_request s now = update s (reserve_tx now)
