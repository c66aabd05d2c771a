-- ===== src/Forwarder/Batch/Cooling.antt =====
-- The pause after a rate-limited delivery: `HandleFailure` of internal/store/store.go under the
-- failure paths of internal/forwarder.
use lark_git_webhook.Base.{
  ◌+◌, ◌-◌, ◌^◌, ◌≤◌, ◌<◌, ◌≡◌, refl, ap, ◌∙◌, sym, ℕ, Bool, true, Option, none, some, List, [],
  arith, ltb, Bool-cases, inl, inr,
}
use mathlib.Core.List.{append-nil}
use lark_git_webhook.Base.Bytes.{Bytes}
use lark_git_webhook.Bolt.{Bolt}
use lark_git_webhook.Store.Error.{Result, ok, err, >>=-eq_ok}
use lark_git_webhook.Store.Types.{Time, Item, Encoding, FailureResult}
use lark_git_webhook.Store.Keys.{unix_epoch, time_key, decode_time}
use lark_git_webhook.Store.Keys.Roundtrip.{decode_time-time_key}
use lark_git_webhook.Store.Accounting.{
  rebuild_active_stats, rebuild_dead_stats, tally, active_item_bytes,
}
use lark_git_webhook.Store.Failure.{
  Attempt, cooldown_time, cool_down, gather, fail_loop, repeats, dead_letter_full, dead_demand,
  handle_failure_tx, handle_failure,
}
use lark_git_webhook.Store.Failure.Counts.{attempt_of, none_yet}
use lark_git_webhook.Store.Rate.{reserve_request_tx, reserve_tx, reserve_request}
use lark_git_webhook.Store.Db.{Db, Store}
use lark_git_webhook.Store.Db.Transactions.{update-eq_ok}
use lark_git_webhook.Forwarder.Machine.{
  Worker, Outside, Machine, Failure, stop_round, lark_failure, with_store, read_clock, note,
}
use lark_git_webhook.Forwarder.Batch.{
  retry_after_of, permanent_of, fail_items, after_failure, retry_delay,
}

-- The times whose nanoseconds since 1970 are an int64.
abbrev pub IsNanos : Time → Type 0
IsNanos t = (unix_epoch ≤ t + 2 ^ 63) × (t < unix_epoch + 2 ^ 63)

abbrev time_of : Option Bytes → Time
time_of o = elim o [ none ↦ 0 | some v ↦ decode_time v ]

decode_key : (t : Time) → IsNanos t → decode_time (time_key t) ≡ t
decode_key t (low, high) =
    ap decode_time (sym (append-nil (time_key t))) ∙ decode_time-time_key t [] low high

module _ ⦃bolt : Bolt⦄ ⦃encoding : Encoding⦄ where
  open bolt use {entries}

  cool_down-le :
      (a : Attempt) (db : Db)
      → 0 < a.retry_after
      → IsNanos (a.now + a.retry_after)
      → a.now + a.retry_after ≤ cooldown_time (cool_down a db).meta
  unfolding cool_down
  cool_down-le a db pos nanos =
      let e0 : ltb 0 a.retry_after ≡ true = ground arith in
      elim (Bool-cases (ltb (cooldown_time db.meta) (a.now + a.retry_after))) [
        | inl e ↦ rw (e0, e) (omega (arith, decode_key (a.now + a.retry_after) nanos))
        | inr e ↦ rw (e0, e) (ground arith)
      ]

  active_stats-cooldown :
      (db db' : Db) → rebuild_active_stats db ≡ ok db' → db'.meta.cooldown ≡ db.meta.cooldown
  unfolding rebuild_active_stats
  active_stats-cooldown db db' h =
      let (t, _, e) = >>=-eq_ok (tally active_item_bytes 0 0 (entries db.queue)) _ h in ground arith

  dead_stats-cooldown :
      (db db' : Db) → rebuild_dead_stats db ≡ ok db' → db'.meta.cooldown ≡ db.meta.cooldown
  unfolding rebuild_dead_stats
  dead_stats-cooldown db db' h =
      let (t, _, e) = >>=-eq_ok (tally encoding.dead_json_len 0 0 (entries db.dead_letter)) _ h in
      ground arith

  failure_tx-cools :
      (s : Store) (items : List Item) (a : Attempt) (db db' : Db) (r : FailureResult)
      → handle_failure_tx s items a db ≡ ok (r, db')
      → 0 < a.retry_after
      → IsNanos (a.now + a.retry_after)
      → a.now + a.retry_after ≤ cooldown_time db'.meta
  unfolding handle_failure_tx
  failure_tx-cools s items a db db' r h pos nanos = elim (Bool-cases (repeats items)) [
    | inl e ↦ absurd (unfold handle_failure_tx in ground arith)
    | inr e ↦
        let (current, g, h1) = >>=-eq_ok (gather items db) _ (rw (e, handle_failure_tx) at h) in
        let full = dead_letter_full s db.meta (dead_demand a current) in
        let (p, run, h2) = >>=-eq_ok (fail_loop a full current (none_yet full) db) _ h1 in
        let (d1, active, h3) = >>=-eq_ok (rebuild_active_stats (cool_down a p.1)) _ h2 in
        let (d2, letters, h4) = >>=-eq_ok (rebuild_dead_stats d1) _ h3 in
        let last : d2 ≡ db' = ground arith in
        let kept : db'.meta.cooldown ≡ (cool_down a p.1).meta.cooldown =
          ap (λ (d : Db). d.meta.cooldown) (sym last)
          ∙ dead_stats-cooldown d1 d2 letters
          ∙ active_stats-cooldown (cool_down a p.1) d1 active in
        let at : cooldown_time db'.meta ≡ cooldown_time (cool_down a p.1).meta = ap time_of kept in
        omega (arith, cool_down-le a p.1 pos nanos)
  ]

  pub handle_failure-cools :
      (s t : Store) (items : List Item) (now retry_at : Time) (reason : Bytes)
      (retry_after max_attempts : ℕ) (permanent : Bool) (r : FailureResult)
      → handle_failure s items now retry_at reason retry_after max_attempts permanent ≡ (ok r, t)
      → 0 < retry_after
      → IsNanos (now + retry_after)
      → (db : Db) × (t.db ≡ some db) × (now + retry_after ≤ cooldown_time db.meta)
  unfolding handle_failure
  handle_failure-cools s t items now retry_at reason retry_after max_attempts permanent r h pos
        nanos =
      let a = attempt_of now retry_at reason retry_after max_attempts permanent in
      let (db, db', e, made, moved) = update-eq_ok s (handle_failure_tx s items a) h in
      (db', ap (λ (q : Store). q.db) moved, failure_tx-cools s items a db db' r made pos nanos)

module _ ⦃bolt : Bolt⦄ where
  -- Before the end of the cooldown a request is told to wait for it.
  pub reserve_request-cools :
      (s : Store) (db : Db) (now : Time)
      → s.db ≡ some db
      → now < cooldown_time db.meta
      → (reserve_request s now).0 ≡ ok (cooldown_time db.meta - now)
  unfolding reserve_request reserve_tx reserve_request_tx
  reserve_request-cools s db now h before =
      let e : ltb now (cooldown_time db.meta) ≡ true = ground arith in
      rw (h, reserve_request, e) refl

module _ ⦃bolt : Bolt⦄ ⦃encoding : Encoding⦄ ⦃outside : Outside⦄ where
  -- When a failure is recorded.
  abbrev pub failed_at : Machine → Time
  failed_at m = m.now + outside.lag (m.asked_of + 1)

  pub after_failure-store :
      (f : Failure) (r : FailureResult) (m : Machine) → (after_failure f r m).1.store ≡ m.store
  unfolding after_failure note
  after_failure-store f r m = elim (Bool-cases (ltb 0 r.retried)) [
    | inl e ↦ rw e refl
    | inr e ↦ rw e refl
  ]

  pub after_failure-stops :
      (f : Failure) (r : FailureResult) (m : Machine)
      → (after_failure f r m).0 ≡ stop_round
      → 0 < retry_after_of f
  unfolding after_failure
  after_failure-stops f r m h = ground arith

  pub fail_items-cools :
      (w : Worker) (items : List Item) (f : Failure) (m : Machine)
      → (fail_items w items f m).0 ≡ stop_round
      → IsNanos (failed_at m + retry_after_of f)
      → (now : Time) → now < failed_at m + retry_after_of f
      → (wait : ℕ) × ((reserve_request (fail_items w items f m).1.store now).0 ≡ ok wait)
        × (failed_at m + retry_after_of f ≤ now + wait)
  unfolding fail_items read_clock note
  fail_items-cools w items f m stopped nanos now before = go handled.0 refl
    where
      delay : ℕ
      delay = retry_delay w items f (note lark_failure m)

      m3 : Machine
      m3 = read_clock (read_clock (record (note lark_failure m) { asked_of = m.asked_of + 1 }))

      handled : Result FailureResult × Store
      handled =
          handle_failure m.store items (failed_at m)
            (failed_at m + outside.lag (m.asked_of + 1 + 1) + delay) f.reason (retry_after_of f)
            w.max_attempts (permanent_of f)

      go :
          (o : Result FailureResult)
          → handled.0 ≡ o
          → (wait : ℕ) × ((reserve_request (fail_items w items f m).1.store now).0 ≡ ok wait)
            × (failed_at m + retry_after_of f ≤ now + wait)
      go (err e) h = absurd (cc (rw (h, fail_items) at stopped))
      go (ok r) h =
          let m4 = with_store handled.1 m3 in
          let ended : (after_failure f r m4).0 ≡ stop_round = rw (h, fail_items) at stopped in
          let (db, here, cools) =
            handle_failure-cools m.store handled.1 items (failed_at m) _ f.reason (retry_after_of f)
              w.max_attempts (permanent_of f) r (ap (λ o. (o, handled.1)) h)
              (after_failure-stops f r m4 ended) nanos in
          let there : (fail_items w items f m).1.store.db ≡ some db =
            rw (h, fail_items) (ap (λ (s : Store). s.db) (after_failure-store f r m4) ∙ here) in
          (
            cooldown_time db.meta - now,
            reserve_request-cools (fail_items w items f m).1.store db now there
                (omega (arith, cools)),
            omega (arith, cools),
          )
