-- ===== src/Store/Failure/Counts.antt =====
-- What `HandleFailure` of internal/store/store.go reports of the items that it found.
use lark_git_webhook.Base.{
  ◌+◌, ◌≡◌, subst, Bool, not, ◌&&◌, some, List, [], ◌∷◌, arith, if◌then◌else◌, Bool-cases, inl, inr,
  ℕ, keep, length,
}
use lark_git_webhook.Base.Bytes.{Bytes}
use lark_git_webhook.Bolt.{Bolt}
use lark_git_webhook.Store.Error.{ok, >>=-eq_ok}
use lark_git_webhook.Store.Types.{Time, Item, FailureResult, Encoding}
use lark_git_webhook.Store.Accounting.{rebuild_active_stats, rebuild_dead_stats}
use lark_git_webhook.Store.Db.{Db, Store}
use lark_git_webhook.Store.Db.Transactions.{update-eq_ok}
use lark_git_webhook.Store.Failure.{
  Attempt, trim_reason, exhausted, repeats, gather, dead_demand, dead_letter_full, bury, retry,
  fail_loop, cool_down, handle_failure_tx, handle_failure,
}

-- What a call passes on.
abbrev pub attempt_of : Time → Time → Bytes → ℕ → ℕ → Bool → Attempt
attempt_of now retry_at reason retry_after max_attempts permanent = record {
  now = now;
  retry_at = retry_at;
  reason = trim_reason reason;
  retry_after = retry_after;
  max_attempts = max_attempts;
  permanent = permanent;
}

module _ ⦃bolt : Bolt⦄ ⦃encoding : Encoding⦄ where
  -- The result counts these items, on top of another one.
  abbrev Counts : Attempt → Bool → List Item → FailureResult → FailureResult → Type 0
  Counts a full items r r' =
      (r'.dead_letter_full ≡ r.dead_letter_full)
      × (r'.dead_lettered
          ≡ r.dead_lettered + (if full then 0 else length (keep (exhausted a) items)))
      × (r'.retried + r'.dead_lettered ≡ r.retried + r.dead_lettered + length items)

  fail_loop-Counts :
      (a : Attempt) (full : Bool) (items : List Item) (r r' : FailureResult) (db db' : Db)
      → fail_loop a full items r db ≡ ok (r', db')
      → Counts a full items r r'
  unfolding fail_loop
  fail_loop-Counts a full [] r r' db db' h = (ground arith, ground arith, ground arith)
  fail_loop-Counts a full (item ∷ items) r r' db db' h =
      elim (Bool-cases (exhausted a item && not full)) [
        | inl e ↦
            let (d, _, rest) = >>=-eq_ok (bury a item db) _ (rw (fail_loop, e) at h) in
            let (f, n, m) =
              fail_loop-Counts a full items (record r { dead_lettered = r.dead_lettered + 1 }) r' d
                db' rest in
            (f, ground arith, ground arith)
        | inr e ↦
            let (f, n, m) =
              fail_loop-Counts a full items (record r { retried = r.retried + 1 }) r'
                (retry a full item db) db' (rw (fail_loop, e) at h) in
            (f, ground arith, ground arith)
      ]

  abbrev pub none_yet : Bool → FailureResult
  none_yet full = record { retried = 0; dead_lettered = 0; dead_letter_full = full }

  concluded :
      (a : Attempt) (full : Bool) (current : List Item) (r : FailureResult)
      → Counts a full current (none_yet full) r
      → (r.dead_letter_full ≡ full)
        × (r.dead_lettered
            ≡ (if r.dead_letter_full then 0 else length (keep (exhausted a) current)))
        × (r.retried + r.dead_lettered ≡ length current)
  concluded a full current r (f, n, m) = (f, ground arith, omega (arith, m))

  reported :
      (s : Store) (items : List Item) (a : Attempt) (db db' : Db) (r : FailureResult)
      → handle_failure_tx s items a db ≡ ok (r, db')
      → (current : List Item) × (gather items db ≡ ok current)
        × (r.dead_letter_full ≡ dead_letter_full s db.meta (dead_demand a current))
        × (r.dead_lettered
            ≡ (if r.dead_letter_full then 0 else length (keep (exhausted a) current)))
        × (r.retried + r.dead_lettered ≡ length current)
  unfolding handle_failure_tx
  reported s items a db db' r h = elim (Bool-cases (repeats items)) [
    | inl e ↦ absurd (unfold handle_failure_tx in ground arith)
    | inr e ↦
        let (current, g, h1) = >>=-eq_ok (gather items db) _ (rw (e, handle_failure_tx) at h) in
        let full = dead_letter_full s db.meta (dead_demand a current) in
        let (p, run, h2) = >>=-eq_ok (fail_loop a full current (none_yet full) db) _ h1 in
        let (d1, _, h3) = >>=-eq_ok (rebuild_active_stats (cool_down a p.1)) _ h2 in
        let (d2, _, h4) = >>=-eq_ok (rebuild_dead_stats d1) _ h3 in
        let same_result : p.0 ≡ r = ground arith in
        let (f, n, m) = concluded a full current r (
          subst (Counts a full current (none_yet full)) same_result
            (fail_loop-Counts a full current (none_yet full) p.0 db p.1 run)) in
        (current, g, f, n, m)
  ]

  pub handle_failure-Counts :
      (s t : Store) (db : Db) (items : List Item) (now retry_at : Time) (reason : Bytes)
      (retry_after max_attempts : ℕ) (permanent : Bool) (r : FailureResult)
      → s.db ≡ some db
      → handle_failure s items now retry_at reason retry_after max_attempts permanent ≡ (ok r, t)
      → let a = attempt_of now retry_at reason retry_after max_attempts permanent in
        (current : List Item) × (gather items db ≡ ok current)
        × (r.dead_letter_full ≡ dead_letter_full s db.meta (dead_demand a current))
        × (r.dead_lettered
            ≡ (if r.dead_letter_full then 0 else length (keep (exhausted a) current)))
        × (r.retried + r.dead_lettered ≡ length current)
  unfolding handle_failure
  handle_failure-Counts s t db items now retry_at reason retry_after max_attempts permanent r e h =
      let a = attempt_of now retry_at reason retry_after max_attempts permanent in
      let (db0, db', e0, made, _) = update-eq_ok s (handle_failure_tx s items a) h in
      let same_db : db0 ≡ db = ground arith in
      reported s items a db db' r
        (subst (λ (d : Db). handle_failure_tx s items a d ≡ ok (r, db')) same_db made)
