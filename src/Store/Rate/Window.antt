-- ===== src/Store/Rate/Window.antt =====
-- The sliding windows of `ReserveRequest` in internal/store/store.go.
use lark_git_webhook.Base.{
  ◌+◌, ◌≤◌, ◌<◌, ◌≡◌, refl, ap, some, [], ◌∷◌, arith, ltb, leb, if◌then◌else◌, Bool-cases, inl, inr,
  ℕ, length, ◌⊎◌,
}
use lark_git_webhook.Base.Bytes.{Bytes}
use lark_git_webhook.Bolt.{Bolt}
use lark_git_webhook.Bolt.Assoc.{Entries}
use lark_git_webhook.Bolt.Totals.{total}
use lark_git_webhook.Bolt.Laws.{sum, sum-put, sum-delete}
use lark_git_webhook.Store.Error.{ok}
use lark_git_webhook.Store.Types.{Time, second, minute}
use lark_git_webhook.Store.Keys.{time_key, decode_time}
use lark_git_webhook.Store.Failure.{cooldown_time}
use lark_git_webhook.Store.Db.{Db, Store}
use lark_git_webhook.Store.Db.Transactions.{update-eq_ok}
use lark_git_webhook.Store.Rate.{
  within, recent, wait_for, prune, rate_key, take_slot, reserve_request_tx, reserve_tx,
  reserve_request, add64,
}

-- 1 for a time of the last `d` nanoseconds.
abbrev pub counts : ℕ → Time → Bytes → ℕ
counts d now v = if within d now (decode_time v) then 1 else 0

length-recent : (d now : ℕ) (l : Entries Bytes) → length (recent d now l) ≡ total (counts d now) l
unfolding recent total
length-recent d now [] = refl
length-recent d now ((k, v) ∷ l) = ground (arith, length-recent d now l)

counts_le : (d now : ℕ) (v : Bytes) → counts d now v ≤ 1
counts_le d now v = ground arith

-- The wait for the oldest of some recent times is positive.
wait_for-pos :
    (d now n : ℕ) (l : Entries Bytes)
    → 0 < n
    → n ≤ length (recent d now l)
    → 0 < wait_for d now (recent d now l)
unfolding recent within
wait_for-pos d now n [] pos le = ground arith
wait_for-pos d now n ((k, v) ∷ l) pos le = ground (arith, wait_for-pos d now n l pos)

module _ ⦃bolt : Bolt⦄ where
  open bolt use {Bucket, put, delete, entries}

  sum-prune :
      (f : Bytes → ℕ) (now : Time) (l : Entries Bytes) (rate : Bucket Bytes)
      → sum f (prune now l rate) ≤ sum f rate
  unfolding prune
  sum-prune f now [] rate = omega arith
  sum-prune f now ((k, v) ∷ l) rate = elim (Bool-cases (within minute now (decode_time v))) [
    | inl e ↦ rw e (sum-prune f now l rate)
    | inr e ↦ rw e (omega (arith, sum-prune f now l (delete rate k), sum-delete f rate k))
  ]

  -- The requests of the last `d` nanoseconds that the history holds.
  abbrev pub requests : ℕ → Time → Db → ℕ
  requests d now db = length (recent d now (entries db.rate_history))

  reserved_tx :
      (now wait : ℕ) (db db' : Db)
      → reserve_request_tx now db ≡ (wait, db')
      → ((wait ≡ 0)
          × (db'
              ≡ take_slot now (record db {
                rate_history = prune now (entries db.rate_history) db.rate_history;
              }))
          × (cooldown_time db.meta ≤ now)
          × (requests second now db < 5)
          × (requests minute now db < 100))
        ⊎ ((0 < wait)
            × (db'.meta ≡ db.meta)
            × ((f : Bytes → ℕ) → sum f db'.rate_history ≤ sum f db.rate_history))
  unfolding reserve_request_tx
  reserved_tx now wait db db' h = elim (Bool-cases (ltb now (cooldown_time db.meta))) [
    | inl c ↦
        let e : db'.rate_history ≡ db.rate_history = ground arith in
        inr (ground arith, ground arith, λ f. rw e (omega arith))
    | inr c ↦ elim (Bool-cases (leb 5 (requests second now db))) [
      | inl a ↦
          let e : db'.rate_history ≡ prune now (entries db.rate_history) db.rate_history =
            ground arith in
          inr (
            ground (arith, wait_for-pos second now 5 (entries db.rate_history)),
            ground arith,
            λ f. rw e (sum-prune f now (entries db.rate_history) db.rate_history),
          )
      | inr a ↦ elim (Bool-cases (leb 100 (requests minute now db))) [
        | inl b ↦
            let e : db'.rate_history ≡ prune now (entries db.rate_history) db.rate_history =
              ground arith in
            inr (
              ground (arith, wait_for-pos minute now 100 (entries db.rate_history)),
              ground arith,
              λ f. rw e (sum-prune f now (entries db.rate_history) db.rate_history),
            )
        | inr b ↦ inl (ground arith, ground arith, ground arith, ground arith, ground arith)
      ]
    ]
  ]

  -- One slot more, whatever the window.
  requests-take_slot :
      (d now : ℕ) (at : Time) (db : Db) → requests d now (take_slot at db) ≤ requests d now db + 1
  unfolding take_slot
  requests-take_slot d now at db = omega (
    arith,
    length-recent d now (entries db.rate_history),
    length-recent d now (entries (take_slot at db).rate_history),
    sum-put (counts d now) db.rate_history (rate_key at (add64 db.meta.rate 1)) (time_key at),
    counts_le d now (time_key at),
  )

  requests-prune :
      (d now : ℕ) (at : Time) (db : Db)
      → requests d now
          (record db { rate_history = prune at (entries db.rate_history) db.rate_history })
        ≤ requests d now db
  requests-prune d now at db = omega (
    arith,
    length-recent d now (entries db.rate_history),
    length-recent d now (entries (prune at (entries db.rate_history) db.rate_history)),
    sum-prune (counts d now) at (entries db.rate_history) db.rate_history,
  )

  -- What a request comes to for the windows.
  abbrev pub Granted : ℕ → Db → Db → Type 0
  Granted now db db' =
      (cooldown_time db.meta ≤ now)
      × (requests second now db' ≤ 5)
      × (requests minute now db' ≤ 100)

  abbrev pub Refused : Db → Db → Type 0
  Refused db db' = (db'.meta ≡ db.meta) × ((d at : ℕ) → requests d at db' ≤ requests d at db)

  pub window_tx :
      (now wait : ℕ) (db db' : Db)
      → reserve_request_tx now db ≡ (wait, db')
      → ((wait ≡ 0) × Granted now db db') ⊎ ((0 < wait) × Refused db db')
  window_tx now wait db db' h = elim (reserved_tx now wait db db' h) [
    | inl (w, e, c, few, fewer) ↦
        let pruned = record db {
          rate_history = prune now (entries db.rate_history) db.rate_history;
        } in
        let le_second = requests-take_slot second now now pruned in
        let le_minute = requests-take_slot minute now now pruned in
        inl (
          w,
          (
            c,
            rw e (omega (arith, le_second, requests-prune second now now db)),
            rw e (omega (arith, le_minute, requests-prune minute now now db)),
          ),
        )
    | inr (w, m, le) ↦ inr (
      w,
      (
        m,
        λ d at. omega (
          arith,
          length-recent d at (entries db.rate_history),
          length-recent d at (entries db'.rate_history),
          le (counts d at),
        ),
      ),
    )
  ]

  pub reserve_request-window :
      (s t : Store) (db : Db) (now wait : ℕ)
      → s.db ≡ some db
      → reserve_request s now ≡ (ok wait, t)
      → (db' : Db) × (t.db ≡ some db')
        × (((wait ≡ 0) × Granted now db db') ⊎ ((0 < wait) × Refused db db'))
  unfolding reserve_request reserve_tx
  reserve_request-window s t db now wait e h =
      let (db0, db', e0, made, moved) = update-eq_ok s (reserve_tx now) h in
      let same_db : db0 ≡ db = ground arith in
      let run : reserve_request_tx now db ≡ (wait, db') = ground arith in
      (db', ap (λ (q : Store). q.db) moved, window_tx now wait db db' run)
