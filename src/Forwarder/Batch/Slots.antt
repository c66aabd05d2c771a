-- ===== src/Forwarder/Batch/Slots.antt =====
-- The loop of internal/forwarder/worker.go that waits for a slot of the rate limit.
use lark_git_webhook.Base.{
  ◌+◌, ◌≤◌, ◌<◌, ◌≡◌, refl, ap, subst, ℕ, zero, suc, false, some, [], ◌∷◌, arith, ltb, leb, ◌==◌,
  if◌then◌else◌, Bool-cases, inl, inr, length,
}
use lark_git_webhook.Base.Bytes.{Bytes}
use lark_git_webhook.Bolt.{Bolt}
use lark_git_webhook.Bolt.Assoc.{Entries}
use lark_git_webhook.Store.Error.{Result, ok, err}
use lark_git_webhook.Store.Types.{Time, second, minute}
use lark_git_webhook.Store.Failure.{cooldown_time}
use lark_git_webhook.Store.Db.{Db, Store}
use lark_git_webhook.Store.Db.Transactions.{update-eq_ok}
use lark_git_webhook.Store.Rate.{
  within, recent, wait_for, reserve_request_tx, reserve_tx, reserve_request,
}
use lark_git_webhook.Store.Rate.Window.{requests, window_tx, Refused}
use lark_git_webhook.Forwarder.Machine.{Outside, Machine, read_clock, wait_context, note}
use lark_git_webhook.Forwarder.Batch.{
  Slot, granted, no_slot, ended, unfinished, reserve_slot, rounds,
}

-- Later, no more times are recent.
recent-later :
    (d now later : ℕ) (l : Entries Bytes)
    → now ≤ later
    → length (recent d later l) ≤ length (recent d now l)
unfolding recent within
recent-later d now later [] h = omega arith
recent-later d now later ((k, v) ∷ l) h = ground (arith, recent-later d now later l)

-- After the wait for the first of them, there are fewer.
recent-waited :
    (d now later : ℕ) (l : Entries Bytes)
    → 0 < length (recent d now l)
    → now + wait_for d now (recent d now l) ≤ later
    → length (recent d later l) < length (recent d now l)
unfolding recent within
recent-waited d now later [] pos h = absurd (ground arith)
recent-waited d now later ((k, v) ∷ l) pos h =
    ground (arith, recent-later d now later l, recent-waited d now later l)

length-recent-le : (d now : ℕ) (l : Entries Bytes) → length (recent d now l) ≤ length l
unfolding recent
length-recent-le d now [] = omega arith
length-recent-le d now ((k, v) ∷ l) = ground (arith, length-recent-le d now l)

module _ ⦃bolt : Bolt⦄ where
  open bolt use {entries}

  -- What a request may still have to wait for.
  pub pending : Time → Db → ℕ
  pending now db =
      requests second now db
      + requests minute now db
      + (if ltb now (cooldown_time db.meta) then 1 else 0)

  pending-later : (now later : Time) (db : Db) → now ≤ later → pending later db ≤ pending now db
  unfolding pending
  pending-later now later db h = ground (
    arith,
    recent-later second now later (entries db.rate_history),
    recent-later minute now later (entries db.rate_history),
  )

  pending-waited_tx :
      (now later wait : ℕ) (db db' : Db)
      → reserve_request_tx now db ≡ (wait, db')
      → 0 < wait
      → now + wait ≤ later
      → pending later db < pending now db
  unfolding pending reserve_request_tx
  pending-waited_tx now later wait db db' h pos le =
      let l = entries db.rate_history in
      elim (Bool-cases (ltb now (cooldown_time db.meta))) [
        | inl c ↦ ground (arith, recent-later second now later l, recent-later minute now later l)
        | inr c ↦ elim (Bool-cases (leb 5 (requests second now db))) [
          | inl a ↦
              ground (arith, recent-waited second now later l, recent-later minute now later l)
          | inr a ↦ elim (Bool-cases (leb 100 (requests minute now db))) [
            | inl b ↦
                ground (arith, recent-later second now later l, recent-waited minute now later l)
            | inr b ↦ absurd (ground arith)
          ]
        ]
      ]

  pending-Refused :
      (later : Time) (db db' : Db) → Refused db db' → pending later db' ≤ pending later db
  unfolding pending
  pending-Refused later db db' (same_meta, fewer) =
      let same_time : cooldown_time db'.meta ≡ cooldown_time db.meta = ap cooldown_time same_meta in
      rw same_time (omega (arith, fewer second later, fewer minute later))

  reserve_request-eq_ok :
      (s t : Store) (db : Db) (now wait : ℕ)
      → s.db ≡ some db
      → reserve_request s now ≡ (ok wait, t)
      → (db' : Db) × (t.db ≡ some db') × (reserve_request_tx now db ≡ (wait, db'))
  unfolding reserve_request reserve_tx
  reserve_request-eq_ok s t db now wait e h =
      let (db0, db', e0, made, moved) = update-eq_ok s (reserve_tx now) h in
      let same_db : db0 ≡ db = ground arith in (db', ap (λ (q : Store). q.db) moved, ground arith)

module _ ⦃bolt : Bolt⦄ ⦃outside : Outside⦄ where
  open bolt use {entries}

  -- The slot that a loop ends with: granted within the windows and after the cooldown of the
  -- database that it began with, or not granted.
  abbrev pub Ends : Db → Slot × Machine → Type 0
  Ends db (granted, m) =
      (db' : Db) × (m.store.db ≡ some db')
      × (cooldown_time db.meta ≤ m.now)
      × (requests second m.now db' ≤ 5)
      × (requests minute m.now db' ≤ 100)
  Ends db (no_slot e, m) = Unit {0}
  Ends db (ended, m) = Unit {0}
  Ends db (unfinished, m) = ⊥

  -- A loop that ends for a database ends for one with the same cooldown.
  Ends-from : (db db' : Db) (p : Slot × Machine) → db'.meta ≡ db.meta → Ends db' p → Ends db p
  Ends-from db db' (granted, m) e (db'', here, cool, seconds, minutes) =
      (db'', here, subst (λ (t : Time). t ≤ m.now) (ap cooldown_time e) cool, seconds, minutes)
  Ends-from db db' (no_slot why, m) e ends = tt
  Ends-from db db' (ended, m) e ends = tt
  Ends-from db db' (unfinished, m) e ends = ends

  -- One round of the loop, the other rounds given.
  round-Ends :
      (fuel : ℕ) (m : Machine) (db : Db)
      → m.store.db ≡ some db
      → pending m.now db < suc fuel
      → ((m' : Machine) (db' : Db)
          → m'.store.db ≡ some db'
          → pending m'.now db' < fuel
          → Ends db' (reserve_slot fuel m'))
      → Ends db (reserve_slot (suc fuel) m)
  unfolding reserve_slot read_clock wait_context note
  round-Ends fuel m db h enough rest = go reserved.0 refl
    where
      now1 : Time
      now1 = m.now + outside.lag m.asked_of

      fewer :
          (wait : ℕ) (db' : Db)
          → reserve_request_tx now1 db ≡ (wait, db')
          → 0 < wait
          → Refused db db'
          → pending (now1 + wait + outside.lag (m.asked_of + 1)) db' < fuel
      fewer wait db' run pos left =
          let later : ℕ = now1 + wait + outside.lag (m.asked_of + 1) in
          omega (
            arith,
            pending-Refused later db db' left,
            pending-waited_tx now1 later wait db db' run pos (omega arith),
            pending-later m.now now1 db (omega arith),
          )

      reserved : Result ℕ × Store
      reserved = reserve_request m.store now1

      go : (r : Result ℕ) → reserved.0 ≡ r → Ends db (reserve_slot (suc fuel) m)
      go (err e) f = rw (f, reserve_slot) tt
      go (ok wait) f =
          let (db', here, run) =
            reserve_request-eq_ok m.store reserved.1 db now1 wait h
              (ap (λ (r : Result ℕ). (r, reserved.1)) f) in
          rw (f, reserve_slot)
            (elim (window_tx now1 wait db db' run) [
              | inl (zero_wait, (cool, seconds, minutes)) ↦
                  rw zero_wait (db', here, cool, seconds, minutes)
              | inr (pos, left) ↦
                  let waits : (wait == 0) ≡ false = ground arith in
                  rw waits (elim (Bool-cases (outside.cancelled (m.asked_of + 1))) [
                    | inl e ↦ rw e tt
                    | inr e ↦ rw e (
                        Ends-from db db' _ left.0
                          (rest _ db' here (rw e (fewer wait db' run pos left))))
                  ])
            ])

  fuelled-Ends :
      (fuel : ℕ) (m : Machine) (db : Db)
      → m.store.db ≡ some db
      → pending m.now db < fuel
      → Ends db (reserve_slot fuel m)
  fuelled-Ends zero m db h enough = absurd (omega arith)
  fuelled-Ends (suc fuel) m db h enough = round-Ends fuel m db h enough (fuelled-Ends fuel)

  pub reserve_slot-Ends :
      (m : Machine) (db : Db) → m.store.db ≡ some db → Ends db (reserve_slot (rounds m) m)
  unfolding rounds pending
  reserve_slot-Ends m db h = fuelled-Ends (rounds m) m db h (
      rw h (
        ground (
          arith,
          length-recent-le second m.now (entries db.rate_history),
          length-recent-le minute m.now (entries db.rate_history),
        )))
