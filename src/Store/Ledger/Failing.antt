-- ===== src/Store/Ledger/Failing.antt =====
-- `HandleFailure` of internal/store/store.go, and the books.
use lark_git_webhook.Base.Words.{u64}
use lark_git_webhook.Bolt.{Bolt}
use lark_git_webhook.Store.Error.{Result, ok, ◌>>=◌, >>=-eq_ok}
use lark_git_webhook.Store.Types.{Item, FailureResult, Encoding}
use lark_git_webhook.Store.Db.{Meta, Db, Store}
use lark_git_webhook.Store.Accounting.{rebuild_active_stats, rebuild_dead_stats}
use lark_git_webhook.Store.Failure.{
  Attempt, repeats, gather, dead_demand, dead_letter_full, fail_loop, cool_down, handle_failure_tx,
}
use lark_git_webhook.Store.Ledger.{
  Limits, limits_of, IsBounded, Ledger, ledger, IsBalanced, IsBalanced-of_eq,
}
use lark_git_webhook.Store.Ledger.Moves.{QueueFits, QueueFits-of_balanced}
use lark_git_webhook.Store.Ledger.Gather.{AreNumbered, gather_present, gather_distinct}
use lark_git_webhook.Store.Ledger.Letters.{
  exact_demand, dead_demand_exact, demand_of, HasBudget, fail_loop-LoopKeeps,
}
use lark_git_webhook.Store.Ledger.Recount.{LettersFit, recount_IsBalanced}
use lark_git_webhook.Base.{
  ℕ, ◌+◌, ◌≤◌, ◌<◌, ◌≡◌, refl, sym, subst, inl, inr, Bool, true, false, List, [], ◌∷◌, arith,
  if◌then◌else◌, Bool-cases,
}

module _ ⦃bolt : Bolt⦄ ⦃encoding : Encoding⦄ where
  open bolt use {get, put, delete, entries}

  ledger-cool_down : (a : Attempt) (db : Db) → ledger (cool_down a db) ≡ ledger db
  unfolding cool_down
  ledger-cool_down a db = ground arith

  no_demand :
      (a : Attempt) (items : List Item)
      → (exact_demand a items).0 ≡ 0
      → (exact_demand a items).1 ≡ 0
  no_demand a [] e = refl
  no_demand a (item ∷ items) e = ground (arith, no_demand a items)

  -- What the test for room lets through fits in the dead letters.
  room_for :
      (s : Store) (m : Meta) (demand : ℕ × ℕ)
      → m.dead_count ≤ s.dead_max_items
      → m.dead_bytes ≤ s.dead_max_bytes
      → (demand.0 ≡ 0 → demand.1 ≡ 0)
      → (full : Bool) → dead_letter_full s m demand ≡ full
      → let taken : ℕ × ℕ = if full then (0, 0) else demand in
        (m.dead_count + taken.0 ≤ s.dead_max_items) × (m.dead_bytes + taken.1 ≤ s.dead_max_bytes)
  unfolding dead_letter_full
  room_for s m demand c b z true e = ground arith
  room_for s m demand c b z false e = ground arith

  module _ (s : Store) (a : Attempt) (db : Db) (b : IsBalanced (limits_of s) (ledger db)) where
    budget :
        (current : List Item)
        → (exact_demand a current).0 < u64
        → (exact_demand a current).1 < u64
        → (full : Bool) → dead_letter_full s db.meta (dead_demand a current) ≡ full
        → HasBudget
            (limits_of s)
            db.meta.next
            db.dead_letter
            (demand_of a full current).0
            (demand_of a full current).1
    budget current c d full e =
        let (items, bytes) =
          room_for s db.meta (exact_demand a current) b.dead_items_kept b.dead_bytes_kept
            (no_demand a current) full (rw (dead_demand_exact a current c d) at e) in
        record {
          items_kept = omega (arith, items, b.dead_counted);
          bytes_kept = omega (arith, bytes, b.dead_weighed);
          buried = b.buried;
        }

  -- The demand of a call is counted in uint64 values that do not wrap.
  abbrev pub DemandFits : Attempt → List Item → Db → Type 0
  DemandFits a items db =
      (current : List Item)
      → gather items db ≡ ok current
      → ((exact_demand a current).0 < u64) × ((exact_demand a current).1 < u64)

  pub handle_failure_tx_keeps :
      (s : Store) (items : List Item) (a : Attempt) (db : Db) (r : FailureResult) (db' : Db)
      → IsBounded (limits_of s)
      → AreNumbered items
      → DemandFits a items db
      → IsBalanced (limits_of s) (ledger db)
      → handle_failure_tx s items a db ≡ ok (r, db')
      → IsBalanced (limits_of s) (ledger db')
  unfolding handle_failure_tx
  handle_failure_tx_keeps s items a db r db' limits k demand b h =
      elim (Bool-cases (repeats items)) [
        | inl e ↦ absurd (ground arith)
        | inr e ↦ main e (>>=-eq_ok (gather items db) _ (rw (e, handle_failure_tx) at h))
      ]
    where
      m : Limits
      m = limits_of s

      full : List Item → Bool
      full current = dead_letter_full s db.meta (dead_demand a current)

      start : List Item → FailureResult
      start current = record { retried = 0; dead_lettered = 0; dead_letter_full = full current }

      finish : FailureResult × Db → Result (FailureResult × Db)
      finish x = do
        d ← rebuild_active_stats (cool_down a x.1)
        d' ← rebuild_dead_stats d
        ok (x.0, d')

      main :
          repeats items ≡ false
          → (current : List Item) × (gather items db ≡ ok current)
            × ((fail_loop a (full current) current (start current) db >>= finish) ≡ ok (r, db'))
          → IsBalanced m (ledger db')
      main e (current, g, h₁) =
          let (x, l, h₂) =
            >>=-eq_ok (fail_loop a (full current) current (start current) db) finish h₁ in
          let (d, p, h₃) = >>=-eq_ok (rebuild_active_stats (cool_down a x.1)) _ h₂ in
          let (d', q, h₄) = >>=-eq_ok (rebuild_dead_stats d) (λ d'. ok (x.0, d')) h₃ in
          let (fit, letters, next) =
            fail_loop-LoopKeeps m a (full current) current (start current) db x.0 x.1 b.numbered
              (gather_distinct db b.queued b.numbered items current k e g)
              (gather_present db b.queued b.numbered items current g)
              (QueueFits-of_balanced m (ledger db) b)
              (budget s a db b current (demand current g).0 (demand current g).1 (full current)
                refl)
              l in
          let cool : ledger x.1 ≡ ledger (cool_down a x.1) = sym (ledger-cool_down a x.1) in
          IsBalanced-of_eq m (ledger d') (ledger db') (ground arith) (
            recount_IsBalanced m limits (cool_down a x.1) d d'
              (subst (λ (l : Ledger). QueueFits m l.next l.queue) cool fit)
              (subst (λ (l : Ledger). LettersFit m l.next l.dead_letter) cool letters)
              (subst (λ (l : Ledger). l.next < u64) cool (rw next b.numbered)) p q)
