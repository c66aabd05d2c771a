-- ===== src/Audit/Checkpoint.antt =====
-- When the checkpoint of internal/audit/poller.go moves.
use lark_git_webhook.Base.{◌≡◌, refl, ap, ◌∙◌, Option, none, some, List, Bool-cases, inl, inr}
use lark_git_webhook.Base.Bytes.{Bytes}
use lark_git_webhook.Bolt.{Bolt}
use lark_git_webhook.Store.Error.{Error, Result, ok, err}
use lark_git_webhook.Store.Types.{Time, Encoding}
use lark_git_webhook.Store.Db.{Store}
use lark_git_webhook.Store.Audit.{audit_checkpoint, audit_bootstrap, set_audit_checkpoint}
use lark_git_webhook.Archive.{Archive}
use lark_git_webhook.Webhook.Checks.{Content}
use lark_git_webhook.Audit.Stamps.{AuditRecords}
use lark_git_webhook.Audit.Frame.{store_stamps}
use lark_git_webhook.Audit.Records.{Polls, Runs}
use lark_git_webhook.Audit.Marks.{audit_checkpoint_same, set-checkpoint}
use lark_git_webhook.Audit.Loop.{AreArchived, AreArchived-Grows, admit_all-Runs}
use lark_git_webhook.Audit.{
  Poller, PollError, cancelled, store_failed, asked_once, halted, went, AuditOutside, Polling,
  with_store, unless_ended, and_then, stored_as, admit_all, move_checkpoint, leave_off,
  poll_fetched, poll_records, poll_once,
}

module _ ⦃bolt : Bolt⦄ ⦃encoding : Encoding⦄ ⦃archive : Archive⦄ ⦃content : Content⦄
    ⦃records : AuditRecords⦄ ⦃outside : AuditOutside⦄ where
  module _ (c : Poller) (now : Time) where
    -- How a poll ends: if it halts the checkpoint is where it was.
    abbrev pub Outcome : (Polling → Type 0) → Polling → Polls → Type 0
    Outcome Goal p out =
        ((e : PollError)
          → out.0 ≡ halted e
          → audit_checkpoint out.1.world.store c.org ≡ audit_checkpoint p.world.store c.org)
        × (out.0 ≡ went tt → Goal out.1)

    -- After a poll that did not halt the checkpoint is at its start, and what it had to admit is in
    -- the archive.
    abbrev pub IsPolled : Option Time → List Bytes → Polling → Type 0
    IsPolled bootstrap fetched q =
        AreArchived c bootstrap fetched q × (audit_checkpoint q.world.store c.org ≡ ok (some now))

    module _ (bootstrap : Option Time) (fetched : List Bytes) where
      halts-Outcome :
          (p q : Polling) (e : PollError)
          → store_stamps q.world.store ≡ store_stamps p.world.store
          → Outcome (IsPolled bootstrap fetched) p (halted e, q)
      halts-Outcome p q e same_stamps = (
        λ why h. audit_checkpoint_same p.world.store q.world.store c.org same_stamps,
        λ h. absurd cc,
      )

      unless_ended-Outcome :
          (p : Polling) (next : Polling → Polls)
          → Outcome (IsPolled bootstrap fetched) (asked_once p) (next (asked_once p))
          → Outcome (IsPolled bootstrap fetched) p (unless_ended p next)
      unfolding unless_ended
      unless_ended-Outcome p next rest = elim (Bool-cases (outside.ended p.asked)) [
        | inl e ↦ rw (e, unless_ended) (halts-Outcome p (asked_once p) cancelled refl)
        | inr e ↦ rw (e, unless_ended) rest
      ]

      move_checkpoint-Outcome :
          (p : Polling)
          → AreArchived c bootstrap fetched p
          → Outcome (IsPolled bootstrap fetched) p (move_checkpoint c now p)
      unfolding move_checkpoint
      move_checkpoint-Outcome p archived =
          go (set_audit_checkpoint p.world.store c.org now) (set-checkpoint p.world.store c.org now)
        where
          go :
              (out : Result (Unit {0}) × Store)
              → ((e : Error) → out.0 ≡ err e → out.1 ≡ p.world.store)
                × (out.0 ≡ ok tt → audit_checkpoint out.1 c.org ≡ ok (some now))
              → Outcome (IsPolled bootstrap fetched) p (stored_as p out)
          go (err e, s) (unmoved, _) =
              halts-Outcome p (with_store s p) (store_failed e) (ap store_stamps (unmoved e refl))
          go (ok _, s) (_, moved) = (
            (λ e h. absurd cc),
            λ h. (
              AreArchived-Grows c bootstrap fetched p (with_store s p) (λ event id raw k. k)
                  archived,
              moved refl,
            ),
          )

      leave_off-Outcome :
          (p : Polling)
          → AreArchived c bootstrap fetched p
          → Outcome (IsPolled bootstrap fetched) p (leave_off c now p)
      unfolding leave_off
      leave_off-Outcome p archived = unless_ended-Outcome p (move_checkpoint c now) (
          move_checkpoint-Outcome (asked_once p)
            (AreArchived-Grows c bootstrap fetched p (asked_once p) (λ event id raw k. k) archived))

      poll_fetched-Outcome :
          (p : Polling)
          → Outcome (IsPolled bootstrap fetched) p (poll_fetched c now bootstrap fetched p)
      unfolding poll_fetched and_then
      poll_fetched-Outcome p =
          go (admit_all c bootstrap now fetched p) (admit_all-Runs c now bootstrap fetched p)
        where
          go :
              (out : Polls)
              → Runs (AreArchived c bootstrap fetched) p out
              → Outcome (IsPolled bootstrap fetched) p (and_then out (leave_off c now))
          go (halted e, q) ((_, same_stamps), _) = halts-Outcome p q e same_stamps
          go (went _, q) ((_, same_stamps), there) =
              let (unmoved, polled) = leave_off-Outcome q (there refl) in
              (
                λ e h.
                    unmoved e h
                    ∙ audit_checkpoint_same p.world.store q.world.store c.org same_stamps,
                polled,
              )

    poll_records-Outcome :
        (bootstrap : Option Time) (p : Polling) (checkpoint : Time)
        → Outcome
            (λ q.
              (fetched : List Bytes) × (outside.fetch p.asked c.org checkpoint ≡ some fetched)
              × IsPolled bootstrap fetched q)
            p
            (poll_records c now checkpoint bootstrap p)
    unfolding poll_records
    poll_records-Outcome bootstrap p checkpoint = go (outside.fetch p.asked c.org checkpoint) refl
      where
        go :
            (o : Option (List Bytes))
            → outside.fetch p.asked c.org checkpoint ≡ o
            → Outcome
                (λ q.
                  (fetched : List Bytes) × (outside.fetch p.asked c.org checkpoint ≡ some fetched)
                  × IsPolled bootstrap fetched q)
                p
                (poll_records c now checkpoint bootstrap p)
        go none e = rw (e, poll_records) ((λ why h. refl), λ h. absurd cc)
        go (some fetched) e =
            let (unmoved, polled) =
              unless_ended-Outcome bootstrap fetched (asked_once p)
                (poll_fetched c now bootstrap fetched)
                (poll_fetched-Outcome bootstrap fetched (asked_once (asked_once p))) in
            rw (e, poll_records) (unmoved, λ h. (fetched, refl, polled h))

    -- How `PollOnce` ends for an organisation with a checkpoint.
    abbrev pub Ends : Time → Polling → Polls → Type 0
    Ends checkpoint p (halted e, q) = audit_checkpoint q.world.store c.org ≡ ok (some checkpoint)
    Ends checkpoint p (went _, q) =
        (bootstrap : Option Time) × (fetched : List Bytes) × (audit_bootstrap p.world.store c.org
          ≡ ok bootstrap)
        × (outside.fetch p.asked c.org checkpoint ≡ some fetched)
        × IsPolled bootstrap fetched q

    Ends-Outcome :
        (bootstrap : Option Time) (p : Polling) (checkpoint : Time) (out : Polls)
        → audit_checkpoint p.world.store c.org ≡ ok (some checkpoint)
        → audit_bootstrap p.world.store c.org ≡ ok bootstrap
        → Outcome
            (λ q.
              (fetched : List Bytes) × (outside.fetch p.asked c.org checkpoint ≡ some fetched)
              × IsPolled bootstrap fetched q)
            p
            out
        → Ends checkpoint p out
    Ends-Outcome bootstrap p checkpoint (halted e, q) found h (unmoved, _) = unmoved e refl ∙ found
    Ends-Outcome bootstrap p checkpoint (went _, q) found h (_, polled) =
        let (fetched, f, there) = polled refl in (bootstrap, fetched, h, f, there)

    -- A poll of an organisation that has a checkpoint moves the checkpoint to its start only if
    -- each record that was fetched, and that is later than the first checkpoint where there is one,
    -- is in the archive in the end. A poll that halts, whatever the reason, leaves the checkpoint
    -- where it was.
    pub poll_once_lem :
        (p : Polling) (checkpoint : Time)
        → audit_checkpoint p.world.store c.org ≡ ok (some checkpoint)
        → Ends checkpoint p (poll_once c now p)
    unfolding poll_once
    poll_once_lem p checkpoint found = go (audit_bootstrap p.world.store c.org) refl
      where
        go :
            (b : Result (Option Time))
            → audit_bootstrap p.world.store c.org ≡ b
            → Ends checkpoint p (poll_once c now p)
        go (err e) h = rw (found, poll_once, h) found
        go (ok bootstrap) h =
            rw (found, poll_once, h)
              (Ends-Outcome bootstrap p checkpoint (poll_records c now checkpoint bootstrap p) found
                h (poll_records-Outcome bootstrap p checkpoint))
