-- ===== src/Audit/Loop.antt =====
-- The records that a poll of internal/audit/poller.go has to admit.
use lark_git_webhook.Base.{◌≡◌, refl, Bool, true, false, Option, none, some, List, [], ◌∷◌}
use lark_git_webhook.Base.Bytes.{Bytes}
use lark_git_webhook.Bolt.{Bolt}
use lark_git_webhook.Store.Types.{Time, Encoding}
use lark_git_webhook.Archive.{Archive}
use lark_git_webhook.Webhook.Checks.{Content}
use lark_git_webhook.Audit.Stamps.{AuditRecords}
use lark_git_webhook.Audit.Records.{
  Polls, Grows, Advances-trans, still, Runs, halts-Runs, unless_ended-Runs, IsIn, admit_as-Runs,
}
use lark_git_webhook.Audit.{
  Poller, asked_once, Polled, halted, went, AuditOutside, audit_log, wanted, record_id, Polling,
  and_then, admit_decoded, admit_record, admit_wanted, admit_all,
}

module _ ⦃bolt : Bolt⦄ ⦃encoding : Encoding⦄ ⦃archive : Archive⦄ ⦃content : Content⦄
    ⦃records : AuditRecords⦄ ⦃outside : AuditOutside⦄ where
  -- The record decodes, and is in the archive under its identifier.
  abbrev pub IsArchived : Poller → Bytes → Polling → Type 0
  IsArchived c raw p =
      (document : Bytes) × (records.document_id raw ≡ some document)
      × IsIn (record_id c.org raw document) raw p

  -- So are those that the poll has to admit.
  abbrev pub AreArchived : Poller → Option Time → List Bytes → Polling → Type 0
  AreArchived c bootstrap [] p = Unit {0}
  AreArchived c bootstrap (raw ∷ rest) p =
      (wanted bootstrap raw ≡ went true → IsArchived c raw p) × AreArchived c bootstrap rest p

  IsArchived-Grows :
      (c : Poller) (raw : Bytes) (p q : Polling)
      → Grows p.world.files q.world.files
      → IsArchived c raw p
      → IsArchived c raw q
  IsArchived-Grows c raw p q grows (document, e, there) =
      (document, e, grows audit_log (record_id c.org raw document) raw there)

  pub AreArchived-Grows :
      (c : Poller) (bootstrap : Option Time) (fetched : List Bytes) (p q : Polling)
      → Grows p.world.files q.world.files
      → AreArchived c bootstrap fetched p
      → AreArchived c bootstrap fetched q
  AreArchived-Grows c bootstrap [] p q grows _ = tt
  AreArchived-Grows c bootstrap (raw ∷ rest) p q grows (first, later) = (
    λ w. IsArchived-Grows c raw p q grows (first w),
    AreArchived-Grows c bootstrap rest p q grows later,
  )

  and_then-Runs :
      (Goal Goal' : Polling → Type 0) (p : Polling) (out : Polls) (next : Polling → Polls)
      → Runs Goal p out
      → ((q : Polling) → Goal q → Runs Goal' q (next q))
      → Runs Goal' p (and_then out next)
  unfolding and_then
  and_then-Runs Goal Goal' p (halted e, q) next (moves, _) rest = halts-Runs Goal' p q e moves
  and_then-Runs Goal Goal' p (went _, q) next (moves, there) rest =
      let (moves', there') = rest q (there refl) in
      (Advances-trans p q (next q).1 moves moves', there')

  module _ (c : Poller) (now : Time) where
    admit_record-Runs :
        (raw : Bytes) (p : Polling) → Runs (IsArchived c raw) p (admit_record c raw now p)
    unfolding admit_record
    admit_record-Runs raw p =
        unless_ended-Runs (IsArchived c raw) p (admit_decoded c raw now)
          (go (records.document_id raw) refl)
      where
        p' : Polling
        p' = asked_once p

        go :
            (o : Option Bytes)
            → records.document_id raw ≡ o
            → Runs (IsArchived c raw) p' (admit_decoded c raw now p')
        go none e = rw (e, admit_decoded) (still p', λ h. absurd cc)
        go (some document) e =
            let (moves, there) = admit_as-Runs (record_id c.org raw document) raw c now p' in
            rw (e, admit_decoded) (moves, λ h. (document, refl, there h))

    pub admit_all-Runs :
        (bootstrap : Option Time) (fetched : List Bytes) (p : Polling)
        → Runs (AreArchived c bootstrap fetched) p (admit_all c bootstrap now fetched p)
    unfolding admit_all admit_wanted
    admit_all-Runs bootstrap [] p = (still p, λ _. tt)
    admit_all-Runs bootstrap (raw ∷ rest) p =
        unless_ended-Runs (AreArchived c bootstrap (raw ∷ rest)) p
          (admit_wanted c bootstrap now raw (admit_all c bootstrap now rest))
          (go (admit_all-Runs bootstrap rest) (wanted bootstrap raw) refl)
      where
        p' : Polling
        p' = asked_once p

        later : Polling → Polls
        later = admit_all c bootstrap now rest

        go :
            ((q : Polling) → Runs (AreArchived c bootstrap rest) q (later q))
            → (w : Polled Bool) → wanted bootstrap raw ≡ w
            → Runs
                (AreArchived c bootstrap (raw ∷ rest))
                p'
                (admit_wanted c bootstrap now raw later p')
        go each (halted e) h = rw (h, admit_wanted) (still p', λ k. absurd cc)
        go each (went false) h =
            let (moves, there) = each p' in
            rw (h, admit_wanted) (moves, λ k. ((λ b. absurd cc), there k))
        go each (went true) h =
            let (moves, there) =
              and_then-Runs (IsArchived c raw) (AreArchived c bootstrap (raw ∷ rest)) p'
                (admit_record c raw now p') later (admit_record-Runs raw p')
                λ q archived.
                  let (moves, there) = each q in
                  (
                    moves,
                    λ k. (λ _. IsArchived-Grows c raw q (later q).1 moves.0 archived, there k),
                  ) in
            rw (h, admit_wanted) (moves, λ k. (λ _. (there k).0 h, (there k).1))
