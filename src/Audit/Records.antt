-- ===== src/Audit/Records.antt =====
-- What admitting a record does in internal/audit/poller.go.
use lark_git_webhook.Base.{
  ◌≡◌, refl, ap, ◌∙◌, Bool, true, false, Option, none, some, [], Bool-cases, inl, inr, length,
}
use lark_git_webhook.Base.Bytes.{Bytes, same}
use lark_git_webhook.Bolt.{Bolt}
use lark_git_webhook.Store.Error.{Result, ok, err}
use lark_git_webhook.Store.Types.{Time, Encoding, DeliveryState}
use lark_git_webhook.Store.Db.{Store}
use lark_git_webhook.Store.Admission.{admit}
use lark_git_webhook.Store.Delivery.{finalize_archive, lookup_delivery}
use lark_git_webhook.Archive.{Archive, ArchiveResult, failed, done, admission_required, reserve}
use lark_git_webhook.Webhook.Checks.{Content}
use lark_git_webhook.Audit.Stamps.{AuditRecords}
use lark_git_webhook.Audit.Frame.{store_stamps, admit-stamps, finalize-stamps}
use lark_git_webhook.Audit.{
  Poller, PollError, cancelled, store_failed, archive_failed, asked_once, Polled, halted, went,
  AuditOutside, audit_log, Polling, with_store, with_files, unless_ended, stored_as, archive_record,
  admit_reserved, take_record, reserve_record, resume_record, admit_as,
}

module _ ⦃bolt : Bolt⦄ ⦃encoding : Encoding⦄ ⦃archive : Archive⦄ ⦃content : Content⦄
    ⦃records : AuditRecords⦄ ⦃outside : AuditOutside⦄ where
  abbrev pub Polls : Type 0
  Polls = Polled (Unit {0}) × Polling

  -- The payloads of the archive stay in it.
  abbrev pub Grows : archive.Files → archive.Files → Type 0
  Grows files files' =
      (event id raw : Bytes)
      → archive.verify_existing files event id raw ≡ done true
      → archive.verify_existing files' event id raw ≡ done true

  -- A stretch of a poll that leaves the checkpoints alone.
  abbrev pub Advances : Polling → Polling → Type 0
  Advances p q =
      Grows p.world.files q.world.files × (store_stamps q.world.store ≡ store_stamps p.world.store)

  pub Advances-trans : (p q r : Polling) → Advances p q → Advances q r → Advances p r
  Advances-trans p q r (grows, same_stamps) (grows', same_stamps') =
      (λ event id raw h. grows' event id raw (grows event id raw h), same_stamps' ∙ same_stamps)

  pub still : (p : Polling) → Advances p p
  still p = (λ event id raw h. h, refl)

  -- Such a stretch, after which something holds if it does not halt.
  abbrev pub Runs : (Polling → Type 0) → Polling → Polls → Type 0
  Runs Goal p out = Advances p out.1 × (out.0 ≡ went tt → Goal out.1)

  module _ (Goal : Polling → Type 0) where
    pub halts-Runs : (p q : Polling) (e : PollError) → Advances p q → Runs Goal p (halted e, q)
    halts-Runs p q e moves = (moves, λ h. absurd cc)

    Runs-after : (p q : Polling) (out : Polls) → Advances p q → Runs Goal q out → Runs Goal p out
    Runs-after p q out first (moves, there) = (Advances-trans p q out.1 first moves, there)

    pub unless_ended-Runs :
        (p : Polling) (next : Polling → Polls)
        → Runs Goal (asked_once p) (next (asked_once p))
        → Runs Goal p (unless_ended p next)
    unfolding unless_ended
    unless_ended-Runs p next rest = elim (Bool-cases (outside.ended p.asked)) [
      | inl e ↦ rw (e, unless_ended) (halts-Runs p (asked_once p) cancelled (still p))
      | inr e ↦
          rw (e, unless_ended) (Runs-after p (asked_once p) (next (asked_once p)) (still p) rest)
    ]

  module _ (id raw : Bytes) where
    -- The record is in the archive.
    abbrev pub IsIn : Polling → Type 0
    IsIn p = archive.verify_existing p.world.files audit_log id raw ≡ done true

    finalize-Runs :
        (p : Polling) → IsIn p → Runs IsIn p (stored_as p (finalize_archive p.world.store id))
    finalize-Runs p there =
        go (finalize_archive p.world.store id) (finalize-stamps p.world.store id)
      where
        go :
            (out : Result (Unit {0}) × Store)
            → store_stamps out.1 ≡ store_stamps p.world.store
            → Runs IsIn p (stored_as p out)
        go (err e, s) same_stamps =
            halts-Runs IsIn p (with_store s p) (store_failed e) (λ event id raw h. h, same_stamps)
        go (ok _, s) same_stamps = ((λ event id raw h. h, same_stamps), λ _. there)

    archive_record-Runs : (p : Polling) → Runs IsIn p (archive_record id raw p)
    unfolding archive_record same
    archive_record-Runs p = go (archive.store p.world.files audit_log id raw).0 refl
      where
        files' : archive.Files
        files' = (archive.store p.world.files audit_log id raw).1

        p' : Polling
        p' = with_files files' p

        moves : Advances p p'
        moves = (
          λ event id' raw' h.
              archive.store-keeps p.world.files event id' raw' audit_log id raw refl h,
          refl,
        )

        go :
            (res : ArchiveResult Bool)
            → (archive.store p.world.files audit_log id raw).0 ≡ res
            → Runs IsIn p (archive_record id raw p)
        go (failed e) h = rw (h, archive_record) (halts-Runs IsIn p p' (archive_failed e) moves)
        go (done created) h =
            rw (h, archive_record)
              (Runs-after IsIn p p' (stored_as p' (finalize_archive p.world.store id)) moves (
                finalize-Runs p' (
                  archive.verify_existing-store p.world.files files' audit_log id raw created refl
                    (ap (λ res. (res, files')) h))))

    module _ (c : Poller) (now : Time) where
      admit_reserved-Runs : (p : Polling) → Runs IsIn p (admit_reserved c id raw now p)
      unfolding admit_reserved
      admit_reserved-Runs p = go (admit p.world.store id audit_log raw [] now c.dedupe_ttl).0 refl
        where
          p' : Polling
          p' = with_store (admit p.world.store id audit_log raw [] now c.dedupe_ttl).1 p

          moves : Advances p p'
          moves =
              (λ event id raw h. h, admit-stamps p.world.store id audit_log raw [] now c.dedupe_ttl)

          go :
              (res : Result Bool)
              → (admit p.world.store id audit_log raw [] now c.dedupe_ttl).0 ≡ res
              → Runs IsIn p (admit_reserved c id raw now p)
          go (err e) h = rw (h, admit_reserved) (halts-Runs IsIn p p' (store_failed e) moves)
          go (ok again) h =
              rw (h, admit_reserved)
                (Runs-after IsIn p p' (archive_record id raw p') moves (archive_record-Runs p'))

      reserve_record-Runs : (p : Polling) → Runs IsIn p (reserve_record c id raw now p)
      unfolding reserve_record
      reserve_record-Runs p = go (reserve p.world.files (admission_required (length raw))) refl
        where
          go :
              (res : ArchiveResult (Unit {0}))
              → reserve p.world.files (admission_required (length raw)) ≡ res
              → Runs IsIn p (reserve_record c id raw now p)
          go (failed e) h =
              rw (h, reserve_record) (halts-Runs IsIn p p (archive_failed e) (still p))
          go (done _) h = rw (h, reserve_record) (admit_reserved-Runs p)

      take_record-Runs : (p : Polling) → Runs IsIn p (take_record c id raw now p)
      unfolding take_record
      take_record-Runs p =
          unless_ended-Runs IsIn p (reserve_record c id raw now)
            (reserve_record-Runs (asked_once p))

      resume_record-Runs :
          (state : DeliveryState) (p : Polling) → Runs IsIn p (resume_record c id raw now state p)
      unfolding resume_record
      resume_record-Runs state p = go (archive.verify_existing p.world.files audit_log id raw) refl
        where
          go :
              (res : ArchiveResult Bool)
              → archive.verify_existing p.world.files audit_log id raw ≡ res
              → Runs IsIn p (resume_record c id raw now state p)
          go (failed e) h = rw (h, resume_record) (halts-Runs IsIn p p (archive_failed e) (still p))
          go (done false) h = rw (h, resume_record) (take_record-Runs p)
          go (done true) h = elim (Bool-cases state.archived) [
            | inl a ↦ rw (h, resume_record, a) (still p, λ _. h)
            | inr a ↦ rw (h, resume_record, a) (finalize-Runs p h)
          ]

      pub admit_as-Runs : (p : Polling) → Runs IsIn p (admit_as c id raw now p)
      unfolding admit_as
      admit_as-Runs p = go (lookup_delivery p.world.store id audit_log raw) refl
        where
          go :
              (res : Result (Option DeliveryState))
              → lookup_delivery p.world.store id audit_log raw ≡ res
              → Runs IsIn p (admit_as c id raw now p)
          go (err e) h = rw (h, admit_as) (halts-Runs IsIn p p (store_failed e) (still p))
          go (ok none) h = rw (h, admit_as) (take_record-Runs p)
          go (ok (some state)) h = rw (h, admit_as) (resume_record-Runs state p)
