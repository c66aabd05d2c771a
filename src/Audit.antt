-- ===== src/Audit.antt =====
-- Polling the audit log: `PollOnce`, `admit` and what they call in internal/audit/poller.go.
pub mod Stamps
pub mod Frame
pub mod Marks
pub mod Records
pub mod Loop
pub mod Checkpoint
use lark_git_webhook.Base.{
  ◌+◌, ℕ, Bool, true, false, Option, none, some, List, [], ◌∷◌, ◌++◌, if◌then◌else◌, length,
}
use lark_git_webhook.Base.Bytes.{Bytes, same, ascii}
use lark_git_webhook.Bolt.{Bolt}
use lark_git_webhook.Store.Error.{Error, Result, ok, err}
use lark_git_webhook.Store.Types.{Time, Encoding, DeliveryState}
use lark_git_webhook.Store.Db.{Store}
use lark_git_webhook.Store.Admission.{admit}
use lark_git_webhook.Store.Delivery.{finalize_archive, lookup_delivery}
use lark_git_webhook.Store.Audit.{
  audit_checkpoint, audit_bootstrap, set_audit_checkpoint, initialize_audit_checkpoint,
}
use lark_git_webhook.Archive.{Archive, ArchiveError, failed, done, admission_required, reserve}
use lark_git_webhook.Webhook.Checks.{Content}
use lark_git_webhook.Webhook.Signature.{encode_hex}
use lark_git_webhook.Webhook.{World}
use lark_git_webhook.Audit.Stamps.{AuditRecords, created_after}

-- The fields of `Poller` that a poll reads.
pub record Poller : Type 0 where
  pub org : Bytes
  pub dedupe_ttl : ℕ

pub data PollError : Type 0 where
  cancelled : PollError
  store_failed : Error → PollError
  archive_failed : ArchiveError → PollError
  fetch_failed : PollError
  bad_record : PollError
  bad_timestamp : PollError

pub data Polled {ℓ} (A : Type ℓ) : Type ℓ where
  halted : PollError → Polled A
  went : A → Polled A

-- What is outside of a poll, by the number of the question: whether the context has ended, which
-- the wait for the archive's lock asks too, and the records of an organisation that the client
-- fetches from a time on, `none` where it fails.
pub record AuditOutside : Type 0 where
  pub ended : ℕ → Bool
  pub fetch : ℕ → Bytes → Time → Option (List Bytes)

abbrev pub audit_log : Bytes
audit_log = ascii "audit_log"

-- Which records are admitted: all, or those that are later than the first checkpoint.
unfoldable pub wanted : ⦃records : AuditRecords⦄ → Option Time → Bytes → Polled Bool
unfolding created_after
wanted none raw = went true
wanted (some bootstrap) raw = elim (created_after raw bootstrap) [
  | none ↦ halted bad_timestamp
  | some after ↦ went after
]

module _ ⦃encoding : Encoding⦄ where
  -- The identifier under which a record is kept.
  unfoldable pub record_id : Bytes → Bytes → Bytes → Bytes
  record_id org raw document =
      let identity = if same document [] then encode_hex (encoding.sum256 raw) else document in
      ascii "audit:" ++ org ++ ascii ":" ++ identity

module _ ⦃bolt : Bolt⦄ ⦃encoding : Encoding⦄ ⦃archive : Archive⦄ ⦃content : Content⦄
    ⦃records : AuditRecords⦄ ⦃outside : AuditOutside⦄ where
  -- A poll at work: `asked` counts the questions.
  pub record Polling : Type 0 where
    pub world : World
    pub asked : ℕ

  abbrev pub with_store : Store → Polling → Polling
  with_store s p = record p { world = record (p.world) { store = s } }

  abbrev pub with_files : archive.Files → Polling → Polling
  with_files files p = record p { world = record (p.world) { files = files } }

  abbrev pub asked_once : Polling → Polling
  asked_once p = record p { asked = p.asked + 1 }

  -- `if err := ctx.Err(); err != nil { return err }`.
  unfoldable pub unless_ended :
      Polling → (Polling → Polled (Unit {0}) × Polling) → Polled (Unit {0}) × Polling
  unless_ended p next = elim (outside.ended p.asked) [
    | true ↦ (halted cancelled, asked_once p)
    | false ↦ next (asked_once p)
  ]

  -- `if err := …; err != nil { return err }`.
  unfoldable pub and_then :
      Polled (Unit {0}) × Polling
      → (Polling → Polled (Unit {0}) × Polling)
      → Polled (Unit {0}) × Polling
  and_then (halted e, p) next = (halted e, p)
  and_then (went _, p) next = next p

  -- The end of a call of the store.
  abbrev pub stored_as : Polling → Result (Unit {0}) × Store → Polled (Unit {0}) × Polling
  stored_as p (err e, s) = (halted (store_failed e), with_store s p)
  stored_as p (ok _, s) = (went tt, with_store s p)

  -- A record that is admitted is archived, under the reservation, and finalized.
  unfoldable pub archive_record : Bytes → Bytes → Polling → Polled (Unit {0}) × Polling
  archive_record id raw p =
      let stored = archive.store p.world.files audit_log id raw in
      let p' = with_files stored.1 p in
      elim stored.0 [
        | failed e ↦ (halted (archive_failed e), p')
        | done created ↦ stored_as p' (finalize_archive p'.world.store id)
      ]

  unfoldable pub admit_reserved :
      Poller → Bytes → Bytes → Time → Polling → Polled (Unit {0}) × Polling
  unfolding archive_record
  admit_reserved c id raw now p =
      let admitted = admit p.world.store id audit_log raw [] now c.dedupe_ttl in
      elim admitted.0 [
        | err e ↦ (halted (store_failed e), with_store admitted.1 p)
        | ok again ↦ archive_record id raw (with_store admitted.1 p)
      ]

  -- What is done under the archive's lock.
  unfoldable pub reserve_record :
      Poller → Bytes → Bytes → Time → Polling → Polled (Unit {0}) × Polling
  unfolding admit_reserved
  reserve_record c id raw now p = elim (reserve p.world.files (admission_required (length raw))) [
    | failed e ↦ (halted (archive_failed e), p)
    | done _ ↦ admit_reserved c id raw now p
  ]

  -- `ReserveContext`, and what follows it.
  unfoldable pub take_record : Poller → Bytes → Bytes → Time → Polling → Polled (Unit {0}) × Polling
  unfolding unless_ended reserve_record
  take_record c id raw now p = unless_ended p (reserve_record c id raw now)

  -- A record that the store knows: it may be in the archive already.
  unfoldable pub resume_record :
      Poller → Bytes → Bytes → Time → DeliveryState → Polling → Polled (Unit {0}) × Polling
  unfolding take_record
  resume_record c id raw now state p =
      elim (archive.verify_existing p.world.files audit_log id raw) [
        | failed e ↦ (halted (archive_failed e), p)
        | done true ↦
            (if state.archived
              then (went tt, p)
              else stored_as p (finalize_archive p.world.store id))
        | done false ↦ take_record c id raw now p
      ]

  unfoldable pub admit_as : Poller → Bytes → Bytes → Time → Polling → Polled (Unit {0}) × Polling
  unfolding resume_record take_record
  admit_as c id raw now p = elim (lookup_delivery p.world.store id audit_log raw) [
    | err e ↦ (halted (store_failed e), p)
    | ok none ↦ take_record c id raw now p
    | ok (some state) ↦ resume_record c id raw now state p
  ]

  unfoldable pub admit_decoded : Poller → Bytes → Time → Polling → Polled (Unit {0}) × Polling
  unfolding admit_as
  admit_decoded c raw now p = elim (records.document_id raw) [
    | none ↦ (halted bad_record, p)
    | some document ↦ admit_as c (record_id c.org raw document) raw now p
  ]

  -- `admit`.
  unfoldable pub admit_record : Poller → Bytes → Time → Polling → Polled (Unit {0}) × Polling
  unfolding unless_ended admit_decoded
  admit_record c raw now p = unless_ended p (admit_decoded c raw now)

  -- One round of the loop, and the rounds after it.
  unfoldable pub admit_wanted :
      Poller
      → Option Time
      → Time
      → Bytes
      → (Polling → Polled (Unit {0}) × Polling)
      → Polling
      → Polled (Unit {0}) × Polling
  unfolding and_then
  admit_wanted c bootstrap now raw later p = elim (wanted bootstrap raw) [
    | halted e ↦ (halted e, p)
    | went true ↦ and_then (admit_record c raw now p) later
    | went false ↦ later p
  ]

  unfoldable pub admit_all :
      Poller → Option Time → Time → List Bytes → Polling → Polled (Unit {0}) × Polling
  unfolding unless_ended admit_wanted
  admit_all c bootstrap now [] p = (went tt, p)
  admit_all c bootstrap now (raw ∷ rest) p =
      unless_ended p (admit_wanted c bootstrap now raw (admit_all c bootstrap now rest))

  -- The checkpoint moves to the start of the poll.
  unfoldable pub move_checkpoint : Poller → Time → Polling → Polled (Unit {0}) × Polling
  move_checkpoint c now p = stored_as p (set_audit_checkpoint p.world.store c.org now)

  unfoldable pub leave_off : Poller → Time → Polling → Polled (Unit {0}) × Polling
  unfolding unless_ended move_checkpoint
  leave_off c now p = unless_ended p (move_checkpoint c now)

  -- The records that were fetched.
  unfoldable pub poll_fetched :
      Poller → Time → Option Time → List Bytes → Polling → Polled (Unit {0}) × Polling
  unfolding and_then admit_all leave_off
  poll_fetched c now bootstrap fetched p =
      and_then (admit_all c bootstrap now fetched p) (leave_off c now)

  -- The records from the checkpoint on.
  unfoldable pub poll_records :
      Poller → Time → Time → Option Time → Polling → Polled (Unit {0}) × Polling
  unfolding unless_ended poll_fetched
  poll_records c now checkpoint bootstrap p = elim (outside.fetch p.asked c.org checkpoint) [
    | none ↦ (halted fetch_failed, asked_once p)
    | some fetched ↦ unless_ended (asked_once p) (poll_fetched c now bootstrap fetched)
  ]

  unfoldable pub begin_checkpoint : Poller → Time → Polling → Polled (Unit {0}) × Polling
  begin_checkpoint c now p = stored_as p (initialize_audit_checkpoint p.world.store c.org now)

  -- `PollOnce`.
  unfoldable pub poll_once : Poller → Time → Polling → Polled (Unit {0}) × Polling
  unfolding unless_ended begin_checkpoint poll_records
  poll_once c now p = elim (audit_checkpoint p.world.store c.org) [
    | err e ↦ (halted (store_failed e), p)
    | ok none ↦ unless_ended p (begin_checkpoint c now)
    | ok (some checkpoint) ↦ elim (audit_bootstrap p.world.store c.org) [
      | err e ↦ (halted (store_failed e), p)
      | ok bootstrap ↦ poll_records c now checkpoint bootstrap p
    ]
  ]
