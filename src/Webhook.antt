-- ===== src/Webhook.antt =====
-- The GitHub webhook handler, internal/webhook/handler.go: `ServeHTTP` and what it calls.
pub mod Checks
pub mod Accepted
pub mod Targets
pub mod Signature
use lark_git_webhook.Base.{
  ◌+◌, ◌-◌, ◌≤◌, ◌<◌, ◌≡◌, refl, sym, ap, ◌∙◌, subst, Bool, true, false, not, ◌&&◌, ◌||◌, Option,
  none, some, List, [], ◌∷◌, ◌++◌, arith, ltb, leb, ◌==◌, if◌then◌else◌, Bool-cases, Option-cases,
  inl, inr, ℕ, zero, suc, length,
}
use lark_git_webhook.Base.Bytes.{Bytes, same, ascii, after_prefix}
use lark_git_webhook.Bolt.{Bolt}
use lark_git_webhook.Store.Error.{Error, Result, ok, err, ◌>>=◌, delivery_conflict}
use lark_git_webhook.Store.Types.{Time, Encoding, DeliveryState}
use lark_git_webhook.Store.Db.{Store}
use lark_git_webhook.Store.Admission.{admit, admit_archive_only}
use lark_git_webhook.Store.Delivery.{finalize_archive, lookup_delivery}
use lark_git_webhook.Store.Subscription.{repository_subscribers}
use lark_git_webhook.Webhook.Checks.{
  Content, valid_delivery_id, valid_event, archive_only_event, add_targets, valid_signature,
  repository_name,
}
use lark_git_webhook.Archive.{
  Archive, ArchiveError, archive_conflict, ArchiveResult, done, failed, admission_required, reserve,
}

-- `inFlight` holds the requests that are being served.
pub record Handler : Type 0 where
  pub secret : Bytes
  pub default_chat : Bytes
  pub max_body_bytes : ℕ
  pub dedupe_ttl : ℕ
  pub max_in_flight : ℕ
  pub in_flight : ℕ

-- A body that cannot be read is `none`; a missing header is empty.
pub record Request : Type 0 where
  pub method : Bytes
  pub body : Option Bytes
  pub signature : Bytes
  pub delivery_id : Bytes
  pub event : Bytes

-- What a request is counted as.
pub data Counted : Type 0 where
  not_counted : Counted
  rejected : Counted
  verification_failed : Counted
  duplicate : Counted
  received : Bytes → Counted

pub record Answer : Type 0 where
  pub status : ℕ
  pub counted : Counted

abbrev pub answer : ℕ → Counted → Answer
answer status counted = record { status = status; counted = counted }

abbrev pub is_conflict : Error → Bool
is_conflict delivery_conflict = true
is_conflict _ = false

-- The answer to an error of the store.
abbrev pub store_status : Error → ℕ
store_status e = if is_conflict e then 409 else 503

abbrev pub archive_status : ArchiveError → ℕ
archive_status archive_conflict = 409
archive_status _ = 503

-- The first bytes of a body, which `io.LimitReader` lets through.
abbrev pub limit_body : ℕ → Bytes → Bytes
limit_body zero body = []
limit_body (suc n) [] = []
limit_body (suc n) (b ∷ body) = b ∷ limit_body n body

module _ ⦃bolt : Bolt⦄ ⦃encoding : Encoding⦄ ⦃archive : Archive⦄ ⦃content : Content⦄ where
  pub record World : Type 0 where
    pub store : Store
    pub files : archive.Files

  unfoldable pub delivery_targets : Handler → Store → Bytes → Result (List Bytes)
  unfolding add_targets repository_name
  delivery_targets h s body =
      if same (repository_name body) [] then ok (h.default_chat ∷ []) else (do
        subscribers ← repository_subscribers s (repository_name body)
        ok (h.default_chat ∷ add_targets (h.default_chat ∷ []) subscribers))

  -- `FinalizeArchive` and the answer.
  unfoldable pub acknowledge : Request → Counted → World → Answer × World
  acknowledge r counted w =
      let finalized = finalize_archive w.store r.delivery_id in
      let w' : World = record w { store = finalized.1 } in
      elim finalized.0 [ err e ↦ (answer 503 rejected, w') | ok _ ↦ (answer 202 counted, w') ]

  -- The payload is archived, with the reservation that the delivery was admitted under.
  unfoldable pub publish : Request → Bytes → Bool → World → Answer × World
  unfolding acknowledge
  publish r body again w =
      let stored = archive.store w.files r.event r.delivery_id body in
      let w' : World = record w { files = stored.1 } in
      elim stored.0 [
        | failed e ↦ (answer 503 rejected, w')
        | done created ↦ acknowledge r (if again then duplicate else received r.event) w'
      ]

  unfoldable pub admit_delivery :
      Handler → Time → Request → Bytes → List Bytes → World → Answer × World
  unfolding publish archive_only_event
  admit_delivery h now r body targets w =
      let admitted : Result Bool × Store =
        if archive_only_event r.event
        then admit_archive_only w.store r.delivery_id r.event body
        else admit w.store r.delivery_id r.event body targets now h.dedupe_ttl in
      let w' : World = record w { store = admitted.1 } in
      elim admitted.0 [
        | err e ↦ (answer (store_status e) rejected, w')
        | ok again ↦ publish r body again w'
      ]

  -- A delivery that is not in the archive yet.
  unfoldable pub take_delivery : Handler → Time → Request → Bytes → World → Answer × World
  unfolding delivery_targets admit_delivery
  take_delivery h now r body w = elim (delivery_targets h w.store body) [
    | err e ↦ (answer 503 rejected, w)
    | ok targets ↦ elim (reserve w.files (admission_required (length body))) [
      | failed e ↦ (answer 503 rejected, w)
      | done _ ↦ admit_delivery h now r body targets w
    ]
  ]

  -- A delivery that the store knows: the payload may be in the archive already.
  unfoldable pub resume_delivery :
      Handler → Time → Request → Bytes → DeliveryState → World → Answer × World
  unfolding take_delivery acknowledge
  resume_delivery h now r body state w =
      elim (archive.verify_existing w.files r.event r.delivery_id body) [
        | failed e ↦ (answer (archive_status e) rejected, w)
        | done exists ↦
            if exists
            then (if state.archived then (answer 202 duplicate, w) else acknowledge r duplicate w)
            else take_delivery h now r body w
      ]

  -- A request whose signature and headers are good.
  unfoldable pub serve_delivery : Handler → Time → Request → Bytes → World → Answer × World
  unfolding resume_delivery take_delivery
  serve_delivery h now r body w = elim (lookup_delivery w.store r.delivery_id r.event body) [
    | err e ↦ (answer (store_status e) rejected, w)
    | ok none ↦ take_delivery h now r body w
    | ok (some state) ↦ resume_delivery h now r body state w
  ]

  unfoldable pub serve_body : Handler → Time → Request → Bytes → World → Answer × World
  serve_body h now r body w =
      if ltb h.max_body_bytes (length body)
      then (answer 413 rejected, w)
      else if not (valid_signature r.signature body h.secret)
      then (answer 401 verification_failed, w)
      else if not (valid_delivery_id r.delivery_id)
          || (not (valid_event r.event) || not (content.json_valid body))
      then (answer 400 rejected, w)
      else serve_delivery h now r body w

  -- `ServeHTTP`.
  unfoldable pub serve_http : Handler → Time → Request → World → Answer × World
  serve_http h now r w =
      if not (same r.method (ascii "POST"))
      then (answer 405 not_counted, w)
      else if not (ltb h.in_flight h.max_in_flight)
      then (answer 503 rejected, w)
      else elim r.body [
        | none ↦ (answer 400 rejected, w)
        | some sent ↦ serve_body h now r (limit_body (h.max_body_bytes + 1) sent) w
      ]
