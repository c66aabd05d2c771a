-- ===== src/Gitlab.antt =====
-- The GitLab webhook handler, internal/gitlabwebhook/handler.go: `ServeHTTP` and what it calls.
pub mod Labels
pub mod Accepted
use lark_git_webhook.Base.{
  ◌+◌, ℕ, Bool, true, false, not, ◌&&◌, ◌||◌, Option, none, some, List, [], ◌∷◌, ◌++◌, ltb, ◌==◌,
  if◌then◌else◌, length,
}
use lark_git_webhook.Base.Bytes.{Bytes, same, ascii}
use lark_git_webhook.Bolt.{Bolt}
use lark_git_webhook.Store.Error.{Error, Result, ok, err, ◌>>=◌}
use lark_git_webhook.Store.Types.{Time, Encoding, DeliveryState}
use lark_git_webhook.Store.Db.{Store}
use lark_git_webhook.Store.Admission.{admit, admit_archive_only}
use lark_git_webhook.Store.Delivery.{lookup_delivery}
use lark_git_webhook.Store.Subscription.{repository_subscribers}
use lark_git_webhook.Archive.{Archive, failed, done, admission_required, reserve}
use lark_git_webhook.Webhook.Checks.{Content, add_targets, valid_delivery_id}
use lark_git_webhook.Webhook.Signature.{encode_hex}
use lark_git_webhook.Webhook.{
  Request, Answer, World, not_counted, rejected, verification_failed, duplicate, answer,
  store_status, archive_status, limit_body, acknowledge, publish,
}
use lark_git_webhook.Gitlab.Labels.{
  GitlabPayloads, event_label, system_hook_event, system_hook_label, is_delivered,
}

pub record GitlabHandler : Type 0 where
  pub secret : Bytes
  pub default_chat : Bytes
  pub max_body_bytes : ℕ
  pub dedupe_ttl : ℕ
  pub max_in_flight : ℕ
  pub in_flight : ℕ

-- A body that cannot be read is `none`; a missing header is empty.
pub record GitlabRequest : Type 0 where
  pub method : Bytes
  pub body : Option Bytes
  pub token : Bytes
  pub event : Bytes
  pub event_uuid : Bytes

-- `validToken`: without a secret every token is accepted.
unfoldable pub valid_token : Bytes → Bytes → Bool
valid_token secret provided =
    if length secret == 0
    then true
    else if length provided == 0 || not (length secret == length provided)
    then false
    else same secret provided

module _ ⦃encoding : Encoding⦄ where
  -- `deliveryIDFor`: the identifier that GitLab sent, or one that is made from the event and body.
  unfoldable pub delivery_id_for : Bytes → Bytes → Bytes → Bytes
  delivery_id_for uuid event body =
      if valid_delivery_id uuid then uuid else encode_hex (encoding.sum256 (event ++ (0 ∷ body)))

module _ ⦃content : Content⦄ ⦃payloads : GitlabPayloads⦄ where
  -- `repositoryName`.
  unfoldable pub project_name : Bytes → Bytes
  project_name body = elim (payloads.project_path body) [
    | none ↦ []
    | some path ↦ content.to_lower path
  ]

-- A delivery, by the name and the event under which it is kept.
abbrev pub kept_as : Bytes → Bytes → Request
kept_as id event = record {
  method = [];
  body = none;
  signature = [];
  delivery_id = id;
  event = event;
}

module _ ⦃bolt : Bolt⦄ ⦃encoding : Encoding⦄ ⦃archive : Archive⦄ ⦃content : Content⦄
    ⦃payloads : GitlabPayloads⦄ where
  -- `deliveryTargets`.
  unfoldable pub project_targets : GitlabHandler → Store → Bytes → Result (List Bytes)
  unfolding add_targets project_name
  project_targets h s body = if same (project_name body) [] then ok (h.default_chat ∷ []) else (do
    subscribers ← repository_subscribers s (project_name body)
    ok (h.default_chat ∷ add_targets (h.default_chat ∷ []) subscribers))

  -- The payload is archived under the reservation, once its delivery is admitted.
  unfoldable pub publish_admitted : Request → Bytes → Result Bool → World → Answer × World
  publish_admitted r body admitted w = elim admitted [
    | err e ↦ (answer (store_status e) rejected, w)
    | ok again ↦ publish r body again w
  ]

  -- Events that are forwarded are admitted to their chats, others to the archive alone.
  unfoldable pub admit_event : GitlabHandler → Time → Request → Bytes → World → Answer × World
  unfolding publish_admitted project_targets
  admit_event h now r body w = elim (is_delivered r.event) [
    | false ↦
        (let admitted = admit_archive_only w.store r.delivery_id r.event body in
          publish_admitted r body admitted.0 (record w { store = admitted.1 }))
    | true ↦ elim (project_targets h w.store body) [
      | err e ↦ (answer 503 rejected, w)
      | ok targets ↦
          (let admitted = admit w.store r.delivery_id r.event body targets now h.dedupe_ttl in
            publish_admitted r body admitted.0 (record w { store = admitted.1 }))
    ]
  ]

  -- A delivery that is not in the archive yet.
  unfoldable pub take_event : GitlabHandler → Time → Request → Bytes → World → Answer × World
  unfolding admit_event
  take_event h now r body w = elim (reserve w.files (admission_required (length body))) [
    | failed e ↦ (answer 503 rejected, w)
    | done _ ↦ admit_event h now r body w
  ]

  -- A delivery that the store knows: the payload may be in the archive already.
  unfoldable pub resume_event :
      GitlabHandler → Time → Request → Bytes → DeliveryState → World → Answer × World
  unfolding take_event acknowledge
  resume_event h now r body state w =
      elim (archive.verify_existing w.files r.event r.delivery_id body) [
        | failed e ↦ (answer (archive_status e) rejected, w)
        | done exists ↦
            if exists
            then (if state.archived then (answer 202 duplicate, w) else acknowledge r duplicate w)
            else take_event h now r body w
      ]

  -- A delivery whose token, event and payload are good.
  unfoldable pub serve_event : GitlabHandler → Time → Request → Bytes → World → Answer × World
  unfolding resume_event take_event
  serve_event h now r body w = elim (lookup_delivery w.store r.delivery_id r.event body) [
    | err e ↦ (answer (store_status e) rejected, w)
    | ok none ↦ take_event h now r body w
    | ok (some state) ↦ resume_event h now r body state w
  ]

  -- The event of a delivery: a system hook's is read from its payload.
  unfoldable pub event_of : Bytes → Bytes → Bytes
  unfolding system_hook_event
  event_of label body = if same label system_hook_label then system_hook_event body label else label

  -- A delivery whose token is good, by the label of its event header.
  unfoldable pub serve_labelled :
      GitlabHandler → Time → GitlabRequest → Bytes → Option Bytes → World → Answer × World
  unfolding event_of delivery_id_for serve_event
  serve_labelled h now r body none w = (answer 400 rejected, w)
  serve_labelled h now r body (some label) w =
      let event = event_of label body in
      if not (content.json_valid body)
      then (answer 400 rejected, w)
      else serve_event h now (kept_as (delivery_id_for r.event_uuid event body) event) body w

  unfoldable pub serve_gitlab_body :
      GitlabHandler → Time → GitlabRequest → Bytes → World → Answer × World
  serve_gitlab_body h now r body w =
      if ltb h.max_body_bytes (length body)
      then (answer 413 rejected, w)
      else if not (valid_token h.secret r.token)
      then (answer 401 verification_failed, w)
      else serve_labelled h now r body (event_label r.event) w

  -- `ServeHTTP`.
  unfoldable pub serve_gitlab : GitlabHandler → Time → GitlabRequest → World → Answer × World
  serve_gitlab h now r w =
      if not (same r.method (ascii "POST"))
      then (answer 405 not_counted, w)
      else if not (ltb h.in_flight h.max_in_flight)
      then (answer 503 rejected, w)
      else elim r.body [
        | none ↦ (answer 400 rejected, w)
        | some sent ↦ serve_gitlab_body h now r (limit_body (h.max_body_bytes + 1) sent) w
      ]
