-- ===== src/Gitlab/Accepted.antt =====
-- What an accepted request of internal/gitlabwebhook/handler.go has left behind, and what a request
-- with a bad token has not.
use lark_git_webhook.Base.{
  [], ap, false, ◌+◌, ◌≤◌, ◌≡◌, refl, Bool, true, not, Option, none, some, List, arith, ltb,
  if◌then◌else◌, Bool-cases, inl, inr, length,
}
use lark_git_webhook.Base.Bytes.{Bytes, same, ascii}
use lark_git_webhook.Bolt.{Bolt}
use lark_git_webhook.Store.Error.{Result, ok, err}
use lark_git_webhook.Store.Types.{Time, Encoding, DeliveryState}
use lark_git_webhook.Store.Db.{Store}
use lark_git_webhook.Store.Admission.{admit, admit_archive_only}
use lark_git_webhook.Store.Delivery.{lookup_delivery}
use lark_git_webhook.Store.Delivery.Finalize.{
  KnownIn, admit-KnownIn, archive_only-KnownIn, lookup-KnownIn,
}
use lark_git_webhook.Archive.{Archive, ArchiveResult, done, failed, reserve, admission_required}
use lark_git_webhook.Webhook.Checks.{Content}
use lark_git_webhook.Webhook.{
  Request, Answer, World, duplicate, rejected, verification_failed, answer, limit_body,
}
use lark_git_webhook.Webhook.Accepted.{
  Recorded, Keeps, store_status-refuses, archive_status-refuses, acknowledge-Keeps, publish-Keeps,
}
use lark_git_webhook.Gitlab.Labels.Canonical.{event_label-IsName}
use lark_git_webhook.Gitlab.Labels.{system_hook_event, GitlabPayloads, event_label, is_delivered}
use lark_git_webhook.Gitlab.{
  GitlabHandler, GitlabRequest, valid_token, delivery_id_for, kept_as, project_targets,
  publish_admitted, admit_event, take_event, resume_event, serve_event, event_of, serve_labelled,
  serve_gitlab_body, serve_gitlab,
}

module _ ⦃bolt : Bolt⦄ ⦃encoding : Encoding⦄ ⦃archive : Archive⦄ ⦃content : Content⦄
    ⦃payloads : GitlabPayloads⦄ where
  module _ (r : Request) (body : Bytes) (named : same r.event [] ≡ false) where
    publish_admitted-Keeps :
        (w : World) (p : Result Bool × Store)
        → ((again : Bool) → p ≡ (ok again, p.1) → KnownIn r.delivery_id r.event body p.1)
        → Keeps r body (publish_admitted r body p.0 (record w { store = p.1 }))
    unfolding publish_admitted
    publish_admitted-Keeps w (err why, s) known = λ q. absurd (store_status-refuses why q)
    publish_admitted-Keeps w (ok again, s) known =
        publish-Keeps r body named again (record w { store = s }) (known again refl)

    admit_event-Keeps :
        (h : GitlabHandler) (now : Time) (w : World) → Keeps r body (admit_event h now r body w)
    unfolding admit_event
    admit_event-Keeps h now w = elim (Bool-cases (is_delivered r.event)) [
      | inr e ↦
          let only = admit_archive_only w.store r.delivery_id r.event body in
          rw (e, admit_event)
            (publish_admitted-Keeps w only
              λ again q. archive_only-KnownIn w.store only.1 r.delivery_id r.event body again q)
      | inl e ↦ targeted e (project_targets h w.store body) refl
    ]
      where
        targeted :
            is_delivered r.event ≡ true
            → (o : Result (List Bytes)) → project_targets h w.store body ≡ o
            → Keeps r body (admit_event h now r body w)
        targeted e (err why) f = rw (e, admit_event, f) (λ q. absurd (omega arith))
        targeted e (ok targets) f =
            let both = admit w.store r.delivery_id r.event body targets now h.dedupe_ttl in
            rw (e, admit_event, f)
              (publish_admitted-Keeps w both λ again q.
                admit-KnownIn w.store both.1 r.delivery_id r.event body targets now h.dedupe_ttl
                  again q)

    take_event-Keeps :
        (h : GitlabHandler) (now : Time) (w : World) → Keeps r body (take_event h now r body w)
    unfolding take_event
    take_event-Keeps h now w = go (reserve w.files (admission_required (length body))) refl
      where
        go :
            (res : ArchiveResult (Unit {0}))
            → reserve w.files (admission_required (length body)) ≡ res
            → Keeps r body (take_event h now r body w)
        go (failed why) e = rw (e, take_event) (λ q. absurd (omega arith))
        go (done _) e = rw (e, take_event) (admit_event-Keeps h now w)

    resume_event-Keeps :
        (h : GitlabHandler) (now : Time) (state : DeliveryState) (w : World)
        → lookup_delivery w.store r.delivery_id r.event body ≡ ok (some state)
        → Keeps r body (resume_event h now r body state w)
    unfolding resume_event
    resume_event-Keeps h now state w found =
        go (archive.verify_existing w.files r.event r.delivery_id body) refl
      where
        go :
            (res : ArchiveResult Bool)
            → archive.verify_existing w.files r.event r.delivery_id body ≡ res
            → Keeps r body (resume_event h now r body state w)
        go (failed why) e = rw (e, resume_event) (λ q. absurd (archive_status-refuses why q))
        go (done false) e = rw (e, resume_event) (take_event-Keeps h now w)
        go (done true) e = elim (Bool-cases state.archived) [
          | inl c ↦ rw (e, resume_event, c) (λ _. (e, (state, found, c)))
          | inr c ↦
              rw (e, resume_event, c)
                (acknowledge-Keeps r body named duplicate w e
                  (lookup-KnownIn w.store r.delivery_id r.event body state found))
        ]

    serve_event-Keeps :
        (h : GitlabHandler) (now : Time) (w : World) → Keeps r body (serve_event h now r body w)
    unfolding serve_event
    serve_event-Keeps h now w = go (lookup_delivery w.store r.delivery_id r.event body) refl
      where
        go :
            (res : Result (Option DeliveryState))
            → lookup_delivery w.store r.delivery_id r.event body ≡ res
            → Keeps r body (serve_event h now r body w)
        go (err why) e = rw (e, serve_event) (λ q. absurd (store_status-refuses why q))
        go (ok none) e = rw (e, serve_event) (take_event-Keeps h now w)
        go (ok (some state)) e = rw (e, serve_event) (resume_event-Keeps h now state w e)

  -- An event is not empty.
  label-named : (header label : Bytes) → event_label header ≡ some label → same label [] ≡ false
  unfolding same
  label-named header label h =
      let (name, e, _) = event_label-IsName header label h in ap (λ (l : Bytes). same l []) e

  event_of-named :
      (label body : Bytes) → same label [] ≡ false → same (event_of label body) [] ≡ false
  unfolding event_of system_hook_event same
  event_of-named label body h = ground arith

  -- The delivery that a request and its body are.
  abbrev pub delivery_of : GitlabRequest → Bytes → Bytes → Request
  delivery_of r label body =
      kept_as (delivery_id_for r.event_uuid (event_of label body) body) (event_of label body)

  abbrev pub IsAccepted : GitlabHandler → GitlabRequest → Answer × World → Type 0
  IsAccepted h r (a, w) =
      a.status ≡ 202
      → (body : Bytes) × (label : Bytes) × (valid_token h.secret r.token ≡ true)
        × (event_label r.event ≡ some label)
        × (content.json_valid body ≡ true)
        × (length body ≤ h.max_body_bytes)
        × Recorded (delivery_of r label body) body w

  serve_gitlab_body-IsAccepted :
      (h : GitlabHandler) (now : Time) (r : GitlabRequest) (body : Bytes) (w : World)
      → IsAccepted h r (serve_gitlab_body h now r body w)
  unfolding serve_gitlab_body serve_labelled
  serve_gitlab_body-IsAccepted h now r body w =
      elim (Bool-cases (ltb h.max_body_bytes (length body))) [
        | inl long ↦ rw (serve_gitlab_body, long) (λ q. absurd (omega arith))
        | inr fits ↦ rw (serve_gitlab_body, fits) (checked fits (valid_token h.secret r.token) refl)
      ]
    where
      labelled :
          ltb h.max_body_bytes (length body) ≡ false
          → valid_token h.secret r.token ≡ true
          → (o : Option Bytes) → event_label r.event ≡ o
          → IsAccepted h r (serve_labelled h now r body o w)
      labelled fits good none e = λ q. absurd (omega arith)
      labelled fits good (some label) e = elim (Bool-cases (content.json_valid body)) [
        | inr j ↦ rw j (λ q. absurd (omega arith))
        | inl j ↦ rw j (λ q. (
          body,
          label,
          good,
          e,
          j,
          ground arith,
          serve_event-Keeps (delivery_of r label body) body
              (event_of-named label body (label-named r.event label e)) h now w q,
        ))
      ]

      checked :
          ltb h.max_body_bytes (length body) ≡ false
          → (b : Bool) → valid_token h.secret r.token ≡ b
          → IsAccepted h r (
              if not b
              then (answer 401 verification_failed, w)
              else serve_labelled h now r body (event_label r.event) w)
      checked fits false e = λ q. absurd (omega arith)
      checked fits true e = labelled fits e (event_label r.event) refl

  pub serve_gitlab-accepted :
      (h : GitlabHandler) (now : Time) (r : GitlabRequest) (w : World)
      → (serve_gitlab h now r w).0.status ≡ 202
      → (body : Bytes) × (label : Bytes) × (valid_token h.secret r.token ≡ true)
        × (event_label r.event ≡ some label)
        × (content.json_valid body ≡ true)
        × (length body ≤ h.max_body_bytes)
        × Recorded (delivery_of r label body) body (serve_gitlab h now r w).1
  unfolding serve_gitlab
  serve_gitlab-accepted h now r w accepted = whole accepted
    where
      read :
          (o : Option Bytes)
          → IsAccepted h r (elim o [
            | none ↦ (answer 400 rejected, w)
            | some sent ↦ serve_gitlab_body h now r (limit_body (h.max_body_bytes + 1) sent) w
          ])
      read none = λ q. absurd (omega arith)
      read (some sent) =
          serve_gitlab_body-IsAccepted h now r (limit_body (h.max_body_bytes + 1) sent) w

      whole : IsAccepted h r (serve_gitlab h now r w)
      whole = elim (Bool-cases (same r.method (ascii "POST"))) [
        | inr a ↦ rw (serve_gitlab, a) (λ q. absurd (omega arith))
        | inl a ↦ elim (Bool-cases (ltb h.in_flight h.max_in_flight)) [
          | inr b ↦ rw (serve_gitlab, a, b) (λ q. absurd (omega arith))
          | inl b ↦ rw (serve_gitlab, a, b) (read r.body)
        ]
      ]
