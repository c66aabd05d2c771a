-- ===== src/Webhook/Accepted.antt =====
-- What an accepted request of internal/webhook/handler.go has left behind, and what a request with a
-- bad signature has not.
use lark_git_webhook.Base.{
  [], ◌∷◌, ◌+◌, ◌≤◌, ◌≡◌, refl, ap, Bool, true, false, not, ◌||◌, Option, none, some, List, arith,
  ltb, if◌then◌else◌, Bool-cases, inl, inr, length,
}
use lark_git_webhook.Base.Bytes.{Bytes, same, ascii}
use lark_git_webhook.Bolt.{Bolt}
use lark_git_webhook.Store.Error.{Error, Result, ok, err}
use lark_git_webhook.Store.Types.{Time, Encoding, DeliveryState}
use lark_git_webhook.Store.Db.{Store}
use lark_git_webhook.Store.Admission.{admit, admit_archive_only}
use lark_git_webhook.Store.Delivery.{finalize_archive, lookup_delivery}
use lark_git_webhook.Store.Delivery.Finalize.{
  KnownIn, ArchivedIn, admit-KnownIn, archive_only-KnownIn, lookup-KnownIn, finalize-ArchivedIn,
}
use lark_git_webhook.Archive.{
  Archive, ArchiveError, archive_conflict, insufficient_space, archive_unavailable, ArchiveResult,
  done, failed, reserve, admission_required,
}
use lark_git_webhook.Webhook.Checks.{
  Content, valid_header, valid_delivery_id, valid_event, archive_only_event, valid_signature,
}
use lark_git_webhook.Webhook.{
  Handler, Request, Answer, World, Counted, duplicate, received, rejected, answer, store_status,
  archive_status, limit_body, delivery_targets, acknowledge, publish, admit_delivery, take_delivery,
  resume_delivery, serve_delivery, serve_body, serve_http,
}

module _ ⦃bolt : Bolt⦄ ⦃encoding : Encoding⦄ ⦃archive : Archive⦄ ⦃content : Content⦄ where
  -- The payload is in the archive, and the delivery is found with it, marked as archived.
  abbrev pub Recorded : Request → Bytes → World → Type 0
  Recorded r body w =
      (archive.verify_existing w.files r.event r.delivery_id body ≡ done true)
      × ArchivedIn r.delivery_id r.event body w.store

  -- An answer of 202 leaves its delivery recorded.
  abbrev pub Keeps : Request → Bytes → Answer × World → Type 0
  Keeps r body (a, w) = a.status ≡ 202 → Recorded r body w

  pub store_status-refuses : (e : Error) → store_status e ≡ 202 → ⊥
  store_status-refuses e h = ground arith

  pub archive_status-refuses : (e : ArchiveError) → archive_status e ≡ 202 → ⊥
  archive_status-refuses archive_conflict h = omega arith
  archive_status-refuses insufficient_space h = omega arith
  archive_status-refuses archive_unavailable h = omega arith

  module _ (r : Request) (body : Bytes) (named : same r.event [] ≡ false) where
    pub acknowledge-Keeps :
        (c : Counted) (w : World)
        → archive.verify_existing w.files r.event r.delivery_id body ≡ done true
        → KnownIn r.delivery_id r.event body w.store
        → Keeps r body (acknowledge r c w)
    unfolding acknowledge
    acknowledge-Keeps c w there known = go (finalize_archive w.store r.delivery_id).0 refl
      where
        go :
            (res : Result (Unit {0}))
            → (finalize_archive w.store r.delivery_id).0 ≡ res
            → Keeps r body (acknowledge r c w)
        go (ok _) e =
            rw (e, acknowledge)
              (λ _. (
                there,
                finalize-ArchivedIn w.store (finalize_archive w.store r.delivery_id).1 r.delivery_id
                    r.event body known
                    (ap (λ res. (res, (finalize_archive w.store r.delivery_id).1)) e),
              ))
        go (err why) e = rw (e, acknowledge) (λ h. absurd (omega arith))

    pub publish-Keeps :
        (again : Bool) (w : World)
        → KnownIn r.delivery_id r.event body w.store
        → Keeps r body (publish r body again w)
    unfolding publish
    publish-Keeps again w known = go (archive.store w.files r.event r.delivery_id body).0 refl
      where
        files' : archive.Files
        files' = (archive.store w.files r.event r.delivery_id body).1

        go :
            (res : ArchiveResult Bool)
            → (archive.store w.files r.event r.delivery_id body).0 ≡ res
            → Keeps r body (publish r body again w)
        go (failed why) e = rw (e, publish) (λ h. absurd (omega arith))
        go (done created) e =
            let there =
              archive.verify_existing-store w.files files' r.event r.delivery_id body created named
                (ap (λ res. (res, files')) e) in
            rw (e, publish)
              (acknowledge-Keeps (if again then duplicate else received r.event)
                (record w { files = files' }) there known)

    abbrev pub finish : World → Result Bool → Store → Answer × World
    finish w res s = elim res [
      | err e ↦ (answer (store_status e) rejected, record w { store = s })
      | ok again ↦ publish r body again (record w { store = s })
    ]

    pub finish-Keeps :
        (w : World) (p : Result Bool × Store)
        → ((again : Bool) → p ≡ (ok again, p.1) → KnownIn r.delivery_id r.event body p.1)
        → Keeps r body (finish w p.0 p.1)
    finish-Keeps w (err why, s) known = λ q. absurd (store_status-refuses why q)
    finish-Keeps w (ok again, s) known =
        publish-Keeps again (record w { store = s }) (known again refl)

    admit_delivery-Keeps :
        (h : Handler) (now : Time) (targets : List Bytes) (w : World)
        → Keeps r body (admit_delivery h now r body targets w)
    unfolding admit_delivery
    admit_delivery-Keeps h now targets w = choose (archive_only_event r.event)
      where
        only : Result Bool × Store
        only = admit_archive_only w.store r.delivery_id r.event body

        both : Result Bool × Store
        both = admit w.store r.delivery_id r.event body targets now h.dedupe_ttl

        choose :
            (b : Bool)
            → Keeps r body (
                finish w
                  (if◌then◌else◌ {A = Result Bool × Store} b only both).0
                  (if◌then◌else◌ {A = Result Bool × Store} b only both).1)
        choose true =
            finish-Keeps w only
              λ again e. archive_only-KnownIn w.store only.1 r.delivery_id r.event body again e
        choose false = finish-Keeps w both λ again e.
            admit-KnownIn w.store both.1 r.delivery_id r.event body targets now h.dedupe_ttl again e

    take_delivery-Keeps :
        (h : Handler) (now : Time) (w : World) → Keeps r body (take_delivery h now r body w)
    unfolding take_delivery
    take_delivery-Keeps h now w = go (delivery_targets h w.store body) refl
      where
        admitted :
            (targets : List Bytes) (res : ArchiveResult (Unit {0}))
            → reserve w.files (admission_required (length body)) ≡ res
            → delivery_targets h w.store body ≡ ok targets
            → Keeps r body (take_delivery h now r body w)
        admitted targets (failed why) e f = rw (f, take_delivery, e) (λ q. absurd (omega arith))
        admitted targets (done _) e f =
            rw (f, take_delivery, e) (admit_delivery-Keeps h now targets w)

        go :
            (res : Result (List Bytes))
            → delivery_targets h w.store body ≡ res
            → Keeps r body (take_delivery h now r body w)
        go (err why) e = rw (e, take_delivery) (λ q. absurd (omega arith))
        go (ok targets) e =
            admitted targets (reserve w.files (admission_required (length body))) refl e

    resume_delivery-Keeps :
        (h : Handler) (now : Time) (state : DeliveryState) (w : World)
        → lookup_delivery w.store r.delivery_id r.event body ≡ ok (some state)
        → Keeps r body (resume_delivery h now r body state w)
    unfolding resume_delivery
    resume_delivery-Keeps h now state w found =
        go (archive.verify_existing w.files r.event r.delivery_id body) refl
      where
        go :
            (res : ArchiveResult Bool)
            → archive.verify_existing w.files r.event r.delivery_id body ≡ res
            → Keeps r body (resume_delivery h now r body state w)
        go (failed why) e = rw (e, resume_delivery) (λ q. absurd (archive_status-refuses why q))
        go (done false) e = rw (e, resume_delivery) (take_delivery-Keeps h now w)
        go (done true) e = elim (Bool-cases state.archived) [
          | inl c ↦ rw (e, resume_delivery, c) (λ _. (e, (state, found, c)))
          | inr c ↦
              rw (e, resume_delivery, c)
                (acknowledge-Keeps duplicate w e
                  (lookup-KnownIn w.store r.delivery_id r.event body state found))
        ]

    serve_delivery-Keeps :
        (h : Handler) (now : Time) (w : World) → Keeps r body (serve_delivery h now r body w)
    unfolding serve_delivery
    serve_delivery-Keeps h now w = go (lookup_delivery w.store r.delivery_id r.event body) refl
      where
        go :
            (res : Result (Option DeliveryState))
            → lookup_delivery w.store r.delivery_id r.event body ≡ res
            → Keeps r body (serve_delivery h now r body w)
        go (err why) e = rw (e, serve_delivery) (λ q. absurd (store_status-refuses why q))
        go (ok none) e = rw (e, serve_delivery) (take_delivery-Keeps h now w)
        go (ok (some state)) e = rw (e, serve_delivery) (resume_delivery-Keeps h now state w e)

  pub valid_event-named : (event : Bytes) → valid_event event ≡ true → same event [] ≡ false
  unfolding valid_header same
  valid_event-named [] h = absurd cc
  valid_event-named (c ∷ cs) h = refl

  -- What an accepted request is known to be, and to have left.
  abbrev pub Verified : Handler → Request → Answer × World → Type 0
  Verified h r (a, w) =
      a.status ≡ 202
      → (body : Bytes) × (valid_signature r.signature body h.secret ≡ true)
        × (valid_delivery_id r.delivery_id ≡ true)
        × (valid_event r.event ≡ true)
        × Recorded r body w

  serve_body-Verified :
      (h : Handler) (now : Time) (r : Request) (body : Bytes) (w : World)
      → Verified h r (serve_body h now r body w)
  unfolding serve_body
  serve_body-Verified h now r body w = elim (Bool-cases (ltb h.max_body_bytes (length body))) [
    | inl long ↦ rw (serve_body, long) (λ q. absurd (omega arith))
    | inr fits ↦ elim (Bool-cases (valid_signature r.signature body h.secret)) [
      | inr bad ↦ rw (serve_body, fits, bad) (λ q. absurd (omega arith))
      | inl signed ↦
          elim (Bool-cases (
            not (valid_delivery_id r.delivery_id)
            || (not (valid_event r.event) || not (content.json_valid body)))) [
              | inl odd ↦ rw (serve_body, fits, signed, odd) (λ q. absurd (omega arith))
              | inr well ↦
                  rw (serve_body, fits, signed, well)
                    (λ q. (
                      body,
                      signed,
                      ground arith,
                      ground arith,
                      serve_delivery-Keeps r body (valid_event-named r.event (ground arith)) h now w
                          q,
                    ))
            ]
    ]
  ]

  serve_body-unsigned :
      (h : Handler) (now : Time) (r : Request) (body : Bytes) (w : World)
      → valid_signature r.signature body h.secret ≡ false
      → ((serve_body h now r body w).1 ≡ w) × (400 ≤ (serve_body h now r body w).0.status)
  unfolding serve_body
  serve_body-unsigned h now r body w bad = elim (Bool-cases (ltb h.max_body_bytes (length body))) [
    | inl long ↦ rw (serve_body, long) (refl, omega arith)
    | inr fits ↦ rw (serve_body, fits, bad) (refl, omega arith)
  ]

  serve_http-Verified :
      (h : Handler) (now : Time) (r : Request) (w : World) → Verified h r (serve_http h now r w)
  unfolding serve_http
  serve_http-Verified h now r w = elim (Bool-cases (same r.method (ascii "POST"))) [
    | inr a ↦ rw (serve_http, a) (λ q. absurd (omega arith))
    | inl a ↦ elim (Bool-cases (ltb h.in_flight h.max_in_flight)) [
      | inr b ↦ rw (serve_http, a, b) (λ q. absurd (omega arith))
      | inl b ↦ rw (serve_http, a, b) (read r.body)
    ]
  ]
    where
      read :
          (o : Option Bytes)
          → Verified h r (elim o [
            | none ↦ (answer 400 rejected, w)
            | some sent ↦ serve_body h now r (limit_body (h.max_body_bytes + 1) sent) w
          ])
      read none = λ q. absurd (omega arith)
      read (some sent) = serve_body-Verified h now r (limit_body (h.max_body_bytes + 1) sent) w

  pub serve_http-accepted :
      (h : Handler) (now : Time) (r : Request) (w : World)
      → (serve_http h now r w).0.status ≡ 202
      → (body : Bytes) × (valid_signature r.signature body h.secret ≡ true)
        × (valid_delivery_id r.delivery_id ≡ true)
        × (valid_event r.event ≡ true)
        × Recorded r body (serve_http h now r w).1
  serve_http-accepted h now r w accepted = serve_http-Verified h now r w accepted

  -- A request whose body does not have a valid signature is answered with an error, and changes
  -- neither the store nor the archive.
  pub serve_http-unsigned :
      (h : Handler) (now : Time) (r : Request) (w : World)
      → ((sent : Bytes)
          → r.body ≡ some sent
          → valid_signature r.signature (limit_body (h.max_body_bytes + 1) sent) h.secret ≡ false)
      → ((serve_http h now r w).1 ≡ w) × (400 ≤ (serve_http h now r w).0.status)
  unfolding serve_http serve_body
  serve_http-unsigned h now r w bad = elim (Bool-cases (same r.method (ascii "POST"))) [
    | inr a ↦ rw (serve_http, a) (refl, omega arith)
    | inl a ↦ elim (Bool-cases (ltb h.in_flight h.max_in_flight)) [
      | inr b ↦ rw (serve_http, a, b) (refl, omega arith)
      | inl b ↦ rw (serve_http, a, b) (read r.body refl)
    ]
  ]
    where
      read :
          (o : Option Bytes)
          → r.body ≡ o
          → let p : Answer × World = elim r.body [
            | none ↦ (answer 400 rejected, w)
            | some sent ↦ serve_body h now r (limit_body (h.max_body_bytes + 1) sent) w
          ] in
            (p.1 ≡ w) × (400 ≤ p.0.status)
      read none e = rw e (refl, omega arith)
      read (some sent) e =
          rw e (serve_body-unsigned h now r (limit_body (h.max_body_bytes + 1) sent) w (bad sent e))
