-- ===== src/Tests/Requests.antt =====
-- A request to the webhook handler, and the properties of the handler at it.
use lark_git_webhook.Base.{
  ◌+◌, ◌≤◌, ◌≡◌, refl, ap, subst, Bool, true, false, ◌&&◌, ◌||◌, none, some, List, [], ◌∷◌, ◌++◌,
  arith, ℕ, zero, suc, length,
}
use lark_git_webhook.Base.Bytes.{Bytes, ascii, same, same_refl}
use lark_git_webhook.Base.Words.{add64, sub64}
use lark_git_webhook.Bolt.Memory.{memory}
use lark_git_webhook.Bolt.Assoc.{lookup, insert}
use lark_git_webhook.Store.Error.{ok}
use lark_git_webhook.Store.Keys.{number_key, time_key, dedupe_index_key}
use lark_git_webhook.Store.Accounting.{active_item_bytes}
use lark_git_webhook.Store.Dedupe.{cleanup_dedupe, evict_dedupe, remember}
use lark_git_webhook.Store.Admission.{admit, admit_new, make_room, over_capacity, push_item}
use lark_git_webhook.Store.Delivery.{finalize_archive, lookup_delivery}
use lark_git_webhook.Store.Subscription.{repository_subscribers}
use lark_git_webhook.Archive.{Archive, ArchiveResult, done, reserve, admission_required}
use lark_git_webhook.Webhook.Checks.{
  Content, member, repository_name, valid_header, valid_delivery_id, valid_event, valid_signature,
  provided_mac, signature_prefix,
}
use lark_git_webhook.Webhook.{
  Handler, Request, World, limit_body, delivery_targets, serve_http, serve_body, serve_delivery,
}
use lark_git_webhook.Webhook.Accepted.{Recorded, serve_http-accepted, serve_http-unsigned}
use lark_git_webhook.Webhook.Targets.{distinct, delivery_targets_lem}
use lark_git_webhook.Webhook.Signature.{encode_hex, AreBytes, valid_signature_lem}
use lark_git_webhook.Tests.Data.{sizes, empty_store, noon, payload, push, chat}

-- The payloads that were stored, as a test on event, delivery and payload.
abbrev pub Shelf : Type 0
Shelf = Bytes → Bytes → Bytes → Bool

abbrev pub shelve : Shelf → Bytes → Bytes → Bytes → Shelf
shelve files event id payload event' id' payload' =
    (same event event' && (same id id' && same payload payload')) || files event' id' payload'

pub shelved :
    (files files' : Shelf) (event id payload : Bytes) (created : Bool)
    → same event [] ≡ false
    → ◌≡◌ {A = ArchiveResult Bool × Shelf}
        (done true, shelve files event id payload)
        (done created, files')
    → done (files' event id payload) ≡ done true
shelved files files' event id payload created named h =
    let e : shelve files event id payload ≡ files' =
      ap (λ (p : ArchiveResult Bool × Shelf). p.1) h in
    subst (λ (f : Shelf). ◌≡◌ {A = ArchiveResult Bool} (done (f event id payload)) (done true)) e
      (rw (same_refl event, same_refl id, same_refl payload) refl)

pub shelve-keeps :
    (files : Shelf) (event id payload event' id' payload' : Bytes)
    → same event' [] ≡ false
    → ◌≡◌ {A = ArchiveResult Bool} (done (files event id payload)) (done true)
    → ◌≡◌ {A = ArchiveResult Bool}
        (done (shelve files event' id' payload' event id payload))
        (done true)
shelve-keeps files event id payload event' id' payload' named h = ground arith

instance abbrev pub shelf : Archive
shelf = record {
  Files = Shelf;
  min_free_bytes = 1_000;
  free_bytes = λ files. some 100_000_000;
  verify_existing = λ files event id payload. done (files event id payload);
  store = λ files event id payload. (done true, shelve files event id payload);
  verify_existing-store = shelved;
  store-keeps = shelve-keeps;
}

abbrev pub repeat : ℕ → ℕ → Bytes
repeat zero b = []
repeat (suc n) b = b ∷ repeat n b

instance abbrev pub plain : Content
plain = record {
  hmac = λ secret body. repeat 32 (length secret + length body);
  json_valid = λ body. true;
  full_name = λ body. none;
  to_lower = λ name. name;
}

abbrev handler : Handler
handler = record {
  secret = 5 ∷ 6 ∷ [];
  default_chat = chat;
  max_body_bytes = 1_000;
  dedupe_ttl = 60;
  max_in_flight = 2;
  in_flight = 1;
}

abbrev request : Request
request = record {
  method = ascii "POST";
  body = some payload;
  signature = signature_prefix ++ encode_hex (plain.hmac handler.secret payload);
  delivery_id = ascii "d-1";
  event = push;
}

abbrev start : World
start = record { store = empty_store; files = λ event id payload. false }

accepts_request : (serve_http handler noon request start).0.status ≡ 202
unfolding memory lookup insert same serve_http serve_body valid_signature valid_header
    serve_delivery lookup_delivery repository_subscribers reserve admission_required admit admit_new
    make_room cleanup_dedupe evict_dedupe over_capacity push_item remember add64 sub64
    active_item_bytes number_key time_key dedupe_index_key finalize_archive
accepts_request = refl

serve_http-accepted_example :
    (body : Bytes) × (valid_signature request.signature body handler.secret ≡ true)
    × (valid_delivery_id request.delivery_id ≡ true)
    × (valid_event request.event ≡ true)
    × Recorded request body (serve_http handler noon request start).1
serve_http-accepted_example = serve_http-accepted handler noon request start accepts_request

abbrev forged : Request
forged = record request { signature = [] }

forged_bad :
    (sent : Bytes)
    → forged.body ≡ some sent
    → valid_signature forged.signature (limit_body (handler.max_body_bytes + 1) sent) handler.secret
      ≡ false
unfolding valid_signature
forged_bad sent e = refl

serve_http-unsigned_example :
    ((serve_http handler noon forged start).1 ≡ start)
    × (400 ≤ (serve_http handler noon forged start).0.status)
serve_http-unsigned_example = serve_http-unsigned handler noon forged start forged_bad

one_target : delivery_targets handler empty_store payload ≡ ok (chat ∷ [])
unfolding delivery_targets same
one_target = refl

delivery_targets_example :
    (rest : List Bytes) × (chat ∷ [] ≡ handler.default_chat ∷ rest)
    × (distinct (chat ∷ []) ≡ true)
    × (same (repository_name payload) [] ≡ true → rest ≡ [])
    × ((subscribers : List Bytes)
        → same (repository_name payload) [] ≡ false
        → repository_subscribers empty_store (repository_name payload) ≡ ok subscribers
        → (x : Bytes)
        → member x (chat ∷ []) ≡ (same handler.default_chat x || member x subscribers))
delivery_targets_example = delivery_targets_lem handler empty_store payload (chat ∷ []) one_target

mac_bytes : AreBytes (plain.hmac handler.secret payload)
mac_bytes = ground arith

valid_signature_example :
    (valid_signature
        (signature_prefix ++ encode_hex (plain.hmac handler.secret payload))
        payload
        handler.secret
      ≡ true)
    × (valid_signature request.signature payload handler.secret ≡ true
        → provided_mac request.signature ≡ some (plain.hmac handler.secret payload))
valid_signature_example =
    valid_signature_lem request.signature payload handler.secret mac_bytes refl
