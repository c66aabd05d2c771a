-- ===== src/Tests/Gitlab.antt =====
-- A request to the GitLab handler, and the properties of the handler at it.
use lark_git_webhook.Base.{◌≤◌, ◌≡◌, refl, true, false, none, some, [], ◌∷◌, ◌++◌, length}
use lark_git_webhook.Base.Bytes.{Bytes, ascii, same}
use lark_git_webhook.Base.Words.{add64, sub64}
use lark_git_webhook.Bolt.Memory.{memory}
use lark_git_webhook.Bolt.Assoc.{lookup, insert}
use lark_git_webhook.Store.Keys.{number_key, time_key, dedupe_index_key}
use lark_git_webhook.Store.Accounting.{active_item_bytes}
use lark_git_webhook.Store.Dedupe.{cleanup_dedupe, evict_dedupe, remember}
use lark_git_webhook.Store.Admission.{admit, admit_new, make_room, over_capacity, push_item}
use lark_git_webhook.Store.Delivery.{finalize_archive, lookup_delivery}
use lark_git_webhook.Store.Subscription.{repository_subscribers}
use lark_git_webhook.Archive.{reserve, admission_required}
use lark_git_webhook.Webhook.{World, publish}
use lark_git_webhook.Webhook.Checks.{valid_header}
use lark_git_webhook.Webhook.Accepted.{Recorded}
use lark_git_webhook.Gitlab.{
  GitlabHandler, GitlabRequest, valid_token, serve_gitlab, serve_gitlab_body, serve_labelled,
  serve_event, take_event, admit_event,
}
use lark_git_webhook.Gitlab.Labels.{
  GitlabPayloads, label_prefix, normalize, trim_left, trim_right, known_or, event_label,
  is_delivered,
}
use lark_git_webhook.Gitlab.Labels.Canonical.{IsName, event_label-IsName}
use lark_git_webhook.Gitlab.Accepted.{delivery_of, serve_gitlab-accepted}
use lark_git_webhook.Tests.Data.{sizes, empty_store, noon, payload, chat}
use lark_git_webhook.Tests.Requests.{shelf, plain}

instance abbrev pub bare : GitlabPayloads
bare = record { kinds = λ body. none; project_path = λ body. none }

labels_tag_push : event_label (ascii "Tag Push Hook") ≡ some (ascii "gitlab:tag_push")
unfolding event_label normalize trim_left trim_right known_or same
labels_tag_push = refl

labels_other : event_label (ascii " Note--Hook ") ≡ some (ascii "gitlab:note_hook")
unfolding event_label normalize trim_left trim_right known_or same
labels_other = refl

event_label_example :
    (name : Bytes) × (ascii "gitlab:note_hook" ≡ label_prefix ++ name) × IsName name
event_label_example =
    event_label-IsName (ascii " Note--Hook ") (ascii "gitlab:note_hook") labels_other

abbrev gitlab : GitlabHandler
gitlab = record {
  secret = 5 ∷ 6 ∷ [];
  default_chat = chat;
  max_body_bytes = 1_000;
  dedupe_ttl = 60;
  max_in_flight = 2;
  in_flight = 1;
}

abbrev hook : GitlabRequest
hook = record {
  method = ascii "POST";
  body = some payload;
  token = 5 ∷ 6 ∷ [];
  event = ascii "Push Hook";
  event_uuid = ascii "u-1";
}

abbrev before_hook : World
before_hook = record { store = empty_store; files = λ event id payload. false }

accepts_hook : (serve_gitlab gitlab noon hook before_hook).0.status ≡ 202
unfolding serve_gitlab serve_gitlab_body serve_labelled serve_event take_event admit_event
    event_label normalize trim_left trim_right known_or is_delivered valid_token valid_header memory
    lookup insert same lookup_delivery repository_subscribers reserve admission_required admit
    admit_new make_room cleanup_dedupe evict_dedupe over_capacity push_item remember add64 sub64
    active_item_bytes number_key time_key dedupe_index_key finalize_archive publish
accepts_hook = refl

serve_gitlab-accepted_example :
    (body : Bytes) × (label : Bytes) × (valid_token gitlab.secret hook.token ≡ true)
    × (event_label hook.event ≡ some label)
    × (plain.json_valid body ≡ true)
    × (length body ≤ gitlab.max_body_bytes)
    × Recorded (delivery_of hook label body) body (serve_gitlab gitlab noon hook before_hook).1
serve_gitlab-accepted_example = serve_gitlab-accepted gitlab noon hook before_hook accepts_hook
