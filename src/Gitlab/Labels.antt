-- ===== src/Gitlab/Labels.antt =====
-- The labels of GitLab events: `eventLabel` and `systemHookEvent` of
-- internal/gitlabwebhook/handler.go.
pub mod Canonical
use lark_git_webhook.Base.{
  ◌+◌, ℕ, Bool, true, false, not, ◌&&◌, ◌||◌, Option, none, some, List, [], ◌∷◌, ◌++◌, ltb, ◌==◌,
  if◌then◌else◌, length,
}
use lark_git_webhook.Base.Bytes.{Bytes, same, ascii}
use lark_git_webhook.Webhook.Checks.{between}

-- The letters and digits that a label keeps, and how.
unfoldable pub kept_char : ℕ → Option ℕ
kept_char c =
    if between 97 122 c
    then some c
    else if between 65 90 c
    then some (c + 32)
    else if between 48 57 c
    then some c
    else none

-- A space, `-` or `_`.
abbrev pub is_separator : ℕ → Bool
is_separator c = c == 32 || (c == 45 || c == 95)

abbrev pub prepend : ℕ → Option Bytes → Option Bytes
prepend c none = none
prepend c (some cs) = some (c ∷ cs)

-- The loop; `space` tells that the last character was a separator.
unfoldable pub normalize : Bool → Bytes → Option Bytes
unfolding kept_char
normalize space [] = some []
normalize space (c ∷ cs) =
    let after_char = normalize false cs in
    let after_separator = normalize true cs in
    elim (kept_char c) [
      | some k ↦ prepend k after_char
      | none ↦
          if is_separator c
          then (if space then after_separator else prepend 95 after_separator)
          else none
    ]

-- `strings.Trim(name, "_")`.
unfoldable pub trim_left : Bytes → Bytes
trim_left [] = []
trim_left (c ∷ cs) = let rest = trim_left cs in if c == 95 then rest else c ∷ cs

unfoldable pub trim_right : Bytes → Bytes
trim_right [] = []
trim_right (c ∷ cs) =
    let rest = trim_right cs in if c == 95 && length rest == 0 then [] else c ∷ rest

abbrev pub label_prefix : Bytes
label_prefix = ascii "gitlab:"

-- The events that are forwarded.
abbrev pub known_names : List Bytes
known_names = ascii "push" ∷ ascii "tag_push" ∷ ascii "pipeline" ∷ ascii "merge_request" ∷ []

-- The known name that a name is, with or without `_hook`; else the name.
unfoldable pub known_or : List Bytes → Bytes → Bytes
known_or [] name = name
known_or (known ∷ rest) name =
    let other = known_or rest name in
    if same name known || same name (known ++ ascii "_hook") then known else other

-- `eventLabel`.
unfoldable pub event_label : Bytes → Option Bytes
event_label header =
    if length header == 0 || ltb 64 (length header) then none else elim (normalize false header) [
      | none ↦ none
      | some normalized ↦
          (let name = trim_right (trim_left normalized) in
            if length name == 0 then none else some (label_prefix ++ known_or known_names name))
    ]

abbrev pub system_hook_label : Bytes
system_hook_label = ascii "gitlab:system_hook"

abbrev pub is_known : Bytes → List Bytes → Bool
is_known name [] = false
is_known name (known ∷ rest) = same name known || is_known name rest

-- `deliveredEvents[event]`.
unfoldable pub is_delivered : Bytes → Bool
is_delivered event =
    same event (ascii "gitlab:push")
    || (same event (ascii "gitlab:tag_push")
        || (same event (ascii "gitlab:pipeline") || same event (ascii "gitlab:merge_request")))

-- What the handler uses of encoding/json: a payload's `object_kind` and `event_name`, and the path
-- of its project, if it decodes.
pub record GitlabPayloads : Type 0 where
  pub kinds : Bytes → Option (Bytes × Bytes)
  pub project_path : Bytes → Option Bytes

abbrev pub kind_of : Bytes × Bytes → Bytes
kind_of (object_kind, event_name) = if length object_kind == 0 then event_name else object_kind

module _ ⦃payloads : GitlabPayloads⦄ where
  -- `systemHookEvent`.
  unfoldable pub system_hook_event : Bytes → Bytes → Bytes
  system_hook_event body fallback = elim (payloads.kinds body) [
    | none ↦ fallback
    | some names ↦
        (if is_known (kind_of names) known_names then label_prefix ++ kind_of names else fallback)
  ]
