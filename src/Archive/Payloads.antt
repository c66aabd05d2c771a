-- ===== src/Archive/Payloads.antt =====
-- The payload of a delivery's directory: `deliveryDir`, `archivedPayload` and `existingPayload` of
-- internal/archive/archive.go.
use lark_git_webhook.Base.{
  ◌+◌, ◌*◌, ◌-◌, ◌/◌, ◌%◌, ℕ, Bool, true, false, ◌&&◌, ◌||◌, Option, none, some, List, [], ◌∷◌,
  ◌++◌, ltb, ◌==◌, if◌then◌else◌, length,
}
use lark_git_webhook.Base.Bytes.{Bytes, same, ascii, after_prefix}
use lark_git_webhook.Archive.{archive_conflict, ArchiveResult, done, failed}

-- What stands under a name: a regular file, or something else.
pub data Node : Type 0 where
  regular : Bytes → Node
  other : Node

-- The entries of a directory.
abbrev pub Folder : Type 0
Folder = List (Bytes × Node)

-- A digit of `base64.RawURLEncoding`.
unfoldable pub base64_digit : ℕ → ℕ
base64_digit n =
    if ltb n 26
    then 65 + n
    else if ltb n 52
    then 71 + n
    else if ltb n 62
    then n - 4
    else if n == 62
    then 45
    else 95

unfoldable pub encode_base64 : Bytes → Bytes
unfolding base64_digit
encode_base64 [] = []
encode_base64 (a ∷ []) = base64_digit (a / 4) ∷ base64_digit (a % 4 * 16) ∷ []
encode_base64 (a ∷ b ∷ []) =
    base64_digit (a / 4) ∷ base64_digit (a % 4 * 16 + b / 16) ∷ base64_digit (b % 16 * 4) ∷ []
encode_base64 (a ∷ b ∷ c ∷ rest) =
    base64_digit (a / 4)
    ∷ base64_digit (a % 4 * 16 + b / 16)
    ∷ base64_digit (b % 16 * 4 + c / 64)
    ∷ base64_digit (c % 64)
    ∷ encode_base64 rest

-- `deliveryDir`, below the root and the shard that the name's first two digits tell.
unfoldable pub delivery_dir : Bytes → Option Bytes
unfolding encode_base64
delivery_dir id = if ltb (length (encode_base64 id)) 2 then none else some (encode_base64 id)

abbrev pub payload_prefix : Bytes
payload_prefix = ascii "payload."

abbrev pub payload_suffix : Bytes
payload_suffix = ascii ".json"

-- `"payload." + event + ".json"`.
unfoldable pub payload_name : Bytes → Bytes
payload_name event = payload_prefix ++ (event ++ payload_suffix)

-- What stands before `suffix` at the end of a name, if the name ends with it.
unfoldable pub before_suffix : Bytes → Bytes → Option Bytes
before_suffix suffix [] = if same suffix [] then some [] else none
before_suffix suffix (c ∷ rest) =
    let shorter = before_suffix suffix rest in
    if same suffix (c ∷ rest)
    then some []
    else elim shorter [ none ↦ none | some kept ↦ some (c ∷ kept) ]

abbrev pub has_prefix : Bytes → Bytes → Bool
has_prefix prefix name = elim (after_prefix prefix name) [ none ↦ false | some rest ↦ true ]

abbrev pub has_suffix : Bytes → Bytes → Bool
has_suffix suffix name = elim (before_suffix suffix name) [ none ↦ false | some kept ↦ true ]

unfoldable pub is_payload_name : Bytes → Bool
unfolding before_suffix after_prefix
is_payload_name name = has_prefix payload_prefix name && has_suffix payload_suffix name

-- `strings.TrimPrefix` and `strings.TrimSuffix`.
abbrev pub trim_prefix : Bytes → Bytes → Bytes
trim_prefix prefix name = elim (after_prefix prefix name) [ none ↦ name | some rest ↦ rest ]

abbrev pub trim_suffix : Bytes → Bytes → Bytes
trim_suffix suffix name = elim (before_suffix suffix name) [ none ↦ name | some kept ↦ kept ]

unfoldable pub event_of_name : Bytes → Bytes
unfolding before_suffix after_prefix
event_of_name name = trim_suffix payload_suffix (trim_prefix payload_prefix name)

unfoldable pub has_slash : Bytes → Bool
has_slash [] = false
has_slash (c ∷ rest) = (c == 47) || has_slash rest

-- `filepath.Base` of a name that does not end with a slash.
unfoldable pub base_name : Bytes → Bytes
unfolding has_slash
base_name [] = []
base_name (c ∷ rest) =
    let later = base_name rest in
    if has_slash rest then later else if c == 47 then rest else c ∷ rest

-- The loop over the entries; there may be one payload.
unfoldable pub find_payload : Option (Bytes × Node) → Folder → ArchiveResult (Option (Bytes × Node))
find_payload found [] = done found
find_payload found ((name, node) ∷ rest) =
    let skipped = find_payload found rest in
    let taken = find_payload (some (name, node)) rest in
    if is_payload_name name
    then (elim found [ none ↦ taken | some _ ↦ failed archive_conflict ])
    else skipped

-- A payload that was found: its event and its bytes.
unfoldable pub read_payload : Bytes → Node → ArchiveResult (Option (Bytes × Bytes))
read_payload name other = failed archive_conflict
read_payload name (regular raw) =
    if same (event_of_name name) [] || has_slash (event_of_name name)
    then failed archive_conflict
    else done (some (event_of_name name, raw))

-- `archivedPayload`; none is no payload.
unfoldable pub archived_payload : Folder → ArchiveResult (Option (Bytes × Bytes))
archived_payload folder = elim (find_payload none folder) [
  | failed e ↦ failed e
  | done none ↦ done none
  | done (some (name, node)) ↦ read_payload name node
]

-- `existingPayload`.
unfoldable pub existing_payload : Folder → Bytes → Bytes → ArchiveResult Bool
existing_payload folder event payload = elim (archived_payload folder) [
  | failed e ↦ failed e
  | done none ↦ done false
  | done (some (archived_event, raw)) ↦
      if same (base_name (payload_name event)) (payload_name archived_event) && same raw payload
      then done true
      else failed archive_conflict
]
