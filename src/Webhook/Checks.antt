-- ===== src/Webhook/Checks.antt =====
-- The tests of internal/webhook/handler.go on headers and bodies: identifiers, the signature, and
-- the chats a delivery goes to.
use lark_git_webhook.Base.{
  ◌+◌, ◌-◌, Bool, true, false, ◌&&◌, ◌||◌, Option, none, some, List, [], ◌∷◌, ltb, leb, ◌==◌,
  if◌then◌else◌, ℕ, ◌*◌, length,
}
use lark_git_webhook.Base.Bytes.{Bytes, same, ascii, after_prefix}

abbrev pub between : ℕ → ℕ → ℕ → Bool
between low high c = leb low c && leb c high

-- The characters of an identifier: letters, digits, `_`, `-`, and `.` where it is allowed.
unfoldable pub valid_char : Bool → ℕ → Bool
valid_char allow_dot c =
    between 97 122 c
    || (between 65 90 c || (between 48 57 c || (c == 95 || (c == 45 || (allow_dot && c == 46)))))

unfoldable pub all_valid : Bool → Bytes → Bool
unfolding valid_char
all_valid allow_dot [] = true
all_valid allow_dot (c ∷ cs) = valid_char allow_dot c && all_valid allow_dot cs

unfoldable pub valid_header : Bytes → ℕ → Bool → Bool
unfolding all_valid
valid_header value max allow_dot =
    if length value == 0 || ltb max (length value) then false else all_valid allow_dot value

abbrev pub valid_delivery_id : Bytes → Bool
valid_delivery_id value = valid_header value 128 true

abbrev pub valid_event : Bytes → Bool
valid_event value = valid_header value 64 false

unfoldable pub archive_only_event : Bytes → Bool
archive_only_event event =
    same event (ascii "workflow_job")
    || (same event (ascii "check_suite") || same event (ascii "status"))

-- One hexadecimal digit, of either case.
unfoldable pub hex_value : ℕ → Option ℕ
hex_value c =
    if between 48 57 c
    then some (c - 48)
    else if between 97 102 c
    then some (c - 87)
    else if between 65 70 c
    then some (c - 55)
    else none

-- Two digits and the bytes after them, if all are there.
abbrev pub joined : Option ℕ → Option ℕ → Option Bytes → Option Bytes
joined (some high) (some low) (some bytes) = some ((high * 16 + low) ∷ bytes)
joined (some high) (some low) none = none
joined (some high) none bytes = none
joined none low bytes = none

-- `hex.DecodeString`.
unfoldable pub decode_hex : Bytes → Option Bytes
unfolding hex_value
decode_hex [] = some []
decode_hex (c ∷ []) = none
decode_hex (c ∷ d ∷ rest) = joined (hex_value c) (hex_value d) (decode_hex rest)

abbrev pub signature_prefix : Bytes
signature_prefix = ascii "sha256="

-- The bytes that a well-formed signature header carries.
unfoldable pub provided_mac : Bytes → Option Bytes
unfolding decode_hex after_prefix
provided_mac header =
    if length header == 71
    then elim (after_prefix signature_prefix header) [
      | none ↦ none
      | some digits ↦ decode_hex digits
    ]
    else none

-- `len(provided) != sha256.Size`, and `hmac.Equal`.
abbrev pub is_mac : Bytes → Bytes → Bool
is_mac mac provided = length provided == 32 && same mac provided

abbrev pub member : Bytes → List Bytes → Bool
member x [] = false
member x (y ∷ ys) = same y x || member x ys

-- The chats that were not seen yet, in their order.
unfoldable pub add_targets : List Bytes → List Bytes → List Bytes
unfolding same
add_targets seen [] = []
add_targets seen (chat ∷ chats) =
    let known = add_targets seen chats in
    let new = chat ∷ add_targets (chat ∷ seen) chats in if member chat seen then known else new

-- What the handler uses of crypto/hmac, encoding/json and strings: the HMAC-SHA256 of a body under
-- a secret, whether a body is JSON, the full name of its repository if it decodes, and lower case.
pub record Content : Type 0 where
  pub hmac : Bytes → Bytes → Bytes
  pub json_valid : Bytes → Bool
  pub full_name : Bytes → Option Bytes
  pub to_lower : Bytes → Bytes

module _ ⦃content : Content⦄ where
  unfoldable pub valid_signature : Bytes → Bytes → Bytes → Bool
  unfolding provided_mac
  valid_signature header body secret = elim (provided_mac header) [
    | none ↦ false
    | some provided ↦ is_mac (content.hmac secret body) provided
  ]

  unfoldable pub repository_name : Bytes → Bytes
  repository_name body = elim (content.full_name body) [
    | none ↦ []
    | some name ↦ content.to_lower name
  ]
