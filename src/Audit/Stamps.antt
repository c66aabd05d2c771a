-- ===== src/Audit/Stamps.antt =====
-- When an audit record was created: `createdAfter` and `parseAuditTimestamp` of
-- internal/audit/poller.go.
use lark_git_webhook.Base.{
  ◌+◌, ◌*◌, ◌-◌, ◌^◌, ℕ, Bool, false, ◌&&◌, Option, none, some, List, [], ◌∷◌, ltb, leb, ◌==◌,
  if◌then◌else◌,
}
use lark_git_webhook.Base.Bytes.{Bytes, ascii}
use lark_git_webhook.Store.Types.{Time}

-- A time, which may be before the zero `time.Time`.
pub data Moment : Type 0 where
  before_zero : Moment
  at : Time → Moment

-- An `int64`, as its sign and its magnitude.
pub data Whole : Type 0 where
  plus : ℕ → Whole
  minus : ℕ → Whole

-- What encoding/json and `time.Parse` make of a record: the raw value of a key, if the record is an
-- object, its `_document_id`, if it decodes, and a value as a text, as a number, and as a time.
pub record AuditRecords : Type 0 where
  pub members : Bytes → Option (Bytes → Option Bytes)
  pub document_id : Bytes → Option Bytes
  pub text : Bytes → Option Bytes
  pub number : Bytes → Option Bytes
  pub parse_rfc3339 : Bytes → Option Moment

unfoldable pub digits_from : ℕ → Bytes → Option ℕ
digits_from n [] = some n
digits_from n (c ∷ rest) =
    let later = digits_from (10 * n + (c - 48)) rest in if leb 48 c && leb c 57 then later else none

unfoldable pub magnitude : Bytes → Option ℕ
unfolding digits_from
magnitude [] = none
magnitude (c ∷ rest) = digits_from 0 (c ∷ rest)

abbrev pub non_negative : Option ℕ → Option Whole
non_negative none = none
non_negative (some n) = if ltb n (2 ^ 63) then some (plus n) else none

abbrev pub negative : Option ℕ → Option Whole
negative none = none
negative (some n) = if leb n (2 ^ 63) then some (minus n) else none

-- `strconv.ParseInt(text, 10, 64)`.
unfoldable pub parse_int : Bytes → Option Whole
unfolding magnitude
parse_int [] = none
parse_int (c ∷ rest) =
    if c == 45
    then negative (magnitude rest)
    else if c == 43
    then non_negative (magnitude rest)
    else non_negative (magnitude (c ∷ rest))

-- The seconds from the zero time to the Unix epoch.
abbrev pub epoch : ℕ
epoch = 62_135_596_800

-- A count of units since the Unix epoch, of which `epoch_units` had passed then.
unfoldable pub since_epoch : ℕ → ℕ → Whole → Moment
since_epoch epoch_units unit (plus n) = at ((epoch_units + n) * unit)
since_epoch epoch_units unit (minus n) =
    if ltb epoch_units n then before_zero else at ((epoch_units - n) * unit)

abbrev pub is_seconds : Whole → Bool
is_seconds (plus n) = ltb n 100_000_000_000
is_seconds (minus n) = ltb n 100_000_000_000

-- `time.Unix` of small numbers, `time.UnixMilli` of others.
unfoldable pub moment_of : Whole → Moment
unfolding since_epoch
moment_of unix =
    if is_seconds unix
    then since_epoch epoch 1_000_000_000 unix
    else since_epoch (1_000 * epoch) 1_000_000 unix

-- `created.After(checkpoint)`.
unfoldable pub is_after : Moment → Time → Bool
is_after before_zero checkpoint = false
is_after (at t) checkpoint = ltb checkpoint t

module _ ⦃records : AuditRecords⦄ where
  abbrev pub parse_number : Option Bytes → Option Moment
  parse_number none = none
  parse_number (some digits) = elim (parse_int digits) [
    | none ↦ none
    | some unix ↦ some (moment_of unix)
  ]

  -- `parseAuditTimestamp`.
  unfoldable pub parse_audit_timestamp : Bytes → Option Moment
  unfolding moment_of parse_int
  parse_audit_timestamp value = elim (records.text value) [
    | some written ↦ records.parse_rfc3339 written
    | none ↦ parse_number (records.number value)
  ]

  -- The first of the keys whose value is a time.
  unfoldable pub first_stamp : (Bytes → Option Bytes) → List Bytes → Option Moment
  unfolding parse_audit_timestamp
  first_stamp member [] = none
  first_stamp member (key ∷ keys) =
      let later = first_stamp member keys in
      elim (member key) [
        | none ↦ later
        | some value ↦ elim (parse_audit_timestamp value) [ none ↦ later | some t ↦ some t ]
      ]

  -- `createdAfter`; `none` is its error.
  unfoldable pub created_after : Bytes → Time → Option Bool
  unfolding first_stamp is_after
  created_after raw checkpoint = elim (records.members raw) [
    | none ↦ none
    | some member ↦
        elim (first_stamp member
          (ascii "created_at" ∷ ascii "@timestamp" ∷ ascii "timestamp" ∷ [])) [
            | none ↦ none
            | some created ↦ some (is_after created checkpoint)
          ]
  ]
