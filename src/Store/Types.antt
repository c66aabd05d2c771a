-- ===== src/Store/Types.antt =====
-- The records that internal/store/store.go persists, and what it uses of encoding/json and sha256.
use lark_git_webhook.Base.{ℕ, ◌≤◌, Bool, Option, List, keep}
use lark_git_webhook.Base.Bytes.{Bytes}
use lark_git_webhook.Store.Error.{Result, ok, err, malformed_value}

-- Nanoseconds since the zero `time.Time`, the start of year 1: `t.IsZero()` is `t == 0`.
abbrev pub Time : Type 0
Time = ℕ

abbrev pub second : ℕ
second = 1_000_000_000

abbrev pub minute : ℕ
minute = 60_000_000_000

pub record Item : Type 0 where
  pub sequence : ℕ
  pub delivery_id : Bytes
  pub event : Bytes
  pub received_at : Time
  pub raw_json : Bytes
  pub attempts : ℕ
  pub next_attempt : Time
  pub last_error : Bytes
  pub archived : Bool
  pub chat_ids : List Bytes

pub data Status : Type 0 where
  queued : Status
  archive_only : Status
  delivered : Status
  dead : Status

pub record DeliveryState : Type 0 where
  pub delivery_id : Bytes
  pub event : Bytes
  pub digest : Bytes
  pub sequence : ℕ
  pub status : Status
  pub archived : Bool
  pub subscription_reply_claimed : Bool
  pub raw_json : Bytes

pub record DeadItem : Type 0 where
  pub item : Item
  pub failed_at : Time

pub record WorkflowCheck : Type 0 where
  pub id : Bytes
  pub name : Bytes
  pub status : Bytes
  pub conclusion : Bytes
  pub details_url : Bytes
  pub started_at : Time
  pub completed_at : Time
  pub updated_at : Time

pub record WorkflowState : Type 0 where
  pub key : Bytes
  pub chat_id : Bytes
  pub repository_id : Bytes
  pub repository : Bytes
  pub suite_id : Bytes
  pub run_id : ℕ
  pub run_attempt : ℕ
  pub attempt_started_at : Time
  pub workflow_name : Bytes
  pub url : Bytes
  pub head_branch : Bytes
  pub head_sha : Bytes
  pub status : Bytes
  pub conclusion : Bytes
  pub updated_at : Time
  pub message_id : Bytes
  pub reaction_id : Bytes
  pub reaction_type : Bytes
  pub checks : List (Bytes × WorkflowCheck)
  pub revision : ℕ

pub record OnboardingState : Type 0 where
  pub open_id : Bytes
  pub form_message_id : Bytes
  pub github_login : Bytes
  pub last_validation_at : Time

pub record OnboardingCallbackResult : Type 0 where
  pub toast_type : Bytes
  pub content : Bytes
  pub pending_at : Time

pub record WorkflowUpdate : Type 0 where
  pub chat_id : Bytes
  pub repository_id : Bytes
  pub repository : Bytes
  pub suite_id : Bytes
  pub run_id : ℕ
  pub run_attempt : ℕ
  pub run_started_at : Time
  pub workflow_name : Bytes
  pub url : Bytes
  pub head_branch : Bytes
  pub head_sha : Bytes
  pub status : Bytes
  pub conclusion : Bytes
  pub updated_at : Time
  pub authoritative_time : Bool
  pub check : Option WorkflowCheck

pub record Stats : Type 0 where
  pub items : ℕ
  pub bytes : ℕ
  pub dead_letters : ℕ
  pub dead_bytes : ℕ

pub record FailureResult : Type 0 where
  pub retried : ℕ
  pub dead_lettered : ℕ
  pub dead_letter_full : Bool

-- A stored value: the JSON of a record, or bytes that do not decode as one.
pub data Stored {ℓ} (A : Type ℓ) : Type ℓ where
  json : A → Stored A
  malformed : Stored A

-- `json.Unmarshal`; `json.Marshal` is the constructor `json`.
abbrev pub unmarshal {ℓ} : {A : Type ℓ} → Stored A → Result A
unmarshal (json a) = ok a
unmarshal malformed = err malformed_value

-- The fields whose JSON `activeItemBytes` measures.
pub record ActiveFields : Type 0 where
  pub sequence : ℕ
  pub delivery_id : Bytes
  pub event : Bytes
  pub received_at : Time
  pub raw_json : Bytes
  pub chat_ids : List Bytes

-- `len(json.Marshal(v))` for the two records that are measured, and `sha256.Sum256`. A list with
-- fewer chats has no longer JSON.
pub record Encoding : Type 0 where
  pub active_json_len : ActiveFields → ℕ
  pub dead_json_len : DeadItem → ℕ
  pub sum256 : Bytes → Bytes
  pub fewer_chats :
      (f : ActiveFields) (p : Bytes → Bool)
      → active_json_len (record f { chat_ids = keep p f.chat_ids }) ≤ active_json_len f
