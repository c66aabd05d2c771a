-- ===== src/Store/Db.antt =====
-- The buckets of internal/store/store.go, the store's limits, and its transactions.
pub mod Transactions
use lark_git_webhook.Base.{ℕ, Bool, Option, none, some}
use lark_git_webhook.Base.Bytes.{Bytes}
use lark_git_webhook.Bolt.{Bolt}
use lark_git_webhook.Store.Error.{Result, ok, err, not_open}
use lark_git_webhook.Store.Types.{
  Time, Item, DeliveryState, DeadItem, WorkflowState, OnboardingState, OnboardingCallbackResult,
  Stored,
}

-- The keys of the meta bucket, each a uint64; 0 where the key is missing. `cooldown` is the
-- encoded time, if there is one.
pub record Meta : Type 0 where
  pub next : ℕ
  pub count : ℕ
  pub bytes : ℕ
  pub rate : ℕ
  pub dedupe_count : ℕ
  pub dead_count : ℕ
  pub dead_bytes : ℕ
  pub cooldown : Option Bytes

module _ ⦃bolt : Bolt⦄ where
  open bolt use {Bucket}

  pub record Db : Type 0 where
    pub meta : Meta
    pub queue : Bucket (Stored Item)
    pub dedupe : Bucket Bytes
    pub dedupe_expiry : Bucket Bytes
    pub rate_history : Bucket Bytes
    pub dead_letter : Bucket (Stored DeadItem)
    pub delivery_state : Bucket (Stored DeliveryState)
    pub workflow_state : Bucket (Stored WorkflowState)
    pub onboarding_state : Bucket (Stored OnboardingState)
    pub onboarding_callback_result : Bucket (Stored OnboardingCallbackResult)
    pub audit_checkpoint : Bucket (Stored Time)
    pub audit_bootstrap : Bucket (Stored Time)
    pub repository_subscription : Bucket Bytes

  pub record Store : Type 0 where
    pub db : Option Db
    pub max_items : ℕ
    pub max_bytes : ℕ
    pub dedupe_max_items : ℕ
    pub dead_max_items : ℕ
    pub dead_max_bytes : ℕ
    pub consumer_held : Bool

  abbrev pub commit : {A : Type 0} → Store → Result (A × Db) → Result A × Store
  commit s (ok (a, db)) = (ok a, record s { db = some db })
  commit s (err e) = (err e, s)

  -- `s.db.Update`: a transaction that fails leaves the database as it was.
  abbrev pub update : {A : Type 0} → Store → (Db → Result (A × Db)) → Result A × Store
  update s f = elim s.db [ none ↦ (err not_open, s) | some db ↦ commit s (f db) ]

  -- `s.db.View`.
  abbrev pub view : {A : Type 0} → Store → (Db → Result A) → Result A
  view s f = elim s.db [ none ↦ err not_open | some db ↦ f db ]
