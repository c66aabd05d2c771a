-- ===== src/Store/Ledger/Others.antt =====
-- The transactions of internal/store/store.go that are not about the queue, and its books.
use lark_git_webhook.Base.Bytes.{Bytes}
use lark_git_webhook.Bolt.{Bolt}
use lark_git_webhook.Store.Error.{Result, ok}
use lark_git_webhook.Store.Types.{
  Time, OnboardingCallbackResult, WorkflowUpdate, Encoding, WorkflowState,
}
use lark_git_webhook.Store.Db.{Db}
use lark_git_webhook.Store.Admission.{admit_archive_only_tx}
use lark_git_webhook.Store.Delivery.{claim_subscription_reply_tx}
use lark_git_webhook.Store.Rate.{reserve_request_tx}
use lark_git_webhook.Store.Workflow.{upsert_workflow_tx}
use lark_git_webhook.Store.Onboarding.{
  Moments, set_onboarding_form_tx, set_github_login_tx, reserve_validation_tx, claim_callback_tx,
  set_callback_result_tx,
}
use lark_git_webhook.Store.Ledger.Frame.{ledger-cleanup_dedupe}
use lark_git_webhook.Store.Dedupe.{cleanup_tx, cleanup_dedupe}
use lark_git_webhook.Store.Rate.{reserve_tx}
use lark_git_webhook.Store.Audit.{set_checkpoint_tx, initialize_checkpoint_tx}
use lark_git_webhook.Store.Subscription.{subscribe_tx}
use lark_git_webhook.Store.Workflow.{update_workflow_tx}
use lark_git_webhook.Store.Ledger.{ledger}
use lark_git_webhook.Base.{ℕ, ◌≡◌, arith, ap, ◌∙◌}

module _ ⦃bolt : Bolt⦄ ⦃encoding : Encoding⦄ where
  -- A transaction that leaves the books alone.
  abbrev pub LeavesBooks : {A : Type 0} → (Db → Result (A × Db)) → Type 0
  LeavesBooks {A} f = (db : Db) (a : A) (db' : Db) → f db ≡ ok (a, db') → ledger db' ≡ ledger db

  pub archive_only_leaves :
      (id event raw : Bytes) → LeavesBooks (admit_archive_only_tx id event raw)
  unfolding admit_archive_only_tx
  archive_only_leaves id event raw db a db' h = ground arith

  pub claim_leaves : (id : Bytes) → LeavesBooks (claim_subscription_reply_tx id)
  unfolding claim_subscription_reply_tx
  claim_leaves id db a db' h = ground arith

  pub reserve_leaves : (now : Time) (db : Db) → ledger (reserve_request_tx now db).1 ≡ ledger db
  unfolding reserve_request_tx
  reserve_leaves now db = ground arith

  pub reserve_tx_leaves : (now : Time) → LeavesBooks (reserve_tx now)
  unfolding reserve_tx
  reserve_tx_leaves now db a db' h = ground arith

  pub cleanup_leaves : (now : Time) (limit : ℕ) → LeavesBooks (cleanup_tx now limit)
  cleanup_leaves now limit db a db' h =
      let e : db' ≡ cleanup_dedupe now limit db = unfold cleanup_tx in cc in
      ap ledger e ∙ ledger-cleanup_dedupe now limit db

  pub set_checkpoint_leaves : (org : Bytes) (t : Time) → LeavesBooks (set_checkpoint_tx org t)
  unfolding set_checkpoint_tx
  set_checkpoint_leaves org t db a db' h = ground arith

  pub initialize_checkpoint_leaves :
      (org : Bytes) (t : Time) → LeavesBooks (initialize_checkpoint_tx org t)
  unfolding initialize_checkpoint_tx
  initialize_checkpoint_leaves org t db a db' h = ground arith

  pub subscribe_leaves : (chat repository : Bytes) → LeavesBooks (subscribe_tx chat repository)
  unfolding subscribe_tx
  subscribe_leaves chat repository db a db' h = ground arith

  pub update_workflow_leaves :
      (key : Bytes) (change : WorkflowState → WorkflowState)
      → LeavesBooks (update_workflow_tx key change)
  unfolding update_workflow_tx
  update_workflow_leaves key change db a db' h = ground arith

  pub upsert_leaves : (u : WorkflowUpdate) → LeavesBooks (upsert_workflow_tx u)
  unfolding upsert_workflow_tx
  upsert_leaves u db a db' h = ground arith

  pub set_form_leaves :
      (open_id message : Bytes) → LeavesBooks (set_onboarding_form_tx open_id message)
  unfolding set_onboarding_form_tx
  set_form_leaves open_id message db a db' h = ground arith

  pub set_login_leaves :
      (c : Moments) (open_id expected login : Bytes)
      → LeavesBooks (set_github_login_tx c open_id expected login)
  unfolding set_github_login_tx
  set_login_leaves c open_id expected login db a db' h = ground arith

  pub reserve_validation_leaves :
      (c : Moments) (open_id expected : Bytes) (now : Time)
      → LeavesBooks (reserve_validation_tx c open_id expected now)
  unfolding reserve_validation_tx
  reserve_validation_leaves c open_id expected now db a db' h = ground arith

  pub claim_callback_leaves :
      (c : Moments) (id : Bytes) (now : Time) (stale : ℕ)
      → LeavesBooks (claim_callback_tx c id now stale)
  unfolding claim_callback_tx
  claim_callback_leaves c id now stale db a db' h = ground arith

  pub set_callback_leaves :
      (c : Moments) (id : Bytes) (r : OnboardingCallbackResult)
      → LeavesBooks (set_callback_result_tx c id r)
  unfolding set_callback_result_tx
  set_callback_leaves c id r db a db' h = ground arith
