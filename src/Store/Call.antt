-- ===== src/Store/Call.antt =====
-- Every call of internal/store/store.go that writes, as data, and what it does to the store.
use lark_git_webhook.Base.Bytes.{Bytes}
use lark_git_webhook.Bolt.{Bolt}
use lark_git_webhook.Store.Types.{Time, Item, OnboardingCallbackResult, WorkflowUpdate, Encoding}
use lark_git_webhook.Store.Db.{Store}
use lark_git_webhook.Store.Admission.{enqueue, admit, admit_archive_only}
use lark_git_webhook.Store.Delivery.{finalize_archive, claim_subscription_reply}
use lark_git_webhook.Store.Queue.{delete_items, complete_chat_delivery}
use lark_git_webhook.Store.Failure.{handle_failure, requeue_dead_letter}
use lark_git_webhook.Store.Dedupe.{cleanup}
use lark_git_webhook.Store.Rate.{reserve_request}
use lark_git_webhook.Store.Audit.{set_audit_checkpoint, initialize_audit_checkpoint}
use lark_git_webhook.Store.Subscription.{
  add_repository_subscription, acquire_consumer, release_consumer,
}
use lark_git_webhook.Store.Workflow.{upsert_workflow, set_workflow_message, set_workflow_reaction}
use lark_git_webhook.Store.Onboarding.{
  Moments, set_onboarding_form, set_onboarding_github_login, reserve_onboarding_validation,
  claim_onboarding_callback_result, set_onboarding_callback_result,
}
use lark_git_webhook.Base.{ℕ, Bool, List}

pub data Call : Type 0 where
  enqueues : Bytes → Bytes → Bytes → Time → ℕ → Call
  admits : Bytes → Bytes → Bytes → List Bytes → Time → ℕ → Call
  archives_only : Bytes → Bytes → Bytes → Call
  finalizes : Bytes → Call
  claims_reply : Bytes → Call
  deletes : List Item → Call
  completes : List Item → Bytes → Call
  fails : List Item → Time → Time → Bytes → ℕ → ℕ → Bool → Call
  requeues : ℕ → Time → Call
  cleans : Time → ℕ → Call
  reserves : Time → Call
  sets_checkpoint : Bytes → Time → Call
  initializes_checkpoint : Bytes → Time → Call
  subscribes : Bytes → Bytes → Call
  upserts : WorkflowUpdate → Call
  sets_message : Bytes → Bytes → Call
  sets_reaction : Bytes → Bytes → Bytes → Call
  sets_form : Bytes → Bytes → Call
  sets_login : Moments → Bytes → Bytes → Bytes → Call
  reserves_validation : Moments → Bytes → Bytes → Time → Call
  claims_callback : Moments → Bytes → Time → ℕ → Call
  sets_callback : Moments → Bytes → OnboardingCallbackResult → Call
  acquires : Call
  releases : Call

module _ ⦃bolt : Bolt⦄ ⦃encoding : Encoding⦄ where
  -- The store after a call; what the call returns is left out.
  unfoldable pub after : Call → Store → Store
  after (enqueues id event raw now ttl) s = (enqueue s id event raw now ttl).1
  after (admits id event raw chats now ttl) s = (admit s id event raw chats now ttl).1
  after (archives_only id event raw) s = (admit_archive_only s id event raw).1
  after (finalizes id) s = (finalize_archive s id).1
  after (claims_reply id) s = (claim_subscription_reply s id).1
  after (deletes items) s = (delete_items s items).1
  after (completes items chat) s = (complete_chat_delivery s items chat).1
  after (fails items now retry_at reason retry_after max_attempts permanent) s =
      (handle_failure s items now retry_at reason retry_after max_attempts permanent).1
  after (requeues n now) s = (requeue_dead_letter s n now).1
  after (cleans now limit) s = (cleanup s now limit).1
  after (reserves now) s = (reserve_request s now).1
  after (sets_checkpoint org t) s = (set_audit_checkpoint s org t).1
  after (initializes_checkpoint org t) s = (initialize_audit_checkpoint s org t).1
  after (subscribes chat repository) s = (add_repository_subscription s chat repository).1
  after (upserts u) s = (upsert_workflow s u).1
  after (sets_message key message) s = (set_workflow_message s key message).1
  after (sets_reaction key reaction kind) s = (set_workflow_reaction s key reaction kind).1
  after (sets_form open_id message) s = (set_onboarding_form s open_id message).1
  after (sets_login c open_id expected login) s =
      (set_onboarding_github_login s c open_id expected login).1
  after (reserves_validation c open_id expected now) s =
      (reserve_onboarding_validation s c open_id expected now).1
  after (claims_callback c id now stale) s = (claim_onboarding_callback_result s c id now stale).1
  after (sets_callback c id result) s = (set_onboarding_callback_result s c id result).1
  after acquires s = (acquire_consumer s).1
  after releases s = release_consumer s
