-- ===== src/Store/Invariant.antt =====
-- The books of the queue under histories of calls of internal/store/store.go.
use lark_git_webhook.Bolt.{Bolt}
use lark_git_webhook.Store.Error.{Result}
use lark_git_webhook.Store.Types.{Encoding}
use lark_git_webhook.Store.Db.{Db, Store, update}
use lark_git_webhook.Store.Dedupe.{cleanup, cleanup_tx}
use lark_git_webhook.Store.Admission.{
  enqueue, enqueue_tx, admit, admit_tx, admit_archive_only, admit_archive_only_tx,
}
use lark_git_webhook.Store.Delivery.{
  finalize_archive, finalize_archive_tx, claim_subscription_reply, claim_subscription_reply_tx,
}
use lark_git_webhook.Store.Queue.{delete_items, delete_tx, complete_chat_delivery, complete_tx}
use lark_git_webhook.Store.Failure.{
  handle_failure, handle_failure_tx, requeue_dead_letter, requeue_tx,
}
use lark_git_webhook.Store.Rate.{reserve_request, reserve_tx}
use lark_git_webhook.Store.Audit.{
  set_audit_checkpoint, initialize_audit_checkpoint, set_checkpoint_tx, initialize_checkpoint_tx,
}
use lark_git_webhook.Store.Subscription.{
  subscribe_tx, add_repository_subscription, acquire_consumer, release_consumer,
}
use lark_git_webhook.Store.Workflow.{
  upsert_workflow, upsert_workflow_tx, update_workflow, update_workflow_tx, set_workflow_message,
  set_workflow_reaction,
}
use lark_git_webhook.Store.Onboarding.{
  set_onboarding_form, set_onboarding_form_tx, set_onboarding_github_login, set_github_login_tx,
  reserve_onboarding_validation, reserve_validation_tx, claim_onboarding_callback_result,
  claim_callback_tx, set_onboarding_callback_result, set_callback_result_tx,
}
use lark_git_webhook.Store.Failure.Counts.{attempt_of}
use lark_git_webhook.Store.Ledger.{
  limits_of, IsBounded, ledger, IsBalanced-of_eq, IsSound, KeepsBooks, update-IsSound,
  limits_of-update,
}
use lark_git_webhook.Store.Ledger.Admit.{HasNext, enqueue_tx_keeps, admit_tx_keeps}
use lark_git_webhook.Store.Ledger.Archive.{finalize_archive_tx_keeps}
use lark_git_webhook.Store.Ledger.Removal.{delete_tx_keeps}
use lark_git_webhook.Store.Ledger.Completion.{complete_tx_keeps}
use lark_git_webhook.Store.Ledger.Gather.{AreNumbered}
use lark_git_webhook.Store.Ledger.Failing.{DemandFits, handle_failure_tx_keeps}
use lark_git_webhook.Store.Ledger.Requeue.{requeue_tx_keeps}
use lark_git_webhook.Store.Ledger.Others.{
  LeavesBooks, archive_only_leaves, claim_leaves, upsert_leaves, set_form_leaves, set_login_leaves,
  reserve_validation_leaves, claim_callback_leaves, set_callback_leaves, cleanup_leaves,
  reserve_tx_leaves, set_checkpoint_leaves, initialize_checkpoint_leaves, subscribe_leaves,
  update_workflow_leaves,
}
use lark_git_webhook.Store.Call.{Call, after}
use lark_git_webhook.Base.{◌≡◌, refl, sym, ◌∙◌, subst, Bool, true, false, some, if◌then◌else◌}

module _ ⦃bolt : Bolt⦄ ⦃encoding : Encoding⦄ where
  -- What no uint64 overflow means for a call: sequence numbers are left, the items that failed have
  -- uint64 numbers, and what they need among the dead letters is a uint64 value.
  abbrev pub HasWords : Call → Store → Type 0
  HasWords (Call.enqueues id event raw now ttl) s = (db : Db) → s.db ≡ some db → HasNext db
  HasWords (Call.admits id event raw chats now ttl) s = (db : Db) → s.db ≡ some db → HasNext db
  HasWords (Call.fails items now retry_at reason retry_after max_attempts permanent) s =
      AreNumbered items
      × ((db : Db)
          → s.db ≡ some db
          → DemandFits (attempt_of now retry_at reason retry_after max_attempts permanent) items db)
  HasWords _ s = Unit

  -- A call that leaves a store sound, and its limits as they were.
  abbrev pub Maintains : Store → Store → Type 0
  Maintains s t = (limits_of t ≡ limits_of s) × IsSound t

  kept :
      {A : Type 0} (s : Store) (f : Db → Result (A × Db))
      → KeepsBooks (limits_of s) f
      → IsSound s
      → Maintains s (update s f).1
  kept s f keeps sound =
      (limits_of-update s f, update-IsSound s f (λ db a db' _ b h. keeps db a db' b h) sound)

  left_alone :
      {A : Type 0} (s : Store) (f : Db → Result (A × Db))
      → LeavesBooks f
      → IsSound s
      → Maintains s (update s f).1
  left_alone s f leaves = kept s f (λ db a db' b h.
      IsBalanced-of_eq (limits_of s) (ledger db) (ledger db') (sym (leaves db a db' h)) b)

  acquire-Maintains :
      (s : Store) (b : Bool)
      → IsSound s
      → Maintains s
          (if◌then◌else◌ {A = Bool × Store} b
            (false, s)
            (true, record s { consumer_held = true })).1
  acquire-Maintains s true sound = (refl, sound)
  acquire-Maintains s false sound = (refl, sound)

  -- One call keeps the counters of a sound store exact and within its limits, whether it succeeds
  -- or fails.
  pub after-Maintains :
      (c : Call) (s : Store)
      → IsBounded (limits_of s)
      → HasWords c s
      → IsSound s
      → Maintains s (after c s)
  unfolding after enqueue admit admit_archive_only finalize_archive claim_subscription_reply
      delete_items complete_chat_delivery handle_failure requeue_dead_letter cleanup reserve_request
      set_audit_checkpoint initialize_audit_checkpoint add_repository_subscription upsert_workflow
      set_workflow_message update_workflow set_workflow_reaction set_onboarding_form
      set_onboarding_github_login reserve_onboarding_validation claim_onboarding_callback_result
      set_onboarding_callback_result acquire_consumer release_consumer
  after-Maintains (Call.enqueues id event raw now ttl) s l w sound = (
    limits_of-update s (enqueue_tx s id event raw now ttl),
    update-IsSound s (enqueue_tx s id event raw now ttl)
        (λ db a db' e b h. enqueue_tx_keeps s l id event raw now ttl db a db' b (w db e) h) sound,
  )
  after-Maintains (Call.admits id event raw chats now ttl) s l w sound = (
    limits_of-update s (admit_tx s id event raw chats now ttl),
    update-IsSound s (admit_tx s id event raw chats now ttl)
        (λ db a db' e b h. admit_tx_keeps s l id event raw chats now ttl db a db' b (w db e) h)
        sound,
  )
  after-Maintains (Call.fails items now retry_at reason retry_after max_attempts permanent) s l w
        sound =
      let a = attempt_of now retry_at reason retry_after max_attempts permanent in
      (
        limits_of-update s (handle_failure_tx s items a),
        update-IsSound s (handle_failure_tx s items a)
            (λ db r db' e b h. handle_failure_tx_keeps s items a db r db' l w.0 (w.1 db e) b h)
            sound,
      )
  after-Maintains (Call.archives_only id event raw) s l w sound =
      left_alone s (admit_archive_only_tx id event raw) (archive_only_leaves id event raw) sound
  after-Maintains (Call.claims_reply id) s l w sound =
      left_alone s (claim_subscription_reply_tx id) (claim_leaves id) sound
  after-Maintains (Call.cleans now limit) s l w sound =
      left_alone s (cleanup_tx now limit) (cleanup_leaves now limit) sound
  after-Maintains (Call.reserves now) s l w sound =
      left_alone s (reserve_tx now) (reserve_tx_leaves now) sound
  after-Maintains (Call.sets_checkpoint org t) s l w sound =
      left_alone s (set_checkpoint_tx org t) (set_checkpoint_leaves org t) sound
  after-Maintains (Call.initializes_checkpoint org t) s l w sound =
      left_alone s (initialize_checkpoint_tx org t) (initialize_checkpoint_leaves org t) sound
  after-Maintains (Call.subscribes chat repository) s l w sound =
      left_alone s (subscribe_tx chat repository) (subscribe_leaves chat repository) sound
  after-Maintains (Call.upserts u) s l w sound =
      left_alone s (upsert_workflow_tx u) (upsert_leaves u) sound
  after-Maintains (Call.sets_message key message) s l w sound =
      left_alone s (update_workflow_tx key (λ st. record st { message_id = message }))
        (update_workflow_leaves key (λ st. record st { message_id = message })) sound
  after-Maintains (Call.sets_reaction key reaction kind) s l w sound =
      left_alone s
        (update_workflow_tx key (λ st. record st { reaction_id = reaction; reaction_type = kind }))
        (update_workflow_leaves key
          (λ st. record st { reaction_id = reaction; reaction_type = kind }))
        sound
  after-Maintains (Call.sets_form open_id message) s l w sound =
      left_alone s (set_onboarding_form_tx open_id message) (set_form_leaves open_id message) sound
  after-Maintains (Call.sets_login c open_id expected login) s l w sound =
      left_alone s (set_github_login_tx c open_id expected login)
        (set_login_leaves c open_id expected login) sound
  after-Maintains (Call.reserves_validation c open_id expected now) s l w sound =
      left_alone s (reserve_validation_tx c open_id expected now)
        (reserve_validation_leaves c open_id expected now) sound
  after-Maintains (Call.claims_callback c id now stale) s l w sound =
      left_alone s (claim_callback_tx c id now stale) (claim_callback_leaves c id now stale) sound
  after-Maintains (Call.sets_callback c id r) s l w sound =
      left_alone s (set_callback_result_tx c id r) (set_callback_leaves c id r) sound
  after-Maintains (Call.finalizes id) s l w sound =
      kept s (finalize_archive_tx id) (finalize_archive_tx_keeps (limits_of s) l id) sound
  after-Maintains (Call.deletes items) s l w sound =
      kept s (delete_tx items) (delete_tx_keeps (limits_of s) l items) sound
  after-Maintains (Call.completes items chat) s l w sound =
      kept s (complete_tx items chat) (complete_tx_keeps (limits_of s) l items chat) sound
  after-Maintains (Call.requeues n now) s l w sound =
      kept s (requeue_tx s n now) (requeue_tx_keeps s l n now) sound
  after-Maintains Call.acquires s l w sound = acquire-Maintains s s.consumer_held sound
  after-Maintains Call.releases s l w sound = (refl, sound)

  -- A history of calls, each with the words that it needs.
  pub data History (s : Store) : Store → Type 0 where
    start : History s s
    call : {t : Store} (c : Call) → History s t → HasWords c t → History s (after c t)

  History-Maintains :
      {s t : Store} → IsBounded (limits_of s) → History s t → IsSound s → Maintains s t
  History-Maintains l start sound = (refl, sound)
  History-Maintains l (call {t = t} c h w) sound =
      let (same, still) = History-Maintains l h sound in
      let (same', sound') = after-Maintains c t (subst IsBounded (sym same) l) w still in
      (same' ∙ same, sound')

  -- From a sound store with uint64 limits, every history of calls that has its words leads to a
  -- store whose counters are the number and the size of what the queue and the dead letters hold,
  -- and stay within the limits that the store was opened with.
  pub History-IsSound :
      {s t : Store}
      → IsBounded (limits_of s)
      → History s t
      → IsSound s
      → (limits_of t ≡ limits_of s) × IsSound t
  History-IsSound l h sound = History-Maintains l h sound
