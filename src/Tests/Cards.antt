-- ===== src/Tests/Cards.antt =====
-- Runs of the workflow cards and the onboarding, and the properties at
-- them.
use lark_git_webhook.Base.{◌+◌, ◌≤◌, ◌<◌, ◌≡◌, refl, true, false, none, [], ◌∷◌, arith, ℕ}
use lark_git_webhook.Base.Bytes.{Bytes, ascii, same}
use lark_git_webhook.Base.Words.{add64}
use lark_git_webhook.Bolt.Memory.{memory}
use lark_git_webhook.Bolt.Assoc.{lookup, insert}
use lark_git_webhook.Store.Error.{ok, err, form_conflict, validation_cooldown}
use lark_git_webhook.Store.Types.{Time, WorkflowState, WorkflowUpdate, OnboardingCallbackResult}
use lark_git_webhook.Store.Db.{Store}
use lark_git_webhook.Store.Workflow.{
  is_empty, or_keep, has_time, is_workflow_terminal, fresh_workflow, merge,
}
use lark_git_webhook.Store.Workflow.Merge.{updated_at-merge, terminal-merge, attempt-merge}
use lark_git_webhook.Store.Onboarding.{
  ContextState, Moments, set_onboarding_form, reserve_onboarding_validation,
  set_onboarding_callback_result, claim_onboarding_callback_result, context_commit_err,
}
use lark_git_webhook.Store.Onboarding.Ownership.{
  set_onboarding_form-again, published-claim, reserve_validation-again,
}
use lark_git_webhook.Store.Workflow.Again.{merge-again}
use lark_git_webhook.Tests.Data.{empty_store, noon, delivery}

abbrev user : Bytes
user = 9 ∷ []

abbrev form : Bytes
form = 5 ∷ 5 ∷ []

abbrev formed : Store
formed = (set_onboarding_form empty_store user form).1

forms : set_onboarding_form empty_store user form ≡ (ok tt, formed)
unfolding memory lookup set_onboarding_form
forms = refl

set_onboarding_form-again_example :
    (set_onboarding_form formed user form ≡ (ok tt, formed))
    × ((other : Bytes)
        → is_empty other ≡ false
        → same form other ≡ false
        → set_onboarding_form formed user other ≡ (err form_conflict, formed))
set_onboarding_form-again_example = set_onboarding_form-again empty_store formed user form forms

abbrev relaxed : Moments
relaxed =
    let calm : ContextState = record { cancelled = false; left = none } in
    record { at_start = calm; in_transaction = calm; before_put = calm }

abbrev validated : Store
validated = (reserve_onboarding_validation formed relaxed user form noon).1

validates : reserve_onboarding_validation formed relaxed user form noon ≡ (ok true, validated)
unfolding memory lookup insert same set_onboarding_form reserve_onboarding_validation
validates = refl

calm_context : context_commit_err relaxed.at_start ≡ ok tt
unfolding context_commit_err
calm_context = refl

reserve_validation-again_example :
    reserve_onboarding_validation validated relaxed user form (noon + 5)
    ≡ (err validation_cooldown, validated)
reserve_validation-again_example =
    reserve_validation-again formed validated relaxed user form noon true validates relaxed
      (noon + 5) calm_context calm_context (omega arith)

abbrev toast : OnboardingCallbackResult
toast = record { toast_type = ascii "ok"; content = ascii "done"; pending_at = 0 }

abbrev published : Store
published = (set_onboarding_callback_result empty_store relaxed delivery toast).1

publishes : set_onboarding_callback_result empty_store relaxed delivery toast ≡ (ok tt, published)
unfolding memory insert set_onboarding_callback_result
publishes = refl

published-claim_example :
    claim_onboarding_callback_result published relaxed delivery (noon + noon) 3
    ≡ (ok (toast, false), published)
published-claim_example =
    published-claim empty_store published relaxed delivery toast publishes relaxed (noon + noon) 3
      calm_context calm_context

abbrev run_update : ℕ → Time → Bytes → Bytes → WorkflowUpdate
run_update attempt at status conclusion = record {
  chat_id = [];
  repository_id = 1 ∷ [];
  repository = 2 ∷ [];
  suite_id = 3 ∷ [];
  run_id = 8;
  run_attempt = attempt;
  run_started_at = at;
  workflow_name = [];
  url = [];
  head_branch = [];
  head_sha = [];
  status = status;
  conclusion = conclusion;
  updated_at = at;
  authoritative_time = false;
  check = none;
}

-- A suite whose first attempt ended at 50.
abbrev ended : WorkflowState
ended = record (fresh_workflow (run_update 1 50 [] [])) {
  run_attempt = 1;
  updated_at = 50;
  status = ascii "completed";
  conclusion = ascii "success";
}

abbrev rerun : WorkflowUpdate
rerun = run_update 2 40 (ascii "queued") []

abbrev stale : WorkflowUpdate
stale = run_update 1 40 (ascii "queued") []

abbrev timeless : WorkflowUpdate
timeless = run_update 1 0 (ascii "queued") []

attempt-merge_example :
    ((merge rerun ended).conclusion ≡ rerun.conclusion)
    × ((merge rerun ended).status ≡ or_keep rerun.status ended.status)
    × (0 < ended.run_attempt → rerun.check ≡ none → (merge rerun ended).checks ≡ [])
attempt-merge_example = attempt-merge rerun ended (omega arith)

updated_at-merge_example :
    (ended.updated_at ≤ (merge stale ended).updated_at)
    × (has_time stale ≡ true
        → stale.updated_at < ended.updated_at
        → merge stale ended
          ≡ record ended { checks = (merge stale ended).checks; revision = add64 ended.revision 1 })
updated_at-merge_example = updated_at-merge stale ended (omega arith)

ended_terminal : is_workflow_terminal ended.status ended.conclusion ≡ true
unfolding is_workflow_terminal same
ended_terminal = refl

timeless_running : is_workflow_terminal timeless.status timeless.conclusion ≡ false
unfolding is_workflow_terminal same
timeless_running = refl

terminal-merge_example :
    merge timeless ended
    ≡ record ended { checks = (merge timeless ended).checks; revision = add64 ended.revision 1 }
terminal-merge_example =
    terminal-merge timeless ended refl ended_terminal timeless_running (omega arith)

merge-again_example :
    merge rerun (merge rerun ended)
    ≡ record (merge rerun ended) { revision = add64 (merge rerun ended).revision 1 }
merge-again_example = merge-again rerun ended
