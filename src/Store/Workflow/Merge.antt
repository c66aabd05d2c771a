-- ===== src/Store/Workflow/Merge.antt =====
-- How `UpsertWorkflow` of internal/store/store.go orders the deliveries of one suite.
use lark_git_webhook.Base.{
  ◌≤◌, ◌<◌, ◌≡◌, refl, ap, ◌∙◌, Bool, true, false, not, ◌||◌, Option, none, some, [], ◌∷◌, arith,
  ltb, if◌then◌else◌, subst,
}
use lark_git_webhook.Base.Bytes.{Bytes, same}
use lark_git_webhook.Base.Words.{add64}
use lark_git_webhook.Store.Types.{WorkflowState, WorkflowCheck, WorkflowUpdate}
use lark_git_webhook.Store.Workflow.{
  is_empty, or_keep, completed, is_workflow_terminal, has_time, accepts, take_names, start_attempt,
  take_status, take_update, put_check, take_check, merge,
}

-- What a check leaves of a workflow state.
put_check-frame :
    (c : WorkflowCheck) (s : WorkflowState)
    → put_check c s ≡ record s { checks = (put_check c s).checks }
unfolding put_check
put_check-frame c s = ground arith

pub take_check-frame :
    (c : Option WorkflowCheck) (s : WorkflowState)
    → take_check c s ≡ record s { checks = (take_check c s).checks }
unfolding take_check
take_check-frame none s = refl
take_check-frame (some c) s = ground (arith, put_check-frame c s)

-- Beyond its checks and its revision, a merge is what the update itself leaves.
pub merge-frame :
    (u : WorkflowUpdate) (s : WorkflowState)
    → merge u s ≡ record (take_update u s) {
      checks = (merge u s).checks;
      revision = add64 (take_update u s).revision 1;
    }
unfolding merge
merge-frame u s =
    ap {B = WorkflowState} (λ (st : WorkflowState). record st { revision = add64 st.revision 1 })
      (take_check-frame u.check (take_update u s))

-- The attempt after a delivery is the higher one of the state's and the delivery's.
run_attempt-merge :
    (u : WorkflowUpdate) (s : WorkflowState)
    → (merge u s).run_attempt
      ≡ (if ltb s.run_attempt u.run_attempt then u.run_attempt else s.run_attempt)
run_attempt-merge u s =
    ap (λ st. st.run_attempt) (merge-frame u s)
    ∙ (unfold take_update accepts take_names start_attempt take_status in ground arith)

refused-merge :
    (u : WorkflowUpdate) (s : WorkflowState)
    → accepts u s ≡ false
    → merge u s ≡ record s { checks = (merge u s).checks; revision = add64 s.revision 1 }
refused-merge u s e =
    let same_state : take_update u s ≡ s = unfold take_update in rw e in
    subst
      (λ (t : WorkflowState).
        merge u s ≡ record t { checks = (merge u s).checks; revision = add64 t.revision 1 })
      same_state (merge-frame u s)

-- A delivery of the same or an earlier attempt never moves the state's time back, and a delivery
-- that carries an older time leaves all but the checks and the revision as they are.
pub updated_at-merge :
    (u : WorkflowUpdate) (s : WorkflowState)
    → u.run_attempt ≤ s.run_attempt
    → (s.updated_at ≤ (merge u s).updated_at)
      × (has_time u ≡ true
          → u.updated_at < s.updated_at
          → merge u s ≡ record s { checks = (merge u s).checks; revision = add64 s.revision 1 })
updated_at-merge u s le = (
  unfold take_update accepts take_names start_attempt take_status in
      rw (merge-frame u s) (ground arith),
  λ timed older. refused-merge u s (unfold accepts in ground arith),
)

pub terminal-merge :
    (u : WorkflowUpdate) (s : WorkflowState)
    → has_time u ≡ false
    → is_workflow_terminal s.status s.conclusion ≡ true
    → is_workflow_terminal u.status u.conclusion ≡ false
    → u.run_attempt ≤ s.run_attempt
    → merge u s ≡ record s { checks = (merge u s).checks; revision = add64 s.revision 1 }
terminal-merge u s untimed ended running le = refused-merge u s (unfold accepts in ground arith)

own_conclusion : (c : Bytes) (b : Bool) → (if not (is_empty c) || b then c else []) ≡ c
own_conclusion [] true = refl
own_conclusion [] false = refl
own_conclusion (x ∷ xs) b = refl

pub attempt-merge :
    (u : WorkflowUpdate) (s : WorkflowState)
    → s.run_attempt < u.run_attempt
    → ((merge u s).conclusion ≡ u.conclusion)
      × ((merge u s).status ≡ or_keep u.status s.status)
      × (0 < s.run_attempt → u.check ≡ none → (merge u s).checks ≡ [])
unfolding merge take_check
attempt-merge u s later = (
  ap (λ st. st.conclusion) (merge-frame u s)
      ∙ (unfold take_update accepts take_names start_attempt take_status in
          ground (arith, own_conclusion u.conclusion (same u.status completed))),
  ap (λ st. st.status) (merge-frame u s)
      ∙ (unfold take_update accepts take_names start_attempt take_status in ground arith),
  λ before bare. unfold take_update accepts take_names start_attempt take_status in ground arith,
)
