-- ===== src/Forwarder/Pipelines/Order.antt =====
-- The order of a pipeline's stages, and where its card is stored: `gitlabPipelineAdvances` and
-- `gitlabPipelineKey` of internal/forwarder/gitlab_pipeline.go with `UpsertWorkflow`.
use lark_git_webhook.Base.{
  ◌∷◌, [], ◌≤◌, ◌≡◌, refl, ap, sym, ◌∙◌, subst, ℕ, true, false, not, ◌&&◌, ◌||◌, some, arith, ◌==◌,
  if◌then◌else◌, Bool-cases, inl, inr,
}
use lark_git_webhook.Base.Bytes.{Bytes, same, same_refl}
use lark_git_webhook.Bolt.{Bolt}
use lark_git_webhook.Store.Error.{Result, ok, >>=-eq_ok}
use lark_git_webhook.Store.Types.{WorkflowState, WorkflowUpdate, json}
use lark_git_webhook.Store.Db.{Db, Store, view}
use lark_git_webhook.Store.Db.Transactions.{update-eq_ok}
use lark_git_webhook.Store.Workflow.{
  is_empty, accepts, merge, take_update, take_status, start_attempt, take_names, workflow,
  workflow_key, upsert_workflow, upsert_workflow_tx, stored_workflow,
}
use lark_git_webhook.Store.Workflow.Merge.{merge-frame}
use lark_git_webhook.Bolt.Laws.{get-put}
use lark_git_webhook.Forwarder.Pipelines.{rank, pipeline_advances, pipeline_key}

-- A status that a merge takes over is one that the update has.
status-merge :
    (u : WorkflowUpdate) (s : WorkflowState)
    → (merge u s).status ≡ (if accepts u s && not (is_empty u.status) then u.status else s.status)
status-merge u s =
    ap (λ (st : WorkflowState). st.status) (merge-frame u s)
    ∙ (unfold take_update accepts take_names start_attempt take_status in ground arith)

known_status : (status : Bytes) (n : ℕ) → rank status ≡ some n → is_empty status ≡ false
unfolding rank same
known_status [] n h = absurd (ground arith)
known_status (b ∷ status) n h = refl

pub merge-advances :
    (s : WorkflowState) (u : WorkflowUpdate) (stored incoming : ℕ)
    → pipeline_advances s u ≡ true
    → (s.updated_at == 0) ≡ false
    → rank s.status ≡ some stored
    → rank u.status ≡ some incoming
    → (later : ℕ) × (rank (merge u s).status ≡ some later) × (stored ≤ later)
unfolding pipeline_advances
merge-advances s u stored incoming advances timed before new =
    elim (Bool-cases (accepts u s && not (is_empty u.status))) [
      | inl e ↦
          let taken : (merge u s).status ≡ u.status = status-merge u s ∙ rw e refl in
          let known = known_status s.status stored before in (incoming, rw taken new, ground arith)
      | inr e ↦
          let kept : (merge u s).status ≡ s.status = status-merge u s ∙ rw e refl in
          (stored, rw kept before, omega arith)
    ]

module _ ⦃bolt : Bolt⦄ where
  open bolt use {get}

  put_state :
      (k : Bytes) (new state : WorkflowState) (db db' : Db)
      → ◌≡◌ {A = Result (WorkflowState × Db)}
          (ok (
            record new { key = k },
            record db { workflow_state = bolt.put db.workflow_state k (json new) },
          ))
          (ok (state, db'))
      → (get db'.workflow_state k ≡ some (json new)) × (state ≡ record new { key = k })
  put_state k new state db db' h =
      let there : db'.workflow_state ≡ bolt.put db.workflow_state k (json new) = ground arith in
      (
        subst (λ b. get b k ≡ some (json new)) (sym there)
            (get-put db.workflow_state k k (json new) ∙ rw (same_refl k) refl),
        ground arith,
      )

  stored_tx :
      (u : WorkflowUpdate) (db db' : Db) (state : WorkflowState)
      → upsert_workflow_tx u db ≡ ok (state, db')
      → (new : WorkflowState) × (get db'.workflow_state (workflow_key u) ≡ some (json new))
        × (state ≡ record new { key = workflow_key u })
  unfolding upsert_workflow_tx
  stored_tx u db db' state h = elim (Bool-cases (is_empty u.repository || is_empty u.suite_id)) [
    | inl e ↦ absurd (cc (rw (e, upsert_workflow_tx) at h))
    | inr e ↦
        let (old, _, made) = >>=-eq_ok (stored_workflow u db) _ (rw (e, upsert_workflow_tx) at h) in
        let (found, same_state) = put_state (workflow_key u) (merge u old) state db db' made in
        (merge u old, found, same_state)
  ]

  found_state :
      (t : Store) (db : Db) (k : Bytes) (new : WorkflowState)
      → t.db ≡ some db
      → get db.workflow_state k ≡ some (json new)
      → workflow t k ≡ ok (record new { key = k })
  unfolding workflow
  found_state t db k new opened found = rw (opened, workflow, view, found) refl

  -- The key under which a pipeline event looks for its card is the one under which its update is
  -- stored: after `UpsertWorkflow` has stored the state of an event's card, the event finds it.
  pub workflow-upsert :
      (s t : Store) (chat : Bytes) (u : WorkflowUpdate) (state : WorkflowState)
      → upsert_workflow s (record u { chat_id = chat }) ≡ (ok state, t)
      → workflow t (pipeline_key chat u) ≡ ok state
  unfolding upsert_workflow
  workflow-upsert s t chat u state h =
      let u' = record u { chat_id = chat } in
      let (db, db', here, made, moved) = update-eq_ok s (upsert_workflow_tx u') h in
      let (new, found, e) = stored_tx u' db db' state made in
      let opened : t.db ≡ some db' = ap (λ (q : Store). q.db) moved in
      let same_key : pipeline_key chat u ≡ workflow_key u' =
        unfold pipeline_key workflow_key in refl in
      rw same_key (
        found_state t db' (workflow_key u') new opened found
        ∙ ap (λ (st : WorkflowState). ok st) (sym e))
