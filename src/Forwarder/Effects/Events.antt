-- ===== src/Forwarder/Effects/Events.antt =====
-- What the events of a round of internal/forwarder/worker.go do to the store.
use lark_git_webhook.Base.{◌≡◌, refl, not, [], ◌∷◌, Bool-cases, ◌⊎◌, inl, inr}
use lark_git_webhook.Base.Bytes.{Bytes, ascii}
use lark_git_webhook.Bolt.{Bolt}
use lark_git_webhook.Store.Types.{Item, Encoding, WorkflowUpdate}
use lark_git_webhook.Store.Queue.{complete_chat_delivery, delete_items}
use lark_git_webhook.Store.Workflow.{upsert_workflow, workflow}
use lark_git_webhook.Store.Onboarding.{onboarding, set_onboarding_form}
use lark_git_webhook.Store.Call.{Call, after}
use lark_git_webhook.Forwarder.Machine.{
  Worker, Outside, Machine, create_form, note, with_store, ask,
}
use lark_git_webhook.Forwarder.Batch.{
  Slot, granted, no_slot, ended, unfinished, reserve_slot, rounds,
}
use lark_git_webhook.Forwarder.Cards.{Look, Texts}
use lark_git_webhook.Forwarder.Workflows.{
  WorkflowEvents, workflow_look, Parsed, parsed, unparsed, workflow_update, send_update,
  send_workflow_to_chat,
}
use lark_git_webhook.Forwarder.Pipelines.{
  PipelineEvents, pipeline_update, pipeline_key, pipeline_look, pipeline_advances, is_not_found,
  drain_pipeline, advance_pipeline, send_gitlab_pipeline,
}
use lark_git_webhook.Forwarder.Forms.{
  OnboardingEvents, EnteredEvent, entered_of, is_onboarded, onboarding_uuid, delete_onboarding,
  record_form, reserve_form, send_form, welcome, send_onboarding,
}
use lark_git_webhook.Forwarder.Effects.{
  one_call, Calls-trans, Moves, Result-cases, Reply-cases, continuing-Moves, if-Moves,
  reserve_slot-Moves, fail_items-Moves,
}
use lark_git_webhook.Forwarder.Effects.Cards.{send_card-Moves}

pub Parsed-cases :
    {A : Type 0} (p : Parsed A) → ((why : Bytes) × (p ≡ unparsed why)) ⊎ ((a : A) × (p ≡ parsed a))
Parsed-cases (unparsed why) = inl (why, refl)
Parsed-cases (parsed a) = inr (a, refl)

module _ ⦃bolt : Bolt⦄ ⦃encoding : Encoding⦄ ⦃outside : Outside⦄ ⦃texts : Texts⦄ where
  send_update-Moves :
      (w : Worker) (look : Look) (context : Bytes) (item : Item) (chat : Bytes) (u : WorkflowUpdate)
      (m : Machine)
      → Moves m (send_update w look context item chat u m)
  unfolding send_update after
  send_update-Moves w look context item chat u m =
      let upserted = upsert_workflow m.store u in
      let once = one_call {s = m.store} (Call.upserts u) tt in
      elim (Result-cases upserted.0) [
        | inl (e, h) ↦
            rw (h, send_update)
              (Calls-trans once (fail_items-Moves w (item ∷ []) _ (with_store upserted.1 m)))
        | inr (state, h) ↦
            rw (h, send_update) (Calls-trans once (send_card-Moves w look item chat state _))
      ]

  drain_pipeline-Moves :
      (item : Item) (chat : Bytes) (m : Machine) → Moves m (drain_pipeline item chat m)
  unfolding drain_pipeline after
  drain_pipeline-Moves item chat m =
      let once = one_call {s = m.store} (Call.completes (item ∷ []) chat) tt in
      elim (Result-cases (complete_chat_delivery m.store (item ∷ []) chat).0) [
        | inl (e, h) ↦ rw (h, drain_pipeline) once
        | inr (u, h) ↦ rw (h, drain_pipeline) once
      ]

  delete_onboarding-Moves : (item : Item) (m : Machine) → Moves m (delete_onboarding item m)
  unfolding delete_onboarding note after
  delete_onboarding-Moves item m =
      let once = one_call {s = m.store} (Call.deletes (item ∷ [])) tt in
      elim (Result-cases (delete_items m.store (item ∷ [])).0) [
        | inl (e, h) ↦ rw (h, delete_onboarding) once
        | inr (u, h) ↦ rw (h, delete_onboarding) once
      ]

  record_form-Moves :
      (item : Item) (open_id message : Bytes) (m : Machine)
      → Moves m (record_form item open_id message m)
  unfolding record_form note after
  record_form-Moves item open_id message m =
      let once = one_call {s = m.store} (Call.sets_form open_id message) tt in
      elim (Result-cases (set_onboarding_form m.store open_id message).0) [
        | inl (e, h) ↦ rw (h, record_form) once
        | inr (u, h) ↦ rw (h, record_form) (Calls-trans once (delete_onboarding-Moves item _))
      ]

  reserve_form-Moves : (w : Worker) (item : Item) (m : Machine) → Moves m (reserve_form w item m)
  unfolding reserve_form
  reserve_form-Moves w item m = go slot.0 refl
    where
      slot : Slot × Machine
      slot = reserve_slot (rounds m) m

      go : (s : Slot) → slot.0 ≡ s → Moves m (reserve_form w item m)
      go granted e = rw (e, reserve_form) (reserve_slot-Moves (rounds m) m)
      go (no_slot why) e =
          rw (e, reserve_form)
            (Calls-trans (reserve_slot-Moves (rounds m) m)
              (fail_items-Moves w (item ∷ []) _ slot.1))
      go ended e = rw (e, reserve_form) (reserve_slot-Moves (rounds m) m)
      go unfinished e = rw (e, reserve_form) (reserve_slot-Moves (rounds m) m)

  send_form-Moves :
      (w : Worker) (item : Item) (open_id : Bytes) (m : Machine)
      → Moves m (send_form w item open_id m)
  unfolding send_form ask note
  send_form-Moves w item open_id m =
      continuing-Moves m (reserve_form w item m) _ (reserve_form-Moves w item m) λ m1.
        elim (Reply-cases
          (outside.answer m1.asked_of (create_form open_id (onboarding_uuid open_id)))) [
            | inl (f, h) ↦ rw h (fail_items-Moves w (item ∷ []) f _)
            | inr (message, h) ↦ rw h (record_form-Moves item open_id message _)
          ]

  welcome-Moves :
      (w : Worker) (item : Item) (entered : EnteredEvent) (m : Machine)
      → Moves m (welcome w item entered m)
  unfolding welcome
  welcome-Moves w item entered m =
      elim (Result-cases (is_onboarded (onboarding m.store entered.open_id))) [
        | inl (e, h) ↦ rw (h, welcome) (fail_items-Moves w (item ∷ []) _ m)
        | inr (done, h) ↦ elim (Bool-cases done) [
          | inl d ↦ rw (h, welcome, d) (delete_onboarding-Moves item m)
          | inr d ↦ rw (h, welcome, d) (send_form-Moves w item entered.open_id m)
        ]
      ]

module _ ⦃bolt : Bolt⦄ ⦃encoding : Encoding⦄ ⦃outside : Outside⦄ ⦃texts : Texts⦄
    ⦃workflows : WorkflowEvents⦄ ⦃pipelines : PipelineEvents⦄ ⦃forms : OnboardingEvents⦄ where
  pub send_workflow_to_chat-Moves :
      (w : Worker) (item : Item) (chat : Bytes) (m : Machine)
      → Moves m (send_workflow_to_chat w item chat m)
  unfolding send_workflow_to_chat
  send_workflow_to_chat-Moves w item chat m =
      if-Moves m (not w.has_client) _ _ (fail_items-Moves w (item ∷ []) _ m)
        (elim (Parsed-cases (workflow_update item)) [
          | inl (why, h) ↦ rw (h) (fail_items-Moves w (item ∷ []) _ m)
          | inr (u, h) ↦
              rw (h)
                (send_update-Moves w workflow_look (ascii "persist workflow state: ") item chat _ m)
        ])

  advance_pipeline-Moves :
      (w : Worker) (item : Item) (chat : Bytes) (u : WorkflowUpdate) (m : Machine)
      → Moves m (advance_pipeline w item chat u m)
  unfolding advance_pipeline
  advance_pipeline-Moves w item chat u m =
      elim (Result-cases (workflow m.store (pipeline_key chat u))) [
        | inl (e, h) ↦ elim (Bool-cases (is_not_found e)) [
          | inl n ↦
              rw (h, advance_pipeline, n)
                (send_update-Moves w pipeline_look (ascii "persist pipeline state: ") item chat u m)
          | inr n ↦ rw (h, advance_pipeline, n) (fail_items-Moves w (item ∷ []) _ m)
        ]
        | inr (existing, h) ↦ elim (Bool-cases (pipeline_advances existing u)) [
          | inl n ↦
              rw (h, advance_pipeline, n)
                (send_update-Moves w pipeline_look (ascii "persist pipeline state: ") item chat u m)
          | inr n ↦ rw (h, advance_pipeline, n) (drain_pipeline-Moves item chat m)
        ]
      ]

  pub send_gitlab_pipeline-Moves :
      (w : Worker) (item : Item) (chat : Bytes) (m : Machine)
      → Moves m (send_gitlab_pipeline w item chat m)
  unfolding send_gitlab_pipeline
  send_gitlab_pipeline-Moves w item chat m =
      if-Moves m (not w.has_client) _ _ (fail_items-Moves w (item ∷ []) _ m)
        (elim (Parsed-cases (pipeline_update item)) [
          | inl (why, h) ↦ rw (h) (fail_items-Moves w (item ∷ []) _ m)
          | inr (u, h) ↦ rw (h) (advance_pipeline-Moves w item chat _ m)
        ])

  pub send_onboarding-Moves :
      (w : Worker) (item : Item) (m : Machine) → Moves m (send_onboarding w item m)
  unfolding send_onboarding
  send_onboarding-Moves w item m =
      if-Moves m (not w.has_client) _ _ (fail_items-Moves w (item ∷ []) _ m)
        (elim (Parsed-cases (entered_of item.raw_json)) [
          | inl (why, h) ↦ rw (h) (fail_items-Moves w (item ∷ []) _ m)
          | inr (entered, h) ↦ rw (h) (welcome-Moves w item entered m)
        ])
