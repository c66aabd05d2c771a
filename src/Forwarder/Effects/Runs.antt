-- ===== src/Forwarder/Effects/Runs.antt =====
-- What the rounds of internal/forwarder/worker.go do to the store.
use lark_git_webhook.Base.{
  ◌+◌, ◌≡◌, refl, sym, subst, ℕ, zero, suc, true, List, [], ◌∷◌, ◌++◌, ltb, ◌==◌, Bool-cases, inl,
  inr, length,
}
use lark_git_webhook.Bolt.{Bolt}
use lark_git_webhook.Store.Types.{Item, Encoding}
use lark_git_webhook.Store.Db.{Store}
use lark_git_webhook.Store.Queue.{due}
use lark_git_webhook.Store.Subscription.{acquire_consumer}
use lark_git_webhook.Store.Call.{Call, after}
use lark_git_webhook.Forwarder.Machine.{Worker, Outside, Machine, read_clock, wait_context}
use lark_git_webhook.Forwarder.Targets.{item_chat_ids}
use lark_git_webhook.Forwarder.Cards.{Texts}
use lark_git_webhook.Forwarder.Workflows.{WorkflowEvents, send_workflow_to_chat, send_workflows}
use lark_git_webhook.Forwarder.Pipelines.{
  PipelineEvents, send_gitlab_pipeline, send_gitlab_pipelines,
}
use lark_git_webhook.Forwarder.Forms.{OnboardingEvents, send_onboarding}
use lark_git_webhook.Forwarder.Rounds.{
  Handling, as_workflow, as_pipeline, as_onboarding, as_message, handling, Turn, next, return,
  crash, pause, gather_batch, handle_items, send_due, run_round, run_rounds, run, leave,
}
use lark_git_webhook.Forwarder.Effects.{
  Calls, no_call, call, one_call, Calls-trans, Moves, Result-cases, continuing-Moves,
  for_each-Moves, if-Moves, send_ordinary-Moves,
}
use lark_git_webhook.Forwarder.Effects.Events.{
  send_workflow_to_chat-Moves, send_gitlab_pipeline-Moves, send_onboarding-Moves,
}

module _ ⦃bolt : Bolt⦄ ⦃encoding : Encoding⦄ ⦃outside : Outside⦄ ⦃texts : Texts⦄
    ⦃workflows : WorkflowEvents⦄ ⦃pipelines : PipelineEvents⦄ ⦃forms : OnboardingEvents⦄ where
  handle_items-Moves :
      (w : Worker) (items ordinary : List Item) (m : Machine)
      → Moves m (handle_items w items ordinary m)
  unfolding handle_items send_workflows send_gitlab_pipelines
  handle_items-Moves w [] ordinary m = send_ordinary-Moves w ordinary m
  handle_items-Moves w (item ∷ items) ordinary m =
      go (handle_items-Moves w items ordinary)
        (handle_items-Moves w items (ordinary ++ item ∷ []) m) (handling item.event) refl
    where
      go :
          ((m' : Machine) → Moves m' (handle_items w items ordinary m'))
          → Moves m (handle_items w items (ordinary ++ item ∷ []) m)
          → (h : Handling) → handling item.event ≡ h
          → Moves m (handle_items w (item ∷ items) ordinary m)
      go rest later as_workflow e =
          rw (e, handle_items)
            (continuing-Moves m (send_workflows w item m) _
              (for_each-Moves (send_workflow_to_chat w item) (send_workflow_to_chat-Moves w item)
                (item_chat_ids item) m)
              rest)
      go rest later as_pipeline e =
          rw (e, handle_items)
            (continuing-Moves m (send_gitlab_pipelines w item m) _
              (for_each-Moves (send_gitlab_pipeline w item) (send_gitlab_pipeline-Moves w item)
                (item_chat_ids item) m)
              rest)
      go rest later as_onboarding e =
          rw (e, handle_items)
            (continuing-Moves m (send_onboarding w item m) _ (send_onboarding-Moves w item m) rest)
      go rest later as_message e = rw (e, handle_items) later

  send_due-Moves : (w : Worker) (m : Machine) → Moves m (send_due w m)
  unfolding send_due read_clock
  send_due-Moves w m =
      let now = m.now + outside.lag m.asked_of in
      elim (Result-cases (due m.store now w.batch_max_events)) [
        | inl (e, h) ↦ rw (h, send_due) no_call
        | inr (items, h) ↦ rw (h, send_due) (handle_items-Moves w items [] _)
      ]

  gather_batch-store : (w : Worker) (m : Machine) → (gather_batch w m).1.store ≡ m.store
  unfolding gather_batch wait_context
  gather_batch-store w m = elim (Bool-cases (ltb 0 w.batch_window)) [
    | inl e ↦ rw e refl
    | inr e ↦ rw e refl
  ]

  run_round-Moves : (w : Worker) (m : Machine) → Moves m (run_round w m)
  unfolding run_round read_clock pause wait_context
  run_round-Moves w m =
      let m1 = read_clock m in
      elim (Result-cases (due m.store m1.now w.batch_max_events)) [
        | inl (e, h) ↦ rw (h, run_round) no_call
        | inr (items, h) ↦ elim (Bool-cases (length items == 0)) [
          | inl z ↦ rw (h, run_round, z) no_call
          | inr z ↦
              let stays : Calls m.store (gather_batch w m1).1.store =
                subst (Calls m.store) (sym (gather_batch-store w m1)) no_call in
              elim (Bool-cases (gather_batch w m1).0) [
                | inl g ↦
                    rw (h, run_round, z, g)
                      (Calls-trans stays (send_due-Moves w (gather_batch w m1).1))
                | inr g ↦ rw (h, run_round, z, g) stays
              ]
        ]
      ]

  run_rounds-Moves : (left : ℕ) (w : Worker) (m : Machine) → Moves m (run_rounds left w m)
  unfolding run_rounds
  run_rounds-Moves zero w m = no_call
  run_rounds-Moves (suc left) w m =
      go (run_rounds-Moves left w (run_round w m).1) (run_round w m).0 refl
    where
      go :
          Moves (run_round w m).1 (run_rounds left w (run_round w m).1)
          → (t : Turn) → (run_round w m).0 ≡ t
          → Moves m (run_rounds (suc left) w m)
      go rest next e = rw (e, run_rounds) (Calls-trans (run_round-Moves w m) rest)
      go rest return e = rw (e, run_rounds) (run_round-Moves w m)
      go rest crash e = rw (e, run_rounds) (run_round-Moves w m)

  leave-Moves : (s : Store) (p : Turn × Machine) → Calls s p.1.store → Calls s (leave p).1.store
  unfolding after
  leave-Moves s (next, m) calls = calls
  leave-Moves s (return, m) calls = call Call.releases tt calls
  leave-Moves s (crash, m) calls = calls

  -- However long the worker runs, whatever the clock, the context and Lark do, its whole effect on
  -- the store is a sequence of calls of the store's operations, of which none admits a delivery,
  -- archives one, requeues a dead letter, subscribes a chat or moves an audit checkpoint.
  pub run-Calls : (left : ℕ) (w : Worker) (m : Machine) → Calls m.store (run left w m).1.store
  unfolding run after
  run-Calls left w m =
      let begun : Machine = record m { store = (acquire_consumer m.store).1; running = true } in
      let entered = one_call {s = m.store} Call.acquires tt in
      if-Moves m m.running (return, m) _ no_call
        (if-Moves m (acquire_consumer m.store).0 _ (return, m)
          (leave-Moves m.store (run_rounds left w begun)
            (Calls-trans entered (run_rounds-Moves left w begun)))
          no_call)
