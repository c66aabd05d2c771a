-- ===== src/Forwarder/Rounds.antt =====
-- The rounds of the worker: `Run` of internal/forwarder/worker.go.
use lark_git_webhook.Base.{
  ℕ, zero, suc, Bool, true, false, ◌||◌, List, [], ◌∷◌, ◌++◌, ltb, ◌==◌, if◌then◌else◌, length,
}
use lark_git_webhook.Base.Bytes.{Bytes, same, ascii}
use lark_git_webhook.Bolt.{Bolt}
use lark_git_webhook.Store.Error.{ok, err}
use lark_git_webhook.Store.Types.{Item, Encoding, second}
use lark_git_webhook.Store.Queue.{due}
use lark_git_webhook.Store.Subscription.{acquire_consumer, release_consumer}
use lark_git_webhook.Forwarder.Machine.{
  Worker, Outside, Machine, BatchResult, continue_round, stop_round, stop_worker, crashed,
  read_clock, wait_context, continuing,
}
use lark_git_webhook.Forwarder.Batch.{send_ordinary}
use lark_git_webhook.Forwarder.Cards.{Texts}
use lark_git_webhook.Forwarder.Workflows.{WorkflowEvents, send_workflows}
use lark_git_webhook.Forwarder.Pipelines.{PipelineEvents, send_gitlab_pipelines}
use lark_git_webhook.Forwarder.Forms.{OnboardingEvents, send_onboarding}

-- What the worker does with an item, by its event.
pub data Handling : Type 0 where
  as_workflow : Handling
  as_pipeline : Handling
  as_onboarding : Handling
  as_message : Handling

unfoldable pub handling : Bytes → Handling
handling event =
    if same event (ascii "workflow_run") || same event (ascii "check_run")
    then as_workflow
    else if same event (ascii "gitlab:pipeline")
    then as_pipeline
    else if same event (ascii "lark_event")
    then as_onboarding
    else as_message

-- Whether the loop of `Run` goes on.
pub data Turn : Type 0 where
  next : Turn
  return : Turn
  crash : Turn

unfoldable pub turn_of : BatchResult → Turn
turn_of continue_round = next
turn_of stop_round = next
turn_of stop_worker = return
turn_of crashed = crash

-- 100 milliseconds.
abbrev pub idle_wait : ℕ
idle_wait = 100_000_000

module _ ⦃bolt : Bolt⦄ ⦃outside : Outside⦄ where
  -- A wait after which the loop goes on, unless the context has ended.
  unfoldable pub pause : ℕ → Machine → Turn × Machine
  unfolding wait_context
  pause delay m = let woke = wait_context delay m in (if woke.0 then next else return, woke.1)

  -- Whether the wait for a batch was cut short, where there is one.
  unfoldable pub gather_batch : Worker → Machine → Bool × Machine
  unfolding wait_context
  gather_batch w m = if ltb 0 w.batch_window then wait_context w.batch_window m else (true, m)

module _ ⦃bolt : Bolt⦄ ⦃encoding : Encoding⦄ ⦃outside : Outside⦄ ⦃texts : Texts⦄
    ⦃workflows : WorkflowEvents⦄ ⦃pipelines : PipelineEvents⦄ ⦃forms : OnboardingEvents⦄ where
  -- The loop over the items of a round: those that become messages wait for its end.
  unfoldable pub handle_items : Worker → List Item → List Item → Machine → BatchResult × Machine
  unfolding handling continuing
  handle_items w [] ordinary m = send_ordinary w ordinary m
  handle_items w (item ∷ items) ordinary m = elim (handling item.event) [
    | as_workflow ↦ continuing (send_workflows w item m) (handle_items w items ordinary)
    | as_pipeline ↦ continuing (send_gitlab_pipelines w item m) (handle_items w items ordinary)
    | as_onboarding ↦ continuing (send_onboarding w item m) (handle_items w items ordinary)
    | as_message ↦ handle_items w items (ordinary ++ item ∷ []) m
  ]

  -- The items that are due after the wait for a batch.
  unfoldable pub send_due : Worker → Machine → Turn × Machine
  unfolding read_clock turn_of
  send_due w m =
      let m1 = read_clock m in
      elim (due m1.store m1.now w.batch_max_events) [
        | err e ↦ (next, m1)
        | ok items ↦ (let sent = handle_items w items [] m1 in (turn_of sent.0, sent.1))
      ]

  -- One round of the loop.
  unfoldable pub run_round : Worker → Machine → Turn × Machine
  unfolding read_clock pause gather_batch
  run_round w m =
      let m1 = read_clock m in
      elim (due m1.store m1.now w.batch_max_events) [
        | err e ↦ pause second m1
        | ok items ↦ elim (length items == 0) [
          | true ↦ pause idle_wait m1
          | false ↦
              (let gathered = gather_batch w m1 in
                elim gathered.0 [ true ↦ send_due w gathered.1 | false ↦ (return, gathered.1) ])
        ]
      ]

  -- The loop, for at most a number of rounds: the worker runs until its context ends.
  unfoldable pub run_rounds : ℕ → Worker → Machine → Turn × Machine
  run_rounds zero w m = (next, m)
  run_rounds (suc left) w m =
      let turn = run_round w m in
      elim turn.0 [
        | next ↦ run_rounds left w turn.1
        | return ↦ (return, turn.1)
        | crash ↦ (crash, turn.1)
      ]

  -- What `Run` defers: the consumer lock, and then `running`. A crash ends the process.
  abbrev pub leave : Turn × Machine → Turn × Machine
  leave (next, m) = (next, m)
  leave (return, m) = (return, record m { store = release_consumer m.store; running = false })
  leave (crash, m) = (crash, m)

  -- `Run`, for at most a number of rounds.
  unfoldable pub run : ℕ → Worker → Machine → Turn × Machine
  unfolding acquire_consumer release_consumer
  run left w m =
      if m.running
      then (return, m)
      else let acquired = acquire_consumer m.store in
        if acquired.0
        then leave (run_rounds left w (record m { store = acquired.1; running = true }))
        else (return, m)
