-- ===== src/Forwarder/Workflows.antt =====
-- GitHub workflow and check events: `workflowUpdate`, `sendWorkflows` and `workflowReaction` in
-- internal/forwarder/workflow.go.
use lark_git_webhook.Base.{
  ◌+◌, ◌/◌, ◌%◌, ℕ, zero, suc, false, not, ◌&&◌, ◌||◌, none, some, [], ◌∷◌, ◌++◌, ltb, ◌==◌,
  if◌then◌else◌,
}
use lark_git_webhook.Base.Bytes.{Bytes, same, ascii}
use lark_git_webhook.Bolt.{Bolt}
use lark_git_webhook.Store.Error.{ok, err}
use lark_git_webhook.Store.Types.{
  Time, Item, Encoding, WorkflowState, WorkflowCheck, WorkflowUpdate,
}
use lark_git_webhook.Store.Keys.{first_bytes}
use lark_git_webhook.Webhook.Signature.{encode_hex}
use lark_git_webhook.Store.Workflow.{is_empty, upsert_workflow}
use lark_git_webhook.Forwarder.Machine.{
  Worker, Outside, Machine, plain_failure, Card, BatchResult, with_store, for_each,
}
use lark_git_webhook.Forwarder.Targets.{item_chat_ids}
use lark_git_webhook.Forwarder.Cards.{Look, Texts, store_failure, workflow_failure, send_card}

-- A value that was read from a payload, or why it could not be.
pub data Parsed (A : Type 0) : Type 0 where
  parsed : A → Parsed A
  unparsed : Bytes → Parsed A

pub record RunPayload : Type 0 where
  pub id : ℕ
  pub check_suite_id : ℕ
  pub run_attempt : ℕ
  pub name : Bytes
  pub html_url : Bytes
  pub status : Bytes
  pub conclusion : Bytes
  pub head_branch : Bytes
  pub head_sha : Bytes
  pub run_started_at : Time
  pub updated_at : Time

pub record CheckPayload : Type 0 where
  pub id : ℕ
  pub name : Bytes
  pub status : Bytes
  pub conclusion : Bytes
  pub details_url : Bytes
  pub started_at : Time
  pub completed_at : Time
  pub suite_id : ℕ

-- `workflowPayload`: the fields that the JSON leaves out are zero.
pub record WorkflowPayload : Type 0 where
  pub repository_id : ℕ
  pub repository : Bytes
  pub run : RunPayload
  pub check : CheckPayload

-- The digits of a number, put before those that are there: `fmt.Sprint` of an identifier.
unfoldable pub digits : ℕ → ℕ → Bytes → Bytes
digits zero n after = after
digits (suc fuel) n after =
    let more = digits fuel (n / 10) ((48 + n % 10) ∷ after) in
    if ltb n 10 then (48 + n) ∷ after else more

unfoldable pub sprint : ℕ → Bytes
unfolding digits
sprint n = digits (n + 1) n []

abbrev pub no_update : WorkflowUpdate
no_update = record {
  chat_id = [];
  repository_id = [];
  repository = [];
  suite_id = [];
  run_id = 0;
  run_attempt = 0;
  run_started_at = 0;
  workflow_name = [];
  url = [];
  head_branch = [];
  head_sha = [];
  status = [];
  conclusion = [];
  updated_at = 0;
  authoritative_time = false;
  check = none;
}

abbrev pub of_repository : WorkflowPayload → WorkflowUpdate
of_repository p = record no_update {
  repository_id = sprint p.repository_id;
  repository = p.repository;
}

-- The update of a `workflow_run` event.
unfoldable pub run_update : WorkflowPayload → WorkflowUpdate
run_update p = record (of_repository p) {
  suite_id = sprint p.run.check_suite_id;
  run_id = p.run.id;
  run_attempt = p.run.run_attempt;
  workflow_name = p.run.name;
  url = p.run.html_url;
  status = p.run.status;
  conclusion = p.run.conclusion;
  head_branch = p.run.head_branch;
  head_sha = p.run.head_sha;
  run_started_at = p.run.run_started_at;
  updated_at = p.run.updated_at;
  authoritative_time = not (p.run.updated_at == 0);
}

abbrev pub check_of : CheckPayload → WorkflowCheck
check_of c = record {
  id = sprint c.id;
  name = c.name;
  status = c.status;
  conclusion = c.conclusion;
  details_url = c.details_url;
  started_at = c.started_at;
  completed_at = c.completed_at;
  updated_at = 0;
}

-- The update of a `check_run` event.
unfoldable pub check_update : WorkflowPayload → WorkflowUpdate
check_update p = record (of_repository p) {
  suite_id = sprint p.check.suite_id;
  check = some (check_of p.check);
  updated_at = if p.check.completed_at == 0 then p.check.started_at else p.check.completed_at;
  authoritative_time = not (p.check.completed_at == 0 && p.check.started_at == 0);
}

-- The checks that both kinds of event are put to.
unfoldable pub checked_update : WorkflowPayload → WorkflowUpdate → Parsed WorkflowUpdate
checked_update p u =
    if p.repository_id == 0
      || (is_empty u.repository || (is_empty u.suite_id || same u.suite_id (ascii "0")))
    then unparsed (ascii "workflow event missing repository or suite ID")
    else parsed u

-- The update of a payload, by the event.
unfoldable pub update_of : Bytes → WorkflowPayload → Parsed WorkflowUpdate
unfolding run_update check_update checked_update
update_of event p =
    if same event (ascii "workflow_run")
    then (if p.run.check_suite_id == 0
        then unparsed (ascii "workflow event missing check suite ID")
        else checked_update p (run_update p))
    else if same event (ascii "check_run")
    then checked_update p (check_update p)
    else unparsed (ascii "unsupported workflow event")

-- `workflowReaction`.
unfoldable pub workflow_reaction : Bytes → Bytes
workflow_reaction conclusion =
    if same conclusion (ascii "success")
    then ascii "DONE"
    else if same conclusion (ascii "failure")
        || (same conclusion (ascii "timed_out") || same conclusion (ascii "action_required"))
    then ascii "ERROR"
    else if same conclusion (ascii "cancelled")
        || (same conclusion (ascii "skipped")
            || (same conclusion (ascii "neutral") || same conclusion (ascii "stale")))
    then ascii "CrossMark"
    else []

-- What the workflow events use of encoding/json, and the card of a state.
pub record WorkflowEvents : Type 0 where
  pub decode_workflow : Bytes → Parsed WorkflowPayload
  pub make_workflow_card : WorkflowState → Card

module _ ⦃events : WorkflowEvents⦄ where
  -- `workflowUpdate`.
  unfoldable pub workflow_update : Item → Parsed WorkflowUpdate
  unfolding update_of
  workflow_update item = elim (events.decode_workflow item.raw_json) [
    | unparsed why ↦ unparsed why
    | parsed p ↦ update_of item.event p
  ]

module _ ⦃encoding : Encoding⦄ where
  -- A name for a key: its kind, and the first half of the digest.
  abbrev pub digest_name : Bytes → Bytes → Bytes
  digest_name kind key = kind ++ encode_hex (first_bytes 16 (encoding.sum256 key))

  -- `workflowUUID`.
  unfoldable pub workflow_uuid : Bytes → Bytes
  workflow_uuid key = digest_name (ascii "github-suite-") key

module _ ⦃encoding : Encoding⦄ ⦃events : WorkflowEvents⦄ where
  abbrev pub workflow_look : Look
  workflow_look = record {
    build_card = events.make_workflow_card;
    reaction_for = workflow_reaction;
    uuid_for = workflow_uuid;
  }

abbrev pub no_client : Bytes
no_client = ascii "Lark app client is not configured"

module _ ⦃bolt : Bolt⦄ ⦃encoding : Encoding⦄ ⦃outside : Outside⦄ ⦃texts : Texts⦄ where
  -- An update is stored, and its card sent. `context` is that of an error of the store.
  unfoldable pub send_update :
      Worker → Look → Bytes → Item → Bytes → WorkflowUpdate → Machine → BatchResult × Machine
  send_update w look context item chat u m =
      let upserted = upsert_workflow m.store u in
      let m1 = with_store upserted.1 m in
      elim upserted.0 [
        | err e ↦ workflow_failure w item (store_failure context e) m1
        | ok state ↦ send_card w look item chat state m1
      ]

module _ ⦃bolt : Bolt⦄ ⦃encoding : Encoding⦄ ⦃outside : Outside⦄ ⦃texts : Texts⦄
    ⦃events : WorkflowEvents⦄ where
  -- `sendWorkflowToChat`.
  unfoldable pub send_workflow_to_chat : Worker → Item → Bytes → Machine → BatchResult × Machine
  unfolding workflow_update send_update
  send_workflow_to_chat w item chat m =
      if not w.has_client
      then workflow_failure w item (plain_failure no_client) m
      else elim (workflow_update item) [
        | unparsed why ↦
            workflow_failure w item (plain_failure (ascii "parse workflow event: " ++ why)) m
        | parsed u ↦
            send_update w workflow_look (ascii "persist workflow state: ") item chat
              (record u { chat_id = chat }) m
      ]

  -- `sendWorkflows`.
  unfoldable pub send_workflows : Worker → Item → Machine → BatchResult × Machine
  send_workflows w item m = for_each (send_workflow_to_chat w item) (item_chat_ids item) m
