-- ===== src/Forwarder/Pipelines.antt =====
-- GitLab pipeline events: internal/forwarder/gitlab_pipeline.go.
pub mod Order
use lark_git_webhook.Base.{
  ◌+◌, ℕ, Bool, true, false, not, ◌&&◌, ◌||◌, Option, none, some, [], ◌∷◌, ◌++◌, ltb, ◌==◌,
  if◌then◌else◌,
}
use lark_git_webhook.Base.Bytes.{Bytes, same, ascii}
use lark_git_webhook.Bolt.{Bolt}
use lark_git_webhook.Bolt.Assoc.{Entries, lookup}
use lark_git_webhook.Store.Error.{Error, Result, ok, err, not_found}
use lark_git_webhook.Store.Types.{Time, Item, Encoding, WorkflowState, WorkflowUpdate}
use lark_git_webhook.Store.Queue.{complete_chat_delivery}
use lark_git_webhook.Store.Workflow.{is_empty, or_keep, workflow}
use lark_git_webhook.Forwarder.Machine.{
  Worker, Outside, Machine, plain_failure, Card, BatchResult, continue_round, stop_worker,
  with_store, for_each,
}
use lark_git_webhook.Forwarder.Targets.{item_chat_ids}
use lark_git_webhook.Forwarder.Cards.{Look, Texts, store_failure, workflow_failure}
use lark_git_webhook.Forwarder.Workflows.{
  Parsed, parsed, unparsed, no_update, sprint, digest_name, no_client, send_update,
}

-- The fields of `gitlabPipelinePayload` that are used; those that the JSON leaves out are zero.
pub record PipelinePayload : Type 0 where
  pub pipeline_id : ℕ
  pub name : Bytes
  pub head_ref : Bytes
  pub sha : Bytes
  pub status : Bytes
  pub created_at : Bytes
  pub finished_at : Bytes
  pub url : Bytes
  pub project_id : ℕ
  pub path_with_namespace : Bytes
  pub web_url : Bytes

-- `gitlabPipelineStatusRank`.
unfoldable pub status_ranks : Entries ℕ
status_ranks =
    (ascii "created", 0)
    ∷ (ascii "waiting_for_resource", 1)
    ∷ (ascii "preparing", 2)
    ∷ (ascii "waiting_for_callback", 3)
    ∷ (ascii "pending", 4)
    ∷ (ascii "scheduled", 4)
    ∷ (ascii "manual", 4)
    ∷ (ascii "running", 5)
    ∷ (ascii "canceling", 6)
    ∷ (ascii "success", 7)
    ∷ (ascii "failed", 7)
    ∷ (ascii "skipped", 7)
    ∷ (ascii "canceled", 8)
    ∷ []

unfoldable pub rank : Bytes → Option ℕ
unfolding lookup status_ranks
rank status = lookup status status_ranks

-- `gitlabPipelineTerminal`.
unfoldable pub is_pipeline_terminal : Bytes → Bool
is_pipeline_terminal status =
    same status (ascii "success")
    || (same status (ascii "failed")
        || (same status (ascii "canceled") || same status (ascii "skipped")))

-- What the pipeline events use of encoding/json, time and net/url, and the card of a state.
pub record PipelineEvents : Type 0 where
  pub decode_pipeline : Bytes → Parsed PipelinePayload
  pub parse_time : Bytes → Option Time
  pub https_url : Bytes → Bool
  pub make_pipeline_card : WorkflowState → Card

-- `gitlabPipelineKey`.
unfoldable pub pipeline_key : Bytes → WorkflowUpdate → Bytes
pipeline_key chat u =
    let repository_id = if is_empty u.repository_id then u.repository else u.repository_id in
    let key = repository_id ++ (0 ∷ u.suite_id) in if is_empty chat then key else chat ++ (0 ∷ key)

-- `gitlabPipelineAdvances`.
unfoldable pub pipeline_advances : WorkflowState → WorkflowUpdate → Bool
pipeline_advances s u =
    if is_empty s.status || s.updated_at == 0 then true else elim (rank u.status) [
      | none ↦ ltb s.updated_at u.updated_at
      | some incoming ↦ elim (rank s.status) [
        | none ↦ true
        | some stored ↦
            (if ltb stored incoming
              then true
              else if ltb incoming stored
              then false
              else ltb s.updated_at u.updated_at)
      ]
    ]

-- `errors.Is(err, store.ErrNotFound)`.
abbrev pub is_not_found : Error → Bool
is_not_found not_found = true
is_not_found _ = false

-- `gitlabPipelineReaction`.
unfoldable pub pipeline_reaction : Bytes → Bytes
pipeline_reaction conclusion =
    if same conclusion (ascii "success")
    then ascii "DONE"
    else if same conclusion (ascii "failed")
    then ascii "ERROR"
    else if same conclusion (ascii "canceled") || same conclusion (ascii "skipped")
    then ascii "CrossMark"
    else []

module _ ⦃events : PipelineEvents⦄ where
  -- `gitlabPipelineDerivedURL`.
  unfoldable pub derived_url : PipelinePayload → Bytes
  unfolding sprint
  derived_url p =
      let url = p.web_url ++ (ascii "/-/pipelines/" ++ sprint p.pipeline_id) in
      if is_empty p.web_url || p.pipeline_id == 0
      then []
      else if not (events.https_url url)
      then []
      else url

  abbrev pub known_time : Option Time → Option Time → Option Time
  known_time (some at) other = some at
  known_time none other = other

  -- `gitlabPipelineTime`: the time, if there is one.
  unfoldable pub pipeline_time : PipelinePayload → Option Time
  unfolding is_pipeline_terminal
  pipeline_time p =
      known_time (if is_pipeline_terminal p.status then events.parse_time p.finished_at else none)
        (events.parse_time p.created_at)

  abbrev pub at_time : Option Time → WorkflowUpdate → WorkflowUpdate
  at_time none u = u
  at_time (some at) u = record u { updated_at = at; authoritative_time = true }

  -- The update of a payload that names its project and pipeline.
  unfoldable pub pipeline_update_of : PipelinePayload → WorkflowUpdate
  unfolding derived_url pipeline_time
  pipeline_update_of p = at_time (pipeline_time p) (record no_update {
    repository_id = ascii "gitlab:" ++ sprint p.project_id;
    repository = p.path_with_namespace;
    suite_id = sprint p.pipeline_id;
    workflow_name = p.name;
    status = p.status;
    head_branch = p.head_ref;
    head_sha = p.sha;
    url = or_keep p.url (derived_url p);
    conclusion = if is_pipeline_terminal p.status then p.status else [];
  })

  -- `gitlabPipelineUpdate`.
  unfoldable pub pipeline_update : Item → Parsed WorkflowUpdate
  unfolding pipeline_update_of
  pipeline_update item = elim (events.decode_pipeline item.raw_json) [
    | unparsed why ↦ unparsed why
    | parsed p ↦
        (if p.project_id == 0 || p.pipeline_id == 0
          then unparsed (ascii "pipeline event missing project or pipeline ID")
          else parsed (pipeline_update_of p))
  ]

module _ ⦃encoding : Encoding⦄ ⦃events : PipelineEvents⦄ where
  -- `gitlabPipelineUUID`.
  unfoldable pub pipeline_uuid : Bytes → Bytes
  pipeline_uuid key = digest_name (ascii "gitlab-pipeline-") key

  abbrev pub pipeline_look : Look
  pipeline_look = record {
    build_card = events.make_pipeline_card;
    reaction_for = pipeline_reaction;
    uuid_for = pipeline_uuid;
  }

module _ ⦃bolt : Bolt⦄ ⦃encoding : Encoding⦄ where
  -- A stale event is done without a call of Lark.
  unfoldable pub drain_pipeline : Item → Bytes → Machine → BatchResult × Machine
  drain_pipeline item chat m =
      let completed = complete_chat_delivery m.store (item ∷ []) chat in
      let m1 = with_store completed.1 m in
      elim completed.0 [ err e ↦ (stop_worker, m1) | ok _ ↦ (continue_round, m1) ]

module _ ⦃bolt : Bolt⦄ ⦃encoding : Encoding⦄ ⦃outside : Outside⦄ ⦃texts : Texts⦄
    ⦃events : PipelineEvents⦄ where
  abbrev pub send_pipeline :
      Worker → Item → Bytes → WorkflowUpdate → Machine → BatchResult × Machine
  send_pipeline w item chat u m =
      send_update w pipeline_look (ascii "persist pipeline state: ") item chat u m

  -- An update, by what is stored under its key.
  unfoldable pub advance_pipeline :
      Worker → Item → Bytes → WorkflowUpdate → Machine → BatchResult × Machine
  unfolding drain_pipeline
  advance_pipeline w item chat u m = elim (workflow m.store (pipeline_key chat u)) [
    | err e ↦
        (if is_not_found e
          then send_pipeline w item chat u m
          else workflow_failure w item (store_failure (ascii "read pipeline state: ") e) m)
    | ok existing ↦
        (if pipeline_advances existing u
          then send_pipeline w item chat u m
          else drain_pipeline item chat m)
  ]

  -- `sendGitlabPipeline`.
  unfoldable pub send_gitlab_pipeline : Worker → Item → Bytes → Machine → BatchResult × Machine
  unfolding pipeline_update
  send_gitlab_pipeline w item chat m =
      if not w.has_client
      then workflow_failure w item (plain_failure no_client) m
      else elim (pipeline_update item) [
        | unparsed why ↦
            workflow_failure w item (plain_failure (ascii "parse pipeline event: " ++ why)) m
        | parsed u ↦ advance_pipeline w item chat (record u { chat_id = chat }) m
      ]

  -- `sendGitlabPipelines`.
  unfoldable pub send_gitlab_pipelines : Worker → Item → Machine → BatchResult × Machine
  send_gitlab_pipelines w item m = for_each (send_gitlab_pipeline w item) (item_chat_ids item) m
