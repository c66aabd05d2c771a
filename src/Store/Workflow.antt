-- ===== src/Store/Workflow.antt =====
-- Workflow cards of internal/store/store.go: `UpsertWorkflow` and what else writes their state.
pub mod Merge
pub mod Again
use lark_git_webhook.Base.{
  Bool, true, false, not, ◌&&◌, ◌||◌, Option, none, some, [], ◌∷◌, ◌++◌, ltb, leb, ◌==◌,
  if◌then◌else◌,
}
use lark_git_webhook.Base.Bytes.{Bytes, same, ascii}
use lark_git_webhook.Base.Words.{add64}
use lark_git_webhook.Bolt.{Bolt}
use lark_git_webhook.Bolt.Assoc.{lookup, insert}
use lark_git_webhook.Store.Error.{Result, ok, err, ◌>>=◌, not_found, missing_argument}
use lark_git_webhook.Store.Types.{
  Time, WorkflowState, WorkflowCheck, WorkflowUpdate, json, unmarshal,
}
use lark_git_webhook.Store.Db.{Db, Store, update, view}

abbrev pub is_empty : Bytes → Bool
is_empty [] = true
is_empty (b ∷ bs) = false

-- `if update != "" { state = update }`.
abbrev pub or_keep : Bytes → Bytes → Bytes
or_keep new old = if is_empty new then old else new

abbrev pub completed : Bytes
completed = ascii "completed"

unfoldable pub is_workflow_terminal : Bytes → Bytes → Bool
is_workflow_terminal status conclusion = same status completed || not (is_empty conclusion)

unfoldable pub workflow_check_time : WorkflowCheck → Time
workflow_check_time c =
    if c.completed_at == 0
    then (if c.started_at == 0 then c.updated_at else c.started_at)
    else c.completed_at

-- The zero `WorkflowCheck`, which a map returns for a missing key.
abbrev pub no_check : WorkflowCheck
no_check = record {
  id = [];
  name = [];
  status = [];
  conclusion = [];
  details_url = [];
  started_at = 0;
  completed_at = 0;
  updated_at = 0;
}

abbrev pub has_time : WorkflowUpdate → Bool
has_time u = u.authoritative_time || not (u.updated_at == 0)

-- Whether the workflow fields of the update are taken.
unfoldable pub accepts : WorkflowUpdate → WorkflowState → Bool
unfolding is_workflow_terminal
accepts u s =
    if ltb s.run_attempt u.run_attempt
    then true
    else if has_time u
    then not (ltb u.updated_at s.updated_at)
    else not (
        is_workflow_terminal s.status s.conclusion
        && (not (is_workflow_terminal u.status u.conclusion) && leb u.run_attempt s.run_attempt))

-- The names, links and identifiers that an accepted update carries.
unfoldable pub take_names : WorkflowUpdate → WorkflowState → WorkflowState
take_names u s = record s {
  repository = or_keep u.repository s.repository;
  workflow_name = or_keep u.workflow_name s.workflow_name;
  url = or_keep u.url s.url;
  head_branch = or_keep u.head_branch s.head_branch;
  head_sha = or_keep u.head_sha s.head_sha;
  run_id = if u.run_id == 0 then s.run_id else u.run_id;
}

-- A higher attempt starts over.
unfoldable pub start_attempt : WorkflowUpdate → WorkflowState → WorkflowState
start_attempt u s =
    if ltb s.run_attempt u.run_attempt
    then record s {
      run_attempt = u.run_attempt;
      attempt_started_at =
          if u.run_started_at == 0 && has_time u then u.updated_at else u.run_started_at;
      checks = if ltb 0 s.run_attempt then [] else s.checks;
      conclusion = [];
    }
    else s

unfoldable pub take_status : WorkflowUpdate → WorkflowState → WorkflowState
take_status u s = record s {
  status = or_keep u.status s.status;
  conclusion =
      if not (is_empty u.conclusion) || same u.status completed then u.conclusion else s.conclusion;
  updated_at = if has_time u then u.updated_at else s.updated_at;
}

unfoldable pub take_update : WorkflowUpdate → WorkflowState → WorkflowState
unfolding accepts take_names start_attempt take_status
take_update u s = if accepts u s then take_status u (start_attempt u (take_names u s)) else s

-- Whether a check can belong to the current attempt.
unfoldable pub valid_attempt : WorkflowState → Time → Bool
valid_attempt s at =
    if not (at == 0) && (not (s.attempt_started_at == 0) && ltb at s.attempt_started_at)
    then false
    else not (ltb 1 s.run_attempt && at == 0)

-- Whether a check replaces the one that is stored.
unfoldable pub newer_check : Option WorkflowCheck → WorkflowCheck → Bool
unfolding workflow_check_time is_workflow_terminal
newer_check none c = true
newer_check (some old) c =
    (not (workflow_check_time c == 0)
      && not (ltb (workflow_check_time c) (workflow_check_time old)))
    || (not (is_workflow_terminal old.status old.conclusion)
        && is_workflow_terminal c.status c.conclusion)

unfoldable pub put_check : WorkflowCheck → WorkflowState → WorkflowState
unfolding valid_attempt newer_check workflow_check_time lookup insert
put_check c s =
    if valid_attempt s (workflow_check_time c) && newer_check (lookup c.id s.checks) c
    then record s { checks = insert c.id c s.checks }
    else s

unfoldable pub take_check : Option WorkflowCheck → WorkflowState → WorkflowState
unfolding put_check
take_check none s = s
take_check (some c) s = if is_empty c.id then s else put_check c s

-- The merge of an update into a state.
unfoldable pub merge : WorkflowUpdate → WorkflowState → WorkflowState
unfolding take_update take_check
merge u s =
    let s' = take_check u.check (take_update u s) in record s' { revision = add64 s'.revision 1 }

-- `update.RepositoryID` after its default.
abbrev pub repository_id_of : WorkflowUpdate → Bytes
repository_id_of u = or_keep u.repository_id u.repository

unfoldable pub workflow_key : WorkflowUpdate → Bytes
workflow_key u =
    let key = repository_id_of u ++ (0 ∷ u.suite_id) in
    if is_empty u.chat_id then key else u.chat_id ++ (0 ∷ key)

abbrev pub fresh_workflow : WorkflowUpdate → WorkflowState
fresh_workflow u = record {
  key = [];
  chat_id = u.chat_id;
  repository_id = repository_id_of u;
  repository = u.repository;
  suite_id = u.suite_id;
  run_id = 0;
  run_attempt = 0;
  attempt_started_at = 0;
  workflow_name = [];
  url = [];
  head_branch = [];
  head_sha = [];
  status = [];
  conclusion = [];
  updated_at = 0;
  message_id = [];
  reaction_id = [];
  reaction_type = [];
  checks = [];
  revision = 0;
}

module _ ⦃bolt : Bolt⦄ where
  open bolt use {get, put}

  unfoldable pub stored_workflow : WorkflowUpdate → Db → Result WorkflowState
  unfolding workflow_key
  stored_workflow u db = elim (get db.workflow_state (workflow_key u)) [
    | none ↦ ok (fresh_workflow u)
    | some value ↦ unmarshal value
  ]

  unfoldable pub upsert_workflow_tx : WorkflowUpdate → Db → Result (WorkflowState × Db)
  unfolding stored_workflow merge
  upsert_workflow_tx u db =
      if is_empty u.repository || is_empty u.suite_id then err missing_argument else (do
        old ← stored_workflow u db
        let new = merge u old
        ok (
          record new { key = workflow_key u },
          record db { workflow_state = put db.workflow_state (workflow_key u) (json new) },
        ))

  unfoldable pub upsert_workflow : Store → WorkflowUpdate → Result WorkflowState × Store
  unfolding upsert_workflow_tx
  upsert_workflow s u = update s (upsert_workflow_tx u)

  unfoldable pub update_workflow_tx :
      Bytes → (WorkflowState → WorkflowState) → Db → Result (Unit {0} × Db)
  update_workflow_tx key change db = elim (get db.workflow_state key) [
    | none ↦ err not_found
    | some value ↦ (do
      state ← unmarshal value
      ok (tt, record db { workflow_state = put db.workflow_state key (json (change state)) }))
  ]

  unfoldable pub update_workflow :
      Store → Bytes → (WorkflowState → WorkflowState) → Result (Unit {0}) × Store
  unfolding update_workflow_tx
  update_workflow s key change = update s (update_workflow_tx key change)

  unfoldable pub set_workflow_message : Store → Bytes → Bytes → Result (Unit {0}) × Store
  unfolding update_workflow
  set_workflow_message s key message =
      update_workflow s key λ state. record state { message_id = message }

  unfoldable pub set_workflow_reaction : Store → Bytes → Bytes → Bytes → Result (Unit {0}) × Store
  unfolding update_workflow
  set_workflow_reaction s key reaction kind =
      update_workflow s key λ state. record state { reaction_id = reaction; reaction_type = kind }

  unfoldable pub workflow : Store → Bytes → Result WorkflowState
  workflow s key = view s λ db. elim (get db.workflow_state key) [
    | none ↦ err not_found
    | some value ↦ (do state ← unmarshal value; ok (record state { key = key }))
  ]
