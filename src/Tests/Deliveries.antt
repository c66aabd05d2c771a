-- ===== src/Tests/Deliveries.antt =====
-- The worker on concrete items, and its properties at them.
use lark_git_webhook.Base.{
  ◌+◌, ◌*◌, ◌/◌, ◌≤◌, ◌<◌, ◌≡◌, refl, ap, ℕ, true, false, none, some, List, [], ◌∷◌, ◌++◌, arith,
  leb, length, keep, Bool-cases, ◌⊎◌, inl, inr,
}
use lark_git_webhook.Base.Bytes.{Bytes, ascii, same, before}
use lark_git_webhook.Base.Words.{add64, sub64}
use lark_git_webhook.Bolt.Memory.{memory}
use lark_git_webhook.Bolt.Assoc.{lookup, insert}
use lark_git_webhook.Store.Error.{ok}
use lark_git_webhook.Store.Types.{Item, WorkflowState, WorkflowUpdate}
use lark_git_webhook.Store.Keys.{number_key, time_key, decode_time}
use lark_git_webhook.Store.Accounting.{active_item_bytes, rebuild_active_stats, rebuild_dead_stats}
use lark_git_webhook.Store.Failure.{handle_failure, repeats, gather, fail_loop, cool_down}
use lark_git_webhook.Store.Rate.{reserve_request}
use lark_git_webhook.Store.Workflow.{merge, workflow, workflow_key, upsert_workflow, fresh_workflow}
use lark_git_webhook.Webhook.Checks.{member}
use lark_git_webhook.Webhook.Targets.{distinct}
use lark_git_webhook.Forwarder.Machine.{
  Worker, Outside, Machine, Failure, accepted, Card, stop_round,
}
use lark_git_webhook.Forwarder.Backoff.{
  delay_of, backoff, exponential, AttemptsUpTo, Tries, backoff_lem,
}
use lark_git_webhook.Forwarder.Text.{
  trim, prefix, ellipsis, continues_at, fits, format_for_limit, trim_lem,
}
use lark_git_webhook.Forwarder.Text.Fit.{IsMonotone, Found, format_for_limit-IsBest}
use lark_git_webhook.Forwarder.Split.{split, message_size_of, concat, ArePacked, split_lem}
use lark_git_webhook.Forwarder.Targets.{
  item_chat_ids, ascending, item_chat_ids_lem, chats_of, items_of, group_by_chat,
}
use lark_git_webhook.Forwarder.Targets.Groups.{goes_to, some_goes_to, group_by_chat_lem}
use lark_git_webhook.Forwarder.Batch.{fail_items, reserve_slot, rounds, retry_delay, after_failure}
use lark_git_webhook.Forwarder.Batch.Slots.{Ends, reserve_slot-Ends}
use lark_git_webhook.Forwarder.Batch.Cooling.{failed_at, fail_items-cools}
use lark_git_webhook.Forwarder.Cards.{Texts}
use lark_git_webhook.Forwarder.Workflows.{WorkflowEvents, unparsed, no_update}
use lark_git_webhook.Forwarder.Pipelines.{PipelineEvents, rank, pipeline_advances, pipeline_key}
use lark_git_webhook.Forwarder.Pipelines.Order.{merge-advances, workflow-upsert}
use lark_git_webhook.Forwarder.Forms.{OnboardingEvents}
use lark_git_webhook.Forwarder.Rounds.{run}
use lark_git_webhook.Forwarder.Effects.{Calls}
use lark_git_webhook.Forwarder.Effects.Runs.{run-Calls}
use lark_git_webhook.Tests.Data.{sizes, empty_db, empty_store, noon, queued_item, chat}

abbrev total_length : List Bytes → ℕ
total_length [] = 0
total_length (line ∷ lines) = length line + total_length lines

pub fifth : (n delay : ℕ) → 5 * (delay / 5) ≤ delay
fifth n delay = omega arith

-- A clock that a question moves by one nanosecond, and a Lark that accepts everything.
instance abbrev pub quiet : Outside
quiet = record {
  lag = λ n. 1;
  cancelled = λ n. false;
  jitter = λ n delay. delay / 5;
  jitter_small = fifth;
  answer = λ n request. accepted (1 ∷ []);
  format = λ item. item.raw_json;
  message_size = total_length;
}

instance abbrev pub no_texts : Texts
no_texts = record { describe = λ e. [] }

abbrev no_card : Card
no_card = record { title = []; template = []; content = [] }

instance abbrev pub no_workflows : WorkflowEvents
no_workflows = record {
  decode_workflow = λ raw. unparsed [];
  make_workflow_card = λ state. no_card;
}

instance abbrev pub no_pipelines : PipelineEvents
no_pipelines = record {
  decode_pipeline = λ raw. unparsed [];
  parse_time = λ text. none;
  https_url = λ url. false;
  make_pipeline_card = λ state. no_card;
}

instance abbrev pub no_forms : OnboardingEvents
no_forms = record { event_type = λ raw. unparsed []; entered_event = λ raw. unparsed [] }

abbrev worker : Worker
worker = record {
  batch_window = 0;
  batch_max_events = 10;
  max_message_bytes = 305;
  retry_base = 2;
  retry_max = 10;
  max_attempts = 5;
  has_send = true;
  has_client = true;
  is_chat_sender = true;
  is_chat_workflow_client = true;
}

abbrev machine : Machine
machine = record { store = empty_store; now = noon; asked_of = 0; notes = []; running = false }

abbrev third_try : List Item
third_try = record (queued_item 1 true noon) { attempts = 2 } ∷ queued_item 2 true noon ∷ []

waits_eight : backoff worker third_try 1 ≡ 9
unfolding backoff
waits_eight = refl

backoff_example :
    (n : ℕ) × AttemptsUpTo n third_try
    × ((n ≡ 0) ⊎ Tries n third_try)
    × (exponential worker third_try 1 n ≤ backoff worker third_try 1)
    × (5 * backoff worker third_try 1 ≤ 6 * exponential worker third_try 1 n)
    × (backoff worker third_try 1 ≤ 10)
backoff_example = backoff_lem worker third_try 1 (omega arith) (unfold delay_of in omega arith)

cuts_before_rune : trim (97 ∷ 0xC3 ∷ 0xA9 ∷ 98 ∷ 99 ∷ 100 ∷ []) 5 ≡ 97 ∷ ellipsis
unfolding trim
cuts_before_rune = refl

trim_example :
    (length (trim (ascii "abcdef") 5) ≤ 5)
    × (length (ascii "abcdef") ≤ 5 → 3 < 5 → trim (ascii "abcdef") 5 ≡ ascii "abcdef")
    × (5 ≤ 3 → trim (ascii "abcdef") 5 ≡ [])
    × (5 < length (ascii "abcdef")
        → 3 < 5
        → (cut : ℕ) × (rest : Bytes) × (trim (ascii "abcdef") 5
            ≡ prefix cut (ascii "abcdef") ++ ellipsis)
          × (ascii "abcdef" ≡ prefix cut (ascii "abcdef") ++ rest)
          × ((cut ≡ 0) ⊎ (continues_at (ascii "abcdef") cut ≡ false)))
trim_example = trim_lem (ascii "abcdef") 5

abbrev long_line : Bytes
long_line = ascii "abcdef"

abbrev long_item : Item
long_item = record (queued_item 1 true noon) { raw_json = long_line }

-- Up to five bytes fit, and the line has six.
line_IsMonotone : IsMonotone 305 long_line
line_IsMonotone i j le h = elim (Bool-cases (leb j 5)) [
  | inl e ↦ ground (arith, (trim_lem long_line i).0)
  | inr e ↦
      let whole : trim long_line j ≡ long_line =
        (trim_lem long_line j).1 (ground arith) (ground arith) in
      absurd (ground (arith, ap (length {A = ℕ}) whole))
]

keeps_two : format_for_limit 305 long_item ≡ 97 ∷ 98 ∷ ellipsis
unfolding format_for_limit
keeps_two = refl

format_for_limit_example :
    (fits 305 long_line ≡ true → format_for_limit 305 long_item ≡ long_line)
    × (fits 305 long_line ≡ false → Found 305 long_line 7 (format_for_limit 305 long_item))
format_for_limit_example = format_for_limit-IsBest 305 long_item line_IsMonotone

-- Three bytes each: one of them fits.
two_batches :
    split 305 third_try
    ≡ (record (queued_item 1 true noon) { attempts = 2 } ∷ []) ∷ (queued_item 2 true noon ∷ []) ∷ []
unfolding split format_for_limit message_size_of
two_batches = refl

split_example : (concat (split 305 third_try) ≡ third_try) × ArePacked 305 (split 305 third_try)
split_example = split_lem 305 third_try

abbrev shared : Item
shared = record (queued_item 3 true noon) { chat_ids = ascii "b" ∷ ascii "a" ∷ ascii "b" ∷ [] }

sorts_chats : item_chat_ids shared ≡ ascii "a" ∷ ascii "b" ∷ []
unfolding item_chat_ids before same
sorts_chats = refl

item_chat_ids_example :
    (ascending (item_chat_ids shared) ≡ true)
    × (distinct (item_chat_ids shared) ≡ true)
    × (shared.chat_ids ≡ [] → item_chat_ids shared ≡ [] ∷ [])
    × ((x c : Bytes) (rest : List Bytes)
        → shared.chat_ids ≡ c ∷ rest
        → member x (item_chat_ids shared) ≡ member x shared.chat_ids)
item_chat_ids_example = item_chat_ids_lem shared

group_by_chat_example :
    (items_of (ascii "a") (group_by_chat (shared ∷ third_try))
      ≡ keep (goes_to (ascii "a")) (shared ∷ third_try))
    × (member (ascii "a") (chats_of (group_by_chat (shared ∷ third_try)))
        ≡ some_goes_to (ascii "a") (shared ∷ third_try))
group_by_chat_example = group_by_chat_lem (ascii "a") (shared ∷ third_try)

reserve_slot_example : Ends empty_db (reserve_slot (rounds machine) machine)
reserve_slot_example = reserve_slot-Ends machine empty_db refl

abbrev busy : Failure
busy = record { reason = []; retry = some (record { retry_after = 30; permanent = false }) }

stops_round : (fail_items worker third_try busy machine).0 ≡ stop_round
unfolding fail_items retry_delay backoff memory lookup insert same handle_failure number_key
    time_key decode_time active_item_bytes add64 sub64 repeats gather fail_loop rebuild_active_stats
    cool_down rebuild_dead_stats after_failure
stops_round = refl

fail_items-cools_example :
    (wait : ℕ) × ((reserve_request (fail_items worker third_try busy machine).1.store (noon + 5)).0
      ≡ ok wait)
    × (failed_at machine + 30 ≤ noon + 5 + wait)
fail_items-cools_example =
    fail_items-cools worker third_try busy machine stops_round (omega arith, omega arith) (noon + 5)
      (omega arith)

run-Calls_example : Calls empty_store (run 1 worker machine).1.store
run-Calls_example = run-Calls 1 worker machine

abbrev running : WorkflowState
running = record (fresh_workflow no_update) { status = ascii "running"; updated_at = noon }

abbrev succeeded : WorkflowUpdate
succeeded = record no_update {
  repository = ascii "group/project";
  repository_id = ascii "gitlab:7";
  suite_id = ascii "9";
  status = ascii "success";
  updated_at = noon;
  authoritative_time = true;
}

stage_five : rank (ascii "running") ≡ some 5
unfolding rank same
stage_five = refl

stage_seven : rank (ascii "success") ≡ some 7
unfolding rank same
stage_seven = refl

success_advances : pipeline_advances running succeeded ≡ true
unfolding pipeline_advances rank same
success_advances = refl

merge-advances_example :
    (later : ℕ) × (rank (merge succeeded running).status ≡ some later) × (5 ≤ later)
merge-advances_example =
    merge-advances running succeeded 5 7 success_advances refl stage_five stage_seven

abbrev in_chat : WorkflowUpdate
in_chat = record succeeded { chat_id = chat }

abbrev stored : WorkflowState
stored = record (merge in_chat (fresh_workflow in_chat)) { key = workflow_key in_chat }

upserts : upsert_workflow empty_store in_chat ≡ (ok stored, (upsert_workflow empty_store in_chat).1)
unfolding upsert_workflow memory lookup insert
upserts = refl

workflow-upsert_example :
    workflow (upsert_workflow empty_store in_chat).1 (pipeline_key chat succeeded) ≡ ok stored
workflow-upsert_example =
    workflow-upsert empty_store (upsert_workflow empty_store in_chat).1 chat succeeded stored
      upserts
