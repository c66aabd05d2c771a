-- ===== src/Forwarder/Machine.antt =====
-- What the worker of internal/forwarder/worker.go runs against: the clock, the context, the random
-- numbers, the Lark client, the store, and what the metrics count.
use lark_git_webhook.Base.{◌+◌, ◌*◌, ◌≤◌, ℕ, Bool, not, Option, none, List, [], ◌∷◌, if◌then◌else◌}
use lark_git_webhook.Base.Bytes.{Bytes}
use lark_git_webhook.Bolt.{Bolt}
use lark_git_webhook.Store.Types.{Time, Item}
use lark_git_webhook.Store.Db.{Store}

-- `lark.RetryError`: what an error tells of the next attempt.
pub record RetryError : Type 0 where
  pub retry_after : ℕ
  pub permanent : Bool

-- An error of a delivery: its text, and the `RetryError` in its chain, if there is one.
pub record Failure : Type 0 where
  pub reason : Bytes
  pub retry : Option RetryError

-- `fmt.Errorf` and `errors.New` with no `RetryError`.
abbrev pub plain_failure : Bytes → Failure
plain_failure reason = record { reason = reason; retry = none }

-- The card that a workflow state is shown as.
pub record Card : Type 0 where
  pub title : Bytes
  pub template : Bytes
  pub content : Bytes

-- The calls of the Lark client. `by_send` is the worker's `SendFunc`; a message is its lines.
pub data LarkRequest : Type 0 where
  by_send : List Bytes → LarkRequest
  to_chat : Bytes → List Bytes → LarkRequest
  create : Card → Bytes → LarkRequest
  create_in_chat : Bytes → Card → Bytes → LarkRequest
  create_form : Bytes → Bytes → LarkRequest
  change : Bytes → Card → LarkRequest
  add_reaction : Bytes → Bytes → LarkRequest
  delete_reaction : Bytes → Bytes → LarkRequest

-- A call that Lark accepts answers with an identifier, empty where the call has none.
pub data Reply : Type 0 where
  accepted : Bytes → Reply
  refused : Failure → Reply

-- What is noted: each call of Lark with its answer, and the metrics.
pub data Note : Type 0 where
  asked : LarkRequest → Reply → Note
  rate_wait : ℕ → Note
  lark_success : Note
  lark_failure : Note
  retry : Note
  event_delivered : Bytes → Note
  gitlab_event_delivered : Bytes → Note
  card_created : Note
  card_updated : Note
  reaction_added : Note
  reaction_deleted : Note

-- `batchResult`; `crashed` is a call of a nil `SendFunc`.
pub data BatchResult : Type 0 where
  continue_round : BatchResult
  stop_round : BatchResult
  stop_worker : BatchResult
  crashed : BatchResult

-- The fields of `Worker` that do not change, and which interfaces its client has.
pub record Worker : Type 0 where
  pub batch_window : ℕ
  pub batch_max_events : ℕ
  pub max_message_bytes : ℕ
  pub retry_base : ℕ
  pub retry_max : ℕ
  pub max_attempts : ℕ
  pub has_send : Bool
  pub has_client : Bool
  pub is_chat_sender : Bool
  pub is_chat_workflow_client : Bool

-- What is outside of the program, by the number of the question: how far the clock moved, whether
-- the context ended a wait, the random part of a delay, which is at most a fifth of it, and what
-- Lark answers. `format` is the text of an item, and `message_size` the size of a request.
pub record Outside : Type 0 where
  pub lag : ℕ → ℕ
  pub cancelled : ℕ → Bool
  pub jitter : ℕ → ℕ → ℕ
  pub jitter_small : (n delay : ℕ) → 5 * jitter n delay ≤ delay
  pub answer : ℕ → LarkRequest → Reply
  pub format : Item → Bytes
  pub message_size : List Bytes → ℕ

module _ ⦃bolt : Bolt⦄ where
  -- The worker at work: `asked_of` counts the questions, and `notes` has the newest first.
  pub record Machine : Type 0 where
    pub store : Store
    pub now : Time
    pub asked_of : ℕ
    pub notes : List Note
    pub running : Bool

  unfoldable pub note : Note → Machine → Machine
  note n m = record m { notes = n ∷ m.notes }

  abbrev pub with_store : Store → Machine → Machine
  with_store s m = record m { store = s }

  -- `if result := …; result != continueRound { return result }`.
  unfoldable pub continuing :
      BatchResult × Machine → (Machine → BatchResult × Machine) → BatchResult × Machine
  continuing (continue_round, m) next = next m
  continuing (stop_round, m) next = (stop_round, m)
  continuing (stop_worker, m) next = (stop_worker, m)
  continuing (crashed, m) next = (crashed, m)

  -- A loop of such calls.
  unfoldable pub for_each :
      {A : Type 0}
      → (A → Machine → BatchResult × Machine)
      → List A
      → Machine
      → BatchResult × Machine
  unfolding continuing
  for_each call [] m = (continue_round, m)
  for_each call (a ∷ rest) m = continuing (call a m) (for_each call rest)

module _ ⦃bolt : Bolt⦄ ⦃outside : Outside⦄ where
  -- `time.Now()`: the time is the new machine's.
  unfoldable pub read_clock : Machine → Machine
  read_clock m = record m { now = m.now + outside.lag m.asked_of; asked_of = m.asked_of + 1 }

  -- `waitContext`: the timer never fires early.
  unfoldable pub wait_context : ℕ → Machine → Bool × Machine
  wait_context delay m = (
    not (outside.cancelled m.asked_of),
    record m {
      now =
          if outside.cancelled m.asked_of
          then m.now + outside.lag m.asked_of
          else m.now + delay + outside.lag m.asked_of;
      asked_of = m.asked_of + 1;
    },
  )

  unfoldable pub ask : LarkRequest → Machine → Reply × Machine
  unfolding note
  ask r m =
      let reply = outside.answer m.asked_of r in
      (reply, record (note (asked r reply) m) { asked_of = m.asked_of + 1 })
