-- ===== src/Forwarder/Batch.antt =====
-- Sending a batch: `sendBatchToChat`, `sendOrdinary` and what they call in
-- internal/forwarder/worker.go.
pub mod Slots
pub mod Cooling
use lark_git_webhook.Base.{
  ◌+◌, ◌*◌, ℕ, zero, suc, Bool, true, false, not, ◌&&◌, Option, none, some, List, [], ◌∷◌, ltb,
  ◌==◌, if◌then◌else◌, length,
}
use lark_git_webhook.Base.Bytes.{Bytes, same, ascii, after_prefix}
use lark_git_webhook.Bolt.{Bolt}
use lark_git_webhook.Store.Error.{Error, ok, err}
use lark_git_webhook.Store.Types.{Item, Encoding, FailureResult, second}
use lark_git_webhook.Store.Failure.{handle_failure}
use lark_git_webhook.Store.Queue.{complete_chat_delivery}
use lark_git_webhook.Store.Rate.{reserve_request}
use lark_git_webhook.Forwarder.Machine.{
  Worker, Outside, Machine, Failure, RetryError, LarkRequest, by_send, to_chat, Reply, accepted,
  refused, Note, rate_wait, lark_success, lark_failure, retry, event_delivered,
  gitlab_event_delivered, BatchResult, continue_round, stop_round, stop_worker, crashed, note,
  with_store, read_clock, wait_context, ask, for_each,
}
use lark_git_webhook.Forwarder.Backoff.{backoff, delay_of}
use lark_git_webhook.Forwarder.Split.{split, lines_of}
use lark_git_webhook.Forwarder.Targets.{chats_of, group_by_chat, items_of, sort_strings}

-- How the loop for a slot of the rate limit ends. `unfinished` is a loop that ran out of rounds.
pub data Slot : Type 0 where
  granted : Slot
  no_slot : Error → Slot
  ended : Slot
  unfinished : Slot

abbrev pub retry_after_of : Failure → ℕ
retry_after_of f = elim f.retry [ none ↦ 0 | some r ↦ r.retry_after ]

abbrev pub permanent_of : Failure → Bool
permanent_of f = elim f.retry [ none ↦ false | some r ↦ r.permanent ]

-- Which sender of the client a message goes to; `none` is a nil `SendFunc`.
unfoldable pub route : Worker → Bytes → List Bytes → Option LarkRequest
route w chat lines =
    if not (same chat []) && w.is_chat_sender
    then some (to_chat chat lines)
    else if w.is_chat_sender && not w.has_send
    then some (to_chat chat lines)
    else if w.has_send
    then some (by_send lines)
    else none

abbrev pub is_gitlab : Bytes → Bool
is_gitlab event = elim (after_prefix (ascii "gitlab:") event) [ none ↦ false | some rest ↦ true ]

module _ ⦃bolt : Bolt⦄ where
  open bolt use {entries}

  -- `countDelivered`.
  unfoldable pub count_delivered : Bytes → Machine → Machine
  unfolding note after_prefix
  count_delivered event m =
      if is_gitlab event
      then note (gitlab_event_delivered event) m
      else note (event_delivered event) m

  unfoldable pub count_each : List Item → Machine → Machine
  unfolding count_delivered
  count_each [] m = m
  count_each (item ∷ items) m = count_each items (count_delivered item.event m)

  -- The rounds that the loop for a slot is given.
  unfoldable pub rounds : Machine → ℕ
  rounds m = elim m.store.db [ none ↦ 1 | some db ↦ 2 * length (entries db.rate_history) + 2 ]

  -- What the worker makes of the store's answer to a failure.
  unfoldable pub after_failure : Failure → FailureResult → Machine → BatchResult × Machine
  unfolding note
  after_failure f r m = (
    if ltb 0 (retry_after_of f) then stop_round else continue_round,
    if ltb 0 r.retried then note retry m else m,
  )

module _ ⦃bolt : Bolt⦄ ⦃outside : Outside⦄ where
  -- The loop that waits for a slot.
  unfoldable pub reserve_slot : ℕ → Machine → Slot × Machine
  unfolding read_clock note wait_context
  reserve_slot zero m = (unfinished, m)
  reserve_slot (suc fuel) m =
      let m1 = read_clock m in
      let reserved = reserve_request m1.store m1.now in
      let m2 = with_store reserved.1 m1 in
      elim reserved.0 [
        | err e ↦ (no_slot e, m2)
        | ok wait ↦ elim (wait == 0) [
          | true ↦ (granted, m2)
          | false ↦
              (let woke = wait_context wait (note (rate_wait wait) m2) in
                elim woke.0 [ true ↦ reserve_slot fuel woke.1 | false ↦ (ended, woke.1) ])
        ]
      ]

module _ ⦃bolt : Bolt⦄ ⦃encoding : Encoding⦄ ⦃outside : Outside⦄ where
  -- The delay before the next attempt: at least what Lark asks for.
  unfoldable pub retry_delay : Worker → List Item → Failure → Machine → ℕ
  retry_delay w items f m =
      let delay = backoff w items (outside.jitter m.asked_of (delay_of w items)) in
      if ltb delay (retry_after_of f) then retry_after_of f else delay

  -- A delivery that failed, of one item or a batch. The clock is read for each of the two times.
  unfoldable pub fail_items : Worker → List Item → Failure → Machine → BatchResult × Machine
  unfolding note read_clock
  fail_items w items f m =
      let m1 = note lark_failure m in
      let delay = retry_delay w items f m1 in
      let m2 = read_clock (record m1 { asked_of = m1.asked_of + 1 }) in
      let m3 = read_clock m2 in
      let handled =
        handle_failure m3.store items m2.now (m3.now + delay) f.reason (retry_after_of f)
          w.max_attempts (permanent_of f) in
      let m4 = with_store handled.1 m3 in
      elim handled.0 [ err e ↦ (stop_worker, m4) | ok r ↦ after_failure f r m4 ]

  -- A batch that Lark accepted.
  unfoldable pub complete_batch : Bytes → List Item → Machine → BatchResult × Machine
  unfolding note count_each
  complete_batch chat items m =
      let completed = complete_chat_delivery m.store items chat in
      let m1 = with_store completed.1 m in
      elim completed.0 [
        | err e ↦ (stop_worker, m1)
        | ok _ ↦ (continue_round, count_each items (note lark_success m1))
      ]

  -- `sendToChat`, and what follows it.
  unfoldable pub deliver_batch : Worker → Bytes → List Item → Machine → BatchResult × Machine
  unfolding route ask
  deliver_batch w chat items m = elim (route w chat (lines_of w.max_message_bytes items)) [
    | none ↦ (crashed, m)
    | some request ↦
        (let asked = ask request m in
          elim asked.0 [
            | accepted _ ↦ complete_batch chat items asked.1
            | refused f ↦ fail_items w items f asked.1
          ])
  ]

  -- `sendBatchToChat`.
  unfoldable pub send_batch_to_chat : Worker → Bytes → List Item → Machine → BatchResult × Machine
  unfolding wait_context
  send_batch_to_chat w chat items m =
      let slot = reserve_slot (rounds m) m in
      elim slot.0 [
        | granted ↦ deliver_batch w chat items slot.1
        | no_slot e ↦
            (let woke = wait_context second slot.1 in
              (if woke.0 then continue_round else stop_worker, woke.1))
        | ended ↦ (stop_worker, slot.1)
        | unfinished ↦ (stop_worker, slot.1)
      ]

  -- The batches of one chat.
  unfoldable pub send_chat : Worker → List Item → Bytes → Machine → BatchResult × Machine
  send_chat w items chat m =
      for_each (send_batch_to_chat w chat)
        (split w.max_message_bytes (items_of chat (group_by_chat items))) m

  -- `sendOrdinary`.
  unfoldable pub send_ordinary : Worker → List Item → Machine → BatchResult × Machine
  send_ordinary w items m =
      if length items == 0
      then (continue_round, m)
      else for_each (send_chat w items) (sort_strings (chats_of (group_by_chat items))) m
