-- ===== src/Forwarder/Cards.antt =====
-- Workflow cards: `sendCardToChat` and what it calls in internal/forwarder/workflow.go.
use lark_git_webhook.Base.{not, ◌&&◌, [], ◌∷◌, ◌++◌, if◌then◌else◌}
use lark_git_webhook.Base.Bytes.{Bytes, same, ascii}
use lark_git_webhook.Bolt.{Bolt}
use lark_git_webhook.Store.Error.{Error, ok, err}
use lark_git_webhook.Store.Types.{Item, Encoding, WorkflowState}
use lark_git_webhook.Store.Queue.{complete_chat_delivery}
use lark_git_webhook.Store.Workflow.{is_empty, set_workflow_message, set_workflow_reaction}
use lark_git_webhook.Forwarder.Machine.{
  Worker, Outside, Machine, Failure, plain_failure, Card, LarkRequest, create, create_in_chat,
  change, add_reaction, delete_reaction, accepted, refused, lark_success, card_created,
  card_updated, reaction_added, reaction_deleted, BatchResult, continue_round, stop_worker, note,
  with_store, ask, continuing,
}
use lark_git_webhook.Forwarder.Batch.{
  granted, no_slot, ended, unfinished, reserve_slot, rounds, fail_items, count_delivered,
}

-- How the states of one kind of card look: the card, the reaction to a conclusion, and the
-- identifier under which the card of a key is created.
pub record Look : Type 0 where
  pub build_card : WorkflowState → Card
  pub reaction_for : Bytes → Bytes
  pub uuid_for : Bytes → Bytes

-- The texts of the store's errors.
pub record Texts : Type 0 where
  pub describe : Error → Bytes

module _ ⦃texts : Texts⦄ where
  -- `fmt.Errorf("…: %w", err)` for an error of the store.
  abbrev pub store_failure : Bytes → Error → Failure
  store_failure context e = plain_failure (context ++ texts.describe e)

-- `createInteractive`.
abbrev pub create_request : Worker → Bytes → Card → Bytes → LarkRequest
create_request w chat card uuid =
    if not (is_empty chat) && w.is_chat_workflow_client
    then create_in_chat chat card uuid
    else create card uuid

module _ ⦃bolt : Bolt⦄ ⦃encoding : Encoding⦄ ⦃outside : Outside⦄ ⦃texts : Texts⦄ where
  -- `workflowFailure`.
  abbrev pub workflow_failure : Worker → Item → Failure → Machine → BatchResult × Machine
  workflow_failure w item f m = fail_items w (item ∷ []) f m

  -- `reserveWorkflowRequest`. After an error of the store the result is that of the failure.
  unfoldable pub reserve_card : Worker → Item → Machine → BatchResult × Machine
  reserve_card w item m =
      let slot = reserve_slot (rounds m) m in
      elim slot.0 [
        | granted ↦ (continue_round, slot.1)
        | no_slot e ↦
            workflow_failure w item (store_failure (ascii "reserve rate-limit slot: ") e) slot.1
        | ended ↦ (stop_worker, slot.1)
        | unfinished ↦ (stop_worker, slot.1)
      ]

  -- The end of a delivery: the chat is done.
  unfoldable pub finish_card : Item → Bytes → Machine → BatchResult × Machine
  finish_card item chat m =
      let completed = complete_chat_delivery m.store (item ∷ []) chat in
      let m1 = with_store completed.1 m in
      elim completed.0 [
        | err e ↦ (stop_worker, m1)
        | ok _ ↦ (continue_round, count_delivered item.event m1)
      ]

  -- A reaction that Lark has added is recorded.
  unfoldable pub record_reaction :
      Worker → Item → Bytes → WorkflowState → Bytes → Bytes → Machine → BatchResult × Machine
  unfolding note finish_card
  record_reaction w item chat state reaction id m =
      let set = set_workflow_reaction m.store state.key id reaction in
      let m1 = with_store set.1 m in
      elim set.0 [
        | err e ↦ workflow_failure w item (store_failure [] e) m1
        | ok _ ↦ finish_card item chat (note lark_success (note reaction_added m1))
      ]

  unfoldable pub add_card_reaction :
      Worker → Item → Bytes → WorkflowState → Bytes → Bytes → Machine → BatchResult × Machine
  unfolding reserve_card ask continuing record_reaction finish_card
  add_card_reaction w item chat state message reaction m =
      if not (is_empty reaction) && not (same reaction state.reaction_type)
      then continuing (reserve_card w item m) (λ m1.
        let asked = ask (add_reaction message reaction) m1 in
        elim asked.0 [
          | refused f ↦ workflow_failure w item f asked.1
          | accepted id ↦ record_reaction w item chat state reaction id asked.1
        ])
      else finish_card item chat m

  abbrev pub without_reaction : WorkflowState → WorkflowState
  without_reaction state = record state { reaction_id = []; reaction_type = [] }

  -- A reaction that Lark has deleted is forgotten.
  unfoldable pub forget_reaction :
      Worker → Item → Bytes → WorkflowState → Bytes → Bytes → Machine → BatchResult × Machine
  unfolding note add_card_reaction
  forget_reaction w item chat state message reaction m =
      let set = set_workflow_reaction m.store state.key [] [] in
      let m1 = with_store set.1 m in
      elim set.0 [
        | err e ↦ workflow_failure w item (store_failure [] e) m1
        | ok _ ↦
            add_card_reaction w item chat (without_reaction state) message reaction
              (note lark_success (note reaction_deleted m1))
      ]

  -- The reaction to the state's conclusion takes the place of the one that the card has.
  unfoldable pub reconcile_reaction :
      Worker → Look → Item → Bytes → WorkflowState → Bytes → Machine → BatchResult × Machine
  unfolding reserve_card ask continuing forget_reaction add_card_reaction
  reconcile_reaction w look item chat state message m =
      let reaction = look.reaction_for state.conclusion in
      if not (is_empty state.reaction_id) && not (same reaction state.reaction_type)
      then continuing (reserve_card w item m) (λ m1.
        let asked = ask (delete_reaction message state.reaction_id) m1 in
        elim asked.0 [
          | refused f ↦ workflow_failure w item f asked.1
          | accepted _ ↦ forget_reaction w item chat state message reaction asked.1
        ])
      else add_card_reaction w item chat state message reaction m

  -- The message of a card that Lark has created is recorded.
  unfoldable pub record_message :
      Worker → Look → Item → Bytes → WorkflowState → Bytes → Machine → BatchResult × Machine
  unfolding note reconcile_reaction
  record_message w look item chat state message m =
      let set = set_workflow_message m.store state.key message in
      let m1 = with_store set.1 m in
      elim set.0 [
        | err e ↦ workflow_failure w item (store_failure [] e) m1
        | ok _ ↦
            reconcile_reaction w look item chat state message
              (note lark_success (note card_created m1))
      ]

  unfoldable pub create_card :
      Worker → Look → Item → Bytes → WorkflowState → Machine → BatchResult × Machine
  unfolding ask record_message
  create_card w look item chat state m =
      let asked = ask (create_request w chat (look.build_card state) (look.uuid_for state.key)) m in
      elim asked.0 [
        | refused f ↦ workflow_failure w item f asked.1
        | accepted message ↦ record_message w look item chat state message asked.1
      ]

  unfoldable pub update_card :
      Worker → Look → Item → Bytes → WorkflowState → Machine → BatchResult × Machine
  unfolding ask note reconcile_reaction
  update_card w look item chat state m =
      let asked = ask (change state.message_id (look.build_card state)) m in
      elim asked.0 [
        | refused f ↦ workflow_failure w item f asked.1
        | accepted _ ↦
            reconcile_reaction w look item chat state state.message_id
              (note lark_success (note card_updated asked.1))
      ]

  -- `sendCardToChat`.
  unfoldable pub send_card :
      Worker → Look → Item → Bytes → WorkflowState → Machine → BatchResult × Machine
  unfolding reserve_card continuing create_card update_card
  send_card w look item chat state m = continuing (reserve_card w item m) λ m1.
      if is_empty state.message_id
      then create_card w look item chat state m1
      else update_card w look item chat state m1
