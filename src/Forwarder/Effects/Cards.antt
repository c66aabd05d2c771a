-- ===== src/Forwarder/Effects/Cards.antt =====
-- What the card of a delivery, in internal/forwarder/workflow.go, does to the store.
use lark_git_webhook.Base.{◌≡◌, refl, sym, subst, not, ◌&&◌, [], ◌∷◌, Bool-cases, inl, inr}
use lark_git_webhook.Base.Bytes.{Bytes, same}
use lark_git_webhook.Bolt.{Bolt}
use lark_git_webhook.Store.Types.{Item, Encoding, WorkflowState}
use lark_git_webhook.Store.Queue.{complete_chat_delivery}
use lark_git_webhook.Store.Workflow.{is_empty, set_workflow_message, set_workflow_reaction}
use lark_git_webhook.Store.Call.{Call, after}
use lark_git_webhook.Forwarder.Machine.{
  Worker, Outside, Machine, change, add_reaction, delete_reaction, note, with_store, ask,
}
use lark_git_webhook.Forwarder.Batch.{
  Slot, granted, no_slot, ended, unfinished, reserve_slot, rounds,
}
use lark_git_webhook.Forwarder.Cards.{
  Look, Texts, create_request, reserve_card, finish_card, record_reaction, add_card_reaction,
  without_reaction, forget_reaction, reconcile_reaction, record_message, create_card, update_card,
  send_card,
}
use lark_git_webhook.Forwarder.Effects.{
  Calls, one_call, Calls-trans, Moves, Result-cases, Reply-cases, continuing-Moves,
  reserve_slot-Moves, fail_items-Moves, count_delivered-store,
}

module _ ⦃bolt : Bolt⦄ ⦃encoding : Encoding⦄ ⦃outside : Outside⦄ ⦃texts : Texts⦄ where
  reserve_card-Moves : (w : Worker) (item : Item) (m : Machine) → Moves m (reserve_card w item m)
  unfolding reserve_card
  reserve_card-Moves w item m = go slot.0 refl
    where
      slot : Slot × Machine
      slot = reserve_slot (rounds m) m

      go : (s : Slot) → slot.0 ≡ s → Moves m (reserve_card w item m)
      go granted e = rw (e, reserve_card) (reserve_slot-Moves (rounds m) m)
      go (no_slot why) e =
          rw (e, reserve_card)
            (Calls-trans (reserve_slot-Moves (rounds m) m)
              (fail_items-Moves w (item ∷ []) _ slot.1))
      go ended e = rw (e, reserve_card) (reserve_slot-Moves (rounds m) m)
      go unfinished e = rw (e, reserve_card) (reserve_slot-Moves (rounds m) m)

  finish_card-Moves : (item : Item) (chat : Bytes) (m : Machine) → Moves m (finish_card item chat m)
  unfolding finish_card after
  finish_card-Moves item chat m =
      let completed = complete_chat_delivery m.store (item ∷ []) chat in
      let once = one_call {s = m.store} (Call.completes (item ∷ []) chat) tt in
      elim (Result-cases completed.0) [
        | inl (e, h) ↦ rw (h, finish_card) once
        | inr (u, h) ↦
            rw (h, finish_card)
              (subst (Calls m.store)
                (sym (count_delivered-store item.event (with_store completed.1 m))) once)
      ]

  record_reaction-Moves :
      (w : Worker) (item : Item) (chat : Bytes) (state : WorkflowState) (reaction id : Bytes)
      (m : Machine)
      → Moves m (record_reaction w item chat state reaction id m)
  unfolding record_reaction note after
  record_reaction-Moves w item chat state reaction id m =
      let set = set_workflow_reaction m.store state.key id reaction in
      let once = one_call {s = m.store} (Call.sets_reaction state.key id reaction) tt in
      elim (Result-cases set.0) [
        | inl (e, h) ↦
            rw (h, record_reaction)
              (Calls-trans once (fail_items-Moves w (item ∷ []) _ (with_store set.1 m)))
        | inr (u, h) ↦ rw (h, record_reaction) (Calls-trans once (finish_card-Moves item chat _))
      ]

  add_card_reaction-Moves :
      (w : Worker) (item : Item) (chat : Bytes) (state : WorkflowState) (message reaction : Bytes)
      (m : Machine)
      → Moves m (add_card_reaction w item chat state message reaction m)
  unfolding add_card_reaction ask note
  add_card_reaction-Moves w item chat state message reaction m =
      elim (Bool-cases (not (is_empty reaction) && not (same reaction state.reaction_type))) [
        | inr e ↦ rw (e, add_card_reaction) (finish_card-Moves item chat m)
        | inl e ↦
            rw (e, add_card_reaction)
              (continuing-Moves m (reserve_card w item m) _ (reserve_card-Moves w item m) λ m1.
                elim (Reply-cases (outside.answer m1.asked_of (add_reaction message reaction))) [
                  | inl (f, h) ↦ rw h (fail_items-Moves w (item ∷ []) f _)
                  | inr (id, h) ↦ rw h (record_reaction-Moves w item chat state reaction id _)
                ])
      ]

  forget_reaction-Moves :
      (w : Worker) (item : Item) (chat : Bytes) (state : WorkflowState) (message reaction : Bytes)
      (m : Machine)
      → Moves m (forget_reaction w item chat state message reaction m)
  unfolding forget_reaction note after
  forget_reaction-Moves w item chat state message reaction m =
      let set = set_workflow_reaction m.store state.key [] [] in
      let once = one_call {s = m.store} (Call.sets_reaction state.key [] []) tt in
      elim (Result-cases set.0) [
        | inl (e, h) ↦
            rw (h, forget_reaction)
              (Calls-trans once (fail_items-Moves w (item ∷ []) _ (with_store set.1 m)))
        | inr (u, h) ↦
            rw (h, forget_reaction)
              (Calls-trans once
                (add_card_reaction-Moves w item chat (without_reaction state) message reaction _))
      ]

  reconcile_reaction-Moves :
      (w : Worker) (look : Look) (item : Item) (chat : Bytes) (state : WorkflowState)
      (message : Bytes) (m : Machine)
      → Moves m (reconcile_reaction w look item chat state message m)
  unfolding reconcile_reaction ask note
  reconcile_reaction-Moves w look item chat state message m =
      let reaction = look.reaction_for state.conclusion in
      elim (Bool-cases
        (not (is_empty state.reaction_id) && not (same reaction state.reaction_type))) [
          | inr e ↦
              rw (e, reconcile_reaction)
                (add_card_reaction-Moves w item chat state message reaction m)
          | inl e ↦
              rw (e, reconcile_reaction)
                (continuing-Moves m (reserve_card w item m) _ (reserve_card-Moves w item m) λ m1.
                  elim (Reply-cases
                    (outside.answer m1.asked_of (delete_reaction message state.reaction_id))) [
                      | inl (f, h) ↦ rw h (fail_items-Moves w (item ∷ []) f _)
                      | inr (id, h) ↦
                          rw h (forget_reaction-Moves w item chat state message reaction _)
                    ])
        ]

  record_message-Moves :
      (w : Worker) (look : Look) (item : Item) (chat : Bytes) (state : WorkflowState)
      (message : Bytes) (m : Machine)
      → Moves m (record_message w look item chat state message m)
  unfolding record_message note after
  record_message-Moves w look item chat state message m =
      let set = set_workflow_message m.store state.key message in
      let once = one_call {s = m.store} (Call.sets_message state.key message) tt in
      elim (Result-cases set.0) [
        | inl (e, h) ↦
            rw (h, record_message)
              (Calls-trans once (fail_items-Moves w (item ∷ []) _ (with_store set.1 m)))
        | inr (u, h) ↦
            rw (h, record_message)
              (Calls-trans once (reconcile_reaction-Moves w look item chat state message _))
      ]

  module _ (w : Worker) (look : Look) (item : Item) (chat : Bytes) (state : WorkflowState) where
    create_card-Moves : (m : Machine) → Moves m (create_card w look item chat state m)
    unfolding create_card ask note
    create_card-Moves m =
        let request = create_request w chat (look.build_card state) (look.uuid_for state.key) in
        elim (Reply-cases (outside.answer m.asked_of request)) [
          | inl (f, h) ↦ rw (h, create_card) (fail_items-Moves w (item ∷ []) f _)
          | inr (message, h) ↦
              rw (h, create_card) (record_message-Moves w look item chat state message _)
        ]

    update_card-Moves : (m : Machine) → Moves m (update_card w look item chat state m)
    unfolding update_card ask note
    update_card-Moves m =
        elim (Reply-cases
          (outside.answer m.asked_of (change state.message_id (look.build_card state)))) [
            | inl (f, h) ↦ rw (h, update_card) (fail_items-Moves w (item ∷ []) f _)
            | inr (id, h) ↦
                rw (h, update_card)
                  (reconcile_reaction-Moves w look item chat state state.message_id _)
          ]

    pub send_card-Moves : (m : Machine) → Moves m (send_card w look item chat state m)
    unfolding send_card
    send_card-Moves m =
        continuing-Moves m (reserve_card w item m) _ (reserve_card-Moves w item m) λ m1.
          elim (Bool-cases (is_empty state.message_id)) [
            | inl e ↦ rw e (create_card-Moves m1)
            | inr e ↦ rw e (update_card-Moves m1)
          ]
