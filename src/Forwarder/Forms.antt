-- ===== src/Forwarder/Forms.antt =====
-- Onboarding forms: internal/forwarder/onboarding.go, and the event that it reads in
-- internal/onboarding/onboarding.go.
use lark_git_webhook.Base.{Bool, false, not, ◌||◌, [], ◌∷◌, ◌++◌, if◌then◌else◌}
use lark_git_webhook.Base.Bytes.{Bytes, same, ascii}
use lark_git_webhook.Bolt.{Bolt}
use lark_git_webhook.Store.Error.{Result, ok, err}
use lark_git_webhook.Store.Types.{Item, Encoding, OnboardingState}
use lark_git_webhook.Store.Queue.{delete_items}
use lark_git_webhook.Store.Workflow.{is_empty}
use lark_git_webhook.Store.Onboarding.{onboarding, set_onboarding_form}
use lark_git_webhook.Forwarder.Machine.{
  Worker, Outside, Machine, Failure, plain_failure, create_form, accepted, refused, lark_success,
  event_delivered, BatchResult, continue_round, stop_worker, note, with_store, ask, continuing,
}
use lark_git_webhook.Forwarder.Batch.{
  granted, no_slot, ended, unfinished, reserve_slot, rounds, fail_items,
}
use lark_git_webhook.Forwarder.Cards.{Texts, store_failure}
use lark_git_webhook.Forwarder.Workflows.{Parsed, parsed, unparsed, digest_name, no_client}
use lark_git_webhook.Forwarder.Pipelines.{is_not_found}

-- `EnteredEvent`.
pub record EnteredEvent : Type 0 where
  pub open_id : Bytes
  pub chat_id : Bytes

-- What the onboarding events use of encoding/json: the type in the header, and the event.
pub record OnboardingEvents : Type 0 where
  pub event_type : Bytes → Parsed Bytes
  pub entered_event : Bytes → Parsed EnteredEvent

abbrev pub entered_event_type : Bytes
entered_event_type = ascii "im.chat.access_event.bot_p2p_chat_entered_v1"

module _ ⦃events : OnboardingEvents⦄ where
  -- The event of an item, after the checks on it; the reason of a failure if one fails.
  unfoldable pub entered_of : Bytes → Parsed EnteredEvent
  entered_of raw = elim (events.event_type raw) [
    | unparsed why ↦ unparsed (ascii "parse Lark event header: " ++ why)
    | parsed kind ↦
        (if not (same kind entered_event_type)
          then unparsed (ascii "unsupported Lark queued event")
          else elim (events.entered_event raw) [
            | unparsed why ↦ unparsed (ascii "parse Lark onboarding event: " ++ why)
            | parsed entered ↦
                (if is_empty entered.open_id || is_empty entered.chat_id
                  then unparsed (
                      ascii
                        "parse Lark onboarding event: Lark onboarding event missing operator or chat")
                  else parsed entered)
          ])
  ]

-- Whether a stored state has no more need of a form; the error, if it cannot be read.
unfoldable pub is_onboarded : Result OnboardingState → Result Bool
is_onboarded (ok state) =
    ok (not (is_empty state.form_message_id) || not (is_empty state.github_login))
is_onboarded (err e) = if is_not_found e then ok false else err e

module _ ⦃encoding : Encoding⦄ where
  -- `onboardingUUID`.
  unfoldable pub onboarding_uuid : Bytes → Bytes
  onboarding_uuid open_id = digest_name (ascii "lark-onboarding-") open_id

module _ ⦃bolt : Bolt⦄ ⦃encoding : Encoding⦄ where
  -- `deleteOnboarding`.
  unfoldable pub delete_onboarding : Item → Machine → BatchResult × Machine
  unfolding note
  delete_onboarding item m =
      let deleted = delete_items m.store (item ∷ []) in
      let m1 = with_store deleted.1 m in
      elim deleted.0 [
        | err e ↦ (stop_worker, m1)
        | ok _ ↦ (continue_round, note (event_delivered item.event) m1)
      ]

  -- A form that Lark has sent is recorded.
  unfoldable pub record_form : Item → Bytes → Bytes → Machine → BatchResult × Machine
  unfolding note delete_onboarding
  record_form item open_id message m =
      let set = set_onboarding_form m.store open_id message in
      let m1 = with_store set.1 m in
      elim set.0 [
        | err e ↦ (stop_worker, m1)
        | ok _ ↦ delete_onboarding item (note lark_success m1)
      ]

module _ ⦃bolt : Bolt⦄ ⦃encoding : Encoding⦄ ⦃outside : Outside⦄ ⦃texts : Texts⦄ where
  -- `onboardingFailure`.
  abbrev pub onboarding_failure : Worker → Item → Failure → Machine → BatchResult × Machine
  onboarding_failure w item f m = fail_items w (item ∷ []) f m

  -- `reserveOnboardingRequest`.
  unfoldable pub reserve_form : Worker → Item → Machine → BatchResult × Machine
  reserve_form w item m =
      let slot = reserve_slot (rounds m) m in
      elim slot.0 [
        | granted ↦ (continue_round, slot.1)
        | no_slot e ↦
            onboarding_failure w item (store_failure (ascii "reserve rate-limit slot: ") e) slot.1
        | ended ↦ (stop_worker, slot.1)
        | unfinished ↦ (stop_worker, slot.1)
      ]

  -- The form is sent, with an identifier that is made from the receiver.
  unfoldable pub send_form : Worker → Item → Bytes → Machine → BatchResult × Machine
  unfolding reserve_form continuing ask record_form
  send_form w item open_id m = continuing (reserve_form w item m) λ m1.
      let asked = ask (create_form open_id (onboarding_uuid open_id)) m1 in
      elim asked.0 [
        | refused f ↦ onboarding_failure w item f asked.1
        | accepted message ↦ record_form item open_id message asked.1
      ]

  -- A chat that a user has entered.
  unfoldable pub welcome : Worker → Item → EnteredEvent → Machine → BatchResult × Machine
  unfolding is_onboarded delete_onboarding send_form
  welcome w item entered m = elim (is_onboarded (onboarding m.store entered.open_id)) [
    | err e ↦ onboarding_failure w item (store_failure (ascii "read onboarding state: ") e) m
    | ok done ↦ (if done then delete_onboarding item m else send_form w item entered.open_id m)
  ]

module _ ⦃bolt : Bolt⦄ ⦃encoding : Encoding⦄ ⦃outside : Outside⦄ ⦃texts : Texts⦄
    ⦃events : OnboardingEvents⦄ where
  -- `sendOnboarding`.
  unfoldable pub send_onboarding : Worker → Item → Machine → BatchResult × Machine
  unfolding entered_of welcome
  send_onboarding w item m =
      if not w.has_client
      then onboarding_failure w item (plain_failure no_client) m
      else elim (entered_of item.raw_json) [
        | unparsed why ↦ onboarding_failure w item (plain_failure why) m
        | parsed entered ↦ welcome w item entered m
      ]
