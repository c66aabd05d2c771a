-- ===== src/Store/Onboarding.antt =====
-- Onboarding forms, GitHub logins and callback results of internal/store/store.go.
pub mod Ownership
use lark_git_webhook.Base.{
  ℕ, ◌+◌, Bool, true, false, not, ◌&&◌, ◌||◌, Option, none, some, [], ltb, leb, if◌then◌else◌,
}
use lark_git_webhook.Base.Bytes.{Bytes, same}
use lark_git_webhook.Bolt.{Bolt}
use lark_git_webhook.Store.Error.{
  Result, ok, err, ◌>>=◌, not_found, missing_argument, form_conflict, message_mismatch,
  validation_cooldown, deadline_exceeded,
}
use lark_git_webhook.Store.Types.{
  Time, minute, OnboardingState, OnboardingCallbackResult, json, unmarshal,
}
use lark_git_webhook.Store.Db.{Db, Store, update, view}
use lark_git_webhook.Store.Workflow.{is_empty}

-- What a context answers at one moment; `left` is the time until its deadline, if it has one.
pub record ContextState : Type 0 where
  pub cancelled : Bool
  pub left : Option ℕ

-- 500 milliseconds.
abbrev pub callback_commit_guard : ℕ
callback_commit_guard = 500_000_000

unfoldable pub context_commit_err : ContextState → Result (Unit {0})
context_commit_err c = if c.cancelled then err deadline_exceeded else elim c.left [
  | none ↦ ok tt
  | some d ↦ (if leb d callback_commit_guard then err deadline_exceeded else ok tt)
]

-- The context at the three moments at which a call asks it.
pub record Moments : Type 0 where
  pub at_start : ContextState
  pub in_transaction : ContextState
  pub before_put : ContextState

abbrev pub no_onboarding : OnboardingState
no_onboarding = record {
  open_id = [];
  form_message_id = [];
  github_login = [];
  last_validation_at = 0;
}

module _ ⦃bolt : Bolt⦄ where
  open bolt use {get, put}

  unfoldable pub onboarding : Store → Bytes → Result OnboardingState
  onboarding s open_id = view s λ db. elim (get db.onboarding_state open_id) [
    | none ↦ err not_found
    | some value ↦ (do state ← unmarshal value; ok (record state { open_id = open_id }))
  ]

  abbrev pub put_onboarding : Bytes → OnboardingState → Db → Db
  put_onboarding open_id state db = record db {
    onboarding_state = put db.onboarding_state open_id (json state);
  }

  unfoldable pub set_form : Bytes → Bytes → OnboardingState → Db → Result (Unit {0} × Db)
  set_form open_id message state db =
      if is_empty state.form_message_id
      then ok (tt, put_onboarding open_id (record state { form_message_id = message }) db)
      else if same state.form_message_id message
      then ok (tt, db)
      else err form_conflict

  unfoldable pub set_onboarding_form_tx : Bytes → Bytes → Db → Result (Unit {0} × Db)
  unfolding set_form
  set_onboarding_form_tx open_id message db =
      if is_empty open_id || is_empty message
      then err missing_argument
      else elim (get db.onboarding_state open_id) [
        | none ↦ set_form open_id message no_onboarding db
        | some value ↦ (do state ← unmarshal value; set_form open_id message state db)
      ]

  unfoldable pub set_onboarding_form : Store → Bytes → Bytes → Result (Unit {0}) × Store
  unfolding set_onboarding_form_tx
  set_onboarding_form s open_id message = update s (set_onboarding_form_tx open_id message)

  -- The state whose form is the expected message.
  unfoldable pub owned_form : Bytes → Bytes → Db → Result OnboardingState
  owned_form open_id expected db = elim (get db.onboarding_state open_id) [
    | none ↦ err not_found
    | some value ↦ (do
      state ← unmarshal value
      if is_empty state.form_message_id
          then err not_found
          else if same state.form_message_id expected
          then ok state
          else err message_mismatch)
  ]

  unfoldable pub set_github_login_tx : Moments → Bytes → Bytes → Bytes → Db → Result (Unit {0} × Db)
  unfolding owned_form context_commit_err
  set_github_login_tx c open_id expected login db =
      if is_empty open_id || (is_empty expected || is_empty login)
      then err missing_argument
      else (do
        _ ← context_commit_err c.at_start
        _ ← context_commit_err c.in_transaction
        state ← owned_form open_id expected db
        _ ← context_commit_err c.before_put
        ok (tt, put_onboarding open_id (record state { github_login = login }) db))

  -- `SetOnboardingGitHubLoginContext`.
  unfoldable pub set_onboarding_github_login :
      Store → Moments → Bytes → Bytes → Bytes → Result (Unit {0}) × Store
  unfolding set_github_login_tx
  set_onboarding_github_login s c open_id expected login =
      update s (set_github_login_tx c open_id expected login)

  unfoldable pub reserve_validation_tx : Moments → Bytes → Bytes → Time → Db → Result (Bool × Db)
  unfolding owned_form context_commit_err
  reserve_validation_tx c open_id expected now db = do
    _ ← context_commit_err c.at_start
    _ ← context_commit_err c.in_transaction
    state ← owned_form open_id expected db
    if ltb now (state.last_validation_at + minute) then err validation_cooldown else (do
      _ ← context_commit_err c.before_put
      ok (true, put_onboarding open_id (record state { last_validation_at = now }) db))

  -- `ReserveOnboardingValidationContext`.
  unfoldable pub reserve_onboarding_validation :
      Store → Moments → Bytes → Bytes → Time → Result Bool × Store
  unfolding reserve_validation_tx
  reserve_onboarding_validation s c open_id expected now =
      update s (reserve_validation_tx c open_id expected now)

  unfoldable pub onboarding_callback_result :
      Store → Bytes → Result (Option OnboardingCallbackResult)
  onboarding_callback_result s id = view s λ db. elim (get db.onboarding_callback_result id) [
    | none ↦ ok none
    | some value ↦ (do result ← unmarshal value; ok (some result))
  ]

  -- A published result is final.
  abbrev pub is_final : OnboardingCallbackResult → Bool
  is_final r = not (is_empty r.toast_type) && not (is_empty r.content)

  abbrev pub pending_since : Time → OnboardingCallbackResult
  pending_since now = record { toast_type = []; content = []; pending_at = now }

  unfoldable pub make_claim :
      Moments → Bytes → Time → Db → Result ((OnboardingCallbackResult × Bool) × Db)
  unfolding context_commit_err
  make_claim c id now db = do
    _ ← context_commit_err c.before_put
    ok (
      (pending_since now, true),
      record db {
        onboarding_callback_result =
            put db.onboarding_callback_result id (json (pending_since now));
      },
    )

  unfoldable pub claim_callback_tx :
      Moments → Bytes → Time → ℕ → Db → Result ((OnboardingCallbackResult × Bool) × Db)
  unfolding context_commit_err make_claim
  claim_callback_tx c id now stale_after db = do
    _ ← context_commit_err c.at_start
    _ ← context_commit_err c.in_transaction
    elim (get db.onboarding_callback_result id) [
      | none ↦ make_claim c id now db
      | some value ↦ (do
        result ← unmarshal value
        if is_final result || ltb now (result.pending_at + stale_after)
            then ok ((result, false), db)
            else make_claim c id now db)
    ]

  -- `ClaimOnboardingCallbackResultContext`: the result, and whether the caller has the claim.
  unfoldable pub claim_onboarding_callback_result :
      Store → Moments → Bytes → Time → ℕ → Result (OnboardingCallbackResult × Bool) × Store
  unfolding claim_callback_tx
  claim_onboarding_callback_result s c id now stale_after =
      update s (claim_callback_tx c id now stale_after)

  unfoldable pub set_callback_result_tx :
      Moments → Bytes → OnboardingCallbackResult → Db → Result (Unit {0} × Db)
  unfolding context_commit_err
  set_callback_result_tx c id result db =
      if is_empty id || (is_empty result.toast_type || is_empty result.content)
      then err missing_argument
      else (do
        _ ← context_commit_err c.at_start
        _ ← context_commit_err c.in_transaction
        _ ← context_commit_err c.before_put
        ok (
          tt,
          record db {
            onboarding_callback_result = put db.onboarding_callback_result id (json result);
          },
        ))

  -- `SetOnboardingCallbackResultContext`.
  unfoldable pub set_onboarding_callback_result :
      Store → Moments → Bytes → OnboardingCallbackResult → Result (Unit {0}) × Store
  unfolding set_callback_result_tx
  set_onboarding_callback_result s c id result = update s (set_callback_result_tx c id result)
