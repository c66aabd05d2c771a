-- ===== src/Store/Onboarding/Ownership.antt =====
-- What the onboarding calls of internal/store/store.go protect: the form, and a published result.
use lark_git_webhook.Base.{
  ◌≡◌, refl, ap, true, false, ◌||◌, Option, none, some, arith, Bool-cases, inl, inr, ℕ, ◌+◌, ◌<◌,
  Bool, lt→ltb,
}
use lark_git_webhook.Base.Bytes.{Bytes, same, same_iff, same_refl}
use lark_git_webhook.Bolt.{Bolt}
use lark_git_webhook.Bolt.Laws.{get-put}
use lark_git_webhook.Store.Error.{ok, err, form_conflict, validation_cooldown, >>=-eq_ok}
use lark_git_webhook.Store.Types.{
  Time, OnboardingState, OnboardingCallbackResult, Stored, json, malformed,
}
use lark_git_webhook.Store.Db.{Db, Store}
use lark_git_webhook.Store.Db.Transactions.{update-eq_ok, update_err, update_same}
use lark_git_webhook.Store.Workflow.{is_empty}
use lark_git_webhook.Store.Onboarding.{
  Moments, context_commit_err, set_form, set_onboarding_form_tx, set_onboarding_form, is_final,
  claim_callback_tx, claim_onboarding_callback_result, set_callback_result_tx,
  set_onboarding_callback_result, no_onboarding, owned_form, reserve_validation_tx,
  reserve_onboarding_validation, minute,
}

module _ ⦃bolt : Bolt⦄ where
  open bolt use {get, put}

  -- The form of a user is this message.
  abbrev pub HasForm : Bytes → Bytes → Db → Type 0
  HasForm open_id message db =
      (state : OnboardingState) × (get db.onboarding_state open_id ≡ some (json state))
      × (state.form_message_id ≡ message)

  set_form-HasForm :
      (open_id message : Bytes) (state : OnboardingState) (db db' : Db) (a : Unit {0})
      → (is_empty state.form_message_id ≡ false
          → get db.onboarding_state open_id ≡ some (json state))
      → set_form open_id message state db ≡ ok (a, db')
      → HasForm open_id message db'
  set_form-HasForm open_id message state db db' a there h =
      elim (Bool-cases (is_empty state.form_message_id)) [
        | inl e ↦ (
          record state { form_message_id = message },
          unfold set_form in
              ground (
                arith,
                get-put db.onboarding_state open_id open_id
                    (json (record state { form_message_id = message })),
                same_refl open_id,
              ),
          refl,
        )
        | inr e ↦ (
          state,
          unfold set_form in ground (arith, there e),
          unfold set_form in ground (arith, same_iff state.form_message_id message),
        )
      ]

  set_onboarding_form_tx-HasForm :
      (open_id message : Bytes) (db db' : Db) (a : Unit {0})
      → set_onboarding_form_tx open_id message db ≡ ok (a, db')
      → (is_empty open_id || is_empty message) ≡ false × HasForm open_id message db'
  unfolding set_onboarding_form_tx
  set_onboarding_form_tx-HasForm open_id message db db' a h =
      elim (Bool-cases (is_empty open_id || is_empty message)) [
        | inl e ↦ absurd (unfold set_onboarding_form_tx in ground arith)
        | inr e ↦ (e, go e (get db.onboarding_state open_id) refl)
      ]
    where
      go :
          (is_empty open_id || is_empty message) ≡ false
          → (o : Option (Stored OnboardingState)) → get db.onboarding_state open_id ≡ o
          → HasForm open_id message db'
      go given none e =
          set_form-HasForm open_id message no_onboarding db db' a (λ n. absurd (ground arith))
            (rw (set_onboarding_form_tx, given, e) at h)
      go given (some malformed) e = absurd (unfold set_onboarding_form_tx in ground arith)
      go given (some (json state)) e =
          set_form-HasForm open_id message state db db' a (λ n. e)
            (rw (set_onboarding_form_tx, given, e) at h)

  again_tx :
      (open_id message other : Bytes) (db : Db)
      → is_empty open_id ≡ false
      → is_empty message ≡ false
      → HasForm open_id message db
      → (set_onboarding_form_tx open_id message db ≡ ok (tt, db))
        × (is_empty other ≡ false
            → same message other ≡ false
            → set_onboarding_form_tx open_id other db ≡ err form_conflict)
  unfolding set_onboarding_form_tx set_form
  again_tx open_id message other db given full (state, there, is_form) =
      (ground (arith, same_refl message), λ f n. ground arith)

  -- The first form message of a user stays: setting it again changes nothing, and any other
  -- message is refused and changes nothing.
  pub set_onboarding_form-again :
      (s t : Store) (open_id message : Bytes)
      → set_onboarding_form s open_id message ≡ (ok tt, t)
      → (set_onboarding_form t open_id message ≡ (ok tt, t))
        × ((other : Bytes)
            → is_empty other ≡ false
            → same message other ≡ false
            → set_onboarding_form t open_id other ≡ (err form_conflict, t))
  unfolding set_onboarding_form
  set_onboarding_form-again s t open_id message h =
      let (db, db', _, made, moved) = update-eq_ok s (set_onboarding_form_tx open_id message) h in
      let (given, has) = set_onboarding_form_tx-HasForm open_id message db db' tt made in
      let here : t.db ≡ some db' = ap (λ (r : Store). r.db) moved in
      (
        update_same t (set_onboarding_form_tx open_id message) db' here
            (again_tx open_id message message db' (ground arith) (ground arith) has).0,
        λ other f n.
            update_err t (set_onboarding_form_tx open_id other) db' here
              ((again_tx open_id message other db' (ground arith) (ground arith) has).1 f n),
      )

  published_tx :
      (c : Moments) (id : Bytes) (r : OnboardingCallbackResult) (db db' : Db) (a : Unit {0})
      → set_callback_result_tx c id r db ≡ ok (a, db')
      → (is_final r ≡ true) × (get db'.onboarding_callback_result id ≡ some (json r))
  unfolding set_callback_result_tx
  published_tx c id r db db' a h = (
    ground arith,
    ground (arith, get-put db.onboarding_callback_result id id (json r), same_refl id),
  )

  pub published-claim :
      (s t : Store) (c : Moments) (id : Bytes) (r : OnboardingCallbackResult)
      → set_onboarding_callback_result s c id r ≡ (ok tt, t)
      → (c' : Moments) (now : Time) (stale_after : ℕ) → context_commit_err c'.at_start ≡ ok tt
      → context_commit_err c'.in_transaction ≡ ok tt
      → claim_onboarding_callback_result t c' id now stale_after ≡ (ok (r, false), t)
  unfolding set_onboarding_callback_result claim_onboarding_callback_result
  published-claim s t c id r h c' now stale_after e1 e2 =
      let (db, db', _, made, moved) = update-eq_ok s (set_callback_result_tx c id r) h in
      let (final, there) = published_tx c id r db db' tt made in
      update_same t (claim_callback_tx c' id now stale_after) db' (ap (λ (q : Store). q.db) moved)
        (rw (claim_callback_tx, e1, e2, there, final) refl)

  owned_form-eq_ok :
      (open_id expected : Bytes) (db : Db) (state : OnboardingState)
      → owned_form open_id expected db ≡ ok state
      → (get db.onboarding_state open_id ≡ some (json state))
        × (is_empty expected ≡ false)
        × (state.form_message_id ≡ expected)
  unfolding owned_form
  owned_form-eq_ok open_id expected db state h = go (get db.onboarding_state open_id) refl
    where
      go :
          (o : Option (Stored OnboardingState))
          → get db.onboarding_state open_id ≡ o
          → (get db.onboarding_state open_id ≡ some (json state))
            × (is_empty expected ≡ false)
            × (state.form_message_id ≡ expected)
      go none e = absurd (ground arith)
      go (some malformed) e = absurd (ground arith)
      go (some (json found)) e =
          let same_state : found ≡ state = ground arith in
          let same_form : state.form_message_id ≡ expected =
            ground (arith, same_iff found.form_message_id expected) in
          (ground arith, ground arith, same_form)

  owned_form_of :
      (open_id expected : Bytes) (db : Db) (state : OnboardingState)
      → get db.onboarding_state open_id ≡ some (json state)
      → is_empty expected ≡ false
      → state.form_message_id ≡ expected
      → owned_form open_id expected db ≡ ok state
  unfolding owned_form
  owned_form_of open_id expected db state there full e =
      rw (owned_form, there, e, full, same_refl expected) refl

  validated_tx :
      (c : Moments) (open_id expected : Bytes) (now : Time) (db db' : Db) (won : Bool)
      → reserve_validation_tx c open_id expected now db ≡ ok (won, db')
      → (state : OnboardingState) × (owned_form open_id expected db' ≡ ok state)
        × (state.last_validation_at ≡ now)
  unfolding reserve_validation_tx
  validated_tx c open_id expected now db db' won h =
      let (_, e1, h1) = >>=-eq_ok (context_commit_err c.at_start) _ h in
      let (_, e2, h2) = >>=-eq_ok (context_commit_err c.in_transaction) _ h1 in
      let (state, owned, h3) = >>=-eq_ok (owned_form open_id expected db) _ h2 in
      let (there, full, e) = owned_form-eq_ok open_id expected db state owned in
      let moved : get db'.onboarding_state open_id
          ≡ some (json (record state { last_validation_at = now })) =
        ground (
          arith,
          get-put db.onboarding_state open_id open_id
              (json (record state { last_validation_at = now })),
          same_refl open_id,
        ) in
      (
        record state { last_validation_at = now },
        owned_form_of open_id expected db' (record state { last_validation_at = now }) moved full e,
        refl,
      )

  -- A user has at most one validation a minute: after one was reserved, every call within the
  -- minute whose context is not over is refused for the cooldown and changes nothing.
  pub reserve_validation-again :
      (s t : Store) (c : Moments) (open_id expected : Bytes) (now : Time) (won : Bool)
      → reserve_onboarding_validation s c open_id expected now ≡ (ok won, t)
      → (c' : Moments) (later : Time) → context_commit_err c'.at_start ≡ ok tt
      → context_commit_err c'.in_transaction ≡ ok tt
      → later < now + minute
      → reserve_onboarding_validation t c' open_id expected later ≡ (err validation_cooldown, t)
  unfolding reserve_onboarding_validation
  reserve_validation-again s t c open_id expected now won h c' later e1 e2 soon =
      let (db, db', _, made, moved) =
        update-eq_ok s (reserve_validation_tx c open_id expected now) h in
      let (state, owned, at) = validated_tx c open_id expected now db db' won made in
      update_err t (reserve_validation_tx c' open_id expected later) db'
        (ap (λ (q : Store). q.db) moved)
        (rw (reserve_validation_tx, e1, e2, owned, at, lt→ltb later (now + minute) soon) refl)
