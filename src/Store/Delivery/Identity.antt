-- ===== src/Store/Delivery/Identity.antt =====
-- The permanent identity of a delivery: what `AdmitToChats`, `AdmitArchiveOnly`, `FinalizeArchive`,
-- `ClaimSubscriptionReply` and `LookupDelivery` of internal/store/store.go answer for one delivery.
use lark_git_webhook.Base.{
  ◌≡◌, refl, ap, ◌∙◌, subst, Bool, true, false, ◌&&◌, Option, none, some, List, arith, ℕ, inl, inr,
  Bool-cases,
}
use lark_git_webhook.Base.Bytes.{Bytes, same, same_refl, same_iff}
use lark_git_webhook.Bolt.{Bolt}
use lark_git_webhook.Bolt.Laws.{get-put}
use lark_git_webhook.Store.Error.{ok, err, delivery_conflict, >>=-eq_ok}
use lark_git_webhook.Store.Types.{Time, DeliveryState, Stored, json, malformed, Encoding}
use lark_git_webhook.Store.Db.{Db, Store}
use lark_git_webhook.Store.Db.Transactions.{update-eq_ok, update_err, update_same}
use lark_git_webhook.Store.Dedupe.{remember}
use lark_git_webhook.Base.Words.{add64}
use lark_git_webhook.Store.Admission.{
  make_room, push_item, recognise, new_state, admit_new, admit_tx, admit, admit_archive_only_tx,
}
use lark_git_webhook.Store.Delivery.{
  claim_state, claim_subscription_reply_tx, claim_subscription_reply,
}

module _ ⦃bolt : Bolt⦄ ⦃encoding : Encoding⦄ where
  open bolt use {get, put}

  -- The stored state of the delivery has this event and this payload's digest.
  abbrev pub IsKnown : Bytes → Bytes → Bytes → Db → Type 0
  IsKnown id event raw db =
      (state : DeliveryState) × (get db.delivery_state id ≡ some (json state))
      × (same state.event event ≡ true)
      × (same state.digest (encoding.sum256 raw) ≡ true)

  pub recognise-IsKnown :
      (event raw : Bytes) (value : Stored DeliveryState) {state : DeliveryState}
      → recognise event raw value ≡ ok state
      → (value ≡ json state)
        × (same state.event event ≡ true)
        × (same state.digest (encoding.sum256 raw) ≡ true)
  unfolding recognise
  recognise-IsKnown event raw (json s) h = ground arith
  recognise-IsKnown event raw malformed h = absurd (ground arith)

  admit_new-IsKnown :
      (s : Store) (id event raw : Bytes) (chats : List Bytes) (now : Time) (ttl : ℕ) (db db' : Db)
      (again : Bool)
      → admit_new s id event raw chats now ttl db ≡ ok (again, db')
      → IsKnown id event raw db'
  unfolding admit_new remember push_item
  admit_new-IsKnown s id event raw chats now ttl db db' again h =
      let room = make_room s now db in
      let next = add64 room.meta.next 1 in
      let e : db'.delivery_state ≡ put room.delivery_state id (json (new_state event raw next)) =
        ground arith in
      (
        new_state event raw next,
        rw e (get-put room.delivery_state id id _ ∙ rw (same_refl id)),
        same_refl event,
        same_refl (encoding.sum256 raw),
      )

  pub admit_tx-IsKnown :
      (s : Store) (id event raw : Bytes) (chats : List Bytes) (now : Time) (ttl : ℕ) (db db' : Db)
      (again : Bool)
      → admit_tx s id event raw chats now ttl db ≡ ok (again, db')
      → IsKnown id event raw db'
  unfolding admit_tx
  admit_tx-IsKnown s id event raw chats now ttl db db' again h = go (get db.delivery_state id) refl
    where
      go :
          (o : Option (Stored DeliveryState))
          → get db.delivery_state id ≡ o
          → IsKnown id event raw db'
      go none e =
          admit_new-IsKnown s id event raw chats now ttl db db' again (rw (e, admit_tx) at h)
      go (some value) e =
          let (state, m, rest) = >>=-eq_ok (recognise event raw value) _ (rw (e, admit_tx) at h) in
          let (v, same_event, same_digest) = recognise-IsKnown event raw value m in
          let same_db : db ≡ db' = ground arith in
          subst (IsKnown id event raw) same_db (state, e ∙ ap some v, same_event, same_digest)

  -- A known delivery is answered the same way by both admissions: as a duplicate with the same
  -- payload, as a conflict with another event or digest.
  again_tx :
      (s : Store) (id event raw : Bytes) (chats : List Bytes) (now : Time) (ttl : ℕ) (db : Db)
      → IsKnown id event raw db
      → (admit_tx s id event raw chats now ttl db ≡ ok (true, db))
        × (admit_archive_only_tx id event raw db ≡ ok (true, db))
  unfolding admit_tx admit_archive_only_tx recognise
  again_tx s id event raw chats now ttl db (state, there, same_event, same_digest) = (
    rw (there, admit_tx, recognise, same_event, same_digest) refl,
    rw (there, admit_archive_only_tx, recognise, same_event, same_digest) refl,
  )

  conflict_tx :
      (s : Store) (id event raw event' raw' : Bytes) (chats : List Bytes) (now : Time) (ttl : ℕ)
      (db : Db)
      → IsKnown id event raw db
      → (same event event' && same (encoding.sum256 raw) (encoding.sum256 raw')) ≡ false
      → (admit_tx s id event' raw' chats now ttl db ≡ err delivery_conflict)
        × (admit_archive_only_tx id event' raw' db ≡ err delivery_conflict)
  unfolding admit_tx admit_archive_only_tx recognise
  conflict_tx s id event raw event' raw' chats now ttl db (state, there, same_event, same_digest)
        other =
      let e : state.event ≡ event = (same_iff state.event event).0 same_event in
      let d : state.digest ≡ encoding.sum256 raw =
        (same_iff state.digest (encoding.sum256 raw)).0 same_digest in
      (
        rw (there, admit_tx, recognise, e, d, other) refl,
        rw (there, admit_archive_only_tx, recognise, e, d, other) refl,
      )

  -- Once a delivery is admitted, its identity is permanent: a redelivery of the same event and
  -- payload is a duplicate that changes nothing, whenever it comes, and another event or another
  -- digest under the same id is a conflict that changes nothing.
  pub admit-again :
      (s t : Store) (id event raw : Bytes) (chats : List Bytes) (now : Time) (ttl : ℕ)
      (again : Bool)
      → admit s id event raw chats now ttl ≡ (ok again, t)
      → ((chats' : List Bytes) (now' : Time) (ttl' : ℕ)
          → admit t id event raw chats' now' ttl' ≡ (ok true, t))
        × ((event' raw' : Bytes) (chats' : List Bytes) (now' : Time) (ttl' : ℕ)
            → (same event event' && same (encoding.sum256 raw) (encoding.sum256 raw')) ≡ false
            → admit t id event' raw' chats' now' ttl' ≡ (err delivery_conflict, t))
  unfolding admit
  admit-again s t id event raw chats now ttl again h =
      let (db, db', _, made, moved) = update-eq_ok s (admit_tx s id event raw chats now ttl) h in
      let known = admit_tx-IsKnown s id event raw chats now ttl db db' again made in
      let open_db : t.db ≡ some db' = ap (λ (r : Store). r.db) moved in
      (
        λ chats' now' ttl'.
            update_same t (admit_tx t id event raw chats' now' ttl') db' open_db
              (again_tx t id event raw chats' now' ttl' db' known).0,
        λ event' raw' chats' now' ttl' other.
            update_err t (admit_tx t id event' raw' chats' now' ttl') db' open_db
              (conflict_tx t id event raw event' raw' chats' now' ttl' db' known other).0,
      )

  claimed_tx :
      (id : Bytes) (db db' : Db) (won : Bool)
      → claim_subscription_reply_tx id db ≡ ok (won, db')
      → claim_subscription_reply_tx id db' ≡ ok (false, db')
  unfolding claim_subscription_reply_tx claim_state
  claimed_tx id db db' won h = go (get db.delivery_state id) refl
    where
      go :
          (o : Option (Stored DeliveryState))
          → get db.delivery_state id ≡ o
          → claim_subscription_reply_tx id db' ≡ ok (false, db')
      go none e = absurd (unfold claim_subscription_reply_tx in ground arith)
      go (some malformed) e = absurd (unfold claim_subscription_reply_tx in ground arith)
      go (some (json state)) e = elim (Bool-cases state.subscription_reply_claimed) [
        | inl c ↦
            let same_db : db ≡ db' =
              unfold claim_subscription_reply_tx claim_state in ground arith in
            subst (λ (d : Db). claim_subscription_reply_tx id d ≡ ok (false, d)) same_db
              (rw (e, claim_subscription_reply_tx, claim_state, c) refl)
        | inr c ↦
            let there : get db'.delivery_state id
                ≡ some (json (record state { subscription_reply_claimed = true })) =
              unfold claim_subscription_reply_tx claim_state in
              ground (
                arith,
                get-put db.delivery_state id id
                    (json (record state { subscription_reply_claimed = true })),
                same_refl id,
              ) in
            rw (there, claim_subscription_reply_tx, claim_state) refl
      ]

  -- The confirmation of a subscription is claimed at most once: whatever a claim answered, every
  -- later one is refused and changes nothing.
  pub claim-again :
      (s t : Store) (id : Bytes) (won : Bool)
      → claim_subscription_reply s id ≡ (ok won, t)
      → claim_subscription_reply t id ≡ (ok false, t)
  unfolding claim_subscription_reply
  claim-again s t id won h =
      let (db, db', _, made, moved) = update-eq_ok s (claim_subscription_reply_tx id) h in
      update_same t (claim_subscription_reply_tx id) db' (ap (λ (r : Store). r.db) moved)
        (claimed_tx id db db' won made)
