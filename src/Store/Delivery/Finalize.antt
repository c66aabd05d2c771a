-- ===== src/Store/Delivery/Finalize.antt =====
-- Deliveries after their admission and after `FinalizeArchive`, in internal/store/store.go.
use lark_git_webhook.Base.{
  ◌≡◌, refl, ap, ◌∙◌, subst, Bool, true, Option, none, some, List, [], arith, Bool-cases, inl, inr,
  ℕ,
}
use lark_git_webhook.Base.Bytes.{Bytes, same, same_refl}
use lark_git_webhook.Bolt.{Bolt}
use lark_git_webhook.Bolt.Laws.{get-put}
use lark_git_webhook.Store.Error.{Result, ok, >>=-eq_ok}
use lark_git_webhook.Store.Types.{Time, archive_only, DeliveryState, Stored, json, Encoding}
use lark_git_webhook.Store.Db.{Db, Store, view}
use lark_git_webhook.Store.Db.Transactions.{update-eq_ok}
use lark_git_webhook.Store.Admission.{
  recognise, new_state, admit_tx, admit, admit_archive_only_tx, admit_archive_only,
}
use lark_git_webhook.Store.Delivery.{
  unlock_queued, finalize_state, finalize_archive_tx, finalize_archive, lookup_delivery,
}
use lark_git_webhook.Store.Delivery.Identity.{IsKnown, admit_tx-IsKnown, recognise-IsKnown}

module _ ⦃bolt : Bolt⦄ ⦃encoding : Encoding⦄ where
  open bolt use {get, put}

  abbrev pub KnownIn : Bytes → Bytes → Bytes → Store → Type 0
  KnownIn id event raw s = (db : Db) × (s.db ≡ some db) × IsKnown id event raw db

  -- The delivery is found with its event and payload, and marked as archived.
  abbrev pub ArchivedIn : Bytes → Bytes → Bytes → Store → Type 0
  ArchivedIn id event raw s =
      (state : DeliveryState) × (lookup_delivery s id event raw ≡ ok (some state))
      × (state.archived ≡ true)

  pub admit-KnownIn :
      (s t : Store) (id event raw : Bytes) (chats : List Bytes) (now : Time) (ttl : ℕ)
      (again : Bool)
      → admit s id event raw chats now ttl ≡ (ok again, t)
      → KnownIn id event raw t
  unfolding admit
  admit-KnownIn s t id event raw chats now ttl again h =
      let (db, db', _, made, moved) = update-eq_ok s (admit_tx s id event raw chats now ttl) h in
      (
        db',
        ap (λ (q : Store). q.db) moved,
        admit_tx-IsKnown s id event raw chats now ttl db db' again made,
      )

  archive_only-IsKnown :
      (id event raw : Bytes) (db db' : Db) (again : Bool)
      → admit_archive_only_tx id event raw db ≡ ok (again, db')
      → IsKnown id event raw db'
  unfolding admit_archive_only_tx
  archive_only-IsKnown id event raw db db' again h = go (get db.delivery_state id) refl
    where
      go :
          (o : Option (Stored DeliveryState))
          → get db.delivery_state id ≡ o
          → IsKnown id event raw db'
      go none e =
          let state : DeliveryState = record (new_state event raw 0) { status = archive_only } in
          let there : db'.delivery_state ≡ put db.delivery_state id (json state) = ground arith in
          (
            state,
            rw there (get-put db.delivery_state id id (json state) ∙ rw (same_refl id) refl),
            same_refl event,
            same_refl (encoding.sum256 raw),
          )
      go (some value) e =
          let (state, m, rest) =
            >>=-eq_ok (recognise event raw value) _ (rw (e, admit_archive_only_tx) at h) in
          let (v, same_event, same_digest) = recognise-IsKnown event raw value m in
          let same_db : db ≡ db' = ground arith in
          subst (IsKnown id event raw) same_db (state, e ∙ ap some v, same_event, same_digest)

  pub archive_only-KnownIn :
      (s t : Store) (id event raw : Bytes) (again : Bool)
      → admit_archive_only s id event raw ≡ (ok again, t)
      → KnownIn id event raw t
  unfolding admit_archive_only
  archive_only-KnownIn s t id event raw again h =
      let (db, db', _, made, moved) = update-eq_ok s (admit_archive_only_tx id event raw) h in
      (db', ap (λ (q : Store). q.db) moved, archive_only-IsKnown id event raw db db' again made)

  -- What `LookupDelivery` finds is known.
  pub lookup-KnownIn :
      (s : Store) (id event raw : Bytes) (state : DeliveryState)
      → lookup_delivery s id event raw ≡ ok (some state)
      → KnownIn id event raw s
  unfolding lookup_delivery
  lookup-KnownIn s id event raw state h = open_store s.db refl
    where
      look :
          (db : Db)
          → s.db ≡ some db
          → (o : Option (Stored DeliveryState)) → get db.delivery_state id ≡ o
          → KnownIn id event raw s
      look db e none g = absurd (ground arith)
      look db e (some value) g =
          let (found, m, _) =
            >>=-eq_ok (recognise event raw value) _ (rw (e, lookup_delivery, view, g) at h) in
          let (v, same_event, same_digest) = recognise-IsKnown event raw value m in
          (db, e, (found, g ∙ ap some v, same_event, same_digest))

      open_store : (o : Option Db) → s.db ≡ o → KnownIn id event raw s
      open_store none e = absurd (ground arith)
      open_store (some db) e = look db e (get db.delivery_state id) refl

  finalized_tx :
      (id event raw : Bytes) (db db' : Db) (a : Unit {0})
      → IsKnown id event raw db
      → finalize_archive_tx id db ≡ ok (a, db')
      → (state : DeliveryState) × (get db'.delivery_state id ≡ some (json state))
        × (same state.event event ≡ true)
        × (same state.digest (encoding.sum256 raw) ≡ true)
        × (state.archived ≡ true)
  unfolding finalize_archive_tx finalize_state
  finalized_tx id event raw db db' a (state, there, same_event, same_digest) h =
      elim (Bool-cases state.archived) [
        | inl c ↦
            let same_db : db ≡ db' = ground arith in
            (
              state,
              subst (λ (d : Db). get d.delivery_state id ≡ some (json state)) same_db there,
              same_event,
              same_digest,
              c,
            )
        | inr c ↦ unlocked (
            >>=-eq_ok (unlock_queued state.sequence db) _
              (rw (there, finalize_archive_tx, finalize_state, c) at h))
      ]
    where
      state' : DeliveryState
      state' = record state { archived = true; raw_json = [] }

      unlocked :
          (d : Db) × (unlock_queued state.sequence db ≡ ok d)
            × (◌≡◌ {A = Result (Unit {0} × Db)}
                (ok (tt, record d { delivery_state = put d.delivery_state id (json state') }))
                (ok (a, db')))
          → (found : DeliveryState) × (get db'.delivery_state id ≡ some (json found))
            × (same found.event event ≡ true)
            × (same found.digest (encoding.sum256 raw) ≡ true)
            × (found.archived ≡ true)
      unlocked (d, u, fin) =
          let e : db'.delivery_state ≡ put d.delivery_state id (json state') = ground arith in
          (
            state',
            rw e (get-put d.delivery_state id id (json state') ∙ rw (same_refl id) refl),
            same_event,
            same_digest,
            refl,
          )

  lookup_known :
      (t : Store) (id event raw : Bytes) (db : Db) (state : DeliveryState)
      → t.db ≡ some db
      → get db.delivery_state id ≡ some (json state)
      → same state.event event ≡ true
      → same state.digest (encoding.sum256 raw) ≡ true
      → lookup_delivery t id event raw ≡ ok (some (record state { delivery_id = id }))
  unfolding lookup_delivery recognise
  lookup_known t id event raw db state e there same_event same_digest =
      rw (e, lookup_delivery, view, there, recognise, same_event, same_digest) refl

  -- After a successful `FinalizeArchive` of a known delivery, it is archived.
  pub finalize-ArchivedIn :
      (s t : Store) (id event raw : Bytes)
      → KnownIn id event raw s
      → finalize_archive s id ≡ (ok tt, t)
      → ArchivedIn id event raw t
  unfolding finalize_archive
  finalize-ArchivedIn s t id event raw (db0, e0, known) h =
      let (db, db', e, made, moved) = update-eq_ok s (finalize_archive_tx id) h in
      let same_db : db0 ≡ db = ground arith in
      let (state, there, same_event, same_digest, arch) =
        finalized_tx id event raw db db' tt (subst (IsKnown id event raw) same_db known) made in
      (
        record state { delivery_id = id },
        lookup_known t id event raw db' state (ap (λ (q : Store). q.db) moved) there same_event
            same_digest,
        arch,
      )
