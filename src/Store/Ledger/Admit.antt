-- ===== src/Store/Ledger/Admit.antt =====
-- `Enqueue` and `AdmitToChats` of internal/store/store.go, and the books of the queue.
use lark_git_webhook.Base.Bytes.{Bytes}
use lark_git_webhook.Base.Words.{add64, add64_exact, u64}
use lark_git_webhook.Bolt.{Bolt}
use lark_git_webhook.Store.Error.{Error, Result, ok, err, queue_full}
use lark_git_webhook.Store.Types.{Time, Item, json, Encoding}
use lark_git_webhook.Store.Keys.{decode_time}
use lark_git_webhook.Store.Db.{Meta, Db, Store}
use lark_git_webhook.Store.Accounting.{active_item_bytes}
use lark_git_webhook.Store.Dedupe.{remember, drop_expired}
use lark_git_webhook.Store.Admission.{
  over_capacity, push_item, new_state, make_room, new_item, enqueue_new, enqueue_tx, admit_new,
  admit_tx, recognise,
}
use lark_git_webhook.Store.Ledger.{
  IsBounded, limits_of, Ledger, ledger, IsBalanced, IsBalanced-of_eq,
}
use lark_git_webhook.Store.Ledger.Moves.{push-IsBalanced}
use lark_git_webhook.Store.Ledger.Frame.{ledger-make_room, ledger-drop_expired}
use lark_git_webhook.Base.{
  ℕ, ◌+◌, ◌≤◌, ◌<◌, ◌≡◌, refl, sym, subst, inl, inr, Bool, true, false, List, [], arith, ltb, ◌==◌,
  if◌then◌else◌, Bool-cases, Option-cases, length,
}

module _ ⦃bolt : Bolt⦄ ⦃encoding : Encoding⦄ where
  -- What the test for capacity lets through.
  pub over_capacity-false :
      (s : Store) (m : Meta) (size : ℕ)
      → over_capacity s m size ≡ false
      → (m.count < s.max_items) × (m.bytes + size ≤ s.max_bytes)
  unfolding over_capacity
  over_capacity-false s m size h = ground arith

  abbrev checked : {B : Type 0} → Bool → Error → B → Result B
  checked b e x = if b then err e else ok x

  -- A test that fails the transaction did not hold if it went through.
  guarded_ok :
      {A : Type 0} (b : Bool) (e : Error) (a a' : A) (d d' : Db)
      → checked {B = A × Db} b e (a, d) ≡ ok (a', d')
      → (b ≡ false) × (d ≡ d')
  guarded_ok true e a a' d d' h = cc
  guarded_ok false e a a' d d' h = (refl, cc)

  -- The counter of sequence numbers has a next value.
  abbrev pub HasNext : Db → Type 0
  HasNext db = db.meta.next + 1 < u64

  module _ (s : Store) (limits : IsBounded (limits_of s)) where
    pushed-IsBalanced :
        (db : Db) (item : Item)
        → IsBalanced (limits_of s) (ledger db)
        → HasNext db
        → item.sequence ≡ add64 db.meta.next 1
        → over_capacity s db.meta (active_item_bytes item) ≡ false
        → IsBalanced (limits_of s) (ledger (push_item item db))
    unfolding push_item
    pushed-IsBalanced db item b n e h =
        push-IsBalanced (limits_of s) (ledger db) item limits b
          (omega (arith, e, add64_exact db.meta.next 1 n))
          (omega (arith, e, add64_exact db.meta.next 1 n))
          (over_capacity-false s db.meta (active_item_bytes item) h).0
          (over_capacity-false s db.meta (active_item_bytes item) h).1

    module _ (now : Time) (db : Db) (b : IsBalanced (limits_of s) (ledger db))
        (n : HasNext db) where
      room-IsBalanced : IsBalanced (limits_of s) (ledger (make_room s now db))
      room-IsBalanced = subst (IsBalanced (limits_of s)) (sym (ledger-make_room s now db)) b

      room_next : HasNext (make_room s now db)
      room_next = subst (λ (l : Ledger). l.next + 1 < u64) (sym (ledger-make_room s now db)) n

      enqueue_new_keeps :
          (id event raw : Bytes) (ttl : ℕ) (a : Bool) (db' : Db)
          → enqueue_new s id event raw now ttl db ≡ ok (a, db')
          → IsBalanced (limits_of s) (ledger db')
      unfolding enqueue_new remember
      enqueue_new_keeps id event raw ttl a db' h =
          let room = make_room s now db in
          let item = new_item id event raw [] now true (add64 room.meta.next 1) in
          let (fits, e) =
            guarded_ok (over_capacity s room.meta (active_item_bytes item)) queue_full false a
              (remember id (now + ttl) (push_item item room)) db' h in
          subst (λ d. IsBalanced (limits_of s) (ledger d)) e
            (pushed-IsBalanced room item room-IsBalanced room_next refl fits)

      admit_new_keeps :
          (id event raw : Bytes) (chats : List Bytes) (ttl : ℕ) (a : Bool) (db' : Db)
          → admit_new s id event raw chats now ttl db ≡ ok (a, db')
          → IsBalanced (limits_of s) (ledger db')
      unfolding admit_new remember
      admit_new_keeps id event raw chats ttl a db' h =
          let room = make_room s now db in
          let item = new_item id event raw chats now false (add64 room.meta.next 1) in
          let (fits, e) =
            guarded_ok (over_capacity s room.meta (active_item_bytes item)) queue_full false a
              (remember id (now + ttl) (record (push_item item room) {
                delivery_state =
                    bolt.put room.delivery_state id (json (new_state event raw item.sequence));
              }))
              db' h in
          subst (λ d. IsBalanced (limits_of s) (ledger d)) e
            (pushed-IsBalanced room item room-IsBalanced room_next refl fits)

  module _ (s : Store) (limits : IsBounded (limits_of s)) where
    pub enqueue_tx_keeps :
        (id event raw : Bytes) (now : Time) (ttl : ℕ) (db : Db) (a : Bool) (db' : Db)
        → IsBalanced (limits_of s) (ledger db)
        → HasNext db
        → enqueue_tx s id event raw now ttl db ≡ ok (a, db')
        → IsBalanced (limits_of s) (ledger db')
    unfolding enqueue_tx
    enqueue_tx_keeps id event raw now ttl db a db' b n h =
        elim (Option-cases (bolt.get db.dedupe id)) [
          | inl e ↦
              enqueue_new_keeps s limits now db b n id event raw ttl a db' (rw (e, enqueue_tx) at h)
          | inr (v, e) ↦ known v (rw (e, enqueue_tx) at h)
        ]
      where
        expired : Time → Db
        expired t = drop_expired id t db

        known :
            (v : Bytes)
            → (if length v == 8
                then (if ltb now (decode_time v)
                    then ok (true, db)
                    else enqueue_new s id event raw now ttl (expired (decode_time v)))
                else enqueue_new s id event raw now ttl db)
              ≡ ok (a, db')
            → IsBalanced (limits_of s) (ledger db')
        known v h = elim (Bool-cases (length v == 8)) [
          | inl e ↦ elim (Bool-cases (ltb now (decode_time v))) [
            | inl f ↦ IsBalanced-of_eq (limits_of s) (ledger db) (ledger db') (ground arith) b
            | inr f ↦
                enqueue_new_keeps s limits now (expired (decode_time v))
                  (IsBalanced-of_eq (limits_of s) (ledger db) (ledger (expired (decode_time v)))
                    (sym (ledger-drop_expired id (decode_time v) db)) b)
                  (subst (λ (l : Ledger). l.next + 1 < u64)
                    (sym (ledger-drop_expired id (decode_time v) db)) n)
                  id event raw ttl a db' (rw (e, f) at h)
          ]
          | inr e ↦ enqueue_new_keeps s limits now db b n id event raw ttl a db' (rw e at h)
        ]

    pub admit_tx_keeps :
        (id event raw : Bytes) (chats : List Bytes) (now : Time) (ttl : ℕ) (db : Db) (a : Bool)
        (db' : Db)
        → IsBalanced (limits_of s) (ledger db)
        → HasNext db
        → admit_tx s id event raw chats now ttl db ≡ ok (a, db')
        → IsBalanced (limits_of s) (ledger db')
    unfolding admit_tx recognise
    admit_tx_keeps id event raw chats now ttl db a db' b n h =
        elim (Option-cases (bolt.get db.delivery_state id)) [
          | inl e ↦
              admit_new_keeps s limits now db b n id event raw chats ttl a db'
                (rw (e, admit_tx) at h)
          | inr (v, e) ↦ IsBalanced-of_eq (limits_of s) (ledger db) (ledger db') (ground arith) b
        ]
