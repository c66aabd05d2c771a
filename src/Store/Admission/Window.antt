-- ===== src/Store/Admission/Window.antt =====
-- The size of the deduplication window after the admissions of internal/store/store.go.
use lark_git_webhook.Base.{
  ◌≤◌, ◌<◌, ◌≡◌, refl, ap, Bool, false, Option, none, some, List, arith, ltb, ◌==◌, Bool-cases, inl,
  inr, ℕ, length, ◌⊎◌,
}
use lark_git_webhook.Base.Bytes.{Bytes}
use lark_git_webhook.Base.Words.{u64, add64, sub64, add64_exact, sub64_exact}
use lark_git_webhook.Bolt.{Bolt}
use lark_git_webhook.Store.Error.{>>=-eq_ok, ok}
use lark_git_webhook.Store.Keys.{decode_time}
use lark_git_webhook.Store.Types.{DeliveryState, Stored, Time, Encoding}
use lark_git_webhook.Store.Db.{Db, Store}
use lark_git_webhook.Store.Db.Transactions.{update-eq_ok}
use lark_git_webhook.Store.Dedupe.{drop_expired, cleanup_dedupe, remember}
use lark_git_webhook.Store.Dedupe.Bound.{evict_dedupe_lem}
use lark_git_webhook.Store.Admission.{
  recognise, push_item, make_room, enqueue_new, enqueue_tx, enqueue, admit_new, admit_tx, admit,
}

module _ ⦃bolt : Bolt⦄ ⦃encoding : Encoding⦄ where
  open bolt use {get}

  make_room_lem :
      (s : Store) (now : Time) (db : Db)
      → 0 < s.dedupe_max_items
      → s.dedupe_max_items < u64
      → (make_room s now db).meta.dedupe_count < s.dedupe_max_items
  unfolding make_room
  make_room_lem s now db pos fits = omega (
    arith,
    evict_dedupe_lem (sub64 s.dedupe_max_items 1) (cleanup_dedupe now 1000 db),
    sub64_exact s.dedupe_max_items 1 pos fits,
  )

  one_more : (n max : ℕ) → n < max → max < u64 → add64 n 1 ≤ max
  one_more n max h k = omega (arith, add64_exact n 1)

  admit_new-bound :
      (s : Store) (id event raw : Bytes) (chats : List Bytes) (now : Time) (ttl : ℕ) (db db' : Db)
      (again : Bool)
      → 0 < s.dedupe_max_items
      → s.dedupe_max_items < u64
      → admit_new s id event raw chats now ttl db ≡ ok (again, db')
      → db'.meta.dedupe_count ≤ s.dedupe_max_items
  unfolding admit_new remember push_item
  admit_new-bound s id event raw chats now ttl db db' again pos fits h =
      let room = make_room s now db in
      let e : db'.meta.dedupe_count ≡ add64 room.meta.dedupe_count 1 = ground arith in
      rw e
        (one_more room.meta.dedupe_count s.dedupe_max_items (make_room_lem s now db pos fits) fits)

  enqueue_new-bound :
      (s : Store) (id event raw : Bytes) (now : Time) (ttl : ℕ) (db db' : Db) (again : Bool)
      → 0 < s.dedupe_max_items
      → s.dedupe_max_items < u64
      → enqueue_new s id event raw now ttl db ≡ ok (again, db')
      → db'.meta.dedupe_count ≤ s.dedupe_max_items
  unfolding enqueue_new remember push_item
  enqueue_new-bound s id event raw now ttl db db' again pos fits h =
      let room = make_room s now db in
      let e : db'.meta.dedupe_count ≡ add64 room.meta.dedupe_count 1 = ground arith in
      rw e
        (one_more room.meta.dedupe_count s.dedupe_max_items (make_room_lem s now db pos fits) fits)

  module _ (s : Store) (pos : 0 < s.dedupe_max_items) (fits : s.dedupe_max_items < u64) where
    admit_tx-bound :
        (id event raw : Bytes) (chats : List Bytes) (now : Time) (ttl : ℕ) (db db' : Db)
        → admit_tx s id event raw chats now ttl db ≡ ok (false, db')
        → db'.meta.dedupe_count ≤ s.dedupe_max_items
    unfolding admit_tx
    admit_tx-bound id event raw chats now ttl db db' h = go (get db.delivery_state id) refl
      where
        go :
            (o : Option (Stored DeliveryState))
            → get db.delivery_state id ≡ o
            → db'.meta.dedupe_count ≤ s.dedupe_max_items
        go none e =
            admit_new-bound s id event raw chats now ttl db db' false pos fits
              (rw (e, admit_tx) at h)
        go (some value) e =
            let (_, _, known) = >>=-eq_ok (recognise event raw value) _ (rw (e, admit_tx) at h) in
            absurd (ground arith)

    enqueue_tx-bound :
        (id event raw : Bytes) (now : Time) (ttl : ℕ) (db db' : Db)
        → enqueue_tx s id event raw now ttl db ≡ ok (false, db')
        → db'.meta.dedupe_count ≤ s.dedupe_max_items
    unfolding enqueue_tx
    enqueue_tx-bound id event raw now ttl db db' h = go (get db.dedupe id) refl
      where
        go : (o : Option Bytes) → get db.dedupe id ≡ o → db'.meta.dedupe_count ≤ s.dedupe_max_items
        go none e =
            enqueue_new-bound s id event raw now ttl db db' false pos fits (rw (e, enqueue_tx) at h)
        go (some expiry) e = elim (Bool-cases (length expiry == 8)) [
          | inl whole ↦ elim (Bool-cases (ltb now (decode_time expiry))) [
            | inl early ↦ absurd (ground arith)
            | inr late ↦
                enqueue_new-bound s id event raw now ttl (drop_expired id (decode_time expiry) db)
                  db' false pos fits (rw (e, enqueue_tx, whole, late) at h)
          ]
          | inr other ↦
              enqueue_new-bound s id event raw now ttl db db' false pos fits
                (rw (e, enqueue_tx, other) at h)
        ]

    pub admission-bounds_window :
        (t : Store) (id event raw : Bytes) (chats : List Bytes) (now : Time) (ttl : ℕ)
        → (admit s id event raw chats now ttl ≡ (ok false, t))
          ⊎ (enqueue s id event raw now ttl ≡ (ok false, t))
        → (db' : Db) × (t.db ≡ some db') × (db'.meta.dedupe_count ≤ s.dedupe_max_items)
    unfolding admit enqueue
    admission-bounds_window t id event raw chats now ttl (inl h) =
        let (db, db', _, made, moved) = update-eq_ok s (admit_tx s id event raw chats now ttl) h in
        (db', ap (λ (q : Store). q.db) moved, admit_tx-bound id event raw chats now ttl db db' made)
    admission-bounds_window t id event raw chats now ttl (inr h) =
        let (db, db', _, made, moved) = update-eq_ok s (enqueue_tx s id event raw now ttl) h in
        (db', ap (λ (q : Store). q.db) moved, enqueue_tx-bound id event raw now ttl db db' made)
