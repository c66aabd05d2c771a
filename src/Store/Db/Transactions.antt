-- ===== src/Store/Db/Transactions.antt =====
-- What the transactions of internal/store/store.go come to, for one call.
use lark_git_webhook.Base.{◌≡◌, refl, sym, ap, ◌∙◌, Option, none, some, arith}
use lark_git_webhook.Bolt.{Bolt}
use lark_git_webhook.Store.Error.{Error, Result, ok, err, not_open}
use lark_git_webhook.Store.Db.{Db, Store, update, commit}

module _ ⦃bolt : Bolt⦄ where
  -- What a call that succeeded went through.
  abbrev pub Committed : {A : Type 0} → Store → (Db → Result (A × Db)) → A → Store → Type 0
  Committed s f a t =
      (db : Db) × (db' : Db) × (s.db ≡ some db)
      × (f db ≡ ok (a, db'))
      × (t ≡ record s { db = some db' })

  committed :
      {A : Type 0} (s : Store) (r : Result (A × Db)) {a : A} {t : Store}
      → commit s r ≡ (ok a, t)
      → (db' : Db) × (r ≡ ok (a, db')) × (t ≡ record s { db = some db' })
  committed s (ok (a', db')) h = (db', ground arith, ground arith)
  committed s (err e) h = absurd (ground arith)

  opened :
      {A : Type 0} (s : Store) (f : Db → Result (A × Db)) (o : Option Db) {a : A} {t : Store}
      → s.db ≡ o
      → ◌≡◌ {A = Result A × Store}
          (elim o [ none ↦ (err not_open, s) | some db ↦ commit s (f db) ])
          (ok a, t)
      → Committed s f a t
  opened s f none e h = absurd (ground arith)
  opened s f (some db) e h = let (db', r, there) = committed s (f db) h in (db, db', e, r, there)

  pub update-eq_ok :
      {A : Type 0} (s : Store) (f : Db → Result (A × Db)) {a : A} {t : Store}
      → update s f ≡ (ok a, t)
      → Committed s f a t
  update-eq_ok s f h = opened s f s.db refl h

  pub update_ok :
      {A : Type 0} (s : Store) (f : Db → Result (A × Db)) {a : A} (db db' : Db)
      → s.db ≡ some db
      → f db ≡ ok (a, db')
      → update s f ≡ (ok a, record s { db = some db' })
  update_ok s f db db' e h = rw (e, h)

  pub update_err :
      {A : Type 0} (s : Store) (f : Db → Result (A × Db)) {e : Error} (db : Db)
      → s.db ≡ some db
      → f db ≡ err e
      → update s f ≡ (err e, s)
  update_err s f db e h = rw (e, h)

  -- A transaction that writes nothing leaves the store as it was.
  pub update_same :
      {A : Type 0} (s : Store) (f : Db → Result (A × Db)) {a : A} (db : Db)
      → s.db ≡ some db
      → f db ≡ ok (a, db)
      → update s f ≡ (ok a, s)
  update_same s f {a = a} db e h =
      update_ok s f db db e h ∙ ap (λ o. (ok a, record s { db = o })) (sym e)
