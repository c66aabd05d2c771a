-- ===== src/Store/Subscription.antt =====
-- Repository subscriptions and the consumer lock of internal/store/store.go.
pub mod Seek
use lark_git_webhook.Base.{Bool, true, false, ◌||◌, none, some, List, [], ◌∷◌, ◌++◌, if◌then◌else◌}
use lark_git_webhook.Base.Bytes.{Bytes, same, before, after_prefix}
use lark_git_webhook.Bolt.{Bolt}
use lark_git_webhook.Bolt.Assoc.{Entries}
use lark_git_webhook.Store.Error.{Result, ok, err, missing_argument}
use lark_git_webhook.Store.Db.{Store, update, view, Db}

-- `repository + "\x00"`.
abbrev pub repository_prefix : Bytes → Bytes
repository_prefix repository = repository ++ (0 ∷ [])

-- `cursor.Seek(prefix)`: the entries from the first key that is not before it.
unfoldable pub seek : Bytes → Entries Bytes → Entries Bytes
seek prefix [] = []
seek prefix ((k, v) ∷ rest) =
    let later = seek prefix rest in if before k prefix then later else (k, v) ∷ rest

-- The loop ends at the first key that is not longer than the prefix, or does not begin with it.
unfoldable pub scan : Bytes → Entries Bytes → List Bytes
scan prefix [] = []
scan prefix ((k, v) ∷ rest) =
    let more = scan prefix rest in
    elim (after_prefix prefix k) [
      | none ↦ []
      | some chat ↦ (if same chat [] then [] else chat ∷ more)
    ]

module _ ⦃bolt : Bolt⦄ where
  open bolt use {put, entries}

  unfoldable pub subscribe_tx : Bytes → Bytes → Db → Result (Unit {0} × Db)
  subscribe_tx chat repository db =
      if same chat [] || same repository []
      then err missing_argument
      else ok (
        tt,
        record db {
          repository_subscription =
              put db.repository_subscription (repository_prefix repository ++ chat) [];
        },
      )

  unfoldable pub add_repository_subscription : Store → Bytes → Bytes → Result (Unit {0}) × Store
  unfolding subscribe_tx
  add_repository_subscription s chat repository = update s (subscribe_tx chat repository)

  unfoldable pub repository_subscribers : Store → Bytes → Result (List Bytes)
  unfolding seek scan
  repository_subscribers s repository = view s λ db.
      let prefix = repository_prefix repository in
      ok (scan prefix (seek prefix (entries db.repository_subscription)))

  -- Whether this caller now is the consumer.
  unfoldable pub acquire_consumer : Store → Bool × Store
  acquire_consumer s =
      if s.consumer_held then (false, s) else (true, record s { consumer_held = true })

  -- The function that `AcquireConsumer` hands out.
  unfoldable pub release_consumer : Store → Store
  release_consumer s = record s { consumer_held = false }
