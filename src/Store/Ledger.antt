-- ===== src/Store/Ledger.antt =====
-- The invariant of the queue's books in internal/store/store.go: the counters of the meta bucket
-- are the number and size of what the queue and the dead letters hold, and keep the limits.
pub mod Frame
pub mod Moves
pub mod Admit
pub mod Archive
pub mod Unlock
pub mod Removal
pub mod Recount
pub mod Completion
pub mod Gather
pub mod Letters
pub mod Failing
pub mod Requeue
pub mod Others
use lark_git_webhook.Base.Bytes.{Bytes}
use lark_git_webhook.Base.Words.{u64}
use lark_git_webhook.Bolt.{Bolt}
use lark_git_webhook.Bolt.Assoc.{Entries}
use lark_git_webhook.Bolt.Totals.{All}
use lark_git_webhook.Bolt.Laws.{sum}
use lark_git_webhook.Store.Error.{Result, ok, err, not_open}
use lark_git_webhook.Store.Types.{Item, DeadItem, Stored, json, malformed, Encoding}
use lark_git_webhook.Store.Keys.{number_key}
use lark_git_webhook.Store.Db.{Meta, Db, Store, update, commit}
use lark_git_webhook.Store.Accounting.{active_item_bytes}
use lark_git_webhook.Store.Accounting.Rebuild.{one, size_of}
use lark_git_webhook.Base.{
  ℕ, zero, suc, ◌+◌, ◌-◌, ◌*◌, ◌/◌, ◌%◌, ◌^◌, ◌≤◌, ◌<◌, ◌≡◌, refl, sym, ap, ◌∙◌, subst, ◌≢◌, ◌↔◌,
  ◌⊎◌, inl, inr, Bool, true, false, not, ◌&&◌, ◌||◌, Option, none, some, List, [], ◌∷◌, ◌++◌, map,
  arith, ltb, leb, ◌==◌, if◌then◌else◌, Bool-cases, Option-cases,
}

-- A queue entry stands under the key of its sequence number, which was handed out before.
abbrev pub IsQueued : ℕ → Bytes → Stored Item → Type 0
IsQueued next k (json item) = (k ≡ number_key item.sequence) × (item.sequence ≤ next)
IsQueued next k malformed = ⊥

abbrev pub IsBuried : ℕ → Bytes → Stored DeadItem → Type 0
IsBuried next k (json d) = (k ≡ number_key d.item.sequence) × (d.item.sequence ≤ next)
IsBuried next k malformed = ⊥

pub record Limits : Type 0 where
  pub max_items : ℕ
  pub max_bytes : ℕ
  pub dead_max_items : ℕ
  pub dead_max_bytes : ℕ

-- The limits are uint64 values.
pub record IsBounded (m : Limits) : Type 0 where
  pub items_fit : m.max_items < u64
  pub bytes_fit : m.max_bytes < u64
  pub dead_items_fit : m.dead_max_items < u64
  pub dead_bytes_fit : m.dead_max_bytes < u64

module _ ⦃bolt : Bolt⦄ ⦃encoding : Encoding⦄ where
  open bolt use {Bucket, entries}

  -- The part of the database that the books are about.
  pub record Ledger : Type 0 where
    pub next : ℕ
    pub count : ℕ
    pub bytes : ℕ
    pub dead_count : ℕ
    pub dead_bytes : ℕ
    pub queue : Bucket (Stored Item)
    pub dead_letter : Bucket (Stored DeadItem)

  abbrev pub ledger : Db → Ledger
  ledger db = record {
    next = db.meta.next;
    count = db.meta.count;
    bytes = db.meta.bytes;
    dead_count = db.meta.dead_count;
    dead_bytes = db.meta.dead_bytes;
    queue = db.queue;
    dead_letter = db.dead_letter;
  }

  abbrev pub queue_bytes : Bucket (Stored Item) → ℕ
  queue_bytes = sum (size_of active_item_bytes)

  abbrev pub letter_bytes : Bucket (Stored DeadItem) → ℕ
  letter_bytes = sum (size_of encoding.dead_json_len)

  abbrev pub limits_of : Store → Limits
  limits_of s = record {
    max_items = s.max_items;
    max_bytes = s.max_bytes;
    dead_max_items = s.dead_max_items;
    dead_max_bytes = s.dead_max_bytes;
  }

  pub record IsBalanced (m : Limits) (l : Ledger) : Type 0 where
    pub counted : l.count ≡ sum one l.queue
    pub weighed : l.bytes ≡ queue_bytes l.queue
    pub dead_counted : l.dead_count ≡ sum one l.dead_letter
    pub dead_weighed : l.dead_bytes ≡ letter_bytes l.dead_letter
    pub items_kept : l.count ≤ m.max_items
    pub bytes_kept : l.bytes ≤ m.max_bytes
    pub dead_items_kept : l.dead_count ≤ m.dead_max_items
    pub dead_bytes_kept : l.dead_bytes ≤ m.dead_max_bytes
    pub queued : All (IsQueued l.next) (entries l.queue)
    pub buried : All (IsBuried l.next) (entries l.dead_letter)
    pub numbered : l.next < u64

  -- The books of a store that is open are balanced.
  abbrev BalancedIn : Limits → Option Db → Type 0
  BalancedIn m none = Unit
  BalancedIn m (some db) = IsBalanced m (ledger db)

  abbrev pub IsSound : Store → Type 0
  IsSound s = BalancedIn (limits_of s) s.db

  -- What a transaction has to do for the books.
  abbrev pub KeepsBooks : {A : Type 0} → Limits → (Db → Result (A × Db)) → Type 0
  KeepsBooks {A} m f =
      (db : Db) (a : A) (db' : Db)
      → IsBalanced m (ledger db)
      → f db ≡ ok (a, db')
      → IsBalanced m (ledger db')

  commit-IsSound :
      {A : Type 0} (s : Store) (r : Result (A × Db))
      → ((a : A) (db' : Db) → r ≡ ok (a, db') → IsBalanced (limits_of s) (ledger db'))
      → IsSound s
      → IsSound (commit s r).1
  commit-IsSound s (ok (a, db')) balanced sound = balanced a db' refl
  commit-IsSound s (err e) balanced sound = sound

  -- A transaction that keeps the books of the open database keeps the store sound, also where it
  -- fails.
  pub update-IsSound :
      {A : Type 0} (s : Store) (f : Db → Result (A × Db))
      → ((db : Db) (a : A) (db' : Db)
          → s.db ≡ some db
          → IsBalanced (limits_of s) (ledger db)
          → f db ≡ ok (a, db')
          → IsBalanced (limits_of s) (ledger db'))
      → IsSound s
      → IsSound (update s f).1
  update-IsSound {A} s f keeps sound = go s.db refl sound
    where
      go :
          (o : Option Db)
          → s.db ≡ o
          → BalancedIn (limits_of s) o
          → IsSound (
              let r : Result A × Store = elim o [
                | none ↦ (err not_open, s)
                | some db ↦ commit s (f db)
              ] in
              r.1)
      go none e h = sound
      go (some db) e h = commit-IsSound s (f db) (λ a db' g. keeps db a db' e h g) sound

  -- The limits are fixed when the store is opened.
  pub limits_of-update :
      {A : Type 0} (s : Store) (f : Db → Result (A × Db)) → limits_of (update s f).1 ≡ limits_of s
  limits_of-update {A} s f = go s.db
    where
      committed : (r : Result (A × Db)) → limits_of (commit s r).1 ≡ limits_of s
      committed (ok (a, db)) = refl
      committed (err e) = refl

      go :
          (o : Option Db)
          → limits_of (
              let r : Result A × Store = elim o [
                | none ↦ (err not_open, s)
                | some db ↦ commit s (f db)
              ] in
              r.1)
            ≡ limits_of s
      go none = refl
      go (some db) = committed (f db)

  pub IsBalanced-of_eq : (m : Limits) (l l' : Ledger) → l ≡ l' → IsBalanced m l → IsBalanced m l'
  IsBalanced-of_eq m l l' e b = subst (IsBalanced m) e b
