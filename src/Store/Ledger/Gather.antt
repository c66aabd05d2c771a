-- ===== src/Store/Ledger/Gather.antt =====
-- The items that `HandleFailure` reads: each stands in the queue under its own number, and no
-- number comes twice.
use lark_git_webhook.Base.Words.{u64}
use lark_git_webhook.Bolt.{Bolt}
use lark_git_webhook.Bolt.Totals.{All}
use lark_git_webhook.Store.Error.{ok, >>=-eq_ok}
use lark_git_webhook.Store.Types.{Item, Stored, json, malformed, Encoding}
use lark_git_webhook.Store.Keys.{number_key}
use lark_git_webhook.Store.Db.{Db}
use lark_git_webhook.Store.Failure.{gather, has_sequence, repeats}
use lark_git_webhook.Store.Ledger.{IsQueued}
use lark_git_webhook.Store.Ledger.Moves.{queued_item, number_key-injective}
use lark_git_webhook.Base.{
  ℕ, ◌≤◌, ◌<◌, ◌≡◌, refl, sym, subst, ◌⊎◌, inl, inr, false, Option, none, some, List, [], ◌∷◌,
  arith,
}

-- Sequence numbers are uint64 values.
abbrev pub AreNumbered : List Item → Type 0
AreNumbered [] = Unit
AreNumbered (i ∷ items) = (i.sequence < u64) × AreNumbered items

module _ ⦃bolt : Bolt⦄ ⦃encoding : Encoding⦄ where
  open bolt use {Bucket, get, entries}

  -- Every item is stored as it is.
  abbrev pub ArePresent : ℕ → Bucket (Stored Item) → List Item → Type 0
  ArePresent next q [] = Unit
  ArePresent next q (i ∷ items) =
      (get q (number_key i.sequence) ≡ some (json i))
      × (i.sequence ≤ next)
      × ArePresent next q items

  -- An item that is gone is skipped; another is read, and the rest after it.
  abbrev Skipped : Item → List Item → List Item → Db → Type 0
  Skipped item items current db =
      (get db.queue (number_key item.sequence) ≡ none) × (gather items db ≡ ok current)

  abbrev Read : Item → List Item → List Item → Db → Type 0
  Read item items current db =
      (stored : Item) × (rest : List Item) × (get db.queue (number_key item.sequence)
        ≡ some (json stored))
      × (gather items db ≡ ok rest)
      × (current ≡ stored ∷ rest)

  gather_step :
      (item : Item) (items current : List Item) (db : Db)
      → gather (item ∷ items) db ≡ ok current
      → Skipped item items current db ⊎ Read item items current db
  unfolding gather
  gather_step item items current db h = go (get db.queue (number_key item.sequence)) refl
    where
      go :
          (o : Option (Stored Item))
          → get db.queue (number_key item.sequence) ≡ o
          → Skipped item items current db ⊎ Read item items current db
      go none f = inl (f, ground arith)
      go (some malformed) f = absurd (ground arith)
      go (some (json stored)) f =
          let (rest, g, e) =
            >>=-eq_ok (gather items db) (λ rest. ok (stored ∷ rest)) (rw (f, gather) at h) in
          inr (stored, rest, f, g, cc)

  module _ (db : Db) (a : All (IsQueued db.meta.next) (entries db.queue))
      (n : db.meta.next < u64) where
    same_number :
        (item stored : Item)
        → item.sequence < u64
        → get db.queue (number_key item.sequence) ≡ some (json stored)
        → item.sequence ≡ stored.sequence
    same_number item stored k e =
        let (key, handed) =
          queued_item db.meta.next db.queue (number_key item.sequence) stored a e in
        number_key-injective item.sequence stored.sequence k (omega arith) key

    gather_fresh :
        (s : ℕ) (items current : List Item)
        → AreNumbered items
        → has_sequence s items ≡ false
        → gather items db ≡ ok current
        → has_sequence s current ≡ false
    unfolding has_sequence
    gather_fresh s [] current k h e =
        let none_left : [] ≡ current = unfold gather in cc in rw (← none_left)
    gather_fresh s (item ∷ items) current k h e = elim (gather_step item items current db e) [
      | inl (_, g) ↦ gather_fresh s items current k.1 (ground arith) g
      | inr (stored, rest, f, g, r) ↦ rw r (
          ground
            (arith, same_number item stored k.0 f, gather_fresh s items rest k.1 (ground arith) g))
    ]

    pub gather_present :
        (items current : List Item)
        → gather items db ≡ ok current
        → ArePresent db.meta.next db.queue current
    gather_present [] current e =
        let none_left : [] ≡ current = unfold gather in cc in
        subst (ArePresent db.meta.next db.queue) none_left tt
    gather_present (item ∷ items) current e = elim (gather_step item items current db e) [
      | inl (_, g) ↦ gather_present items current g
      | inr (stored, rest, f, g, r) ↦
          let (key, handed) =
            queued_item db.meta.next db.queue (number_key item.sequence) stored a f in
          subst (ArePresent db.meta.next db.queue) (sym r) (
            subst (λ k. get db.queue k ≡ some (json stored)) key f,
            handed,
            gather_present items rest g,
          )
    ]

    pub gather_distinct :
        (items current : List Item)
        → AreNumbered items
        → repeats items ≡ false
        → gather items db ≡ ok current
        → repeats current ≡ false
    unfolding repeats
    gather_distinct [] current k h e =
        let none_left : [] ≡ current = unfold gather in cc in rw (← none_left)
    gather_distinct (item ∷ items) current k h e = elim (gather_step item items current db e) [
      | inl (_, g) ↦ gather_distinct items current k.1 (ground arith) g
      | inr (stored, rest, f, g, r) ↦ rw r (
          ground (
            arith,
            same_number item stored k.0 f,
            gather_fresh item.sequence items rest k.1 (ground arith) g,
            gather_distinct items rest k.1 (ground arith) g,
          ))
    ]
