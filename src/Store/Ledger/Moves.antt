-- ===== src/Store/Ledger/Moves.antt =====
-- Single changes of the queue and of the dead letters of internal/store/store.go, and the books.
use lark_git_webhook.Base.Bytes.{Bytes}
use lark_git_webhook.Base.Words.{u64, add64, add64_exact, sub64, sub64_exact}
use lark_git_webhook.Bolt.{Bolt}
use lark_git_webhook.Bolt.Assoc.{Entries}
use lark_git_webhook.Bolt.Totals.{weight, All, All-insert, All-erase, All-lookup}
use lark_git_webhook.Bolt.Laws.{sum, sum-put, sum-delete}
use lark_git_webhook.Store.Types.{Item, DeadItem, Stored, json, malformed, Encoding}
use lark_git_webhook.Store.Keys.{number_key, get_uint}
use lark_git_webhook.Store.Keys.Roundtrip.{get_uint-number_key}
use lark_git_webhook.Store.Accounting.{active_item_bytes}
use lark_git_webhook.Store.Accounting.Rebuild.{one, size_of, IsReadable}
use lark_git_webhook.Store.Ledger.{
  IsQueued, IsBuried, Limits, IsBounded, Ledger, queue_bytes, IsBalanced,
}
use lark_git_webhook.Base.{
  ℕ, ◌+◌, ◌≤◌, ◌<◌, ◌≡◌, refl, sym, ap, ◌∙◌, inl, inr, none, some, [], ◌∷◌, arith, Option-cases,
  ◌-◌,
}

IsQueued-mono :
    (n n' : ℕ) (l : Entries (Stored Item)) → n ≤ n' → All (IsQueued n) l → All (IsQueued n') l
IsQueued-mono n n' [] h a = tt
IsQueued-mono n n' ((k, json i) ∷ l) h a = ((a.0.0, omega arith), IsQueued-mono n n' l h a.1)
IsQueued-mono n n' ((k, malformed) ∷ l) h a = absurd a.0

IsBuried-mono :
    (n n' : ℕ) (l : Entries (Stored DeadItem)) → n ≤ n' → All (IsBuried n) l → All (IsBuried n') l
IsBuried-mono n n' [] h a = tt
IsBuried-mono n n' ((k, json i) ∷ l) h a = ((a.0.0, omega arith), IsBuried-mono n n' l h a.1)
IsBuried-mono n n' ((k, malformed) ∷ l) h a = absurd a.0

pub IsReadable-queued : (n : ℕ) (l : Entries (Stored Item)) → All (IsQueued n) l → All IsReadable l
IsReadable-queued n [] a = tt
IsReadable-queued n ((k, json i) ∷ l) a = (tt, IsReadable-queued n l a.1)
IsReadable-queued n ((k, malformed) ∷ l) a = absurd a.0

pub IsReadable-buried :
    (n : ℕ) (l : Entries (Stored DeadItem)) → All (IsBuried n) l → All IsReadable l
IsReadable-buried n [] a = tt
IsReadable-buried n ((k, json i) ∷ l) a = (tt, IsReadable-buried n l a.1)
IsReadable-buried n ((k, malformed) ∷ l) a = absurd a.0

-- Sequence numbers are read back from their keys.
pub number_key-injective : (a b : ℕ) → a < u64 → b < u64 → number_key a ≡ number_key b → a ≡ b
number_key-injective a b h k e =
    sym (get_uint-number_key a h) ∙ ap get_uint e ∙ get_uint-number_key b k

above_not_queued :
    (next n : ℕ) (v : Stored Item) → next < n → n < u64 → IsQueued next (number_key n) v → ⊥
above_not_queued next n (json i) h k q =
    absurd (omega (arith, number_key-injective n i.sequence k (omega arith) q.0))
above_not_queued next n malformed h k q = q

module _ ⦃bolt : Bolt⦄ ⦃encoding : Encoding⦄ where
  open bolt use {Bucket, get, put, delete, entries, get_entries, entries-put, entries-delete}

  -- No item is queued under a number that was not handed out.
  pub fresh_key :
      (next n : ℕ) (q : Bucket (Stored Item))
      → next < n
      → n < u64
      → All (IsQueued next) (entries q)
      → get q (number_key n) ≡ none
  fresh_key next n q h k a = elim (Option-cases (get q (number_key n))) [
    | inl e ↦ e
    | inr (v, e) ↦ absurd (
        above_not_queued next n v h k
          (All-lookup (IsQueued next) (number_key n) v (entries q) a (rw get_entries at e)))
  ]

  pub push-IsBalanced :
      (m : Limits) (l : Ledger) (item : Item)
      → IsBounded m
      → IsBalanced m l
      → l.next < item.sequence
      → item.sequence < u64
      → l.count < m.max_items
      → l.bytes + active_item_bytes item ≤ m.max_bytes
      → IsBalanced m (record l {
        next = item.sequence;
        count = add64 l.count 1;
        bytes = add64 l.bytes (active_item_bytes item);
        queue = put l.queue (number_key item.sequence) (json item);
      })
  push-IsBalanced m l item limits b newer small room fits = record {
    counted = omega (arith, exact_count, b.counted, grown one);
    weighed = omega (arith, exact_bytes, b.weighed, grown (size_of active_item_bytes));
    dead_counted = b.dead_counted;
    dead_weighed = b.dead_weighed;
    items_kept = omega (arith, exact_count);
    bytes_kept = omega (arith, exact_bytes);
    dead_items_kept = b.dead_items_kept;
    dead_bytes_kept = b.dead_bytes_kept;
    queued = rw entries-put (
        All-insert (IsQueued item.sequence) (number_key item.sequence) (json item) (entries l.queue)
          (refl, omega arith)
          (IsQueued-mono l.next item.sequence (entries l.queue) (omega arith) b.queued));
    buried = IsBuried-mono l.next item.sequence (entries l.dead_letter) (omega arith) b.buried;
    numbered = small;
  }
    where
      exact_count : add64 l.count 1 ≡ l.count + 1
      exact_count = add64_exact l.count 1 (omega (arith, limits.items_fit))

      exact_bytes : add64 l.bytes (active_item_bytes item) ≡ l.bytes + active_item_bytes item
      exact_bytes = add64_exact l.bytes (active_item_bytes item) (omega (arith, limits.bytes_fit))

      absent : get l.queue (number_key item.sequence) ≡ none
      absent = fresh_key l.next item.sequence l.queue newer small b.queued

      grown :
          (f : Stored Item → ℕ)
          → sum f (put l.queue (number_key item.sequence) (json item))
            ≡ sum f l.queue + f (json item)
      grown f =
          omega
            (arith, sum-put f l.queue (number_key item.sequence) (json item), ap (weight f) absent)

  -- What the queue keeps between two counts: its limits, and keys that fit their items.
  pub record QueueFits (m : Limits) (next : ℕ) (q : Bucket (Stored Item)) : Type 0 where
    pub items_kept : sum one q ≤ m.max_items
    pub bytes_kept : queue_bytes q ≤ m.max_bytes
    pub queued : All (IsQueued next) (entries q)

  pub QueueFits-of_balanced :
      (m : Limits) (l : Ledger) → IsBalanced m l → QueueFits m l.next l.queue
  QueueFits-of_balanced m l b = record {
    items_kept = omega (arith, b.items_kept, b.counted);
    bytes_kept = omega (arith, b.bytes_kept, b.weighed);
    queued = b.queued;
  }

  pub QueueFits-delete :
      (m : Limits) (next : ℕ) (q : Bucket (Stored Item)) (k : Bytes)
      → QueueFits m next q
      → QueueFits m next (delete q k)
  QueueFits-delete m next q k f = record {
    items_kept = omega (arith, f.items_kept, sum-delete one q k);
    bytes_kept = omega (arith, f.bytes_kept, sum-delete (size_of active_item_bytes) q k);
    queued = rw entries-delete (All-erase (IsQueued next) k (entries q) f.queued);
  }

  -- An item gives way to one that is no larger.
  pub QueueFits-put :
      (m : Limits) (next : ℕ) (q : Bucket (Stored Item)) (old new : Item)
      → get q (number_key new.sequence) ≡ some (json old)
      → active_item_bytes new ≤ active_item_bytes old
      → new.sequence ≤ next
      → QueueFits m next q
      → QueueFits m next (put q (number_key new.sequence) (json new))
  QueueFits-put m next q old new there smaller handed f = record {
    items_kept = omega (
      arith,
      f.items_kept,
      sum-put one q (number_key new.sequence) (json new),
      ap (weight one) there,
    );
    bytes_kept = omega (
      arith,
      f.bytes_kept,
      sum-put (size_of active_item_bytes) q (number_key new.sequence) (json new),
      ap (weight (size_of active_item_bytes)) there,
    );
    queued = rw entries-put (
        All-insert (IsQueued next) (number_key new.sequence) (json new) (entries q) (refl, handed)
          f.queued);
  }

  -- What the bucket says of an item that it returns.
  pub queued_item :
      (next : ℕ) (q : Bucket (Stored Item)) (k : Bytes) (item : Item)
      → All (IsQueued next) (entries q)
      → get q k ≡ some (json item)
      → (k ≡ number_key item.sequence) × (item.sequence ≤ next)
  queued_item next q k item a e =
      All-lookup (IsQueued next) k (json item) (entries q) a (rw get_entries at e)

  -- An item is replaced by one of the same size and number.
  pub replace-IsBalanced :
      (m : Limits) (l : Ledger) (k : Bytes) (old new : Item)
      → IsBalanced m l
      → get l.queue k ≡ some (json old)
      → active_item_bytes new ≡ active_item_bytes old
      → new.sequence ≡ old.sequence
      → IsBalanced m (record l { queue = put l.queue k (json new) })
  replace-IsBalanced m l k old new b there same_size same_number = record {
    counted = omega (arith, b.counted, sum-put one l.queue k (json new), ap (weight one) there);
    weighed = omega (
      arith,
      b.weighed,
      same_size,
      sum-put (size_of active_item_bytes) l.queue k (json new),
      ap (weight (size_of active_item_bytes)) there,
    );
    dead_counted = b.dead_counted;
    dead_weighed = b.dead_weighed;
    items_kept = b.items_kept;
    bytes_kept = b.bytes_kept;
    dead_items_kept = b.dead_items_kept;
    dead_bytes_kept = b.dead_bytes_kept;
    queued = rw entries-put (
        All-insert (IsQueued l.next) k (json new) (entries l.queue)
          (rw same_number (queued_item l.next l.queue k old b.queued there)) b.queued);
    buried = b.buried;
    numbered = b.numbered;
  }

  -- A queued item is counted in the bytes.
  pub item-le-bytes :
      (m : Limits) (l : Ledger) (k : Bytes) (item : Item)
      → IsBalanced m l
      → get l.queue k ≡ some (json item)
      → active_item_bytes item ≤ l.bytes
  item-le-bytes m l k item b there = omega (
    arith,
    b.weighed,
    sum-delete (size_of active_item_bytes) l.queue k,
    ap (weight (size_of active_item_bytes)) there,
  )

  -- An item leaves the queue, and the counters go down with it.
  pub drop-IsBalanced :
      (m : Limits) (l : Ledger) (k : Bytes) (item : Item)
      → IsBounded m
      → IsBalanced m l
      → get l.queue k ≡ some (json item)
      → IsBalanced m (record l {
        count = sub64 l.count 1;
        bytes = sub64 l.bytes (active_item_bytes item);
        queue = delete l.queue k;
      })
  drop-IsBalanced m l k item limits b there = record {
    counted = omega (arith, exact_count, b.counted, shrunk one);
    weighed = omega (arith, exact_bytes, b.weighed, shrunk (size_of active_item_bytes));
    dead_counted = b.dead_counted;
    dead_weighed = b.dead_weighed;
    items_kept = omega (arith, exact_count, b.items_kept);
    bytes_kept = omega (arith, exact_bytes, b.bytes_kept);
    dead_items_kept = b.dead_items_kept;
    dead_bytes_kept = b.dead_bytes_kept;
    queued = rw entries-delete (All-erase (IsQueued l.next) k (entries l.queue) b.queued);
    buried = b.buried;
    numbered = b.numbered;
  }
    where
      shrunk : (f : Stored Item → ℕ) → sum f (delete l.queue k) + f (json item) ≡ sum f l.queue
      shrunk f = omega (arith, sum-delete f l.queue k, ap (weight f) there)

      exact_count : sub64 l.count 1 ≡ l.count - 1
      exact_count =
          sub64_exact l.count 1 (omega (arith, shrunk one, b.counted))
            (omega (arith, b.items_kept, limits.items_fit))

      exact_bytes : sub64 l.bytes (active_item_bytes item) ≡ l.bytes - active_item_bytes item
      exact_bytes =
          sub64_exact l.bytes (active_item_bytes item)
            (omega (arith, shrunk (size_of active_item_bytes), b.weighed))
            (omega (arith, b.bytes_kept, limits.bytes_fit))
