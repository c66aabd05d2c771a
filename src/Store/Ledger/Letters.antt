-- ===== src/Store/Ledger/Letters.antt =====
-- The loop of `HandleFailure` in internal/store/store.go, and the books of the dead letters.
use lark_git_webhook.Base.{
  ℕ, ◌+◌, ◌≤◌, ◌<◌, ◌≡◌, refl, sym, ap, ◌∙◌, subst, inl, inr, Bool, true, false, not, ◌&&◌, some,
  List, [], ◌∷◌, arith, ◌==◌, if◌then◌else◌, Bool-cases,
}
use lark_git_webhook.Base.Bytes.{same, same_iff}
use lark_git_webhook.Base.Words.{u64, add64_exact}
use lark_git_webhook.Bolt.{Bolt}
use lark_git_webhook.Bolt.Totals.{All, All-insert}
use lark_git_webhook.Bolt.Laws.{sum, sum-put, get-put, get-delete}
use lark_git_webhook.Store.Error.{ok, >>=-eq_ok}
use lark_git_webhook.Store.Types.{Item, DeadItem, dead, FailureResult, Stored, json, Encoding}
use lark_git_webhook.Store.Keys.{number_key}
use lark_git_webhook.Store.Db.{Db}
use lark_git_webhook.Store.Accounting.{active_item_bytes}
use lark_git_webhook.Store.Accounting.Rebuild.{one, size_of}
use lark_git_webhook.Store.Failure.{
  Attempt, exhausted, dead_item, dead_demand, retried_item, bury, retry, fail_loop, has_sequence,
  repeats,
}
use lark_git_webhook.Store.Ledger.{IsBuried, Limits, Ledger, ledger, letter_bytes}
use lark_git_webhook.Store.Ledger.Moves.{
  QueueFits, QueueFits-delete, QueueFits-put, number_key-injective,
}
use lark_git_webhook.Store.Ledger.Frame.{ledger-set_status}
use lark_git_webhook.Store.Ledger.Gather.{ArePresent}
use lark_git_webhook.Store.Ledger.Recount.{LettersFit}

module _ ⦃encoding : Encoding⦄ (a : Attempt) where
  -- The demand for dead letters as unbounded numbers.
  abbrev pub exact_demand : List Item → ℕ × ℕ
  exact_demand [] = (0, 0)
  exact_demand (item ∷ items) =
      let rest = exact_demand items in
      if exhausted a item
      then (1 + rest.0, encoding.dead_json_len (dead_item a item) + rest.1)
      else rest

  pub dead_demand_exact :
      (items : List Item)
      → (exact_demand items).0 < u64
      → (exact_demand items).1 < u64
      → dead_demand a items ≡ exact_demand items
  unfolding dead_demand
  dead_demand_exact [] c b = refl
  dead_demand_exact (item ∷ items) c b = elim (Bool-cases (exhausted a item)) [
    | inl e ↦
        let c' : 1 + (exact_demand items).0 < u64 = rw e at c in
        let b' : encoding.dead_json_len (dead_item a item) + (exact_demand items).1 < u64 =
          rw e at b in
        rw e (
          rw (dead_demand_exact items (omega arith) (omega arith)) (
            cc (
              add64_exact 1 (exact_demand items).0 c',
              add64_exact (encoding.dead_json_len (dead_item a item)) (exact_demand items).1 b',
            )))
    | inr e ↦ rw e (dead_demand_exact items (rw e at c) (rw e at b))
  ]

module _ ⦃bolt : Bolt⦄ ⦃encoding : Encoding⦄ where
  open bolt use {Bucket, get, put, delete, entries, entries-put}

  other_key :
      (next : ℕ) (i j : Item)
      → next < u64
      → i.sequence ≤ next
      → j.sequence ≤ next
      → (j.sequence == i.sequence) ≡ false
      → same (number_key i.sequence) (number_key j.sequence) ≡ false
  other_key next i j n p q h =
      elim (Bool-cases (same (number_key i.sequence) (number_key j.sequence))) [
        | inl e ↦
            let equal : i.sequence ≡ j.sequence =
              number_key-injective i.sequence j.sequence (omega arith) (omega arith)
                ((same_iff (number_key i.sequence) (number_key j.sequence)).0 e) in
            absurd (ground arith)
        | inr e ↦ e
      ]

  ArePresent-delete :
      (next : ℕ) (q : Bucket (Stored Item)) (i : Item) (items : List Item)
      → next < u64
      → i.sequence ≤ next
      → has_sequence i.sequence items ≡ false
      → ArePresent next q items
      → ArePresent next (delete q (number_key i.sequence)) items
  unfolding has_sequence
  ArePresent-delete next q i [] n p h a = tt
  ArePresent-delete next q i (j ∷ items) n p h a = (
    rw get-delete (rw (other_key next i j n p a.1 (ground arith)) a.0),
    a.1,
    ArePresent-delete next q i items n p (ground arith) a.2,
  )

  ArePresent-put :
      (next : ℕ) (q : Bucket (Stored Item)) (i : Item) (v : Stored Item) (items : List Item)
      → next < u64
      → i.sequence ≤ next
      → has_sequence i.sequence items ≡ false
      → ArePresent next q items
      → ArePresent next (put q (number_key i.sequence) v) items
  unfolding has_sequence
  ArePresent-put next q i v [] n p h a = tt
  ArePresent-put next q i v (j ∷ items) n p h a = (
    rw get-put (rw (other_key next i j n p a.1 (ground arith)) a.0),
    a.1,
    ArePresent-put next q i v items n p (ground arith) a.2,
  )

  -- The dead letters have room for so many more, of so many bytes.
  pub record HasBudget (m : Limits) (next : ℕ) (q : Bucket (Stored DeadItem)) (count bytes : ℕ)
      : Type 0 where
    pub items_kept : sum one q + count ≤ m.dead_max_items
    pub bytes_kept : letter_bytes q + bytes ≤ m.dead_max_bytes
    pub buried : All (IsBuried next) (entries q)

  -- Nothing is buried while the dead letters are full.
  abbrev pub demand_of : Attempt → Bool → List Item → ℕ × ℕ
  demand_of a full items = if full then (0, 0) else exact_demand a items

  module _ (m : Limits) (a : Attempt) where
    bury_step :
        (item : Item) (db d : Db) (count bytes : ℕ)
        → get db.queue (number_key item.sequence) ≡ some (json item)
        → item.sequence ≤ db.meta.next
        → QueueFits m db.meta.next db.queue
        → HasBudget m db.meta.next db.dead_letter
            (1 + count)
            (encoding.dead_json_len (dead_item a item) + bytes)
        → bury a item db ≡ ok d
        → QueueFits m d.meta.next d.queue
          × HasBudget m d.meta.next d.dead_letter count bytes
          × (d.meta.next ≡ db.meta.next)
          × (d.queue ≡ delete db.queue (number_key item.sequence))
    unfolding bury
    bury_step item db d count bytes there handed f g h =
        let key = number_key item.sequence in
        let letters = put db.dead_letter key (json (dead_item a item)) in
        let e : ledger d
            ≡ ledger (record db { queue = delete db.queue key; dead_letter = letters }) =
          ledger-set_status dead item.delivery_id
            (record db { queue = delete db.queue key; dead_letter = letters }) d h in
        (
          subst (λ (l : Ledger). QueueFits m l.next l.queue) (sym e)
              (QueueFits-delete m db.meta.next db.queue key f),
          subst (λ (l : Ledger). HasBudget m l.next l.dead_letter count bytes) (sym e)
              (record {
                items_kept =
                    omega (
                      arith,
                      g.items_kept,
                      sum-put one db.dead_letter key (json (dead_item a item)),
                    );
                bytes_kept = omega (
                  arith,
                  g.bytes_kept,
                  sum-put (size_of encoding.dead_json_len) db.dead_letter key
                      (json (dead_item a item)),
                );
                buried = rw entries-put (
                    All-insert (IsBuried db.meta.next) key (json (dead_item a item))
                      (entries db.dead_letter) (refl, handed) g.buried);
              }),
          ap (λ (l : Ledger). l.next) e,
          ap (λ (l : Ledger). l.queue) e,
        )

    demand_buried :
        (full : Bool) (item : Item) (items : List Item)
        → (exhausted a item && not full) ≡ true
        → demand_of a full (item ∷ items) ≡ (
          1 + (demand_of a full items).0,
          encoding.dead_json_len (dead_item a item) + (demand_of a full items).1,
        )
    demand_buried full item items e = ground arith

    demand_retried :
        (full : Bool) (item : Item) (items : List Item)
        → (exhausted a item && not full) ≡ false
        → demand_of a full (item ∷ items) ≡ demand_of a full items
    demand_retried full item items e = ground arith

    retried_size :
        (full : Bool) (item : Item)
        → active_item_bytes (retried_item a full item) ≡ active_item_bytes item
    unfolding active_item_bytes
    retried_size full item = refl

    -- What the loop owes, from any state in which its items are still queued.
    abbrev LoopKeeps : Bool → List Item → Type 0
    LoopKeeps full items =
        (r : FailureResult) (db : Db) (r' : FailureResult) (db' : Db)
        → db.meta.next < u64
        → repeats items ≡ false
        → ArePresent db.meta.next db.queue items
        → QueueFits m db.meta.next db.queue
        → HasBudget m db.meta.next db.dead_letter (demand_of a full items).0
            (demand_of a full items).1
        → fail_loop a full items r db ≡ ok (r', db')
        → QueueFits m db'.meta.next db'.queue
          × LettersFit m db'.meta.next db'.dead_letter
          × (db'.meta.next ≡ db.meta.next)

    pub fail_loop-LoopKeeps : (full : Bool) (items : List Item) → LoopKeeps full items
    unfolding fail_loop repeats
    fail_loop-LoopKeeps full [] r db r' db' n d p f g h =
        let same_db : db ≡ db' = ground arith in
        subst
          (λ (x : Db).
            QueueFits m x.meta.next x.queue
            × LettersFit m x.meta.next x.dead_letter
            × (x.meta.next ≡ db.meta.next))
          same_db
          (
            f,
            record {
              items_kept = omega (arith, g.items_kept);
              bytes_kept = omega (arith, g.bytes_kept);
              buried = g.buried;
            },
            refl,
          )
    fail_loop-LoopKeeps full (item ∷ items) r db r' db' n d p f g h =
        elim (Bool-cases (exhausted a item && not full)) [
          | inl e ↦
              buried (fail_loop-LoopKeeps full items) e
                (>>=-eq_ok (bury a item db) _ (rw (e, fail_loop) at h))
          | inr e ↦
              fail_loop-LoopKeeps full items (record r { retried = r.retried + 1 })
                (retry a full item db) r' db' n (ground arith)
                (ArePresent-put db.meta.next db.queue item (json (retried_item a full item)) items n
                  p.1 (ground arith) p.2)
                (QueueFits-put m db.meta.next db.queue item (retried_item a full item) p.0
                  (omega (arith, retried_size full item)) p.1 f)
                (subst (λ (x : ℕ × ℕ). HasBudget m db.meta.next db.dead_letter x.0 x.1)
                  (demand_retried full item items e) g)
                (rw (e, fail_loop) at h)
        ]
      where
        next_result : FailureResult
        next_result = record r { dead_lettered = r.dead_lettered + 1 }

        go_on :
            (x : Db)
            → x.meta.next ≡ db.meta.next
            → x.queue ≡ delete db.queue (number_key item.sequence)
            → ArePresent x.meta.next x.queue items
        go_on x e q =
            rw (e, q) (ArePresent-delete db.meta.next db.queue item items n p.1 (ground arith) p.2)

        buried :
            LoopKeeps full items
            → (exhausted a item && not full) ≡ true
            → (x : Db) × (bury a item db ≡ ok x)
              × (fail_loop a full items next_result x ≡ ok (r', db'))
            → QueueFits m db'.meta.next db'.queue
              × LettersFit m db'.meta.next db'.dead_letter
              × (db'.meta.next ≡ db.meta.next)
        buried rest e (x, k, l) =
            let budget : HasBudget m db.meta.next db.dead_letter (1 + (demand_of a full items).0)
                (encoding.dead_json_len (dead_item a item) + (demand_of a full items).1) =
              subst (λ (x : ℕ × ℕ). HasBudget m db.meta.next db.dead_letter x.0 x.1)
                (demand_buried full item items e) g in
            let (f', g', next, queue) =
              bury_step item db x (demand_of a full items).0 (demand_of a full items).1 p.0 p.1 f
                budget k in
            let (f'', g'', next') =
              rest next_result x r' db' (rw next n) (ground arith) (go_on x next queue) f' g' l in
            (f'', g'', next' ∙ next)
