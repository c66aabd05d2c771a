-- ===== src/Store/Queue/Due.antt =====
-- What `Due` of internal/store/store.go answers for the queue it reads.
use lark_git_webhook.Base.{◌≡◌, refl, sym, ap, some, List, [], ◌∷◌, arith, ℕ, zero, suc, keep}
use lark_git_webhook.Base.Bytes.{Bytes}
use lark_git_webhook.Bolt.{Bolt}
use lark_git_webhook.Bolt.Assoc.{Entries}
use lark_git_webhook.Store.Error.{ok}
use lark_git_webhook.Store.Types.{Time, Item, Stored, json}
use lark_git_webhook.Store.Db.{Db, Store}
use lark_git_webhook.Store.Queue.{is_due, due_loop, due}

-- The first `n` elements.
abbrev pub take {ℓ} : {A : Type ℓ} → ℕ → List A → List A
take n [] = []
take zero (x ∷ xs) = []
take (suc n) (x ∷ xs) = x ∷ take n xs

-- The items of a queue whose values all decode.
abbrev pub encoded : List (Bytes × Item) → Entries (Stored Item)
encoded [] = []
encoded ((k, item) ∷ rest) = (k, json item) ∷ encoded rest

abbrev pub items_of : List (Bytes × Item) → List Item
items_of [] = []
items_of ((k, item) ∷ rest) = item ∷ items_of rest

take_zero {ℓ} : {A : Type ℓ} (xs : List A) → take 0 xs ≡ []
take_zero [] = refl
take_zero (x ∷ xs) = refl

due_loop_lem :
    (now : Time) (limit : ℕ) (queue : List (Bytes × Item))
    → due_loop now limit (encoded queue) ≡ ok (take limit (keep (is_due now) (items_of queue)))
unfolding due_loop
due_loop_lem now zero [] = refl
due_loop_lem now (suc limit) [] = refl
due_loop_lem now zero ((k, item) ∷ rest) =
    ap ok (sym (take_zero (keep (is_due now) (items_of ((k, item) ∷ rest)))))
due_loop_lem now (suc limit) ((k, item) ∷ rest) =
    ground (arith, due_loop_lem now (suc limit) rest, due_loop_lem now limit rest)

module _ ⦃bolt : Bolt⦄ where
  open bolt use {entries}

  -- `Due` answers the first `limit` of the archived items whose next attempt has come, in the order
  -- of their sequence numbers, and no other.
  pub due_lem :
      (s : Store) (db : Db) (queue : List (Bytes × Item)) (now : Time) (limit : ℕ)
      → s.db ≡ some db
      → entries db.queue ≡ encoded queue
      → due s now limit ≡ ok (take limit (keep (is_due now) (items_of queue)))
  unfolding due
  due_lem s db queue now limit e q = rw (e, q) (due_loop_lem now limit queue)
