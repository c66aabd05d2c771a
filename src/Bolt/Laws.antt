-- ===== src/Bolt/Laws.antt =====
-- Consequences of the bucket laws that the store's proofs use.
use lark_git_webhook.Base.{ℕ, ◌+◌, ◌≡◌, none, some, if◌then◌else◌}
use lark_git_webhook.Base.Bytes.{Bytes, same}
use lark_git_webhook.Bolt.{Bolt}
use lark_git_webhook.Bolt.Assoc.{lookup-insert, lookup-erase}
use lark_git_webhook.Bolt.Totals.{total, weight, total-insert, total-erase}

module _ ⦃bolt : Bolt⦄ {V : Type 0} where
  open bolt use {
    Bucket, get, put, delete, entries, get_entries, entries-put, entries-delete, entries-IsSorted,
  }

  pub get-put :
      (b : Bucket V) (k j : Bytes) (v : V)
      → get (put b k v) j ≡ (if same k j then some v else get b j)
  get-put b k j v = simp (get_entries, entries-put, lookup-insert)

  pub get-delete :
      (b : Bucket V) (k j : Bytes) → get (delete b k) j ≡ (if same k j then none else get b j)
  get-delete b k j = simp (get_entries, entries-delete, lookup-erase)

  abbrev pub sum : (V → ℕ) → Bucket V → ℕ
  sum f b = total f (entries b)

  pub sum-put :
      (f : V → ℕ) (b : Bucket V) (k : Bytes) (v : V)
      → sum f (put b k v) + weight f (get b k) ≡ sum f b + f v
  sum-put f b k v =
      rw (get_entries, entries-put) (total-insert f k v (entries b) (entries-IsSorted b))

  pub sum-delete :
      (f : V → ℕ) (b : Bucket V) (k : Bytes) → sum f (delete b k) + weight f (get b k) ≡ sum f b
  sum-delete f b k =
      rw (get_entries, entries-delete) (total-erase f k (entries b) (entries-IsSorted b))
