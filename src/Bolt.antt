-- ===== src/Bolt.antt =====
-- The key-value database (vendor/go.etcd.io/bbolt) as the store uses it: buckets of byte keys in
-- key order. The program does not implement it, so its operations are a parameter with the laws
-- that bbolt documents; `Memory` shows that they can be met.
pub mod Assoc
pub mod Totals
pub mod Laws
pub mod Memory
use lark_git_webhook.Base.{ℕ, ◌≡◌, Option, []}
use lark_git_webhook.Base.Bytes.{Bytes}
use Assoc.{Entries, lookup, insert, erase, IsSorted}

-- `entries` is what a cursor visits from `First` on.
pub record Bolt : Type 1 where
  pub Bucket : Type 0 → Type 0
  pub fresh : {V : Type 0} → Bucket V
  pub get : {V : Type 0} → Bucket V → Bytes → Option V
  pub put : {V : Type 0} → Bucket V → Bytes → V → Bucket V
  pub delete : {V : Type 0} → Bucket V → Bytes → Bucket V
  pub entries : {V : Type 0} → Bucket V → Entries V
  pub entries-fresh : {V : Type 0} → entries (fresh {V = V}) ≡ []
  pub get_entries : {V : Type 0} (b : Bucket V) (k : Bytes) → get b k ≡ lookup k (entries b)
  pub entries-put :
      {V : Type 0} (b : Bucket V) (k : Bytes) (v : V) → entries (put b k v) ≡ insert k v (entries b)
  pub entries-delete :
      {V : Type 0} (b : Bucket V) (k : Bytes) → entries (delete b k) ≡ erase k (entries b)
  pub entries-IsSorted : {V : Type 0} (b : Bucket V) → IsSorted (entries b)
