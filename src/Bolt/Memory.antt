-- ===== src/Bolt/Memory.antt =====
-- A database in memory that meets the bucket laws: sorted lists with the proof that they are.
use lark_git_webhook.Base.{refl, []}
use lark_git_webhook.Bolt.{Bolt}
use lark_git_webhook.Bolt.Assoc.{
  Entries, lookup, insert, erase, IsSorted, insert-IsSorted, erase-IsSorted,
}

abbrev pub Sorted : Type 0 → Type 0
Sorted V = (l : Entries V) × IsSorted l

instance unfoldable pub memory : Bolt
unfolding lookup insert erase
memory = record {
  Bucket = Sorted;
  fresh = ([], tt);
  get = λ b k. lookup k b.0;
  put = λ b k v. (insert k v b.0, insert-IsSorted k v b.0 b.1);
  delete = λ b k. (erase k b.0, erase-IsSorted k b.0 b.1);
  entries = λ b. b.0;
  entries-fresh = refl;
  get_entries = λ b k. refl;
  entries-put = λ b k v. refl;
  entries-delete = λ b k. refl;
  entries-IsSorted = λ b. b.1;
}
