-- ===== src/Store/Accounting/Rebuild.antt =====
-- What `rebuildActiveStats` and `rebuildDeadStats` count: the entries of the bucket and their sizes.
use lark_git_webhook.Base.Bytes.{Bytes}
use lark_git_webhook.Base.Words.{add64, u64}
use lark_git_webhook.Bolt.Assoc.{Entries}
use lark_git_webhook.Bolt.Totals.{total, All}
use lark_git_webhook.Store.Error.{Result, ok}
use lark_git_webhook.Store.Types.{Stored, json, malformed}
use lark_git_webhook.Store.Accounting.{tally}
use lark_git_webhook.Base.{ℕ, ◌+◌, ◌%◌, ◌<◌, ◌≡◌, ◌∙◌, [], ◌∷◌, arith}

-- What a stored value adds to the count, and to the bytes.
abbrev pub one {ℓ} : {A : Type ℓ} → A → ℕ
one a = 1

abbrev pub size_of : {A : Type 0} → (A → ℕ) → Stored A → ℕ
size_of size (json a) = size a
size_of size malformed = 0

abbrev pub IsReadable : {A : Type 0} → Bytes → Stored A → Type 0
IsReadable k (json a) = Unit
IsReadable k malformed = ⊥

abbrev found : ℕ → ℕ → Result (ℕ × ℕ)
found count bytes = ok (count, bytes)

ok_pair : {a b c d : ℕ} → a ≡ b → c ≡ d → found a c ≡ found b d
ok_pair p q = cc

module _ {A : Type 0} (size : A → ℕ) where
  tally_from :
      (count bytes : ℕ) (l : Entries (Stored A))
      → All IsReadable l
      → count < u64
      → bytes < u64
      → tally size count bytes l
        ≡ ok ((count + total one l) % u64, (bytes + total (size_of size) l) % u64)
  unfolding tally total add64
  tally_from count bytes [] r c b = ok_pair (omega arith) (omega arith)
  tally_from count bytes ((k, json a) ∷ l) r c b =
      tally_from ((count + 1) % u64) ((bytes + size a) % u64) l r.1 (omega arith) (omega arith)
      ∙ ok_pair (omega arith) (omega arith)
  tally_from count bytes ((k, malformed) ∷ l) r c b = absurd r.0

  -- Over readable entries the loop returns their number and their total size, as uint64 values.
  pub tally_lem :
      (l : Entries (Stored A))
      → All IsReadable l
      → total one l < u64
      → total (size_of size) l < u64
      → tally size 0 0 l ≡ ok (total one l, total (size_of size) l)
  tally_lem l r c b =
      tally_from 0 0 l r (omega arith) (omega arith) ∙ ok_pair (omega arith) (omega arith)
