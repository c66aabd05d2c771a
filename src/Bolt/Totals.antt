-- ===== src/Bolt/Totals.antt =====
-- Sums over the values of an association list, and properties of all its entries.
use lark_git_webhook.Base.{
  ℕ, ◌+◌, ◌≤◌, ◌≡◌, Option, none, some, [], ◌∷◌, arith, Bool-cases, inl, inr, subst,
}
use lark_git_webhook.Base.Bytes.{Bytes, same, same_iff, before}
use lark_git_webhook.Bolt.Assoc.{
  Entries, lookup, insert, erase, IsSorted, lookup-Above, Above-trans, erase-Above,
}

module _ {ℓ} {V : Type ℓ} where
  unfoldable pub total : (V → ℕ) → Entries V → ℕ
  total f [] = 0
  total f ((k, v) ∷ l) = f v + total f l

  abbrev pub weight : (V → ℕ) → Option V → ℕ
  weight f none = 0
  weight f (some v) = f v

  pub total-insert :
      (f : V → ℕ) (k : Bytes) (v : V) (l : Entries V)
      → IsSorted l
      → total f (insert k v l) + weight f (lookup k l) ≡ total f l + f v
  unfolding total insert lookup
  total-insert f k v [] s = omega arith
  total-insert f k v ((j, w) ∷ l) s =
      ground (arith, total-insert f k v l s.1, same_iff j k, lookup-Above k l, Above-trans k j l)

  pub total-erase :
      (f : V → ℕ) (k : Bytes) (l : Entries V)
      → IsSorted l
      → total f (erase k l) + weight f (lookup k l) ≡ total f l
  unfolding total erase lookup
  total-erase f k [] s = omega arith
  total-erase f k ((j, w) ∷ l) s =
      ground (arith, total-erase f k l s.1, same_iff j k, lookup-Above k l, erase-Above k l)

  pub weight-le-total : (f : V → ℕ) (k : Bytes) (l : Entries V) → weight f (lookup k l) ≤ total f l
  unfolding total lookup
  weight-le-total f k [] = omega arith
  weight-le-total f k ((j, w) ∷ l) = ground (arith, weight-le-total f k l)

  -- Every entry satisfies `P`.
  abbrev pub All {κ} : (Bytes → V → Type κ) → Entries V → Type κ
  All P [] = Unit
  All P ((k, v) ∷ l) = P k v × All P l

  pub All-insert {κ} :
      (P : Bytes → V → Type κ) (k : Bytes) (v : V) (l : Entries V)
      → P k v
      → All P l
      → All P (insert k v l)
  unfolding insert
  All-insert P k v [] p a = (p, tt)
  All-insert P k v ((j, w) ∷ l) p a = elim (Bool-cases (same j k)) [
    | inl e ↦ rw e (p, a.1)
    | inr e ↦ rw e (elim (Bool-cases (before k j)) [
      | inl b ↦ rw b (p, a)
      | inr b ↦ rw b (a.0, All-insert P k v l p a.1)
    ])
  ]

  pub All-erase {κ} :
      (P : Bytes → V → Type κ) (k : Bytes) (l : Entries V) → All P l → All P (erase k l)
  unfolding erase
  All-erase P k [] a = tt
  All-erase P k ((j, w) ∷ l) a = elim (Bool-cases (same j k)) [
    | inl e ↦ rw e (All-erase P k l a.1)
    | inr e ↦ rw e (a.0, All-erase P k l a.1)
  ]

  same_value : (v w : V) → some v ≡ some w → v ≡ w
  same_value v w h = cc

  pub All-lookup {κ} :
      (P : Bytes → V → Type κ) (k : Bytes) (v : V) (l : Entries V)
      → All P l
      → lookup k l ≡ some v
      → P k v
  unfolding lookup
  All-lookup P k v [] a h = cc
  All-lookup P k v ((j, w) ∷ l) a h = elim (Bool-cases (same j k)) [
    | inl e ↦ subst (λ x. P x v) ((same_iff j k).0 e) (subst (P j) (same_value w v (rw e at h)) a.0)
    | inr e ↦ All-lookup P k v l a.1 (rw e at h)
  ]
