-- ===== src/Bolt/Assoc.antt =====
-- Association lists in key order: what a bucket of the database shows to a cursor.
use lark_git_webhook.Base.{◌≡◌, refl, true, Option, none, some, List, [], ◌∷◌, arith, if◌then◌else◌}
use lark_git_webhook.Base.Bytes.{
  Bytes, same, same_iff, before, before_irrefl, before_trans, before_total,
}

abbrev pub Entries {ℓ} : Type ℓ → Type ℓ
Entries V = List (Bytes × V)

module _ {ℓ} {V : Type ℓ} where
  unfoldable pub lookup : Bytes → Entries V → Option V
  lookup k [] = none
  lookup k ((j, v) ∷ l) = if same j k then some v else lookup k l

  -- `k` keeps its place, or goes before the first greater key.
  unfoldable pub insert : Bytes → V → Entries V → Entries V
  insert k v [] = (k, v) ∷ []
  insert k v ((j, w) ∷ l) =
      let rest = insert k v l in
      if same j k then (k, v) ∷ l else if before k j then (k, v) ∷ (j, w) ∷ l else (j, w) ∷ rest

  unfoldable pub erase : Bytes → Entries V → Entries V
  erase k [] = []
  erase k ((j, v) ∷ l) = let rest = erase k l in if same j k then rest else (j, v) ∷ rest

  -- Every key of the list comes after `k`.
  abbrev pub Above : Bytes → Entries V → Type 0
  Above k [] = Unit
  Above k ((j, v) ∷ l) = (before k j ≡ true) × Above k l

  abbrev pub IsSorted : Entries V → Type 0
  IsSorted [] = Unit
  IsSorted ((k, v) ∷ l) = Above k l × IsSorted l

  pub lookup-insert :
      (k j : Bytes) (v : V) (l : Entries V)
      → lookup j (insert k v l) ≡ (if same k j then some v else lookup j l)
  unfolding lookup insert
  lookup-insert k j v [] = refl
  lookup-insert k j v ((i, w) ∷ l) =
      ground (arith, same_iff k j, same_iff i k, same_iff i j, lookup-insert k j v l)

  pub lookup-erase :
      (k j : Bytes) (l : Entries V) → lookup j (erase k l) ≡ (if same k j then none else lookup j l)
  unfolding lookup erase
  lookup-erase k j [] = ground arith
  lookup-erase k j ((i, w) ∷ l) =
      ground (arith, same_iff k j, same_iff i k, same_iff i j, lookup-erase k j l)

  pub Above-trans : (i k : Bytes) (l : Entries V) → before i k ≡ true → Above k l → Above i l
  Above-trans i k [] h a = tt
  Above-trans i k ((j, v) ∷ l) h a = (before_trans i k j h a.0, Above-trans i k l h a.1)

  Above-insert :
      (i k : Bytes) (v : V) (l : Entries V) → before i k ≡ true → Above i l → Above i (insert k v l)
  unfolding insert
  Above-insert i k v [] h a = (h, tt)
  Above-insert i k v ((j, w) ∷ l) h a = ground (arith, Above-insert i k v l)

  Above-erase : (i k : Bytes) (l : Entries V) → Above i l → Above i (erase k l)
  unfolding erase
  Above-erase i k [] a = tt
  Above-erase i k ((j, w) ∷ l) a = ground (arith, Above-erase i k l)

  pub insert-IsSorted : (k : Bytes) (v : V) (l : Entries V) → IsSorted l → IsSorted (insert k v l)
  unfolding insert
  insert-IsSorted k v [] s = (tt, tt)
  insert-IsSorted k v ((j, w) ∷ l) s = ground (
    arith,
    insert-IsSorted k v l,
    Above-insert j k v l,
    Above-trans k j l,
    same_iff j k,
    before_total k j,
    same_iff k j,
  )

  pub erase-IsSorted : (k : Bytes) (l : Entries V) → IsSorted l → IsSorted (erase k l)
  unfolding erase
  erase-IsSorted k [] s = tt
  erase-IsSorted k ((j, w) ∷ l) s = ground (arith, erase-IsSorted k l, Above-erase j k l)

  pub lookup-Above : (k : Bytes) (l : Entries V) → Above k l → lookup k l ≡ none
  unfolding lookup
  lookup-Above k [] a = refl
  lookup-Above k ((j, v) ∷ l) a = ground (arith, same_iff j k, before_irrefl k, lookup-Above k l)

  pub erase-Above : (k : Bytes) (l : Entries V) → Above k l → erase k l ≡ l
  unfolding erase
  erase-Above k [] a = refl
  erase-Above k ((j, v) ∷ l) a = ground (arith, same_iff j k, before_irrefl k, erase-Above k l)

  -- The first entry of a sorted list goes, and nothing else.
  pub erase_head :
      (k : Bytes) (v : V) (l : Entries V) → IsSorted ((k, v) ∷ l) → erase k ((k, v) ∷ l) ≡ l
  unfolding erase
  erase_head k v l s = ground (arith, same_iff k k, erase-Above k l)
