-- ===== src/Forwarder/Split.antt =====
-- The batches of a round: `splitWithLookup` of internal/forwarder/worker.go.
use mathlib.Core.List.{append_assoc}
use lark_git_webhook.Base.{
  ◌+◌, ◌≡◌, refl, ap, ◌∙◌, ℕ, Bool, true, false, List, [], ◌∷◌, ◌++◌, map, ltb, if◌then◌else◌,
  Bool-cases, inl, inr, sym, subst,
}
use lark_git_webhook.Base.Bytes.{Bytes}
use lark_git_webhook.Store.Types.{Item}
use lark_git_webhook.Forwarder.Machine.{Outside}
use lark_git_webhook.Forwarder.Text.{format_for_limit}

module _ ⦃outside : Outside⦄ where
  abbrev pub lines_of : ℕ → List Item → List Bytes
  lines_of max_bytes items = map (format_for_limit max_bytes) items

  -- `messageSizeWithLookup`.
  unfoldable pub message_size_of : ℕ → List Item → ℕ
  message_size_of max_bytes items = outside.message_size (lines_of max_bytes items)

  abbrev pub overfull : ℕ → List Item → Bool
  overfull max_bytes items = ltb max_bytes (message_size_of max_bytes items + 300)

  -- The loop; `current` is the last of the batches.
  unfoldable pub split_from : ℕ → List Item → List Item → List (List Item)
  split_from max_bytes current [] = current ∷ []
  split_from max_bytes current (item ∷ items) =
      let candidate = current ++ item ∷ [] in
      let next_batch = current ∷ split_from max_bytes (item ∷ []) items in
      let longer = split_from max_bytes candidate items in
      if overfull max_bytes candidate then next_batch else longer

  -- `splitWithLookup`.
  unfoldable pub split : ℕ → List Item → List (List Item)
  unfolding split_from
  split max_bytes [] = []
  split max_bytes (item ∷ items) = split_from max_bytes (item ∷ []) items

  abbrev pub concat : List (List Item) → List Item
  concat [] = []
  concat (batch ∷ batches) = batch ++ concat batches

  -- A batch has an item, and fits into a message unless that is its only one.
  abbrev pub IsBatch : ℕ → List Item → Type 0
  IsBatch max_bytes [] = ⊥
  IsBatch max_bytes (item ∷ []) = Unit {0}
  IsBatch max_bytes (item ∷ other ∷ items) = overfull max_bytes (item ∷ other ∷ items) ≡ false

  -- The next batch begins with an item that did not fit into this one.
  abbrev pub IsFull : ℕ → List Item → List (List Item) → Type 0
  IsFull max_bytes batch [] = Unit {0}
  IsFull max_bytes batch ([] ∷ batches) = ⊥
  IsFull max_bytes batch ((item ∷ items) ∷ batches) = overfull max_bytes (batch ++ item ∷ []) ≡ true

  abbrev pub ArePacked : ℕ → List (List Item) → Type 0
  ArePacked max_bytes [] = Unit {0}
  ArePacked max_bytes (batch ∷ batches) =
      IsBatch max_bytes batch × IsFull max_bytes batch batches × ArePacked max_bytes batches

  -- The first batch begins with what is given to the loop.
  first_batch :
      (max_bytes : ℕ) (item : Item) (more items : List Item)
      → (more' : List Item) × (batches : List (List Item)) × (split_from max_bytes
            (item ∷ more)
            items
          ≡ (item ∷ more') ∷ batches)
  unfolding split_from
  first_batch max_bytes item more [] = (more, [], refl)
  first_batch max_bytes item more (next ∷ items) =
      elim (Bool-cases (overfull max_bytes (item ∷ more ++ next ∷ []))) [
        | inl e ↦ (more, split_from max_bytes (next ∷ []) items, rw e refl)
        | inr e ↦
            let (more', batches, f) = first_batch max_bytes item (more ++ next ∷ []) items in
            (more', batches, rw e f)
      ]

  IsBatch-append :
      (max_bytes : ℕ) (item next : Item) (more : List Item)
      → overfull max_bytes (item ∷ more ++ next ∷ []) ≡ false
      → IsBatch max_bytes (item ∷ more ++ next ∷ [])
  IsBatch-append max_bytes item next [] e = e
  IsBatch-append max_bytes item next (other ∷ more) e = e

  split_from_lem :
      (max_bytes : ℕ) (item : Item) (more items : List Item)
      → IsBatch max_bytes (item ∷ more)
      → (concat (split_from max_bytes (item ∷ more) items) ≡ (item ∷ more) ++ items)
        × ArePacked max_bytes (split_from max_bytes (item ∷ more) items)
  unfolding split_from
  split_from_lem max_bytes item more [] fit = (refl, (fit, tt, tt))
  split_from_lem max_bytes item more (next ∷ items) fit =
      elim (Bool-cases (overfull max_bytes (item ∷ more ++ next ∷ []))) [
        | inl e ↦
            let (same_items, packed) = split_from_lem max_bytes next [] items tt in
            let (more', batches, f) = first_batch max_bytes next [] items in
            rw e (
              ap (λ (rest : List Item). item ∷ more ++ rest) same_items,
              (fit, subst (IsFull max_bytes (item ∷ more)) (sym f) e, packed),
            )
        | inr e ↦
            let (same_items, packed) =
              split_from_lem max_bytes item (more ++ next ∷ []) items
                (IsBatch-append max_bytes item next more e) in
            rw e (same_items ∙ append_assoc (item ∷ more) (next ∷ []) items, packed)
      ]

  -- The batches are the items in their order. No batch is empty, each fits into a message unless it
  -- is a single item, and each is as large as can be: the first item of the next batch would not
  -- have fitted.
  pub split_lem :
      (max_bytes : ℕ) (items : List Item)
      → (concat (split max_bytes items) ≡ items) × ArePacked max_bytes (split max_bytes items)
  unfolding split
  split_lem max_bytes [] = (refl, tt)
  split_lem max_bytes (item ∷ items) = split_from_lem max_bytes item [] items tt
