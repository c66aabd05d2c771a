-- ===== src/Store/Dedupe/Bound.antt =====
-- The bound that `evictDedupe` of internal/store/store.go puts on the deduplication window.
use lark_git_webhook.Base.{
  ◌≤◌, ◌<◌, ◌≡◌, ap, ◌∙◌, subst, ◌∷◌, arith, ltb, Bool-cases, inl, inr, ℕ, zero, suc, length,
  List-cases,
}
use lark_git_webhook.Base.Bytes.{Bytes}
use lark_git_webhook.Bolt.{Bolt}
use lark_git_webhook.Bolt.Assoc.{Entries, erase, erase_head, IsSorted}
use lark_git_webhook.Store.Db.{Db}
use lark_git_webhook.Store.Dedupe.{forget, drop_entry, evict_loop, evict_dedupe}

module _ ⦃bolt : Bolt⦄ where
  open bolt use {delete, entries, entries-delete, entries-IsSorted}

  index-drop_entry :
      (key id : Bytes) (db : Db)
      → (drop_entry key id db).dedupe_expiry ≡ delete db.dedupe_expiry key
  unfolding drop_entry forget
  index-drop_entry key id db = ground arith

  -- A round removes the first entry, so the index gets shorter.
  length-drop_entry :
      (key id : Bytes) (rest : Entries Bytes) (db : Db)
      → entries db.dedupe_expiry ≡ (key, id) ∷ rest
      → entries (drop_entry key id db).dedupe_expiry ≡ rest
  length-drop_entry key id rest db e =
      ap entries (index-drop_entry key id db)
      ∙ entries-delete db.dedupe_expiry key
      ∙ ap (erase key) e
      ∙ erase_head key id rest (subst IsSorted e (entries-IsSorted db.dedupe_expiry))

  evict_loop_lem :
      (fuel max : ℕ) (db : Db)
      → length (entries db.dedupe_expiry) < fuel
      → (evict_loop fuel max db).meta.dedupe_count ≤ max
  unfolding evict_loop
  evict_loop_lem zero max db h = absurd (omega arith)
  evict_loop_lem (suc fuel) max db h = elim (Bool-cases (ltb max db.meta.dedupe_count)) [
    | inl over ↦ elim (List-cases (entries db.dedupe_expiry)) [
      | inl e ↦ rw (evict_loop, over, e) (omega arith)
      | inr ((key, id), rest, e) ↦
          rw (evict_loop, over, e)
            (evict_loop_lem fuel max (drop_entry key id db) (shorter key id rest e))
    ]
    | inr within ↦ rw (evict_loop, within) (ground arith)
  ]
    where
      shorter :
          (key id : Bytes) (rest : Entries Bytes)
          → entries db.dedupe_expiry ≡ (key, id) ∷ rest
          → length (entries (drop_entry key id db).dedupe_expiry) < fuel
      shorter key id rest e =
          let fits : length rest < fuel =
            omega (arith, subst (λ (l : Entries Bytes). length l < suc fuel) e h) in
          rw (length-drop_entry key id rest db e) fits

  -- The eviction ends with at most `max` entries counted.
  pub evict_dedupe_lem : (max : ℕ) (db : Db) → (evict_dedupe max db).meta.dedupe_count ≤ max
  unfolding evict_dedupe
  evict_dedupe_lem max db =
      evict_loop_lem (suc (length (entries db.dedupe_expiry))) max db (omega arith)
