-- ===== src/Webhook/Targets.antt =====
-- The chats that a delivery goes to, of `deliveryTargets` in internal/webhook/handler.go.
use lark_git_webhook.Base.{
  ◌≡◌, refl, Bool, true, false, not, ◌&&◌, ◌||◌, List, [], ◌∷◌, arith, Bool-cases, inl, inr,
}
use lark_git_webhook.Base.Bytes.{Bytes, same, same_iff, same_refl}
use lark_git_webhook.Bolt.{Bolt}
use lark_git_webhook.Store.Error.{Result, ok, err}
use lark_git_webhook.Store.Types.{Encoding}
use lark_git_webhook.Store.Db.{Store}
use lark_git_webhook.Store.Subscription.{repository_subscribers}
use lark_git_webhook.Archive.{Archive}
use lark_git_webhook.Webhook.Checks.{Content, member, add_targets, repository_name}
use lark_git_webhook.Webhook.{Handler, delivery_targets}

-- No chat occurs twice.
abbrev pub distinct : List Bytes → Bool
distinct [] = true
distinct (x ∷ xs) = not (member x xs) && distinct xs

pub member-add_targets :
    (x : Bytes) (seen chats : List Bytes)
    → member x (add_targets seen chats) ≡ (member x chats && not (member x seen))
unfolding add_targets
member-add_targets x seen [] = refl
member-add_targets x seen (chat ∷ chats) = ground (
  arith,
  member-add_targets x seen chats,
  member-add_targets x (chat ∷ seen) chats,
  same_iff chat x,
)

pub distinct-add_targets : (seen chats : List Bytes) → distinct (add_targets seen chats) ≡ true
unfolding add_targets
distinct-add_targets seen [] = refl
distinct-add_targets seen (chat ∷ chats) = ground (
  arith,
  distinct-add_targets seen chats,
  distinct-add_targets (chat ∷ seen) chats,
  member-add_targets chat (chat ∷ seen) chats,
  same_refl chat,
)

module _ ⦃bolt : Bolt⦄ ⦃encoding : Encoding⦄ ⦃archive : Archive⦄ ⦃content : Content⦄ where
  -- The targets of a delivery are the default chat, first, and the subscribers of its repository,
  -- each once; a body that names no repository goes to the default chat alone.
  pub delivery_targets_lem :
      (h : Handler) (s : Store) (body : Bytes) (targets : List Bytes)
      → delivery_targets h s body ≡ ok targets
      → (rest : List Bytes) × (targets ≡ h.default_chat ∷ rest)
        × (distinct targets ≡ true)
        × (same (repository_name body) [] ≡ true → rest ≡ [])
        × ((subscribers : List Bytes)
            → same (repository_name body) [] ≡ false
            → repository_subscribers s (repository_name body) ≡ ok subscribers
            → (x : Bytes) → member x targets ≡ (same h.default_chat x || member x subscribers))
  unfolding delivery_targets
  delivery_targets_lem h s body targets e = elim (Bool-cases (same (repository_name body) [])) [
    | inl a ↦
        let only : targets ≡ h.default_chat ∷ [] = ground arith in
        ([], only, rw only refl, λ _. refl, λ subscribers b. absurd (ground arith))
    | inr b ↦ go b (repository_subscribers s (repository_name body)) refl
  ]
    where
      go :
          same (repository_name body) [] ≡ false
          → (o : Result (List Bytes)) → repository_subscribers s (repository_name body) ≡ o
          → (rest : List Bytes) × (targets ≡ h.default_chat ∷ rest)
            × (distinct targets ≡ true)
            × (same (repository_name body) [] ≡ true → rest ≡ [])
            × ((subscribers : List Bytes)
                → same (repository_name body) [] ≡ false
                → repository_subscribers s (repository_name body) ≡ ok subscribers
                → (x : Bytes) → member x targets ≡ (same h.default_chat x || member x subscribers))
      go b (err why) f = absurd (ground arith)
      go b (ok found) f =
          let rest = add_targets (h.default_chat ∷ []) found in
          let all : targets ≡ h.default_chat ∷ rest = ground arith in
          (
            rest,
            all,
            rw all (
                ground (
                  arith,
                  distinct-add_targets (h.default_chat ∷ []) found,
                  member-add_targets h.default_chat (h.default_chat ∷ []) found,
                  same_refl h.default_chat,
                )),
            λ a. absurd (ground arith),
            λ subscribers _ g x.
                let same_list : found ≡ subscribers = ground arith in
                rw (all, ← same_list)
                  (ground (arith, member-add_targets x (h.default_chat ∷ []) found)),
          )
