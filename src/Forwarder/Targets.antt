-- ===== src/Forwarder/Targets.antt =====
-- The chats of an item, and the items of each chat: `itemChatIDs` and the map of `sendOrdinary` in
-- internal/forwarder/worker.go.
pub mod Groups
use lark_git_webhook.Base.{
  ◌≡◌, refl, ap, ◌∙◌, Bool, true, false, not, ◌&&◌, ◌||◌, List, [], ◌∷◌, ◌++◌, arith, if◌then◌else◌,
  Bool-cases, inl, inr, length, sym, ℕ, ◌==◌, keep, Option, none, some,
}
use lark_git_webhook.Base.Bytes.{Bytes, same, same_iff, same_refl, before, before_total}
use lark_git_webhook.Store.Types.{Item}
use lark_git_webhook.Webhook.Checks.{member, add_targets}
use lark_git_webhook.Webhook.Targets.{distinct, member-add_targets, distinct-add_targets}

-- `sort.Strings`, by insertion.
unfoldable pub insert_sorted : Bytes → List Bytes → List Bytes
insert_sorted chat [] = chat ∷ []
insert_sorted chat (c ∷ chats) =
    let later = c ∷ insert_sorted chat chats in if before c chat then later else chat ∷ c ∷ chats

unfoldable pub sort_strings : List Bytes → List Bytes
unfolding insert_sorted
sort_strings [] = []
sort_strings (chat ∷ chats) = insert_sorted chat (sort_strings chats)

-- `itemChatIDs`.
unfoldable pub item_chat_ids : Item → List Bytes
unfolding sort_strings add_targets
item_chat_ids item =
    if length item.chat_ids == 0 then [] ∷ [] else sort_strings (add_targets [] item.chat_ids)

-- The map from chats to their items, an entry for each chat: `byChat[chat] = append(…, item)`.
abbrev pub ByChat : Type 0
ByChat = List (Bytes × List Item)

unfoldable pub append_to : Bytes → Item → ByChat → ByChat
append_to chat item [] = (chat, item ∷ []) ∷ []
append_to chat item ((c, items) ∷ groups) =
    let later = (c, items) ∷ append_to chat item groups in
    if same c chat then (c, items ++ item ∷ []) ∷ groups else later

unfoldable pub append_each : List Bytes → Item → ByChat → ByChat
unfolding append_to
append_each [] item groups = groups
append_each (chat ∷ chats) item groups = append_each chats item (append_to chat item groups)

unfoldable pub group_loop : List Item → ByChat → ByChat
unfolding append_each
group_loop [] groups = groups
group_loop (item ∷ items) groups = group_loop items (append_each (item_chat_ids item) item groups)

-- `byChat[chat]`, empty for a chat that is not there.
unfoldable pub items_of : Bytes → ByChat → List Item
items_of chat [] = []
items_of chat ((c, items) ∷ groups) = if same c chat then items else items_of chat groups

abbrev pub chats_of : ByChat → List Bytes
chats_of [] = []
chats_of ((c, items) ∷ groups) = c ∷ chats_of groups

unfoldable pub group_by_chat : List Item → ByChat
unfolding group_loop
group_by_chat items = group_loop items []

-- The chats in ascending order, none twice.
abbrev pub ascending : List Bytes → Bool
ascending [] = true
ascending (c ∷ []) = true
ascending (c ∷ d ∷ chats) = before c d && ascending (d ∷ chats)

member-insert_sorted :
    (x chat : Bytes) (chats : List Bytes)
    → member x (insert_sorted chat chats) ≡ (same chat x || member x chats)
unfolding insert_sorted
member-insert_sorted x chat [] = refl
member-insert_sorted x chat (c ∷ chats) = ground (arith, member-insert_sorted x chat chats)

pub member-sort_strings :
    (x : Bytes) (chats : List Bytes) → member x (sort_strings chats) ≡ member x chats
unfolding sort_strings
member-sort_strings x [] = refl
member-sort_strings x (chat ∷ chats) =
    ground (arith, member-insert_sorted x chat (sort_strings chats), member-sort_strings x chats)

ascending-insert_sorted :
    (chat : Bytes) (chats : List Bytes)
    → ascending chats ≡ true
    → member chat chats ≡ false
    → ascending (insert_sorted chat chats) ≡ true
unfolding insert_sorted
ascending-insert_sorted chat [] h k = refl
ascending-insert_sorted chat (c ∷ []) h k = ground (arith, before_total c chat)
ascending-insert_sorted chat (c ∷ d ∷ chats) h k =
    ground (arith, before_total c chat, ascending-insert_sorted chat (d ∷ chats))

ascending-sort_strings :
    (chats : List Bytes) → distinct chats ≡ true → ascending (sort_strings chats) ≡ true
unfolding sort_strings
ascending-sort_strings [] h = refl
ascending-sort_strings (chat ∷ chats) h =
    ascending-insert_sorted chat (sort_strings chats) (ascending-sort_strings chats (ground arith))
      (ground (arith, member-sort_strings chat chats))

distinct-insert_sorted :
    (chat : Bytes) (chats : List Bytes)
    → distinct chats ≡ true
    → member chat chats ≡ false
    → distinct (insert_sorted chat chats) ≡ true
unfolding insert_sorted
distinct-insert_sorted chat [] h k = refl
distinct-insert_sorted chat (c ∷ chats) h k = ground (
  arith,
  distinct-insert_sorted chat chats,
  member-insert_sorted c chat chats,
  same_iff c chat,
  same_iff chat c,
)

distinct-sort_strings :
    (chats : List Bytes) → distinct chats ≡ true → distinct (sort_strings chats) ≡ true
unfolding sort_strings
distinct-sort_strings [] h = refl
distinct-sort_strings (chat ∷ chats) h =
    distinct-insert_sorted chat (sort_strings chats) (distinct-sort_strings chats (ground arith))
      (ground (arith, member-sort_strings chat chats))

pub distinct-item_chat_ids : (item : Item) → distinct (item_chat_ids item) ≡ true
unfolding item_chat_ids
distinct-item_chat_ids item = elim (Bool-cases (length item.chat_ids == 0)) [
  | inl e ↦ rw e refl
  | inr e ↦
      rw e (
        distinct-sort_strings (add_targets [] item.chat_ids)
          (distinct-add_targets [] item.chat_ids))
]

-- The chats of an item are in ascending order, none twice, and are those that it names; an item
-- that names none goes to the configured chat, which is written as "".
pub item_chat_ids_lem :
    (item : Item)
    → (ascending (item_chat_ids item) ≡ true)
      × (distinct (item_chat_ids item) ≡ true)
      × (item.chat_ids ≡ [] → item_chat_ids item ≡ [] ∷ [])
      × ((x c : Bytes) (rest : List Bytes)
          → item.chat_ids ≡ c ∷ rest
          → member x (item_chat_ids item) ≡ member x item.chat_ids)
unfolding item_chat_ids
item_chat_ids_lem item =
    let named = add_targets [] item.chat_ids in
    (
      ground (arith, ascending-sort_strings named, distinct-add_targets [] item.chat_ids),
      distinct-item_chat_ids item,
      (λ e. rw e refl),
      λ x c rest e. ground (
        arith,
        member-sort_strings x named,
        member-add_targets x [] item.chat_ids,
        ap (length {A = Bytes}) e,
      ),
    )
