-- ===== src/Forwarder/Targets/Groups.antt =====
-- The items of each chat, as the map of `sendOrdinary` in internal/forwarder/worker.go holds them.
use mathlib.Core.List.{append_assoc, append-nil}
use lark_git_webhook.Base.{
  ◌≡◌, refl, ap, ◌∙◌, Bool, true, false, ◌||◌, List, [], ◌∷◌, ◌++◌, arith, if◌then◌else◌,
  Bool-cases, inl, inr, sym, keep,
}
use lark_git_webhook.Base.Bytes.{Bytes, same, same_iff, same_refl}
use lark_git_webhook.Store.Types.{Item}
use lark_git_webhook.Webhook.Checks.{member}
use lark_git_webhook.Webhook.Targets.{distinct}
use lark_git_webhook.Forwarder.Targets.{
  item_chat_ids, distinct-item_chat_ids, ByChat, append_to, append_each, group_loop, items_of,
  chats_of, group_by_chat,
}

abbrev single : Bool → Item → List Item
single b item = if b then item ∷ [] else []

items_of-append_to :
    (c chat : Bytes) (item : Item) (groups : ByChat)
    → items_of c (append_to chat item groups) ≡ items_of c groups ++ single (same chat c) item
unfolding items_of append_to
items_of-append_to c chat item [] = refl
items_of-append_to c chat item ((d, items) ∷ groups) = elim (Bool-cases (same d chat)) [
  | inl e ↦
      let same_test : same chat c ≡ same d c =
        ap (λ (x : Bytes). same x c) (sym ((same_iff d chat).0 e)) in
      rw (e, same_test) (added (same d c))
  | inr e ↦ rw e (elim (Bool-cases (same d c)) [
    | inl f ↦
        let other : same chat c ≡ false =
          ground (arith, same_iff d chat, same_iff d c, same_iff chat c, same_refl chat) in
        rw (f, other) (sym (append-nil items))
    | inr f ↦ rw f (items_of-append_to c chat item groups)
  ])
]
  where
    added :
        (b : Bool)
        → (if b then items ++ item ∷ [] else items_of c groups)
          ≡ (if b then items else items_of c groups) ++ single b item
    added true = refl
    added false = sym (append-nil (items_of c groups))

items_of-append_each :
    (c : Bytes) (chats : List Bytes) (item : Item) (groups : ByChat)
    → distinct chats ≡ true
    → items_of c (append_each chats item groups) ≡ items_of c groups ++ single (member c chats) item
unfolding append_each
items_of-append_each c [] item groups h = sym (append-nil (items_of c groups))
items_of-append_each c (chat ∷ chats) item groups h =
    items_of-append_each c chats item (append_to chat item groups) (ground arith)
    ∙ (ap (λ (l : List Item). l ++ single (member c chats) item)
          (items_of-append_to c chat item groups)
        ∙ (append_assoc (items_of c groups) (single (same chat c) item)
              (single (member c chats) item)
            ∙ ap (λ (l : List Item). items_of c groups ++ l) once))
  where
    once :
        single (same chat c) item ++ single (member c chats) item
        ≡ single (same chat c || member c chats) item
    once = elim (Bool-cases (same chat c)) [
      | inl e ↦
          let same_chat : chat ≡ c = (same_iff chat c).0 e in
          let absent : member c chats ≡ false = ground arith in rw (e, absent) refl
      | inr e ↦ rw e refl
    ]

abbrev pub goes_to : Bytes → Item → Bool
goes_to c item = member c (item_chat_ids item)

items_of-group_loop :
    (c : Bytes) (items : List Item) (groups : ByChat)
    → items_of c (group_loop items groups) ≡ items_of c groups ++ keep (goes_to c) items
unfolding group_loop
items_of-group_loop c [] groups = sym (append-nil (items_of c groups))
items_of-group_loop c (item ∷ items) groups =
    items_of-group_loop c items (append_each (item_chat_ids item) item groups)
    ∙ (ap (λ (l : List Item). l ++ keep (goes_to c) items)
          (items_of-append_each c (item_chat_ids item) item groups (distinct-item_chat_ids item))
        ∙ (append_assoc (items_of c groups) (single (goes_to c item) item) (keep (goes_to c) items)
            ∙ ap (λ (l : List Item). items_of c groups ++ l) (taken (goes_to c item))))
  where
    taken :
        (b : Bool)
        → single b item ++ keep (goes_to c) items
          ≡ (if b then item ∷ keep (goes_to c) items else keep (goes_to c) items)
    taken true = refl
    taken false = refl

-- Whether some item goes to the chat.
abbrev pub some_goes_to : Bytes → List Item → Bool
some_goes_to c [] = false
some_goes_to c (item ∷ items) = goes_to c item || some_goes_to c items

member-append_to :
    (c chat : Bytes) (item : Item) (groups : ByChat)
    → member c (chats_of (append_to chat item groups)) ≡ (same chat c || member c (chats_of groups))
unfolding append_to
member-append_to c chat item [] = refl
member-append_to c chat item ((d, items) ∷ groups) =
    ground
      (arith, same_iff d chat, same_iff d c, same_iff chat c, member-append_to c chat item groups)

member-append_each :
    (c : Bytes) (chats : List Bytes) (item : Item) (groups : ByChat)
    → member c (chats_of (append_each chats item groups))
      ≡ (member c chats || member c (chats_of groups))
unfolding append_each
member-append_each c [] item groups = refl
member-append_each c (chat ∷ chats) item groups = ground (
  arith,
  member-append_each c chats item (append_to chat item groups),
  member-append_to c chat item groups,
)

member-group_loop :
    (c : Bytes) (items : List Item) (groups : ByChat)
    → member c (chats_of (group_loop items groups))
      ≡ (some_goes_to c items || member c (chats_of groups))
unfolding group_loop
member-group_loop c [] groups = refl
member-group_loop c (item ∷ items) groups = ground (
  arith,
  member-group_loop c items (append_each (item_chat_ids item) item groups),
  member-append_each c (item_chat_ids item) item groups,
)

-- The items of a chat are, in their order, those that go to it, and the chats are those that some
-- item goes to.
pub group_by_chat_lem :
    (c : Bytes) (items : List Item)
    → (items_of c (group_by_chat items) ≡ keep (goes_to c) items)
      × (member c (chats_of (group_by_chat items)) ≡ some_goes_to c items)
unfolding group_by_chat items_of
group_by_chat_lem c items =
    (items_of-group_loop c items [], ground (arith, member-group_loop c items []))
