-- ===== src/Store/Subscription/Seek.antt =====
-- The prefix scan of `RepositorySubscribers` in internal/store/store.go.
use lark_git_webhook.Base.{
  ◌≡◌, refl, sym, ap, ◌∙◌, Bool, true, false, ◌||◌, Option, none, some, List, [], ◌∷◌, ◌++◌, arith,
  if◌then◌else◌, Bool-cases, inl, inr,
}
use lark_git_webhook.Base.Bytes.{
  Bytes, same, same_iff, before, before_irrefl, before_trans, after_prefix, after_prefix-append,
  after_prefix-eq_some,
}
use lark_git_webhook.Bolt.{Bolt}
use lark_git_webhook.Bolt.Laws.{get-put}
use lark_git_webhook.Bolt.Assoc.{Entries, lookup, Above, IsSorted}
use lark_git_webhook.Store.Error.{ok}
use lark_git_webhook.Store.Db.{Db, Store}
use lark_git_webhook.Store.Db.Transactions.{update-eq_ok}
use lark_git_webhook.Store.Subscription.{
  repository_prefix, seek, scan, subscribe_tx, add_repository_subscription, repository_subscribers,
}

-- Whether a list of chats has this one.
abbrev pub has_chat : Bytes → List Bytes → Bool
has_chat chat [] = false
has_chat chat (x ∷ xs) = same x chat || has_chat chat xs

abbrev pub is_some {ℓ} : {A : Type ℓ} → Option A → Bool
is_some none = false
is_some (some a) = true

-- A key that begins with the prefix does not come before it.
not_before : (prefix rest : Bytes) → before (prefix ++ rest) prefix ≡ false
unfolding before
not_before [] [] = refl
not_before [] (x ∷ xs) = refl
not_before (p ∷ ps) rest = ground (arith, not_before ps rest)

-- Past a key that comes after the prefix without beginning with it, no key begins with it.
past :
    (prefix key later rest : Bytes)
    → before key prefix ≡ false
    → after_prefix prefix key ≡ none
    → before key later ≡ true
    → later ≡ prefix ++ rest
    → ⊥
unfolding before after_prefix
past [] key later rest a b c d = ground arith
past (p ∷ ps) [] later rest a b c d = ground arith
past (p ∷ ps) (k ∷ ks) [] rest a b c d = ground arith
past (p ∷ ps) (k ∷ ks) (l ∷ ls) rest a b c d = ground (arith, past ps ks ls rest)

same-append : (p a b : Bytes) → same (p ++ a) (p ++ b) ≡ same a b
unfolding same
same-append [] a b = refl
same-append (x ∷ p) a b = ground (arith, same-append p a b)

is_some-if : (b : Bool) (o : Option Bytes) → is_some (if b then some [] else o) ≡ (b || is_some o)
is_some-if true o = refl
is_some-if false o = refl

prefix_alone : (p k : Bytes) → after_prefix p k ≡ some [] → k ≡ p
unfolding after_prefix
prefix_alone [] k h = ground arith
prefix_alone (x ∷ p) [] h = cc
prefix_alone (x ∷ p) (y ∷ k) h = ground (arith, prefix_alone p k)

module _ {V : Type 0} where
  -- No key comes before the prefix.
  abbrev Reached : Bytes → Entries V → Type 0
  Reached p [] = Unit
  Reached p ((k, v) ∷ l) = (before k p ≡ false) × Reached p l

  Reached-Above : (p k : Bytes) (l : Entries V) → before k p ≡ false → Above k l → Reached p l
  Reached-Above p k [] e a = tt
  Reached-Above p k ((j, v) ∷ l) e a =
      (ground (arith, before_trans k j p), Reached-Above p k l e a.1)

  lookup_past :
      (p k chat : Bytes) (l : Entries V)
      → before k p ≡ false
      → after_prefix p k ≡ none
      → Above k l
      → lookup (p ++ chat) l ≡ none
  unfolding lookup
  lookup_past p k chat [] e n a = refl
  lookup_past p k chat ((j, v) ∷ l) e n a =
      ground (arith, lookup_past p k chat l e n a.1, same_iff j (p ++ chat), past p k j chat)

module _ (p : Bytes) where
  seek-IsSorted : (l : Entries Bytes) → IsSorted l → IsSorted (seek p l) × Reached p (seek p l)
  unfolding seek
  seek-IsSorted [] s = (tt, tt)
  seek-IsSorted ((k, v) ∷ l) s = elim (Bool-cases (before k p)) [
    | inl e ↦ rw e (seek-IsSorted l s.1)
    | inr e ↦ rw e (s, (e, Reached-Above p k l e s.0))
  ]

  lookup-seek :
      (k : Bytes) (l : Entries Bytes) → before k p ≡ false → lookup k (seek p l) ≡ lookup k l
  unfolding seek lookup
  lookup-seek k [] e = refl
  lookup-seek k ((j, v) ∷ l) e = ground (arith, lookup-seek k l, same_iff j k)

  scan_lem :
      (chat : Bytes) (l : Entries Bytes)
      → IsSorted l
      → Reached p l
      → lookup p l ≡ none
      → has_chat chat (scan p l) ≡ is_some (lookup (p ++ chat) l)
  unfolding scan lookup
  scan_lem chat [] s r n = refl
  scan_lem chat ((k, v) ∷ l) s r n =
      go (after_prefix p k) refl (scan_lem chat l s.1 r.1 (ground arith))
    where
      go :
          (o : Option Bytes)
          → after_prefix p k ≡ o
          → has_chat chat (scan p l) ≡ is_some (lookup (p ++ chat) l)
          → has_chat chat (scan p ((k, v) ∷ l)) ≡ is_some (lookup (p ++ chat) ((k, v) ∷ l))
      go none e ih = ground (
        arith,
        lookup_past p k chat l r.0 e s.0,
        same_iff k (p ++ chat),
        after_prefix-append p chat,
      )
      go (some c) e ih =
          let same_key : k ≡ p ++ c = after_prefix-eq_some p k c e in
          let full : same c [] ≡ false =
            ground (arith, same_iff c [], same_iff k p, prefix_alone p k) in
          let found : same k (p ++ chat) ≡ same c chat = rw same_key (same-append p c chat) in
          ground arith

module _ ⦃bolt : Bolt⦄ where
  open bolt use {get, put, entries, get_entries, entries-IsSorted}

  abbrev chats_of : Db → Bytes → List Bytes
  chats_of db repository =
      scan (repository_prefix repository)
        (seek (repository_prefix repository) (entries db.repository_subscription))

  has_chat-chats_of :
      (db : Db) (repository chat : Bytes)
      → get db.repository_subscription (repository_prefix repository) ≡ none
      → has_chat chat (chats_of db repository)
        ≡ is_some (get db.repository_subscription (repository_prefix repository ++ chat))
  has_chat-chats_of db repository chat bare =
      let p = repository_prefix repository in
      let l = entries db.repository_subscription in
      let (sorted, reached) = seek-IsSorted p l (entries-IsSorted db.repository_subscription) in
      let alone : lookup p (seek p l) ≡ none =
        lookup-seek p p l (before_irrefl p)
        ∙ sym (get_entries db.repository_subscription p)
        ∙ bare in
      scan_lem p chat (seek p l) sorted reached alone
      ∙ ap is_some (
          lookup-seek p (p ++ chat) l (not_before p chat)
          ∙ sym (get_entries db.repository_subscription (p ++ chat)))

  -- After a subscription, every repository has the chats that it had and the one whose key was
  -- put, and no other. An entry for the empty chat, which \`AddRepositorySubscription\` never makes
  -- for a name without a zero byte, would end the scan, and is ruled out.
  pub subscribers-add_subscription :
      (s t : Store) (db : Db) (chat repository : Bytes)
      → s.db ≡ some db
      → add_repository_subscription s chat repository ≡ (ok tt, t)
      → (repository' : Bytes)
      → get db.repository_subscription (repository_prefix repository') ≡ none
      → same (repository_prefix repository ++ chat) (repository_prefix repository') ≡ false
      → (old new : List Bytes) × (repository_subscribers s repository' ≡ ok old)
        × (repository_subscribers t repository' ≡ ok new)
        × ((chat' : Bytes)
            → has_chat chat' new ≡ (
                same (repository_prefix repository ++ chat) (repository_prefix repository' ++ chat')
                || has_chat chat' old))
  unfolding add_repository_subscription repository_subscribers
  subscribers-add_subscription s t db chat repository e h repository' bare apart =
      let (db0, db', e0, made, moved) = update-eq_ok s (subscribe_tx chat repository) h in
      let same_db : db0 ≡ db = ground arith in
      let key = repository_prefix repository ++ chat in
      let p = repository_prefix repository' in
      let there : db'.repository_subscription ≡ put db.repository_subscription key [] =
        unfold subscribe_tx in ground arith in
      let bare' : get db'.repository_subscription p ≡ none =
        rw there (get-put db.repository_subscription key p [] ∙ rw apart bare) in
      (
        chats_of db repository',
        chats_of db' repository',
        rw e refl,
        rw (ap (λ (r : Store). r.db) moved) refl,
        λ chat'.
            has_chat-chats_of db' repository' chat' bare'
            ∙ ap (λ b. is_some (get b (p ++ chat'))) there
            ∙ ap is_some (get-put db.repository_subscription key (p ++ chat') [])
            ∙ is_some-if (same key (p ++ chat')) (get db.repository_subscription (p ++ chat'))
            ∙ ap (λ b. same key (p ++ chat') || b)
                (sym (has_chat-chats_of db repository' chat' bare)),
      )
