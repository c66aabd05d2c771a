-- ===== src/Archive/Kept.antt =====
-- What storing a payload in internal/archive/archive.go does to those that are in the archive.
use lark_git_webhook.Base.{
  ◌≡◌, refl, ap, ◌∙◌, subst, ℕ, zero, suc, Bool, true, false, Option, none, some, [], arith,
  Bool-cases, inl, inr,
}
use lark_git_webhook.Base.Bytes.{Bytes, same, same_iff}
use lark_git_webhook.Archive.{ArchiveResult, done, failed}
use lark_git_webhook.Archive.Payloads.{Folder, delivery_dir, existing_payload}
use lark_git_webhook.Archive.Folders.{archived_payload-none, existing_payload-none}
use lark_git_webhook.Archive.Writes.{
  Elsewhere, set_folder-Elsewhere, set_folder-places, Holds, Writes, write_if_space-Writes,
}
use lark_git_webhook.Archive.Files.{
  Place, directory, no_directory, Files, Disk, Stores, next_call, set_folder, read_place, look_up,
  unless_fails, attempts, write_if_space, store_in, store_at, store_payload,
}

-- The payloads that are in the archive stay in it.
abbrev pub Keeps : Files → Files → Type 0
Keeps files files' =
    (event id payload : Bytes)
    → look_up files event id payload ≡ done true
    → look_up files' event id payload ≡ done true

differ : (res : ArchiveResult Bool) → res ≡ done true → res ≡ done false → ⊥
differ res h k = cc

-- A directory that has no payload may be changed.
Elsewhere-Keeps :
    (name : Bytes) (files files' : Files)
    → ((event payload : Bytes) → read_place (files.places name) event payload ≡ done true → ⊥)
    → Elsewhere name files files'
    → Keeps files files'
unfolding look_up
Elsewhere-Keeps name files files' empty elsewhere event id payload h = go (delivery_dir id) refl
  where
    go : (o : Option Bytes) → delivery_dir id ≡ o → look_up files' event id payload ≡ done true
    go none e = absurd (ground (arith, (rw (e, look_up) at h)))
    go (some k) e = elim (Bool-cases (same k name)) [
      | inl s ↦ absurd (
          empty event payload (
            subst (λ (n : Bytes). read_place (files.places n) event payload ≡ done true)
              ((same_iff k name).0 s) (rw (e, look_up) at h)))
      | inr s ↦ rw (e, look_up, elsewhere k s) (rw (e, look_up) at h)
    ]

-- A payload that was stored is there, and none of the others is lost, also when a store fails.
abbrev pub Stored : Bytes → Bytes → Bytes → Files → Stores → Type 0
Stored event id payload files (failed e, files') = Keeps files files'
Stored event id payload files (done created, files') =
    Keeps files files' × (look_up files' event id payload ≡ done true)

module _ (name event payload : Bytes) where
  -- The same, by the directory.
  abbrev StoredAt : Files → Stores → Type 0
  StoredAt files (failed e, files') = Keeps files files'
  StoredAt files (done created, files') = Keeps files files' × Holds name event payload files'

  StoredAt-Writes :
      (files : Files) (out : Stores)
      → ((event' payload' : Bytes) → read_place (files.places name) event' payload' ≡ done true → ⊥)
      → Writes name event payload files out
      → StoredAt files out
  StoredAt-Writes files (failed e, files') nothing elsewhere =
      Elsewhere-Keeps name files files' nothing elsewhere
  StoredAt-Writes files (done created, files') nothing (elsewhere, there) =
      (Elsewhere-Keeps name files files' nothing elsewhere, there)

  StoredAt-after :
      (files f : Files) (out : Stores) → Keeps files f → StoredAt f out → StoredAt files out
  StoredAt-after files f (failed e, files') first keeps =
      λ event' id payload' h. keeps event' id payload' (first event' id payload' h)
  StoredAt-after files f (done created, files') first (keeps, there) =
      (λ event' id payload' h. keeps event' id payload' (first event' id payload' h), there)

  module _ ⦃disk : Disk⦄ (named : same event [] ≡ false) (min_free : ℕ) (needs_check : Bool) where
    unless_fails-StoredAt :
        (f : Files) (next : Files → Stores)
        → StoredAt (next_call f) (next (next_call f))
        → StoredAt f (unless_fails f next)
    unfolding unless_fails look_up
    unless_fails-StoredAt f next rest = elim (Bool-cases (disk.fails f.asked)) [
      | inl e ↦ rw (e, unless_fails) (λ event' id payload' h. h)
      | inr e ↦
          rw (e, unless_fails)
            (StoredAt-after f (next_call f) (next (next_call f)) (λ event' id payload' h. h) rest)
    ]

    attempts-StoredAt :
        (k : ℕ) (next : Files → Stores) (f : Files)
        → ((g : Files) → g.places ≡ f.places → StoredAt g (next g))
        → StoredAt f (attempts k next f)
    unfolding attempts
    attempts-StoredAt zero next f each = each f refl
    attempts-StoredAt (suc k) next f each =
        unless_fails-StoredAt f (attempts k next) (attempts-StoredAt k next (next_call f) each)

    store_in-StoredAt :
        (folder : Folder) (files : Files)
        → files.places name ≡ some (directory folder)
        → StoredAt files (store_in min_free needs_check name folder event payload files)
    unfolding store_in read_place
    store_in-StoredAt folder files place = go (existing_payload folder event payload) refl
      where
        read : (e p : Bytes) → read_place (files.places name) e p ≡ existing_payload folder e p
        read e p = ap (λ o. read_place o e p) place

        go :
            (res : ArchiveResult Bool)
            → existing_payload folder event payload ≡ res
            → StoredAt files (store_in min_free needs_check name folder event payload files)
        go (failed e) h = rw (h, store_in) (λ event' id payload' k. k)
        go (done true) h =
            rw (h, store_in)
              (unless_fails-StoredAt files (λ f. (done false, f))
                ((λ event' id payload' k. k), read event payload ∙ h))
        go (done false) h =
            let empty = archived_payload-none folder event payload h in
            rw (h, store_in)
              (StoredAt-Writes files
                (write_if_space min_free needs_check name folder event payload files)
                (λ e p k.
                  differ (read_place (files.places name) e p) k
                    (read e p ∙ existing_payload-none folder e p empty))
                (write_if_space-Writes name event payload folder empty named min_free needs_check
                  files))

    store_at-StoredAt :
        (files : Files) → StoredAt files (store_at min_free needs_check name event payload files)
    unfolding store_at read_place
    store_at-StoredAt files = go (files.places name) refl
      where
        go :
            (o : Option Place)
            → files.places name ≡ o
            → StoredAt files (store_at min_free needs_check name event payload files)
        go none e =
            let f = set_folder name [] files in
            rw (e, store_at)
              (StoredAt-after files f
                (attempts 4 (store_in min_free needs_check name [] event payload) f)
                (Elsewhere-Keeps name files f
                  (λ e' p k.
                    differ (read_place (files.places name) e' p) k (ap (λ o. read_place o e' p) e))
                  (set_folder-Elsewhere name [] files))
                (attempts-StoredAt 4 (store_in min_free needs_check name [] event payload) f
                  λ g same_places. store_in-StoredAt [] g (
                    ap (λ (places : Bytes → Option Place). places name) same_places
                    ∙ set_folder-places name [] files)))
        go (some (directory folder)) e =
            rw (e, store_at)
              (attempts-StoredAt 4 (store_in min_free needs_check name folder event payload) files
                λ g same_places.
                  store_in-StoredAt folder g
                    (ap (λ (places : Bytes → Option Place). places name) same_places ∙ e))
        go (some no_directory) e = rw (e, store_at) (λ event' id payload' h. h)

module _ ⦃disk : Disk⦄ where
  Stored-at :
      (name event id payload : Bytes) (files : Files) (out : Stores)
      → delivery_dir id ≡ some name
      → StoredAt name event payload files out
      → Stored event id payload files out
  unfolding look_up
  Stored-at name event id payload files (failed e, files') dir keeps = keeps
  Stored-at name event id payload files (done created, files') dir (keeps, there) =
      (keeps, rw (dir, look_up) there)

  pub store_payload_lem :
      (min_free : ℕ) (needs_check : Bool) (files : Files) (event id payload : Bytes)
      → same event [] ≡ false
      → Stored event id payload files (store_payload min_free needs_check files event id payload)
  unfolding store_payload
  store_payload_lem min_free needs_check files event id payload named = go (delivery_dir id) refl
    where
      go :
          (o : Option Bytes)
          → delivery_dir id ≡ o
          → Stored event id payload files
              (store_payload min_free needs_check files event id payload)
      go none e = rw (e, store_payload) (λ event' id' payload' h. h)
      go (some name) e =
          rw (e, store_payload)
            (Stored-at name event id payload files
              (unless_fails files (store_at min_free needs_check name event payload)) e
              (unless_fails-StoredAt name event payload named min_free needs_check files
                (store_at min_free needs_check name event payload)
                (store_at-StoredAt name event payload named min_free needs_check
                  (next_call files))))
