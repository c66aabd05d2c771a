-- ===== src/Archive/Writes.antt =====
-- The writes of internal/archive/archive.go, which change one directory.
use lark_git_webhook.Base.{
  ◌≡◌, refl, ap, ◌∙◌, ℕ, zero, suc, Bool, true, false, none, some, [], ◌∷◌, ◌++◌, Bool-cases, inl,
  inr, length,
}
use lark_git_webhook.Base.Bytes.{Bytes, same, same_refl, ascii}
use lark_git_webhook.Archive.{
  ArchiveError, archive_conflict, archive_unavailable, ArchiveResult, done, failed, check_space,
}
use lark_git_webhook.Archive.Payloads.{
  Node, regular, Folder, payload_name, has_slash, archived_payload, existing_payload,
}
use lark_git_webhook.Archive.Folders.{
  existing_payload-none, existing_payload-published, existing_payload-temporary,
}
use lark_git_webhook.Archive.Files.{
  directory, Files, Disk, Stores, next_call, set_folder, is_there, read_place, unless_fails,
  temporary, remove_temporary, finish_publish, resolve_taken, link_payload, fill_temporary,
  write_payload, write_if_space,
}

-- The other directories are as they were.
abbrev pub Elsewhere : Bytes → Files → Files → Type 0
Elsewhere name files files' = (k : Bytes) → same k name ≡ false → files'.places k ≡ files.places k

pub set_folder-Elsewhere :
    (name : Bytes) (folder : Folder) (files : Files)
    → Elsewhere name files (set_folder name folder files)
unfolding set_folder
set_folder-Elsewhere name folder files k h = rw h refl

pub set_folder-places :
    (name : Bytes) (folder : Folder) (files : Files)
    → (set_folder name folder files).places name ≡ some (directory folder)
unfolding set_folder
set_folder-places name folder files = rw (same_refl name) refl

module _ (name event payload : Bytes) where
  -- The directory has the payload.
  abbrev pub Holds : Files → Type 0
  Holds files = read_place (files.places name) event payload ≡ done true

  -- A stretch that changes one directory, which has the payload if it succeeds.
  abbrev pub Writes : Files → Stores → Type 0
  Writes files (failed e, files') = Elsewhere name files files'
  Writes files (done created, files') = Elsewhere name files files' × Holds files'

  module _ ⦃disk : Disk⦄ (folder : Folder) (empty : archived_payload folder ≡ done none) where
    remove_temporary-Writes :
        (temp : Bytes × Node) (folder' : Folder) (e : ArchiveError) (files : Files)
        → Writes files (remove_temporary name temp folder' (failed e) files)
    unfolding remove_temporary
    remove_temporary-Writes temp folder' e files = elim (Bool-cases (disk.fails files.asked)) [
      | inl f ↦
          rw (f, remove_temporary) (set_folder-Elsewhere name (temp ∷ folder') (next_call files))
      | inr f ↦ rw (f, remove_temporary) (set_folder-Elsewhere name folder' (next_call files))
    ]

    unless_fails-Writes :
        (files f : Files) (next : Files → Stores)
        → Elsewhere name files f
        → Writes files (next (next_call f))
        → Writes files (unless_fails f next)
    unfolding unless_fails
    unless_fails-Writes files f next first rest = elim (Bool-cases (disk.fails f.asked)) [
      | inl e ↦ rw (e, unless_fails) first
      | inr e ↦ rw (e, unless_fails) rest
    ]

    finish_publish-Writes :
        (temp : Bytes × Node) (folder' : Folder) (files : Files)
        → existing_payload folder' event payload ≡ done true
        → Writes files (finish_publish name temp folder' files)
    unfolding finish_publish read_place
    finish_publish-Writes temp folder' files there = elim (Bool-cases (disk.fails files.asked)) [
      | inl f ↦
          rw (f, finish_publish)
            (remove_temporary-Writes temp folder' archive_unavailable (next_call files))
      | inr f ↦
          let f' = set_folder name folder' (next_call files) in
          let moved = set_folder-Elsewhere name folder' (next_call files) in
          rw (f, finish_publish)
            (unless_fails-Writes files f' (λ g. (done true, g)) moved
              (
                moved,
                ap (λ o. read_place o event payload)
                      (set_folder-places name folder' (next_call files))
                    ∙ there,
              ))
    ]

    resolve_taken-Writes :
        (random : Bytes) (files : Files)
        → Writes files
            (resolve_taken name (ascii ".tmp-" ++ random, regular []) folder event payload files)
    unfolding resolve_taken
    resolve_taken-Writes random files =
        rw
          (
            resolve_taken,
            existing_payload-temporary random (regular []) folder event payload
                ∙ existing_payload-none folder event payload empty,
          )
          (remove_temporary-Writes (ascii ".tmp-" ++ random, regular []) folder archive_conflict
            files)

    module _ (named : same event [] ≡ false) (random : Bytes) where
      temp : Bytes × Node
      temp = (ascii ".tmp-" ++ random, regular [])

      link_payload-Writes :
          (files : Files) → Writes files (link_payload name temp folder event payload files)
      unfolding link_payload temp
      link_payload-Writes files = elim (Bool-cases (disk.fails files.asked)) [
        | inl f ↦
            rw (f, link_payload)
              (remove_temporary-Writes temp folder archive_unavailable (next_call files))
        | inr f ↦ elim (Bool-cases (is_there (payload_name event) folder)) [
          | inl e ↦ rw (f, link_payload, e) (resolve_taken-Writes random (next_call files))
          | inr e ↦ elim (Bool-cases (has_slash event)) [
            | inl g ↦
                rw (f, link_payload, e, g)
                  (remove_temporary-Writes temp folder archive_unavailable (next_call files))
            | inr g ↦
                rw (f, link_payload, e, g)
                  (finish_publish-Writes temp ((payload_name event, regular payload) ∷ folder)
                    (next_call files)
                    (existing_payload-published folder event payload empty named g))
          ]
        ]
      ]

      fill_temporary-Writes :
          (left : ℕ) (files : Files)
          → Writes files (fill_temporary left name temp folder event payload files)
      unfolding fill_temporary
      fill_temporary-Writes zero files = link_payload-Writes files
      fill_temporary-Writes (suc left) files = elim (Bool-cases (disk.fails files.asked)) [
        | inl f ↦
            rw (f, fill_temporary)
              (remove_temporary-Writes temp folder archive_unavailable (next_call files))
        | inr f ↦ rw (f, fill_temporary) (fill_temporary-Writes left (next_call files))
      ]

    write_payload-Writes :
        (named : same event [] ≡ false) (files : Files)
        → Writes files (write_payload name folder event payload files)
    unfolding write_payload temp
    write_payload-Writes named files =
        unless_fails-Writes files files
          (fill_temporary 4 name (temporary files) folder event payload) (λ k h. refl)
          (fill_temporary-Writes named (disk.random files.asked) 4 (next_call files))

    pub write_if_space-Writes :
        (named : same event [] ≡ false) (min_free : ℕ) (needs_check : Bool) (files : Files)
        → Writes files (write_if_space min_free needs_check name folder event payload files)
    unfolding write_if_space
    write_if_space-Writes named min_free false files = write_payload-Writes named files
    write_if_space-Writes named min_free true files =
        go (check_space min_free (disk.free files.asked) (length payload)) refl
      where
        go :
            (res : ArchiveResult (Unit {0}))
            → check_space min_free (disk.free files.asked) (length payload) ≡ res
            → Writes files (write_if_space min_free true name folder event payload files)
        go (failed e) h = rw (h, write_if_space) (λ k s. refl)
        go (done _) h = rw (h, write_if_space) (write_payload-Writes named (next_call files))
