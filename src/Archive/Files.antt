-- ===== src/Archive/Files.antt =====
-- Storing and verifying payloads: `store` and `verifyExisting` of internal/archive/archive.go, on
-- the directories of the deliveries.
use lark_git_webhook.Base.{
  ◌+◌, ℕ, zero, suc, Bool, true, false, Option, none, some, [], ◌∷◌, ◌++◌, if◌then◌else◌, length,
}
use lark_git_webhook.Base.Bytes.{Bytes, same, ascii}
use lark_git_webhook.Archive.{
  archive_conflict, archive_unavailable, ArchiveResult, done, failed, check_space,
}
use lark_git_webhook.Archive.Payloads.{
  Node, regular, Folder, delivery_dir, payload_name, has_slash, existing_payload,
}

-- What stands at the path of a delivery's directory.
pub data Place : Type 0 where
  directory : Folder → Place
  no_directory : Place

-- The paths by the directory's name; `asked` counts the calls of the file system.
pub record Files : Type 0 where
  pub places : Bytes → Option Place
  pub asked : ℕ

-- What the file system does, by the number of the call: which writes and syncs fail, the random end
-- of a temporary name, and the free bytes. Reads are taken to succeed.
pub record Disk : Type 0 where
  pub fails : ℕ → Bool
  pub random : ℕ → Bytes
  pub free : ℕ → Option ℕ

abbrev pub Stores : Type 0
Stores = ArchiveResult Bool × Files

abbrev pub next_call : Files → Files
next_call files = record files { asked = files.asked + 1 }

unfoldable pub set_folder : Bytes → Folder → Files → Files
set_folder name folder files = record files {
  places = λ k. if same k name then some (directory folder) else files.places k;
}

-- Whether a folder has an entry of the name.
unfoldable pub is_there : Bytes → Folder → Bool
is_there name [] = false
is_there name ((entry, node) ∷ rest) =
    let later = is_there name rest in if same entry name then true else later

-- What the path of a directory says of a payload.
unfoldable pub read_place : Option Place → Bytes → Bytes → ArchiveResult Bool
unfolding existing_payload
read_place none event payload = done false
read_place (some (directory folder)) event payload = existing_payload folder event payload
read_place (some no_directory) event payload = failed archive_conflict

-- Whether the archive has the payload of a delivery: `verifyExisting` before it syncs.
unfoldable pub look_up : Files → Bytes → Bytes → Bytes → ArchiveResult Bool
unfolding read_place
look_up files event id payload = elim (delivery_dir id) [
  | none ↦ failed archive_unavailable
  | some name ↦ read_place (files.places name) event payload
]

module _ ⦃disk : Disk⦄ where
  -- A call that may fail.
  unfoldable pub unless_fails : Files → (Files → Stores) → Stores
  unless_fails files next = elim (disk.fails files.asked) [
    | true ↦ (failed archive_unavailable, next_call files)
    | false ↦ next (next_call files)
  ]

  -- So many calls.
  unfoldable pub attempts : ℕ → (Files → Stores) → Files → Stores
  unfolding unless_fails
  attempts zero next files = next files
  attempts (suc k) next files = unless_fails files (attempts k next)

  -- `verifyExisting`.
  unfoldable pub verify_payload : Files → Bytes → Bytes → Bytes → Stores
  unfolding look_up unless_fails
  verify_payload files event id payload = elim (look_up files event id payload) [
    | done true ↦ unless_fails files λ f. (done true, f)
    | done false ↦ (done false, files)
    | failed e ↦ (failed e, files)
  ]

  abbrev pub temporary : Files → Bytes × Node
  temporary files = (ascii ".tmp-" ++ disk.random files.asked, regular [])

  -- The deferred removal of the temporary file, which may fail.
  unfoldable pub remove_temporary :
      Bytes → Bytes × Node → Folder → ArchiveResult Bool → Files → Stores
  unfolding set_folder
  remove_temporary name temp folder result files = elim (disk.fails files.asked) [
    | true ↦ (result, set_folder name (temp ∷ folder) (next_call files))
    | false ↦ (result, set_folder name folder (next_call files))
  ]

  -- The temporary file is linked to its name: it is removed, and the directory is synced.
  unfoldable pub finish_publish : Bytes → Bytes × Node → Folder → Files → Stores
  unfolding remove_temporary set_folder unless_fails
  finish_publish name temp folder files = elim (disk.fails files.asked) [
    | true ↦ remove_temporary name temp folder (failed archive_unavailable) (next_call files)
    | false ↦ unless_fails (set_folder name folder (next_call files)) λ f. (done true, f)
  ]

  -- The name is taken already.
  unfoldable pub resolve_taken : Bytes → Bytes × Node → Folder → Bytes → Bytes → Files → Stores
  unfolding remove_temporary
  resolve_taken name temp folder event payload files =
      elim (existing_payload (temp ∷ folder) event payload) [
        | failed e ↦ remove_temporary name temp folder (failed e) files
        | done false ↦ remove_temporary name temp folder (failed archive_conflict) files
        | done true ↦
            (if disk.fails files.asked
              then remove_temporary name temp folder (failed archive_unavailable) (next_call files)
              else remove_temporary name temp folder (done false) (next_call files))
      ]

  -- `os.Link`. An event with a slash names a file in a directory that is not there.
  unfoldable pub link_payload : Bytes → Bytes × Node → Folder → Bytes → Bytes → Files → Stores
  unfolding finish_publish resolve_taken is_there
  link_payload name temp folder event payload files =
      if disk.fails files.asked
      then remove_temporary name temp folder (failed archive_unavailable) (next_call files)
      else if is_there (payload_name event) folder
      then resolve_taken name temp folder event payload (next_call files)
      else if has_slash event
      then remove_temporary name temp folder (failed archive_unavailable) (next_call files)
      else finish_publish name temp ((payload_name event, regular payload) ∷ folder)
          (next_call files)

  -- The temporary file gets its permissions and the payload, and is synced and closed.
  unfoldable pub fill_temporary : ℕ → Bytes → Bytes × Node → Folder → Bytes → Bytes → Files → Stores
  unfolding remove_temporary link_payload
  fill_temporary zero name temp folder event payload files =
      link_payload name temp folder event payload files
  fill_temporary (suc left) name temp folder event payload files = elim (disk.fails files.asked) [
    | true ↦ remove_temporary name temp folder (failed archive_unavailable) (next_call files)
    | false ↦ fill_temporary left name temp folder event payload (next_call files)
  ]

  -- A payload that is not there yet, once there is space.
  unfoldable pub write_payload : Bytes → Folder → Bytes → Bytes → Files → Stores
  unfolding unless_fails fill_temporary
  write_payload name folder event payload files =
      unless_fails files (fill_temporary 4 name (temporary files) folder event payload)

  unfoldable pub write_if_space : ℕ → Bool → Bytes → Folder → Bytes → Bytes → Files → Stores
  unfolding write_payload
  write_if_space min_free needs_check name folder event payload files =
      if needs_check
      then (elim (check_space min_free (disk.free files.asked) (length payload)) [
        | failed e ↦ (failed e, next_call files)
        | done _ ↦ write_payload name folder event payload (next_call files)
      ])
      else write_payload name folder event payload files

  -- The directory is there.
  unfoldable pub store_in : ℕ → Bool → Bytes → Folder → Bytes → Bytes → Files → Stores
  unfolding unless_fails write_if_space
  store_in min_free needs_check name folder event payload files =
      elim (existing_payload folder event payload) [
        | failed e ↦ (failed e, files)
        | done true ↦ unless_fails files λ f. (done false, f)
        | done false ↦ write_if_space min_free needs_check name folder event payload files
      ]

  -- `os.MkdirAll`, and the permissions and syncs after it.
  unfoldable pub store_at : ℕ → Bool → Bytes → Bytes → Bytes → Files → Stores
  unfolding attempts store_in set_folder
  store_at min_free needs_check name event payload files = elim (files.places name) [
    | none ↦
        attempts 4 (store_in min_free needs_check name [] event payload) (set_folder name [] files)
    | some (directory folder) ↦
        attempts 4 (store_in min_free needs_check name folder event payload) files
    | some no_directory ↦ (failed archive_unavailable, files)
  ]

  -- `store`.
  unfoldable pub store_payload : ℕ → Bool → Files → Bytes → Bytes → Bytes → Stores
  unfolding unless_fails store_at
  store_payload min_free needs_check files event id payload = elim (delivery_dir id) [
    | none ↦ (failed archive_unavailable, files)
    | some name ↦ unless_fails files (store_at min_free needs_check name event payload)
  ]
