-- ===== src/Archive/Folders.antt =====
-- What a directory of internal/archive/archive.go says of its payload once one is published.
use lark_git_webhook.Base.{
  ◌≡◌, refl, true, false, Option, none, some, [], ◌∷◌, ◌++◌, arith, Bool-cases, inl, inr,
}
use lark_git_webhook.Base.Bytes.{Bytes, same, same_refl, ascii}
use lark_git_webhook.Archive.{ArchiveResult, done, failed}
use lark_git_webhook.Archive.Payloads.{
  Node, regular, other, Folder, payload_name, is_payload_name, find_payload, read_payload,
  archived_payload, existing_payload, has_slash,
}
use lark_git_webhook.Archive.Names.{
  payload_name-IsPayload, event_of_name-payload_name, base_name-payload_name,
}

find_payload-some :
    (found : Bytes × Node) (folder : Folder) → find_payload (some found) folder ≡ done none → ⊥
unfolding find_payload
find_payload-some found [] h = ground arith
find_payload-some found ((name, node) ∷ rest) h = elim (Bool-cases (is_payload_name name)) [
  | inl e ↦ absurd (ground (arith, (rw (e, find_payload) at h)))
  | inr e ↦ find_payload-some found rest (rw (e, find_payload) at h)
]

-- A folder without a payload has none beside one that was found.
find_payload-again :
    (found : Bytes × Node) (folder : Folder)
    → find_payload none folder ≡ done none
    → find_payload (some found) folder ≡ done (some found)
unfolding find_payload
find_payload-again found [] h = refl
find_payload-again found ((name, node) ∷ rest) h = elim (Bool-cases (is_payload_name name)) [
  | inl e ↦ absurd (find_payload-some (name, node) rest (rw (e, find_payload) at h))
  | inr e ↦ rw (e, find_payload) (find_payload-again found rest (rw (e, find_payload) at h))
]

find_payload-none :
    (folder : Folder) → archived_payload folder ≡ done none → find_payload none folder ≡ done none
unfolding archived_payload read_payload
find_payload-none folder h = go (find_payload none folder) refl
  where
    go :
        (found : ArchiveResult (Option (Bytes × Node)))
        → find_payload none folder ≡ found
        → find_payload none folder ≡ done none
    go (failed e) k = absurd (ground (arith, (rw (k, archived_payload) at h)))
    go (done none) k = k
    go (done (some (name, other))) k = absurd (ground (arith, (rw (k, archived_payload) at h)))
    go (done (some (name, regular raw))) k =
        absurd (ground (arith, (rw (k, archived_payload) at h)))

pub archived_payload-none :
    (folder : Folder) (event payload : Bytes)
    → existing_payload folder event payload ≡ done false
    → archived_payload folder ≡ done none
unfolding existing_payload
archived_payload-none folder event payload h = ground arith

pub existing_payload-none :
    (folder : Folder) (event payload : Bytes)
    → archived_payload folder ≡ done none
    → existing_payload folder event payload ≡ done false
unfolding existing_payload
existing_payload-none folder event payload h = rw (h, existing_payload) refl

-- A published payload is found.
pub existing_payload-published :
    (folder : Folder) (event payload : Bytes)
    → archived_payload folder ≡ done none
    → same event [] ≡ false
    → has_slash event ≡ false
    → existing_payload ((payload_name event, regular payload) ∷ folder) event payload ≡ done true
unfolding existing_payload archived_payload find_payload read_payload
existing_payload-published folder event payload h named plain =
    rw
      (
        existing_payload,
        archived_payload,
        find_payload,
        payload_name-IsPayload event,
        find_payload-again (payload_name event, regular payload) folder
            (find_payload-none folder h),
      )
      (rw
        (
          event_of_name-payload_name event,
          named,
          plain,
          base_name-payload_name event plain,
          same_refl (payload_name event),
          same_refl payload,
        )
        refl)

-- A temporary file is not a payload.
pub existing_payload-temporary :
    (random : Bytes) (node : Node) (folder : Folder) (event payload : Bytes)
    → existing_payload ((ascii ".tmp-" ++ random, node) ∷ folder) event payload
      ≡ existing_payload folder event payload
unfolding existing_payload archived_payload find_payload is_payload_name
existing_payload-temporary random node folder event payload = refl
