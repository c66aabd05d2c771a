-- ===== src/Archive.antt =====
-- The archive, internal/archive/archive.go: the space that an admission needs, and the archive of
-- payloads as the interface that the handlers take. OnDisk is the archive that fills it.
pub mod Payloads
pub mod Names
pub mod Folders
pub mod Files
pub mod Writes
pub mod Kept
pub mod OnDisk
use lark_git_webhook.Base.{
  ◌/◌, ◌*◌, ◌+◌, ◌-◌, ◌≡◌, Bool, true, false, [], ◌||◌, Option, none, some, ltb, ◌==◌,
  if◌then◌else◌, ℕ,
}
use lark_git_webhook.Base.Bytes.{Bytes, same}
use lark_git_webhook.Base.Words.{u64}

pub data ArchiveError : Type 0 where
  archive_conflict : ArchiveError
  insufficient_space : ArchiveError
  -- a file operation that failed
  archive_unavailable : ArchiveError

pub data ArchiveResult {ℓ} (A : Type ℓ) : Type ℓ where
  done : A → ArchiveResult A
  failed : ArchiveError → ArchiveResult A

-- `2 << 20`.
abbrev pub overhead : ℕ
overhead = 2_097_152

unfoldable pub admission_required : ℕ → ℕ
admission_required payload_bytes =
    if ltb ((u64 - 1 - overhead) / 4) payload_bytes then u64 - 1 else 4 * payload_bytes + overhead

-- `checkSpace`; `free` is what the file system answers.
unfoldable pub check_space : ℕ → Option ℕ → ℕ → ArchiveResult (Unit {0})
check_space min_free_bytes free required =
    if required == u64 - 1 then failed insufficient_space else elim free [
      | none ↦ failed archive_unavailable
      | some bytes ↦
          (if ltb bytes min_free_bytes || ltb (bytes - min_free_bytes) required
            then failed insufficient_space
            else done tt)
    ]

-- The files of the archive: `VerifyExisting`, `Store` and `FreeBytes`. A payload whose store
-- succeeded is found again, and one that is found stays, whatever is stored later, where the event
-- that is stored is not empty.
pub record Archive : Type 1 where
  pub Files : Type 0
  pub min_free_bytes : ℕ
  pub free_bytes : Files → Option ℕ
  pub verify_existing : Files → Bytes → Bytes → Bytes → ArchiveResult Bool
  pub store : Files → Bytes → Bytes → Bytes → ArchiveResult Bool × Files
  pub verify_existing-store :
      (files files' : Files) (event id payload : Bytes) (created : Bool)
      → same event [] ≡ false
      → store files event id payload ≡ (done created, files')
      → verify_existing files' event id payload ≡ done true
  pub store-keeps :
      (files : Files) (event id payload event' id' payload' : Bytes)
      → same event' [] ≡ false
      → verify_existing files event id payload ≡ done true
      → verify_existing (store files event' id' payload').1 event id payload ≡ done true

module _ ⦃archive : Archive⦄ where
  -- `Reserve`: the lock is held until the reservation is released.
  unfoldable pub reserve : archive.Files → ℕ → ArchiveResult (Unit {0})
  unfolding check_space
  reserve files required = check_space archive.min_free_bytes (archive.free_bytes files) required
