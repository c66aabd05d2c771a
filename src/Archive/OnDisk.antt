-- ===== src/Archive/OnDisk.antt =====
-- The archive of internal/archive/archive.go on its files, as the handlers take it. A payload is
-- verified by what its directory has, and stored under a reservation.
use lark_git_webhook.Base.{◌≡◌, subst, ℕ, Bool, true, false, []}
use lark_git_webhook.Base.Bytes.{Bytes, same}
use lark_git_webhook.Archive.{Archive, done, failed}
use lark_git_webhook.Archive.Files.{Files, Disk, Stores, look_up, store_payload}
use lark_git_webhook.Archive.Kept.{Keeps, Stored, store_payload_lem}

Stored-Keeps :
    (event id payload : Bytes) (files : Files) (out : Stores)
    → Stored event id payload files out
    → Keeps files out.1
Stored-Keeps event id payload files (done created, files') (keeps, there) = keeps
Stored-Keeps event id payload files (failed e, files') keeps = keeps

module _ ⦃disk : Disk⦄ where
  pub look_up-store_payload :
      (min_free : ℕ) (files files' : Files) (event id payload : Bytes) (created : Bool)
      → same event [] ≡ false
      → store_payload min_free false files event id payload ≡ (done created, files')
      → look_up files' event id payload ≡ done true
  look_up-store_payload min_free files files' event id payload created named h =
      (subst (Stored event id payload files) h
        (store_payload_lem min_free false files event id payload named)).1

  pub store_payload-keeps :
      (min_free : ℕ) (files : Files) (event id payload event' id' payload' : Bytes)
      → same event' [] ≡ false
      → look_up files event id payload ≡ done true
      → look_up (store_payload min_free false files event' id' payload').1 event id payload
        ≡ done true
  store_payload-keeps min_free files event id payload event' id' payload' named =
      Stored-Keeps event' id' payload' files
        (store_payload min_free false files event' id' payload')
        (store_payload_lem min_free false files event' id' payload' named) event id payload

  abbrev pub archive_on_disk : ℕ → Archive
  archive_on_disk min_free = record {
    Files = Files;
    min_free_bytes = min_free;
    free_bytes = λ files. disk.free files.asked;
    verify_existing = look_up;
    store = λ files event id payload. store_payload min_free false files event id payload;
    verify_existing-store = look_up-store_payload min_free;
    store-keeps = store_payload-keeps min_free;
  }
