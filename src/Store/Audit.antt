-- ===== src/Store/Audit.antt =====
-- The audit-log checkpoints of internal/store/store.go.
use lark_git_webhook.Base.{Option, none, some}
use lark_git_webhook.Base.Bytes.{Bytes}
use lark_git_webhook.Bolt.{Bolt}
use lark_git_webhook.Store.Error.{Result, ok, ◌>>=◌}
use lark_git_webhook.Store.Types.{Time, Stored, json, unmarshal}
use lark_git_webhook.Store.Db.{Store, update, view, Db}

module _ ⦃bolt : Bolt⦄ where
  open bolt use {Bucket, get, put}

  -- A stored checkpoint, parsed.
  unfoldable pub read_checkpoint : Bucket (Stored Time) → Bytes → Result (Option Time)
  read_checkpoint bucket org = elim (get bucket org) [
    | none ↦ ok none
    | some value ↦ (do t ← unmarshal value; ok (some t))
  ]

  unfoldable pub audit_checkpoint : Store → Bytes → Result (Option Time)
  unfolding read_checkpoint
  audit_checkpoint s org = view s λ db. read_checkpoint db.audit_checkpoint org

  unfoldable pub set_checkpoint_tx : Bytes → Time → Db → Result (Unit {0} × Db)
  set_checkpoint_tx org checkpoint db =
      ok (tt, record db { audit_checkpoint = put db.audit_checkpoint org (json checkpoint) })

  unfoldable pub set_audit_checkpoint : Store → Bytes → Time → Result (Unit {0}) × Store
  unfolding set_checkpoint_tx
  set_audit_checkpoint s org checkpoint = update s (set_checkpoint_tx org checkpoint)

  unfoldable pub initialize_checkpoint_tx : Bytes → Time → Db → Result (Unit {0} × Db)
  initialize_checkpoint_tx org checkpoint db = ok (
    tt,
    record db {
      audit_checkpoint = put db.audit_checkpoint org (json checkpoint);
      audit_bootstrap = put db.audit_bootstrap org (json checkpoint);
    },
  )

  unfoldable pub initialize_audit_checkpoint : Store → Bytes → Time → Result (Unit {0}) × Store
  unfolding initialize_checkpoint_tx
  initialize_audit_checkpoint s org checkpoint = update s (initialize_checkpoint_tx org checkpoint)

  unfoldable pub audit_bootstrap : Store → Bytes → Result (Option Time)
  unfolding read_checkpoint
  audit_bootstrap s org = view s λ db. read_checkpoint db.audit_bootstrap org
