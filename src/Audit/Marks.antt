-- ===== src/Audit/Marks.antt =====
-- The checkpoint that internal/audit/poller.go reads and moves.
use lark_git_webhook.Base.{◌≡◌, refl, sym, ap, ◌∙◌, Option, none, some}
use lark_git_webhook.Base.Bytes.{Bytes, same_refl}
use lark_git_webhook.Bolt.{Bolt}
use lark_git_webhook.Bolt.Laws.{get-put}
use lark_git_webhook.Store.Error.{Error, Result, ok, err, not_open}
use lark_git_webhook.Store.Types.{Time, json}
use lark_git_webhook.Store.Db.{Db, Store}
use lark_git_webhook.Store.Audit.{
  read_checkpoint, audit_checkpoint, set_checkpoint_tx, set_audit_checkpoint,
}
use lark_git_webhook.Audit.Frame.{Stamps, store_stamps}

module _ ⦃bolt : Bolt⦄ where
  open bolt use {get}

  -- The checkpoint is read off the two buckets.
  checkpoint_in : Bytes → Option Stamps → Result (Option Time)
  checkpoint_in org none = err not_open
  checkpoint_in org (some (checkpoints, _)) = read_checkpoint checkpoints org

  audit_checkpoint-stamps :
      (s : Store) (org : Bytes) → audit_checkpoint s org ≡ checkpoint_in org (store_stamps s)
  unfolding audit_checkpoint checkpoint_in
  audit_checkpoint-stamps s org = go s.db refl
    where
      go : (o : Option Db) → s.db ≡ o → audit_checkpoint s org ≡ checkpoint_in org (store_stamps s)
      go none e = rw e refl
      go (some db) e = rw e refl

  pub audit_checkpoint_same :
      (s t : Store) (org : Bytes)
      → store_stamps t ≡ store_stamps s
      → audit_checkpoint t org ≡ audit_checkpoint s org
  audit_checkpoint_same s t org e =
      audit_checkpoint-stamps t org ∙ ap (checkpoint_in org) e ∙ sym (audit_checkpoint-stamps s org)

  -- What moving the checkpoint leaves.
  pub set-checkpoint :
      (s : Store) (org : Bytes) (now : Time)
      → let out = set_audit_checkpoint s org now in
        ((e : Error) → out.0 ≡ err e → out.1 ≡ s)
        × (out.0 ≡ ok tt → audit_checkpoint out.1 org ≡ ok (some now))
  unfolding set_audit_checkpoint set_checkpoint_tx audit_checkpoint read_checkpoint
  set-checkpoint s org now = go s.db refl
    where
      go :
          (o : Option Db)
          → s.db ≡ o
          → let out = set_audit_checkpoint s org now in
            ((e : Error) → out.0 ≡ err e → out.1 ≡ s)
            × (out.0 ≡ ok tt → audit_checkpoint out.1 org ≡ ok (some now))
      go none e = rw e ((λ why h. refl), λ h. absurd cc)
      go (some db) e = rw e (
        (λ why h. absurd cc),
        λ h.
            rw (read_checkpoint, get-put db.audit_checkpoint org org (json now), same_refl org)
              refl,
      )
