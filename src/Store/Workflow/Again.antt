-- ===== src/Store/Workflow/Again.antt =====
-- A delivery of internal/store/store.go that `UpsertWorkflow` merges twice.
use lark_git_webhook.Base.{
  ℕ, ◌≡◌, refl, ap, ◌∙◌, Bool, true, false, not, ◌&&◌, ◌||◌, [], ◌∷◌, List, arith, ltb,
  if◌then◌else◌, Bool-cases, inl, inr, ◌==◌, Option, none, some, subst, sym,
}
use lark_git_webhook.Base.Bytes.{Bytes, same, same_refl}
use lark_git_webhook.Base.Words.{add64}
use lark_git_webhook.Bolt.Assoc.{lookup, insert}
use lark_git_webhook.Store.Types.{WorkflowState, WorkflowCheck, WorkflowUpdate}
use lark_git_webhook.Store.Workflow.{
  is_empty, or_keep, completed, has_time, accepts, take_names, start_attempt, take_status,
  take_update, valid_attempt, newer_check, workflow_check_time, put_check, take_check, merge,
}
use lark_git_webhook.Store.Workflow.Merge.{take_check-frame}

-- A state that already has what the update carries.
record Settled (u : WorkflowUpdate) (s : WorkflowState) : Type 0 where
  attempted : ltb s.run_attempt u.run_attempt ≡ false
  repository : or_keep u.repository s.repository ≡ s.repository
  workflow_name : or_keep u.workflow_name s.workflow_name ≡ s.workflow_name
  url : or_keep u.url s.url ≡ s.url
  head_branch : or_keep u.head_branch s.head_branch ≡ s.head_branch
  head_sha : or_keep u.head_sha s.head_sha ≡ s.head_sha
  run_id : (if u.run_id == 0 then s.run_id else u.run_id) ≡ s.run_id
  status : or_keep u.status s.status ≡ s.status
  conclusion :
      (if not (is_empty u.conclusion) || same u.status completed
        then u.conclusion
        else s.conclusion)
      ≡ s.conclusion
  updated_at : (if has_time u then u.updated_at else s.updated_at) ≡ s.updated_at

or_keep_twice : (new old : Bytes) → or_keep new (or_keep new old) ≡ or_keep new old
or_keep_twice [] old = refl
or_keep_twice (x ∷ xs) old = refl

names-Settled : (u : WorkflowUpdate) (s : WorkflowState) → Settled u s → take_names u s ≡ s
unfolding take_names
names-Settled u s h =
    rw (h.repository, h.workflow_name, h.url, h.head_branch, h.head_sha, h.run_id) refl

attempt-Settled : (u : WorkflowUpdate) (s : WorkflowState) → Settled u s → start_attempt u s ≡ s
unfolding start_attempt
attempt-Settled u s h = rw (start_attempt, h.attempted) refl

status-Settled : (u : WorkflowUpdate) (s : WorkflowState) → Settled u s → take_status u s ≡ s
unfolding take_status
status-Settled u s h = rw (h.status, h.conclusion, h.updated_at) refl

Settled-once :
    (u : WorkflowUpdate) (s : WorkflowState) (checks : List (Bytes × WorkflowCheck)) (revision : ℕ)
    → Settled u (record (take_status u (start_attempt u (take_names u s))) {
      checks = checks;
      revision = revision;
    })
unfolding take_status start_attempt take_names
Settled-once u s checks revision = record {
  attempted = ground arith;
  repository = ground (arith, or_keep_twice u.repository s.repository);
  workflow_name = ground (arith, or_keep_twice u.workflow_name s.workflow_name);
  url = ground (arith, or_keep_twice u.url s.url);
  head_branch = ground (arith, or_keep_twice u.head_branch s.head_branch);
  head_sha = ground (arith, or_keep_twice u.head_sha s.head_sha);
  run_id = ground arith;
  status = ground (arith, or_keep_twice u.status s.status);
  conclusion = ground arith;
  updated_at = ground arith;
}

take-Settled : (u : WorkflowUpdate) (t : WorkflowState) → Settled u t → take_update u t ≡ t
unfolding take_update
take-Settled u t h = elim (Bool-cases (accepts u t)) [
  | inl e ↦
      rw (take_update, e)
        (ap (λ (x : WorkflowState). take_status u (start_attempt u x)) (names-Settled u t h)
          ∙ ap (take_status u) (attempt-Settled u t h)
          ∙ status-Settled u t h)
  | inr e ↦ rw (take_update, e) refl
]

refused : (u : WorkflowUpdate) (t : WorkflowState) → accepts u t ≡ false → take_update u t ≡ t
unfolding take_update
refused u t e = rw (take_update, e) refl

-- The workflow fields of a delivery that is taken again, whatever checks and revision come between.
pub take_update-again :
    (u : WorkflowUpdate) (s : WorkflowState) (checks : List (Bytes × WorkflowCheck)) (revision : ℕ)
    → take_update u (record (take_update u s) { checks = checks; revision = revision })
      ≡ record (take_update u s) { checks = checks; revision = revision }
take_update-again u s checks revision = elim (Bool-cases (accepts u s)) [
  | inl e ↦
      let once : take_update u s ≡ take_status u (start_attempt u (take_names u s)) =
        unfold take_update in rw e refl in
      rw once (
        take-Settled u
          (record (take_status u (start_attempt u (take_names u s))) {
            checks = checks;
            revision = revision;
          })
          (Settled-once u s checks revision))
  | inr e ↦
      let once : take_update u s ≡ s = refused u s e in
      let still : accepts u (record s { checks = checks; revision = revision }) ≡ false =
        unfold accepts in e in
      rw once (refused u (record s { checks = checks; revision = revision }) still)
]

insert_twice :
    (k : Bytes) (c : WorkflowCheck) (l : List (Bytes × WorkflowCheck))
    → insert k c (insert k c l) ≡ insert k c l
unfolding insert
insert_twice k c [] = ground (arith, same_refl k)
insert_twice k c ((j, w) ∷ l) = ground (arith, same_refl k, insert_twice k c l)

put_check-again :
    (c : WorkflowCheck) (s : WorkflowState) (revision : ℕ)
    → put_check c (record (put_check c s) { revision = revision })
      ≡ record (put_check c s) { revision = revision }
unfolding put_check valid_attempt
put_check-again c s revision =
    go (valid_attempt s (workflow_check_time c) && newer_check (lookup c.id s.checks) c) refl
  where
    replaced : WorkflowState
    replaced = record s { checks = insert c.id c s.checks; revision = revision }

    kept :
        (b : Bool)
        → (valid_attempt s (workflow_check_time c)
            && newer_check (lookup c.id (insert c.id c s.checks)) c)
          ≡ b
        → put_check c replaced ≡ replaced
    kept true e =
        rw (put_check, e)
          (ap (λ l. record s { checks = l; revision = revision }) (insert_twice c.id c s.checks))
    kept false e = rw (put_check, e) refl

    go :
        (b : Bool)
        → (valid_attempt s (workflow_check_time c) && newer_check (lookup c.id s.checks) c) ≡ b
        → put_check c (record (put_check c s) { revision = revision })
          ≡ record (put_check c s) { revision = revision }
    go true e =
        let once : put_check c s ≡ record s { checks = insert c.id c s.checks } =
          unfold put_check in rw e refl in
        rw once (
          kept
            (valid_attempt s (workflow_check_time c)
              && newer_check (lookup c.id (insert c.id c s.checks)) c)
            refl)
    go false e =
        let once : put_check c s ≡ s = unfold put_check in rw e refl in
        let still : put_check c (record s { revision = revision })
            ≡ record s { revision = revision } =
          unfold put_check valid_attempt in rw e refl in
        rw once still

take_check-again :
    (c : Option WorkflowCheck) (s : WorkflowState) (revision : ℕ)
    → take_check c (record (take_check c s) { revision = revision })
      ≡ record (take_check c s) { revision = revision }
unfolding take_check
take_check-again none s revision = refl
take_check-again (some c) s revision = elim (Bool-cases (is_empty c.id)) [
  | inl e ↦ rw e refl
  | inr e ↦ rw e (put_check-again c s revision)
]

-- A delivery that is merged a second time changes nothing but the revision.
pub merge-again :
    (u : WorkflowUpdate) (s : WorkflowState)
    → merge u (merge u s) ≡ record (merge u s) { revision = add64 (merge u s).revision 1 }
unfolding merge
merge-again u s =
    let t = take_update u s in
    let n = add64 (take_check u.check t).revision 1 in
    let frame = take_check-frame u.check t in
    let settled : take_update u (merge u s) ≡ merge u s =
      subst
        (λ (x : WorkflowState).
          take_update u (record x { revision = n }) ≡ record x { revision = n })
        (sym frame) (take_update-again u s (take_check u.check t).checks n) in
    ap {B = WorkflowState}
      (λ (x : WorkflowState).
        let y = take_check u.check x in record y { revision = add64 y.revision 1 })
      settled
    ∙ ap {B = WorkflowState} (λ (y : WorkflowState). record y { revision = add64 y.revision 1 })
        (take_check-again u.check t n)
