-- ===== src/Forwarder/Effects.antt =====
-- What the worker of internal/forwarder does to the store: the calls that it may make, and the parts
-- of a delivery, as moves of the store.
pub mod Cards
pub mod Events
pub mod Runs
use lark_git_webhook.Base.{
  ◌≡◌, refl, ap, sym, ◌∙◌, subst, ℕ, zero, suc, ◌+◌, Bool, true, false, Option, none, some, List,
  [], ◌∷◌, ltb, ◌==◌, if◌then◌else◌, Bool-cases, Option-cases, ◌⊎◌, inl, inr, length,
}
use lark_git_webhook.Base.Bytes.{Bytes}
use lark_git_webhook.Bolt.{Bolt}
use lark_git_webhook.Store.Error.{Error, Result, ok, err}
use lark_git_webhook.Store.Types.{Item, Encoding, FailureResult, second}
use lark_git_webhook.Store.Db.{Store}
use lark_git_webhook.Store.Failure.{handle_failure}
use lark_git_webhook.Store.Queue.{complete_chat_delivery}
use lark_git_webhook.Store.Rate.{reserve_request}
use lark_git_webhook.Store.Call.{Call, after}
use lark_git_webhook.Forwarder.Machine.{
  Worker, Outside, Machine, Failure, Reply, accepted, refused, BatchResult, continue_round,
  stop_round, stop_worker, crashed, note, lark_failure, lark_success, with_store, read_clock,
  wait_context, ask, continuing, for_each, LarkRequest,
}
use lark_git_webhook.Forwarder.Split.{split, lines_of}
use lark_git_webhook.Forwarder.Targets.{chats_of, group_by_chat, items_of, sort_strings}
use lark_git_webhook.Forwarder.Batch.{
  Slot, granted, no_slot, ended, unfinished, route, count_delivered, count_each, rounds,
  reserve_slot, after_failure, fail_items, is_gitlab, retry_delay, retry_after_of, permanent_of,
  complete_batch, deliver_batch, send_batch_to_chat, send_chat, send_ordinary,
}
use lark_git_webhook.Forwarder.Batch.Cooling.{after_failure-store, failed_at}

-- The calls of the store that the worker makes.
abbrev pub IsWorkerCall : Call → Type 0
IsWorkerCall (Call.completes items chat) = Unit {0}
IsWorkerCall (Call.deletes items) = Unit {0}
IsWorkerCall (Call.fails items now retry_at reason retry_after max_attempts permanent) = Unit {0}
IsWorkerCall (Call.reserves now) = Unit {0}
IsWorkerCall (Call.upserts u) = Unit {0}
IsWorkerCall (Call.sets_message key message) = Unit {0}
IsWorkerCall (Call.sets_reaction key reaction kind) = Unit {0}
IsWorkerCall (Call.sets_form open_id message) = Unit {0}
IsWorkerCall Call.acquires = Unit {0}
IsWorkerCall Call.releases = Unit {0}
IsWorkerCall _ = ⊥

pub Result-cases {ℓ} :
    {A : Type ℓ} (r : Result A) → ((e : Error) × (r ≡ err e)) ⊎ ((a : A) × (r ≡ ok a))
Result-cases (err e) = inl (e, refl)
Result-cases (ok a) = inr (a, refl)

pub Reply-cases :
    (r : Reply) → ((f : Failure) × (r ≡ refused f)) ⊎ ((id : Bytes) × (r ≡ accepted id))
Reply-cases (refused f) = inl (f, refl)
Reply-cases (accepted id) = inr (id, refl)

module _ ⦃bolt : Bolt⦄ ⦃encoding : Encoding⦄ where
  -- A store that calls of the worker lead to.
  pub data Calls (s : Store) : Store → Type 0 where
    no_call : Calls s s
    call : {t : Store} (c : Call) → IsWorkerCall c → Calls s t → Calls s (after c t)

  pub Calls-trans : {s t u : Store} → Calls s t → Calls t u → Calls s u
  Calls-trans first no_call = first
  Calls-trans first (call c allowed rest) = call c allowed (Calls-trans first rest)

  pub one_call : {s : Store} (c : Call) → IsWorkerCall c → Calls s (after c s)
  one_call c allowed = call c allowed no_call

  pub count_delivered-store :
      (event : Bytes) (m : Machine) → (count_delivered event m).store ≡ m.store
  unfolding count_delivered note
  count_delivered-store event m = elim (Bool-cases (is_gitlab event)) [
    | inl e ↦ rw e refl
    | inr e ↦ rw e refl
  ]

  -- A step from one machine to another, with a result.
  abbrev pub Moves : {A : Type 0} → Machine → A × Machine → Type 0
  Moves m p = Calls m.store p.1.store

  pub if-Moves :
      {A : Type 0} (m : Machine) (b : Bool) (p q : A × Machine)
      → Moves m p
      → Moves m q
      → Moves m (if b then p else q)
  if-Moves m true p q yes_moves no_moves = yes_moves
  if-Moves m false p q yes_moves no_moves = no_moves

  pub continuing-Moves :
      (m : Machine) (p : BatchResult × Machine) (next : Machine → BatchResult × Machine)
      → Moves m p
      → ((m' : Machine) → Moves m' (next m'))
      → Moves m (continuing p next)
  unfolding continuing
  continuing-Moves m (continue_round, m') next first rest = Calls-trans first (rest m')
  continuing-Moves m (stop_round, m') next first rest = first
  continuing-Moves m (stop_worker, m') next first rest = first
  continuing-Moves m (crashed, m') next first rest = first

  pub for_each-Moves :
      {A : Type 0} (run : A → Machine → BatchResult × Machine)
      → ((a : A) (m : Machine) → Moves m (run a m))
      → (l : List A) (m : Machine) → Moves m (for_each run l m)
  unfolding for_each
  for_each-Moves run each [] m = no_call
  for_each-Moves run each (a ∷ l) m =
      continuing-Moves m (run a m) (for_each run l) (each a m) (for_each-Moves run each l)

module _ ⦃bolt : Bolt⦄ ⦃encoding : Encoding⦄ ⦃outside : Outside⦄ where
  pub reserve_slot-Moves : (fuel : ℕ) (m : Machine) → Moves m (reserve_slot fuel m)
  unfolding reserve_slot read_clock wait_context note after
  reserve_slot-Moves zero m = no_call
  reserve_slot-Moves (suc fuel) m =
      let now : ℕ = m.now + outside.lag m.asked_of in
      let once = one_call {s = m.store} (Call.reserves now) tt in
      elim (Result-cases (reserve_request m.store now).0) [
        | inl (e, f) ↦ rw (f, reserve_slot) once
        | inr (wait, f) ↦ elim (Bool-cases (wait == 0)) [
          | inl z ↦ rw (f, reserve_slot, z) once
          | inr z ↦ elim (Bool-cases (outside.cancelled (m.asked_of + 1))) [
            | inl c ↦ rw (f, reserve_slot, z, c) once
            | inr c ↦ rw (f, reserve_slot, z, c) (Calls-trans once (reserve_slot-Moves fuel _))
          ]
        ]
      ]

  pub fail_items-Moves :
      (w : Worker) (items : List Item) (f : Failure) (m : Machine)
      → Moves m (fail_items w items f m)
  unfolding fail_items read_clock note after
  fail_items-Moves w items f m = elim (Result-cases (after_call).0) [
    | inl (e, h) ↦ rw (h, fail_items) once
    | inr (r, h) ↦
        rw (h, fail_items)
          (subst (Calls m.store) (sym (after_failure-store f r (with_store after_call.1 m3))) once)
  ]
    where
      m3 : Machine
      m3 = read_clock (read_clock (record (note lark_failure m) { asked_of = m.asked_of + 1 }))

      retry_at : ℕ
      retry_at = m3.now + retry_delay w items f (note lark_failure m)

      after_call : Result FailureResult × Store
      after_call =
          handle_failure m.store items (failed_at m) retry_at f.reason (retry_after_of f)
            w.max_attempts (permanent_of f)

      once : Calls m.store after_call.1
      once =
          one_call {s = m.store}
            (Call.fails items (failed_at m) retry_at f.reason (retry_after_of f) w.max_attempts
              (permanent_of f))
            tt

  count_each-store : (items : List Item) (m : Machine) → (count_each items m).store ≡ m.store
  unfolding count_each
  count_each-store [] m = refl
  count_each-store (item ∷ items) m =
      count_each-store items (count_delivered item.event m) ∙ count_delivered-store item.event m

  pub complete_batch-Moves :
      (chat : Bytes) (items : List Item) (m : Machine) → Moves m (complete_batch chat items m)
  unfolding complete_batch after note
  complete_batch-Moves chat items m =
      let completed = complete_chat_delivery m.store items chat in
      let once = one_call {s = m.store} (Call.completes items chat) tt in
      elim (Result-cases completed.0) [
        | inl (e, h) ↦ rw (h, complete_batch) once
        | inr (u, h) ↦
            rw (h, complete_batch)
              (subst (Calls m.store)
                (sym (count_each-store items (note lark_success (with_store completed.1 m)))) once)
      ]

  ask-Moves : (r : LarkRequest) (m : Machine) → Moves m (ask r m)
  unfolding ask note
  ask-Moves r m = no_call

  deliver_batch-Moves :
      (w : Worker) (chat : Bytes) (items : List Item) (m : Machine)
      → Moves m (deliver_batch w chat items m)
  unfolding deliver_batch
  deliver_batch-Moves w chat items m =
      elim (Option-cases (route w chat (lines_of w.max_message_bytes items))) [
        | inl e ↦ rw (e, deliver_batch) no_call
        | inr (request, e) ↦
            let asked = ask request m in
            elim (Reply-cases asked.0) [
              | inl (f, h) ↦
                  rw (e, deliver_batch, h)
                    (Calls-trans (ask-Moves request m) (fail_items-Moves w items f asked.1))
              | inr (id, h) ↦
                  rw (e, deliver_batch, h)
                    (Calls-trans (ask-Moves request m) (complete_batch-Moves chat items asked.1))
            ]
      ]

  pub send_batch_to_chat-Moves :
      (w : Worker) (chat : Bytes) (items : List Item) (m : Machine)
      → Moves m (send_batch_to_chat w chat items m)
  unfolding send_batch_to_chat wait_context
  send_batch_to_chat-Moves w chat items m = go slot.0 refl
    where
      slot : Slot × Machine
      slot = reserve_slot (rounds m) m

      go : (s : Slot) → slot.0 ≡ s → Moves m (send_batch_to_chat w chat items m)
      go granted e =
          rw (e, send_batch_to_chat)
            (Calls-trans (reserve_slot-Moves (rounds m) m)
              (deliver_batch-Moves w chat items slot.1))
      go (no_slot why) e = rw (e, send_batch_to_chat) (reserve_slot-Moves (rounds m) m)
      go ended e = rw (e, send_batch_to_chat) (reserve_slot-Moves (rounds m) m)
      go unfinished e = rw (e, send_batch_to_chat) (reserve_slot-Moves (rounds m) m)

  send_chat-Moves :
      (w : Worker) (items : List Item) (chat : Bytes) (m : Machine)
      → Moves m (send_chat w items chat m)
  unfolding send_chat
  send_chat-Moves w items chat m =
      for_each-Moves (send_batch_to_chat w chat) (send_batch_to_chat-Moves w chat)
        (split w.max_message_bytes (items_of chat (group_by_chat items))) m

  pub send_ordinary-Moves :
      (w : Worker) (items : List Item) (m : Machine) → Moves m (send_ordinary w items m)
  unfolding send_ordinary
  send_ordinary-Moves w items m = elim (Bool-cases (length items == 0)) [
    | inl e ↦ rw e no_call
    | inr e ↦ rw e (
        for_each-Moves (send_chat w items) (send_chat-Moves w items)
          (sort_strings (chats_of (group_by_chat items))) m)
  ]
