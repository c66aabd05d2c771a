-- ===== src/Lib.antt =====
-- Verification of lark-git-webhook, a bridge that receives GitHub and GitLab webhooks, keeps them
-- in a durable queue and an archive, and forwards them to Lark chats.
--
-- The program. `cmd/lark-git-webhook` wires the parts together. `internal/webhook` and
-- `internal/gitlabwebhook` receive deliveries, `internal/archive` keeps their payloads as files, and
-- `internal/store` keeps everything else in one bbolt database: the queue of deliveries, the
-- deduplication window, the dead letters, the permanent identity of each delivery, the outbound
-- rate limit, workflow cards, onboarding forms and callback results, audit checkpoints and
-- repository subscriptions. `internal/forwarder` takes due items from the store and sends them to
-- Lark through `internal/lark`; `internal/larkcallback` serves Lark's callbacks; `internal/audit`
-- polls GitHub's audit log.
--
-- What models what.
-- - Base: Boolean tests and lists over the native numbers, byte strings and their order, uint64
--   arithmetic. A string or byte slice of the program is a list of bytes.
-- - Bolt: `go.etcd.io/bbolt` as a record of operations and laws, the parameter of all that follows:
--   a bucket is what its cursor shows, a list of entries in key order. Bolt/Memory is a database in
--   memory that meets the laws, which the runs use.
-- - Store: `internal/store/store.go`. Types has its records, Error its errors, Db its buckets and
--   transactions; Keys the binary keys; Accounting the byte accounting and `rebuildActiveStats`,
--   `rebuildDeadStats`; Dedupe the deduplication window; Admission `Enqueue`, `Admit`,
--   `AdmitToChats`, `AdmitArchiveOnly`; Delivery `FinalizeArchive`, `ClaimSubscriptionReply`,
--   `LookupDelivery`, `PendingArchives`; Queue `Due`, `Delete`, `CompleteChatDelivery`, `Stats`,
--   `OldestAge`; Failure `HandleFailure` and `RequeueDeadLetter`; Rate `ReserveRequest`; Audit the
--   checkpoints; Subscription the repository subscriptions and the consumer lock; Workflow
--   `UpsertWorkflow` and its kin; Onboarding the forms, logins and callback results; Opening `Open`.
--   Each call is a function from the store to its result and the store after it, composed of the
--   transaction (named `..._tx`, a function on the database) and `update`, which commits or rolls
--   back. Store/Call has all writing calls as one data type, Store/Invariant their histories.
-- - Archive: `internal/archive/archive.go`. Archive itself has `AdmissionRequired`, `checkSpace` and
--   `Reserve`, and the interface that the handlers and the poller take: `VerifyExisting` and `Store`,
--   with the laws that a payload whose store succeeded is found again and that one that is found
--   stays; OnDisk fills it. Payloads has `deliveryDir`, `archivedPayload` and `existingPayload` on the entries of a
--   directory; Files `verifyExisting` and `store` on the directories, with each call of the file
--   system that writes or syncs, which may fail.
-- - Webhook: `internal/webhook/handler.go`. Checks has `validHeader`, `archiveOnlyEvent`,
--   `validSignature`, `repositoryName` and the selection of targets; Webhook itself `ServeHTTP`, cut
--   where it returns: `serve_http`, `serve_body`, `serve_delivery`, `resume_delivery`,
--   `take_delivery`, `admit_delivery`, `publish`, `acknowledge`. Its state is the store and the
--   archive. HMAC-SHA256, the JSON decoder and lower case are parameters (`Content`).
-- - Gitlab: `internal/gitlabwebhook/handler.go`. Labels has `eventLabel`, `systemHookEvent` and the
--   forwarded events; Gitlab itself the token, `deliveryIDFor`, the targets and `ServeHTTP`, cut where
--   it returns: `serve_gitlab`, `serve_gitlab_body`, `serve_labelled`, `serve_event`, `resume_event`,
--   `take_event`, `admit_event`, `publish_admitted`. It shares the state and the last steps, `publish`
--   and `acknowledge`, with Webhook.
-- - Audit: `internal/audit/poller.go`. Stamps has `createdAfter` and `parseAuditTimestamp`; Audit
--   itself `PollOnce` and `admit`, cut where they return. Their state is the store and the archive,
--   and how often the world was asked: whether the context has ended (`ctx.Err`, or the choice of the
--   `select` that waits for the archive's lock), and what the client fetches.
-- - Forwarder: the worker of `internal/forwarder`. Machine has what it runs against and its state, a
--   store with the time and the notes of what was asked of Lark and counted; Backoff the delay between
--   attempts; Text `trim` and `formatForLimit` of `format.go`; Split `splitWithLookup`; Targets
--   `itemChatIDs` and the map from chats to items; Batch `sendBatchToChat` and `sendOrdinary` of
--   `worker.go`; Cards `sendCardToChat`, Workflows the events of `workflow.go`, Pipelines those of
--   `gitlab_pipeline.go`, Forms `onboarding.go`; Rounds `Run`. An operation is a function from the
--   machine to its result, `batchResult`, and the machine after it. Effects has the moves of the
--   store that the operations make.
-- - Tests: concrete runs, and the results at them.
--
-- How the source is read.
-- - A time is the number of nanoseconds since the start of year 1, so that the zero `time.Time` is
--   0; times are UTC. A duration that the program subtracts from a time is added on the other side.
-- - The fixed keys of the meta bucket are the fields of a record of uint64 values. The other
--   buckets are maps from keys to stored values, and a stored value is the JSON of a record or bytes
--   that do not decode; `json.Marshal` is taken not to fail and to be read back by `json.Unmarshal`.
-- - The length of a record's JSON, and SHA-256, are parameters (`Encoding`), of which one law is
--   used: a list with fewer chats has no longer JSON.
-- - Bucket writes are taken to succeed; where one fails, the transaction rolls back as it does for
--   every other error. What a call returns beside an error is left out.
-- - uint64 counters wrap: `add64` and `sub64` write that out. Attempts and run numbers do not wrap.
-- - A context is what it answers at the three moments a call asks it.
-- - Loops over a cursor are recursion on the list of entries. The loop of `evictDedupe`, which starts
--   its cursor anew, runs on fuel: one round more than there are entries, which is enough since each
--   round removes the first entry.
-- - Mutexes are not modelled: bbolt runs one writing transaction at a time, so that a history of
--   calls is a sequence.
-- - What is outside of the worker is asked by number (`Outside`): how far the clock moved, whether the
--   context ended a wait, the random part of a delay, what Lark answers. So every sequence of answers
--   is a run. The clock does not go back, and a timer does not fire early. Durations do not wrap.
-- - The loop that waits for a slot runs on fuel, twice the entries of the history and two rounds more:
--   each wait lets an entry leave a window, or ends the cooldown. `Run` goes on until its context ends;
--   its model is given a number of rounds.
-- - The file system of the archive is asked by number too (`Disk`): which calls that write or sync
--   fail. Reads of the delivery's directory are taken to succeed, and an event with a slash to name a
--   file of a directory that is not there.
-- - The text of an item, the card of a state and the size of a message are parameters of the worker.
-- - The requests in flight are a number that the handler compares with its limit. A body that cannot
--   be read is none. The reservation of the archive is its space check; its lock is not modelled.
--
-- Not modelled: the creation of files and directories, `Close`, `Writable` and `FileSize` of the
-- store, and the packages that are not listed above.
pub mod Base
pub mod Bolt
pub mod Store
pub mod Archive
pub mod Webhook
pub mod Gitlab
pub mod Audit
pub mod Forwarder
pub mod Tests
