-- ===== src/Tests/Audit.antt =====
-- A poll of the audit log, and its property at it.
use lark_git_webhook.Base.{◌≡◌, refl, true, false, none, some, [], ◌∷◌, if◌then◌else◌}
use lark_git_webhook.Base.Bytes.{ascii, same}
use lark_git_webhook.Bolt.Memory.{memory}
use lark_git_webhook.Store.Error.{ok}
use lark_git_webhook.Store.Types.{json}
use lark_git_webhook.Store.Audit.{audit_checkpoint, audit_bootstrap, set_audit_checkpoint}
use lark_git_webhook.Base.Words.{add64, sub64}
use lark_git_webhook.Bolt.Assoc.{lookup, insert}
use lark_git_webhook.Store.Keys.{number_key, time_key, dedupe_index_key}
use lark_git_webhook.Store.Accounting.{active_item_bytes}
use lark_git_webhook.Store.Dedupe.{cleanup_dedupe, evict_dedupe, remember}
use lark_git_webhook.Store.Admission.{admit, admit_new, make_room, over_capacity, push_item}
use lark_git_webhook.Store.Delivery.{finalize_archive, lookup_delivery}
use lark_git_webhook.Archive.{reserve, admission_required}
use lark_git_webhook.Audit.{archive_record, record_id, leave_off, admit_reserved, admit_record}
use lark_git_webhook.Audit.Stamps.{plus, minus, AuditRecords, parse_int, moment_of}
use lark_git_webhook.Audit.{Poller, went, AuditOutside, wanted, Polling, poll_once}
use lark_git_webhook.Audit.Checkpoint.{Ends, poll_once_lem}
use lark_git_webhook.Tests.Data.{sizes, empty_db, empty_store, noon}
use lark_git_webhook.Tests.Requests.{shelf, plain}

-- A record is the number of its `created_at`, which is its document's name too.
instance abbrev pub numbered : AuditRecords
numbered = record {
  members = λ raw. some (λ key. if same key (ascii "created_at") then some raw else none);
  document_id = λ raw. some raw;
  text = λ value. none;
  number = λ value. some value;
  parse_rfc3339 = λ written. none;
}

instance abbrev pub two_records : AuditOutside
two_records = record {
  ended = λ n. false;
  fetch = λ n org from. some (ascii "-5" ∷ ascii "1700000000" ∷ []);
}

abbrev poller : Poller
poller = record { org = ascii "acme"; dedupe_ttl = 60 }

-- The first checkpoint was at the epoch, and the last one a second later.
abbrev polling : Polling
polling = record {
  world = record {
    store = record empty_store {
      db = some (record empty_db {
        audit_checkpoint = memory.put memory.fresh (ascii "acme") (json 62_135_596_801_000_000_000);
        audit_bootstrap = memory.put memory.fresh (ascii "acme") (json 62_135_596_800_000_000_000);
      });
    };
    files = λ event id payload. false;
  };
  asked = 0;
}

seconds_before : parse_int (ascii "-5") ≡ some (minus 5)
unfolding parse_int
seconds_before = refl

milliseconds : moment_of (plus 1_700_000_000_000) ≡ moment_of (plus 1_700_000_000)
unfolding moment_of
milliseconds = refl

too_large : parse_int (ascii "9223372036854775808") ≡ none
unfolding parse_int
too_large = refl

older_record : wanted (some 62_135_596_800_000_000_000) (ascii "-5") ≡ went false
unfolding wanted same
older_record = refl

newer_record : wanted (some 62_135_596_800_000_000_000) (ascii "1700000000") ≡ went true
unfolding wanted same
newer_record = refl

polls_new : (poll_once poller noon polling).0 ≡ went tt
unfolding poll_once audit_checkpoint audit_bootstrap wanted memory lookup insert same
    lookup_delivery reserve admission_required admit admit_new make_room cleanup_dedupe evict_dedupe
    over_capacity push_item remember add64 sub64 active_item_bytes number_key time_key
    dedupe_index_key finalize_archive archive_record record_id set_audit_checkpoint leave_off
    admit_reserved admit_record
polls_new = refl

found : audit_checkpoint polling.world.store poller.org ≡ ok (some 62_135_596_801_000_000_000)
unfolding audit_checkpoint memory same
found = refl

poll_once_example :
    Ends poller noon 62_135_596_801_000_000_000 polling (poll_once poller noon polling)
poll_once_example = poll_once_lem poller noon polling 62_135_596_801_000_000_000 found
