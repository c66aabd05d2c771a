-- ===== src/Tests/Payloads.antt =====
-- Payloads that are stored in the archive, and the property of storing at one.
use lark_git_webhook.Base.{◌≡◌, refl, true, false, none, some, [], ◌∷◌}
use lark_git_webhook.Base.Bytes.{ascii, same, after_prefix}
use lark_git_webhook.Archive.{Archive, done, failed, archive_conflict, check_space}
use lark_git_webhook.Archive.Payloads.{
  encode_base64, delivery_dir, payload_name, is_payload_name, event_of_name, has_slash, base_name,
  before_suffix, base64_digit, find_payload, read_payload, archived_payload, existing_payload,
}
use lark_git_webhook.Archive.Files.{
  Files, Disk, read_place, look_up, attempts, set_folder, store_in, write_payload, fill_temporary,
  link_payload, finish_publish, store_at, store_payload, is_there, write_if_space,
}
use lark_git_webhook.Archive.OnDisk.{archive_on_disk}
use lark_git_webhook.Archive.Kept.{Stored, store_payload_lem}
use lark_git_webhook.Tests.Data.{payload, push}

instance abbrev pub sound_disk : Disk
sound_disk = record { fails = λ n. false; random = λ n. n ∷ []; free = λ n. some 100_000_000 }

abbrev no_files : Files
no_files = record { places = λ name. none; asked = 0 }

abbrev on_disk : Archive
on_disk = archive_on_disk 1_000

abbrev first_files : Files
first_files = (store_payload 1_000 true no_files push (ascii "d-1") payload).1

digits_of_id : encode_base64 (ascii "d-1") ≡ ascii "ZC0x"
unfolding encode_base64 base64_digit
digits_of_id = refl

stores_new : (store_payload 1_000 true no_files push (ascii "d-1") payload).0 ≡ done true
unfolding store_payload store_at attempts store_in write_if_space check_space write_payload
    fill_temporary link_payload finish_publish set_folder is_there delivery_dir encode_base64
    base64_digit payload_name is_payload_name event_of_name has_slash base_name before_suffix
    after_prefix find_payload read_payload archived_payload existing_payload same
stores_new = refl

found_again :
    on_disk.verify_existing
      (on_disk.store no_files push (ascii "d-1") payload).1
      push
      (ascii "d-1")
      payload
    ≡ done true
unfolding store_payload store_at attempts store_in write_if_space check_space write_payload
    fill_temporary link_payload finish_publish set_folder is_there delivery_dir encode_base64
    base64_digit payload_name is_payload_name event_of_name has_slash base_name before_suffix
    after_prefix find_payload read_payload archived_payload existing_payload same look_up read_place
found_again = refl

other_payload : look_up first_files push (ascii "d-1") (9 ∷ []) ≡ failed archive_conflict
unfolding store_payload store_at attempts store_in write_if_space check_space write_payload
    fill_temporary link_payload finish_publish set_folder is_there delivery_dir encode_base64
    base64_digit payload_name is_payload_name event_of_name has_slash base_name before_suffix
    after_prefix find_payload read_payload archived_payload existing_payload same look_up read_place
other_payload = refl

push_named : same push [] ≡ false
unfolding same
push_named = refl

store_payload_example :
    Stored push
      (ascii "d-1")
      payload
      no_files
      (store_payload 1_000 true no_files push (ascii "d-1") payload)
store_payload_example = store_payload_lem 1_000 true no_files push (ascii "d-1") payload push_named
