-- ===== src/Tests/Backups.antt =====
-- Backups, the clients and the retention at concrete data.
use dockvault.Tests.{host, world, job, remote, login, watched, docker, archive}
use dockvault.Docker
use dockvault.Rclone
use dockvault.Backup.N8n
use mathlib.Core.List.{Perm}
use dockvault.Common.{
  drop, length, ℕ, ◌<◌, ◌≤◌, ◌^◌, ◌/◌, ◌≡◌, ◌≢◌, refl, ap, Bool, true, false, Option, none, some,
  List, [], ◌∷◌, ◌++◌, null, false, sort_by, ◌+◌, ◌*◌, if◌then◌else◌, ◌⊎◌, inl, inr, Text, codes,
  ◌=t◌, pos, decimal, Instant, All, take, keep, map, trim_suffix, arith,
}
use dockvault.Common.Order.{InOrder}
use dockvault.Effects.{
  Call, Reply, run_command, stat, open_file, read_file, write_file, create_exclusive, mkdir_all,
  chmod, read_dir, entry_info, remove, remove_all, mkdir_temp, now, wait, process_id, find_process,
  signal_zero, http_post, get_env, home_dir, print, read_line, Platform, World, M, return, fail,
  errorf, bytes, Content, Answer, not_exist, Json, already_exists, text, array, item, no_items,
  object, field, no_fields, ok, err, panic, monad, Error, to_result,
}
use dockvault.Effects.Keeps.{Grows}
use dockvault.Docker.{redact_args, exec_args}
use dockvault.Docker.Redact.{HasPlainKey, hidden, redact_args-exec_args}
use dockvault.Rclone.{LsjsonEntry, FileInfo, list_files, prune, newer, files_of, file_of, is_backup}
use dockvault.Rclone.Newest.{Stands, NotLater, DeletesOne, prune-SparesNewest}
use dockvault.Rclone.Listing.{is_later, is_archive, described, files_of_listing}
use dockvault.Backup.Job.{unique_remote_dirs, seen_in}
use dockvault.Backup.Job.RemoteDirs.{Distinct, wanted, unique_remote_dirs_complete}
use dockvault.Backup.Clients.{docker_client}
use dockvault.Backup.Size.{format_bytes, format_bytes_units}
use dockvault.Backup.Upload.{upload_archive}
use dockvault.Backup.Upload.Integrity.{Verified, upload_archive-Verified}
use dockvault.Backup.Record.{run_and_record}
use dockvault.Backup.Record.Outcome.{report, notice_of, notified, run_and_record_outcome}
use dockvault.Backup.N8n.Lifecycle.{backup_core_restarts}
use dockvault.Backup.Redis.{wait_for_save}
use dockvault.Backup.Redis.Waiting.{SawSave, wait_for_save-SawSave}

uploads : (upload_archive remote job archive world).0 ≡ ok (codes "success (1.5 KB)")
unfolding monad upload_archive dockvault.Backup.Upload.make_sidecar
    dockvault.Backup.Manifest.compute_manifest dockvault.Backup.Upload.manifest_computed
    dockvault.Backup.Manifest.write_manifest dockvault.Backup.LocalCopy.retain_local_copy
    dockvault.Backup.Upload.upload_sidecar dockvault.Backup.Upload.sidecar_of
    dockvault.Backup.Manifest.manifest_path_for dockvault.Backup.Upload.verify_upload
    dockvault.Backup.Upload.verify_remote_hash dockvault.Backup.Upload.compare_md5 ◌=t◌
    dockvault.Backup.Upload.conclude_upload format_bytes dockvault.Backup.Size.scale
    dockvault.Backup.Upload.prune_with_warning dockvault.Backup.Upload.upload_warning
uploads = refl

upload_archive-Verified_example : Verified remote job archive world
upload_archive-Verified_example =
    upload_archive-Verified remote job archive world (upload_archive remote job archive world).1
      (codes "success (1.5 KB)")
      (ap (λ r. (r, (upload_archive remote job archive world).1)) uploads)

abbrev two_files : List FileInfo
two_files =
    record {
      name = codes "b";
      size = pos 1;
      mod_time = codes "2026-02-02T00:00:00Z";
      path = codes "d/b";
    }
    ∷ record {
      name = codes "a";
      size = pos 1;
      mod_time = codes "2026-01-02T00:00:00Z";
      path = codes "d/a";
    }
    ∷ []

abbrev march : Instant
march = 1772323200000000000

abbrev listing : Json
listing = array (
    item
      (object (
        field (codes "Name") (text (codes "a"))
          (field (codes "ModTime") (text (codes "2026-01-02T00:00:00Z")) no_fields)))
      no_items)

abbrev with_listing : World
with_listing = record { platform = record host { parse_json = λ t. inr listing }; log = [] }

abbrev gdrive : Rclone.Client
gdrive = Rclone.new (codes "gdrive")

listed :
    (list_files gdrive (codes "d") with_listing).0
    ≡ ok (
        record {
          name = codes "a";
          size = pos 0;
          mod_time = codes "2026-01-02T00:00:00Z";
          path = codes "d/a";
        }
        ∷ [])
unfolding monad list_files Rclone.list_entries Rclone.run Rclone.read_exit
    dockvault.Json.decode_array Rclone.decode_entry dockvault.Json.fields_of
    dockvault.Json.text_field ◌=t◌ dockvault.Json.int_field dockvault.Json.bool_field
    dockvault.Json.decode_items dockvault.Json.get files_of file_of is_backup newer keep
    dockvault.Common.sort_by dockvault.Common.insert_sorted dockvault.Common.has_suffix
    dockvault.Common.has_prefix trim_suffix
listed = refl

abbrev listed_a : FileInfo
listed_a = record {
  name = codes "a";
  size = pos 0;
  mod_time = codes "2026-01-02T00:00:00Z";
  path = codes "d/a";
}

prune-SparesNewest_example :
    Grows
      (λ call.
        (call ≡ now)
        ⊎ ((f : FileInfo) × Stands f (drop 1 (listed_a ∷ []))
            × NotLater (take 1 (listed_a ∷ [])) f
            × DeletesOne gdrive f call
            × (length (take 1 (listed_a ∷ [])) ≡ 1)))
      (list_files gdrive (codes "d") with_listing).1.log
      (prune gdrive (codes "d") (pos 7) (pos 1) with_listing).1.log
prune-SparesNewest_example =
    prune-SparesNewest gdrive (codes "d") (pos 7) 1 with_listing
      (list_files gdrive (codes "d") with_listing).1 (listed_a ∷ [])
      (ap (λ r. (r, (list_files gdrive (codes "d") with_listing).1)) listed)

-- A directory, a manifest and two archives.
abbrev listed_entry : Text → Text → Bool → LsjsonEntry
listed_entry name mod_time is_dir = record {
  path = name;
  name = name;
  size = pos 4;
  mod_time = mod_time;
  is_dir = is_dir;
}

abbrev entries : List LsjsonEntry
entries =
    listed_entry (codes "old") (codes "2026-01-02T00:00:00Z") true
    ∷ listed_entry (codes "a.gz") (codes "2026-01-02T00:00:00Z") false
    ∷ listed_entry (codes "b.gz.manifest.json") (codes "2026-02-02T00:00:00Z") false
    ∷ listed_entry (codes "b.gz") (codes "2026-02-02T00:00:00Z") false
    ∷ []

files_of_listing_example :
    InOrder is_later (files_of (codes "d/") entries)
    × Perm (files_of (codes "d/") entries) (map (described (codes "d/")) (keep is_archive entries))
files_of_listing_example = files_of_listing (codes "d/") entries

n8n_given : N8n.missing job ≡ none
unfolding N8n.missing
n8n_given = refl

stopped : (docker.stop (codes "db") world).0 ≡ ok tt
unfolding return docker_client Docker.stop dockvault.Effects.wrap_around dockvault.Effects.◌>>=◌
    Docker.run Docker.run_with_stdin dockvault.Effects.ask Docker.read_exit
stopped = refl

abbrev stopped_world : World
stopped_world = (docker.stop (codes "db") world).1

backup_core_restarts_example :
    ((N8n.backup_core docker remote job world).1
      ≡ (docker.start (codes "db") (N8n.tar_volume docker remote job stopped_world).1).1)
    × ((status : Text)
        → (N8n.backup_core docker remote job world).0 ≡ ok status
        → (inner : Text) × ((N8n.tar_volume docker remote job stopped_world).0 ≡ ok inner))
backup_core_restarts_example =
    backup_core_restarts docker remote job world stopped_world n8n_given
      (ap (λ r. (r, stopped_world)) stopped)

saved : (wait_for_save docker (codes "db") [] (codes "before") 60 world).0 ≡ ok tt
unfolding wait_for_save dockvault.Effects.◌>>=◌ dockvault.Effects.ask dockvault.Effects.attempt
    dockvault.Backup.Redis.last_save return dockvault.Backup.Redis.advanced ◌=t◌
    dockvault.Common.trim_space docker_client Docker.exec dockvault.Effects.wrap_around
    Docker.run_with_stdin Docker.read_exit
saved = refl

wait_for_save-SawSave_example :
    SawSave docker
      (codes "db")
      []
      (codes "before")
      (wait_for_save docker (codes "db") [] (codes "before") 60 world).1
wait_for_save-SawSave_example =
    wait_for_save-SawSave docker (codes "db") [] (codes "before") 60 world
      (wait_for_save docker (codes "db") [] (codes "before") 60 world).1
      (ap (λ r. (r, (wait_for_save docker (codes "db") [] (codes "before") 60 world).1)) saved)

dump_fails : M Text
dump_fails = fail (codes "no dump")

fails : dump_fails world ≡ (to_result (inl (errorf (codes "no dump"))), world)
unfolding dump_fails dockvault.Effects.throw
fails = refl

run_and_record_outcome_example : run_and_record watched dump_fails world ≡ (
  ok (report watched 0 (inl (errorf (codes "no dump")))),
  record world { log = notified watched (notice_of watched 0 (inl (errorf (codes "no dump")))) [] },
)
run_and_record_outcome_example =
    run_and_record_outcome watched dump_fails (inl (errorf (codes "no dump"))) world world fails

unique_remote_dirs_complete_example :
    Distinct (unique_remote_dirs (job ∷ watched ∷ []))
    × (seen_in (unique_remote_dirs (job ∷ watched ∷ [])) [] ≡ false)
    × ((d : Text)
        → d ≢ []
        → seen_in (unique_remote_dirs (job ∷ watched ∷ [])) d ≡ wanted (job ∷ watched ∷ []) d)
unique_remote_dirs_complete_example = unique_remote_dirs_complete (job ∷ watched ∷ [])

key_is_plain : All HasPlainKey login
key_is_plain = (ground arith, tt)

redact_args-exec_args_example :
    redact_args (exec_args (codes "db") (codes "pg_dumpall" ∷ []) login false)
    ≡ redact_args (exec_args (codes "db") (codes "pg_dumpall" ∷ []) (hidden login) false)
redact_args-exec_args_example =
    redact_args-exec_args (codes "db") (codes "pg_dumpall" ∷ []) login false key_is_plain

abbrev quotient : ℕ → ℕ → Text
quotient n div = decimal (n / div)

format_bytes_units_example :
    (2500 < 1000 → format_bytes quotient 2500 ≡ ok (decimal 2500 ++ codes " B"))
    × (1000 ≤ 2500
        → 2500 < 10 ^ 6
        → format_bytes quotient 2500 ≡ ok (quotient 2500 1000 ++ codes " KB"))
    × (10 ^ 6 ≤ 2500
        → 2500 < 10 ^ 9
        → format_bytes quotient 2500 ≡ ok (quotient 2500 (10 ^ 6) ++ codes " MB"))
    × (10 ^ 9 ≤ 2500
        → 2500 < 10 ^ 12
        → format_bytes quotient 2500 ≡ ok (quotient 2500 (10 ^ 9) ++ codes " GB"))
    × (10 ^ 12 ≤ 2500
        → 2500 < 10 ^ 15
        → format_bytes quotient 2500 ≡ ok (quotient 2500 (10 ^ 12) ++ codes " TB"))
    × (10 ^ 15 ≤ 2500 → format_bytes quotient 2500 ≡ panic (codes "index out of range"))
format_bytes_units_example = format_bytes_units quotient 2500
