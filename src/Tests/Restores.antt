-- ===== src/Tests/Restores.antt =====
-- The checks of a download, and a restore that they refuse.
use dockvault.Tests.{host, remote}
use dockvault.Common.{◌≡◌, refl, ap, none, [], inr, codes, ◌=t◌, pos}
use dockvault.Effects.{
  Call, Reply, run_command, stat, open_file, read_file, write_file, create_exclusive, mkdir_all,
  chmod, read_dir, entry_info, remove, remove_all, mkdir_temp, now, wait, process_id, find_process,
  signal_zero, http_post, get_env, home_dir, print, read_line, Platform, World, M, return, fail,
  bytes, Content, Answer, not_exist, Json, already_exists, text, array, item, no_items, object,
  field, no_fields, ok, panic, monad, Error, to_result,
}
use dockvault.Backup.Clients.{RcloneClient}
use dockvault.Restore.Files.{BackupFile}
use dockvault.Restore.Verify.{download_manifest, verify_manifest_file, verify_manifest_bytes}
use dockvault.Restore.Acceptance.{
  FileAccepted, BytesAccepted, verify_manifest_file_accepts, verify_manifest_bytes_accepts,
}

-- A remote whose downloads fail.
abbrev broken : RcloneClient
broken = record remote { download = λ path dest. fail (codes "no such object") }

abbrev file : BackupFile
file = record {
  name = codes "a.rdb";
  size = pos 4;
  modified = none;
  path = codes "backups/pg/a.rdb";
}

-- A remote whose manifests give the digest of the content.
abbrev manifest : Json
manifest = object (field (codes "sha256") (text (codes "5ha")) no_fields)

abbrev with_manifest : World
with_manifest = record { platform = record host { parse_json = λ t. inr manifest }; log = [] }

accepts_file :
    (verify_manifest_file remote file (codes "/tmp/dir") (codes "/tmp/dir/a.rdb") with_manifest).0
    ≡ ok []
unfolding monad verify_manifest_file download_manifest dockvault.Restore.Verify.read_manifest
    dockvault.Backup.Manifest.decode_manifest dockvault.Backup.Manifest.checked_time
    dockvault.Json.fields_of dockvault.Json.text_field ◌=t◌ dockvault.Json.int_field
    dockvault.Restore.Verify.verify_file dockvault.Restore.Verify.usable dockvault.Json.get
    dockvault.Restore.Verify.compare_digest dockvault.Common.parse_rfc3339
accepts_file = refl

verify_manifest_file_accepts_example :
    FileAccepted file
      (verify_manifest_file remote file (codes "/tmp/dir") (codes "/tmp/dir/a.rdb") with_manifest).1
      []
      (codes "/tmp/dir/a.rdb")
      (download_manifest remote file (codes "/tmp/dir") with_manifest)
verify_manifest_file_accepts_example =
    verify_manifest_file_accepts remote file (codes "/tmp/dir") with_manifest
      (verify_manifest_file remote file (codes "/tmp/dir") (codes "/tmp/dir/a.rdb") with_manifest).1
      [] (codes "/tmp/dir/a.rdb")
      (ap
        (λ r. (
          r,
          (verify_manifest_file remote file (codes "/tmp/dir") (codes "/tmp/dir/a.rdb")
              with_manifest).1,
        ))
        accepts_file)

accepts_bytes :
    (verify_manifest_bytes remote file (codes "/tmp/dir") (bytes (codes "dump")) with_manifest).0
    ≡ ok []
unfolding monad verify_manifest_bytes download_manifest dockvault.Restore.Verify.read_manifest
    dockvault.Backup.Manifest.decode_manifest dockvault.Backup.Manifest.checked_time
    dockvault.Json.fields_of dockvault.Json.text_field ◌=t◌ dockvault.Json.int_field
    dockvault.Restore.Verify.verify_bytes dockvault.Restore.Verify.usable dockvault.Json.get
    dockvault.Restore.Verify.compare_digest dockvault.Common.parse_rfc3339
accepts_bytes = refl

verify_manifest_bytes_accepts_example :
    BytesAccepted file
      (verify_manifest_bytes remote file (codes "/tmp/dir") (bytes (codes "dump")) with_manifest).1
      []
      (bytes (codes "dump"))
      (download_manifest remote file (codes "/tmp/dir") with_manifest)
verify_manifest_bytes_accepts_example =
    verify_manifest_bytes_accepts remote file (codes "/tmp/dir") with_manifest
      (verify_manifest_bytes remote file (codes "/tmp/dir") (bytes (codes "dump")) with_manifest).1
      [] (bytes (codes "dump"))
      (ap
        (λ r. (
          r,
          (verify_manifest_bytes remote file (codes "/tmp/dir") (bytes (codes "dump"))
              with_manifest).1,
        ))
        accepts_bytes)
