-- ===== src/Backup/Manifest.antt =====
-- internal/backup/manifest.go and `GzipToFile` of internal/backup/archive.go.
use dockvault.Common.{
  none, some, quoted, Instant, Option, parse_rfc3339, ℕ, [], ◌++◌, Text, codes, path_base, ℤ, pos,
  format_rfc3339_nano,
}
use dockvault.Effects.{
  errorf, err, Content, Json, number, text, object, no_fields, field, bytes, document, to_result, M,
  ◌>>=◌, ◌>>◌, return, wrap, ask, perform, platform, open_file, read_file, write_file, now, Result,
  ok,
}
use dockvault.Json
use dockvault.Json.{text_field, int_field, fields_of}
use dockvault.Rclone.{manifest_suffix}
use dockvault.Backup.Job.{Job}

pub record ArchiveManifest : Type 0 where
  pub job_name : Text
  pub backup_type : Text
  pub file_name : Text
  pub sha256 : Text
  pub md5 : Text
  pub size_bytes : ℤ
  pub created_at : Text

-- `createdAt` is kept as it stands in the document.
unfoldable pub compute_manifest : Job → Text → M ArchiveManifest
compute_manifest job local_path = do
  wrap (codes "opening " ++ (local_path ++ codes " to hash: "))
      (ask (open_file local_path) to_result)
  content ←
      wrap (codes "hashing " ++ (local_path ++ codes ": ")) (ask (read_file local_path) to_result)
  sha256 ← platform (λ p. p.sha256 content)
  md5 ← platform (λ p. p.md5 content)
  size ← platform (λ p. p.size_of content)
  t ← perform now
  return (record {
    job_name = job.name;
    backup_type = job.backup_type;
    file_name = path_base local_path;
    sha256 = sha256;
    md5 = md5;
    size_bytes = pos size;
    created_at = format_rfc3339_nano t;
  })

unfoldable pub manifest_path_for : Text → Text
manifest_path_for local_path = local_path ++ manifest_suffix

unfoldable pub manifest_json : ArchiveManifest → Json
manifest_json m = object (
    field (codes "job_name") (text m.job_name) (
      field (codes "backup_type") (text m.backup_type) (
        field (codes "file_name") (text m.file_name) (
          field (codes "sha256") (text m.sha256) (
            field (codes "md5") (text m.md5) (
              field (codes "size_bytes") (number m.size_bytes)
                (field (codes "created_at") (text m.created_at) no_fields)))))))

-- `json.Unmarshal` into an `ArchiveManifest`; the syntax of the time is not checked.
-- The text of the zero `time.Time`.
abbrev zero_time : Text
zero_time = codes "0001-01-01T00:00:00Z"

-- A time that does not parse makes the document unusable.
unfoldable pub checked_time : Text → Option Instant → Result Text
checked_time t none = err (errorf (codes "parsing time " ++ quoted t))
checked_time t (some moment) = ok t

unfoldable pub decode_manifest : Json → Result ArchiveManifest
decode_manifest j = Json.◌>>=◌ (fields_of j) λ fs.
    Json.◌>>=◌ (text_field (codes "job_name") [] fs) λ job_name.
      Json.◌>>=◌ (text_field (codes "backup_type") [] fs) λ backup_type.
        Json.◌>>=◌ (text_field (codes "file_name") [] fs) λ file_name.
          Json.◌>>=◌ (text_field (codes "sha256") [] fs) λ sha256.
            Json.◌>>=◌ (text_field (codes "md5") [] fs) λ md5.
              Json.◌>>=◌ (int_field (codes "size_bytes") (pos 0) fs) λ size_bytes.
                Json.◌>>=◌
                  (Json.◌>>=◌ (text_field (codes "created_at") zero_time fs)
                    λ t. checked_time t (parse_rfc3339 t))
                  λ created_at. ok (record {
                    job_name = job_name;
                    backup_type = backup_type;
                    file_name = file_name;
                    sha256 = sha256;
                    md5 = md5;
                    size_bytes = size_bytes;
                    created_at = created_at;
                  })

-- 0600
abbrev pub owner_only : ℕ
owner_only = 384

unfoldable pub write_manifest : ArchiveManifest → Text → M (Unit {0})
write_manifest m path =
    wrap (codes "writing manifest " ++ (path ++ codes ": "))
      (ask (write_file path owner_only (document (manifest_json m))) to_result)

-- The file is opened, and then holds the compressed bytes.
unfoldable pub gzip_to_file : Content → Text → M (Unit {0})
gzip_to_file raw path = do
  ask (write_file path owner_only (bytes [])) to_result
  compressed ← platform (λ p. p.gzip raw)
  ask (write_file path owner_only (bytes compressed)) to_result
