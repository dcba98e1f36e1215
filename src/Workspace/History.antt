-- ===== src/Workspace/History.antt =====
-- internal/workspace/manifest.go
use dockvault.Common.{
  Option, none, some, List, [], ◌∷◌, inl, inr, Text, codes, ◌=t◌, ℤ, zero, pos, if◌then◌else◌,
}
use dockvault.Effects.{
  Json, null, text, number, array, object, Items, no_items, item, Fields, no_fields, field,
  document, Content, Answer, Result, ok, M, ◌>>=◌, ◌>>◌, return, throw, attempt, ask, lift,
  to_result, unmarshal, write_file, read_file,
}
use dockvault.Json
use dockvault.Json.{text_field, int_field, fields_of, omit_empty, get, decode_array}
use dockvault.Backup.Manifest.{owner_only}
use dockvault.Backup.LocalCopy.{is_not_exist}
use dockvault.Workspace.Paths.{manifest_path, ensure_layout}

-- `last_backup` is kept as the text of the document, empty if there was no backup.
pub record ManifestEntry : Type 0 where
  pub job_name : Text
  pub service_type : Text
  pub last_backup : Text
  pub last_backup_status : Text
  pub last_size_bytes : ℤ

unfoldable pub omit_zero : Text → ℤ → Fields → Fields
omit_zero key (pos zero) fs = fs
omit_zero key n fs = field key (number n) fs

unfoldable pub entry_json : ManifestEntry → Json
entry_json e = object (
    field (codes "job_name") (text e.job_name) (
      field (codes "service_type") (text e.service_type) (
        omit_empty (codes "last_backup") e.last_backup (
          omit_empty (codes "last_backup_status") e.last_backup_status
            (omit_zero (codes "last_size_bytes") e.last_size_bytes no_fields)))))

unfoldable pub entries_json : List ManifestEntry → Items
entries_json [] = no_items
entries_json (e ∷ es) = item (entry_json e) (entries_json es)

-- The slice that `LoadManifest` returns without a file is nil, which is printed as `null`.
unfoldable pub jobs_json : List ManifestEntry → Json
unfolding entries_json
jobs_json [] = null
jobs_json (e ∷ es) = array (entries_json (e ∷ es))

unfoldable pub decode_manifest_entry : Json → Result ManifestEntry
decode_manifest_entry j = Json.◌>>=◌ (fields_of j) λ fs.
    Json.◌>>=◌ (text_field (codes "job_name") [] fs) λ job_name.
      Json.◌>>=◌ (text_field (codes "service_type") [] fs) λ service_type.
        Json.◌>>=◌ (text_field (codes "last_backup") [] fs) λ last_backup.
          Json.◌>>=◌ (text_field (codes "last_backup_status") [] fs) λ last_backup_status.
            Json.◌>>=◌ (int_field (codes "last_size_bytes") (pos 0) fs) λ last_size_bytes.
              ok (record {
                job_name = job_name;
                service_type = service_type;
                last_backup = last_backup;
                last_backup_status = last_backup_status;
                last_size_bytes = last_size_bytes;
              })

unfoldable pub decode_jobs : Option Json → Result (List ManifestEntry)
decode_jobs none = ok []
decode_jobs (some j) = decode_array decode_manifest_entry j

-- A `Manifest` is its list of jobs.
unfoldable pub decode_manifest : Json → Result (List ManifestEntry)
decode_manifest j = Json.◌>>=◌ (fields_of j) λ fs. decode_jobs (get (codes "jobs") fs)

unfoldable pub manifest_read : Answer Content → M (List ManifestEntry)
manifest_read (inl e) = if is_not_exist e.kind then return [] else throw e
manifest_read (inr content) = do j ← unmarshal content; lift (decode_manifest j)

unfoldable pub load_manifest : Text → M (List ManifestEntry)
load_manifest root = do
  r ← attempt (ask (read_file (manifest_path root)) to_result)
  manifest_read r

unfoldable pub save_manifest : Text → List ManifestEntry → M (Unit {0})
save_manifest root jobs =
    ensure_layout root
    >> ask
        (write_file (manifest_path root) owner_only
          (document (object (field (codes "jobs") (jobs_json jobs) no_fields))))
        to_result

unfoldable pub upsert : ManifestEntry → List ManifestEntry → List ManifestEntry
upsert entry [] = entry ∷ []
upsert entry (e ∷ es) =
    let rest = upsert entry es in if e.job_name =t entry.job_name then entry ∷ es else e ∷ rest
