-- ===== src/Backup/Upload.antt =====
-- `UploadArchive` of internal/backup/run.go and what it calls.
pub mod Integrity
use dockvault.Common.{
  List, [], ◌∷◌, ◌++◌, inl, inr, Text, codes, ◌=t◌, null, path_join, path_base, nonpos,
  if◌then◌else◌,
}
use dockvault.Effects.{
  Error, FileStat, to_result, Answer, M, ◌>>=◌, ◌>>◌, return, fail, wrap, lift, attempt, ask,
  platform, stat,
}
use dockvault.Backup.Job.{Job}
use dockvault.Backup.Clients.{RcloneClient}
use dockvault.Backup.Size.{format_bytes}
use dockvault.Backup.Manifest.{ArchiveManifest, compute_manifest, manifest_path_for, write_manifest}
use dockvault.Backup.LocalCopy.{retain_local_copy}

unfoldable pub prune_warning : Text → Answer (List Text) → Text
prune_warning status (inr pruned) = status
prune_warning status (inl e) = status ++ (codes ", prune warning: " ++ e.message)

unfoldable pub prune_with_warning : RcloneClient → Job → Text → M Text
prune_with_warning rc job status = if nonpos job.retention_days then return status else (do
  r ← attempt (rc.prune job.google_drive_path job.retention_days job.min_files_to_keep)
  return (prune_warning status r))

unfoldable pub compare_md5 : Text → Text → Text → M (Unit {0})
compare_md5 remote_file local_md5 remote_md5 =
    if remote_md5 =t local_md5
    then return tt
    else fail (
        codes "upload integrity check failed for "
        ++ (remote_file
            ++ (codes ": local md5 "
                ++ (local_md5
                    ++ (codes " != remote md5 "
                        ++ (remote_md5
                            ++ codes " (the uploaded object doesn't match what was sent)"))))))

abbrev pub remote_md5_of : RcloneClient → Text → M Text
remote_md5_of rc remote_file =
    wrap (codes "verifying upload integrity for " ++ (remote_file ++ codes ": "))
      (rc.hashsum remote_file)

unfoldable pub verify_remote_hash : RcloneClient → Text → Text → M (Unit {0})
verify_remote_hash rc remote_file local_md5 = do
  remote_md5 ← remote_md5_of rc remote_file
  compare_md5 remote_file local_md5 remote_md5

-- The variables `manifestPath`, `manifest.MD5` and `status`; the path is empty without a manifest.
pub record Sidecar : Type 0 where
  pub path : Text
  pub md5 : Text
  pub status : Text

unfoldable pub sidecar_warning : Error → Text
sidecar_warning e = codes ", manifest warning: " ++ e.message

unfoldable pub sidecar_of : Text → ArchiveManifest → Answer (Unit {0}) → Sidecar
sidecar_of path m (inr done) = record { path = path; md5 = m.md5; status = [] }
sidecar_of path m (inl e) = record { path = []; md5 = m.md5; status = sidecar_warning e }

unfoldable pub manifest_computed : Text → Answer ArchiveManifest → M Sidecar
manifest_computed local_path (inl e) =
    return (record { path = []; md5 = []; status = sidecar_warning e })
manifest_computed local_path (inr m) = do
  r ← attempt (write_manifest m (manifest_path_for local_path))
  return (sidecar_of (manifest_path_for local_path) m r)

unfoldable pub make_sidecar : Job → Text → M Sidecar
make_sidecar job local_path = do
  r ← attempt (compute_manifest job local_path)
  manifest_computed local_path r

unfoldable pub upload_warning : Text → Answer (Unit {0}) → Text
upload_warning status (inr done) = status
upload_warning status (inl e) = status ++ (codes ", manifest upload warning: " ++ e.message)

unfoldable pub upload_sidecar : RcloneClient → Job → Text → Text → M Text
upload_sidecar rc job manifest_path status = if null manifest_path then return status else (do
  r ← attempt (rc.upload manifest_path job.google_drive_path)
  return (upload_warning status r))

unfoldable pub remote_file_of : Job → Text → Text
remote_file_of job local_path = path_join (job.google_drive_path ∷ path_base local_path ∷ [])

unfoldable pub verify_upload : RcloneClient → Job → Text → Sidecar → M (Unit {0})
verify_upload rc job local_path side =
    if null side.path
    then return tt
    else verify_remote_hash rc (remote_file_of job local_path) side.md5

-- The steps behind the verification.
unfoldable pub conclude_upload : RcloneClient → Job → FileStat → Text → M Text
conclude_upload rc job info status = do
  one_decimal ← platform (λ p. p.one_decimal)
  size ← lift (format_bytes one_decimal info.size)
  prune_with_warning rc job (codes "success (" ++ (size ++ (codes ")" ++ status)))

unfoldable pub upload_archive : RcloneClient → Job → Text → M Text
upload_archive rc job local_path = do
  info ← wrap (codes "reading archive output: ") (ask (stat local_path) to_result)
  side ← make_sidecar job local_path
  status ← retain_local_copy job local_path side.path side.status
  wrap (codes "uploading to " ++ (job.google_drive_path ++ codes ": "))
      (rc.upload local_path job.google_drive_path)
  status' ← upload_sidecar rc job side.path status
  verify_upload rc job local_path side
  conclude_upload rc job info status'
