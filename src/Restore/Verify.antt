-- ===== src/Restore/Verify.antt =====
-- internal/restore/verify.go and internal/restore/download.go
use dockvault.Common.{
  Bool, Option, none, some, [], ◌∷◌, ◌++◌, inl, inr, Text, codes, ◌=t◌, path_join, if◌then◌else◌,
}
use dockvault.Effects.{
  Content, bytes, to_result, Answer, M, ◌>>=◌, ◌>>◌, return, fail, wrap, attempt, ask, platform,
  unmarshal, lift, open_file, read_file,
}
use dockvault.Rclone.{manifest_suffix}
use dockvault.Backup.Clients.{RcloneClient}
use dockvault.Backup.Manifest.{ArchiveManifest, decode_manifest}
use dockvault.Backup.TempDir.{with_temp_dir}
use dockvault.Restore.Files.{BackupFile, download_to}

-- `none` is a manifest that is missing or cannot be read, for whatever reason.
unfoldable pub read_manifest : RcloneClient → BackupFile → Text → M ArchiveManifest
read_manifest rc file dest_dir = do
  rc.download (file.path ++ manifest_suffix) dest_dir
  content ← ask (read_file (path_join (dest_dir ∷ (file.name ++ manifest_suffix) ∷ []))) to_result
  j ← unmarshal content
  lift (decode_manifest j)

unfoldable pub usable : Answer ArchiveManifest → Option ArchiveManifest
usable (inl e) = none
usable (inr m) = some m

unfoldable pub download_manifest : RcloneClient → BackupFile → Text → M (Option ArchiveManifest)
download_manifest rc file dest_dir = do
  m ← attempt (read_manifest rc file dest_dir)
  return (usable m)

abbrev pub missing_manifest_warning : Text
missing_manifest_warning =
    codes
      "restored without integrity verification - no usable backup manifest found (this backup may predate integrity verification, or its manifest failed to download)"

-- The comparison at the end of both checks.
unfoldable pub compare_digest : BackupFile → ArchiveManifest → Text → M Text
compare_digest file m got =
    if got =t m.sha256
    then return []
    else fail (
        codes "integrity check failed for "
        ++ (file.name
            ++ (codes ": expected sha256 "
                ++ (m.sha256 ++ (codes ", got " ++ (got ++ codes " - refusing to restore"))))))

unfoldable pub verify_bytes : BackupFile → Content → Option ArchiveManifest → M Text
verify_bytes file content none = return missing_manifest_warning
verify_bytes file content (some m) = do
  got ← platform (λ p. p.sha256 content)
  compare_digest file m got

unfoldable pub verify_manifest_bytes : RcloneClient → BackupFile → Text → Content → M Text
verify_manifest_bytes rc file dest_dir content = do
  m ← download_manifest rc file dest_dir
  verify_bytes file content m

unfoldable pub verify_file : BackupFile → Text → Option ArchiveManifest → M Text
verify_file file local_path none = return missing_manifest_warning
verify_file file local_path (some m) = do
  wrap (codes "opening " ++ (local_path ++ codes " to verify: "))
      (ask (open_file local_path) to_result)
  content ←
      wrap (codes "hashing " ++ (local_path ++ codes " to verify: "))
        (ask (read_file local_path) to_result)
  got ← platform (λ p. p.sha256 content)
  compare_digest file m got

unfoldable pub verify_manifest_file : RcloneClient → BackupFile → Text → Text → M Text
verify_manifest_file rc file dest_dir local_path = do
  m ← download_manifest rc file dest_dir
  verify_file file local_path m

-- The results `data` and `warning`.
pub record Downloaded : Type 0 where
  pub content : Content
  pub warning : Text

unfoldable pub decompress : Content → M Content
decompress content = do
  out ← platform (λ p. p.gunzip content)
  stream ← wrap (codes "opening gzip stream: ") (lift (to_result out))
  plain ← wrap (codes "decompressing: ") (lift (to_result stream))
  return (bytes plain)

unfoldable pub download_and_read : RcloneClient → BackupFile → Bool → M Downloaded
download_and_read rc file gunzip = with_temp_dir (codes "dockvault-restore-") λ tmp_dir. do
  download_to rc file tmp_dir
  content ←
      wrap (codes "reading downloaded file: ")
        (ask (read_file (path_join (tmp_dir ∷ file.name ∷ []))) to_result)
  warning ← verify_manifest_bytes rc file tmp_dir content
  plain ← if gunzip then decompress content else return content
  return (record { content = plain; warning = warning })
