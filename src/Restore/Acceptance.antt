-- ===== src/Restore/Acceptance.antt =====
-- What it means that a download passes its check.
use dockvault.Common.{◌≡◌, inl, inr, Option, none, some, [], ◌∷◌, Text, ◌=t◌, =t_iff, Bool-cases}
use dockvault.Effects.{
  Result, ok, err, panic, World, continue, Answer-cases, monad, ◌>>=◌, Content, open_file,
  read_file,
}
use dockvault.Backup.Clients.{RcloneClient}
use dockvault.Backup.Manifest.{ArchiveManifest}
use dockvault.Restore.Files.{BackupFile}
use dockvault.Restore.Verify.{
  download_manifest, verify_file, verify_bytes, compare_digest, verify_manifest_file,
  verify_manifest_bytes, missing_manifest_warning,
}

compare_digest-ok :
    (file : BackupFile) (m : ArchiveManifest) (got : Text) (w w' : World) (warning : Text)
    → compare_digest file m got w ≡ (ok warning, w')
    → (got ≡ m.sha256) × (warning ≡ [])
unfolding compare_digest monad
compare_digest-ok file m got w w' warning h = elim (Bool-cases (got =t m.sha256)) [
  | inl e ↦ ((=t_iff got m.sha256).0 e, cc (rw e at h))
  | inr e ↦ cc (rw e at h)
]

module _ (file : BackupFile) (w' : World) (warning : Text) where
  -- The outcomes of the check of a file, behind the download of the manifest.
  abbrev pub FileAccepted : Text → Result (Option ArchiveManifest) × World → Type 0
  FileAccepted local (ok none, w1) = warning ≡ missing_manifest_warning
  FileAccepted local (ok (some m), w1) =
      (content : Content) × (w1.platform.answer (open_file local ∷ w1.log) (read_file local)
        ≡ inr content)
      × (w1.platform.sha256 content ≡ m.sha256)
      × (warning ≡ [])
  FileAccepted local (_, w1) = ⊥

  file_accepted :
      (local : Text) (r : Result (Option ArchiveManifest) × World)
      → continue r (verify_file file local) ≡ (ok warning, w')
      → FileAccepted local r
  unfolding verify_file monad
  file_accepted local (ok none, w1) h = cc h
  file_accepted local (ok (some m), w1) h =
      elim (Answer-cases (w1.platform.answer w1.log (open_file local))) [
        | inl (e, p) ↦ cc (rw p at h)
        | inr (v, p) ↦
            elim (Answer-cases (w1.platform.answer (open_file local ∷ w1.log) (read_file local))) [
              | inl (e, q) ↦ cc (rw (p, q) at h)
              | inr (content, q) ↦
                  let (same, clean) =
                    compare_digest-ok file m (w1.platform.sha256 content) _ w' warning
                      (rw (p, q) at h) in
                  (content, q, same, clean)
            ]
      ]
  file_accepted local (err e, w1) h = cc h
  file_accepted local (panic t, w1) h = cc h

  -- The outcomes of the check of bytes in memory.
  abbrev pub BytesAccepted : Content → Result (Option ArchiveManifest) × World → Type 0
  BytesAccepted content (ok none, w1) = warning ≡ missing_manifest_warning
  BytesAccepted content (ok (some m), w1) = (w1.platform.sha256 content ≡ m.sha256) × (warning ≡ [])
  BytesAccepted content (_, w1) = ⊥

  bytes_accepted :
      (content : Content) (r : Result (Option ArchiveManifest) × World)
      → continue r (verify_bytes file content) ≡ (ok warning, w')
      → BytesAccepted content r
  unfolding verify_bytes monad
  bytes_accepted content (ok none, w1) h = cc h
  bytes_accepted content (ok (some m), w1) h =
      compare_digest-ok file m (w1.platform.sha256 content) w1 w' warning h
  bytes_accepted content (err e, w1) h = cc h
  bytes_accepted content (panic t, w1) h = cc h

module _ (rc : RcloneClient) (file : BackupFile) (dir : Text) (w w' : World) (warning : Text) where
  -- The check of a file on disk passes only if no usable manifest came down, which the warning says,
  -- or the SHA-256 of what the file holds is the one in the manifest, with no warning.
  pub verify_manifest_file_accepts :
      (local : Text)
      → verify_manifest_file rc file dir local w ≡ (ok warning, w')
      → FileAccepted file w' warning local (download_manifest rc file dir w)
  unfolding verify_manifest_file ◌>>=◌
  verify_manifest_file_accepts local h =
      file_accepted file w' warning local (download_manifest rc file dir w) h

  -- The check of bytes in memory passes only if no usable manifest came down, which the warning says,
  -- or the SHA-256 of the bytes is the one in the manifest, with no warning.
  pub verify_manifest_bytes_accepts :
      (content : Content)
      → verify_manifest_bytes rc file dir content w ≡ (ok warning, w')
      → BytesAccepted file w' warning content (download_manifest rc file dir w)
  unfolding verify_manifest_bytes ◌>>=◌
  verify_manifest_bytes_accepts content h =
      bytes_accepted file w' warning content (download_manifest rc file dir w) h
