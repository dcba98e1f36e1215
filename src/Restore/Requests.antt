-- ===== src/Restore/Requests.antt =====
-- What a restore asks for.
use dockvault.Common.{ℕ, Bool, Option, none, some, List, Text, Dict}
use dockvault.Effects.{Call, mkdir_temp, remove_all, open_file, read_file, write_file, M, Content}
use dockvault.Effects.Keeps.{
  Only, bind-Only, return-Only, throw-Only, attempt-Only, wrap-Only, ask-Only, lift-Only,
  platform-Only, unmarshal-Only, finally-Only, if-Only,
}
use dockvault.Docker.{MountSpec}
use dockvault.Backup.Clients.{DockerClient, RcloneClient}
use dockvault.Backup.TempDir.{required, with_temp_dir}
use dockvault.Restore.Files.{BackupFile, download_to}
use dockvault.Restore.Verify.{
  read_manifest, download_manifest, compare_digest, verify_bytes, verify_manifest_bytes,
  verify_file, verify_manifest_file, decompress, download_and_read,
}
use dockvault.Backup.Manifest.{ArchiveManifest}

-- The requests of two clients, and those that prepare and check a download, satisfy `P`.
pub record Allowed (P : Call → Type 0) (dc : DockerClient) (rc : RcloneClient) : Type 0 where
  pub runs :
      (image : Text) (mounts : List MountSpec) (cmd : List Text) → Only P (dc.run image mounts cmd)
  pub execs :
      (container : Text) (cmd : List Text) (env : Dict) (stdin : Option Content)
      → Only P (dc.exec container cmd env stdin)
  pub stops : (container : Text) → Only P (dc.stop container)
  pub copies : (from to : Text) → Only P (dc.cp from to)
  pub downloads : (path dest : Text) → Only P (rc.download path dest)
  pub makes : (prefix : Text) → P (mkdir_temp prefix)
  pub removes : (path : Text) → P (remove_all path)
  pub opens : (path : Text) → P (open_file path)
  pub reads : (path : Text) → P (read_file path)
  pub writes : (path : Text) (mode : ℕ) (content : Content) → P (write_file path mode content)

pub required-Only {ℓ} :
    {A : Type ℓ} {P : Call → Type 0} {m : M A} (o : Option Text) → Only P m → Only P (required o m)
unfolding required
required-Only none h = h
required-Only (some message) h = throw-Only _

module _ {P : Call → Type 0} {dc : DockerClient} {rc : RcloneClient}
    (allowed : Allowed P dc rc) where
  pub with_temp_dir-Only {ℓ} :
      {A : Type ℓ} (prefix : Text) {body : Text → M A}
      → ((dir : Text) → Only P (body dir))
      → Only P (with_temp_dir prefix body)
  unfolding with_temp_dir
  with_temp_dir-Only prefix h =
      bind-Only (wrap-Only _ (ask-Only _ _ (allowed.makes prefix)))
        λ dir. finally-Only (h dir) (ask-Only _ _ (allowed.removes dir))

  module _ (file : BackupFile) where
    pub download_to-Only : (dir : Text) → Only P (download_to rc file dir)
    unfolding download_to
    download_to-Only dir = wrap-Only _ (allowed.downloads file.path dir)

    download_manifest-Only : (dir : Text) → Only P (download_manifest rc file dir)
    unfolding download_manifest read_manifest
    download_manifest-Only dir =
        bind-Only
          (attempt-Only (
            bind-Only (allowed.downloads _ dir) λ _.
              bind-Only (ask-Only _ _ (allowed.reads _))
                λ content. bind-Only (unmarshal-Only content) λ j. lift-Only _))
          λ m. return-Only _

    compare_digest-Only : (m : ArchiveManifest) (got : Text) → Only P (compare_digest file m got)
    unfolding compare_digest
    compare_digest-Only m got = if-Only _ (return-Only _) (throw-Only _)

    verify_bytes-Only :
        (content : Content) (m : Option ArchiveManifest) → Only P (verify_bytes file content m)
    unfolding verify_bytes
    verify_bytes-Only content none = return-Only _
    verify_bytes-Only content (some m) =
        bind-Only (platform-Only _) λ got. compare_digest-Only m got

    verify_file-Only : (path : Text) (m : Option ArchiveManifest) → Only P (verify_file file path m)
    unfolding verify_file
    verify_file-Only path none = return-Only _
    verify_file-Only path (some m) =
        bind-Only (wrap-Only _ (ask-Only _ _ (allowed.opens path))) λ _.
          bind-Only (wrap-Only _ (ask-Only _ _ (allowed.reads path)))
            λ content. bind-Only (platform-Only _) λ got. compare_digest-Only m got

    pub verify_manifest_file-Only :
        (dir path : Text) → Only P (verify_manifest_file rc file dir path)
    unfolding verify_manifest_file
    verify_manifest_file-Only dir path =
        bind-Only (download_manifest-Only dir) λ m. verify_file-Only path m

    decompress-Only : (content : Content) → Only P (decompress content)
    unfolding decompress
    decompress-Only content = bind-Only (platform-Only _) λ out.
        bind-Only (wrap-Only _ (lift-Only _))
          λ stream. bind-Only (wrap-Only _ (lift-Only _)) λ plain. return-Only _

    pub download_and_read-Only : (gunzip : Bool) → Only P (download_and_read rc file gunzip)
    unfolding download_and_read verify_manifest_bytes
    download_and_read-Only gunzip = with_temp_dir-Only _ λ dir.
        bind-Only (download_to-Only dir) λ _.
          bind-Only (wrap-Only _ (ask-Only _ _ (allowed.reads _))) λ content.
            bind-Only (bind-Only (download_manifest-Only dir) λ m. verify_bytes-Only content m)
              λ warning.
                bind-Only (if-Only gunzip (decompress-Only content) (return-Only content))
                  λ plain. return-Only _
