-- ===== src/Backup/TempDir.antt =====
-- What the executors repeat: the temporary directory, the archive's name, the `tar` command and the
-- optional password.
use dockvault.Common.{
  Dict, Option, none, some, true, false, List, [], ◌∷◌, ◌++◌, Text, codes, null, if◌then◌else◌,
}
use dockvault.Effects.{fail, to_result, M, ◌>>=◌, wrap, ask, finally, mkdir_temp, remove_all}
use dockvault.Docker.{MountSpec}
use dockvault.Backup.Job.{Job, archive_file_name, volume_identifier_or_fallback}

-- The early return of a job that lacks what its executor needs.
unfoldable pub required {ℓ} : {A : Type ℓ} → Option Text → M A → M A
required none m = m
required (some message) m = fail message

-- `os.MkdirTemp` with the deferred `os.RemoveAll`.
unfoldable pub with_temp_dir {ℓ} : {A : Type ℓ} → Text → (Text → M A) → M A
with_temp_dir prefix body = do
  dir ← wrap (codes "creating temp dir: ") (ask (mkdir_temp prefix) to_result)
  finally (body dir) (ask (remove_all dir) to_result)

unfoldable pub temp_prefix : Job → Text
temp_prefix job = codes "dockvault-" ++ (job.name ++ codes "-")

unfoldable pub mount : Text → Text → MountSpec
mount source target = record { source = source; target = target; read_only = false }

unfoldable pub read_only_mount : Text → Text → MountSpec
read_only_mount source target = record { source = source; target = target; read_only = true }

unfoldable pub archive_name : Job → Text → M Text
archive_name job ext = archive_file_name job.name (volume_identifier_or_fallback job) ext

unfoldable pub tar_command : Text → List Text
tar_command file =
    codes "tar"
    ∷ codes "czf"
    ∷ (codes "/backup/" ++ file)
    ∷ codes "-C"
    ∷ codes "/source"
    ∷ codes "."
    ∷ []

abbrev pub alpine_image : Text
alpine_image = codes "alpine:latest"

-- `if pw != "" { env[key] = pw }` on an empty map.
unfoldable pub set_if_given : Text → Text → Dict
set_if_given key pw = if null pw then [] else (key, pw) ∷ []
