-- ===== src/Restore/Rabbitmq.antt =====
-- internal/restore/rabbitmq_restore.go
use dockvault.Common.{
  Option, none, some, if◌then◌else◌, Text, codes, ◌++◌, null, true, [], ◌∷◌, path_join,
}
use dockvault.Effects.{Content, to_result, M, ◌>>=◌, ◌>>◌, return, wrap, ask, finally, write_file}
use dockvault.Backup.Job.{Job}
use dockvault.Backup.Clients.{DockerClient, RcloneClient}
use dockvault.Backup.Manifest.{owner_only}
use dockvault.Backup.TempDir.{required, with_temp_dir}
use dockvault.Restore.Files.{BackupFile}
use dockvault.Restore.Verify.{download_and_read}

abbrev pub definitions_path : Text
definitions_path = codes "/tmp/dockvault-restore-definitions.json"

unfoldable pub import_definitions : DockerClient → Job → M Text
import_definitions dc job =
    finally
      (wrap (codes "rabbitmqctl import_definitions: ") (
        dc.exec job.container_name
          (codes "rabbitmqctl" ∷ codes "import_definitions" ∷ definitions_path ∷ []) [] none))
      (dc.exec job.container_name (codes "rm" ∷ codes "-f" ∷ definitions_path ∷ []) [] none)

unfoldable pub apply_dump : DockerClient → Job → Content → M Text
apply_dump dc job dump = with_temp_dir (codes "dockvault-restore-rabbitmq-") λ tmp_dir. do
  let local_path = path_join (tmp_dir ∷ codes "definitions.json" ∷ [])
  wrap (codes "writing definitions for copy: ")
      (ask (write_file local_path owner_only dump) to_result)
  wrap (codes "copying definitions into container: ")
      (dc.cp local_path (job.container_name ++ (codes ":" ++ definitions_path)))
  import_definitions dc job

unfoldable pub missing : Job → Option Text
missing job =
    if null job.container_name
    then some (codes "rabbitmq.Restore: job " ++ (job.name ++ codes " has no target container"))
    else none

unfoldable pub restore : DockerClient → RcloneClient → Job → BackupFile → M Text
restore dc rc job file =
    required (missing job)
      (do d ← download_and_read rc file true; apply_dump dc job d.content; return d.warning)
