-- ===== src/Backup/Rabbitmq.antt =====
-- internal/backup/rabbitmq/rabbitmq.go
use dockvault.Common.{
  Option, none, some, if◌then◌else◌, Text, codes, ◌++◌, null, [], ◌∷◌, path_join,
}
use dockvault.Effects.{Error, to_result, M, ◌>>=◌, ◌>>◌, wrap, ask, finally, read_file}
use dockvault.Backup.Job.{Job}
use dockvault.Backup.Clients.{DockerClient, RcloneClient}
use dockvault.Backup.Manifest.{gzip_to_file}
use dockvault.Backup.Upload.{upload_archive}
use dockvault.Backup.Record.{run_and_record}
use dockvault.Backup.TempDir.{required, with_temp_dir, archive_name, temp_prefix}

abbrev pub definitions_path : Text
definitions_path = codes "/tmp/dockvault-definitions.json"

unfoldable pub export_definitions : DockerClient → RcloneClient → Job → M Text
export_definitions dc rc job = do
  wrap (codes "rabbitmqctl export_definitions: ") (
      dc.exec job.container_name
        (codes "rabbitmqctl" ∷ codes "export_definitions" ∷ definitions_path ∷ []) [] none)
  with_temp_dir (temp_prefix job) λ tmp_dir. do
    let raw_path = path_join (tmp_dir ∷ codes "definitions.json" ∷ [])
    wrap (codes "copying definitions out of container: ")
        (dc.cp (job.container_name ++ (codes ":" ++ definitions_path)) raw_path)
    raw ← wrap (codes "reading copied definitions: ") (ask (read_file raw_path) to_result)
    file_name ← archive_name job (codes "json.gz")
    let local_path = path_join (tmp_dir ∷ file_name ∷ [])
    wrap (codes "compressing definitions: ") (gzip_to_file raw local_path)
    upload_archive rc job local_path

unfoldable pub missing : Job → Option Text
missing job =
    if null job.container_name
    then some (codes "rabbitmq.Backup: job " ++ (job.name ++ codes " has no target container"))
    else none

-- The deferred removal in the container is registered before the export.
unfoldable pub backup_core : DockerClient → RcloneClient → Job → M Text
backup_core dc rc job = required (missing job) (
    finally (export_definitions dc rc job)
      (dc.exec job.container_name (codes "rm" ∷ codes "-f" ∷ definitions_path ∷ []) [] none))

unfoldable pub backup : DockerClient → RcloneClient → Job → M (Job × Option Error)
backup dc rc job = run_and_record job (backup_core dc rc job)
