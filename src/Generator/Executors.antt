-- ===== src/Generator/Executors.antt =====
-- The jobs of the generator find their executors in the registries.
use dockvault.Common.{◌≡◌, refl, some, Text, ◌=t◌}
use dockvault.Workspace.Config.{Config}
use dockvault.Detector.ServiceTypes.{ServiceType}
use dockvault.Detector.ServiceTypes
use dockvault.Cli.Registry.{Kind, registered}
use dockvault.Cli.Registry
use dockvault.Detector.Findings.{VolumeInfo, HostPathInfo}
use dockvault.Generator.{job_from_volume, job_from_host_path, executor_name_for_service_type}

-- Both registries hold an executor for the backup type, and it has that name.
abbrev pub HasExecutor : Text → Type 0
HasExecutor backup_type =
    (kind : Kind) × (registered backup_type ≡ some kind) × (Registry.name_of kind ≡ backup_type)

for_service :
    (s : ServiceType) → HasExecutor (executor_name_for_service_type (ServiceTypes.name_of s))
unfolding executor_name_for_service_type ServiceTypes.name_of Registry.name_of registered ◌=t◌
for_service ServiceType.postgres = (Kind.postgres, refl, refl)
for_service ServiceType.mysql = (Kind.mysql, refl, refl)
for_service ServiceType.mongodb = (Kind.mongodb, refl, refl)
for_service ServiceType.redis = (Kind.redis, refl, refl)
for_service ServiceType.n8n = (Kind.n8n, refl, refl)
for_service ServiceType.rabbitmq = (Kind.rabbitmq, refl, refl)
for_service ServiceType.generic = (Kind.standard, refl, refl)
for_service ServiceType.hostdir = (Kind.hostdir, refl, refl)

-- A job that the generator makes from a volume with any of the service types, or from a host directory,
-- has its backup and restore executors in the registries.
pub generated_jobs-HasExecutor :
    (v : VolumeInfo) (h : HostPathInfo) (cfg : Config) (s : ServiceType)
    → v.service_type ≡ ServiceTypes.name_of s
    → HasExecutor (job_from_volume v cfg).backup_type
      × HasExecutor (job_from_host_path h cfg).backup_type
unfolding job_from_volume job_from_host_path registered Registry.name_of ◌=t◌
generated_jobs-HasExecutor v h cfg s same = (rw same (for_service s), (Kind.hostdir, refl, refl))
