-- ===== src/Detector/Scan.antt =====
-- The scan of containers and volumes of internal/detector/detector.go.
use dockvault.Common.{
  ◌||◌, Bool, false, not, none, some, List, [], ◌∷◌, ◌++◌, inl, inr, Text, codes, ◌=t◌, null, map,
  Dict, ℤ, text_lt, sort_by, if◌then◌else◌,
}
use dockvault.Effects.{Answer, M, ◌>>=◌, return, wrap, attempt, ask, to_result, hostname}
use dockvault.Docker
use dockvault.Docker.Inspect.{
  VolumeSummary, ContainerRef, Mount, ContainerDetail, list_volumes, list_containers,
  inspect_container, inspect_containers,
}
use dockvault.Detector.ServiceTypes.{
  ServiceType, generic, name_of, detect_service_type, detect_service_type_from_port,
  recommended_backup_type,
}
use dockvault.Detector.Naming.{
  sanitize_component, normalize_environment, volume_identifier, volume_suffix, generate_job_name,
  remote_path, is_generic,
}
use dockvault.Detector.Credentials.{extract_credentials}
use dockvault.Detector.Findings.{VolumeInfo, ContainerInfo, Detector}

unfoldable pub host_name : Answer Text → Text
host_name (inl e) = codes "unknown-host"
host_name (inr host) = if null host then codes "unknown-host" else host

unfoldable pub new : Docker.Client → Text → Text → M Detector
new docker environment goos = do
  r ← attempt (ask hostname to_result)
  return (record {
    docker = docker;
    hostname = sanitize_component (host_name r);
    environment = normalize_environment environment;
    goos = goos;
  })

unfoldable pub container_info : ContainerDetail → ContainerInfo
container_info d = record {
  id = d.id;
  name = d.name;
  image = d.image;
  running = d.running;
  env = d.env;
  ports = d.ports;
}

unfoldable pub found : Answer ContainerDetail → List ContainerInfo → List ContainerInfo
found (inl e) out = out
found (inr d) out = container_info d ∷ out

-- The loop of `ScanContainers`: a container that cannot be inspected is left out.
unfoldable pub inspect_each : Docker.Client → List ContainerRef → M (List ContainerInfo)
inspect_each docker [] = return []
inspect_each docker (ref ∷ refs) = do
  r ← attempt (inspect_container docker ref.id)
  out ← inspect_each docker refs
  return (found r out)

unfoldable pub scan_containers : Detector → M (List ContainerInfo)
scan_containers d = do
  refs ← wrap (codes "listing containers: ") (list_containers d.docker false)
  inspect_each d.docker refs

unfoldable pub is_mount_of : Text → Mount → Bool
is_mount_of volume m =
    if not (m.kind =t codes "volume") || null m.name then false else m.name =t volume

-- The entry of one container in `byVolume[volume]`: once for each of its mounts.
unfoldable pub uses : Text → ContainerDetail → List Mount → List ContainerDetail
unfolding is_mount_of
uses volume det [] = []
uses volume det (m ∷ ms) =
    let rest = uses volume det ms in if is_mount_of volume m then det ∷ rest else rest

unfoldable pub users_of : Text → List ContainerDetail → List ContainerDetail
unfolding uses
users_of volume [] = []
users_of volume (det ∷ details) = uses volume det det.mounts ++ users_of volume details

-- The service of the first user whose image tells one.
unfoldable pub image_service : List ContainerDetail → ServiceType
image_service [] = generic
image_service (c ∷ cs) =
    let t = detect_service_type c.image in if is_generic t then image_service cs else t

-- The first user with that service.
unfoldable pub target_of : ServiceType → ContainerDetail → List ContainerDetail → ContainerDetail
target_of service first [] = first
target_of service first (c ∷ cs) =
    if name_of (detect_service_type c.image) =t name_of service
    then c
    else target_of service first cs

unfoldable pub hint_of : List ℤ → ServiceType
hint_of [] = generic
hint_of (p ∷ ps) = elim (detect_service_type_from_port p) [ none ↦ hint_of ps | some t ↦ t ]

-- The service and the credentials that the users of a volume tell.
unfoldable pub service_of : List ContainerDetail → ServiceType × Dict
unfolding image_service target_of hint_of
service_of [] = (generic, [])
service_of (c ∷ cs) =
    let service = image_service (c ∷ cs) in
    let target = target_of service c (c ∷ cs) in
    (
      if is_generic service then hint_of target.ports else service,
      extract_credentials target.image target.env,
    )

-- A job with no service is named after its first container.
unfoldable pub container_job_name : Text → Text → Text
container_job_name volume container =
    let name = sanitize_component container in
    let suffix = volume_suffix volume name in
    if null suffix then name else sanitize_component (name ++ (codes "_" ++ suffix))

unfoldable pub job_name_for : Text → ServiceType → Dict → List Text → Text
job_name_for volume service creds [] = generate_job_name volume service creds
job_name_for volume service creds (c ∷ cs) =
    if is_generic service
    then container_job_name volume c
    else generate_job_name volume service creds

abbrev container_name : ContainerDetail → Text
container_name c = c.name

unfoldable pub volume_info : Detector → Text → List ContainerDetail → VolumeInfo
volume_info d volume users =
    let service : ServiceType = (service_of users).0 in
    let creds : Dict = (service_of users).1 in
    let names = map container_name users in
    let job_name = job_name_for volume service creds names in
    record {
      name = volume;
      containers = names;
      service_type = name_of service;
      credentials = creds;
      recommended_backup_type = recommended_backup_type service;
      job_name = job_name;
      google_drive_path = remote_path d.environment d.hostname (name_of service) job_name;
      volume_identifier = volume_identifier volume;
    }

unfoldable pub info_before : VolumeInfo → VolumeInfo → Bool
info_before a b = text_lt a.name b.name

unfoldable pub volume_infos : Detector → List ContainerDetail → List VolumeSummary → List VolumeInfo
volume_infos d details vols =
    sort_by info_before (map (λ v. volume_info d v.name (users_of v.name details)) vols)

abbrev pub container_id : ContainerRef → Text
container_id r = r.id

unfoldable pub scan_volumes : Detector → M (List VolumeInfo)
scan_volumes d = do
  vols ← wrap (codes "listing volumes: ") (list_volumes d.docker)
  refs ← wrap (codes "listing containers: ") (list_containers d.docker false)
  details ← inspect_containers d.docker (map container_id refs)
  return (volume_infos d details.0 vols)
