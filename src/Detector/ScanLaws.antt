-- ===== src/Detector/ScanLaws.antt =====
-- What a scan of the volumes gives, and what it asks for.
use mathlib.Core.List.{Perm}
use mathlib.Core.List.Perm
use dockvault.Common.{
  ap, arith, ◌≡◌, refl, false, none, List, [], ◌∷◌, ◌⊎◌, inl, inr, Text, codes, null, map, All,
  Bool-cases, Dict,
}
use dockvault.Common.Order.{
  InOrder, sort_by-InOrder, sort_by-perm, All-sort_by, IsComparison, text_lt-IsComparison,
  text_lt-asymm,
}
use mathlib.Core.Path.{subst}
use dockvault.Docker
use dockvault.Effects.{Json, ok, Call, run_command}
use dockvault.Utils.{validate_job_name}
use dockvault.Docker.Inspect.{
  VolumeSummary, ContainerDetail, list_volumes_args, list_containers_args,
}
use dockvault.Detector.ServiceTypes.{ServiceType}
use dockvault.Detector.Naming.{volume_suffix, sanitize_component}
use dockvault.Detector.ValidNames.{sanitize_component-valid, generated_names_valid}
use dockvault.Detector.Findings.{VolumeInfo, Detector}
use dockvault.Detector.Scan.{
  container_job_name, job_name_for, volume_info, info_before, volume_infos, users_of,
}

-- The name of the job may be the name of its directory.
abbrev pub HasValidName : VolumeInfo → Type 0
HasValidName v = validate_job_name v.job_name ≡ ok tt

container_job_name-valid :
    (volume container : Text) → validate_job_name (container_job_name volume container) ≡ ok tt
unfolding container_job_name
container_job_name-valid volume container =
    elim (Bool-cases (null (volume_suffix volume (sanitize_component container)))) [
      | inl e ↦ rw e (sanitize_component-valid container)
      | inr e ↦ rw e (sanitize_component-valid _)
    ]

job_name_for-valid :
    (volume : Text) (service : ServiceType) (creds : Dict) (names : List Text)
    → validate_job_name (job_name_for volume service creds names) ≡ ok tt
unfolding job_name_for
job_name_for-valid volume service creds [] = (generated_names_valid volume service creds []).0
job_name_for-valid volume service creds (c ∷ cs) =
    ground
      (arith, container_job_name-valid volume c, (generated_names_valid volume service creds []).0)

volume_info-HasValidName :
    (d : Detector) (volume : Text) (users : List ContainerDetail)
    → HasValidName (volume_info d volume users)
unfolding volume_info
volume_info-HasValidName d volume users = job_name_for-valid volume _ _ _

info_before-IsComparison : IsComparison info_before
unfolding info_before
info_before-IsComparison a b c h = text_lt-IsComparison a.name b.name c.name h

abbrev pub name_of_info : VolumeInfo → Text
name_of_info v = v.name

abbrev pub name_of_summary : VolumeSummary → Text
name_of_summary v = v.name

infos_of : Detector → List ContainerDetail → List VolumeSummary → List VolumeInfo
infos_of d details vols = map (λ v. volume_info d v.name (users_of v.name details)) vols

infos_of-names :
    (d : Detector) (details : List ContainerDetail) (vols : List VolumeSummary)
    → map name_of_info (infos_of d details vols) ≡ map name_of_summary vols
unfolding infos_of volume_info
infos_of-names d details [] = refl
infos_of-names d details (v ∷ vols) = ap (◌∷◌ v.name) (infos_of-names d details vols)

infos_of-HasValidName :
    (d : Detector) (details : List ContainerDetail) (vols : List VolumeSummary)
    → All HasValidName (infos_of d details vols)
unfolding infos_of
infos_of-HasValidName d details [] = tt
infos_of-HasValidName d details (v ∷ vols) =
    (volume_info-HasValidName d v.name _, infos_of-HasValidName d details vols)

-- The volumes that were listed, each as often as it was listed, are found in the order of their names,
-- and the name of each proposed job is valid, whatever the containers are.
pub volume_infos_lem :
    (d : Detector) (details : List ContainerDetail) (vols : List VolumeSummary)
    → InOrder info_before (volume_infos d details vols)
      × Perm (map name_of_info (volume_infos d details vols)) (map name_of_summary vols)
      × All HasValidName (volume_infos d details vols)
unfolding volume_infos infos_of info_before
volume_infos_lem d details vols = (
  sort_by-InOrder info_before info_before-IsComparison (λ a b. text_lt-asymm a.name b.name)
      (infos_of d details vols),
  subst (Perm _) (infos_of-names d details vols)
      (Perm.map name_of_info (sort_by-perm info_before (infos_of d details vols))),
  All-sort_by info_before HasValidName (infos_of d details vols)
      (infos_of-HasValidName d details vols),
)

-- A request that the scan makes: it lists volumes or running containers, or inspects a container.
abbrev pub IsQuery : Docker.Client → Call → Type 0
IsQuery c call =
    (call ≡ run_command (Docker.bin c) list_volumes_args none)
    ⊎ (call ≡ run_command (Docker.bin c) (list_containers_args false) none)
    ⊎ ((id : Text) × (call ≡ run_command (Docker.bin c) (codes "inspect" ∷ id ∷ []) none))
