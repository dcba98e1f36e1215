-- ===== src/Generator/Wizard.antt =====
-- The loop of internal/generator/wizard.go. It takes fuel, one unit for each round, and gives `none` if
-- the fuel runs out. `Run` leaves its list of host paths empty, so a candidate is a volume.
use dockvault.Common.{
  ℕ, zero, suc, Bool, true, false, Option, none, some, List, [], ◌∷◌, ◌++◌, inl, inr, Text, codes,
  decimal, quoted, map, if◌then◌else◌,
}
use dockvault.Effects.{panic, Answer, M, ◌>>=◌, ◌>>◌, return, attempt, wrap, lift}
use dockvault.Utils.Selectors.{say, select_one, confirm}
use dockvault.Backup.Job.{Job}
use dockvault.Backup.Clients.{DockerClient}
use dockvault.Detector.Findings.{VolumeInfo, Detector}
use dockvault.Detector.Scan.{scan_volumes}
use dockvault.Workspace.JobFile.{save_job}
use dockvault.Generator.{create_from_volume}
use dockvault.Generator.Dialogue.{◌>>?◌, prompt_job_overrides, prompt_missing_credentials}

unfoldable label_of : VolumeInfo → Text
label_of v =
    v.job_name ++ (codes "  (" ++ (v.service_type ++ (codes ", volume " ++ (v.name ++ codes ")"))))

-- The job is saved if the operator agrees; whether it was.
unfoldable save_if : Text → Job → Bool → M (Option Bool)
save_if root job false = say (codes "Skipped.") >> return (some false)
save_if root job true =
    wrap (codes "saving job " ++ (quoted job.name ++ codes ": ")) (save_job root job)
    >> say (codes "Created job " ++ quoted job.name)
    >> return (some true)

unfoldable finish_job : ℕ → Option DockerClient → Text → Answer Job → M (Option Bool)
finish_job fuel dc root (inl e) = say (codes "error: " ++ e.message) >> return (some false)
finish_job fuel dc root (inr job) = do
  say (codes "\nJob " ++ (quoted job.name ++ (codes " -> " ++ job.google_drive_path)))
  filled ← prompt_missing_credentials dc job
  prompt_job_overrides fuel filled >>? λ done.
      confirm (codes "Create job " ++ (quoted done.name ++ codes "?")) true >>= save_if root done

unfoldable make_job : ℕ → Option DockerClient → Text → VolumeInfo → M (Option Bool)
make_job fuel dc root v = attempt (create_from_volume root v true) >>= finish_job fuel dc root

-- The candidate at an index, which panics out of range.
unfoldable with_candidate : (VolumeInfo → M (Option Bool)) → List VolumeInfo → ℕ → M (Option Bool)
with_candidate f [] i = lift (panic (codes "index out of range"))
with_candidate f (v ∷ vols) zero = f v
with_candidate f (v ∷ vols) (suc i) = with_candidate f vols i

-- The choice of an option: the first ends the dialogue, with the number of jobs that were created.
unfoldable picked : (ℕ → M (Option ℕ)) → (ℕ → M (Option Bool)) → ℕ → ℕ → M (Option ℕ)
picked again make created zero = return (some created)
picked again make created (suc i) = make i >>? λ made. again (if made then suc created else created)

unfoldable rounds : ℕ → Option DockerClient → Text → List VolumeInfo → ℕ → M (Option ℕ)
rounds zero dc root vols created = return none
rounds (suc fuel) dc root vols created = do
  say []
  i ← select_one (codes "Select an item to create a job for:") (codes "Finish" ∷ map label_of vols)
  picked (rounds fuel dc root vols) (with_candidate (make_job (suc fuel) dc root) vols) created i

unfoldable summary_line : Text → Option ℕ → M (Option (Unit {0}))
summary_line root none = return none
summary_line root (some created) =
    say (codes "\n" ++ (decimal created ++ (codes " job(s) created under " ++ root)))
    >> return (some tt)

unfoldable offer : ℕ → Option DockerClient → Text → List VolumeInfo → M (Option (Unit {0}))
offer fuel dc root [] =
    say (codes "No volumes or host paths found to generate jobs for.") >> return (some tt)
offer fuel dc root (v ∷ vols) = rounds fuel dc root (v ∷ vols) 0 >>= summary_line root

unfoldable run_wizard : ℕ → Option DockerClient → Text → Detector → M (Option (Unit {0}))
run_wizard fuel dc root det =
    wrap (codes "scanning volumes: ") (scan_volumes det) >>= offer fuel dc root
