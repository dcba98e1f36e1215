-- ===== src/Cli/List.antt =====
-- internal/cli/list.go
use dockvault.Common.{
  Bool, true, false, Option, none, some, List, [], ◌∷◌, ◌++◌, inl, inr, Text, codes, ◌=t◌, null,
  parse_rfc3339, format_label, if◌then◌else◌,
}
use dockvault.Effects.{Answer, M, ◌>>=◌, ◌>>◌, return, attempt}
use dockvault.Utils.Selectors.{say}
use dockvault.Backup.Job.{Job}
use dockvault.Workspace.Paths.{home, exists}
use dockvault.Workspace.JobFile.{list_job_names, load_job}
use dockvault.Workspace.History.{ManifestEntry, load_manifest}
use dockvault.Cli.Session.{Global}

unfoldable pub find_manifest_entry : List ManifestEntry → Text → Option ManifestEntry
find_manifest_entry [] name = none
find_manifest_entry (e ∷ es) name =
    let rest = find_manifest_entry es name in if e.job_name =t name then some e else rest

-- The times of the history are texts here: one that does not parse, which Go refuses when it loads the
-- history, is printed as it is.
unfoldable pub backup_time : Text → Text
backup_time t = elim (parse_rfc3339 t) [ none ↦ t | some i ↦ format_label i ]

unfoldable pub last_backup_line : Option ManifestEntry → Text
last_backup_line none = codes "  last backup: never"
last_backup_line (some e) =
    if null e.last_backup
    then codes "  last backup: never"
    else codes "  last backup: "
      ++ (backup_time e.last_backup ++ (codes " (" ++ (e.last_backup_status ++ codes ")")))

-- The branch of a job and the indentation of its details.
unfoldable pub branch : Bool → Text
branch true = codes "└── "
branch false = codes "├── "

unfoldable pub detail_prefix : Bool → Text
detail_prefix true = codes "    "
detail_prefix false = codes "│   "

unfoldable pub print_job : Bool → List ManifestEntry → Bool → Text → Answer Job → M (Unit {0})
print_job detailed history last name (inl e) =
    say (branch last ++ (name ++ (codes "  (error loading: " ++ (e.message ++ codes ")"))))
print_job detailed history last name (inr job) =
    say (
      branch last
      ++ (name
          ++ (codes "  ("
              ++ (job.backup_type ++ (codes " -> " ++ (job.google_drive_path ++ codes ")"))))))
    >> (if detailed
        then say (detail_prefix last ++ last_backup_line (find_manifest_entry history name))
        else return tt)

unfoldable pub print_jobs : Text → Bool → List ManifestEntry → List Text → M (Unit {0})
print_jobs root detailed history [] = return tt
print_jobs root detailed history (name ∷ names) = do
  r ← attempt (load_job root name)
  print_job detailed history (null names) name r
  print_jobs root detailed history names

unfoldable pub list_jobs : Text → Bool → List Text → M (Unit {0})
list_jobs root detailed [] = say (codes "  (no jobs - run `dockvault generate` first)")
list_jobs root detailed (n ∷ ns) = do
  history ← if detailed then load_manifest root else return []
  print_jobs root detailed history (n ∷ ns)

unfoldable pub run_list : Global → Bool → M (Unit {0})
run_list g detailed = do
  root ← home g.home
  present ← exists root
  if present
      then (do names ← list_job_names root; say root; list_jobs root detailed names)
      else say (codes "No workspace found at " ++ root)
