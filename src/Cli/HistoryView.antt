-- ===== src/Cli/HistoryView.antt =====
-- The history of runs as a map from the names of jobs to their latest entries.
use dockvault.Common.{◌≡◌, Option, some, List, [], ◌∷◌, Text, ◌=t◌, if◌then◌else◌}
use dockvault.Workspace.History.{ManifestEntry}
use dockvault.Workspace.HistoryLaws.{entry_of, RecordedOnce}
use dockvault.Effects.{World, ok}
use dockvault.Workspace.History.{load_manifest}
use dockvault.Cli.Backup.{JobResult, entry_for}

-- The abstract history: a lookup, and its update at one name.
abbrev pub View : Type 0
View = Text → Option ManifestEntry

abbrev pub updated : ManifestEntry → View → View
updated e view name = if e.job_name =t name then some e else view name

-- The results of a run are entered in their order.
abbrev pub updated_all : List JobResult → View → View
updated_all [] view = view
updated_all (r ∷ rs) view = updated_all rs (updated (entry_for r) view)

abbrev pub view_of : List ManifestEntry → View
view_of es name = entry_of name es

-- The history that is read before the results of a run were recorded, and the one that is read after.
pub record Recorded (root : Text) (rs : List JobResult) (w w' : World) : Type 0 where
  pub old : List ManifestEntry
  pub new : List ManifestEntry
  pub read_before : (load_manifest root w).0 ≡ ok old
  pub read_after : (load_manifest root w').0 ≡ ok new
  pub updates : (name : Text) → view_of new name ≡ updated_all rs (view_of old) name
  pub once : RecordedOnce old → RecordedOnce new
