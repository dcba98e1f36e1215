-- ===== src/Backup/LocalCopy.antt =====
-- internal/backup/local_retention.go
use dockvault.Common.{
  Bool, true, false, List, [], ◌∷◌, ◌++◌, inl, inr, ◌||◌, Text, codes, null, path_join, path_base,
  has_suffix, if◌then◌else◌, ℤ, pos, nonpos, format_rfc3339, sort_by,
}
use dockvault.Effects.{
  ErrorKind, not_exist, already_exists, other, DirEntry, FileStat, bytes, Answer, to_result, M,
  ◌>>=◌, ◌>>◌, return, throw, wrap, lift, attempt, ask, perform, open_file, read_file, write_file,
  mkdir_all, chmod, read_dir, entry_info, remove, now,
}
use dockvault.Rclone.{FileInfo, newer, files_to_prune, manifest_suffix}
use dockvault.Backup.Job.{Job}
use dockvault.Backup.Manifest.{owner_only}

-- `io.Copy` reads the source and writes what it read; either may fail.
unfoldable pub copy_file : Text → Text → M (Unit {0})
copy_file src dst = do
  wrap (codes "opening " ++ (src ++ codes ": ")) (ask (open_file src) to_result)
  wrap (codes "creating " ++ (dst ++ codes ": "))
      (ask (write_file dst owner_only (bytes [])) to_result)
  wrap (codes "copying " ++ (src ++ (codes " -> " ++ (dst ++ codes ": ")))) (do
    content ← ask (read_file src) to_result
    ask (write_file dst owner_only content) to_result)

-- What a local file is in the listing of its directory.
unfoldable pub local_file : Text → Text → FileStat → FileInfo
local_file dir name info = record {
  name = name;
  size = pos info.size;
  mod_time = format_rfc3339 info.mod_time;
  path = path_join (dir ∷ name ∷ []);
}

unfoldable pub is_candidate : DirEntry → Bool
is_candidate e =
    if e.is_dir then false else if has_suffix e.name manifest_suffix then false else true

-- The loop over the entries; one whose information cannot be read is passed over.
unfoldable pub local_files : Text → List DirEntry → M (List FileInfo)
local_files dir [] = return []
local_files dir (e ∷ es) =
    if is_candidate e
    then (do
      info ← attempt (ask (entry_info (path_join (dir ∷ e.name ∷ []))) to_result)
      rest ← local_files dir es
      elim info [ inl _ ↦ return rest | inr i ↦ return (local_file dir e.name i ∷ rest) ])
    else local_files dir es

unfoldable pub is_not_exist : ErrorKind → Bool
is_not_exist not_exist = true
is_not_exist already_exists = false
is_not_exist other = false

unfoldable pub removed : Text → Answer (Unit {0}) → M (Unit {0})
removed path (inr done) = return tt
removed path (inl e) =
    if is_not_exist e.kind
    then return tt
    else throw (record {
      kind = other;
      message = codes "removing " ++ (path ++ (codes ": " ++ e.message));
    })

unfoldable pub remove_files : List FileInfo → M (Unit {0})
remove_files [] = return tt
remove_files (f ∷ fs) = do
  r ← attempt (ask (remove f.path) to_result)
  removed f.path r
  attempt (ask (remove (f.path ++ manifest_suffix)) to_result)
  remove_files fs

unfoldable pub prune_local_copies : Text → ℤ → M (Unit {0})
prune_local_copies dir count = do
  entries ← wrap (codes "listing " ++ (dir ++ codes ": ")) (ask (read_dir dir) to_result)
  files ← local_files dir entries
  t ← perform now
  gone ← lift (files_to_prune t (sort_by newer files) (pos 0) count)
  remove_files gone

-- A warning behind a status: `fmt.Sprintf("%s, <what>: %v", status, err)`.
unfoldable pub warned : Text → Text → Answer (Unit {0}) → Text
warned status what (inr done) = status
warned status what (inl e) = status ++ (codes ", " ++ (what ++ (codes ": " ++ e.message)))

unfoldable pub pruned_copy : Job → Text → Text → M Text
pruned_copy job dir status = do
  r ← attempt (prune_local_copies dir job.local_retention_count)
  return (warned status (codes "local prune warning") r)

unfoldable pub sidecar_copy : Text → Text → Text → M Text
sidecar_copy dir manifest_path status = if null manifest_path then return status else (do
  r ← attempt (copy_file manifest_path (path_join (dir ∷ path_base manifest_path ∷ [])))
  return (warned status (codes "local manifest copy warning") r))

-- What follows the copy of the archive, and what follows the creation of the directory.
unfoldable pub archive_copied : Job → Text → Text → Text → Answer (Unit {0}) → M Text
archive_copied job dir manifest_path status (inl e) =
    return (warned status (codes "local copy warning") (inl e))
archive_copied job dir manifest_path status (inr done) = do
  status' ← sidecar_copy dir manifest_path status
  pruned_copy job dir status'

unfoldable pub directory_made : Job → Text → Text → Text → Text → Answer (Unit {0}) → M Text
directory_made job dir local_path manifest_path status (inl e) =
    return (warned status (codes "local copy warning: creating " ++ dir) (inl e))
directory_made job dir local_path manifest_path status (inr done) = do
  attempt (ask (chmod dir) to_result)
  r ← attempt (copy_file local_path (path_join (dir ∷ path_base local_path ∷ [])))
  archive_copied job dir manifest_path status r

unfoldable pub retain_local_copy : Job → Text → Text → Text → M Text
retain_local_copy job local_path manifest_path status =
    if nonpos job.local_retention_count || null job.local_backup_dir then return status else (do
      let dir = path_join (job.local_backup_dir ∷ job.name ∷ [])
      r ← attempt (ask (mkdir_all dir) to_result)
      directory_made job dir local_path manifest_path status r)
